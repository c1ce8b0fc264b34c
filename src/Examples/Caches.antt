-- ===== src/Examples/Caches.antt =====
-- Runs of the persistent cache on the disk in memory.
use quic_kfs.Prelude.{
  ℕ, zero, suc, ◌≤◌, ◌≡◌, refl, inl, Bool, true, false, some, List, [], ◌∷◌, ◌++◌, arith, length,
}
use quic_kfs.Cache.Keys.{RevisionKey, RangeKey}
use quic_kfs.Cache.Content.{read_at}
use quic_kfs.Persistent.Store.{
  ok, Bytes, EntryKey, metadata_key, range_key, DiskEntry, PersistentState, Store,
}
use quic_kfs.Persistent.Table.{entry_of, evict_to_budget}
use quic_kfs.Persistent.Commits.{manifest_bytes}
use quic_kfs.Persistent.Reads.{read_key}
use quic_kfs.Persistent.Ranges.{get_range_value}
use quic_kfs.Persistent.Opening.{decode_manifest}
use quic_kfs.Cache.Keys.{
  assemble_loop, assemble_range, get_range, meets, ranges_overlap, segment_le, take_segment,
  valid_range_payload,
}
use quic_kfs.Persistent.Commits.{
  begin_deferred_commits, commit_state, flush_deferred_commits, flush_removals, obsolete_names,
  remove_keys_locked, settle, write_manifest, remove_unreferenced_files, references,
}
use quic_kfs.Persistent.Ranges.{
  answer_range, is_candidate, read_segment, read_segments, remove_corrupt, segment_of,
}
use quic_kfs.Persistent.Reads.{
  is_hex_digit, matching_keys, or_remove, read_disk_entry, read_entry, remove_matching,
  valid_cache_file_name, verify,
}
use quic_kfs.Persistent.Store.{bytes_eq, key_eq}
use quic_kfs.Persistent.Table.{
  evict_turns, older, oldest, put, remove_keys, set_access, take_out, touch_entries, without,
  splice, replace_old, next_clock,
}
use quic_kfs.Persistent.Inserts.{
  insert_entries, prepare, prepare_entry, file_name_of, store_prepared, is_current, write_payloads,
  finish_insert, splice_in, propose,
}
use quic_kfs.Persistent.Histories.{cache_call}
use quic_kfs.Prelude.Lex.{lex_le}
use quic_kfs.Prelude.Sorting.{insert, sort_by}
use quic_kfs.Persistent.Stored.{Payloads, IsTrue}
use quic_kfs.Persistent.Answers.{IsAnswer}
use quic_kfs.Persistent.Budget.{IsCounted, evict_to_budget-IsCounted}
use quic_kfs.Persistent.Content.{IsContent}
use quic_kfs.Persistent.Histories.{
  CacheCall, insertion, node_invalidation, listing_invalidation, removal, batch_begins, batch_ends,
  cache_calls, after_calls, cache_calls-IsAnswer,
}
use quic_kfs.Persistent.Limits.{IsLimited, cache_calls-IsLimited}
use quic_kfs.Persistent.Faithful.{cache_calls-read_at}
use quic_kfs.Persistent.Reopening.{decode_manifest_round_trip}
use quic_kfs.Examples.Disk.{
  Disk, memory_files, memory_files-IsDisk, contents, plain, plain-IsCollisionFree, plain_round_trip,
}

abbrev empty_cache : List Bool → Store Disk
empty_cache faults = record {
  namespace = 1;
  maximum_payload_bytes = 6;
  state = record { clock = 0; payload_bytes = 0; entries = [] };
  deferred = record { active = false; dirty = false; pending_removals = [] };
  manifest_writes = 0;
  world = (faults, []);
}

-- The third write fails: the payload of the second insertion.
abbrev failing : Store Disk
failing = empty_cache (false ∷ false ∷ true ∷ [])

abbrev old_payload : Bytes
old_payload = 97 ∷ 97 ∷ 97 ∷ 97 ∷ []

abbrev new_payload : Bytes
new_payload = 98 ∷ 98 ∷ 98 ∷ 98 ∷ []

abbrev replace_failing : List CacheCall
replace_failing =
    insertion ((metadata_key 5, old_payload) ∷ [])
    ∷ insertion ((metadata_key 5, new_payload) ∷ [])
    ∷ listing_invalidation 5
    ∷ node_invalidation 6
    ∷ []

abbrev Nothing : Payloads
Nothing k b = ⊥

empty-IsTrue :
    (faults : List Bool) (Stored : Payloads)
    → IsTrue memory_files plain contents memory_files-IsDisk plain-IsCollisionFree 6 Stored
        (empty_cache faults)
unfolding entry_of
empty-IsTrue faults Stored = (refl, λ k e h. absurd (ground arith))

cache_calls-IsAnswer_example :
    IsAnswer
      (after_calls memory_files plain replace_failing Nothing failing)
      (metadata_key 5)
      (read_key memory_files plain
        (metadata_key 5)
        (cache_calls memory_files plain replace_failing failing)).1
cache_calls-IsAnswer_example =
    cache_calls-IsAnswer memory_files plain contents memory_files-IsDisk plain-IsCollisionFree
      Nothing 6 replace_failing (metadata_key 5) failing (omega arith)
      (empty-IsTrue (false ∷ false ∷ true ∷ []) Nothing)

-- Three insertions in a batch, of which the budget holds one.
abbrev batch : List CacheCall
batch =
    batch_begins
    ∷ insertion ((metadata_key 5, old_payload) ∷ (metadata_key 6, new_payload) ∷ [])
    ∷ insertion ((metadata_key 7, new_payload) ∷ [])
    ∷ batch_ends
    ∷ removal (λ k. true)
    ∷ []

cache_calls-IsLimited_example :
    IsLimited memory_files plain 6 (cache_calls memory_files plain batch failing)
cache_calls-IsLimited_example =
    cache_calls-IsLimited memory_files plain 6 batch failing
      (refl, ((refl, tt), omega arith, omega arith))

abbrev file : RevisionKey
file = record { node = 3; revision = 4 }

-- A file that holds one byte everywhere.
abbrev uniform : RevisionKey → ℕ → ℕ
uniform f x = 97

abbrev range_calls : List CacheCall
range_calls =
    batch_begins
    ∷ insertion ((range_key (record { file = file; offset = 0; length = 4 }), old_payload) ∷ [])
    ∷ []

abbrev inner : RangeKey
inner = record { file = file; offset = 1; length = 2 }

inner_read :
    (get_range_value memory_files plain inner
      (cache_calls memory_files plain range_calls (empty_cache []))).1
    ≡ ok (some (97 ∷ 97 ∷ []))
unfolding get_range_value cache_calls entry_of evict_to_budget manifest_bytes read_key assemble_loop
    assemble_range get_range meets ranges_overlap segment_le take_segment valid_range_payload
    begin_deferred_commits commit_state flush_deferred_commits flush_removals obsolete_names
    remove_keys_locked settle write_manifest remove_unreferenced_files references answer_range
    is_candidate read_segment read_segments remove_corrupt segment_of is_hex_digit matching_keys
    or_remove read_disk_entry read_entry remove_matching valid_cache_file_name verify bytes_eq
    key_eq evict_turns older oldest put remove_keys set_access take_out touch_entries without splice
    replace_old next_clock insert_entries prepare prepare_entry file_name_of store_prepared
    is_current write_payloads finish_insert splice_in propose cache_call lex_le insert sort_by
inner_read = refl

cache_calls-read_at_example : 97 ∷ 97 ∷ [] ≡ read_at (uniform inner.file) inner.offset inner.length
cache_calls-read_at_example =
    cache_calls-read_at memory_files plain contents memory_files-IsDisk plain-IsCollisionFree 6
      uniform range_calls inner inner (97 ∷ 97 ∷ []) (empty_cache []) (omega arith)
      (refl, ((refl, tt), omega arith, omega arith)) (empty-IsTrue [] (IsContent uniform))
      (tt, ((refl, tt), tt)) (inl (refl, inner_read))

abbrev digits : ℕ → Bytes
digits zero = []
digits (suc n) = 48 ∷ digits n

-- A name of a payload.
abbrev long_name : Bytes
long_name = digits 64 ++ (46 ∷ 98 ∷ 105 ∷ 110 ∷ [])

-- Its entry.
abbrev stored_entry : DiskEntry
stored_entry = record {
  key = metadata_key 5;
  file_name = long_name;
  stored_length = 4;
  sha256 = old_payload;
  last_access = 1;
}

abbrev one_entry : PersistentState
one_entry = record { clock = 1; payload_bytes = 4; entries = (metadata_key 5, stored_entry) ∷ [] }

decode_manifest_round_trip_example :
    (t : PersistentState) × (decode_manifest plain 1
        (2 ∷ 1 ∷ 1 ∷ 5 ∷ 4 ∷ 1 ∷ 68 ∷ (long_name ++ old_payload))
      ≡ ok t)
    × (t.clock ≡ 1)
    × (t.payload_bytes ≡ 4)
    × ((k : EntryKey) → entry_of k t.entries ≡ entry_of k one_entry.entries)
unfolding entry_of manifest_bytes sort_by insert valid_cache_file_name is_hex_digit bytes_eq
decode_manifest_round_trip_example =
    decode_manifest_round_trip plain (empty_cache []) one_entry
      (2 ∷ 1 ∷ 1 ∷ 5 ∷ 4 ∷ 1 ∷ 68 ∷ (long_name ++ old_payload)) plain_round_trip (refl, (refl, tt))
      (refl, tt) (refl, tt) (omega arith) (omega arith) refl

abbrev two_entries : PersistentState
two_entries = record {
  clock = 2;
  payload_bytes = 8;
  entries =
      (metadata_key 5, stored_entry)
      ∷ (metadata_key 6, record stored_entry { key = metadata_key 6; last_access = 2 })
      ∷ [];
}

evict_to_budget-IsCounted_example :
    (t : PersistentState) × (evict_to_budget 6 two_entries ≡ ok t)
    × IsCounted t
    × (t.payload_bytes ≤ 6)
    × (length t.entries ≤ 2)
unfolding entry_of key_eq
evict_to_budget-IsCounted_example =
    evict_to_budget-IsCounted 6 two_entries (refl, (refl, (refl, tt)))
