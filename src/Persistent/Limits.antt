-- ===== src/Persistent/Limits.antt =====
-- The persistent cache of crates/cache/src/lib.rs stays within its bounds over every run, whatever
-- its files do.
use quic_kfs.Prelude.{
  ℕ, ◌≡◌, subst, not, Option, List, [], ◌∷◌, ◌++◌, inl, inr, Option-cases, retain,
}
use quic_kfs.Persistent.Store.{
  CacheResult, ok, Bytes, EntryKey, DiskEntry, PersistentState, Encoding, Files, Store,
}
use quic_kfs.Persistent.Table.{PreparedEntry, entry_of, remove_keys}
use quic_kfs.Persistent.Commits.{
  references, remove_unreferenced_files, remove_file, write_file, manifest_file, manifest_bytes,
  write_manifest, settle, commit_state, remove_keys_locked, flush_removals, flush_deferred_commits,
  leave_batch, begin_deferred_commits,
}
use quic_kfs.Persistent.Inserts.{
  prepare, is_current, propose, write_payloads, splice_in, finish_insert, store_prepared,
  insert_entries,
}
use quic_kfs.Persistent.Reads.{
  read_disk_entry, valid_cache_file_name, or_remove, is_corrupt, read_entry, read_key,
  matching_keys, remove_matching, touch,
}
use quic_kfs.Persistent.Values.{listings_with, invalidate_directories_containing, invalidate_node}
use quic_kfs.Persistent.Keeping.{
  listings_with_keeps, get_range_value_keeps, get_covering_range_value_keeps,
}
use quic_kfs.Persistent.Lookups.{Result-cases}
use quic_kfs.Persistent.Holding.{and_then-lem_on, if_lem_on}
use quic_kfs.Persistent.Bounds.{
  IsBounded, propose-IsBounded, remove_keys-IsBounded, touch-IsBounded,
}
use quic_kfs.Persistent.Histories.{
  CacheCall, insertion, removal, reading, range_reading, cover_reading, node_invalidation,
  listing_invalidation, batch_begins, batch_ends, cache_call, cache_calls,
}

module _ {W : Type 0} (files : Files W) (codec : Encoding) (m : ℕ) where
  abbrev pub IsLimited : Store W → Type 0
  IsLimited t = (t.maximum_payload_bytes ≡ m) × IsBounded m t.state

  remove_unreferenced-IsLimited :
      (names : List Bytes) (s : Store W)
      → IsLimited s
      → IsLimited (remove_unreferenced_files files names s).0
  unfolding remove_unreferenced_files
  remove_unreferenced-IsLimited [] s h = h
  remove_unreferenced-IsLimited (name ∷ names) s h =
      if_lem_on (λ (x : Store W × CacheResult (Unit {0})). IsLimited x.0)
        (references name s.state.entries) (remove_unreferenced-IsLimited names s h)
        (and_then-lem_on IsLimited (remove_file files name s) _ h
          (λ _ t. remove_unreferenced-IsLimited names t))

  write_manifest-IsLimited :
      (q : PersistentState) (s : Store W)
      → IsLimited s
      → IsLimited (write_manifest files codec q s).0
  unfolding write_manifest
  write_manifest-IsLimited q s h =
      and_then-lem_on IsLimited (s, manifest_bytes codec s q) _ h
        (λ bytes t k.
          and_then-lem_on IsLimited (write_file files manifest_file bytes t) _ k (λ _ u l. l))

  commit_state-IsLimited :
      (q : PersistentState) (s : Store W)
      → IsLimited s
      → IsBounded m q
      → IsLimited (commit_state files codec q s).0
  unfolding commit_state settle
  commit_state-IsLimited q s h b =
      if_lem_on (λ (x : Store W × CacheResult (Unit {0})). IsLimited x.0) s.deferred.active (h.0, b)
        (and_then-lem_on IsLimited (write_manifest files codec q s) _
          (write_manifest-IsLimited q s h)
          (λ _ t k.
            and_then-lem_on IsLimited (remove_unreferenced_files files _ _) _
              (remove_unreferenced-IsLimited _ _ (k.0, b)) (λ _ u l. l)))

  remove_keys_locked-IsLimited :
      (keys : List EntryKey) (s : Store W)
      → IsLimited s
      → IsLimited (remove_keys_locked files codec keys s).0
  unfolding remove_keys_locked
  remove_keys_locked-IsLimited [] s h = h
  remove_keys_locked-IsLimited (key ∷ keys) s h =
      elim (Result-cases (remove_keys (key ∷ keys) s.state)) [
        | inl (x, wrong) ↦ rw wrong h
        | inr (q, removed) ↦ rw removed (
            commit_state-IsLimited q s h
              (remove_keys-IsBounded m (key ∷ keys) s.state q h.1 removed))
      ]

  flush-IsLimited : (s : Store W) → IsLimited s → IsLimited (flush_deferred_commits files codec s).0
  unfolding flush_deferred_commits flush_removals
  flush-IsLimited s h =
      if_lem_on (λ (x : Store W × CacheResult (Unit {0})). IsLimited x.0) (not s.deferred.dirty) h
        (and_then-lem_on IsLimited (write_manifest files codec s.state (leave_batch s)) _
          (write_manifest-IsLimited s.state (leave_batch s) h)
          (λ _ t k.
            and_then-lem_on IsLimited (remove_unreferenced_files files _ _) _
              (remove_unreferenced-IsLimited _ _ k) (λ _ u l. l)))

  write_payloads-IsLimited :
      (ps : List PreparedEntry) (written : List Bytes) (s : Store W)
      → IsLimited s
      → IsLimited (write_payloads files ps written s).0
  unfolding write_payloads
  write_payloads-IsLimited [] written s h = h
  write_payloads-IsLimited (p ∷ ps) written s h =
      let r = write_file files p.file_name p.bytes s in
      elim (Result-cases r.1) [
        | inl (x, wrong) ↦ rw (wrong, write_payloads) (remove_unreferenced-IsLimited written r.0 h)
        | inr (_, wrote) ↦
            rw (wrote, write_payloads)
              (write_payloads-IsLimited ps (written ++ p.file_name ∷ []) r.0 h)
      ]

  splice_in-IsLimited :
      (ps : List PreparedEntry) (s : Store W)
      → IsLimited s
      → IsLimited (splice_in files codec ps s).0
  unfolding splice_in
  splice_in-IsLimited ps s h = elim (Result-cases (propose s.maximum_payload_bytes ps s.state)) [
    | inl (x, wrong) ↦ rw wrong h
    | inr (q, proposed) ↦ rw proposed (
        commit_state-IsLimited q s h (
          propose-IsBounded m ps s.state q h.1
            (subst (λ x. propose x ps s.state ≡ ok q) h.0 proposed)))
  ]

  store_prepared-IsLimited :
      (ps : List PreparedEntry) (s : Store W)
      → IsLimited s
      → IsLimited (store_prepared files codec ps s).0
  unfolding store_prepared finish_insert
  store_prepared-IsLimited [] s h = h
  store_prepared-IsLimited (p ∷ ps) s h =
      and_then-lem_on IsLimited (write_payloads files (p ∷ ps) [] s) _
        (write_payloads-IsLimited (p ∷ ps) [] s h)
        (λ names t k.
          remove_unreferenced-IsLimited names (splice_in files codec (p ∷ ps) t).0
            (splice_in-IsLimited (p ∷ ps) t k))

  insert_entries-IsLimited :
      (es : List (EntryKey × Bytes)) (s : Store W)
      → IsLimited s
      → IsLimited (insert_entries files codec es s).0
  unfolding insert_entries
  insert_entries-IsLimited es s h =
      and_then-lem_on IsLimited (s, prepare codec s.maximum_payload_bytes es) _ h
        (λ ps t. store_prepared-IsLimited (retain (λ p. not (is_current t.state.entries p)) ps) t)

  read_disk_entry-IsLimited :
      (e : DiskEntry) (s : Store W) → IsLimited s → IsLimited (read_disk_entry files codec e s).0
  unfolding read_disk_entry
  read_disk_entry-IsLimited e s h =
      if_lem_on (λ (x : Store W × CacheResult Bytes). IsLimited x.0)
        (not (valid_cache_file_name e.file_name)) h h

  touch-IsLimited : (keys : List EntryKey) (s : Store W) → IsLimited s → IsLimited (touch keys s)
  touch-IsLimited keys s h = (h.0, touch-IsBounded m keys s.state h.1)

  read_entry-IsLimited :
      (key : EntryKey) (e : DiskEntry) (s : Store W)
      → IsLimited s
      → IsLimited (read_entry files codec key e s).0
  unfolding read_entry or_remove
  read_entry-IsLimited key e s h =
      let r = read_disk_entry files codec e s in
      let k : IsLimited r.0 = read_disk_entry-IsLimited e s h in
      elim (Result-cases r.1) [
        | inr (b, right) ↦ rw (right, read_entry) (k.0, touch-IsBounded m (key ∷ []) r.0.state k.1)
        | inl (x, wrong) ↦
            rw (wrong, read_entry)
              (if_lem_on (λ (y : Store W × CacheResult (Option Bytes)). IsLimited y.0)
                (is_corrupt x)
                (and_then-lem_on IsLimited (remove_keys_locked files codec (key ∷ []) r.0) _
                  (remove_keys_locked-IsLimited (key ∷ []) r.0 k) (λ _ t l. l))
                k)
      ]

  read_key-IsLimited :
      (key : EntryKey) (s : Store W) → IsLimited s → IsLimited (read_key files codec key s).0
  unfolding read_key
  read_key-IsLimited key s h = elim (Option-cases (entry_of key s.state.entries)) [
    | inl absent ↦ rw (absent, read_key) h
    | inr (e, present) ↦ rw (present, read_key) (read_entry-IsLimited key e s h)
  ]

  cache_call-IsLimited :
      (c : CacheCall) (s : Store W) → IsLimited s → IsLimited (cache_call files codec c s)
  unfolding cache_call begin_deferred_commits remove_matching invalidate_node
      invalidate_directories_containing
  cache_call-IsLimited (insertion es) s h = insert_entries-IsLimited es s h
  cache_call-IsLimited (removal predicate) s h =
      remove_keys_locked-IsLimited (matching_keys predicate s.state.entries) s h
  cache_call-IsLimited (reading key) s h = read_key-IsLimited key s h
  cache_call-IsLimited (range_reading key) s h =
      get_range_value_keeps files codec IsLimited read_disk_entry-IsLimited
        remove_keys_locked-IsLimited touch-IsLimited key s h
  cache_call-IsLimited (cover_reading key) s h =
      get_covering_range_value_keeps files codec IsLimited read_disk_entry-IsLimited
        remove_keys_locked-IsLimited touch-IsLimited key s h
  cache_call-IsLimited (node_invalidation node) s h =
      and_then-lem_on IsLimited (listings_with files codec node _ s) _
        (listings_with_keeps files codec IsLimited read_disk_entry-IsLimited node _ s h)
        (λ keys. remove_keys_locked-IsLimited _)
  cache_call-IsLimited (listing_invalidation node) s h =
      and_then-lem_on IsLimited (listings_with files codec node _ s) _
        (listings_with_keeps files codec IsLimited read_disk_entry-IsLimited node _ s h)
        remove_keys_locked-IsLimited
  cache_call-IsLimited batch_begins s h = h
  cache_call-IsLimited batch_ends s h = flush-IsLimited s h

  -- If the count of a cache is exact and its keys are unique, and it is within its budget and the
  -- limit on entries, then so it is after any insertions, removals, reads, invalidations and
  -- batches, whatever its files answer.
  pub cache_calls-IsLimited :
      (calls : List CacheCall) (s : Store W)
      → IsLimited s
      → IsLimited (cache_calls files codec calls s)
  unfolding cache_calls
  cache_calls-IsLimited [] s h = h
  cache_calls-IsLimited (c ∷ cs) s h =
      cache_calls-IsLimited cs (cache_call files codec c s) (cache_call-IsLimited c s h)
