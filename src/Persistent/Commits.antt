-- ===== src/Persistent/Commits.antt =====
-- write_manifest, commit_state, remove_keys_locked, remove_unreferenced_files, enforce_budget and the
-- deferred commits of crates/cache/src/lib.rs. A poisoned mutex is not modelled.
use quic_kfs.Prelude.{
  ℕ, ◌+◌, ◌%◌, ◌^◌, Bool, true, false, not, none, some, List, [], ◌∷◌, ◌++◌, map, ltb, leb,
  if◌then◌else◌, length, retain, any,
}
use quic_kfs.Prelude.Sorting.{sort_by}
use quic_kfs.Prelude.Lex.{lex_le}
use quic_kfs.Persistent.Store.{
  serialization, invalid_manifest, CacheResult, err, ok, Bytes, bytes_eq, EntryKey, DiskEntry,
  Entries, PersistentState, Manifest, Encoding, Files, Store, Call, and_then, ◌>>=◌, ◌>>◌, on_files,
}
use quic_kfs.Persistent.Table.{evict_to_budget, remove_keys}

abbrev pub cache_format_version : ℕ
cache_format_version = 2

abbrev pub max_manifest_size : ℕ
max_manifest_size = 33554432

-- "manifest.json"
abbrev pub manifest_file : Bytes
manifest_file = 109 ∷ 97 ∷ 110 ∷ 105 ∷ 102 ∷ 101 ∷ 115 ∷ 116 ∷ 46 ∷ 106 ∷ 115 ∷ 111 ∷ 110 ∷ []

unfoldable pub references : Bytes → Entries → Bool
references name entries = any (λ e. bytes_eq e.1.file_name name) entries

abbrev pub name_le : DiskEntry → DiskEntry → Bool
name_le left right = lex_le left.file_name right.file_name

-- The files of the current entries that the proposed ones do not use.
unfoldable pub obsolete_names : Entries → Entries → List Bytes
obsolete_names current proposed =
    map (λ e. e.1.file_name) (retain (λ e. not (references e.1.file_name proposed)) current)

module _ {W : Type 0} where
  abbrev pub set_state : PersistentState → Call W (Unit {0})
  set_state state s = (record s { state = state }, ok tt)

  -- What is pending moves to the caller.
  abbrev pub take_pending : Call W (List Bytes)
  take_pending s = (
    record s { deferred = record s.deferred { dirty = false; pending_removals = [] } },
    ok s.deferred.pending_removals,
  )

  abbrev pub count_manifest : Call W (Unit {0})
  count_manifest s = (record s { manifest_writes = (s.manifest_writes + 1) % 2 ^ 64 }, ok tt)

  unfoldable pub begin_deferred_commits : Store W → Store W
  begin_deferred_commits s = record s { deferred = record s.deferred { active = true } }

  abbrev pub leave_batch : Store W → Store W
  leave_batch s = record s { deferred = record s.deferred { active = false } }

  -- In a batch: the state changes in memory, and the files wait for the manifest.
  abbrev pub defer : PersistentState → List Bytes → Store W → Store W
  defer proposed obsolete s = record s {
    state = proposed;
    deferred = record s.deferred {
      dirty = true;
      pending_removals = s.deferred.pending_removals ++ obsolete;
    };
  }

  abbrev pub manifest_of : Store W → PersistentState → Manifest
  manifest_of s state = record {
    format_version = cache_format_version;
    namespace = s.namespace;
    clock = state.clock;
    entries = sort_by name_le (map (λ e. e.1) state.entries);
  }

module _ {W : Type 0} (codec : Encoding) where
  unfoldable pub manifest_bytes : Store W → PersistentState → CacheResult Bytes
  manifest_bytes s state = elim (codec.manifest_to_vec (manifest_of s state)) [
    | none ↦ err serialization
    | some bytes ↦ if ltb max_manifest_size (length bytes) then err invalid_manifest else ok bytes
  ]

module _ {W : Type 0} (files : Files W) where
  abbrev pub remove_file : Bytes → Call W (Unit {0})
  remove_file name = on_files (files.remove_cache_file name)

  abbrev pub write_file : Bytes → Bytes → Call W (Unit {0})
  write_file name bytes = on_files (files.write_private_atomic name bytes)

  unfoldable pub remove_unreferenced_files : List Bytes → Call W (Unit {0})
  remove_unreferenced_files [] s = (s, ok tt)
  remove_unreferenced_files (name ∷ names) s =
      let rest = and_then (remove_file name s) (λ _. remove_unreferenced_files names) in
      let kept = remove_unreferenced_files names s in
      if references name s.state.entries then kept else rest

  -- What follows the manifest: the state, and then the removals.
  unfoldable pub settle : PersistentState → List Bytes → Call W (Unit {0})
  settle proposed obsolete = do
    set_state proposed
    pending ← take_pending
    remove_unreferenced_files (pending ++ obsolete)
    on_files files.sync_directory

  -- What follows the manifest at the end of a batch.
  unfoldable pub flush_removals : Call W (Unit {0})
  flush_removals = do
    pending ← take_pending
    remove_unreferenced_files pending
    on_files files.sync_directory

module _ {W : Type 0} (files : Files W) (codec : Encoding) where
  unfoldable pub write_manifest : PersistentState → Call W (Unit {0})
  write_manifest state s =
      and_then (s, manifest_bytes codec s state)
        (λ bytes. write_file files manifest_file bytes >> count_manifest)

  unfoldable pub commit_state : PersistentState → Call W (Unit {0})
  commit_state proposed s =
      let obsolete = obsolete_names s.state.entries proposed.entries in
      if s.deferred.active
      then (defer proposed obsolete s, ok tt)
      else and_then (write_manifest proposed s) (λ _. settle files proposed obsolete)

  unfoldable pub remove_keys_locked : List EntryKey → Call W (Unit {0})
  remove_keys_locked [] s = (s, ok tt)
  remove_keys_locked (key ∷ keys) s = and_then (s, remove_keys (key ∷ keys) s.state) commit_state

  unfoldable pub enforce_budget : Call W (Unit {0})
  enforce_budget s =
      if leb s.state.payload_bytes s.maximum_payload_bytes
      then (s, ok tt)
      else and_then (s, evict_to_budget s.maximum_payload_bytes s.state) commit_state

  unfoldable pub flush_deferred_commits : Call W (Unit {0})
  flush_deferred_commits s =
      let left = leave_batch s in
      if not s.deferred.dirty
      then (left, ok tt)
      else and_then (write_manifest left.state left) (λ _. flush_removals files)
