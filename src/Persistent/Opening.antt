-- ===== src/Persistent/Opening.antt =====
-- load_manifest, remove_orphaned_files and PersistentCache::open of crates/cache/src/lib.rs. The
-- directories, their permissions and the lock of the namespace are left out.
use quic_kfs.Prelude.{
  ℕ, ◌+◌, Bool, false, not, ◌&&◌, ◌||◌, none, some, List, [], ◌∷◌, ltb, ◌==◌, if◌then◌else◌, length,
  take, checked_add,
}
use quic_kfs.Persistent.Store.{
  invalid_manifest, namespace_mismatch, invalid_size_limit, CacheResult, err, ok, Bytes, bytes_eq,
  DiskEntry, Entries, PersistentState, Manifest, Encoding, Files, failed, done, Opened, missing,
  unreadable, opened, Store, Call, and_then, ◌>>=◌, ◌>>◌, cache_error, on_files,
}
use quic_kfs.Persistent.Table.{entry_of}
use quic_kfs.Persistent.Commits.{
  cache_format_version, max_manifest_size, manifest_file, references, enforce_budget, remove_file,
}
use quic_kfs.Persistent.Inserts.{max_manifest_entries}
use quic_kfs.Persistent.Reads.{valid_cache_file_name}

abbrev pub empty_state : PersistentState
empty_state = record { clock = 0; payload_bytes = 0; entries = [] }

-- The loop over the manifest's entries.
unfoldable pub load_entries : List DiskEntry → PersistentState → CacheResult PersistentState
load_entries [] s = ok s
load_entries (e ∷ es) s =
    if not (valid_cache_file_name e.file_name)
    then err invalid_manifest
    else elim (checked_add s.payload_bytes e.stored_length) [
      | none ↦ err invalid_manifest
      | some total ↦ elim (entry_of e.key s.entries) [
        | some _ ↦ err invalid_manifest
        | none ↦
            load_entries es (record s { payload_bytes = total; entries = (e.key, e) ∷ s.entries })
      ]
    ]

-- The checks of a manifest that was read.
unfoldable pub accept_manifest : ℕ → Manifest → CacheResult PersistentState
accept_manifest namespace manifest =
    if not (manifest.format_version == cache_format_version)
      || ltb max_manifest_entries (length manifest.entries)
    then err invalid_manifest
    else if not (manifest.namespace == namespace)
    then err namespace_mismatch
    else load_entries manifest.entries (record empty_state { clock = manifest.clock })

unfoldable pub decode_manifest : Encoding → ℕ → Bytes → CacheResult PersistentState
decode_manifest codec namespace bytes =
    if ltb max_manifest_size (length bytes)
    then err invalid_manifest
    else elim (codec.manifest_from_slice bytes) [
      | none ↦ err invalid_manifest
      | some manifest ↦ accept_manifest namespace manifest
    ]

-- What the opened manifest holds.
unfoldable pub parse_manifest : Encoding → ℕ → Opened → CacheResult PersistentState
parse_manifest codec namespace missing = ok empty_state
parse_manifest codec namespace (unreadable x) = err (cache_error x)
parse_manifest codec namespace (opened size contents) =
    if ltb max_manifest_size size
    then err invalid_manifest
    else elim (contents (max_manifest_size + 1)) [
      | failed x ↦ err (cache_error x)
      | done bytes ↦ decode_manifest codec namespace bytes
    ]

unfoldable pub load_manifest :
    {W : Type 0} → Files W → Encoding → ℕ → W → W × CacheResult PersistentState
load_manifest files codec namespace w =
    let r = files.open_private_file manifest_file w in (r.0, parse_manifest codec namespace r.1)

-- ".tmp-"
abbrev pub temporary_prefix : Bytes
temporary_prefix = 46 ∷ 116 ∷ 109 ∷ 112 ∷ 45 ∷ []

unfoldable pub is_orphaned : Entries → Bytes → Bool
is_orphaned entries name =
    bytes_eq (take 5 name) temporary_prefix
    || (valid_cache_file_name name && not (references name entries))

module _ {W : Type 0} (files : Files W) (codec : Encoding) where
  -- The loop over the directory's names.
  unfoldable pub remove_orphans : List Bytes → Call W (Unit {0})
  remove_orphans [] s = (s, ok tt)
  remove_orphans (name ∷ names) s =
      let rest = and_then (remove_file files name s) (λ _. remove_orphans names) in
      let kept = remove_orphans names s in if is_orphaned s.state.entries name then rest else kept

  unfoldable pub remove_orphaned_files : Call W (Unit {0})
  remove_orphaned_files = do
    names ← on_files files.read_dir
    remove_orphans names
    on_files files.sync_directory

  abbrev pub with_state : ℕ → ℕ → W → PersistentState → Store W
  with_state namespace maximum w state = record {
    namespace = namespace;
    maximum_payload_bytes = maximum;
    state = state;
    deferred = record { active = false; dirty = false; pending_removals = [] };
    manifest_writes = 0;
    world = w;
  }

  -- The new cache is answered if its first commit and removals succeed.
  unfoldable pub prepare_cache : Store W → Store W × CacheResult (Unit {0})
  prepare_cache = enforce_budget files codec >> remove_orphaned_files

  -- PersistentCache::open
  unfoldable pub open_cache : ℕ → ℕ → W → W × CacheResult (Store W)
  open_cache namespace maximum w =
      let loaded = load_manifest files codec namespace w in
      if maximum == 0 then (w, err invalid_size_limit) else elim loaded.1 [
        | err x ↦ (loaded.0, err x)
        | ok state ↦
            let r = prepare_cache (with_state namespace maximum loaded.0 state) in
            (r.0.world, elim r.1 [ err x ↦ err x | ok _ ↦ ok r.0 ])
      ]
