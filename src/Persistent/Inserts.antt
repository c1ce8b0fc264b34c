-- ===== src/Persistent/Inserts.antt =====
-- insert_entries of crates/cache/src/lib.rs, in its four phases.
use quic_kfs.Prelude.{
  ℕ, Bool, false, not, ◌&&◌, Option, none, some, List, [], ◌∷◌, ◌++◌, ltb, ◌==◌, if◌then◌else◌,
  length, retain,
}
use quic_kfs.Persistent.Store.{
  serialization, entry_too_large, invalid_manifest, CacheResult, err, ok, Bytes, bytes_eq, EntryKey,
  Entries, PersistentState, Encoding, Files, Call, and_then,
}
use quic_kfs.Persistent.Table.{PreparedEntry, entry_of, splice, evict_to_budget}
use quic_kfs.Persistent.Commits.{remove_unreferenced_files, commit_state, write_file}

abbrev pub max_manifest_entries : ℕ
max_manifest_entries = 100000

-- ".bin"
abbrev pub extension : Bytes
extension = 46 ∷ 98 ∷ 105 ∷ 110 ∷ []

module _ (codec : Encoding) where
  -- The name of the file of a payload: the digest of its key and bytes.
  unfoldable pub file_name_of : EntryKey → Bytes → Option Bytes
  file_name_of key bytes = elim (codec.key_to_vec key) [
    | none ↦ none
    | some key_bytes ↦ some (codec.hex (codec.sha256 (key_bytes ++ bytes)) ++ extension)
  ]

  unfoldable pub prepare_entry : ℕ → EntryKey → Bytes → CacheResult PreparedEntry
  prepare_entry maximum key bytes =
      if ltb maximum (length bytes) then err entry_too_large else elim (file_name_of key bytes) [
        | none ↦ err serialization
        | some file_name ↦ ok (record {
          key = key;
          bytes = bytes;
          file_name = file_name;
          sha256 = codec.sha256 bytes;
          stored_length = length bytes;
        })
      ]

  unfoldable pub prepare : ℕ → List (EntryKey × Bytes) → CacheResult (List PreparedEntry)
  prepare maximum [] = ok []
  prepare maximum ((key, bytes) ∷ es) = elim (prepare_entry maximum key bytes) [
    | err x ↦ err x
    | ok p ↦ elim (prepare maximum es) [ err x ↦ err x | ok ps ↦ ok (p ∷ ps) ]
  ]

-- Whether the manifest's entry is the prepared one already.
unfoldable pub is_current : Entries → PreparedEntry → Bool
is_current entries p = elim (entry_of p.key entries) [
  | none ↦ false
  | some existing ↦
      bytes_eq existing.file_name p.file_name
      && existing.stored_length == p.stored_length
      && bytes_eq existing.sha256 p.sha256
]

-- The new entries, within the budget.
unfoldable pub propose : ℕ → List PreparedEntry → PersistentState → CacheResult PersistentState
propose maximum prepared s = elim (splice prepared s) [
  | err x ↦ err x
  | ok t ↦
      if ltb max_manifest_entries (length t.entries)
      then err invalid_manifest
      else evict_to_budget maximum t
]

-- `result.and(cleanup)`
abbrev pub both : CacheResult (Unit {0}) → CacheResult (Unit {0}) → CacheResult (Unit {0})
both (err x) cleanup = err x
both (ok _) cleanup = cleanup

module _ {W : Type 0} (files : Files W) where
  -- On an error the files written so far are removed, where no entry refers to them.
  unfoldable pub write_payloads : List PreparedEntry → List Bytes → Call W (List Bytes)
  write_payloads [] written s = (s, ok written)
  write_payloads (p ∷ ps) written s =
      let r = write_file files p.file_name p.bytes s in
      elim r.1 [
        | ok _ ↦ write_payloads ps (written ++ p.file_name ∷ []) r.0
        | err x ↦ ((remove_unreferenced_files files written r.0).0, err x)
      ]

module _ {W : Type 0} (files : Files W) (codec : Encoding) where
  unfoldable pub splice_in : List PreparedEntry → Call W (Unit {0})
  splice_in prepared s =
      and_then (s, propose s.maximum_payload_bytes prepared s.state) (commit_state files codec)

  -- The fourth phase, with its cleanup.
  unfoldable pub finish_insert : List PreparedEntry → List Bytes → Call W (Unit {0})
  finish_insert prepared written s =
      let result = splice_in prepared s in
      let cleanup = remove_unreferenced_files files written result.0 in
      (cleanup.0, both result.1 cleanup.1)

  unfoldable pub store_prepared : List PreparedEntry → Call W (Unit {0})
  store_prepared [] s = (s, ok tt)
  store_prepared (p ∷ ps) s = and_then (write_payloads files (p ∷ ps) [] s) (finish_insert (p ∷ ps))

  unfoldable pub insert_entries : List (EntryKey × Bytes) → Call W (Unit {0})
  insert_entries entries s =
      and_then (s, prepare codec s.maximum_payload_bytes entries)
        (λ prepared t. store_prepared (retain (λ p. not (is_current t.state.entries p)) prepared) t)
