-- ===== src/Persistent/Reads.antt =====
-- read_disk_entry and read_key of crates/cache/src/lib.rs.
use quic_kfs.Prelude.{
  ℕ, Bool, true, false, not, ◌&&◌, ◌||◌, Option, none, some, List, [], ◌∷◌, ltb, leb, ◌==◌,
  if◌then◌else◌, length, any, map, retain, saturating_add, take, drop,
}
use quic_kfs.Persistent.Store.{
  CacheError, invalid_manifest, corrupt_entry, CacheResult, err, ok, Bytes, bytes_eq, EntryKey,
  DiskEntry, Entries, Encoding, Files, failed, done, Opened, missing, unreadable, opened, Store,
  Call, and_then, cache_error,
}
use quic_kfs.Persistent.Table.{entry_of, touch_entries}
use quic_kfs.Persistent.Commits.{remove_keys_locked}
use quic_kfs.Persistent.Inserts.{extension}

-- u8::is_ascii_hexdigit
unfoldable pub is_hex_digit : ℕ → Bool
is_hex_digit b = (leb 48 b && leb b 57) || (leb 65 b && leb b 70) || (leb 97 b && leb b 102)

unfoldable pub valid_cache_file_name : Bytes → Bool
valid_cache_file_name name =
    length name == 68
    && bytes_eq (drop 64 name) extension
    && not (any (λ b. not (is_hex_digit b)) (take 64 name))

abbrev pub is_corrupt : CacheError → Bool
is_corrupt corrupt_entry = true
is_corrupt _ = false

abbrev pub touch : {W : Type 0} → List EntryKey → Store W → Store W
touch keys s = record s { state = touch_entries keys s.state }

module _ (codec : Encoding) where
  -- What the opened file holds, against the entry.
  unfoldable pub verify : ℕ → DiskEntry → Opened → CacheResult Bytes
  verify maximum entry missing = err corrupt_entry
  verify maximum entry (unreadable x) = err (cache_error x)
  verify maximum entry (opened size contents) =
      if not (size == entry.stored_length) || ltb maximum entry.stored_length
      then err corrupt_entry
      else elim (contents (saturating_add entry.stored_length 1)) [
        | failed x ↦ err (cache_error x)
        | done bytes ↦
            if not (length bytes == entry.stored_length)
              || not (bytes_eq (codec.sha256 bytes) entry.sha256)
            then err corrupt_entry
            else ok bytes
      ]

-- The keys of the entries that a predicate selects.
unfoldable pub matching_keys : (EntryKey → Bool) → Entries → List EntryKey
matching_keys predicate entries = retain predicate (map (λ e. e.0) entries)

module _ {W : Type 0} (files : Files W) (codec : Encoding) where
  unfoldable pub read_disk_entry : DiskEntry → Call W Bytes
  read_disk_entry entry s =
      let r = files.open_private_file entry.file_name s.world in
      if not (valid_cache_file_name entry.file_name)
      then (s, err invalid_manifest)
      else (record s { world = r.0 }, verify codec s.maximum_payload_bytes entry r.1)

  -- An entry that is found corrupt is removed.
  unfoldable pub or_remove : {A : Type 0} → EntryKey → CacheError → Call W A
  or_remove key x s =
      if is_corrupt x
      then and_then (remove_keys_locked files codec (key ∷ []) s) (λ _ t. (t, err corrupt_entry))
      else (s, err x)

  unfoldable pub read_entry : EntryKey → DiskEntry → Call W (Option Bytes)
  read_entry key entry s =
      let r = read_disk_entry entry s in
      elim r.1 [ ok bytes ↦ (touch (key ∷ []) r.0, ok (some bytes)) | err x ↦ or_remove key x r.0 ]

  unfoldable pub read_key : EntryKey → Call W (Option Bytes)
  read_key key s = elim (entry_of key s.state.entries) [
    | none ↦ (s, ok none)
    | some entry ↦ read_entry key entry s
  ]

  unfoldable pub remove_matching : (EntryKey → Bool) → Call W (Unit {0})
  remove_matching predicate s =
      remove_keys_locked files codec (matching_keys predicate s.state.entries) s
