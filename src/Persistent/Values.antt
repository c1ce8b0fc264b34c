-- ===== src/Persistent/Values.antt =====
-- The typed reads, insertions and invalidations of PersistentCache in crates/cache/src/lib.rs.
use quic_kfs.Prelude.{
  ℕ, Bool, true, false, not, ◌&&◌, Option, none, some, List, [], ◌∷◌, ◌++◌, map, ◌==◌,
  if◌then◌else◌, any, retain,
}
use quic_kfs.Protocol.Messages.{Metadata, DirectoryEntry, FilesystemStats}
use quic_kfs.Cache.Keys.{RevisionKey}
use quic_kfs.Persistent.Store.{
  serialization, corrupt_entry, CacheResult, err, ok, Bytes, EntryKey, metadata_key, directory_key,
  range_key, stats_key, key_eq, key_node, DiskEntry, Entries, Encoding, Files, Call, and_then,
  ◌>>=◌, fail,
}
use quic_kfs.Persistent.Commits.{remove_keys_locked}
use quic_kfs.Persistent.Inserts.{insert_entries}
use quic_kfs.Persistent.Reads.{read_disk_entry, is_corrupt, read_key, remove_matching}

abbrev pub encoded : Option Bytes → CacheResult Bytes
encoded none = err serialization
encoded (some bytes) = ok bytes

-- The directory's entries with their metadata, in the order of insertion.
unfoldable pub metadata_entries :
    Encoding → List DirectoryEntry → CacheResult (List (EntryKey × Bytes))
metadata_entries codec [] = ok []
metadata_entries codec (e ∷ es) = elim (codec.metadata_to_vec e.metadata) [
  | none ↦ err serialization
  | some bytes ↦ elim (metadata_entries codec es) [
    | err x ↦ err x
    | ok rest ↦ ok ((metadata_key e.node, bytes) ∷ rest)
  ]
]

abbrev pub is_directory : EntryKey → Bool
is_directory (directory_key _) = true
is_directory _ = false

abbrev pub lists_node : ℕ → Option (List DirectoryEntry) → Bool
lists_node node none = true
lists_node node (some entries) = any (λ e. e.node == node) entries

abbrev pub belongs_to : ℕ → EntryKey → Bool
belongs_to node key = elim (key_node key) [ none ↦ false | some other ↦ other == node ]

module _ {W : Type 0} (files : Files W) (codec : Encoding) where
  -- A value that cannot be decoded is removed.
  unfoldable pub decode_value : {A : Type 0} → (Bytes → Option A) → EntryKey → Bytes → Call W A
  decode_value decode key bytes s = elim (decode bytes) [
    | none ↦ and_then (remove_keys_locked files codec (key ∷ []) s) (λ _. fail corrupt_entry)
    | some value ↦ (s, ok value)
  ]

  unfoldable pub decode_read :
      {A : Type 0} → (Bytes → Option A) → EntryKey → Option Bytes → Call W (Option A)
  decode_read decode key none s = (s, ok none)
  decode_read decode key (some bytes) s =
      and_then (decode_value decode key bytes s) (λ v t. (t, ok (some v)))

  unfoldable pub get_value : {A : Type 0} → (Bytes → Option A) → EntryKey → Call W (Option A)
  get_value decode key s = and_then (read_key files codec key s) (decode_read decode key)

  -- Metadata under another node is removed as well.
  unfoldable pub check_node : ℕ → Option Metadata → Call W (Option Metadata)
  check_node node none s = (s, ok none)
  check_node node (some value) s =
      if value.node == node
      then (s, ok (some value))
      else and_then (remove_keys_locked files codec (metadata_key node ∷ []) s)
          (λ _. fail corrupt_entry)

  unfoldable pub get_metadata_value : ℕ → Call W (Option Metadata)
  get_metadata_value node =
      get_value codec.metadata_from_slice (metadata_key node) >>= check_node node

  unfoldable pub get_directory_value : RevisionKey → Call W (Option (List DirectoryEntry))
  get_directory_value key = get_value codec.directory_from_slice (directory_key key)

  unfoldable pub get_filesystem_stats_value : Call W (Option FilesystemStats)
  get_filesystem_stats_value = get_value codec.stats_from_slice stats_key

  unfoldable pub insert_entry : EntryKey → Option Bytes → Call W (Unit {0})
  insert_entry key bytes s =
      and_then (s, encoded bytes) (λ b. insert_entries files codec ((key, b) ∷ []))

  unfoldable pub insert_metadata_value : Metadata → Call W (Unit {0})
  insert_metadata_value value = insert_entry (metadata_key value.node) (codec.metadata_to_vec value)

  unfoldable pub insert_directory_value : RevisionKey → List DirectoryEntry → Call W (Unit {0})
  insert_directory_value key value = insert_entry (directory_key key) (codec.directory_to_vec value)

  unfoldable pub insert_filesystem_stats_value : FilesystemStats → Call W (Unit {0})
  insert_filesystem_stats_value value = insert_entry stats_key (codec.stats_to_vec value)

  unfoldable pub insert_directory_snapshot_value :
      RevisionKey → List DirectoryEntry → Call W (Unit {0})
  insert_directory_snapshot_value key value s =
      and_then (s, encoded (codec.directory_to_vec value))
        (λ listing t.
          and_then (t, metadata_entries codec value)
            (λ entries. insert_entries files codec ((directory_key key, listing) ∷ entries)))

  unfoldable pub invalidate_metadata : ℕ → Call W (Unit {0})
  invalidate_metadata node = remove_matching files codec (key_eq (metadata_key node))

  unfoldable pub invalidate_directories : ℕ → Call W (Unit {0})
  invalidate_directories node =
      remove_matching files codec (λ key. is_directory key && belongs_to node key)

  abbrev pub is_range : EntryKey → Bool
  is_range (range_key _) = true
  is_range _ = false

  unfoldable pub invalidate_ranges : ℕ → Call W (Unit {0})
  invalidate_ranges node = remove_matching files codec (λ key. is_range key && belongs_to node key)

  -- Whether a stored listing names the node; a listing that cannot be read or decoded counts.
  unfoldable pub listing_names : ℕ → DiskEntry → Call W Bool
  listing_names node entry s =
      let r = read_disk_entry files codec entry s in
      elim r.1 [
        | ok bytes ↦ (r.0, ok (lists_node node (codec.directory_from_slice bytes)))
        | err x ↦ if is_corrupt x then (r.0, ok true) else (r.0, err x)
      ]

  unfoldable pub listings_with : ℕ → Entries → Call W (List EntryKey)
  listings_with node [] s = (s, ok [])
  listings_with node ((key, entry) ∷ rest) s = and_then (listing_names node entry s) (λ named t.
      and_then (listings_with node rest t) (λ keys u. (u, ok (if named then key ∷ keys else keys))))

  unfoldable pub invalidate_directories_containing : ℕ → Call W (Unit {0})
  invalidate_directories_containing node s =
      and_then (listings_with node (retain (λ e. is_directory e.0) s.state.entries) s)
        (remove_keys_locked files codec)

  -- The node's own entries, and the listings of other nodes that name it.
  unfoldable pub invalidate_node : ℕ → Call W (Unit {0})
  invalidate_node node s =
      let own = retain (belongs_to node) (map (λ e. e.0) s.state.entries) in
      let others = retain (λ e. is_directory e.0 && not (belongs_to node e.0)) s.state.entries in
      and_then (listings_with node others s) (λ keys. remove_keys_locked files codec (own ++ keys))
