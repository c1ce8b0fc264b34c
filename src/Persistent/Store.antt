-- ===== src/Persistent/Store.antt =====
-- EntryKey, DiskEntry, PersistentState, DeferredCommits, Manifest and CacheError of
-- crates/cache/src/lib.rs, with the files and the encodings that the persistent cache stands on. A
-- name, a digest and a text are lists of bytes; a namespace is a number.
use quic_kfs.Prelude.{ℕ, Bool, true, false, ◌&&◌, Option, none, some, List, [], ◌∷◌, ◌==◌}
use quic_kfs.Protocol.Messages.{Metadata, DirectoryEntry, FilesystemStats}
use quic_kfs.Cache.Keys.{RevisionKey, RangeKey, revision_eq, range_eq}

-- CacheError, without the texts.
pub data CacheError : Type 0 where
  io serialization invalid_namespace unsafe_storage cache_in_use invalid_size_limit : CacheError
  invalid_range entry_too_large invalid_manifest namespace_mismatch corrupt_entry : CacheError
  state_unavailable : CacheError

pub data CacheResult {ℓ} (A : Type ℓ) : Type ℓ where
  err : CacheError → CacheResult A
  ok : A → CacheResult A

abbrev pub Bytes : Type 0
Bytes = List ℕ

unfoldable pub bytes_eq : Bytes → Bytes → Bool
bytes_eq [] [] = true
bytes_eq [] (b ∷ bs) = false
bytes_eq (a ∷ as') [] = false
bytes_eq (a ∷ as') (b ∷ bs) = a == b && bytes_eq as' bs

pub data EntryKey : Type 0 where
  metadata_key : ℕ → EntryKey
  directory_key : RevisionKey → EntryKey
  range_key : RangeKey → EntryKey
  stats_key : EntryKey

unfoldable pub key_eq : EntryKey → EntryKey → Bool
key_eq (metadata_key a) (metadata_key b) = a == b
key_eq (directory_key a) (directory_key b) = revision_eq a b
key_eq (range_key a) (range_key b) = range_eq a b
key_eq stats_key stats_key = true
key_eq _ _ = false

unfoldable pub key_node : EntryKey → Option ℕ
key_node (metadata_key node) = some node
key_node (directory_key key) = some key.node
key_node (range_key key) = some key.file.node
key_node stats_key = none

pub record DiskEntry : Type 0 where
  pub key : EntryKey
  pub file_name : Bytes
  pub stored_length : ℕ
  pub sha256 : Bytes
  pub last_access : ℕ

-- The map of entries is an association list, in the order in which it is walked.
abbrev pub Entries : Type 0
Entries = List (EntryKey × DiskEntry)

pub record PersistentState : Type 0 where
  pub clock : ℕ
  pub payload_bytes : ℕ
  pub entries : Entries

pub record DeferredCommits : Type 0 where
  pub active : Bool
  pub dirty : Bool
  pub pending_removals : List Bytes

pub record Manifest : Type 0 where
  pub format_version : ℕ
  pub namespace : ℕ
  pub clock : ℕ
  pub entries : List DiskEntry

-- serde_json, SHA-256 and hexadecimal digits; `none` is a serialisation that fails.
pub record Encoding : Type 0 where
  pub key_to_vec : EntryKey → Option Bytes
  pub manifest_to_vec : Manifest → Option Bytes
  pub manifest_from_slice : Bytes → Option Manifest
  pub metadata_to_vec : Metadata → Option Bytes
  pub metadata_from_slice : Bytes → Option Metadata
  pub directory_to_vec : List DirectoryEntry → Option Bytes
  pub directory_from_slice : Bytes → Option (List DirectoryEntry)
  pub stats_to_vec : FilesystemStats → Option Bytes
  pub stats_from_slice : Bytes → Option FilesystemStats
  pub sha256 : Bytes → Bytes
  pub hex : Bytes → Bytes

-- The errors of the host's files: of I/O, and storage that is not private.
pub data FileError : Type 0 where
  io_error not_private : FileError

pub data FileResult {ℓ} (A : Type ℓ) : Type ℓ where
  failed : FileError → FileResult A
  done : A → FileResult A

-- An opened file has a size, and gives at most as many bytes as are asked of it.
pub data Opened : Type 0 where
  missing : Opened
  unreadable : FileError → Opened
  opened : ℕ → (ℕ → FileResult Bytes) → Opened

-- What the cache does with the files of its directory.
pub record Files (W : Type 0) : Type 0 where
  pub write_private_atomic : Bytes → Bytes → W → W × FileResult (Unit {0})
  pub open_private_file : Bytes → W → W × Opened
  pub remove_cache_file : Bytes → W → W × FileResult (Unit {0})
  pub sync_directory : W → W × FileResult (Unit {0})
  pub read_dir : W → W × FileResult (List Bytes)

-- PersistentCache, in the world that holds its files.
pub record Store (W : Type 0) : Type 0 where
  pub namespace : ℕ
  pub maximum_payload_bytes : ℕ
  pub state : PersistentState
  pub deferred : DeferredCommits
  pub manifest_writes : ℕ
  pub world : W

abbrev pub Call : Type 0 → Type 0 → Type 0
Call W R = Store W → Store W × CacheResult R

infixl 5 ◌>>=◌ ◌>>◌
abbrev pub and_then :
    {W A B : Type 0} → Store W × CacheResult A → (A → Call W B) → Store W × CacheResult B
and_then (s, err e) f = (s, err e)
and_then (s, ok a) f = f a s

abbrev pub ◌>>=◌ : {W A B : Type 0} → Call W A → (A → Call W B) → Call W B
◌>>=◌ c f s = and_then (c s) f

abbrev pub ◌>>◌ : {W A B : Type 0} → Call W A → Call W B → Call W B
◌>>◌ c d s = and_then (c s) (λ _. d)

abbrev pub pure : {W A : Type 0} → A → Call W A
pure a s = (s, ok a)

abbrev pub fail : {W A : Type 0} → CacheError → Call W A
fail e s = (s, err e)

-- A step that computes a result and changes nothing.
abbrev pub give : {W A : Type 0} → CacheResult A → Call W A
give r s = (s, r)

abbrev pub cache_error : FileError → CacheError
cache_error io_error = io
cache_error not_private = unsafe_storage

abbrev pub result_of : {A : Type 0} → FileResult A → CacheResult A
result_of (failed e) = err (cache_error e)
result_of (done a) = ok a

-- A call of the files.
abbrev pub on_files : {W A : Type 0} → (W → W × FileResult A) → Call W A
on_files f s = let r = f s.world in (record s { world = r.0 }, result_of r.1)
