-- ===== src/Client/Network.antt =====
-- ClientError, the results and the trait RemoteFilesystem of crates/client-core/src/lib.rs, and what
-- the resilient client uses of a network: a connector, a clock and fresh identifiers.
use quic_kfs.Prelude.{ℕ, Bool, Option, List}
use quic_kfs.Protocol.Access.{ErrorCode, FileOpenOptions, RenameMode}
use quic_kfs.Protocol.Messages.{
  Bytes, AttributeChanges, SpecialNodeKind, XattrSetMode, SeekWhence, SafeIoctl,
  FilesystemCapabilities, FilesystemStats, Metadata, DirectoryEntry, DirectoryViewOptions,
  DirectoryView,
}
use quic_kfs.Locks.{FileLock}

-- ClientError, without the texts.
pub data ClientError : Type 0 where
  transport : ClientError
  server : ErrorCode → ClientError
  unexpected_response : ClientError
  read_too_large write_too_large : ℕ → ClientError
  stale_revision offline offline_cache_miss ambiguous_mutation : ClientError

pub data ClientResult {ℓ} (A : Type ℓ) : Type ℓ where
  err : ClientError → ClientResult A
  ok : A → ClientResult A

pub record DirectorySnapshot : Type 0 where
  pub revision : ℕ
  pub entries : List DirectoryEntry

pub record OpenedFile : Type 0 where
  pub handle : ℕ
  pub revision : ℕ
  pub size : ℕ

pub record RangeRead : Type 0 where
  pub revision : ℕ
  pub content : Bytes

pub record XattrRead : Type 0 where
  pub total_size : ℕ
  pub content : Bytes

pub record WriteResult : Type 0 where
  pub written : ℕ
  pub revision : ℕ
  pub size : ℕ

pub record CreatedFile : Type 0 where
  pub metadata : Metadata
  pub opened : OpenedFile

-- An awaited call: it changes the world, and is answered or fails.
abbrev pub Call : Type 0 → Type 0 → Type 0
Call World A = World → World × ClientResult A

-- The trait RemoteFilesystem.
pub record RemoteFilesystem (World Filesystem : Type 0) : Type 0 where
  pub ping : Filesystem → ℕ → Call World ℕ
  pub capabilities : Filesystem → Call World FilesystemCapabilities
  pub stat_filesystem : Filesystem → Call World FilesystemStats
  pub get_metadata : Filesystem → ℕ → Call World Metadata
  pub list_directory_snapshot : Filesystem → ℕ → Call World DirectorySnapshot
  pub list_directory_view : Filesystem → ℕ → DirectoryViewOptions → Call World DirectoryView
  pub open_file_with_options : Filesystem → ℕ → FileOpenOptions → Call World OpenedFile
  pub create_file : Filesystem → ℕ → Bytes → ℕ → FileOpenOptions → Call World CreatedFile
  pub create_directory : Filesystem → ℕ → Bytes → ℕ → Call World Metadata
  pub create_symlink : Filesystem → ℕ → Bytes → Bytes → Call World Metadata
  pub create_hard_link : Filesystem → ℕ → ℕ → Bytes → Call World Metadata
  pub create_special_node :
      Filesystem → ℕ → Bytes → SpecialNodeKind → ℕ → ℕ → ℕ → Call World Metadata
  pub remove_node : Filesystem → ℕ → Bytes → Bool → Call World (Unit {0})
  pub rename_node : Filesystem → ℕ → Bytes → ℕ → Bytes → RenameMode → Call World (Unit {0})
  pub read_link : Filesystem → ℕ → Call World Bytes
  pub set_attributes : Filesystem → ℕ → Option ℕ → AttributeChanges → Call World Metadata
  pub read_range_versioned : Filesystem → ℕ → ℕ → ℕ → Call World RangeRead
  pub write_range : Filesystem → ℕ → ℕ → Bytes → Call World WriteResult
  pub flush_file : Filesystem → ℕ → Option ℕ → Call World (Unit {0})
  pub sync_file : Filesystem → ℕ → Bool → Call World (Unit {0})
  pub sync_directory : Filesystem → ℕ → Call World (Unit {0})
  pub allocate_file : Filesystem → ℕ → ℕ → ℕ → Call World WriteResult
  pub get_xattr : Filesystem → ℕ → Bytes → ℕ → ℕ → Call World XattrRead
  pub set_xattr : Filesystem → ℕ → Bytes → Bytes → XattrSetMode → ℕ → Call World (Unit {0})
  pub list_xattrs : Filesystem → ℕ → Call World (List Bytes)
  pub remove_xattr : Filesystem → ℕ → Bytes → Call World (Unit {0})
  pub copy_file_range : Filesystem → ℕ → ℕ → ℕ → ℕ → ℕ → Call World WriteResult
  pub seek_file : Filesystem → ℕ → ℕ → SeekWhence → Call World ℕ
  pub safe_ioctl : Filesystem → ℕ → SafeIoctl → Call World ℕ
  pub map_block : Filesystem → ℕ → ℕ → ℕ → Call World ℕ
  pub exchange_data : Filesystem → ℕ → Bytes → ℕ → Bytes → ℕ → Call World (Unit {0})
  pub set_volume_name : Filesystem → Bytes → Call World (Unit {0})
  pub forget_nodes : Filesystem → List ℕ → Call World (Unit {0})
  pub get_lock : Filesystem → ℕ → FileLock → Call World (Option FileLock)
  pub set_lock : Filesystem → ℕ → FileLock → Bool → Call World (Unit {0})
  pub close_file : Filesystem → ℕ → Call World (Unit {0})

-- RemoteFilesystemConnector::connect, the filesystems that it connects to, tokio::time::sleep,
-- Instant::now and Uuid::new_v4.
pub record Network (World Filesystem : Type 0) : Type 0 where
  pub connect : Call World Filesystem
  pub remote : RemoteFilesystem World Filesystem
  pub sleep : ℕ → World → World
  pub now : World → ℕ
  pub new_v4 : World → World × ℕ
