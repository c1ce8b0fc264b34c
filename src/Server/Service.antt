-- ===== src/Server/Service.antt =====
-- What a request of servers/linux/server-daemon/src/main.rs works on: RequestContext, with the
-- ExportSession and the files of user and pairing records as interfaces, and ConnectionAuth.
use quic_kfs.Prelude.{ℕ, Bool, Option, List, []}
use quic_kfs.Errors.{Result}
use quic_kfs.Locks.{FileLock}
use quic_kfs.Protocol.Access.{FileOpenOptions, RenameMode, ErrorCode}
use quic_kfs.Protocol.Messages.{
  Bytes, AttributeChanges, SpecialNodeKind, XattrSetMode, SeekWhence, SafeIoctl,
  FilesystemCapabilities, FilesystemStats, Metadata, DirectoryEntry, DirectoryViewOptions,
  DirectoryView, Response,
}
use quic_kfs.Server.RateLimit.{AuthRateLimiter}

-- A method that may change the export, and its result.
abbrev pub Action : Type 0 → Type 0 → Type 0
Action S A = S → S × Result A

-- The methods of ExportSession that requests call.
pub record Export (S : Type 0) : Type 0 where
  pub set_write_authorized : Bool → S → S
  pub capabilities : S → FilesystemCapabilities
  pub stat_filesystem : Action S FilesystemStats
  pub metadata : ℕ → Action S Metadata
  pub list_with_revision : ℕ → Action S (ℕ × List DirectoryEntry)
  pub directory_view : ℕ → DirectoryViewOptions → Action S DirectoryView
  pub open_file : ℕ → FileOpenOptions → Action S (ℕ × ℕ × ℕ)
  pub create_file : ℕ → Bytes → ℕ → FileOpenOptions → Action S (Metadata × ℕ × ℕ × ℕ)
  pub create_directory : ℕ → Bytes → ℕ → Action S Metadata
  pub create_symlink : ℕ → Bytes → Bytes → Action S Metadata
  pub remove_node : ℕ → Bytes → Bool → Action S (Unit {0})
  pub rename_node : ℕ → Bytes → ℕ → Bytes → RenameMode → Action S (Unit {0})
  pub create_hard_link : ℕ → ℕ → Bytes → Action S Metadata
  pub create_special_node : ℕ → Bytes → SpecialNodeKind → ℕ → ℕ → ℕ → Action S Metadata
  pub read_link : ℕ → Action S Bytes
  pub set_attributes : ℕ → Option ℕ → AttributeChanges → Action S Metadata
  pub read : ℕ → ℕ → ℕ → Action S (ℕ × Bytes)
  pub write_owned : ℕ → ℕ → Bytes → Action S (ℕ × ℕ × ℕ)
  pub flush : ℕ → Option ℕ → Action S (Unit {0})
  pub sync : ℕ → Bool → Action S (Unit {0})
  pub sync_directory : ℕ → Action S (Unit {0})
  pub allocate : ℕ → ℕ → ℕ → Action S (ℕ × ℕ)
  pub get_xattr : ℕ → Bytes → ℕ → ℕ → Action S (ℕ × Bytes)
  pub set_xattr : ℕ → Bytes → Bytes → XattrSetMode → ℕ → Action S (Unit {0})
  pub list_xattrs : ℕ → Action S (List Bytes)
  pub remove_xattr : ℕ → Bytes → Action S (Unit {0})
  pub copy_file_range : ℕ → ℕ → ℕ → ℕ → ℕ → Action S (ℕ × ℕ × ℕ)
  pub seek_file : ℕ → ℕ → SeekWhence → Action S ℕ
  pub safe_ioctl : ℕ → SafeIoctl → Action S ℕ
  pub map_block : ℕ → ℕ → ℕ → Action S ℕ
  pub exchange_data : ℕ → Bytes → ℕ → Bytes → ℕ → Action S (Unit {0})
  pub set_volume_name : Bytes → Action S (Unit {0})
  pub forget_nodes : List ℕ → Action S (Unit {0})
  pub get_lock : ℕ → FileLock → Action S (Option FileLock)
  pub set_lock : ℕ → FileLock → Bool → Action S (Unit {0})
  pub close : ℕ → Action S (Unit {0})

-- What load_pairing finds.
pub data Loaded (K : Type 0) : Type 0 where
  secret : K → Loaded K
  unavailable : Loaded K

-- What verify_user_authorization answers: the user's `writable`, no such login, or a failure.
pub data Verified : Type 0 where
  authorized : (writable : Bool) → Verified
  rejected failed : Verified

-- The functions of crates/auth that requests call, on the pairing records `P`, with secrets `K`.
pub record Auth (P K : Type 0) : Type 0 where
  pub load_pairing : ℕ → P → Loaded K
  pub verify_client_proof : K → ℕ → Bytes → Bytes → Bytes → Bool
  pub server_proof : K → ℕ → Bytes → Bytes → Option Bytes
  pub consume_pairing : ℕ → P → Option P
  pub verify_user_authorization : Bytes → Bytes → Verified

pub record ConnectionAuth : Type 0 where
  pub authenticated : Bool
  pub failed_attempts : ℕ

-- What requests change.
pub record Server (S P : Type 0) : Type 0 where
  pub export : S
  pub pairings : P
  pub auth_state : ConnectionAuth
  pub auth_limiter : AuthRateLimiter

-- What a request meets: the clock, the peer, whether a login may run (`auth_permits`), the permits
-- that other requests leave for writes, and the bytes that follow the request on its stream. The
-- limit on a reading is waited for, so it is not an answer; the semaphores are never closed, and
-- the tasks that are spawned do not panic.
pub record Moment : Type 0 where
  pub now : ℕ
  pub peer_ip : ℕ
  pub auth_permit : Bool
  pub write_permits : ℕ
  pub connection_write_permits : ℕ
  pub incoming : Bytes

-- A response with the raw bytes after it, or a stream that is dropped without one.
pub data Outcome : Type 0 where
  respond : Response → Bytes → Outcome
  drop_stream : Outcome

abbrev pub Handler : Type 0 → Type 0 → Type 0
Handler S P = Server S P → Server S P × Outcome

module _ {S P : Type 0} where
  abbrev pub reply : Response → Handler S P
  reply response s = (s, respond response [])

abbrev pub authentication_error : Response
authentication_error = Response.error ErrorCode.unauthenticated

abbrev pub internal_error : Response
internal_error = Response.error ErrorCode.internal
