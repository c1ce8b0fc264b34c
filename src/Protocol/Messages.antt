-- ===== src/Protocol/Messages.antt =====
-- The messages of crates/protocol/src/lib.rs. A Uuid is a number, and so is a byte; names, texts
-- and secrets are lists of bytes. The text of a ProtocolError is left out.
use quic_kfs.Prelude.{ℕ, Bool, Option, List}
use quic_kfs.Protocol.Access.{FileOpenOptions, RenameMode, ErrorCode}
use quic_kfs.Locks.{FileLock}

abbrev pub Bytes : Type 0
Bytes = List ℕ

pub record AttributeChanges : Type 0 where
  pub size : Option ℕ
  pub mode : Option ℕ
  pub accessed_unix_ms : Option ℕ
  pub modified_unix_ms : Option ℕ
  pub backup_unix_ms : Option ℕ

pub data SpecialNodeKind : Type 0 where
  named_pipe character_device block_device socket : SpecialNodeKind

pub data XattrSetMode : Type 0 where
  upsert create replace : XattrSetMode

pub data SeekWhence : Type 0 where
  data' hole : SeekWhence

pub data SafeIoctl : Type 0 where
  bytes_available : SafeIoctl

pub record FilesystemCapabilities : Type 0 where
  pub server_epoch : ℕ
  pub writable : Bool
  pub supports_locks : Bool
  pub supports_atomic_rename : Bool
  pub supports_directory_sync : Bool
  pub supports_preallocation : Bool
  pub supports_symlinks : Bool
  pub supports_xattrs : Bool
  pub supports_hard_links : Bool
  pub supports_special_nodes : Bool
  pub supports_copy_file_range : Bool
  pub supports_seek_data_hole : Bool
  pub supports_safe_ioctl : Bool
  pub supports_poll : Bool
  pub supports_bmap : Bool
  pub supports_exchange_data : Bool
  pub supports_volume_rename : Bool
  pub supports_backup_time : Bool
  pub supports_readdirplus : Bool
  pub persistent_node_ids : Bool
  pub restart_lock_replay : Bool
  pub volume_name : Bytes
  pub max_read_size : ℕ
  pub max_write_size : ℕ

pub record FilesystemStats : Type 0 where
  pub blocks : ℕ
  pub blocks_free : ℕ
  pub blocks_available : ℕ
  pub files : ℕ
  pub files_free : ℕ
  pub block_size : ℕ
  pub name_length : ℕ
  pub fragment_size : ℕ

pub data NodeKind : Type 0 where
  file directory symlink named_pipe character_device block_device socket : NodeKind

pub record Metadata : Type 0 where
  pub node : ℕ
  pub kind : NodeKind
  pub size : ℕ
  pub mode : ℕ
  pub allocated_blocks : ℕ
  pub revision : ℕ
  pub accessed_unix_ms : ℕ
  pub modified_unix_ms : ℕ
  pub created_unix_ms : Option ℕ
  pub backup_unix_ms : Option ℕ
  pub link_count : ℕ
  pub device_major : ℕ
  pub device_minor : ℕ

pub record DirectoryEntry : Type 0 where
  pub node : ℕ
  pub name : Bytes
  pub kind : NodeKind
  pub metadata : Metadata

pub record DirectoryViewOptions : Type 0 where
  pub include_xattrs : Bool
  pub inline_xattr_size : ℕ
  pub inline_xattr_total_size : ℕ

pub record InlineXattr : Type 0 where
  pub name : Bytes
  pub value : Bytes

pub record XattrSnapshot : Type 0 where
  pub names : List Bytes
  pub inline_values : List InlineXattr

pub record DirectoryViewEntry : Type 0 where
  pub entry : DirectoryEntry
  pub xattrs : Option XattrSnapshot

pub record DirectoryView : Type 0 where
  pub revision : ℕ
  pub directory : Metadata
  pub parent : Metadata
  pub xattrs : Option XattrSnapshot
  pub entries : List DirectoryViewEntry

pub data BatchedMetadata : Type 0 where
  found : Metadata → BatchedMetadata
  failed : ErrorCode → BatchedMetadata

pub data Request : Type 0 where
  hello : (client_name : Bytes) → Request
  pair : (pairing_id : ℕ) (client_nonce client_proof : Bytes) → Request
  authenticate : (username password : Bytes) → Request
  get_capabilities stat_filesystem : Request
  get_metadata list_directory : (node : ℕ) → Request
  list_directory_view : (node : ℕ) (options : DirectoryViewOptions) → Request
  open_file : (node : ℕ) (options : FileOpenOptions) → Request
  create_file : (parent : ℕ) (name : Bytes) (mode : ℕ) (options : FileOpenOptions) → Request
  create_directory : (parent : ℕ) (name : Bytes) (mode : ℕ) → Request
  create_symlink : (parent : ℕ) (name target : Bytes) → Request
  remove_node : (parent : ℕ) (name : Bytes) (directory : Bool) → Request
  rename_node :
      (parent : ℕ) (name : Bytes) (new_parent : ℕ) (new_name : Bytes) (mode : RenameMode) → Request
  create_hard_link : (node new_parent : ℕ) (new_name : Bytes) → Request
  create_special_node :
      (parent : ℕ) (name : Bytes) (kind : SpecialNodeKind) (mode device_major device_minor : ℕ)
      → Request
  read_link : (node : ℕ) → Request
  set_attributes : (node : ℕ) (handle : Option ℕ) (changes : AttributeChanges) → Request
  read_range write_range : (handle offset length : ℕ) → Request
  flush_file : (handle : ℕ) (lock_owner : Option ℕ) → Request
  sync_file : (handle : ℕ) (data_only : Bool) → Request
  sync_directory : (node : ℕ) → Request
  allocate_file : (handle offset length : ℕ) → Request
  get_xattr : (node : ℕ) (name : Bytes) (offset length : ℕ) → Request
  set_xattr : (node : ℕ) (name : Bytes) (mode : XattrSetMode) (position length : ℕ) → Request
  list_xattrs : (node : ℕ) → Request
  remove_xattr : (node : ℕ) (name : Bytes) → Request
  copy_file_range : (input input_offset output output_offset length : ℕ) → Request
  seek_file : (handle offset : ℕ) (whence : SeekWhence) → Request
  safe_ioctl : (handle : ℕ) (operation : SafeIoctl) → Request
  map_block : (node block_size block : ℕ) → Request
  exchange_data :
      (parent : ℕ) (name : Bytes) (new_parent : ℕ) (new_name : Bytes) (options : ℕ) → Request
  set_volume_name : (name : Bytes) → Request
  forget_nodes : (nodes : List ℕ) → Request
  get_lock : (handle : ℕ) (lock : FileLock) → Request
  set_lock : (handle : ℕ) (lock : FileLock) (wait : Bool) → Request
  close_file : (handle : ℕ) → Request
  ping : (nonce : ℕ) → Request
  get_metadata_batch : (nodes : List ℕ) → Request

pub data Response : Type 0 where
  hello_ack : (version : ℕ) → Response
  authenticate_ack : Response
  pairing_proof : (certificate_fingerprint proof : Bytes) → Response
  capabilities : FilesystemCapabilities → Response
  filesystem_stats : FilesystemStats → Response
  metadata : Metadata → Response
  directory_listing : (revision : ℕ) (entries : List DirectoryEntry) → Response
  directory_view : DirectoryView → Response
  directory_view_start :
      (revision : ℕ) (directory parent : Metadata) (xattrs : Option XattrSnapshot) (entry_count : ℕ)
      → Response
  directory_view_chunk : (entries : List DirectoryViewEntry) → Response
  directory_view_end : Response
  file_opened : (handle revision size : ℕ) → Response
  file_created : (metadata : Metadata) (handle revision size : ℕ) → Response
  node_created hard_link_created : Metadata → Response
  node_removed node_renamed : Response
  link_target : Bytes → Response
  attributes_changed : Metadata → Response
  read_data : (revision length : ℕ) → Response
  write_complete : (written revision size : ℕ) → Response
  file_flushed file_synced directory_synced : Response
  file_allocated : (revision size : ℕ) → Response
  xattr_data : (length total_size : ℕ) → Response
  xattr_set : Response
  xattr_names : List Bytes → Response
  xattr_removed : Response
  range_copied : (copied revision size : ℕ) → Response
  file_seeked : (offset : ℕ) → Response
  ioctl_result : (value : ℕ) → Response
  block_mapped : (block : ℕ) → Response
  data_exchanged volume_name_set nodes_forgotten : Response
  lock_status : (conflict : Option FileLock) → Response
  lock_updated file_closed : Response
  pong : (nonce : ℕ) → Response
  error : (code : ErrorCode) → Response
  metadata_batch : (results : List BatchedMetadata) → Response
