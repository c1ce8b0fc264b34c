-- ===== src/Client/Sessions.antt =====
-- A client of crates/client-core/src/resilient.rs, and any calls of its methods.
use quic_kfs.Prelude.{ℕ, Bool, Option, List, [], ◌∷◌}
use quic_kfs.Protocol.Access.{FileOpenOptions, RenameMode}
use quic_kfs.Protocol.Messages.{
  Bytes, AttributeChanges, SpecialNodeKind, XattrSetMode, SeekWhence, SafeIoctl,
  DirectoryViewOptions,
}
use quic_kfs.Locks.{FileLock}
use quic_kfs.Client.Network.{Network}
use quic_kfs.Client.Connection.{Resilient}
use quic_kfs.Client.Files

pub data Method : Type 0 where
  ping get_metadata list_directory read_link open_file sync_directory list_xattrs : ℕ → Method
  capabilities stat_filesystem : Method
  get_metadata_batch forget_nodes : List ℕ → Method
  list_directory_view : ℕ → DirectoryViewOptions → Method
  open_file_with_options : ℕ → FileOpenOptions → Method
  create_file : ℕ → Bytes → ℕ → FileOpenOptions → Method
  create_directory : ℕ → Bytes → ℕ → Method
  create_symlink : ℕ → Bytes → Bytes → Method
  create_hard_link : ℕ → ℕ → Bytes → Method
  create_special_node : ℕ → Bytes → SpecialNodeKind → ℕ → ℕ → ℕ → Method
  remove_node : ℕ → Bytes → Bool → Method
  rename_node : ℕ → Bytes → ℕ → Bytes → RenameMode → Method
  set_attributes : ℕ → Option ℕ → AttributeChanges → Method
  read_range allocate_file map_block : ℕ → ℕ → ℕ → Method
  write_range : ℕ → ℕ → Bytes → Method
  flush_file : ℕ → Option ℕ → Method
  sync_file : ℕ → Bool → Method
  get_xattr : ℕ → Bytes → ℕ → ℕ → Method
  set_xattr : ℕ → Bytes → Bytes → XattrSetMode → ℕ → Method
  remove_xattr : ℕ → Bytes → Method
  copy_file_range : ℕ → ℕ → ℕ → ℕ → ℕ → Method
  seek_file : ℕ → ℕ → SeekWhence → Method
  safe_ioctl : ℕ → SafeIoctl → Method
  exchange_data : ℕ → Bytes → ℕ → Bytes → ℕ → Method
  set_volume_name : Bytes → Method
  get_lock : ℕ → FileLock → Method
  set_lock : ℕ → FileLock → Bool → Method
  close_file : ℕ → Method

module _ {W F : Type 0} (net : Network W F) where
  -- What a call of a method leaves.
  unfoldable pub call : Method → Resilient W F → Resilient W F
  call (Method.ping nonce) s = (Files.ping net nonce s).0
  call Method.capabilities s = (Files.capabilities net s).0
  call Method.stat_filesystem s = (Files.stat_filesystem net s).0
  call (Method.get_metadata node) s = (Files.get_metadata net node s).0
  call (Method.get_metadata_batch nodes) s = (Files.get_metadata_batch net nodes s).0
  call (Method.list_directory node) s = (Files.list_directory net node s).0
  call (Method.list_directory_view node options) s =
      (Files.list_directory_view net node options s).0
  call (Method.open_file node) s = (Files.open_file net node s).0
  call (Method.open_file_with_options node options) s =
      (Files.open_file_with_options net node options s).0
  call (Method.create_file parent name mode options) s =
      (Files.create_file net parent name mode options s).0
  call (Method.create_directory parent name mode) s =
      (Files.create_directory net parent name mode s).0
  call (Method.create_symlink parent name target) s =
      (Files.create_symlink net parent name target s).0
  call (Method.create_hard_link node parent name) s =
      (Files.create_hard_link net node parent name s).0
  call (Method.create_special_node parent name kind mode major minor) s =
      (Files.create_special_node net parent name kind mode major minor s).0
  call (Method.remove_node parent name directory) s =
      (Files.remove_node net parent name directory s).0
  call (Method.rename_node parent name new_parent new_name mode) s =
      (Files.rename_node net parent name new_parent new_name mode s).0
  call (Method.read_link node) s = (Files.read_link net node s).0
  call (Method.set_attributes node handle changes) s =
      (Files.set_attributes net node handle changes s).0
  call (Method.read_range handle offset len) s = (Files.read_range net handle offset len s).0
  call (Method.write_range handle offset bytes) s = (Files.write_range net handle offset bytes s).0
  call (Method.flush_file handle owner) s = (Files.flush_file net handle owner s).0
  call (Method.sync_file handle data_only) s = (Files.sync_file net handle data_only s).0
  call (Method.sync_directory node) s = (Files.sync_directory net node s).0
  call (Method.allocate_file handle offset len) s = (Files.allocate_file net handle offset len s).0
  call (Method.get_xattr node name offset len) s = (Files.get_xattr net node name offset len s).0
  call (Method.set_xattr node name value mode position) s =
      (Files.set_xattr net node name value mode position s).0
  call (Method.list_xattrs node) s = (Files.list_xattrs net node s).0
  call (Method.remove_xattr node name) s = (Files.remove_xattr net node name s).0
  call (Method.copy_file_range input input_offset output output_offset len) s =
      (Files.copy_file_range net input input_offset output output_offset len s).0
  call (Method.seek_file handle offset whence) s = (Files.seek_file net handle offset whence s).0
  call (Method.safe_ioctl handle operation) s = (Files.safe_ioctl net handle operation s).0
  call (Method.map_block node block_size block) s = (Files.map_block net node block_size block s).0
  call (Method.exchange_data parent name new_parent new_name options) s =
      (Files.exchange_data net parent name new_parent new_name options s).0
  call (Method.set_volume_name name) s = (Files.set_volume_name net name s).0
  call (Method.forget_nodes nodes) s = (Files.forget_nodes net nodes s).0
  call (Method.get_lock handle lock) s = (Files.get_lock net handle lock s).0
  call (Method.set_lock handle lock wait) s = (Files.set_lock net handle lock wait s).0
  call (Method.close_file handle) s = (Files.close_file net handle s).0

  unfoldable pub call_all : List Method → Resilient W F → Resilient W F
  call_all [] s = s
  call_all (m ∷ ms) s = call_all ms (call m s)
