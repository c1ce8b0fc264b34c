-- ===== src/Server/Handle.antt =====
-- `handle` of servers/linux/server-daemon/src/main.rs: the checks of version and login, and the
-- request's own work. The frames that a large directory view is cut into are in Server/Views.antt.
use quic_kfs.Prelude.{ℕ, Bool, true, false, not, ◌||◌, List, ◌==◌, if◌then◌else◌}
use quic_kfs.Protocol.Access.{ErrorCode}
use quic_kfs.Protocol.Messages.{Bytes, DirectoryEntry, Request, Response}
use quic_kfs.Protocol.Version.{version_major, protocol_major, protocol_version}
use quic_kfs.Server.Service.{Export, Auth, Moment, Handler, reply}
use quic_kfs.Server.Login.{handle_pair, handle_authenticate}
use quic_kfs.Server.Transfer.{
  answer, handle_read, handle_write, handle_get_xattr, handle_set_xattr, handle_metadata_batch,
}

-- The requests that need no login.
unfoldable pub open_to_all : Request → Bool
open_to_all (Request.hello _) = true
open_to_all (Request.pair _ _ _) = true
open_to_all (Request.authenticate _ _) = true
open_to_all (Request.ping _) = true
open_to_all _ = false

-- `fits` tells whether a listing can be encoded in one frame.
unfoldable pub directory_listing_response : (Response → Bool) → ℕ → List DirectoryEntry → Response
directory_listing_response fits revision entries =
    if fits (Response.directory_listing revision entries)
    then Response.directory_listing revision entries
    else Response.error ErrorCode.too_large

module _ {S P K : Type 0} (export : Export S) (auth : Auth P K) (fingerprint : Bytes)
    (fits : Response → Bool) where
  -- The `match` on the request.
  unfoldable pub serve : Moment → Request → Handler S P
  serve m (Request.hello _) s = reply (Response.hello_ack protocol_version) s
  serve m (Request.pair id nonce proof) s = handle_pair export auth fingerprint id nonce proof s
  serve m (Request.authenticate username password) s =
      handle_authenticate export auth fingerprint m username password s
  serve m Request.get_capabilities s =
      reply (Response.capabilities (export.capabilities s.export)) s
  serve m Request.stat_filesystem s =
      answer Response.filesystem_stats (export.stat_filesystem s.export) s
  serve m (Request.get_metadata node) s = answer Response.metadata (export.metadata node s.export) s
  serve m (Request.get_metadata_batch nodes) s = handle_metadata_batch export nodes s
  serve m (Request.list_directory node) s =
      answer (λ r. directory_listing_response fits r.0 r.1)
        (export.list_with_revision node s.export) s
  serve m (Request.list_directory_view node options) s =
      answer Response.directory_view (export.directory_view node options s.export) s
  serve m (Request.open_file node options) s =
      answer (λ r. Response.file_opened r.0 r.1 r.2) (export.open_file node options s.export) s
  serve m (Request.create_file parent name mode options) s =
      answer (λ r. Response.file_created r.0 r.1 r.2 r.3)
        (export.create_file parent name mode options s.export) s
  serve m (Request.create_directory parent name mode) s =
      answer Response.node_created (export.create_directory parent name mode s.export) s
  serve m (Request.create_symlink parent name target) s =
      answer Response.node_created (export.create_symlink parent name target s.export) s
  serve m (Request.remove_node parent name directory) s =
      answer (λ _. Response.node_removed) (export.remove_node parent name directory s.export) s
  serve m (Request.rename_node parent name new_parent new_name mode) s =
      answer (λ _. Response.node_renamed)
        (export.rename_node parent name new_parent new_name mode s.export) s
  serve m (Request.create_hard_link node new_parent new_name) s =
      answer Response.hard_link_created (export.create_hard_link node new_parent new_name s.export)
        s
  serve m (Request.create_special_node parent name kind mode device_major device_minor) s =
      answer Response.node_created
        (export.create_special_node parent name kind mode device_major device_minor s.export) s
  serve m (Request.read_link node) s =
      answer Response.link_target (export.read_link node s.export) s
  serve m (Request.set_attributes node handle changes) s =
      answer Response.attributes_changed (export.set_attributes node handle changes s.export) s
  serve m (Request.read_range handle offset length') s = handle_read export handle offset length' s
  serve m (Request.write_range handle offset length') s =
      handle_write export m handle offset length' s
  serve m (Request.flush_file handle lock_owner) s =
      answer (λ _. Response.file_flushed) (export.flush handle lock_owner s.export) s
  serve m (Request.sync_file handle data_only) s =
      answer (λ _. Response.file_synced) (export.sync handle data_only s.export) s
  serve m (Request.sync_directory node) s =
      answer (λ _. Response.directory_synced) (export.sync_directory node s.export) s
  serve m (Request.allocate_file handle offset length') s =
      answer (λ r. Response.file_allocated r.0 r.1) (export.allocate handle offset length' s.export)
        s
  serve m (Request.get_xattr node name offset length') s =
      handle_get_xattr export node name offset length' s
  serve m (Request.set_xattr node name mode position length') s =
      handle_set_xattr export m node name mode position length' s
  serve m (Request.list_xattrs node) s =
      answer Response.xattr_names (export.list_xattrs node s.export) s
  serve m (Request.remove_xattr node name) s =
      answer (λ _. Response.xattr_removed) (export.remove_xattr node name s.export) s
  serve m (Request.copy_file_range input input_offset output output_offset length') s =
      answer (λ r. Response.range_copied r.0 r.1 r.2)
        (export.copy_file_range input input_offset output output_offset length' s.export) s
  serve m (Request.seek_file handle offset whence) s =
      answer Response.file_seeked (export.seek_file handle offset whence s.export) s
  serve m (Request.safe_ioctl handle operation) s =
      answer Response.ioctl_result (export.safe_ioctl handle operation s.export) s
  serve m (Request.map_block node block_size block) s =
      answer Response.block_mapped (export.map_block node block_size block s.export) s
  serve m (Request.exchange_data parent name new_parent new_name options) s =
      answer (λ _. Response.data_exchanged)
        (export.exchange_data parent name new_parent new_name options s.export) s
  serve m (Request.set_volume_name name) s =
      answer (λ _. Response.volume_name_set) (export.set_volume_name name s.export) s
  serve m (Request.forget_nodes nodes) s =
      answer (λ _. Response.nodes_forgotten) (export.forget_nodes nodes s.export) s
  serve m (Request.get_lock handle lock) s =
      answer Response.lock_status (export.get_lock handle lock s.export) s
  serve m (Request.set_lock handle lock wait) s =
      answer (λ _. Response.lock_updated) (export.set_lock handle lock wait s.export) s
  serve m (Request.close_file handle) s =
      answer (λ _. Response.file_closed) (export.close handle s.export) s
  serve m (Request.ping nonce) s = reply (Response.pong nonce) s

  -- The version first, then the login, then the request.
  unfoldable pub handle : Moment → ℕ → Request → Handler S P
  handle m version request s =
      if not (version_major version == protocol_major)
      then reply (Response.error ErrorCode.unsupported_version) s
      else if open_to_all request || s.auth_state.authenticated
      then serve m request s
      else reply (Response.error ErrorCode.unauthenticated) s
