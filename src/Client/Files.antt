-- ===== src/Client/Files.antt =====
-- The methods of `impl RemoteFilesystem for ResilientFilesystem` in
-- crates/client-core/src/resilient.rs.
use quic_kfs.Prelude.{
  ℕ, Bool, false, ◌&&◌, Option, none, some, List, [], ◌∷◌, ◌++◌, ltb, ◌==◌, if◌then◌else◌, length,
}
use quic_kfs.Protocol.Access.{FileOpenOptions, FileAccess, RenameMode}
use quic_kfs.Protocol.Messages.{
  Bytes, AttributeChanges, SpecialNodeKind, XattrSetMode, SeekWhence, SafeIoctl,
  FilesystemCapabilities, FilesystemStats, Metadata, DirectoryEntry, DirectoryViewOptions,
  DirectoryView,
}
use quic_kfs.Locks.{FileLock, LockKind, kind_eq}
use quic_kfs.Client.Network.{
  stale_revision, ClientResult, err, ok, Call, Network, OpenedFile, DirectorySnapshot, RangeRead,
  XattrRead, WriteResult, CreatedFile,
}
use quic_kfs.Client.Connection.{
  ConnectionSlot, HandleState, Client, ◌>>=◌, ◌>>◌, pure, fail, attempt, give, perform, current,
  mark_failed, healthy_connection, is_transport, has_transport,
}
use quic_kfs.Client.Calls.{
  remove, modify, update_handles, handle_state, report_ambiguous, adopt_revision,
  update_written_handle, safe_call, mutation_call, open_remote, remember_open, remote_handle,
}

abbrev pub unlock_limit : ℕ
unlock_limit = 4096

-- `current.lock_history.push(lock)`, and the clearing of a long history.
unfoldable pub remember_lock : FileLock → HandleState → HandleState
remember_lock lock state =
    let history = state.lock_history ++ (lock ∷ []) in
    if kind_eq lock.kind LockKind.unlock && ltb unlock_limit (length history)
    then record state { lock_history = [] }
    else record state { lock_history = history }

-- FileOpenOptions::READ_ONLY
abbrev pub for_reading : FileOpenOptions
for_reading = record { access = FileAccess.read_only; truncate = false; append = false }

module _ {W F : Type 0} where
  -- `result => result`, with a transport error taken for an unknown outcome and a closed handle.
  unfoldable pub closed : ℕ → ClientResult (Unit {0}) → Client W F (Unit {0})
  closed generation result =
      if has_transport result then mark_failed generation >> pure tt else give result

  unfoldable pub note_read : ℕ → HandleState → RangeRead → Client W F RangeRead
  note_read logical state read = do
    if read.revision == state.revision then pure tt else adopt_revision logical read.revision
    pure read

  unfoldable pub set_handle : ℕ → Metadata → Client W F (Unit {0})
  set_handle logical metadata = update_handles (
      modify logical (λ state. record state { revision = metadata.revision; size = metadata.size }))

  unfoldable pub note_attributes : Option ℕ → Metadata → Client W F Metadata
  note_attributes none metadata = pure metadata
  note_attributes (some logical) metadata = do set_handle logical metadata; pure metadata

  unfoldable pub take_handle : ℕ → Client W F HandleState
  take_handle logical = do state ← handle_state logical; update_handles (remove logical); pure state

module _ {W F : Type 0} (net : Network W F) where
  unfoldable pub ping : ℕ → Client W F ℕ
  ping nonce = safe_call net (λ f. net.remote.ping f nonce)

  unfoldable pub capabilities : Client W F FilesystemCapabilities
  capabilities = safe_call net (λ f. net.remote.capabilities f)

  unfoldable pub stat_filesystem : Client W F FilesystemStats
  stat_filesystem = safe_call net (λ f. net.remote.stat_filesystem f)

  unfoldable pub get_metadata : ℕ → Client W F Metadata
  get_metadata node = safe_call net (λ f. net.remote.get_metadata f node)

  unfoldable pub get_metadata_batch : List ℕ → Client W F (List (ClientResult Metadata))
  get_metadata_batch [] = pure []
  get_metadata_batch (node ∷ nodes) = do
    let others = get_metadata_batch nodes
    result ← attempt (get_metadata node)
    results ← others
    pure (result ∷ results)

  unfoldable pub list_directory_snapshot : ℕ → Client W F DirectorySnapshot
  list_directory_snapshot node = safe_call net (λ f. net.remote.list_directory_snapshot f node)

  unfoldable pub list_directory : ℕ → Client W F (List DirectoryEntry)
  list_directory node = do snapshot ← list_directory_snapshot node; pure snapshot.entries

  unfoldable pub list_directory_view : ℕ → DirectoryViewOptions → Client W F DirectoryView
  list_directory_view node options =
      safe_call net (λ f. net.remote.list_directory_view f node options)

  unfoldable pub open_file_with_options : ℕ → FileOpenOptions → Client W F OpenedFile
  open_file_with_options node options = do
    opened ← open_remote net node options
    remember_open net node options opened.0 opened.1

  unfoldable pub open_file : ℕ → Client W F (ℕ × ℕ × ℕ)
  open_file node = do
    opened ← open_file_with_options node for_reading
    pure (opened.handle, opened.revision, opened.size)

  unfoldable pub create_file : ℕ → Bytes → ℕ → FileOpenOptions → Client W F CreatedFile
  create_file parent name mode options = do
    slot ← healthy_connection net
    result ← attempt (perform (net.remote.create_file slot.filesystem parent name mode options))
    created ← report_ambiguous slot.generation result
    opened ← remember_open net created.metadata.node options slot created.opened
    pure (record { metadata = created.metadata; opened = opened })

  unfoldable pub create_directory : ℕ → Bytes → ℕ → Client W F Metadata
  create_directory parent name mode =
      mutation_call net (λ f. net.remote.create_directory f parent name mode)

  unfoldable pub create_symlink : ℕ → Bytes → Bytes → Client W F Metadata
  create_symlink parent name target =
      mutation_call net (λ f. net.remote.create_symlink f parent name target)

  unfoldable pub create_hard_link : ℕ → ℕ → Bytes → Client W F Metadata
  create_hard_link node new_parent new_name =
      mutation_call net (λ f. net.remote.create_hard_link f node new_parent new_name)

  unfoldable pub create_special_node : ℕ → Bytes → SpecialNodeKind → ℕ → ℕ → ℕ → Client W F Metadata
  create_special_node parent name kind mode device_major device_minor =
      mutation_call net
        (λ f. net.remote.create_special_node f parent name kind mode device_major device_minor)

  unfoldable pub remove_node : ℕ → Bytes → Bool → Client W F (Unit {0})
  remove_node parent name directory =
      mutation_call net (λ f. net.remote.remove_node f parent name directory)

  unfoldable pub rename_node : ℕ → Bytes → ℕ → Bytes → RenameMode → Client W F (Unit {0})
  rename_node parent name new_parent new_name mode =
      mutation_call net (λ f. net.remote.rename_node f parent name new_parent new_name mode)

  unfoldable pub read_link : ℕ → Client W F Bytes
  read_link node = safe_call net (λ f. net.remote.read_link f node)

  -- The remote handle of the one that a change of attributes names.
  unfoldable pub mapped : Option ℕ → Client W F (Option ℕ)
  mapped none = pure none
  mapped (some logical) = do opened ← remote_handle net logical; pure (some opened.1.remote)

  unfoldable pub set_attributes : ℕ → Option ℕ → AttributeChanges → Client W F Metadata
  set_attributes node handle changes = do
    remote ← mapped handle
    metadata ← mutation_call net (λ f. net.remote.set_attributes f node remote changes)
    note_attributes handle metadata

  -- A read through a handle; after a transport error the handle is opened again and read again.
  unfoldable pub reread :
      {A : Type 0}
      → (F → ℕ → Call W A)
      → ℕ
      → (HandleState → A → Client W F A)
      → ConnectionSlot F × HandleState
      → ClientResult A
      → Client W F A
  reread operation logical note opened (ok read) = note opened.1 read
  reread operation logical note opened (err e) =
      if is_transport e
      then (do
        mark_failed opened.0.generation
        reopened ← remote_handle net logical
        replacement ← healthy_connection net
        read ← perform (operation replacement.filesystem reopened.1.remote)
        note reopened.1 read)
      else fail e

  unfoldable pub read_through :
      {A : Type 0} → (F → ℕ → Call W A) → ℕ → (HandleState → A → Client W F A) → Client W F A
  read_through operation logical note = do
    opened ← remote_handle net logical
    result ← attempt (perform (operation opened.0.filesystem opened.1.remote))
    reread operation logical note opened result

  unfoldable pub read_range_versioned : ℕ → ℕ → ℕ → Client W F RangeRead
  read_range_versioned handle offset len =
      read_through (λ f remote. net.remote.read_range_versioned f remote offset len) handle
        (note_read handle)

  unfoldable pub read_range : ℕ → ℕ → ℕ → Client W F Bytes
  read_range handle offset len = do read ← read_range_versioned handle offset len; pure read.content

  unfoldable pub seek_file : ℕ → ℕ → SeekWhence → Client W F ℕ
  seek_file handle offset whence =
      read_through (λ f remote. net.remote.seek_file f remote offset whence) handle (λ _. pure)

  unfoldable pub safe_ioctl : ℕ → SafeIoctl → Client W F ℕ
  safe_ioctl handle operation =
      read_through (λ f remote. net.remote.safe_ioctl f remote operation) handle (λ _. pure)

  unfoldable pub get_lock : ℕ → FileLock → Client W F (Option FileLock)
  get_lock handle lock =
      read_through (λ f remote. net.remote.get_lock f remote lock) handle (λ _. pure)

  -- A change through a handle, sent once.
  unfoldable pub change_through :
      {A : Type 0}
      → (F → ℕ → Call W A)
      → ℕ
      → (ConnectionSlot F × HandleState → A → Client W F (Unit {0}))
      → Client W F A
  change_through operation logical note = do
    opened ← remote_handle net logical
    result ← attempt (perform (operation opened.0.filesystem opened.1.remote))
    done ← report_ambiguous opened.0.generation result
    note opened done
    pure done

  unfoldable pub note_written :
      ℕ → ConnectionSlot F × HandleState → WriteResult → Client W F (Unit {0})
  note_written logical opened result =
      update_written_handle logical opened.1.remote opened.0.generation result.revision result.size

  unfoldable pub write_range : ℕ → ℕ → Bytes → Client W F WriteResult
  write_range handle offset bytes =
      change_through (λ f remote. net.remote.write_range f remote offset bytes) handle
        (note_written handle)

  unfoldable pub allocate_file : ℕ → ℕ → ℕ → Client W F WriteResult
  allocate_file handle offset len =
      change_through (λ f remote. net.remote.allocate_file f remote offset len) handle
        (note_written handle)

  unfoldable pub flush_file : ℕ → Option ℕ → Client W F (Unit {0})
  flush_file handle lock_owner =
      change_through (λ f remote. net.remote.flush_file f remote lock_owner) handle (λ _ _. pure tt)

  unfoldable pub sync_file : ℕ → Bool → Client W F (Unit {0})
  sync_file handle data_only =
      change_through (λ f remote. net.remote.sync_file f remote data_only) handle (λ _ _. pure tt)

  unfoldable pub set_lock : ℕ → FileLock → Bool → Client W F (Unit {0})
  set_lock handle lock wait =
      change_through (λ f remote. net.remote.set_lock f remote lock wait) handle
        (λ _ _. update_handles (modify handle (remember_lock lock)))

  unfoldable pub copy_file_range : ℕ → ℕ → ℕ → ℕ → ℕ → Client W F WriteResult
  copy_file_range input input_offset output output_offset len = do
    source ← remote_handle net input
    target ← remote_handle net output
    if source.0.generation == target.0.generation
        then (do
          result ← attempt (
              perform (
                net.remote.copy_file_range source.0.filesystem source.1.remote input_offset
                  target.1.remote output_offset len))
          written ← report_ambiguous target.0.generation result
          note_written output target written
          pure written)
        else fail stale_revision

  unfoldable pub sync_directory : ℕ → Client W F (Unit {0})
  sync_directory node = mutation_call net (λ f. net.remote.sync_directory f node)

  unfoldable pub get_xattr : ℕ → Bytes → ℕ → ℕ → Client W F XattrRead
  get_xattr node name offset len = safe_call net (λ f. net.remote.get_xattr f node name offset len)

  unfoldable pub set_xattr : ℕ → Bytes → Bytes → XattrSetMode → ℕ → Client W F (Unit {0})
  set_xattr node name value mode position =
      mutation_call net (λ f. net.remote.set_xattr f node name value mode position)

  unfoldable pub list_xattrs : ℕ → Client W F (List Bytes)
  list_xattrs node = safe_call net (λ f. net.remote.list_xattrs f node)

  unfoldable pub remove_xattr : ℕ → Bytes → Client W F (Unit {0})
  remove_xattr node name = mutation_call net (λ f. net.remote.remove_xattr f node name)

  unfoldable pub map_block : ℕ → ℕ → ℕ → Client W F ℕ
  map_block node block_size block =
      safe_call net (λ f. net.remote.map_block f node block_size block)

  unfoldable pub exchange_data : ℕ → Bytes → ℕ → Bytes → ℕ → Client W F (Unit {0})
  exchange_data parent name new_parent new_name options =
      mutation_call net (λ f. net.remote.exchange_data f parent name new_parent new_name options)

  unfoldable pub set_volume_name : Bytes → Client W F (Unit {0})
  set_volume_name name = mutation_call net (λ f. net.remote.set_volume_name f name)

  unfoldable pub forget_nodes : List ℕ → Client W F (Unit {0})
  forget_nodes nodes = safe_call net (λ f. net.remote.forget_nodes f nodes)

  unfoldable pub close_file : ℕ → Client W F (Unit {0})
  close_file handle = do
    state ← take_handle handle
    self ← current
    if state.generation == self.connection.generation
        then (do
          result ← attempt (perform (net.remote.close_file self.connection.filesystem state.remote))
          closed state.generation result)
        else pure tt
