-- ===== src/Client/Servers.antt =====
-- The methods of crates/client-core/src/resilient.rs keep what their steps keep, and stay with the
-- server that the client began with.
use quic_kfs.Prelude.{ℕ, Option, none, some, List, [], ◌∷◌, ◌==◌}
use quic_kfs.Protocol.Access.{FileOpenOptions}
use quic_kfs.Protocol.Messages.{Bytes, AttributeChanges, Metadata}
use quic_kfs.Client.Network.{stale_revision, ClientResult, Call, Network, WriteResult}
use quic_kfs.Client.Connection.{
  ConnectionSlot, HandleState, Resilient, pure, attempt, perform, current, has_transport,
}
use quic_kfs.Client.Calls.{
  modify, remove, report_ambiguous, update_written_handle, remember_open, remote_handle,
}
use quic_kfs.Client.Files
use quic_kfs.Client.Calls
use quic_kfs.Client.Files.{
  closed, set_handle, note_attributes, take_handle, mapped, note_written, remember_lock, note_read,
}
use quic_kfs.Client.Rules.{
  Relation, IsKept, IsKeptBy, IsRule, pure_lem, fail_lem, give_lem, current_lem, update_handles_lem,
  if_lem, ask, healthy_connection_lem, handle_state_lem, attempt_lem,
}
use quic_kfs.Client.Steps.{
  tried, marked_then, report_ambiguous_lem, mutation_call_lem, safe_call_lem, open_remote_lem,
  remember_open_lem, remote_handle_lem,
}
use quic_kfs.Client.Sessions.{Method, call}
use quic_kfs.Client.Methods.{change_through_lem, read_through_lem, note_read_lem}

module _ {W F : Type 0} (net : Network W F) (R : Relation W F) (rule : IsRule net R)
    (moved : (w : W) (s : Resilient W F) → R 0 s (record s { world = w })) where
  free : {A : Type 0} (c : Call W A) → IsKeptBy R 0 c
  free c s = moved (c s.world).0 s

  asked : {A : Type 0} (c : Call W A) → IsKept R 0 (attempt (perform c))
  asked c = tried net R rule 0 c (free c)

  safe : {A : Type 0} (operation : F → Call W A) → IsKept R 0 (Calls.safe_call net operation)
  safe operation = safe_call_lem net R rule 0 operation (λ f. free (operation f))

  mutation :
      {A : Type 0} (operation : F → Call W A) → IsKept R 0 (Calls.mutation_call net operation)
  mutation operation = mutation_call_lem net R rule 0 operation (λ f. free (operation f))

  reading :
      {A : Type 0} (operation : F → ℕ → Call W A) (handle : ℕ)
      → IsKept R 0 (Files.read_through net operation handle (λ _. pure))
  reading operation handle =
      read_through_lem net R rule 0 operation handle _ (λ f remote. free (operation f remote))
        (λ n _ a. pure_lem net R rule n a)

  plain_change :
      (operation : F → ℕ → Call W (Unit {0})) (handle : ℕ)
      → IsKept R 0 (Files.change_through net operation handle (λ _ _. pure tt))
  plain_change operation handle =
      change_through_lem net R rule 0 operation handle _ (λ f remote. free (operation f remote))
        (λ _ _. pure_lem net R rule 0 tt)

  note_written_lem :
      (handle : ℕ) (opened : ConnectionSlot F × HandleState) (w : WriteResult)
      → IsKept R 0 (note_written net handle opened w)
  unfolding note_written update_written_handle
  note_written_lem handle opened w = update_handles_lem net R rule _

  writing :
      (operation : F → ℕ → Call W WriteResult) (handle : ℕ)
      → IsKept R 0 (Files.change_through net operation handle (note_written net handle))
  writing operation handle =
      change_through_lem net R rule 0 operation handle _ (λ f remote. free (operation f remote))
        (note_written_lem handle)

  batch_lem : (nodes : List ℕ) → IsKept R 0 (Files.get_metadata_batch net nodes)
  unfolding Files.get_metadata_batch Files.get_metadata
  batch_lem [] = pure_lem net R rule 0 []
  batch_lem (node ∷ nodes) =
      ask net R rule 0 _ _ (attempt_lem net R rule 0 _ (safe _))
        (λ r. ask net R rule 0 _ _ (batch_lem nodes) (λ rs. pure_lem net R rule 0 (r ∷ rs)))

  open_lem :
      (node : ℕ) (options : FileOpenOptions)
      → IsKept R 0 (Files.open_file_with_options net node options)
  unfolding Files.open_file_with_options
  open_lem node options =
      ask net R rule 0 _ _ (open_remote_lem net R rule node options)
        (λ o. remember_open_lem net R rule node options o.0 o.1)

  create_lem :
      (parent : ℕ) (name : Bytes) (mode : ℕ) (options : FileOpenOptions)
      → IsKept R 0 (Files.create_file net parent name mode options)
  unfolding Files.create_file
  create_lem parent name mode options =
      ask net R rule 0 _ _ (healthy_connection_lem net R rule) (λ slot.
        ask net R rule 0 _ _
          (asked (net.remote.create_file slot.filesystem parent name mode options))
          (λ r. ask net R rule 0 _ _ (report_ambiguous_lem net R rule slot.generation r) (λ c.
            ask net R rule 0 _ _ (remember_open_lem net R rule _ options slot c.opened)
              (λ o. pure_lem net R rule 0 _))))

  mapped_lem : (handle : Option ℕ) → IsKept R 0 (mapped net handle)
  unfolding mapped
  mapped_lem none = pure_lem net R rule 0 none
  mapped_lem (some logical) =
      ask net R rule 0 _ _ (remote_handle_lem net R rule logical) (λ o. pure_lem net R rule 0 _)

  note_attributes_lem : (handle : Option ℕ) (m : Metadata) → IsKept R 0 (note_attributes handle m)
  unfolding note_attributes set_handle
  note_attributes_lem none m = pure_lem net R rule 0 m
  note_attributes_lem (some logical) m =
      ask net R rule 0 _ _ (update_handles_lem net R rule _) (λ _. pure_lem net R rule 0 m)

  attributes_lem :
      (node : ℕ) (handle : Option ℕ) (changes : AttributeChanges)
      → IsKept R 0 (Files.set_attributes net node handle changes)
  unfolding Files.set_attributes
  attributes_lem node handle changes =
      ask net R rule 0 _ _ (mapped_lem handle)
        (λ remote. ask net R rule 0 _ _ (mutation _) (note_attributes_lem handle))

  copy_lem :
      (input input_offset output output_offset len : ℕ)
      → IsKept R 0 (Files.copy_file_range net input input_offset output output_offset len)
  unfolding Files.copy_file_range
  copy_lem input input_offset output output_offset len =
      ask net R rule 0 _ _ (remote_handle_lem net R rule input) (λ source.
        ask net R rule 0 _ _ (remote_handle_lem net R rule output) (λ target.
          if_lem net R rule 0 (source.0.generation == target.0.generation) _ _
            (ask net R rule 0 _ _
              (asked (
                net.remote.copy_file_range source.0.filesystem source.1.remote input_offset
                  target.1.remote output_offset len))
              (λ r.
                ask net R rule 0 _ _ (report_ambiguous_lem net R rule target.0.generation r) (λ w.
                  ask net R rule 0 _ _ (note_written_lem output target w)
                    (λ _. pure_lem net R rule 0 w))))
            (fail_lem net R rule 0 _ stale_revision)))

  closed_lem : (g : ℕ) (r : ClientResult (Unit {0})) → IsKept R 0 (closed g r)
  unfolding closed
  closed_lem g r =
      if_lem net R rule 0 (has_transport r) _ _
        (marked_then net R rule 0 g _ (pure_lem net R rule 0 tt)) (give_lem net R rule 0 r)

  close_lem : (handle : ℕ) → IsKept R 0 (Files.close_file net handle)
  unfolding Files.close_file take_handle
  close_lem handle =
      ask net R rule 0 _ _
        (ask net R rule 0 _ _ (handle_state_lem net R rule handle) (λ state.
          ask net R rule 0 _ _ (update_handles_lem net R rule _)
            (λ _. pure_lem net R rule 0 state)))
        (λ state. ask net R rule 0 current _ (current_lem net R rule) (λ s.
          if_lem net R rule 0 (state.generation == s.connection.generation) _ _
            (ask net R rule 0 _ _
              (asked (net.remote.close_file s.connection.filesystem state.remote))
              (closed_lem state.generation))
            (pure_lem net R rule 0 tt)))

  pub call_lem : (m : Method) (s : Resilient W F) → R 0 s (call net m s)
  unfolding call Files.ping Files.capabilities Files.stat_filesystem Files.get_metadata
      Files.list_directory Files.list_directory_snapshot Files.list_directory_view Files.open_file
      Files.create_directory Files.create_symlink Files.create_hard_link Files.create_special_node
      Files.remove_node Files.rename_node Files.read_link Files.read_range
      Files.read_range_versioned Files.write_range Files.flush_file Files.sync_file
      Files.sync_directory Files.allocate_file Files.get_xattr Files.set_xattr Files.list_xattrs
      Files.remove_xattr Files.seek_file Files.safe_ioctl Files.map_block Files.exchange_data
      Files.set_volume_name Files.forget_nodes Files.get_lock Files.set_lock
  call_lem (Method.ping nonce) = safe _
  call_lem Method.capabilities = safe _
  call_lem Method.stat_filesystem = safe _
  call_lem (Method.get_metadata node) = safe _
  call_lem (Method.get_metadata_batch nodes) = batch_lem nodes
  call_lem (Method.list_directory node) =
      ask net R rule 0 _ _ (safe _) (λ d. pure_lem net R rule 0 d.entries)
  call_lem (Method.list_directory_view node options) = safe _
  call_lem (Method.open_file node) =
      ask net R rule 0 _ _ (open_lem node _) (λ o. pure_lem net R rule 0 _)
  call_lem (Method.open_file_with_options node options) = open_lem node options
  call_lem (Method.create_file parent name mode options) = create_lem parent name mode options
  call_lem (Method.create_directory parent name mode) = mutation _
  call_lem (Method.create_symlink parent name target) = mutation _
  call_lem (Method.create_hard_link node parent name) = mutation _
  call_lem (Method.create_special_node parent name kind mode major minor) = mutation _
  call_lem (Method.remove_node parent name directory) = mutation _
  call_lem (Method.rename_node parent name new_parent new_name mode) = mutation _
  call_lem (Method.read_link node) = safe _
  call_lem (Method.set_attributes node handle changes) = attributes_lem node handle changes
  call_lem (Method.read_range handle offset len) =
      ask net R rule 0 _ _
        (read_through_lem net R rule 0 _ handle _ (λ f remote s. moved _ s)
          (λ n state read. note_read_lem net R rule handle n state read))
        (λ read. pure_lem net R rule 0 read.content)
  call_lem (Method.write_range handle offset bytes) = writing _ handle
  call_lem (Method.flush_file handle owner) = plain_change _ handle
  call_lem (Method.sync_file handle data_only) = plain_change _ handle
  call_lem (Method.sync_directory node) = mutation _
  call_lem (Method.allocate_file handle offset len) = writing _ handle
  call_lem (Method.get_xattr node name offset len) = safe _
  call_lem (Method.set_xattr node name value mode position) = mutation _
  call_lem (Method.list_xattrs node) = safe _
  call_lem (Method.remove_xattr node name) = mutation _
  call_lem (Method.copy_file_range input input_offset output output_offset len) =
      copy_lem input input_offset output output_offset len
  call_lem (Method.seek_file handle offset whence) = reading _ handle
  call_lem (Method.safe_ioctl handle operation) = reading _ handle
  call_lem (Method.map_block node block_size block) = safe _
  call_lem (Method.exchange_data parent name new_parent new_name options) = mutation _
  call_lem (Method.set_volume_name name) = mutation _
  call_lem (Method.forget_nodes nodes) = safe _
  call_lem (Method.get_lock handle lock) = reading _ handle
  call_lem (Method.set_lock handle lock wait) =
      change_through_lem net R rule 0 _ handle _ (λ f remote s. moved _ s)
        (λ _ _. update_handles_lem net R rule (modify handle (remember_lock lock)))
  call_lem (Method.close_file handle) = close_lem handle
