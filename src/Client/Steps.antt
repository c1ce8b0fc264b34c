-- ===== src/Client/Steps.antt =====
-- The calls of crates/client-core/src/resilient.rs keep what their steps keep.
use quic_kfs.Prelude.{ℕ, ◌+◌, not, List, [], ◌∷◌, ◌==◌}
use quic_kfs.Protocol.Access.{FileOpenOptions}
use quic_kfs.Locks.{FileLock}
use quic_kfs.Client.Network.{
  stale_revision, ambiguous_mutation, ClientResult, err, ok, Call, Network, OpenedFile,
}
use quic_kfs.Client.Connection.{
  ConnectionSlot, HandleState, Client, ◌>>◌, attempt, perform, mark_failed, healthy_connection,
  reconnect_after, is_transport, has_transport,
}
use quic_kfs.Client.Calls.{
  report_ambiguous, mark_transport, retry, safe_call, mutation_call, opened_remote, open_remote,
  remember_open, replay_locks, may_adopt, settle_revision, take_over, reopen, remote_handle,
}
use quic_kfs.Client.Rules.{
  Relation, IsKept, IsKeptBy, IsRule, bind_lem, perform_lem, attempt_lem, pure_lem, fail_lem,
  give_lem, mark_failed_lem, update_handles_lem, if_lem, ask, then_lem, healthy_connection_lem,
  handle_state_lem,
}

module _ {W F : Type 0} (net : Network W F) (R : Relation W F) (rule : IsRule net R) where
  -- A call that is looked at.
  pub tried :
      {A : Type 0} (n : ℕ) (call : Call W A)
      → IsKeptBy R n call
      → IsKept R n (attempt (perform call))
  tried n call h = attempt_lem net R rule n (perform call) (perform_lem net R rule n call h)

  pub marked_then :
      {A : Type 0} (n : ℕ) (g : ℕ) (rest : Client W F A)
      → IsKept R n rest
      → IsKept R n (mark_failed g >> rest)
  marked_then n g rest h =
      ask net R rule n (mark_failed g) (λ _. rest) (mark_failed_lem net R rule g) (λ _. h)

  pub report_ambiguous_lem :
      {A : Type 0} (g : ℕ) (r : ClientResult A) → IsKept R 0 (report_ambiguous g r)
  unfolding report_ambiguous
  report_ambiguous_lem {A = A} g r =
      if_lem net R rule 0 (has_transport r) _ _
        (marked_then 0 g _ (fail_lem net R rule 0 A ambiguous_mutation)) (give_lem net R rule 0 r)

  pub mark_transport_lem :
      {A : Type 0} (g : ℕ) (r : ClientResult A) → IsKept R 0 (mark_transport g r)
  unfolding mark_transport
  mark_transport_lem g r =
      if_lem net R rule 0 (has_transport r) _ _ (marked_then 0 g _ (give_lem net R rule 0 r))
        (give_lem net R rule 0 r)

  pub mutation_call_lem :
      {A : Type 0} (n : ℕ) (operation : F → Call W A)
      → ((f : F) → IsKeptBy R n (operation f))
      → IsKept R n (mutation_call net operation)
  unfolding mutation_call
  mutation_call_lem n operation h =
      ask net R rule n (healthy_connection net) _ (healthy_connection_lem net R rule) (λ slot.
        then_lem net R rule n _ _ (tried n (operation slot.filesystem) (h slot.filesystem))
          (report_ambiguous_lem slot.generation))

  pub retry_lem :
      {A : Type 0} (n : ℕ) (operation : F → Call W A) (g : ℕ) (r : ClientResult A)
      → ((f : F) → IsKeptBy R n (operation f))
      → IsKept R n (retry net operation g r)
  unfolding retry
  retry_lem n operation g r h =
      if_lem net R rule n (has_transport r) _ _
        (marked_then n g _ (
          ask net R rule n (reconnect_after net g) _ (rule.reconnected g) (λ slot.
            then_lem net R rule n _ _ (tried n (operation slot.filesystem) (h slot.filesystem))
              (mark_transport_lem slot.generation))))
        (give_lem net R rule n r)

  pub safe_call_lem :
      {A : Type 0} (n : ℕ) (operation : F → Call W A)
      → ((f : F) → IsKeptBy R n (operation f))
      → IsKept R (n + n) (safe_call net operation)
  unfolding safe_call
  safe_call_lem n operation h =
      ask net R rule (n + n) (healthy_connection net) _ (healthy_connection_lem net R rule) (λ slot.
        bind_lem net R rule n n _ _ (tried n (operation slot.filesystem) (h slot.filesystem))
          (λ r. retry_lem n operation slot.generation r h))

  pub opened_remote_lem :
      (node : ℕ) (options : FileOpenOptions) (slot : ConnectionSlot F) (r : ClientResult OpenedFile)
      → IsKept R 0 (opened_remote net node options slot r)
  unfolding opened_remote
  opened_remote_lem node options slot (ok opened) = pure_lem net R rule 0 (slot, opened)
  opened_remote_lem node options slot (err e) =
      if_lem net R rule 0 (not (is_transport e)) _ _ (fail_lem net R rule 0 _ e) (
        if_lem net R rule 0 options.truncate _ _
          (marked_then 0 slot.generation _ (fail_lem net R rule 0 _ ambiguous_mutation))
          (marked_then 0 slot.generation _ (
            ask net R rule 0 (reconnect_after net slot.generation) _
              (rule.reconnected slot.generation)
              (λ slot'.
                ask net R rule 0 _ _
                  (perform_lem net R rule 0 _ (rule.opened slot'.filesystem node options))
                  (λ opened. pure_lem net R rule 0 (slot', opened))))))

  pub open_remote_lem :
      (node : ℕ) (options : FileOpenOptions) → IsKept R 0 (open_remote net node options)
  unfolding open_remote
  open_remote_lem node options =
      ask net R rule 0 (healthy_connection net) _ (healthy_connection_lem net R rule) (λ slot.
        ask net R rule 0 _ _ (tried 0 _ (rule.opened slot.filesystem node options))
          (opened_remote_lem node options slot))

  pub remember_open_lem :
      (node : ℕ) (options : FileOpenOptions) (slot : ConnectionSlot F) (opened : OpenedFile)
      → IsKept R 0 (remember_open net node options slot opened)
  unfolding remember_open
  remember_open_lem node options slot opened =
      ask net R rule 0 _ _ (perform_lem net R rule 0 _ rule.named) (λ logical.
        ask net R rule 0 _ _ (update_handles_lem net R rule _)
          (λ _. pure_lem net R rule 0 (record opened { handle = logical })))

  pub replay_locks_lem :
      (f : F) (remote : ℕ) (locks : List FileLock) → IsKept R 0 (replay_locks net f remote locks)
  unfolding replay_locks
  replay_locks_lem f remote [] = pure_lem net R rule 0 tt
  replay_locks_lem f remote (lock ∷ locks) =
      ask net R rule 0 _ _ (perform_lem net R rule 0 _ (rule.locked f remote lock))
        (λ _. replay_locks_lem f remote locks)

  pub settle_revision_lem :
      (logical : ℕ) (state : HandleState) (f : F) (opened : OpenedFile)
      → IsKept R 0 (settle_revision net logical state f opened)
  unfolding settle_revision
  settle_revision_lem logical state f opened =
      if_lem net R rule 0 (opened.revision == state.revision) _ _ (pure_lem net R rule 0 tt) (
        if_lem net R rule 0 (may_adopt state) _ _ (update_handles_lem net R rule _) (
          ask net R rule 0 _ _ (tried 0 _ (rule.closed f opened.handle))
            (λ _. fail_lem net R rule 0 _ stale_revision)))

  pub reopen_lem :
      (logical : ℕ) (state : HandleState) (slot : ConnectionSlot F)
      → IsKept R 0 (reopen net logical state slot)
  unfolding reopen take_over
  reopen_lem logical state slot =
      ask net R rule 0 _ _ (perform_lem net R rule 0 _ (rule.opened slot.filesystem state.node _))
        (λ opened.
          ask net R rule 0 _ _ (settle_revision_lem logical state slot.filesystem opened) (λ _.
            ask net R rule 0 _ _ (replay_locks_lem slot.filesystem opened.handle state.lock_history)
              (λ _. ask net R rule 0 _ _ (update_handles_lem net R rule _) (λ _.
                ask net R rule 0 _ _ (handle_state_lem net R rule logical)
                  (λ state'. pure_lem net R rule 0 (slot, state'))))))

  pub remote_handle_lem : (logical : ℕ) → IsKept R 0 (remote_handle net logical)
  unfolding remote_handle
  remote_handle_lem logical =
      ask net R rule 0 (healthy_connection net) _ (healthy_connection_lem net R rule) (λ slot.
        ask net R rule 0 _ _ (handle_state_lem net R rule logical) (λ existing.
          if_lem net R rule 0 (existing.generation == slot.generation) _ _
            (pure_lem net R rule 0 (slot, existing))
            (ask net R rule 0 _ _ (handle_state_lem net R rule logical) (λ state.
              ask net R rule 0 (healthy_connection net) _ (healthy_connection_lem net R rule)
                (λ slot'.
                  if_lem net R rule 0 (state.generation == slot'.generation) _ _
                    (pure_lem net R rule 0 (slot', state)) (reopen_lem logical state slot'))))))
