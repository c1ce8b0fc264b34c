-- ===== src/Client/Methods.antt =====
-- The methods of `impl RemoteFilesystem for ResilientFilesystem` in
-- crates/client-core/src/resilient.rs, one after another.
use quic_kfs.Prelude.{ℕ, ◌+◌, ◌==◌}
use quic_kfs.Client.Network.{ClientResult, err, ok, Call, Network, RangeRead}
use quic_kfs.Client.Connection.{ConnectionSlot, HandleState, Client, is_transport}
use quic_kfs.Client.Calls.{adopt_revision, remote_handle}
use quic_kfs.Client.Files.{note_read, reread, read_through, change_through}
use quic_kfs.Client.Rules.{
  Relation, IsKept, IsKeptBy, IsRule, bind_lem, perform_lem, pure_lem, fail_lem, update_handles_lem,
  if_lem, ask, then_lem, healthy_connection_lem,
}
use quic_kfs.Client.Steps.{tried, marked_then, report_ambiguous_lem, remote_handle_lem}

module _ {W F : Type 0} (net : Network W F) (R : Relation W F) (rule : IsRule net R) where
  pub change_through_lem :
      {A : Type 0} (n : ℕ) (operation : F → ℕ → Call W A) (logical : ℕ)
      (note : ConnectionSlot F × HandleState → A → Client W F (Unit {0}))
      → ((f : F) (remote : ℕ) → IsKeptBy R n (operation f remote))
      → ((opened : ConnectionSlot F × HandleState) (a : A) → IsKept R 0 (note opened a))
      → IsKept R n (change_through net operation logical note)
  unfolding change_through
  change_through_lem n operation logical note h k =
      ask net R rule n (remote_handle net logical) _ (remote_handle_lem net R rule logical)
        (λ opened.
          then_lem net R rule n _ _ (tried net R rule n _ (h opened.0.filesystem opened.1.remote))
            (λ r.
              ask net R rule 0 _ _ (report_ambiguous_lem net R rule opened.0.generation r)
                (λ a. ask net R rule 0 _ _ (k opened a) (λ _. pure_lem net R rule 0 a))))

  pub reread_lem :
      {A : Type 0} (n : ℕ) (operation : F → ℕ → Call W A) (logical : ℕ)
      (note : HandleState → A → Client W F A) (opened : ConnectionSlot F × HandleState)
      (r : ClientResult A)
      → ((f : F) (remote : ℕ) → IsKeptBy R n (operation f remote))
      → ((n : ℕ) (state : HandleState) (a : A) → IsKept R n (note state a))
      → IsKept R n (reread net operation logical note opened r)
  unfolding reread
  reread_lem n operation logical note opened (ok a) h k = k n opened.1 a
  reread_lem n operation logical note opened (err e) h k =
      if_lem net R rule n (is_transport e) _ _
        (marked_then net R rule n opened.0.generation _ (
          ask net R rule n _ _ (remote_handle_lem net R rule logical) (λ reopened.
            ask net R rule n _ _ (healthy_connection_lem net R rule) (λ slot.
              then_lem net R rule n _ _
                (perform_lem net R rule n _ (h slot.filesystem reopened.1.remote))
                (k 0 reopened.1)))))
        (fail_lem net R rule n _ e)

  pub read_through_lem :
      {A : Type 0} (n : ℕ) (operation : F → ℕ → Call W A) (logical : ℕ)
      (note : HandleState → A → Client W F A)
      → ((f : F) (remote : ℕ) → IsKeptBy R n (operation f remote))
      → ((n : ℕ) (state : HandleState) (a : A) → IsKept R n (note state a))
      → IsKept R (n + n) (read_through net operation logical note)
  unfolding read_through
  read_through_lem n operation logical note h k =
      ask net R rule (n + n) (remote_handle net logical) _ (remote_handle_lem net R rule logical)
        (λ opened.
          bind_lem net R rule n n _ _ (tried net R rule n _ (h opened.0.filesystem opened.1.remote))
            (λ r. reread_lem n operation logical note opened r h k))

  pub note_read_lem :
      (logical n : ℕ) (state : HandleState) (read : RangeRead)
      → IsKept R n (note_read logical state read)
  unfolding note_read adopt_revision
  note_read_lem logical n state read =
      ask net R rule n _ _
        (if_lem net R rule 0 (read.revision == state.revision) _ _ (pure_lem net R rule 0 tt)
          (update_handles_lem net R rule _))
        (λ _. pure_lem net R rule n read)
