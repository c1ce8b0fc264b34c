-- ===== src/Client/Calls.antt =====
-- safe_call, mutation_call, open_remote, remember_open, remote_handle, adopt_revision and
-- update_written_handle of crates/client-core/src/resilient.rs. The steps of one call run without
-- those of another in between, so that the mutex of a handle is not modelled.
use quic_kfs.Prelude.{
  ℕ, Bool, true, false, not, ◌&&◌, Option, none, some, List, [], ◌∷◌, ltb, ◌==◌, if◌then◌else◌,
}
use quic_kfs.Protocol.Access.{ErrorCode, FileAccess, FileOpenOptions}
use quic_kfs.Locks.{FileLock}
use quic_kfs.Client.Network.{
  ClientError, server, ambiguous_mutation, stale_revision, ClientResult, err, ok, Call, Network,
  OpenedFile,
}
use quic_kfs.Client.Connection.{
  ConnectionSlot, HandleState, Client, ◌>>=◌, ◌>>◌, pure, fail, attempt, give, perform, update,
  current, mark_failed, healthy_connection, reconnect_after, is_transport, has_transport,
}

abbrev pub Handles : Type 0
Handles = List (ℕ × HandleState)

-- HashMap::get, insert, remove, and a change through get_mut.
unfoldable pub lookup : ℕ → Handles → Option HandleState
lookup key [] = none
lookup key ((k, state) ∷ rest) = if k == key then some state else lookup key rest

unfoldable pub remove : ℕ → Handles → Handles
remove key [] = []
remove key ((k, state) ∷ rest) =
    let others = remove key rest in if k == key then others else (k, state) ∷ others

unfoldable pub modify : ℕ → (HandleState → HandleState) → Handles → Handles
modify key f [] = []
modify key f ((k, state) ∷ rest) =
    let others = modify key f rest in
    if k == key then (k, f state) ∷ others else (k, state) ∷ others

abbrev pub insert : ℕ → HandleState → Handles → Handles
insert key state handles = (key, state) ∷ remove key handles

abbrev pub invalid_handle : ClientError
invalid_handle = server ErrorCode.invalid_handle

-- `state.options.access == FileAccess::ReadOnly && state.lock_history.is_empty()`
unfoldable pub may_adopt : HandleState → Bool
may_adopt state = elim state.options.access [
  | FileAccess.read_only ↦ elim state.lock_history [ [] ↦ true | _ ↦ false ]
  | _ ↦ false
]

module _ {W F : Type 0} where
  unfoldable pub update_handles : (Handles → Handles) → Client W F (Unit {0})
  update_handles f = update (λ s. record s { handles = f s.handles })

  -- `handles.get(&logical).cloned().ok_or_else(invalid_handle)`
  unfoldable pub known_handle : {A : Type 0} → Option A → Client W F A
  known_handle none = fail invalid_handle
  known_handle (some state) = pure state

  unfoldable pub handle_state : ℕ → Client W F HandleState
  handle_state logical = do self ← current; known_handle (lookup logical self.handles)

  -- A transport error marks the connection, and the caller learns that the outcome is unknown.
  unfoldable pub report_ambiguous : {A : Type 0} → ℕ → ClientResult A → Client W F A
  report_ambiguous generation result =
      if has_transport result
      then mark_failed generation >> fail ambiguous_mutation
      else give result

  unfoldable pub mark_transport : {A : Type 0} → ℕ → ClientResult A → Client W F A
  mark_transport generation result =
      if has_transport result then mark_failed generation >> give result else give result

  unfoldable pub adopt_revision : ℕ → ℕ → Client W F (Unit {0})
  adopt_revision logical revision = update_handles (
      modify logical (λ state.
        if ltb state.revision revision then record state { revision = revision } else state))

  unfoldable pub update_written_handle : ℕ → ℕ → ℕ → ℕ → ℕ → Client W F (Unit {0})
  update_written_handle logical remote generation revision size = update_handles (
      modify logical (λ state.
        if state.remote == remote && state.generation == generation
        then record state { revision = revision; size = size }
        else state))

module _ {W F : Type 0} (net : Network W F) where
  -- What follows the first answer of a read-only operation.
  unfoldable pub retry : {A : Type 0} → (F → Call W A) → ℕ → ClientResult A → Client W F A
  retry operation generation result =
      if has_transport result
      then (do
        mark_failed generation
        replacement ← reconnect_after net generation
        result' ← attempt (perform (operation replacement.filesystem))
        mark_transport replacement.generation result')
      else give result

  unfoldable pub safe_call : {A : Type 0} → (F → Call W A) → Client W F A
  safe_call operation = do
    first ← healthy_connection net
    result ← attempt (perform (operation first.filesystem))
    retry operation first.generation result

  unfoldable pub mutation_call : {A : Type 0} → (F → Call W A) → Client W F A
  mutation_call operation = do
    slot ← healthy_connection net
    result ← attempt (perform (operation slot.filesystem))
    report_ambiguous slot.generation result

  -- The `match` of open_remote.
  unfoldable pub opened_remote :
      ℕ
      → FileOpenOptions
      → ConnectionSlot F
      → ClientResult OpenedFile
      → Client W F (ConnectionSlot F × OpenedFile)
  opened_remote node options slot (ok opened) = pure (slot, opened)
  opened_remote node options slot (err e) =
      if not (is_transport e)
      then fail e
      else if options.truncate
      then mark_failed slot.generation >> fail ambiguous_mutation
      else (do
        mark_failed slot.generation
        replacement ← reconnect_after net slot.generation
        opened ← perform (net.remote.open_file_with_options replacement.filesystem node options)
        pure (replacement, opened))

  unfoldable pub open_remote : ℕ → FileOpenOptions → Client W F (ConnectionSlot F × OpenedFile)
  open_remote node options = do
    slot ← healthy_connection net
    result ← attempt (perform (net.remote.open_file_with_options slot.filesystem node options))
    opened_remote node options slot result

  unfoldable pub fresh_handle : Call W ℕ
  fresh_handle w = ((net.new_v4 w).0, ok (net.new_v4 w).1)

  unfoldable pub remember_open :
      ℕ → FileOpenOptions → ConnectionSlot F → OpenedFile → Client W F OpenedFile
  remember_open node options slot opened = do
    logical ← perform fresh_handle
    update_handles (
        insert logical (record {
          node = node;
          options = options;
          remote = opened.handle;
          revision = opened.revision;
          size = opened.size;
          generation = slot.generation;
          lock_history = [];
        }))
    pure (record opened { handle = logical })

  unfoldable pub replay_locks : F → ℕ → List FileLock → Client W F (Unit {0})
  replay_locks filesystem remote [] = pure tt
  replay_locks filesystem remote (lock ∷ locks) = do
    let others = replay_locks filesystem remote locks
    perform (net.remote.set_lock filesystem remote lock false)
    others

  -- What is done about the revision of a file that was opened again.
  unfoldable pub settle_revision : ℕ → HandleState → F → OpenedFile → Client W F (Unit {0})
  settle_revision logical state filesystem reopened =
      if reopened.revision == state.revision
      then pure tt
      else if may_adopt state
      then update_handles (modify logical (λ s. record s { revision = reopened.revision }))
      else (do
        attempt (perform (net.remote.close_file filesystem reopened.handle))
        fail stale_revision)

  -- `state.remote = reopened.handle`, and what follows it.
  unfoldable pub take_over :
      ℕ → OpenedFile → ConnectionSlot F → Client W F (ConnectionSlot F × HandleState)
  take_over logical reopened slot = do
    update_handles (
        modify logical (λ s. record s {
          remote = reopened.handle;
          size = reopened.size;
          generation = slot.generation;
        }))
    state ← handle_state logical
    pure (slot, state)

  -- A handle of an earlier connection, opened again on this one.
  unfoldable pub reopen :
      ℕ → HandleState → ConnectionSlot F → Client W F (ConnectionSlot F × HandleState)
  reopen logical state slot = do
    reopened ← perform (
        net.remote.open_file_with_options slot.filesystem state.node
          (record state.options { truncate = false }))
    settle_revision logical state slot.filesystem reopened
    replay_locks slot.filesystem reopened.handle state.lock_history
    take_over logical reopened slot

  unfoldable pub remote_handle : ℕ → Client W F (ConnectionSlot F × HandleState)
  remote_handle logical = do
    slot ← healthy_connection net
    existing ← handle_state logical
    if existing.generation == slot.generation then pure (slot, existing) else (do
      state ← handle_state logical
      slot' ← healthy_connection net
      if state.generation == slot'.generation
          then pure (slot', state)
          else reopen logical state slot')
