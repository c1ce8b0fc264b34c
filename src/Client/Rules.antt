-- ===== src/Client/Rules.antt =====
-- What every step of the calls of crates/client-core/src/resilient.rs keeps, they keep.
use quic_kfs.Prelude.{ℕ, ◌+◌, subst, Bool, true, false, none, some, if◌then◌else◌, arith}
use quic_kfs.Protocol.Access.{FileOpenOptions}
use quic_kfs.Locks.{FileLock}
use quic_kfs.Client.Network.{ClientError, ClientResult, err, ok, Call, Network}
use quic_kfs.Client.Connection.{
  HandleState, Resilient, Client, follow, ◌>>=◌, pure, fail, attempt, give, perform, update,
  current, mark_failed, healthy_connection, reconnect_after,
}
use quic_kfs.Client.Calls.{
  invalid_handle, lookup, update_handles, known_handle, handle_state, fresh_handle, Handles,
}

-- A relation of the states before and after a step, with a count of what the step may do.
abbrev pub Relation : Type 0 → Type 0 → Type 1
Relation W F = ℕ → Resilient W F → Resilient W F → Type 0

abbrev pub IsKept : {W F A : Type 0} → Relation W F → ℕ → Client W F A → Type 0
IsKept R n step = (s : _) → R n s (step s).0

abbrev pub IsKeptBy : {W F A : Type 0} → Relation W F → ℕ → Call W A → Type 0
IsKeptBy R n call = (s : _) → R n s (record s { world = (call s.world).0 })

-- What makes a relation one that the steps of the client keep.
pub record IsRule {W F : Type 0} (net : Network W F) (R : Relation W F) : Type 0 where
  pub stay : (n : ℕ) (s : Resilient W F) → R n s s
  pub join : {m n : ℕ} {s t u : Resilient W F} → R m s t → R n t u → R (m + n) s u
  pub marked : (g : ℕ) (s : Resilient W F) → R 0 s (record s { failed_generation = g })
  pub handled : (h : Handles) (s : Resilient W F) → R 0 s (record s { handles = h })
  pub opened :
      (f : F) (node : ℕ) (options : FileOpenOptions)
      → IsKeptBy R 0 (net.remote.open_file_with_options f node options)
  pub closed : (f : F) (remote : ℕ) → IsKeptBy R 0 (net.remote.close_file f remote)
  pub locked :
      (f : F) (remote : ℕ) (lock : FileLock)
      → IsKeptBy R 0 (net.remote.set_lock f remote lock false)
  pub named : IsKeptBy R 0 (fresh_handle net)
  pub reconnected : (g : ℕ) → IsKept R 0 (reconnect_after net g)

module _ {W F : Type 0} (net : Network W F) (R : Relation W F) (rule : IsRule net R) where
  pub follow_lem :
      {A B : Type 0} (m n : ℕ) (rest : A → Client W F B)
      → ((a : A) → IsKept R n (rest a))
      → (s : Resilient W F) (r : Resilient W F × ClientResult A) → R m s r.0
      → R (m + n) s (follow r rest).0
  unfolding follow
  follow_lem m n rest h s (t, err e) k = rule.join k (rule.stay n t)
  follow_lem m n rest h s (t, ok a) k = rule.join k (h a t)

  pub bind_lem :
      {A B : Type 0} (m n : ℕ) (step : Client W F A) (rest : A → Client W F B)
      → IsKept R m step
      → ((a : A) → IsKept R n (rest a))
      → IsKept R (m + n) (step >>= rest)
  unfolding ◌>>=◌
  bind_lem m n step rest h k s = follow_lem m n rest k s (step s) (h s)

  pub perform_lem :
      {A : Type 0} (n : ℕ) (call : Call W A) → IsKeptBy R n call → IsKept R n (perform call)
  unfolding perform
  perform_lem n call h = h

  pub attempt_lem :
      {A : Type 0} (n : ℕ) (step : Client W F A) → IsKept R n step → IsKept R n (attempt step)
  unfolding attempt
  attempt_lem n step h = h

  pub pure_lem : {A : Type 0} (n : ℕ) (a : A) → IsKept R n (pure a)
  unfolding pure
  pure_lem n a = rule.stay n

  pub fail_lem : (n : ℕ) (A : Type 0) (e : ClientError) → IsKept R n (fail {A = A} e)
  unfolding fail
  fail_lem n A e = rule.stay n

  pub give_lem : {A : Type 0} (n : ℕ) (r : ClientResult A) → IsKept R n (give r)
  unfolding give
  give_lem n r = rule.stay n

  pub current_lem : IsKept R 0 current
  unfolding current
  current_lem = rule.stay 0

  pub mark_failed_lem : (g : ℕ) → IsKept R 0 (mark_failed g)
  unfolding mark_failed update
  mark_failed_lem = rule.marked

  pub update_handles_lem : (f : Handles → Handles) → IsKept R 0 (update_handles f)
  unfolding update_handles update
  update_handles_lem f s = rule.handled (f s.handles) s

  pub if_lem :
      {A : Type 0} (n : ℕ) (b : Bool) (step other : Client W F A)
      → IsKept R n step
      → IsKept R n other
      → IsKept R n (if b then step else other)
  if_lem n b step other h k s = elim b as (λ b. R n s ((if b then step else other) s).0) [
    | true ↦ h s
    | false ↦ k s
  ]

  pub ask :
      {A B : Type 0} (n : ℕ) (step : Client W F A) (rest : A → Client W F B)
      → IsKept R 0 step
      → ((a : A) → IsKept R n (rest a))
      → IsKept R n (step >>= rest)
  ask n step rest h k =
      subst (λ c. IsKept R c (step >>= rest)) (omega arith) (bind_lem 0 n step rest h k)

  pub then_lem :
      {A B : Type 0} (n : ℕ) (step : Client W F A) (rest : A → Client W F B)
      → IsKept R n step
      → ((a : A) → IsKept R 0 (rest a))
      → IsKept R n (step >>= rest)
  then_lem n step rest h k =
      subst (λ c. IsKept R c (step >>= rest)) (omega arith) (bind_lem n 0 step rest h k)

  pub healthy_connection_lem : IsKept R 0 (healthy_connection net)
  unfolding healthy_connection
  healthy_connection_lem =
      ask 0 current _ current_lem
        (λ s. if_lem 0 _ _ _ (rule.reconnected s.connection.generation) (pure_lem 0 s.connection))

  pub handle_state_lem : (logical : ℕ) → IsKept R 0 (handle_state logical)
  unfolding handle_state known_handle
  handle_state_lem logical = ask 0 current _ current_lem (λ s.
      elim (lookup logical s.handles) as (λ o. IsKept R 0 (known_handle o)) [
        | none ↦ fail_lem 0 HandleState invalid_handle
        | some state ↦ pure_lem 0 state
      ])
