-- ===== src/Client/Outcomes.antt =====
-- How often the calls of crates/client-core/src/resilient.rs send an operation, and what is said of
-- one whose answer was lost.
use quic_kfs.Prelude.{ℕ, ◌+◌, ◌≤◌, ◌≡◌, refl, ap, subst, true, false, arith, Bool-cases, inl, inr}
use quic_kfs.Protocol.Access.{FileOpenOptions}
use quic_kfs.Protocol.Messages.{Bytes}
use quic_kfs.Locks.{FileLock}
use quic_kfs.Client.Network.{
  ClientError, transport, ambiguous_mutation, ClientResult, err, ok, Call, Network,
}
use quic_kfs.Client.Connection.{
  ConnectionSlot, HandleState, Resilient, Client, follow, ◌>>=◌, pure, fail, attempt, give, perform,
  update, mark_failed, healthy_connection, is_transport, has_transport,
}
use quic_kfs.Client.Calls.{
  report_ambiguous, mutation_call, safe_call, remote_handle, update_written_handle, update_handles,
  Handles, fresh_handle,
}
use quic_kfs.Client.Files.{change_through, note_written, write_range}
use quic_kfs.Client.Rules.{Relation, IsRule, healthy_connection_lem}
use quic_kfs.Client.Steps.{safe_call_lem, remote_handle_lem}
use quic_kfs.Client.Reconnect
use quic_kfs.Client.Reconnect.{IsReconnection}

is_transport-true : (e : ClientError) → is_transport e ≡ true → e ≡ transport
is_transport-true e h = ground arith

-- A count that the calls which the client makes on its own account leave as it is.
pub record IsQuiet {W F : Type 0} (net : Network W F) (sent : W → ℕ) : Type 0 where
  pub connects : (w : W) → sent (net.connect w).0 ≤ sent w
  pub asks : (f : F) (w : W) → sent (net.remote.capabilities f w).0 ≤ sent w
  pub opens :
      (f : F) (node : ℕ) (options : FileOpenOptions) (w : W)
      → sent (net.remote.open_file_with_options f node options w).0 ≤ sent w
  pub closes : (f : F) (remote : ℕ) (w : W) → sent (net.remote.close_file f remote w).0 ≤ sent w
  pub locks :
      (f : F) (remote : ℕ) (lock : FileLock) (w : W)
      → sent (net.remote.set_lock f remote lock false w).0 ≤ sent w
  pub sleeps : (d : ℕ) (w : W) → sent (net.sleep d w) ≤ sent w
  pub names : (w : W) → sent (net.new_v4 w).0 ≤ sent w

module _ {W F : Type 0} (net : Network W F) (sent : W → ℕ) where
  abbrev pub Counts : Relation W F
  Counts n s t = sent t.world ≤ sent s.world + n

module _ {W F : Type 0} (net : Network W F) (sent : W → ℕ) (quiet : IsQuiet net sent) where
  Counts-IsReconnection : IsReconnection net (Counts net sent) 0
  Counts-IsReconnection = record {
    stay = λ n s. omega arith;
    join = λ h k. omega (arith, h, k);
    connects = λ s. omega (arith, quiet.connects s.world);
    asks = λ f s. omega (arith, quiet.asks f s.world);
    sleeps = λ d s. omega (arith, quiet.sleeps d s.world);
    gives_up = λ o s. omega arith;
    adopts = λ slot s. omega arith;
  }

  Counts-IsRule : IsRule net (Counts net sent)
  unfolding fresh_handle
  Counts-IsRule = record {
    stay = λ n s. omega arith;
    join = λ h k. omega (arith, h, k);
    marked = λ g s. omega arith;
    handled = λ h s. omega arith;
    opened = λ f node options s. omega (arith, quiet.opens f node options s.world);
    closed = λ f remote s. omega (arith, quiet.closes f remote s.world);
    locked = λ f remote lock s. omega (arith, quiet.locks f remote lock s.world);
    named = λ s. omega (arith, quiet.names s.world);
    reconnected = λ g s.
        omega
          (arith, Reconnect.reconnect_after_lem net (Counts net sent) 0 Counts-IsReconnection g s);
  }

  -- How a change ended: it was not sent; or it was sent once and answered; or it was sent once, its
  -- answer was lost, and that is said.
  pub data Fate {A : Type 0} (IsAnswer : ClientResult A → Type 0) (s : Resilient W F)
      (t : Resilient W F × ClientResult A) : Type 0 where
    unsent : (e : ClientError) → t.1 ≡ err e → sent t.0.world ≤ sent s.world → Fate IsAnswer s t
    answered :
        IsAnswer t.1
        → has_transport t.1 ≡ false
        → sent t.0.world ≤ sent s.world + 1
        → Fate IsAnswer s t
    lost :
        IsAnswer (err transport)
        → t.1 ≡ err ambiguous_mutation
        → sent t.0.world ≤ sent s.world + 1
        → Fate IsAnswer s t

  -- What is made of an answer.
  reported :
      {A : Type 0} (P : ClientResult A → Type 0) (s t : Resilient W F) (g : ℕ) (r : ClientResult A)
      → sent t.world ≤ sent s.world + 1
      → P r
      → Fate P s (report_ambiguous g r t)
  unfolding report_ambiguous ◌>>=◌ follow mark_failed update fail give
  reported P s t g (ok a) h p = answered p refl h
  reported P s t g (err e) h p = elim (Bool-cases (is_transport e)) [
    | inl same ↦ rw same (lost (subst P (ap err (is_transport-true e same)) p) refl h)
    | inr other ↦ rw other (answered p other h)
  ]

  -- After a step that sends nothing.
  begun :
      {A B : Type 0} (P : ClientResult A → Type 0) (s : Resilient W F)
      (r : Resilient W F × ClientResult B) (rest : B → Client W F A)
      → sent r.0.world ≤ sent s.world
      → ((b : B) (t : Resilient W F) → sent t.world ≤ sent s.world → Fate P s (rest b t))
      → Fate P s (follow r rest)
  unfolding follow
  begun P s (t, err e) rest h k = unsent e refl h
  begun P s (t, ok b) rest h k = k b t h

  -- If the client's own calls leave a count as it is and each sending of an operation raises it by
  -- at most one, then a mutation is not sent, or sent once and its answer given, or sent once and
  -- reported as ambiguous because its answer was lost with the connection.
  pub mutation_call-Fate :
      {A : Type 0} (operation : F → Call W A)
      → ((f : F) (w : W) → sent (operation f w).0 ≤ sent w + 1)
      → (s : Resilient W F)
      → Fate (λ r. (f : F) × (w : W) × ((operation f w).1 ≡ r)) s (mutation_call net operation s)
  unfolding mutation_call ◌>>=◌ attempt perform follow
  mutation_call-Fate operation h s =
      begun _ s (healthy_connection net s) _
        (omega (arith, healthy_connection_lem net (Counts net sent) Counts-IsRule s))
        (λ slot t k.
          reported _ s (record t { world = (operation slot.filesystem t.world).0 }) slot.generation
            (operation slot.filesystem t.world).1 (omega (arith, k, h slot.filesystem t.world))
            (slot.filesystem, t.world, refl))

  -- What is noted in the handles about a change that was answered.
  noted :
      {A : Type 0} (P : ClientResult A → Type 0) (s : Resilient W F)
      (r : Resilient W F × ClientResult A) (note : A → Handles → Handles)
      → Fate P s r
      → Fate P s (follow r (λ a. update_handles (note a) >>= (λ _. pure a)))
  unfolding follow ◌>>=◌ pure update_handles update
  noted P s (t, err e) note fate = fate
  noted P s (t, ok a) note fate = elim fate [
    | unsent e q k ↦ cc
    | answered p q k ↦ answered p q k
    | lost p q k ↦ cc
  ]

  -- The same of a change through a handle.
  change_through-Fate :
      {A : Type 0} (operation : F → ℕ → Call W A) (logical : ℕ)
      (note : ConnectionSlot F × HandleState → A → Handles → Handles)
      → ((f : F) (remote : ℕ) (w : W) → sent (operation f remote w).0 ≤ sent w + 1)
      → (s : Resilient W F)
      → Fate
          (λ r. (f : F) × (remote : ℕ) × (w : W) × ((operation f remote w).1 ≡ r))
          s
          (change_through net operation logical (λ opened a. update_handles (note opened a)) s)
  unfolding change_through ◌>>=◌ attempt perform follow
  change_through-Fate operation logical note h s =
      begun _ s (remote_handle net logical s) _
        (omega (arith, remote_handle_lem net (Counts net sent) Counts-IsRule logical s))
        (λ opened t k. noted _ s _ (note opened) (
          reported _ s
            (record t { world = (operation opened.0.filesystem opened.1.remote t.world).0 })
            opened.0.generation (operation opened.0.filesystem opened.1.remote t.world).1
            (omega (arith, k, h opened.0.filesystem opened.1.remote t.world))
            (opened.0.filesystem, opened.1.remote, t.world, refl)))

  -- If the client's own calls leave a count as it is and each sending of a write raises it by at
  -- most one, then a write through a handle is not sent, or sent once and its answer given, or sent
  -- once and reported as ambiguous because its answer was lost with the connection.
  pub write_range-Fate :
      (handle offset : ℕ) (bytes : Bytes)
      → ((f : F) (remote : ℕ) (w : W)
          → sent (net.remote.write_range f remote offset bytes w).0 ≤ sent w + 1)
      → (s : Resilient W F)
      → Fate
          (λ r.
            (f : F) × (remote : ℕ) × (w : W) × ((net.remote.write_range f remote offset bytes w).1
              ≡ r))
          s
          (write_range net handle offset bytes s)
  unfolding write_range note_written update_written_handle
  write_range-Fate handle offset bytes h s =
      change_through-Fate (λ f remote. net.remote.write_range f remote offset bytes) handle _ h s

  -- If the client's own calls leave a count as it is and each sending of an operation raises it by
  -- at most one, then a call that is safe to repeat sends it at most twice.
  safe_call-twice :
      {A : Type 0} (operation : F → Call W A)
      → ((f : F) (w : W) → sent (operation f w).0 ≤ sent w + 1)
      → (s : Resilient W F) → sent (safe_call net operation s).0.world ≤ sent s.world + 2
  safe_call-twice operation h s =
      safe_call_lem net (Counts net sent) Counts-IsRule 1 operation (λ f s. h f s.world) s
