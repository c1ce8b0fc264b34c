-- ===== src/Client/Connection.antt =====
-- ReconnectPolicy, ConnectionSlot, HandleState and ResilientFilesystem of
-- crates/client-core/src/resilient.rs, with capability_epoch, new, healthy_connection, mark_failed
-- and reconnect_after.
use quic_kfs.Prelude.{
  ℕ, zero, suc, ◌+◌, ◌-◌, ◌*◌, Bool, true, false, not, ◌&&◌, ◌||◌, Option, none, some, List, [],
  ltb, ◌==◌, if◌then◌else◌, min,
}
use quic_kfs.Protocol.Access.{ErrorCode, FileOpenOptions}
use quic_kfs.Locks.{FileLock}
use quic_kfs.Protocol.Messages.{FilesystemCapabilities}
use quic_kfs.Client.Network.{
  ClientError, transport, server, offline, ClientResult, err, ok, Call, Network,
}

-- Durations are numbers of nanoseconds.
pub record ReconnectPolicy : Type 0 where
  pub attempts : ℕ
  pub initial_backoff : ℕ
  pub maximum_backoff : ℕ

pub record ConnectionSlot (F : Type 0) : Type 0 where
  pub generation : ℕ
  pub filesystem : F

pub record HandleState : Type 0 where
  pub node : ℕ
  pub options : FileOpenOptions
  pub remote : ℕ
  pub revision : ℕ
  pub size : ℕ
  pub generation : ℕ
  pub lock_history : List FileLock

-- ResilientFilesystem, between two of its steps, and the world outside.
pub record Resilient (W F : Type 0) : Type 0 where
  pub policy : ReconnectPolicy
  pub connection : ConnectionSlot F
  pub last_failure : Option (ℕ × ℕ)
  pub failed_generation : ℕ
  pub server_epoch : Option ℕ
  pub handles : List (ℕ × HandleState)
  pub world : W

-- `async fn(&self) -> Result<A>`
abbrev pub Client : Type 0 → Type 0 → Type 0 → Type 0
Client W F A = Resilient W F → Resilient W F × ClientResult A

abbrev pub is_transport : ClientError → Bool
is_transport transport = true
is_transport _ = false

-- `Err(ClientError::Transport(_))`
abbrev pub has_transport {ℓ} : {A : Type ℓ} → ClientResult A → Bool
has_transport (err e) = is_transport e
has_transport (ok _) = false

-- `epoch == self.server_epoch`
abbrev pub epoch_eq : Option ℕ → Option ℕ → Bool
epoch_eq none none = true
epoch_eq (some a) (some b) = a == b
epoch_eq _ _ = false

abbrev pub is_some : Option ℕ → Bool
is_some none = false
is_some (some _) = true

-- Duration::MAX, and a nanosecond.
abbrev pub duration_limit : ℕ
duration_limit = 18446744073709551616 * 1000000000

abbrev pub next_backoff : ReconnectPolicy → ℕ → ℕ
next_backoff policy backoff =
    min (if ltb (backoff * 2) duration_limit then backoff * 2 else policy.maximum_backoff)
      policy.maximum_backoff

-- u64::saturating_add(1)
abbrev pub next_generation : ℕ → ℕ
next_generation generation = min (generation + 1) 18446744073709551615

module _ {W F : Type 0} where
  infixl 5 ◌>>=◌ ◌>>◌
  -- What follows a step, by its result.
  unfoldable pub follow :
      {A B : Type 0}
      → Resilient W F × ClientResult A
      → (A → Client W F B)
      → Resilient W F × ClientResult B
  follow (s, err e) rest = (s, err e)
  follow (s, ok a) rest = rest a s

  unfoldable pub ◌>>=◌ : {A B : Type 0} → Client W F A → (A → Client W F B) → Client W F B
  (step >>= rest) s = follow (step s) rest

  abbrev pub ◌>>◌ : {A B : Type 0} → Client W F A → Client W F B → Client W F B
  step >> rest = step >>= (λ _. rest)

  unfoldable pub pure : {A : Type 0} → A → Client W F A
  pure a s = (s, ok a)

  unfoldable pub fail : {A : Type 0} → ClientError → Client W F A
  fail e s = (s, err e)

  -- A result that is looked at, and one that is given back.
  unfoldable pub attempt : {A : Type 0} → Client W F A → Client W F (ClientResult A)
  attempt step s = ((step s).0, ok (step s).1)

  unfoldable pub give : {A : Type 0} → ClientResult A → Client W F A
  give result s = (s, result)

  unfoldable pub perform : {A : Type 0} → Call W A → Client W F A
  perform call s = (record s { world = (call s.world).0 }, (call s.world).1)

  unfoldable pub update : (Resilient W F → Resilient W F) → Client W F (Unit {0})
  update f s = (f s, ok tt)

  unfoldable pub current : Client W F (Resilient W F)
  current s = (s, ok s)

  unfoldable pub mark_failed : ℕ → Client W F (Unit {0})
  mark_failed generation = update (λ s. record s { failed_generation = generation })

  -- A failed batch is shared for a while.
  unfoldable pub cooling : (W → ℕ) → ℕ → Resilient W F → Option (ℕ × ℕ) → Bool
  cooling now failed s none = false
  cooling now failed s (some (generation, failed_at)) =
      generation == failed && ltb (now s.world - failed_at) s.policy.maximum_backoff

  unfoldable pub adopt : ConnectionSlot F → Client W F (ConnectionSlot F)
  adopt slot = do
    update (λ s. record s { connection = slot; failed_generation = 0; last_failure = none })
    pure slot

module _ {W F : Type 0} (net : Network W F) where
  unfoldable pub epoch_of : ClientResult FilesystemCapabilities → ClientResult (Option ℕ)
  epoch_of (ok capabilities) = ok (some capabilities.server_epoch)
  epoch_of (err (server ErrorCode.not_supported)) = ok none
  epoch_of (err e) = err e

  unfoldable pub capability_epoch : F → Client W F (Option ℕ)
  capability_epoch filesystem = do
    answer ← attempt (perform (net.remote.capabilities filesystem))
    give (epoch_of answer)

  -- The epoch of a new connection must be the session's, if that has one.
  unfoldable pub check_epoch : ℕ → F → Option ℕ → Client W F (ConnectionSlot F)
  check_epoch failed filesystem epoch s =
      if is_some s.server_epoch && not (epoch_eq epoch s.server_epoch)
      then fail (server ErrorCode.conflict) s
      else adopt (record { generation = next_generation failed; filesystem = filesystem }) s

  -- A filesystem that was connected to.
  unfoldable pub connected : ℕ → F → Client W F (ConnectionSlot F)
  connected failed filesystem = capability_epoch filesystem >>= check_epoch failed filesystem

  unfoldable pub give_up : ℕ → Client W F (ConnectionSlot F)
  give_up failed = do
    update (λ s. record s { last_failure = some (failed, net.now s.world) })
    fail offline

  -- The `match` on a connect, with what the next turn does.
  unfoldable pub connect_turn :
      ℕ → ℕ → ℕ → Client W F (ConnectionSlot F) → ClientResult F → Client W F (ConnectionSlot F)
  connect_turn failed backoff rest again (ok filesystem) = connected failed filesystem
  connect_turn failed backoff zero again (err _) = give_up failed
  connect_turn failed backoff (suc _) again (err _) = do
    update (λ s. record s { world = net.sleep backoff s.world })
    again

  -- `for attempt in 0..self.policy.attempts`, by the number of turns left.
  unfoldable pub connect_loop : ReconnectPolicy → ℕ → ℕ → ℕ → Client W F (ConnectionSlot F)
  connect_loop policy failed backoff zero = fail offline
  connect_loop policy failed backoff (suc rest) = do
    let again = connect_loop policy failed (next_backoff policy backoff) rest
    result ← attempt (perform net.connect)
    connect_turn failed backoff rest again result

  unfoldable pub reconnect_after : ℕ → Client W F (ConnectionSlot F)
  reconnect_after failed = do
    self ← current
    if not (self.connection.generation == failed) || not (self.failed_generation == failed)
        then pure self.connection
        else if cooling net.now failed self self.last_failure
        then fail offline
        else connect_loop self.policy failed self.policy.initial_backoff self.policy.attempts

  unfoldable pub healthy_connection : Client W F (ConnectionSlot F)
  healthy_connection = do
    self ← current
    if self.failed_generation == self.connection.generation
        then reconnect_after self.connection.generation
        else pure self.connection

  -- A client that starts on a connection, by the answer about its epoch.
  unfoldable pub begin :
      F → ReconnectPolicy → W → ClientResult (Option ℕ) → ClientResult (Resilient W F)
  begin initial policy w (err e) = err e
  begin initial policy w (ok epoch) = ok (record {
    policy = policy;
    connection = record { generation = 1; filesystem = initial };
    last_failure = none;
    failed_generation = 0;
    server_epoch = epoch;
    handles = [];
    world = w;
  })

  unfoldable pub new : F → ReconnectPolicy → W → W × ClientResult (Resilient W F)
  new initial policy w =
      let asked = net.remote.capabilities initial w in
      if policy.attempts == 0
      then (w, err (server ErrorCode.invalid_request))
      else (asked.0, begin initial policy asked.0 (epoch_of asked.1))
