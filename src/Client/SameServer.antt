-- ===== src/Client/SameServer.antt =====
-- The server that a client of crates/client-core/src/resilient.rs stays with, whatever it is asked.
use quic_kfs.Prelude.{ℕ, ◌≤◌, ◌≡◌, refl, subst, ◌∙◌, ap, some, Option, List, [], ◌∷◌, arith}
use quic_kfs.Client.Network.{ClientResult, err, ok, Network}
use quic_kfs.Client.Connection.{ReconnectPolicy, Resilient, begin, new, epoch_of}
use quic_kfs.Client.Sessions.{Method, call, call_all}
use quic_kfs.Client.Servers.{call_lem}
use quic_kfs.Client.Epochs.{
  HasSaid, IsSameServer, Follows, same_Follows, Follows-trans, Follows-IsRule, agreed,
  last_generation,
}

module _ {W F : Type 0} (net : Network W F) where
  call-Follows : (m : Method) (s : Resilient W F) → Follows net s (call net m s)
  call-Follows =
      call_lem net (λ _. Follows net) (Follows-IsRule net)
        (λ w s. same_Follows net s (record s { world = w }) refl refl refl)

  call_all-Follows : (ms : List Method) (s : Resilient W F) → Follows net s (call_all net ms s)
  unfolding call_all
  call_all-Follows [] s = same_Follows net s s refl refl refl
  call_all-Follows (m ∷ ms) s =
      Follows-trans net s (call net m s) _ (call-Follows m s) (call_all-Follows ms (call net m s))

  ok_injective : {s t : Resilient W F} → ok s ≡ ok t → s ≡ t
  ok_injective h = cc

  -- What a client is when it starts.
  pub data IsStarted (policy : ReconnectPolicy) (s : Resilient W F) : Type 0 where
    started :
        s.policy ≡ policy
        → s.connection.generation ≡ 1
        → 1 ≤ policy.attempts
        → IsSameServer net s
        → IsStarted policy s

  begin-IsStarted :
      (f : F) (policy : ReconnectPolicy) (w : W) (r : ClientResult (Option ℕ)) (s : Resilient W F)
      → begin net f policy w r ≡ ok s
      → ((e : ℕ) → r ≡ ok (some e) → HasSaid net f e)
      → 1 ≤ policy.attempts
      → IsStarted policy s
  unfolding begin
  begin-IsStarted f policy w (err e) s h k n = ground arith
  begin-IsStarted f policy w (ok o) s h k n =
      subst (IsStarted policy) (ok_injective h) (started refl refl n (λ e q. k e (ap ok q)))

  new-IsStarted :
      (f : F) (policy : ReconnectPolicy) (w : W) (s : Resilient W F)
      → (new net f policy w).1 ≡ ok s
      → IsStarted policy s
  unfolding new
  new-IsStarted f policy w s h =
      begin-IsStarted f policy (net.remote.capabilities f w).0
        (epoch_of net (net.remote.capabilities f w).1) s (ground arith)
        (λ e k. agreed net f w (net.remote.capabilities f w).1 e refl k) (ground arith)

  -- However its methods are called, a client that was started keeps the policy and the epoch that it
  -- started with, its generations are 64-bit words from 1 on, and if it started with an epoch then
  -- the filesystem of its connection has said that its server is at that epoch.
  pub call_all-IsSameServer :
      (f : F) (policy : ReconnectPolicy) (w : W) (s : Resilient W F) (ms : List Method)
      → (new net f policy w).1 ≡ ok s
      → let t = call_all net ms s in
        (t.policy ≡ policy)
        × (t.server_epoch ≡ s.server_epoch)
        × (1 ≤ t.connection.generation)
        × (t.connection.generation ≤ last_generation)
        × IsSameServer net t
  call_all-IsSameServer f policy w s ms h = elim (new-IsStarted f policy w s h) [
    | started p g n same ↦
        let follows = call_all-Follows ms s in
        let bound = follows.generation (omega (arith, g)) in
        (follows.policy ∙ p, follows.epoch, omega (arith, g, bound.0), bound.1, follows.server same)
  ]
