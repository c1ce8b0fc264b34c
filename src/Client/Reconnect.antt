-- ===== src/Client/Reconnect.antt =====
-- What reconnect_after and healthy_connection of crates/client-core/src/resilient.rs do at most.
use quic_kfs.Prelude.{
  ℕ, zero, suc, ◌+◌, ◌*◌, subst, not, ◌||◌, ◌&&◌, none, Option, ◌==◌, arith, Bool-cases, inl, inr,
}
use quic_kfs.Client.Network.{ClientResult, err, ok, Network}
use quic_kfs.Client.Connection.{
  ReconnectPolicy, ConnectionSlot, Resilient, follow, ◌>>=◌, pure, fail, attempt, give, perform,
  update, current, reconnect_after, healthy_connection, connect_loop, connect_turn, connected,
  check_epoch, adopt, give_up, capability_epoch, epoch_of, epoch_eq, is_some, next_backoff, cooling,
}
use quic_kfs.Client.Rules.{Relation, IsKept}

-- What holds of each step of a reconnection, with the count of what a connect may do.
pub record IsReconnection {W F : Type 0} (net : Network W F) (R : Relation W F) (c : ℕ)
    : Type 0 where
  pub stay : (n : ℕ) (s : Resilient W F) → R n s s
  pub join : {m n : ℕ} {s t u : Resilient W F} → R m s t → R n t u → R (m + n) s u
  pub connects : (s : Resilient W F) → R c s (record s { world = (net.connect s.world).0 })
  pub asks :
      (f : F) (s : Resilient W F)
      → R 0 s (record s { world = (net.remote.capabilities f s.world).0 })
  pub sleeps : (d : ℕ) (s : Resilient W F) → R 0 s (record s { world = net.sleep d s.world })
  pub gives_up : (o : Option (ℕ × ℕ)) (s : Resilient W F) → R 0 s (record s { last_failure = o })
  pub adopts :
      (slot : ConnectionSlot F) (s : Resilient W F)
      → R 0 s (record s { connection = slot; failed_generation = 0; last_failure = none })

module _ {W F : Type 0} (net : Network W F) (R : Relation W F) (c : ℕ)
    (rule : IsReconnection net R c) where
  check_epoch_lem : (g : ℕ) (f : F) (o : Option ℕ) → IsKept R 0 (check_epoch net g f o)
  unfolding check_epoch adopt ◌>>=◌ follow update pure fail
  check_epoch_lem g f o s =
      elim (Bool-cases (is_some s.server_epoch && not (epoch_eq o s.server_epoch))) [
        | inl refused ↦ rw refused (rule.stay 0 s)
        | inr same ↦ rw same (rule.adopts _ s)
      ]

  connected_lem : (g : ℕ) (f : F) → IsKept R 0 (connected net g f)
  unfolding connected capability_epoch ◌>>=◌ attempt perform give follow
  connected_lem g f s = after (epoch_of net (net.remote.capabilities f s.world).1)
    where
      after :
          (r : ClientResult (Option ℕ))
          → R 0 s
              (follow
                (record s { world = (net.remote.capabilities f s.world).0 }, r)
                (check_epoch net g f)).0
      after (err e) = rule.asks f s
      after (ok o) = rule.join (rule.asks f s) (check_epoch_lem g f o _)

  onwards : (n : ℕ) (s t u : Resilient W F) → R 0 s t → R n t u → R n s u
  onwards n s t u h k = subst (λ m. R m s u) (omega arith) (rule.join h k)

  weaken : (n : ℕ) (s t : Resilient W F) → R 0 s t → R n s t
  weaken n s t h = onwards n s t t h (rule.stay n t)

  connect_loop_lem :
      (policy : ReconnectPolicy) (g backoff n : ℕ)
      → IsKept R (n * c) (connect_loop net policy g backoff n)
  unfolding connect_loop connect_turn give_up ◌>>=◌ attempt perform follow update fail
  connect_loop_lem policy g backoff zero s = rule.stay (0 * c) s
  connect_loop_lem policy g backoff (suc n) s =
      subst (λ k. R k s (connect_loop net policy g backoff (suc n) s).0) (omega arith)
        (rule.join (rule.connects s) (
          after n (net.connect s.world).1
            (connect_loop_lem policy g (next_backoff policy backoff) n)))
    where
      s' : Resilient W F
      s' = record s { world = (net.connect s.world).0 }

      after :
          (n : ℕ) (r : ClientResult F)
          → IsKept R (n * c) (connect_loop net policy g (next_backoff policy backoff) n)
          → R
              (n * c)
              s'
              (connect_turn net g backoff n
                (connect_loop net policy g (next_backoff policy backoff) n)
                r
                s').0
      after n (ok f) k = weaken (n * c) s' _ (connected_lem g f s')
      after zero (err e) k = weaken (0 * c) s' _ (rule.gives_up _ s')
      after (suc n) (err e) k = onwards (suc n * c) s' _ _ (rule.sleeps backoff s') (k _)

  pub reconnect_after_lem :
      (g : ℕ) (s : Resilient W F) → R (s.policy.attempts * c) s (reconnect_after net g s).0
  unfolding reconnect_after current ◌>>=◌ follow pure fail
  reconnect_after_lem g s =
      elim (Bool-cases (not (s.connection.generation == g) || not (s.failed_generation == g))) [
        | inl other ↦ rw other (rule.stay (s.policy.attempts * c) s)
        | inr same ↦ elim (Bool-cases (cooling net.now g s s.last_failure)) [
          | inl cool ↦ rw (same, cool) (rule.stay (s.policy.attempts * c) s)
          | inr warm ↦
              rw (same, warm)
                (connect_loop_lem s.policy g s.policy.initial_backoff s.policy.attempts s)
        ]
      ]

  pub healthy_connection_lem :
      (s : Resilient W F) → R (s.policy.attempts * c) s (healthy_connection net s).0
  unfolding healthy_connection current ◌>>=◌ follow pure
  healthy_connection_lem s = elim (Bool-cases (s.failed_generation == s.connection.generation)) [
    | inl failed ↦ rw failed (reconnect_after_lem s.connection.generation s)
    | inr good ↦ rw good (rule.stay (s.policy.attempts * c) s)
  ]
