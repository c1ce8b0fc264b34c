-- ===== src/Client/Cooldown.antt =====
-- The connects of crates/client-core/src/resilient.rs: how many there are, and when there are none.
use quic_kfs.Prelude.{
  ℕ, zero, suc, ◌+◌, ◌-◌, ◌≤◌, ◌<◌, ◌≡◌, refl, sym, ◌∙◌, ap, subst, Bool, true, false, Option, some,
  ltb, ◌==◌, arith, ==_refl,
}
use quic_kfs.Client.Network.{offline, ClientResult, err, ok, Network}
use quic_kfs.Client.Connection.{
  ReconnectPolicy, ConnectionSlot, Resilient, Client, follow, ◌>>=◌, pure, fail, attempt, perform,
  update, current, reconnect_after, healthy_connection, connect_loop, connect_turn, give_up,
  next_backoff, cooling,
}
use quic_kfs.Client.Outcomes.{Counts}
use quic_kfs.Client.Reconnect
use quic_kfs.Client.Reconnect.{IsReconnection}

==_true : {a b : ℕ} → a ≡ b → (a == b) ≡ true
==_true h = ground arith

ltb-true : {a b : ℕ} → a < b → ltb a b ≡ true
ltb-true h = ground arith

abbrev pub has_failed : {A : Type 0} → ClientResult A → Bool
has_failed (err _) = true
has_failed (ok _) = false

module _ {W F : Type 0} (net : Network W F) where
  -- A reconnection that nobody answered: the batch is noted with the time of its end.
  data IsOffline (g : ℕ) (s : Resilient W F) (t : Resilient W F × ClientResult (ConnectionSlot F))
      : Type 0 where
    went_offline :
        t.1 ≡ err offline
        → t.0.last_failure ≡ some (g, net.now t.0.world)
        → t.0.failed_generation ≡ s.failed_generation
        → t.0.connection ≡ s.connection
        → t.0.policy ≡ s.policy
        → IsOffline g s t

  turn_lem :
      (g backoff n : ℕ) (again : Client W F (ConnectionSlot F)) (r : ClientResult F)
      (s : Resilient W F)
      → has_failed r ≡ true
      → ((m : ℕ) → n ≡ suc m → (t : Resilient W F) → IsOffline g t (again t))
      → IsOffline g s (connect_turn net g backoff n again r s)
  unfolding connect_turn give_up ◌>>=◌ follow update fail
  turn_lem g backoff n again (ok f) s h k = ground arith
  turn_lem g backoff zero again (err e) s h k = went_offline refl refl refl refl refl
  turn_lem g backoff (suc n) again (err e) s h k =
      elim (k n refl (record s { world = net.sleep backoff s.world })) [
        | went_offline a b c d p ↦ went_offline a b c d p
      ]

  connect_loop-IsOffline :
      ((w : W) → has_failed (net.connect w).1 ≡ true)
      → (policy : ReconnectPolicy) (g backoff n : ℕ) (s : Resilient W F)
      → IsOffline g s (connect_loop net policy g backoff (suc n) s)
  unfolding connect_loop ◌>>=◌ attempt perform follow
  connect_loop-IsOffline down policy g backoff zero s =
      elim (turn_lem g backoff 0 _ (net.connect s.world).1
        (record s { world = (net.connect s.world).0 }) (down s.world) (λ m e. ground arith)) [
          | went_offline a b c d p ↦ went_offline a b c d p
        ]
  connect_loop-IsOffline down policy g backoff (suc n) s =
      elim (turn_lem g backoff (suc n) _ (net.connect s.world).1
        (record s { world = (net.connect s.world).0 }) (down s.world)
        (λ m e t. connect_loop-IsOffline down policy g (next_backoff policy backoff) n t)) [
          | went_offline a b c d p ↦ went_offline a b c d p
        ]

  tries :
      (s : Resilient W F)
      → s.failed_generation ≡ s.connection.generation
      → cooling net.now s.connection.generation s s.last_failure ≡ false
      → healthy_connection net s
        ≡ connect_loop net s.policy s.connection.generation s.policy.initial_backoff
            s.policy.attempts s
  unfolding healthy_connection reconnect_after current ◌>>=◌ follow pure fail
  tries s failed warm =
      rw (==_true failed, ==_refl s.connection.generation, warm, ==_true failed) refl

  cooled :
      (s : Resilient W F) (g at : ℕ) (o : Option (ℕ × ℕ))
      → o ≡ some (g, at)
      → net.now s.world - at < s.policy.maximum_backoff
      → cooling net.now g s o ≡ true
  unfolding cooling
  cooled s g at o h soon = rw (h, ==_refl g, ltb-true soon) refl

  rests :
      (s : Resilient W F) (at : ℕ)
      → s.failed_generation ≡ s.connection.generation
      → s.last_failure ≡ some (s.connection.generation, at)
      → net.now s.world - at < s.policy.maximum_backoff
      → healthy_connection net s ≡ (s, err offline)
  unfolding healthy_connection reconnect_after current ◌>>=◌ follow pure fail
  rests s at failed shared soon =
      rw
        (
          ==_true failed,
          ==_refl s.connection.generation,
          cooled s s.connection.generation at s.last_failure shared soon,
          ==_true failed,
        )
        refl

  tries-IsOffline :
      ((w : W) → has_failed (net.connect w).1 ≡ true)
      → (s : Resilient W F) (n g d : ℕ) → 1 ≤ n
      → IsOffline g s (connect_loop net s.policy g d n s)
  tries-IsOffline down s zero g d h = ground arith
  tries-IsOffline down s (suc n) g d h = connect_loop-IsOffline down s.policy g d n s

  rested :
      (s : Resilient W F) (w : W) (r : Resilient W F × ClientResult (ConnectionSlot F))
      → s.failed_generation ≡ s.connection.generation
      → IsOffline s.connection.generation s r
      → net.now w - net.now r.0.world < s.policy.maximum_backoff
      → (r.1 ≡ err offline)
        × (healthy_connection net (record r.0 { world = w })
            ≡ (record r.0 { world = w }, err offline))
  rested s w r failed (went_offline a b c d p) soon = (
    a,
    rests (record r.0 { world = w }) (net.now r.0.world)
        (c ∙ failed ∙ sym (ap (λ slot. slot.generation) d))
        (b ∙ ap (λ slot. some (slot.generation, net.now r.0.world)) (sym d)) (rw p soon),
  )

  -- If no connect succeeds, the connection has failed, at least one attempt is to be made and no
  -- batch is being shared, then healthy_connection finds the server offline, and until the maximum
  -- backoff has passed it says so again at once, without any call.
  pub healthy_connection-shared :
      ((w : W) → has_failed (net.connect w).1 ≡ true)
      → (s : Resilient W F) (w : W) → s.failed_generation ≡ s.connection.generation
      → 1 ≤ s.policy.attempts
      → cooling net.now s.connection.generation s s.last_failure ≡ false
      → net.now w - net.now (healthy_connection net s).0.world < s.policy.maximum_backoff
      → let t = record (healthy_connection net s).0 { world = w } in
        ((healthy_connection net s).1 ≡ err offline) × (healthy_connection net t ≡ (t, err offline))
  healthy_connection-shared down s w failed some_attempt warm soon =
      subst
        (λ r.
          ((r.1 ≡ err offline)
            × (healthy_connection net (record r.0 { world = w })
                ≡ (record r.0 { world = w }, err offline))))
        (sym (tries s failed warm))
        (rested s w _ failed
          (tries-IsOffline down s s.policy.attempts s.connection.generation s.policy.initial_backoff
            some_attempt)
          (subst (λ r. net.now w - net.now r.0.world < s.policy.maximum_backoff)
            (tries s failed warm) soon))

  -- If a count is raised by at most one by a connect, and by nothing else that a reconnection does,
  -- then a call makes at most as many connects as the policy has attempts to have a connection.
  pub healthy_connection-connects :
      (count : W → ℕ)
      → ((w : W) → count (net.connect w).0 ≤ count w + 1)
      → ((f : F) (w : W) → count (net.remote.capabilities f w).0 ≤ count w)
      → ((d : ℕ) (w : W) → count (net.sleep d w) ≤ count w)
      → (s : Resilient W F)
      → count (healthy_connection net s).0.world ≤ count s.world + s.policy.attempts
  healthy_connection-connects count connects asks sleeps s = omega (
    arith,
    Reconnect.healthy_connection_lem net (Counts net count) 1
        (record {
          stay = λ n s. omega arith;
          join = λ h k. omega (arith, h, k);
          connects = λ s. connects s.world;
          asks = λ f s. omega (arith, asks f s.world);
          sleeps = λ d s. omega (arith, sleeps d s.world);
          gives_up = λ o s. omega arith;
          adopts = λ slot s. omega arith;
        })
        s,
  )
