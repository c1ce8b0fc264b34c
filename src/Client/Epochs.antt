-- ===== src/Client/Epochs.antt =====
-- The server that the connections of crates/client-core/src/resilient.rs lead to.
use quic_kfs.Prelude.{
  ℕ, zero, suc, ◌≤◌, ◌≡◌, ◌≢◌, refl, sym, ap, subst, ◌∙◌, true, false, not, ◌&&◌, Option, none,
  some, ◌==◌, arith, Bool-cases, inl, inr, ==→eq,
}
use quic_kfs.Protocol.Messages.{FilesystemCapabilities}
use quic_kfs.Client.Network.{ClientError, ClientResult, err, ok, Network}
use quic_kfs.Client.Connection.{
  ReconnectPolicy, ConnectionSlot, Resilient, Client, follow, ◌>>=◌, pure, fail, attempt, give,
  perform, update, current, reconnect_after, connect_loop, connect_turn, connected, check_epoch,
  give_up, capability_epoch, epoch_of, epoch_eq, is_some, adopt, next_backoff, cooling,
}
use quic_kfs.Client.Rules.{IsRule}

abbrev pub last_generation : ℕ
last_generation = 18446744073709551615

module _ {W F : Type 0} (net : Network W F) where
  -- A filesystem that has said that its server is at an epoch.
  pub data HasSaid (f : F) (e : ℕ) : Type 0 where
    said :
        (w : W) (c : FilesystemCapabilities)
        → (net.remote.capabilities f w).1 ≡ ok c
        → c.server_epoch ≡ e
        → HasSaid f e

  abbrev pub IsSameServer : Resilient W F → Type 0
  IsSameServer s = (e : ℕ) → s.server_epoch ≡ some e → HasSaid s.connection.filesystem e

  pub record Follows (s t : Resilient W F) : Type 0 where
    pub policy : t.policy ≡ s.policy
    pub epoch : t.server_epoch ≡ s.server_epoch
    pub server : IsSameServer s → IsSameServer t
    pub generation :
        s.connection.generation ≤ last_generation
        → (s.connection.generation ≤ t.connection.generation)
          × (t.connection.generation ≤ last_generation)

  -- A step that changes neither the policy, the epoch nor the connection.
  pub same_Follows :
      (s t : Resilient W F)
      → t.policy ≡ s.policy
      → t.server_epoch ≡ s.server_epoch
      → t.connection ≡ s.connection
      → Follows s t
  same_Follows s t p e c = record {
    policy = p;
    epoch = e;
    server = λ h e' k. subst (λ slot. HasSaid slot.filesystem e') (sym c) (h e' (sym e ∙ k));
    generation = λ h. rw c (omega arith, h);
  }

  pub Follows-trans : (s t u : Resilient W F) → Follows s t → Follows t u → Follows s u
  Follows-trans s t u h k = record {
    policy = k.policy ∙ h.policy;
    epoch = k.epoch ∙ h.epoch;
    server = λ a. k.server (h.server a);
    generation =
        λ a. let b = h.generation a in let c = k.generation b.1 in (omega (arith, b.0, c.0), c.1);
  }

  epoch_eq-some : (o : Option ℕ) (e : ℕ) → epoch_eq o (some e) ≡ true → o ≡ some e
  epoch_eq-some none e h = ground arith
  epoch_eq-some (some a) e h = rw (==→eq a e h) refl

  not_some : (x : ClientError) (e : ℕ) → epoch_of net (err x) ≢ ok (some e)
  unfolding epoch_of
  not_some x e h = ground arith

  matched :
      (o p : Option ℕ) (e : ℕ)
      → p ≡ some e
      → (is_some p && not (epoch_eq o p)) ≡ false
      → epoch_eq o (some e) ≡ true
  matched o none e q h = ground arith
  matched none (some a) e q h = ground arith
  matched (some b) (some a) e q h = ground arith

  -- The filesystem whose epoch was asked for and found to be the session's.
  pub agreed :
      (f : F) (w : W) (r : ClientResult FilesystemCapabilities) (e : ℕ)
      → (net.remote.capabilities f w).1 ≡ r
      → epoch_of net r ≡ ok (some e)
      → HasSaid f e
  unfolding epoch_of
  agreed f w (ok c) e h k = said w c h (ground arith)
  agreed f w (err x) e h k = absurd (not_some x e k)

  check_epoch_lem :
      (g : ℕ) (f : F) (o : Option ℕ) (s : Resilient W F)
      → s.connection.generation ≡ g
      → ((e : ℕ) → o ≡ some e → HasSaid f e)
      → Follows s (check_epoch net g f o s).0
  unfolding check_epoch adopt ◌>>=◌ follow update pure fail
  check_epoch_lem g f o s h k =
      elim (Bool-cases (is_some s.server_epoch && not (epoch_eq o s.server_epoch))) [
        | inl refused ↦ rw refused (same_Follows s s refl refl refl)
        | inr same ↦ rw same (record {
          policy = refl;
          epoch = refl;
          server = λ _ e q. k e (epoch_eq-some o e (matched o s.server_epoch e q same));
          generation = λ b. (ground (arith, h, b), ground (arith, h, b));
        })
      ]

  connected_lem :
      (g : ℕ) (f : F) (s : Resilient W F)
      → s.connection.generation ≡ g
      → Follows s (connected net g f s).0
  unfolding connected capability_epoch ◌>>=◌ attempt perform give follow
  connected_lem g f s h =
      after (net.remote.capabilities f s.world).0
        (epoch_of net (net.remote.capabilities f s.world).1)
        (λ e k. agreed f s.world (net.remote.capabilities f s.world).1 e refl k)
    where
      after :
          (w : W) (r : ClientResult (Option ℕ))
          → ((e : ℕ) → r ≡ ok (some e) → HasSaid f e)
          → Follows s (follow (record s { world = w }, r) (check_epoch net g f)).0
      after w (err e) k = same_Follows s _ refl refl refl
      after w (ok o) k =
          Follows-trans s (record s { world = w }) _ (same_Follows s _ refl refl refl)
            (check_epoch_lem g f o (record s { world = w }) h (λ e q. k e (ap ok q)))

  connect_loop_lem :
      (policy : ReconnectPolicy) (g backoff n : ℕ) (s : Resilient W F)
      → s.connection.generation ≡ g
      → Follows s (connect_loop net policy g backoff n s).0
  unfolding connect_loop connect_turn give_up ◌>>=◌ attempt perform follow update fail
  connect_loop_lem policy g backoff zero s h = same_Follows s s refl refl refl
  connect_loop_lem policy g backoff (suc n) s h =
      after n (net.connect s.world).0 (net.connect s.world).1
        (λ t. connect_loop_lem policy g (next_backoff policy backoff) n t)
    where
      again : ℕ → Client W F (ConnectionSlot F)
      again n = connect_loop net policy g (next_backoff policy backoff) n

      after :
          (n : ℕ) (w : W) (r : ClientResult F)
          → ((t : Resilient W F) → t.connection.generation ≡ g → Follows t (again n t).0)
          → Follows s (connect_turn net g backoff n (again n) r (record s { world = w })).0
      after n w (ok f) k =
          Follows-trans s (record s { world = w }) _ (same_Follows s _ refl refl refl)
            (connected_lem g f (record s { world = w }) h)
      after zero w (err e) k = same_Follows s _ refl refl refl
      after (suc n) w (err e) k =
          Follows-trans s (record s { world = net.sleep backoff w }) _
            (same_Follows s _ refl refl refl) (k (record s { world = net.sleep backoff w }) h)

  pub reconnect_after_lem : (g : ℕ) (s : Resilient W F) → Follows s (reconnect_after net g s).0
  unfolding reconnect_after current ◌>>=◌ follow pure fail
  reconnect_after_lem g s = elim (Bool-cases (s.connection.generation == g)) [
    | inr other ↦ rw other (same_Follows s s refl refl refl)
    | inl same ↦ elim (Bool-cases (s.failed_generation == g)) [
      | inr fresh ↦ rw (same, fresh) (same_Follows s s refl refl refl)
      | inl failed ↦ elim (Bool-cases (cooling net.now g s s.last_failure)) [
        | inl cool ↦ rw (same, failed, cool) (same_Follows s s refl refl refl)
        | inr warm ↦
            rw (same, failed, warm)
              (connect_loop_lem s.policy g s.policy.initial_backoff s.policy.attempts s
                (==→eq s.connection.generation g same))
      ]
    ]
  ]

  -- What every call keeps.
  pub Follows-IsRule : IsRule net (λ _. Follows)
  Follows-IsRule = record {
    stay = λ _ s. same_Follows s s refl refl refl;
    join = λ h k. Follows-trans _ _ _ h k;
    marked = λ _ s. same_Follows s _ refl refl refl;
    handled = λ _ s. same_Follows s _ refl refl refl;
    opened = λ _ _ _ s. same_Follows s _ refl refl refl;
    closed = λ _ _ s. same_Follows s _ refl refl refl;
    locked = λ _ _ _ s. same_Follows s _ refl refl refl;
    named = λ s. same_Follows s _ refl refl refl;
    reconnected = reconnect_after_lem;
  }
