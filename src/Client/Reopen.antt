-- ===== src/Client/Reopen.antt =====
-- The handles of crates/client-core/src/resilient.rs over a reconnection.
use quic_kfs.Prelude.{
  ℕ, ◌≡◌, refl, sym, ◌∙◌, ap, subst, Bool, true, false, Option, none, some, List, [], ◌∷◌, ◌==◌,
  if◌then◌else◌, arith, inl, inr, ◌⊎◌, ==→eq,
}
use quic_kfs.Locks.{FileLock}
use quic_kfs.Client.Network.{stale_revision, ClientResult, err, ok, Network, OpenedFile}
use quic_kfs.Client.Connection.{
  ConnectionSlot, HandleState, Resilient, Client, follow, ◌>>=◌, pure, fail, attempt, perform,
  update, current, healthy_connection,
}
use quic_kfs.Client.Calls.{
  Handles, lookup, modify, update_handles, known_handle, handle_state, replay_locks, may_adopt,
  settle_revision, take_over, reopen, remote_handle,
}
use quic_kfs.Client.Reconnect

modify_lem :
    (key : ℕ) (f : HandleState → HandleState) (handles : Handles) (state : HandleState)
    → lookup key handles ≡ some state
    → lookup key (modify key f handles) ≡ some (f state)
unfolding lookup modify
modify_lem key f [] state h = ground arith
modify_lem key f ((k, x) ∷ rest) state h = ground (arith, modify_lem key f rest state)

some_injective : {x y : HandleState} → some x ≡ some y → x ≡ y
some_injective h = cc

ok_injective : {A : Type 0} {x y : A} → ok x ≡ ok y → x ≡ y
ok_injective h = cc

module _ {W F : Type 0} where
  -- What follows from a step that succeeded, and from what came after it.
  after-ok :
      {A B : Type 0} {C : Type 0} (r : Resilient W F × ClientResult A) (rest : A → Client W F B)
      (b : B)
      → ((a : A) (t : Resilient W F) → r.0 ≡ t → r.1 ≡ ok a → (rest a t).1 ≡ ok b → C)
      → (follow r rest).1 ≡ ok b
      → C
  unfolding follow
  after-ok (t, err e) rest b k h = ground arith
  after-ok (t, ok a) rest b k h = k a t refl refl h

module _ {W F : Type 0} (net : Network W F) where
  Handles-IsReconnection : Reconnect.IsReconnection net (λ _ s t. t.handles ≡ s.handles) 0
  Handles-IsReconnection = record {
    stay = λ n s. refl;
    join = λ h k. k ∙ h;
    connects = λ s. refl;
    asks = λ f s. refl;
    sleeps = λ d s. refl;
    gives_up = λ o s. refl;
    adopts = λ slot s. refl;
  }

  kept : (s : Resilient W F) → (healthy_connection net s).0.handles ≡ s.handles
  kept s = Reconnect.healthy_connection_lem net _ 0 Handles-IsReconnection s

  replay_locks-handles :
      (f : F) (remote : ℕ) (locks : List FileLock) (s : Resilient W F)
      → (replay_locks net f remote locks s).0.handles ≡ s.handles
  unfolding replay_locks ◌>>=◌ perform pure follow
  replay_locks-handles f remote [] s = refl
  replay_locks-handles f remote (lock ∷ locks) s =
      after (net.remote.set_lock f remote lock false s.world).1 (
        replay_locks-handles f remote locks
          (record s { world = (net.remote.set_lock f remote lock false s.world).0 }))
    where
      s' : Resilient W F
      s' = record s { world = (net.remote.set_lock f remote lock false s.world).0 }

      after :
          (r : ClientResult (Unit {0}))
          → (replay_locks net f remote locks s').0.handles ≡ s.handles
          → (follow (s', r) (λ _. replay_locks net f remote locks)).0.handles ≡ s.handles
      after (err e) h = refl
      after (ok a) h = h

  -- A handle that was opened again on the connection: for the same node and without truncation, with
  -- what the server answered, and with the options and locks that it had.
  abbrev pub IsReopened : HandleState → ConnectionSlot F → HandleState → OpenedFile → Type 0
  IsReopened state slot h opened =
      (w : W) × ((net.remote.open_file_with_options slot.filesystem state.node
          (record state.options { truncate = false }) w).1
        ≡ ok opened)
      × (h ≡ record state {
        remote = opened.handle;
        revision = opened.revision;
        size = opened.size;
        generation = slot.generation;
      })

  -- What a handle is when it is used: as it was, if it stands on the connection, or opened again on
  -- it, at the revision that it had, unless the handle may take a newer one.
  pub data IsCurrent (state : HandleState) (slot : ConnectionSlot F) (h : HandleState)
      : Type 0 where
    is_unmoved : h ≡ state → state.generation ≡ slot.generation → IsCurrent state slot h
    is_reopened :
        (opened : OpenedFile)
        → IsReopened state slot h opened
        → (opened.revision ≡ state.revision) ⊎ (may_adopt state ≡ true)
        → IsCurrent state slot h

  -- The table of handles has the handle at the revision of the opened file, which it may have.
  abbrev pub Settled : ℕ → HandleState → OpenedFile → Handles → Type 0
  Settled logical state o handles =
      (lookup logical handles ≡ some (record state { revision = o.revision }))
      × ((o.revision ≡ state.revision) ⊎ (may_adopt state ≡ true))

  settle_lem :
      (logical : ℕ) (state : HandleState) (f : F) (o : OpenedFile) (s : Resilient W F)
      → lookup logical s.handles ≡ some state
      → (settle_revision net logical state f o s).1 ≡ ok tt
      → Settled logical state o (settle_revision net logical state f o s).0.handles
  unfolding settle_revision update_handles update ◌>>=◌ attempt perform pure fail follow
  settle_lem logical state f o s h =
      go (o.revision == state.revision) (may_adopt state) (==→eq o.revision state.revision) (λ e. e)
    where
      go :
          (b c : Bool)
          → (b ≡ true → o.revision ≡ state.revision)
          → (c ≡ true → may_adopt state ≡ true)
          → ((if b
                then pure tt
                else if c
                then update_handles (modify logical (λ s. record s { revision = o.revision }))
                else attempt (perform (net.remote.close_file f o.handle))
                  >>= (λ _. fail stale_revision))
              s).1
            ≡ ok tt
          → Settled logical state o
              ((if b
                  then pure tt
                  else if c
                  then update_handles (modify logical (λ s. record s { revision = o.revision }))
                  else attempt (perform (net.remote.close_file f o.handle))
                    >>= (λ _. fail stale_revision))
                s).0.handles
      go true c d e k =
          (h ∙ ap (λ r. some (record state { revision = r })) (sym (d refl)), inl (d refl))
      go false true d e k = (modify_lem logical _ s.handles state h, inr (e refl))
      go false false d e k = ground arith

  known_handle-ok :
      (o : Option HandleState) (s : Resilient W F) (h : HandleState)
      → (known_handle o s).1 ≡ ok h
      → o ≡ some h
  unfolding known_handle pure fail
  known_handle-ok none s h k = ground arith
  known_handle-ok (some state) s h k = cc

  -- The handle that is looked up after it was moved to the new connection.
  taken_over :
      (logical : ℕ) (o : OpenedFile) (state h : HandleState) (slot slot' : ConnectionSlot F) (w : W)
      (s : Resilient W F)
      → (net.remote.open_file_with_options slot.filesystem state.node
          (record state.options { truncate = false })
          w).1
        ≡ ok o
      → Settled logical state o s.handles
      → (take_over net logical o slot s).1 ≡ ok (slot', h)
      → IsCurrent state slot' h
  unfolding take_over update_handles update ◌>>=◌ handle_state current follow pure
  taken_over logical o state h slot slot' w s opened (known, may) done =
      after-ok (known_handle (lookup logical (modify logical move s.handles)) t) _ (slot', h)
        (λ x u _ is last.
          moved x (sym (modify_lem logical move s.handles _ known) ∙ known_handle-ok _ t x is)
            (ap (λ p. p.0) (ok_injective last)) (ap (λ p. p.1) (ok_injective last)))
        done
    where
      move : HandleState → HandleState
      move x = record x { remote = o.handle; size = o.size; generation = slot.generation }

      t : Resilient W F
      t = record s { handles = modify logical move s.handles }

      moved :
          (x : HandleState)
          → some (move (record state { revision = o.revision })) ≡ some x
          → slot ≡ slot'
          → x ≡ h
          → IsCurrent state slot' h
      moved x a b c =
          subst (λ y. IsCurrent state y h) b
            (is_reopened o (w, opened, sym (some_injective a ∙ c)) may)

  reopen-IsCurrent :
      (logical : ℕ) (state h : HandleState) (slot slot' : ConnectionSlot F) (s : Resilient W F)
      → lookup logical s.handles ≡ some state
      → (reopen net logical state slot s).1 ≡ ok (slot', h)
      → IsCurrent state slot' h
  unfolding reopen ◌>>=◌ perform
  reopen-IsCurrent logical state h slot slot' s known =
      after-ok _ _ (slot', h)
        (λ o t at answered.
          after-ok _ _ (slot', h)
            (λ _ u at' settled.
              after-ok _ _ (slot', h)
                (λ _ v at'' replayed. taken_over logical o state h slot slot' s.world v answered (
                  subst (Settled logical state o)
                    (sym (replay_locks-handles slot.filesystem o.handle state.lock_history u)
                      ∙ ap (λ x. x.handles) at'')
                    (subst (Settled logical state o) (ap (λ x. x.handles) at') (
                      settle_lem logical state slot.filesystem o t
                        (sym (ap (λ x. lookup logical x.handles) at) ∙ known) settled))))))

  handle_state-same : (logical : ℕ) (s : Resilient W F) → (handle_state logical s).0 ≡ s
  unfolding handle_state ◌>>=◌ current follow known_handle pure fail
  handle_state-same logical s = elim (lookup logical s.handles) as (λ o. (known_handle o s).0 ≡ s) [
    | none ↦ refl
    | some state ↦ refl
  ]

  handle_state-known :
      (logical : ℕ) (s : Resilient W F) (state x : HandleState)
      → lookup logical s.handles ≡ some state
      → (handle_state logical s).1 ≡ ok x
      → x ≡ state
  unfolding handle_state ◌>>=◌ current follow
  handle_state-known logical s state x known looked =
      some_injective (sym (known_handle-ok _ s x looked) ∙ known)

  if_case :
      {A C : Type 0} (b : Bool) (step other : Client W F A) (s : Resilient W F) (a : A)
      → (b ≡ true → (step s).1 ≡ ok a → C)
      → (b ≡ false → (other s).1 ≡ ok a → C)
      → ((if b then step else other) s).1 ≡ ok a
      → C
  if_case true step other s a h k = h refl
  if_case false step other s a h k = k refl

  -- A handle that already stands on the connection.
  unmoved :
      (state x h : HandleState) (slot' slot : ConnectionSlot F) (s : Resilient W F)
      → x ≡ state
      → (x.generation == slot'.generation) ≡ true
      → (pure {A = ConnectionSlot F × HandleState} (slot', x) s).1 ≡ ok (slot, h)
      → IsCurrent state slot h
  unfolding pure
  unmoved state x h slot' slot s is same last =
      is_unmoved (sym (ap (λ p. p.1) (ok_injective last)) ∙ is) (
        ap (λ y. y.generation) (sym is)
        ∙ ==→eq x.generation slot'.generation same
        ∙ ap (λ p. p.0.generation) (ok_injective last))

  -- If a handle of the table can be used, then it stands on the connection that is handed out and
  -- is as it was, or it was opened again there, for its node and without truncation, and is what
  -- the server answered with the options and locks that it had; the revision answered is the one
  -- that it had, unless the handle is read-only and without locks, which takes any.
  pub remote_handle-IsCurrent :
      (logical : ℕ) (state h : HandleState) (slot : ConnectionSlot F) (s : Resilient W F)
      → lookup logical s.handles ≡ some state
      → (remote_handle net logical s).1 ≡ ok (slot, h)
      → IsCurrent state slot h
  unfolding remote_handle ◌>>=◌
  remote_handle-IsCurrent logical state h slot s known =
      after-ok _ _ (slot, h)
        (λ slot' t at _.
          after-ok _ _ (slot, h)
            (λ x u at' looked.
              let in_t =
                sym (ap (λ y. lookup logical y.handles) at)
                ∙ ap (lookup logical) (kept s)
                ∙ known in
              let in_u =
                sym (ap (λ y. lookup logical y.handles) at')
                ∙ ap (λ y. lookup logical y.handles) (handle_state-same logical t)
                ∙ in_t in
              if_case (x.generation == slot'.generation) _ _ u (slot, h)
                (λ same.
                  unmoved state x h slot' slot u (handle_state-known logical t state x in_t looked)
                    same)
                (λ _.
                  after-ok _ _ (slot, h)
                    (λ x' v at'' looked'.
                      let in_v =
                        sym (ap (λ y. lookup logical y.handles) at'')
                        ∙ ap (λ y. lookup logical y.handles) (handle_state-same logical u)
                        ∙ in_u in
                      let is = handle_state-known logical u state x' in_u looked' in
                      after-ok _ _ (slot, h)
                        (λ slot'' z to _.
                          let in_z =
                            sym (ap (λ y. lookup logical y.handles) to)
                            ∙ ap (lookup logical) (kept v)
                            ∙ in_v in
                          if_case (x'.generation == slot''.generation) _ _ z (slot, h)
                            (λ same. unmoved state x' h slot'' slot z is same)
                            (λ _ done.
                              subst (λ y. IsCurrent y slot h) is
                                (reopen-IsCurrent logical x' h slot'' slot z
                                  (in_z ∙ ap some (sym is)) done)))))))
