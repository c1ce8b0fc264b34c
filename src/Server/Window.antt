-- ===== src/Server/Window.antt =====
-- The sliding window of AuthRateLimiter in servers/linux/server-daemon/src/main.rs.
use quic_kfs.Prelude.{
  ℕ, ◌+◌, ◌-◌, ◌≤◌, ◌≡◌, refl, ◌∙◌, Bool, true, false, not, ◌&&◌, List, [], ◌∷◌, ◌++◌, ltb, leb,
  ◌==◌, if◌then◌else◌, length, retain, All, All-map, arith, Bool-cases, inl, inr,
}
use quic_kfs.Server.RateLimit.{
  AuthRateLimiter, Buckets, new, cutoff_of, pop_expired, contains_key, attempts_of, put, sweep,
  admit, keep, make_room, allow, auth_rate_window, max_auth_rate_buckets,
}
use quic_kfs.Server.Occupancy.{IsLimiter, allow-IsLimiter, attempts_of-Small}

-- How many attempts came after an instant.
abbrev pub recent : ℕ → List ℕ → ℕ
recent after attempts = length (retain (ltb after) attempts)

-- The calls, the last one first, as (instant, peer).
abbrev pub Calls : Type 0
Calls = List (ℕ × ℕ)

-- The instants of one peer's calls.
abbrev pub times_of : ℕ → Calls → List ℕ
times_of peer [] = []
times_of peer ((now, p) ∷ calls) =
    if p == peer then now ∷ times_of peer calls else times_of peer calls

-- No call comes before an earlier one, and none within the first window of the clock.
abbrev pub InOrder : Calls → Type 0
InOrder [] = Unit
InOrder ((now, p) ∷ calls) =
    (auth_rate_window ≤ now) × All (λ (c : ℕ × ℕ). c.0 ≤ now) calls × InOrder calls

abbrev logged : Bool → ℕ × ℕ → Calls → Calls
logged true call log = call ∷ log
logged false call log = log

-- A new limiter after the calls, and the calls that it allowed.
unfoldable pub run : ℕ → Calls → AuthRateLimiter × Calls
run maximum [] = (new maximum, [])
run maximum ((now, peer) ∷ calls) =
    let (l, log) = run maximum calls in
    let (l', allowed) = allow now peer l in (l', logged allowed (now, peer) log)

recent-pop_expired :
    (cutoff after : ℕ) (attempts : List ℕ)
    → cutoff ≤ after
    → recent after (pop_expired cutoff attempts) ≡ recent after attempts
unfolding pop_expired
recent-pop_expired cutoff after [] h = refl
recent-pop_expired cutoff after (a ∷ as') h = ground (arith, recent-pop_expired cutoff after as' h)

recent-append :
    (after now : ℕ) (attempts : List ℕ)
    → recent after (attempts ++ now ∷ []) ≡ recent after attempts + recent after (now ∷ [])
recent-append after now [] = omega arith
recent-append after now (a ∷ as') = ground (arith, recent-append after now as')

recent-le-length : (after : ℕ) (attempts : List ℕ) → recent after attempts ≤ length attempts
recent-le-length after [] = omega arith
recent-le-length after (a ∷ as') = ground (arith, recent-le-length after as')

attempts_of-put :
    (peer p : ℕ) (attempts : List ℕ) (buckets : Buckets)
    → attempts_of p (put peer attempts buckets)
      ≡ (if peer == p then attempts else attempts_of p buckets)
unfolding attempts_of put
attempts_of-put peer p attempts [] = refl
attempts_of-put peer p attempts ((q, old) ∷ rest) =
    ground (arith, attempts_of-put peer p attempts rest)

kept :
    (after p q : ℕ) (attempts popped : List ℕ) (rest swept : Buckets)
    → recent after popped ≡ recent after attempts
    → recent after (attempts_of p rest) ≤ recent after (attempts_of p swept)
    → recent after (attempts_of p ((q, attempts) ∷ rest))
      ≤ recent after (attempts_of p (keep q popped swept))
unfolding attempts_of
kept after p q attempts [] rest swept e h = ground arith
kept after p q attempts (a ∷ as') rest swept e h = ground arith

sweep_keeps :
    (cutoff after p : ℕ) (buckets : Buckets)
    → cutoff ≤ after
    → recent after (attempts_of p buckets) ≤ recent after (attempts_of p (sweep cutoff buckets))
unfolding attempts_of sweep
sweep_keeps cutoff after p [] h = omega arith
sweep_keeps cutoff after p ((q, attempts) ∷ rest) h =
    kept after p q attempts (pop_expired cutoff attempts) rest (sweep cutoff rest)
      (recent-pop_expired cutoff after attempts h) (sweep_keeps cutoff after p rest h)

make_room_keeps :
    (now peer after p : ℕ) (buckets : Buckets)
    → cutoff_of now ≤ after
    → recent after (attempts_of p buckets)
      ≤ recent after (attempts_of p (make_room now peer buckets))
unfolding make_room
make_room_keeps now peer after p buckets h =
    ground (arith, sweep_keeps (cutoff_of now) after p buckets h)

-- What is allowed is logged, and what the bucket holds covers the log.
admit_covers :
    (now peer maximum after p : ℕ) (log : Calls) (buckets : Buckets)
    → cutoff_of now ≤ after
    → recent after (times_of p log) ≤ recent after (attempts_of p buckets)
    → recent after (times_of p (logged (admit now peer maximum buckets).1 (now, peer) log))
      ≤ recent after (attempts_of p (admit now peer maximum buckets).0)
unfolding admit
admit_covers now peer maximum after p log buckets h covers = ground (
  arith,
  recent-pop_expired (cutoff_of now) after (attempts_of peer buckets) h,
  recent-append after now (pop_expired (cutoff_of now) (attempts_of peer buckets)),
  attempts_of-put peer p (pop_expired (cutoff_of now) (attempts_of peer buckets)) buckets,
  attempts_of-put peer p (pop_expired (cutoff_of now) (attempts_of peer buckets) ++ now ∷ [])
      buckets,
)

allow_covers :
    (now peer after p : ℕ) (log : Calls) (l : AuthRateLimiter)
    → cutoff_of now ≤ after
    → recent after (times_of p log) ≤ recent after (attempts_of p l.attempts_per_peer)
    → recent after (times_of p (logged (allow now peer l).1 (now, peer) log))
      ≤ recent after (attempts_of p (allow now peer l).0.attempts_per_peer)
unfolding allow
allow_covers now peer after p log l h covers =
    elim (Bool-cases (
      not (contains_key peer l.attempts_per_peer)
      && leb max_auth_rate_buckets (length (make_room now peer l.attempts_per_peer)))) [
        | inl full ↦ rw full (omega (arith, roomy))
        | inr free ↦ rw free (
            admit_covers now peer l.maximum_attempts after p log
              (make_room now peer l.attempts_per_peer) h (omega (arith, roomy)))
      ]
  where
    roomy :
        recent after (times_of p log)
        ≤ recent after (attempts_of p (make_room now peer l.attempts_per_peer))
    roomy = omega (arith, make_room_keeps now peer after p l.attempts_per_peer h, covers)

run_covers :
    (maximum after p : ℕ) (calls : Calls)
    → All (λ (c : ℕ × ℕ). auth_rate_window ≤ c.0) calls
    → All (λ (c : ℕ × ℕ). c.0 ≤ after + auth_rate_window) calls
    → recent after (times_of p (run maximum calls).1)
      ≤ recent after (attempts_of p (run maximum calls).0.attempts_per_peer)
unfolding run
run_covers maximum after p [] late old = omega arith
run_covers maximum after p ((now, peer) ∷ calls) late old =
    allow_covers now peer after p (run maximum calls).1 (run maximum calls).0
      (unfold cutoff_of in ground arith) (run_covers maximum after p calls late.1 old.1)

maximum_kept :
    (now peer : ℕ) (l : AuthRateLimiter)
    → (allow now peer l).0.maximum_attempts ≡ l.maximum_attempts
unfolding allow
maximum_kept now peer l = ground arith

run_IsLimiter :
    (maximum : ℕ) (calls : Calls)
    → IsLimiter (run maximum calls).0 × ((run maximum calls).0.maximum_attempts ≡ maximum)
unfolding run
run_IsLimiter maximum [] = (record { small = tt; few = omega arith }, refl)
run_IsLimiter maximum ((now, peer) ∷ calls) =
    let (i, same) = run_IsLimiter maximum calls in
    (
      allow-IsLimiter now peer (run maximum calls).0 i,
      maximum_kept now peer (run maximum calls).0 ∙ same,
    )

InOrder-late : (calls : Calls) → InOrder calls → All (λ (c : ℕ × ℕ). auth_rate_window ≤ c.0) calls
InOrder-late [] order = tt
InOrder-late ((now, peer) ∷ calls) order = (order.0, InOrder-late calls order.2)

-- After calls on a new limiter that came in the order of the clock, each at least a window after
-- its zero, no peer has more attempts queued than the maximum, there are no more entries than
-- MAX_AUTH_RATE_BUCKETS, and in the window that ends with the last call each peer was allowed at
-- most the maximum number of attempts.
pub run-new-IsLimiter :
    (maximum now peer p : ℕ) (calls : Calls)
    → InOrder ((now, peer) ∷ calls)
    → IsLimiter (run maximum ((now, peer) ∷ calls)).0
      × (recent (now - auth_rate_window) (times_of p (run maximum ((now, peer) ∷ calls)).1)
          ≤ maximum)
run-new-IsLimiter maximum now peer p calls order =
    let (i, same) = run_IsLimiter maximum ((now, peer) ∷ calls) in
    let buckets = (run maximum ((now, peer) ∷ calls)).0.attempts_per_peer in
    (
      i,
      omega (
        arith,
        run_covers maximum (now - auth_rate_window) p ((now, peer) ∷ calls)
            (InOrder-late ((now, peer) ∷ calls) order)
            (omega (arith, order.0), All-map (λ c h. omega (arith, order.0)) calls order.1),
        recent-le-length (now - auth_rate_window) (attempts_of p buckets),
        attempts_of-Small (run maximum ((now, peer) ∷ calls)).0.maximum_attempts p buckets i.small,
        same,
      ),
    )
