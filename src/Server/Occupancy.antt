-- ===== src/Server/Occupancy.antt =====
-- The limits of AuthRateLimiter in servers/linux/server-daemon/src/main.rs: attempts in a queue, and
-- entries in the map.
use quic_kfs.Prelude.{
  ℕ, suc, ◌≤◌, ◌≡◌, refl, true, false, not, ◌&&◌, List, [], ◌∷◌, ◌++◌, leb, ◌==◌, if◌then◌else◌,
  length, length-append, All, arith, Bool-cases, inl, inr,
}
use quic_kfs.Server.RateLimit.{
  AuthRateLimiter, Buckets, cutoff_of, pop_expired, contains_key, attempts_of, put, sweep, admit,
  keep, make_room, allow, max_auth_rate_buckets,
}

-- A limiter that respects its limits: no queue is longer than the maximum, and no more entries
-- than the buckets.
pub record IsLimiter (l : AuthRateLimiter) : Type 0 where
  pub small : All (λ (e : ℕ × List ℕ). length e.1 ≤ l.maximum_attempts) l.attempts_per_peer
  pub few : length l.attempts_per_peer ≤ max_auth_rate_buckets

module _ (maximum : ℕ) where
  abbrev pub Small : Buckets → Type 0
  Small = All (λ (e : ℕ × List ℕ). length e.1 ≤ maximum)

  length-pop_expired-le :
      (cutoff : ℕ) (attempts : List ℕ) → length (pop_expired cutoff attempts) ≤ length attempts
  unfolding pop_expired
  length-pop_expired-le cutoff [] = omega arith
  length-pop_expired-le cutoff (a ∷ as') = ground (arith, length-pop_expired-le cutoff as')

  keep-Small :
      (q : ℕ) (popped : List ℕ) (swept : Buckets)
      → length popped ≤ maximum
      → Small swept
      → Small (keep q popped swept)
  keep-Small q [] swept h s = s
  keep-Small q (a ∷ as') swept h s = (h, s)

  sweep-Small : (cutoff : ℕ) (buckets : Buckets) → Small buckets → Small (sweep cutoff buckets)
  unfolding sweep
  sweep-Small cutoff [] h = tt
  sweep-Small cutoff ((q, attempts) ∷ rest) h =
      keep-Small q (pop_expired cutoff attempts) (sweep cutoff rest)
        (omega (arith, length-pop_expired-le cutoff attempts, h.0)) (sweep-Small cutoff rest h.1)

  length-keep-le :
      (q : ℕ) (popped : List ℕ) (swept : Buckets)
      → length (keep q popped swept) ≤ suc (length swept)
  length-keep-le q [] swept = omega arith
  length-keep-le q (a ∷ as') swept = omega arith

  length-sweep-le :
      (cutoff : ℕ) (buckets : Buckets) → length (sweep cutoff buckets) ≤ length buckets
  unfolding sweep
  length-sweep-le cutoff [] = omega arith
  length-sweep-le cutoff ((q, attempts) ∷ rest) = omega (
    arith,
    length-keep-le q (pop_expired cutoff attempts) (sweep cutoff rest),
    length-sweep-le cutoff rest,
  )

  put-Small :
      (peer : ℕ) (attempts : List ℕ) (buckets : Buckets)
      → length attempts ≤ maximum
      → Small buckets
      → Small (put peer attempts buckets)
  unfolding put
  put-Small peer attempts [] h s = (h, tt)
  put-Small peer attempts ((q, old) ∷ rest) h s = elim (Bool-cases (q == peer)) [
    | inl e ↦ rw e (h, s.1)
    | inr e ↦ rw e (s.0, put-Small peer attempts rest h s.1)
  ]

  pub attempts_of-Small :
      (p : ℕ) (buckets : Buckets) → Small buckets → length (attempts_of p buckets) ≤ maximum
  unfolding attempts_of
  attempts_of-Small p [] s = omega arith
  attempts_of-Small p ((q, old) ∷ rest) s = ground (arith, attempts_of-Small p rest s.1, s.0)

  length-put :
      (peer : ℕ) (attempts : List ℕ) (buckets : Buckets)
      → length (put peer attempts buckets)
        ≡ (if contains_key peer buckets then length buckets else suc (length buckets))
  unfolding put contains_key
  length-put peer attempts [] = refl
  length-put peer attempts ((q, old) ∷ rest) = ground (arith, length-put peer attempts rest)

  admit-Small :
      (now peer : ℕ) (buckets : Buckets) → Small buckets → Small (admit now peer maximum buckets).0
  unfolding admit
  admit-Small now peer buckets s = elim (Bool-cases (leb maximum (length popped))) [
    | inl full ↦ rw full (put-Small peer popped buckets short s)
    | inr free ↦ rw free (
        put-Small peer (popped ++ now ∷ []) buckets
          (ground (arith, length-append popped (now ∷ []))) s)
  ]
    where
      popped : List ℕ
      popped = pop_expired (cutoff_of now) (attempts_of peer buckets)

      short : length popped ≤ maximum
      short = omega (
        arith,
        length-pop_expired-le (cutoff_of now) (attempts_of peer buckets),
        attempts_of-Small peer buckets s,
      )

  length-admit :
      (now peer : ℕ) (buckets : Buckets)
      → length (admit now peer maximum buckets).0
        ≡ (if contains_key peer buckets then length buckets else suc (length buckets))
  unfolding admit
  length-admit now peer buckets = ground (
    arith,
    length-put peer (pop_expired (cutoff_of now) (attempts_of peer buckets)) buckets,
    length-put peer (pop_expired (cutoff_of now) (attempts_of peer buckets) ++ now ∷ []) buckets,
  )

make_room-Small :
    (maximum now peer : ℕ) (buckets : Buckets)
    → Small maximum buckets
    → Small maximum (make_room now peer buckets)
unfolding make_room
make_room-Small maximum now peer buckets s =
    elim (Bool-cases
      (not (contains_key peer buckets) && leb max_auth_rate_buckets (length buckets))) [
        | inl full ↦ rw full (sweep-Small maximum (cutoff_of now) buckets s)
        | inr free ↦ rw free s
      ]

length-make_room-le :
    (now peer : ℕ) (buckets : Buckets) → length (make_room now peer buckets) ≤ length buckets
unfolding make_room
length-make_room-le now peer buckets = ground (arith, length-sweep-le 0 (cutoff_of now) buckets)

-- No room is made for a peer that has its entry.
make_room_same :
    (now peer : ℕ) (buckets : Buckets)
    → contains_key peer buckets ≡ true
    → make_room now peer buckets ≡ buckets
unfolding make_room
make_room_same now peer buckets h = ground arith

-- A call leaves a limiter that respects its limits one that does, whatever it answers.
pub allow-IsLimiter :
    (now peer : ℕ) (l : AuthRateLimiter) → IsLimiter l → IsLimiter (allow now peer l).0
unfolding allow
allow-IsLimiter now peer l i =
    elim (Bool-cases (
      not (contains_key peer l.attempts_per_peer)
      && leb max_auth_rate_buckets (length (make_room now peer l.attempts_per_peer)))) [
        | inl full ↦ rw full (record { small = roomy_small; few = roomy_few })
        | inr free ↦ rw free (record {
          small = admit-Small l.maximum_attempts now peer roomy roomy_small;
          few = admitted_few free;
        })
      ]
  where
    roomy : Buckets
    roomy = make_room now peer l.attempts_per_peer

    roomy_small : Small l.maximum_attempts roomy
    roomy_small = make_room-Small l.maximum_attempts now peer l.attempts_per_peer i.small

    roomy_few : length roomy ≤ max_auth_rate_buckets
    roomy_few = omega (arith, length-make_room-le now peer l.attempts_per_peer, i.few)

    admitted_few :
        (not (contains_key peer l.attempts_per_peer) && leb max_auth_rate_buckets (length roomy))
          ≡ false
        → length (admit now peer l.maximum_attempts roomy).0 ≤ max_auth_rate_buckets
    admitted_few free = ground (
      arith,
      length-admit l.maximum_attempts now peer roomy,
      make_room_same now peer l.attempts_per_peer,
      roomy_few,
    )
