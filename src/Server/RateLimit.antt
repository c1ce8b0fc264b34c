-- ===== src/Server/RateLimit.antt =====
-- AuthRateLimiter of servers/linux/server-daemon/src/main.rs. An address is a number, an instant
-- its number of nanoseconds; the map is a list of its entries.
use quic_kfs.Prelude.{
  ℕ, ◌-◌, Bool, true, false, not, ◌&&◌, List, [], ◌∷◌, ◌++◌, leb, ◌==◌, if◌then◌else◌, length,
}

-- Duration::from_secs(60)
abbrev pub auth_rate_window : ℕ
auth_rate_window = 60000000000

abbrev pub max_auth_rate_buckets : ℕ
max_auth_rate_buckets = 4096

abbrev pub Buckets : Type 0
Buckets = List (ℕ × List ℕ)

pub record AuthRateLimiter : Type 0 where
  pub attempts_per_peer : Buckets
  pub maximum_attempts : ℕ

abbrev pub new : ℕ → AuthRateLimiter
new maximum_attempts = record { attempts_per_peer = []; maximum_attempts = maximum_attempts }

-- `now.checked_sub(AUTH_RATE_WINDOW).unwrap_or(now)`
unfoldable pub cutoff_of : ℕ → ℕ
cutoff_of now = if leb auth_rate_window now then now - auth_rate_window else now

-- `while attempts.front().is_some_and(..) { attempts.pop_front(); }`
unfoldable pub pop_expired : ℕ → List ℕ → List ℕ
pop_expired cutoff [] = []
pop_expired cutoff (attempt ∷ attempts) =
    if leb attempt cutoff then pop_expired cutoff attempts else attempt ∷ attempts

unfoldable pub contains_key : ℕ → Buckets → Bool
contains_key peer [] = false
contains_key peer ((p, attempts) ∷ rest) = if p == peer then true else contains_key peer rest

-- The attempts of a peer: none if it has no entry.
unfoldable pub attempts_of : ℕ → Buckets → List ℕ
attempts_of peer [] = []
attempts_of peer ((p, attempts) ∷ rest) = if p == peer then attempts else attempts_of peer rest

unfoldable pub put : ℕ → List ℕ → Buckets → Buckets
put peer attempts [] = (peer, attempts) ∷ []
put peer attempts ((p, old) ∷ rest) =
    if p == peer then (p, attempts) ∷ rest else (p, old) ∷ put peer attempts rest

-- An entry that is kept only while it has attempts.
abbrev pub keep : ℕ → List ℕ → Buckets → Buckets
keep p [] rest = rest
keep p (attempt ∷ attempts) rest = (p, attempt ∷ attempts) ∷ rest

-- The `retain` that runs when all buckets are taken.
unfoldable pub sweep : ℕ → Buckets → Buckets
sweep cutoff [] = []
sweep cutoff ((p, attempts) ∷ rest) = keep p (pop_expired cutoff attempts) (sweep cutoff rest)

-- The part of `allow` on the peer's own entry.
unfoldable pub admit : ℕ → ℕ → ℕ → Buckets → Buckets × Bool
admit now peer maximum buckets =
    let attempts = pop_expired (cutoff_of now) (attempts_of peer buckets) in
    if leb maximum (length attempts)
    then (put peer attempts buckets, false)
    else (put peer (attempts ++ now ∷ []) buckets, true)

unfoldable pub make_room : ℕ → ℕ → Buckets → Buckets
make_room now peer buckets =
    if not (contains_key peer buckets) && leb max_auth_rate_buckets (length buckets)
    then sweep (cutoff_of now) buckets
    else buckets

unfoldable pub allow : ℕ → ℕ → AuthRateLimiter → AuthRateLimiter × Bool
allow now peer l =
    let buckets = make_room now peer l.attempts_per_peer in
    if not (contains_key peer l.attempts_per_peer) && leb max_auth_rate_buckets (length buckets)
    then (record l { attempts_per_peer = buckets }, false)
    else let (next, allowed) = admit now peer l.maximum_attempts buckets in
      (record l { attempts_per_peer = next }, allowed)
