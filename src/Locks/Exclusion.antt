-- ===== src/Locks/Exclusion.antt =====
-- Mutual exclusion of the advisory locks of crates/server-core/src/lib.rs.
use quic_kfs.Prelude.{
  ℕ, ◌≤◌, ◌≡◌, refl, Bool, true, false, not, ◌&&◌, ◌||◌, none, some, List, [], ◌∷◌, arith, ◌==◌,
  retain, All, All-retain, length, length-retain-le, u64_max, Bool-cases, Option-cases, inl, inr,
}
use quic_kfs.Locks.Table.{
  write, unlock, FileLock, FileIdentity, LockRecord, kind_eq, identity_eq, first_conflict,
  replace_owner_range, max_lock_records,
}
use quic_kfs.Locks.Coverage.{Claim, held, IsRange}
use quic_kfs.Locks.Conflicts.{first_conflict-eq-none}
use quic_kfs.Locks.Replace.{replaced, replace_owner_range_lem}
use quic_kfs.Locks.Session.{granted, from_replaced, attempt_lock, remove_locks}

-- Claims of two owners on one file, one of them to write, that both hold.
abbrev both_hold : Claim → Claim → Bool → Bool → Bool
both_hold c d c_holds d_holds =
    identity_eq c.identity d.identity
    && not (c.session == d.session && c.owner == d.owner)
    && (kind_eq c.kind write || kind_eq d.kind write)
    && (c_holds && d_holds)

-- Two owners hold one offset of one file, one of them to write.
abbrev pub clash : List LockRecord → Claim → Claim → ℕ → Bool
clash locks c d x = both_hold c d (held locks c x) (held locks d x)

-- The lock table of an export between two calls.
pub record IsTable (locks : List LockRecord) : Type 0 where
  pub ranges : All IsRange locks
  pub exclusive : (c d : Claim) (x : ℕ) → clash locks c d x ≡ false
  pub bounded : length locks ≤ max_lock_records

-- A request that asks for a range of 64-bit offsets that is not empty.
pub record IsRequest (q : FileLock) : Type 0 where
  pub ordered : q.start ≤ q.end
  pub words : q.end ≤ u64_max

module _ (locks : List LockRecord) (identity : FileIdentity) (session : ℕ) (q : FileLock)
    (table : IsTable locks) where
  clash-released :
      (c d : Claim) (x : ℕ) (hc hd : Bool)
      → hc ≡ replaced locks identity session q false c x
      → hd ≡ replaced locks identity session q false d x
      → both_hold c d hc hd ≡ false
  clash-released c d x hc hd p r = ground (arith, table.exclusive c d x)

  clash-acquired :
      (c d : Claim) (x : ℕ) (hc hd : Bool)
      → first_conflict locks identity session q ≡ none
      → hc ≡ replaced locks identity session q true c x
      → hd ≡ replaced locks identity session q true d x
      → both_hold c d hc hd ≡ false
  clash-acquired c d x hc hd free p r = ground (
    arith,
    table.exclusive c d x,
    first_conflict-eq-none locks identity session q c x free,
    first_conflict-eq-none locks identity session q d x free,
  )

  replaced-IsTable :
      (insert : Bool) (next : List LockRecord)
      → IsRequest q
      → ((c d : Claim) (x : ℕ) (hc hd : Bool)
          → hc ≡ replaced locks identity session q insert c x
          → hd ≡ replaced locks identity session q insert d x
          → both_hold c d hc hd ≡ false)
      → replace_owner_range locks identity session q insert ≡ some next
      → IsTable next
  replaced-IsTable insert next request keep e =
      let (holds, ranges, bounded) =
        replace_owner_range_lem locks identity session q insert next request.ordered request.words
          table.ranges e in
      record {
        ranges = ranges;
        exclusive = λ c d x. keep c d x _ _ (holds c x) (holds d x);
        bounded = bounded;
      }

  granted_by :
      (insert : Bool) (next : List LockRecord)
      → from_replaced (replace_owner_range locks identity session q insert) ≡ granted next
      → replace_owner_range locks identity session q insert ≡ some next
  granted_by insert next e = ground arith

  -- A lock that is granted keeps the table: no two owners hold an offset, one of them to write.
  pub attempt_lock-IsTable :
      (wait : Bool) (next : List LockRecord)
      → IsRequest q
      → attempt_lock locks identity session q wait ≡ granted next
      → IsTable next
  unfolding attempt_lock
  attempt_lock-IsTable wait next request e = elim (Bool-cases (kind_eq q.kind unlock)) [
    | inl release ↦
        replaced-IsTable false next request clash-released (granted_by false next (rw release at e))
    | inr acquire ↦ elim (Option-cases (first_conflict locks identity session q)) [
      | inl free ↦
          replaced-IsTable true next request (λ c d x hc hd. clash-acquired c d x hc hd free)
            (granted_by true next (rw (acquire, free) at e))
      | inr (r, taken) ↦ absurd (ground arith)
    ]
  ]

held-retain :
    (p : LockRecord → Bool) (rs : List LockRecord) (c : Claim) (x : ℕ)
    → (held (retain p rs) c x && not (held rs c x)) ≡ false
held-retain p [] c x = refl
held-retain p (r ∷ rs) c x = ground (arith, held-retain p rs c x)

-- Removing locks keeps the table.
pub remove_locks-IsTable :
    (remove : LockRecord → Bool) (locks : List LockRecord)
    → IsTable locks
    → IsTable (remove_locks remove locks)
unfolding remove_locks
remove_locks-IsTable remove locks table = record {
  ranges = All-retain IsRange (λ r. not (remove r)) locks table.ranges;
  exclusive = λ c d x. ground (
    arith,
    table.exclusive c d x,
    held-retain (λ r. not (remove r)) locks c x,
    held-retain (λ r. not (remove r)) locks d x,
  );
  bounded = omega (arith, length-retain-le (λ r. not (remove r)) locks, table.bounded);
}
