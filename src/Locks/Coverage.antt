-- ===== src/Locks/Coverage.antt =====
-- Which offsets the lock table of crates/server-core/src/lib.rs holds, and for whom.
use quic_kfs.Prelude.{
  ℕ, ◌≤◌, ◌≡◌, refl, ◌∙◌, Bool, true, false, not, ◌&&◌, ◌||◌, List, [], ◌∷◌, arith, inl, inr, leb,
  ◌==◌, any, All, u64_max, Bool-cases,
}
use quic_kfs.Prelude.Sorting.{sort_by, IsSorted, any-sort_by, sort_by-IsSorted, sort_by-All}
use quic_kfs.Prelude.Lex.{lex_le_total, lex_le_trans}
use quic_kfs.Locks.Table.{
  LockKind, FileLock, FileIdentity, LockRecord, kind_eq, identity_eq, split_record, sort_key,
  key_le, can_merge, extend, merge_from, merge_sorted, merge_owner_locks,
}

-- Who holds a byte, and how.
pub record Claim : Type 0 where
  pub identity : FileIdentity
  pub session : ℕ
  pub owner : ℕ
  pub kind : LockKind
  pub pid : ℕ

abbrev pub same_owner : FileIdentity → ℕ → ℕ → Claim → Bool
same_owner identity session owner c =
    identity_eq identity c.identity && session == c.session && owner == c.owner

abbrev pub within : ℕ → FileLock → Bool
within x lock = leb lock.start x && leb x lock.end

abbrev pub same_mode : FileLock → Claim → Bool
same_mode lock c = kind_eq lock.kind c.kind && lock.pid == c.pid

unfoldable pub covers : Claim → ℕ → LockRecord → Bool
covers c x r =
    same_owner r.identity r.session r.lock.owner c && same_mode r.lock c && within x r.lock

abbrev pub held : List LockRecord → Claim → ℕ → Bool
held locks c x = any (covers c x) locks

-- A lock is a range of 64-bit offsets that is not empty.
pub record IsRange (r : LockRecord) : Type 0 where
  pub ordered : r.lock.start ≤ r.lock.end
  pub bounded : r.lock.end ≤ u64_max

key_le_total : (a b : LockRecord) → key_le a b ≡ false → key_le b a ≡ true
unfolding key_le
key_le_total a b h = lex_le_total (sort_key a) (sort_key b) h

key_le_trans : (a b c : LockRecord) → key_le a b ≡ true → key_le b c ≡ true → key_le a c ≡ true
unfolding key_le
key_le_trans a b c p q = lex_le_trans (sort_key a) (sort_key b) (sort_key c) p q

-- Among the records that merge, the key is the start.
can_merge_start :
    (p r : LockRecord) → key_le p r ≡ true → can_merge p r ≡ true → p.lock.start ≤ r.lock.start
unfolding key_le can_merge
can_merge_start p r h m = ground arith

covers-extend :
    (c : Claim) (x : ℕ) (p r : LockRecord)
    → p.lock.start ≤ r.lock.start
    → r.lock.end ≤ u64_max
    → can_merge p r ≡ true
    → covers c x (extend p r) ≡ (covers c x p || covers c x r)
unfolding covers extend can_merge
covers-extend c x p r h b m = ground arith

held-merge_from :
    (c : Claim) (x : ℕ) (p : LockRecord) (rs : List LockRecord)
    → All (λ r. key_le p r ≡ true) rs
    → IsSorted key_le rs
    → All IsRange rs
    → held (merge_from p rs) c x ≡ (covers c x p || held rs c x)
unfolding merge_from
held-merge_from c x p [] above sorted ranges = refl
held-merge_from c x p (r ∷ rs) above sorted ranges = elim (Bool-cases (can_merge p r)) [
  | inl m ↦
      rw (m, merge_from)
        (ground (
          arith,
          covers-extend c x p r (can_merge_start p r above.0 m) (ranges.0).bounded m,
          held-merge_from c x (extend p r) rs (unfold key_le extend in above.1) sorted.1 ranges.1,
        ))
  | inr m ↦ rw (m, merge_from) (ground (arith, held-merge_from c x r rs sorted.0 sorted.1 ranges.1))
]

-- If the records are ranges of 64-bit offsets that are not empty, then sorting and merging them
-- changes no offset's holders.
pub held-merge_owner_locks :
    (c : Claim) (x : ℕ) (locks : List LockRecord)
    → All IsRange locks
    → held (merge_owner_locks locks) c x ≡ held locks c x
unfolding merge_owner_locks
held-merge_owner_locks c x locks ranges =
    held-merge_sorted (sort_by key_le locks)
      (sort_by-IsSorted key_le key_le_total key_le_trans locks)
      (sort_by-All key_le IsRange locks ranges)
    ∙ any-sort_by key_le (covers c x) locks
  where
    held-merge_sorted :
        (rs : List LockRecord)
        → IsSorted key_le rs
        → All IsRange rs
        → held (merge_sorted rs) c x ≡ held rs c x
    held-merge_sorted [] sorted ranges = refl
    held-merge_sorted (r ∷ rs) sorted ranges = held-merge_from c x r rs sorted.0 sorted.1 ranges.1

-- What one record holds after its owner's range is cut out of it.
pub held-split_record :
    (c : Claim) (x : ℕ) (identity : FileIdentity) (session : ℕ) (q : FileLock) (r : LockRecord)
    → q.start ≤ q.end
    → IsRange r
    → held (split_record identity session q r) c x
      ≡ (covers c x r && not (same_owner identity session q.owner c && within x q))
unfolding split_record covers
held-split_record c x identity session q r h range = ground arith
