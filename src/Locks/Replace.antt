-- ===== src/Locks/Replace.antt =====
-- `replace_owner_range` of crates/server-core/src/lib.rs against its contract, offset by offset.
use quic_kfs.Prelude.{
  ℕ, ◌≤◌, ◌≡◌, refl, ◌∙◌, Bool, true, false, not, ◌&&◌, ◌||◌, none, some, List, [], ◌∷◌, ◌++◌,
  arith, ltb, if◌then◌else◌, any-append, All, All-append, length, u64_max,
}
use quic_kfs.Locks.Table.{
  FileLock, FileIdentity, LockRecord, split_record, split_records, proposed_locks,
  replace_owner_range, max_lock_records,
}
use quic_kfs.Locks.Coverage.{
  Claim, covers, held, same_owner, same_mode, within, IsRange, held-split_record,
  held-merge_owner_locks,
}
use quic_kfs.Locks.Ranges.{split_records-IsRange, proposed_locks-IsRange}

-- The table after the request, as a function of the table before it: the requested offsets of the
-- owner are held as the request says (or by nobody), all other offsets as before.
abbrev pub replaced : List LockRecord → FileIdentity → ℕ → FileLock → Bool → Claim → ℕ → Bool
replaced locks identity session q insert c x =
    if same_owner identity session q.owner c && within x q
    then insert && same_mode q c
    else held locks c x

held-split_records :
    (c : Claim) (x : ℕ) (identity : FileIdentity) (session : ℕ) (q : FileLock)
    (rs : List LockRecord)
    → q.start ≤ q.end
    → All IsRange rs
    → held (split_records identity session q rs) c x
      ≡ (held rs c x && not (same_owner identity session q.owner c && within x q))
unfolding split_records
held-split_records c x identity session q [] h ranges = refl
held-split_records c x identity session q (r ∷ rs) h ranges =
    any-append (covers c x) (split_record identity session q r)
      (split_records identity session q rs)
    ∙ join (covers c x r) (held rs c x) (same_owner identity session q.owner c && within x q)
        (held-split_record c x identity session q r h ranges.0)
        (held-split_records c x identity session q rs h ranges.1)
  where
    join :
        (a b m : Bool) {d e : Bool}
        → d ≡ (a && not m)
        → e ≡ (b && not m)
        → (d || e) ≡ ((a || b) && not m)
    join a b m p q = ground arith

pub held-proposed_locks :
    (locks : List LockRecord) (identity : FileIdentity) (session : ℕ) (q : FileLock) (insert : Bool)
    (c : Claim) (x : ℕ)
    → q.start ≤ q.end
    → q.end ≤ u64_max
    → All IsRange locks
    → held (proposed_locks locks identity session q insert) c x
      ≡ replaced locks identity session q insert c x
unfolding proposed_locks
held-proposed_locks locks identity session q insert c x h b ranges =
    held-merge_owner_locks c x (kept ++ added insert) (
      All-append IsRange kept (added insert)
        (split_records-IsRange identity session q locks b ranges) (added-IsRange insert))
    ∙ any-append (covers c x) kept (added insert)
    ∙ join insert
  where
    kept : List LockRecord
    kept = split_records identity session q locks

    added : Bool → List LockRecord
    added i = if i then record { identity = identity; session = session; lock = q } ∷ [] else []

    added-IsRange : (i : Bool) → All IsRange (added i)
    added-IsRange true = (record { ordered = h; bounded = b }, tt)
    added-IsRange false = tt

    join :
        (i : Bool) → (held kept c x || held (added i) c x) ≡ replaced locks identity session q i c x
    join i =
        unfold covers in ground (arith, held-split_records c x identity session q locks h ranges)

accepted :
    (locks : List LockRecord) (identity : FileIdentity) (session : ℕ) (q : FileLock) (insert : Bool)
    (next : List LockRecord)
    → replace_owner_range locks identity session q insert ≡ some next
    → (proposed_locks locks identity session q insert ≡ next) × (length next ≤ max_lock_records)
unfolding replace_owner_range
accepted locks identity session q insert next e =
    test (proposed_locks locks identity session q insert) next e
  where
    test :
        (t n : List LockRecord)
        → (if ltb max_lock_records (length t) then none else some t) ≡ some n
        → (t ≡ n) × (length n ≤ max_lock_records)
    test t n e' = ground arith

-- If the range that is replaced is not empty and its offsets are 64-bit words, and so for the
-- records of the table, then after a replacement that is accepted the offsets of the range are
-- held for its owner as the request says (or, without `insert`, by nobody of that owner), every
-- other offset and every other owner's is held as before, the records are well formed again, and
-- there are at most MAX_LOCK_RECORDS of them.
pub replace_owner_range_lem :
    (locks : List LockRecord) (identity : FileIdentity) (session : ℕ) (q : FileLock) (insert : Bool)
    (next : List LockRecord)
    → q.start ≤ q.end
    → q.end ≤ u64_max
    → All IsRange locks
    → replace_owner_range locks identity session q insert ≡ some next
    → ((c : Claim) (x : ℕ) → held next c x ≡ replaced locks identity session q insert c x)
      × All IsRange next
      × (length next ≤ max_lock_records)
replace_owner_range_lem locks identity session q insert next h b ranges e = (
  λ c x. rw (← same) (held-proposed_locks locks identity session q insert c x h b ranges),
  rw (← same) (proposed_locks-IsRange locks identity session q insert h b ranges),
  (accepted locks identity session q insert next e).1,
)
  where
    same : proposed_locks locks identity session q insert ≡ next
    same = (accepted locks identity session q insert next e).0
