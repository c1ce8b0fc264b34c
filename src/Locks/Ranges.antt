-- ===== src/Locks/Ranges.antt =====
-- The operations on the lock table of crates/server-core/src/lib.rs keep its records well formed.
use quic_kfs.Prelude.{
  ℕ, ◌≤◌, Bool, true, false, List, [], ◌∷◌, arith, if◌then◌else◌, All, All-append, u64_max,
}
use quic_kfs.Prelude.Sorting.{sort_by-All}
use quic_kfs.Locks.Table.{
  FileLock, FileIdentity, LockRecord, split_record, split_records, key_le, can_merge, extend,
  merge_from, merge_sorted, merge_owner_locks, proposed_locks,
}
use quic_kfs.Locks.Coverage.{IsRange}

split_record-IsRange :
    (identity : FileIdentity) (session : ℕ) (q : FileLock) (r : LockRecord)
    → q.end ≤ u64_max
    → IsRange r
    → All IsRange (split_record identity session q r)
unfolding split_record
split_record-IsRange identity session q r b range = ground arith

pub split_records-IsRange :
    (identity : FileIdentity) (session : ℕ) (q : FileLock) (rs : List LockRecord)
    → q.end ≤ u64_max
    → All IsRange rs
    → All IsRange (split_records identity session q rs)
unfolding split_records
split_records-IsRange identity session q [] b h = tt
split_records-IsRange identity session q (r ∷ rs) b h =
    All-append IsRange (split_record identity session q r) (split_records identity session q rs)
      (split_record-IsRange identity session q r b h.0)
      (split_records-IsRange identity session q rs b h.1)

extend-IsRange : (p r : LockRecord) → IsRange p → IsRange r → IsRange (extend p r)
unfolding extend
extend-IsRange p r hp hr = omega arith

merge_from-IsRange :
    (p : LockRecord) (rs : List LockRecord)
    → IsRange p
    → All IsRange rs
    → All IsRange (merge_from p rs)
unfolding merge_from
merge_from-IsRange p [] hp h = (hp, tt)
merge_from-IsRange p (r ∷ rs) hp h =
    elim (can_merge p r)
      as (λ b.
        All IsRange (elim b [ true ↦ merge_from (extend p r) rs | false ↦ p ∷ merge_from r rs ])) [
          | true ↦ merge_from-IsRange (extend p r) rs (extend-IsRange p r hp h.0) h.1
          | false ↦ (hp, merge_from-IsRange r rs h.0 h.1)
        ]

merge_sorted-IsRange : (rs : List LockRecord) → All IsRange rs → All IsRange (merge_sorted rs)
unfolding merge_sorted
merge_sorted-IsRange [] h = tt
merge_sorted-IsRange (r ∷ rs) h = merge_from-IsRange r rs h.0 h.1

pub proposed_locks-IsRange :
    (locks : List LockRecord) (identity : FileIdentity) (session : ℕ) (q : FileLock) (insert : Bool)
    → q.start ≤ q.end
    → q.end ≤ u64_max
    → All IsRange locks
    → All IsRange (proposed_locks locks identity session q insert)
unfolding proposed_locks merge_owner_locks
proposed_locks-IsRange locks identity session q insert h b ranges = merge_sorted-IsRange _ (
    sort_by-All key_le IsRange _ (
      All-append IsRange (split_records identity session q locks) _
        (split_records-IsRange identity session q locks b ranges) (added insert)))
  where
    added :
        (i : Bool)
        → All IsRange
            (if i then record { identity = identity; session = session; lock = q } ∷ [] else [])
    added true = (record { ordered = h; bounded = b }, tt)
    added false = tt
