-- ===== src/Locks/Table.antt =====
-- The lock table: FileLock, LockRecord, first_conflict, replace_owner_range and merge_owner_locks
-- of crates/server-core/src/lib.rs. A Uuid is the number of its 128 bits.
use quic_kfs.Prelude.{
  ℕ, ◌-◌, Bool, true, false, not, ◌&&◌, ◌||◌, Option, none, some, List, [], ◌∷◌, ◌++◌, ltb, leb,
  ◌==◌, if◌then◌else◌, length, retain, saturating_add, max,
}
use quic_kfs.Prelude.Sorting.{sort_by}
use quic_kfs.Prelude.Lex.{lex_le}

pub data LockKind : Type 0 where
  read write unlock : LockKind

pub record FileLock : Type 0 where
  pub owner : ℕ
  pub start : ℕ
  pub end : ℕ
  pub kind : LockKind
  pub pid : ℕ

pub record FileIdentity : Type 0 where
  pub device : ℕ
  pub inode : ℕ

pub record LockRecord : Type 0 where
  pub identity : FileIdentity
  pub session : ℕ
  pub lock : FileLock

abbrev pub max_lock_records : ℕ
max_lock_records = 65536

-- `kind as u8`
abbrev pub kind_code : LockKind → ℕ
kind_code read = 0
kind_code write = 1
kind_code unlock = 2

abbrev pub kind_eq : LockKind → LockKind → Bool
kind_eq a b = kind_code a == kind_code b

abbrev pub identity_eq : FileIdentity → FileIdentity → Bool
identity_eq a b = a.device == b.device && a.inode == b.inode

unfoldable pub ranges_overlap : FileLock → FileLock → Bool
ranges_overlap left right = leb left.start right.end && leb right.start left.end

-- The filter of `first_conflict`.
unfoldable pub conflicts : FileIdentity → ℕ → FileLock → LockRecord → Bool
unfolding ranges_overlap
conflicts identity session requested record' =
    identity_eq record'.identity identity
    && not (record'.session == session && record'.lock.owner == requested.owner)
    && ranges_overlap record'.lock requested
    && (kind_eq record'.lock.kind write || kind_eq requested.kind write)

-- `min_by_key(|record| record.lock.start)`: the first of the least.
unfoldable pub min_by_start : List LockRecord → Option LockRecord
min_by_start [] = none
min_by_start (r ∷ rs) = elim (min_by_start rs) [
  | none ↦ some r
  | some best ↦ if leb r.lock.start best.lock.start then some r else some best
]

unfoldable pub first_conflict : List LockRecord → FileIdentity → ℕ → FileLock → Option LockRecord
unfolding conflicts min_by_start
first_conflict locks identity session requested =
    min_by_start (retain (conflicts identity session requested) locks)

-- The body of the loop of `replace_owner_range`: what stays of one record.
unfoldable pub split_record : FileIdentity → ℕ → FileLock → LockRecord → List LockRecord
unfolding ranges_overlap
split_record identity session requested r =
    if not (identity_eq r.identity identity)
      || not (r.session == session)
      || not (r.lock.owner == requested.owner)
      || not (ranges_overlap r.lock requested)
    then r ∷ []
    else left ++ right
  where
    left : List LockRecord
    left =
        if ltb r.lock.start requested.start
        then record r { lock = record (r.lock) { end = requested.start - 1 } } ∷ []
        else []

    right : List LockRecord
    right =
        if ltb requested.end r.lock.end
        then record r { lock = record (r.lock) { start = saturating_add requested.end 1 } } ∷ []
        else []

unfoldable pub split_records : FileIdentity → ℕ → FileLock → List LockRecord → List LockRecord
unfolding split_record
split_records identity session requested [] = []
split_records identity session requested (r ∷ rs) =
    split_record identity session requested r ++ split_records identity session requested rs

-- The key of `sort_by_key` in `merge_owner_locks`.
unfoldable pub sort_key : LockRecord → List ℕ
sort_key r =
    r.identity.device
    ∷ r.identity.inode
    ∷ r.session
    ∷ r.lock.owner
    ∷ kind_code r.lock.kind
    ∷ r.lock.start
    ∷ []

unfoldable pub key_le : LockRecord → LockRecord → Bool
unfolding sort_key lex_le
key_le a b = lex_le (sort_key a) (sort_key b)

unfoldable pub can_merge : LockRecord → LockRecord → Bool
can_merge previous r =
    identity_eq previous.identity r.identity
    && previous.session == r.session
    && previous.lock.owner == r.lock.owner
    && kind_eq previous.lock.kind r.lock.kind
    && previous.lock.pid == r.lock.pid
    && leb r.lock.start (saturating_add previous.lock.end 1)

unfoldable pub extend : LockRecord → LockRecord → LockRecord
extend previous r = record previous {
  lock = record (previous.lock) { end = max previous.lock.end r.lock.end };
}

-- The loop of `merge_owner_locks`, at `merged.last_mut() == Some(previous)`.
unfoldable pub merge_from : LockRecord → List LockRecord → List LockRecord
merge_from previous [] = previous ∷ []
merge_from previous (r ∷ rs) = elim (can_merge previous r) [
  | true ↦ merge_from (extend previous r) rs
  | false ↦ previous ∷ merge_from r rs
]

unfoldable pub merge_sorted : List LockRecord → List LockRecord
unfolding merge_from
merge_sorted [] = []
merge_sorted (r ∷ rs) = merge_from r rs

unfoldable pub merge_owner_locks : List LockRecord → List LockRecord
unfolding sort_by key_le merge_sorted can_merge extend
merge_owner_locks locks = merge_sorted (sort_by key_le locks)

-- The table that `replace_owner_range` proposes, before the test of its size.
unfoldable pub proposed_locks :
    List LockRecord → FileIdentity → ℕ → FileLock → Bool → List LockRecord
unfolding split_records merge_owner_locks
proposed_locks locks identity session requested insert = merge_owner_locks (
    split_records identity session requested locks
    ++ (if insert
        then record { identity = identity; session = session; lock = requested } ∷ []
        else []))

-- `none` is ServerError::TooManyLocks, which leaves the table as it was.
unfoldable pub replace_owner_range :
    List LockRecord → FileIdentity → ℕ → FileLock → Bool → Option (List LockRecord)
unfolding proposed_locks
replace_owner_range locks identity session requested insert =
    let next = proposed_locks locks identity session requested insert in
    if ltb max_lock_records (length next) then none else some next
