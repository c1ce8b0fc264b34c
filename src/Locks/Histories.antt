-- ===== src/Locks/Histories.antt =====
-- Every lock table that the sessions of crates/server-core/src/lib.rs can reach, in any order of
-- their calls.
use quic_kfs.Prelude.{
  ℕ, ◌≤◌, ◌≡◌, sym, subst, Bool, ◌&&◌, Option, none, some, List, [], ◌∷◌, arith, ◌==◌, All, u64_max,
  inl, inr,
}
use quic_kfs.Errors.{ok, Result-cases, ok-injective}
use quic_kfs.Locks.Table.{FileLock, FileIdentity, LockRecord, identity_eq}
use quic_kfs.Locks.Exclusion.{IsTable, IsRequest, attempt_lock-IsTable, remove_locks-IsTable}
use quic_kfs.Locks.Session.{
  ExportSession, OpenFile, granted, lock_loop, check_set_lock, set_lock, remove_locks, flush, close,
  cleanup_locks, open_handle,
}

lock_loop-IsTable :
    (tables : List (List LockRecord)) (identity : FileIdentity) (session : ℕ) (q : FileLock)
    (wait : Bool) (next : List LockRecord)
    → All IsTable tables
    → IsRequest q
    → lock_loop tables identity session q wait ≡ granted next
    → IsTable next
unfolding lock_loop
lock_loop-IsTable [] identity session q wait next ts request e = absurd (cc)
lock_loop-IsTable (locks ∷ tables) identity session q wait next ts request e = ground (
  arith,
  attempt_lock-IsTable locks identity session q ts.0 wait next request,
  lock_loop-IsTable tables identity session q wait next ts.1 request,
)

checked :
    (s : ExportSession) (handle : ℕ) (q : FileLock) (opened : OpenFile)
    → q.end ≤ u64_max
    → check_set_lock s handle q ≡ ok opened
    → IsRequest q
unfolding check_set_lock
checked s handle q opened b e = ground arith

-- If in every table that a call of set_lock finds no two owners hold an offset of a file of which
-- one holds it to write, the records are 64-bit ranges that are not empty and MAX_LOCK_RECORDS at
-- most, and the end of the requested range is a 64-bit word, then so it is in the table that a
-- granted request leaves.
set_lock-IsTable :
    (s : ExportSession) (tables : List (List LockRecord)) (handle : ℕ) (q : FileLock) (wait : Bool)
    (next : List LockRecord)
    → All IsTable tables
    → q.end ≤ u64_max
    → set_lock s tables handle q wait ≡ granted next
    → IsTable next
unfolding set_lock
set_lock-IsTable s tables handle q wait next ts b e =
    elim (Result-cases (check_set_lock s handle q)) [
      | inl (opened, passed) ↦
          lock_loop-IsTable tables opened.identity s.id q wait next ts
            (checked s handle q opened b passed) (rw (passed, set_lock) at e)
      | inr (error, failed) ↦ absurd (ground arith)
    ]

-- One call of one session, at the moment at which it changes the table. A call that waits changes
-- nothing until then; the tables that it found before are of no consequence.
pub data Step (locks : List LockRecord) (next : List LockRecord) : Type 0 where
  locked :
      (s : ExportSession) (handle : ℕ) (q : FileLock) (wait : Bool)
      → q.end ≤ u64_max
      → set_lock s (locks ∷ []) handle q wait ≡ granted next
      → Step locks next
  flushed :
      (s : ExportSession) (handle : ℕ) (lock_owner : Option ℕ)
      → flush s locks handle lock_owner ≡ ok next
      → Step locks next
  closed :
      (s s' : ExportSession) (handle : ℕ) → close s locks handle ≡ ok (s', next) → Step locks next
  ended : (s : ExportSession) → next ≡ cleanup_locks s locks → Step locks next

pub data Reach (locks : List LockRecord) : List LockRecord → Type 0 where
  here : Reach locks locks
  next : {mid last : List LockRecord} → Reach locks mid → Step mid last → Reach locks last

flush-IsTable :
    (s : ExportSession) (locks : List LockRecord) (handle : ℕ) (lock_owner : Option ℕ)
    (last : List LockRecord)
    → IsTable locks
    → flush s locks handle lock_owner ≡ ok last
    → IsTable last
unfolding flush
flush-IsTable s locks handle none last t e = ground arith
flush-IsTable s locks handle (some owner) last t e = elim (Result-cases (open_handle s handle)) [
  | inl (opened, found) ↦
      let e' : ok (
            remove_locks
              (λ r.
                r.session == s.id
                && identity_eq r.identity opened.identity
                && r.lock.owner == owner)
              locks)
          ≡ ok last =
        rw (found, flush) at e in
      subst IsTable (ok-injective e') (remove_locks-IsTable _ locks t)
  | inr (error, missing) ↦ absurd (ground arith)
]

close-IsTable :
    (s s' : ExportSession) (locks : List LockRecord) (handle : ℕ) (last : List LockRecord)
    → IsTable locks
    → close s locks handle ≡ ok (s', last)
    → IsTable last
unfolding close
close-IsTable s s' locks handle last t e = elim (Result-cases (open_handle s handle)) [
  | inl (opened, found) ↦ subst IsTable (closed_table opened found) (remove_locks-IsTable _ locks t)
  | inr (error, missing) ↦ absurd (ground arith)
]
  where
    closed_table :
        (opened : OpenFile)
        → open_handle s handle ≡ ok opened
        → remove_locks (λ r. r.session == s.id && identity_eq r.identity opened.identity) locks
          ≡ last
    closed_table opened found = ground arith

Step-IsTable : {locks last : List LockRecord} → Step locks last → IsTable locks → IsTable last
Step-IsTable {locks} {last} (locked s handle q wait b e) t =
    set_lock-IsTable s (locks ∷ []) handle q wait last (t, tt) b e
Step-IsTable {locks} {last} (flushed s handle lock_owner e) t =
    flush-IsTable s locks handle lock_owner last t e
Step-IsTable {locks} {last} (closed s s' handle e) t = close-IsTable s s' locks handle last t e
Step-IsTable {locks} {last} (ended s e) t =
    subst IsTable (sym e) (unfold cleanup_locks in remove_locks-IsTable _ locks t)

Reach-IsTable : {locks last : List LockRecord} → IsTable locks → Reach locks last → IsTable last
Reach-IsTable t here = t
Reach-IsTable t (next r step) = Step-IsTable step (Reach-IsTable t r)

-- From the empty table, whatever calls the sessions of an export make and in whatever order, if the
-- ends of the ranges that they lock are 64-bit words, no two owners ever hold an offset of a file
-- of which one holds it to write; the records stay 64-bit ranges that are not empty,
-- MAX_LOCK_RECORDS of them at most.
pub Reach-nil-IsTable : {locks : List LockRecord} → Reach [] locks → IsTable locks
Reach-nil-IsTable r =
    Reach-IsTable (record { ranges = tt; exclusive = λ c d x. ground arith; bounded = omega arith })
      r
