-- ===== src/Locks/Answers.antt =====
-- get_lock against set_lock of crates/server-core/src/lib.rs, and the outcomes of a request.
use quic_kfs.Prelude.{
  ℕ, ◌≤◌, ◌≡◌, ◌≢◌, ◌⊎◌, inl, inr, Bool, true, false, ◌&&◌, none, some, List, [], ◌∷◌, arith, ltb,
  retain, All, Option-cases, Bool-cases,
}
use quic_kfs.Errors.{ServerError, ok, err, would_block, Result-cases}
use quic_kfs.Locks.Table.{
  FileLock, FileIdentity, LockRecord, conflicts, min_by_start, first_conflict,
}
use quic_kfs.Locks.Conflicts.{min_by_start-eq-none}
use quic_kfs.Locks.Session.{
  ExportSession, refused, waiting, get_lock, lock_loop, check_set_lock, set_lock,
}

-- The answer is a conflict, and none starts before it.
abbrev pub IsFirst : (LockRecord → Bool) → LockRecord → List LockRecord → Type 0
IsFirst p best rs =
    (p best ≡ true) × All (λ r. (p r && ltb r.lock.start best.lock.start) ≡ false) rs

All-mono :
    (m n : ℕ) (rs : List LockRecord)
    → m ≤ n
    → All (λ r. n ≤ r.lock.start) rs
    → All (λ r. m ≤ r.lock.start) rs
All-mono m n [] h a = tt
All-mono m n (r ∷ rs) h a = (omega arith, All-mono m n rs h a.1)

min_by_start_least :
    (rs : List LockRecord) (best : LockRecord)
    → min_by_start rs ≡ some best
    → All (λ r. best.lock.start ≤ r.lock.start) rs
unfolding min_by_start
min_by_start_least [] best e = tt
min_by_start_least (r ∷ rs) best e = elim (Option-cases (min_by_start rs)) [
  | inl none' ↦
      (ground arith, All-mono best.lock.start best.lock.start rs (omega arith) (only none'))
  | inr (least, e') ↦ (
    ground arith,
    All-mono best.lock.start least.lock.start rs (ground arith) (min_by_start_least rs least e'),
  )
]
  where
    only : min_by_start rs ≡ none → All (λ x. best.lock.start ≤ x.lock.start) rs
    only h = rw (min_by_start-eq-none rs h) tt

min_by_start-holds :
    (p : LockRecord → Bool) (rs : List LockRecord) (best : LockRecord)
    → All (λ r. p r ≡ true) rs
    → min_by_start rs ≡ some best
    → p best ≡ true
unfolding min_by_start
min_by_start-holds p [] best a e = cc
min_by_start-holds p (r ∷ rs) best a e = ground (arith, min_by_start-holds p rs best a.1)

retained : (p : LockRecord → Bool) (rs : List LockRecord) → All (λ r. p r ≡ true) (retain p rs)
retained p [] = tt
retained p (r ∷ rs) = elim (Bool-cases (p r)) [
  | inl hit ↦ rw hit (hit, retained p rs)
  | inr miss ↦ rw miss (retained p rs)
]

not_before :
    (p : LockRecord → Bool) (m : ℕ) (rs : List LockRecord)
    → All (λ r. m ≤ r.lock.start) (retain p rs)
    → All (λ r. (p r && ltb r.lock.start m) ≡ false) rs
not_before p m [] a = tt
not_before p m (r ∷ rs) a = elim (Bool-cases (p r)) [
  | inl hit ↦
      let a' : (m ≤ r.lock.start) × All (λ x. m ≤ x.lock.start) (retain p rs) = rw hit at a in
      (ground arith, not_before p m rs a'.1)
  | inr miss ↦ (ground arith, not_before p m rs (rw miss at a))
]

-- The record that first_conflict returns conflicts with the request, and no record that does
-- starts before it.
pub first_conflict-IsFirst :
    (locks : List LockRecord) (identity : FileIdentity) (session : ℕ) (q : FileLock)
    (best : LockRecord)
    → first_conflict locks identity session q ≡ some best
    → IsFirst (conflicts identity session q) best locks
unfolding first_conflict
first_conflict-IsFirst locks identity session q best e = (
  min_by_start-holds p (retain p locks) best (retained p locks) e,
  not_before p best.lock.start locks (min_by_start_least (retain p locks) best e),
)
  where
    p : LockRecord → Bool
    p = conflicts identity session q

-- If get_lock finds no conflict, then set_lock with the same arguments and table is not refused as
-- one that would block and does not wait.
pub get_lock_free :
    (s : ExportSession) (locks : List LockRecord) (tables : List (List LockRecord)) (handle : ℕ)
    (q : FileLock) (wait : Bool)
    → get_lock s locks handle q ≡ ok none
    → (set_lock s (locks ∷ tables) handle q wait ≢ refused would_block)
      × (set_lock s (locks ∷ tables) handle q wait ≢ waiting)
unfolding get_lock set_lock check_set_lock lock_loop
get_lock_free s locks tables handle q wait e = (λ h. ground arith, λ h. ground arith)

-- If get_lock reports a conflict, then set_lock without waiting, with the same arguments and
-- table, refuses the lock as one that would block, or because the session may not write.
pub get_lock_taken :
    (s : ExportSession) (locks : List LockRecord) (tables : List (List LockRecord)) (handle : ℕ)
    (q l : FileLock)
    → get_lock s locks handle q ≡ ok (some l)
    → (set_lock s (locks ∷ tables) handle q false ≡ refused would_block)
      ⊎ (set_lock s (locks ∷ tables) handle q false ≡ refused ServerError.read_only)
unfolding get_lock set_lock check_set_lock lock_loop
get_lock_taken s locks tables handle q l e = ground arith

lock_loop_waits :
    (tables : List (List LockRecord)) (identity : FileIdentity) (session : ℕ) (q : FileLock)
    → lock_loop tables identity session q true ≢ refused would_block
unfolding lock_loop
lock_loop_waits [] identity session q e = cc
lock_loop_waits (locks ∷ tables) identity session q e =
    ground (arith, lock_loop_waits tables identity session q)

check_set_lock-ne-would_block :
    (s : ExportSession) (handle : ℕ) (q : FileLock) → check_set_lock s handle q ≢ err would_block
unfolding check_set_lock
check_set_lock-ne-would_block s handle q e = ground arith

-- A request that may wait is never refused as one that would block, however often it finds the
-- range taken; one that may not wait never waits once it has seen a table.
pub set_lock_waits :
    (s : ExportSession) (locks : List LockRecord) (tables : List (List LockRecord)) (handle : ℕ)
    (q : FileLock)
    → (set_lock s (locks ∷ tables) handle q true ≢ refused would_block)
      × (set_lock s (locks ∷ tables) handle q false ≢ waiting)
unfolding set_lock
set_lock_waits s locks tables handle q = elim (Result-cases (check_set_lock s handle q)) [
  | inl (opened, passed) ↦ (
    λ e. lock_loop_waits (locks ∷ tables) opened.identity s.id q (rw (passed, set_lock) at e),
    λ e. unfold lock_loop in ground arith,
  )
  | inr (error, failed) ↦
      (λ e. ground (arith, check_set_lock-ne-would_block s handle q), λ e. ground arith)
]
