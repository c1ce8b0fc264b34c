-- ===== src/Locks/Conflicts.antt =====
-- `first_conflict` of crates/server-core/src/lib.rs: what its answers say of the lock table.
use quic_kfs.Prelude.{
  ℕ, ◌≡◌, refl, Bool, false, not, ◌&&◌, ◌||◌, none, List, [], ◌∷◌, arith, ◌==◌, any, retain,
}
use quic_kfs.Locks.Table.{
  write, FileLock, FileIdentity, LockRecord, kind_eq, identity_eq, conflicts, min_by_start,
  first_conflict,
}
use quic_kfs.Locks.Coverage.{Claim, covers, held, within}

-- Another owner's claim that excludes the request at an offset, or that the request excludes.
abbrev pub opposes : FileIdentity → ℕ → FileLock → Claim → ℕ → Bool
opposes identity session q d x =
    identity_eq d.identity identity
    && not (d.session == session && d.owner == q.owner)
    && within x q
    && (kind_eq d.kind write || kind_eq q.kind write)

retain-eq-nil : (p : LockRecord → Bool) (rs : List LockRecord) → retain p rs ≡ [] → any p rs ≡ false
retain-eq-nil p [] h = refl
retain-eq-nil p (r ∷ rs) h = ground (arith, retain-eq-nil p rs)

pub min_by_start-eq-none : (rs : List LockRecord) → min_by_start rs ≡ none → rs ≡ []
unfolding min_by_start
min_by_start-eq-none [] h = refl
min_by_start-eq-none (r ∷ rs) h = ground arith

conflicts_of_covers :
    (identity : FileIdentity) (session : ℕ) (q : FileLock) (d : Claim) (x : ℕ) (r : LockRecord)
    → conflicts identity session q r ≡ false
    → (covers d x r && opposes identity session q d x) ≡ false
unfolding conflicts covers
conflicts_of_covers identity session q d x r h = ground arith

no_conflict :
    (identity : FileIdentity) (session : ℕ) (q : FileLock) (d : Claim) (x : ℕ)
    (rs : List LockRecord)
    → any (conflicts identity session q) rs ≡ false
    → (held rs d x && opposes identity session q d x) ≡ false
no_conflict identity session q d x [] h = refl
no_conflict identity session q d x (r ∷ rs) h =
    ground
      (arith, conflicts_of_covers identity session q d x r, no_conflict identity session q d x rs)

-- No conflict was found: nobody's claim opposes the request at any offset.
pub first_conflict-eq-none :
    (locks : List LockRecord) (identity : FileIdentity) (session : ℕ) (q : FileLock) (d : Claim)
    (x : ℕ)
    → first_conflict locks identity session q ≡ none
    → (held locks d x && opposes identity session q d x) ≡ false
unfolding first_conflict
first_conflict-eq-none locks identity session q d x h = no_conflict identity session q d x locks (
    retain-eq-nil (conflicts identity session q) locks
      (min_by_start-eq-none (retain (conflicts identity session q) locks) h))
