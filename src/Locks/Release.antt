-- ===== src/Locks/Release.antt =====
-- What flush, close and cleanup_locks of crates/server-core/src/lib.rs release, and what they leave.
use quic_kfs.Prelude.{ℕ, ◌≡◌, refl, Bool, not, ◌&&◌, none, some, List, [], ◌∷◌, arith, ◌==◌}
use quic_kfs.Errors.{ok}
use quic_kfs.Locks.Table.{FileIdentity, LockRecord, identity_eq}
use quic_kfs.Locks.Coverage.{Claim, covers, held}
use quic_kfs.Locks.Session.{
  ExportSession, OpenFile, open_handle, lookup_handle, remove_handle, remove_locks, flush, close,
  cleanup_locks,
}

-- A test of records that is a test of the claims that they cover.
held-remove_locks :
    (remove : LockRecord → Bool) (removed : Claim → Bool) (c : Claim) (x : ℕ)
    (locks : List LockRecord)
    → ((r : LockRecord) → (covers c x r && remove r) ≡ (covers c x r && removed c))
    → held (remove_locks remove locks) c x ≡ (held locks c x && not (removed c))
unfolding remove_locks
held-remove_locks remove removed c x [] same = refl
held-remove_locks remove removed c x (r ∷ rs) same =
    ground (arith, same r, held-remove_locks remove removed c x rs same)

-- The claims of a session on a file.
abbrev pub of_file : ℕ → FileIdentity → Claim → Bool
of_file session identity c = c.session == session && identity_eq c.identity identity

-- A flush of an open handle with a lock owner releases that owner's locks of the session on the file, and no others.
pub held-flush :
    (s : ExportSession) (locks : List LockRecord) (handle owner : ℕ) (opened : OpenFile)
    (next : List LockRecord) (c : Claim) (x : ℕ)
    → open_handle s handle ≡ ok opened
    → flush s locks handle (some owner) ≡ ok next
    → held next c x ≡ (held locks c x && not (of_file s.id opened.identity c && c.owner == owner))
unfolding flush
held-flush s locks handle owner opened next c x found e = ground (
  arith,
  held-remove_locks
      (λ r. r.session == s.id && identity_eq r.identity opened.identity && r.lock.owner == owner)
      (λ d. of_file s.id opened.identity d && d.owner == owner) c x locks
      (λ r. unfold covers in ground arith),
)

no_handle :
    (handle : ℕ) (hs : List (ℕ × OpenFile)) → lookup_handle handle (remove_handle handle hs) ≡ none
unfolding lookup_handle remove_handle
no_handle handle [] = refl
no_handle handle ((h, o) ∷ hs) = ground (arith, no_handle handle hs)

-- Closing an open handle releases the session's locks on the file that it names, whatever their owner,
-- and no others; the handle is not open afterwards.
pub held-close :
    (s : ExportSession) (locks : List LockRecord) (handle : ℕ) (opened : OpenFile)
    (s' : ExportSession) (next : List LockRecord)
    → open_handle s handle ≡ ok opened
    → close s locks handle ≡ ok (s', next)
    → ((c : Claim) (x : ℕ)
        → held next c x ≡ (held locks c x && not (of_file s.id opened.identity c)))
      × (lookup_handle handle s'.handles ≡ none)
unfolding close
held-close s locks handle opened s' next found e = (
  λ c x. ground (
    arith,
    held-remove_locks (λ r. r.session == s.id && identity_eq r.identity opened.identity)
        (of_file s.id opened.identity) c x locks (λ r. unfold covers in ground arith),
  ),
  ground (arith, no_handle handle s.handles),
)

-- Ending a session releases its locks on every file, and no other session's.
pub held-cleanup_locks :
    (s : ExportSession) (locks : List LockRecord) (c : Claim) (x : ℕ)
    → held (cleanup_locks s locks) c x ≡ (held locks c x && not (c.session == s.id))
unfolding cleanup_locks
held-cleanup_locks s locks c x =
    held-remove_locks (λ r. r.session == s.id) (λ d. d.session == s.id) c x locks
      (λ r. unfold covers in ground arith)
