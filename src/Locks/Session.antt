-- ===== src/Locks/Session.antt =====
-- The methods of ExportSession in crates/server-core/src/lib.rs that read or change the lock table:
-- get_lock, set_lock, flush, close, cleanup_locks and remove_locks, with their checks.
-- A poisoned mutex (StateUnavailable) is not modelled: no code panics while it holds one.
use quic_kfs.Prelude.{
  ℕ, Bool, true, false, not, ◌&&◌, ◌||◌, Option, none, some, List, [], ◌∷◌, ltb, ◌==◌,
  if◌then◌else◌, retain,
}
use quic_kfs.Protocol.Access.{FileAccess, can_read, can_write}
use quic_kfs.Errors.{
  ServerError, permission_denied, invalid_request, invalid_handle, would_block, too_many_locks,
  Result, ok, err, ◌>>=◌, ◌>>◌, fail_if, ok_or,
}
use quic_kfs.Locks.Table.{
  LockKind, read, write, unlock, FileLock, FileIdentity, LockRecord, kind_eq, identity_eq,
  first_conflict, replace_owner_range,
}

pub record OpenFile : Type 0 where
  pub node : ℕ
  pub identity : FileIdentity
  pub access : FileAccess
  pub append : Bool

-- `writable` is the export's, `handles` the map of the handles that are open.
pub record ExportSession : Type 0 where
  pub id : ℕ
  pub writable : Bool
  pub write_authorized : Bool
  pub handles : List (ℕ × OpenFile)

-- `self.can_write()`
abbrev pub session_can_write : ExportSession → Bool
session_can_write s = s.writable && s.write_authorized

unfoldable pub require_writable : ExportSession → Result (Unit {0})
require_writable s = if session_can_write s then ok tt else err ServerError.read_only

unfoldable pub lookup_handle : ℕ → List (ℕ × OpenFile) → Option OpenFile
lookup_handle handle [] = none
lookup_handle handle ((h, opened) ∷ rest) =
    if h == handle then some opened else lookup_handle handle rest

unfoldable pub open_handle : ExportSession → ℕ → Result OpenFile
unfolding lookup_handle
open_handle s handle = ok_or (lookup_handle handle s.handles) invalid_handle

unfoldable pub validate_lock : FileLock → Bool → Result (Unit {0})
validate_lock lock allow_unlock =
    fail_if (ltb lock.end lock.start || (not allow_unlock && kind_eq lock.kind unlock))
      invalid_request

unfoldable pub validate_lock_access : OpenFile → LockKind → Result (Unit {0})
validate_lock_access opened read = fail_if (not (can_read opened.access)) permission_denied
validate_lock_access opened write = fail_if (not (can_write opened.access)) permission_denied
validate_lock_access opened unlock = ok tt

unfoldable pub get_lock : ExportSession → List LockRecord → ℕ → FileLock → Result (Option FileLock)
unfolding validate_lock open_handle validate_lock_access
get_lock s locks handle requested = do
  validate_lock requested false
  opened ← open_handle s handle
  validate_lock_access opened requested.kind
  ok (elim (first_conflict locks opened.identity s.id requested) [
    | none ↦ none
    | some conflict ↦ some conflict.lock
  ])

-- `granted` holds the table that the request leaves; `waiting` is a call that has not returned.
pub data LockOutcome : Type 0 where
  granted : List LockRecord → LockOutcome
  refused : ServerError → LockOutcome
  waiting : LockOutcome

abbrev pub from_replaced : Option (List LockRecord) → LockOutcome
from_replaced none = refused too_many_locks
from_replaced (some next) = granted next

-- One round of the loop of `set_lock`, under the mutex.
unfoldable pub attempt_lock : List LockRecord → FileIdentity → ℕ → FileLock → Bool → LockOutcome
attempt_lock locks identity session requested wait =
    if kind_eq requested.kind unlock
    then from_replaced (replace_owner_range locks identity session requested false)
    else elim (first_conflict locks identity session requested) [
      | none ↦ from_replaced (replace_owner_range locks identity session requested true)
      | some conflict ↦ if wait then waiting else refused would_block
    ]

-- The loop: `tables` are the lock tables that the call finds, first when it is made and then after
-- each notification. It ends with the first round that does not have to wait.
unfoldable pub lock_loop : List (List LockRecord) → FileIdentity → ℕ → FileLock → Bool → LockOutcome
unfolding attempt_lock
lock_loop [] identity session requested wait = waiting
lock_loop (locks ∷ tables) identity session requested wait =
    elim (attempt_lock locks identity session requested wait) [
      | granted next ↦ granted next
      | refused e ↦ refused e
      | waiting ↦ lock_loop tables identity session requested wait
    ]

-- The checks before the loop.
unfoldable pub check_set_lock : ExportSession → ℕ → FileLock → Result OpenFile
unfolding validate_lock require_writable open_handle validate_lock_access
check_set_lock s handle requested = do
  validate_lock requested true
  (if kind_eq requested.kind write then require_writable s else ok tt)
  opened ← open_handle s handle
  validate_lock_access opened requested.kind
  ok opened

unfoldable pub set_lock : ExportSession → List (List LockRecord) → ℕ → FileLock → Bool → LockOutcome
set_lock s tables handle requested wait = elim (check_set_lock s handle requested) [
  | ok opened ↦ lock_loop tables opened.identity s.id requested wait
  | err e ↦ refused e
]

unfoldable pub remove_locks : (LockRecord → Bool) → List LockRecord → List LockRecord
remove_locks remove = retain (λ r. not (remove r))

unfoldable pub flush : ExportSession → List LockRecord → ℕ → Option ℕ → Result (List LockRecord)
flush s locks handle lock_owner = do
  opened ← open_handle s handle
  ok (elim lock_owner [
    | none ↦ locks
    | some owner ↦
        remove_locks
          (λ r.
            r.session == s.id && identity_eq r.identity opened.identity && r.lock.owner == owner)
          locks
  ])

-- `DashMap::remove`: a handle is in the map once.
unfoldable pub remove_handle : ℕ → List (ℕ × OpenFile) → List (ℕ × OpenFile)
remove_handle handle = retain (λ entry. not (entry.0 == handle))

unfoldable pub close :
    ExportSession → List LockRecord → ℕ → Result (ExportSession × List LockRecord)
close s locks handle = do
  opened ← open_handle s handle
  ok (
    record s { handles = remove_handle handle s.handles },
    remove_locks (λ r. r.session == s.id && identity_eq r.identity opened.identity) locks,
  )

-- Also what `Drop` does.
unfoldable pub cleanup_locks : ExportSession → List LockRecord → List LockRecord
cleanup_locks s locks = remove_locks (λ r. r.session == s.id) locks
