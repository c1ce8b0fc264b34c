-- ===== src/Examples/Locking.antt =====
-- The lock table at work: two sessions on one file.
use quic_kfs.Prelude.{
  ℕ, ◌≤◌, ◌≡◌, ◌≢◌, refl, true, false, not, ◌&&◌, none, List, [], ◌∷◌, arith, All, length,
}
use quic_kfs.Prelude.Sorting.{insert, sort_by}
use quic_kfs.Errors.{would_block}
use quic_kfs.Protocol.Access.{FileAccess}
use quic_kfs.Locks.{
  LockKind, read, write, unlock, FileLock, FileIdentity, LockRecord, max_lock_records,
  first_conflict, conflicts, min_by_start, split_record, split_records, sort_key, key_le, can_merge,
  extend, merge_from, merge_sorted, merge_owner_locks, proposed_locks, replace_owner_range,
  ranges_overlap,
}
use quic_kfs.Locks.Session.{
  OpenFile, ExportSession, require_writable, lookup_handle, open_handle, validate_lock,
  validate_lock_access, get_lock, refused, waiting, attempt_lock, lock_loop, check_set_lock,
  set_lock, remove_locks, remove_handle, close,
}
use quic_kfs.Locks.Coverage.{Claim, held, IsRange}
use quic_kfs.Locks.Replace.{replaced, replace_owner_range_lem}
use quic_kfs.Locks.Exclusion.{IsTable}
use quic_kfs.Locks.Histories.{here, next, Step, locked, Reach-nil-IsTable}
use quic_kfs.Locks.Release.{of_file, held-close}
use quic_kfs.Locks.Answers.{get_lock_free}

abbrev the_file : FileIdentity
the_file = record { device = 1; inode = 2 }

abbrev opened_file : OpenFile
opened_file = record {
  node = 3;
  identity = the_file;
  access = FileAccess.read_write;
  append = false;
}

abbrev session_of : ℕ → ExportSession
session_of id = record {
  id = id;
  writable = true;
  write_authorized = true;
  handles = (7, opened_file) ∷ [];
}

abbrev lock_of : ℕ → ℕ → LockKind → FileLock
lock_of start end' kind = record { owner = 5; start = start; end = end'; kind = kind; pid = 99 }

abbrev record_of : ℕ → ℕ → ℕ → LockKind → LockRecord
record_of session start end' kind = record {
  identity = the_file;
  session = session;
  lock = lock_of start end' kind;
}

-- One owner writes 10 to 20, and gives 12 to 14 back.
abbrev one_lock : List LockRecord
one_lock = record_of 1 10 20 write ∷ []

abbrev two_locks : List LockRecord
two_locks = record_of 1 10 11 write ∷ record_of 1 15 20 write ∷ []

abbrev writer : Claim
writer = record { identity = the_file; session = 1; owner = 5; kind = write; pid = 99 }

taken : Step [] one_lock
unfolding set_lock check_set_lock lock_loop attempt_lock require_writable open_handle lookup_handle
    validate_lock validate_lock_access first_conflict min_by_start replace_owner_range
    proposed_locks split_records split_record merge_owner_locks sort_key key_le merge_sorted
    merge_from can_merge extend sort_by insert conflicts ranges_overlap
taken = locked (session_of 1) 7 (lock_of 10 20 write) false (omega arith) refl

given_back : Step one_lock two_locks
unfolding set_lock check_set_lock lock_loop attempt_lock require_writable open_handle lookup_handle
    validate_lock validate_lock_access first_conflict min_by_start replace_owner_range
    proposed_locks split_records split_record merge_owner_locks sort_key key_le merge_sorted
    merge_from can_merge extend sort_by insert conflicts ranges_overlap
given_back = locked (session_of 1) 7 (lock_of 12 14 unlock) false (omega arith) refl

one_lock-IsTable : IsTable one_lock
one_lock-IsTable = Reach-nil-IsTable (next here taken)

Reach-nil-IsTable_example : IsTable two_locks
Reach-nil-IsTable_example = Reach-nil-IsTable (next (next here taken) given_back)

replace_owner_range_lem_example :
    ((c : Claim) (x : ℕ)
      → held two_locks c x ≡ replaced one_lock the_file 1 (lock_of 12 14 unlock) false c x)
    × All IsRange two_locks
    × (length two_locks ≤ max_lock_records)
unfolding set_lock check_set_lock lock_loop attempt_lock require_writable open_handle lookup_handle
    validate_lock validate_lock_access first_conflict min_by_start replace_owner_range
    proposed_locks split_records split_record merge_owner_locks sort_key key_le merge_sorted
    merge_from can_merge extend sort_by insert conflicts ranges_overlap
replace_owner_range_lem_example =
    replace_owner_range_lem one_lock the_file 1 (lock_of 12 14 unlock) false two_locks (omega arith)
      (omega arith) (record { ordered = omega arith; bounded = omega arith }, tt) refl

held-close_example :
    ((c : Claim) (x : ℕ) → held [] c x ≡ (held two_locks c x && not (of_file 1 the_file c)))
    × (lookup_handle 7 [] ≡ none)
unfolding set_lock check_set_lock lock_loop attempt_lock require_writable open_handle lookup_handle
    validate_lock validate_lock_access first_conflict min_by_start replace_owner_range
    proposed_locks split_records split_record merge_owner_locks sort_key key_le merge_sorted
    merge_from can_merge extend sort_by insert conflicts ranges_overlap close remove_locks
    remove_handle
held-close_example =
    held-close (session_of 1) two_locks 7 opened_file (record (session_of 1) { handles = [] }) []
      refl refl

get_lock_free_example :
    (set_lock (session_of 2) (two_locks ∷ []) 7 (lock_of 12 14 read) false ≢ refused would_block)
    × (set_lock (session_of 2) (two_locks ∷ []) 7 (lock_of 12 14 read) false ≢ waiting)
unfolding set_lock check_set_lock lock_loop attempt_lock require_writable open_handle lookup_handle
    validate_lock validate_lock_access first_conflict min_by_start replace_owner_range
    proposed_locks split_records split_record merge_owner_locks sort_key key_le merge_sorted
    merge_from can_merge extend sort_by insert conflicts ranges_overlap get_lock
get_lock_free_example = get_lock_free (session_of 2) two_locks [] 7 (lock_of 12 14 read) false refl
