-- ===== src/Checks.antt =====
-- Checks of requests and limits: Limits, validate_range and validate_filename of
-- crates/common/src/lib.rs, and validate_limits, validate_open_options, validate_name and
-- validate_xattr_name of crates/server-core/src/lib.rs.
pub mod Agreement
use quic_kfs.Prelude.{
  ℕ, ◌+◌, Bool, true, false, not, ◌&&◌, ◌||◌, Option, none, some, List, [], ◌∷◌, ltb, ◌==◌,
  if◌then◌else◌, length, any, checked_add,
}
use quic_kfs.Errors.{ServerError, invalid_request, Result, ok, err, ◌>>=◌, ◌>>◌, fail_if}
use quic_kfs.Protocol.Access.{FileOpenOptions, can_write}

pub record Limits : Type 0 where
  pub max_read_size : ℕ
  pub max_write_size : ℕ
  pub max_open_handles : ℕ
  pub max_known_nodes : ℕ
  pub max_total_known_nodes : ℕ
  pub max_directory_entry_tasks : ℕ
  pub request_timeout_ms : ℕ

-- Whether validate_range accepts.
unfoldable pub validate_range : ℕ → ℕ → ℕ → Bool
validate_range offset length' maximum =
    if ltb maximum length'
    then false
    else elim (checked_add offset length') [ none ↦ false | some _ ↦ true ]

-- `.` is 46 and `/` is 47.
unfoldable pub is_dots : List ℕ → Bool
is_dots (a ∷ []) = a == 46
is_dots (a ∷ b ∷ []) = a == 46 && b == 46
is_dots _ = false

abbrev pub is_empty : List ℕ → Bool
is_empty [] = true
is_empty (b ∷ bs) = false

-- Whether validate_filename accepts.
unfoldable pub validate_filename : List ℕ → Bool
validate_filename name =
    not (is_empty name || is_dots name || any (λ b. b == 47) name || any (λ b. b == 0) name)

unfoldable pub validate_name : List ℕ → Result (Unit {0})
validate_name name = fail_if (not (validate_filename name)) invalid_request

unfoldable pub validate_xattr_name : List ℕ → Result (Unit {0})
validate_xattr_name name =
    fail_if (is_empty name || ltb 255 (length name) || any (λ b. b == 0) name) invalid_request

-- `max_permits` is tokio's Semaphore::MAX_PERMITS.
unfoldable pub validate_limits : ℕ → Limits → Result (Unit {0})
validate_limits max_permits limits = do
  fail_if (limits.max_read_size == 0 || limits.max_write_size == 0) invalid_request
  fail_if (limits.max_open_handles == 0 || ltb max_permits limits.max_open_handles) invalid_request
  fail_if (limits.max_known_nodes == 0 || ltb max_permits limits.max_known_nodes) invalid_request
  fail_if
      (limits.max_total_known_nodes == 0
        || ltb max_permits limits.max_total_known_nodes
        || ltb limits.max_total_known_nodes limits.max_known_nodes)
      invalid_request
  fail_if
      (limits.max_directory_entry_tasks == 0 || ltb max_permits limits.max_directory_entry_tasks)
      invalid_request
  ok tt

unfoldable pub validate_open_options : FileOpenOptions → Bool → Result (Unit {0})
validate_open_options options writable = do
  fail_if ((options.truncate || options.append) && not (can_write options.access)) invalid_request
  fail_if (can_write options.access && not writable) ServerError.read_only
  ok tt
