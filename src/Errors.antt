-- ===== src/Errors.antt =====
-- ServerError of crates/server-core/src/lib.rs, without the texts, and results that carry it.
use quic_kfs.Prelude.{Bool, true, false, Option, none, some, ◌≡◌, refl, ◌⊎◌, inl, inr}
use quic_kfs.Protocol.Access.{ErrorCode}

pub data ServerError : Type 0 where
  not_found permission_denied already_exists not_directory is_directory : ServerError
  not_empty no_attribute no_data not_tty read_only conflict would_block : ServerError
  no_space busy not_supported invalid_node invalid_handle invalid_request : ServerError
  too_many_handles too_many_nodes too_many_locks directory_too_large : ServerError
  state_unavailable task_failed io : ServerError

-- The code of ServerError::protocol.
unfoldable pub protocol_code : ServerError → ErrorCode
protocol_code not_found = ErrorCode.not_found
protocol_code permission_denied = ErrorCode.permission_denied
protocol_code already_exists = ErrorCode.already_exists
protocol_code not_directory = ErrorCode.not_directory
protocol_code is_directory = ErrorCode.is_directory
protocol_code not_empty = ErrorCode.not_empty
protocol_code no_attribute = ErrorCode.no_attribute
protocol_code no_data = ErrorCode.no_data
protocol_code not_tty = ErrorCode.not_tty
protocol_code read_only = ErrorCode.read_only
protocol_code conflict = ErrorCode.conflict
protocol_code would_block = ErrorCode.would_block
protocol_code no_space = ErrorCode.no_space
protocol_code busy = ErrorCode.busy
protocol_code not_supported = ErrorCode.not_supported
protocol_code invalid_node = ErrorCode.invalid_node
protocol_code invalid_handle = ErrorCode.invalid_handle
protocol_code invalid_request = ErrorCode.invalid_request
protocol_code too_many_handles = ErrorCode.too_large
protocol_code too_many_nodes = ErrorCode.too_large
protocol_code too_many_locks = ErrorCode.too_large
protocol_code directory_too_large = ErrorCode.too_large
protocol_code state_unavailable = ErrorCode.internal
protocol_code task_failed = ErrorCode.internal
protocol_code io = ErrorCode.internal

-- `Result<_, ServerError>`
pub data Result {ℓ} (A : Type ℓ) : Type ℓ where
  err : ServerError → Result A
  ok : A → Result A

-- `if condition { return Err(error); }`
abbrev pub fail_if : Bool → ServerError → Result (Unit {0})
fail_if true e = err e
fail_if false e = ok tt

infixl 5 ◌>>◌ ◌>>=◌
-- What follows a check.
abbrev pub ◌>>◌ {ℓ} : {A : Type ℓ} → Result (Unit {0}) → Result A → Result A
err e >> rest = err e
ok _ >> rest = rest

-- The operator `?`, and what follows it.
abbrev pub ◌>>=◌ {κ ℓ} : {A : Type κ} {B : Type ℓ} → Result A → (A → Result B) → Result B
err e >>= rest = err e
ok a >>= rest = rest a

-- Option::ok_or
abbrev pub ok_or {ℓ} : {A : Type ℓ} → Option A → ServerError → Result A
ok_or none e = err e
ok_or (some a) e = ok a

pub Result-cases {ℓ} :
    {A : Type ℓ} (r : Result A) → ((a : A) × (r ≡ ok a)) ⊎ ((e : ServerError) × (r ≡ err e))
Result-cases (ok a) = inl (a, refl)
Result-cases (err e) = inr (e, refl)

pub ok-injective {ℓ} : {A : Type ℓ} {a b : A} → ok a ≡ ok b → a ≡ b
ok-injective e = cc
