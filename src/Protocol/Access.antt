-- ===== src/Protocol/Access.antt =====
-- FileAccess, FileOpenOptions, RenameMode and ErrorCode of crates/protocol/src/lib.rs.
use quic_kfs.Prelude.{Bool, true, false}

pub data FileAccess : Type 0 where
  read_only write_only read_write : FileAccess

abbrev pub can_read : FileAccess → Bool
can_read read_only = true
can_read write_only = false
can_read read_write = true

abbrev pub can_write : FileAccess → Bool
can_write read_only = false
can_write write_only = true
can_write read_write = true

pub record FileOpenOptions : Type 0 where
  pub access : FileAccess
  pub truncate : Bool
  pub append : Bool

pub data RenameMode : Type 0 where
  replace no_replace exchange : RenameMode

pub data ErrorCode : Type 0 where
  unauthenticated not_found permission_denied already_exists not_directory : ErrorCode
  is_directory not_empty no_attribute no_data not_tty read_only conflict : ErrorCode
  would_block no_space busy not_supported offline invalid_node invalid_handle : ErrorCode
  invalid_request unsupported_version too_large timeout internal : ErrorCode
