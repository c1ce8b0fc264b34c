-- ===== src/Checks/Agreement.antt =====
-- What the checks let pass, and that those of the daemon and of the export agree.
use quic_kfs.Prelude.{ℕ, ◌≡◌, Bool, ◌||◌, none, leb, if◌then◌else◌, arith}
use quic_kfs.Errors.{ServerError, ok, err, invalid_request}
use quic_kfs.Protocol.Access.{FileOpenOptions, can_write}
use quic_kfs.Server.Config.{Serve, validate_configuration}
use quic_kfs.Checks.{Limits, validate_limits, validate_open_options}

-- The limits that the daemon gives the export.
unfoldable pub limits_of : Serve → Limits
limits_of c = record {
  max_read_size = c.max_read_size;
  max_write_size = c.max_write_size;
  max_open_handles = c.max_open_handles;
  max_known_nodes = c.max_known_nodes_per_connection;
  max_total_known_nodes = c.max_total_known_nodes;
  max_directory_entry_tasks = c.max_directory_entry_tasks;
  request_timeout_ms = c.request_timeout_ms;
}

-- The export accepts the limits of a configuration that the daemon accepts exactly if the nodes of
-- one connection are no more than the total.
validate_limits-limits_of :
    (max_permits : ℕ) (c : Serve)
    → validate_configuration max_permits c ≡ none
    → validate_limits max_permits (limits_of c) ≡ (
        if leb c.max_known_nodes_per_connection c.max_total_known_nodes
        then ok tt
        else err invalid_request)
unfolding validate_limits limits_of validate_configuration
validate_limits-limits_of max_permits c h = ground arith

-- Options are accepted exactly if they write nothing, or the session may write.
pub validate_open_options_lem :
    (options : FileOpenOptions) (writable : Bool)
    → validate_open_options options writable ≡ (
        if can_write options.access
        then if writable then ok tt else err ServerError.read_only
        else if options.truncate || options.append
        then err invalid_request
        else ok tt)
unfolding validate_open_options
validate_open_options_lem options writable = ground arith
