-- ===== src/Server/Config.antt =====
-- The limits in Serve, and validate_configuration, of servers/linux/server-daemon/src/main.rs.
-- `max_permits` is tokio's Semaphore::MAX_PERMITS; usize has 64 bits, so a u64 converts to it.
use quic_kfs.Prelude.{ℕ, ◌-◌, Bool, true, false, ◌||◌, Option, none, some, ltb, ◌==◌}
use quic_kfs.Server.Transfer.{u32_max}

pub record Serve : Type 0 where
  pub max_read_size : ℕ
  pub max_write_size : ℕ
  pub max_open_handles : ℕ
  pub max_known_nodes_per_connection : ℕ
  pub max_total_known_nodes : ℕ
  pub max_directory_entry_tasks : ℕ
  pub request_timeout_ms : ℕ
  pub max_concurrent_requests : ℕ
  pub max_in_flight_read_bytes : ℕ
  pub max_in_flight_write_bytes : ℕ
  pub max_in_flight_write_bytes_per_connection : ℕ
  pub max_concurrent_connections : ℕ
  pub max_concurrent_auth : ℕ
  pub auth_attempts_per_minute : ℕ

-- One for each `bail!`.
pub data Invalid : Type 0 where
  read_size write_size open_handles nodes_per_connection total_nodes timeout : Invalid
  entry_tasks concurrent_requests read_budget write_budgets read_beyond_budget : Invalid
  write_beyond_budgets connection_beyond_global beyond_permits connections : Invalid
  concurrent_auth no_attempts many_attempts : Invalid

-- `if condition { bail!(..) }`, then the rest.
abbrev pub bail_if : Bool → Invalid → Option Invalid → Option Invalid
bail_if true e rest = some e
bail_if false e rest = rest

unfoldable pub validate_configuration : ℕ → Serve → Option Invalid
validate_configuration max_permits c = bail_if (c.max_read_size == 0) read_size (
    bail_if (c.max_write_size == 0) write_size (
      bail_if (c.max_open_handles == 0) open_handles (
        bail_if (c.max_known_nodes_per_connection == 0) nodes_per_connection (
          bail_if
            (c.max_total_known_nodes == 0
              || ltb c.max_total_known_nodes (c.max_known_nodes_per_connection - 1))
            total_nodes
            (bail_if (c.request_timeout_ms == 0) timeout (
              bail_if (c.max_directory_entry_tasks == 0) entry_tasks (
                bail_if (c.max_concurrent_requests == 0) concurrent_requests (
                  bail_if (c.max_in_flight_read_bytes == 0) read_budget (
                    bail_if
                      (c.max_in_flight_write_bytes == 0
                        || c.max_in_flight_write_bytes_per_connection == 0)
                      write_budgets
                      (bail_if
                        (ltb u32_max c.max_read_size
                          || ltb c.max_in_flight_read_bytes c.max_read_size)
                        read_beyond_budget
                        (bail_if
                          (ltb u32_max c.max_write_size
                            || ltb c.max_in_flight_write_bytes c.max_write_size
                            || ltb c.max_in_flight_write_bytes_per_connection c.max_write_size)
                          write_beyond_budgets
                          (bail_if
                            (ltb c.max_in_flight_write_bytes
                              c.max_in_flight_write_bytes_per_connection)
                            connection_beyond_global
                            (bail_if
                              (ltb max_permits c.max_open_handles
                                || ltb max_permits c.max_known_nodes_per_connection
                                || ltb max_permits c.max_total_known_nodes
                                || ltb max_permits c.max_directory_entry_tasks
                                || ltb max_permits c.max_concurrent_requests
                                || ltb max_permits c.max_concurrent_connections
                                || ltb max_permits c.max_concurrent_auth
                                || ltb max_permits c.max_in_flight_read_bytes
                                || ltb max_permits c.max_in_flight_write_bytes
                                || ltb max_permits c.max_in_flight_write_bytes_per_connection)
                              beyond_permits
                              (bail_if (c.max_concurrent_connections == 0) connections (
                                bail_if (c.max_concurrent_auth == 0) concurrent_auth (
                                  bail_if (c.auth_attempts_per_minute == 0) no_attempts (
                                    bail_if (ltb 1000 c.auth_attempts_per_minute) many_attempts
                                      none)))))))))))))))))
