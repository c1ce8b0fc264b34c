-- ===== src/Server/Budgets.antt =====
-- The memory budgets of a configuration that validate_configuration of
-- servers/linux/server-daemon/src/main.rs accepts, and of the transfers under it.
use quic_kfs.Prelude.{ℕ, ◌≤◌, ◌<◌, ◌≡◌, none, [], take, arith}
use quic_kfs.Errors.{err, ServerError, protocol_code}
use quic_kfs.Protocol.Access.{ErrorCode}
use quic_kfs.Protocol.Messages.{Response}
use quic_kfs.Server.Config.{Serve, validate_configuration}
use quic_kfs.Server.Transfer.{u32_max, receive, answer, handle_write}
use quic_kfs.Server.Service.{Export, Server, Moment, respond}

-- What an accepted configuration has.
pub record IsValid (max_permits : ℕ) (c : Serve) : Type 0 where
  pub read :
      (0 < c.max_read_size)
      × (c.max_read_size ≤ c.max_in_flight_read_bytes)
      × (c.max_read_size ≤ u32_max)
  pub write :
      (0 < c.max_write_size)
      × (c.max_write_size ≤ c.max_in_flight_write_bytes_per_connection)
      × (c.max_write_size ≤ u32_max)
  pub budgets :
      (c.max_in_flight_write_bytes_per_connection ≤ c.max_in_flight_write_bytes)
      × (c.max_in_flight_write_bytes ≤ max_permits)
      × (c.max_in_flight_read_bytes ≤ max_permits)
  pub attempts : (0 < c.auth_attempts_per_minute) × (c.auth_attempts_per_minute ≤ 1000)

-- A configuration that is accepted reads and writes blocks of at least a byte that fit in a u32 and
-- in their memory budgets, has a connection's write budget within the global one, has budgets that
-- a semaphore can hold, and allows from 1 to 1000 logins a minute.
pub validate_configuration-IsValid :
    (max_permits : ℕ) (c : Serve)
    → validate_configuration max_permits c ≡ none
    → IsValid max_permits c
unfolding validate_configuration
validate_configuration-IsValid max_permits c h = record {
  read = ground arith;
  write = ground arith;
  budgets = ground arith;
  attempts = ground arith;
}

-- Under a configuration that is accepted, on a session with its write limit, and with both write
-- budgets idle, a write is told that the server is busy only if the export itself says so.
pub handle_write-busy :
    {S P : Type 0} (max_permits : ℕ) (c : Serve) (export : Export S) (m : Moment)
    (handle offset length' : ℕ) (s : Server S P)
    → validate_configuration max_permits c ≡ none
    → (export.capabilities s.export).max_write_size ≡ c.max_write_size
    → m.write_permits ≡ c.max_in_flight_write_bytes
    → m.connection_write_permits ≡ c.max_in_flight_write_bytes_per_connection
    → (handle_write export m handle offset length' s).1 ≡ respond (Response.error ErrorCode.busy) []
    → (export.write_owned handle offset (take length' m.incoming) s.export).1 ≡ err ServerError.busy
unfolding handle_write receive answer protocol_code
handle_write-busy max_permits c export m handle offset length' s valid limit idle idle' e =
    let v = validate_configuration-IsValid max_permits c valid in ground (arith, v.write, v.budgets)
