-- ===== src/Examples/Daemon.antt =====
-- The daemon at work, on an export that is the sum of what was written to it.
use quic_kfs.Prelude.{
  ℕ, ◌+◌, refl, Bool, true, false, Option, none, some, List, [], ◌∷◌, arith, length, leb, ◌==◌,
  if◌then◌else◌,
}
use quic_kfs.Errors.{ok, err, ServerError}
use quic_kfs.Protocol.Messages.{FilesystemCapabilities, Request, Response}
use quic_kfs.Server.RateLimit.{new}
use quic_kfs.Server.Service.{Action, Export, Auth, Server, Moment, Loaded, Verified}
use quic_kfs.Server.Handle.{handle}
use quic_kfs.Server.Gate.{Gate, handle-Gate}
use quic_kfs.Server.Sessions.{
  Arrival, IsOutside, serve_all, serve_all-locked_out, serve_all-no_login,
}

abbrev pub unsupported : {A : Type 0} → Action ℕ A
unsupported s = (s, err ServerError.not_supported)

abbrev pub the_capabilities : FilesystemCapabilities
the_capabilities = record {
  server_epoch = 1;
  writable = true;
  supports_locks = true;
  supports_atomic_rename = true;
  supports_directory_sync = true;
  supports_preallocation = true;
  supports_symlinks = true;
  supports_xattrs = true;
  supports_hard_links = true;
  supports_special_nodes = true;
  supports_copy_file_range = true;
  supports_seek_data_hole = true;
  supports_safe_ioctl = true;
  supports_poll = true;
  supports_bmap = true;
  supports_exchange_data = true;
  supports_volume_rename = true;
  supports_backup_time = true;
  supports_readdirplus = true;
  persistent_node_ids = false;
  restart_lock_replay = false;
  volume_name = [];
  max_read_size = 16777216;
  max_write_size = 8388608;
}

-- A write adds its length; a full export is busy.
abbrev pub toy_export : Export ℕ
toy_export = record {
  set_write_authorized = λ w s. s;
  capabilities = λ s. the_capabilities;
  stat_filesystem = unsupported;
  metadata = λ node. unsupported;
  list_with_revision = λ node. unsupported;
  directory_view = λ node options. unsupported;
  open_file = λ node options. unsupported;
  create_file = λ parent name mode options. unsupported;
  create_directory = λ parent name mode. unsupported;
  create_symlink = λ parent name target. unsupported;
  remove_node = λ parent name directory. unsupported;
  rename_node = λ parent name new_parent new_name mode. unsupported;
  create_hard_link = λ node new_parent new_name. unsupported;
  create_special_node = λ parent name kind mode device_major device_minor. unsupported;
  read_link = λ node. unsupported;
  set_attributes = λ node handle' changes. unsupported;
  read = λ handle' offset n. unsupported;
  write_owned = λ handle' offset data' s.
      if leb 100 s then (s, err ServerError.busy) else (s + length data', ok (length data', 1, s));
  flush = λ handle' owner. unsupported;
  sync = λ handle' data_only. unsupported;
  sync_directory = λ node. unsupported;
  allocate = λ handle' offset n. unsupported;
  get_xattr = λ node name offset n. unsupported;
  set_xattr = λ node name data' mode position. unsupported;
  list_xattrs = λ node. unsupported;
  remove_xattr = λ node name. unsupported;
  copy_file_range = λ input input_offset output output_offset n. unsupported;
  seek_file = λ handle' offset whence. unsupported;
  safe_ioctl = λ handle' operation. unsupported;
  map_block = λ node block_size block. unsupported;
  exchange_data = λ parent name new_parent new_name options. unsupported;
  set_volume_name = λ name. unsupported;
  forget_nodes = λ nodes. unsupported;
  get_lock = λ handle' lock. unsupported;
  set_lock = λ handle' lock wait. unsupported;
  close = λ handle'. unsupported;
}

-- One pairing record, number 9, with the secret 4; no users.
abbrev pub toy_load : ℕ → Option ℕ → Loaded ℕ
toy_load id none = Loaded.unavailable
toy_load id (some key) = Loaded.secret key

abbrev pub toy_consume : ℕ → Option ℕ → Option (Option ℕ)
toy_consume id none = none
toy_consume id (some key) = some none

abbrev pub toy_auth : Auth (Option ℕ) ℕ
toy_auth = record {
  load_pairing = toy_load;
  verify_client_proof = λ key id print nonce proof. length proof == key;
  server_proof = λ key id print nonce. some (key ∷ []);
  consume_pairing = toy_consume;
  verify_user_authorization = λ username password. Verified.rejected;
}

abbrev pub toy_moment : Moment
toy_moment = record {
  now = 100000000000;
  peer_ip = 1;
  auth_permit = true;
  write_permits = 67108864;
  connection_write_permits = 16777216;
  incoming = 1 ∷ 2 ∷ 3 ∷ [];
}

abbrev pub server_with : ℕ → Bool → ℕ → Server ℕ (Option ℕ)
server_with total authenticated failed_attempts = record {
  export = total;
  pairings = some 4;
  auth_state = record { authenticated = authenticated; failed_attempts = failed_attempts };
  auth_limiter = new 30;
}

abbrev pub all_fit : Response → Bool
all_fit r = true

-- A login, a write and a request of another major version.
abbrev arrivals : List Arrival
arrivals =
    record {
      moment = toy_moment;
      version = 1540;
      request = Request.authenticate (97 ∷ []) (97 ∷ []);
    }
    ∷ record { moment = toy_moment; version = 1540; request = Request.write_range 7 0 3 }
    ∷ record { moment = toy_moment; version = 300; request = Request.get_capabilities }
    ∷ []

handle-Gate_example :
    Gate toy_export toy_auth [] all_fit toy_moment
      (Request.write_range 7 0 3)
      (server_with 0 false 0)
      (handle toy_export toy_auth [] all_fit toy_moment 1540
        (Request.write_range 7 0 3)
        (server_with 0 false 0))
handle-Gate_example =
    handle-Gate toy_export toy_auth [] all_fit toy_moment 1540 (Request.write_range 7 0 3)
      (server_with 0 false 0) refl

serve_all-locked_out_example :
    IsOutside 0 (serve_all toy_export toy_auth [] all_fit arrivals (server_with 0 false 5))
serve_all-locked_out_example =
    serve_all-locked_out toy_export toy_auth [] all_fit arrivals 0 (server_with 0 false 5)
      (record { same = refl; out = refl }) (omega arith)

serve_all-no_login_example :
    IsOutside 0 (serve_all toy_export toy_auth [] all_fit arrivals (server_with 0 false 0))
serve_all-no_login_example =
    serve_all-no_login toy_export toy_auth [] all_fit arrivals 0 (server_with 0 false 0)
      (record { same = refl; out = refl }) (λ username password w e. cc)
