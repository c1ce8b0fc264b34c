-- ===== src/Examples/Clients.antt =====
-- A resilient client at work, on a network whose world is the number of the writes that were sent.
use quic_kfs.Prelude.{
  ℕ, ◌+◌, ◌≤◌, ◌≡◌, refl, false, none, some, [], ◌∷◌, map, arith, leb, if◌then◌else◌,
}
use quic_kfs.Protocol.Access.{ErrorCode, FileAccess}
use quic_kfs.Protocol.Version.{version_major}
use quic_kfs.Server.Views.{shed, write_directory_view}
use quic_kfs.Client.Network.{
  transport, server, offline, err, ok, Call, Network, RemoteFilesystem, WriteResult,
}
use quic_kfs.Client.Connection.{
  ReconnectPolicy, ConnectionSlot, HandleState, Resilient, healthy_connection, new, begin, epoch_of,
  capability_epoch, cooling, follow, current, reconnect_after, connect_loop, attempt, connect_turn,
  perform, connected, give, check_epoch, adopt, fail, give_up, pure, update,
}
use quic_kfs.Client.Connection
use quic_kfs.Client.Calls.{
  mutation_call, remote_handle, lookup, known_handle, handle_state, may_adopt, modify, reopen,
  replay_locks, settle_revision, take_over, update_handles,
}
use quic_kfs.Client.Files.{write_range}
use quic_kfs.Client.Sessions.{Method, call_all}
use quic_kfs.Client.Epochs.{IsSameServer, last_generation}
use quic_kfs.Client.SameServer.{call_all-IsSameServer}
use quic_kfs.Client.Outcomes.{IsQuiet, Fate, mutation_call-Fate, write_range-Fate}
use quic_kfs.Client.Cooldown.{healthy_connection-shared, healthy_connection-connects}
use quic_kfs.Client.Reopen.{IsCurrent, remote_handle-IsCurrent}
use quic_kfs.Client.Directories.{list_directory_view_streamed}
use quic_kfs.Client.RoundTrip.{enclose, list_directory_view_round_trip}
use quic_kfs.Examples.Daemon.{the_capabilities}
use quic_kfs.Examples.Answers.{big_view, size_of_entry}

abbrev unsupported : {A : Type 0} → Call ℕ A
unsupported w = (w, err (server ErrorCode.not_supported))

-- The third write and what follows it are lost.
abbrev toy_write : Call ℕ WriteResult
toy_write w =
    (w + 1, if leb 2 w then err transport else ok (record { written = 1; revision = 6; size = 11 }))

abbrev toy_remote : RemoteFilesystem ℕ ℕ
toy_remote = record {
  ping = λ f nonce w. (w, ok nonce);
  capabilities = λ f w. (w, ok the_capabilities);
  stat_filesystem = λ f. unsupported;
  get_metadata = λ f node. unsupported;
  list_directory_snapshot = λ f node. unsupported;
  list_directory_view = λ f node options. unsupported;
  open_file_with_options =
      λ f node options w. (w, ok (record { handle = 3; revision = 5; size = 10 }));
  create_file = λ f parent name mode options. unsupported;
  create_directory = λ f parent name mode. unsupported;
  create_symlink = λ f parent name target. unsupported;
  create_hard_link = λ f node parent name. unsupported;
  create_special_node = λ f parent name kind mode major minor. unsupported;
  remove_node = λ f parent name directory. unsupported;
  rename_node = λ f parent name new_parent new_name mode. unsupported;
  read_link = λ f node. unsupported;
  set_attributes = λ f node handle' changes. unsupported;
  read_range_versioned = λ f remote offset n. unsupported;
  write_range = λ f remote offset bytes. toy_write;
  flush_file = λ f remote owner. unsupported;
  sync_file = λ f remote data_only. unsupported;
  sync_directory = λ f node. unsupported;
  allocate_file = λ f remote offset n. unsupported;
  get_xattr = λ f node name offset n. unsupported;
  set_xattr = λ f node name value mode position. unsupported;
  list_xattrs = λ f node. unsupported;
  remove_xattr = λ f node name. unsupported;
  copy_file_range = λ f input input_offset output output_offset n. unsupported;
  seek_file = λ f remote offset whence. unsupported;
  safe_ioctl = λ f remote operation. unsupported;
  map_block = λ f node block_size block. unsupported;
  exchange_data = λ f parent name new_parent new_name options. unsupported;
  set_volume_name = λ f name. unsupported;
  forget_nodes = λ f nodes. unsupported;
  get_lock = λ f remote lock. unsupported;
  set_lock = λ f remote lock wait. unsupported;
  close_file = λ f remote w. (w, ok tt);
}

abbrev toy_network : Network ℕ ℕ
toy_network = record {
  connect = λ w. (w, ok 8);
  remote = toy_remote;
  sleep = λ d w. w;
  now = λ w. w;
  new_v4 = λ w. (w, 40);
}

-- The same with nobody to connect to.
abbrev no_network : Network ℕ ℕ
no_network = record toy_network { connect = λ w. (w, err transport) }

abbrev toy_policy : ReconnectPolicy
toy_policy = record { attempts = 3; initial_backoff = 100; maximum_backoff = 2000 }

abbrev fresh_client : Resilient ℕ ℕ
fresh_client = record {
  policy = toy_policy;
  connection = record { generation = 1; filesystem = 7 };
  last_failure = none;
  failed_generation = 0;
  server_epoch = some 1;
  handles = [];
  world = 0;
}

-- A handle for writing of the first connection.
abbrev old_handle : HandleState
old_handle = record {
  node = 2;
  options = record { access = FileAccess.read_write; truncate = false; append = false };
  remote = 9;
  revision = 5;
  size = 4;
  generation = 1;
  lock_history = [];
}

-- A client whose first connection failed after two writes.
abbrev cut_off : Resilient ℕ ℕ
cut_off = record fresh_client { failed_generation = 1; handles = (40, old_handle) ∷ []; world = 2 }

quiet : IsQuiet toy_network (λ w. w)
quiet = record {
  connects = λ w. omega arith;
  asks = λ f w. omega arith;
  opens = λ f node options w. omega arith;
  closes = λ f remote w. omega arith;
  locks = λ f remote lock w. omega arith;
  sleeps = λ d w. omega arith;
  names = λ w. omega arith;
}

call_all-IsSameServer_example :
    let t =
      call_all toy_network (Method.write_range 40 0 (1 ∷ []) ∷ Method.ping 4 ∷ []) fresh_client in
    (t.policy ≡ toy_policy)
    × (t.server_epoch ≡ some 1)
    × (1 ≤ t.connection.generation)
    × (t.connection.generation ≤ last_generation)
    × IsSameServer toy_network t
unfolding new begin epoch_of
call_all-IsSameServer_example =
    call_all-IsSameServer toy_network 7 toy_policy 0 fresh_client
      (Method.write_range 40 0 (1 ∷ []) ∷ Method.ping 4 ∷ []) refl

mutation_call-Fate_example :
    Fate toy_network
      (λ w. w)
      quiet
      (λ r. (f : ℕ) × (w : ℕ) × ((toy_write w).1 ≡ r))
      cut_off
      (mutation_call toy_network (λ f. toy_write) cut_off)
mutation_call-Fate_example =
    mutation_call-Fate toy_network (λ w. w) quiet (λ f. toy_write) (λ f w. omega arith) cut_off

write_range-Fate_example :
    Fate toy_network
      (λ w. w)
      quiet
      (λ r. (f : ℕ) × (remote : ℕ) × (w : ℕ) × ((toy_write w).1 ≡ r))
      cut_off
      (write_range toy_network 40 0 (1 ∷ []) cut_off)
write_range-Fate_example =
    write_range-Fate toy_network (λ w. w) quiet 40 0 (1 ∷ []) (λ f remote w. omega arith) cut_off

healthy_connection-shared_example :
    ((healthy_connection no_network cut_off).1 ≡ err offline)
    × (healthy_connection no_network
          (record (healthy_connection no_network cut_off).0 { world = 3 })
        ≡ (record (healthy_connection no_network cut_off).0 { world = 3 }, err offline))
unfolding cooling
healthy_connection-shared_example =
    healthy_connection-shared no_network (λ w. refl) cut_off 3 refl (omega arith) refl (omega arith)

-- Nobody answers, and every attempt to connect is counted.
abbrev unanswered : Network ℕ ℕ
unanswered = record toy_network { connect = λ w. (w + 1, err transport) }

healthy_connection-connects_example : (healthy_connection unanswered cut_off).0.world ≤ 5
healthy_connection-connects_example =
    healthy_connection-connects unanswered (λ w. w) (λ w. omega arith) (λ f w. omega arith)
      (λ d w. omega arith) cut_off

remote_handle-IsCurrent_example :
    IsCurrent toy_network old_handle
      (record { generation = 2; filesystem = 8 })
      (record old_handle { remote = 3; size = 10; generation = 2 })
unfolding remote_handle lookup Connection.◌>>=◌ follow healthy_connection current reconnect_after
    cooling connect_loop attempt connect_turn perform connected capability_epoch give epoch_of
    check_epoch known_handle handle_state may_adopt modify reopen replay_locks settle_revision
    take_over update_handles adopt fail give_up pure update
remote_handle-IsCurrent_example =
    remote_handle-IsCurrent toy_network 40 old_handle
      (record old_handle { remote = 3; size = 10; generation = 2 })
      (record { generation = 2; filesystem = 8 }) cut_off refl refl

-- A read-only handle without locks goes on at another revision.
abbrev read_handle : HandleState
read_handle = record old_handle {
  options = record { access = FileAccess.read_only; truncate = false; append = false };
  revision = 4;
}

newer_revision :
    (remote_handle toy_network 40 (record cut_off { handles = (40, read_handle) ∷ [] })).1
    ≡ ok (
      record { generation = 2; filesystem = 8 },
      record read_handle { remote = 3; revision = 5; size = 10; generation = 2 },
    )
unfolding remote_handle lookup Connection.◌>>=◌ follow healthy_connection current reconnect_after
    cooling connect_loop attempt connect_turn perform connected capability_epoch give epoch_of
    check_epoch known_handle handle_state may_adopt modify reopen replay_locks settle_revision
    take_over update_handles adopt fail give_up pure update
newer_revision = refl

list_directory_view_round_trip_example :
    list_directory_view_streamed 9
      (map (enclose 1540 9) (write_directory_view size_of_entry false big_view))
    ≡ ok (record big_view { entries = map (shed size_of_entry) big_view.entries })
unfolding version_major
list_directory_view_round_trip_example =
    list_directory_view_round_trip 1540 9 size_of_entry false big_view refl
      (omega arith, (omega arith, tt)) (omega arith)
