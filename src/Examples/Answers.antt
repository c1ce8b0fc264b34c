-- ===== src/Examples/Answers.antt =====
-- The answers of the daemon at work: pairings, batches, writes, views, and the limits.
use quic_kfs.Prelude.{
  ℕ, ◌+◌, ◌-◌, ◌≤◌, ◌≡◌, refl, true, false, none, some, List, [], ◌∷◌, arith, All, map, u64_max,
}
use quic_kfs.Errors.{ok, err, ServerError, protocol_code}
use quic_kfs.Protocol.Messages.{Metadata, file, DirectoryViewEntry, DirectoryView, Response}
use quic_kfs.Server.RateLimit.{auth_rate_window}
use quic_kfs.Server.Occupancy.{IsLimiter}
use quic_kfs.Server.Window.{recent, times_of, run, run-new-IsLimiter}
use quic_kfs.Server.Service.{Loaded}
use quic_kfs.Server.Login.{handle_pair, consume}
use quic_kfs.Server.Transfer.{answer, receive, handle_write}
use quic_kfs.Server.Transfers.{handle_pair-proof, handle_write_complete}
use quic_kfs.Server.Views.{shed, chunk_frames, stream_directory_view}
use quic_kfs.Server.Chunks.{received, IsChunk, stream_directory_view_lem}
use quic_kfs.Server.Config.{validate_configuration}
use quic_kfs.Server.Budgets.{IsValid, validate_configuration-IsValid, handle_write-busy}
use quic_kfs.Examples.Daemon.{toy_export, toy_auth, toy_moment, server_with}
use quic_kfs.Examples.Wire.{default_limits}

run-new-IsLimiter_example :
    IsLimiter (run 1 ((100000000000, 7) ∷ (90000000000, 7) ∷ (60000000000, 8) ∷ [])).0
    × (recent
          (100000000000 - auth_rate_window)
          (times_of 7 (run 1 ((100000000000, 7) ∷ (90000000000, 7) ∷ (60000000000, 8) ∷ [])).1)
        ≤ 1)
run-new-IsLimiter_example =
    run-new-IsLimiter 1 100000000000 7 7 ((90000000000, 7) ∷ (60000000000, 8) ∷ []) (
      omega arith,
      (omega arith, (omega arith, tt)),
      (omega arith, (omega arith, tt), (omega arith, tt, tt)),
    )

abbrev print : List ℕ
print = 8 ∷ []

handle_pair-proof_example :
    (key : ℕ) × (toy_auth.load_pairing 9 (some 4) ≡ Loaded.secret key)
    × (toy_auth.verify_client_proof key 9 [] [] (1 ∷ 2 ∷ 3 ∷ 4 ∷ []) ≡ true)
    × (toy_auth.server_proof key 9 [] [] ≡ some (4 ∷ []))
    × (toy_auth.consume_pairing 9 (some 4)
        ≡ some
            (handle_pair toy_export toy_auth print 9 []
              (1 ∷ 2 ∷ 3 ∷ 4 ∷ [])
              (server_with 0 false 0)).0.pairings)
    × (print ≡ print)
unfolding handle_pair consume
handle_pair-proof_example =
    handle_pair-proof toy_export toy_auth print 9 [] (1 ∷ 2 ∷ 3 ∷ 4 ∷ []) print (4 ∷ [])
      (server_with 0 false 0) refl

handle_write_complete_example :
    (true ≡ true)
    × (2 ≤ 8388608)
    × (10 + 2 ≤ u64_max)
    × (2 ≤ 67108864)
    × (2 ≤ 16777216)
    × (2 ≤ 3)
    × (toy_export.write_owned 7 10 (1 ∷ 2 ∷ []) 40 ≡ (
      (handle_write toy_export toy_moment 7 10 2 (server_with 40 true 0)).0.export,
      ok (2, 1, 40),
    ))
unfolding handle_write receive answer
handle_write_complete_example =
    handle_write_complete toy_export toy_moment 7 10 2 2 1 40 (server_with 40 true 0) refl

validate_configuration-IsValid_example : IsValid 2305843009213693951 default_limits
unfolding validate_configuration
validate_configuration-IsValid_example =
    validate_configuration-IsValid 2305843009213693951 default_limits refl

handle_write-busy_example :
    (toy_export.write_owned 7 0 (1 ∷ 2 ∷ 3 ∷ []) 100).1 ≡ err ServerError.busy
unfolding validate_configuration handle_write receive answer protocol_code
handle_write-busy_example =
    handle_write-busy 2305843009213693951 default_limits toy_export toy_moment 7 0 3
      (server_with 100 true 0) refl refl refl refl refl

abbrev no_metadata : Metadata
no_metadata = record {
  node = 3;
  kind = file;
  size = 0;
  mode = 0;
  allocated_blocks = 0;
  revision = 1;
  accessed_unix_ms = 0;
  modified_unix_ms = 0;
  created_unix_ms = none;
  backup_unix_ms = none;
  link_count = 1;
  device_major = 0;
  device_minor = 0;
}

abbrev view_entry : ℕ → DirectoryViewEntry
view_entry node = record {
  entry = record { node = node; name = []; kind = file; metadata = no_metadata };
  xattrs = some (record { names = []; inline_values = [] });
}

-- Each entry takes 600000 bytes.
abbrev pub size_of_entry : DirectoryViewEntry → ℕ
size_of_entry e = 600000

abbrev pub big_view : DirectoryView
big_view = record {
  revision = 1;
  directory = no_metadata;
  parent = no_metadata;
  xattrs = none;
  entries = view_entry 4 ∷ view_entry 5 ∷ [];
}

stream_directory_view_lem_example :
    (received (stream_directory_view size_of_entry big_view)
      ≡ map (shed size_of_entry) big_view.entries)
    × ((chunks : List (List DirectoryViewEntry)) × (stream_directory_view size_of_entry big_view
          ≡ Response.directory_view_start 1 no_metadata no_metadata none 2 ∷ chunk_frames chunks)
        × All (IsChunk size_of_entry) chunks)
stream_directory_view_lem_example =
    stream_directory_view_lem size_of_entry big_view (omega arith, (omega arith, tt))
