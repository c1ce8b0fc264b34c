-- ===== src/Examples/Wire.antt =====
-- Versions and frames at work, with an encoding of numbers as lists of one byte, and a compression
-- that keeps one byte of the encoding.
use quic_kfs.Prelude.{
  ℕ, zero, suc, subst, ◌≤◌, ◌≡◌, refl, Bool, true, Option, none, some, List, [], ◌∷◌, arith, length,
}
use quic_kfs.Protocol.Frame.{
  max_frame_size, Coded, Envelope, Frame, Postcard, Zstd, encode_frame, parse_frame_header,
  decode_frame,
}
use quic_kfs.Protocol.Transport.{encode_frame_round_trip}
use quic_kfs.Server.Config.{Serve}

abbrev repeat : ℕ → ℕ → List ℕ
repeat zero b = []
repeat (suc n) b = b ∷ repeat n b

abbrev first_byte : List ℕ → Option ℕ
first_byte [] = none
first_byte (b ∷ bs) = some b

-- A number is encoded as 1100 bytes, and 1100 equal bytes are compressed to one.
abbrev toy_postcard : Postcard ℕ
toy_postcard = record { to_bytes = λ n. some (repeat 1100 n); from_bytes = first_byte }

abbrev shrink : List ℕ → Option (List ℕ)
shrink [] = none
shrink (b ∷ bs) = some (b ∷ [])

abbrev grow : List ℕ → ℕ → Option (List ℕ)
grow [] n = none
grow (b ∷ bs) n = some (repeat 1100 b)

abbrev toy_zstd : Zstd
toy_zstd = record { compress = shrink; decompress = grow }

some-injective : {a b : List ℕ} → some a ≡ some b → a ≡ b
some-injective e = cc

encode_frame_round_trip_example :
    (frame : Frame) × (compressed : Bool) × (encode_frame toy_zstd toy_postcard 7 true
      ≡ Coded.ok frame)
    × (parse_frame_header frame.prefix ≡ Coded.ok (compressed, length frame.body))
    × (length frame.body ≤ max_frame_size)
    × (decode_frame toy_zstd toy_postcard compressed frame.body ≡ Coded.ok 7)
encode_frame_round_trip_example =
    encode_frame_round_trip toy_zstd toy_postcard 7 (repeat 1100 7) true refl (omega arith) refl
      (λ compressed e.
        subst (λ c. grow c max_frame_size ≡ some (repeat 1100 7)) (some-injective e) refl)

-- A message is one byte, at version 6.4.
abbrev first_message : List ℕ → Option (Envelope ℕ)
first_message [] = none
first_message (b ∷ bs) = some (record { version = 1540; payload = b })

abbrev toy_messages : Postcard (Envelope ℕ)
toy_messages = record { to_bytes = λ m. some (m.payload ∷ []); from_bytes = first_message }

abbrev pub default_limits : Serve
default_limits = record {
  max_read_size = 16777216;
  max_write_size = 8388608;
  max_open_handles = 1024;
  max_known_nodes_per_connection = 131072;
  max_total_known_nodes = 524288;
  max_directory_entry_tasks = 64;
  request_timeout_ms = 120000;
  max_concurrent_requests = 128;
  max_in_flight_read_bytes = 134217728;
  max_in_flight_write_bytes = 67108864;
  max_in_flight_write_bytes_per_connection = 16777216;
  max_concurrent_connections = 256;
  max_concurrent_auth = 4;
  auth_attempts_per_minute = 30;
}

-- The same, with one node too many for the export.
abbrev one_node_more : Serve
one_node_more = record default_limits { max_known_nodes_per_connection = 524289 }
