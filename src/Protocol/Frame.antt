-- ===== src/Protocol/Frame.antt =====
-- encode, decode, encode_frame, frame_body, parse_frame_header, decode_frame and decode_request of
-- crates/protocol/src/lib.rs. Serialisation (postcard) and compression (zstd) are parameters. A
-- byte is a number, and the prefix is a u32: flag and length share no bit, so the or is a sum.
use quic_kfs.Prelude.{
  ℕ, ◌+◌, ◌/◌, ◌%◌, Bool, not, Option, none, some, List, ltb, leb, ◌==◌, if◌then◌else◌, length,
}
use quic_kfs.Protocol.Version.{version_major, protocol_major}

abbrev pub max_frame_size : ℕ
max_frame_size = 1048576

abbrev pub frame_compressed_flag : ℕ
frame_compressed_flag = 2147483648

abbrev pub frame_compression_threshold : ℕ
frame_compression_threshold = 1024

pub data CodecError : Type 0 where
  too_large : ℕ → CodecError
  malformed : CodecError
  unsupported_version : ℕ → CodecError
  decompress : CodecError

pub data Coded {ℓ} (A : Type ℓ) : Type ℓ where
  ok : A → Coded A
  err : CodecError → Coded A

infixl 5 ◌>>=◌
abbrev pub ◌>>=◌ {ℓ κ} : {A : Type ℓ} {B : Type κ} → Coded A → (A → Coded B) → Coded B
ok a >>= f = f a
err e >>= f = err e

-- The error of an Option.
abbrev pub or_error {ℓ} : {A : Type ℓ} → Option A → CodecError → Coded A
or_error none e = err e
or_error (some a) e = ok a

pub record Envelope {ℓ} (A : Type ℓ) : Type ℓ where
  pub version : ℕ
  pub payload : A

pub record Frame : Type 0 where
  pub prefix : ℕ
  pub body : List ℕ

-- `postcard::to_allocvec` and `postcard::from_bytes` at one type.
pub record Postcard {ℓ} (A : Type ℓ) : Type ℓ where
  pub to_bytes : A → Option (List ℕ)
  pub from_bytes : List ℕ → Option A

-- `zstd::bulk::compress` at the program's level, and `zstd::bulk::decompress` with its bound.
pub record Zstd : Type 0 where
  pub compress : List ℕ → Option (List ℕ)
  pub decompress : List ℕ → ℕ → Option (List ℕ)

unfoldable pub encode {ℓ} : {A : Type ℓ} → Postcard A → A → Coded (List ℕ)
encode postcard value = do
  out ← or_error (postcard.to_bytes value) malformed
  if ltb max_frame_size (length out) then err (too_large (length out)) else ok out

unfoldable pub decode {ℓ} : {A : Type ℓ} → Postcard A → List ℕ → Coded A
decode postcard bytes =
    if ltb max_frame_size (length bytes)
    then err (too_large (length bytes))
    else or_error (postcard.from_bytes bytes) malformed

abbrev pub raw_frame : List ℕ → Frame
raw_frame payload = record { prefix = length payload % 4294967296; body = payload }

unfoldable pub frame_body : Zstd → List ℕ → Frame
frame_body zstd payload =
    if leb frame_compression_threshold (length payload)
    then elim (zstd.compress payload) [
      | none ↦ raw_frame payload
      | some compressed ↦
          if ltb (length compressed) (length payload)
          then record {
            prefix = length compressed % frame_compressed_flag + frame_compressed_flag;
            body = compressed;
          }
          else raw_frame payload
    ]
    else raw_frame payload

unfoldable pub encode_frame {ℓ} : {A : Type ℓ} → Zstd → Postcard A → A → Bool → Coded Frame
encode_frame zstd postcard value compress = do
  payload ← encode postcard value
  if compress then ok (frame_body zstd payload) else ok (raw_frame payload)

-- The flag is the top bit of the 32.
unfoldable pub parse_frame_header : ℕ → Coded (Bool × ℕ)
parse_frame_header prefix =
    let compressed = not ((prefix / frame_compressed_flag) % 2 == 0) in
    let length' = prefix % frame_compressed_flag in
    if ltb max_frame_size length' then err (too_large length') else ok (compressed, length')

unfoldable pub decode_frame {ℓ} : {A : Type ℓ} → Zstd → Postcard A → Bool → List ℕ → Coded A
decode_frame zstd postcard compressed body =
    if compressed
    then or_error (zstd.decompress body max_frame_size) decompress >>= decode postcard
    else decode postcard body

unfoldable pub decode_request {ℓ} :
    {A : Type ℓ} → Postcard (Envelope A) → List ℕ → Coded (Envelope A)
decode_request postcard bytes = do
  msg ← decode postcard bytes
  if version_major msg.version == protocol_major
      then ok msg
      else err (unsupported_version msg.version)
