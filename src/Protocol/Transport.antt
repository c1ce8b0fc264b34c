-- ===== src/Protocol/Transport.antt =====
-- A frame that encode_frame of crates/protocol/src/lib.rs makes is read back by
-- parse_frame_header and decode_frame.
use quic_kfs.Prelude.{
  ℕ, ◌+◌, ◌%◌, ◌≤◌, ◌<◌, ◌≡◌, refl, Bool, true, false, some, List, arith, ltb, leb, if◌then◌else◌,
  length, inl, inr, Bool-cases, Option-cases, ◌∙◌,
}
use quic_kfs.Protocol.Version.{version_major, protocol_major}
use quic_kfs.Protocol.Frame.{
  max_frame_size, frame_compressed_flag, Coded, Envelope, Frame, Postcard, Zstd, encode, decode,
  raw_frame, frame_body, encode_frame, parse_frame_header, decode_frame, decode_request,
}

-- A frame that carries a payload: its header is accepted and tells the length of its body, and its
-- body decodes the way the payload does.
pub record Carries {ℓ} {A : Type ℓ} (zstd : Zstd) (postcard : Postcard A) (payload : List ℕ)
    (frame : Frame) : Type ℓ where
  pub compressed : Bool
  pub header : parse_frame_header frame.prefix ≡ Coded.ok (compressed, length frame.body)
  pub bounded : length frame.body ≤ length payload
  pub body : decode_frame zstd postcard compressed frame.body ≡ decode postcard payload

module _ {ℓ} {A : Type ℓ} (zstd : Zstd) (postcard : Postcard A) where
  raw_frame_lem :
      (payload : List ℕ)
      → length payload ≤ max_frame_size
      → Carries zstd postcard payload (raw_frame payload)
  unfolding parse_frame_header decode_frame
  raw_frame_lem payload h = record {
    compressed = false;
    header = ground arith;
    bounded = omega arith;
    body = refl;
  }

  compressed_lem :
      (payload compressed : List ℕ)
      → length payload ≤ max_frame_size
      → length compressed < length payload
      → zstd.decompress compressed max_frame_size ≡ some payload
      → Carries zstd postcard payload (record {
        prefix = length compressed % frame_compressed_flag + frame_compressed_flag;
        body = compressed;
      })
  unfolding parse_frame_header decode_frame
  compressed_lem payload compressed h k e = record {
    compressed = true;
    header = ground arith;
    bounded = omega arith;
    body = rw e refl;
  }

  frame_body_lem :
      (payload : List ℕ)
      → length payload ≤ max_frame_size
      → ((compressed : List ℕ)
          → zstd.compress payload ≡ some compressed
          → zstd.decompress compressed max_frame_size ≡ some payload)
      → Carries zstd postcard payload (frame_body zstd payload)
  unfolding frame_body
  frame_body_lem payload h inverse = elim (Bool-cases (leb 1024 (length payload))) [
    | inr small ↦ rw small (raw_frame_lem payload h)
    | inl large ↦ elim (Option-cases (zstd.compress payload)) [
      | inl failed ↦ rw (large, failed) (raw_frame_lem payload h)
      | inr (compressed, e) ↦ elim (Bool-cases (ltb (length compressed) (length payload))) [
        | inr longer ↦ rw (large, e, longer) (raw_frame_lem payload h)
        | inl shorter ↦
            rw (large, e, shorter)
              (compressed_lem payload compressed h (ground arith) (inverse compressed e))
      ]
    ]
  ]

-- If a value is encoded to bytes within the frame limit, these bytes decode to the value, and what
-- zstd makes of them is decompressed to them within the limit, then the value is framed, the
-- header is accepted and tells the length of the body, the body is within the limit, and it decodes
-- to the value.
pub encode_frame_round_trip {ℓ} :
    {A : Type ℓ} (zstd : Zstd) (postcard : Postcard A) (value : A) (bytes : List ℕ)
    (compress : Bool)
    → postcard.to_bytes value ≡ some bytes
    → length bytes ≤ max_frame_size
    → postcard.from_bytes bytes ≡ some value
    → ((compressed : List ℕ)
        → zstd.compress bytes ≡ some compressed
        → zstd.decompress compressed max_frame_size ≡ some bytes)
    → (frame : Frame) × (compressed : Bool) × (encode_frame zstd postcard value compress
        ≡ Coded.ok frame)
      × (parse_frame_header frame.prefix ≡ Coded.ok (compressed, length frame.body))
      × (length frame.body ≤ max_frame_size)
      × (decode_frame zstd postcard compressed frame.body ≡ Coded.ok value)
unfolding encode_frame encode decode
encode_frame_round_trip zstd postcard value bytes compress encoded small decoded inverse =
    framed compress
  where
    within : ltb max_frame_size (length bytes) ≡ false
    within = ground arith

    decodes : decode postcard bytes ≡ Coded.ok value
    decodes = rw (decode, within, decoded) refl

    carried :
        (frame : Frame)
        → Carries zstd postcard bytes frame
        → (compressed : Bool) × (parse_frame_header frame.prefix
            ≡ Coded.ok (compressed, length frame.body))
          × (length frame.body ≤ max_frame_size)
          × (decode_frame zstd postcard compressed frame.body ≡ Coded.ok value)
    carried frame c = (c.compressed, c.header, omega (arith, c.bounded), c.body ∙ decodes)

    framed :
        (b : Bool)
        → (frame : Frame) × (compressed : Bool) × (encode_frame zstd postcard value b
            ≡ Coded.ok frame)
          × (parse_frame_header frame.prefix ≡ Coded.ok (compressed, length frame.body))
          × (length frame.body ≤ max_frame_size)
          × (decode_frame zstd postcard compressed frame.body ≡ Coded.ok value)
    framed true =
        let frame = frame_body zstd bytes in
        let (c, header, bounded, body) =
          carried frame (frame_body_lem zstd postcard bytes small inverse) in
        (frame, c, rw (encoded, within, encode_frame) refl, header, bounded, body)
    framed false =
        let frame = raw_frame bytes in
        let (c, header, bounded, body) = carried frame (raw_frame_lem zstd postcard bytes small) in
        (frame, c, rw (encoded, within, encode_frame) refl, header, bounded, body)

-- If the header of a 32-bit prefix is accepted, then its length is within the frame limit and the
-- prefix is that length with the flag at the top exactly if the body is compressed.
pub parse_frame_header-ok :
    (prefix n : ℕ) (compressed : Bool)
    → prefix < 4294967296
    → parse_frame_header prefix ≡ Coded.ok (compressed, n)
    → (n ≤ max_frame_size) × (prefix ≡ (if compressed then n + frame_compressed_flag else n))
unfolding parse_frame_header
parse_frame_header-ok prefix n compressed h e = ground arith

-- A request is accepted only if its bytes are within the frame limit and decode to it, and its
-- version has the server's major.
pub decode_request-ok {ℓ} :
    {A : Type ℓ} (postcard : Postcard (Envelope A)) (bytes : List ℕ) (msg : Envelope A)
    → decode_request postcard bytes ≡ Coded.ok msg
    → (length bytes ≤ max_frame_size)
      × (postcard.from_bytes bytes ≡ some msg)
      × (version_major msg.version ≡ protocol_major)
unfolding decode_request decode
decode_request-ok postcard bytes msg e = ground arith
