-- ===== src/Protocol/Version.antt =====
-- The wire version word of crates/protocol/src/lib.rs: make_version, version_major, version_minor
-- and the tests of a peer's version. A u16 is a number below 2 ^ 16.
use quic_kfs.Prelude.{ℕ, ◌+◌, ◌*◌, ◌/◌, ◌%◌, ◌<◌, ◌≡◌, Bool, ◌&&◌, leb, ◌==◌, arith, refl}

abbrev pub protocol_major : ℕ
protocol_major = 6

abbrev pub protocol_minor : ℕ
protocol_minor = 4

abbrev pub minor_frame_compression : ℕ
minor_frame_compression = 3

abbrev pub minor_metadata_batch : ℕ
minor_metadata_batch = 4

-- `(major << 8) | (minor & 0x00ff)`: the two parts share no bit, so the or is a sum.
unfoldable pub make_version : ℕ → ℕ → ℕ
make_version major minor = (major * 256) % 65536 + minor % 256

-- PROTOCOL_VERSION
abbrev pub protocol_version : ℕ
protocol_version = make_version protocol_major protocol_minor

unfoldable pub version_major : ℕ → ℕ
version_major version = version / 256

unfoldable pub version_minor : ℕ → ℕ
version_minor version = version % 256

unfoldable pub peer_supports_frame_compression : ℕ → Bool
peer_supports_frame_compression peer_version =
    version_major peer_version == protocol_major
    && leb minor_frame_compression (version_minor peer_version)

unfoldable pub peer_supports_metadata_batch : ℕ → Bool
peer_supports_metadata_batch peer_version =
    version_major peer_version == protocol_major
    && leb minor_metadata_batch (version_minor peer_version)

pub version_major-make_version :
    (major minor : ℕ) → major < 256 → version_major (make_version major minor) ≡ major
unfolding version_major make_version
version_major-make_version major minor h = omega arith

pub version_minor-make_version :
    (major minor : ℕ) → minor < 256 → version_minor (make_version major minor) ≡ minor
unfolding version_minor make_version
version_minor-make_version major minor h = omega arith

-- A major and a minor below 256 are read back from the word made of them, a word that fits in 16
-- bits is made of the parts that are read from it, and peers that support batching support
-- compression.
pub make_version_round_trip :
    (major minor version : ℕ)
    → major < 256
    → minor < 256
    → version < 65536
    → (version_major (make_version major minor) ≡ major)
      × (version_minor (make_version major minor) ≡ minor)
      × (make_version (version_major version) (version_minor version) ≡ version)
      × (make_version major minor < 65536)
unfolding version_major version_minor make_version
make_version_round_trip major minor version h k w =
    (omega arith, omega arith, omega arith, omega arith)

-- A peer whose version was made of a major and a minor below 256 is sent compressed frames exactly
-- if the major is ours and the minor is 3 or more, and batches exactly if it is 4 or more.
pub peer_supports-make_version :
    (major minor : ℕ)
    → major < 256
    → minor < 256
    → (peer_supports_frame_compression (make_version major minor)
        ≡ (major == protocol_major && leb minor_frame_compression minor))
      × (peer_supports_metadata_batch (make_version major minor)
          ≡ (major == protocol_major && leb minor_metadata_batch minor))
unfolding peer_supports_frame_compression peer_supports_metadata_batch
peer_supports-make_version major minor h k =
    rw (version_major-make_version major minor h, version_minor-make_version major minor k)
      (refl, refl)
