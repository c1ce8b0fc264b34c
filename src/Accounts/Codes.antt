-- ===== src/Accounts/Codes.antt =====
-- format_code and normalize_pairing_code of crates/auth/src/lib.rs. A text is its bytes in UTF-8.
use quic_kfs.Prelude.{ℕ, ◌+◌, ◌-◌, ◌/◌, ◌%◌, not, List, [], ◌∷◌, ◌++◌, ◌==◌, if◌then◌else◌, length}
use quic_kfs.Protocol.Messages.{Bytes}
use quic_kfs.Accounts.Text.{from_utf8_lossy, char_from}
use quic_kfs.Accounts.Trim.{trim}
use quic_kfs.Accounts.Results.{invalid, AuthResult, err, ok, ◌>>=◌}

-- base64::encoded_len(PAIRING_SECRET_LENGTH, false)
abbrev pub encoded_length : ℕ
encoded_length = 27

abbrev pub dash : ℕ
dash = 45

-- `chunks(4)`: a chunk has four bytes but for the last.
unfoldable pub chunks : Bytes → List Bytes
chunks (a ∷ b ∷ c ∷ d ∷ rest) = (a ∷ b ∷ c ∷ d ∷ []) ∷ chunks rest
chunks [] = []
chunks rest = rest ∷ []

-- The loop over the chunks: each one but the first comes after a dash.
unfoldable pub join_chunks : ℕ → List Bytes → Bytes
join_chunks index [] = []
join_chunks index (chunk ∷ rest) =
    let others = from_utf8_lossy chunk ++ join_chunks (index + 1) rest in
    if index == 0 then others else dash ∷ others

unfoldable pub format_code : Bytes → Bytes
format_code encoded = join_chunks 0 (chunks encoded)

-- The loop over the bytes of a code: each fifth one is a dash, and is left out. Each other one is
-- pushed as a character.
unfoldable pub ungroup : ℕ → Bytes → AuthResult Bytes
ungroup index [] = ok []
ungroup index (byte ∷ bytes) =
    let rest = ungroup (index + 1) bytes in
    if index % 5 == 4
    then if byte == dash then rest else err invalid
    else (do others ← rest; ok (char_from byte ++ others))

unfoldable pub normalize_pairing_code : Bytes → AuthResult Bytes
normalize_pairing_code code =
    let trimmed = trim code in
    if length trimmed == encoded_length
    then ok trimmed
    else if not (length trimmed == encoded_length + (encoded_length - 1) / 4)
    then err invalid
    else ungroup 0 trimmed
