-- ===== src/Accounts/Text.antt =====
-- What crates/auth/src/lib.rs uses of the standard library's text: String::from_utf8_lossy, and
-- char::from of a byte, as String::push writes it. Text is its bytes in UTF-8.
use quic_kfs.Prelude.{
  ℕ, ◌+◌, ◌-◌, ◌/◌, ◌%◌, ◌<◌, ◌≡◌, ap, ◌&&◌, [], ◌∷◌, ◌++◌, ltb, leb, ◌==◌, if◌then◌else◌, All,
  arith, true, refl,
}
use quic_kfs.Protocol.Messages.{Bytes}

-- U+FFFD
abbrev replacement : Bytes
replacement = 239 ∷ 191 ∷ 189 ∷ []

-- Between two characters, or within one: its bytes so far, how many are missing, and the bounds of
-- the next.
pub data Decoding : Type 0 where
  between : Decoding
  within : Bytes → ℕ → ℕ → ℕ → Decoding

-- The first byte of a character: what is written for it, and what is expected then.
unfoldable pub first_byte : ℕ → Bytes × Decoding
first_byte b =
    if ltb b 128
    then (b ∷ [], between)
    else if leb 194 b && leb b 223
    then ([], within (b ∷ []) 1 128 191)
    else if b == 224
    then ([], within (b ∷ []) 2 160 191)
    else if b == 237
    then ([], within (b ∷ []) 2 128 159)
    else if leb 225 b && leb b 239
    then ([], within (b ∷ []) 2 128 191)
    else if b == 240
    then ([], within (b ∷ []) 3 144 191)
    else if leb 241 b && leb b 243
    then ([], within (b ∷ []) 3 128 191)
    else if b == 244
    then ([], within (b ∷ []) 3 128 143)
    else (replacement, between)

-- A byte that does not go on with a character ends it as one replacement, and is read as a first one.
unfoldable pub next_byte : Decoding → ℕ → Bytes × Decoding
next_byte between b = first_byte b
next_byte (within seen missing low high) b =
    let again = first_byte b in
    if leb low b && leb b high
    then if missing == 1
      then (seen ++ b ∷ [], between)
      else ([], within (seen ++ b ∷ []) (missing - 1) 128 191)
    else (replacement ++ again.0, again.1)

unfoldable pub decode_lossy : Decoding → Bytes → Bytes
decode_lossy between [] = []
decode_lossy (within seen missing low high) [] = replacement
decode_lossy d (b ∷ bs) = let r = next_byte d b in r.0 ++ decode_lossy r.1 bs

unfoldable pub from_utf8_lossy : Bytes → Bytes
from_utf8_lossy bytes = decode_lossy between bytes

-- The character of a byte, in one byte or two.
unfoldable pub char_from : ℕ → Bytes
char_from b = if ltb b 128 then b ∷ [] else (192 + b / 64) ∷ (128 + b % 64) ∷ []

abbrev pub IsAscii : Bytes → Type 0
IsAscii bytes = All (λ b. b < 128) bytes

pub from_utf8_lossy_ascii : (bytes : Bytes) → IsAscii bytes → from_utf8_lossy bytes ≡ bytes
unfolding from_utf8_lossy decode_lossy next_byte first_byte
from_utf8_lossy_ascii [] h = refl
from_utf8_lossy_ascii (b ∷ bs) (h, hs) =
    let small : ltb b 128 ≡ true = ground arith in
    rw small (ap (◌∷◌ b) (from_utf8_lossy_ascii bs hs))

pub char_from_ascii : (b : ℕ) → b < 128 → char_from b ≡ b ∷ []
unfolding char_from
char_from_ascii b h = ground arith
