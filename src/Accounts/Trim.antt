-- ===== src/Accounts/Trim.antt =====
-- str::trim of the standard library, as crates/auth/src/lib.rs uses it: the white space of Unicode
-- is taken off both ends of a text, which is its bytes in UTF-8.
use quic_kfs.Prelude.{
  ℕ, zero, suc, ◌<◌, ◌≡◌, refl, ap, ◌∙◌, Bool, false, ◌&&◌, ◌||◌, [], ◌∷◌, leb, ◌==◌, if◌then◌else◌,
  All, arith,
}
use mathlib.Core.List.{reverse, reverse_aux, reverse-reverse}
use quic_kfs.Protocol.Messages.{Bytes}

-- A white space of one byte, of two and of three.
abbrev pub is_space : ℕ → Bool
is_space b = (leb 9 b && leb b 13) || b == 32

abbrev is_space_of_two : ℕ → ℕ → Bool
is_space_of_two b c = b == 194 && (c == 133 || c == 160)

abbrev is_space_of_three : ℕ → ℕ → ℕ → Bool
is_space_of_three b c d =
    (b == 225 && c == 154 && d == 128)
    || (b == 226 && c == 128 && ((leb 128 d && leb d 138) || d == 168 || d == 169 || d == 175))
    || (b == 226 && c == 129 && d == 159)
    || (b == 227 && c == 128 && d == 128)

-- How many bytes the white space has that a text begins with, 0 if it begins with none.
unfoldable pub space_first : Bytes → ℕ
space_first [] = 0
space_first (b ∷ []) = if is_space b then 1 else 0
space_first (b ∷ c ∷ []) = if is_space b then 1 else if is_space_of_two b c then 2 else 0
space_first (b ∷ c ∷ d ∷ _) =
    if is_space b
    then 1
    else if is_space_of_two b c
    then 2
    else if is_space_of_three b c d
    then 3
    else 0

-- The same for the white space that a text ends with, of which the bytes are given from the last on.
unfoldable pub space_last : Bytes → ℕ
space_last [] = 0
space_last (b ∷ []) = if is_space b then 1 else 0
space_last (c ∷ b ∷ []) = if is_space c then 1 else if is_space_of_two b c then 2 else 0
space_last (d ∷ c ∷ b ∷ _) =
    if is_space d
    then 1
    else if is_space_of_two c d
    then 2
    else if is_space_of_three b c d
    then 3
    else 0

-- The bytes after the white space; the number is of those that its character still has.
unfoldable pub strip : (Bytes → ℕ) → ℕ → Bytes → Bytes
strip space n [] = []
strip space (suc n) (b ∷ bs) = strip space n bs
strip space zero (b ∷ bs) = elim (space (b ∷ bs)) [ zero ↦ b ∷ bs | suc n ↦ strip space n bs ]

unfoldable pub trim : Bytes → Bytes
trim text = reverse (strip space_last 0 (reverse (strip space_first 0 text)))

-- A byte of ASCII that is no white space.
abbrev pub IsGraphic : ℕ → Type 0
IsGraphic b = (b < 128) × (is_space b ≡ false)

space_first_graphic : (bytes : Bytes) → All IsGraphic bytes → space_first bytes ≡ 0
unfolding space_first
space_first_graphic [] h = refl
space_first_graphic (b ∷ []) ((p, q), h) = rw q refl
space_first_graphic (b ∷ c ∷ []) ((p, q), h) = ground arith
space_first_graphic (b ∷ c ∷ d ∷ rest) ((p, q), h) = ground arith

space_last_graphic : (bytes : Bytes) → All IsGraphic bytes → space_last bytes ≡ 0
unfolding space_last
space_last_graphic [] h = refl
space_last_graphic (b ∷ []) ((p, q), h) = rw q refl
space_last_graphic (c ∷ b ∷ []) ((p, q), h) = ground arith
space_last_graphic (d ∷ c ∷ b ∷ rest) ((p, q), h) = ground arith

strip_none : (space : Bytes → ℕ) (bytes : Bytes) → space bytes ≡ 0 → strip space 0 bytes ≡ bytes
unfolding strip
strip_none space [] h = refl
strip_none space (b ∷ bs) h = rw (h, strip) refl

All-reverse_aux :
    (xs ys : Bytes) → All IsGraphic xs → All IsGraphic ys → All IsGraphic (reverse_aux xs ys)
All-reverse_aux [] ys h k = k
All-reverse_aux (x ∷ xs) ys (p, h) k = All-reverse_aux xs (x ∷ ys) h (p, k)

pub trim_graphic : (bytes : Bytes) → All IsGraphic bytes → trim bytes ≡ bytes
unfolding trim
trim_graphic bytes h =
    ap (λ x. reverse (strip space_last 0 (reverse x)))
      (strip_none space_first bytes (space_first_graphic bytes h))
    ∙ ap reverse (
        strip_none space_last (reverse bytes)
          (space_last_graphic (reverse bytes) (All-reverse_aux bytes [] h tt)))
    ∙ reverse-reverse bytes
