-- ===== src/Accounts/CodeRoundTrip.antt =====
-- The code of a pairing in crates/auth/src/lib.rs is read back from its groups.
use quic_kfs.Prelude.{
  ℕ, ◌+◌, ◌/◌, ◌%◌, ◌<◌, ◌≡◌, refl, ap, ◌∙◌, Bool, true, false, ◌&&◌, ◌||◌, List, [], ◌∷◌, ◌++◌,
  leb, ◌==◌, if◌then◌else◌, length, All, arith,
}
use quic_kfs.Protocol.Messages.{Bytes}
use quic_kfs.Accounts.Results.{ok}
use quic_kfs.Accounts.Text.{from_utf8_lossy_ascii, char_from_ascii, IsAscii}
use quic_kfs.Accounts.Trim.{trim_graphic, IsGraphic}
use quic_kfs.Accounts.Codes.{
  encoded_length, dash, chunks, join_chunks, format_code, ungroup, normalize_pairing_code,
}

-- The alphabet of URL_SAFE_NO_PAD: letters, digits, `-` and `_`.
abbrev pub is_base64 : ℕ → Bool
is_base64 b =
    (leb 65 b && leb b 90)
    || (leb 97 b && leb b 122)
    || (leb 48 b && leb b 57)
    || b == 45
    || b == 95

abbrev pub IsBase64 : Bytes → Type 0
IsBase64 bytes = All (λ b. is_base64 b ≡ true) bytes

is_base64-IsGraphic : (b : ℕ) → is_base64 b ≡ true → IsGraphic b
is_base64-IsGraphic b h = (ground arith, ground arith)

IsBase64-IsGraphic : (bytes : Bytes) → IsBase64 bytes → All IsGraphic bytes
IsBase64-IsGraphic [] h = tt
IsBase64-IsGraphic (b ∷ bs) (p, h) = (is_base64-IsGraphic b p, IsBase64-IsGraphic bs h)

IsBase64-IsAscii : (bytes : Bytes) → IsBase64 bytes → IsAscii bytes
IsBase64-IsAscii [] h = tt
IsBase64-IsAscii (b ∷ bs) (p, h) = ((is_base64-IsGraphic b p).0, IsBase64-IsAscii bs h)

-- The groups and their dashes, of chunks that are text as they are.
join_plain : ℕ → List Bytes → Bytes
join_plain index [] = []
join_plain index (chunk ∷ rest) =
    let others = chunk ++ join_plain (index + 1) rest in
    if index == 0 then others else dash ∷ others

join_chunks-ascii : (i : ℕ) (cs : List Bytes) → All IsAscii cs → join_chunks i cs ≡ join_plain i cs
unfolding join_chunks join_plain
join_chunks-ascii i [] h = refl
join_chunks-ascii i (c ∷ cs) (a, h) =
    rw (from_utf8_lossy_ascii c a, join_chunks-ascii (i + 1) cs h) refl

chunks-IsAscii : (xs : Bytes) → IsAscii xs → All IsAscii (chunks xs)
unfolding chunks
chunks-IsAscii [] h = tt
chunks-IsAscii (a ∷ []) h = (h, tt)
chunks-IsAscii (a ∷ b ∷ []) h = (h, tt)
chunks-IsAscii (a ∷ b ∷ c ∷ []) h = (h, tt)
chunks-IsAscii (a ∷ b ∷ c ∷ d ∷ xs) (p, (q, (r, (s, h)))) =
    ((p, (q, (r, (s, tt)))), chunks-IsAscii xs h)

keeps :
    (i byte : ℕ) (rest xs : Bytes)
    → (i % 5 == 4) ≡ false
    → byte < 128
    → ungroup (i + 1) rest ≡ ok xs
    → ungroup i (byte ∷ rest) ≡ ok (byte ∷ xs)
unfolding ungroup
keeps i byte rest xs h a k = rw (h, k, char_from_ascii byte a) refl

skips :
    (i : ℕ) (rest xs : Bytes)
    → (i % 5 == 4) ≡ true
    → ungroup (i + 1) rest ≡ ok xs
    → ungroup i (dash ∷ rest) ≡ ok xs
unfolding ungroup
skips i rest xs h k = rw (h, k) refl

ends : (i : ℕ) → ungroup i [] ≡ ok []
unfolding ungroup
ends i = refl

-- From the place of a dash on.
rest_lem :
    (i j : ℕ) (xs : Bytes)
    → i % 5 ≡ 4
    → (j == 0) ≡ false
    → IsAscii xs
    → ungroup i (join_plain j (chunks xs)) ≡ ok xs
unfolding join_plain chunks
rest_lem i j [] h k small = ends i
rest_lem i j (a ∷ []) h k (p, _) =
    rw k (skips i _ _ (ground (arith, h)) (keeps (i + 1) a _ _ (ground (arith, h)) p (ends _)))
rest_lem i j (a ∷ b ∷ []) h k (p, (q, _)) = rw k (
    skips i _ _ (ground (arith, h)) (
      keeps (i + 1) a _ _ (ground (arith, h)) p
        (keeps (i + 1 + 1) b _ _ (ground (arith, h)) q (ends _))))
rest_lem i j (a ∷ b ∷ c ∷ []) h k (p, (q, (r, _))) = rw k (
    skips i _ _ (ground (arith, h)) (
      keeps (i + 1) a _ _ (ground (arith, h)) p (
        keeps (i + 1 + 1) b _ _ (ground (arith, h)) q
          (keeps (i + 1 + 1 + 1) c _ _ (ground (arith, h)) r (ends _)))))
rest_lem i j (a ∷ b ∷ c ∷ d ∷ xs) h k (p, (q, (r, (s, small)))) = rw k (
    skips i _ _ (ground (arith, h)) (
      keeps (i + 1) a _ _ (ground (arith, h)) p (
        keeps (i + 1 + 1) b _ _ (ground (arith, h)) q (
          keeps (i + 1 + 1 + 1) c _ _ (ground (arith, h)) r (
            keeps (i + 1 + 1 + 1 + 1) d _ _ (ground (arith, h)) s (
              rest_lem (i + 1 + 1 + 1 + 1 + 1) (j + 1) xs (omega (arith, h)) (ground arith)
                small))))))

-- A group of four takes five bytes with its dash.
length-rest :
    (j : ℕ) (xs : Bytes)
    → (j == 0) ≡ false
    → length (join_plain j (chunks xs)) ≡ length xs + (length xs + 3) / 4
unfolding join_plain chunks
length-rest j [] k = omega arith
length-rest j (a ∷ []) k = rw k (omega arith)
length-rest j (a ∷ b ∷ []) k = rw k (omega arith)
length-rest j (a ∷ b ∷ c ∷ []) k = rw k (omega arith)
length-rest j (a ∷ b ∷ c ∷ d ∷ xs) k = rw k (omega (arith, length-rest (j + 1) xs (ground arith)))

rest-IsBase64 :
    (j : ℕ) (xs : Bytes) → (j == 0) ≡ false → IsBase64 xs → IsBase64 (join_plain j (chunks xs))
unfolding join_plain chunks
rest-IsBase64 j [] k h = tt
rest-IsBase64 j (a ∷ []) k h = rw k (refl, h)
rest-IsBase64 j (a ∷ b ∷ []) k h = rw k (refl, h)
rest-IsBase64 j (a ∷ b ∷ c ∷ []) k h = rw k (refl, h)
rest-IsBase64 j (a ∷ b ∷ c ∷ d ∷ xs) k (p, (q, (r, (s, h)))) =
    rw k (refl, (p, (q, (r, (s, rest-IsBase64 (j + 1) xs (ground arith) h)))))

-- A code of the alphabet that is ungrouped to the secret.
grouped :
    (code encoded : Bytes)
    → IsBase64 code
    → length code ≡ 33
    → ungroup 0 code ≡ ok encoded
    → normalize_pairing_code code ≡ ok encoded
unfolding normalize_pairing_code
grouped code encoded small n h = rw (trim_graphic code (IsBase64-IsGraphic code small), n) h

ungrouped :
    (encoded : Bytes)
    → IsBase64 encoded
    → length encoded ≡ encoded_length
    → normalize_pairing_code encoded ≡ ok encoded
unfolding normalize_pairing_code
ungrouped encoded small n = rw (trim_graphic encoded (IsBase64-IsGraphic encoded small), n) refl

-- A text of 27 characters of the URL-safe Base64 alphabet is read back from the code that
-- format_code makes of it, and from itself without dashes.
pub format_code_round_trip :
    (encoded : Bytes)
    → length encoded ≡ encoded_length
    → IsBase64 encoded
    → (normalize_pairing_code (format_code encoded) ≡ ok encoded)
      × (normalize_pairing_code encoded ≡ ok encoded)
unfolding format_code chunks join_plain
format_code_round_trip (a ∷ b ∷ c ∷ d ∷ xs) n (p, (q, (r, (s, h)))) =
    let code = a ∷ b ∷ c ∷ d ∷ join_plain 1 (chunks xs) in
    let (p', (q', (r', (s', h')))) = IsBase64-IsAscii (a ∷ b ∷ c ∷ d ∷ xs) (p, (q, (r, (s, h)))) in
    let shown =
      join_chunks-ascii 0 ((a ∷ b ∷ c ∷ d ∷ []) ∷ chunks xs)
        ((p', (q', (r', (s', tt)))), chunks-IsAscii xs h') in
    (
      ap normalize_pairing_code shown
          ∙ grouped code (a ∷ b ∷ c ∷ d ∷ xs) (p, (q, (r, (s, rest-IsBase64 1 xs refl h))))
              (omega (arith, length-rest 1 xs refl, n))
              (keeps 0 a _ _ refl p' (
                keeps 1 b _ _ refl q'
                  (keeps 2 c _ _ refl r' (keeps 3 d _ _ refl s' (rest_lem 4 1 xs refl refl h'))))),
      ungrouped (a ∷ b ∷ c ∷ d ∷ xs) (p, (q, (r, (s, h)))) n,
    )
format_code_round_trip [] n h = ground arith
format_code_round_trip (a ∷ []) n h = ground arith
format_code_round_trip (a ∷ b ∷ []) n h = ground arith
format_code_round_trip (a ∷ b ∷ c ∷ []) n h = ground arith
