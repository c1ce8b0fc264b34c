-- ===== src/Cache/Content.antt =====
-- What cached bytes are held to: the bytes of a file, as a function of the offset.
use quic_kfs.Prelude.{
  ℕ, zero, suc, ◌+◌, ◌-◌, ◌≤◌, ◌≡◌, refl, ap, ◌∙◌, some, List, [], ◌∷◌, ◌++◌, arith, length, take,
  drop,
}
use quic_kfs.Cache.Keys.{get_range}

-- The bytes of a content at `n` offsets from `offset` on.
abbrev pub read_at : (ℕ → ℕ) → ℕ → ℕ → List ℕ
read_at content offset zero = []
read_at content offset (suc n) = content offset ∷ read_at content (suc offset) n

pub length-read_at : (content : ℕ → ℕ) (offset n : ℕ) → length (read_at content offset n) ≡ n
length-read_at content offset zero = refl
length-read_at content offset (suc n) = ap suc (length-read_at content (suc offset) n)

pub read_at_cong :
    (content : ℕ → ℕ) {a b m n : ℕ} → a ≡ b → m ≡ n → read_at content a m ≡ read_at content b n
read_at_cong content p q = cc

pub read_at-append :
    (content : ℕ → ℕ) (offset m n : ℕ)
    → read_at content offset m ++ read_at content (offset + m) n ≡ read_at content offset (m + n)
read_at-append content offset zero n = read_at_cong content (omega arith) (omega arith)
read_at-append content offset (suc m) n =
    ap (◌∷◌ (content offset)) (
      ap (λ r. read_at content (suc offset) m ++ r) (read_at_cong content (omega arith) refl)
      ∙ read_at-append content (suc offset) m n)
    ∙ read_at_cong content {a = offset} {m = suc (m + n)} refl (omega arith)

drop-read_at :
    (content : ℕ → ℕ) (offset k n : ℕ)
    → drop k (read_at content offset n) ≡ read_at content (offset + k) (n - k)
drop-read_at content offset zero n = read_at_cong content (omega arith) (omega arith)
drop-read_at content offset (suc k) zero =
    read_at_cong content {a = offset + suc k} {m = 0} refl (omega arith)
drop-read_at content offset (suc k) (suc n) =
    drop-read_at content (suc offset) k n ∙ read_at_cong content (omega arith) (omega arith)

take-read_at :
    (content : ℕ → ℕ) (offset k n : ℕ)
    → k ≤ n
    → take k (read_at content offset n) ≡ read_at content offset k
take-read_at content offset zero n h = refl
take-read_at content offset (suc k) zero h = absurd (omega arith)
take-read_at content offset (suc k) (suc n) h =
    ap (◌∷◌ (content offset)) (take-read_at content (suc offset) k n (omega arith))

get_range_parts :
    (start end' : ℕ) (bytes out : List ℕ)
    → get_range start end' bytes ≡ some out
    → (out ≡ take (end' - start) (drop start bytes)) × (start ≤ end') × (end' ≤ length bytes)
unfolding get_range
get_range_parts start end' bytes out e = ground arith

-- A part of bytes that agree with a content agrees with it.
pub get_range-read_at :
    (content : ℕ → ℕ) (offset start end' : ℕ) (bytes out : List ℕ)
    → bytes ≡ read_at content offset (length bytes)
    → get_range start end' bytes ≡ some out
    → out ≡ read_at content (offset + start) (end' - start)
get_range-read_at content offset start end' bytes out agrees e =
    let (part, ordered, inside) = get_range_parts start end' bytes out e in
    part
    ∙ ap (λ b. take (end' - start) (drop start b)) agrees
    ∙ ap (take (end' - start)) (drop-read_at content offset start (length bytes))
    ∙ take-read_at content (offset + start) (end' - start) (length bytes - start) (omega arith)
