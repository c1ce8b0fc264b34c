-- ===== src/Cache/Completeness.antt =====
-- `assemble_range` of crates/cache/src/lib.rs succeeds whenever the segments cover the request.
use quic_kfs.Prelude.{
  ℕ, ◌+◌, ◌≤◌, ◌<◌, ◌≡◌, ◌≢◌, refl, ◌∙◌, Bool, true, false, ◌&&◌, none, some, List, [], ◌∷◌, ◌++◌,
  arith, ltb, leb, ◌==◌, length, retain, any, All, All-retain, checked_add, u64_max, Bool-cases,
  inl, inr,
}
use quic_kfs.Prelude.Sorting.{sort_by, IsSorted, any-sort_by, sort_by-All, sort_by-IsSorted}
use quic_kfs.Cache.Keys.{
  RangeKey, Segment, Turn, get_range, meets, segment_le, take_segment, assemble_loop,
  assemble_range,
}
use quic_kfs.Cache.Assembly.{Turn-cases, take_segment_copies}

module _ {ℓ} {K : Type ℓ} where
  -- Some segment has the byte at an offset.
  abbrev pub has_byte : ℕ → Segment K → Bool
  has_byte x segment = leb segment.offset x && ltb x (segment.offset + length segment.bytes)

  -- The segment ends at a 64-bit offset.
  abbrev pub Fits : Segment K → Type 0
  Fits segment = segment.offset + length segment.bytes ≤ u64_max

  take_segment-stop :
      (requested_end cursor : ℕ) (segment : Segment K)
      → cursor ≤ requested_end
      → Fits segment
      → take_segment requested_end cursor segment ≡ Turn.stop
      → cursor < segment.offset
  unfolding take_segment get_range
  take_segment-stop requested_end cursor segment h fits e = ground arith

  take_segment-skip :
      (requested_end cursor : ℕ) (segment : Segment K)
      → take_segment requested_end cursor segment ≡ Turn.skip
      → segment.offset + length segment.bytes ≤ cursor
  unfolding take_segment
  take_segment-skip requested_end cursor segment e = ground arith

  segment_le_total : (a b : Segment K) → segment_le a b ≡ false → segment_le b a ≡ true
  unfolding segment_le
  segment_le_total a b h = ground arith

  segment_le_trans :
      (a b c : Segment K) → segment_le a b ≡ true → segment_le b c ≡ true → segment_le a c ≡ true
  unfolding segment_le
  segment_le_trans a b c p q = ground arith

  -- No segment behind one that starts after an offset has the byte there.
  no_byte_after :
      (x : ℕ) (s : Segment K) (ss : List (Segment K))
      → x < s.offset
      → All (λ y. segment_le s y ≡ true) ss
      → any (has_byte x) ss ≡ false
  unfolding segment_le
  no_byte_after x s [] h above = refl
  no_byte_after x s (y ∷ ss) h above = ground (arith, no_byte_after x s ss h above.1)

  assemble_loop_total :
      (requested_end cursor : ℕ) (out : List ℕ) (used : List K) (segments : List (Segment K))
      → cursor < requested_end
      → IsSorted segment_le segments
      → All Fits segments
      → ((x : ℕ) → cursor ≤ x → x < requested_end → any (has_byte x) segments ≡ true)
      → assemble_loop requested_end cursor out used segments ≢ none
  unfolding assemble_loop
  assemble_loop_total requested_end cursor out used [] h sorted fits covered e =
      absurd (ground (arith, covered cursor (omega arith) h))
  assemble_loop_total requested_end cursor out used (s ∷ ss) h sorted fits covered e =
      elim (Turn-cases (take_segment requested_end cursor s)) [
        | inl stop ↦
            let before = take_segment-stop requested_end cursor s (omega arith) fits.0 stop in
            ground
              (arith, covered cursor (omega arith) h, no_byte_after cursor s ss before sorted.0)
        | inr (inl skip) ↦
            let past = take_segment-skip requested_end cursor s skip in
            assemble_loop_total requested_end cursor out used ss h sorted.1 fits.1
              (λ x p q. ground (arith, covered x p q)) (rw (skip, assemble_loop) at e)
        | inr (inr (copy_end, chunk, copy)) ↦
            let (end', before, after, part) =
              take_segment_copies requested_end cursor copy_end chunk s (omega arith) copy in
            elim (Bool-cases (copy_end == requested_end)) [
              | inl last ↦ ground arith
              | inr more ↦
                  assemble_loop_total requested_end copy_end (out ++ chunk) (used ++ s.key ∷ []) ss
                    (ground arith) sorted.1 fits.1
                    (λ x p q. ground (arith, covered x (omega arith) q))
                    (rw (copy, assemble_loop, more) at e)
            ]
      ]

  retain-has_byte :
      (start end' x : ℕ) (segments : List (Segment K))
      → start ≤ x
      → x < end'
      → All Fits segments
      → any (has_byte x) (retain (meets start end') segments) ≡ any (has_byte x) segments
  unfolding meets
  retain-has_byte start end' x [] p q fits = refl
  retain-has_byte start end' x (s ∷ ss) p q fits =
      ground (arith, retain-has_byte start end' x ss p q fits.1)

  -- If every byte of a request that is not empty is in some segment, and the request and the
  -- segments end at 64-bit offsets, then the range is assembled.
  pub assemble_range_total :
      (requested : RangeKey) (segments : List (Segment K))
      → 0 < requested.length
      → requested.offset + requested.length ≤ u64_max
      → All Fits segments
      → ((x : ℕ)
          → requested.offset ≤ x
          → x < requested.offset + requested.length
          → any (has_byte x) segments ≡ true)
      → assemble_range requested segments ≢ none
  unfolding assemble_range
  assemble_range_total requested segments positive fits all_fit covered e =
      assemble_loop_total end' requested.offset [] [] (sort_by segment_le kept) (omega arith)
        (sort_by-IsSorted segment_le segment_le_total segment_le_trans kept)
        (sort_by-All segment_le Fits kept
          (All-retain Fits (meets requested.offset end') segments all_fit))
        (λ x p q.
          any-sort_by segment_le (has_byte x) kept
          ∙ retain-has_byte requested.offset end' x segments p q all_fit
          ∙ covered x p q)
        (rw (no_overflow, assemble_range) at e)
    where
      end' : ℕ
      end' = requested.offset + requested.length

      kept : List (Segment K)
      kept = retain (meets requested.offset end') segments

      no_overflow : checked_add requested.offset requested.length ≡ some end'
      no_overflow = ground arith
