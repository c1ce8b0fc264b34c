-- ===== src/Cache/Assembly.antt =====
-- `assemble_range` of crates/cache/src/lib.rs returns the bytes of the file, and finds them whenever
-- the segments cover the request.
use quic_kfs.Prelude.{
  ℕ, ◌+◌, ◌-◌, ◌≤◌, ◌<◌, ◌≡◌, refl, ap, ◌∙◌, true, some, List, [], ◌∷◌, ◌++◌, arith, ◌==◌, length,
  retain, All, All-retain, checked_add, checked_add-eq-some, ==→eq, min, Bool-cases, Option-cases,
  inl, inr, ◌⊎◌,
}
use mathlib.Core.List.{append_assoc}
use quic_kfs.Prelude.Sorting.{sort_by, sort_by-All}
use quic_kfs.Cache.Keys.{
  RangeKey, Segment, Assembled, Turn, get_range, meets, segment_le, take_segment, assemble_loop,
  assemble_range,
}
use quic_kfs.Cache.Content.{read_at, read_at_cong, read_at-append, get_range-read_at}

pub Turn-cases :
    (t : Turn)
    → (t ≡ Turn.stop)
      ⊎ (t ≡ Turn.skip)
      ⊎ ((copy_end : ℕ) × (chunk : List ℕ) × (t ≡ Turn.copy copy_end chunk))
Turn-cases Turn.stop = inl refl
Turn-cases Turn.skip = inr (inl refl)
Turn-cases (Turn.copy copy_end chunk) = inr (inr (copy_end, chunk, refl))

pub continued :
    (content : ℕ → ℕ) (cursor copy_end requested_end : ℕ) (out chunk : List ℕ)
    → cursor ≤ copy_end
    → copy_end ≤ requested_end
    → chunk ≡ read_at content cursor (copy_end - cursor)
    → (out ++ chunk) ++ read_at content copy_end (requested_end - copy_end)
      ≡ out ++ read_at content cursor (requested_end - cursor)
continued content cursor copy_end requested_end out chunk h k e =
    append_assoc out chunk (read_at content copy_end (requested_end - copy_end))
    ∙ ap (λ r. out ++ r)
        (ap (λ c. c ++ read_at content copy_end (requested_end - copy_end)) e
          ∙ ap (λ r. read_at content cursor (copy_end - cursor) ++ r)
              (read_at_cong content (omega arith) refl)
          ∙ read_at-append content cursor (copy_end - cursor) (requested_end - copy_end)
          ∙ read_at_cong content refl (omega arith))

module _ {ℓ} {K : Type ℓ} where
  -- The segment's bytes are those of the content at its offset.
  abbrev pub Agrees : (ℕ → ℕ) → Segment K → Type 0
  Agrees content segment = segment.bytes ≡ read_at content segment.offset (length segment.bytes)

  -- When a turn copies, and what.
  pub take_segment_copies :
      (requested_end cursor copy_end : ℕ) (chunk : List ℕ) (segment : Segment K)
      → cursor ≤ requested_end
      → take_segment requested_end cursor segment ≡ Turn.copy copy_end chunk
      → (copy_end ≡ min (segment.offset + length segment.bytes) requested_end)
        × (segment.offset ≤ cursor)
        × (cursor < segment.offset + length segment.bytes)
        × (get_range (cursor - segment.offset) (copy_end - segment.offset) segment.bytes
            ≡ some chunk)
  unfolding take_segment
  take_segment_copies requested_end cursor copy_end chunk segment h e = ground arith

  take_segment-copy :
      (content : ℕ → ℕ) (requested_end cursor copy_end : ℕ) (chunk : List ℕ) (segment : Segment K)
      → cursor ≤ requested_end
      → Agrees content segment
      → take_segment requested_end cursor segment ≡ Turn.copy copy_end chunk
      → (chunk ≡ read_at content cursor (copy_end - cursor))
        × (cursor ≤ copy_end)
        × (copy_end ≤ requested_end)
  take_segment-copy content requested_end cursor copy_end chunk segment h agrees e =
      let (end', before, after, part) =
        take_segment_copies requested_end cursor copy_end chunk segment h e in
      (
        get_range-read_at content segment.offset (cursor - segment.offset)
              (copy_end - segment.offset) segment.bytes chunk agrees part
            ∙ read_at_cong content (omega arith) (omega arith),
        omega arith,
        omega arith,
      )

  assemble_loop-read_at :
      (content : ℕ → ℕ) (requested_end cursor : ℕ) (out : List ℕ) (used : List K)
      (segments : List (Segment K)) (assembled : Assembled K)
      → cursor ≤ requested_end
      → All (Agrees content) segments
      → assemble_loop requested_end cursor out used segments ≡ some assembled
      → assembled.bytes ≡ out ++ read_at content cursor (requested_end - cursor)
  unfolding assemble_loop
  assemble_loop-read_at content requested_end cursor out used [] assembled h agree e = absurd (cc)
  assemble_loop-read_at content requested_end cursor out used (s ∷ ss) assembled h agree e =
      elim (Turn-cases (take_segment requested_end cursor s)) [
        | inl stop ↦ absurd (ground arith)
        | inr (inl skip) ↦
            assemble_loop-read_at content requested_end cursor out used ss assembled h agree.1
              (rw (skip, assemble_loop) at e)
        | inr (inr (copy_end, chunk, copy)) ↦
            let (bytes, before, inside) =
              take_segment-copy content requested_end cursor copy_end chunk s h agree.0 copy in
            let rest =
              assemble_loop-read_at content requested_end copy_end (out ++ chunk)
                (used ++ s.key ∷ []) ss assembled inside agree.1 in
            elim (Bool-cases (copy_end == requested_end)) [
              | inl last ↦
                  let end' : copy_end ≡ requested_end = ==→eq copy_end requested_end last in
                  whole copy_end chunk last copy
                  ∙ ap (λ r. out ++ r)
                      (bytes ∙ read_at_cong content refl (ap (λ n. n - cursor) end'))
              | inr more ↦
                  rest (rw (copy, assemble_loop, more) at e)
                  ∙ continued content cursor copy_end requested_end out chunk before inside bytes
            ]
      ]
    where
      whole :
          (copy_end : ℕ) (chunk : List ℕ)
          → (copy_end == requested_end) ≡ true
          → take_segment requested_end cursor s ≡ Turn.copy copy_end chunk
          → assembled.bytes ≡ out ++ chunk
      whole copy_end chunk last copy = ground arith

  -- What is assembled from segments that agree with a content are its bytes at the requested range.
  pub assemble_range-read_at :
      (content : ℕ → ℕ) (requested : RangeKey) (segments : List (Segment K))
      (assembled : Assembled K)
      → All (Agrees content) segments
      → assemble_range requested segments ≡ some assembled
      → assembled.bytes ≡ read_at content requested.offset requested.length
  unfolding assemble_range
  assemble_range-read_at content requested segments assembled agree e =
      elim (Option-cases (checked_add requested.offset requested.length)) [
        | inl overflow ↦ absurd (ground arith)
        | inr (requested_end, fits) ↦
            let (end', _) = checked_add-eq-some _ _ _ fits in
            assemble_loop-read_at content requested_end requested.offset [] []
              (sort_by segment_le (retain (meets requested.offset requested_end) segments))
              assembled (omega arith)
              (sort_by-All segment_le (Agrees content) _
                (All-retain (Agrees content) (meets requested.offset requested_end) segments agree))
              (rw (fits, assemble_range) at e)
            ∙ read_at_cong content {a = requested.offset} refl (omega arith)
      ]
