-- ===== src/Cache/Keys.antt =====
-- RevisionKey, RangeKey, valid_range_payload, ranges_overlap and assemble_range of
-- crates/cache/src/lib.rs. Bytes are numbers; usize has 64 bits.
use quic_kfs.Prelude.{
  ℕ, ◌-◌, ◌≡◌, Bool, true, false, ◌&&◌, Option, none, some, List, [], ◌∷◌, ◌++◌, ltb, leb, ◌==◌,
  if◌then◌else◌, length, take, drop, retain, checked_add, min, arith,
}
use quic_kfs.Prelude.Sorting.{sort_by}

pub record RevisionKey : Type 0 where
  pub node : ℕ
  pub revision : ℕ

pub record RangeKey : Type 0 where
  pub file : RevisionKey
  pub offset : ℕ
  pub length : ℕ

abbrev pub revision_eq : RevisionKey → RevisionKey → Bool
revision_eq a b = a.node == b.node && a.revision == b.revision

abbrev pub range_eq : RangeKey → RangeKey → Bool
range_eq a b = revision_eq a.file b.file && a.offset == b.offset && a.length == b.length

pub revision_eq→eq : (a b : RevisionKey) → revision_eq a b ≡ true → a ≡ b
revision_eq→eq a b h = ground arith

infixl 5 ◌>>=◌
abbrev pub ◌>>=◌ {ℓ κ} : {A : Type ℓ} {B : Type κ} → Option A → (A → Option B) → Option B
none >>= f = none
some a >>= f = f a

abbrev pub checked_sub : ℕ → ℕ → Option ℕ
checked_sub a b = if leb b a then some (a - b) else none

-- data.get(start..end)
unfoldable pub get_range : ℕ → ℕ → List ℕ → Option (List ℕ)
get_range start end' bytes =
    if leb start end' && leb end' (length bytes)
    then some (take (end' - start) (drop start bytes))
    else none

unfoldable pub valid_range_payload : RangeKey → List ℕ → Bool
valid_range_payload key value = elim (checked_add key.offset key.length) [
  | none ↦ false
  | some _ ↦ key.length == length value
]

unfoldable pub ranges_overlap : RangeKey → RangeKey → Bool
ranges_overlap left right = elim (checked_add left.offset left.length) [
  | none ↦ false
  | some left_end ↦ elim (checked_add right.offset right.length) [
    | none ↦ false
    | some right_end ↦ ltb left.offset right_end && ltb right.offset left_end
  ]
]

pub record Segment {ℓ} (K : Type ℓ) : Type ℓ where
  pub key : K
  pub offset : ℕ
  pub bytes : List ℕ

pub record Assembled {ℓ} (K : Type ℓ) : Type ℓ where
  pub bytes : List ℕ
  pub used_keys : List K

-- The loop returns None, goes on, or appends bytes and moves its cursor.
pub data Turn : Type 0 where
  stop skip : Turn
  copy : ℕ → List ℕ → Turn

module _ {ℓ} {K : Type ℓ} where
  -- The test of `segments.retain`.
  unfoldable pub meets : ℕ → ℕ → Segment K → Bool
  meets start end' segment = elim (checked_add segment.offset (length segment.bytes)) [
    | none ↦ false
    | some segment_end ↦ ltb segment.offset end' && ltb start segment_end
  ]

  -- The order of `segments.sort_by`: by offset, the longer first.
  unfoldable pub segment_le : Segment K → Segment K → Bool
  segment_le left right =
      if ltb left.offset right.offset
      then true
      else left.offset == right.offset && leb (length right.bytes) (length left.bytes)

  -- One turn of the loop over the segments, up to what it does next.
  unfoldable pub take_segment : ℕ → ℕ → Segment K → Turn
  take_segment requested_end cursor segment =
      if ltb cursor segment.offset
      then Turn.stop
      else elim (checked_add segment.offset (length segment.bytes)) [
        | none ↦ Turn.stop
        | some segment_end ↦
            if leb segment_end cursor
            then Turn.skip
            else elim (copied (min segment_end requested_end)) [
              | none ↦ Turn.stop
              | some chunk ↦ Turn.copy (min segment_end requested_end) chunk
            ]
      ]
    where
      copied : ℕ → Option (List ℕ)
      copied copy_end = do
        source_start ← checked_sub cursor segment.offset
        source_end ← checked_sub copy_end segment.offset
        get_range source_start source_end segment.bytes

  unfoldable pub assemble_loop : ℕ → ℕ → List ℕ → List K → List (Segment K) → Option (Assembled K)
  assemble_loop requested_end cursor out used [] = none
  assemble_loop requested_end cursor out used (segment ∷ segments) =
      elim (take_segment requested_end cursor segment) [
        | Turn.stop ↦ none
        | Turn.skip ↦ assemble_loop requested_end cursor out used segments
        | Turn.copy copy_end chunk ↦
            let rest =
              assemble_loop requested_end copy_end (out ++ chunk) (used ++ segment.key ∷ [])
                segments in
            if copy_end == requested_end
            then some (record { bytes = out ++ chunk; used_keys = used ++ segment.key ∷ [] })
            else rest
      ]

  unfoldable pub assemble_range : RangeKey → List (Segment K) → Option (Assembled K)
  assemble_range requested segments = do
    requested_end ← checked_add requested.offset requested.length
    assemble_loop requested_end requested.offset [] []
        (sort_by segment_le (retain (meets requested.offset requested_end) segments))
