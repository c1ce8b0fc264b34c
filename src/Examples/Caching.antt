-- ===== src/Examples/Caching.antt =====
-- The cached ranges at work: one file whose byte at each offset is the offset.
use quic_kfs.Prelude.{ℕ, ◌≡◌, ◌≢◌, refl, none, List, [], ◌∷◌, arith}
use quic_kfs.Prelude.Sorting.{insert as insert_sorted, sort_by}
use quic_kfs.Cache.Keys.{
  RevisionKey, RangeKey, Segment, get_range, meets, segment_le, take_segment, assemble_loop,
  assemble_range,
}
use quic_kfs.Cache.Content.{read_at}
use quic_kfs.Cache.Assembly.{assemble_range-read_at}
use quic_kfs.Cache.Completeness.{assemble_range_total}
use quic_kfs.Cache.Hot.{
  HotRangeState, lookup, candidate_end, best_candidate, copy_from, read_loop, touch_all,
  finish_read, get, insert,
}
use quic_kfs.Cache.Hot.Eviction.{IsBounded}
use quic_kfs.Cache.Hot.Budget.{insert-IsBounded}
use quic_kfs.Cache.Hot.Reads.{get-read_at}
use quic_kfs.Cache.Hot.Hits.{get_total}

abbrev counting : ℕ → ℕ
counting x = x

abbrev the_revision : RevisionKey
the_revision = record { node = 3; revision = 1 }

abbrev range : ℕ → ℕ → RangeKey
range offset n = record { file = the_revision; offset = offset; length = n }

abbrev segment : ℕ → List ℕ → Segment ℕ
segment offset bytes = record { key = offset; offset = offset; bytes = bytes }

-- Two segments that overlap, out of order.
abbrev two_segments : List (Segment ℕ)
two_segments = segment 2 (2 ∷ 3 ∷ 4 ∷ []) ∷ segment 0 (0 ∷ 1 ∷ 2 ∷ []) ∷ []

assemble_range-read_at_example : (1 ∷ 2 ∷ 3 ∷ []) ≡ read_at counting 1 3
unfolding assemble_range assemble_loop take_segment segment_le meets get_range sort_by insert_sorted
assemble_range-read_at_example =
    assemble_range-read_at counting (range 1 3) two_segments
      (record { bytes = 1 ∷ 2 ∷ 3 ∷ []; used_keys = 0 ∷ 2 ∷ [] }) (refl, (refl, tt)) refl

assemble_range_total_example : assemble_range (range 1 3) two_segments ≢ none
assemble_range_total_example =
    assemble_range_total (range 1 3) two_segments (omega arith) (omega arith)
      (omega arith, (omega arith, tt)) (λ x p q. ground arith)

-- A tier of 8 bytes with two entries.
abbrev stored : HotRangeState
stored = record {
  entries = (range 0 3, 0 ∷ 1 ∷ 2 ∷ []) ∷ (range 2 3, 2 ∷ 3 ∷ 4 ∷ []) ∷ [];
  least_recently_used = range 0 3 ∷ range 2 3 ∷ [];
  bytes = 6;
}

abbrev same_order : List RangeKey → List RangeKey
same_order keys = keys

stored-IsBounded : IsBounded 8 stored
stored-IsBounded = record {
  counted = refl;
  within = omega arith;
  distinct = (refl, (refl, tt));
  evictable = (refl, (refl, tt));
}

insert-IsBounded_example : IsBounded 8 (insert 8 (range 5 4) (5 ∷ 6 ∷ 7 ∷ 8 ∷ []) stored)
insert-IsBounded_example =
    insert-IsBounded 8 (range 5 4) (5 ∷ 6 ∷ 7 ∷ 8 ∷ []) stored (omega arith) stored-IsBounded

get-read_at_example : (1 ∷ 2 ∷ 3 ∷ []) ≡ read_at counting 1 3
unfolding get finish_read read_loop copy_from best_candidate candidate_end lookup get_range
    touch_all
get-read_at_example =
    get-read_at same_order (λ _ x. x) (range 1 3) stored (1 ∷ 2 ∷ 3 ∷ [])
      ((refl, refl), ((refl, refl), tt)) refl

get_total_example : (get same_order (range 1 3) stored).0 ≢ none
get_total_example =
    get_total same_order (λ _ x. x) (range 1 3) stored (omega arith)
      ((refl, refl), ((refl, refl), tt)) (omega arith, (omega arith, tt)) (λ x p q. ground arith)
