-- ===== src/Prefetch/Controller.antt =====
-- SequentialPrefetcher of crates/client-core/src/cached.rs. Debug output is left out. A duration is
-- its number of nanoseconds.
use quic_kfs.Prelude.{
  ℕ, zero, suc, ◌+◌, ◌-◌, ◌%◌, Bool, true, false, ◌&&◌, ◌||◌, Option, none, some, List, [], ◌∷◌,
  ◌++◌, leb, ◌==◌, if◌then◌else◌, length, saturating_add, saturating_mul,
}
use quic_kfs.Cache.Keys.{RangeKey}
use quic_kfs.Prefetch.Stream.{PrefetchStream, Read, advance, fresh, prime, release, finish}

abbrev pub max_prefetch_streams : ℕ
max_prefetch_streams = 4

abbrev pub sequential_slack_blocks : ℕ
sequential_slack_blocks = 1

-- u64::wrapping_add(1)
abbrev pub wrapping_succ : ℕ → ℕ
wrapping_succ n = (n + 1) % 18446744073709551616

-- u64::abs_diff
abbrev pub abs_diff : ℕ → ℕ → ℕ
abs_diff a b = (a - b) + (b - a)

pub record SequentialPrefetcher : Type 0 where
  pub revision : ℕ
  pub next_stream_id : ℕ
  pub touch_counter : ℕ
  pub streams : List PrefetchStream

-- SequentialPrefetcher::default
abbrev pub empty : SequentialPrefetcher
empty = record { revision = 0; next_stream_id = 0; touch_counter = 0; streams = [] }

-- `min_by_key` over the entries that have a key: the first of the least, with its index.
unfoldable pub least_index : (PrefetchStream → Option ℕ) → List PrefetchStream → Option (ℕ × ℕ)
least_index key [] = none
least_index key (s ∷ ss) = elim (key s) [
  | none ↦ elim (least_index key ss) [ none ↦ none | some (i, k) ↦ some (suc i, k) ]
  | some k ↦ elim (least_index key ss) [
    | none ↦ some (0, k)
    | some (i, k') ↦ if leb k k' then some (0, k) else some (suc i, k')
  ]
]

abbrev pub slack : Read → ℕ
slack r = saturating_mul r.block_size sequential_slack_blocks

-- The distance of a read from the stream that it continues, if it does.
unfoldable pub match_key : Read → PrefetchStream → Option ℕ
match_key r stream =
    if leb r.offset (saturating_add stream.next_expected (slack r))
      && leb stream.next_expected (saturating_add r.offset (slack r))
    then some (abs_diff stream.next_expected r.offset)
    else none

unfoldable pub get_elem? : List PrefetchStream → ℕ → Option PrefetchStream
get_elem? [] i = none
get_elem? (s ∷ ss) zero = some s
get_elem? (s ∷ ss) (suc i) = get_elem? ss i

unfoldable pub set : List PrefetchStream → ℕ → PrefetchStream → List PrefetchStream
set [] i v = []
set (s ∷ ss) zero v = v ∷ ss
set (s ∷ ss) (suc i) v = s ∷ set ss i v

-- The last element first, the others in their order.
unfoldable pub last_to_front : List PrefetchStream → List PrefetchStream
last_to_front [] = []
last_to_front (s ∷ ss) = elim (last_to_front ss) [ [] ↦ s ∷ [] | last ∷ others ↦ last ∷ s ∷ others ]

-- Vec::swap_remove
unfoldable pub swap_remove : ℕ → List PrefetchStream → List PrefetchStream
unfolding last_to_front
swap_remove i [] = []
swap_remove zero (s ∷ ss) = last_to_front ss
swap_remove (suc i) (s ∷ ss) = s ∷ swap_remove i ss

-- The slots after the least recently used one is recycled, if all are taken.
unfoldable pub recycle : List PrefetchStream → List PrefetchStream
unfolding swap_remove least_index
recycle streams =
    if leb max_prefetch_streams (length streams)
    then elim (least_index (λ s. some s.last_touch) streams) [
      | none ↦ streams
      | some (oldest, _) ↦ swap_remove oldest streams
    ]
    else streams

abbrev pub is_empty : List PrefetchStream → Bool
is_empty [] = true
is_empty (s ∷ ss) = false

abbrev pub Observation : Type 0
Observation = SequentialPrefetcher × (ℕ × List RangeKey)

unfoldable pub start : Read → SequentialPrefetcher → Observation
start r p =
    let id = wrapping_succ p.next_stream_id in
    let (stream, blocks) = prime r (is_empty p.streams) (fresh r id p.touch_counter) in
    (record p { next_stream_id = id; streams = recycle p.streams ++ stream ∷ [] }, (id, blocks))

-- `self.streams[index]` panics out of bounds; an index that was found is in bounds.
unfoldable pub continue_at : Read → ℕ → SequentialPrefetcher → Observation
continue_at r index p = elim (get_elem? p.streams index) [
  | none ↦ (p, (0, []))
  | some stream ↦
      let (stream', blocks) = advance r p.touch_counter stream in
      (record p { streams = set p.streams index stream' }, (stream'.id, blocks))
]

-- A read of another revision forgets every stream, and each read takes the next touch ordinal.
unfoldable pub enter : Read → SequentialPrefetcher → SequentialPrefetcher
enter r p =
    let q = if r.revision == p.revision then p else record empty { revision = r.revision } in
    record q { touch_counter = wrapping_succ q.touch_counter }

unfoldable pub observe_entered : Read → SequentialPrefetcher → Observation
observe_entered r p = elim (least_index (match_key r) p.streams) [
  | none ↦ start r p
  | some (index, _) ↦ continue_at r index p
]

unfoldable pub observe : Read → SequentialPrefetcher → Observation
observe r p =
    if r.block_size == 0 || r.cap_blocks == 0 then (p, (0, [])) else observe_entered r (enter r p)

-- `iter_mut().find(|stream| stream.id == stream_id)`, and a change of the stream found.
unfoldable pub update_stream :
    ℕ → (PrefetchStream → PrefetchStream) → List PrefetchStream → List PrefetchStream
update_stream id f [] = []
update_stream id f (s ∷ ss) = if s.id == id then f s ∷ ss else s ∷ update_stream id f ss

unfoldable pub unschedule : ℕ → List RangeKey → SequentialPrefetcher → SequentialPrefetcher
unfolding update_stream release
unschedule id blocks p = record p { streams = update_stream id (release blocks) p.streams }

unfoldable pub complete : ℕ → Bool → SequentialPrefetcher → SequentialPrefetcher
unfolding update_stream finish
complete id done p = record p { streams = update_stream id (finish done) p.streams }
