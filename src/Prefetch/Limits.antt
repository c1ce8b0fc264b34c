-- ===== src/Prefetch/Limits.antt =====
-- The limits of the controller of crates/client-core/src/cached.rs, over every history of reads,
-- completions and blocks that are given back.
use quic_kfs.Prelude.{
  ℕ, zero, suc, ◌-◌, ◌≤◌, ◌<◌, ◌≢◌, Bool, true, false, ◌||◌, none, some, List, [], ◌∷◌, arith, ltb,
  leb, ◌==◌, length, length-append, All, All-append, saturating_add, min, max, Bool-cases,
  Option-cases, inl, inr,
}
use quic_kfs.Prefetch.Stream.{
  PrefetchStream, Read, schedule, schedule_loop, arm, grow, touched, advance, prime, fresh,
  sequential_trigger, schedule_target, schedule_burst_blocks, demand_block_end, prime_window_blocks,
}
use quic_kfs.Prefetch.Controller.{
  SequentialPrefetcher, max_prefetch_streams, least_index, match_key, get_elem?, recycle, start,
  continue_at, enter, observe_entered, observe,
}
use quic_kfs.Prefetch.Slots.{
  least_index-lt, least_index-ne-none, set-All, length-set, get_elem?-All, swap_remove-All,
  length-swap_remove,
}

-- `blocks` is the read-ahead limit in blocks, the greatest `cap_blocks` of any read.
pub record IsStream (blocks : ℕ) (s : PrefetchStream) : Type 0 where
  pub window : s.window_blocks ≤ blocks
  pub flight : s.inflight ≤ blocks

pub record IsController (blocks : ℕ) (p : SequentialPrefetcher) : Type 0 where
  pub few : length p.streams ≤ max_prefetch_streams
  pub each : All (IsStream blocks) p.streams

length-schedule_loop :
    (r : Read) (target budget cursor : ℕ) → length (schedule_loop r target budget cursor).0 ≤ budget
unfolding schedule_loop
length-schedule_loop r target zero cursor = omega arith
length-schedule_loop r target (suc budget) cursor =
    ground (arith, length-schedule_loop r target budget (saturating_add cursor r.block_size))

schedule-IsStream :
    (blocks : ℕ) (r : Read) (s : PrefetchStream)
    → r.cap_blocks ≤ blocks
    → IsStream blocks s
    → IsStream blocks (schedule r s).0
unfolding schedule
schedule-IsStream blocks r s capped i = ground (
  arith,
  length-schedule_loop r (schedule_target r (min s.window_blocks r.cap_blocks))
      (min (min s.window_blocks r.cap_blocks - s.inflight) schedule_burst_blocks)
      (max s.cursor (demand_block_end r)),
)

module _ (blocks : ℕ) (r : Read) (capped : r.cap_blocks ≤ blocks) where
  advance-IsStream :
      (touch : ℕ) (s : PrefetchStream) → IsStream blocks s → IsStream blocks (advance r touch s).0
  unfolding advance touched arm grow
  advance-IsStream touch s i = elim (Bool-cases (ltb (touched r touch s).run sequential_trigger)) [
    | inl early ↦ rw early (record { window = i.window; flight = i.flight })
    | inr more ↦
        rw more
          (schedule-IsStream blocks r (grow r (arm r (touched r touch s))) capped (ground arith))
  ]

  prime-IsStream :
      (first : Bool) (s : PrefetchStream) → IsStream blocks s → IsStream blocks (prime r first s).0
  unfolding prime
  prime-IsStream false s i = i
  prime-IsStream true s i =
      let scheduled =
        schedule-IsStream blocks r
          (record s { window_blocks = min prime_window_blocks r.cap_blocks }) capped
          (record { window = omega arith; flight = i.flight }) in
      record { window = omega arith; flight = scheduled.flight }

  prime_start : (first : Bool) (id touch : ℕ) → IsStream blocks (prime r first (fresh r id touch)).0
  prime_start first id touch =
      prime-IsStream first (fresh r id touch)
        (record { window = omega arith; flight = omega arith })

recycle_lem :
    (blocks : ℕ) (ss : List PrefetchStream)
    → length ss ≤ max_prefetch_streams
    → All (IsStream blocks) ss
    → All (IsStream blocks) (recycle ss) × (length (recycle ss) < max_prefetch_streams)
unfolding recycle
recycle_lem blocks ss h a = elim (Bool-cases (leb max_prefetch_streams (length ss))) [
  | inr room ↦ rw room (a, ground arith)
  | inl full ↦ elim (Option-cases (least_index (λ s. some s.last_touch) ss)) [
    | inl none' ↦ absurd (some_oldest ss (ground arith) none')
    | inr ((i, k), oldest) ↦
        rw (full, oldest)
          (
            swap_remove-All (IsStream blocks) i ss a,
            omega (
              arith,
              length-swap_remove (IsStream blocks) i ss a
                  (least_index-lt (λ s. some s.last_touch) ss i k oldest),
            ),
          )
  ]
]
  where
    some_oldest :
        (xs : List PrefetchStream) → 0 < length xs → least_index (λ s. some s.last_touch) xs ≢ none
    some_oldest [] h' = absurd (omega arith)
    some_oldest (x ∷ xs) h' = least_index-ne-none x xs

module _ (blocks : ℕ) (r : Read) (capped : r.cap_blocks ≤ blocks) where
  start-IsController :
      (p : SequentialPrefetcher) → IsController blocks p → IsController blocks (start r p).0
  unfolding start
  start-IsController p c =
      let (each, few) = recycle_lem blocks p.streams c.few c.each in
      record {
        few = omega (arith, length-append {0} (recycle p.streams), few);
        each =
            All-append (IsStream blocks) (recycle p.streams) _ each
              (prime_start blocks r capped _ _ _, tt);
      }

  continue_at-IsController :
      (index : ℕ) (p : SequentialPrefetcher)
      → IsController blocks p
      → IsController blocks (continue_at r index p).0
  unfolding continue_at
  continue_at-IsController index p c = elim (Option-cases (get_elem? p.streams index)) [
    | inl none' ↦ rw (none', continue_at) c
    | inr (s, found) ↦
        rw (found, continue_at)
          (record {
            few = omega (arith, length-set p.streams index (advance r p.touch_counter s).0, c.few);
            each =
                set-All (IsStream blocks) p.streams index (advance r p.touch_counter s).0 c.each (
                  advance-IsStream blocks r capped p.touch_counter s
                    (get_elem?-All (IsStream blocks) p.streams index s c.each found));
          })
  ]

  enter-IsController :
      (p : SequentialPrefetcher) → IsController blocks p → IsController blocks (enter r p)
  unfolding enter
  enter-IsController p c = elim (Bool-cases (r.revision == p.revision)) [
    | inl same ↦ rw same (record { few = c.few; each = c.each })
    | inr other ↦ rw other (record { few = omega arith; each = tt })
  ]

  observe_entered-IsController :
      (p : SequentialPrefetcher)
      → IsController blocks p
      → IsController blocks (observe_entered r p).0
  unfolding observe_entered
  observe_entered-IsController p c = elim (Option-cases (least_index (match_key r) p.streams)) [
    | inl cold ↦ rw (cold, observe_entered) (start-IsController p c)
    | inr ((i, k), matched) ↦ rw (matched, observe_entered) (continue_at-IsController i p c)
  ]

  -- If the read's limit is within `blocks`, then after it there are at most MAX_PREFETCH_STREAMS
  -- streams again, each with a window and with outstanding reads of at most `blocks` blocks.
  pub observe-IsController :
      (p : SequentialPrefetcher) → IsController blocks p → IsController blocks (observe r p).0
  unfolding observe
  observe-IsController p c = elim (Bool-cases (r.block_size == 0 || r.cap_blocks == 0)) [
    | inl off ↦ rw off c
    | inr on ↦ rw on (observe_entered-IsController (enter r p) (enter-IsController p c))
  ]
