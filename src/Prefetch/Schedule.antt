-- ===== src/Prefetch/Schedule.antt =====
-- What `schedule` of crates/client-core/src/cached.rs reads ahead.
use quic_kfs.Prelude.{
  ℕ, zero, suc, ◌+◌, ◌-◌, ◌*◌, ◌/◌, ◌≤◌, ◌<◌, ◌≡◌, Bool, true, false, not, ◌&&◌, ◌||◌, List, [],
  ◌∷◌, arith, ltb, leb, ◌==◌, length, any, All, u64_max, saturating_add, min, max, Bool-cases, inl,
  inr,
}
use quic_kfs.Cache.Keys.{RangeKey}
use quic_kfs.Prefetch.Stream.{
  PrefetchStream, Read, read_end, schedule_loop, demand_block_end, schedule_target, schedule,
  schedule_burst_blocks,
}

-- A block of the file that is read, not empty and no longer than the block size.
pub record IsBlock (r : Read) (b : RangeKey) : Type 0 where
  pub node : b.file.node ≡ r.node
  pub revision : b.file.revision ≡ r.revision
  pub positive : 0 < b.length
  pub short : b.length ≤ r.block_size
  pub inside : b.offset + b.length ≤ r.size

-- Each block ends before the next ones start.
abbrev pub Increasing : List RangeKey → Type 0
Increasing [] = Unit
Increasing (b ∷ bs) = All (λ c. b.offset + b.length ≤ c.offset) bs × Increasing bs

abbrev pub block_has : ℕ → RangeKey → Bool
block_has x b = leb b.offset x && ltb x (b.offset + b.length)

abbrev pub Between : ℕ → ℕ → RangeKey → Type 0
Between lo hi b = (lo ≤ b.offset) × (b.offset + b.length ≤ hi)

All-from :
    (lo lo' hi : ℕ) (bs : List RangeKey)
    → lo' ≤ lo
    → All (Between lo hi) bs
    → All (Between lo' hi) bs
All-from lo lo' hi [] h a = tt
All-from lo lo' hi (b ∷ bs) h a = (omega arith, All-from lo lo' hi bs h a.1)

All-after :
    (m lo hi : ℕ) (bs : List RangeKey)
    → m ≤ lo
    → All (Between lo hi) bs
    → All (λ c. m ≤ c.offset) bs
All-after m lo hi [] h a = tt
All-after m lo hi (b ∷ bs) h a = (omega arith, All-after m lo hi bs h a.1)

-- What is said of the blocks and the cursor of a run of the loop that starts at a cursor.
pub record IsRun (r : Read) (cursor budget : ℕ) (bs : List RangeKey) (cursor' : ℕ) : Type 0 where
  pub blocks : All (IsBlock r) bs
  pub between : All (Between cursor cursor') bs
  pub increasing : Increasing bs
  pub few : length bs ≤ budget
  pub forward : cursor ≤ cursor'
  pub covering :
      (x : ℕ)
      → (leb cursor x && ltb x cursor' && ltb x r.size && not (any (block_has x) bs)) ≡ false

stopped : (r : Read) (cursor budget : ℕ) → IsRun r cursor budget [] cursor
stopped r cursor budget = record {
  blocks = tt;
  between = tt;
  increasing = tt;
  few = omega arith;
  forward = omega arith;
  covering = λ x. ground arith;
}

module _ (r : Read) (positive : 0 < r.block_size) (word : r.size ≤ u64_max) where
  abbrev block_from : ℕ → RangeKey
  block_from cursor = record {
    file = record { node = r.node; revision = r.revision };
    offset = cursor;
    length = min r.block_size (r.size - cursor);
  }

  one_more :
      (cursor budget : ℕ) (bs : List RangeKey) (cursor' : ℕ)
      → cursor < r.size
      → IsRun r (saturating_add cursor r.block_size) budget bs cursor'
      → IsRun r cursor (suc budget) (block_from cursor ∷ bs) cursor'
  one_more cursor budget bs cursor' h run = record {
    blocks = (omega arith, run.blocks);
    between = (
      omega (arith, run.forward),
      All-from (saturating_add cursor r.block_size) cursor cursor' bs (omega arith) run.between,
    );
    increasing = (
      All-after (cursor + min r.block_size (r.size - cursor)) (saturating_add cursor r.block_size)
          cursor' bs (omega arith) run.between,
      run.increasing,
    );
    few = omega (arith, run.few);
    forward = omega (arith, run.forward);
    covering = λ x. ground (arith, run.covering x);
  }

  schedule_loop-IsRun :
      (target budget cursor : ℕ)
      → target ≤ r.size
      → IsRun r cursor budget
          (schedule_loop r target budget cursor).0
          (schedule_loop r target budget cursor).1
  unfolding schedule_loop
  schedule_loop-IsRun target zero cursor h = stopped r cursor 0
  schedule_loop-IsRun target (suc budget) cursor h = elim (Bool-cases (ltb cursor target)) [
    | inr past ↦ rw (past, schedule_loop) (stopped r cursor (suc budget))
    | inl more ↦ elim (Bool-cases (min r.block_size (r.size - cursor) == 0)) [
      | inl nothing ↦ absurd (ground arith)
      | inr some' ↦
          rw (more, some', schedule_loop)
            (one_more cursor budget _ _ (ground arith)
              (schedule_loop-IsRun target budget (saturating_add cursor r.block_size) h))
    ]
  ]

-- The next demand block starts at or after the end of the read.
read_end-le-demand_block_end :
    (r : Read) → 0 < r.block_size → r.size ≤ u64_max → min (read_end r) r.size ≤ demand_block_end r
unfolding demand_block_end
read_end-le-demand_block_end r h word = omega (arith, rounded (read_end r) r.block_size h)
  where
    rounded : (a b : ℕ) → 0 < b → a ≤ (a + (b - 1)) / b * b
    rounded a b h' = grind arith

-- If the block size is not 0 and the file's size is a 64-bit word, then the blocks that a read
-- schedules are blocks of its file and revision, not empty, no longer than the block size and
-- within the file's size; they come in order and do not overlap; there are at most
-- SCHEDULE_BURST_BLOCKS of them, and no more than the stream's window, capped, has free; they start
-- at or after the stream's old cursor and the end of the read (or the file), and end at or before
-- the new cursor.
pub schedule-IsBlock :
    (r : Read) (s : PrefetchStream)
    → 0 < r.block_size
    → r.size ≤ u64_max
    → All (IsBlock r) (schedule r s).1
      × Increasing (schedule r s).1
      × (length (schedule r s).1 ≤ schedule_burst_blocks)
      × (length (schedule r s).1 ≤ min s.window_blocks r.cap_blocks - s.inflight)
      × All
          (Between (max s.cursor (min (read_end r) r.size)) (schedule r s).0.cursor)
          (schedule r s).1
unfolding schedule
schedule-IsBlock r s positive word =
    elim (Bool-cases (min s.window_blocks r.cap_blocks == 0 || r.size == 0)) [
      | inl nothing ↦ rw nothing (tt, tt, omega arith, omega arith, tt)
      | inr some' ↦
          let run =
            schedule_loop-IsRun r positive word
              (schedule_target r (min s.window_blocks r.cap_blocks))
              (min (min s.window_blocks r.cap_blocks - s.inflight) schedule_burst_blocks)
              (max s.cursor (demand_block_end r)) (unfold schedule_target in omega arith) in
          rw some' (
            run.blocks,
            run.increasing,
            omega (arith, run.few),
            omega (arith, run.few),
            All-from _ _ _ _ (omega (arith, read_end-le-demand_block_end r positive word))
                run.between,
          )
    ]

-- If the block size is not 0 and the file's size is a 64-bit word, no byte is left out: every
-- offset of the file from where the blocks start up to the new cursor is in a block.
pub schedule_covers :
    (r : Read) (s : PrefetchStream) (x : ℕ)
    → 0 < r.block_size
    → r.size ≤ u64_max
    → max s.cursor (demand_block_end r) ≤ x
    → x < (schedule r s).0.cursor
    → x < r.size
    → any (block_has x) (schedule r s).1 ≡ true
unfolding schedule
schedule_covers r s x positive word from below inside =
    elim (Bool-cases (min s.window_blocks r.cap_blocks == 0 || r.size == 0)) [
      | inl nothing ↦ absurd (ground arith)
      | inr some' ↦
          let run =
            schedule_loop-IsRun r positive word
              (schedule_target r (min s.window_blocks r.cap_blocks))
              (min (min s.window_blocks r.cap_blocks - s.inflight) schedule_burst_blocks)
              (max s.cursor (demand_block_end r)) (unfold schedule_target in omega arith) in
          rw some' (ground (arith, run.covering x))
    ]
