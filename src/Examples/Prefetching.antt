-- ===== src/Examples/Prefetching.antt =====
-- Read-ahead at work: sequential reads of a file of 1000 bytes in blocks of 100.
use quic_kfs.Prelude.{
  ℕ, ◌-◌, ◌≤◌, ◌≡◌, refl, true, false, List, [], ◌∷◌, arith, All, any, length, min, max,
}
use quic_kfs.Cache.Keys.{RangeKey}
use quic_kfs.Prefetch.Blocks.{
  CachedHandle, Blocks, demand_block_size, block_at, blocks_loop, blocks_for,
}
use quic_kfs.Prefetch.Stream.{
  PrefetchStream, Read, schedule_loop, demand_block_end, schedule_target, schedule,
  schedule_burst_blocks,
}
use quic_kfs.Prefetch.Controller.{empty}
use quic_kfs.Prefetch.Schedule.{
  IsBlock, Increasing, Between, block_has, schedule-IsBlock, schedule_covers,
}
use quic_kfs.Prefetch.Demand.{IsDemandBlock, blocks_for-IsDemandBlock, blocks_for_covers}
use quic_kfs.Prefetch.Limits.{IsController}
use quic_kfs.Prefetch.Histories.{Event, reads, returns, completes, run, run-empty-IsController}

abbrev read_at_offset : ℕ → Read
read_at_offset offset = record {
  node = 3;
  offset = offset;
  returned = 100;
  revision = 1;
  size = 1000;
  elapsed = 20000000;
  block_size = 100;
  cap_blocks = 8;
}

abbrev active_stream : PrefetchStream
active_stream = record {
  id = 1;
  last_touch = 2;
  active = true;
  next_expected = 200;
  run = 2;
  cursor = 200;
  window_blocks = 4;
  inflight = 1;
  bytes_since_growth = 0;
}

abbrev block : ℕ → RangeKey
block offset = record { file = record { node = 3; revision = 1 }; offset = offset; length = 100 }

schedule-IsBlock_example :
    All (IsBlock (read_at_offset 100)) (schedule (read_at_offset 100) active_stream).1
    × Increasing (schedule (read_at_offset 100) active_stream).1
    × (length (schedule (read_at_offset 100) active_stream).1 ≤ schedule_burst_blocks)
    × (length (schedule (read_at_offset 100) active_stream).1 ≤ min 4 8 - 1)
    × All
        (Between (max 200 (min 200 1000)) (schedule (read_at_offset 100) active_stream).0.cursor)
        (schedule (read_at_offset 100) active_stream).1
schedule-IsBlock_example =
    schedule-IsBlock (read_at_offset 100) active_stream (omega arith) (omega arith)

schedule_covers_example : any (block_has 450) (schedule (read_at_offset 100) active_stream).1 ≡ true
unfolding schedule schedule_loop schedule_target demand_block_end
schedule_covers_example =
    schedule_covers (read_at_offset 100) active_stream 450 (omega arith) (omega arith) (omega arith)
      (omega arith) (omega arith)

-- Two reads in order, a block that is given back, and a fetch that fails.
abbrev history : List Event
history =
    reads (read_at_offset 0)
    ∷ reads (read_at_offset 100)
    ∷ returns 1 (block 300 ∷ [])
    ∷ completes 1 false
    ∷ []

run-empty-IsController_example : IsController 8 (run empty history)
run-empty-IsController_example =
    run-empty-IsController 8 history (omega arith, (omega arith, (tt, (tt, tt))))

abbrev the_handle : CachedHandle
the_handle = record { node = 3; revision = 1; size = 1000 }

blocks_for-IsDemandBlock_example :
    (blocks : List RangeKey) × (blocks_for 100 the_handle 150 900 ≡ Blocks.ok blocks)
    × All (IsDemandBlock (demand_block_size 100 900) the_handle) blocks
blocks_for-IsDemandBlock_example =
    blocks_for-IsDemandBlock 100 the_handle 150 900 (omega arith) (omega arith) (omega arith)

blocks_for_covers_example : any (block_has 240) (block 100 ∷ block 200 ∷ []) ≡ true
unfolding blocks_for blocks_loop block_at demand_block_size
blocks_for_covers_example =
    blocks_for_covers 100 the_handle 150 100 240 (block 100 ∷ block 200 ∷ []) (omega arith)
      (omega arith) (omega arith) refl (omega arith) (omega arith) (omega arith)
