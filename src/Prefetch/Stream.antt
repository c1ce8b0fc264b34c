-- ===== src/Prefetch/Stream.antt =====
-- One stream of SequentialPrefetcher in crates/client-core/src/cached.rs. Debug output is left out. A duration is
-- its number of nanoseconds.
use quic_kfs.Prelude.{
  ℕ, zero, suc, ◌-◌, ◌/◌, Bool, true, false, ◌&&◌, ◌||◌, List, [], ◌∷◌, ltb, leb, ◌==◌,
  if◌then◌else◌, length, saturating_add, saturating_mul, min, max,
}
use quic_kfs.Cache.Keys.{RangeKey}
use quic_kfs.Prefetch.Blocks.{div_ceil}

abbrev pub sequential_trigger : ℕ
sequential_trigger = 2

abbrev pub prime_window_blocks : ℕ
prime_window_blocks = 2

abbrev pub initial_active_window_blocks : ℕ
initial_active_window_blocks = 4

-- Duration::from_millis(10)
abbrev pub demand_stall_floor : ℕ
demand_stall_floor = 10000000

abbrev pub schedule_burst_blocks : ℕ
schedule_burst_blocks = 8

pub record PrefetchStream : Type 0 where
  pub id : ℕ
  pub last_touch : ℕ
  pub active : Bool
  pub next_expected : ℕ
  pub run : ℕ
  pub cursor : ℕ
  pub window_blocks : ℕ
  pub inflight : ℕ
  pub bytes_since_growth : ℕ

-- What a read hands to the controller.
pub record Read : Type 0 where
  pub node : ℕ
  pub offset : ℕ
  pub returned : ℕ
  pub revision : ℕ
  pub size : ℕ
  pub elapsed : ℕ
  pub block_size : ℕ
  pub cap_blocks : ℕ

abbrev pub read_end : Read → ℕ
read_end r = saturating_add r.offset r.returned

-- The `while` loop of `schedule`: it stops after `budget` blocks, at `target`, or at a block of no
-- bytes. It returns the blocks and the cursor.
unfoldable pub schedule_loop : Read → ℕ → ℕ → ℕ → List RangeKey × ℕ
schedule_loop r target zero cursor = ([], cursor)
schedule_loop r target (suc budget) cursor = elim (ltb cursor target) [
  | false ↦ ([], cursor)
  | true ↦
      let length' = min r.block_size (r.size - cursor) in
      elim (length' == 0) [
        | true ↦ ([], cursor)
        | false ↦
            let (rest, cursor') =
              schedule_loop r target budget (saturating_add cursor r.block_size) in
            (
              record {
                file = record { node = r.node; revision = r.revision };
                offset = cursor;
                length = length';
              }
                  ∷ rest,
              cursor',
            )
      ]
]

-- The block boundary past the current read.
unfoldable pub demand_block_end : Read → ℕ
demand_block_end r = min (saturating_mul (div_ceil (read_end r) r.block_size) r.block_size) r.size

unfoldable pub schedule_target : Read → ℕ → ℕ
unfolding demand_block_end
schedule_target r window =
    min (saturating_add (demand_block_end r) (saturating_mul window r.block_size)) r.size

unfoldable pub schedule : Read → PrefetchStream → PrefetchStream × List RangeKey
schedule r stream =
    let window = min stream.window_blocks r.cap_blocks in
    if window == 0 || r.size == 0
    then (stream, [])
    else let (blocks, cursor) =
        schedule_loop r (schedule_target r window)
          (min (window - stream.inflight) schedule_burst_blocks)
          (max stream.cursor (demand_block_end r)) in
      (
        record stream {
          cursor = cursor;
          inflight = saturating_add stream.inflight (length blocks);
        },
        blocks,
      )

-- The part of `observe` on the stream that the read continues, up to `schedule`.
unfoldable pub arm : Read → PrefetchStream → PrefetchStream
arm r s = if s.active then s else record s {
  active = true;
  window_blocks = min initial_active_window_blocks r.cap_blocks;
  cursor = max s.cursor (read_end r);
  bytes_since_growth = 0;
}

unfoldable pub grow : Read → PrefetchStream → PrefetchStream
grow r s =
    let bytes = saturating_add s.bytes_since_growth r.returned in
    if leb demand_stall_floor r.elapsed
      && ltb s.window_blocks r.cap_blocks
      && leb (saturating_mul (max s.window_blocks 1) r.block_size / 2) bytes
    then record s {
      window_blocks = min (saturating_mul s.window_blocks 2) r.cap_blocks;
      bytes_since_growth = 0;
    }
    else record s { bytes_since_growth = bytes }

unfoldable pub touched : Read → ℕ → PrefetchStream → PrefetchStream
touched r touch s = record s {
  last_touch = touch;
  run = saturating_add s.run 1;
  next_expected = max s.next_expected (read_end r);
}

unfoldable pub advance : Read → ℕ → PrefetchStream → PrefetchStream × List RangeKey
advance r touch stream =
    let s = touched r touch stream in
    if ltb s.run sequential_trigger then (s, []) else schedule r (grow r (arm r s))

abbrev pub fresh : Read → ℕ → ℕ → PrefetchStream
fresh r id touch = record {
  id = id;
  last_touch = touch;
  active = false;
  next_expected = read_end r;
  run = 1;
  cursor = read_end r;
  window_blocks = 0;
  inflight = 0;
  bytes_since_growth = 0;
}

-- A stream that a read starts, and what is read ahead for it: something only if it is the first.
unfoldable pub prime : Read → Bool → PrefetchStream → PrefetchStream × List RangeKey
prime r false stream = (stream, [])
prime r true stream =
    let (scheduled, blocks) =
      schedule r (record stream { window_blocks = min prime_window_blocks r.cap_blocks }) in
    (record scheduled { window_blocks = 0 }, blocks)

unfoldable pub release : List RangeKey → PrefetchStream → PrefetchStream
release [] s = s
release (first ∷ rest) s = record s {
  inflight = s.inflight - length (first ∷ rest);
  cursor = min s.cursor first.offset;
}

unfoldable pub finish : Bool → PrefetchStream → PrefetchStream
finish true s = record s { inflight = s.inflight - 1 }
finish false s = record s {
  inflight = s.inflight - 1;
  active = false;
  window_blocks = 0;
  bytes_since_growth = 0;
}
