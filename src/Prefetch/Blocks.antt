-- ===== src/Prefetch/Blocks.antt =====
-- demand_block_size, blocks_for and prefetch_permits_for of crates/client-core/src/cached.rs.
use quic_kfs.Prelude.{
  ℕ, zero, suc, ◌+◌, ◌-◌, ◌*◌, ◌/◌, true, false, none, some, List, [], ◌∷◌, ltb, leb, ◌==◌,
  if◌then◌else◌, checked_add, min, max,
}
use quic_kfs.Cache.Keys.{RangeKey}

abbrev pub small_read_ahead_block_size : ℕ
small_read_ahead_block_size = 1048576

abbrev pub small_read_threshold : ℕ
small_read_threshold = 1048576

abbrev pub prefetch_permit_unit : ℕ
prefetch_permit_unit = 65536

abbrev pub u32_max : ℕ
u32_max = 4294967295

-- u64::div_ceil
abbrev pub div_ceil : ℕ → ℕ → ℕ
div_ceil a b = (a + (b - 1)) / b

-- `u32::try_from(..).unwrap_or(u32::MAX).clamp(1, total.max(1))`
unfoldable pub prefetch_permits_for : ℕ → ℕ → ℕ
prefetch_permits_for length' total =
    min (max (min (div_ceil length' prefetch_permit_unit) u32_max) 1) (max total 1)

-- What a handle knows of its file.
pub record CachedHandle : Type 0 where
  pub node : ℕ
  pub revision : ℕ
  pub size : ℕ

pub data BlocksError : Type 0 where
  invalid_request unexpected_response out_of_fuel : BlocksError

pub data Blocks : Type 0 where
  ok : List RangeKey → Blocks
  err : BlocksError → Blocks

-- `policy_block` is `self.policy.block_size`.
unfoldable pub demand_block_size : ℕ → ℕ → ℕ
demand_block_size policy_block length' =
    if leb length' small_read_threshold
    then min policy_block small_read_ahead_block_size
    else policy_block

-- One block of the request.
unfoldable pub block_at : ℕ → ℕ → CachedHandle → ℕ → RangeKey
block_at policy_block block_size state block_offset = record {
  file = record { node = state.node; revision = state.revision };
  offset = block_offset;
  length = min (min policy_block block_size) (state.size - block_offset);
}

abbrev pub cons_block : RangeKey → Blocks → Blocks
cons_block block (ok blocks) = ok (block ∷ blocks)
cons_block block (err e) = err e

-- The loop of `blocks_for`, from `block_offset` on.
unfoldable pub blocks_loop : ℕ → ℕ → ℕ → CachedHandle → ℕ → ℕ → Blocks
blocks_loop zero policy_block block_size state requested_end block_offset = err out_of_fuel
blocks_loop (suc fuel) policy_block block_size state requested_end block_offset =
    elim (ltb block_offset requested_end) [
      | false ↦ ok []
      | true ↦ elim (checked_add block_offset block_size) [
        | none ↦ err unexpected_response
        | some next ↦
            cons_block (block_at policy_block block_size state block_offset)
              (blocks_loop fuel policy_block block_size state requested_end next)
      ]
    ]

-- The first block starts less than a block before the request, and every round moves on by a
-- block: `length + block_size` rounds and the last test are enough fuel.
unfoldable pub blocks_for : ℕ → CachedHandle → ℕ → ℕ → Blocks
blocks_for policy_block state offset length' = elim (checked_add offset length') [
  | none ↦ err invalid_request
  | some _ ↦
      let requested = min length' (state.size - offset) in
      if requested == 0 then ok [] else elim (checked_add offset requested) [
        | none ↦ err unexpected_response
        | some requested_end ↦
            let block_size = demand_block_size policy_block length' in
            blocks_loop (suc (requested + block_size)) policy_block block_size state requested_end
              (offset / block_size * block_size)
      ]
]
