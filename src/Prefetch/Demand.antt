-- ===== src/Prefetch/Demand.antt =====
-- What `blocks_for` and `prefetch_permits_for` of crates/client-core/src/cached.rs return.
use quic_kfs.Prelude.{
  ℕ, zero, suc, ◌+◌, ◌-◌, ◌*◌, ◌/◌, ◌≤◌, ◌<◌, ◌≡◌, refl, true, false, not, ◌&&◌, some, List, [],
  ◌∷◌, arith, ltb, leb, ◌==◌, any, All, u64_max, checked_add, sym, subst, ◌∙◌, ◌⊎◌, min, max,
  Bool-cases, inl, inr,
}
use quic_kfs.Cache.Keys.{RangeKey}
use quic_kfs.Prefetch.Blocks.{
  CachedHandle, Blocks, demand_block_size, block_at, blocks_loop, blocks_for, prefetch_permits_for,
  prefetch_permit_unit, u32_max,
}
use quic_kfs.Prefetch.Schedule.{block_has}

-- A block of the handle's file and revision that is not empty, starts at a multiple of the block
-- size, is no longer than it, and lies within the file.
pub record IsDemandBlock (block_size : ℕ) (state : CachedHandle) (b : RangeKey) : Type 0 where
  pub node : b.file.node ≡ state.node
  pub revision : b.file.revision ≡ state.revision
  pub positive : 0 < b.length
  pub short : b.length ≤ block_size
  pub inside : b.offset + b.length ≤ state.size
  pub index : ℕ
  pub aligned : b.offset ≡ index * block_size

module _ (policy_block block_size : ℕ) (state : CachedHandle) where
  -- What the loop gives from a cursor on.
  record IsTiling (requested_end cursor : ℕ) (blocks : List RangeKey) : Type 0 where
    pub each : All (IsDemandBlock block_size state) blocks
    pub covering :
        (x : ℕ) → (leb cursor x && ltb x requested_end && not (any (block_has x) blocks)) ≡ false

  block_at-IsDemandBlock :
      (cursor k : ℕ)
      → 0 < block_size
      → block_size ≤ policy_block
      → cursor ≡ k * block_size
      → cursor < state.size
      → IsDemandBlock block_size state (block_at policy_block block_size state cursor)
  unfolding block_at
  block_at-IsDemandBlock cursor k positive small aligned inside = record {
    node = refl;
    revision = refl;
    positive = omega arith;
    short = omega arith;
    inside = omega arith;
    index = k;
    aligned = aligned;
  }

  block_at_covers :
      (requested_end cursor x : ℕ) (blocks : List RangeKey)
      → block_size ≤ policy_block
      → requested_end ≤ state.size
      → (leb (cursor + block_size) x && ltb x requested_end && not (any (block_has x) blocks))
        ≡ false
      → (leb cursor x
          && ltb x requested_end
          && not (any (block_has x) (block_at policy_block block_size state cursor ∷ blocks)))
        ≡ false
  unfolding block_at
  block_at_covers requested_end cursor x blocks small inside h = ground arith

  blocks_loop_tiles :
      (fuel requested_end cursor k : ℕ)
      → 0 < block_size
      → block_size ≤ policy_block
      → requested_end ≤ state.size
      → state.size + block_size ≤ u64_max
      → cursor ≡ k * block_size
      → requested_end - cursor < fuel
      → (blocks : List RangeKey) × (blocks_loop fuel policy_block block_size state requested_end
            cursor
          ≡ Blocks.ok blocks)
        × IsTiling requested_end cursor blocks
  unfolding blocks_loop
  blocks_loop_tiles zero requested_end cursor k positive small inside word aligned enough =
      absurd (omega arith)
  blocks_loop_tiles (suc fuel) requested_end cursor k positive small inside word aligned enough =
      elim (Bool-cases (ltb cursor requested_end)) [
        | inr past ↦
            ([], rw (past, blocks_loop) refl, record { each = tt; covering = λ x. ground arith })
        | inl more ↦
            let (rest, e, tiling) =
              blocks_loop_tiles fuel requested_end (cursor + block_size) (suc k) positive small
                inside word (grind arith) (ground arith) in
            (
              block_at policy_block block_size state cursor ∷ rest,
              rw (more, no_overflow more, blocks_loop, e) refl,
              record {
                each = (
                  block_at-IsDemandBlock cursor k positive small aligned (ground arith),
                  tiling.each,
                );
                covering = λ x.
                    block_at_covers requested_end cursor x rest small inside (tiling.covering x);
              },
            )
      ]
    where
      no_overflow :
          ltb cursor requested_end ≡ true
          → checked_add cursor block_size ≡ some (cursor + block_size)
      no_overflow h = ground arith

demand_block_size-positive : (p n : ℕ) → 0 < p → 0 < demand_block_size p n
unfolding demand_block_size
demand_block_size-positive p n h = ground arith

demand_block_size-le : (p n : ℕ) → demand_block_size p n ≤ p
unfolding demand_block_size
demand_block_size-le p n = ground arith

-- The start of the block that an offset is in.
block_start : (a b : ℕ) → 0 < b → (a / b * b ≤ a) × (a < a / b * b + b)
block_start a b h = (grind arith, grind arith)

-- What `blocks_for` returns, whole.
blocks_for_tiles :
    (policy_block : ℕ) (state : CachedHandle) (offset length' : ℕ)
    → 0 < policy_block
    → offset + length' ≤ u64_max
    → state.size + policy_block ≤ u64_max
    → (blocks : List RangeKey) × (blocks_for policy_block state offset length' ≡ Blocks.ok blocks)
      × All (IsDemandBlock (demand_block_size policy_block length') state) blocks
      × ((x : ℕ)
          → (leb offset x
              && ltb x (offset + min length' (state.size - offset))
              && not (any (block_has x) blocks))
            ≡ false)
unfolding blocks_for
blocks_for_tiles policy_block state offset length' positive fits word =
    elim (Bool-cases (min length' (state.size - offset) == 0)) [
      | inl nothing ↦ ([], rw (no_overflow, nothing, blocks_for) refl, tt, λ x. ground arith)
      | inr some' ↦
          let small = demand_block_size-le policy_block length' in
          let at_least = demand_block_size-positive policy_block length' positive in
          let start = block_start offset block_size at_least in
          let (blocks, e, tiling) =
            blocks_loop_tiles policy_block block_size state (suc (requested + block_size))
              (offset + requested) (offset / block_size * block_size) (offset / block_size) at_least
              small (ground arith) (omega arith) refl (omega arith) in
          (
            blocks,
            rw (no_overflow, some', requested_fits, blocks_for) e,
            tiling.each,
            λ x. ground (arith, tiling.covering x),
          )
    ]
  where
    block_size : ℕ
    block_size = demand_block_size policy_block length'

    requested : ℕ
    requested = min length' (state.size - offset)

    no_overflow : checked_add offset length' ≡ some (offset + length')
    no_overflow = ground arith

    requested_fits : checked_add offset requested ≡ some (offset + requested)
    requested_fits = ground arith

-- If the policy's block size is not 0, the request ends at a 64-bit offset and so does the file
-- with one block more, then a demand read gets its blocks, and each is of the handle's file and
-- revision, not empty, aligned to the demand block size, no longer than it, and within the file.
pub blocks_for-IsDemandBlock :
    (policy_block : ℕ) (state : CachedHandle) (offset length' : ℕ)
    → 0 < policy_block
    → offset + length' ≤ u64_max
    → state.size + policy_block ≤ u64_max
    → (blocks : List RangeKey) × (blocks_for policy_block state offset length' ≡ Blocks.ok blocks)
      × All (IsDemandBlock (demand_block_size policy_block length') state) blocks
blocks_for-IsDemandBlock policy_block state offset length' positive fits word =
    let (blocks, e, each, _) =
      blocks_for_tiles policy_block state offset length' positive fits word in
    (blocks, e, each)

-- If the policy's block size is not 0, the request ends at a 64-bit offset and so does the file
-- with one block more, then the blocks of a demand read cover it: every byte of the file that is
-- requested lies in one of them.
pub blocks_for_covers :
    (policy_block : ℕ) (state : CachedHandle) (offset length' x : ℕ) (blocks : List RangeKey)
    → 0 < policy_block
    → offset + length' ≤ u64_max
    → state.size + policy_block ≤ u64_max
    → blocks_for policy_block state offset length' ≡ Blocks.ok blocks
    → offset ≤ x
    → x < offset + length'
    → x < state.size
    → any (block_has x) blocks ≡ true
blocks_for_covers policy_block state offset length' x blocks positive fits word e from to inside =
    let (blocks', e', _, covering) =
      blocks_for_tiles policy_block state offset length' positive fits word in
    let same = ok-injective (sym e' ∙ e) in
    subst (λ bs. any (block_has x) bs ≡ true) same (ground (arith, covering x))
  where
    ok-injective : {a b : List RangeKey} → Blocks.ok a ≡ Blocks.ok b → a ≡ b
    ok-injective h = cc

-- A fetch takes at least one permit and no more than the pool has (or one), and its permits cover
-- its bytes unless they are the whole pool (or one) or u32::MAX.
pub prefetch_permits_for_bounds :
    (length' total : ℕ)
    → (1 ≤ prefetch_permits_for length' total)
      × (prefetch_permits_for length' total ≤ max total 1)
      × (length' ≤ prefetch_permits_for length' total * prefetch_permit_unit
          ⊎ (prefetch_permits_for length' total ≡ max total 1)
          ⊎ (prefetch_permits_for length' total ≡ u32_max))
unfolding prefetch_permits_for
prefetch_permits_for_bounds length' total = (omega arith, omega arith, ground arith)
