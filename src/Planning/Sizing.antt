-- ===== src/Planning/Sizing.antt =====
-- `size_rank` of planning.py, one definition for each stretch of its body. Its divisions are by
-- `pool_bytes_per_block` and by `sequence_blocks`, which the checks of `RankGeometry` keep above 0.
pub mod Stages
pub mod Trace
pub mod Bounds
pub mod Bytes
pub mod Concurrency
pub mod Total
pub mod Refusals
pub mod Examples
use kapsl_integrations.Prelude.{
  ℕ, ◌-◌, ◌/◌, min, max, Bool, false, ◌&&◌, Option, none, some, ok, raise_if, ltb, ◌>>=◌, ◌>>◌,
}
use kapsl_integrations.Planning.Errors.{
  Planned, min_bytes_below_minimum, max_bytes_below_minimum, min_max_conflict, maximum_below_target,
  no_whole_sequence, strict_reduction,
}
use kapsl_integrations.Planning.Types.{CacheGroupGeometry, RankGeometry, SizingPolicy, RankSizing}
use kapsl_integrations.Planning.Checked.{
  checked_add, checked_mul, ceil_div, round_up, round_down, checked_total,
}

-- The property `RankGeometry.required_blocks_per_sequence`.
unfoldable pub required_blocks_per_sequence : RankGeometry → Planned ℕ
required_blocks_per_sequence rank =
    checked_total (λ (g : CacheGroupGeometry). g.required_blocks_per_sequence)
      "required_blocks_per_sequence" 0 rank.groups

pub record Minimum : Type 0 where
  pub blocks : ℕ
  pub bytes : ℕ

-- One sequence of full length, with the fixed overhead.
unfoldable pub minimum_of : RankGeometry → SizingPolicy → ℕ → Planned Minimum
minimum_of rank policy sequence_blocks = do
  unaligned ← checked_add rank.fixed_overhead_blocks sequence_blocks "minimum_blocks"
  blocks ← round_up unaligned policy.alignment_blocks "minimum_blocks"
  bytes ← checked_mul blocks rank.pool_bytes_per_block "minimum_bytes"
  ok (record { blocks = blocks; bytes = bytes })

pub record Demand : Type 0 where
  pub base : ℕ
  pub headroom : ℕ
  pub blocks : ℕ

-- The target workload with its prefix and headroom, before the byte bounds.
unfoldable pub desired_demand : RankGeometry → SizingPolicy → ℕ → Planned Demand
desired_demand rank policy sequence_blocks = do
  workload ← checked_mul sequence_blocks policy.target_concurrency "workload_blocks"
  with_prefix ← checked_add workload policy.prefix_blocks "base_blocks"
  numerator ← checked_mul with_prefix policy.headroom_percent "headroom_blocks"
  headroom ← ceil_div numerator 100 "headroom_blocks"
  base ← checked_add rank.fixed_overhead_blocks with_prefix "base_blocks"
  unaligned ← checked_add base headroom "desired_blocks"
  blocks ← round_up unaligned policy.alignment_blocks "desired_blocks"
  ok (record { base = base; headroom = headroom; blocks = blocks })

-- `if policy.min_bytes is not None`: the floor, if there is one.
unfoldable pub floor_of : RankGeometry → SizingPolicy → ℕ → Option ℕ → Planned (Option ℕ)
floor_of rank policy minimum_bytes none = ok none
floor_of rank policy minimum_bytes (some min_bytes) = do
  raise_if (ltb min_bytes minimum_bytes) (min_bytes_below_minimum rank.rank)
  needed ← ceil_div min_bytes rank.pool_bytes_per_block "min_bytes"
  floor ← round_up needed policy.alignment_blocks "min_bytes blocks"
  ok (some floor)

-- `max(desired_blocks, floor_blocks)`
abbrev pub raise_to : Option ℕ → ℕ → ℕ
raise_to none desired = desired
raise_to (some floor) desired = max desired floor

-- `floor_blocks is not None and cap_blocks < floor_blocks`
abbrev pub conflicts : Option ℕ → ℕ → Bool
conflicts none cap = false
conflicts (some floor) cap = ltb cap floor

-- `if policy.max_bytes is not None`: the desired blocks under the cap.
unfoldable pub cap_desired : RankGeometry → SizingPolicy → ℕ → Option ℕ → ℕ → Option ℕ → Planned ℕ
cap_desired rank policy minimum_blocks floor desired none = ok desired
cap_desired rank policy minimum_blocks floor desired (some max_bytes) = do
  cap ←
      round_down (max_bytes / rank.pool_bytes_per_block) policy.alignment_blocks "max_bytes blocks"
  raise_if (ltb cap minimum_blocks) (max_bytes_below_minimum rank.rank)
  raise_if (conflicts floor cap) min_max_conflict
  ok (min desired cap)

-- The virtual maximum under the cap.
unfoldable pub cap_maximum : RankGeometry → SizingPolicy → ℕ → Option ℕ → Planned ℕ
cap_maximum rank policy maximum none = ok maximum
cap_maximum rank policy maximum (some max_bytes) = do
  cap ←
      round_down (max_bytes / rank.pool_bytes_per_block) policy.alignment_blocks
        "maximum max_bytes blocks"
  ok (min maximum cap)

-- `if policy.maximum_concurrency is not None`: the virtual maximum.
unfoldable pub maximum_of : RankGeometry → SizingPolicy → ℕ → ℕ → Option ℕ → Planned ℕ
maximum_of rank policy sequence_blocks desired none = ok desired
maximum_of rank policy sequence_blocks desired (some concurrency) = do
  workload ← checked_mul sequence_blocks concurrency "maximum workload blocks"
  with_prefix ← checked_add workload policy.prefix_blocks "maximum workload blocks"
  numerator ← checked_mul with_prefix policy.headroom_percent "maximum headroom blocks"
  headroom ← ceil_div numerator 100 "maximum headroom blocks"
  base ← checked_add rank.fixed_overhead_blocks with_prefix "maximum blocks"
  unaligned ← checked_add base headroom "maximum blocks"
  aligned ← round_up unaligned policy.alignment_blocks "maximum blocks"
  maximum ← cap_maximum rank policy aligned policy.max_bytes
  raise_if (ltb maximum desired) maximum_below_target
  ok maximum

-- How many sequences of full length the desired blocks hold, up to the target.
abbrev pub effective_target : RankGeometry → SizingPolicy → ℕ → ℕ → ℕ
effective_target rank policy sequence_blocks desired =
    min policy.target_concurrency ((desired - rank.fixed_overhead_blocks) / sequence_blocks)

-- The last refusals: a pool that holds no sequence, and a reduced target in strict mode.
unfoldable pub check_effective : RankGeometry → SizingPolicy → ℕ → Planned Bool
check_effective rank policy effective = do
  raise_if (ltb effective 1) no_whole_sequence
  let reduced = ltb effective policy.target_concurrency
  raise_if (reduced && policy.strict_concurrency)
      (strict_reduction rank.rank policy.target_concurrency effective)
  ok reduced

unfoldable pub size_rank : RankGeometry → SizingPolicy → Planned RankSizing
size_rank rank policy = do
  sequence_blocks ← required_blocks_per_sequence rank
  minimum ← minimum_of rank policy sequence_blocks
  demand ← desired_demand rank policy sequence_blocks
  floor ← floor_of rank policy minimum.bytes policy.min_bytes
  desired ←
      cap_desired rank policy minimum.blocks floor (raise_to floor demand.blocks) policy.max_bytes
  desired_bytes ← checked_mul desired rank.pool_bytes_per_block "desired_bytes"
  maximum ← maximum_of rank policy sequence_blocks desired policy.maximum_concurrency
  maximum_bytes ← checked_mul maximum rank.pool_bytes_per_block "maximum_bytes"
  let effective = effective_target rank policy sequence_blocks desired
  reduced ← check_effective rank policy effective
  ok (record {
    rank = rank.rank;
    device_id = rank.device_id;
    bytes_per_block = rank.pool_bytes_per_block;
    sequence_blocks = sequence_blocks;
    minimum_blocks = minimum.blocks;
    minimum_bytes = minimum.bytes;
    base_blocks = demand.base;
    headroom_blocks = demand.headroom;
    desired_blocks = desired;
    desired_bytes = desired_bytes;
    maximum_blocks = maximum;
    maximum_bytes = maximum_bytes;
    effective_target_concurrency = effective;
    concurrency_reduced = reduced;
  })
