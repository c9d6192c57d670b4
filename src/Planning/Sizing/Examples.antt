-- ===== src/Planning/Sizing/Examples.antt =====
-- Sizing at one rank: two cache groups that take 5 blocks for a sequence, with one fixed block.
use kapsl_integrations.Prelude.{
  ℕ, ◌+◌, ◌*◌, ◌≤◌, ◌≡◌, refl, ◌≢◌, true, false, Option, none, some, [], ◌∷◌, ok, err, arith,
}
use kapsl_integrations.Planning.Errors.{
  no_whole_sequence, strict_reduction, max_bytes_below_minimum,
}
use kapsl_integrations.Planning.Types.{CacheGroupGeometry, RankGeometry, SizingPolicy, RankSizing}
use kapsl_integrations.Planning.Validity.{IsPolicy, IsRank}
use kapsl_integrations.Planning.Checked.{
  uint, checked_add, checked_mul, ceil_div, round_up, round_down, checked_total,
}
use kapsl_integrations.Planning.Sizing.{
  required_blocks_per_sequence, minimum_of, desired_demand, floor_of, cap_desired, cap_maximum,
  maximum_of, check_effective, size_rank,
}
use kapsl_integrations.Planning.Sizing.Bounds.{IsSized, size_rank-IsSized}
use kapsl_integrations.Planning.Sizing.Bytes.{AtLeast, AtMost, size_rank-bytes}
use kapsl_integrations.Planning.Sizing.Concurrency.{
  IsLargest, size_rank-IsLargest, size_rank-strict, size_rank-uncapped,
}
use kapsl_integrations.Planning.Sizing.Total.{unbounded_plan, size_rank-total}
use kapsl_integrations.Planning.Sizing.Refusals.{size_rank-ne-no_whole_sequence}

abbrev group : ℕ → CacheGroupGeometry
group required = record {
  group_id = "vllm.group.0";
  layers = "layers.0" ∷ [];
  block_size_tokens = 16;
  bytes_per_group_block = 1000;
  required_blocks_per_sequence = required;
  kv_heads = 8;
  key_head_dim = 64;
  value_head_dim = 64;
  element_type = record { name = "float16"; bits = 16 };
  policy_kind = "full_attention";
  window_tokens = none;
  extra_retained_tokens = 0;
}

abbrev pub rank : RankGeometry
rank = record {
  rank = 0;
  device_id = 2;
  pool_bytes_per_block = 1000;
  groups = group 3 ∷ group 2 ∷ [];
  fixed_overhead_blocks = 1;
}

abbrev pub policy : Option ℕ → Option ℕ → Option ℕ → SizingPolicy
policy maximum min_bytes max_bytes = record {
  target_concurrency = 4;
  maximum_concurrency = maximum;
  headroom_percent = 10;
  prefix_blocks = 3;
  alignment_blocks = 4;
  min_bytes = min_bytes;
  max_bytes = max_bytes;
  strict_concurrency = false;
}

abbrev strict : SizingPolicy
strict = record (policy none none none) { strict_concurrency = true }

abbrev sizing : ℕ → ℕ → ℕ → RankSizing
sizing desired maximum effective = record {
  rank = 0;
  device_id = 2;
  bytes_per_block = 1000;
  sequence_blocks = 5;
  minimum_blocks = 8;
  minimum_bytes = 8000;
  base_blocks = 24;
  headroom_blocks = 3;
  desired_blocks = desired;
  desired_bytes = desired * 1000;
  maximum_blocks = maximum;
  maximum_bytes = maximum * 1000;
  effective_target_concurrency = effective;
  concurrency_reduced = false;
}

open_plan : size_rank rank (policy none none none) ≡ ok (sizing 28 28 4)
unfolding size_rank required_blocks_per_sequence checked_total minimum_of desired_demand floor_of
    cap_desired maximum_of check_effective uint checked_add checked_mul ceil_div round_up round_down
open_plan = refl

-- 20 blocks hold three sequences of the four.
reduced_plan :
    size_rank rank (policy none none (some 20999))
    ≡ ok (record (sizing 20 20 3) { concurrency_reduced = true })
unfolding size_rank required_blocks_per_sequence checked_total minimum_of desired_demand floor_of
    cap_desired maximum_of check_effective uint checked_add checked_mul ceil_div round_up round_down
reduced_plan = refl

strict_refusal :
    size_rank rank (record strict { max_bytes = some 20999 }) ≡ err (strict_reduction 0 4 3)
unfolding size_rank required_blocks_per_sequence checked_total minimum_of desired_demand floor_of
    cap_desired maximum_of check_effective uint checked_add checked_mul ceil_div round_up round_down
strict_refusal = refl

strict_plan : size_rank rank strict ≡ ok (sizing 28 28 4)
unfolding size_rank required_blocks_per_sequence checked_total minimum_of desired_demand floor_of
    cap_desired maximum_of check_effective uint checked_add checked_mul ceil_div round_up round_down
strict_plan = refl

-- 10 % of 8 sequences and the prefix are 5 blocks more; the cap holds 24 blocks.
capped_plan : size_rank rank (policy (some 8) (some 9000) (some 24999)) ≡ ok (sizing 24 24 4)
unfolding size_rank required_blocks_per_sequence checked_total minimum_of desired_demand floor_of
    cap_desired cap_maximum maximum_of check_effective uint checked_add checked_mul ceil_div
    round_up round_down
capped_plan = refl

small_cap : size_rank rank (policy none none (some 7999)) ≡ err (max_bytes_below_minimum 0)
unfolding size_rank required_blocks_per_sequence checked_total minimum_of desired_demand floor_of
    cap_desired maximum_of check_effective uint checked_add checked_mul ceil_div round_up round_down
small_cap = refl

rank-IsRank : IsRank rank
rank-IsRank = omega arith

policy-IsPolicy : IsPolicy (policy (some 8) (some 9000) (some 24999))
policy-IsPolicy = omega arith

open-IsPolicy : IsPolicy (policy none none none)
open-IsPolicy = omega arith

strict-IsPolicy : IsPolicy strict
strict-IsPolicy = omega arith

size_rank-IsSized_example : IsSized rank (policy (some 8) (some 9000) (some 24999)) (sizing 24 24 4)
size_rank-IsSized_example =
    size_rank-IsSized rank (policy (some 8) (some 9000) (some 24999)) (sizing 24 24 4)
      policy-IsPolicy capped_plan

size_rank-bytes_example :
    AtLeast (some 9000) 24000 × AtMost (some 24999) 24000 × AtMost (some 24999) 24000
size_rank-bytes_example =
    size_rank-bytes rank (policy (some 8) (some 9000) (some 24999)) (sizing 24 24 4) policy-IsPolicy
      capped_plan

size_rank-IsLargest_example :
    IsLargest rank (policy (some 8) (some 9000) (some 24999)) (sizing 24 24 4)
size_rank-IsLargest_example =
    size_rank-IsLargest rank (policy (some 8) (some 9000) (some 24999)) (sizing 24 24 4)
      policy-IsPolicy rank-IsRank capped_plan

size_rank-strict_example : (◌≡◌ {A = ℕ} 4 4) × (1 + 4 * 5 ≤ 28)
size_rank-strict_example =
    size_rank-strict rank strict (sizing 28 28 4) strict-IsPolicy rank-IsRank refl strict_plan

size_rank-uncapped_example : (◌≡◌ {A = ℕ} 4 4) × (false ≡ false)
size_rank-uncapped_example =
    size_rank-uncapped rank (policy none none none) (sizing 28 28 4) open-IsPolicy rank-IsRank refl
      open_plan

size_rank-total_example :
    size_rank rank (policy none none none) ≡ ok (unbounded_plan rank (policy none none none))
size_rank-total_example =
    size_rank-total rank (policy none none none) open-IsPolicy rank-IsRank refl refl refl
      (omega arith) (omega arith)

size_rank-ne-no_whole_sequence_example :
    size_rank rank (policy (some 8) (some 9000) (some 24999)) ≢ err no_whole_sequence
size_rank-ne-no_whole_sequence_example =
    size_rank-ne-no_whole_sequence rank (policy (some 8) (some 9000) (some 24999)) policy-IsPolicy
      rank-IsRank
