-- ===== src/Planning/Sizing/Total.antt =====
-- When `size_rank` does not refuse, and a refusal that it never makes.
use native.Mathlib.Nat.{le_trans, mul-le-mul_right, mul-mod_left, le-div_iff_mul-le}
use kapsl_integrations.Prelude.{
  ℕ, ◌+◌, ◌-◌, ◌*◌, ◌/◌, ◌≤◌, ◌≡◌, ap, ◌∙◌, false, none, ok, arith, ge→ltb,
}
use kapsl_integrations.Planning.Types.{RankGeometry, SizingPolicy, RankSizing}
use kapsl_integrations.Planning.Validity.{IsPolicy, IsRank, sequence_of}
use kapsl_integrations.Planning.Checked.Laws.{
  Fits, ceiling, ceiling-reaches, ceiling-least_multiple, checked_add-ok,
}
use kapsl_integrations.Planning.Checked.Success.{
  le-mul_pos, checked_mul-ok, ceil_div-ok, round_up-ok,
}
use kapsl_integrations.Planning.Checked.Totals.{checked_total-ok}
use kapsl_integrations.Planning.Sizing.{
  required_blocks_per_sequence, minimum_of, desired_demand, floor_of, cap_desired, maximum_of,
  check_effective, effective_target, size_rank,
}
use kapsl_integrations.Planning.Sizing.Stages.{with_prefix}

module _ (rank : RankGeometry) (policy : SizingPolicy) where
  open rank use {fixed_overhead_blocks as overhead, pool_bytes_per_block as stride}
  open policy use {alignment_blocks as alignment, target_concurrency as target}

  -- The numbers of the plan with no byte bound and no virtual maximum, as unbounded arithmetic.
  abbrev pub demand_numerator : ℕ
  demand_numerator = with_prefix policy (sequence_of rank) target * policy.headroom_percent

  abbrev pub demand_unaligned : ℕ
  demand_unaligned =
      overhead + with_prefix policy (sequence_of rank) target + ceiling demand_numerator 100

  abbrev pub demand_blocks : ℕ
  demand_blocks = ceiling demand_unaligned alignment * alignment

  abbrev minimum_blocks : ℕ
  minimum_blocks = ceiling (overhead + sequence_of rank) alignment * alignment

  -- What a word holds at the largest numbers of the run it holds at the others.
  record Room : Type 0 where
    one : sequence_of rank ≤ sequence_of rank * target
    numerator : Fits demand_numerator
    unaligned : Fits demand_unaligned
    blocks : Fits demand_blocks
    bytes : Fits (demand_blocks * stride)
    minimum : minimum_blocks ≤ demand_blocks
    minimum_bytes : Fits (minimum_blocks * stride)

  room :
      IsPolicy policy → IsRank rank → Fits demand_numerator → Fits (demand_blocks * stride) → Room
  room p r hn hb =
      let blocks : Fits demand_blocks = le_trans (le-mul_pos demand_blocks stride r.stride.0) hb in
      let above : demand_unaligned ≤ demand_blocks =
        ceiling-reaches demand_unaligned alignment p.alignment.0 in
      let one : sequence_of rank ≤ sequence_of rank * target =
        le-mul_pos (sequence_of rank) target p.target.0 in
      let lower : minimum_blocks ≤ demand_blocks =
        ceiling-least_multiple (overhead + sequence_of rank) alignment demand_blocks p.alignment.0
          (mul-mod_left (ceiling demand_unaligned alignment) alignment) (omega arith) in
      record {
        one = one;
        numerator = hn;
        unaligned = le_trans above blocks;
        blocks = blocks;
        bytes = hb;
        minimum = lower;
        minimum_bytes = le_trans (mul-le-mul_right stride lower) hb;
      }

  required-ok : Room → required_blocks_per_sequence rank ≡ ok (sequence_of rank)
  unfolding required_blocks_per_sequence
  required-ok h =
      checked_total-ok _ _ 0 rank.groups (omega (arith, h.unaligned, h.one)) ∙ ap ok (omega arith)

  minimum_of-ok :
      IsPolicy policy
      → IsRank rank
      → Room
      → minimum_of rank policy (sequence_of rank)
        ≡ ok (record { blocks = minimum_blocks; bytes = minimum_blocks * stride })
  unfolding minimum_of
  minimum_of-ok p r h = rw (
    checked_add-ok overhead (sequence_of rank) "minimum_blocks" (omega (arith, h.unaligned, h.one)),
    round_up-ok (overhead + sequence_of rank) alignment "minimum_blocks" p.alignment.0 p.alignment.1
        (le_trans h.minimum h.blocks),
    checked_mul-ok minimum_blocks stride "minimum_bytes" (le_trans h.minimum h.blocks) r.stride.1
        h.minimum_bytes,
  )

  desired_demand-ok :
      IsPolicy policy
      → Room
      → desired_demand rank policy (sequence_of rank)
        ≡ ok (record {
          base = overhead + with_prefix policy (sequence_of rank) target;
          headroom = ceiling demand_numerator 100;
          blocks = demand_blocks;
        })
  unfolding desired_demand
  desired_demand-ok p h = rw (
    checked_mul-ok (sequence_of rank) target "workload_blocks" (omega (arith, h.unaligned, h.one))
        p.target.1 (omega (arith, h.unaligned, h.one)),
    checked_add-ok (sequence_of rank * target) policy.prefix_blocks "base_blocks"
        (omega (arith, h.unaligned, h.one)),
    checked_mul-ok (with_prefix policy (sequence_of rank) target) policy.headroom_percent
        "headroom_blocks" (omega (arith, h.unaligned, h.one)) (omega (arith, p.percent))
        h.numerator,
    ceil_div-ok demand_numerator 100 "headroom_blocks" h.numerator (omega arith) (omega arith),
    checked_add-ok overhead (with_prefix policy (sequence_of rank) target) "base_blocks"
        (omega (arith, h.unaligned, h.one)),
    checked_add-ok (overhead + with_prefix policy (sequence_of rank) target)
        (ceiling demand_numerator 100) "desired_blocks" h.unaligned,
    round_up-ok demand_unaligned alignment "desired_blocks" p.alignment.0 p.alignment.1 h.blocks,
  )

  -- The plan of a policy with no byte bound and no virtual maximum.
  abbrev pub unbounded_plan : RankSizing
  unbounded_plan = record {
    rank = rank.rank;
    device_id = rank.device_id;
    bytes_per_block = stride;
    sequence_blocks = sequence_of rank;
    minimum_blocks = minimum_blocks;
    minimum_bytes = minimum_blocks * stride;
    base_blocks = overhead + with_prefix policy (sequence_of rank) target;
    headroom_blocks = ceiling demand_numerator 100;
    desired_blocks = demand_blocks;
    desired_bytes = demand_blocks * stride;
    maximum_blocks = demand_blocks;
    maximum_bytes = demand_blocks * stride;
    effective_target_concurrency = target;
    concurrency_reduced = false;
  }

  effective-target :
      IsPolicy policy
      → IsRank rank
      → Room
      → effective_target rank policy (sequence_of rank) demand_blocks ≡ target
  effective-target p r h =
      let whole : target ≤ (demand_blocks - overhead) / sequence_of rank =
        (le-div_iff_mul-le r.sequence).1
          (omega (arith, ceiling-reaches demand_unaligned alignment p.alignment.0)) in
      omega arith

  check_effective-target : IsPolicy policy → check_effective rank policy target ≡ ok false
  unfolding check_effective
  check_effective-target p = rw (ge→ltb target 1 p.target.0, ge→ltb target target (omega arith))

-- With no byte bound and no virtual maximum `size_rank` refuses nothing but an overflow: if the
-- headroom product and the bytes of the aligned demand are words, it returns the plan that unbounded
-- arithmetic gives, which holds the whole target.
pub size_rank-total :
    (rank : RankGeometry) (policy : SizingPolicy)
    → IsPolicy policy
    → IsRank rank
    → policy.min_bytes ≡ none
    → policy.max_bytes ≡ none
    → policy.maximum_concurrency ≡ none
    → Fits (demand_numerator rank policy)
    → Fits (demand_blocks rank policy * rank.pool_bytes_per_block)
    → size_rank rank policy ≡ ok (unbounded_plan rank policy)
unfolding size_rank floor_of cap_desired maximum_of check_effective
size_rank-total rank policy p r no_min no_max no_maximum hn hb =
    let h = room rank policy p r hn hb in
    rw (
      required-ok rank policy h,
      minimum_of-ok rank policy p r h,
      desired_demand-ok rank policy p h,
      no_min,
      no_max,
      checked_mul-ok (demand_blocks rank policy) rank.pool_bytes_per_block "desired_bytes" h.blocks
          r.stride.1 hb,
      no_maximum,
      checked_mul-ok (demand_blocks rank policy) rank.pool_bytes_per_block "maximum_bytes" h.blocks
          r.stride.1 hb,
      effective-target rank policy p r h,
      check_effective-target rank policy p,
    )
