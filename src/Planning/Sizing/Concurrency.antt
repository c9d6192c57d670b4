-- ===== src/Planning/Sizing/Concurrency.antt =====
-- How many whole sequences a plan holds.
use native.Mathlib.Nat.{le_trans, mul-le-mul_right, le-div_iff_mul-le, div-mul-le_self}
use kapsl_integrations.Prelude.{
  ℕ, ◌+◌, ◌-◌, ◌*◌, ◌/◌, ◌≤◌, ◌<◌, min, ◌≡◌, ap, sym, ◌∙◌, true, false, none, ok, arith, ltb,
  ltb→ge, ge→ltb,
}
use kapsl_integrations.Planning.Types.{RankGeometry, SizingPolicy, RankSizing}
use kapsl_integrations.Planning.Validity.{IsPolicy, IsRank}
use kapsl_integrations.Planning.Sizing.{size_rank}
use kapsl_integrations.Planning.Sizing.Trace.{Trace, size_rank-Trace}
use kapsl_integrations.Planning.Sizing.Bounds.{Trace-IsSized, raise_to-le}

effective_holds : (target room sequence : ℕ) → min target (room / sequence) * sequence ≤ room
effective_holds target room sequence =
    le_trans (mul-le-mul_right sequence (omega arith)) (div-mul-le_self room sequence)

effective_largest :
    (target room sequence n : ℕ)
    → 0 < sequence
    → n ≤ target
    → n * sequence ≤ room
    → n ≤ min target (room / sequence)
effective_largest target room sequence n pos hn hf =
    let whole : n ≤ room / sequence = (le-div_iff_mul-le pos).1 hf in omega arith

module _ (rank : RankGeometry) (policy : SizingPolicy) where
  open rank use {fixed_overhead_blocks as overhead, pool_bytes_per_block as stride}

  -- The greatest number of whole sequences, up to the target, beside the overhead.
  pub record IsLargest (s : RankSizing) : Type 0 where
    pub positive : 1 ≤ s.effective_target_concurrency
    pub within_target : s.effective_target_concurrency ≤ policy.target_concurrency
    pub holds : overhead + s.effective_target_concurrency * s.sequence_blocks ≤ s.desired_blocks
    pub largest :
        (n : ℕ)
        → n ≤ policy.target_concurrency
        → overhead + n * s.sequence_blocks ≤ s.desired_blocks
        → n ≤ s.effective_target_concurrency
    pub reduced :
        s.concurrency_reduced ≡ ltb s.effective_target_concurrency policy.target_concurrency

  Trace-IsLargest :
      IsPolicy policy → IsRank rank → (s : RankSizing) → Trace rank policy s → IsLargest s
  Trace-IsLargest p r s t =
      let sized = Trace-IsSized rank policy p s t in
      let pos : 0 < s.sequence_blocks = omega (arith, r.sequence, t.sequence.0) in
      let room = s.desired_blocks - overhead in
      record {
        positive = t.reduced.holds_one;
        within_target = rw t.effective (omega arith);
        holds = omega (
          arith,
          effective_holds policy.target_concurrency room s.sequence_blocks,
          t.effective,
          ap (λ x. x * s.sequence_blocks) t.effective,
          sized.minimum.above,
          sized.minimum_below,
        );
        largest = λ n hn hf. rw t.effective (
            effective_largest policy.target_concurrency room s.sequence_blocks n pos hn
              (omega arith));
        reduced = t.reduced.reduced_lem;
      }

  whole_target :
      (s : RankSizing)
      → IsLargest s
      → s.concurrency_reduced ≡ false
      → (s.effective_target_concurrency ≡ policy.target_concurrency)
        × (overhead + policy.target_concurrency * s.sequence_blocks ≤ s.desired_blocks)
  whole_target s l e =
      let full : policy.target_concurrency ≤ s.effective_target_concurrency =
        ltb→ge s.effective_target_concurrency policy.target_concurrency (sym l.reduced ∙ e) in
      let same : s.effective_target_concurrency ≡ policy.target_concurrency =
        omega (arith, l.within_target) in
      (same, rw (← same) l.holds)

-- The effective target of a plan is the greatest number of full-length sequences, up to the target,
-- whose blocks fit beside the fixed overhead in the desired blocks; it is at least one, and the plan
-- is marked as reduced exactly when it is below the target.
pub size_rank-IsLargest :
    (rank : RankGeometry) (policy : SizingPolicy) (s : RankSizing)
    → IsPolicy policy
    → IsRank rank
    → size_rank rank policy ≡ ok s
    → IsLargest rank policy s
size_rank-IsLargest rank policy s p r e =
    Trace-IsLargest rank policy p r s ((size_rank-Trace rank policy).at s e)

-- A strict policy is never reduced: its plan holds the whole target of sequences.
pub size_rank-strict :
    (rank : RankGeometry) (policy : SizingPolicy) (s : RankSizing)
    → IsPolicy policy
    → IsRank rank
    → policy.strict_concurrency ≡ true
    → size_rank rank policy ≡ ok s
    → (s.effective_target_concurrency ≡ policy.target_concurrency)
      × (rank.fixed_overhead_blocks + policy.target_concurrency * s.sequence_blocks
          ≤ s.desired_blocks)
size_rank-strict rank policy s p r strict e =
    let t = (size_rank-Trace rank policy).at s e in
    let l = Trace-IsLargest rank policy p r s t in
    whole_target rank policy s l (t.reduced.strict strict)

-- With no byte cap a plan always holds the whole target: it is not reduced.
pub size_rank-uncapped :
    (rank : RankGeometry) (policy : SizingPolicy) (s : RankSizing)
    → IsPolicy policy
    → IsRank rank
    → policy.max_bytes ≡ none
    → size_rank rank policy ≡ ok s
    → (s.effective_target_concurrency ≡ policy.target_concurrency) × (s.concurrency_reduced ≡ false)
size_rank-uncapped rank policy s p r uncapped e =
    let t = (size_rank-Trace rank policy).at s e in
    let l = Trace-IsLargest rank policy p r s t in
    let reaches : policy.target_concurrency ≤ s.effective_target_concurrency =
      l.largest policy.target_concurrency (omega arith) (
        omega (
          arith,
          t.capped.uncapped uncapped,
          raise_to-le rank policy t.floor t.demand,
          t.demand_lem.blocks_lem.above,
          t.demand_lem.base_lem.0,
        )) in
    (
      omega (arith, l.within_target),
      l.reduced ∙ ge→ltb s.effective_target_concurrency policy.target_concurrency reaches,
    )
