-- ===== src/Planning/Sizing/Bounds.antt =====
-- The order, the alignment and the bytes of every plan that `size_rank` returns.
use native.Mathlib.Nat.{le_trans}
use kapsl_integrations.Prelude.{ℕ, ◌+◌, ◌*◌, ◌≤◌, ◌<◌, ◌≡◌, Option, none, some, ok, arith}
use kapsl_integrations.Planning.Types.{RankGeometry, SizingPolicy, RankSizing}
use kapsl_integrations.Planning.Validity.{IsPolicy, sequence_of}
use kapsl_integrations.Planning.Checked.Laws.{IsMultiple, IsWord, IsRoundUp, max-IsMultiple}
use kapsl_integrations.Planning.Sizing.{raise_to, size_rank}
use kapsl_integrations.Planning.Sizing.Stages.{IsDemand, IsFloor}
use kapsl_integrations.Planning.Sizing.Trace.{Trace, size_rank-Trace}

module _ (rank : RankGeometry) (policy : SizingPolicy) where
  open rank use {fixed_overhead_blocks as overhead, pool_bytes_per_block as stride}
  open policy use {alignment_blocks as alignment}

  -- The block counts are whole alignment units in the order that the plan promises, the minimum is
  -- the least that holds the overhead and one sequence, and each byte count is its blocks times the
  -- stride, in one word.
  pub record IsSized (s : RankSizing) : Type 0 where
    pub sequence : s.sequence_blocks ≡ sequence_of rank
    pub minimum : IsRoundUp (overhead + s.sequence_blocks) alignment s.minimum_blocks
    pub minimum_below : s.minimum_blocks ≤ s.desired_blocks
    pub desired_below : s.desired_blocks ≤ s.maximum_blocks
    pub desired_multiple : IsMultiple alignment s.desired_blocks
    pub maximum_multiple : IsMultiple alignment s.maximum_blocks
    pub minimum_bytes : IsWord (s.minimum_blocks * stride) s.minimum_bytes
    pub desired_bytes : IsWord (s.desired_blocks * stride) s.desired_bytes
    pub maximum_bytes : IsWord (s.maximum_blocks * stride) s.maximum_bytes

  floor-IsMultiple :
      (bytes : ℕ) (m floor : Option ℕ) (demand : ℕ)
      → IsFloor rank policy bytes m floor
      → IsMultiple alignment demand
      → IsMultiple alignment (raise_to floor demand)
  floor-IsMultiple bytes none none demand hf h = h
  floor-IsMultiple bytes (some m) (some f) demand hf h = max-IsMultiple alignment demand f h hf.1
  floor-IsMultiple bytes none (some f) demand hf h = absurd hf
  floor-IsMultiple bytes (some m) none demand hf h = absurd hf

  pub raise_to-le : (floor : Option ℕ) (demand : ℕ) → demand ≤ raise_to floor demand
  raise_to-le none demand = omega arith
  raise_to-le (some f) demand = omega arith

  -- A demand for at least one sequence reaches the minimum.
  pub demand-ge-minimum :
      (sequence n base headroom demand minimum : ℕ)
      → 0 < n
      → IsRoundUp (overhead + sequence) alignment minimum
      → IsDemand rank policy sequence n base headroom demand
      → minimum ≤ demand
  demand-ge-minimum sequence n base headroom demand minimum hn hm hd =
      let one : sequence ≤ sequence * n = grind arith in
      hm.least demand hd.blocks_lem.multiple (omega (arith, hd.base_lem.0, hd.blocks_lem.above))

  pub Trace-IsSized : IsPolicy policy → (s : RankSizing) → Trace rank policy s → IsSized s
  Trace-IsSized p s t = record {
    sequence = t.sequence.0;
    minimum = t.minimum.blocks;
    minimum_below = t.capped.keeps_minimum (
        le_trans (demand-ge-minimum _ _ _ _ _ _ p.target.0 t.minimum.blocks t.demand_lem)
          (raise_to-le t.floor t.demand));
    desired_below = t.maximum.above;
    desired_multiple = aligned;
    maximum_multiple = t.maximum.keeps_multiple aligned;
    minimum_bytes = t.minimum.bytes;
    desired_bytes = t.desired_bytes;
    maximum_bytes = t.maximum_bytes;
  }
    where
      aligned : IsMultiple alignment s.desired_blocks
      aligned = t.capped.keeps_multiple (
          floor-IsMultiple s.minimum_bytes policy.min_bytes t.floor t.demand t.floor_lem
            t.demand_lem.blocks_lem.multiple)

-- A plan that `size_rank` returns for a checked rank and a checked policy has its minimum, desired
-- and maximum blocks in this order, in whole alignment units, with the minimum the least that holds
-- the overhead and one full sequence, and every byte count is the blocks times the stride, in 64 bits.
pub size_rank-IsSized :
    (rank : RankGeometry) (policy : SizingPolicy) (s : RankSizing)
    → IsPolicy policy
    → size_rank rank policy ≡ ok s
    → IsSized rank policy s
size_rank-IsSized rank policy s p e =
    Trace-IsSized rank policy p s ((size_rank-Trace rank policy).at s e)
