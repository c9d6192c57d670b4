-- ===== src/Planning/Sizing/Trace.antt =====
-- The facts that one successful run of `size_rank` collects, stage by stage.
use kapsl_integrations.Prelude.{ℕ, ◌*◌, ◌≡◌, refl, Option, Ensures, Ensures-ok, Ensures-bind}
use kapsl_integrations.Planning.Types.{RankGeometry, SizingPolicy, RankSizing}
use kapsl_integrations.Planning.Validity.{sequence_of}
use kapsl_integrations.Planning.Checked.Laws.{IsWord, checked_mul-Ensures}
use kapsl_integrations.Planning.Sizing.{raise_to, effective_target, size_rank}
use kapsl_integrations.Planning.Sizing.Stages.{
  required-Ensures, minimum_of-Ensures, desired_demand-Ensures, floor_of-Ensures,
  cap_desired-Ensures, maximum_of-Ensures, check_effective-Ensures, IsMinimum, IsDemand, IsFloor,
  IsCapped, IsMaximum, IsEffective,
}

module _ (rank : RankGeometry) (policy : SizingPolicy) where
  pub record Trace (s : RankSizing) : Type 0 where
    pub sequence : IsWord (sequence_of rank) s.sequence_blocks
    pub minimum :
        IsMinimum rank policy s.sequence_blocks
          (record { blocks = s.minimum_blocks; bytes = s.minimum_bytes })
    pub demand : ℕ
    pub demand_lem :
        IsDemand rank policy s.sequence_blocks policy.target_concurrency s.base_blocks
          s.headroom_blocks demand
    pub floor : Option ℕ
    pub floor_lem : IsFloor rank policy s.minimum_bytes policy.min_bytes floor
    pub capped :
        IsCapped rank policy s.minimum_blocks floor
          (raise_to floor demand)
          policy.max_bytes
          s.desired_blocks
    pub desired_bytes : IsWord (s.desired_blocks * rank.pool_bytes_per_block) s.desired_bytes
    pub maximum : IsMaximum rank policy s.desired_blocks policy.maximum_concurrency s.maximum_blocks
    pub maximum_bytes : IsWord (s.maximum_blocks * rank.pool_bytes_per_block) s.maximum_bytes
    pub effective :
        s.effective_target_concurrency
        ≡ effective_target rank policy s.sequence_blocks s.desired_blocks
    pub reduced : IsEffective rank policy s.effective_target_concurrency s.concurrency_reduced

  pub size_rank-Trace : Ensures Trace (size_rank rank policy)
  unfolding size_rank
  size_rank-Trace = Ensures-bind _ _ (required-Ensures rank) λ q hq.
      Ensures-bind _ _ (minimum_of-Ensures rank policy q) λ m hm.
        Ensures-bind _ _ (desired_demand-Ensures rank policy q) λ d hd.
          Ensures-bind _ _ (floor_of-Ensures rank policy m.bytes policy.min_bytes) λ f hf.
            Ensures-bind _ _ (cap_desired-Ensures rank policy m.blocks f _ policy.max_bytes) λ k hk.
              Ensures-bind _ _ (checked_mul-Ensures _ _ _) λ b hb.
                Ensures-bind _ _ (maximum_of-Ensures rank policy q k policy.maximum_concurrency)
                  λ x hx. Ensures-bind _ _ (checked_mul-Ensures _ _ _) λ y hy.
                    Ensures-bind _ _ (check_effective-Ensures rank policy _) λ r hr.
                      Ensures-ok _ (record {
                        sequence = hq;
                        minimum = hm;
                        demand = d.blocks;
                        demand_lem = hd;
                        floor = f;
                        floor_lem = hf;
                        capped = hk;
                        desired_bytes = hb;
                        maximum = hx;
                        maximum_bytes = hy;
                        effective = refl;
                        reduced = hr;
                      })
