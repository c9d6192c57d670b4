-- ===== src/Planning/Sizing/Refusals.antt =====
-- A refusal of `size_rank` that is never made: the check that the plan holds one whole sequence.
use native.Mathlib.Nat.{le-div_iff_mul-le, le_trans}
use kapsl_integrations.Prelude.{
  Never-then, List, [], ◌∷◌, ok, Bool, true, false, raise_if, ◌>>◌, ℕ, ◌+◌, ◌-◌, ◌/◌, ◌≤◌, ◌<◌,
  String, Option, none, some, ◌≢◌, err, arith, Never, Never-bind,
}
use kapsl_integrations.Planning.Errors.{
  PlanningError, Planned, no_whole_sequence, min_bytes_below_minimum, maximum_below_target,
}
use kapsl_integrations.Planning.Types.{RankGeometry, SizingPolicy}
use kapsl_integrations.Planning.Validity.{IsPolicy, IsRank}
use kapsl_integrations.Planning.Checked.{
  uint, checked_add, checked_mul, ceil_div, round_up, round_down, checked_total,
}
use kapsl_integrations.Planning.Sizing.{
  required_blocks_per_sequence, minimum_of, desired_demand, floor_of, cap_desired, cap_maximum,
  maximum_of, effective_target, check_effective, size_rank,
}
use kapsl_integrations.Planning.Sizing.Stages.{
  required-Ensures, minimum_of-Ensures, desired_demand-Ensures, cap_desired-Ensures,
}
use kapsl_integrations.Planning.Sizing.Bounds.{demand-ge-minimum, raise_to-le}

abbrev Whole : {A : Type 0} → Planned A → Type 0
Whole m = Never no_whole_sequence m

checked_mul-Whole : (a b : ℕ) (field : String) → Whole (checked_mul a b field)
unfolding checked_mul uint
checked_mul-Whole a b field = record { at = λ h. ground arith }

checked_total-ne :
    {A : Type 0} (count : A → ℕ) (field : String) (total : ℕ) (xs : List A)
    → checked_total count field total xs ≢ err no_whole_sequence
unfolding checked_total checked_add uint
checked_total-ne count field total [] = λ h. cc
checked_total-ne count field total (x ∷ xs) =
    λ h. ground (arith, checked_total-ne count field (total + count x) xs)

checked_add-Whole : (a b : ℕ) (field : String) → Whole (checked_add a b field)
unfolding checked_add uint
checked_add-Whole a b field = record { at = λ h. ground arith }

ceil_div-Whole : (a b : ℕ) (field : String) → Whole (ceil_div a b field)
unfolding ceil_div uint
ceil_div-Whole a b field = record { at = λ h. ground arith }

round_up-Whole : (a b : ℕ) (field : String) → Whole (round_up a b field)
unfolding round_up ceil_div checked_mul uint
round_up-Whole a b field = record { at = λ h. ground arith }

round_down-Whole : (a b : ℕ) (field : String) → Whole (round_down a b field)
unfolding round_down uint
round_down-Whole a b field = record { at = λ h. ground arith }

ok-Whole : {A : Type 0} (a : A) → Whole (ok a)
ok-Whole a = record { at = λ h. cc }

raise_if-Whole :
    {A : Type 0} (b : Bool) (e : PlanningError) (k : Planned A)
    → e ≢ no_whole_sequence
    → Whole k
    → Whole (raise_if b e >> k)
raise_if-Whole true e k ne h = record { at = λ q. ne (cc) }
raise_if-Whole false e k ne h = h

min_bytes-ne : (r : ℕ) → min_bytes_below_minimum r ≢ no_whole_sequence
min_bytes-ne r = λ h. cc

maximum-ne : maximum_below_target ≢ no_whole_sequence
maximum-ne = λ h. cc

ruleset whole_rules = (
  Never-then, checked_add-Whole, checked_mul-Whole, ceil_div-Whole, round_up-Whole,
  round_down-Whole, ok-Whole, raise_if-Whole, min_bytes-ne, maximum-ne,
)

module _ (rank : RankGeometry) (policy : SizingPolicy) where
  minimum_of-Whole : (q : ℕ) → Whole (minimum_of rank policy q)
  unfolding minimum_of
  minimum_of-Whole q = search whole_rules depth 12

  desired_demand-Whole : (q : ℕ) → Whole (desired_demand rank policy q)
  unfolding desired_demand
  desired_demand-Whole q = search whole_rules depth 12

  floor_of-Whole : (b : ℕ) (m : Option ℕ) → Whole (floor_of rank policy b m)
  unfolding floor_of
  floor_of-Whole b none = ok-Whole none
  floor_of-Whole b (some m) = search whole_rules depth 8

  cap_desired-Whole :
      (b : ℕ) (f : Option ℕ) (d : ℕ) (m : Option ℕ) → Whole (cap_desired rank policy b f d m)
  unfolding cap_desired uint round_down
  cap_desired-Whole b f d m = record { at = λ e. ground arith }

  cap_maximum-Whole : (d : ℕ) (m : Option ℕ) → Whole (cap_maximum rank policy d m)
  unfolding cap_maximum
  cap_maximum-Whole d none = ok-Whole d
  cap_maximum-Whole d (some m) = search whole_rules

  maximum_of-Whole : (q d : ℕ) (m : Option ℕ) → Whole (maximum_of rank policy q d m)
  unfolding maximum_of
  maximum_of-Whole q d none = ok-Whole d
  maximum_of-Whole q d (some m) = search (whole_rules, cap_maximum-Whole) depth 15

  required-Whole : Whole (required_blocks_per_sequence rank)
  unfolding required_blocks_per_sequence
  required-Whole = record { at = checked_total-ne _ _ 0 rank.groups }

  -- The last check, at a plan that reaches the minimum.
  check_effective-Whole :
      (q desired : ℕ)
      → IsPolicy policy
      → 0 < q
      → rank.fixed_overhead_blocks + q ≤ desired
      → Whole (check_effective rank policy (effective_target rank policy q desired))
  unfolding check_effective
  check_effective-Whole q desired p pos h =
      let one : 1 ≤ (desired - rank.fixed_overhead_blocks) / q =
        (le-div_iff_mul-le pos).1 (omega arith) in
      let holds : 1 ≤ effective_target rank policy q desired = omega (arith, p.target.0) in
      record { at = λ e. ground arith }

  size_rank-Whole : IsPolicy policy → IsRank rank → Whole (size_rank rank policy)
  unfolding size_rank
  size_rank-Whole p r = Never-bind _ _ required-Whole (required-Ensures rank) λ q hq.
      Never-bind _ _ (minimum_of-Whole q) (minimum_of-Ensures rank policy q) λ m hm.
        Never-bind _ _ (desired_demand-Whole q) (desired_demand-Ensures rank policy q) λ d hd.
          Never-then _ _ (floor_of-Whole m.bytes policy.min_bytes) λ f.
            Never-bind _ _ (cap_desired-Whole _ f _ policy.max_bytes)
              (cap_desired-Ensures rank policy m.blocks f _ policy.max_bytes)
              λ k hk. Never-then _ _ (checked_mul-Whole _ _ _) λ b.
                Never-then _ _ (maximum_of-Whole q k policy.maximum_concurrency) λ x.
                  Never-then _ _ (checked_mul-Whole _ _ _) λ y.
                    Never-then _ _
                      (check_effective-Whole q k p (omega (arith, r.sequence, hq.0)) (
                        le_trans hm.blocks.above (
                          hk.keeps_minimum (
                            le_trans
                              (demand-ge-minimum rank policy _ _ _ _ _ _ p.target.0 hm.blocks hd)
                              (raise_to-le rank policy f d.blocks)))))
                      λ reduced. ok-Whole _

-- No checked rank and policy reach the refusal "resolved plan cannot hold one max_model_len
-- sequence" of `size_rank`: the checks before it leave room for one sequence in every plan.
pub size_rank-ne-no_whole_sequence :
    (rank : RankGeometry) (policy : SizingPolicy)
    → IsPolicy policy
    → IsRank rank
    → size_rank rank policy ≢ err no_whole_sequence
size_rank-ne-no_whole_sequence rank policy p r = (size_rank-Whole rank policy p r).at
