-- ===== src/Planning/Sizing/Stages.antt =====
-- What each stretch of `size_rank` establishes when it does not refuse.
use native.Mathlib.Nat.{le_trans, mul-le-mul_right, div-mul-le_self}
use kapsl_integrations.Prelude.{
  ℕ, ◌+◌, ◌*◌, ◌/◌, ◌≤◌, min, ◌≡◌, refl, subst, Bool, true, false, Option, none, some, arith,
  Ensures, Ensures-ok, Ensures-bind, Ensures-raise_if, ltb, ltb→ge,
}
use kapsl_integrations.Planning.Types.{RankGeometry, SizingPolicy}
use kapsl_integrations.Planning.Checked.Laws.{
  IsMultiple, IsWord, IsCeiling, IsRoundUp, checked_add-Ensures, checked_mul-Ensures,
  ceil_div-Ensures, round_up-Ensures, round_down-Ensures, min-IsMultiple,
}
use kapsl_integrations.Planning.Validity.{sequence_of}
use kapsl_integrations.Planning.Checked.Totals.{checked_total-Ensures}
use kapsl_integrations.Planning.Sizing.{
  required_blocks_per_sequence, Minimum, minimum_of, Demand, desired_demand, floor_of, cap_desired,
  cap_maximum, maximum_of, check_effective,
}

pub required-Ensures :
    (rank : RankGeometry) → Ensures (IsWord (sequence_of rank)) (required_blocks_per_sequence rank)
unfolding required_blocks_per_sequence
required-Ensures rank = record {
  at = λ v e. omega (arith, (checked_total-Ensures _ _ 0 rank.groups (omega arith)).at v e);
}

-- The blocks of `n` sequences and the prefix allowance.
abbrev pub with_prefix : SizingPolicy → ℕ → ℕ → ℕ
with_prefix policy sequence n = sequence * n + policy.prefix_blocks

module _ (rank : RankGeometry) (policy : SizingPolicy) where
  open rank use {fixed_overhead_blocks as overhead, pool_bytes_per_block as stride}
  open policy use {alignment_blocks as alignment}

  pub record IsMinimum (sequence : ℕ) (m : Minimum) : Type 0 where
    pub blocks : IsRoundUp (overhead + sequence) alignment m.blocks
    pub bytes : IsWord (m.blocks * stride) m.bytes

  pub record IsDemand (sequence n base headroom blocks : ℕ) : Type 0 where
    pub headroom_lem :
        IsCeiling (with_prefix policy sequence n * policy.headroom_percent) 100 headroom
    pub base_lem : IsWord (overhead + with_prefix policy sequence n) base
    pub blocks_lem : IsRoundUp (base + headroom) alignment blocks

  -- The floor is aligned and holds `min_bytes`.
  abbrev pub IsFloor : ℕ → Option ℕ → Option ℕ → Type 0
  IsFloor minimum_bytes none none = Unit
  IsFloor minimum_bytes (some m) (some f) =
      (minimum_bytes ≤ m) × IsMultiple alignment f × (m ≤ f * stride)
  IsFloor minimum_bytes _ _ = ⊥

  pub minimum_of-Ensures :
      (sequence : ℕ) → Ensures (IsMinimum sequence) (minimum_of rank policy sequence)
  unfolding minimum_of
  minimum_of-Ensures sequence = Ensures-bind _ _ (checked_add-Ensures _ _ _) λ u hu.
      Ensures-bind _ _ (round_up-Ensures _ _ _) λ b hb.
        Ensures-bind _ _ (checked_mul-Ensures _ _ _)
          λ y hy. Ensures-ok _ (record { blocks = rw (← hu.0) hb; bytes = hy })

  pub desired_demand-Ensures :
      (sequence : ℕ)
      → Ensures
          (λ (d : Demand). IsDemand sequence policy.target_concurrency d.base d.headroom d.blocks)
          (desired_demand rank policy sequence)
  unfolding desired_demand
  desired_demand-Ensures sequence = Ensures-bind _ _ (checked_mul-Ensures _ _ _) λ w hw.
      Ensures-bind _ _ (checked_add-Ensures _ _ _) λ p hp.
        Ensures-bind _ _ (checked_mul-Ensures _ _ _) λ n hn.
          Ensures-bind _ _ (ceil_div-Ensures _ _ _) λ h hh.
            Ensures-bind _ _ (checked_add-Ensures _ _ _) λ b hb.
              Ensures-bind _ _ (checked_add-Ensures _ _ _) λ u hu.
                Ensures-bind _ _ (round_up-Ensures _ _ _) λ k hk. Ensures-ok _ (record {
                  headroom_lem = rw (← hw.0, ← hp.0, ← hn.0) hh;
                  base_lem = rw (← hw.0, ← hp.0) hb;
                  blocks_lem = rw (← hu.0) hk;
                })

  pub floor_of-Ensures :
      (minimum_bytes : ℕ) (m : Option ℕ)
      → Ensures (IsFloor minimum_bytes m) (floor_of rank policy minimum_bytes m)
  unfolding floor_of
  floor_of-Ensures minimum_bytes none = Ensures-ok none tt
  floor_of-Ensures minimum_bytes (some m) = Ensures-raise_if _ _ _ λ enough.
      Ensures-bind _ _ (ceil_div-Ensures _ _ _) λ q hq.
        Ensures-bind _ _ (round_up-Ensures _ _ _) λ f hf. Ensures-ok (some f) (
          ltb→ge m minimum_bytes enough,
          hf.multiple,
          le_trans hq.reaches (mul-le-mul_right stride hf.above),
        )

  -- What the cap leaves of `desired`: it stays aligned, above the minimum and the floor, and under
  -- `max_bytes`, and it is `desired` itself if there is no cap.
  pub record IsCapped (minimum : ℕ) (floor : Option ℕ) (desired : ℕ) (m : Option ℕ) (r : ℕ)
      : Type 0 where
    pub keeps_minimum : minimum ≤ desired → minimum ≤ r
    pub keeps_floor : (f : ℕ) → floor ≡ some f → f ≤ desired → f ≤ r
    pub keeps_multiple : IsMultiple alignment desired → IsMultiple alignment r
    pub under : (b : ℕ) → m ≡ some b → r * stride ≤ b
    pub below : r ≤ desired
    pub uncapped : m ≡ none → r ≡ desired

  some_eq : {a b : ℕ} → some a ≡ some b → a ≡ b
  some_eq h = cc

  cap_bytes : (b cap r : ℕ) → cap ≤ b / stride → r ≤ cap → r * stride ≤ b
  cap_bytes b cap r h k =
      le_trans (mul-le-mul_right stride (le_trans k h)) (div-mul-le_self b stride)

  pub cap_desired-Ensures :
      (minimum : ℕ) (floor : Option ℕ) (desired : ℕ) (m : Option ℕ)
      → Ensures (IsCapped minimum floor desired m) (cap_desired rank policy minimum floor desired m)
  unfolding cap_desired
  cap_desired-Ensures minimum floor desired none = Ensures-ok _ (record {
    keeps_minimum = λ h. h;
    keeps_floor = λ f e h. h;
    keeps_multiple = λ h. h;
    under = λ b e. cc;
    below = omega arith;
    uncapped = λ e. refl;
  })
  cap_desired-Ensures minimum floor desired (some b) =
      Ensures-bind _ _ (round_down-Ensures _ _ _) λ cap hc. Ensures-raise_if _ _ _ λ enough.
        Ensures-raise_if _ _ _ λ agrees. Ensures-ok _ (record {
          keeps_minimum = λ h. omega (arith, ltb→ge cap minimum enough);
          keeps_floor = λ f e h. ground arith;
          keeps_multiple = λ h. min-IsMultiple alignment desired cap h hc.multiple;
          under = λ b' e.
              subst (λ x. min desired cap * stride ≤ x) (some_eq e)
                (cap_bytes b cap (min desired cap) hc.below (omega arith));
          below = omega arith;
          uncapped = λ e. cc;
        })

  -- The virtual maximum: aligned, at least the desired blocks, under the cap.
  pub record IsMaximum (desired : ℕ) (n : Option ℕ) (r : ℕ) : Type 0 where
    pub above : desired ≤ r
    pub keeps_multiple : IsMultiple alignment desired → IsMultiple alignment r
    pub under : (b : ℕ) → policy.max_bytes ≡ some b → desired * stride ≤ b → r * stride ≤ b
    pub fixed : n ≡ none → r ≡ desired

  pub record IsCappedMaximum (aligned : ℕ) (m : Option ℕ) (r : ℕ) : Type 0 where
    pub multiple : IsMultiple alignment aligned → IsMultiple alignment r
    pub under : (b : ℕ) → m ≡ some b → r * stride ≤ b

  cap_maximum-Ensures :
      (aligned : ℕ) (m : Option ℕ)
      → Ensures (IsCappedMaximum aligned m) (cap_maximum rank policy aligned m)
  unfolding cap_maximum
  cap_maximum-Ensures aligned none = Ensures-ok _ (record { multiple = λ h. h; under = λ b e. cc })
  cap_maximum-Ensures aligned (some b) = Ensures-bind _ _ (round_down-Ensures _ _ _) λ cap hc.
      Ensures-ok _ (record {
        multiple = λ h. min-IsMultiple alignment aligned cap h hc.multiple;
        under = λ b' e.
            subst (λ x. min aligned cap * stride ≤ x) (some_eq e)
              (cap_bytes b cap (min aligned cap) hc.below (omega arith));
      })

  pub maximum_of-Ensures :
      (sequence desired : ℕ) (n : Option ℕ)
      → Ensures (IsMaximum desired n) (maximum_of rank policy sequence desired n)
  unfolding maximum_of
  maximum_of-Ensures sequence desired none = Ensures-ok _ (record {
    above = omega arith;
    keeps_multiple = λ h. h;
    under = λ b e h. h;
    fixed = λ e. refl;
  })
  maximum_of-Ensures sequence desired (some n) =
      Ensures-bind _ _ (checked_mul-Ensures _ _ _) λ w hw.
        Ensures-bind _ _ (checked_add-Ensures _ _ _) λ p hp.
          Ensures-bind _ _ (checked_mul-Ensures _ _ _) λ k hk.
            Ensures-bind _ _ (ceil_div-Ensures _ _ _) λ h hh.
              Ensures-bind _ _ (checked_add-Ensures _ _ _) λ b hb.
                Ensures-bind _ _ (checked_add-Ensures _ _ _) λ u hu.
                  Ensures-bind _ _ (round_up-Ensures _ _ _) λ a ha.
                    Ensures-bind _ _ (cap_maximum-Ensures a policy.max_bytes) λ r hr.
                      Ensures-raise_if _ _ _ λ fits. Ensures-ok _ (record {
                        above = ltb→ge r desired fits;
                        keeps_multiple = λ _. hr.multiple ha.multiple;
                        under = λ b' e _. hr.under b' e;
                        fixed = λ e. cc;
                      })

  pub record IsEffective (effective : ℕ) (reduced : Bool) : Type 0 where
    pub holds_one : 1 ≤ effective
    pub reduced_lem : reduced ≡ ltb effective policy.target_concurrency
    pub strict : policy.strict_concurrency ≡ true → reduced ≡ false

  pub check_effective-Ensures :
      (effective : ℕ) → Ensures (IsEffective effective) (check_effective rank policy effective)
  unfolding check_effective
  check_effective-Ensures effective = Ensures-raise_if _ _ _ λ holds.
      Ensures-raise_if _ _ _ λ strict. Ensures-ok _ (record {
        holds_one = ltb→ge effective 1 holds;
        reduced_lem = refl;
        strict = λ e. ground arith;
      })
