-- ===== src/Planning/Sizing/Bytes.antt =====
-- The configured byte bounds hold of every plan.
use native.Mathlib.Nat.{le_trans, mul-le-mul_right}
use kapsl_integrations.Prelude.{ℕ, ◌≤◌, ◌≡◌, refl, Option, none, some, ok, arith}
use kapsl_integrations.Planning.Types.{RankGeometry, SizingPolicy, RankSizing}
use kapsl_integrations.Planning.Validity.{IsPolicy}
use kapsl_integrations.Planning.Sizing.{raise_to, size_rank}
use kapsl_integrations.Planning.Sizing.Stages.{IsFloor}
use kapsl_integrations.Planning.Sizing.Trace.{Trace, size_rank-Trace}

-- At least the configured bytes, and at most.
abbrev pub AtLeast : Option ℕ → ℕ → Type 0
AtLeast none n = Unit
AtLeast (some b) n = b ≤ n

abbrev pub AtMost : Option ℕ → ℕ → Type 0
AtMost none n = Unit
AtMost (some b) n = n ≤ b

module _ (rank : RankGeometry) (policy : SizingPolicy) where
  open rank use {fixed_overhead_blocks as overhead, pool_bytes_per_block as stride}

  capped_bytes : (m : Option ℕ) (n : ℕ) → ((b : ℕ) → m ≡ some b → n ≤ b) → AtMost m n
  capped_bytes none n h = tt
  capped_bytes (some b) n h = h b refl

  Trace-AtLeast :
      (m floor : Option ℕ) (s : RankSizing)
      → Trace rank policy s
      → IsFloor rank policy s.minimum_bytes m floor
      → ((f : ℕ) → floor ≡ some f → f ≤ s.desired_blocks)
      → AtLeast m s.desired_bytes
  Trace-AtLeast none floor s t hf h = tt
  Trace-AtLeast (some m) none s t hf h = absurd hf
  Trace-AtLeast (some m) (some f) s t hf h =
      rw t.desired_bytes.0 (le_trans hf.2 (mul-le-mul_right stride (h f refl)))

  floor_kept : (floor : Option ℕ) (demand f : ℕ) → floor ≡ some f → f ≤ raise_to floor demand
  floor_kept none demand f e = cc
  floor_kept (some g) demand f e = let same : g ≡ f = cc in omega arith

  Trace-AtMost_desired :
      (s : RankSizing) → Trace rank policy s → AtMost policy.max_bytes s.desired_bytes
  Trace-AtMost_desired s t =
      capped_bytes policy.max_bytes s.desired_bytes λ b e. rw t.desired_bytes.0 (t.capped.under b e)

  Trace-AtMost : (s : RankSizing) → Trace rank policy s → AtMost policy.max_bytes s.maximum_bytes
  Trace-AtMost s t =
      capped_bytes policy.max_bytes s.maximum_bytes
        λ b e. rw t.maximum_bytes.0 (t.maximum.under b e (t.capped.under b e))

-- Every plan honours the byte bounds of its policy: the desired bytes reach `min_bytes` where it is
-- set, and neither the desired nor the maximum bytes pass `max_bytes` where that is set.
pub size_rank-bytes :
    (rank : RankGeometry) (policy : SizingPolicy) (s : RankSizing)
    → IsPolicy policy
    → size_rank rank policy ≡ ok s
    → AtLeast policy.min_bytes s.desired_bytes
      × AtMost policy.max_bytes s.desired_bytes
      × AtMost policy.max_bytes s.maximum_bytes
size_rank-bytes rank policy s p e =
    let t = (size_rank-Trace rank policy).at s e in
    (
      Trace-AtLeast rank policy policy.min_bytes t.floor s t t.floor_lem
          (λ f ef. t.capped.keeps_floor f ef (floor_kept rank policy t.floor t.demand f ef)),
      Trace-AtMost_desired rank policy s t,
      Trace-AtMost rank policy s t,
    )
