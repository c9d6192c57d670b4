-- ===== src/Planning/Plan/Maximum.antt =====
-- The total of the virtual maxima is first summed by `PlanningResult.to_dict`.
use kapsl_integrations.Prelude.{
  ◌+◌, ◌*◌, ◌<◌, ◌≡◌, List, [], ◌∷◌, ok, err, arith, length, All, ge→ltb, lt→ltb,
}
use kapsl_integrations.Planning.Errors.{overflows}
use kapsl_integrations.Planning.Types.{RankGeometry, GeometryDescriptor, SizingPolicy, RankSizing}
use kapsl_integrations.Planning.Validity.{IsPolicy}
use kapsl_integrations.Planning.Checked.{uint64_max}
use kapsl_integrations.Planning.Checked.Laws.{Fits}
use kapsl_integrations.Planning.Checked.Totals.{sum_by, checked_total-exact}
use kapsl_integrations.Planning.Geometry.Valid.{IsGeometry}
use kapsl_integrations.Planning.Sizing.{size_rank}
use kapsl_integrations.Planning.Sizing.Bounds.{size_rank-IsSized}
use kapsl_integrations.Planning.Plan.{total_maximum_bytes, build_plan}
use kapsl_integrations.Planning.Plan.Assembly.{sizings, build_plan-uniform}

module _ (s : RankSizing) where
  maxima :
      (ranks : List RankGeometry)
      → sum_by (λ (t : RankSizing). t.maximum_bytes) (sizings s ranks)
        ≡ length ranks * s.maximum_bytes
  maxima [] = omega arith
  maxima (r ∷ ranks) = omega (arith, maxima ranks)

  maxima_fit :
      (ranks : List RankGeometry)
      → Fits s.maximum_bytes
      → All (λ (t : RankSizing). Fits t.maximum_bytes) (sizings s ranks)
  maxima_fit [] h = tt
  maxima_fit (r ∷ ranks) h = (h, maxima_fit ranks h)

-- Where the desired bytes of all ranks are a word and the maximum bytes of all ranks are not,
-- `build_plan` returns a plan whose `total_maximum_bytes` raises: the refusal comes when the plan is
-- serialized, not when it is built.
pub build_plan-deferred_overflow :
    (g : GeometryDescriptor) (policy : SizingPolicy) (s : RankSizing) (first : RankGeometry)
    (rest : List RankGeometry)
    → IsPolicy policy
    → IsGeometry g
    → g.ranks ≡ first ∷ rest
    → size_rank first policy ≡ ok s
    → Fits (length g.ranks * s.desired_bytes)
    → uint64_max < length g.ranks * s.maximum_bytes
    → (build_plan g policy
        ≡ ok (record { geometry = g; policy = policy; ranks = sizings s g.ranks }))
      × (total_maximum_bytes (sizings s g.ranks) ≡ err (overflows "total_maximum_bytes"))
unfolding total_maximum_bytes
build_plan-deferred_overflow g policy s first rest p h e sized fits over =
    let d = size_rank-IsSized first policy s p sized in
    let sum : 0 + sum_by (λ (t : RankSizing). t.maximum_bytes) (sizings s g.ranks)
        ≡ length g.ranks * s.maximum_bytes =
      omega (arith, maxima s g.ranks) in
    (
      rw (
        build_plan-uniform g policy s first rest p h e sized,
        ge→ltb uint64_max (length g.ranks * s.desired_bytes) fits,
      ),
      rw (
        checked_total-exact (λ (t : RankSizing). t.maximum_bytes) "total_maximum_bytes" 0
            (sizings s g.ranks) (omega arith) (maxima_fit s g.ranks d.maximum_bytes.1),
        sum,
        lt→ltb uint64_max (length g.ranks * s.maximum_bytes) over,
      ),
    )
