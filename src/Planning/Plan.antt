-- ===== src/Planning/Plan.antt =====
-- `PlanningResult` and `build_plan` of planning.py.
pub mod Uniform
pub mod Assembly
pub mod Maximum
pub mod Examples
use kapsl_integrations.Prelude.{
  ℕ, Bool, true, false, not, ◌&&◌, ◌||◌, List, [], ◌∷◌, map, ok, raise_if, traverse, length, all,
  any, ltb, ◌==◌, ◌>>=◌, ◌>>◌,
}
use kapsl_integrations.Planning.Errors.{
  Planned, sizing_not_covering, sizing_out_of_range, block_counts_differ, byte_grants_differ,
  maxima_differ, maximum_below_initial,
}
use kapsl_integrations.Planning.Types.{
  RankGeometry, GeometryDescriptor, SizingPolicy, RankSizing, PlanningResult,
}
use kapsl_integrations.Planning.Checked.{checked_total}
use kapsl_integrations.Planning.Geometry.{covers_range}
use kapsl_integrations.Planning.Sizing.{size_rank}

-- `len(set(values)) == 1`
abbrev pub one_value : List ℕ → Bool
one_value [] = false
one_value (x ∷ xs) = all (λ y. x == y) xs

unfoldable pub total_desired_bytes : List RankSizing → Planned ℕ
total_desired_bytes ranks =
    checked_total (λ (s : RankSizing). s.desired_bytes) "total_desired_bytes" 0 ranks

unfoldable pub total_maximum_bytes : List RankSizing → Planned ℕ
total_maximum_bytes ranks =
    checked_total (λ (s : RankSizing). s.maximum_bytes) "total_maximum_bytes" 0 ranks

-- `PlanningResult.__post_init__`
unfoldable pub result_post_init : PlanningResult → Planned PlanningResult
result_post_init r = do
  raise_if (not (length r.ranks == r.geometry.tensor_parallel_size)) sizing_not_covering
  raise_if (not (covers_range (length r.ranks) (map (λ (s : RankSizing). s.rank) r.ranks)))
      sizing_out_of_range
  raise_if (not (one_value (map (λ (s : RankSizing). s.desired_blocks) r.ranks)))
      block_counts_differ
  raise_if (not (one_value (map (λ (s : RankSizing). s.desired_bytes) r.ranks))) byte_grants_differ
  raise_if
      (not (one_value (map (λ (s : RankSizing). s.maximum_blocks) r.ranks))
        || not (one_value (map (λ (s : RankSizing). s.maximum_bytes) r.ranks)))
      maxima_differ
  raise_if (any (λ (s : RankSizing). ltb s.maximum_blocks s.desired_blocks) r.ranks)
      maximum_below_initial
  total_desired_bytes r.ranks
  ok r

unfoldable pub build_plan : GeometryDescriptor → SizingPolicy → Planned PlanningResult
build_plan geometry policy = do
  ranks ← traverse (λ (r : RankGeometry). size_rank r policy) geometry.ranks
  result_post_init (record { geometry = geometry; policy = policy; ranks = ranks })
