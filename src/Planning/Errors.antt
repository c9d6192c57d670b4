-- ===== src/Planning/Errors.antt =====
-- The refusals of planning.py. Each constructor is one `raise PlanningError(...)`; an argument is
-- what its message names.
use kapsl_integrations.Prelude.{ℕ, String, Result}

pub data PlanningError : Type 0 where
  not_text not_an_integer not_positive not_non_negative overflows : String → PlanningError
  min_bytes_below_minimum max_bytes_below_minimum : ℕ → PlanningError
  min_max_conflict maximum_below_target no_whole_sequence : PlanningError
  strict_reduction : ℕ → ℕ → ℕ → PlanningError
  unsupported_layout_version not_byte_addressable group_layers_not_unique : PlanningError
  unsupported_policy window_missing window_unexpected extra_unexpected : PlanningError
  pool_without_groups rank_without_groups group_ids_not_unique stride_mismatch : PlanningError
  rank_layers_not_unique backend_not_certified world_not_covered ranks_out_of_range : PlanningError
  devices_not_distinct ranks_differ : PlanningError
  percent_above_100 maximum_below_target_concurrency min_above_max not_a_boolean : PlanningError
  sizing_not_covering sizing_out_of_range block_counts_differ byte_grants_differ : PlanningError
  maxima_differ maximum_below_initial : PlanningError

abbrev pub Planned : Type 0 → Type 0
Planned A = Result PlanningError A
