-- ===== src/Planning/Plan/Examples.antt =====
-- Plans over two ranks, and the checks of a policy and of a geometry at concrete values.
use kapsl_integrations.Prelude.{
  ℕ, ◌*◌, ◌^◌, ◌≡◌, refl, String, false, none, some, [], ◌∷◌, ok, err, arith,
}
use kapsl_integrations.Prelude.Texts.{strip}
use kapsl_integrations.Prelude.Sorting.{sorted}
use kapsl_integrations.Prelude.Values.{pos, int}
use kapsl_integrations.Planning.Errors.{overflows, percent_above_100}
use kapsl_integrations.Planning.Types.{
  CacheGroupGeometry, RankGeometry, GeometryDescriptor, SizingPolicy, RankSizing,
}
use kapsl_integrations.Planning.Validity.{IsPolicy}
use kapsl_integrations.Planning.Checked.{
  uint, checked_add, checked_mul, ceil_div, round_up, round_down, checked_total,
}
use kapsl_integrations.Planning.Policy.{
  uint_value, uint_if_set, boolean, arguments_of, policy_post_init, policy_post_init-IsPolicy,
  policy_post_init-arguments_of,
}
use kapsl_integrations.Planning.Geometry.{
  text, total_pool_bytes_per_block, geometry_post_init, rank_post_init, shared_pool_block_stride,
}
use kapsl_integrations.Planning.Geometry.Laws.{IsRankChecked, rank_post_init-IsRankChecked}
use kapsl_integrations.Planning.Geometry.Valid.{IsGeometry}
use kapsl_integrations.Planning.Geometry.World.{IsWorld, geometry_post_init-IsWorld}
use kapsl_integrations.Planning.Sizing.{
  required_blocks_per_sequence, minimum_of, desired_demand, floor_of, cap_desired, cap_maximum,
  maximum_of, check_effective, size_rank,
}
use kapsl_integrations.Planning.Plan.{build_plan, total_maximum_bytes}
use kapsl_integrations.Planning.Plan.Assembly.{sizings, build_plan-uniform}
use kapsl_integrations.Planning.Plan.Maximum.{build_plan-deferred_overflow}

abbrev group : ℕ → CacheGroupGeometry
group stride = record {
  group_id = "vllm.group.0";
  layers = "layers.0" ∷ [];
  block_size_tokens = 16;
  bytes_per_group_block = stride;
  required_blocks_per_sequence = 1;
  kv_heads = 8;
  key_head_dim = 64;
  value_head_dim = 64;
  element_type = record { name = "float16"; bits = 16 };
  policy_kind = "full_attention";
  window_tokens = none;
  extra_retained_tokens = 0;
}

abbrev rank_at : ℕ → ℕ → ℕ → RankGeometry
rank_at number device stride = record {
  rank = number;
  device_id = device;
  pool_bytes_per_block = stride;
  groups = group stride ∷ [];
  fixed_overhead_blocks = 1;
}

abbrev two_ranks : ℕ → GeometryDescriptor
two_ranks stride = record {
  identity = record {
    adapter_id = "kapsl-vllm-connector";
    adapter_version = "0.7.0";
    backend_version = "1.0";
    profile_id = "packed";
    layout_version = 1;
  };
  model_fingerprint = "sha256:00";
  max_model_len = 4096;
  tensor_parallel_size = 2;
  attention_backend = "FLASH_ATTN";
  layout_id = "BLNHC";
  ranks = rank_at 0 4 stride ∷ rank_at 1 7 stride ∷ [];
}

abbrev wide : SizingPolicy
wide = record {
  target_concurrency = 1;
  maximum_concurrency = some 10;
  headroom_percent = 0;
  prefix_blocks = 0;
  alignment_blocks = 1;
  min_bytes = none;
  max_bytes = none;
  strict_concurrency = false;
}

abbrev sizing : ℕ → RankSizing
sizing stride = record {
  rank = 0;
  device_id = 4;
  bytes_per_block = stride;
  sequence_blocks = 1;
  minimum_blocks = 2;
  minimum_bytes = 2 * stride;
  base_blocks = 2;
  headroom_blocks = 0;
  desired_blocks = 2;
  desired_bytes = 2 * stride;
  maximum_blocks = 11;
  maximum_bytes = 11 * stride;
  effective_target_concurrency = 1;
  concurrency_reduced = false;
}

wide-IsPolicy : IsPolicy wide
wide-IsPolicy = omega arith

first_sized : size_rank (rank_at 0 4 (2 ^ 60)) wide ≡ ok (sizing (2 ^ 60))
unfolding size_rank required_blocks_per_sequence checked_total minimum_of desired_demand floor_of
    cap_desired cap_maximum maximum_of check_effective uint checked_add checked_mul ceil_div
    round_up round_down
first_sized = refl

two_ranks-IsGeometry : IsGeometry (two_ranks (2 ^ 60))
two_ranks-IsGeometry = record { covered = refl; numbered = refl; uniform = refl }

build_plan-uniform_example :
    build_plan (two_ranks (2 ^ 60)) wide
    ≡ ok (record {
      geometry = two_ranks (2 ^ 60);
      policy = wide;
      ranks = sizings (sizing (2 ^ 60)) (two_ranks (2 ^ 60)).ranks;
    })
build_plan-uniform_example =
    build_plan-uniform (two_ranks (2 ^ 60)) wide (sizing (2 ^ 60)) (rank_at 0 4 (2 ^ 60))
      (rank_at 1 7 (2 ^ 60) ∷ []) wide-IsPolicy two_ranks-IsGeometry refl first_sized

build_plan-deferred_overflow_example :
    (build_plan (two_ranks (2 ^ 60)) wide
      ≡ ok (record {
        geometry = two_ranks (2 ^ 60);
        policy = wide;
        ranks = sizings (sizing (2 ^ 60)) (two_ranks (2 ^ 60)).ranks;
      }))
    × (total_maximum_bytes (sizings (sizing (2 ^ 60)) (two_ranks (2 ^ 60)).ranks)
        ≡ err (overflows "total_maximum_bytes"))
build_plan-deferred_overflow_example =
    build_plan-deferred_overflow (two_ranks (2 ^ 60)) wide (sizing (2 ^ 60)) (rank_at 0 4 (2 ^ 60))
      (rank_at 1 7 (2 ^ 60) ∷ []) wide-IsPolicy two_ranks-IsGeometry refl first_sized (omega arith)
      (omega arith)

too_generous :
    policy_post_init (record (arguments_of wide) { headroom_percent = int (pos 101) })
    ≡ err percent_above_100
unfolding policy_post_init uint_value uint_if_set
too_generous = refl

wide_accepted : policy_post_init (arguments_of wide) ≡ ok wide
unfolding policy_post_init uint_value uint_if_set boolean
wide_accepted = refl

accepted-IsPolicy : IsPolicy wide
accepted-IsPolicy = policy_post_init-IsPolicy (arguments_of wide) wide wide_accepted

policy_post_init-arguments_of_example : policy_post_init (arguments_of wide) ≡ ok wide
policy_post_init-arguments_of_example = policy_post_init-arguments_of wide wide-IsPolicy

-- The ranks are given in the other order, and the texts with blanks around them.
abbrev unsorted : GeometryDescriptor
unsorted = record (two_ranks 1000) {
  ranks = rank_at 1 7 1000 ∷ rank_at 0 4 1000 ∷ [];
  model_fingerprint = " sha256:00 ";
  attention_backend = "flash_attn";
}

certified : String → String
certified name = "FLASH_ATTN"

sorted_world : geometry_post_init certified unsorted ≡ ok (two_ranks 1000)
unfolding geometry_post_init text strip total_pool_bytes_per_block checked_total checked_add uint
    certified
sorted_world = refl

geometry_post_init-IsWorld_example : IsWorld (two_ranks 1000)
geometry_post_init-IsWorld_example =
    geometry_post_init-IsWorld certified unsorted (two_ranks 1000) sorted_world

rank_checked : rank_post_init (rank_at 0 4 1000) ≡ ok (rank_at 0 4 1000)
unfolding rank_post_init shared_pool_block_stride sorted uint
rank_checked = refl

rank_at-IsRankChecked : IsRankChecked (rank_at 0 4 1000)
rank_at-IsRankChecked =
    rank_post_init-IsRankChecked (rank_at 0 4 1000) (rank_at 0 4 1000) (omega arith, tt)
      rank_checked
