-- ===== src/Planning/Types.antt =====
-- The frozen dataclasses of planning.py. A field holds what the class's checks let through: a
-- checked integer is a natural number, an optional one an `Option`.
use kapsl_integrations.Prelude.{ℕ, String, Bool, Option, List}

pub record PlannerIdentity : Type 0 where
  pub adapter_id : String
  pub adapter_version : String
  pub backend_version : String
  pub profile_id : String
  pub layout_version : ℕ

pub record ElementType : Type 0 where
  pub name : String
  pub bits : ℕ

pub record CacheGroupGeometry : Type 0 where
  pub group_id : String
  pub layers : List String
  pub block_size_tokens : ℕ
  pub bytes_per_group_block : ℕ
  pub required_blocks_per_sequence : ℕ
  pub kv_heads : ℕ
  pub key_head_dim : ℕ
  pub value_head_dim : ℕ
  pub element_type : ElementType
  pub policy_kind : String
  pub window_tokens : Option ℕ
  pub extra_retained_tokens : ℕ

pub record RankGeometry : Type 0 where
  pub rank : ℕ
  pub device_id : ℕ
  pub pool_bytes_per_block : ℕ
  pub groups : List CacheGroupGeometry
  pub fixed_overhead_blocks : ℕ

pub record GeometryDescriptor : Type 0 where
  pub identity : PlannerIdentity
  pub model_fingerprint : String
  pub max_model_len : ℕ
  pub tensor_parallel_size : ℕ
  pub attention_backend : String
  pub layout_id : String
  pub ranks : List RankGeometry

pub record SizingPolicy : Type 0 where
  pub target_concurrency : ℕ
  pub maximum_concurrency : Option ℕ
  pub headroom_percent : ℕ
  pub prefix_blocks : ℕ
  pub alignment_blocks : ℕ
  pub min_bytes : Option ℕ
  pub max_bytes : Option ℕ
  pub strict_concurrency : Bool

pub record RankSizing : Type 0 where
  pub rank : ℕ
  pub device_id : ℕ
  pub bytes_per_block : ℕ
  pub sequence_blocks : ℕ
  pub minimum_blocks : ℕ
  pub minimum_bytes : ℕ
  pub base_blocks : ℕ
  pub headroom_blocks : ℕ
  pub desired_blocks : ℕ
  pub desired_bytes : ℕ
  pub maximum_blocks : ℕ
  pub maximum_bytes : ℕ
  pub effective_target_concurrency : ℕ
  pub concurrency_reduced : Bool

pub record PlanningResult : Type 0 where
  pub geometry : GeometryDescriptor
  pub policy : SizingPolicy
  pub ranks : List RankSizing
