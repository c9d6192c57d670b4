-- ===== src/Planning/Geometry.antt =====
-- The `__post_init__` checks of the geometry classes of planning.py. Each takes the fields as they
-- were given and returns the value as it is stored. `upper` stands for Python's `str.upper`.
pub mod Laws
pub mod Valid
pub mod Alike
pub mod Numbered
pub mod World
use Prim.Native.String.{compare as compare_text}
use Prim.Native.Nat.{Ordering}
use kapsl_integrations.Prelude.{
  ℕ, ◌%◌, max, String, Bool, true, false, not, ◌&&◌, ◌||◌, Option, none, some, List, [], ◌∷◌, ◌++◌,
  map, ok, err, raise_if, traverse, length, all, ltb, leb, ◌==◌, str_eq, if◌then◌else◌, ◌>>=◌, ◌>>◌,
}
use kapsl_integrations.Prelude.Texts.{strip}
use kapsl_integrations.Prelude.Sorting.{sorted, contains, distinct, range}
use kapsl_integrations.Planning.Errors.{
  PlanningError, Planned, not_text, unsupported_layout_version, not_byte_addressable,
  group_layers_not_unique, unsupported_policy, window_missing, window_unexpected, extra_unexpected,
  pool_without_groups, rank_without_groups, group_ids_not_unique, stride_mismatch,
  rank_layers_not_unique, backend_not_certified, world_not_covered, ranks_out_of_range,
  devices_not_distinct, ranks_differ,
}
use kapsl_integrations.Planning.Types.{
  PlannerIdentity, ElementType, CacheGroupGeometry, RankGeometry, GeometryDescriptor,
}
use kapsl_integrations.Planning.Checked.{uint, checked_total}

-- `_text` of a value that is a `str`.
unfoldable pub text : String → String → Planned String
text value field =
    let stripped = strip value in if str_eq stripped "" then err (not_text field) else ok stripped

unfoldable pub identity_post_init : PlannerIdentity → Planned PlannerIdentity
identity_post_init i = do
  adapter_id ← text i.adapter_id "adapter_id"
  adapter_version ← text i.adapter_version "adapter_version"
  backend_version ← text i.backend_version "backend_version"
  profile_id ← text i.profile_id "profile_id"
  layout_version ← uint i.layout_version "layout_version" false
  raise_if (not (layout_version == 1)) unsupported_layout_version
  ok (record {
    adapter_id = adapter_id;
    adapter_version = adapter_version;
    backend_version = backend_version;
    profile_id = profile_id;
    layout_version = layout_version;
  })

unfoldable pub element_type_post_init : ElementType → Planned ElementType
element_type_post_init e = do
  name ← text e.name "element_type.name"
  bits ← uint e.bits "element_type.bits" false
  raise_if (not (bits % 8 == 0)) not_byte_addressable
  ok (record { name = name; bits = bits })

-- `if self.policy_kind == "sliding_window": ... elif self.window_tokens is not None: ...`
unfoldable pub check_window : Bool → Option ℕ → Planned (Unit {0})
check_window true none = err window_missing
check_window true (some window) = do uint window "window_tokens" false; ok tt
check_window false none = ok tt
check_window false (some window) = err window_unexpected

abbrev pub is_empty : {A : Type 0} → List A → Bool
is_empty [] = true
is_empty (x ∷ xs) = false

unfoldable pub group_post_init : CacheGroupGeometry → Planned CacheGroupGeometry
unfolding check_window
group_post_init g = do
  group_id ← text g.group_id "group_id"
  layers ← traverse (λ layer. text layer "layer name") g.layers
  raise_if (is_empty layers || not (distinct str_eq layers)) group_layers_not_unique
  uint g.block_size_tokens "block_size_tokens" false
  uint g.bytes_per_group_block "bytes_per_group_block" false
  uint g.required_blocks_per_sequence "required_blocks_per_sequence" false
  uint g.kv_heads "kv_heads" false
  uint g.key_head_dim "key_head_dim" false
  uint g.value_head_dim "value_head_dim" false
  let sliding = str_eq g.policy_kind "sliding_window"
  raise_if (not (str_eq g.policy_kind "full_attention" || sliding)) unsupported_policy
  check_window sliding g.window_tokens
  uint g.extra_retained_tokens "extra_retained_tokens" true
  raise_if (not sliding && ltb 0 g.extra_retained_tokens) extra_unexpected
  ok (record g { group_id = group_id; layers = layers })

-- `[layer for group in groups for layer in group.layers]`
abbrev pub layers_of : List CacheGroupGeometry → List String
layers_of [] = []
layers_of (g ∷ gs) = g.layers ++ layers_of gs

abbrev pub largest : ℕ → List ℕ → ℕ
largest n [] = n
largest n (m ∷ ms) = largest (max n m) ms

-- `max` of a list; the caller has refused the empty one.
abbrev pub max_of : List ℕ → ℕ
max_of [] = 0
max_of (n ∷ ns) = largest n ns

unfoldable pub shared_pool_block_stride : List CacheGroupGeometry → Planned ℕ
shared_pool_block_stride groups = do
  raise_if (is_empty groups) pool_without_groups
  strides ←
      traverse
        (λ (g : CacheGroupGeometry). uint g.bytes_per_group_block "bytes_per_group_block" false)
        groups
  ok (max_of strides)

-- The key orders of the two `sorted` calls.
abbrev pub by_group_id : CacheGroupGeometry → CacheGroupGeometry → Bool
by_group_id a b = elim (compare_text a.group_id b.group_id) [ Ordering.gt ↦ false | _ ↦ true ]

abbrev pub by_rank : RankGeometry → RankGeometry → Bool
by_rank a b = leb a.rank b.rank

unfoldable pub rank_post_init : RankGeometry → Planned RankGeometry
unfolding sorted shared_pool_block_stride
rank_post_init r = do
  uint r.rank "rank" true
  uint r.device_id "device_id" true
  uint r.pool_bytes_per_block "pool_bytes_per_block" false
  uint r.fixed_overhead_blocks "fixed_overhead_blocks" true
  let groups = sorted by_group_id r.groups
  raise_if (is_empty groups) rank_without_groups
  raise_if (not (distinct str_eq (map (λ (g : CacheGroupGeometry). g.group_id) groups)))
      group_ids_not_unique
  stride ← shared_pool_block_stride groups
  raise_if (not (r.pool_bytes_per_block == stride)) stride_mismatch
  raise_if (not (distinct str_eq (layers_of groups))) rank_layers_not_unique
  ok (record r { groups = groups })

abbrev pub same_element : ElementType → ElementType → Bool
same_element a b = str_eq a.name b.name && a.bits == b.bits

-- The `policy` entries of two `to_dict` values agree.
abbrev pub same_policy : CacheGroupGeometry → CacheGroupGeometry → Option ℕ → Option ℕ → Bool
same_policy a b none none = str_eq a.policy_kind b.policy_kind
same_policy a b (some v) (some w) =
    str_eq a.policy_kind b.policy_kind
    && v == w
    && a.extra_retained_tokens == b.extra_retained_tokens
same_policy a b _ _ = false

abbrev pub same_texts : List String → List String → Bool
same_texts [] [] = true
same_texts (a ∷ xs) (b ∷ ys) = str_eq a b && same_texts xs ys
same_texts _ _ = false

-- The `to_dict` values of two groups are equal.
abbrev pub same_group : CacheGroupGeometry → CacheGroupGeometry → Bool
same_group a b =
    str_eq a.group_id b.group_id
    && same_texts a.layers b.layers
    && a.block_size_tokens == b.block_size_tokens
    && a.bytes_per_group_block == b.bytes_per_group_block
    && a.required_blocks_per_sequence == b.required_blocks_per_sequence
    && a.kv_heads == b.kv_heads
    && a.key_head_dim == b.key_head_dim
    && a.value_head_dim == b.value_head_dim
    && same_element a.element_type b.element_type
    && same_policy a b a.window_tokens b.window_tokens

abbrev pub same_groups : List CacheGroupGeometry → List CacheGroupGeometry → Bool
same_groups [] [] = true
same_groups (a ∷ xs) (b ∷ ys) = same_group a b && same_groups xs ys
same_groups _ _ = false

-- A rank has the physical shape of the first one.
abbrev pub same_shape : RankGeometry → RankGeometry → Bool
same_shape first rank =
    rank.pool_bytes_per_block == first.pool_bytes_per_block
    && rank.fixed_overhead_blocks == first.fixed_overhead_blocks
    && same_groups rank.groups first.groups

abbrev pub like_first : List RankGeometry → Bool
like_first [] = true
like_first (first ∷ rest) = all (same_shape first) rest

-- `{rank.rank for rank in ranks} == set(range(n))`
abbrev pub covers_range : ℕ → List ℕ → Bool
covers_range n numbers =
    all (λ r. contains ◌==◌ (range 0 n) r) numbers && all (contains ◌==◌ numbers) (range 0 n)

-- The property `GeometryDescriptor.total_pool_bytes_per_block`.
unfoldable pub total_pool_bytes_per_block : List RankGeometry → Planned ℕ
total_pool_bytes_per_block ranks =
    checked_total (λ (r : RankGeometry). r.pool_bytes_per_block) "total_pool_bytes_per_block" 0
      ranks

unfoldable pub geometry_post_init :
    (String → String) → GeometryDescriptor → Planned GeometryDescriptor
unfolding sorted total_pool_bytes_per_block
geometry_post_init upper g = do
  fingerprint ← text g.model_fingerprint "model_fingerprint"
  backend ← text g.attention_backend "attention_backend"
  raise_if (not (str_eq (upper backend) "FLASH_ATTN")) backend_not_certified
  layout_id ← text g.layout_id "layout_id"
  uint g.max_model_len "max_model_len" false
  uint g.tensor_parallel_size "tensor_parallel_size" false
  let ranks = sorted by_rank g.ranks
  raise_if (not (length ranks == g.tensor_parallel_size)) world_not_covered
  raise_if (not (covers_range g.tensor_parallel_size (map (λ (r : RankGeometry). r.rank) ranks)))
      ranks_out_of_range
  raise_if (not (distinct ◌==◌ (map (λ (r : RankGeometry). r.device_id) ranks)))
      devices_not_distinct
  raise_if (not (like_first ranks)) ranks_differ
  total_pool_bytes_per_block ranks
  ok (record g {
    model_fingerprint = fingerprint;
    attention_backend = upper backend;
    layout_id = layout_id;
    ranks = ranks;
  })
