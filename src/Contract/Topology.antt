-- ===== src/Contract/Topology.antt =====
-- `_validate_topology` of contract.py.
use kapsl_integrations.Prelude.{
  ℕ, ◌≡◌, String, Bool, true, false, not, ◌&&◌, ◌||◌, List, [], ◌∷◌, ok, raise_if, length, ltb, leb,
  ◌==◌, str_eq, arith, if◌then◌else◌, Ensures, Ensures-ok, Ensures-bind, Ensures-skip,
  Ensures-raise_if, ◌>>=◌, ◌>>◌,
}
use kapsl_integrations.Prelude.Sorting.{contains}
use kapsl_integrations.Prelude.Values.{
  pos, Value, Fields, int, obj, no_fields, get, get_or, same_value,
}
use kapsl_integrations.Contract.Checks.{
  Checked, mapping, nonempty, positive_int, nonnegative_int, is_member, shard_outside_world,
  unsupported_version, topology_version, fingerprint_mismatch, cache_groups_missing,
  many_groups_unsupported, cache_groups_not_unique, layers_missing, layers_not_unique,
  geometry_unsupported, element_unsupported, policy_unsupported, groups_differ,
}
use kapsl_integrations.Contract.Segments.{positive-Ensures}
use kapsl_integrations.Contract.Version.{accepts_version}
use kapsl_integrations.Contract.Shard.{Shard, IsShard}
use kapsl_integrations.Contract.Attachment.{nonempty_list, optional_name}
use kapsl_integrations.Contract.Resize.{is_text}
use kapsl_integrations.Contract.Capacity.{same_set}

-- The shard, of which each field has a default.
unfoldable pub topology_shard : Fields → Checked Shard
topology_shard topology = do
  shard ← mapping (get_or topology "shard" (obj no_fields)) "topology shard"
  tp_world ←
      positive_int (get_or shard "tensor_parallel_world_size" (int (pos 1)))
        "tensor_parallel_world_size"
  pp_world ←
      positive_int (get_or shard "pipeline_parallel_world_size" (int (pos 1)))
        "pipeline_parallel_world_size"
  tp_rank ←
      nonnegative_int (get_or shard "tensor_parallel_rank" (int (pos 0))) "tensor_parallel_rank"
  pp_rank ←
      nonnegative_int (get_or shard "pipeline_parallel_rank" (int (pos 0))) "pipeline_parallel_rank"
  raise_if (leb tp_world tp_rank || leb pp_world pp_rank) shard_outside_world
  ok (record {
    tensor_parallel_rank = tp_rank;
    tensor_parallel_world_size = tp_world;
    pipeline_parallel_rank = pp_rank;
    pipeline_parallel_world_size = pp_world;
  })

unfoldable pub validate_layers : List ℕ → List Value → Checked (List ℕ)
validate_layers seen [] = ok []
validate_layers seen (raw_layer ∷ rest) = do
  layer ← mapping raw_layer "topology layer"
  index ← nonnegative_int (get layer "index") "topology layer index"
  raise_if (contains ◌==◌ seen index) layers_not_unique
  optional_name (get layer "name") "topology layer name"
  indices ← validate_layers (index ∷ seen) rest
  ok (index ∷ indices)

unfoldable pub validate_element : Fields → Checked (Unit {0})
validate_element element_type = do
  kind ← nonempty (get element_type "kind") "topology element_type kind"
  if str_eq kind "custom"
      then (do nonempty (get element_type "name") "topology element_type custom name"; ok tt)
      else raise_if (not (contains str_eq ("f16" ∷ "bf16" ∷ "f32" ∷ "i8" ∷ "fp8_e4m3" ∷ []) kind))
          element_unsupported

unfoldable pub validate_geometry : Fields → Checked (Unit {0})
validate_geometry geometry = do
  raise_if (not (is_text (get geometry "kind") "paged_attention")) geometry_unsupported
  positive_int (get geometry "block_size_tokens") "topology geometry block_size_tokens"
  positive_int (get geometry "kv_heads") "topology geometry kv_heads"
  positive_int (get geometry "key_head_dim") "topology geometry key_head_dim"
  positive_int (get geometry "value_head_dim") "topology geometry value_head_dim"
  element_type ← mapping (get geometry "element_type") "topology element_type"
  validate_element element_type
  layout ← mapping (get geometry "layout") "topology layout"
  nonempty (get layout "kind") "topology layout kind"
  ok tt

unfoldable pub validate_policy : Fields → Checked (Unit {0})
validate_policy policy = do
  known ← is_member (get policy "kind") ("full_attention" ∷ "sliding_window" ∷ [])
  raise_if (not known) policy_unsupported
  if is_text (get policy "kind") "sliding_window"
      then (do positive_int (get policy "window_tokens") "sliding window tokens"; ok tt)
      else ok tt

-- A cache group: its name and the indices of its layers.
unfoldable pub validate_cache_groups : List String → List Value → Checked (List (String × List ℕ))
validate_cache_groups seen [] = ok []
validate_cache_groups seen (raw_group ∷ rest) = do
  group ← mapping raw_group "topology cache group"
  group_id ← nonempty (get group "group_id") "topology group_id"
  raise_if (contains str_eq seen group_id) cache_groups_not_unique
  raw_layers ← nonempty_list layers_missing (get group "layers")
  layers ← validate_layers [] raw_layers
  geometry ← mapping (get group "geometry") "topology geometry"
  validate_geometry geometry
  policy ← mapping (get group "policy") "topology policy"
  validate_policy policy
  groups ← validate_cache_groups (group_id ∷ seen) rest
  ok ((group_id, layers) ∷ groups)

pub record Topology : Type 0 where
  pub shard : Shard
  pub cache_groups : List (String × List ℕ)

abbrev pub names : List (String × List ℕ) → List String
names [] = []
names ((g, layers) ∷ gs) = g ∷ names gs

-- `multiple_groups` is the capability of that name, and `capacity_ids` is a set without repetition.
unfoldable pub validate_topology : Fields → String → List String → Value → Bool → Checked Topology
validate_topology topology model_fingerprint capacity_ids capability_version multiple_groups = do
  version ← mapping (get topology "abi_version") "topology abi_version"
  raise_if (not (accepts_version version)) unsupported_version
  capability ← mapping capability_version "capability ABI version"
  raise_if (not (same_value (obj version) (obj capability))) topology_version
  raise_if (not (is_text (get topology "model_fingerprint") model_fingerprint)) fingerprint_mismatch
  shard ← topology_shard topology
  raw ← nonempty_list cache_groups_missing (get topology "cache_groups")
  raise_if (ltb 1 (length raw) && not multiple_groups) many_groups_unsupported
  groups ← validate_cache_groups [] raw
  raise_if (not (same_set str_eq (names groups) capacity_ids)) groups_differ
  ok (record { shard = shard; cache_groups = groups })

-- No layer index is used twice, or is among those given.
abbrev pub FreshIndices : List ℕ → List ℕ → Type 0
FreshIndices seen [] = Unit
FreshIndices seen (i ∷ is) = (contains ◌==◌ seen i ≡ false) × FreshIndices (i ∷ seen) is

abbrev pub FreshCacheGroups : List String → List (String × List ℕ) → Type 0
FreshCacheGroups seen [] = Unit
FreshCacheGroups seen ((g, layers) ∷ gs) =
    (contains str_eq seen g ≡ false) × FreshIndices [] layers × FreshCacheGroups (g ∷ seen) gs

validate_layers-Ensures :
    (seen : List ℕ) (raw : List Value) → Ensures (FreshIndices seen) (validate_layers seen raw)
unfolding validate_layers
validate_layers-Ensures seen [] = Ensures-ok _ tt
validate_layers-Ensures seen (raw_layer ∷ rest) =
    Ensures-skip (mapping raw_layer "topology layer") _ λ layer.
      Ensures-skip (nonnegative_int (get layer "index") "topology layer index") _ λ index.
        Ensures-raise_if (contains ◌==◌ seen index) _ _ λ new.
          Ensures-skip (optional_name (get layer "name") "topology layer name") _ λ _.
            Ensures-bind _ _ (validate_layers-Ensures (index ∷ seen) rest)
              λ indices fresh. Ensures-ok _ (new, fresh)

validate_cache_groups-Ensures :
    (seen : List String) (raw : List Value)
    → Ensures (FreshCacheGroups seen) (validate_cache_groups seen raw)
unfolding validate_cache_groups
validate_cache_groups-Ensures seen [] = Ensures-ok _ tt
validate_cache_groups-Ensures seen (raw_group ∷ rest) =
    Ensures-skip (mapping raw_group "topology cache group") _ λ group.
      Ensures-skip (nonempty (get group "group_id") "topology group_id") _ λ group_id.
        Ensures-raise_if (contains str_eq seen group_id) _ _ λ new.
          Ensures-skip (nonempty_list layers_missing (get group "layers")) _ λ raw_layers.
            Ensures-bind _ _ (validate_layers-Ensures [] raw_layers) λ layers indices.
              Ensures-skip (mapping (get group "geometry") "topology geometry") _ λ geometry.
                Ensures-skip (validate_geometry geometry) _ λ _.
                  Ensures-skip (mapping (get group "policy") "topology policy") _ λ policy.
                    Ensures-skip (validate_policy policy) _ λ _.
                      Ensures-bind _ _ (validate_cache_groups-Ensures (group_id ∷ seen) rest)
                        λ groups fresh. Ensures-ok _ (new, indices, fresh)

topology_shard-Ensures : (topology : Fields) → Ensures IsShard (topology_shard topology)
unfolding topology_shard
topology_shard-Ensures topology =
    Ensures-skip (mapping (get_or topology "shard" (obj no_fields)) "topology shard") _ λ shard.
      Ensures-bind _ _ (positive-Ensures _ _) λ tp_world _.
        Ensures-bind _ _ (positive-Ensures _ _) λ pp_world _.
          Ensures-skip
            (nonnegative_int (get_or shard "tensor_parallel_rank" (int (pos 0)))
              "tensor_parallel_rank")
            _
            λ tp_rank.
              Ensures-skip
                (nonnegative_int (get_or shard "pipeline_parallel_rank" (int (pos 0)))
                  "pipeline_parallel_rank")
                _
                λ pp_rank.
                  Ensures-raise_if (leb tp_world tp_rank || leb pp_world pp_rank) _ _ λ inside.
                    Ensures-ok _ (record { tensor = ground arith; pipeline = ground arith })

pub record IsTopology (capacity_ids : List String) (t : Topology) : Type 0 where
  pub shard : IsShard t.shard
  pub fresh : FreshCacheGroups [] t.cache_groups
  pub matching : same_set str_eq (names t.cache_groups) capacity_ids ≡ true

pub validate_topology-Ensures :
    (topology : Fields) (model_fingerprint : String) (capacity_ids : List String)
    (capability_version : Value) (multiple_groups : Bool)
    → Ensures (IsTopology capacity_ids) (
        validate_topology topology model_fingerprint capacity_ids capability_version
          multiple_groups)
unfolding validate_topology
validate_topology-Ensures topology model_fingerprint capacity_ids capability_version
      multiple_groups =
    Ensures-skip (mapping (get topology "abi_version") "topology abi_version") _ λ version.
      Ensures-raise_if (not (accepts_version version)) _ _ λ _.
        Ensures-skip (mapping capability_version "capability ABI version") _ λ capability.
          Ensures-raise_if (not (same_value (obj version) (obj capability))) _ _ λ _.
            Ensures-raise_if (not (is_text (get topology "model_fingerprint") model_fingerprint)) _
              _
              λ _. Ensures-bind _ _ (topology_shard-Ensures topology) λ shard in_world.
                Ensures-skip (nonempty_list cache_groups_missing (get topology "cache_groups")) _
                  λ raw. Ensures-raise_if (ltb 1 (length raw) && not multiple_groups) _ _ λ _.
                    Ensures-bind _ _ (validate_cache_groups-Ensures [] raw) λ groups fresh.
                      Ensures-raise_if (not (same_set str_eq (names groups) capacity_ids)) _ _
                        λ same.
                          Ensures-ok _
                            (record { shard = in_world; fresh = fresh; matching = ground arith })
