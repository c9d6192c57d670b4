-- ===== src/Contract/Registration.antt =====
-- `validate_registration` and `_validate_provisioning_grant` of contract.py.
pub mod Laws
use kapsl_integrations.Prelude.{
  ℕ, ◌<◌, ◌≡◌, refl, String, Bool, true, false, not, ◌&&◌, ◌||◌, Option, none, some, List, [], ◌∷◌,
  ok, err, raise_if, map, any, all, ltb, str_eq, arith, if◌then◌else◌, Ensures, Ensures-ok,
  Ensures-err, Ensures-if, Ensures-bind, Ensures-skip, Ensures-raise_if, ◌>>=◌, ◌>>◌, ==_iff, ◌==◌,
}
use kapsl_integrations.Prelude.Texts.{text_length, all_hex, after_prefix}
use kapsl_integrations.Prelude.Values.{
  Value, Items, Fields, null, str, arr, obj, no_items, item, no_fields, entry, get, lookup,
  elements, same_value,
}
use kapsl_integrations.Contract.Checks.{
  ContractError, Checked, mapping, nonempty, positive_int, unhashable, unsupported_version,
  features_not_lists, leasing_required, opaque_metadata, opaque_ownership, opaque_transport,
  opaque_topology, opaque_profile, shared_metadata, shared_ownership, shared_features,
  shared_transport, live_transport, unsupported_tier, capacity_groups_missing, grant_mismatch,
  grant_tier, token_too_long, digest_not_canonical,
}
use kapsl_integrations.Contract.Version.{accepts_version}
use kapsl_integrations.Contract.Shard.{validate_adapter_profile}
use kapsl_integrations.Contract.Attachment.{nonempty_list}
use kapsl_integrations.Contract.Resize.{is_text}
use kapsl_integrations.Contract.Receipt.{is_set}
use kapsl_integrations.Contract.Capacity.{
  CapacityGroup, validate_capacity_groups, AreCapacityGroups, validate_capacity_groups-Ensures,
}
use kapsl_integrations.Contract.Topology.{
  Topology, validate_topology, IsTopology, validate_topology-Ensures,
}

-- `re.fullmatch(r"sha256:[0-9a-f]{64}", digest)`
abbrev pub is_digest : Option String → Bool
is_digest none = false
is_digest (some rest) = text_length rest == 64 && all_hex rest

unfoldable pub validate_provisioning_grant : Fields → Checked (Unit {0})
validate_provisioning_grant grant = do
  token ← nonempty (get grant "token") "provisioning grant token"
  raise_if (ltb 256 (text_length token)) token_too_long
  digest ← nonempty (get grant "geometry_digest") "provisioning grant geometry_digest"
  raise_if (not (is_digest (after_prefix "sha256:" digest))) digest_not_canonical
  positive_int (get grant "authority_generation") "provisioning grant authority_generation"
  positive_int (get grant "expires_at_unix_ms") "provisioning grant expires_at_unix_ms"
  ok tt

pub data Tier : Type 0 where
  kv_connected shared_pool : Tier

abbrev pub tier_of : Value → Checked Tier
tier_of value =
    if is_text value "kv_connected"
    then ok kv_connected
    else if is_text value "shared_pool"
    then ok shared_pool
    else err unsupported_tier

-- Two lists, or neither is read.
unfoldable pub both_lists : Value → Value → Checked (List Value × Items)
both_lists (arr features) (arr transports) = ok (elements features, transports)
both_lists _ _ = err features_not_lists

-- `text in features`
abbrev pub has_feature : List Value → String → Bool
has_feature features text = any (λ v. is_text v text) features

-- `{"kind": kind}`
abbrev pub kind_object : String → Value
kind_object kind = obj (entry "kind" (str kind) no_fields)

abbrev pub has_transport : Items → String → Bool
has_transport transports kind = any (same_value (kind_object kind)) (elements transports)

abbrev pub is_hashable : Value → Bool
is_hashable (arr items) = false
is_hashable (obj fields') = false
is_hashable _ = true

-- `"key" in mapping`
abbrev pub has_key : Fields → String → Bool
has_key fields key = elim (lookup fields key) [ none ↦ false | some value ↦ true ]

unfoldable pub check_connected : Fields → Fields → Items → Checked (Unit {0})
check_connected registration capabilities transports = do
  raise_if (not (is_text (get capabilities "metadata_mode") "opaque")) opaque_metadata
  raise_if (not (is_text (get capabilities "ownership") "backend")) opaque_ownership
  raise_if (not (has_transport transports "backend_opaque")) opaque_transport
  raise_if (has_key registration "topology") opaque_topology
  raise_if (has_key registration "adapter_profile") opaque_profile
  ok tt

unfoldable pub check_shared : Fields → Fields → List Value → Items → Checked (Unit {0})
check_shared registration capabilities features transports = do
  raise_if (not (is_text (get capabilities "metadata_mode") "structured")) shared_metadata
  raise_if (not (is_text (get capabilities "ownership") "kapsl_runtime")) shared_ownership
  raise_if (not (all is_hashable features)) unhashable
  raise_if
      (not (
        has_feature features "direct_attention_access"
        && has_feature features "external_pool_attachment"
        && has_feature features "participant_block_selection"))
      shared_features
  let live = has_feature features "live_pool_resize"
  raise_if (not (has_transport transports (if live then "cuda_vmm" else "cuda_ipc")))
      shared_transport
  raise_if
      (live && not (same_value (arr transports) (arr (item (kind_object "cuda_vmm") no_items))))
      live_transport
  profile ← mapping (get registration "adapter_profile") "adapter profile"
  validate_adapter_profile profile

unfoldable pub check_tier : Tier → Fields → Fields → List Value → Items → Checked (Unit {0})
check_tier kv_connected registration capabilities features transports =
    check_connected registration capabilities transports
check_tier shared_pool registration capabilities features transports =
    check_shared registration capabilities features transports

abbrev pub is_shared : Tier → Bool
is_shared kv_connected = false
is_shared shared_pool = true

abbrev pub ids_of : List CapacityGroup → List String
ids_of [] = []
ids_of (g ∷ gs) = g.group_id ∷ ids_of gs

-- The topology, which only a shared pool has.
unfoldable pub topology_of :
    Tier → Fields → String → List String → Value → Bool → Checked (Option Topology)
topology_of kv_connected registration fingerprint ids version multiple = ok none
topology_of shared_pool registration fingerprint ids version multiple = do
  fields ← mapping (get registration "topology") "topology"
  topology ← validate_topology fields fingerprint ids version multiple
  ok (some topology)

unfoldable pub check_grant : Tier → Fields → Value → Bool → Checked (Unit {0})
check_grant tier capabilities grant advertised = do
  raise_if ((advertised && not (is_set grant)) || (not advertised && is_set grant)) grant_mismatch
  if is_set grant
      then (do
        raise_if
            (not (is_shared tier) || not (is_text (get capabilities "ownership") "kapsl_runtime"))
            grant_tier
        fields ← mapping grant "provisioning grant"
        validate_provisioning_grant fields)
      else ok tt

pub record Registration : Type 0 where
  pub tier : Tier
  pub groups : List CapacityGroup
  pub topology : Option Topology

unfoldable pub validate_registration : Fields → Checked Registration
validate_registration registration = do
  nonempty (get registration "participant_id") "participant_id"
  nonempty (get registration "backend") "backend"
  fingerprint ← nonempty (get registration "model_fingerprint") "model_fingerprint"
  capabilities ← mapping (get registration "capabilities") "capabilities"
  version ← mapping (get capabilities "abi_version") "abi_version"
  raise_if (not (accepts_version version)) unsupported_version
  (features, transports) ← both_lists (get capabilities "features") (get capabilities "transports")
  raise_if (not (has_feature features "capacity_leasing")) leasing_required
  tier ← tier_of (get capabilities "tier")
  check_tier tier registration capabilities features transports
  capacity_model ← mapping (get registration "capacity_model") "capacity_model"
  raw_groups ← nonempty_list capacity_groups_missing (get capacity_model "groups")
  groups ← validate_capacity_groups (is_shared tier) [] [] raw_groups
  topology ←
      topology_of tier registration fingerprint (ids_of groups) (get capabilities "abi_version")
        (has_feature features "multiple_cache_groups")
  check_grant tier capabilities (get registration "provisioning_grant")
      (has_feature features "provisioning_grant")
  ok (record { tier = tier; groups = groups; topology = topology })
