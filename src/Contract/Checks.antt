-- ===== src/Contract/Checks.antt =====
-- The field checks at the end of contract.py, and what the validators refuse.
use kapsl_integrations.Prelude.{
  ℕ, Bool, false, List, zero, suc, String, Result, ok, err, str_eq, if◌then◌else◌,
}
use kapsl_integrations.Prelude.Texts.{strip}
use kapsl_integrations.Prelude.Sorting.{contains}
use kapsl_integrations.Prelude.Values.{pos, Value, Fields, int, str, obj, arr}

pub data ContractError : Type 0 where
  not_an_object not_text not_positive not_non_negative : String → ContractError
  same_block_counts stage_direction endpoints_unaligned segments_not_a_list : ContractError
  segments_of_phase segments_not_dense segments_incomplete stage_unsupported : ContractError
  scheduler_fields role_unsupported shard_outside_world : ContractError
  mapped_exceeds_imported views_missing views_not_unique view_outside : ContractError
  detach_without_bindings detach_not_unique completion_unsupported : ContractError
  groups_missing groups_not_unique lease_groups_missing lease_blocks_not_a_list : ContractError
  unknown_block_kind unhashable : ContractError
  receipt_participant pools_not_a_list unknown_allocation_mode pool_groups_missing
        mixed_transports :
      ContractError
  elastic_unexpected unsupported_version features_not_lists leasing_required : ContractError
  opaque_metadata opaque_ownership opaque_transport opaque_topology opaque_profile : ContractError
  shared_metadata shared_ownership shared_features shared_transport live_transport : ContractError
  unsupported_tier capacity_groups_missing capacity_groups_not_unique domains_missing :
      ContractError
  unknown_domain domains_not_unique domains_differ maximum_missing grant_mismatch grant_tier :
      ContractError
  token_too_long digest_not_canonical topology_version fingerprint_mismatch : ContractError
  cache_groups_missing many_groups_unsupported cache_groups_not_unique layers_missing :
      ContractError
  layers_not_unique geometry_unsupported element_unsupported policy_unsupported groups_differ :
      ContractError
  response_mismatch unknown_result : ContractError
  elastic_counts elastic_unaligned elastic_without_segments prefix_not_dense prefix_incomplete :
      ContractError

abbrev pub Checked : Type 0 → Type 0
Checked A = Result ContractError A

unfoldable pub mapping : Value → String → Checked Fields
mapping (obj fields) field = ok fields
mapping _ field = err (not_an_object field)

-- The text is returned as it was given, with its blanks.
unfoldable pub nonempty : Value → String → Checked String
nonempty (str s) field = if str_eq (strip s) "" then err (not_text field) else ok s
nonempty _ field = err (not_text field)

unfoldable pub positive_int : Value → String → Checked ℕ
positive_int (int (pos zero)) field = err (not_positive field)
positive_int (int (pos (suc n))) field = ok (suc n)
positive_int _ field = err (not_positive field)

unfoldable pub nonnegative_int : Value → String → Checked ℕ
nonnegative_int (int (pos n)) field = ok n
nonnegative_int _ field = err (not_non_negative field)

-- `value in {...}` of a set of texts. A list or an object has no hash: the test itself raises.
unfoldable pub is_member : Value → List String → Checked Bool
is_member (str s) texts = ok (contains str_eq texts s)
is_member (arr items) texts = err unhashable
is_member (obj f) texts = err unhashable
is_member _ texts = ok false
