-- ===== src/Contract/Accepted.antt =====
-- An accepted receipt and an accepted registration, with the theorems at them.
use kapsl_integrations.Prelude.{String, List, [], ◌∷◌, some, ok, err, ◌≡◌, refl}
use kapsl_integrations.Prelude.Texts.{strip}
use kapsl_integrations.Prelude.Sorting.{sorted}
use kapsl_integrations.Prelude.Values.{
  Value, Items, Fields, str, arr, obj, no_items, item, no_fields, entry, get, lookup, elements,
  same_value,
}
use kapsl_integrations.Contract.Checks.{
  mapping, nonempty, positive_int, nonnegative_int, is_member, groups_differ,
}
use kapsl_integrations.Contract.Segments.{walk}
use kapsl_integrations.Contract.Elastic.{mapped_segments, segment_key, validate_elastic_pool}
use kapsl_integrations.Contract.Examples.{count, elastic, pool, profile}
use kapsl_integrations.Contract.Attachment.{nonempty_list, optional_name}
use kapsl_integrations.Contract.Shard.{validate_adapter_profile}
use kapsl_integrations.Contract.Receipt.{
  Receipt, validate_registration_receipt, validate_pools, pool_list, elastic_of, IsReceipt,
  validate_registration_receipt-IsReceipt,
}
use kapsl_integrations.Contract.Version.{accepts_version}
use kapsl_integrations.Contract.Capacity.{
  cuda, validate_capacity_groups, validate_domains, domain_identity, maximum_allocations,
}
use kapsl_integrations.Contract.Topology.{
  validate_topology, topology_shard, validate_cache_groups, validate_layers, validate_geometry,
  validate_element, validate_policy,
}
use kapsl_integrations.Contract.Registration.{
  Registration, shared_pool, validate_registration, check_tier, check_shared, both_lists,
  topology_of, check_grant,
}
use kapsl_integrations.Contract.Registration.Laws.{
  IsRegistration, validate_registration-IsRegistration,
}
use kapsl_integrations.Prelude.{false, ◌>>=◌, ◌>>◌}
use kapsl_integrations.Contract.Checks.{capacity_groups_missing}
use kapsl_integrations.Contract.Registration.{check_connected}
use kapsl_integrations.Contract.Requests.Laws.{IsText}
use kapsl_integrations.Contract.Messages.{
  opaque_registration, opaque_message, objects, opaque_registration-validate_capacity_groups,
}

abbrev strings : List String → Items
strings [] = no_items
strings (s ∷ ss) = item (str s) (strings ss)

abbrev kind : String → Value
kind name = obj (entry "kind" (str name) no_fields)

abbrev live_pool : Value
live_pool = obj (
    entry "binding_id" (str "b") (
      entry "capacity_pool_id" (str "p") (
        entry "generation" (count 1) (
          entry "block_count" (count 20) (
            entry "bytes_per_block" (count 8) (
              entry "descriptor" (str "d") (
                entry "group_ids" (arr (strings ("g" ∷ []))) (
                  entry "memory_domain" (kind "cuda") (
                    entry "transport" (kind "cuda_vmm")
                      (entry "elastic" (obj elastic) no_fields))))))))))

abbrev pub receipt : Fields
receipt = entry "participant_id" (str "vllm") (
    entry "participant_epoch" (count 3)
      (entry "shared_pools" (arr (item live_pool no_items)) no_fields))

abbrev pub received : Receipt
received = record {
  participant_epoch = 3;
  shared_pools =
      record {
        binding_id = "b";
        capacity_pool_id = "p";
        generation = 1;
        block_count = 20;
        bytes_per_block = 8;
        group_ids = "g" ∷ [];
        elastic = some pool;
      }
      ∷ [];
}

receipt_accepted : validate_registration_receipt receipt "vllm" ≡ ok received
unfolding validate_registration_receipt validate_pools pool_list elastic_of nonempty_list
    validate_elastic_pool mapped_segments segment_key walk sorted is_member mapping nonempty
    positive_int nonnegative_int strip get lookup elements
receipt_accepted = refl

received-IsReceipt : IsReceipt received
received-IsReceipt =
    validate_registration_receipt-IsReceipt receipt "vllm" received receipt_accepted

abbrev pub version : Value
version = obj (entry "minor" (count 5) (entry "major" (count 1) no_fields))

abbrev capabilities : Value
capabilities = obj (
    entry "abi_version" version (
      entry "tier" (str "shared_pool") (
        entry "metadata_mode" (str "structured") (
          entry "ownership" (str "kapsl_runtime") (
            entry "features"
              (arr (
                strings (
                  "capacity_leasing" ∷ "direct_attention_access" ∷ "external_pool_attachment"
                  ∷ "participant_block_selection" ∷ "live_pool_resize" ∷ [])))
              (entry "transports" (arr (item (kind "cuda_vmm") no_items)) no_fields))))))

abbrev capacity_model : Value
capacity_model = obj (
    entry "groups"
      (arr (
        item
          (obj (
            entry "group_id" (str "g") (
              entry "pool_id" (str "p") (
                entry "allocation_granularity_tokens" (count 16) (
                  entry "bytes_per_allocation" (count 8) (
                    entry "max_allocations" (count 20) (
                      entry "memory_domains"
                        (arr (
                          item
                            (obj
                              (entry "kind" (str "cuda") (entry "device_id" (count 0) no_fields)))
                            no_items))
                        no_fields)))))))
          no_items))
      no_fields)

abbrev cache_group : String → Value
cache_group name = obj (
    entry "group_id" (str name) (
      entry "layers" (arr (item (obj (entry "index" (count 0) no_fields)) no_items)) (
        entry "geometry"
          (obj (
            entry "kind" (str "paged_attention") (
              entry "block_size_tokens" (count 16) (
                entry "kv_heads" (count 8) (
                  entry "key_head_dim" (count 64) (
                    entry "value_head_dim" (count 64) (
                      entry "element_type" (kind "f16")
                        (entry "layout" (kind "packed") no_fields))))))))
          (entry "policy" (kind "full_attention") no_fields))))

abbrev pub registration : String → Fields
registration group = entry "participant_id" (str "vllm") (
    entry "backend" (str "vllm") (
      entry "model_fingerprint" (str "m") (
        entry "capabilities" capabilities (
          entry "adapter_profile" profile (
            entry "capacity_model" capacity_model (
              entry "topology"
                (obj (
                  entry "abi_version" version (
                    entry "model_fingerprint" (str "m")
                      (entry "cache_groups" (arr (item (cache_group group) no_items)) no_fields))))
                no_fields))))))

abbrev registered : Registration
registered = record {
  tier = shared_pool;
  groups =
      record {
        group_id = "g";
        pool_id = "p";
        allocation_granularity_tokens = 16;
        bytes_per_allocation = 8;
        memory_domains = cuda 0 ∷ [];
        max_allocations = some 20;
      }
      ∷ [];
  topology = some (record {
    shard = record {
      tensor_parallel_rank = 0;
      tensor_parallel_world_size = 1;
      pipeline_parallel_rank = 0;
      pipeline_parallel_world_size = 1;
    };
    cache_groups = ("g", 0 ∷ []) ∷ [];
  });
}

registration_accepted : validate_registration (registration "g") ≡ ok registered
unfolding validate_registration check_tier check_shared both_lists topology_of check_grant
    validate_topology topology_shard validate_cache_groups validate_layers validate_geometry
    validate_element validate_policy validate_capacity_groups validate_domains domain_identity
    maximum_allocations nonempty_list optional_name validate_adapter_profile accepts_version
    same_value is_member mapping nonempty positive_int nonnegative_int strip get lookup elements
registration_accepted = refl

-- A topology of another group than the capacity model's is refused.
other_group_refused : validate_registration (registration "h") ≡ err groups_differ
unfolding validate_registration check_tier check_shared both_lists topology_of validate_topology
    topology_shard validate_cache_groups validate_layers validate_geometry validate_element
    validate_policy validate_capacity_groups validate_domains domain_identity maximum_allocations
    nonempty_list optional_name validate_adapter_profile accepts_version same_value is_member
    mapping nonempty positive_int nonnegative_int strip get lookup elements
other_group_refused = refl

validate_registration-IsRegistration_example : IsRegistration (registration "g") registered
validate_registration-IsRegistration_example =
    validate_registration-IsRegistration (registration "g") registered registration_accepted

x_IsText : IsText "x"
unfolding strip
x_IsText = refl

abbrev opaque_group : Fields
opaque_group = entry "group_id" (str "g") (
    entry "pool_id" (str "p") (
      entry "allocation_granularity_tokens" (count 16) (
        entry "bytes_per_allocation" (count 8)
          (entry "memory_domains" (arr (item (kind "host") no_items)) no_fields))))

opaque_registration-validate_capacity_groups_example :
    opaque_registration "x" "x" (opaque_group ∷ []) "x" ≡ (
      nonempty_list capacity_groups_missing (arr (objects (opaque_group ∷ []))) >>= λ raw.
      validate_capacity_groups false [] [] raw
      >> ok (opaque_message "x" "x" "x" (opaque_group ∷ [])))
opaque_registration-validate_capacity_groups_example =
    opaque_registration-validate_capacity_groups "x" "x" "x" (opaque_group ∷ []) x_IsText x_IsText
      x_IsText

opaque_accepted :
    opaque_registration "x" "x" (opaque_group ∷ []) "x"
    ≡ ok (opaque_message "x" "x" "x" (opaque_group ∷ []))
unfolding opaque_registration validate_registration check_tier check_connected both_lists
    topology_of check_grant validate_capacity_groups validate_domains domain_identity
    maximum_allocations nonempty_list accepts_version same_value mapping nonempty positive_int strip
    get lookup elements
opaque_accepted = refl
