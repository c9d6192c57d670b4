-- ===== src/Contract/Requests.antt =====
-- The requests of the control channel in contract.py: reserve, detach, resize poll and
-- acknowledgement; and the lease that answers a reservation.
pub mod Laws
use kapsl_integrations.Prelude.{
  ℕ, String, Bool, true, false, not, Option, none, some, List, [], ◌∷◌, ok, err, raise_if, traverse,
  map, str_eq, if◌then◌else◌, ◌>>=◌, ◌>>◌,
}
use kapsl_integrations.Prelude.Sorting.{contains, distinct}
use kapsl_integrations.Prelude.Values.{
  ℤ, pos, Value, Items, Fields, null, int, str, arr, obj, no_items, item, no_fields, entry, get,
  lookup, elements,
}
use kapsl_integrations.Contract.Checks.{
  ContractError, Checked, mapping, nonempty, positive_int, nonnegative_int, is_member,
  detach_without_bindings, detach_not_unique, completion_unsupported, groups_missing,
  groups_not_unique, lease_groups_missing, lease_blocks_not_a_list, unknown_block_kind,
}
use kapsl_integrations.Contract.Shard.{Shard, validate_shard}
use kapsl_integrations.Contract.Attachment.{nonempty_list}
use kapsl_integrations.Contract.Resize.{is_text, Stage, resize_stage, validate_resize_actor}

pub record Detach : Type 0 where
  pub participant_epoch : ℕ
  pub binding_ids : List String
  pub shard : Shard

unfoldable pub validate_shared_pool_detach_request : Fields → Checked Detach
validate_shared_pool_detach_request request = do
  epoch ← positive_int (get request "participant_epoch") "participant_epoch"
  raw ← nonempty_list detach_without_bindings (get request "binding_ids")
  normalized ← traverse (λ v. nonempty v "detach binding_id") raw
  raise_if (not (distinct str_eq normalized)) detach_not_unique
  shard_fields ← mapping (get request "shard") "detach shard"
  shard ← validate_shard shard_fields
  completion ← mapping (get request "completion") "detach completion"
  raise_if (not (is_text (get completion "kind") "backend_synchronized")) completion_unsupported
  ok (record { participant_epoch = epoch; binding_ids = normalized; shard = shard })

unfoldable pub validate_resize_poll_request : Fields → Checked ℕ
validate_resize_poll_request request = do
  positive_int (get request "participant_epoch") "participant_epoch"
  actor ← mapping (get request "actor") "resize actor"
  validate_resize_actor actor
  nonnegative_int (get request "applied_generation") "applied_generation"

pub record Acknowledgement : Type 0 where
  pub binding_id : String
  pub resize_generation : ℕ
  pub stage : Stage
  pub applied_block_count : ℕ

unfoldable pub validate_resize_ack_request : Fields → Checked Acknowledgement
validate_resize_ack_request request = do
  positive_int (get request "participant_epoch") "participant_epoch"
  actor ← mapping (get request "actor") "resize actor"
  validate_resize_actor actor
  binding_id ← nonempty (get request "binding_id") "binding_id"
  generation ← positive_int (get request "resize_generation") "resize_generation"
  stage ← resize_stage (get request "stage")
  blocks ← positive_int (get request "applied_block_count") "applied_block_count"
  ok (record {
    binding_id = binding_id;
    resize_generation = generation;
    stage = stage;
    applied_block_count = blocks;
  })

-- `if request.get("ttl_ms") is not None`
unfoldable pub optional_positive : Value → String → Checked (Option ℕ)
optional_positive null field = ok none
optional_positive value field = do n ← positive_int value field; ok (some n)

-- The loop over the groups of a reservation: each name once.
unfoldable pub validate_groups : List String → List Value → Checked (List (String × ℕ))
validate_groups seen [] = ok []
validate_groups seen (raw_group ∷ rest) = do
  group ← mapping raw_group "group"
  group_id ← nonempty (get group "group_id") "group_id"
  raise_if (contains str_eq seen group_id) groups_not_unique
  capacity ← positive_int (get group "token_capacity") "token_capacity"
  groups ← validate_groups (group_id ∷ seen) rest
  ok ((group_id, capacity) ∷ groups)

pub record Reservation : Type 0 where
  pub request_id : String
  pub sequence_id : String
  pub groups : List (String × ℕ)
  pub ttl_ms : Option ℕ

unfoldable pub validate_reserve_request : Fields → Checked Reservation
validate_reserve_request request = do
  sequence ← mapping (get request "sequence") "sequence"
  request_id ← nonempty (get sequence "request_id") "sequence.request_id"
  sequence_id ← nonempty (get sequence "sequence_id") "sequence.sequence_id"
  raw ← nonempty_list groups_missing (get request "groups")
  groups ← validate_groups [] raw
  ttl_ms ← optional_positive (get request "ttl_ms") "ttl_ms"
  ok (record {
    request_id = request_id;
    sequence_id = sequence_id;
    groups = groups;
    ttl_ms = ttl_ms;
  })

-- The groups that `make_reserve_request` writes, all with one capacity.
abbrev pub group_items : ℤ → List String → Items
group_items capacity [] = no_items
group_items capacity (g ∷ gs) =
    item (obj (entry "group_id" (str g) (entry "token_capacity" (int capacity) no_fields)))
      (group_items capacity gs)

abbrev pub ttl_field : Option ℤ → Fields
ttl_field none = no_fields
ttl_field (some ttl_ms) = entry "ttl_ms" (int ttl_ms) no_fields

-- `if ttl_ms is not None: request["ttl_ms"] = ...`
unfoldable pub checked_ttl : Option ℤ → Checked (Unit {0})
checked_ttl none = ok tt
checked_ttl (some ttl_ms) = do positive_int (int ttl_ms) "ttl_ms"; ok tt

unfoldable pub make_reserve_request :
    String → String → ℤ → List String → ℤ → Option ℤ → Checked Fields
make_reserve_request request_id sequence_id token_capacity group_ids priority ttl_ms = do
  request ← nonempty (str request_id) "request_id"
  sequence ← nonempty (str sequence_id) "sequence_id"
  groups ←
      traverse
        (λ g. do
          group_id ← nonempty (str g) "group_id"
          positive_int (int token_capacity) "token_capacity"
          ok group_id)
        group_ids
  checked_ttl ttl_ms
  let fields =
      entry "sequence"
        (obj (entry "request_id" (str request) (entry "sequence_id" (str sequence) no_fields)))
        (entry "groups" (arr (group_items token_capacity groups))
          (entry "priority" (int priority) (ttl_field ttl_ms)))
  validate_reserve_request fields
  ok fields

-- A block of a lease, of which only those of the runtime's pool are read.
unfoldable pub validate_block : Value → Checked (Unit {0})
validate_block raw_block = do
  block ← mapping raw_block "lease block"
  if is_text (get block "kind") "runtime_pool"
      then (do
        nonempty (get block "pool_id") "lease block pool_id"
        nonnegative_int (get block "block_index") "block_index"
        positive_int (get block "generation") "generation"
        ok tt)
      else (do
        foreign ← is_member (get block "kind") ("backend_opaque" ∷ "transport" ∷ [])
        raise_if (not foreign) unknown_block_kind
        ok tt)

-- `group.get("blocks", [])`
unfoldable pub block_list : Option Value → Checked (List Value)
block_list none = ok []
block_list (some (arr items)) = ok (elements items)
block_list (some _) = err lease_blocks_not_a_list

unfoldable pub validate_lease_group : Value → Checked (String × ℕ)
validate_lease_group raw_group = do
  group ← mapping raw_group "lease group"
  group_id ← nonempty (get group "group_id") "group_id"
  capacity ← positive_int (get group "token_capacity") "token_capacity"
  blocks ← block_list (lookup group "blocks")
  traverse validate_block blocks
  ok (group_id, capacity)

pub record Lease : Type 0 where
  pub lease_id : String
  pub request_id : String
  pub sequence_id : String
  pub groups : List (String × ℕ)

unfoldable pub validate_lease : Fields → Checked Lease
validate_lease lease = do
  lease_id ← nonempty (get lease "lease_id") "lease_id"
  sequence ← mapping (get lease "sequence") "sequence"
  request_id ← nonempty (get sequence "request_id") "sequence.request_id"
  sequence_id ← nonempty (get sequence "sequence_id") "sequence.sequence_id"
  raw ← nonempty_list lease_groups_missing (get lease "groups")
  groups ← traverse validate_lease_group raw
  ok (record {
    lease_id = lease_id;
    request_id = request_id;
    sequence_id = sequence_id;
    groups = groups;
  })
