-- ===== src/Contract/Resize.antt =====
-- `validate_resize_operation`, and the checks of a resize actor and stage, of contract.py.
pub mod Laws
use kapsl_integrations.Prelude.{
  ℕ, ◌*◌, ◌%◌, min, max, String, Bool, true, false, not, ◌&&◌, ◌||◌, Option, none, some, List, [],
  ◌∷◌, ok, err, raise_if, traverse, ltb, leb, ◌==◌, str_eq, if◌then◌else◌, ◌>>=◌, ◌>>◌,
}
use kapsl_integrations.Prelude.Sorting.{sorted}
use kapsl_integrations.Prelude.Values.{Value, Fields, arr, str, get, lookup, elements, keys}
use kapsl_integrations.Contract.Checks.{
  ContractError, Checked, mapping, nonempty, positive_int, nonnegative_int, same_block_counts,
  stage_direction, endpoints_unaligned, segments_not_a_list, segments_of_phase, segments_not_dense,
  segments_incomplete, stage_unsupported, scheduler_fields, role_unsupported, shard_outside_world,
}
use kapsl_integrations.Contract.Shard.{validate_shard}
use kapsl_integrations.Contract.Segments.{Segment, by_offset, walk}

pub data Stage : Type 0 where
  map_workers activate_scheduler retire_scheduler unmap_workers : Stage

unfoldable pub resize_stage : Value → Checked Stage
resize_stage value = do
  stage ← nonempty value "resize stage"
  if str_eq stage "map_workers"
      then ok map_workers
      else if str_eq stage "activate_scheduler"
      then ok activate_scheduler
      else if str_eq stage "retire_scheduler"
      then ok retire_scheduler
      else if str_eq stage "unmap_workers"
      then ok unmap_workers
      else err stage_unsupported

-- The phases that change physical memory.
abbrev pub is_physical : Stage → Bool
is_physical map_workers = true
is_physical unmap_workers = true
is_physical _ = false

-- The phases of a growing pool.
abbrev pub is_growth : Stage → Bool
is_growth map_workers = true
is_growth activate_scheduler = true
is_growth _ = false

pub record ResizeOperation : Type 0 where
  pub participant_epoch : ℕ
  pub resize_generation : ℕ
  pub binding_id : String
  pub stage : Stage
  pub from_block_count : ℕ
  pub target_block_count : ℕ
  pub bytes_per_block : ℕ
  pub allocation_granularity_bytes : ℕ
  pub segments : List Segment

-- `operation.get("segments", [])`, which must be a list.
unfoldable pub segment_list : Option Value → Checked (List Value)
segment_list none = ok []
segment_list (some (arr items)) = ok (elements items)
segment_list (some _) = err segments_not_a_list

abbrev pub is_nonempty : {A : Type 0} → List A → Bool
is_nonempty [] = false
is_nonempty (x ∷ xs) = true

-- The key of `sorted`, which reads the segment.
unfoldable pub keyed : Value → Checked (ℕ × Fields)
keyed raw = do
  segment ← mapping raw "resize segment"
  offset ← nonnegative_int (get segment "offset_bytes") "offset_bytes"
  ok (offset, segment)

unfoldable pub validate_resize_operation : Fields → Checked ResizeOperation
unfolding sorted
validate_resize_operation operation = do
  epoch ← positive_int (get operation "participant_epoch") "participant_epoch"
  generation ← positive_int (get operation "resize_generation") "resize_generation"
  binding_id ← nonempty (get operation "binding_id") "binding_id"
  stage ← resize_stage (get operation "stage")
  from_blocks ← positive_int (get operation "from_block_count") "from_block_count"
  target_blocks ← positive_int (get operation "target_block_count") "target_block_count"
  raise_if (from_blocks == target_blocks) same_block_counts
  let growing = ltb from_blocks target_blocks
  raise_if ((growing && not (is_growth stage)) || (not growing && is_growth stage)) stage_direction
  stride ← positive_int (get operation "bytes_per_block") "bytes_per_block"
  granularity ←
      positive_int (get operation "allocation_granularity_bytes") "allocation_granularity_bytes"
  let start = min from_blocks target_blocks * stride
  let finish = max from_blocks target_blocks * stride
  raise_if (ltb 0 (start % granularity) || ltb 0 (finish % granularity)) endpoints_unaligned
  raw ← segment_list (lookup operation "segments")
  let physical = is_physical stage
  raise_if ((physical && not (is_nonempty raw)) || (not physical && is_nonempty raw))
      segments_of_phase
  pairs ← traverse keyed raw
  walked ← walk segments_not_dense "segment_id" granularity start [] [] (sorted by_offset pairs)
  raise_if (physical && not (walked.1 == finish)) segments_incomplete
  ok (record {
    participant_epoch = epoch;
    resize_generation = generation;
    binding_id = binding_id;
    stage = stage;
    from_block_count = from_blocks;
    target_block_count = target_blocks;
    bytes_per_block = stride;
    allocation_granularity_bytes = granularity;
    segments = walked.0;
  })

abbrev pub is_text : Value → String → Bool
is_text (str s) t = str_eq s t
is_text _ t = false

-- `set(actor) == {"role"}`, of an actor that has a role.
abbrev pub only_role : List String → Bool
only_role [] = true
only_role (k ∷ ks) = str_eq k "role" && only_role ks

-- `_validate_resize_actor`
unfoldable pub validate_resize_actor : Fields → Checked (Unit {0})
validate_resize_actor actor =
    let role = get actor "role" in
    if is_text role "scheduler"
    then (do raise_if (not (only_role (keys actor))) scheduler_fields; ok tt)
    else if is_text role "worker"
    then (do shard ← mapping (get actor "shard") "resize worker shard"; validate_shard shard; ok tt)
    else err role_unsupported
