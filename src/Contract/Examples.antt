-- ===== src/Contract/Examples.antt =====
-- Runs of the contract checks on concrete messages, and the theorems at them.
use kapsl_integrations.Prelude.{ℕ, String, [], ◌∷◌, ok, err, ◌≡◌, refl}
use kapsl_integrations.Prelude.Sorting.{sorted}
use kapsl_integrations.Prelude.Texts.{strip}
use kapsl_integrations.Prelude.Values.{
  pos, Value, Items, Fields, int, str, arr, obj, no_items, item, no_fields, entry, get, lookup,
  elements,
}
use kapsl_integrations.Contract.Checks.{
  mapping, nonempty, positive_int, nonnegative_int, segments_not_dense, stage_direction,
}
use kapsl_integrations.Contract.Segments.{Segment, walk}
use kapsl_integrations.Contract.Resize.{
  ResizeOperation, map_workers, resize_stage, segment_list, keyed, validate_resize_operation,
}
use kapsl_integrations.Contract.Elastic.{
  ElasticPool, mapped_segments, segment_key, validate_elastic_pool, IsElastic,
  validate_elastic_pool-IsElastic,
}
use kapsl_integrations.Prelude.{some}
use kapsl_integrations.Contract.Shard.{validate_shard, validate_adapter_profile}
use kapsl_integrations.Contract.Attachment.{
  Attachment, validate_shared_pool_attachment, validate_views, mapped_within, nonempty_list,
  optional_name, IsAttachment, validate_shared_pool_attachment-IsAttachment,
}
use kapsl_integrations.Contract.Requests.{
  Detach, validate_shared_pool_detach_request, make_reserve_request, validate_reserve_request,
  validate_groups, optional_positive,
}
use kapsl_integrations.Contract.Requests.Laws.{
  IsText, IsDetach, validate_shared_pool_detach_request-IsDetach, reserve_message, reservation,
  make_reserve_request-validate_reserve_request, IsReservation,
  validate_reserve_request-IsReservation,
}

abbrev pub count : ℕ → Value
count n = int (pos n)

abbrev segment_value : String → ℕ → ℕ → ℕ → Value
segment_value name offset length handle = obj (
    entry "segment_id" (str name) (
      entry "offset_bytes" (count offset)
        (entry "length_bytes" (count length) (entry "handle_index" (count handle) no_fields))))

-- Blocks of 8 bytes, mapped in units of 16.
abbrev operation : String → Items → Fields
operation stage items = entry "participant_epoch" (count 3) (
    entry "resize_generation" (count 1) (
      entry "binding_id" (str "b") (
        entry "stage" (str stage) (
          entry "from_block_count" (count 4) (
            entry "target_block_count" (count 10) (
              entry "bytes_per_block" (count 8) (
                entry "allocation_granularity_bytes" (count 16)
                  (entry "segments" (arr items) no_fields))))))))

-- The later segment comes first.
abbrev pub growth : Fields
growth =
    operation "map_workers"
      (item (segment_value "t" 64 16 1) (item (segment_value "s" 32 32 0) no_items))

abbrev segment : String → ℕ → ℕ → ℕ → Segment
segment name offset length handle = record {
  segment_id = name;
  offset_bytes = offset;
  length_bytes = length;
  handle_index = handle;
}

abbrev pub grown : ResizeOperation
grown = record {
  participant_epoch = 3;
  resize_generation = 1;
  binding_id = "b";
  stage = map_workers;
  from_block_count = 4;
  target_block_count = 10;
  bytes_per_block = 8;
  allocation_granularity_bytes = 16;
  segments = segment "s" 32 32 0 ∷ segment "t" 64 16 1 ∷ [];
}

pub growth_accepted : validate_resize_operation growth ≡ ok grown
unfolding validate_resize_operation segment_list resize_stage keyed walk sorted mapping nonempty
    positive_int nonnegative_int strip get lookup elements
growth_accepted = refl

overlap_refused :
    validate_resize_operation (
      operation "map_workers"
        (item (segment_value "t" 48 32 1) (item (segment_value "s" 32 32 0) no_items)))
    ≡ err segments_not_dense
unfolding validate_resize_operation segment_list resize_stage keyed walk sorted mapping nonempty
    positive_int nonnegative_int strip get lookup elements
overlap_refused = refl

direction_refused :
    validate_resize_operation (operation "unmap_workers" no_items) ≡ err stage_direction
unfolding validate_resize_operation segment_list resize_stage nonempty positive_int strip get lookup
    elements
direction_refused = refl

abbrev pub elastic : Fields
elastic = entry "minimum_block_count" (count 2) (
    entry "mapped_block_count" (count 6) (
      entry "maximum_block_count" (count 20) (
        entry "allocation_granularity_bytes" (count 16) (
          entry "resize_alignment_blocks" (count 2) (
            entry "segments"
              (arr (item (segment_value "t" 16 32 1) (item (segment_value "s" 0 16 0) no_items)))
              no_fields)))))

abbrev pub pool : ElasticPool
pool = record {
  minimum_block_count = 2;
  mapped_block_count = 6;
  maximum_block_count = 20;
  allocation_granularity_bytes = 16;
  resize_alignment_blocks = 2;
  segments = segment "s" 0 16 0 ∷ segment "t" 16 32 1 ∷ [];
}

elastic_accepted : validate_elastic_pool elastic 20 8 ≡ ok pool
unfolding validate_elastic_pool mapped_segments segment_key walk sorted mapping nonempty
    positive_int nonnegative_int strip get elements
elastic_accepted = refl

validate_elastic_pool-IsElastic_example : IsElastic 20 8 pool
validate_elastic_pool-IsElastic_example =
    validate_elastic_pool-IsElastic elastic 20 8 pool elastic_accepted

abbrev shard_value : ℕ → Value
shard_value rank = obj (
    entry "tensor_parallel_rank" (count rank) (
      entry "tensor_parallel_world_size" (count 2) (
        entry "pipeline_parallel_rank" (count 0)
          (entry "pipeline_parallel_world_size" (count 1) no_fields))))

abbrev view_value : ℕ → ℕ → ℕ → Value
view_value layer offset length = obj (
    entry "group_id" (str "g") (
      entry "layer" (obj (entry "index" (count layer) no_fields))
        (entry "offset_bytes" (count offset) (entry "length_bytes" (count length) no_fields))))

abbrev pub profile : Value
profile = obj (
    entry "adapter_id" (str "a") (
      entry "adapter_version" (str "1")
        (entry "backend_version" (str "2") (entry "profile_id" (str "p") no_fields))))

abbrev attachment : Fields
attachment = entry "participant_epoch" (count 3) (
    entry "binding_id" (str "b") (
      entry "imported_bytes" (count 100) (
        entry "mapped_bytes" (count 60) (
          entry "shard" (shard_value 1) (
            entry "profile" profile (
              entry "views" (arr (item (view_value 0 0 100) (item (view_value 1 40 60) no_items)))
                no_fields))))))

abbrev attached : Attachment
attached = record {
  participant_epoch = 3;
  binding_id = "b";
  imported_bytes = 100;
  mapped_bytes = some 60;
  shard = record {
    tensor_parallel_rank = 1;
    tensor_parallel_world_size = 2;
    pipeline_parallel_rank = 0;
    pipeline_parallel_world_size = 1;
  };
  views =
      record { group_id = "g"; layer_index = 0; offset_bytes = 0; length_bytes = 100 }
      ∷ record { group_id = "g"; layer_index = 1; offset_bytes = 40; length_bytes = 60 }
      ∷ [];
}

attachment_accepted : validate_shared_pool_attachment attachment ≡ ok attached
unfolding validate_shared_pool_attachment validate_shard validate_adapter_profile validate_views
    mapped_within nonempty_list optional_name mapping nonempty positive_int nonnegative_int strip
    get elements
attachment_accepted = refl

validate_shared_pool_attachment-IsAttachment_example : IsAttachment attached
validate_shared_pool_attachment-IsAttachment_example =
    validate_shared_pool_attachment-IsAttachment attachment attached attachment_accepted

abbrev detach_message : Fields
detach_message = entry "participant_epoch" (count 3) (
    entry "binding_ids" (arr (item (str "b") (item (str "c") no_items))) (
      entry "shard" (shard_value 1)
        (entry "completion" (obj (entry "kind" (str "backend_synchronized") no_fields)) no_fields)))

abbrev detached : Detach
detached = record { participant_epoch = 3; binding_ids = "b" ∷ "c" ∷ []; shard = attached.shard }

detach_accepted : validate_shared_pool_detach_request detach_message ≡ ok detached
unfolding validate_shared_pool_detach_request validate_shard nonempty_list mapping nonempty
    positive_int nonnegative_int strip get elements
detach_accepted = refl

detached-IsDetach : IsDetach detached
detached-IsDetach =
    validate_shared_pool_detach_request-IsDetach detach_message detached detach_accepted

x_IsText : IsText "x"
unfolding strip
x_IsText = refl

y_IsText : IsText "y"
unfolding strip
y_IsText = refl

make_reserve_request-validate_reserve_request_example :
    (make_reserve_request "x" "y" (pos 16) ("x" ∷ "y" ∷ []) (pos 0) (some (pos 5))
      ≡ ok (reserve_message "x" "y" (pos 16) ("x" ∷ "y" ∷ []) (pos 0) (some (pos 5))))
    × (validate_reserve_request
          (reserve_message "x" "y" (pos 16) ("x" ∷ "y" ∷ []) (pos 0) (some (pos 5)))
        ≡ ok (reservation "x" "y" 15 ("x" ∷ "y" ∷ []) (some 4)))
make_reserve_request-validate_reserve_request_example =
    make_reserve_request-validate_reserve_request "x" "y" "x" 15 ("y" ∷ []) (pos 0) (some 4)
      x_IsText y_IsText (x_IsText, (y_IsText, tt)) (refl, (refl, tt))

reserve_accepted :
    validate_reserve_request
      (reserve_message "x" "y" (pos 16) ("x" ∷ "y" ∷ []) (pos 0) (some (pos 5)))
    ≡ ok (reservation "x" "y" 15 ("x" ∷ "y" ∷ []) (some 4))
unfolding validate_reserve_request validate_groups optional_positive nonempty_list mapping nonempty
    positive_int strip get elements
reserve_accepted = refl

read-IsReservation : IsReservation (reservation "x" "y" 15 ("x" ∷ "y" ∷ []) (some 4))
read-IsReservation =
    validate_reserve_request-IsReservation
      (reserve_message "x" "y" (pos 16) ("x" ∷ "y" ∷ []) (pos 0) (some (pos 5)))
      (reservation "x" "y" 15 ("x" ∷ "y" ∷ []) (some 4)) reserve_accepted
