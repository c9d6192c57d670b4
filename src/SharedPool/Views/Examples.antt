-- ===== src/SharedPool/Views/Examples.antt =====
-- Two layers in one allocation, and the tensors that are refused.
use kapsl_integrations.Prelude.{ℕ, true, some, none, String, List, [], ◌∷◌, ok, err, ◌≡◌, refl}
use kapsl_integrations.Prelude.Sorting.{sorted}
use kapsl_integrations.Prelude.Values.{pos, negsuc}
use kapsl_integrations.SharedPool.Views.{
  Tensor, LayerIdentity, AttachmentView, Hook, mapping_released, layers_differ, shape_invalid,
  stride_negative, not_aliased, outside_allocation, final_element, tensor_span_bytes, view_of,
  attachment_views,
}
use kapsl_integrations.SharedPool.Views.Spans.{IsReported, attachment_views-IsReported}

abbrev identity_of : String → ℕ → LayerIdentity
identity_of name index = record { layer_name = name; group_id = "group"; layer_index = index }

-- 4 blocks of 8 elements of 2 bytes, 32 elements from one block to the next.
abbrev tensor_at : ℕ → Tensor
tensor_at address = record {
  storage_pointer = 4096;
  data_pointer = address;
  shape = pos 4 ∷ pos 8 ∷ [];
  strides = pos 32 ∷ pos 1 ∷ [];
  element_size = pos 2;
}

abbrev hook : Hook
hook = record {
  used = true;
  storage = some (4096, 256);
  layer_identity = identity_of "b" 1 ∷ identity_of "a" 0 ∷ [];
  expected_bytes = 256;
}

abbrev caches : List (String × Tensor)
caches = ("b", tensor_at 4128) ∷ ("a", tensor_at 4096) ∷ []

abbrev views : List AttachmentView
views =
    record { layer = identity_of "a" 0; offset_bytes = 0; length_bytes = 208 }
    ∷ record { layer = identity_of "b" 1; offset_bytes = 32; length_bytes = 208 }
    ∷ []

accepted_views : attachment_views hook caches ≡ ok views
unfolding attachment_views view_of tensor_span_bytes final_element sorted
accepted_views = refl

attachment_views-IsReported_example : IsReported hook caches views
attachment_views-IsReported_example = attachment_views-IsReported hook caches views accepted_views

past_the_end :
    attachment_views hook (("b", tensor_at 4160) ∷ ("a", tensor_at 4096) ∷ [])
    ≡ err (outside_allocation "b")
unfolding attachment_views view_of tensor_span_bytes final_element sorted
past_the_end = refl

copied :
    attachment_views hook
      (("b", record (tensor_at 4128) { storage_pointer = 8192 }) ∷ ("a", tensor_at 4096) ∷ [])
    ≡ err (not_aliased "b")
unfolding attachment_views view_of tensor_span_bytes final_element sorted
copied = refl

layer_missing : attachment_views hook (("a", tensor_at 4096) ∷ []) ≡ err layers_differ
unfolding attachment_views
layer_missing = refl

released_storage : attachment_views (record hook { storage = none }) caches ≡ err mapping_released
unfolding attachment_views
released_storage = refl

strides_refused :
    tensor_span_bytes (record (tensor_at 4096) { strides = pos 32 ∷ negsuc 0 ∷ [] })
    ≡ err stride_negative
unfolding tensor_span_bytes
strides_refused = refl

shape_refused :
    tensor_span_bytes (record (tensor_at 4096) { shape = pos 4 ∷ pos 0 ∷ [] }) ≡ err shape_invalid
unfolding tensor_span_bytes
shape_refused = refl
