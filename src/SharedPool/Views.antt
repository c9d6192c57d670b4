-- ===== src/SharedPool/Views.antt =====
-- `VllmSharedPoolHook.attachment_views` and `_tensor_span_bytes` of shared_pool.py: where the tensors of
-- the layers lie in the imported allocation.
pub mod Spans
pub mod Examples
use kapsl_integrations.Prelude.{
  ℕ, zero, suc, ◌+◌, ◌-◌, ◌*◌, String, Bool, true, false, not, ◌&&◌, ◌||◌, Option, none, some, List,
  [], ◌∷◌, Result, ok, err, raise_if, traverse, map, length, all, any, ltb, leb, ◌==◌, str_eq,
  if◌then◌else◌, ◌>>=◌, ◌>>◌,
}
use kapsl_integrations.Prelude.Sorting.{sorted, contains}
use kapsl_integrations.Prelude.Values.{ℤ, pos, negsuc}
use kapsl_integrations.SharedPool.Binding.{no_sizes}

pub data ViewError : Type 0 where
  not_consumed mapping_released layers_differ storage_resized no_tensor : ViewError
  shape_invalid stride_negative element_invalid : ViewError
  not_aliased outside_allocation : String → ViewError

-- PyTorch's tensors, as the hook reads them.
pub record Tensor : Type 0 where
  pub storage_pointer : ℕ
  pub data_pointer : ℕ
  pub shape : List ℤ
  pub strides : List ℤ
  pub element_size : ℤ

-- `_layer_identity`: the layers are numbered apart.
pub record LayerIdentity : Type 0 where
  pub layer_name : String
  pub group_id : String
  pub layer_index : ℕ

pub record AttachmentView : Type 0 where
  pub layer : LayerIdentity
  pub offset_bytes : ℕ
  pub length_bytes : ℕ

-- The fields of the hook, with the imported storage: its address and size, while it is mapped.
pub record Hook : Type 0 where
  pub used : Bool
  pub storage : Option (ℕ × ℕ)
  pub layer_identity : List LayerIdentity
  pub expected_bytes : ℕ

-- The number, where the checks let through no negative one.
abbrev pub magnitude : ℤ → ℕ
magnitude (pos n) = n
magnitude (negsuc n) = 0

abbrev pub is_below_zero : ℤ → Bool
is_below_zero (pos n) = false
is_below_zero (negsuc n) = true

-- `sum((size - 1) * stride for size, stride in zip(shape, strides))`
unfoldable pub final_element : List ℤ → List ℤ → ℕ
final_element (size ∷ shape) (stride ∷ strides) =
    (magnitude size - 1) * magnitude stride + final_element shape strides
final_element _ _ = 0

unfoldable pub tensor_span_bytes : Tensor → Result ViewError ℕ
tensor_span_bytes tensor = do
  raise_if
      (no_sizes tensor.shape
        || not (length tensor.shape == length tensor.strides)
        || any (λ size. magnitude size == 0) tensor.shape)
      shape_invalid
  raise_if (any is_below_zero tensor.strides) stride_negative
  raise_if (magnitude tensor.element_size == 0) element_invalid
  ok ((final_element tensor.shape tensor.strides + 1) * magnitude tensor.element_size)

abbrev pub find_tensor : List (String × Tensor) → String → Option Tensor
find_tensor [] name = none
find_tensor ((key, tensor) ∷ rest) name =
    if str_eq key name then some tensor else find_tensor rest name

abbrev pub layer_names : List LayerIdentity → List String
layer_names layers = map (λ l. l.layer_name) layers

abbrev pub keys_of : List (String × Tensor) → List String
keys_of caches = map (λ c. c.0) caches

abbrev pub by_layer_index : LayerIdentity → LayerIdentity → Bool
by_layer_index l m = leb l.layer_index m.layer_index

abbrev pub same_names : List String → List String → Bool
same_names xs ys = all (contains str_eq ys) xs && all (contains str_eq xs) ys

abbrev pub found : Option Tensor → Result ViewError Tensor
found none = err no_tensor
found (some tensor) = ok tensor

-- One round of the loop.
unfoldable pub view_of :
    ℕ → ℕ → List (String × Tensor) → LayerIdentity → Result ViewError AttachmentView
unfolding tensor_span_bytes
view_of raw_base expected_bytes kv_caches layer = do
  tensor ← found (find_tensor kv_caches layer.layer_name)
  raise_if (not (tensor.storage_pointer == raw_base)) (not_aliased layer.layer_name)
  length_bytes ← tensor_span_bytes tensor
  raise_if
      (ltb tensor.data_pointer raw_base
        || ltb expected_bytes (tensor.data_pointer - raw_base + length_bytes))
      (outside_allocation layer.layer_name)
  ok (record {
    layer = layer;
    offset_bytes = tensor.data_pointer - raw_base;
    length_bytes = length_bytes;
  })

abbrev pub imported_storage : Option (ℕ × ℕ) → Result ViewError (ℕ × ℕ)
imported_storage none = err mapping_released
imported_storage (some storage) = ok storage

unfoldable pub attachment_views :
    Hook → List (String × Tensor) → Result ViewError (List AttachmentView)
unfolding view_of sorted
attachment_views hook kv_caches = do
  raise_if (not hook.used) not_consumed
  storage ← imported_storage hook.storage
  raise_if (not (same_names (keys_of kv_caches) (layer_names hook.layer_identity))) layers_differ
  raise_if (not (storage.1 == hook.expected_bytes)) storage_resized
  traverse (view_of storage.0 hook.expected_bytes kv_caches)
      (sorted by_layer_index hook.layer_identity)
