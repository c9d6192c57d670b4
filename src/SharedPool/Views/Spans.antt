-- ===== src/SharedPool/Views/Spans.antt =====
-- What `attachment_views` of shared_pool.py reports lies in the imported allocation.
use kapsl_integrations.Prelude.{
  ℕ, ◌+◌, ◌-◌, ◌*◌, ◌≤◌, ◌<◌, String, false, not, ◌||◌, Option, none, some, List, [], ◌∷◌, Result,
  ok, All, any, traverse, length, map, ltb, ◌==◌, ==_iff, ◌≡◌, refl, ap, ◌∙◌, arith, unnot, Ensures,
  Ensures-ok, Ensures-err, Ensures-bind, Ensures-raise_if,
}
use native.Mathlib.Nat.{mul-le-mul_right}
use kapsl_integrations.Prelude.Sorting.{sorted}
use kapsl_integrations.Prelude.Values.{ℤ}
use kapsl_integrations.SharedPool.Binding.{no_sizes}
use kapsl_integrations.SharedPool.Views.{
  ViewError, Tensor, LayerIdentity, AttachmentView, Hook, magnitude, is_below_zero, final_element,
  tensor_span_bytes, find_tensor, layer_names, keys_of, by_layer_index, same_names, found, view_of,
  imported_storage, attachment_views,
}

-- An index of an element of a tensor.
abbrev pub IsIndex : List ℕ → List ℤ → Type 0
IsIndex [] [] = Unit
IsIndex (i ∷ is) (size ∷ shape) = (i < magnitude size) × IsIndex is shape
IsIndex _ _ = ⊥

-- The distance of the element from the first one.
abbrev pub distance : List ℕ → List ℤ → ℕ
distance (i ∷ is) (stride ∷ strides) = i * magnitude stride + distance is strides
distance _ _ = 0

times_le : (i n s : ℕ) → i < n → i * s ≤ (n - 1) * s
times_le i n s h = mul-le-mul_right s (omega (arith, h))

distance_le :
    (is : List ℕ) (shape strides : List ℤ)
    → IsIndex is shape
    → distance is strides ≤ final_element shape strides
unfolding final_element
distance_le [] [] strides h = omega arith
distance_le [] (size ∷ shape) strides h = elim h [ ]
distance_le (i ∷ is) [] strides h = elim h [ ]
distance_le (i ∷ is) (size ∷ shape) [] h = omega arith
distance_le (i ∷ is) (size ∷ shape) (stride ∷ strides) h =
    let rest = distance_le is shape strides h.1 in
    let here = times_le i (magnitude size) (magnitude stride) h.0 in omega (arith, rest, here)

-- Of a view: its tensor begins at the offset in the storage that was imported, and each of the tensor's
-- elements ends within the view, which ends within the allocation.
pub record IsWithin (raw_base expected_bytes : ℕ) (kv_caches : List (String × Tensor))
    (view : AttachmentView) : Type 0 where
  pub tensor : Tensor
  pub registered : find_tensor kv_caches view.layer.layer_name ≡ some tensor
  pub aliased : tensor.storage_pointer ≡ raw_base
  pub placed : raw_base + view.offset_bytes ≡ tensor.data_pointer
  pub bounded : view.offset_bytes + view.length_bytes ≤ expected_bytes
  pub held :
      (is : List ℕ)
      → IsIndex is tensor.shape
      → (distance is tensor.strides + 1) * magnitude tensor.element_size ≤ view.length_bytes

IsSpan : Tensor → ℕ → Type 0
IsSpan tensor n =
    (is : List ℕ)
    → IsIndex is tensor.shape
    → (distance is tensor.strides + 1) * magnitude tensor.element_size ≤ n

tensor_span_bytes-IsSpan : (tensor : Tensor) → Ensures (IsSpan tensor) (tensor_span_bytes tensor)
unfolding tensor_span_bytes IsSpan
tensor_span_bytes-IsSpan tensor =
    Ensures-raise_if
      (no_sizes tensor.shape
        || not (length tensor.shape == length tensor.strides)
        || any (λ size. magnitude size == 0) tensor.shape)
      _ _
      λ _. Ensures-raise_if (any is_below_zero tensor.strides) _ _ λ _.
        Ensures-raise_if (magnitude tensor.element_size == 0) _ _ λ _. Ensures-ok _ λ is h.
          let below = distance_le is tensor.shape tensor.strides h in
          mul-le-mul_right (magnitude tensor.element_size) (omega (arith, below))

found-Ensures : (t : Option Tensor) → Ensures (λ tensor. t ≡ some tensor) (found t)
found-Ensures none = Ensures-err _
found-Ensures (some tensor) = Ensures-ok tensor refl

view_of-IsWithin :
    (raw_base expected_bytes : ℕ) (kv_caches : List (String × Tensor)) (layer : LayerIdentity)
    → Ensures
        (λ view. IsWithin raw_base expected_bytes kv_caches view × (view.layer ≡ layer))
        (view_of raw_base expected_bytes kv_caches layer)
unfolding view_of IsSpan
view_of-IsWithin raw_base expected_bytes kv_caches layer =
    Ensures-bind (found (find_tensor kv_caches layer.layer_name)) _ (found-Ensures _) λ tensor t.
      Ensures-raise_if (not (tensor.storage_pointer == raw_base)) _ _ λ a.
        Ensures-bind (tensor_span_bytes tensor) _ (tensor_span_bytes-IsSpan tensor) λ n span.
          Ensures-raise_if
            (ltb tensor.data_pointer raw_base
              || ltb expected_bytes (tensor.data_pointer - raw_base + n))
            _ _
            λ inside. Ensures-ok _ (
              record {
                tensor = tensor;
                registered = t;
                aliased = (==_iff tensor.storage_pointer raw_base).0 (unnot a);
                placed = starts tensor.data_pointer n inside;
                bounded = ends tensor.data_pointer n inside;
                held = span;
              },
              refl,
            )
  where
    starts :
        (at n : ℕ)
        → (ltb at raw_base || ltb expected_bytes (at - raw_base + n)) ≡ false
        → raw_base + (at - raw_base) ≡ at
    starts at n h = ground arith

    ends :
        (at n : ℕ)
        → (ltb at raw_base || ltb expected_bytes (at - raw_base + n)) ≡ false
        → at - raw_base + n ≤ expected_bytes
    ends at n h = ground arith

traverse-All :
    {A B : Type 0} (Good : B → Type 0) (origin : B → A) (f : A → Result ViewError B) (xs : List A)
    → ((x : A) → Ensures (λ y. Good y × (origin y ≡ x)) (f x))
    → Ensures (λ ys. All Good ys × (map origin ys ≡ xs)) (traverse f xs)
traverse-All Good origin f [] k = Ensures-ok [] (tt, refl)
traverse-All Good origin f (x ∷ xs) k = Ensures-bind (f x) _ (k x) λ y g.
    Ensures-bind (traverse f xs) _ (traverse-All Good origin f xs k)
      λ ys h. Ensures-ok (y ∷ ys) ((g.0, h.0), let head = g.1 in let tail = h.1 in cc)

pub IsReported : Hook → List (String × Tensor) → List AttachmentView → Type 0
IsReported hook kv_caches views =
    (raw_base : ℕ) × ((hook.storage ≡ some (raw_base, hook.expected_bytes))
      × (All (IsWithin raw_base hook.expected_bytes kv_caches) views
          × (map (λ v. v.layer) views ≡ sorted by_layer_index hook.layer_identity)))

imported_storage-Ensures :
    (s : Option (ℕ × ℕ)) → Ensures (λ storage. s ≡ some storage) (imported_storage s)
imported_storage-Ensures none = Ensures-err _
imported_storage-Ensures (some storage) = Ensures-ok storage refl

reported :
    (hook : Hook) (kv_caches : List (String × Tensor))
    → Ensures (IsReported hook kv_caches) (attachment_views hook kv_caches)
unfolding attachment_views IsReported
reported hook kv_caches = Ensures-raise_if (not hook.used) _ _ λ _.
    Ensures-bind (imported_storage hook.storage) _ (imported_storage-Ensures _) λ storage s.
      Ensures-raise_if (not (same_names (keys_of kv_caches) (layer_names hook.layer_identity))) _ _
        λ _. Ensures-raise_if (not (storage.1 == hook.expected_bytes)) _ _ λ e.
          let views =
            traverse-All (IsWithin storage.0 hook.expected_bytes kv_caches) (λ v. v.layer)
              (view_of storage.0 hook.expected_bytes kv_caches)
              (sorted by_layer_index hook.layer_identity)
              (view_of-IsWithin storage.0 hook.expected_bytes kv_caches) in
          let size = (==_iff storage.1 hook.expected_bytes).0 (unnot e) in
          record {
            at = λ vs h. (storage.0, (s ∙ ap (λ n. some (storage.0, n)) size, views.at vs h));
          }

-- Of a call that returns: the storage is mapped and has the expected size; there is a view for each
-- layer, in the order of their indices; and every view, with every element of the tensor that is
-- registered for its layer, lies within that storage.
pub attachment_views-IsReported :
    (hook : Hook) (kv_caches : List (String × Tensor)) (views : List AttachmentView)
    → attachment_views hook kv_caches ≡ ok views
    → IsReported hook kv_caches views
attachment_views-IsReported hook kv_caches = (reported hook kv_caches).at
