-- ===== src/Contract/Attachment.antt =====
-- `validate_shared_pool_attachment` of contract.py.
use kapsl_integrations.Prelude.{
  ℕ, ◌+◌, ◌≤◌, ◌<◌, ◌≡◌, String, Bool, false, ◌&&◌, Option, none, some, List, [], ◌∷◌, ok, err,
  raise_if, ltb, ◌==◌, str_eq, All, arith, Ensures, Ensures-ok, Ensures-bind, Ensures-skip,
  Ensures-raise_if, ◌>>=◌, ◌>>◌,
}
use kapsl_integrations.Prelude.Sorting.{contains}
use kapsl_integrations.Prelude.Values.{Value, Fields, null, arr, get, elements}
use kapsl_integrations.Contract.Checks.{
  ContractError, Checked, mapping, nonempty, positive_int, nonnegative_int, mapped_exceeds_imported,
  views_missing, views_not_unique, view_outside,
}
use kapsl_integrations.Contract.Segments.{positive-Ensures}
use kapsl_integrations.Contract.Shard.{
  Shard, IsShard, validate_shard, validate_shard-IsShard, validate_adapter_profile,
}

pub record View : Type 0 where
  pub group_id : String
  pub layer_index : ℕ
  pub offset_bytes : ℕ
  pub length_bytes : ℕ

pub record Attachment : Type 0 where
  pub participant_epoch : ℕ
  pub binding_id : String
  pub imported_bytes : ℕ
  pub mapped_bytes : Option ℕ
  pub shard : Shard
  pub views : List View

-- A list that is not empty.
unfoldable pub nonempty_list : ContractError → Value → Checked (List Value)
nonempty_list error (arr items) = let values = elements items in check values
  where
    check : List Value → Checked (List Value)
    check [] = err error
    check (v ∷ vs) = ok (v ∷ vs)
nonempty_list error _ = err error

-- `if layer.get("name") is not None`
unfoldable pub optional_name : Value → String → Checked (Unit {0})
optional_name null field = ok tt
optional_name value field = do nonempty value field; ok tt

abbrev pub same_layer : String × ℕ → String × ℕ → Bool
same_layer (g, i) (h, j) = str_eq g h && i == j

-- One round of the loop over the views.
unfoldable pub validate_views : ℕ → List (String × ℕ) → List Value → Checked (List View)
validate_views imported layers [] = ok []
validate_views imported layers (raw_view ∷ rest) = do
  view ← mapping raw_view "attachment view"
  group_id ← nonempty (get view "group_id") "attachment view group_id"
  layer ← mapping (get view "layer") "attachment view layer"
  layer_index ← nonnegative_int (get layer "index") "attachment layer index"
  optional_name (get layer "name") "attachment layer name"
  raise_if (contains same_layer layers (group_id, layer_index)) views_not_unique
  offset ← nonnegative_int (get view "offset_bytes") "attachment offset"
  length ← positive_int (get view "length_bytes") "attachment length"
  raise_if (ltb imported (offset + length)) view_outside
  views ← validate_views imported ((group_id, layer_index) ∷ layers) rest
  ok (
      record {
        group_id = group_id;
        layer_index = layer_index;
        offset_bytes = offset;
        length_bytes = length;
      }
      ∷ views)

unfoldable pub mapped_within : Value → ℕ → Checked (Option ℕ)
mapped_within null imported = ok none
mapped_within value imported = do
  mapped ← positive_int value "mapped_bytes"
  raise_if (ltb imported mapped) mapped_exceeds_imported
  ok (some mapped)

unfoldable pub validate_shared_pool_attachment : Fields → Checked Attachment
validate_shared_pool_attachment attachment = do
  epoch ← positive_int (get attachment "participant_epoch") "participant_epoch"
  binding_id ← nonempty (get attachment "binding_id") "binding_id"
  imported ← positive_int (get attachment "imported_bytes") "imported_bytes"
  mapped ← mapped_within (get attachment "mapped_bytes") imported
  shard_fields ← mapping (get attachment "shard") "attachment shard"
  shard ← validate_shard shard_fields
  profile ← mapping (get attachment "profile") "adapter profile"
  validate_adapter_profile profile
  raw ← nonempty_list views_missing (get attachment "views")
  views ← validate_views imported [] raw
  ok (record {
    participant_epoch = epoch;
    binding_id = binding_id;
    imported_bytes = imported;
    mapped_bytes = mapped;
    shard = shard;
    views = views;
  })

abbrev pub layer_of : View → String × ℕ
layer_of v = (v.group_id, v.layer_index)

abbrev pub IsInside : ℕ → View → Type 0
IsInside imported v = (0 < v.length_bytes) × (v.offset_bytes + v.length_bytes ≤ imported)

-- No layer of a group is seen twice, or is among those given.
abbrev pub FreshLayers : List (String × ℕ) → List View → Type 0
FreshLayers layers [] = Unit
FreshLayers layers (v ∷ vs) =
    (contains same_layer layers (layer_of v) ≡ false) × FreshLayers (layer_of v ∷ layers) vs

abbrev pub BoundedBy : ℕ → Option ℕ → Type 0
BoundedBy limit none = Unit
BoundedBy limit (some n) = (0 < n) × (n ≤ limit)

pub record IsAttachment (a : Attachment) : Type 0 where
  pub epoch : 0 < a.participant_epoch
  pub imported : 0 < a.imported_bytes
  pub mapped : BoundedBy a.imported_bytes a.mapped_bytes
  pub shard : IsShard a.shard
  pub inside : All (IsInside a.imported_bytes) a.views
  pub unique : FreshLayers [] a.views

validate_views-Ensures :
    (imported : ℕ) (layers : List (String × ℕ)) (raw : List Value)
    → Ensures
        (λ views. All (IsInside imported) views × FreshLayers layers views)
        (validate_views imported layers raw)
unfolding validate_views
validate_views-Ensures imported layers [] = Ensures-ok _ (tt, tt)
validate_views-Ensures imported layers (raw_view ∷ rest) =
    Ensures-skip (mapping raw_view "attachment view") _ λ view.
      Ensures-skip (nonempty (get view "group_id") "attachment view group_id") _ λ group_id.
        Ensures-skip (mapping (get view "layer") "attachment view layer") _ λ layer.
          Ensures-skip (nonnegative_int (get layer "index") "attachment layer index") _
            λ layer_index.
              Ensures-skip (optional_name (get layer "name") "attachment layer name") _ λ _.
                Ensures-raise_if (contains same_layer layers (group_id, layer_index)) _ _ λ new.
                  Ensures-skip (nonnegative_int (get view "offset_bytes") "attachment offset") _
                    λ offset.
                      Ensures-bind _ _
                        (positive-Ensures (get view "length_bytes") "attachment length")
                        λ length positive.
                          Ensures-raise_if (ltb imported (offset + length)) _ _ λ inside.
                            Ensures-bind _ _
                              (validate_views-Ensures imported ((group_id, layer_index) ∷ layers)
                                rest)
                              λ views (all, fresh).
                                Ensures-ok _ (((positive, ground arith), all), (new, fresh))

mapped_within-Ensures :
    (value : Value) (imported : ℕ) → Ensures (BoundedBy imported) (mapped_within value imported)
unfolding mapped_within
mapped_within-Ensures null imported = Ensures-ok _ tt
mapped_within-Ensures value imported =
    Ensures-bind _ _ (positive-Ensures value "mapped_bytes") λ mapped positive.
      Ensures-raise_if (ltb imported mapped) _ _ λ fits. Ensures-ok _ (positive, ground arith)

validate_shared_pool_attachment-Ensures :
    (attachment : Fields) → Ensures IsAttachment (validate_shared_pool_attachment attachment)
unfolding validate_shared_pool_attachment
validate_shared_pool_attachment-Ensures attachment =
    Ensures-bind _ _ (positive-Ensures (get attachment "participant_epoch") "participant_epoch")
      λ epoch epoch_positive.
        Ensures-skip (nonempty (get attachment "binding_id") "binding_id") _ λ binding_id.
          Ensures-bind _ _ (positive-Ensures (get attachment "imported_bytes") "imported_bytes")
            λ imported imported_positive.
              Ensures-bind _ _ (mapped_within-Ensures (get attachment "mapped_bytes") imported)
                λ mapped within.
                  Ensures-skip (mapping (get attachment "shard") "attachment shard") _
                    λ shard_fields.
                      Ensures-bind _ _ (validate_shard-IsShard shard_fields) λ shard in_world.
                        Ensures-skip (mapping (get attachment "profile") "adapter profile") _
                          λ profile. Ensures-skip (validate_adapter_profile profile) _ λ _.
                            Ensures-skip (nonempty_list views_missing (get attachment "views")) _
                              λ raw.
                                Ensures-bind _ _ (validate_views-Ensures imported [] raw)
                                  λ views (all, fresh). Ensures-ok _ (record {
                                    epoch = epoch_positive;
                                    imported = imported_positive;
                                    mapped = within;
                                    shard = in_world;
                                    inside = all;
                                    unique = fresh;
                                  })

-- An attachment is accepted only when its shard lies in its world, its mapped bytes do not pass the
-- imported bytes, every view ends within the imported bytes, and no layer of a group has two views.
pub validate_shared_pool_attachment-IsAttachment :
    (attachment : Fields) (a : Attachment)
    → validate_shared_pool_attachment attachment ≡ ok a
    → IsAttachment a
validate_shared_pool_attachment-IsAttachment attachment a h =
    (validate_shared_pool_attachment-Ensures attachment).at a h
