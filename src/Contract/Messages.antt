-- ===== src/Contract/Messages.antt =====
-- The messages that contract.py writes: the capabilities, the registrations, and the requests; and
-- `validate_response`.
use kapsl_integrations.Prelude.{
  ℕ, ◌≡◌, refl, String, Bool, true, false, not, Option, none, some, List, [], ◌∷◌, ok, err,
  raise_if, length, ltb, ◌>>=◌, ◌>>◌,
}
use kapsl_integrations.Prelude.Values.{
  ℤ, pos, Value, Items, Fields, int, str, arr, obj, no_items, item, no_fields, entry, get, lookup,
  elements, same_value,
}
use kapsl_integrations.Contract.Checks.{
  Checked, mapping, nonempty, is_member, unsupported_version, response_mismatch, unknown_result,
  capacity_groups_missing,
}
use kapsl_integrations.Contract.Version.{abi_major, abi_minor, accepts_version}
use kapsl_integrations.Contract.Attachment.{nonempty_list, validate_shared_pool_attachment}
use kapsl_integrations.Contract.Resize.{is_text}
use kapsl_integrations.Contract.Requests.{
  validate_shared_pool_detach_request, validate_resize_poll_request, validate_resize_ack_request,
}
use kapsl_integrations.Contract.Requests.Laws.{IsText, nonempty-ok}
use kapsl_integrations.Contract.Capacity.{validate_capacity_groups}
use kapsl_integrations.Contract.Registration.{
  kv_connected, validate_registration, both_lists, check_tier, check_connected, topology_of,
  check_grant,
}

abbrev pub count : ℕ → Value
count n = int (pos n)

abbrev pub abi_version : Value
abi_version = obj (entry "major" (count abi_major) (entry "minor" (count abi_minor) no_fields))

abbrev pub texts : List String → Items
texts [] = no_items
texts (s ∷ ss) = item (str s) (texts ss)

abbrev pub objects : List Fields → Items
objects [] = no_items
objects (f ∷ fs) = item (obj f) (objects fs)

abbrev pub transport : String → Value
transport kind = arr (item (obj (entry "kind" (str kind) no_fields)) no_items)

abbrev pub opaque_capabilities : Fields
opaque_capabilities = entry "abi_version" abi_version (
    entry "tier" (str "kv_connected") (
      entry "metadata_mode" (str "opaque") (
        entry "ownership" (str "backend") (
          entry "features" (arr (texts ("capacity_leasing" ∷ [])))
            (entry "transports" (transport "backend_opaque") no_fields)))))

-- The features in the order in which the code appends them.
abbrev pub pool_features : Bool → Bool → Bool → List String
pool_features live_resize many_groups granted =
    "capacity_leasing"
    ∷ "direct_attention_access"
    ∷ "external_pool_attachment"
    ∷ "participant_block_selection"
    ∷ when live_resize "live_pool_resize"
        (when many_groups "multiple_cache_groups" (when granted "provisioning_grant" []))
  where
    when : Bool → String → List String → List String
    when true feature rest = feature ∷ rest
    when false feature rest = rest

abbrev pub pool_transport : Bool → Value
pool_transport true = transport "cuda_vmm"
pool_transport false = transport "cuda_ipc"

abbrev pub shared_pool_capabilities : Bool → Bool → Bool → Fields
shared_pool_capabilities live_resize many_groups granted = entry "abi_version" abi_version (
    entry "tier" (str "shared_pool") (
      entry "metadata_mode" (str "structured") (
        entry "ownership" (str "kapsl_runtime") (
          entry "features" (arr (texts (pool_features live_resize many_groups granted)))
            (entry "transports" (pool_transport live_resize) no_fields)))))

abbrev pub opaque_message : String → String → String → List Fields → Fields
opaque_message participant backend fingerprint groups = entry "participant_id" (str participant) (
    entry "backend" (str backend) (
      entry "model_fingerprint" (str fingerprint) (
        entry "capabilities" (obj opaque_capabilities) (
          entry "capacity_model" (obj (entry "groups" (arr (objects groups)) no_fields))
            no_fields))))

unfoldable pub opaque_registration : String → String → List Fields → String → Checked Fields
opaque_registration participant_id model_fingerprint capacity_groups backend = do
  participant ← nonempty (str participant_id) "participant_id"
  backend_name ← nonempty (str backend) "backend"
  fingerprint ← nonempty (str model_fingerprint) "model_fingerprint"
  let registration = opaque_message participant backend_name fingerprint capacity_groups
  validate_registration registration
  ok registration

abbrev pub is_granted : Option Fields → Bool
is_granted none = false
is_granted (some grant) = true

abbrev pub grant_field : Option Fields → Fields
grant_field none = no_fields
grant_field (some grant) = entry "provisioning_grant" (obj grant) no_fields

unfoldable pub shared_pool_registration :
    String → String → List Fields → Fields → Fields → String → Option Fields → Bool → Checked Fields
shared_pool_registration participant_id model_fingerprint groups topology profile backend grant
      live_resize =
    do
      participant ← nonempty (str participant_id) "participant_id"
      backend_name ← nonempty (str backend) "backend"
      fingerprint ← nonempty (str model_fingerprint) "model_fingerprint"
      let capabilities =
          shared_pool_capabilities live_resize (ltb 1 (length groups)) (is_granted grant)
      let registration = entry "participant_id" (str participant) (
          entry "backend" (str backend_name) (
            entry "model_fingerprint" (str fingerprint) (
              entry "capabilities" (obj capabilities) (
                entry "capacity_model" (obj (entry "groups" (arr (objects groups)) no_fields)) (
                  entry "adapter_profile" (obj profile)
                    (entry "topology" (obj topology) (grant_field grant)))))))
      validate_registration registration
      ok registration

abbrev pub mapped_field : Option ℤ → Fields
mapped_field none = no_fields
mapped_field (some mapped) = entry "mapped_bytes" (int mapped) no_fields

unfoldable pub make_shared_pool_attachment :
    ℤ → String → Fields → Fields → ℤ → Option ℤ → List Fields → Checked Fields
make_shared_pool_attachment epoch binding_id shard profile imported_bytes mapped_bytes views = do
  let attachment = entry "participant_epoch" (int epoch) (
      entry "binding_id" (str binding_id) (
        entry "shard" (obj shard) (
          entry "profile" (obj profile) (
            entry "imported_bytes" (int imported_bytes)
              (entry "views" (arr (objects views)) (mapped_field mapped_bytes))))))
  validate_shared_pool_attachment attachment
  ok attachment

unfoldable pub make_shared_pool_detach_request : ℤ → List String → Fields → Checked Fields
make_shared_pool_detach_request epoch binding_ids shard = do
  let request = entry "participant_epoch" (int epoch) (
      entry "binding_ids" (arr (texts binding_ids)) (
        entry "shard" (obj shard) (
          entry "completion" (obj (entry "kind" (str "backend_synchronized") no_fields))
            no_fields)))
  validate_shared_pool_detach_request request
  ok request

unfoldable pub make_resize_poll_request : ℤ → Fields → ℤ → Checked Fields
make_resize_poll_request epoch actor applied_generation = do
  let request =
      entry "participant_epoch" (int epoch)
        (entry "actor" (obj actor) (entry "applied_generation" (int applied_generation) no_fields))
  validate_resize_poll_request request
  ok request

unfoldable pub make_resize_ack_request : ℤ → Fields → String → ℤ → String → ℤ → Checked Fields
make_resize_ack_request epoch actor binding_id resize_generation stage applied_block_count = do
  let request = entry "participant_epoch" (int epoch) (
      entry "actor" (obj actor) (
        entry "binding_id" (str binding_id) (
          entry "resize_generation" (int resize_generation) (
            entry "stage" (str stage)
              (entry "applied_block_count" (int applied_block_count) no_fields)))))
  validate_resize_ack_request request
  ok request

unfoldable pub validate_response : Fields → String → Checked (Unit {0})
validate_response response request_id = do
  version ← mapping (get response "abi_version") "abi_version"
  raise_if (not (accepts_version version)) unsupported_version
  raise_if (not (is_text (get response "request_id") request_id)) response_mismatch
  known ←
      is_member (get response "result") ("registered" ∷ "lease" ∷ "resize" ∷ "ack" ∷ "error" ∷ [])
  raise_if (not known) unknown_result
  ok tt

discard_ok :
    {B C D : Type 0} (m : Checked B) (g : B → C) (d : D)
    → ((m >>= λ y. ok (g y)) >> ok d) ≡ (m >> ok d)
discard_ok (ok b) g d = refl
discard_ok (err e) g d = refl

discard_both :
    {A B C D : Type 0} (m : Checked A) (f : A → Checked B) (g : A → B → C) (d : D)
    → ((m >>= λ x. f x >>= λ y. ok (g x y)) >> ok d) ≡ (m >>= λ x. f x >> ok d)
discard_both (ok a) f g d = discard_ok (f a) (g a) d
discard_both (err e) f g d = refl

validate_registration-opaque_message :
    (participant fingerprint backend : String) (groups : List Fields)
    → IsText participant
    → IsText fingerprint
    → IsText backend
    → validate_registration (opaque_message participant backend fingerprint groups) ≡ (
        nonempty_list capacity_groups_missing (arr (objects groups)) >>= λ raw.
        validate_capacity_groups false [] [] raw >>= λ gs.
        ok (record { tier = kv_connected; groups = gs; topology = none }))
unfolding validate_registration mapping get lookup both_lists elements check_tier check_connected
    topology_of check_grant accepts_version same_value
validate_registration-opaque_message participant fingerprint backend groups hp hf hb =
    rw
      (
        nonempty-ok participant "participant_id" hp,
        nonempty-ok backend "backend" hb,
        nonempty-ok fingerprint "model_fingerprint" hf,
      )
      refl

-- With non-blank names, an opaque registration is refused for its capacity groups or not at all: its own
-- capabilities, ownership and transport always agree with what the receiver demands.
pub opaque_registration-validate_capacity_groups :
    (participant fingerprint backend : String) (groups : List Fields)
    → IsText participant
    → IsText fingerprint
    → IsText backend
    → opaque_registration participant fingerprint groups backend ≡ (
        nonempty_list capacity_groups_missing (arr (objects groups)) >>= λ raw.
        validate_capacity_groups false [] [] raw
        >> ok (opaque_message participant backend fingerprint groups))
unfolding opaque_registration
opaque_registration-validate_capacity_groups participant fingerprint backend groups hp hf hb =
    rw
      (
        nonempty-ok participant "participant_id" hp,
        nonempty-ok backend "backend" hb,
        nonempty-ok fingerprint "model_fingerprint" hf,
        validate_registration-opaque_message participant fingerprint backend groups hp hf hb,
      )
      (discard_both (nonempty_list capacity_groups_missing (arr (objects groups)))
        (validate_capacity_groups false [] [])
        (λ raw gs. record { tier = kv_connected; groups = gs; topology = none })
        (opaque_message participant backend fingerprint groups))
