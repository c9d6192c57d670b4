-- ===== src/Client/Register.antt =====
-- `KapslKvControlClient.register_with_handles` and `register` of client.py.
pub mod Laws
use kapsl_integrations.Prelude.{
  ℕ, String, Bool, true, false, not, ◌&&◌, ◌||◌, Option, none, some, List, [], ◌∷◌, ◌++◌, Result,
  ok, err, any, length, raise_if, if◌then◌else◌, ◌>>=◌, ◌>>◌,
}
use kapsl_integrations.Prelude.Sorting.{range}
use kapsl_integrations.Prelude.Values.{
  Value, Items, Fields, arr, str, obj, no_fields, no_items, entry, get, elements,
}
use kapsl_integrations.Contract.Checks.{mapping}
use kapsl_integrations.Contract.Resize.{is_nonempty}
use kapsl_integrations.Contract.Elastic.{ElasticPool}
use kapsl_integrations.Contract.Receipt.{PoolReceipt, Receipt, validate_registration_receipt}
use kapsl_integrations.Contract.Registration.{
  Tier, Registration, is_shared, has_feature, validate_registration,
}
use kapsl_integrations.Client.Rpc.{
  ClientError, mismatch, Peer, Call, wrapped, expect, then_checked, requested, rpc_with_handles,
}
use kapsl_integrations.Client.Poll.{indices, equal_sets}

abbrev pub is_elastic : PoolReceipt → Bool
is_elastic p = elim p.elastic [ none ↦ false | some elastic ↦ true ]

abbrev pub elastic_indices : Option ElasticPool → List ℕ
elastic_indices none = []
elastic_indices (some elastic) = indices elastic.segments

abbrev pub pool_indices : List PoolReceipt → List ℕ
pool_indices [] = []
pool_indices (p ∷ ps) = elastic_indices p.elastic ++ pool_indices ps

abbrev pub same_bool : Bool → Bool → Bool
same_bool true b = b
same_bool false b = not b

abbrev pub features_of : Value → List Value
features_of (arr items) = elements items
features_of _ = []

-- `"live_pool_resize" in capabilities.get("features", [])`, of a registration that is valid.
unfoldable pub is_live : Fields → Bool
is_live registration = elim (mapping (get registration "capabilities") "capabilities") [
  | err error ↦ false
  | ok capabilities ↦ has_feature (features_of (get capabilities "features")) "live_pool_resize"
]

abbrev pub check_handles : Bool → Receipt → List ℕ → Result ClientError (Unit {0})
check_handles true receipt handles =
    raise_if (not (equal_sets (pool_indices receipt.shared_pools) (range 0 (length handles))))
      (mismatch "registration VMM handles do not exactly match segment indices")
check_handles false receipt handles =
    raise_if (is_nonempty handles)
      (mismatch "fixed shared-pool registration returned unexpected OS handles")

unfoldable pub check_registered :
    String → Tier → Bool → Fields → List ℕ → Result ClientError (Receipt × List ℕ)
check_registered participant_id tier live_resize response handles = do
  expect response ("registered" ∷ [])
  fields ← wrapped (mapping (get response "receipt") "receipt")
  receipt ← wrapped (validate_registration_receipt fields participant_id)
  raise_if (is_shared tier && not (is_nonempty receipt.shared_pools))
      (mismatch "shared_pool vLLM registration received no physical bindings")
  raise_if (not (is_shared tier) && is_nonempty receipt.shared_pools)
      (mismatch "opaque vLLM registration cannot receive shared-pool bindings")
  raise_if (not (same_bool live_resize (any is_elastic receipt.shared_pools)))
      (mismatch "registration receipt live-resize mode does not match the request")
  check_handles live_resize receipt handles
  ok (receipt, handles)

-- The tier that the receipt is compared with.
abbrev pub registered_tier : Result ClientError Registration → Tier
registered_tier (ok r) = r.tier
registered_tier (err error) = Tier.kv_connected

module _ (encode : Fields → List ℕ) (decode : List ℕ → Option Value) where
  unfoldable pub register_with_handles :
      ℕ → String → String → Fields → Peer → Call (Receipt × List ℕ)
  unfolding rpc_with_handles
  register_with_handles max_frame_bytes participant_id request_id registration peer =
      requested peer.events (validate_registration registration) (
        then_checked
          (check_registered participant_id
            (registered_tier (wrapped (validate_registration registration))) (is_live registration))
          (rpc_with_handles encode decode max_frame_bytes request_id "register"
            (entry "registration" (obj registration) no_fields) peer))

  -- `register`, which closes the handles.
  unfoldable pub register : ℕ → String → String → Fields → Peer → Call Receipt
  unfolding register_with_handles
  register max_frame_bytes participant_id request_id registration peer =
      let call =
        register_with_handles max_frame_bytes participant_id request_id registration peer in
      elim call.result [
        | err error ↦ record {
          result = err error;
          held = call.held;
          closed = call.closed;
          rest = call.rest;
        }
        | ok r ↦ record {
          result = ok r.0;
          held = call.held;
          closed = r.1 ++ call.closed;
          rest = call.rest;
        }
      ]
