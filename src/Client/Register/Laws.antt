-- ===== src/Client/Register/Laws.antt =====
-- What a registration promises, and its descriptors (client.py).
use kapsl_integrations.Prelude.{
  unnot, ℕ, ◌<◌, String, Bool, true, false, not, ◌&&◌, Option, List, [], ◌∷◌, Result, ok, any,
  length, ◌==◌, ◌>>◌, ◌≡◌, ◌↔◌, refl, arith, Ensures, Ensures-ok, Ensures-bind, Ensures-skip,
  Ensures-raise_if,
}
use kapsl_integrations.Prelude.Sorting.{contains, range}
use kapsl_integrations.Prelude.Values.{Value, Fields, get}
use kapsl_integrations.Contract.Checks.{mapping}
use kapsl_integrations.Contract.Resize.{is_nonempty}
use kapsl_integrations.Contract.Receipt.{
  Receipt, validate_registration_receipt, IsReceipt, validate_registration_receipt-IsReceipt,
}
use kapsl_integrations.Contract.Registration.{Tier, is_shared, validate_registration}
use kapsl_integrations.Client.Frame.Handles.{descriptors, is_calm}
use kapsl_integrations.Client.Rpc.{ClientError, wrapped, expect, Peer}
use kapsl_integrations.Client.Rpc.Ensured.{Ensures-wrapped, then_checked-Ensures, requested-Ensures}
use kapsl_integrations.Client.Rpc.Handles.{
  Keeps, Keeps-then_checked, Keeps-requested, Keeps-rpc_with_handles,
}
use kapsl_integrations.Client.Poll.{equal_sets}
use kapsl_integrations.Client.Poll.Laws.{equal_sets-range}
use kapsl_integrations.Client.Register.{
  is_elastic, pool_indices, same_bool, is_live, check_handles, check_registered, registered_tier,
  register_with_handles,
}

-- The handles of a registration: those of the segments, or none.
abbrev pub HandlesOf : Bool → Receipt → List ℕ → Type 0
HandlesOf true receipt handles =
    (i : ℕ) → (contains ◌==◌ (pool_indices receipt.shared_pools) i ≡ true) ↔ (i < length handles)
HandlesOf false receipt handles = handles ≡ []

-- The receipt has pools exactly for a shared pool, all elastic or all fixed as the registration asks.
pub record IsRegistered (tier : Tier) (live : Bool) (answer : Receipt × List ℕ) : Type 0 where
  pub receipt : IsReceipt answer.0
  pub pools : is_nonempty answer.0.shared_pools ≡ is_shared tier
  pub elastic : any is_elastic answer.0.shared_pools ≡ live
  pub handles : HandlesOf live answer.0 answer.1

same_tests : {b c : Bool} → b && not c ≡ false → not b && c ≡ false → c ≡ b
same_tests {b = b} {c = c} h k = ground arith

same_bool-eq : (b c : Bool) → same_bool b c ≡ true → c ≡ b
same_bool-eq b c h = ground arith

empty_of : (handles : List ℕ) → is_nonempty handles ≡ false → handles ≡ []
empty_of [] h = refl
empty_of (x ∷ xs) h = cc

check_handles-Ensures :
    {B : Type 0} (P : B → Type 0) (live : Bool) (receipt : Receipt) (handles : List ℕ)
    (m : Result ClientError B)
    → (HandlesOf live receipt handles → Ensures P m)
    → Ensures P (check_handles live receipt handles >> m)
check_handles-Ensures P true receipt handles m k =
    Ensures-raise_if
      (not (equal_sets (pool_indices receipt.shared_pools) (range 0 (length handles)))) _ _
      λ same.
        k (λ i.
          equal_sets-range (pool_indices receipt.shared_pools) (length handles) i (unnot same))
check_handles-Ensures P false receipt handles m k =
    Ensures-raise_if (is_nonempty handles) _ _ λ none. k (empty_of handles none)

check_registered-Ensures :
    (participant_id : String) (tier : Tier) (live : Bool) (response : Fields) (handles : List ℕ)
    → Ensures
        (λ a. IsRegistered tier live a × (a.1 ≡ handles))
        (check_registered participant_id tier live response handles)
unfolding check_registered
check_registered-Ensures participant_id tier live response handles =
    Ensures-skip (expect response ("registered" ∷ [])) _ λ _.
      Ensures-skip (wrapped (mapping (get response "receipt") "receipt")) _ λ fields'.
        Ensures-bind (wrapped (validate_registration_receipt fields' participant_id)) _
          (Ensures-wrapped IsReceipt _ (record {
            at = λ r h. validate_registration_receipt-IsReceipt fields' participant_id r h;
          }))
          λ receipt valid.
            Ensures-raise_if (is_shared tier && not (is_nonempty receipt.shared_pools)) _ _
              λ some_pool.
                Ensures-raise_if (not (is_shared tier) && is_nonempty receipt.shared_pools) _ _
                  λ no_pool.
                    Ensures-raise_if (not (same_bool live (any is_elastic receipt.shared_pools))) _
                      _
                      λ same. check_handles-Ensures _ live receipt handles _ λ matching.
                        Ensures-ok _ (
                          record {
                            receipt = valid;
                            pools = same_tests some_pool no_pool;
                            elastic = same_bool-eq live _ (unnot same);
                            handles = matching;
                          },
                          refl,
                        )

abbrev pub registered_handles : Receipt × List ℕ → List ℕ
registered_handles answer = answer.1

module _ (encode : Fields → List ℕ) (decode : List ℕ → Option Value) where
  -- A registration that succeeds returns a valid receipt. It has pools exactly when the registration
  -- is for a shared pool; they are elastic exactly when it asks for live resizing. There is then one
  -- handle for each index from 0 that the segments name and no other; and else none.
  pub register_with_handles-IsRegistered :
      (max_frame_bytes : ℕ) (participant_id request_id : String) (registration : Fields)
      (peer : Peer) (answer : Receipt × List ℕ)
      → (register_with_handles encode decode max_frame_bytes participant_id request_id registration
          peer).result
        ≡ ok answer
      → IsRegistered
          (registered_tier (wrapped (validate_registration registration)))
          (is_live registration)
          answer
  unfolding register_with_handles
  register_with_handles-IsRegistered max_frame_bytes participant_id request_id registration peer
        answer =
      (requested-Ensures _ peer.events (validate_registration registration) _ (
          then_checked-Ensures _ (check_registered participant_id _ (is_live registration)) _
            (λ response handles. record {
              at = λ a h.
                  ((check_registered-Ensures participant_id _ (is_live registration) response
                      handles).at
                    a h).0;
            }))).at
        answer

  register_with_handles-Keeps :
      (max_frame_bytes : ℕ) (participant_id request_id : String) (registration : Fields)
      (peer : Peer)
      → is_calm peer.events ≡ true
      → Keeps registered_handles (descriptors peer.events) (
          register_with_handles encode decode max_frame_bytes participant_id request_id registration
            peer)
  unfolding register_with_handles
  register_with_handles-Keeps max_frame_bytes participant_id request_id registration peer calm =
      Keeps-requested registered_handles peer.events (validate_registration registration) _ (
        Keeps-then_checked registered_handles
          (check_registered participant_id _ (is_live registration)) _ _
          (λ response handles. record {
            at = λ a h.
                ((check_registered-Ensures participant_id _ (is_live registration) response
                    handles).at
                  a h).1;
          })
          (Keeps-rpc_with_handles encode decode max_frame_bytes request_id "register" _ peer calm))
