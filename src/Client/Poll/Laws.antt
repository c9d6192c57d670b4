-- ===== src/Client/Poll/Laws.antt =====
-- What a poll of the resize operations promises, and its descriptors (client.py).
use kapsl_integrations.Prelude.{
  unnot, ℕ, zero, suc, ◌+◌, ◌≤◌, ◌<◌, String, Bool, true, false, not, ◌&&◌, ◌||◌, Option, List, [],
  ◌∷◌, ok, all, length, traverse, ◌==◌, ◌≡◌, ◌↔◌, inl, inr, refl, subst, All, Ensures, Ensures-ok,
  Ensures-bind, Ensures-skip, Ensures-raise_if, arith, ==_iff, Bool-cases,
}
use kapsl_integrations.Prelude.Sorting.{contains, range}
use kapsl_integrations.Prelude.Values.{Value, Fields, arr, no_items, get, get_or}
use kapsl_integrations.Contract.Checks.{mapping}
use kapsl_integrations.Contract.Resize.{is_nonempty}
use kapsl_integrations.Contract.Resize.Laws.{IsResize, validate_resize_operation-IsResize}
use kapsl_integrations.Contract.Requests.{validate_resize_poll_request}
use kapsl_integrations.Client.Frame.Handles.{descriptors, is_calm}
use kapsl_integrations.Client.Rpc.{wrapped, Peer, expect}
use kapsl_integrations.Client.Rpc.Ensured.{Ensures-wrapped, then_checked-Ensures, requested-Ensures}
use kapsl_integrations.Client.Rpc.Handles.{
  Keeps, Keeps-rpc_with_handles, Keeps-then_checked, Keeps-requested,
}
use kapsl_integrations.Client.Poll.{
  as_boolean, list_of, resize_operation, referenced, equal_sets, Polled, check_poll,
  poll_resize_state_with_handles,
}

pub and_parts : {b c : Bool} → b && c ≡ true → (b ≡ true) × (c ≡ true)
and_parts {b = b} {c = c} h = ground arith

or_right : {b c : Bool} → b ≡ false → b || c ≡ true → c ≡ true
or_right {b = b} {c = c} h k = ground arith

pub all-contains :
    (p : ℕ → Bool) (xs : List ℕ) (i : ℕ) → all p xs ≡ true → contains ◌==◌ xs i ≡ true → p i ≡ true
all-contains p [] i h k = cc
all-contains p (x ∷ xs) i h k = elim (Bool-cases (x == i)) [
  | inl e ↦ subst (λ j. p j ≡ true) ((==_iff x i).0 e) (and_parts h).0
  | inr e ↦ all-contains p xs i (and_parts h).1 (or_right e k)
]

pub contains-range :
    (start n i : ℕ) → (contains ◌==◌ (range start n) i ≡ true) ↔ ((start ≤ i) × (i < start + n))
contains-range start zero i = ground arith
contains-range start (suc n) i = ground (arith, contains-range (suc start) n i)

pub equal_sets-range :
    (xs : List ℕ) (n i : ℕ)
    → equal_sets xs (range 0 n) ≡ true
    → (contains ◌==◌ xs i ≡ true) ↔ (i < n)
equal_sets-range xs n i h =
    let parts =
      and_parts {b = all (contains ◌==◌ xs) (range 0 n)} {c = all (contains ◌==◌ (range 0 n)) xs}
        h in
    (
      λ k.
          let inside =
            ((contains-range 0 n i).0
              (all-contains (contains ◌==◌ (range 0 n)) xs i parts.1 k)).1 in
          omega arith,
      λ k.
          all-contains (contains ◌==◌ xs) (range 0 n) i parts.0
            ((contains-range 0 n i).1 (omega arith, omega arith)),
    )

-- The operations are well formed, the handles are those of the segments to be mapped, one for each
-- index, and operations come only with a pending transaction.
pub record IsPolled (p : Polled) : Type 0 where
  pub resize : All IsResize p.operations
  pub handles :
      (i : ℕ) → (contains ◌==◌ (referenced p.operations) i ≡ true) ↔ (i < length p.handles)
  pub pending : is_nonempty p.operations ≡ true → p.pending ≡ true

resize_operation-Ensures : (raw : Value) → Ensures IsResize (resize_operation raw)
unfolding resize_operation
resize_operation-Ensures raw =
    Ensures-skip (mapping raw "resize operation") _
      λ operation. record { at = λ o h. validate_resize_operation-IsResize operation o h }

operations-Ensures : (raw : List Value) → Ensures (All IsResize) (traverse resize_operation raw)
operations-Ensures [] = Ensures-ok _ tt
operations-Ensures (v ∷ vs) =
    Ensures-bind (resize_operation v) _ (resize_operation-Ensures v)
      λ o h. Ensures-bind _ _ (operations-Ensures vs) λ os hs. Ensures-ok _ (h, hs)

check_poll-Ensures :
    (response : Fields) (handles : List ℕ)
    → Ensures (λ p. IsPolled p × (p.handles ≡ handles)) (check_poll response handles)
unfolding check_poll
check_poll-Ensures response handles = Ensures-skip (expect response ("resize" ∷ [])) _ λ _.
    Ensures-skip (as_boolean (get response "pending")) _ λ pending.
      Ensures-skip (list_of (get_or response "operations" (arr no_items))) _ λ raw.
        Ensures-bind (wrapped (traverse resize_operation raw)) _
          (Ensures-wrapped _ _ (operations-Ensures raw))
          λ operations h.
            Ensures-raise_if (not (equal_sets (referenced operations) (range 0 (length handles)))) _
              _
              λ same. Ensures-raise_if (is_nonempty operations && not pending) _ _ λ pends.
                Ensures-ok _ (
                  record {
                    resize = h;
                    handles = λ i.
                        equal_sets-range (referenced operations) (length handles) i (unnot same);
                    pending = λ k. pending_of k pends;
                  },
                  refl,
                )
  where
    pending_of : {b c : Bool} → b ≡ true → b && not c ≡ false → c ≡ true
    pending_of {b = b} {c = c} h k = ground arith

abbrev pub polled_handles : Polled → List ℕ
polled_handles p = p.handles

module _ (encode : Fields → List ℕ) (decode : List ℕ → Option Value) where
  -- A poll that succeeds returns well-formed operations and one handle for each index from 0 that the
  -- segments of its mapping operations name, and no other; operations come only with a transaction
  -- that is pending.
  pub poll_resize_state_with_handles-IsPolled :
      (max_frame_bytes : ℕ) (participant_id request_id : String) (request : Fields) (peer : Peer)
      (p : Polled)
      → (poll_resize_state_with_handles encode decode max_frame_bytes participant_id request_id
          request peer).result
        ≡ ok p
      → IsPolled p
  unfolding poll_resize_state_with_handles
  poll_resize_state_with_handles-IsPolled max_frame_bytes participant_id request_id request peer p =
      (requested-Ensures IsPolled peer.events (validate_resize_poll_request request) _ (
          then_checked-Ensures IsPolled check_poll _ (λ response handles. record {
            at = λ a h. ((check_poll-Ensures response handles).at a h).0;
          }))).at
        p

  -- Of the descriptors that a calm peer sends, a poll returns those of a result that it accepts and
  -- closes them with any other, exactly once, unless the answer's kind cannot be hashed.
  pub poll_resize_state_with_handles-Keeps :
      (max_frame_bytes : ℕ) (participant_id request_id : String) (request : Fields) (peer : Peer)
      → is_calm peer.events ≡ true
      → Keeps polled_handles (descriptors peer.events) (
          poll_resize_state_with_handles encode decode max_frame_bytes participant_id request_id
            request peer)
  unfolding poll_resize_state_with_handles
  poll_resize_state_with_handles-Keeps max_frame_bytes participant_id request_id request peer calm =
      Keeps-requested polled_handles peer.events (validate_resize_poll_request request) _ (
        Keeps-then_checked polled_handles check_poll _ _
          (λ response handles. record {
            at = λ a h. ((check_poll-Ensures response handles).at a h).1;
          })
          (Keeps-rpc_with_handles encode decode max_frame_bytes request_id "resize_poll" _ peer
            calm))
