-- ===== src/Client/Poll.antt =====
-- `KapslKvControlClient.poll_resize_state_with_handles` and the calls that it serves, of client.py.
pub mod Laws
use kapsl_integrations.Prelude.{
  ℕ, String, Bool, true, false, not, ◌&&◌, ◌||◌, Option, none, some, List, [], ◌∷◌, ◌++◌, Result,
  ok, err, all, length, map, traverse, ◌==◌, raise_if, if◌then◌else◌, ◌>>=◌, ◌>>◌, ◌≡◌, refl, ap,
  sym, ◌∙◌, subst, All, Ensures, Ensures-ok, Ensures-bind, Ensures-skip, Ensures-raise_if,
  append_empty,
}
use kapsl_integrations.Prelude.Sorting.{contains, range}
use kapsl_integrations.Prelude.Values.{
  Value, Items, Fields, bool, arr, str, obj, no_fields, no_items, entry, get, get_or, elements,
}
use kapsl_integrations.Contract.Checks.{ContractError, Checked, mapping, unhashable}
use kapsl_integrations.Contract.Segments.{Segment}
use kapsl_integrations.Contract.Resize.{
  ResizeOperation, Stage, map_workers, is_nonempty, validate_resize_operation,
}
use kapsl_integrations.Contract.Resize.Laws.{IsResize, validate_resize_operation-IsResize}
use kapsl_integrations.Contract.Requests.{validate_resize_poll_request}
use kapsl_integrations.Client.Frame.{Event}
use kapsl_integrations.Client.Frame.Handles.{descriptors, is_calm}
use kapsl_integrations.Client.Rpc.{
  ClientError, wrapped, mismatch, then_checked, requested, Peer, Call, ended, expect,
  rpc_with_handles,
}
use kapsl_integrations.Client.Rpc.Handles.{
  Keeps, Keeps-ended, Keeps-rpc_with_handles, second, in_hand,
}

-- `isinstance(pending, bool)`
abbrev pub as_boolean : Value → Result ClientError Bool
as_boolean (bool b) = ok b
as_boolean _ = err (mismatch "resize pending must be a as_boolean")

abbrev pub list_of : Value → Result ClientError (List Value)
list_of (arr items) = ok (elements items)
list_of _ = err (mismatch "resize operations must be a list")

unfoldable pub resize_operation : Value → Checked ResizeOperation
resize_operation raw = do
  operation ← mapping raw "resize operation"
  validate_resize_operation operation

abbrev pub is_map : Stage → Bool
is_map map_workers = true
is_map _ = false

abbrev pub indices : List Segment → List ℕ
indices [] = []
indices (s ∷ ss) = s.handle_index ∷ indices ss

-- `{... for operation in operations if operation["stage"] == "map_workers" for segment in ...}`
unfoldable pub referenced : List ResizeOperation → List ℕ
referenced [] = []
referenced (o ∷ os) =
    let later = referenced os in if is_map o.stage then indices o.segments ++ later else later

-- `==` of two sets.
abbrev pub equal_sets : List ℕ → List ℕ → Bool
equal_sets xs ys = all (contains ◌==◌ xs) ys && all (contains ◌==◌ ys) xs

pub record Polled : Type 0 where
  pub operations : List ResizeOperation
  pub handles : List ℕ
  pub pending : Bool

unfoldable pub check_poll : Fields → List ℕ → Result ClientError Polled
check_poll response handles = do
  expect response ("resize" ∷ [])
  pending ← as_boolean (get response "pending")
  raw ← list_of (get_or response "operations" (arr no_items))
  operations ← wrapped (traverse resize_operation raw)
  raise_if (not (equal_sets (referenced operations) (range 0 (length handles))))
      (mismatch "resize VMM handles do not exactly match map segment indices")
  raise_if (is_nonempty operations && not pending)
      (mismatch "resize operations require a pending transaction")
  ok (record { operations = operations; handles = handles; pending = pending })

module _ (encode : Fields → List ℕ) (decode : List ℕ → Option Value) where
  unfoldable pub poll_resize_state_with_handles : ℕ → String → String → Fields → Peer → Call Polled
  unfolding rpc_with_handles
  poll_resize_state_with_handles max_frame_bytes participant_id request_id request peer =
      requested peer.events (validate_resize_poll_request request) (
        then_checked check_poll (
          rpc_with_handles encode decode max_frame_bytes request_id "resize_poll"
            (entry "participant_id" (str participant_id) (entry "request" (obj request) no_fields))
            peer))

  -- The operations and the handles.
  abbrev pub poll_resize_with_handles :
      ℕ → String → String → Fields → Peer → Call (List ResizeOperation × List ℕ)
  poll_resize_with_handles max_frame_bytes participant_id request_id request peer =
      let call =
        poll_resize_state_with_handles max_frame_bytes participant_id request_id request peer in
      elim call.result [
        | err error ↦ record {
          result = err error;
          held = call.held;
          closed = call.closed;
          rest = call.rest;
        }
        | ok p ↦ record {
          result = ok (p.operations, p.handles);
          held = call.held;
          closed = call.closed;
          rest = call.rest;
        }
      ]

  -- `poll_resize`, which closes the handles.
  unfoldable pub poll_resize : ℕ → String → String → Fields → Peer → Call (List ResizeOperation)
  unfolding poll_resize_state_with_handles
  poll_resize max_frame_bytes participant_id request_id request peer =
      let call = poll_resize_with_handles max_frame_bytes participant_id request_id request peer in
      elim call.result [
        | err error ↦ record {
          result = err error;
          held = call.held;
          closed = call.closed;
          rest = call.rest;
        }
        | ok p ↦ record {
          result = ok p.0;
          held = call.held;
          closed = p.1 ++ call.closed;
          rest = call.rest;
        }
      ]
