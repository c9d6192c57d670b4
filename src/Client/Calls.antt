-- ===== src/Client/Calls.antt =====
-- The calls of `KapslKvControlClient` in client.py that carry no handles.
use kapsl_integrations.Prelude.{
  ℕ, suc, String, Bool, true, false, Option, none, some, List, [], ◌∷◌, Result, ok, err, str_eq,
  if◌then◌else◌, ◌>>=◌, ◌>>◌,
}
use kapsl_integrations.Prelude.Texts.{strip}
use kapsl_integrations.Prelude.Values.{
  ℤ, pos, negsuc, Value, Fields, int, str, obj, no_fields, entry, get,
}
use kapsl_integrations.Contract.Checks.{mapping}
use kapsl_integrations.Contract.Attachment.{validate_shared_pool_attachment}
use kapsl_integrations.Contract.Requests.{
  Lease, validate_reserve_request, validate_lease, validate_shared_pool_detach_request,
  validate_resize_ack_request,
}
use kapsl_integrations.Client.Frame.{Event}
use kapsl_integrations.Client.Rpc.{
  ClientError, value_error, Peer, Call, ended, wrapped, expect, requested, rpc,
}

-- `_required`, and the same test where it is written out.
unfoldable pub is_blank : String → Bool
is_blank s = str_eq (strip s) ""

abbrev pub is_positive : ℤ → Bool
is_positive (pos (suc n)) = true
is_positive _ = false

abbrev pub is_negative : ℤ → Bool
is_negative (negsuc n) = true
is_negative _ = false

-- `ValueError`, before anything is sent.
abbrev pub unless : {A : Type 0} → List Event → Bool → Call A → Call A
unless events bad call = if bad then ended value_error [] events else call

abbrev pub then_read : {A : Type 0} → (Fields → Result ClientError A) → Call Fields → Call A
then_read read call = elim call.result [
  | err error ↦ record {
    result = err error;
    held = call.held;
    closed = call.closed;
    rest = call.rest;
  }
  | ok response ↦ record {
    result = read response;
    held = call.held;
    closed = call.closed;
    rest = call.rest;
  }
]

abbrev pub acknowledged : Fields → Result ClientError (Unit {0})
acknowledged response = expect response ("ack" ∷ [])

unfoldable pub leased : Fields → Result ClientError Lease
leased response = do
  expect response ("lease" ∷ [])
  fields ← wrapped (mapping (get response "lease") "lease")
  wrapped (validate_lease fields)

abbrev pub completion_field : Option Fields → Fields
completion_field none = no_fields
completion_field (some completion) = entry "completion" (obj completion) no_fields

-- One call: the limit of a frame, the participant, a fresh request id and the peer.
module _ (encode : Fields → List ℕ) (decode : List ℕ → Option Value) (max_frame_bytes : ℕ)
    (participant_id request_id : String) (peer : Peer) where
  abbrev pub call_of : String → Fields → Call Fields
  call_of operation payload =
      rpc encode decode max_frame_bytes request_id operation
        (entry "participant_id" (str participant_id) payload) peer

  unfoldable pub reserve : Fields → Call Lease
  reserve request =
      requested peer.events (validate_reserve_request request)
        (then_read leased (call_of "reserve" (entry "request" (obj request) no_fields)))

  unfoldable pub attach : Fields → Call (Unit {0})
  attach attachment =
      requested peer.events (validate_shared_pool_attachment attachment)
        (then_read acknowledged (call_of "attach" (entry "attachment" (obj attachment) no_fields)))

  unfoldable pub activate : ℤ → Call (Unit {0})
  activate participant_epoch =
      if is_positive participant_epoch
      then then_read acknowledged
          (call_of "activate" (entry "participant_epoch" (int participant_epoch) no_fields))
      else ended value_error [] peer.events

  unfoldable pub commit : String → ℤ → Call (Unit {0})
  commit lease_id computed_tokens = unless peer.events (is_blank lease_id) (
      unless peer.events (is_negative computed_tokens) (
        then_read acknowledged (
          call_of "commit" (
            entry "request"
              (obj (
                entry "lease_id" (str lease_id)
                  (entry "computed_tokens" (int computed_tokens) no_fields)))
              no_fields))))

  unfoldable pub touch : String → Call (Unit {0})
  touch lease_id =
      unless peer.events (is_blank lease_id)
        (then_read acknowledged (call_of "touch" (entry "lease_id" (str lease_id) no_fields)))

  unfoldable pub heartbeat : Call (Unit {0})
  heartbeat = then_read acknowledged (call_of "heartbeat" no_fields)

  unfoldable pub release : String → Option Fields → Call (Unit {0})
  release lease_id completion = unless peer.events (is_blank lease_id) (
      then_read acknowledged
        (call_of "release" (entry "lease_id" (str lease_id) (completion_field completion))))

  unfoldable pub detach : Fields → Call (Unit {0})
  detach request =
      requested peer.events (validate_shared_pool_detach_request request)
        (then_read acknowledged (call_of "detach" (entry "request" (obj request) no_fields)))

  unfoldable pub ack_resize : Fields → Call (Unit {0})
  ack_resize request =
      requested peer.events (validate_resize_ack_request request)
        (then_read acknowledged (call_of "resize_ack" (entry "request" (obj request) no_fields)))
