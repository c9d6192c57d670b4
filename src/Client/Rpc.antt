-- ===== src/Client/Rpc.antt =====
-- `KapslKvControlClient._rpc_with_handles`, `_rpc` and `_expect` of client.py, and `make_envelope` of
-- contract.py. JSON's encoder and decoder and the peer are parameters. What is closed and what is left
-- to be received is kept with the result of a call.
pub mod Handles
pub mod Ensured
pub mod Answer
use kapsl_integrations.Prelude.{
  ℕ, suc, String, Bool, true, false, not, ◌||◌, Option, none, some, List, [], ◌∷◌, ◌++◌, Result, ok,
  err, any, length, ltb, if◌then◌else◌, ◌>>=◌, ◌>>◌,
}
use kapsl_integrations.Prelude.Values.{Value, Fields, str, obj, no_fields, entry, get, get_or}
use kapsl_integrations.Contract.Checks.{ContractError, Checked, mapping, nonempty, unhashable}
use kapsl_integrations.Contract.Resize.{is_text}
use kapsl_integrations.Contract.Messages.{abi_version, validate_response}
use kapsl_integrations.Client.Frame as Frame
use kapsl_integrations.Client.Frame.{Event, FrameError, read_frame_with_handles}

-- `contract` is raised as it is; the others but `type_error` and `value_error` are `KapslKvControlError`,
-- `remote` with the peer's kind. `unfinished`: the peer's events are used up before the call ends.
pub data ClientError : Type 0 where
  contract : ContractError → ClientError
  request_too_large not_sent not_json unexpected_result unexpected_handles : ClientError
  unread : FrameError → ClientError
  unfinished : ClientError
  invalid : ContractError → ClientError
  remote : Value → ClientError
  mismatch : String → ClientError
  type_error value_error : ClientError

-- Whether connecting and sending worked, and what the calls of `recvmsg` then give.
pub record Peer : Type 0 where
  pub is_reached : Bool
  pub events : List Event

-- `held` is what a call that is not finished has received.
pub record Call (A : Type 0) : Type 0 where
  pub result : Result ClientError A
  pub held : List ℕ
  pub closed : List ℕ
  pub rest : List Event

-- A call that failed.
abbrev pub ended : {A : Type 0} → ClientError → List ℕ → List Event → Call A
ended error closed rest = record { result = err error; held = []; closed = closed; rest = rest }

-- `payload` has none of the three keys.
unfoldable pub make_envelope : String → String → Fields → Checked Fields
make_envelope request_id operation payload = do
  request ← nonempty (str request_id) "request_id"
  name ← nonempty (str operation) "operation"
  ok (
      entry "abi_version" abi_version
        (entry "request_id" (str request) (entry "operation" (str name) payload)))

-- The `except` clause around the checks of a response: a set that is asked for a list or an object
-- raises what it does not catch, and then nothing is closed.
abbrev pub refuse : List ℕ → List Event → ContractError → Call (Fields × List ℕ)
refuse handles rest unhashable = ended type_error [] rest
refuse handles rest error = ended (invalid error) handles rest

-- `response["result"] == "error"`: the handles are closed first.
abbrev pub remote_of : List ℕ → List Event → Checked Fields → Call (Fields × List ℕ)
remote_of handles rest (err error) = ended (contract error) handles rest
remote_of handles rest (ok fields') =
    ended (remote (get_or fields' "kind" (str "internal"))) handles rest

unfoldable pub remote_error : List ℕ → List Event → Fields → Call (Fields × List ℕ)
remote_error handles rest response = remote_of handles rest (mapping (get response "error") "error")

unfoldable pub judged : List ℕ → List Event → Checked Fields → Call (Fields × List ℕ)
unfolding remote_error
judged handles rest (err error) = refuse handles rest error
judged handles rest (ok response) =
    if is_text (get response "result") "error"
    then remote_error handles rest response
    else record { result = ok (response, handles); held = []; closed = []; rest = rest }

unfoldable pub checked_response : String → List ℕ → List Event → Value → Call (Fields × List ℕ)
unfolding judged
checked_response request_id handles rest decoded = judged handles rest (
    mapping decoded "response" >>= λ response. validate_response response request_id >> ok response)

-- `_expect`
unfoldable pub expect : Fields → List String → Result ClientError (Unit {0})
expect response allowed =
    if any (is_text (get response "result")) allowed then ok tt else err unexpected_result

-- The `except` clauses after the checks of an answer: the handles are closed for every error.
abbrev pub rewrapped : ContractError → ClientError
rewrapped unhashable = type_error
rewrapped error = invalid error

abbrev pub wrapped : {A : Type 0} → Checked A → Result ClientError A
wrapped (ok a) = ok a
wrapped (err error) = err (rewrapped error)

-- The checks of an answer, after which the handles are closed for every error. `held` and `closed` are
-- those of the call.
abbrev pub concluded :
    {A : Type 0} → List ℕ → List ℕ → List ℕ → List Event → Result ClientError A → Call A
concluded handles held closed rest (ok a) = record {
  result = ok a;
  held = held;
  closed = closed;
  rest = rest;
}
concluded handles held closed rest (err error) = record {
  result = err error;
  held = [];
  closed = handles ++ (held ++ closed);
  rest = rest;
}

abbrev pub then_checked :
    {A : Type 0} → (Fields → List ℕ → Result ClientError A) → Call (Fields × List ℕ) → Call A
then_checked check call = elim call.result [
  | err error ↦ record {
    result = err error;
    held = call.held;
    closed = call.closed;
    rest = call.rest;
  }
  | ok answer ↦ concluded answer.1 call.held call.closed call.rest (check answer.0 answer.1)
]

-- The arguments are checked before anything is sent.
abbrev pub requested : {A B : Type 0} → List Event → Checked B → Call A → Call A
requested events (err error) call = ended (contract error) [] events
requested events (ok b) call = call

abbrev pub only_response : List ℕ → List Event → Fields → List ℕ → Call Fields
only_response closed rest response [] = record {
  result = ok response;
  held = [];
  closed = closed;
  rest = rest;
}
only_response closed rest response (handle ∷ handles) =
    ended unexpected_handles (handle ∷ handles) rest

abbrev pub without_handles : Call (Fields × List ℕ) → Call Fields
without_handles call = elim call.result [
  | err error ↦ record {
    result = err error;
    held = call.held;
    closed = call.closed;
    rest = call.rest;
  }
  | ok answer ↦ only_response call.closed call.rest answer.0 answer.1
]

module _ (encode : Fields → List ℕ) (decode : List ℕ → Option Value) where
  abbrev pub decoded_response : String → List ℕ → List Event → Option Value → Call (Fields × List ℕ)
  decoded_response request_id handles rest none = ended not_json handles rest
  decoded_response request_id handles rest (some decoded) =
      checked_response request_id handles rest decoded

  abbrev pub read_response : String → Frame.Reading → Call (Fields × List ℕ)
  read_response request_id reading = elim reading.result [
    | Frame.failed error ↦ ended (unread error) reading.closed reading.rest
    | Frame.waiting handles ↦ record {
      result = err unfinished;
      held = handles;
      closed = reading.closed;
      rest = reading.rest;
    }
    | Frame.frame bytes handles ↦ decoded_response request_id handles reading.rest (decode bytes)
  ]

  -- The newline counts as part of the request.
  unfoldable pub exchanged : ℕ → String → Peer → Fields → Call (Fields × List ℕ)
  unfolding checked_response read_frame_with_handles
  exchanged max_frame_bytes request_id peer envelope =
      if ltb max_frame_bytes (suc (length (encode envelope)))
      then ended request_too_large [] peer.events
      else if not peer.is_reached
      then ended not_sent [] peer.events
      else read_response request_id (read_frame_with_handles max_frame_bytes peer.events)

  abbrev pub then_exchanged : ℕ → String → Peer → Checked Fields → Call (Fields × List ℕ)
  then_exchanged max_frame_bytes request_id peer (err error) = ended (contract error) [] peer.events
  then_exchanged max_frame_bytes request_id peer (ok envelope) =
      exchanged max_frame_bytes request_id peer envelope

  unfoldable pub rpc_with_handles : ℕ → String → String → Fields → Peer → Call (Fields × List ℕ)
  unfolding exchanged
  rpc_with_handles max_frame_bytes request_id operation payload peer =
      then_exchanged max_frame_bytes request_id peer (make_envelope request_id operation payload)

  -- `_rpc`
  unfoldable pub rpc : ℕ → String → String → Fields → Peer → Call Fields
  unfolding rpc_with_handles
  rpc max_frame_bytes request_id operation payload peer =
      without_handles (rpc_with_handles max_frame_bytes request_id operation payload peer)
