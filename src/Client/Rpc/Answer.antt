-- ===== src/Client/Rpc/Answer.antt =====
-- Which answer `_rpc_with_handles` of client.py accepts.
use kapsl_integrations.Prelude.{
  unnot, ℕ, suc, String, Bool, true, false, not, Option, none, some, List, ok, err, length, ltb,
  ◌≡◌, refl, ap, if◌then◌else◌, Ensures, Ensures-ok, Ensures-bind, Ensures-skip, Ensures-raise_if,
}
use kapsl_integrations.Prelude.Values.{Value, Fields, obj, get}
use kapsl_integrations.Contract.Checks.{ContractError, Checked, mapping, is_member}
use kapsl_integrations.Contract.Version.{accepts_version}
use kapsl_integrations.Contract.Resize.{is_text}
use kapsl_integrations.Contract.Messages.{validate_response}
use kapsl_integrations.Client.Frame as Frame
use kapsl_integrations.Client.Frame.{Event, Reading, line_of, read_frame_with_handles}
use kapsl_integrations.Client.Frame.Content.{stream, read_frame_with_handles-reads}
use kapsl_integrations.Client.Rpc.{
  Peer, Call, make_envelope, refuse, remote_of, judged, exchanged, then_exchanged, remote_error,
  checked_response, decoded_response, read_response, rpc_with_handles,
}

abbrev pub Answers : String → Fields → Type 0
Answers request_id response =
    (is_text (get response "request_id") request_id ≡ true)
    × (is_text (get response "result") "error" ≡ false)

validate_response-Ensures :
    (response : Fields) (request_id : String)
    → Ensures
        (λ _. is_text (get response "request_id") request_id ≡ true)
        (validate_response response request_id)
unfolding validate_response
validate_response-Ensures response request_id =
    Ensures-skip (mapping (get response "abi_version") "abi_version") _ λ version.
      Ensures-raise_if (not (accepts_version version)) _ _ λ _.
        Ensures-raise_if (not (is_text (get response "request_id") request_id)) _ _ λ same.
          Ensures-skip (is_member (get response "result") _) _
            λ known. Ensures-raise_if (not known) _ _ λ _. Ensures-ok _ (unnot same)

mapping-Ensures : (v : Value) (field : String) → Ensures (λ f. v ≡ obj f) (mapping v field)
unfolding mapping
mapping-Ensures (obj f) field = Ensures-ok _ refl
mapping-Ensures _ field = record { at = λ a h. cc }

-- A decoded response that is accepted is the value itself.
abbrev Accepts : String → Value → Fields × List ℕ → Type 0
Accepts request_id decoded answer = (decoded ≡ obj answer.0) × Answers request_id answer.0

refuse-Ensures :
    (P : Fields × List ℕ → Type 0) (handles : List ℕ) (rest : List Event) (error : ContractError)
    → Ensures P (refuse handles rest error).result
refuse-Ensures P handles rest ContractError.unhashable = record { at = λ a h. cc }
refuse-Ensures P handles rest error = record { at = λ a h. cc }

remote_of-Ensures :
    (P : Fields × List ℕ → Type 0) (handles : List ℕ) (rest : List Event) (m : Checked Fields)
    → Ensures P (remote_of handles rest m).result
remote_of-Ensures P handles rest (ok response') = record { at = λ a h. cc }
remote_of-Ensures P handles rest (err error) = record { at = λ a h. cc }

result-if-Ensures :
    (P : Fields × List ℕ → Type 0) (b : Bool) (c c' : Call (Fields × List ℕ))
    → (b ≡ true → Ensures P c.result)
    → (b ≡ false → Ensures P c'.result)
    → Ensures P (if b then c else c').result
result-if-Ensures P true c c' k k' = k refl
result-if-Ensures P false c c' k k' = k' refl

judged-Ensures :
    (request_id : String) (decoded : Value) (handles : List ℕ) (rest : List Event)
    (m : Checked Fields)
    → Ensures (λ f. (decoded ≡ obj f) × (is_text (get f "request_id") request_id ≡ true)) m
    → Ensures (Accepts request_id decoded) (judged handles rest m).result
unfolding judged remote_error
judged-Ensures request_id decoded handles rest (err error) e = refuse-Ensures _ handles rest error
judged-Ensures request_id decoded handles rest (ok response) e =
    result-if-Ensures _ (is_text (get response "result") "error") _ _
      (λ h. remote_of-Ensures _ handles rest (mapping (get response "error") "error"))
      (λ h. let fine = e.at response refl in Ensures-ok _ (fine.0, (fine.1, h)))

decoded_response-Ensures :
    (encode : Fields → List ℕ) (decode : List ℕ → Option Value) (request_id : String)
    (handles : List ℕ) (rest : List Event) (o : Option Value)
    → Ensures
        (λ answer. (o ≡ some (obj answer.0)) × Answers request_id answer.0)
        (decoded_response encode decode request_id handles rest o).result
unfolding checked_response
decoded_response-Ensures encode decode request_id handles rest none = record { at = λ a h. cc }
decoded_response-Ensures encode decode request_id handles rest (some decoded) = record {
  at = λ a h.
      let fine =
        (judged-Ensures request_id decoded handles rest _ (
            Ensures-bind (mapping decoded "response") _ (mapping-Ensures decoded "response")
              λ f same.
                Ensures-bind (validate_response f request_id) _
                  (validate_response-Ensures f request_id)
                  λ _ matching. Ensures-ok _ (same, matching))).at
          a h in
      (ap some fine.0, fine.1);
}

module _ (encode : Fields → List ℕ) (decode : List ℕ → Option Value) where
  -- The answer is what the first line of the stream decodes to.
  abbrev pub AnswerOf : String → List Event → Fields × List ℕ → Type 0
  AnswerOf request_id events answer =
      (line : List ℕ) × ((line_of (stream events) ≡ some line)
        × ((decode line ≡ some (obj answer.0)) × Answers request_id answer.0))

  read_response-Ensures :
      (max_frame_bytes : ℕ) (request_id : String) (events : List Event) (r : Reading)
      → read_frame_with_handles max_frame_bytes events ≡ r
      → Ensures (AnswerOf request_id events) (read_response encode decode request_id r).result
  read_response-Ensures max_frame_bytes request_id events r h = go r.result (ap (λ r. r.result) h)
    where
      go :
          (result : Frame.ReadResult)
          → (read_frame_with_handles max_frame_bytes events).result ≡ result
          → Ensures
              (AnswerOf request_id events)
              (read_response encode decode request_id
                (record { result = result; closed = r.closed; rest = r.rest })).result
      go (Frame.failed error) e = record { at = λ a q. cc }
      go (Frame.waiting handles) e = record { at = λ a q. cc }
      go (Frame.frame bytes handles) e = record {
        at = λ a q. (
          bytes,
          (
            (read_frame_with_handles-reads max_frame_bytes events bytes handles e).0,
            (decoded_response-Ensures encode decode request_id handles r.rest (decode bytes)).at a
                q,
          ),
        );
      }

  then_exchanged-Ensures :
      (max_frame_bytes : ℕ) (request_id : String) (peer : Peer) (m : Checked Fields)
      → Ensures
          (AnswerOf request_id peer.events)
          (then_exchanged encode decode max_frame_bytes request_id peer m).result
  unfolding exchanged
  then_exchanged-Ensures max_frame_bytes request_id peer (err error) = record { at = λ a h. cc }
  then_exchanged-Ensures max_frame_bytes request_id peer (ok envelope) =
      result-if-Ensures _ (ltb max_frame_bytes (suc (length (encode envelope)))) _ _
        (λ _. record { at = λ a h. cc })
        (λ _.
          result-if-Ensures _ (not peer.is_reached) _ _ (λ _. record { at = λ a h. cc })
            (λ _. read_response-Ensures max_frame_bytes request_id peer.events _ refl))

  -- A call that returns a response returns what the first line of the peer's stream decodes to; that is
  -- an object with the id of this request, and not an error.
  pub rpc_with_handles-Answers :
      (max_frame_bytes : ℕ) (request_id operation : String) (payload : Fields) (peer : Peer)
      (answer : Fields × List ℕ)
      → (rpc_with_handles encode decode max_frame_bytes request_id operation payload peer).result
        ≡ ok answer
      → (line : List ℕ) × ((line_of (stream peer.events) ≡ some line)
          × ((decode line ≡ some (obj answer.0)) × Answers request_id answer.0))
  unfolding rpc_with_handles
  rpc_with_handles-Answers max_frame_bytes request_id operation payload peer answer =
      (then_exchanged-Ensures max_frame_bytes request_id peer
          (make_envelope request_id operation payload)).at
        answer
