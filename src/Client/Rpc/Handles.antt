-- ===== src/Client/Rpc/Handles.antt =====
-- The descriptors that come with a response of `_rpc_with_handles` of client.py.
use kapsl_integrations.Prelude.{
  Ensures, ℕ, suc, String, Bool, true, false, not, Option, none, some, List, [], ◌++◌, Result, ok,
  err, length, ltb, ◌≡◌, ◌≢◌, refl, subst, ap, sym, ◌∙◌, if◌then◌else◌, append_empty,
}
use kapsl_integrations.Prelude.Values.{Value, Fields, get}
use kapsl_integrations.Contract.Checks.{ContractError, Checked, mapping, unhashable}
use kapsl_integrations.Contract.Resize.{is_text}
use kapsl_integrations.Client.Frame as Frame
use kapsl_integrations.Client.Frame.{Event, Reading, read_frame_with_handles}
use kapsl_integrations.Client.Frame.Handles.{descriptors, is_calm, held, Kept, Kept-read_frame}
use kapsl_integrations.Client.Rpc.{
  ClientError, type_error, Peer, Call, ended, make_envelope, refuse, remote_error, concluded,
  then_checked, requested, remote_of, judged, exchanged, then_exchanged, unread, checked_response,
  decoded_response, read_response, rpc_with_handles,
}

-- The descriptors that the caller has with a result.
abbrev pub in_hand : {A : Type 0} → (A → List ℕ) → Result ClientError A → List ℕ
in_hand owned (ok a) = owned a
in_hand owned (err error) = []

-- Every one of `all` is in the caller's hands, held by a call that goes on, closed or still to come.
pub record Keeps {A : Type 0} (owned : A → List ℕ) (all : List ℕ) (call : Call A) : Type 0 where
  pub at :
      call.result ≢ err type_error
      → (in_hand owned call.result ++ (call.held ++ call.closed)) ++ descriptors call.rest ≡ all

module _ {A : Type 0} (owned : A → List ℕ) where
  pub Keeps-ended :
      (error : ClientError) (closed : List ℕ) (rest : List Event)
      → Keeps owned (closed ++ descriptors rest) (ended error closed rest)
  Keeps-ended error closed rest = record { at = λ e. refl }

  pub Keeps-requested :
      {B : Type 0} (events : List Event) (m : Checked B) (call : Call A)
      → Keeps owned (descriptors events) call
      → Keeps owned (descriptors events) (requested events m call)
  Keeps-requested events (ok b) call k = k
  Keeps-requested events (err error) call k = Keeps-ended _ [] events

  pub Keeps-if :
      (all : List ℕ) (b : Bool) (c c' : Call A)
      → Keeps owned all c
      → Keeps owned all c'
      → Keeps owned all (if b then c else c')
  Keeps-if all true c c' k k' = k
  Keeps-if all false c c' k k' = k'

abbrev pub second : Fields × List ℕ → List ℕ
second answer = answer.1

module _ (handles : List ℕ) (rest : List Event) where
  Keeps-refuse :
      (error : ContractError)
      → Keeps second (handles ++ descriptors rest) (refuse handles rest error)
  Keeps-refuse unhashable = record { at = λ e. elim (e refl) [ ] }
  Keeps-refuse error = Keeps-ended second _ handles rest

  Keeps-remote_of :
      (m : Checked Fields) → Keeps second (handles ++ descriptors rest) (remote_of handles rest m)
  Keeps-remote_of (err error) = Keeps-ended second _ handles rest
  Keeps-remote_of (ok response') = Keeps-ended second _ handles rest

  Keeps-judged :
      (m : Checked Fields) → Keeps second (handles ++ descriptors rest) (judged handles rest m)
  unfolding judged remote_error
  Keeps-judged (err error) = Keeps-refuse error
  Keeps-judged (ok response) =
      Keeps-if second _ (is_text (get response "result") "error") _ _
        (Keeps-remote_of (mapping (get response "error") "error"))
        (record { at = λ e. ap (λ l. l ++ descriptors rest) (append_empty handles) })

  Keeps-checked_response :
      (request_id : String) (decoded : Value)
      → Keeps second
          (handles ++ descriptors rest)
          (checked_response request_id handles rest decoded)
  unfolding checked_response
  Keeps-checked_response request_id decoded = Keeps-judged _

  Keeps-decoded_response :
      (encode : Fields → List ℕ) (decode : List ℕ → Option Value) (request_id : String)
      (o : Option Value)
      → Keeps second
          (handles ++ descriptors rest)
          (decoded_response encode decode request_id handles rest o)
  Keeps-decoded_response encode decode request_id none = Keeps-ended second _ handles rest
  Keeps-decoded_response encode decode request_id (some decoded) =
      Keeps-checked_response request_id decoded

module _ (encode : Fields → List ℕ) (decode : List ℕ → Option Value) where
  Keeps-read_response :
      (request_id : String) (all : List ℕ) (r : Reading)
      → Kept all r
      → Keeps second all (read_response encode decode request_id r)
  Keeps-read_response request_id all r k = go r.result r.closed r.rest k.at k.unclosed
    where
      go :
          (result : Frame.ReadResult) (closed : List ℕ) (rest : List Event)
          → (held result ++ closed) ++ descriptors rest ≡ all
          → ((bytes handles : List ℕ) → result ≡ Frame.frame bytes handles → closed ≡ [])
          → Keeps second all (
              read_response encode decode request_id
                (record { result = result; closed = closed; rest = rest }))
      go (Frame.failed error) closed rest h u =
          subst (λ l. Keeps second l (ended (unread error) closed rest)) h
            (Keeps-ended second (unread error) closed rest)
      go (Frame.waiting handles) closed rest h u = record { at = λ e. h }
      go (Frame.frame bytes handles) closed rest h u =
          subst
            (λ l.
              Keeps second l
                (decoded_response encode decode request_id handles rest (decode bytes)))
            (ap (λ l. l ++ descriptors rest)
                (sym (ap (λ l. handles ++ l) (u bytes handles refl) ∙ append_empty handles))
              ∙ h)
            (Keeps-decoded_response handles rest encode decode request_id (decode bytes))

  Keeps-then_exchanged :
      (max_frame_bytes : ℕ) (request_id : String) (peer : Peer) (m : Checked Fields)
      → is_calm peer.events ≡ true
      → Keeps second
          (descriptors peer.events)
          (then_exchanged encode decode max_frame_bytes request_id peer m)
  unfolding exchanged
  Keeps-then_exchanged max_frame_bytes request_id peer (err error) calm =
      Keeps-ended second _ [] peer.events
  Keeps-then_exchanged max_frame_bytes request_id peer (ok envelope) calm =
      Keeps-if second _ (ltb max_frame_bytes (suc (length (encode envelope)))) _ _
        (Keeps-ended second _ [] peer.events)
        (Keeps-if second _ (not peer.is_reached) _ _ (Keeps-ended second _ [] peer.events)
          (Keeps-read_response request_id _ _ (Kept-read_frame max_frame_bytes peer.events calm)))

  pub Keeps-rpc_with_handles :
      (max_frame_bytes : ℕ) (request_id operation : String) (payload : Fields) (peer : Peer)
      → is_calm peer.events ≡ true
      → Keeps second
          (descriptors peer.events)
          (rpc_with_handles encode decode max_frame_bytes request_id operation payload peer)
  unfolding rpc_with_handles
  Keeps-rpc_with_handles max_frame_bytes request_id operation payload peer calm =
      Keeps-then_exchanged max_frame_bytes request_id peer
        (make_envelope request_id operation payload) calm

err-injective :
    {A : Type 0} {e e' : ClientError} → ◌≡◌ {A = Result ClientError A} (err e) (err e') → e ≡ e'
err-injective h = cc

module _ {A : Type 0} (owned : A → List ℕ) (check : Fields → List ℕ → Result ClientError A) where
  -- A check of the answer returns the handles that it was given.
  pub Keeps-then_checked :
      (all : List ℕ) (call : Call (Fields × List ℕ))
      → ((response : Fields) (handles : List ℕ)
          → Ensures (λ a. owned a ≡ handles) (check response handles))
      → Keeps second all call
      → Keeps owned all (then_checked check call)
  Keeps-then_checked all call returns k = go call.result k.at
    where
      concludes :
          (handles : List ℕ) (m : Result ClientError A)
          → Ensures (λ a. owned a ≡ handles) m
          → (handles ++ (call.held ++ call.closed)) ++ descriptors call.rest ≡ all
          → Keeps owned all (concluded handles call.held call.closed call.rest m)
      concludes handles (ok a) e h = record {
        at = λ _.
            ap (λ l. (l ++ (call.held ++ call.closed)) ++ descriptors call.rest) (e.at a refl) ∙ h;
      }
      concludes handles (err error) e h = record { at = λ _. h }

      go :
          (result : Result ClientError (Fields × List ℕ))
          → (result ≢ err type_error
              → (in_hand second result ++ (call.held ++ call.closed)) ++ descriptors call.rest
                ≡ all)
          → Keeps owned all (
              then_checked check (record {
                result = result;
                held = call.held;
                closed = call.closed;
                rest = call.rest;
              }))
      go (err error) h = record { at = λ n. h (λ e. n (ap err (err-injective e))) }
      go (ok answer) h =
          concludes answer.1 (check answer.0 answer.1) (returns answer.0 answer.1) (h (λ e. cc))
