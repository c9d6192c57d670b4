-- ===== src/Connector/Worker/Resized.antt =====
-- What `_apply_worker_resizes` of connector.py does with the operations of one poll.
use kapsl_integrations.Prelude.{
  ℕ, zero, suc, max, Bool, true, false, not, ◌&&◌, ◌||◌, Option, none, some, List, [], ◌∷◌, ◌++◌,
  map, length, Result, ok, err, if◌then◌else◌, ◌≡◌, refl, ap, arith,
}
use kapsl_integrations.Contract.Resize.{ResizeOperation}
use kapsl_integrations.Client.Rpc.{ClientError}
use kapsl_integrations.Client.Poll.{Polled}
use kapsl_integrations.SharedPool.Worker as Hook
use kapsl_integrations.SharedPool.Worker.{Import, WorkerResize}
use kapsl_integrations.SharedPool.Worker.Replay.{run}
use kapsl_integrations.Connector.Worker.{
  WorkerSide, StepError, no_hook, not_polled, StepResult, resize_of, next_ack, later_acks,
  applied_by, apply_each, with_answer, with_hook, apply_worker_resizes,
}

-- The messages to the hook, each with all handles of the poll.
abbrev pub messages : List ℕ → List ResizeOperation → List (WorkerResize × List ℕ)
messages handles operations = map (λ o. (resize_of o, handles)) operations

-- The largest generation of the operations and the one before.
abbrev pub newest : ℕ → List ResizeOperation → ℕ
newest generation [] = generation
newest generation (o ∷ os) = newest (max generation o.resize_generation) os

-- The first acknowledgements were all taken.
abbrev pub all_taken : ℕ → List Bool → Bool
all_taken zero acks = true
all_taken (suc n) acks = next_ack acks && all_taken n (later_acks acks)

module _ {S : Type 0} (cuda : Import S) where
  -- All operations went to the hook in their order and were acknowledged; or they did so up to one, at
  -- which an error was raised, and none went to the hook after it. The generation is that of the
  -- acknowledged ones.
  pub data Worked (generation : ℕ) (hook : Hook.Worker S) (handles : List ℕ) (acks : List Bool)
      (operations : List ResizeOperation) (after : WorkerSide S) (error : Option StepError)
      : Type 0 where
    finished :
        error ≡ none
        → after.hook ≡ some (run cuda hook (messages handles operations))
        → after.applied_generation ≡ newest generation operations
        → all_taken (length operations) acks ≡ true
        → Worked generation hook handles acks operations after error
    stopped_at :
        (done : List ResizeOperation) (o : ResizeOperation) (rest : List ResizeOperation)
        (e : StepError)
        → operations ≡ done ++ (o ∷ rest)
        → error ≡ some e
        → after.hook ≡ some (run cuda hook (messages handles (done ++ (o ∷ []))))
        → after.applied_generation ≡ newest generation done
        → all_taken (length done) acks ≡ true
        → Worked generation hook handles acks operations after error

  Worked-later :
      {generation : ℕ} {hook : Hook.Worker S} {handles : List ℕ} {acks : List Bool}
      (o : ResizeOperation) {os : List ResizeOperation} {after : WorkerSide S}
      {error : Option StepError}
      → next_ack acks ≡ true
      → Worked
          (max generation o.resize_generation)
          (Hook.apply_worker_resize cuda hook (resize_of o) handles).0
          handles
          (later_acks acks)
          os
          after
          error
      → Worked generation hook handles acks (o ∷ os) after error
  unfolding run
  Worked-later {acks = acks} o {os} a (finished e h g t) = finished e h g (both a t)
    where
      both : {b c : Bool} → b ≡ true → c ≡ true → (b && c) ≡ true
      both {b = b} {c = c} p q = ground arith
  Worked-later {acks = acks} o {os} a (stopped_at done p rest e split raised h g t) =
      stopped_at (o ∷ done) p rest e (ap (λ l. o ∷ l) split) raised h g (both a t)
    where
      both : {b c : Bool} → b ≡ true → c ≡ true → (b && c) ≡ true
      both {b = b} {c = c} p q = ground arith

  record HasWorked (generation : ℕ) (hook : Hook.Worker S) (handles : List ℕ) (acks : List Bool)
      (operations : List ResizeOperation) (r : WorkerSide S × Option StepError) : Type 0 where
    pub worked : Worked generation hook handles acks operations r.0 r.1

  HasWorked-choice :
      {E : Type 0} (P : WorkerSide S × Option StepError → Type 0) (error : Option E)
      (k : E → WorkerSide S × Option StepError) (m : WorkerSide S × Option StepError)
      → ((e : E) → P (k e))
      → P m
      → P (elim error as (λ x. WorkerSide S × Option StepError) [ some e ↦ k e | none ↦ m ])
  HasWorked-choice P none k m hk hm = hm
  HasWorked-choice P (some e) k m hk hm = hk e

  HasWorked-if :
      (P : WorkerSide S × Option StepError → Type 0) (b : Bool)
      (m m' : WorkerSide S × Option StepError)
      → (b ≡ true → P m)
      → P m'
      → P (if b then m else m')
  HasWorked-if P true m m' h h' = h refl
  HasWorked-if P false m m' h h' = h'

  apply_each-HasWorked :
      (side : WorkerSide S) (hook : Hook.Worker S) (handles : List ℕ) (acks : List Bool)
      (operations : List ResizeOperation)
      → side.hook ≡ some hook
      → HasWorked side.applied_generation hook handles acks operations
          (apply_each cuda side hook handles acks operations)
  unfolding apply_each run
  apply_each-HasWorked side hook handles acks [] h = record { worked = finished refl h refl refl }
  apply_each-HasWorked side hook handles acks (o ∷ os) h =
      let reply = Hook.apply_worker_resize cuda hook (resize_of o) handles in
      let applied = applied_by side reply.0 in
      let counted : WorkerSide S = record applied {
        applied_generation = max side.applied_generation o.resize_generation;
      } in
      let rest = apply_each cuda counted reply.0 handles (later_acks acks) os in
      let later = apply_each-HasWorked counted reply.0 handles (later_acks acks) os refl in
      let P = HasWorked side.applied_generation hook handles acks (o ∷ os) in
      HasWorked-choice P reply.1 (λ e. (applied, some (StepError.not_applied e))) _
        (λ e. record { worked = stopped_at [] o os _ refl refl refl refl refl })
        (HasWorked-if P (next_ack acks) rest (applied, some StepError.not_acknowledged)
          (λ a. record { worked = Worked-later o a later.worked })
          (record { worked = stopped_at [] o os _ refl refl refl refl refl }))

  -- The effect of a step on the hook and the generation, and the handles that it closes.
  pub data Resized (side : WorkerSide S) (acks : List Bool) (answer : Result ClientError Polled)
      (o : StepResult S) : Type 0 where
    not_ready :
        side.ready ≡ false
        → o.side.hook ≡ side.hook
        → o.side.applied_generation ≡ side.applied_generation
        → o.closed ≡ []
        → o.error ≡ none
        → Resized side acks answer o
    without_hook :
        side.ready ≡ true
        → side.hook ≡ none
        → o.side.hook ≡ none
        → o.side.applied_generation ≡ side.applied_generation
        → o.closed ≡ []
        → o.error ≡ some no_hook
        → Resized side acks answer o
    unpolled :
        (hook : Hook.Worker S) (e : ClientError)
        → side.ready ≡ true
        → side.hook ≡ some hook
        → answer ≡ err e
        → o.side.hook ≡ some hook
        → o.side.applied_generation ≡ side.applied_generation
        → o.closed ≡ []
        → o.error ≡ some (not_polled e)
        → Resized side acks answer o
    polled :
        (hook : Hook.Worker S) (p : Polled)
        → side.ready ≡ true
        → side.hook ≡ some hook
        → answer ≡ ok p
        → o.closed ≡ p.handles
        → Worked side.applied_generation hook p.handles acks p.operations o.side o.error
        → Resized side acks answer o

  record HasResized (side : WorkerSide S) (acks : List Bool) (answer : Result ClientError Polled)
      (o : StepResult S) : Type 0 where
    pub resized : Resized side acks answer o

  with_answer-HasResized :
      (side : WorkerSide S) (hook : Hook.Worker S) (acks : List Bool)
      (answer : Result ClientError Polled)
      → side.ready ≡ true
      → side.hook ≡ some hook
      → HasResized side acks answer (with_answer cuda side hook acks answer)
  with_answer-HasResized side hook acks (err e) r h = record {
    resized = unpolled hook e r h refl h refl refl refl;
  }
  with_answer-HasResized side hook acks (ok p) r h = record {
    resized =
        polled hook p r h refl refl
          (apply_each-HasWorked side hook p.handles acks p.operations h).worked;
  }

  with_hook-HasResized :
      (side : WorkerSide S) (acks : List Bool) (answer : Result ClientError Polled)
      (hook : Option (Hook.Worker S))
      → side.ready ≡ true
      → side.hook ≡ hook
      → HasResized side acks answer (with_hook cuda side acks answer hook)
  with_hook-HasResized side acks answer none r h = record {
    resized = without_hook r h h refl refl refl;
  }
  with_hook-HasResized side acks answer (some hook) r h =
      with_answer-HasResized side hook acks answer r h

  pub apply_worker_resizes-Resized :
      (side : WorkerSide S) (acks : List Bool) (answer : Result ClientError Polled)
      → side.live_resize ≡ true
      → Resized side acks answer (apply_worker_resizes cuda side acks answer)
  unfolding apply_worker_resizes
  apply_worker_resizes-Resized side acks answer live =
      go (not side.live_resize || not side.ready) refl
    where
      go :
          (b : Bool)
          → (not side.live_resize || not side.ready) ≡ b
          → Resized side acks answer (
              if b
              then record { side = side; closed = []; error = none }
              else with_hook cuda side acks answer side.hook)
      go true e = not_ready (ground arith) refl refl refl refl
      go false e = (with_hook-HasResized side acks answer side.hook (ground arith) refl).resized
