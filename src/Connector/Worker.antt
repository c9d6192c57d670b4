-- ===== src/Connector/Worker.antt =====
-- Live resizing on a worker's side of connector.py: `_apply_worker_resizes`, and `start_load_kv`,
-- `wait_for_save` and the start of `shutdown`, which share the forward lock.
pub mod Resized
pub mod Fence
pub mod Examples
use kapsl_integrations.Prelude.{
  ℕ, max, Bool, true, false, not, ◌&&◌, ◌||◌, Option, none, some, List, [], ◌∷◌, Result, ok, err,
  if◌then◌else◌,
}
use kapsl_integrations.Contract.Resize.{ResizeOperation}
use kapsl_integrations.Client.Rpc.{ClientError}
use kapsl_integrations.Client.Poll.{Polled}
use kapsl_integrations.SharedPool.Worker as Hook
use kapsl_integrations.SharedPool.Worker.{Import, WorkerResize, WorkerError}

-- `ready`: the epoch and the shard are known.
pub record WorkerSide (S : Type 0) : Type 0 where
  pub live_resize : Bool
  pub ready : Bool
  pub hook : Option (Hook.Worker S)
  pub applied_generation : ℕ
  pub locked : Bool
  pub forward_active : Bool

pub data StepError : Type 0 where
  no_hook not_acknowledged : StepError
  not_polled : ClientError → StepError
  not_applied : WorkerError → StepError

-- The worker after a call, the handles that were closed and what was raised.
pub record StepResult (S : Type 0) : Type 0 where
  pub side : WorkerSide S
  pub closed : List ℕ
  pub error : Option StepError

-- What the hook reads of an operation.
abbrev pub resize_of : ResizeOperation → WorkerResize
resize_of o = record {
  binding_id = o.binding_id;
  target_block_count = o.target_block_count;
  bytes_per_block = o.bytes_per_block;
  stage = o.stage;
  segments = o.segments;
  resize_generation = o.resize_generation;
}

-- Whether the coordinator takes the next acknowledgement.
abbrev pub next_ack : List Bool → Bool
next_ack [] = false
next_ack (taken ∷ acks) = taken

abbrev pub later_acks : List Bool → List Bool
later_acks [] = []
later_acks (taken ∷ acks) = acks

abbrev pub applied_by : {S : Type 0} → WorkerSide S → Hook.Worker S → WorkerSide S
applied_by side hook = record side { hook = some hook }

module _ {S : Type 0} (cuda : Import S) where
  -- The loop over the operations; `acks` is whether the coordinator takes each acknowledgement.
  unfoldable pub apply_each :
      WorkerSide S
      → Hook.Worker S
      → List ℕ
      → List Bool
      → List ResizeOperation
      → WorkerSide S × Option StepError
  apply_each side hook handles acks [] = (side, none)
  apply_each side hook handles acks (o ∷ os) =
      let reply = Hook.apply_worker_resize cuda hook (resize_of o) handles in
      let applied = applied_by side reply.0 in
      let counted : WorkerSide S = record applied {
        applied_generation = max side.applied_generation o.resize_generation;
      } in
      let rest = apply_each counted reply.0 handles (later_acks acks) os in
      elim reply.1 [
        | some error ↦ (applied, some (not_applied error))
        | none ↦ if next_ack acks then rest else (applied, some not_acknowledged)
      ]

  abbrev pub with_answer :
      WorkerSide S → Hook.Worker S → List Bool → Result ClientError Polled → StepResult S
  with_answer side hook acks (err error) = record {
    side = side;
    closed = [];
    error = some (not_polled error);
  }
  with_answer side hook acks (ok p) =
      let done = apply_each side hook p.handles acks p.operations in
      record { side = done.0; closed = p.handles; error = done.1 }

  abbrev pub with_hook :
      WorkerSide S → List Bool → Result ClientError Polled → Option (Hook.Worker S) → StepResult S
  with_hook side acks answer none = record { side = side; closed = []; error = some no_hook }
  with_hook side acks answer (some hook) = with_answer side hook acks answer

  -- `answer` is what the poll gives, with its handles.
  unfoldable pub apply_worker_resizes :
      WorkerSide S → List Bool → Result ClientError Polled → StepResult S
  unfolding apply_each
  apply_worker_resizes side acks answer =
      if not side.live_resize || not side.ready
      then record { side = side; closed = []; error = none }
      else with_hook side acks answer side.hook

  abbrev pub unlocked : WorkerSide S → WorkerSide S
  unlocked side = record side { locked = false; forward_active = false }

  -- The lock is kept for a forward that is to come, and given back for an error or an idle step.
  abbrev pub leave : Bool → StepResult S → StepResult S
  leave has_forward outcome = elim outcome.error [
    | some error ↦ record {
      side = unlocked outcome.side;
      closed = outcome.closed;
      error = some error;
    }
    | none ↦
        if has_forward
        then outcome
        else record { side = unlocked outcome.side; closed = outcome.closed; error = none }
  ]

  -- `none`: the call waits for the lock.
  unfoldable pub start_load_kv :
      WorkerSide S → Bool → List Bool → Result ClientError Polled → Option (StepResult S)
  unfolding apply_worker_resizes
  start_load_kv side has_forward acks answer =
      if not side.live_resize
      then some (record { side = side; closed = []; error = none })
      else if side.locked
      then none
      else some (
          leave has_forward (
            apply_worker_resizes (record side { locked = true; forward_active = true }) acks
              answer))

  -- `wait_for_save`; `shutdown` begins with the same.
  unfoldable pub wait_for_save : WorkerSide S → WorkerSide S
  wait_for_save side = if side.forward_active then unlocked side else side
