-- ===== src/Connector/Worker/Fence.antt =====
-- The forward lock of a worker in connector.py, which keeps a resize out of a model forward.
use kapsl_integrations.Prelude.{
  Bool, true, false, ◌&&◌, Option, none, some, List, Result, if◌then◌else◌, ◌≡◌, refl, sym,
}
use kapsl_integrations.Client.Rpc.{ClientError}
use kapsl_integrations.Client.Poll.{Polled}
use kapsl_integrations.SharedPool.Worker as Hook
use kapsl_integrations.SharedPool.Worker.{Import}
use kapsl_integrations.Connector.Worker.Resized.{Resized}
use kapsl_integrations.Connector.Worker.{
  WorkerSide, StepError, StepResult, unlocked, start_load_kv, wait_for_save,
}

-- The lock is held exactly while a forward is marked as active.
pub record IsFenced {S : Type 0} (side : WorkerSide S) : Type 0 where
  pub at : side.locked ≡ side.forward_active

-- The lock and its mark are as before.
record SameLock {S : Type 0} (before after : WorkerSide S) : Type 0 where
  pub locked : after.locked ≡ before.locked
  pub active : after.forward_active ≡ before.forward_active
  pub live : after.live_resize ≡ before.live_resize

module _ {S : Type 0} (cuda : Import S) where
  abbrev pub is_none : Option StepError → Bool
  is_none none = true
  is_none (some error) = false

  abbrev pub is_waiting : Option (StepResult S) → Bool
  is_waiting none = true
  is_waiting (some o) = false

  -- After a step the lock is held for the forward that is to come, and else free. While it is held, any
  -- further step waits; it is free, and a step does not wait, once that forward has ended.
  pub record Fenced (has_forward : Bool) (o : StepResult S) : Type 0 where
    pub locked : o.side.locked ≡ has_forward && is_none o.error
    pub active : o.side.forward_active ≡ o.side.locked
    pub waits :
        (forward : Bool) (acks : List Bool) (answer : Result ClientError Polled)
        → is_waiting (start_load_kv cuda o.side forward acks answer)
          ≡ has_forward && is_none o.error
    pub freed : (wait_for_save cuda o.side).locked ≡ false
    pub resumes :
        (forward : Bool) (acks : List Bool) (answer : Result ClientError Polled)
        → is_waiting (start_load_kv cuda (wait_for_save cuda o.side) forward acks answer) ≡ false

  -- The lock after a step, in whatever way it was left.
  record IsLeft (has_forward : Bool) (o : StepResult S) : Type 0 where
    pub live : o.side.live_resize ≡ true
    pub locked : o.side.locked ≡ has_forward && is_none o.error
    pub active : o.side.forward_active ≡ o.side.locked

  freed :
      (side : WorkerSide S)
      → side.forward_active ≡ side.locked
      → (wait_for_save cuda side).locked ≡ false
  unfolding wait_for_save
  freed side h = go side.forward_active h
    where
      go : (b : Bool) → b ≡ side.locked → (if b then unlocked cuda side else side).locked ≡ false
      go true e = refl
      go false e = sym e

  -- Leaving a step keeps what it did.
  record SameWork (before after : StepResult S) : Type 0 where
    pub hook : after.side.hook ≡ before.side.hook
    pub generation : after.side.applied_generation ≡ before.side.applied_generation
    pub closed : after.closed ≡ before.closed
    pub error : after.error ≡ before.error
