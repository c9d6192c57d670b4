-- ===== src/Connector/Resizes.antt =====
-- Live resizing on the scheduler's side of connector.py: `_poll_scheduler_resizes`, which the heartbeat
-- thread calls, `_apply_scheduler_resizes`, which the scheduler's thread calls, `bind_gpu_block_pool` and
-- `has_pending_push_work`.
pub mod Target
pub mod Order
pub mod Examples
use kapsl_integrations.Prelude.{
  ℕ, max, Bool, true, false, not, ◌&&◌, ◌||◌, Option, none, some, List, [], ◌∷◌, ◌++◌, ltb, ◌==◌,
  if◌then◌else◌,
}
use kapsl_integrations.Prelude.Sorting.{contains}
use kapsl_integrations.Contract.Resize.{
  ResizeOperation, Stage, map_workers, activate_scheduler, retire_scheduler, unmap_workers,
}
use kapsl_integrations.Client.Poll.{Polled}
use kapsl_integrations.SharedPool.Blocks as Blocks
use kapsl_integrations.SharedPool.Blocks.{BlockQueue, BlockPool, ElasticPool, PoolError}

pub record Scheduler (S : Type 0) : Type 0 where
  pub live_resize : Bool
  pub applied_generation : ℕ
  pub resize_pending : Bool
  pub operations : List ResizeOperation
  pub pool : Option (ElasticPool S)

pub data ResizeError : Type 0 where
  handles_received no_pool worker_stage not_acknowledged : ResizeError
  refused : PoolError → ResizeError

-- Where the scheduler's thread stands. `acking`: the operation is applied and its acknowledgement is on
-- its way.
pub data Phase : Type 0 where
  idle : Phase
  applying : List ResizeOperation → Phase
  acking : ResizeOperation → List ResizeOperation → Phase
  raised : ResizeError → Phase

abbrev pub generations : List ResizeOperation → List ℕ
generations [] = []
generations (o ∷ os) = o.resize_generation ∷ generations os

-- The operations of an answer that are newer than the applied one and not known.
unfoldable pub unseen : ℕ → List ℕ → List ResizeOperation → List ResizeOperation
unseen applied known [] = []
unseen applied known (o ∷ os) =
    let later = unseen applied known os in
    if ltb applied o.resize_generation && not (contains ◌==◌ known o.resize_generation)
    then o ∷ later
    else later

abbrev pub is_scheduler_stage : Stage → Bool
is_scheduler_stage activate_scheduler = true
is_scheduler_stage retire_scheduler = true
is_scheduler_stage _ = false

-- What is done with an answer to a poll, under the lock; the handles are closed in any case.
abbrev pub with_handles :
    {S : Type 0} → Scheduler S → Polled → List ℕ → Scheduler S × Option ResizeError
with_handles s p (handle ∷ handles) = (s, some handles_received)
with_handles s p [] = (
  record s {
    operations =
        s.operations ++ unseen s.applied_generation (generations s.operations) p.operations;
    resize_pending = p.pending;
  },
  none,
)

unfoldable pub receive_poll : {S : Type 0} → Scheduler S → Polled → Scheduler S × Option ResizeError
unfolding unseen
receive_poll s p = with_handles s p p.handles

-- `_apply_scheduler_resizes` up to the loop: the pending operations are taken over under the lock.
abbrev pub begin_with : {S : Type 0} → Scheduler S → Option (ElasticPool S) → Scheduler S × Phase
begin_with s none = (s, raised no_pool)
begin_with s (some elastic) = (record s { operations = [] }, applying s.operations)

unfoldable pub begin : {S : Type 0} → Scheduler S → Scheduler S × Phase
begin s = if not s.live_resize then (s, idle) else begin_with s s.pool

module _ {S : Type 0} (queue : BlockQueue S) where
  abbrev pub after_apply :
      Scheduler S
      → ResizeOperation
      → List ResizeOperation
      → ElasticPool S
      → Option PoolError
      → Scheduler S × Phase
  after_apply s o rest elastic (some error) =
      (record s { pool = some elastic }, raised (refused error))
  after_apply s o rest elastic none = (record s { pool = some elastic }, acking o rest)

  abbrev pub apply_in :
      Scheduler S
      → ResizeOperation
      → List ResizeOperation
      → Option (ElasticPool S)
      → Scheduler S × Phase
  apply_in s o rest none = (s, raised no_pool)
  apply_in s o rest (some elastic) =
      let applied = Blocks.apply queue elastic o.target_block_count in
      after_apply s o rest applied.0 applied.1

  -- The body of the loop up to the acknowledgement.
  unfoldable pub apply_operation :
      Scheduler S → ResizeOperation → List ResizeOperation → Scheduler S × Phase
  apply_operation s o rest =
      if not (is_scheduler_stage o.stage)
      then (s, raised worker_stage)
      else apply_in s o rest s.pool

  -- The rest of the body, with whether the coordinator took the acknowledgement.
  unfoldable pub after_ack :
      Bool → Scheduler S → ResizeOperation → List ResizeOperation → Scheduler S × Phase
  after_ack true s o rest = (
    record s { applied_generation = max s.applied_generation o.resize_generation },
    applying rest,
  )
  after_ack false s o rest = (s, raised not_acknowledged)

  abbrev pub bound_in : Scheduler S → BlockPool S → Option (ElasticPool S) → Scheduler S × Phase
  bound_in s pool none = (s, raised no_pool)
  bound_in s pool (some elastic) =
      let reply = Blocks.bind queue elastic pool in after_bind reply.elastic reply.error
    where
      after_bind : ElasticPool S → Option PoolError → Scheduler S × Phase
      after_bind elastic none = (record s { pool = some elastic }, idle)
      after_bind elastic (some error) = (record s { pool = some elastic }, raised (refused error))

  -- `bind_gpu_block_pool`, on the scheduler.
  unfoldable pub bind_gpu_block_pool : Scheduler S → BlockPool S → Scheduler S × Phase
  bind_gpu_block_pool s pool = if not s.live_resize then (s, idle) else bound_in s pool s.pool

abbrev pub has_operations : List ResizeOperation → Bool
has_operations [] = false
has_operations (o ∷ os) = true

abbrev pub above_initial : {S : Type 0} → Option (ElasticPool S) → Bool
above_initial none = false
above_initial (some elastic) = ltb elastic.initial_blocks elastic.current_blocks

unfoldable pub has_pending_push_work : {S : Type 0} → Scheduler S → Bool
has_pending_push_work s = s.resize_pending || has_operations s.operations || above_initial s.pool
