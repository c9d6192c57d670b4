-- ===== src/Connector/Resizes/Examples.antt =====
-- A run of the scheduler's resizes (connector.py): an operation is polled again before it is acknowledged.
use kapsl_integrations.Prelude.{ℕ, arith, true, false, some, List, [], ◌∷◌, ◌≤◌, refl}
use kapsl_integrations.Contract.Resize.{ResizeOperation, activate_scheduler}
use kapsl_integrations.Client.Poll.{Polled}
use kapsl_integrations.SharedPool.Blocks.{ElasticPool, apply, apply_bound, activate}
use kapsl_integrations.SharedPool.Blocks.Examples.{FreeBlocks, set_queue, bound}
use kapsl_integrations.Connector.Resizes.{
  Scheduler, Phase, idle, applying, unseen, receive_poll, begin, apply_operation, after_ack,
}
use kapsl_integrations.Connector.Resizes.Order.{
  World, polls, begins, applies, acknowledges, Moves, stay, go_on, IsOrdered,
}
use kapsl_integrations.Connector.Resizes.Order.Kept.{Moves-IsOrdered}

abbrev growth : ResizeOperation
growth = record {
  participant_epoch = 1;
  resize_generation = 3;
  binding_id = "b";
  stage = activate_scheduler;
  from_block_count = 5;
  target_block_count = 6;
  bytes_per_block = 8;
  allocation_granularity_bytes = 8;
  segments = [];
}

abbrev answer : Polled
answer = record { operations = growth ∷ []; handles = []; pending = true }

abbrev scheduler : List ResizeOperation → ℕ → ElasticPool FreeBlocks → Scheduler FreeBlocks
scheduler operations applied pool = record {
  live_resize = true;
  applied_generation = applied;
  resize_pending = true;
  operations = operations;
  pool = some pool;
}

abbrev at_start : Scheduler FreeBlocks
at_start = record (scheduler [] 0 bound) { resize_pending = false }

abbrev grown : ElasticPool FreeBlocks
grown = (apply set_queue bound 6).0

abbrev world : Scheduler FreeBlocks → Phase → ℕ → World FreeBlocks
world s phase latest = record { scheduler = s; phase = phase; latest = latest }

abbrev at_end : World FreeBlocks
at_end = world (scheduler (growth ∷ []) 3 grown) (applying []) 3

-- Polled, taken over, polled again, applied, acknowledged.
repeated : Moves set_queue (world at_start idle 0) at_end
unfolding receive_poll unseen begin apply_operation after_ack apply apply_bound activate
repeated = go_on (polls at_start idle 0 answer (omega arith, tt)) (
    go_on (begins (scheduler (growth ∷ []) 0 bound) idle 0 refl) (
      go_on (polls (scheduler [] 0 bound) (applying (growth ∷ [])) 0 answer (omega arith, tt)) (
        go_on (applies (scheduler (growth ∷ []) 0 bound) growth [] 0)
          (go_on (acknowledges (scheduler (growth ∷ []) 0 grown) growth [] 3 true) (stay at_end)))))

start-IsOrdered : IsOrdered (world at_start idle 0)
start-IsOrdered = record { at = tt; applied = omega arith; current = tt }

Moves-IsOrdered_example : IsOrdered at_end × ((0 ≤ 3) × (0 ≤ 3))
Moves-IsOrdered_example = Moves-IsOrdered set_queue repeated start-IsOrdered
