-- ===== src/Connector/Worker/Examples.antt =====
-- A step of a live worker (connector.py) that maps a segment before a forward.
use kapsl_integrations.Prelude.{ℕ, true, false, some, [], ◌∷◌, Result, ok}
use kapsl_integrations.Contract.Resize.{ResizeOperation, map_workers}
use kapsl_integrations.Client.Rpc.{ClientError}
use kapsl_integrations.Client.Poll.{Polled}
use kapsl_integrations.SharedPool.Worker.Examples.{idle_worker}
use kapsl_integrations.Connector.Worker.{WorkerSide}
use kapsl_integrations.Connector.Worker.Resized.{Resized}

abbrev growth : ResizeOperation
growth = record {
  participant_epoch = 1;
  resize_generation = 2;
  binding_id = "b";
  stage = map_workers;
  from_block_count = 4;
  target_block_count = 10;
  bytes_per_block = 8;
  allocation_granularity_bytes = 16;
  segments =
      record { segment_id = "s"; offset_bytes = 32; length_bytes = 48; handle_index = 0 } ∷ [];
}

abbrev side : WorkerSide ℕ
side = record {
  live_resize = true;
  ready = true;
  hook = some idle_worker;
  applied_generation = 0;
  locked = false;
  forward_active = false;
}

abbrev answer : Result ClientError Polled
answer = ok (record { operations = growth ∷ []; handles = 7 ∷ []; pending = true })
