-- ===== src/SharedPool/Worker/Examples.antt =====
-- A worker over a driver that counts its calls: growth, a replay, a stale message.
use kapsl_integrations.Prelude.{ℕ, suc, ◌≡◌, refl, true, none, some, [], ◌∷◌, arith}
use kapsl_integrations.Contract.Resize.{map_workers}
use kapsl_integrations.SharedPool.Worker.{
  Import, WorkerResize, Worker, key_of, altered_replay, buffer_map, buffer_unmap, mutate,
  apply_worker_resize,
}
use kapsl_integrations.SharedPool.Worker.Laws.{IsMapped, Effect, apply_worker_resize-Effect}
use kapsl_integrations.SharedPool.Worker.Replay.{
  run, Advances, apply_worker_resize-replay, run-Advances,
}

abbrev pub counting : Import ℕ
counting = record {
  synchronize = λ s. (suc s, true);
  map_segments = λ s segments handles. (suc s, true);
  unmap_segments = λ s segments. (suc s, true);
  verify_zero_segments = λ s segments. (suc s, true);
}

abbrev pub idle_worker : Worker ℕ
idle_worker = record {
  binding_id = "b";
  live = true;
  conformance = true;
  virtual_bytes = 160;
  mapped_bytes = 32;
  last_worker_resize = none;
  imported = 0;
}

abbrev growth : ℕ → WorkerResize
growth generation = record {
  binding_id = "b";
  target_block_count = 10;
  bytes_per_block = 8;
  stage = map_workers;
  segments =
      record { segment_id = "s"; offset_bytes = 32; length_bytes = 48; handle_index = 0 } ∷ [];
  resize_generation = generation;
}

-- Three calls of the driver.
abbrev grown_worker : Worker ℕ
grown_worker = record idle_worker {
  mapped_bytes = 80;
  last_worker_resize = some (key_of (growth 2));
  imported = 3;
}

idle_worker-IsMapped : IsMapped idle_worker
idle_worker-IsMapped = record { positive = omega arith; fits = omega arith }

grows : apply_worker_resize counting idle_worker (growth 2) (7 ∷ []) ≡ (grown_worker, none)
unfolding apply_worker_resize mutate buffer_map buffer_unmap
grows = refl

stale_refused :
    apply_worker_resize counting grown_worker (growth 1) (7 ∷ [])
    ≡ (grown_worker, some altered_replay)
unfolding apply_worker_resize mutate buffer_map buffer_unmap
stale_refused = refl

apply_worker_resize-Effect_example :
    Effect counting idle_worker
      (growth 2)
      (apply_worker_resize counting idle_worker (growth 2) (7 ∷ []))
apply_worker_resize-Effect_example =
    apply_worker_resize-Effect counting idle_worker (growth 2) (7 ∷ []) idle_worker-IsMapped

apply_worker_resize-replay_example :
    apply_worker_resize counting grown_worker (growth 2) [] ≡ (grown_worker, none)
apply_worker_resize-replay_example =
    apply_worker_resize-replay counting idle_worker grown_worker (growth 2) (7 ∷ []) []
      idle_worker-IsMapped grows

run-Advances_example :
    Advances counting idle_worker
      (run counting idle_worker ((growth 2, 7 ∷ []) ∷ (growth 1, []) ∷ []))
run-Advances_example =
    run-Advances counting idle_worker ((growth 2, 7 ∷ []) ∷ (growth 1, []) ∷ [])
      idle_worker-IsMapped
