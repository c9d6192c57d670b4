-- ===== src/SharedPool/Worker.antt =====
-- The resize of a worker's mapping in shared_pool.py: `apply_worker_resize` of the worker hook over
-- `map_segments` and `unmap_segments` of `CudaVmmBuffer`. The import below it is an interface, with the
-- synchronisation and the count of non-zero bytes, which the conformance mode takes.
pub mod Keys
pub mod Laws
pub mod Replay
pub mod Examples
use kapsl_integrations.Prelude.{
  ℕ, ◌*◌, String, Bool, true, false, not, ◌&&◌, ◌||◌, Option, none, some, List, [], ◌∷◌, ltb, leb,
  ◌==◌, str_eq, if◌then◌else◌,
}
use kapsl_integrations.Contract.Segments.{Segment}
use kapsl_integrations.Contract.Resize.{
  Stage, map_workers, activate_scheduler, retire_scheduler, unmap_workers,
}

-- Each operation returns the next state and whether it returned (`true`) or raised.
pub record Import (S : Type 0) : Type 0 where
  pub synchronize : S → S × Bool
  pub map_segments : S → List Segment → List ℕ → S × Bool
  pub unmap_segments : S → List Segment → S × Bool
  pub verify_zero_segments : S → List Segment → S × Bool

-- What the operation of the coordinator asks of a worker, its segments in the order of the message.
pub record WorkerResize : Type 0 where
  pub binding_id : String
  pub target_block_count : ℕ
  pub bytes_per_block : ℕ
  pub stage : Stage
  pub segments : List Segment
  pub resize_generation : ℕ

pub record OperationKey : Type 0 where
  pub generation : ℕ
  pub stage : Stage
  pub target_bytes : ℕ
  pub segments : List Segment

-- The hook with its buffer; `live` tells that the buffer is a `CudaVmmBuffer`.
pub record Worker (S : Type 0) : Type 0 where
  pub binding_id : String
  pub live : Bool
  pub conformance : Bool
  pub virtual_bytes : ℕ
  pub mapped_bytes : ℕ
  pub last_worker_resize : Option OperationKey
  pub imported : S

pub data WorkerError : Type 0 where
  fixed_pool other_binding altered_replay unmap_with_handles scheduler_stage : WorkerError
  invalid_growth invalid_shrink cuda_raised not_zeroed : WorkerError

abbrev pub key_of : WorkerResize → OperationKey
key_of op = record {
  generation = op.resize_generation;
  stage = op.stage;
  target_bytes = op.target_block_count * op.bytes_per_block;
  segments = op.segments;
}

abbrev pub same_stage : Stage → Stage → Bool
same_stage map_workers map_workers = true
same_stage activate_scheduler activate_scheduler = true
same_stage retire_scheduler retire_scheduler = true
same_stage unmap_workers unmap_workers = true
same_stage _ _ = false

abbrev pub same_segment : Segment → Segment → Bool
same_segment s t =
    str_eq s.segment_id t.segment_id
    && s.offset_bytes == t.offset_bytes
    && s.length_bytes == t.length_bytes
    && s.handle_index == t.handle_index

abbrev pub same_segments : List Segment → List Segment → Bool
same_segments [] [] = true
same_segments (s ∷ ss) (t ∷ ts) = same_segment s t && same_segments ss ts
same_segments _ _ = false

abbrev pub same_key : OperationKey → OperationKey → Bool
same_key k l =
    k.generation == l.generation
    && same_stage k.stage l.stage
    && k.target_bytes == l.target_bytes
    && same_segments k.segments l.segments

-- `previous == operation_key`
abbrev pub is_replay : Option OperationKey → OperationKey → Bool
is_replay none key = false
is_replay (some previous) key = same_key previous key

-- `previous is not None and generation <= int(previous[0])`
abbrev pub is_stale : Option OperationKey → ℕ → Bool
is_stale none generation = false
is_stale (some previous) generation = leb generation previous.generation

abbrev pub has_handles : List ℕ → Bool
has_handles [] = false
has_handles (h ∷ hs) = true

module _ {S : Type 0} (cuda : Import S) where
  abbrev pub WorkerReply : Type 0
  WorkerReply = Worker S × Option WorkerError

  -- A call that raises leaves the record of the worker; only the state below it may have changed.
  abbrev pub stopped : Worker S → S → WorkerError → WorkerReply
  stopped w s error = (record w { imported = s }, some error)

  abbrev pub sized : Worker S → S → ℕ → WorkerReply
  sized w s target_bytes = (record w { imported = s; mapped_bytes = target_bytes }, none)

  -- `if self._conformance: self._verify_zero_segments(...)`
  abbrev pub verified : Worker S → S → List Segment → S × Bool
  verified w s segments = if w.conformance then cuda.verify_zero_segments s segments else (s, true)

  -- `CudaVmmBuffer.map_segments`
  unfoldable pub buffer_map : Worker S → List Segment → List ℕ → ℕ → WorkerReply
  buffer_map w segments handles target_bytes =
      let synced = cuda.synchronize w.imported in
      let mapped = cuda.map_segments synced.0 segments handles in
      let zeroed = verified w mapped.0 segments in
      if leb target_bytes w.mapped_bytes || ltb w.virtual_bytes target_bytes
      then stopped w w.imported invalid_growth
      else if not synced.1
      then stopped w synced.0 cuda_raised
      else if not mapped.1
      then stopped w mapped.0 cuda_raised
      else if not zeroed.1
      then stopped w zeroed.0 not_zeroed
      else sized w zeroed.0 target_bytes

  -- `CudaVmmBuffer.unmap_segments`
  unfoldable pub buffer_unmap : Worker S → List Segment → ℕ → WorkerReply
  buffer_unmap w segments target_bytes =
      let synced = cuda.synchronize w.imported in
      let unmapped = cuda.unmap_segments synced.0 segments in
      if target_bytes == 0 || leb w.mapped_bytes target_bytes
      then stopped w w.imported invalid_shrink
      else if not synced.1
      then stopped w synced.0 cuda_raised
      else if not unmapped.1
      then stopped w unmapped.0 cuda_raised
      else sized w unmapped.0 target_bytes

  unfoldable pub mutate : Worker S → WorkerResize → List ℕ → WorkerReply
  unfolding buffer_map buffer_unmap
  mutate w op handles =
      let grown = buffer_map w op.segments handles (op.target_block_count * op.bytes_per_block) in
      let shrunk = buffer_unmap w op.segments (op.target_block_count * op.bytes_per_block) in
      if same_stage op.stage map_workers
      then grown
      else if same_stage op.stage unmap_workers
      then (if has_handles handles then stopped w w.imported unmap_with_handles else shrunk)
      else stopped w w.imported scheduler_stage

  -- `self._last_worker_resize = operation_key`, which an error passes by.
  abbrev pub recorded : OperationKey → WorkerReply → WorkerReply
  recorded key (w, none) = (record w { last_worker_resize = some key }, none)
  recorded key (w, some error) = (w, some error)

  unfoldable pub apply_worker_resize : Worker S → WorkerResize → List ℕ → WorkerReply
  unfolding mutate
  apply_worker_resize w op handles =
      let done = recorded (key_of op) (mutate w op handles) in
      if not w.live
      then (w, some fixed_pool)
      else if not (str_eq op.binding_id w.binding_id)
      then (w, some other_binding)
      else if is_replay w.last_worker_resize (key_of op)
      then (w, none)
      else if is_stale w.last_worker_resize op.resize_generation
      then (w, some altered_replay)
      else done
