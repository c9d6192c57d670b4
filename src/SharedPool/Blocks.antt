-- ===== src/SharedPool/Blocks.antt =====
-- `VllmElasticBlockPool` of shared_pool.py. vLLM's block pool is a parameter: a state and operations on
-- it, each of which returns the next state and whether it returned (`true`) or raised.
pub mod Laws
pub mod Invariant
pub mod Bind
pub mod Effect
pub mod Progress
pub mod Examples
use kapsl_integrations.Prelude.{
  ℕ, Bool, true, false, not, ◌||◌, Option, none, some, List, [], ◌∷◌, ◌++◌, length, any, drop,
  slice, ltb, leb, ◌==◌, Result, ok, err, raise_if, if◌then◌else◌, ◌>>=◌, ◌>>◌,
}

-- Blocks are known by their number. `is_referenced` is `ref_cnt != 0`.
pub record BlockQueue (S : Type 0) : Type 0 where
  pub is_referenced : S → ℕ → Bool
  pub is_null : S → ℕ → Bool
  pub remove : S → ℕ → S × Bool
  pub append_n : S → List ℕ → S × Bool
  pub evict : S → ℕ → S × Bool

-- vLLM's `BlockPool`: `resizable` tells that it has the queue with both operations, `evictable` that it
-- has `_maybe_evict_cached_block`.
pub record BlockPool (S : Type 0) : Type 0 where
  pub blocks : List ℕ
  pub num_gpu_blocks : ℕ
  pub resizable : Bool
  pub evictable : Bool
  pub state : S

pub record ElasticPool (S : Type 0) : Type 0 where
  pub initial_blocks : ℕ
  pub maximum_blocks : ℕ
  pub current_blocks : ℕ
  pub pool : Option (BlockPool S)

pub data PoolError : Type 0 where
  no_null_room bound_twice no_surface referenced_at_startup setup_failed setup_ambiguous : PoolError
  not_bound target_outside tail_referenced live_or_null no_eviction_seam : PoolError
  retire_rolled_back retire_ambiguous queue_raised : PoolError

-- What a call leaves behind, and the error that it raises, if any.
pub record Reply (S : Type 0) : Type 0 where
  pub elastic : ElasticPool S
  pub pool : BlockPool S
  pub error : Option PoolError

unfoldable pub create : {S : Type 0} → ℕ → ℕ → Result PoolError (ElasticPool S)
create initial_blocks maximum_blocks = do
  raise_if (leb initial_blocks 1 || ltb maximum_blocks initial_blocks) no_null_room
  ok (record {
    initial_blocks = initial_blocks;
    maximum_blocks = maximum_blocks;
    current_blocks = initial_blocks;
    pool = none;
  })

pub record Removal (S : Type 0) : Type 0 where
  pub state : S
  pub removed : List ℕ
  pub completed : Bool

module _ {S : Type 0} (queue : BlockQueue S) where
  -- `for block in blocks: queue.remove(block); removed.append(block)`
  unfoldable pub remove_all : S → List ℕ → List ℕ → Removal S
  remove_all s removed [] = record { state = s; removed = removed; completed = true }
  remove_all s removed (block ∷ rest) =
      let step = queue.remove s block in
      let later = remove_all step.0 (removed ++ block ∷ []) rest in
      if step.1 then later else record { state = step.0; removed = removed; completed = false }

  unfoldable pub evict_all : S → List ℕ → S × Bool
  evict_all s [] = (s, true)
  evict_all s (block ∷ rest) =
      let step = queue.evict s block in
      let later = evict_all step.0 rest in if step.1 then later else (step.0, false)

  abbrev pub raised : ElasticPool S → BlockPool S → PoolError → Reply S
  raised e pool error = record { elastic = e; pool = pool; error = some error }

  -- The tail of a successful call: both counts are set.
  abbrev pub at_size : ElasticPool S → BlockPool S → S → ℕ → Reply S
  at_size e pool s target =
      let sized : BlockPool S = record pool { state = s; num_gpu_blocks = target } in
      record {
        elastic = record e { current_blocks = target; pool = some sized };
        pool = sized;
        error = none;
      }

  -- The pool that `e` is bound to holds the state `s` when the call raises.
  abbrev pub raised_in : ElasticPool S → BlockPool S → S → PoolError → Reply S
  raised_in e pool s error =
      let left : BlockPool S = record pool { state = s } in
      raised (record e { pool = some left }) left error

  -- Both rollbacks put the removed blocks back.
  unfoldable pub bind_rollback : ElasticPool S → BlockPool S → Removal S → Reply S
  bind_rollback e pool removal =
      let back = queue.append_n removal.state removal.removed in
      let left : BlockPool S = record pool { state = back.0 } in
      if back.1 then raised e left setup_failed else raised e left setup_ambiguous

  -- `self._pool is not None`
  abbrev pub is_bound : Option (BlockPool S) → Bool
  is_bound none = false
  is_bound (some p) = true

  unfoldable pub bind : ElasticPool S → BlockPool S → Reply S
  unfolding bind_rollback remove_all
  bind e pool =
      let inactive = drop e.initial_blocks pool.blocks in
      let removal = remove_all pool.state [] inactive in
      let bound : BlockPool S = record pool {
        state = removal.state;
        num_gpu_blocks = e.initial_blocks;
      } in
      if is_bound e.pool
      then raised e pool bound_twice
      else if not (length pool.blocks == e.maximum_blocks)
          || not (pool.num_gpu_blocks == e.maximum_blocks)
          || not pool.resizable
      then raised e pool no_surface
      else if any (queue.is_referenced pool.state) inactive
      then raised e pool referenced_at_startup
      else if removal.completed
      then record { elastic = record e { pool = some bound }; pool = bound; error = none }
      else bind_rollback e pool removal

  unfoldable pub activate : ElasticPool S → BlockPool S → ℕ → Reply S
  activate e pool target =
      let activated = slice e.current_blocks target pool.blocks in
      let step = queue.append_n pool.state activated in
      if any (queue.is_referenced pool.state) activated
      then raised_in e pool pool.state tail_referenced
      else if step.1
      then at_size e pool step.0 target
      else raised_in e pool step.0 queue_raised

  unfoldable pub retire_rollback : ElasticPool S → BlockPool S → S → List ℕ → Reply S
  retire_rollback e pool s removed =
      let back = queue.append_n s removed in
      if back.1
      then raised_in e pool back.0 retire_rolled_back
      else raised_in e pool back.0 retire_ambiguous

  unfoldable pub retire : ElasticPool S → BlockPool S → ℕ → Reply S
  unfolding retire_rollback remove_all evict_all
  retire e pool target =
      let retired = slice target e.current_blocks pool.blocks in
      let removal = remove_all pool.state [] retired in
      let evicted = evict_all removal.state retired in
      if any (λ block. queue.is_referenced pool.state block || queue.is_null pool.state block)
        retired
      then raised_in e pool pool.state live_or_null
      else if not pool.evictable
      then raised_in e pool pool.state no_eviction_seam
      else if not removal.completed
      then retire_rollback e pool removal.state removal.removed
      else if evicted.1
      then at_size e pool evicted.0 target
      else retire_rollback e pool evicted.0 removal.removed

  -- `apply` once the pool is known to be bound.
  unfoldable pub apply_bound : ElasticPool S → BlockPool S → ℕ → Reply S
  unfolding activate retire
  apply_bound e pool target =
      if leb target 1 || ltb e.maximum_blocks target
      then raised_in e pool pool.state target_outside
      else if target == e.current_blocks
      then record { elastic = e; pool = pool; error = none }
      else if ltb e.current_blocks target
      then activate e pool target
      else retire e pool target

  -- `self._pool`, which a pool has once it is bound.
  abbrev pub apply_to : ElasticPool S → Option (BlockPool S) → ℕ → ElasticPool S × Option PoolError
  apply_to e none target = (e, some not_bound)
  apply_to e (some pool) target =
      let reply = apply_bound e pool target in (reply.elastic, reply.error)

  unfoldable pub apply : ElasticPool S → ℕ → ElasticPool S × Option PoolError
  apply e target = apply_to e e.pool target
