-- ===== src/SharedPool/Blocks/Invariant.antt =====
-- The invariant of a bound pool, and `bind`, which establishes it.
use kapsl_integrations.Prelude.{
  ℕ, ◌≤◌, ◌<◌, ◌≡◌, Bool, false, ◌&&◌, ◌||◌, Option, none, some, leb, ltb,
}
use kapsl_integrations.Prelude.Sorting.{range}
use kapsl_integrations.SharedPool.Blocks.{BlockQueue, BlockPool, ElasticPool, PoolError}
use kapsl_integrations.SharedPool.Blocks.Laws.{Lawful}

module _ {S : Type 0} {queue : BlockQueue S} (lawful : Lawful queue) where
  -- Block `i` of vLLM's list is number `i`. No block at or past the current size is free.
  pub record IsConsistent (e : ElasticPool S) (pool : BlockPool S) : Type 0 where
    pub bound : e.pool ≡ some pool
    pub room : 1 < e.current_blocks
    pub fits : e.current_blocks ≤ e.maximum_blocks
    pub numbered : pool.blocks ≡ range 0 e.maximum_blocks
    pub counted : pool.num_gpu_blocks ≡ e.current_blocks
    pub idle : (x : ℕ) → (leb e.current_blocks x && lawful.is_free pool.state x) ≡ false

  -- The free blocks after a resize: below the target, those that were free and those past the old size.
  abbrev pub resized_free : ElasticPool S → BlockPool S → ℕ → ℕ → Bool
  resized_free e pool target x =
      ltb x target && (lawful.is_free pool.state x || leb e.current_blocks x)

  -- What a resize of a consistent pool to `target` may leave and raise: the new size, the old pool, or,
  -- where vLLM's queue raised and nothing could be put back, an error that says so.
  pub data Outcome (e : ElasticPool S) (pool : BlockPool S) (target : ℕ)
      : ElasticPool S → Option PoolError → Type 0 where
    resized :
        {e' : ElasticPool S} (pool' : BlockPool S)
        → IsConsistent e' pool'
        → e'.current_blocks ≡ target
        → ((x : ℕ) → lawful.is_free pool'.state x ≡ resized_free e pool target x)
        → Outcome e pool target e' none
    unchanged :
        {e' : ElasticPool S} {error : PoolError} (pool' : BlockPool S)
        → IsConsistent e' pool'
        → e'.current_blocks ≡ e.current_blocks
        → ((x : ℕ) → lawful.is_free pool'.state x ≡ lawful.is_free pool.state x)
        → Outcome e pool target e' (some error)
    unsure_growth : {e' : ElasticPool S} → Outcome e pool target e' (some PoolError.queue_raised)
    unsure_shrink :
        {e' : ElasticPool S} → Outcome e pool target e' (some PoolError.retire_ambiguous)
