-- ===== src/Connector/Resizes/Target.antt =====
-- The size of the elastic pool of shared_pool.py after a resize that returns, for the scheduler of
-- connector.py.
use kapsl_integrations.Prelude.{
  ℕ, Bool, true, false, not, ◌||◌, Option, none, some, List, [], leb, ltb, ◌==◌, ==_iff, any, slice,
  if◌then◌else◌, ◌≡◌, refl, sym,
}
use kapsl_integrations.SharedPool.Blocks.{
  BlockQueue, BlockPool, ElasticPool, PoolError, Reply, raised, activate, retire, retire_rollback,
  remove_all, evict_all, apply_bound, apply_to, apply,
}

module _ {S : Type 0} (queue : BlockQueue S) (target : ℕ) where
  -- A call that returned has set the size.
  record IsSized (r : Reply S) : Type 0 where
    pub at : r.error ≡ none → r.elastic.current_blocks ≡ target

  IsSized-if :
      (b : Bool) (r r' : Reply S)
      → (b ≡ true → IsSized r)
      → (b ≡ false → IsSized r')
      → IsSized (if b then r else r')
  IsSized-if true r r' k k' = k refl
  IsSized-if false r r' k k' = k' refl

  IsSized-raised :
      (e : ElasticPool S) (pool : BlockPool S) (error : PoolError)
      → IsSized (raised queue e pool error)
  IsSized-raised e pool error = record { at = λ h. cc }

  IsSized-activate :
      (e : ElasticPool S) (pool : BlockPool S) → IsSized (activate queue e pool target)
  unfolding activate
  IsSized-activate e pool =
      IsSized-if (any (queue.is_referenced pool.state) (slice e.current_blocks target pool.blocks))
        _ _ (λ _. IsSized-raised _ _ _)
        (λ _.
          IsSized-if (queue.append_n pool.state (slice e.current_blocks target pool.blocks)).1 _ _
            (λ _. record { at = λ h. refl }) (λ _. IsSized-raised _ _ _))

  IsSized-rollback :
      (e : ElasticPool S) (pool : BlockPool S) (s : S) (removed : List ℕ)
      → IsSized (retire_rollback queue e pool s removed)
  unfolding retire_rollback
  IsSized-rollback e pool s removed =
      IsSized-if (queue.append_n s removed).1 _ _ (λ _. IsSized-raised _ _ _)
        (λ _. IsSized-raised _ _ _)

  IsSized-retire : (e : ElasticPool S) (pool : BlockPool S) → IsSized (retire queue e pool target)
  unfolding retire
  IsSized-retire e pool =
      let retired = slice target e.current_blocks pool.blocks in
      let removal = remove_all queue pool.state [] retired in
      IsSized-if
        (any (λ block. queue.is_referenced pool.state block || queue.is_null pool.state block)
          retired)
        _ _ (λ _. IsSized-raised _ _ _)
        (λ _.
          IsSized-if (not pool.evictable) _ _ (λ _. IsSized-raised _ _ _)
            (λ _.
              IsSized-if (not removal.completed) _ _
                (λ _. IsSized-rollback e pool removal.state removal.removed)
                (λ _.
                  IsSized-if (evict_all queue removal.state retired).1 _ _
                    (λ _. record { at = λ h. refl })
                    (λ _.
                      IsSized-rollback e pool (evict_all queue removal.state retired).0
                        removal.removed))))

  IsSized-apply_bound :
      (e : ElasticPool S) (pool : BlockPool S) → IsSized (apply_bound queue e pool target)
  unfolding apply_bound
  IsSized-apply_bound e pool =
      IsSized-if (leb target 1 || ltb e.maximum_blocks target) _ _ (λ _. IsSized-raised _ _ _)
        (λ _.
          IsSized-if (target == e.current_blocks) _ _
            (λ h. record { at = λ _. sym ((==_iff target e.current_blocks).0 h) })
            (λ _.
              IsSized-if (ltb e.current_blocks target) _ _ (λ _. IsSized-activate e pool)
                (λ _. IsSized-retire e pool)))

  pub apply-sized :
      (e : ElasticPool S)
      → (apply queue e target).1 ≡ none
      → (apply queue e target).0.current_blocks ≡ target
  unfolding apply
  apply-sized e = go e.pool
    where
      go :
          (o : Option (BlockPool S))
          → (apply_to queue e o target).1 ≡ none
          → (apply_to queue e o target).0.current_blocks ≡ target
      go none h = cc
      go (some pool) h = (IsSized-apply_bound e pool).at h
