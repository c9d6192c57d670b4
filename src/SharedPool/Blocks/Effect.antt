-- ===== src/SharedPool/Blocks/Effect.antt =====
-- `apply` keeps the invariant on every branch but the two that leave the queue unknown.
use kapsl_integrations.Prelude.{
  ℕ, ◌≤◌, ◌<◌, ◌≡◌, refl, sym, ap, subst, Bool, true, false, not, ◌&&◌, ◌||◌, List, [], arith, leb,
  ltb, ◌==◌, slice, any, ◌∙◌, if◌then◌else◌,
}
use kapsl_integrations.SharedPool.Blocks.{
  BlockQueue, BlockPool, ElasticPool, PoolError, Reply, activate, retire, retire_rollback,
  apply_bound, apply, apply_to, remove_all, evict_all, raised_in, at_size,
}
use kapsl_integrations.SharedPool.Blocks.Laws.{
  Lawful, among, among-slice, remove_all-moves, remove_all-takes, evict_all-keeps,
}
use kapsl_integrations.SharedPool.Blocks.Invariant.{
  IsConsistent, resized_free, Outcome, resized, unchanged, unsure_growth, unsure_shrink,
}

module _ {S : Type 0} {queue : BlockQueue S} (lawful : Lawful queue) (e : ElasticPool S)
    (pool : BlockPool S) (target : ℕ) (h : IsConsistent lawful e pool) where
  record Holds (r : Reply S) : Type 0 where
    pub outcome : Outcome lawful e pool target r.elastic r.error

  Holds-if :
      (b : Bool) (r r' : Reply S)
      → (b ≡ true → Holds r)
      → (b ≡ false → Holds r')
      → Holds (if b then r else r')
  Holds-if true r r' k k' = k refl
  Holds-if false r r' k k' = k' refl

  -- The sum of the two counts is put back.
  Holds-raised_in :
      (s : S) (error : PoolError)
      → ((x : ℕ) → lawful.is_free s x ≡ lawful.is_free pool.state x)
      → Holds (raised_in queue e pool s error)
  Holds-raised_in s error same = record {
    outcome =
        unchanged (record pool { state = s })
          (record {
            bound = refl;
            room = h.room;
            fits = h.fits;
            numbered = h.numbered;
            counted = h.counted;
            idle = λ x. ap (λ f. leb e.current_blocks x && f) (same x) ∙ h.idle x;
          })
          refl same;
  }

  Holds-at_size :
      (s : S)
      → 1 < target
      → target ≤ e.maximum_blocks
      → ((x : ℕ) → lawful.is_free s x ≡ resized_free lawful e pool target x)
      → Holds (at_size queue e pool s target)
  Holds-at_size s room fits free = record {
    outcome =
        resized (record pool { state = s; num_gpu_blocks = target })
          (record {
            bound = refl;
            room = room;
            fits = fits;
            numbered = h.numbered;
            counted = refl;
            idle = λ x. ap (λ f. leb target x && f) (free x) ∙ ground arith;
          })
          refl free;
  }

  among-blocks :
      (from to x : ℕ)
      → to ≤ e.maximum_blocks
      → among (slice from to pool.blocks) x ≡ (leb from x && ltb x to)
  among-blocks from to x fits =
      ap (λ l. among (slice from to l) x) h.numbered ∙ among-slice from to e.maximum_blocks x fits

  activate-Holds :
      1 < target
      → target ≤ e.maximum_blocks
      → e.current_blocks < target
      → Holds (activate queue e pool target)
  unfolding activate
  activate-Holds room fits grows =
      let activated = slice e.current_blocks target pool.blocks in
      Holds-if (any (queue.is_referenced pool.state) activated) _ _
        (λ _. Holds-raised_in pool.state _ λ x. refl)
        λ _.
          Holds-if (queue.append_n pool.state activated).1 _ _
            (λ done. Holds-at_size _ room fits λ x.
              lawful.append_adds pool.state activated x done
              ∙ ap (λ a. lawful.is_free pool.state x || a)
                  (among-blocks e.current_blocks target x fits)
              ∙ (let i = h.idle x in ground arith))
            λ _. record { outcome = unsure_growth }

  retire_rollback-Holds :
      (s : S) (removed : List ℕ)
      → ((x : ℕ) → (lawful.is_free s x || among removed x) ≡ lawful.is_free pool.state x)
      → Holds (retire_rollback queue e pool s removed)
  unfolding retire_rollback
  retire_rollback-Holds s removed together =
      Holds-if (queue.append_n s removed).1 _ _
        (λ back. Holds-raised_in _ _ λ x. lawful.append_adds s removed x back ∙ together x)
        λ _. record { outcome = unsure_shrink }

  -- Nothing is lost while blocks are removed from the queue.
  remove_all-all :
      (bs : List ℕ) (x : ℕ)
      → (lawful.is_free (remove_all queue pool.state [] bs).state x
          || among (remove_all queue pool.state [] bs).removed x)
        ≡ lawful.is_free pool.state x
  remove_all-all bs x = remove_all-moves queue lawful pool.state [] bs x ∙ ground arith

  evict_all-all :
      (bs cs : List ℕ) (x : ℕ)
      → (lawful.is_free (evict_all queue (remove_all queue pool.state [] bs).state cs).0 x
          || among (remove_all queue pool.state [] bs).removed x)
        ≡ lawful.is_free pool.state x
  evict_all-all bs cs x =
      ap (λ f. f || among (remove_all queue pool.state [] bs).removed x)
        (evict_all-keeps queue lawful (remove_all queue pool.state [] bs).state cs x)
      ∙ remove_all-all bs x

  retire-Holds : 1 < target → target < e.current_blocks → Holds (retire queue e pool target)
  unfolding retire
  retire-Holds room shrinks =
      let retired = slice target e.current_blocks pool.blocks in
      let removal = remove_all queue pool.state [] retired in
      Holds-if (any (λ b. queue.is_referenced pool.state b || queue.is_null pool.state b) retired) _
        _ (λ _. Holds-raised_in pool.state _ λ x. refl)
        λ _.
          Holds-if (not pool.evictable) _ _ (λ _. Holds-raised_in pool.state _ λ x. refl)
            λ _.
              Holds-if (not removal.completed) _ _
                (λ _. retire_rollback-Holds removal.state removal.removed (remove_all-all retired))
                λ completed.
                  Holds-if (evict_all queue removal.state retired).1 _ _
                    (λ _. Holds-at_size _ room (omega (arith, h.fits)) λ x.
                      evict_all-keeps queue lawful removal.state retired x
                      ∙ remove_all-takes queue lawful pool.state [] retired x (ground arith)
                      ∙ ap (λ a. lawful.is_free pool.state x && not a)
                          (among-blocks target e.current_blocks x h.fits)
                      ∙ (let i = h.idle x in ground arith))
                    λ _. retire_rollback-Holds _ removal.removed (evict_all-all retired retired)

  apply_bound-Holds : Holds (apply_bound queue e pool target)
  unfolding apply_bound
  apply_bound-Holds =
      Holds-if (leb target 1 || ltb e.maximum_blocks target) _ _
        (λ _. Holds-raised_in pool.state _ λ x. refl)
        λ inside.
          Holds-if (target == e.current_blocks) _ _
            (λ same. record {
              outcome = resized pool h (ground arith) λ x. let i = h.idle x in ground arith;
            })
            λ other.
              Holds-if (ltb e.current_blocks target) _ _
                (λ grows. activate-Holds (ground arith) (ground arith) (ground arith))
                λ shrinks. retire-Holds (ground arith) (ground arith)

-- Whatever the target and whatever vLLM's queue does, `apply` on a consistent pool reaches the target
-- with exactly the free blocks of a resize, or raises and leaves the size, the free blocks and the
-- consistency as they were, or raises one of the two errors that say that the queue is unknown.
pub apply-Outcome :
    {S : Type 0} {queue : BlockQueue S} (lawful : Lawful queue) (e : ElasticPool S)
    (pool : BlockPool S) (target : ℕ)
    → IsConsistent lawful e pool
    → Outcome lawful e pool target (apply queue e target).0 (apply queue e target).1
unfolding apply
apply-Outcome {S} {queue} lawful e pool target h =
    subst
      (λ p.
        Outcome lawful e pool target (apply_to queue e p target).0 (apply_to queue e p target).1)
      (sym h.bound) (apply_bound-Holds lawful e pool target h).outcome
