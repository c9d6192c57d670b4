-- ===== src/SharedPool/Blocks/Bind.antt =====
-- `__init__` and `bind` establish the invariant.
use kapsl_integrations.Prelude.{
  ℕ, ◌≤◌, ◌<◌, ◌≡◌, refl, sym, ap, Bool, true, false, not, ◌&&◌, ◌||◌, none, some, List, [], ok,
  arith, leb, ltb, ◌==◌, drop, any, length, ◌∙◌, if◌then◌else◌, Ensures, Ensures-ok,
  Ensures-raise_if,
}
use kapsl_integrations.Prelude.Sorting.{range}
use kapsl_integrations.SharedPool.Blocks.{
  BlockQueue, BlockPool, ElasticPool, PoolError, Reply, setup_ambiguous, create, bind,
  bind_rollback, remove_all, raised, is_bound,
}
use kapsl_integrations.SharedPool.Blocks.Laws.{
  Lawful, among, among-drop, remove_all-moves, remove_all-takes,
}
use kapsl_integrations.SharedPool.Blocks.Invariant.{IsConsistent}

pub record IsFresh {S : Type 0} (e : ElasticPool S) : Type 0 where
  pub room : 1 < e.current_blocks
  pub fits : e.current_blocks ≤ e.maximum_blocks
  pub initial : e.current_blocks ≡ e.initial_blocks

create-Ensures :
    {S : Type 0} (initial maximum : ℕ) → Ensures (IsFresh {S = S}) (create initial maximum)
unfolding create
create-Ensures initial maximum =
    Ensures-raise_if (leb initial 1 || ltb maximum initial) _ _
      λ inside. Ensures-ok _ (record { room = ground arith; fits = ground arith; initial = refl })

module _ {S : Type 0} {queue : BlockQueue S} (lawful : Lawful queue) (e : ElasticPool S)
    (pool : BlockPool S) where
  -- What `bind` may leave and raise.
  pub data Binding : Reply S → Type 0 where
    consistent : {r : Reply S} → IsConsistent lawful r.elastic r.pool → r.error ≡ none → Binding r
    unbound :
        {r : Reply S} {error : PoolError}
        → r.elastic ≡ e
        → r.pool.num_gpu_blocks ≡ pool.num_gpu_blocks
        → ((x : ℕ) → lawful.is_free r.pool.state x ≡ lawful.is_free pool.state x)
        → r.error ≡ some error
        → Binding r
    ambiguous : {r : Reply S} → r.elastic ≡ e → r.error ≡ some setup_ambiguous → Binding r

  Binding-if :
      (b : Bool) (r r' : Reply S)
      → (b ≡ true → Binding r)
      → (b ≡ false → Binding r')
      → Binding (if b then r else r')
  Binding-if true r r' k k' = k refl
  Binding-if false r r' k k' = k' refl

  Binding-raised : (error : PoolError) → Binding (raised queue e pool error)
  Binding-raised error = unbound refl refl (λ x. refl) refl

  bind_rollback-Binding :
      (bs : List ℕ) → Binding (bind_rollback queue e pool (remove_all queue pool.state [] bs))
  unfolding bind_rollback
  bind_rollback-Binding bs =
      let removal = remove_all queue pool.state [] bs in
      Binding-if (queue.append_n removal.state removal.removed).1 _ _
        (λ back.
          unbound refl refl
            (λ x.
              lawful.append_adds removal.state removal.removed x back
              ∙ remove_all-moves queue lawful pool.state [] bs x
              ∙ ground arith)
            refl)
        λ _. ambiguous refl refl

  bind-Binding_fresh :
      IsFresh e
      → pool.blocks ≡ range 0 (length pool.blocks)
      → ((x : ℕ) → (leb (length pool.blocks) x && lawful.is_free pool.state x) ≡ false)
      → Binding (bind queue e pool)
  unfolding bind
  bind-Binding_fresh fresh numbered inside =
      let inactive = drop e.initial_blocks pool.blocks in
      Binding-if (is_bound queue e.pool) _ _ (λ _. Binding-raised _)
        λ _.
          Binding-if
            (not (length pool.blocks == e.maximum_blocks)
              || not (pool.num_gpu_blocks == e.maximum_blocks)
              || not pool.resizable)
            _ _ (λ _. Binding-raised _)
            λ surface.
              Binding-if (any (queue.is_referenced pool.state) inactive) _ _ (λ _. Binding-raised _)
                λ idle.
                  Binding-if (remove_all queue pool.state [] inactive).completed _ _
                    (λ completed.
                      let whole : length pool.blocks ≡ e.maximum_blocks = ground arith in
                      consistent
                        (record {
                          bound = refl;
                          room = fresh.room;
                          fits = fresh.fits;
                          numbered = numbered ∙ ap (range 0) whole;
                          counted = sym fresh.initial;
                          idle = λ x.
                              ap (λ f. leb e.current_blocks x && f)
                                (remove_all-takes queue lawful pool.state [] inactive x completed
                                  ∙ ap (λ a. lawful.is_free pool.state x && not a)
                                      (ap (λ l. among (drop e.initial_blocks l) x) numbered
                                        ∙ among-drop e.initial_blocks (length pool.blocks) x))
                              ∙ (let i = inside x in let f = fresh.initial in ground arith);
                        })
                        refl)
                    λ _. bind_rollback-Binding inactive

-- Of a new pool, `bind` to vLLM's pool of numbered blocks, whose queue holds no other block, makes it
-- consistent, or raises and leaves both counts and the free blocks as they were, or says that its
-- rollback failed.
pub bind-Binding :
    {S : Type 0} {queue : BlockQueue S} (lawful : Lawful queue) (initial maximum : ℕ)
    (e : ElasticPool S) (pool : BlockPool S)
    → create initial maximum ≡ ok e
    → pool.blocks ≡ range 0 (length pool.blocks)
    → ((x : ℕ) → (leb (length pool.blocks) x && lawful.is_free pool.state x) ≡ false)
    → Binding lawful e pool (bind queue e pool)
bind-Binding lawful initial maximum e pool created =
    bind-Binding_fresh lawful e pool ((create-Ensures initial maximum).at e created)
