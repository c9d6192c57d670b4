-- ===== src/SharedPool/Blocks/Progress.antt =====
-- `apply` gets there: when vLLM's operations return, a resize within capacity of an idle tail succeeds.
use kapsl_integrations.Prelude.{
  ℕ, zero, suc, ◌≤◌, ◌<◌, ◌≡◌, refl, sym, ap, subst, Bool, true, false, not, ◌&&◌, ◌||◌, Option,
  none, List, [], ◌∷◌, ◌++◌, arith, leb, ltb, ◌==◌, ==_iff, slice, drop, any, ◌∙◌, Bool-cases, inl,
  inr, min, max,
}
use kapsl_integrations.Prelude.Sorting.{range, distinct}
use kapsl_integrations.SharedPool.Blocks.{
  BlockQueue, BlockPool, ElasticPool, PoolError, activate, retire, apply_bound, apply, apply_to,
  remove_all, evict_all,
}
use kapsl_integrations.SharedPool.Blocks.Laws.{
  Lawful, among, among-slice, among-drop-range, take-range, remove_all-step,
}
use kapsl_integrations.SharedPool.Blocks.Invariant.{
  IsConsistent, Outcome, resized, unchanged, unsure_growth, unsure_shrink,
}
use kapsl_integrations.SharedPool.Blocks.Effect.{apply-Outcome}

pub record Reliable {S : Type 0} {queue : BlockQueue S} (lawful : Lawful queue) : Type 0 where
  pub remove_returns : (s : S) (b : ℕ) → lawful.is_free s b ≡ true → (queue.remove s b).1 ≡ true
  pub append_returns : (s : S) (bs : List ℕ) → (queue.append_n s bs).1 ≡ true
  pub evict_returns : (s : S) (b : ℕ) → (queue.evict s b).1 ≡ true

any-false :
    (p : ℕ → Bool) (bs : List ℕ) → ((x : ℕ) → (among bs x && p x) ≡ false) → any p bs ≡ false
any-false p [] h = refl
any-false p (b ∷ bs) h =
    let here : p b ≡ false = (let i = h b in ground arith) in
    let later : any p bs ≡ false = any-false p bs (λ x. let i = h x in ground arith) in
    rw (here, later) refl

distinct-range : (start n : ℕ) → distinct ◌==◌ (range start n) ≡ true
distinct-range start zero = refl
distinct-range start (suc n) =
    ground (arith, among-drop-range (suc start) 0 n start, distinct-range (suc start) n)

distinct-drop : (k : ℕ) (bs : List ℕ) → distinct ◌==◌ bs ≡ true → distinct ◌==◌ (drop k bs) ≡ true
distinct-drop zero bs h = h
distinct-drop (suc k) [] h = refl
distinct-drop (suc k) (b ∷ bs) h = distinct-drop k bs (ground arith)

distinct-slice : (from to n : ℕ) → to ≤ n → distinct ◌==◌ (slice from to (range 0 n)) ≡ true
distinct-slice from to n h =
    ap (λ l. distinct ◌==◌ (drop from l)) (take-range 0 to n h)
    ∙ distinct-drop from (range 0 to) (distinct-range 0 to)

module _ {S : Type 0} {queue : BlockQueue S} (lawful : Lawful queue)
    (reliable : Reliable lawful) where
  remove_all-completes :
      (s : S) (removed bs : List ℕ)
      → distinct ◌==◌ bs ≡ true
      → ((x : ℕ) → (among bs x && not (lawful.is_free s x)) ≡ false)
      → (remove_all queue s removed bs).completed ≡ true
  unfolding remove_all
  remove_all-completes s removed [] d h = refl
  remove_all-completes s removed (b ∷ bs) d h =
      let free : lawful.is_free s b ≡ true = (let i = h b in ground arith) in
      let taken = reliable.remove_returns s b free in
      ap (λ r. r.completed) (remove_all-step queue lawful s removed b bs taken)
      ∙ remove_all-completes (queue.remove s b).0 (removed ++ b ∷ []) bs (ground arith) λ x.
        ap (λ f. among bs x && not f) (lawful.remove_takes s b x taken)
        ∙ other (lawful.is_free s x) b bs x d (h x)
    where
      other :
          (f : Bool) (b : ℕ) (bs : List ℕ) (x : ℕ)
          → distinct ◌==◌ (b ∷ bs) ≡ true
          → (among (b ∷ bs) x && not f) ≡ false
          → (among bs x && not (f && not (b == x))) ≡ false
      other f b bs x d h = elim (Bool-cases (b == x)) [
        | inl same ↦
            let gone : among bs x ≡ false =
              subst (λ y. among bs y ≡ false) ((==_iff b x).0 same) (ground arith) in
            ap (λ a. a && not (f && not (b == x))) gone
        | inr differ ↦ ground arith
      ]

  evict_all-returns : (s : S) (bs : List ℕ) → (evict_all queue s bs).1 ≡ true
  unfolding evict_all
  evict_all-returns s [] = refl
  evict_all-returns s (b ∷ bs) =
      rw (reliable.evict_returns s b) (evict_all-returns (queue.evict s b).0 bs)

  module _ (e : ElasticPool S) (pool : BlockPool S) (target : ℕ)
      (h : IsConsistent lawful e pool) where
    among-blocks :
        (from to x : ℕ)
        → to ≤ e.maximum_blocks
        → among (slice from to pool.blocks) x ≡ (leb from x && ltb x to)
    among-blocks from to x fits =
        ap (λ l. among (slice from to l) x) h.numbered ∙ among-slice from to e.maximum_blocks x fits

    any_blocks-false :
        (p : ℕ → Bool) (from to : ℕ)
        → to ≤ e.maximum_blocks
        → ((x : ℕ) → (leb from x && ltb x to && p x) ≡ false)
        → any p (slice from to pool.blocks) ≡ false
    any_blocks-false p from to fits idle =
        any-false p (slice from to pool.blocks)
          λ x. ap (λ a. a && p x) (among-blocks from to x fits) ∙ (let i = idle x in ground arith)

    activate-returns :
        target ≤ e.maximum_blocks
        → ((x : ℕ)
            → (leb e.current_blocks x && ltb x target && queue.is_referenced pool.state x) ≡ false)
        → (activate queue e pool target).error ≡ none
    unfolding activate
    activate-returns fits idle =
        rw
          (
            any_blocks-false (queue.is_referenced pool.state) e.current_blocks target fits idle,
            reliable.append_returns pool.state (slice e.current_blocks target pool.blocks),
          )
          refl

    retire-returns :
        pool.evictable ≡ true
        → ((x : ℕ)
            → (leb target x
                && ltb x e.current_blocks
                && (queue.is_referenced pool.state x || queue.is_null pool.state x))
              ≡ false)
        → ((x : ℕ)
            → (leb target x && ltb x e.current_blocks && not (lawful.is_free pool.state x)) ≡ false)
        → (retire queue e pool target).error ≡ none
    unfolding retire
    retire-returns evictable idle free =
        let retired = slice target e.current_blocks pool.blocks in
        rw
          (
            any_blocks-false (λ b. queue.is_referenced pool.state b || queue.is_null pool.state b)
                target e.current_blocks h.fits idle,
            evictable,
            remove_all-completes pool.state [] retired
                (ap (λ l. distinct ◌==◌ (slice target e.current_blocks l)) h.numbered
                  ∙ distinct-slice target e.current_blocks e.maximum_blocks h.fits)
                (λ x.
                  ap (λ a. a && not (lawful.is_free pool.state x))
                    (among-blocks target e.current_blocks x h.fits)
                  ∙ (let f = free x in ground arith)),
            evict_all-returns (remove_all queue pool.state [] retired).state retired,
          )
          refl

    apply_bound-returns :
        1 < target
        → target ≤ e.maximum_blocks
        → pool.evictable ≡ true
        → ((x : ℕ)
            → (leb (min target e.current_blocks) x
                && ltb x (max target e.current_blocks)
                && (queue.is_referenced pool.state x || queue.is_null pool.state x))
              ≡ false)
        → ((x : ℕ)
            → (leb target x && ltb x e.current_blocks && not (lawful.is_free pool.state x)) ≡ false)
        → (apply_bound queue e pool target).error ≡ none
    unfolding apply_bound
    apply_bound-returns room fits evictable idle free =
        let inside : (leb target 1 || ltb e.maximum_blocks target) ≡ false = ground arith in
        elim (Bool-cases (target == e.current_blocks)) [
          | inl same ↦ rw (inside, same) refl
          | inr differ ↦ elim (Bool-cases (ltb e.current_blocks target)) [
            | inl grows ↦
                rw (inside, differ, grows)
                  (activate-returns fits λ x. let i = idle x in ground arith)
            | inr shrinks ↦
                rw (inside, differ, shrinks)
                  (retire-returns evictable (λ x. let i = idle x in ground arith) free)
          ]
        ]

reached :
    {S : Type 0} {queue : BlockQueue S} {lawful : Lawful queue} {e : ElasticPool S}
    {pool : BlockPool S} {target : ℕ} {e' : ElasticPool S} {error : Option PoolError}
    → error ≡ none
    → Outcome lawful e pool target e' error
    → e'.current_blocks ≡ target
reached none_raised (resized pool' consistent at free) = at
reached none_raised (unchanged pool' consistent same free) = cc
reached none_raised unsure_growth = cc
reached none_raised unsure_shrink = cc

-- Over a queue whose operations return, `apply` within capacity raises nothing and reaches its target,
-- when no block between the two sizes is in use or null, and the blocks to retire are free.
pub apply-returns :
    {S : Type 0} {queue : BlockQueue S} (lawful : Lawful queue) (e : ElasticPool S)
    (pool : BlockPool S) (target : ℕ)
    → Reliable lawful
    → IsConsistent lawful e pool
    → 1 < target
    → target ≤ e.maximum_blocks
    → pool.evictable ≡ true
    → ((x : ℕ)
        → (leb (min target e.current_blocks) x
            && ltb x (max target e.current_blocks)
            && (queue.is_referenced pool.state x || queue.is_null pool.state x))
          ≡ false)
    → ((x : ℕ)
        → (leb target x && ltb x e.current_blocks && not (lawful.is_free pool.state x)) ≡ false)
    → ((apply queue e target).1 ≡ none) × ((apply queue e target).0.current_blocks ≡ target)
unfolding apply
apply-returns {S} {queue} lawful e pool target reliable h room fits evictable idle free =
    let returns : (apply queue e target).1 ≡ none =
      subst (λ p. (apply_to queue e p target).1 ≡ none) (sym h.bound)
        (apply_bound-returns lawful reliable e pool target h room fits evictable idle free) in
    (returns, reached returns (apply-Outcome lawful e pool target h))
