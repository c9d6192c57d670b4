-- ===== src/SharedPool/Blocks/Examples.antt =====
-- A queue that meets its laws, and a pool of six blocks that is bound, shrunk and grown over it.
use kapsl_integrations.Prelude.{
  ℕ, ◌≡◌, refl, Bool, true, false, not, ◌&&◌, ◌||◌, none, some, ok, arith, leb, ltb, ◌==◌,
}
use kapsl_integrations.Prelude.Sorting.{range}
use kapsl_integrations.SharedPool.Blocks.{
  BlockQueue, BlockPool, ElasticPool, create, bind, apply, apply_bound, activate, retire,
  remove_all, evict_all, live_or_null,
}
use kapsl_integrations.SharedPool.Blocks.Laws.{Lawful, among}
use kapsl_integrations.SharedPool.Blocks.Invariant.{IsConsistent, Outcome}
use kapsl_integrations.SharedPool.Blocks.Bind.{Binding, bind-Binding}
use kapsl_integrations.SharedPool.Blocks.Effect.{apply-Outcome}
use kapsl_integrations.SharedPool.Blocks.Progress.{Reliable, apply-returns}

-- The free blocks as a test. Block 0 is vLLM's null block, and block 3 is in use.
abbrev pub FreeBlocks : Type 0
FreeBlocks = ℕ → Bool

abbrev take_if : Bool → FreeBlocks → FreeBlocks → FreeBlocks × Bool
take_if true s t = (t, true)
take_if false s t = (s, false)

abbrev pub set_queue : BlockQueue FreeBlocks
set_queue = record {
  is_referenced = λ s b. b == 3;
  is_null = λ s b. b == 0;
  remove = λ s b. take_if (s b) s (λ x. s x && not (b == x));
  append_n = λ s bs. (λ x. s x || among bs x, true);
  evict = λ s b. (s, true);
}

taken_free :
    (b : Bool) (s t : FreeBlocks) (x : ℕ) → (take_if b s t).1 ≡ true → (take_if b s t).0 x ≡ t x
taken_free true s t x h = refl
taken_free false s t x h = cc

kept_free :
    (b : Bool) (s t : FreeBlocks) (x : ℕ) → (take_if b s t).1 ≡ false → (take_if b s t).0 x ≡ s x
kept_free true s t x h = cc
kept_free false s t x h = refl

was_free : (b : Bool) (s t : FreeBlocks) → (take_if b s t).1 ≡ true → b ≡ true
was_free true s t h = refl
was_free false s t h = cc

abbrev set_queue_laws : Lawful set_queue
set_queue_laws = record {
  is_free = λ s x. s x;
  remove_takes = λ s b x h. taken_free (s b) s _ x h;
  remove_needs = λ s b h. was_free (s b) s _ h;
  remove_fails = λ s b x h. kept_free (s b) s _ x h;
  append_adds = λ s bs x h. refl;
  evict_keeps = λ s b x. refl;
}

abbrev free_from_one : FreeBlocks
free_from_one x = leb 1 x && ltb x 6 && not (x == 3)

abbrev six_blocks : BlockPool FreeBlocks
six_blocks = record {
  blocks = range 0 6;
  num_gpu_blocks = 6;
  resizable = true;
  evictable = true;
  state = free_from_one;
}

abbrev fresh : ElasticPool FreeBlocks
fresh = record { initial_blocks = 5; maximum_blocks = 6; current_blocks = 5; pool = none }

created : create 5 6 ≡ ok fresh
unfolding create
created = refl

six_inside : (x : ℕ) → (leb 6 x && free_from_one x) ≡ false
six_inside x = ground arith

five_idle : (x : ℕ) → (leb 5 x && (free_from_one x && not (5 == x))) ≡ false
five_idle x = ground arith

bind-Binding_example : Binding set_queue_laws fresh six_blocks (bind set_queue fresh six_blocks)
bind-Binding_example = bind-Binding set_queue_laws 5 6 fresh six_blocks created refl six_inside

abbrev bound_pool : BlockPool FreeBlocks
bound_pool = record six_blocks { num_gpu_blocks = 5; state = λ x. free_from_one x && not (5 == x) }

abbrev pub bound : ElasticPool FreeBlocks
bound = record fresh { pool = some bound_pool }

bound-IsConsistent : IsConsistent set_queue_laws bound bound_pool
bound-IsConsistent = record {
  bound = refl;
  room = omega arith;
  fits = omega arith;
  numbered = refl;
  counted = refl;
  idle = five_idle;
}

apply-Outcome_example :
    Outcome set_queue_laws bound bound_pool 4
      (apply set_queue bound 4).0
      (apply set_queue bound 4).1
apply-Outcome_example = apply-Outcome set_queue_laws bound bound_pool 4 bound-IsConsistent

returned : (b : Bool) (s t : FreeBlocks) → b ≡ true → (take_if b s t).1 ≡ true
returned true s t h = refl
returned false s t h = cc

set_queue-Reliable : Reliable set_queue_laws
set_queue-Reliable = record {
  remove_returns = λ s b h. returned (s b) s _ h;
  append_returns = λ s bs. refl;
  evict_returns = λ s b. refl;
}

four_idle : (x : ℕ) → (leb 4 x && ltb x 5 && (x == 3 || x == 0)) ≡ false
four_idle x = ground arith

four_free : (x : ℕ) → (leb 4 x && ltb x 5 && not (free_from_one x && not (5 == x))) ≡ false
four_free x = ground arith

apply-returns_example :
    ((apply set_queue bound 4).1 ≡ none) × ((apply set_queue bound 4).0.current_blocks ≡ 4)
apply-returns_example =
    apply-returns set_queue_laws bound bound_pool 4 set_queue-Reliable bound-IsConsistent
      (omega arith) (omega arith) refl four_idle four_free

-- Block 4 is retired; block 3 is in use and cannot be; block 5 is activated.
shrinks : (apply set_queue bound 4).1 ≡ none
unfolding apply apply_bound retire remove_all evict_all
shrinks = refl

live_tail_refused : (apply set_queue bound 2).1 ≡ some live_or_null
unfolding apply apply_bound retire
live_tail_refused = refl

grows : (apply set_queue bound 6).1 ≡ none
unfolding apply apply_bound activate
grows = refl
