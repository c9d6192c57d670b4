-- ===== src/SharedPool/Worker/Replay.antt =====
-- Replays and sequences of messages.
use kapsl_integrations.Prelude.{
  ℕ, ◌≤◌, ◌≡◌, refl, ap, subst, sym, true, false, Option, none, some, List, [], ◌∷◌, arith, str_eq,
  str_eq_iff, ◌∙◌,
}
use kapsl_integrations.SharedPool.Worker.Keys.{same_key_refl}
use kapsl_integrations.SharedPool.Worker.{
  Import, WorkerResize, OperationKey, Worker, WorkerReply, key_of, is_replay, is_stale,
  apply_worker_resize,
}
use kapsl_integrations.SharedPool.Worker.Laws.{
  IsMapped, Effect, replayed, resized, refused, apply_worker_resize-Effect,
}

module _ {S : Type 0} (cuda : Import S) where
  known_replay :
      (w : Worker S) (op : WorkerResize) (handles : List ℕ)
      → w.live ≡ true
      → str_eq op.binding_id w.binding_id ≡ true
      → is_replay w.last_worker_resize (key_of op) ≡ true
      → apply_worker_resize cuda w op handles ≡ (w, none)
  unfolding apply_worker_resize
  known_replay w op handles live same replay = rw (live, same, replay) refl

  after-Effect :
      {w : Worker S} (op : WorkerResize) (r : WorkerReply cuda) (handles : List ℕ)
      → r.1 ≡ none
      → Effect cuda w op r
      → apply_worker_resize cuda r.0 op handles ≡ (r.0, none)
  after-Effect {w} op r handles e (replayed again) =
      known_replay w op handles again.live ((str_eq_iff op.binding_id w.binding_id).1 again.bound) (
        subst (λ last. is_replay last (key_of op) ≡ true) (sym again.last)
          (same_key_refl (key_of op)))
  after-Effect op r handles e (resized s new live same fresh positive fits) =
      known_replay _ op handles live same (same_key_refl (key_of op))
  after-Effect op r handles e (refused s error new) = cc

  -- The messages of a connection, one after the other, whatever each of them raises.
  unfoldable pub run : Worker S → List (WorkerResize × List ℕ) → Worker S
  run w [] = w
  run w ((op, handles) ∷ messages) = run (apply_worker_resize cuda w op handles).0 messages

  abbrev pub last_generation : Option OperationKey → ℕ
  last_generation none = 0
  last_generation (some key) = key.generation

  -- What no message undoes.
  pub record Advances (w w' : Worker S) : Type 0 where
    pub mapped : IsMapped w'
    pub virtual : w'.virtual_bytes ≡ w.virtual_bytes
    pub binding : w'.binding_id ≡ w.binding_id
    pub generation : last_generation w.last_worker_resize ≤ last_generation w'.last_worker_resize

  newer :
      (last : Option OperationKey) (generation : ℕ)
      → is_stale last generation ≡ false
      → last_generation last ≤ generation
  newer none generation h = omega arith
  newer (some key) generation h = ground arith

  Effect-Advances :
      {w : Worker S} (op : WorkerResize) (r : WorkerReply cuda)
      → IsMapped w
      → Effect cuda w op r
      → Advances w r.0
  Effect-Advances op r mapped (replayed again) = record {
    mapped = mapped;
    virtual = refl;
    binding = refl;
    generation = omega arith;
  }
  Effect-Advances {w} op r mapped (resized s new live same fresh positive fits) = record {
    mapped = record { positive = positive; fits = fits };
    virtual = refl;
    binding = refl;
    generation = newer w.last_worker_resize op.resize_generation fresh;
  }
  Effect-Advances op r mapped (refused s error new) = record {
    mapped = record { positive = mapped.positive; fits = mapped.fits };
    virtual = refl;
    binding = refl;
    generation = omega arith;
  }

-- A message that was answered without an error can come again, with any handles: it changes nothing and
-- raises nothing.
pub apply_worker_resize-replay :
    {S : Type 0} (cuda : Import S) (w w' : Worker S) (op : WorkerResize) (handles again : List ℕ)
    → IsMapped w
    → apply_worker_resize cuda w op handles ≡ (w', none)
    → apply_worker_resize cuda w' op again ≡ (w', none)
apply_worker_resize-replay cuda w w' op handles again mapped h =
    subst (λ v. apply_worker_resize cuda v op again ≡ (v, none)) (ap (λ r. r.0) h)
      (after-Effect cuda op (apply_worker_resize cuda w op handles) again (ap (λ r. r.1) h)
        (apply_worker_resize-Effect cuda w op handles mapped))

-- Over any sequence of messages the mapped bytes stay positive and within the virtual range, which is
-- fixed with the binding, and the recorded generation never goes back.
pub run-Advances :
    {S : Type 0} (cuda : Import S) (w : Worker S) (messages : List (WorkerResize × List ℕ))
    → IsMapped w
    → Advances cuda w (run cuda w messages)
unfolding run
run-Advances cuda w [] mapped = record {
  mapped = mapped;
  virtual = refl;
  binding = refl;
  generation = omega arith;
}
run-Advances cuda w ((op, handles) ∷ messages) mapped =
    let first =
      Effect-Advances cuda op (apply_worker_resize cuda w op handles) mapped
        (apply_worker_resize-Effect cuda w op handles mapped) in
    let later = run-Advances cuda (apply_worker_resize cuda w op handles).0 messages first.mapped in
    record {
      mapped = later.mapped;
      virtual = later.virtual ∙ first.virtual;
      binding = later.binding ∙ first.binding;
      generation = omega (arith, first.generation, later.generation);
    }
