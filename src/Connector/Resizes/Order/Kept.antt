-- ===== src/Connector/Resizes/Order/Kept.antt =====
-- The moves of the scheduler and of its heartbeat (connector.py) keep the operations in order.
use kapsl_integrations.Prelude.{
  ℕ, max, ◌≤◌, Bool, true, false, not, Option, none, some, List, [], ◌∷◌, ◌++◌, if◌then◌else◌, ◌≡◌,
  refl, sym, subst, arith, append_assoc, append_empty,
}
use kapsl_integrations.Contract.Resize.{ResizeOperation}
use kapsl_integrations.Client.Poll.{Polled}
use kapsl_integrations.SharedPool.Blocks.{BlockQueue, ElasticPool, PoolError}
use kapsl_integrations.Connector.Resizes.Target.{apply-sized}
use kapsl_integrations.Connector.Resizes.{
  Scheduler, ResizeError, no_pool, worker_stage, not_acknowledged, refused, Phase, idle, applying,
  acking, raised, generations, unseen, is_scheduler_stage, with_handles, receive_poll, begin_with,
  begin, after_apply, apply_in, apply_operation, after_ack,
}
use kapsl_integrations.Connector.Resizes.Order.{
  World, in_hand, Ascending, last_of, Move, polls, begins, ends, applies, acknowledges, Moves, stay,
  go_on, Ascending-append, Ascending-later, Ascending-unseen, IsCurrent, IsOrdered,
}

module _ {S : Type 0} (s : Scheduler S) (o : ResizeOperation) (rest : List ResizeOperation) where
  -- An operation is on its way to be acknowledged, with the pool at its size, or it ended the loop.
  data Taken : Scheduler S × Phase → Type 0 where
    acked :
        (elastic : ElasticPool S)
        → elastic.current_blocks ≡ o.target_block_count
        → Taken (record s { pool = some elastic }, acking o rest)
    stopped :
        (pool : Option (ElasticPool S)) (error : ResizeError)
        → Taken (record s { pool = pool }, raised error)

  Taken-after :
      (queue : BlockQueue S) (elastic : ElasticPool S) (error : Option PoolError)
      → (error ≡ none → elastic.current_blocks ≡ o.target_block_count)
      → Taken (after_apply queue s o rest elastic error)
  Taken-after queue elastic none h = acked elastic (h refl)
  Taken-after queue elastic (some error) h = stopped (some elastic) (refused error)

  Taken-in :
      (queue : BlockQueue S) (pool : Option (ElasticPool S)) → Taken (apply_in queue s o rest pool)
  Taken-in queue none = stopped s.pool no_pool
  Taken-in queue (some elastic) =
      Taken-after queue _ _ (apply-sized queue o.target_block_count elastic)

  Taken-if :
      (b : Bool) (r r' : Scheduler S × Phase) → Taken r → Taken r' → Taken (if b then r else r')
  Taken-if true r r' k k' = k
  Taken-if false r r' k k' = k'

  Taken-apply_operation : (queue : BlockQueue S) → Taken (apply_operation queue s o rest)
  unfolding apply_operation
  Taken-apply_operation queue =
      Taken-if (not (is_scheduler_stage o.stage)) _ _ (stopped s.pool worker_stage)
        (Taken-in queue s.pool)

-- After a move the order is kept, and neither generation has gone back.
record Onward {S : Type 0} (w w' : World S) : Type 0 where
  pub ordered : IsOrdered w'
  pub latest : w.latest ≤ w'.latest
  pub applied : w.scheduler.applied_generation ≤ w'.scheduler.applied_generation

onward :
    {S : Type 0} (w : World S) (s : Scheduler S) (phase : Phase) (latest : ℕ)
    → Ascending latest (in_hand phase ++ s.operations)
    → s.applied_generation ≤ latest
    → IsCurrent latest s.pool phase
    → w.latest ≤ latest
    → w.scheduler.applied_generation ≤ s.applied_generation
    → Onward w (record { scheduler = s; phase = phase; latest = latest })
onward w s phase latest h a c l m = record {
  ordered = record { at = h; applied = a; current = c };
  latest = l;
  applied = m;
}

abbrev is_acking : Phase → Bool
is_acking (acking o rest) = true
is_acking _ = false

IsCurrent-other :
    {S : Type 0} (latest : ℕ) (pool : Option (ElasticPool S)) (phase : Phase)
    → is_acking phase ≡ false
    → IsCurrent latest pool phase
IsCurrent-other latest none idle h = tt
IsCurrent-other latest none (applying os) h = tt
IsCurrent-other latest none (raised e) h = tt
IsCurrent-other latest (some elastic) idle h = tt
IsCurrent-other latest (some elastic) (applying os) h = tt
IsCurrent-other latest (some elastic) (raised e) h = tt
IsCurrent-other latest _ (acking o rest) h = cc

IsCurrent-latest :
    {S : Type 0} (latest : ℕ) (pool : Option (ElasticPool S)) (o : ResizeOperation)
    (rest : List ResizeOperation)
    → IsCurrent latest pool (acking o rest)
    → o.resize_generation ≡ latest
IsCurrent-latest latest none o rest h = elim (h refl) [ ]
IsCurrent-latest latest (some elastic) o rest h = h.0

module _ {S : Type 0} (queue : BlockQueue S) where
  Onward-polls :
      (s : Scheduler S) (phase : Phase) (latest : ℕ) (p : Polled)
      → Ascending (last_of latest (in_hand phase ++ s.operations)) p.operations
      → IsOrdered (record { scheduler = s; phase = phase; latest = latest })
      → Onward
          (record { scheduler = s; phase = phase; latest = latest })
          (record { scheduler = (receive_poll s p).0; phase = phase; latest = latest })
  unfolding receive_poll
  Onward-polls s phase latest p h w = go p.handles
    where
      new : List ResizeOperation
      new = unseen s.applied_generation (generations s.operations) p.operations

      go :
          (handles : List ℕ)
          → Onward
              (record { scheduler = s; phase = phase; latest = latest })
              (record { scheduler = (with_handles s p handles).0; phase = phase; latest = latest })
      go (handle ∷ handles) = record { ordered = w; latest = omega arith; applied = omega arith }
      go [] = record {
        ordered = record {
          at = subst (Ascending latest) (append_assoc (in_hand phase) s.operations _) (
              Ascending-append latest (in_hand phase ++ s.operations) _ w.at (
                Ascending-unseen _ s.applied_generation (generations s.operations) p.operations h));
          applied = w.applied;
          current = w.current;
        };
        latest = omega arith;
        applied = omega arith;
      }

  Onward-begun :
      (s : Scheduler S) (phase : Phase) (latest : ℕ) (pool : Option (ElasticPool S))
      → IsOrdered (record { scheduler = s; phase = phase; latest = latest })
      → Onward
          (record { scheduler = s; phase = phase; latest = latest })
          (record {
            scheduler = (begin_with s pool).0;
            phase = (begin_with s pool).1;
            latest = latest;
          })
  Onward-begun s phase latest none w =
      onward _ s (raised no_pool) latest (Ascending-later latest (in_hand phase) s.operations w.at)
        w.applied (IsCurrent-other latest s.pool (raised no_pool) refl) (omega arith) (omega arith)
  Onward-begun s phase latest (some elastic) w =
      onward _ (record s { operations = [] }) (applying s.operations) latest
        (subst (Ascending latest) (sym (append_empty s.operations))
          (Ascending-later latest (in_hand phase) s.operations w.at))
        w.applied (IsCurrent-other latest s.pool (applying s.operations) refl) (omega arith)
        (omega arith)

  Onward-begins :
      (s : Scheduler S) (phase : Phase) (latest : ℕ)
      → IsOrdered (record { scheduler = s; phase = phase; latest = latest })
      → Onward
          (record { scheduler = s; phase = phase; latest = latest })
          (record { scheduler = (begin s).0; phase = (begin s).1; latest = latest })
  unfolding begin
  Onward-begins s phase latest w = chosen (not s.live_resize)
    where
      chosen :
          (b : Bool)
          → Onward
              (record { scheduler = s; phase = phase; latest = latest })
              (record {
                scheduler = (if b then (s, idle) else begin_with s s.pool).0;
                phase = (if b then (s, idle) else begin_with s s.pool).1;
                latest = latest;
              })
      chosen true =
          onward _ s idle latest (Ascending-later latest (in_hand phase) s.operations w.at)
            w.applied (IsCurrent-other latest s.pool idle refl) (omega arith) (omega arith)
      chosen false = Onward-begun s phase latest s.pool w

  Onward-applies :
      (s : Scheduler S) (o : ResizeOperation) (rest : List ResizeOperation) (latest : ℕ)
      (r : Scheduler S × Phase)
      → Taken s o rest r
      → IsOrdered (record { scheduler = s; phase = applying (o ∷ rest); latest = latest })
      → Onward
          (record { scheduler = s; phase = applying (o ∷ rest); latest = latest })
          (record { scheduler = r.0; phase = r.1; latest = o.resize_generation })
  Onward-applies s o rest latest _ (acked elastic h) w =
      let newer = w.at.0 in
      let applied = w.applied in
      onward _ (record s { pool = some elastic }) (acking o rest) o.resize_generation w.at.1
        (omega (arith, newer, applied)) (refl, h) newer (omega arith)
  Onward-applies s o rest latest _ (stopped pool error) w =
      let newer = w.at.0 in
      let applied = w.applied in
      onward _ (record s { pool = pool }) (raised error) o.resize_generation
        (Ascending-later o.resize_generation rest s.operations w.at.1)
        (omega (arith, newer, applied)) (IsCurrent-other _ pool (raised error) refl) newer
        (omega arith)

  Onward-acknowledges :
      (s : Scheduler S) (o : ResizeOperation) (rest : List ResizeOperation) (latest : ℕ)
      (taken : Bool)
      → IsOrdered (record { scheduler = s; phase = acking o rest; latest = latest })
      → Onward
          (record { scheduler = s; phase = acking o rest; latest = latest })
          (record {
            scheduler = (after_ack queue taken s o rest).0;
            phase = (after_ack queue taken s o rest).1;
            latest = latest;
          })
  unfolding after_ack
  Onward-acknowledges s o rest latest true w =
      let applied = w.applied in
      let same = IsCurrent-latest latest s.pool o rest w.current in
      onward _ (record s { applied_generation = max s.applied_generation o.resize_generation })
        (applying rest) latest w.at (omega (arith, applied, same))
        (IsCurrent-other latest s.pool (applying rest) refl) (omega arith) (omega arith)
  Onward-acknowledges s o rest latest false w =
      onward _ s (raised not_acknowledged) latest (Ascending-later latest rest s.operations w.at)
        w.applied (IsCurrent-other latest s.pool (raised not_acknowledged) refl) (omega arith)
        (omega arith)

  Onward-Move : {w w' : World S} → Move queue w w' → IsOrdered w → Onward w w'
  Onward-Move (polls s phase latest p h) w = Onward-polls s phase latest p h w
  Onward-Move (begins s phase latest r) w = Onward-begins s phase latest w
  Onward-Move (ends s latest) w =
      onward _ s idle latest w.at w.applied (IsCurrent-other latest s.pool idle refl) (omega arith)
        (omega arith)
  Onward-Move (applies s o rest latest) w =
      Onward-applies s o rest latest _ (Taken-apply_operation s o rest queue) w
  Onward-Move (acknowledges s o rest latest taken) w = Onward-acknowledges s o rest latest taken w

  Onward-Moves : {w w' : World S} → Moves queue w w' → IsOrdered w → Onward w w'
  Onward-Moves (stay w) o = record { ordered = o; latest = omega arith; applied = omega arith }
  Onward-Moves (go_on m ms) o =
      let first = Onward-Move m o in
      let later = Onward-Moves ms first.ordered in
      let l = first.latest in
      let l' = later.latest in
      let a = first.applied in
      let a' = later.applied in
      record {
        ordered = later.ordered;
        latest = omega (arith, l, l');
        applied = omega (arith, a, a');
      }

  -- When the coordinator sends the next operation only once the one before is acknowledged, then in
  -- every interleaving of polls with resizes the operations reach the pool in the order of their
  -- generations, the applied generation does not go back, and an operation that is being acknowledged
  -- is the latest that the pool was given, with the pool at its size.
  pub Moves-IsOrdered :
      {w w' : World S}
      → Moves queue w w'
      → IsOrdered w
      → IsOrdered w'
        × ((w.latest ≤ w'.latest)
            × (w.scheduler.applied_generation ≤ w'.scheduler.applied_generation))
  Moves-IsOrdered ms o = let on = Onward-Moves ms o in (on.ordered, (on.latest, on.applied))
