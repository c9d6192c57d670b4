-- ===== src/Connector/Resizes/Order.antt =====
-- Interleavings of the heartbeat's polls with the scheduler's resizes (connector.py): in which order the
-- operations reach the pool, and what an acknowledgement vouches for.
pub mod Kept
use kapsl_integrations.Prelude.{
  ℕ, max, ◌≤◌, Bool, true, false, not, ◌&&◌, ◌||◌, Option, none, some, List, [], ◌∷◌, ◌++◌, ltb,
  leb, ◌==◌, if◌then◌else◌, ◌≡◌, ◌≢◌, refl, sym, ap, subst, ◌∙◌, arith, Bool-cases, inl, inr,
  append_assoc, append_empty, ==_iff,
}
use kapsl_integrations.Prelude.Sorting.{contains}
use kapsl_integrations.Contract.Resize.{ResizeOperation}
use kapsl_integrations.Client.Poll.{Polled}
use kapsl_integrations.SharedPool.Blocks as Blocks
use kapsl_integrations.SharedPool.Blocks.{BlockQueue, BlockPool, ElasticPool, PoolError}
use kapsl_integrations.Connector.Resizes.Target.{apply-sized}
use kapsl_integrations.Connector.Resizes.{
  Scheduler, ResizeError, handles_received, no_pool, worker_stage, not_acknowledged, refused, Phase,
  idle, applying, acking, raised, generations, unseen, is_scheduler_stage, with_handles,
  receive_poll, begin_with, begin, after_apply, apply_in, apply_operation, after_ack,
}

-- `latest` is the generation that was last given to the pool.
pub record World (S : Type 0) : Type 0 where
  pub scheduler : Scheduler S
  pub phase : Phase
  pub latest : ℕ

abbrev pub in_hand : Phase → List ResizeOperation
in_hand (applying operations) = operations
in_hand (acking o operations) = operations
in_hand _ = []

-- The operations in the order of their generations, from `n` on.
abbrev pub Ascending : ℕ → List ResizeOperation → Type 0
Ascending n [] = Unit
Ascending n (o ∷ os) = (n ≤ o.resize_generation) × Ascending o.resize_generation os

abbrev pub last_of : ℕ → List ResizeOperation → ℕ
last_of n [] = n
last_of n (o ∷ os) = last_of o.resize_generation os

abbrev pub is_resting : Phase → Bool
is_resting idle = true
is_resting (raised error) = true
is_resting _ = false

module _ {S : Type 0} (queue : BlockQueue S) where
  -- A poll's answer has its operations in order and none older than those that the scheduler still
  -- has: the coordinator sends the next operation only once the one before is acknowledged.
  pub data Move : World S → World S → Type 0 where
    polls :
        (s : Scheduler S) (phase : Phase) (latest : ℕ) (p : Polled)
        → Ascending (last_of latest (in_hand phase ++ s.operations)) p.operations
        → Move
            (record { scheduler = s; phase = phase; latest = latest })
            (record { scheduler = (receive_poll s p).0; phase = phase; latest = latest })
    begins :
        (s : Scheduler S) (phase : Phase) (latest : ℕ)
        → is_resting phase ≡ true
        → Move
            (record { scheduler = s; phase = phase; latest = latest })
            (record { scheduler = (begin s).0; phase = (begin s).1; latest = latest })
    ends :
        (s : Scheduler S) (latest : ℕ)
        → Move
            (record { scheduler = s; phase = applying []; latest = latest })
            (record { scheduler = s; phase = idle; latest = latest })
    applies :
        (s : Scheduler S) (o : ResizeOperation) (rest : List ResizeOperation) (latest : ℕ)
        → Move
            (record { scheduler = s; phase = applying (o ∷ rest); latest = latest })
            (record {
              scheduler = (apply_operation queue s o rest).0;
              phase = (apply_operation queue s o rest).1;
              latest = o.resize_generation;
            })
    acknowledges :
        (s : Scheduler S) (o : ResizeOperation) (rest : List ResizeOperation) (latest : ℕ)
        (taken : Bool)
        → Move
            (record { scheduler = s; phase = acking o rest; latest = latest })
            (record {
              scheduler = (after_ack queue taken s o rest).0;
              phase = (after_ack queue taken s o rest).1;
              latest = latest;
            })

  pub data Moves : World S → World S → Type 0 where
    stay : (w : World S) → Moves w w
    go_on : {w w' w'' : World S} → Move w w' → Moves w' w'' → Moves w w''

pub Ascending-append :
    (n : ℕ) (xs ys : List ResizeOperation)
    → Ascending n xs
    → Ascending (last_of n xs) ys
    → Ascending n (xs ++ ys)
Ascending-append n [] ys h k = k
Ascending-append n (x ∷ xs) ys h k = (h.0, Ascending-append x.resize_generation xs ys h.1 k)

Ascending-from : (m n : ℕ) (xs : List ResizeOperation) → m ≤ n → Ascending n xs → Ascending m xs
Ascending-from m n [] h k = tt
Ascending-from m n (x ∷ xs) h k = (let first = k.0 in omega (arith, h, first), k.1)

pub Ascending-later :
    (n : ℕ) (xs ys : List ResizeOperation) → Ascending n (xs ++ ys) → Ascending n ys
Ascending-later n [] ys h = h
Ascending-later n (x ∷ xs) ys h =
    Ascending-from n x.resize_generation ys h.0 (Ascending-later x.resize_generation xs ys h.1)

pub Ascending-unseen :
    (n applied : ℕ) (known : List ℕ) (xs : List ResizeOperation)
    → Ascending n xs
    → Ascending n (unseen applied known xs)
unfolding unseen
Ascending-unseen n applied known [] h = tt
Ascending-unseen n applied known (x ∷ xs) h =
    elim (Bool-cases
      (ltb applied x.resize_generation && not (contains ◌==◌ known x.resize_generation))) [
        | inl e ↦ rw e (h.0, Ascending-unseen x.resize_generation applied known xs h.1)
        | inr e ↦
            rw e (
              Ascending-unseen n applied known xs (Ascending-from n x.resize_generation xs h.0 h.1))
      ]

-- An operation that is being acknowledged is the latest, and the pool has its size.
abbrev pub IsCurrent : {S : Type 0} → ℕ → Option (ElasticPool S) → Phase → Type 0
IsCurrent latest (some elastic) (acking o rest) =
    (o.resize_generation ≡ latest) × (elastic.current_blocks ≡ o.target_block_count)
IsCurrent latest none (acking o rest) = o.resize_generation ≢ o.resize_generation
IsCurrent latest _ _ = Unit

-- What the scheduler still has is in order and not older than what the pool was last given; and
-- nothing is acknowledged but what the pool was last given.
pub record IsOrdered {S : Type 0} (w : World S) : Type 0 where
  pub at : Ascending w.latest (in_hand w.phase ++ w.scheduler.operations)
  pub applied : w.scheduler.applied_generation ≤ w.latest
  pub current : IsCurrent w.latest w.scheduler.pool w.phase
