-- ===== src/SharedPool/Worker/Laws.antt =====
-- What one message to the worker may change.
use kapsl_integrations.Prelude.{
  ℕ, ◌*◌, ◌≤◌, ◌<◌, ◌≡◌, refl, Bool, true, false, not, ◌||◌, none, some, List, arith, ltb, leb,
  ◌==◌, str_eq, str_eq_iff, sym, subst, unnot, if◌then◌else◌,
}
use kapsl_integrations.Contract.Segments.{Segment}
use kapsl_integrations.Contract.Resize.{map_workers, unmap_workers}
use kapsl_integrations.SharedPool.Worker.Keys.{same_key_refl, is_replay-eq}
use kapsl_integrations.SharedPool.Worker.{
  Import, WorkerResize, Worker, WorkerError, WorkerReply, key_of, same_stage, is_replay, is_stale,
  has_handles, stopped, verified, buffer_map, buffer_unmap, mutate, recorded, apply_worker_resize,
}

pub record IsMapped {S : Type 0} (w : Worker S) : Type 0 where
  pub positive : 0 < w.mapped_bytes
  pub fits : w.mapped_bytes ≤ w.virtual_bytes

abbrev pub target_of : WorkerResize → ℕ
target_of op = op.target_block_count * op.bytes_per_block

-- The message comes again: the last operation that was recorded is the same.
pub record IsRepeat {S : Type 0} (w : Worker S) (op : WorkerResize) : Type 0 where
  pub live : w.live ≡ true
  pub bound : op.binding_id ≡ w.binding_id
  pub last : w.last_worker_resize ≡ some (key_of op)

not-IsRepeat-fixed :
    {S : Type 0} (w : Worker S) (op : WorkerResize) → not w.live ≡ true → ¬ IsRepeat w op
not-IsRepeat-fixed w op h r = let live = r.live in ground arith

not-IsRepeat-other :
    {S : Type 0} (w : Worker S) (op : WorkerResize)
    → not (str_eq op.binding_id w.binding_id) ≡ true
    → ¬ IsRepeat w op
not-IsRepeat-other w op h r =
    let same = (str_eq_iff op.binding_id w.binding_id).1 r.bound in ground arith

not-IsRepeat-new :
    {S : Type 0} (w : Worker S) (op : WorkerResize)
    → is_replay w.last_worker_resize (key_of op) ≡ false
    → ¬ IsRepeat w op
not-IsRepeat-new w op h r =
    let again : is_replay w.last_worker_resize (key_of op) ≡ true =
      subst (λ last. is_replay last (key_of op) ≡ true) (sym r.last) (same_key_refl (key_of op)) in
    cc

module _ {S : Type 0} (cuda : Import S) (w : Worker S) where
  -- The mutation of the mapping sets the mapped bytes, within the virtual range, or leaves the record.
  pub data Mutation (target : ℕ) : WorkerReply cuda → Type 0 where
    moved :
        (s : S)
        → 0 < target
        → target ≤ w.virtual_bytes
        → Mutation target (record w { imported = s; mapped_bytes = target }, none)
    kept : (s : S) (error : WorkerError) → Mutation target (record w { imported = s }, some error)

  -- An exact replay returns and changes nothing at all; a new generation is recorded with its target;
  -- what raises is no exact replay and leaves the record of the worker as it was.
  pub data Effect (op : WorkerResize) : WorkerReply cuda → Type 0 where
    replayed : IsRepeat w op → Effect op (w, none)
    resized :
        (s : S)
        → ¬ IsRepeat w op
        → w.live ≡ true
        → str_eq op.binding_id w.binding_id ≡ true
        → is_stale w.last_worker_resize op.resize_generation ≡ false
        → 0 < target_of op
        → target_of op ≤ w.virtual_bytes
        → Effect op (
          record w {
            imported = s;
            mapped_bytes = target_of op;
            last_worker_resize = some (key_of op);
          },
          none,
        )
    refused :
        (s : S) (error : WorkerError)
        → ¬ IsRepeat w op
        → Effect op (record w { imported = s }, some error)

  record Mutates (target : ℕ) (r : WorkerReply cuda) : Type 0 where
    pub mutation : Mutation target r

  Mutates-if :
      {target : ℕ} (b : Bool) (r r' : WorkerReply cuda)
      → (b ≡ true → Mutates target r)
      → (b ≡ false → Mutates target r')
      → Mutates target (if b then r else r')
  Mutates-if true r r' k k' = k refl
  Mutates-if false r r' k k' = k' refl

  Mutates-stopped :
      {target : ℕ} (s : S) (error : WorkerError) → Mutates target (stopped cuda w s error)
  Mutates-stopped s error = record { mutation = kept s error }

  module _ (mapped : IsMapped w) where
    buffer_map-Mutates :
        (segments : List Segment) (handles : List ℕ) (target : ℕ)
        → Mutates target (buffer_map cuda w segments handles target)
    unfolding buffer_map
    buffer_map-Mutates segments handles target =
        let synced = cuda.synchronize w.imported in
        let imported = cuda.map_segments synced.0 segments handles in
        let zeroed = verified cuda w imported.0 segments in
        Mutates-if (leb target w.mapped_bytes || ltb w.virtual_bytes target) _ _
          (λ _. Mutates-stopped _ _)
          λ inside.
            Mutates-if (not synced.1) _ _ (λ _. Mutates-stopped _ _)
              λ _.
                Mutates-if (not imported.1) _ _ (λ _. Mutates-stopped _ _)
                  λ _.
                    Mutates-if (not zeroed.1) _ _ (λ _. Mutates-stopped _ _)
                      λ _. record { mutation = moved _ (ground arith) (ground arith) }

    buffer_unmap-Mutates :
        (segments : List Segment) (target : ℕ)
        → Mutates target (buffer_unmap cuda w segments target)
    unfolding buffer_unmap
    buffer_unmap-Mutates segments target =
        let synced = cuda.synchronize w.imported in
        let unmapped = cuda.unmap_segments synced.0 segments in
        let fits = mapped.fits in
        Mutates-if (target == 0 || leb w.mapped_bytes target) _ _ (λ _. Mutates-stopped _ _)
          λ inside.
            Mutates-if (not synced.1) _ _ (λ _. Mutates-stopped _ _)
              λ _.
                Mutates-if (not unmapped.1) _ _ (λ _. Mutates-stopped _ _)
                  λ _. record { mutation = moved _ (ground arith) (ground arith) }

    mutate-Mutates :
        (op : WorkerResize) (handles : List ℕ) → Mutates (target_of op) (mutate cuda w op handles)
    unfolding mutate
    mutate-Mutates op handles =
        Mutates-if (same_stage op.stage map_workers) _ _
          (λ _. buffer_map-Mutates op.segments handles (target_of op))
          λ _.
            Mutates-if (same_stage op.stage unmap_workers) _ _
              (λ _.
                Mutates-if (has_handles handles) _ _ (λ _. Mutates-stopped _ _)
                  λ _. buffer_unmap-Mutates op.segments (target_of op))
              λ _. Mutates-stopped _ _

  Effect-recorded :
      (op : WorkerResize) (r : WorkerReply cuda)
      → ¬ IsRepeat w op
      → w.live ≡ true
      → str_eq op.binding_id w.binding_id ≡ true
      → is_stale w.last_worker_resize op.resize_generation ≡ false
      → Mutation (target_of op) r
      → Effect op (recorded cuda (key_of op) r)
  Effect-recorded op r new live same fresh (moved s positive fits) =
      resized s new live same fresh positive fits
  Effect-recorded op r new live same fresh (kept s error) = refused s error new

  record HasEffect (op : WorkerResize) (r : WorkerReply cuda) : Type 0 where
    pub effect : Effect op r

  HasEffect-if :
      {op : WorkerResize} (b : Bool) (r r' : WorkerReply cuda)
      → (b ≡ true → HasEffect op r)
      → (b ≡ false → HasEffect op r')
      → HasEffect op (if b then r else r')
  HasEffect-if true r r' k k' = k refl
  HasEffect-if false r r' k k' = k' refl

  apply-HasEffect :
      IsMapped w
      → (op : WorkerResize) (handles : List ℕ)
      → HasEffect op (apply_worker_resize cuda w op handles)
  unfolding apply_worker_resize
  apply-HasEffect mapped op handles =
      HasEffect-if (not w.live) _ _
        (λ fixed. record { effect = refused w.imported _ (not-IsRepeat-fixed w op fixed) })
        λ live.
          HasEffect-if (not (str_eq op.binding_id w.binding_id)) _ _
            (λ other. record { effect = refused w.imported _ (not-IsRepeat-other w op other) })
            λ same.
              HasEffect-if (is_replay w.last_worker_resize (key_of op)) _ _
                (λ replay. record {
                  effect = replayed (record {
                    live = unnot live;
                    bound = (str_eq_iff op.binding_id w.binding_id).0 (unnot same);
                    last = is_replay-eq w.last_worker_resize (key_of op) replay;
                  });
                })
                λ new.
                  HasEffect-if (is_stale w.last_worker_resize op.resize_generation) _ _
                    (λ _. record { effect = refused w.imported _ (not-IsRepeat-new w op new) })
                    λ fresh. record {
                      effect =
                          Effect-recorded op _ (not-IsRepeat-new w op new) (unnot live) (unnot same)
                            fresh (mutate-Mutates mapped op handles).mutation;
                    }

-- Whatever the message, its handles and the driver: a message that repeats the last recorded operation of
-- this binding returns and changes nothing at all; a call that returns otherwise had a new generation,
-- and sets the mapped bytes to its target, within the virtual range, with its key recorded; a call that
-- raises was no such repeat, and leaves the record of the worker as it was.
pub apply_worker_resize-Effect :
    {S : Type 0} (cuda : Import S) (w : Worker S) (op : WorkerResize) (handles : List ℕ)
    → IsMapped w
    → Effect cuda w op (apply_worker_resize cuda w op handles)
apply_worker_resize-Effect cuda w op handles mapped =
    (apply-HasEffect cuda w mapped op handles).effect
