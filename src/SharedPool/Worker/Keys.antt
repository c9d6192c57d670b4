-- ===== src/SharedPool/Worker/Keys.antt =====
-- The comparison of operation keys in `apply_worker_resize` of shared_pool.py is equality.
use kapsl_integrations.Prelude.{
  ◌≡◌, refl, ap, true, Option, none, some, List, [], ◌∷◌, arith, str_eq, str_eq_iff,
}
use kapsl_integrations.Contract.Segments.{Segment}
use kapsl_integrations.Contract.Resize.{
  Stage, map_workers, activate_scheduler, retire_scheduler, unmap_workers,
}
use kapsl_integrations.SharedPool.Worker.{
  OperationKey, same_stage, same_segment, same_segments, same_key, is_replay,
}

same_stage_refl : (s : Stage) → same_stage s s ≡ true
same_stage_refl map_workers = refl
same_stage_refl activate_scheduler = refl
same_stage_refl retire_scheduler = refl
same_stage_refl unmap_workers = refl

same_text : (s : Segment) → str_eq s.segment_id s.segment_id ≡ true
same_text s = (str_eq_iff s.segment_id s.segment_id).1 refl

same_segments_refl : (ss : List Segment) → same_segments ss ss ≡ true
same_segments_refl [] = refl
same_segments_refl (s ∷ ss) = ground (arith, same_text s, same_segments_refl ss)

pub same_key_refl : (k : OperationKey) → same_key k k ≡ true
same_key_refl k = ground (arith, same_stage_refl k.stage, same_segments_refl k.segments)

same_stage-eq : (s t : Stage) → same_stage s t ≡ true → s ≡ t
same_stage-eq map_workers map_workers h = refl
same_stage-eq map_workers activate_scheduler h = cc
same_stage-eq map_workers retire_scheduler h = cc
same_stage-eq map_workers unmap_workers h = cc
same_stage-eq activate_scheduler map_workers h = cc
same_stage-eq activate_scheduler activate_scheduler h = refl
same_stage-eq activate_scheduler retire_scheduler h = cc
same_stage-eq activate_scheduler unmap_workers h = cc
same_stage-eq retire_scheduler map_workers h = cc
same_stage-eq retire_scheduler activate_scheduler h = cc
same_stage-eq retire_scheduler retire_scheduler h = refl
same_stage-eq retire_scheduler unmap_workers h = cc
same_stage-eq unmap_workers map_workers h = cc
same_stage-eq unmap_workers activate_scheduler h = cc
same_stage-eq unmap_workers retire_scheduler h = cc
same_stage-eq unmap_workers unmap_workers h = refl

same_segment-eq : (s t : Segment) → same_segment s t ≡ true → s ≡ t
same_segment-eq s t h =
    let name = str_eq_iff s.segment_id t.segment_id in
    let id : s.segment_id ≡ t.segment_id = ground (arith, name) in
    let offset : s.offset_bytes ≡ t.offset_bytes = ground arith in
    let long : s.length_bytes ≡ t.length_bytes = ground arith in
    let index : s.handle_index ≡ t.handle_index = ground arith in cc

same_segments-eq : (ss ts : List Segment) → same_segments ss ts ≡ true → ss ≡ ts
same_segments-eq [] [] h = refl
same_segments-eq [] (t ∷ ts) h = cc
same_segments-eq (s ∷ ss) [] h = cc
same_segments-eq (s ∷ ss) (t ∷ ts) h =
    let head = same_segment-eq s t (ground arith) in
    let tail = same_segments-eq ss ts (ground arith) in cc

same_key-eq : (k l : OperationKey) → same_key k l ≡ true → k ≡ l
same_key-eq k l h =
    let generation : k.generation ≡ l.generation = ground arith in
    let stage = same_stage-eq k.stage l.stage (ground arith) in
    let target : k.target_bytes ≡ l.target_bytes = ground arith in
    let segments = same_segments-eq k.segments l.segments (ground arith) in cc

pub is_replay-eq :
    (last : Option OperationKey) (key : OperationKey) → is_replay last key ≡ true → last ≡ some key
is_replay-eq none key h = cc
is_replay-eq (some previous) key h = ap some (same_key-eq previous key h)
