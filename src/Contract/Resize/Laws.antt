-- ===== src/Contract/Resize/Laws.antt =====
-- What an accepted resize operation looks like.
use kapsl_integrations.Prelude.{
  ℕ, ◌*◌, ◌%◌, ◌<◌, min, max, ◌≡◌, ◌≢◌, refl, Bool, true, false, not, ◌&&◌, ◌||◌, List, [], ◌∷◌, ok,
  arith, All, traverse, ltb, ◌==◌, Ensures, Ensures-ok, Ensures-bind, Ensures-both, Ensures-skip,
  Ensures-raise_if,
}
use kapsl_integrations.Prelude.Sorting.{sorted}
use kapsl_integrations.Prelude.Values.{Value, Fields, get, lookup}
use kapsl_integrations.Contract.Checks.{nonempty, segments_not_dense}
use kapsl_integrations.Contract.Segments.{
  by_offset, walk, Tiles, IsAligned, Fresh, walk-IsCover, positive-Ensures,
}
use kapsl_integrations.Contract.Resize.{
  resize_stage, is_physical, is_growth, ResizeOperation, segment_list, is_nonempty, keyed,
  validate_resize_operation,
}

-- The byte range between the two block counts.
abbrev pub start_of : ResizeOperation → ℕ
start_of op = min op.from_block_count op.target_block_count * op.bytes_per_block

abbrev pub finish_of : ResizeOperation → ℕ
finish_of op = max op.from_block_count op.target_block_count * op.bytes_per_block

-- The segments of a physical phase cover the changed tail; a scheduler phase has none.
abbrev pub Covers : Bool → ResizeOperation → Type 0
Covers true op = Tiles (start_of op) (finish_of op) op.segments
Covers false op = op.segments ≡ []

pub record IsResize (op : ResizeOperation) : Type 0 where
  pub epoch : 0 < op.participant_epoch
  pub generation : 0 < op.resize_generation
  pub target : 0 < op.target_block_count
  pub changes : op.from_block_count ≢ op.target_block_count
  pub direction : is_growth op.stage ≡ ltb op.from_block_count op.target_block_count
  pub start_aligned : start_of op % op.allocation_granularity_bytes ≡ 0
  pub finish_aligned : finish_of op % op.allocation_granularity_bytes ≡ 0
  pub covers : Covers (is_physical op.stage) op
  pub aligned : All (IsAligned op.allocation_granularity_bytes) op.segments
  pub fresh : Fresh [] [] op.segments

direction_of :
    (growing growth : Bool)
    → ((growing && not growth) || (not growing && growth)) ≡ false
    → growth ≡ growing
direction_of true true h = refl
direction_of true false h = cc
direction_of false true h = cc
direction_of false false h = refl

Covers-of :
    (physical : Bool) (op : ResizeOperation) (end : ℕ)
    → Tiles (start_of op) end op.segments
    → (physical && not (end == finish_of op)) ≡ false
    → (physical ≡ false → op.segments ≡ [])
    → Covers physical op
Covers-of true op end tiles h none_here =
    let same : end ≡ finish_of op = ground arith in rw (← same) tiles
Covers-of false op end tiles h none_here = none_here refl

-- Without raw segments the walk has no round.
traverse-nil :
    (raw : List Value)
    → Ensures (λ pairs. is_nonempty raw ≡ false → pairs ≡ []) (traverse keyed raw)
traverse-nil [] = Ensures-ok _ λ h. refl
traverse-nil (v ∷ vs) = record { at = λ pairs q h. cc }

walk-nil :
    (granularity start : ℕ) (pairs : List (ℕ × Fields))
    → Ensures
        (λ walked. pairs ≡ [] → walked.0 ≡ [])
        (walk segments_not_dense "segment_id" granularity start [] [] (sorted by_offset pairs))
unfolding walk sorted
walk-nil granularity start [] = Ensures-ok _ λ h. refl
walk-nil granularity start (p ∷ ps) = record { at = λ walked q h. cc }

validate_resize_operation-Ensures :
    (operation : Fields) → Ensures IsResize (validate_resize_operation operation)
unfolding validate_resize_operation
validate_resize_operation-Ensures operation =
    Ensures-bind _ _ (positive-Ensures _ _) λ epoch epoch_positive.
      Ensures-bind _ _ (positive-Ensures _ _) λ generation generation_positive.
        Ensures-skip (nonempty (get operation "binding_id") "binding_id") _ λ binding_id.
          Ensures-skip (resize_stage (get operation "stage")) _ λ stage.
            Ensures-bind _ _ (positive-Ensures _ _) λ from_blocks from_positive.
              Ensures-bind _ _ (positive-Ensures _ _) λ target_blocks target_positive.
                Ensures-raise_if (from_blocks == target_blocks) _ _ λ differ.
                  Ensures-raise_if
                    ((ltb from_blocks target_blocks && not (is_growth stage))
                      || (not (ltb from_blocks target_blocks) && is_growth stage))
                    _ _
                    λ direct. Ensures-bind _ _ (positive-Ensures _ _) λ stride stride_positive.
                      Ensures-bind _ _ (positive-Ensures _ _) λ granularity granularity_positive.
                        Ensures-raise_if
                          (ltb 0 (min from_blocks target_blocks * stride % granularity)
                            || ltb 0 (max from_blocks target_blocks * stride % granularity))
                          _ _
                          λ ends. Ensures-skip (segment_list (lookup operation "segments")) _ λ raw.
                            Ensures-raise_if
                              ((is_physical stage && not (is_nonempty raw))
                                || (not (is_physical stage) && is_nonempty raw))
                              _ _
                              λ phase. Ensures-bind _ _ (traverse-nil raw) λ pairs empty.
                                Ensures-bind _ _
                                  (Ensures-both
                                    (walk-IsCover segments_not_dense "segment_id" granularity
                                      (min from_blocks target_blocks * stride) [] []
                                      (sorted by_offset pairs))
                                    (walk-nil granularity (min from_blocks target_blocks * stride)
                                      pairs))
                                  λ walked (cover, bare).
                                    Ensures-raise_if
                                      (is_physical stage
                                        && not (walked.1 == max from_blocks target_blocks * stride))
                                      _ _
                                      λ complete. Ensures-ok _ (record {
                                        epoch = epoch_positive;
                                        generation = generation_positive;
                                        target = target_positive;
                                        changes = λ h. ground arith;
                                        direction =
                                            direction_of (ltb from_blocks target_blocks)
                                              (is_growth stage) direct;
                                        start_aligned = ground arith;
                                        finish_aligned = ground arith;
                                        covers =
                                            Covers-of (is_physical stage) _ walked.1 cover.tiles
                                              complete λ quiet. bare (empty (ground arith));
                                        aligned = cover.aligned;
                                        fresh = cover.fresh;
                                      })

pub validate_resize_operation-IsResize :
    (operation : Fields) (op : ResizeOperation)
    → validate_resize_operation operation ≡ ok op
    → IsResize op
validate_resize_operation-IsResize operation op h =
    (validate_resize_operation-Ensures operation).at op h
