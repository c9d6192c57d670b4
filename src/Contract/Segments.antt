-- ===== src/Contract/Segments.antt =====
-- The walk over VMM segments that `validate_resize_operation` and `_validate_elastic_pool` share: in
-- the order of their offsets, each must begin where the one before it ends.
use kapsl_integrations.Prelude.{
  ℕ, ◌+◌, ◌<◌, ◌%◌, ◌≡◌, refl, String, Bool, false, not, ◌||◌, List, [], ◌∷◌, ok, raise_if, arith,
  All, leb, ltb, ◌==◌, str_eq, Ensures, Ensures-ok, Ensures-bind, Ensures-skip, Ensures-raise_if,
  ◌>>=◌, ◌>>◌,
}
use kapsl_integrations.Prelude.Sorting.{contains}
use kapsl_integrations.Prelude.Values.{Value, Fields, get}
use kapsl_integrations.Contract.Checks.{
  ContractError, Checked, nonempty, positive_int, nonnegative_int,
}

pub record Segment : Type 0 where
  pub segment_id : String
  pub offset_bytes : ℕ
  pub length_bytes : ℕ
  pub handle_index : ℕ

-- The sort key, with the segment that it was read from.
abbrev pub by_offset : ℕ × Fields → ℕ × Fields → Bool
by_offset (a, f) (b, g) = leb a b

-- One round reads a segment and checks it against the offset that is due and against the names and
-- handles seen so far. The walk returns the segments that it read and the offset where they end.
unfoldable pub walk :
    ContractError
    → String
    → ℕ
    → ℕ
    → List String
    → List ℕ
    → List (ℕ × Fields)
    → Checked (List Segment × ℕ)
walk mismatch id_field granularity expected ids handles [] = ok ([], expected)
walk mismatch id_field granularity expected ids handles ((key, segment) ∷ rest) = do
  segment_id ← nonempty (get segment "segment_id") id_field
  offset ← nonnegative_int (get segment "offset_bytes") "offset_bytes"
  length ← positive_int (get segment "length_bytes") "length_bytes"
  handle_index ← nonnegative_int (get segment "handle_index") "handle_index"
  raise_if
      (contains str_eq ids segment_id
        || contains ◌==◌ handles handle_index
        || not (offset == expected)
        || ltb 0 (offset % granularity)
        || ltb 0 (length % granularity))
      mismatch
  tail ←
      walk mismatch id_field granularity (expected + length) (segment_id ∷ ids)
        (handle_index ∷ handles) rest
  ok (
    record {
      segment_id = segment_id;
      offset_bytes = offset;
      length_bytes = length;
      handle_index = handle_index;
    }
        ∷ tail.0,
    tail.1,
  )

-- The segments lie end to end from `start` to `end`, none of them empty.
abbrev pub Tiles : ℕ → ℕ → List Segment → Type 0
Tiles start end [] = start ≡ end
Tiles start end (s ∷ ss) =
    (s.offset_bytes ≡ start) × (0 < s.length_bytes) × Tiles (start + s.length_bytes) end ss

abbrev pub IsAligned : ℕ → Segment → Type 0
IsAligned granularity s = (s.offset_bytes % granularity ≡ 0) × (s.length_bytes % granularity ≡ 0)

-- No name and no handle is used twice, or is among those given.
abbrev pub Fresh : List String → List ℕ → List Segment → Type 0
Fresh ids handles [] = Unit
Fresh ids handles (s ∷ ss) =
    (contains str_eq ids s.segment_id ≡ false)
    × (contains ◌==◌ handles s.handle_index ≡ false)
    × Fresh (s.segment_id ∷ ids) (s.handle_index ∷ handles) ss

pub record IsCover (granularity start : ℕ) (ids : List String) (handles : List ℕ)
    (r : List Segment × ℕ) : Type 0 where
  pub tiles : Tiles start r.1 r.0
  pub aligned : All (IsAligned granularity) r.0
  pub fresh : Fresh ids handles r.0

pub positive-Ensures : (v : Value) (field : String) → Ensures (λ n. 0 < n) (positive_int v field)
unfolding positive_int
positive-Ensures v field = record { at = λ n h. ground arith }

pub walk-IsCover :
    (mismatch : ContractError) (id_field : String) (granularity expected : ℕ) (ids : List String)
    (handles : List ℕ) (keyed : List (ℕ × Fields))
    → Ensures
        (IsCover granularity expected ids handles)
        (walk mismatch id_field granularity expected ids handles keyed)
unfolding walk
walk-IsCover mismatch id_field granularity expected ids handles [] =
    Ensures-ok _ (record { tiles = refl; aligned = tt; fresh = tt })
walk-IsCover mismatch id_field granularity expected ids handles ((key, segment) ∷ rest) =
    Ensures-skip (nonempty (get segment "segment_id") id_field) _ λ segment_id.
      Ensures-skip (nonnegative_int (get segment "offset_bytes") "offset_bytes") _ λ offset.
        Ensures-bind _ _ (positive-Ensures _ _) λ length positive.
          Ensures-skip (nonnegative_int (get segment "handle_index") "handle_index") _ λ handle.
            Ensures-raise_if
              (contains str_eq ids segment_id
                || contains ◌==◌ handles handle
                || not (offset == expected)
                || ltb 0 (offset % granularity)
                || ltb 0 (length % granularity))
              _ _
              λ clear.
                Ensures-bind _ _
                  (walk-IsCover mismatch id_field granularity (expected + length) (segment_id ∷ ids)
                    (handle ∷ handles) rest)
                  λ tail cover. Ensures-ok _ (record {
                    tiles = (ground arith, positive, cover.tiles);
                    aligned = ((ground arith, ground arith), cover.aligned);
                    fresh = (ground arith, ground arith, cover.fresh);
                  })
