-- ===== src/Contract/Elastic.antt =====
-- `_validate_elastic_pool` of contract.py.
use kapsl_integrations.Prelude.{
  ℕ, ◌*◌, ◌%◌, ◌≤◌, ◌<◌, ◌≡◌, not, ◌||◌, List, [], ◌∷◌, ok, err, raise_if, traverse, arith, All,
  ltb, ◌==◌, Ensures, Ensures-ok, Ensures-bind, Ensures-skip, Ensures-raise_if, ◌>>=◌, ◌>>◌,
}
use kapsl_integrations.Prelude.Sorting.{sorted}
use kapsl_integrations.Prelude.Values.{Value, Fields, arr, get, elements}
use kapsl_integrations.Contract.Checks.{
  Checked, mapping, positive_int, nonnegative_int, elastic_counts, elastic_unaligned,
  elastic_without_segments, prefix_not_dense, prefix_incomplete,
}
use kapsl_integrations.Contract.Segments.{
  Segment, by_offset, walk, Tiles, IsAligned, Fresh, walk-IsCover, positive-Ensures,
}

pub record ElasticPool : Type 0 where
  pub minimum_block_count : ℕ
  pub mapped_block_count : ℕ
  pub maximum_block_count : ℕ
  pub allocation_granularity_bytes : ℕ
  pub resize_alignment_blocks : ℕ
  pub segments : List Segment

-- A list that is not empty.
unfoldable pub mapped_segments : Value → Checked (List Value)
mapped_segments (arr items) = let values = elements items in check values
  where
    check : List Value → Checked (List Value)
    check [] = err elastic_without_segments
    check (v ∷ vs) = ok (v ∷ vs)
mapped_segments _ = err elastic_without_segments

unfoldable pub segment_key : Fields → Checked (ℕ × Fields)
segment_key segment = do
  offset ← nonnegative_int (get segment "offset_bytes") "VMM segment offset_bytes"
  ok (offset, segment)

-- What the code checks and then drops: the counts and the segments in the order of the walk.
unfoldable pub validate_elastic_pool : Fields → ℕ → ℕ → Checked ElasticPool
unfolding sorted
validate_elastic_pool elastic block_count bytes_per_block = do
  minimum_blocks ← positive_int (get elastic "minimum_block_count") "minimum_block_count"
  mapped_blocks ← positive_int (get elastic "mapped_block_count") "mapped_block_count"
  maximum_blocks ← positive_int (get elastic "maximum_block_count") "maximum_block_count"
  granularity ←
      positive_int (get elastic "allocation_granularity_bytes") "allocation_granularity_bytes"
  alignment ← positive_int (get elastic "resize_alignment_blocks") "resize_alignment_blocks"
  raise_if
      (not (maximum_blocks == block_count)
        || ltb mapped_blocks minimum_blocks
        || ltb maximum_blocks mapped_blocks)
      elastic_counts
  let minimum_bytes = minimum_blocks * bytes_per_block
  let mapped_bytes = mapped_blocks * bytes_per_block
  let maximum_bytes = maximum_blocks * bytes_per_block
  raise_if
      (ltb 0 (minimum_blocks % alignment)
        || ltb 0 (mapped_blocks % alignment)
        || ltb 0 (minimum_bytes % granularity)
        || ltb 0 (mapped_bytes % granularity)
        || ltb 0 (maximum_bytes % granularity))
      elastic_unaligned
  raw ← mapped_segments (get elastic "segments")
  mappings ← traverse (λ v. mapping v "VMM segment") raw
  pairs ← traverse segment_key mappings
  walked ← walk prefix_not_dense "VMM segment_id" granularity 0 [] [] (sorted by_offset pairs)
  raise_if (not (walked.1 == mapped_bytes)) prefix_incomplete
  ok (record {
    minimum_block_count = minimum_blocks;
    mapped_block_count = mapped_blocks;
    maximum_block_count = maximum_blocks;
    allocation_granularity_bytes = granularity;
    resize_alignment_blocks = alignment;
    segments = walked.0;
  })

pub record IsElastic (block_count bytes_per_block : ℕ) (pool : ElasticPool) : Type 0 where
  pub minimum_positive : 0 < pool.minimum_block_count
  pub minimum_fits : pool.minimum_block_count ≤ pool.mapped_block_count
  pub mapped_fits : pool.mapped_block_count ≤ block_count
  pub maximum_matches : pool.maximum_block_count ≡ block_count
  pub minimum_aligned : pool.minimum_block_count % pool.resize_alignment_blocks ≡ 0
  pub mapped_aligned : pool.mapped_block_count % pool.resize_alignment_blocks ≡ 0
  pub bytes_aligned :
      pool.mapped_block_count * bytes_per_block % pool.allocation_granularity_bytes ≡ 0
  pub range_aligned : block_count * bytes_per_block % pool.allocation_granularity_bytes ≡ 0
  pub tiles : Tiles 0 (pool.mapped_block_count * bytes_per_block) pool.segments
  pub aligned : All (IsAligned pool.allocation_granularity_bytes) pool.segments
  pub fresh : Fresh [] [] pool.segments

pub validate_elastic_pool-Ensures :
    (elastic : Fields) (block_count bytes_per_block : ℕ)
    → Ensures
        (IsElastic block_count bytes_per_block)
        (validate_elastic_pool elastic block_count bytes_per_block)
unfolding validate_elastic_pool
validate_elastic_pool-Ensures elastic block_count bytes_per_block =
    Ensures-bind _ _ (positive-Ensures _ _) λ minimum_blocks minimum_positive.
      Ensures-bind _ _ (positive-Ensures _ _) λ mapped_blocks mapped_positive.
        Ensures-bind _ _ (positive-Ensures _ _) λ maximum_blocks maximum_positive.
          Ensures-bind _ _ (positive-Ensures _ _) λ granularity granularity_positive.
            Ensures-bind _ _ (positive-Ensures _ _) λ alignment alignment_positive.
              Ensures-raise_if
                (not (maximum_blocks == block_count)
                  || ltb mapped_blocks minimum_blocks
                  || ltb maximum_blocks mapped_blocks)
                _ _
                λ fits.
                  Ensures-raise_if
                    (ltb 0 (minimum_blocks % alignment)
                      || ltb 0 (mapped_blocks % alignment)
                      || ltb 0 (minimum_blocks * bytes_per_block % granularity)
                      || ltb 0 (mapped_blocks * bytes_per_block % granularity)
                      || ltb 0 (maximum_blocks * bytes_per_block % granularity))
                    _ _
                    λ aligned. Ensures-skip (mapped_segments (get elastic "segments")) _ λ raw.
                      Ensures-skip (traverse (λ v. mapping v "VMM segment") raw) _ λ mappings.
                        Ensures-skip (traverse segment_key mappings) _ λ pairs.
                          Ensures-bind _ _
                            (walk-IsCover prefix_not_dense "VMM segment_id" granularity 0 [] []
                              (sorted by_offset pairs))
                            λ walked cover.
                              Ensures-raise_if (not (walked.1 == mapped_blocks * bytes_per_block)) _
                                _
                                λ complete. Ensures-ok _ (
                                  let same : walked.1 ≡ mapped_blocks * bytes_per_block =
                                    ground arith in
                                  let maximum : maximum_blocks ≡ block_count = ground arith in
                                  record {
                                    minimum_positive = minimum_positive;
                                    minimum_fits = ground arith;
                                    mapped_fits = ground arith;
                                    maximum_matches = maximum;
                                    minimum_aligned = ground arith;
                                    mapped_aligned = ground arith;
                                    bytes_aligned = ground arith;
                                    range_aligned = rw (← maximum) (ground arith);
                                    tiles = rw (← same) cover.tiles;
                                    aligned = cover.aligned;
                                    fresh = cover.fresh;
                                  })

-- An elastic pool is accepted only when its minimum, mapped and maximum counts are in order, the
-- maximum is the shared pool's block count, the minimum and mapped counts are aligned, and its
-- segments lie end to end from byte 0 to the mapped bytes, with no name or handle used twice.
pub validate_elastic_pool-IsElastic :
    (elastic : Fields) (block_count bytes_per_block : ℕ) (pool : ElasticPool)
    → validate_elastic_pool elastic block_count bytes_per_block ≡ ok pool
    → IsElastic block_count bytes_per_block pool
validate_elastic_pool-IsElastic elastic block_count bytes_per_block pool h =
    (validate_elastic_pool-Ensures elastic block_count bytes_per_block).at pool h
