-- ===== src/Contract/Shard.antt =====
-- The rank of a worker in its tensor-parallel and pipeline-parallel worlds, which four validators of
-- contract.py check with the same lines, and the adapter profile.
use kapsl_integrations.Prelude.{
  ℕ, ◌<◌, ◌||◌, ok, raise_if, leb, arith, Ensures, Ensures-ok, Ensures-bind, Ensures-skip,
  Ensures-raise_if, ◌>>=◌, ◌>>◌,
}
use kapsl_integrations.Prelude.Values.{Fields, get}
use kapsl_integrations.Contract.Checks.{
  Checked, nonempty, positive_int, nonnegative_int, shard_outside_world,
}
use kapsl_integrations.Contract.Segments.{positive-Ensures}

pub record Shard : Type 0 where
  pub tensor_parallel_rank : ℕ
  pub tensor_parallel_world_size : ℕ
  pub pipeline_parallel_rank : ℕ
  pub pipeline_parallel_world_size : ℕ

unfoldable pub validate_shard : Fields → Checked Shard
validate_shard shard = do
  tp_rank ← nonnegative_int (get shard "tensor_parallel_rank") "tensor_parallel_rank"
  tp_world ← positive_int (get shard "tensor_parallel_world_size") "tensor_parallel_world_size"
  pp_rank ← nonnegative_int (get shard "pipeline_parallel_rank") "pipeline_parallel_rank"
  pp_world ← positive_int (get shard "pipeline_parallel_world_size") "pipeline_parallel_world_size"
  raise_if (leb tp_world tp_rank || leb pp_world pp_rank) shard_outside_world
  ok (record {
    tensor_parallel_rank = tp_rank;
    tensor_parallel_world_size = tp_world;
    pipeline_parallel_rank = pp_rank;
    pipeline_parallel_world_size = pp_world;
  })

pub record IsShard (s : Shard) : Type 0 where
  pub tensor : s.tensor_parallel_rank < s.tensor_parallel_world_size
  pub pipeline : s.pipeline_parallel_rank < s.pipeline_parallel_world_size

pub validate_shard-IsShard : (shard : Fields) → Ensures IsShard (validate_shard shard)
unfolding validate_shard
validate_shard-IsShard shard =
    Ensures-skip (nonnegative_int (get shard "tensor_parallel_rank") "tensor_parallel_rank") _
      λ tp_rank. Ensures-bind _ _ (positive-Ensures _ _) λ tp_world _.
        Ensures-skip (nonnegative_int (get shard "pipeline_parallel_rank") "pipeline_parallel_rank")
          _
          λ pp_rank. Ensures-bind _ _ (positive-Ensures _ _) λ pp_world _.
            Ensures-raise_if (leb tp_world tp_rank || leb pp_world pp_rank) _ _
              λ inside. Ensures-ok _ (record { tensor = ground arith; pipeline = ground arith })

-- `_validate_adapter_profile`
unfoldable pub validate_adapter_profile : Fields → Checked (Unit {0})
validate_adapter_profile profile = do
  nonempty (get profile "adapter_id") "adapter profile adapter_id"
  nonempty (get profile "adapter_version") "adapter profile adapter_version"
  nonempty (get profile "backend_version") "adapter profile backend_version"
  nonempty (get profile "profile_id") "adapter profile profile_id"
  ok tt
