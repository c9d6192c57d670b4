-- ===== src/SharedPool/Binding.antt =====
-- `vllm_backing_geometry`, `select_cuda_binding` and `vllm_distributed_rank` of shared_pool.py: the
-- binding of a receipt that a worker imports, checked against vLLM's allocator.
pub mod Selected
pub mod Examples
use kapsl_integrations.Prelude.{
  ℕ, zero, suc, ◌*◌, ◌/◌, ◌%◌, String, Bool, true, false, not, ◌&&◌, ◌||◌, Option, none, some, List,
  [], ◌∷◌, Result, ok, err, raise_if, length, all, ltb, leb, ◌==◌, str_eq, if◌then◌else◌, ◌>>=◌,
  ◌>>◌,
}
use kapsl_integrations.Prelude.Values.{
  ℤ, pos, negsuc, Value, Fields, null, int, bool, float, str, obj, arr, item, get, get_or, elements,
  same_integer, same_value,
}

-- `SharedPoolImportError` by its case, the `AssertionError`, and the error that `int` raises.
pub data BindingError : Type 0 where
  no_tensors sizes_differ not_whole_blocks : BindingError
  no_bindings no_transport map_required rank_missing rank_unknown rank_not_integer : BindingError
  device_bindings : ℕ → BindingError
  not_participant_managed blocks_differ stride_differs geometry_changed : BindingError
  no_elastic maximum_differs bounds_outside elastic_forbidden not_a_number : BindingError

abbrev pub Selection : Type 0 → Type 0
Selection A = Result BindingError A

-- The fields of vLLM's `KVCacheConfig`, 0 and `[]` where they are missing.
pub record KvCacheConfig : Type 0 where
  pub num_blocks : ℤ
  pub tensor_sizes : List ℤ

pub record Backing : Type 0 where
  pub allocation_bytes : ℕ
  pub num_blocks : ℕ
  pub bytes_per_block : ℕ

abbrev pub present : {A : Type 0} → Option A → BindingError → Selection A
present none error = err error
present (some a) error = ok a

abbrev pub above_zero : ℤ → Option ℕ
above_zero (pos (suc n)) = some (suc n)
above_zero _ = none

-- The element of a set of one size.
abbrev pub one_size : List ℤ → Option ℤ
one_size [] = none
one_size (z ∷ zs) = if all (same_integer z) zs then some z else none

abbrev pub no_sizes : List ℤ → Bool
no_sizes [] = true
no_sizes (z ∷ zs) = false

unfoldable pub vllm_backing_geometry : KvCacheConfig → Selection Backing
vllm_backing_geometry config = do
  num_blocks ← present (above_zero config.num_blocks) no_tensors
  raise_if (no_sizes config.tensor_sizes) no_tensors
  size ← present (one_size config.tensor_sizes) sizes_differ
  allocation_bytes ← present (above_zero size) sizes_differ
  raise_if (ltb 0 (allocation_bytes % num_blocks) || allocation_bytes / num_blocks == 0)
      not_whole_blocks
  ok (record {
    allocation_bytes = allocation_bytes;
    num_blocks = num_blocks;
    bytes_per_block = allocation_bytes / num_blocks;
  })

abbrev pub is_the_text : Value → String → Bool
is_the_text (str s) t = str_eq s t
is_the_text _ t = false

-- `value.get(key)` of a mapping; another value has no such field.
abbrev pub field_of : Value → String → Value
field_of (obj fields) key = get fields key
field_of _ key = null

abbrev pub expected_transport : Bool → String
expected_transport true = "cuda_vmm"
expected_transport false = "cuda_ipc"

unfoldable pub is_cuda_candidate : Bool → Fields → Bool
is_cuda_candidate live_resize pool =
    is_the_text (get pool "capacity_pool_id") "vllm.pool.0"
    && is_the_text (field_of (get pool "memory_domain") "kind") "cuda"
    && is_the_text (field_of (get pool "transport") "kind") (expected_transport live_resize)

unfoldable pub cuda_candidates : Bool → List Value → List Fields
cuda_candidates live_resize [] = []
cuda_candidates live_resize (obj pool ∷ rest) =
    let others = cuda_candidates live_resize rest in
    if is_cuda_candidate live_resize pool then pool ∷ others else others
cuda_candidates live_resize (_ ∷ rest) = cuda_candidates live_resize rest

-- The candidates on one device.
unfoldable pub on_device : ℕ → List Fields → List Fields
on_device device_id [] = []
on_device device_id (pool ∷ rest) =
    let others = on_device device_id rest in
    if same_value (field_of (get pool "memory_domain") "device_id") (int (pos device_id))
    then pool ∷ others
    else others

-- `rank_device_map.get(rank)`: the keys are numbers, as `_rank_device_map` of connector.py makes them,
-- so that the look-up of `str(rank)` finds nothing more.
abbrev pub device_of : List (ℕ × ℕ) → ℤ → Option ℕ
device_of [] rank = none
device_of ((r, device) ∷ rest) rank =
    if same_integer (pos r) rank then some device else device_of rest rank

-- The one match.
abbrev pub one_match : List Fields → Selection Fields
one_match (pool ∷ []) = ok pool
one_match pools = err (device_bindings (length pools))

unfoldable pub match_device : List Fields → Option (List (ℕ × ℕ)) → Selection ℤ → Selection Fields
match_device pools rank_device_map global_rank = do
  rank ← global_rank
  placed ← present rank_device_map map_required
  device_id ← present (device_of placed rank) rank_missing
  one_match (on_device device_id pools)

-- The binding: the one candidate, or that of the rank's device.
unfoldable pub choose : List Fields → Option (List (ℕ × ℕ)) → Selection ℤ → Selection Fields
unfolding match_device
choose [] rank_device_map global_rank = err no_transport
choose (pool ∷ []) rank_device_map global_rank = ok pool
choose pools rank_device_map global_rank = match_device pools rank_device_map global_rank

unfoldable pub listed_pools : Value → Selection (List Value)
listed_pools (arr (item v vs)) = ok (v ∷ elements vs)
listed_pools _ = err no_bindings

-- What `int` makes of a text, or of a float that is not whole, is a parameter: `none` where it raises.
module _ (convert : Value → Option ℤ) where
  unfoldable pub int_of : Value → Selection ℤ
  int_of (int z) = ok z
  int_of (bool true) = ok (pos 1)
  int_of (bool false) = ok (pos 0)
  int_of (float (some z) text) = ok z
  int_of (float none text) = present (convert (float none text)) not_a_number
  int_of (str text) = present (convert (str text)) not_a_number
  int_of _ = err not_a_number

  -- `torch`'s rank where it is initialised, else the variable RANK.
  unfoldable pub vllm_distributed_rank : Option ℤ → Option String → Selection ℤ
  vllm_distributed_rank (some rank) variable = ok rank
  vllm_distributed_rank none none = err rank_unknown
  vllm_distributed_rank none (some raw_rank) = present (convert (str raw_rank)) rank_not_integer

  -- `int(mapping.get(key, 0))`
  abbrev pub count_of : Fields → String → Selection ℤ
  count_of fields key = int_of (get_or fields key (int (pos 0)))

  abbrev pub fields_of_elastic : Value → Selection Fields
  fields_of_elastic (obj elastic) = ok elastic
  fields_of_elastic _ = err no_elastic

  -- 0 < minimum <= mapped <= blocks, of integers.
  abbrev pub in_capacity : ℤ → ℤ → ℕ → Bool
  in_capacity (pos (suc m)) (pos n) blocks = leb (suc m) n && leb n blocks
  in_capacity _ _ blocks = false

  abbrev pub is_absent : Value → Bool
  is_absent null = true
  is_absent _ = false

  unfoldable pub check_elastic : Bool → Backing → Value → Selection (Unit {0})
  unfolding int_of
  check_elastic true backing raw = do
    elastic ← fields_of_elastic raw
    maximum ← count_of elastic "maximum_block_count"
    raise_if (not (same_integer maximum (pos backing.num_blocks))) maximum_differs
    minimum_blocks ← count_of elastic "minimum_block_count"
    mapped_blocks ← count_of elastic "mapped_block_count"
    raise_if (not (in_capacity minimum_blocks mapped_blocks backing.num_blocks)) bounds_outside
  check_elastic false backing raw = raise_if (not (is_absent raw)) elastic_forbidden

  unfoldable pub check_binding : Bool → Backing → Fields → Selection Fields
  unfolding check_elastic int_of
  check_binding live_resize backing binding = do
    raise_if (not (is_the_text (get binding "allocation_mode") "participant_managed"))
        not_participant_managed
    blocks ← count_of binding "block_count"
    raise_if (not (same_integer blocks (pos backing.num_blocks))) blocks_differ
    stride ← count_of binding "bytes_per_block"
    raise_if (not (same_integer stride (pos backing.bytes_per_block))) stride_differs
    raise_if (not (backing.allocation_bytes == backing.num_blocks * backing.bytes_per_block))
        geometry_changed
    check_elastic live_resize backing (get binding "elastic")
    ok binding

  -- `global_rank` is the argument, or the rank of `vllm_distributed_rank`.
  unfoldable pub select_cuda_binding :
      Fields → KvCacheConfig → Option (List (ℕ × ℕ)) → Selection ℤ → Bool → Selection Fields
  unfolding vllm_backing_geometry listed_pools cuda_candidates choose check_binding int_of
  select_cuda_binding receipt kv_cache_config rank_device_map global_rank live_resize = do
    backing ← vllm_backing_geometry kv_cache_config
    pools ← listed_pools (get receipt "shared_pools")
    binding ← choose (cuda_candidates live_resize pools) rank_device_map global_rank
    check_binding live_resize backing binding
