-- ===== src/SharedPool/Binding/Examples.antt =====
-- A receipt with a pool on each of two devices, and the one that a rank imports.
use kapsl_integrations.Prelude.{
  ℕ, true, false, Option, none, some, List, [], ◌∷◌, ok, err, str_eq, if◌then◌else◌, ◌≡◌, refl,
}
use kapsl_integrations.Prelude.Values.{
  ℤ, pos, negsuc, Value, Fields, int, str, obj, arr, no_fields, entry, item, no_items, get, lookup,
  elements, same_value,
}
use kapsl_integrations.SharedPool.Binding.{
  KvCacheConfig, Selection, device_bindings, stride_differs, sizes_differ, not_whole_blocks,
  bounds_outside, elastic_forbidden, rank_missing, rank_not_integer, vllm_backing_geometry,
  is_cuda_candidate, cuda_candidates, on_device, match_device, choose, listed_pools, int_of,
  check_elastic, check_binding, vllm_distributed_rank, select_cuda_binding,
}
use kapsl_integrations.SharedPool.Binding.Selected.{SelectedFrom, select_cuda_binding-SelectedFrom}

abbrev number : ℕ → Value
number n = int (pos n)

-- Here `int` reads the text "2" alone.
abbrev convert : Value → Option ℤ
convert (str text) = if str_eq text "2" then some (pos 2) else none
convert _ = none

abbrev elastic : ℕ → Value
elastic mapped = obj (
    entry "minimum_block_count" (number 2) (
      entry "mapped_block_count" (number mapped)
        (entry "maximum_block_count" (number 10) no_fields)))

abbrev pool : ℕ → ℕ → Value → Fields
pool device stride geometry = entry "capacity_pool_id" (str "vllm.pool.0") (
    entry "memory_domain"
      (obj (entry "kind" (str "cuda") (entry "device_id" (number device) no_fields)))
      (entry "transport" (obj (entry "kind" (str "cuda_vmm") no_fields)) (
        entry "allocation_mode" (str "participant_managed") (
          entry "block_count" (number 10)
            (entry "bytes_per_block" (number stride) (entry "elastic" geometry no_fields))))))

abbrev receipt_of : Fields → Fields → Fields
receipt_of p q =
    entry "shared_pools" (arr (item (obj p) (item Value.null (item (obj q) no_items)))) no_fields

abbrev config : KvCacheConfig
config = record { num_blocks = pos 10; tensor_sizes = pos 640 ∷ pos 640 ∷ [] }

abbrev placed : Option (List (ℕ × ℕ))
placed = some ((0, 4) ∷ (1, 7) ∷ [])

selects :
    select_cuda_binding convert
      (receipt_of (pool 4 64 (elastic 6)) (pool 7 64 (elastic 8)))
      config
      placed
      (ok (pos 1))
      true
    ≡ ok (pool 7 64 (elastic 8))
unfolding select_cuda_binding vllm_backing_geometry listed_pools cuda_candidates is_cuda_candidate
    choose match_device on_device check_binding check_elastic int_of get lookup elements same_value
selects = refl

select_cuda_binding-SelectedFrom_example :
    (pools : List Value) × ((listed_pools
          (get (receipt_of (pool 4 64 (elastic 6)) (pool 7 64 (elastic 8))) "shared_pools")
        ≡ ok pools)
      × SelectedFrom convert config placed (ok (pos 1)) true pools (pool 7 64 (elastic 8)))
select_cuda_binding-SelectedFrom_example =
    select_cuda_binding-SelectedFrom convert
      (receipt_of (pool 4 64 (elastic 6)) (pool 7 64 (elastic 8))) config placed (ok (pos 1)) true
      (pool 7 64 (elastic 8)) selects

two_on_a_device :
    select_cuda_binding convert
      (receipt_of (pool 7 64 (elastic 6)) (pool 7 64 (elastic 8)))
      config
      placed
      (ok (pos 1))
      true
    ≡ err (device_bindings 2)
unfolding select_cuda_binding vllm_backing_geometry listed_pools cuda_candidates is_cuda_candidate
    choose match_device on_device check_binding check_elastic int_of get lookup elements same_value
two_on_a_device = refl

rank_without_device :
    select_cuda_binding convert
      (receipt_of (pool 4 64 (elastic 6)) (pool 7 64 (elastic 8)))
      config
      placed
      (ok (negsuc 0))
      true
    ≡ err rank_missing
unfolding select_cuda_binding vllm_backing_geometry listed_pools cuda_candidates is_cuda_candidate
    choose match_device on_device check_binding check_elastic int_of get lookup elements same_value
rank_without_device = refl

check_of : Fields → Selection Fields
unfolding check_binding
check_of =
    check_binding convert true
      (record { allocation_bytes = 640; num_blocks = 10; bytes_per_block = 64 })

stride_refused : check_of (pool 4 32 (elastic 6)) ≡ err stride_differs
unfolding check_of check_elastic check_binding int_of get lookup
stride_refused = refl

mapped_above : check_of (pool 4 64 (elastic 11)) ≡ err bounds_outside
unfolding check_of check_elastic check_binding int_of get lookup
mapped_above = refl

fixed_with_bounds :
    check_elastic convert false
      (record { allocation_bytes = 640; num_blocks = 10; bytes_per_block = 64 })
      (elastic 6)
    ≡ err elastic_forbidden
unfolding check_elastic
fixed_with_bounds = refl

sizes_refused :
    vllm_backing_geometry (record { num_blocks = pos 10; tensor_sizes = pos 640 ∷ pos 320 ∷ [] })
    ≡ err sizes_differ
unfolding vllm_backing_geometry
sizes_refused = refl

remainder_refused :
    vllm_backing_geometry (record { num_blocks = pos 10; tensor_sizes = pos 645 ∷ [] })
    ≡ err not_whole_blocks
unfolding vllm_backing_geometry
remainder_refused = refl

variable_read : vllm_distributed_rank convert none (some "2") ≡ ok (pos 2)
unfolding vllm_distributed_rank
variable_read = refl

variable_refused : vllm_distributed_rank convert none (some "two") ≡ err rank_not_integer
unfolding vllm_distributed_rank
variable_refused = refl
