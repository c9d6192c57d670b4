-- ===== src/Connector/Ranks.antt =====
-- The helpers of connector.py that read the placement of ranks on devices from the configuration:
-- `_positive_integer`, `_strict_nonnegative_integer`, `_canonical_rank`, `_rank_device_map` and
-- `_validated_shared_rank_device_map`; and the other readers of the extra configuration.
pub mod Pigeonhole
pub mod Placement
pub mod Examples
use Prim.Native.Char.{code}
use kapsl_integrations.Prelude.{
  ℕ, zero, suc, ◌+◌, ◌-◌, ◌*◌, ◌^◌, String, Bool, true, false, not, ◌&&◌, ◌||◌, Option, none, some,
  List, [], ◌∷◌, Result, ok, err, raise_if, traverse, length, map, ltb, leb, ◌==◌, str_eq,
  if◌then◌else◌, ◌>>=◌, ◌>>◌,
}
use kapsl_integrations.Prelude.Sorting.{contains, distinct, range}
use kapsl_integrations.Prelude.Values.{
  ℤ, pos, negsuc, Value, Fields, int, str, bool, obj, arr, get, elements,
}
use kapsl_integrations.Client.Poll.{equal_sets}

-- `ValueError`, and `SharedPoolImportError` of the elastic receipt.
pub data ConfigError : Type 0 where
  not_positive not_unsigned : String → ConfigError
  rank_not_canonical not_an_object duplicate_rank empty_map : ConfigError
  domains_mismatch map_required ranks_mismatch devices_mismatch : ConfigError
  no_domains not_a_boolean conformance_without_resize : ConfigError
  no_pools pool_not_an_object no_elastic shapes_differ bounds_disordered : ConfigError

abbrev pub Read : Type 0 → Type 0
Read A = Result ConfigError A

-- `_positive_integer`
unfoldable pub positive_integer : Value → String → Read ℕ
positive_integer (int (pos (suc n))) field = ok (suc n)
positive_integer _ field = err (not_positive field)

unfoldable pub strict_nonnegative_integer : Value → String → Read ℕ
strict_nonnegative_integer (int (pos n)) field =
    if ltb (2 ^ 64 - 1) n then err (not_unsigned field) else ok n
strict_nonnegative_integer _ field = err (not_unsigned field)

abbrev pub is_digit : ℕ → Bool
is_digit c = leb 48 c && leb c 57

-- `int(value)` of digits, and whether all are.
unfoldable pub decimal : ℕ → String → Option ℕ
decimal n String.[] = some n
decimal n (String.◌∷◌ c s) =
    let rest = decimal (10 * n + (code c - 48)) s in if is_digit (code c) then rest else none

-- "0", or digits of which the first is not 0.
unfoldable pub canonical_digits : String → Option ℕ
unfolding decimal
canonical_digits String.[] = none
canonical_digits (String.◌∷◌ c s) =
    if str_eq (String.◌∷◌ c s) "0"
    then some 0
    else if leb 49 (code c) && leb (code c) 57
    then decimal (code c - 48) s
    else none

unfoldable pub canonical_rank : Value → Read ℕ
unfolding strict_nonnegative_integer canonical_digits
canonical_rank (int z) = strict_nonnegative_integer (int z) "kapsl_rank_device_map rank"
canonical_rank (str s) = elim (canonical_digits s) [
  | none ↦ err rank_not_canonical
  | some n ↦ strict_nonnegative_integer (int (pos n)) "kapsl_rank_device_map rank"
]
canonical_rank _ = err rank_not_canonical

-- `kapsl_rank_device_map`: absent, another value, or the items of a mapping, whose keys may be texts or
-- numbers.
pub data RawMap : Type 0 where
  absent not_a_mapping : RawMap
  items : List (Value × Value) → RawMap

abbrev pub ranks_of : List (ℕ × ℕ) → List ℕ
ranks_of [] = []
ranks_of ((rank, device) ∷ rest) = rank ∷ ranks_of rest

abbrev pub devices_of : List (ℕ × ℕ) → List ℕ
devices_of [] = []
devices_of ((rank, device) ∷ rest) = device ∷ devices_of rest

-- The loop, with the ranks so far.
unfoldable pub read_items : List ℕ → List (Value × Value) → Read (List (ℕ × ℕ))
unfolding canonical_rank strict_nonnegative_integer
read_items seen [] = ok []
read_items seen ((raw_rank, raw_device_id) ∷ rest) = do
  rank ← canonical_rank raw_rank
  device_id ← strict_nonnegative_integer raw_device_id "kapsl_rank_device_map device ID"
  raise_if (contains ◌==◌ seen rank) duplicate_rank
  later ← read_items (rank ∷ seen) rest
  ok ((rank, device_id) ∷ later)

abbrev pub is_empty_map : List (ℕ × ℕ) → Bool
is_empty_map [] = true
is_empty_map (e ∷ es) = false

unfoldable pub rank_device_map : RawMap → Read (Option (List (ℕ × ℕ)))
unfolding read_items
rank_device_map absent = ok none
rank_device_map not_a_mapping = err not_an_object
rank_device_map (items raw) = do
  result ← read_items [] raw
  raise_if (is_empty_map result) empty_map
  ok (some result)

-- The checks of a map against the ranks and the devices, and of its absence.
unfoldable pub check_map : ℕ → List ℕ → Option (List (ℕ × ℕ)) → Read (Option (List (ℕ × ℕ)))
check_map size device_ids none = if size == 1 then ok none else err map_required
check_map size device_ids (some placed) = do
  raise_if (not (equal_sets (ranks_of placed) (range 0 size))) ranks_mismatch
  raise_if (not (equal_sets (devices_of placed) device_ids)) devices_mismatch
  ok (some placed)

unfoldable pub validated_shared_rank_device_map :
    RawMap → List Fields → Value → Read (Option (List (ℕ × ℕ)))
unfolding rank_device_map check_map positive_integer strict_nonnegative_integer
validated_shared_rank_device_map raw_map memory_domains tensor_parallel_size = do
  size ← positive_integer tensor_parallel_size "vLLM tensor_parallel_size"
  device_ids ←
      traverse (λ d. strict_nonnegative_integer (get d "device_id") "device_id") memory_domains
  raise_if (not (length device_ids == size) || not (distinct ◌==◌ device_ids)) domains_mismatch
  placed ← rank_device_map raw_map
  check_map size device_ids placed

-- `_required_memory_domains`: a list that is not empty, of objects.
abbrev pub domain_of : Value → Read Fields
domain_of (obj fields') = ok fields'
domain_of _ = err not_an_object

abbrev pub nonempty_domains : List Value → Read (List Value)
nonempty_domains [] = err no_domains
nonempty_domains (v ∷ vs) = ok (v ∷ vs)

unfoldable pub required_memory_domains : Value → Read (List Fields)
required_memory_domains (arr raw) = do
  values ← nonempty_domains (elements raw)
  traverse domain_of values
required_memory_domains _ = err no_domains

-- `_validated_vmm_conformance`
unfoldable pub validated_vmm_conformance : Value → Bool → Read Bool
validated_vmm_conformance (bool b) live_resize = do
  raise_if (b && not live_resize) conformance_without_resize
  ok b
validated_vmm_conformance _ live_resize = err not_a_boolean

-- `_elastic_receipt_block_counts`: the one shape of all pools.
abbrev pub fields_of : Value → ConfigError → Read Fields
fields_of (obj fields') error = ok fields'
fields_of _ error = err error

unfoldable pub shape_of : Value → Read (ℕ × (ℕ × ℕ))
shape_of raw = do
  pool ← fields_of raw pool_not_an_object
  elastic ← fields_of (get pool "elastic") no_elastic
  minimum ← positive_integer (get elastic "minimum_block_count") "minimum_block_count"
  mapped ← positive_integer (get elastic "mapped_block_count") "mapped_block_count"
  maximum ← positive_integer (get elastic "maximum_block_count") "maximum_block_count"
  ok (minimum, (mapped, maximum))

abbrev pub same_counts : ℕ × (ℕ × ℕ) → ℕ × (ℕ × ℕ) → Bool
same_counts a b = a.0 == b.0 && (a.1.0 == b.1.0 && a.1.1 == b.1.1)

abbrev pub all_alike : ℕ × (ℕ × ℕ) → List (ℕ × (ℕ × ℕ)) → Bool
all_alike a [] = true
all_alike a (b ∷ bs) = same_counts a b && all_alike a bs

unfoldable pub one_shape : List (ℕ × (ℕ × ℕ)) → Read (ℕ × ℕ)
one_shape [] = err no_pools
one_shape (a ∷ shapes) = do
  raise_if (not (all_alike a shapes)) shapes_differ
  raise_if (ltb a.1.0 a.0 || ltb a.1.1 a.1.0) bounds_disordered
  ok a.1

unfoldable pub elastic_receipt_block_counts : Fields → Read (ℕ × ℕ)
unfolding shape_of one_shape positive_integer
elastic_receipt_block_counts receipt = counts (get receipt "shared_pools")
  where
    counts : Value → Read (ℕ × ℕ)
    counts (arr raw) = traverse shape_of (elements raw) >>= one_shape
    counts _ = err no_pools
