-- ===== src/Contract/Capacity.antt =====
-- The capacity model of a registration in contract.py: its groups and their memory domains.
use kapsl_integrations.Prelude.{
  ℕ, ◌<◌, ◌≡◌, String, Bool, true, false, not, ◌&&◌, Option, none, some, List, [], ◌∷◌, ok, err,
  raise_if, all, ◌==◌, str_eq, if◌then◌else◌, Ensures, Ensures-ok, Ensures-err, Ensures-bind,
  Ensures-skip, Ensures-raise_if, ◌>>=◌, ◌>>◌,
}
use kapsl_integrations.Prelude.Sorting.{contains}
use kapsl_integrations.Prelude.Values.{Value, Fields, null, get}
use kapsl_integrations.Contract.Checks.{
  Checked, mapping, nonempty, positive_int, nonnegative_int, capacity_groups_not_unique,
  domains_missing, unknown_domain, domains_not_unique, domains_differ, maximum_missing,
}
use kapsl_integrations.Contract.Segments.{positive-Ensures}
use kapsl_integrations.Contract.Attachment.{nonempty_list}

-- The tuples that identify a memory domain.
pub data Domain : Type 0 where
  host : Domain
  cuda : ℕ → Domain
  provided : String → String → Option ℕ → Domain

abbrev pub same_device : Option ℕ → Option ℕ → Bool
same_device none none = true
same_device (some m) (some n) = m == n
same_device _ _ = false

abbrev pub same_domain : Domain → Domain → Bool
same_domain host host = true
same_domain (cuda m) (cuda n) = m == n
same_domain (provided k p d) (provided k' p' d') = str_eq k k' && str_eq p p' && same_device d d'
same_domain _ _ = false

-- `if device_id is not None`
unfoldable pub optional_device : Value → Checked (Option ℕ)
optional_device null = ok none
optional_device value = do device ← nonnegative_int value "device_id"; ok (some device)

unfoldable pub domain_identity : Fields → Checked Domain
domain_identity domain = do
  kind ← nonempty (get domain "kind") "memory domain kind"
  if str_eq kind "host"
      then ok host
      else if str_eq kind "cuda"
      then (do device ← nonnegative_int (get domain "device_id") "device_id"; ok (cuda device))
      else if contains str_eq ("host_pinned" ∷ "host_mapped" ∷ "provider" ∷ []) kind
      then (do
        provider ← nonempty (get domain "provider") "memory domain provider"
        device ← optional_device (get domain "device_id")
        ok (provided kind provider device))
      else err unknown_domain

-- The loop over the domains of a group: the set `seen_domains` in the order of insertion, last first.
unfoldable pub validate_domains : List Domain → List Value → Checked (List Domain)
validate_domains seen [] = ok seen
validate_domains seen (raw_domain ∷ rest) = do
  domain ← mapping raw_domain "memory domain"
  identity ← domain_identity domain
  raise_if (contains same_domain seen identity) domains_not_unique
  validate_domains (identity ∷ seen) rest

-- `==` of sets.
abbrev pub same_set : {A : Type 0} → (A → A → Bool) → List A → List A → Bool
same_set eq xs ys = all (contains eq ys) xs && all (contains eq xs) ys

-- `pool_domains.setdefault(pool_id, seen_domains)` as the value found, with the dictionary after it.
abbrev pub find_pool : List (String × List Domain) → String → Option (List Domain)
find_pool [] pool_id = none
find_pool ((name, domains) ∷ rest) pool_id =
    if str_eq name pool_id then some domains else find_pool rest pool_id

abbrev pub pool_differs : Option (List Domain) → List Domain → Bool
pool_differs none domains = false
pool_differs (some previous) domains = not (same_set same_domain previous domains)

abbrev pub with_pool :
    Option (List Domain)
    → String
    → List Domain
    → List (String × List Domain)
    → List (String × List Domain)
with_pool none pool_id domains pools = (pool_id, domains) ∷ pools
with_pool (some previous) pool_id domains pools = pools

pub record CapacityGroup : Type 0 where
  pub group_id : String
  pub pool_id : String
  pub allocation_granularity_tokens : ℕ
  pub bytes_per_allocation : ℕ
  pub memory_domains : List Domain
  pub max_allocations : Option ℕ

-- `group.get("max_allocations")`, which a shared pool needs.
unfoldable pub maximum_allocations : Bool → Value → Checked (Option ℕ)
maximum_allocations true null = err maximum_missing
maximum_allocations false null = ok none
maximum_allocations shared value = do
  maximum ← positive_int value "max_allocations"
  ok (some maximum)

unfoldable pub validate_capacity_groups :
    Bool → List String → List (String × List Domain) → List Value → Checked (List CapacityGroup)
validate_capacity_groups shared seen pools [] = ok []
validate_capacity_groups shared seen pools (raw_group ∷ rest) = do
  group ← mapping raw_group "capacity group"
  group_id ← nonempty (get group "group_id") "capacity group_id"
  pool_id ← nonempty (get group "pool_id") "capacity pool_id"
  raise_if (contains str_eq seen group_id) capacity_groups_not_unique
  tokens ← positive_int (get group "allocation_granularity_tokens") "allocation_granularity_tokens"
  bytes ← positive_int (get group "bytes_per_allocation") "bytes_per_allocation"
  raw_domains ← nonempty_list domains_missing (get group "memory_domains")
  domains ← validate_domains [] raw_domains
  let previous = find_pool pools pool_id
  raise_if (pool_differs previous domains) domains_differ
  maximum ← maximum_allocations shared (get group "max_allocations")
  groups ←
      validate_capacity_groups shared (group_id ∷ seen) (with_pool previous pool_id domains pools)
        rest
  ok (
      record {
        group_id = group_id;
        pool_id = pool_id;
        allocation_granularity_tokens = tokens;
        bytes_per_allocation = bytes;
        memory_domains = domains;
        max_allocations = maximum;
      }
      ∷ groups)

-- A group of a shared pool has a maximum.
abbrev pub HasMaximum : Bool → Option ℕ → Type 0
HasMaximum true none = false ≡ true
HasMaximum false none = Unit
HasMaximum shared (some n) = 0 < n

abbrev pub IsCapacityGroup : Bool → CapacityGroup → Type 0
IsCapacityGroup shared g =
    (0 < g.allocation_granularity_tokens)
    × (0 < g.bytes_per_allocation)
    × HasMaximum shared g.max_allocations

-- Each group is new, sound, and has the domains of the first group of its pool.
abbrev pub AreCapacityGroups :
    Bool → List String → List (String × List Domain) → List CapacityGroup → Type 0
AreCapacityGroups shared seen pools [] = Unit
AreCapacityGroups shared seen pools (g ∷ gs) =
    (contains str_eq seen g.group_id ≡ false)
    × IsCapacityGroup shared g
    × (pool_differs (find_pool pools g.pool_id) g.memory_domains ≡ false)
    × AreCapacityGroups shared (g.group_id ∷ seen)
        (with_pool (find_pool pools g.pool_id) g.pool_id g.memory_domains pools) gs

maximum_allocations-Ensures :
    (shared : Bool) (value : Value) → Ensures (HasMaximum shared) (maximum_allocations shared value)
unfolding maximum_allocations
maximum_allocations-Ensures true null = Ensures-err _
maximum_allocations-Ensures false null = Ensures-ok _ tt
maximum_allocations-Ensures shared value =
    Ensures-bind _ _ (positive-Ensures value "max_allocations")
      λ maximum positive. Ensures-ok _ positive

pub validate_capacity_groups-Ensures :
    (shared : Bool) (seen : List String) (pools : List (String × List Domain)) (raw : List Value)
    → Ensures (AreCapacityGroups shared seen pools) (validate_capacity_groups shared seen pools raw)
unfolding validate_capacity_groups
validate_capacity_groups-Ensures shared seen pools [] = Ensures-ok _ tt
validate_capacity_groups-Ensures shared seen pools (raw_group ∷ rest) =
    Ensures-skip (mapping raw_group "capacity group") _ λ group.
      Ensures-skip (nonempty (get group "group_id") "capacity group_id") _ λ group_id.
        Ensures-skip (nonempty (get group "pool_id") "capacity pool_id") _ λ pool_id.
          Ensures-raise_if (contains str_eq seen group_id) _ _ λ new.
            Ensures-bind _ _
              (positive-Ensures (get group "allocation_granularity_tokens")
                "allocation_granularity_tokens")
              λ tokens t.
                Ensures-bind _ _
                  (positive-Ensures (get group "bytes_per_allocation") "bytes_per_allocation")
                  λ bytes b.
                    Ensures-skip (nonempty_list domains_missing (get group "memory_domains")) _
                      λ raw_domains. Ensures-skip (validate_domains [] raw_domains) _ λ domains.
                        Ensures-raise_if (pool_differs (find_pool pools pool_id) domains) _ _
                          λ agrees.
                            Ensures-bind _ _
                              (maximum_allocations-Ensures shared (get group "max_allocations"))
                              λ maximum m.
                                Ensures-bind _ _
                                  (validate_capacity_groups-Ensures shared (group_id ∷ seen)
                                    (with_pool (find_pool pools pool_id) pool_id domains pools)
                                    rest)
                                  λ groups hs. Ensures-ok _ (new, (t, b, m), agrees, hs)
