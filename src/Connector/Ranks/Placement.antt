-- ===== src/Connector/Ranks/Placement.antt =====
-- What `_validated_shared_rank_device_map` of connector.py accepts.
use kapsl_integrations.Prelude.{
  ℕ, zero, suc, Bool-cases, inl, inr, ◌<◌, Bool, true, false, not, ◌||◌, Option, none, some, List,
  [], ◌∷◌, ok, traverse, length, ◌==◌, ==_iff, ◌≡◌, ◌↔◌, refl, sym, ap, subst, arith, all, unnot,
  Ensures, Ensures-ok, Ensures-err, Ensures-bind, Ensures-skip, Ensures-raise_if, Ensures-if,
}
use kapsl_integrations.Prelude.Sorting.{distinct, range}
use kapsl_integrations.Prelude.Values.{Value, Fields, get}
use kapsl_integrations.Client.Poll.{equal_sets}
use kapsl_integrations.Client.Poll.Laws.{all-contains, and_parts, contains-range, equal_sets-range}
use kapsl_integrations.Connector.Ranks.{
  Read, RawMap, absent, not_a_mapping, items, canonical_rank, strict_nonnegative_integer,
  positive_integer, ranks_of, devices_of, read_items, is_empty_map, rank_device_map, check_map,
  validated_shared_rank_device_map,
}
use kapsl_integrations.Connector.Ranks.Pigeonhole.{has, distinct_fits, distinct_cover}

-- The ranks 0 to size - 1, each on a device of its own; together they have all the devices.
pub record IsPlacement (device_ids : List ℕ) (placed : List (ℕ × ℕ)) : Type 0 where
  pub ranked : (rank : ℕ) → (has (ranks_of placed) rank ≡ true) ↔ (rank < length device_ids)
  pub once : distinct ◌==◌ (ranks_of placed) ≡ true
  pub used : (device : ℕ) → (has (devices_of placed) device ≡ true) ↔ (has device_ids device ≡ true)
  pub apart : distinct ◌==◌ (devices_of placed) ≡ true

FreshRanks : List ℕ → List (ℕ × ℕ) → Type 0
FreshRanks seen placed =
    (distinct ◌==◌ (ranks_of placed) ≡ true)
    × ((r : ℕ) → has seen r ≡ true → has (ranks_of placed) r ≡ false)

read_items-Ensures :
    (seen : List ℕ) (raw : List (Value × Value)) → Ensures (FreshRanks seen) (read_items seen raw)
unfolding read_items FreshRanks
read_items-Ensures seen [] = Ensures-ok _ (refl, λ r h. refl)
read_items-Ensures seen ((raw_rank, raw_device_id) ∷ rest) =
    Ensures-skip (canonical_rank raw_rank) _ λ rank.
      Ensures-skip (strict_nonnegative_integer raw_device_id "kapsl_rank_device_map device ID") _
        λ device_id. Ensures-raise_if (has seen rank) _ _ λ new.
          Ensures-bind (read_items (rank ∷ seen) rest) _ (read_items-Ensures (rank ∷ seen) rest)
            λ later h. Ensures-ok _ (joins rank device_id later new h.0 h.1)
  where
    joins :
        (rank device_id : ℕ) (later : List (ℕ × ℕ))
        → has seen rank ≡ false
        → distinct ◌==◌ (ranks_of later) ≡ true
        → ((r : ℕ) → has (rank ∷ seen) r ≡ true → has (ranks_of later) r ≡ false)
        → FreshRanks seen ((rank, device_id) ∷ later)
    joins rank device_id later new d h = (
      let own = h rank (let self = (==_iff rank rank).1 refl in ground arith) in ground arith,
      λ r k. let old = h r (ground arith) in let other = apart r k in ground arith,
    )
      where
        apart : (r : ℕ) → has seen r ≡ true → (rank == r) ≡ false
        apart r k = elim (Bool-cases (rank == r)) [
          | inl e ↦ let same = ap (has seen) ((==_iff rank r).0 e) in cc
          | inr e ↦ e
        ]

abbrev Distinctly : Option (List (ℕ × ℕ)) → Type 0
Distinctly none = Unit
Distinctly (some placed) = distinct ◌==◌ (ranks_of placed) ≡ true

rank_device_map-Ensures : (raw : RawMap) → Ensures Distinctly (rank_device_map raw)
unfolding rank_device_map FreshRanks
rank_device_map-Ensures absent = Ensures-ok _ tt
rank_device_map-Ensures not_a_mapping = Ensures-err _
rank_device_map-Ensures (items raw) =
    Ensures-bind (read_items [] raw) _ (read_items-Ensures [] raw)
      λ placed h. Ensures-raise_if (is_empty_map placed) _ _ λ _. Ensures-ok _ h.0

length-ranks_of : (placed : List (ℕ × ℕ)) → length (devices_of placed) ≡ length (ranks_of placed)
length-ranks_of [] = refl
length-ranks_of ((rank, device) ∷ rest) = ap suc (length-ranks_of rest)

length-range : (start n : ℕ) → length (range start n) ≡ n
length-range start zero = refl
length-range start (suc n) = ap suc (length-range (suc start) n)

IsPlacement-of :
    (device_ids : List ℕ) (placed : List (ℕ × ℕ))
    → distinct ◌==◌ device_ids ≡ true
    → distinct ◌==◌ (ranks_of placed) ≡ true
    → equal_sets (ranks_of placed) (range 0 (length device_ids)) ≡ true
    → equal_sets (devices_of placed) device_ids ≡ true
    → IsPlacement device_ids placed
IsPlacement-of device_ids placed d once r e =
    let parts =
      and_parts {b = all (has (devices_of placed)) device_ids}
        {c = all (has device_ids) (devices_of placed)} e in
    let ranked = equal_sets-range (ranks_of placed) (length device_ids) in
    let few = distinct_fits (ranks_of placed) (range 0 (length device_ids)) once (λ x k.
      let small = (ranked x r).0 k in
      (contains-range 0 (length device_ids) x).1 (omega arith, omega (arith, small))) in
    record {
      ranked = λ x. ranked x r;
      once = once;
      used = λ x. (
        all-contains (has device_ids) (devices_of placed) x parts.1,
        all-contains (has (devices_of placed)) device_ids x parts.0,
      );
      apart =
          distinct_cover device_ids (devices_of placed) d
            (λ x k. all-contains (has (devices_of placed)) device_ids x parts.0 k)
            (omega (arith, few, length-ranks_of placed, length-range 0 (length device_ids)));
    }

-- The placement that is returned, if one is.
abbrev Placed : List ℕ → Option (List (ℕ × ℕ)) → Type 0
Placed device_ids none = Unit
Placed device_ids (some placed) = IsPlacement device_ids placed

check_map-Ensures :
    (device_ids : List ℕ) (placed : Option (List (ℕ × ℕ)))
    → distinct ◌==◌ device_ids ≡ true
    → Distinctly placed
    → Ensures (Placed device_ids) (check_map (length device_ids) device_ids placed)
unfolding check_map
check_map-Ensures device_ids none d once =
    Ensures-if (length device_ids == 1) _ _ (λ _. Ensures-ok _ tt) (λ _. Ensures-err _)
check_map-Ensures device_ids (some placed) d once =
    Ensures-raise_if (not (equal_sets (ranks_of placed) (range 0 (length device_ids)))) _ _ λ r.
      Ensures-raise_if (not (equal_sets (devices_of placed) device_ids)) _ _
        λ e. Ensures-ok _ (IsPlacement-of device_ids placed d once (unnot r) (unnot e))

-- The devices that the domains name, in their order.
abbrev pub device_list : List Fields → Read (List ℕ)
device_list domains =
    traverse (λ d. strict_nonnegative_integer (get d "device_id") "device_id") domains

abbrev PlacedOn : List Fields → Option (List (ℕ × ℕ)) → Type 0
PlacedOn domains placed =
    (device_ids : List ℕ) × ((device_list domains ≡ ok device_ids) × Placed device_ids placed)

same_size : {n size : ℕ} {b : Bool} → (not (n == size) || not b) ≡ false → (n ≡ size) × (b ≡ true)
same_size {n = n} {size = size} {b = b} h = ground arith

validated-Ensures :
    (raw_map : RawMap) (domains : List Fields) (tensor_parallel_size : Value)
    → Ensures
        (PlacedOn domains)
        (validated_shared_rank_device_map raw_map domains tensor_parallel_size)
unfolding validated_shared_rank_device_map
validated-Ensures raw_map domains tensor_parallel_size =
    Ensures-skip (positive_integer tensor_parallel_size "vLLM tensor_parallel_size") _ λ size.
      Ensures-bind (device_list domains) _ (itself (device_list domains)) λ device_ids read.
        Ensures-raise_if (not (length device_ids == size) || not (distinct ◌==◌ device_ids)) _ _
          λ fits.
            Ensures-bind (rank_device_map raw_map) _ (rank_device_map-Ensures raw_map)
              λ placed once. record {
                at = λ out e.
                    let sizes = same_size {b = distinct ◌==◌ device_ids} fits in
                    (
                      device_ids,
                      (
                        read,
                        (check_map-Ensures device_ids placed sizes.1 once).at out
                            (subst (λ n. check_map n device_ids placed ≡ ok out) (sym sizes.0) e),
                      ),
                    );
              }
  where
    itself : {A : Type 0} (m : Read A) → Ensures (λ a. m ≡ ok a) m
    itself m = record { at = λ a h. h }

-- A map that is accepted gives each rank below the number of the memory domains exactly one device, no
-- two ranks the same one, and the ranks together all the devices of the domains and no other.
pub validated_shared_rank_device_map-IsPlacement :
    (raw_map : RawMap) (domains : List Fields) (tensor_parallel_size : Value)
    (placed : List (ℕ × ℕ))
    → validated_shared_rank_device_map raw_map domains tensor_parallel_size ≡ ok (some placed)
    → (device_ids : List ℕ) × ((device_list domains ≡ ok device_ids)
        × IsPlacement device_ids placed)
validated_shared_rank_device_map-IsPlacement raw_map domains tensor_parallel_size placed h =
    (validated-Ensures raw_map domains tensor_parallel_size).at (some placed) h
