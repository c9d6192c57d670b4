-- ===== src/SharedPool/Binding/Selected.antt =====
-- What `select_cuda_binding` of shared_pool.py returns.
use kapsl_integrations.Prelude.{
  String, str_eq_iff, ℕ, zero, suc, ◌*◌, ◌/◌, ◌%◌, ◌≤◌, ◌<◌, Bool, true, false, not, ◌||◌, ◌&&◌,
  Option, none, some, List, [], ◌∷◌, ok, all, All, ltb, ◌==◌, ==_iff, ◌≡◌, ◌⊎◌, inl, inr, refl, sym,
  ap, subst, ◌∙◌, arith, unnot, Bool-cases, if◌then◌else◌, Ensures, Ensures-ok, Ensures-err,
  Ensures-bind, Ensures-raise_if, raise_if,
}
use kapsl_integrations.Prelude.Values.{
  str, ℤ, pos, negsuc, Value, Fields, int, obj, get, same_integer, same_value,
}
use kapsl_integrations.SharedPool.Binding.{
  expected_transport, Selection, BindingError, KvCacheConfig, Backing, present, above_zero,
  one_size, no_sizes, vllm_backing_geometry, is_cuda_candidate, cuda_candidates, on_device,
  device_of, one_match, match_device, choose, listed_pools, count_of, fields_of_elastic,
  in_capacity, is_absent, check_elastic, check_binding, bounds_outside, elastic_forbidden,
  select_cuda_binding, field_of, is_the_text,
}

-- A binding is the only candidate, or the only one on the device of the rank.
pub IsChosen : List Fields → Option (List (ℕ × ℕ)) → Selection ℤ → Fields → Type 0
IsChosen pools rank_device_map global_rank binding =
    (pools ≡ binding ∷ [])
    ⊎ ((rank : ℤ) × ((placed : List (ℕ × ℕ)) × ((device_id : ℕ) × ((global_rank ≡ ok rank)
              × ((rank_device_map ≡ some placed)
                  × ((device_of placed rank ≡ some device_id)
                      × (on_device device_id pools ≡ binding ∷ [])))))))

-- All tensors of the allocator have the size of the backing, which is a whole number of blocks.
pub record IsBacking (config : KvCacheConfig) (backing : Backing) : Type 0 where
  pub block_total : config.num_blocks ≡ pos backing.num_blocks
  pub uniform : all (same_integer (pos backing.allocation_bytes)) config.tensor_sizes ≡ true
  pub some_size : no_sizes config.tensor_sizes ≡ false
  pub stride_positive : 0 < backing.bytes_per_block

present-Ensures :
    {A : Type 0} (a : Option A) (e : BindingError) → Ensures (λ b. a ≡ some b) (present a e)
present-Ensures none e = Ensures-err e
present-Ensures (some a) e = Ensures-ok a refl

own-Ensures : {A : Type 0} (m : Selection A) → Ensures (λ a. m ≡ ok a) m
own-Ensures m = record { at = λ a e. e }

above_zero_lem : (z : ℤ) (n : ℕ) → above_zero z ≡ some n → z ≡ pos n
above_zero_lem (pos zero) n h = cc
above_zero_lem (pos (suc m)) n h = cc
above_zero_lem (negsuc m) n h = cc

same_integer_lem : (z : ℤ) (n : ℕ) → same_integer z (pos n) ≡ true → z ≡ pos n
same_integer_lem (pos m) n h = ap pos ((==_iff m n).0 h)
same_integer_lem (negsuc m) n h = cc

some-injective : {A : Type 0} {a b : A} → some a ≡ some b → a ≡ b
some-injective h = cc

both_true : {a b : Bool} → a ≡ true → b ≡ true → (a && b) ≡ true
both_true {a = a} {b = b} e f = ground arith

one_size_lem :
    (sizes : List ℤ) (z : ℤ) (n : ℕ)
    → one_size sizes ≡ some z
    → z ≡ pos n
    → all (same_integer (pos n)) sizes ≡ true
one_size_lem [] z n h e = cc
one_size_lem (s ∷ sizes) z n h e = go (all (same_integer s) sizes) refl h
  where
    go :
        (b : Bool)
        → all (same_integer s) sizes ≡ b
        → (if b then some s else none) ≡ some z
        → all (same_integer (pos n)) (s ∷ sizes) ≡ true
    go true k h =
        let same = some-injective h ∙ e in
        let self = (==_iff n n).1 refl in
        rw same (both_true self (subst (λ t. all (same_integer t) sizes ≡ true) same k))
    go false k h = cc

vllm_backing_geometry-IsBacking :
    (config : KvCacheConfig) → Ensures (IsBacking config) (vllm_backing_geometry config)
unfolding vllm_backing_geometry
vllm_backing_geometry-IsBacking config =
    Ensures-bind (present (above_zero config.num_blocks) _) _ (present-Ensures _ _) λ blocks b.
      Ensures-raise_if (no_sizes config.tensor_sizes) _ _ λ full.
        Ensures-bind (present (one_size config.tensor_sizes) _) _ (present-Ensures _ _) λ size s.
          Ensures-bind (present (above_zero size) _) _ (present-Ensures _ _) λ bytes p.
            Ensures-raise_if (ltb 0 (bytes % blocks) || bytes / blocks == 0) _ _ λ whole.
              Ensures-ok _ (record {
                block_total = above_zero_lem config.num_blocks blocks b;
                uniform =
                    one_size_lem config.tensor_sizes size bytes s (above_zero_lem size bytes p);
                some_size = full;
                stride_positive = let q = bytes / blocks in ground arith;
              })

IsCandidates :
    (live_resize : Bool) (values : List Value)
    → All (λ pool. is_cuda_candidate live_resize pool ≡ true) (cuda_candidates live_resize values)
unfolding cuda_candidates
IsCandidates live_resize [] = tt
IsCandidates live_resize (obj pool ∷ rest) =
    elim (Bool-cases (is_cuda_candidate live_resize pool)) [
      | inl e ↦ rw e (e, IsCandidates live_resize rest)
      | inr e ↦ rw e (IsCandidates live_resize rest)
    ]
IsCandidates live_resize (_ ∷ rest) = IsCandidates live_resize rest

All-on_device :
    (P : Fields → Type 0) (device_id : ℕ) (pools : List Fields)
    → All P pools
    → All P (on_device device_id pools)
unfolding on_device
All-on_device P device_id [] h = tt
All-on_device P device_id (pool ∷ rest) h =
    elim (Bool-cases
      (same_value (field_of (get pool "memory_domain") "device_id") (int (pos device_id)))) [
        | inl e ↦ rw e (h.0, All-on_device P device_id rest h.1)
        | inr e ↦ rw e (All-on_device P device_id rest h.1)
      ]

one_match-Ensures : (pools : List Fields) → Ensures (λ b. pools ≡ b ∷ []) (one_match pools)
one_match-Ensures [] = Ensures-err _
one_match-Ensures (pool ∷ []) = Ensures-ok pool refl
one_match-Ensures (p ∷ q ∷ rest) = Ensures-err _

match_device-IsChosen :
    (pools : List Fields) (rank_device_map : Option (List (ℕ × ℕ))) (global_rank : Selection ℤ)
    → Ensures
        (IsChosen pools rank_device_map global_rank)
        (match_device pools rank_device_map global_rank)
unfolding match_device IsChosen
match_device-IsChosen pools rank_device_map global_rank =
    Ensures-bind global_rank _ (own-Ensures global_rank) λ rank r.
      Ensures-bind (present rank_device_map _) _ (present-Ensures _ _) λ placed p.
        Ensures-bind (present (device_of placed rank) _) _ (present-Ensures _ _) λ device_id d.
          let one = one_match-Ensures (on_device device_id pools) in
          record { at = λ b e. inr (rank, (placed, (device_id, (r, (p, (d, one.at b e)))))) }

choose-IsChosen :
    (pools : List Fields) (rank_device_map : Option (List (ℕ × ℕ))) (global_rank : Selection ℤ)
    → Ensures
        (IsChosen pools rank_device_map global_rank)
        (choose pools rank_device_map global_rank)
unfolding choose IsChosen
choose-IsChosen [] m r = Ensures-err _
choose-IsChosen (pool ∷ []) m r = Ensures-ok pool (inl refl)
choose-IsChosen (p ∷ q ∷ rest) m r = match_device-IsChosen (p ∷ q ∷ rest) m r

-- What holds of all candidates holds of the chosen one.
All-IsChosen :
    (P : Fields → Type 0) (pools : List Fields) (m : Option (List (ℕ × ℕ))) (r : Selection ℤ)
    (b : Fields)
    → All P pools
    → IsChosen pools m r b
    → P b
unfolding IsChosen
All-IsChosen P pools m r b h (inl e) = (subst (All P) e h).0
All-IsChosen P pools m r b h (inr (rank, (placed, (device_id, (q, (p, (d, e))))))) =
    (subst (All P) e (All-on_device P device_id pools h)).0

is_the_text-eq : (value : Value) (text : String) → is_the_text value text ≡ true → value ≡ str text
is_the_text-eq (str s) text h = ap str ((str_eq_iff s text).0 h)
is_the_text-eq _ text h = cc

transport_name :
    (live_resize : Bool)
    → expected_transport live_resize ≡ (if live_resize then "cuda_vmm" else "cuda_ipc")
transport_name true = refl
transport_name false = refl

candidate_parts :
    (live_resize : Bool) (pool : Fields)
    → is_cuda_candidate live_resize pool ≡ true
    → (is_the_text (get pool "capacity_pool_id") "vllm.pool.0" ≡ true)
      × ((is_the_text (field_of (get pool "memory_domain") "kind") "cuda" ≡ true)
          × (is_the_text (field_of (get pool "transport") "kind") (expected_transport live_resize)
              ≡ true))
unfolding is_cuda_candidate
candidate_parts live_resize pool h = (ground arith, (ground arith, ground arith))

module _ (convert : Value → Option ℤ) where
  -- The elastic bounds of a resizable binding, which a fixed one does not have.
  abbrev pub IsFitted : Bool → ℕ → Value → Type 0
  IsFitted true blocks raw =
      (elastic : Fields) × ((minimum : ℕ) × ((mapped : ℕ) × ((raw ≡ obj elastic)
            × ((count_of convert elastic "maximum_block_count" ≡ ok (pos blocks))
                × ((count_of convert elastic "minimum_block_count" ≡ ok (pos minimum))
                    × ((count_of convert elastic "mapped_block_count" ≡ ok (pos mapped))
                        × ((0 < minimum) × ((minimum ≤ mapped) × (mapped ≤ blocks)))))))))
  IsFitted false blocks raw = is_absent convert raw ≡ true

  pub record IsSelected (config : KvCacheConfig) (live_resize : Bool) (backing : Backing)
      (binding : Fields) : Type 0 where
    pub pool_id : get binding "capacity_pool_id" ≡ str "vllm.pool.0"
    pub domain : field_of (get binding "memory_domain") "kind" ≡ str "cuda"
    pub transported :
        field_of (get binding "transport") "kind"
        ≡ str (if live_resize then "cuda_vmm" else "cuda_ipc")
    pub managed : get binding "allocation_mode" ≡ str "participant_managed"
    pub blocks : count_of convert binding "block_count" ≡ ok (pos backing.num_blocks)
    pub stride : count_of convert binding "bytes_per_block" ≡ ok (pos backing.bytes_per_block)
    pub product : backing.allocation_bytes ≡ backing.num_blocks * backing.bytes_per_block
    pub backed : IsBacking config backing
    pub fitted : IsFitted live_resize backing.num_blocks (get binding "elastic")

  IsFitted-in_capacity :
      (elastic : Fields) (minimum mapped : ℤ) (blocks : ℕ)
      → count_of convert elastic "maximum_block_count" ≡ ok (pos blocks)
      → count_of convert elastic "minimum_block_count" ≡ ok minimum
      → count_of convert elastic "mapped_block_count" ≡ ok mapped
      → in_capacity convert minimum mapped blocks ≡ true
      → IsFitted true blocks (obj elastic)
  IsFitted-in_capacity elastic (pos zero) mapped blocks x n m h = cc
  IsFitted-in_capacity elastic (pos (suc a)) (pos b) blocks x n m h =
      (elastic, (suc a, (b, (refl, (x, (n, (m, (ground arith, (ground arith, ground arith)))))))))
  IsFitted-in_capacity elastic (pos (suc a)) (negsuc b) blocks x n m h = cc
  IsFitted-in_capacity elastic (negsuc a) mapped blocks x n m h = cc

  fields_of_elastic-Ensures :
      (raw : Value) → Ensures (λ elastic. raw ≡ obj elastic) (fields_of_elastic convert raw)
  fields_of_elastic-Ensures (obj elastic) = Ensures-ok elastic refl
  fields_of_elastic-Ensures _ = Ensures-err _

  unraised : (b : Bool) (e : BindingError) → Ensures (λ _. b ≡ false) (raise_if b e)
  unraised true e = Ensures-err e
  unraised false e = Ensures-ok _ refl

  check_elastic-IsFitted :
      (live_resize : Bool) (backing : Backing) (raw : Value)
      → Ensures
          (λ _. IsFitted live_resize backing.num_blocks raw)
          (check_elastic convert live_resize backing raw)
  unfolding check_elastic
  check_elastic-IsFitted true backing raw =
      Ensures-bind (fields_of_elastic convert raw) _ (fields_of_elastic-Ensures raw) λ elastic o.
        Ensures-bind (count_of convert elastic "maximum_block_count") _ (own-Ensures _) λ maximum x.
          Ensures-raise_if (not (same_integer maximum (pos backing.num_blocks))) _ _ λ s.
            Ensures-bind (count_of convert elastic "minimum_block_count") _ (own-Ensures _)
              λ minimum n.
                Ensures-bind (count_of convert elastic "mapped_block_count") _ (own-Ensures _)
                  λ mapped m.
                    let limits =
                      unraised (not (in_capacity convert minimum mapped backing.num_blocks))
                        bounds_outside in
                    let full = x ∙ ap ok (same_integer_lem maximum backing.num_blocks (unnot s)) in
                    record {
                      at = λ u e. subst (IsFitted true backing.num_blocks) (sym o) (
                          IsFitted-in_capacity elastic minimum mapped backing.num_blocks full n m
                            (unnot (limits.at u e)));
                    }
  check_elastic-IsFitted false backing raw =
      let limits = unraised (not (is_absent convert raw)) elastic_forbidden in
      record { at = λ u e. unnot (limits.at u e) }

  check_binding-IsSelected :
      (config : KvCacheConfig) (live_resize : Bool) (backing : Backing) (binding : Fields)
      → is_cuda_candidate live_resize binding ≡ true
      → IsBacking config backing
      → Ensures
          (λ b. (b ≡ binding) × IsSelected config live_resize backing b)
          (check_binding convert live_resize backing binding)
  unfolding check_binding
  check_binding-IsSelected config live_resize backing binding c k =
      Ensures-raise_if (not (is_the_text (get binding "allocation_mode") "participant_managed")) _ _
        λ a. Ensures-bind (count_of convert binding "block_count") _ (own-Ensures _) λ blocks b.
          Ensures-raise_if (not (same_integer blocks (pos backing.num_blocks))) _ _ λ bs.
            Ensures-bind (count_of convert binding "bytes_per_block") _ (own-Ensures _) λ stride s.
              Ensures-raise_if (not (same_integer stride (pos backing.bytes_per_block))) _ _ λ ss.
                Ensures-raise_if
                  (not (backing.allocation_bytes == backing.num_blocks * backing.bytes_per_block)) _
                  _
                  λ p.
                    Ensures-bind (check_elastic convert live_resize backing (get binding "elastic"))
                      _ (check_elastic-IsFitted live_resize backing (get binding "elastic"))
                      λ _ f. Ensures-ok binding (
                        refl,
                        record {
                          pool_id = is_the_text-eq _ _ (candidate_parts live_resize binding c).0;
                          domain = is_the_text-eq _ _ (candidate_parts live_resize binding c).1.0;
                          transported =
                              is_the_text-eq _ _ (candidate_parts live_resize binding c).1.1
                              ∙ ap str (transport_name live_resize);
                          managed = is_the_text-eq _ _ (unnot a);
                          blocks =
                              b ∙ ap ok (same_integer_lem blocks backing.num_blocks (unnot bs));
                          stride =
                              s
                              ∙ ap ok (same_integer_lem stride backing.bytes_per_block (unnot ss));
                          product = (==_iff _ _).0 (unnot p);
                          backed = k;
                          fitted = f;
                        },
                      )

  pub SelectedFrom :
      KvCacheConfig → Option (List (ℕ × ℕ)) → Selection ℤ → Bool → List Value → Fields → Type 0
  SelectedFrom config m r live_resize pools binding =
      IsChosen (cuda_candidates live_resize pools) m r binding
      × ((backing : Backing) × IsSelected config live_resize backing binding)

  selected :
      (receipt : Fields) (config : KvCacheConfig) (m : Option (List (ℕ × ℕ))) (r : Selection ℤ)
      (live_resize : Bool)
      → Ensures
          (λ binding.
            (pools : List Value) × ((listed_pools (get receipt "shared_pools") ≡ ok pools)
              × SelectedFrom config m r live_resize pools binding))
          (select_cuda_binding convert receipt config m r live_resize)
  unfolding select_cuda_binding SelectedFrom
  selected receipt config m r live_resize =
      Ensures-bind (vllm_backing_geometry config) _ (vllm_backing_geometry-IsBacking config)
        λ backing k.
          Ensures-bind (listed_pools (get receipt "shared_pools")) _ (own-Ensures _) λ pools l.
            Ensures-bind (choose (cuda_candidates live_resize pools) m r) _
              (choose-IsChosen (cuda_candidates live_resize pools) m r)
              λ chosen c.
                let checked =
                  check_binding-IsSelected config live_resize backing chosen
                    (All-IsChosen _ (cuda_candidates live_resize pools) m r chosen
                      (IsCandidates live_resize pools) c)
                    k in
                record {
                  at = λ b e.
                      let q = checked.at b e in
                      (
                        pools,
                        (
                          l,
                          (
                            subst (IsChosen (cuda_candidates live_resize pools) m r) (sym q.0) c,
                            (backing, q.1),
                          ),
                        ),
                      );
                }

  -- Of a call that returns: the receipt lists pools, of which the binding is the only candidate or the only
  -- one on the device of the rank; it has the transport that is wanted, and its blocks and their stride
  -- are those of the allocation, all of whose tensors have its size; an elastic binding has bounds with
  -- 0 < minimum ≤ mapped ≤ maximum, the last the number of the blocks, and a fixed one has none.
  pub select_cuda_binding-SelectedFrom :
      (receipt : Fields) (config : KvCacheConfig) (m : Option (List (ℕ × ℕ))) (r : Selection ℤ)
      (live_resize : Bool) (binding : Fields)
      → select_cuda_binding convert receipt config m r live_resize ≡ ok binding
      → (pools : List Value) × ((listed_pools (get receipt "shared_pools") ≡ ok pools)
          × SelectedFrom config m r live_resize pools binding)
  select_cuda_binding-SelectedFrom receipt config m r live_resize =
      (selected receipt config m r live_resize).at
