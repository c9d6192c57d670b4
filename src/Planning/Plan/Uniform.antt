-- ===== src/Planning/Plan/Uniform.antt =====
-- Ranks of one shape are sized alike: only the rank and device numbers differ.
use kapsl_integrations.Prelude.{
  ℕ, ◌≡◌, refl, sym, ap, String, Bool, true, false, Option, none, some, List, [], ◌∷◌, ok, err,
  raise_if, Result, arith, ◌>>=◌, ◌>>◌, ◌&&◌,
}
use mathlib.Core.Path.{fun_ext}
use kapsl_integrations.Planning.Errors.{Planned}
use kapsl_integrations.Planning.Types.{CacheGroupGeometry, RankGeometry, SizingPolicy, RankSizing}
use kapsl_integrations.Planning.Checked.{checked_add, checked_mul, checked_total}
use kapsl_integrations.Planning.Geometry.{same_group, same_groups, same_shape}
use kapsl_integrations.Planning.Sizing.{
  required_blocks_per_sequence, minimum_of, desired_demand, floor_of, cap_desired, cap_maximum,
  maximum_of, effective_target, check_effective, size_rank,
}

-- Where `m` returns a value, `m'` returns its image.
record Follows {E A B : Type 0} (f : A → B) (m : Result E A) (m' : Result E B) : Type 0 where
  at : (a : A) → m ≡ ok a → m' ≡ ok (f a)

Follows-refl : {E A : Type 0} (m : Result E A) → Follows (λ a. a) m m
Follows-refl m = record { at = λ a e. e }

Follows-ok :
    {E A B : Type 0} (f : A → B) (a : A) (b : B) → f a ≡ b → Follows {E = E} f (ok a) (ok b)
Follows-ok f a b h = record { at = λ c e. cc }

Follows-eq : {E A : Type 0} (m m' : Result E A) → m ≡ m' → Follows (λ a. a) m m'
Follows-eq m m' h = record { at = λ a e. cc }

Follows-bind :
    {E A B C : Type 0} {f : B → C} (m m' : Result E A) (k : A → Result E B) (k' : A → Result E C)
    → Follows (λ a. a) m m'
    → ((a : A) → Follows f (k a) (k' a))
    → Follows f (m >>= k) (m' >>= k')
Follows-bind (ok a) m' k k' h hk = rw (h.at a refl) (hk a)
Follows-bind (err e) m' k k' h hk = record { at = λ b q. cc }

Follows-raise_if :
    {E A B : Type 0} {f : A → B} (b : Bool) (e e' : E) (k : Result E A) (k' : Result E B)
    → Follows f k k'
    → Follows f (raise_if b e >> k) (raise_if b e' >> k')
Follows-raise_if true e e' k k' h = record { at = λ a q. cc }
Follows-raise_if false e e' k k' h = h

-- What sizing reads of a rank.
pub record SameSize (a b : RankGeometry) : Type 0 where
  pub stride : a.pool_bytes_per_block ≡ b.pool_bytes_per_block
  pub overhead : a.fixed_overhead_blocks ≡ b.fixed_overhead_blocks
  pub required : required_blocks_per_sequence a ≡ required_blocks_per_sequence b

and-split : (a b : Bool) → (a && b) ≡ true → (a ≡ true) × (b ≡ true)
and-split a b h = ground arith

required-same :
    (x y : CacheGroupGeometry)
    → same_group x y ≡ true
    → x.required_blocks_per_sequence ≡ y.required_blocks_per_sequence
required-same x y h = ground arith

total-same_groups :
    (t : ℕ) (xs ys : List CacheGroupGeometry)
    → same_groups xs ys ≡ true
    → checked_total
        (λ (g : CacheGroupGeometry). g.required_blocks_per_sequence)
        "required_blocks_per_sequence"
        t
        xs
      ≡ checked_total
          (λ (g : CacheGroupGeometry). g.required_blocks_per_sequence)
          "required_blocks_per_sequence"
          t
          ys
unfolding checked_total
total-same_groups t [] [] h = refl
total-same_groups t [] (y ∷ ys) h = cc
total-same_groups t (x ∷ xs) [] h = cc
total-same_groups t (x ∷ xs) (y ∷ ys) h =
    let both = and-split (same_group x y) (same_groups xs ys) h in
    rw (required-same x y both.0) (
      ap
        (λ (k : ℕ → Planned ℕ).
          checked_add t y.required_blocks_per_sequence "required_blocks_per_sequence" >>= k)
        (fun_ext (λ t'. total-same_groups t' xs ys both.1)))

pub same_shape-SameSize : (a b : RankGeometry) → same_shape a b ≡ true → SameSize a b
unfolding required_blocks_per_sequence
same_shape-SameSize a b h = record {
  stride = ground arith;
  overhead = ground arith;
  required = sym (total-same_groups 0 b.groups a.groups (ground arith));
}

-- The sizing of one rank, as the sizing of another of the same shape.
abbrev pub relabel : RankGeometry → RankSizing → RankSizing
relabel r s = record s { rank = r.rank; device_id = r.device_id }

module _ (a b : RankGeometry) (policy : SizingPolicy) (h : SameSize a b) where
  minimum_of-same : (q : ℕ) → minimum_of a policy q ≡ minimum_of b policy q
  unfolding minimum_of
  minimum_of-same q = rw (h.stride, h.overhead)

  desired_demand-same : (q : ℕ) → desired_demand a policy q ≡ desired_demand b policy q
  unfolding desired_demand
  desired_demand-same q = rw h.overhead

  floor_of-Follows :
      (n : ℕ) (m : Option ℕ) → Follows (λ f. f) (floor_of a policy n m) (floor_of b policy n m)
  unfolding floor_of
  floor_of-Follows n m = record { at = λ v e. ground arith }

  cap_desired-Follows :
      (n : ℕ) (f : Option ℕ) (d : ℕ) (m : Option ℕ)
      → Follows (λ x. x) (cap_desired a policy n f d m) (cap_desired b policy n f d m)
  unfolding cap_desired
  cap_desired-Follows n f d m = record { at = λ v e. ground arith }

  cap_maximum-same : (n : ℕ) (m : Option ℕ) → cap_maximum a policy n m ≡ cap_maximum b policy n m
  unfolding cap_maximum
  cap_maximum-same n none = refl
  cap_maximum-same n (some m) = rw h.stride

  maximum_of-same : (q d : ℕ) (m : Option ℕ) → maximum_of a policy q d m ≡ maximum_of b policy q d m
  unfolding maximum_of
  maximum_of-same q d none = refl
  maximum_of-same q d (some m) = simp (h.overhead, cap_maximum-same)

  check_effective-Follows :
      (e e' : ℕ)
      → e ≡ e'
      → Follows (λ r. r) (check_effective a policy e) (check_effective b policy e')
  unfolding check_effective
  check_effective-Follows e e' same = rw same (record { at = λ v q. ground arith })

  product-Follows :
      (n : ℕ) (field : String)
      → Follows
          (λ r. r)
          (checked_mul n a.pool_bytes_per_block field)
          (checked_mul n b.pool_bytes_per_block field)
  product-Follows n field = rw h.stride (Follows-refl _)

  effective_target-same : (q d : ℕ) → effective_target a policy q d ≡ effective_target b policy q d
  effective_target-same q d = rw h.overhead

  size_rank-Follows : Follows (relabel b) (size_rank a policy) (size_rank b policy)
  unfolding size_rank
  size_rank-Follows = Follows-bind _ _ _ _ (Follows-eq _ _ h.required) λ q.
      Follows-bind _ _ _ _ (Follows-eq _ _ (minimum_of-same q)) λ m.
        Follows-bind _ _ _ _ (Follows-eq _ _ (desired_demand-same q)) λ d.
          Follows-bind _ _ _ _ (floor_of-Follows m.bytes policy.min_bytes) λ f.
            Follows-bind _ _ _ _ (cap_desired-Follows m.blocks f _ policy.max_bytes) λ k.
              Follows-bind _ _ _ _ (product-Follows k "desired_bytes") λ y.
                Follows-bind _ _ _ _
                  (Follows-eq _ _ (maximum_of-same q k policy.maximum_concurrency))
                  λ x. Follows-bind _ _ _ _ (product-Follows x "maximum_bytes") λ z.
                    Follows-bind _ _ _ _ (check_effective-Follows _ _ (effective_target-same q k))
                      λ r. Follows-ok (relabel b) _ _ (cc (h.stride, effective_target-same q k))

  -- If the sizing of one rank returns, that of a rank of the same shape returns the same numbers.
  pub size_rank-SameSize :
      (s : RankSizing) → size_rank a policy ≡ ok s → size_rank b policy ≡ ok (relabel b s)
  size_rank-SameSize s e = size_rank-Follows.at s e
