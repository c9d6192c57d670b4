-- ===== src/Planning/Plan/Assembly.antt =====
-- A plan over a checked geometry: once one rank can be sized, the checks of `PlanningResult` pass,
-- but for the total of the bytes.
use kapsl_integrations.Prelude.{
  ℕ, ◌+◌, ◌*◌, ◌≤◌, ◌≡◌, refl, sym, ap, subst, ◌∙◌, Bool, true, false, ◌&&◌, List, [], ◌∷◌, map, ok,
  err, arith, traverse, ◌>>=◌, length, length-map, all, any, All, ltb, ge→ltb, ◌==◌, ==_iff,
  if◌then◌else◌,
}
use kapsl_integrations.Planning.Errors.{PlanningError, overflows}
use kapsl_integrations.Planning.Types.{RankGeometry, GeometryDescriptor, SizingPolicy, RankSizing}
use kapsl_integrations.Planning.Validity.{IsPolicy}
use kapsl_integrations.Planning.Geometry.Valid.{IsGeometry}
use kapsl_integrations.Planning.Checked.{uint64_max}
use kapsl_integrations.Planning.Checked.Laws.{Fits}
use kapsl_integrations.Planning.Checked.Totals.{sum_by, checked_total-exact}
use kapsl_integrations.Planning.Geometry.{covers_range, like_first, same_shape}
use kapsl_integrations.Planning.Sizing.{size_rank}
use kapsl_integrations.Planning.Sizing.Bounds.{size_rank-IsSized}
use kapsl_integrations.Planning.Plan.{total_desired_bytes, result_post_init, build_plan}
use kapsl_integrations.Planning.Plan.Uniform.{relabel, same_shape-SameSize, size_rank-SameSize}

both-true : (a b : Bool) → (a && b) ≡ true → (a ≡ true) × (b ≡ true)
both-true a b h = ground arith

-- A checked total of which only the refusal is kept.
discard :
    {A : Type 0} (b : Bool) (e : PlanningError) (n : ℕ) (x : A)
    → ((if b then err e else ok n) >>= λ _. ok x) ≡ (if b then err e else ok x)
discard true e n x = refl
discard false e n x = refl

covers-eq :
    (n m : ℕ) (xs ys : List ℕ)
    → n ≡ m
    → xs ≡ ys
    → covers_range m ys ≡ true
    → covers_range n xs ≡ true
covers-eq n m xs ys e e' h = rw (e, e') h

-- The sizing of one rank, given to every rank.
abbrev pub sizings : RankSizing → List RankGeometry → List RankSizing
sizings s = map (λ r. relabel r s)

module _ (policy : SizingPolicy) (s : RankSizing) where
  all_sized :
      (first : RankGeometry) (rest : List RankGeometry)
      → size_rank first policy ≡ ok s
      → all (same_shape first) rest ≡ true
      → traverse (λ (r : RankGeometry). size_rank r policy) rest ≡ ok (sizings s rest)
  all_sized first [] e h = refl
  all_sized first (r ∷ rest) e h =
      let both = both-true (same_shape first r) (all (same_shape first) rest) h in
      rw (
        size_rank-SameSize first r policy (same_shape-SameSize first r both.0) s e,
        all_sized first rest e both.1,
      )

  numbers :
      (ranks : List RankGeometry)
      → map (λ (t : RankSizing). t.rank) (sizings s ranks)
        ≡ map (λ (r : RankGeometry). r.rank) ranks
  numbers [] = refl
  numbers (r ∷ ranks) = rw (numbers ranks)

  -- A field that the relabelling keeps has one value.
  all_same :
      (field : RankSizing → ℕ)
      → ((r : RankGeometry) → field (relabel r s) ≡ field s)
      → (ranks : List RankGeometry) → all (λ y. field s == y) (map field (sizings s ranks)) ≡ true
  all_same field h [] = refl
  all_same field h (r ∷ ranks) = ground (arith, h r, all_same field h ranks)

  total :
      (ranks : List RankGeometry)
      → sum_by (λ (t : RankSizing). t.desired_bytes) (sizings s ranks)
        ≡ length ranks * s.desired_bytes
  total [] = omega arith
  total (r ∷ ranks) = omega (arith, total ranks)

  none_below :
      (ranks : List RankGeometry)
      → s.desired_blocks ≤ s.maximum_blocks
      → any (λ (t : RankSizing). ltb t.maximum_blocks t.desired_blocks) (sizings s ranks) ≡ false
  none_below [] h = refl
  none_below (r ∷ ranks) h = rw (ge→ltb s.maximum_blocks s.desired_blocks h) (none_below ranks h)

  All-fit :
      (ranks : List RankGeometry)
      → Fits s.desired_bytes
      → All (λ (t : RankSizing). Fits t.desired_bytes) (sizings s ranks)
  All-fit [] h = tt
  All-fit (r ∷ ranks) h = (h, All-fit ranks h)

  -- The last step of the checks of a plan of equal sizings.
  checked :
      (g : GeometryDescriptor) (first : RankGeometry) (rest : List RankGeometry)
      → g.ranks ≡ first ∷ rest
      → IsGeometry g
      → s.desired_blocks ≤ s.maximum_blocks
      → Fits s.desired_bytes
      → result_post_init
          (record { geometry = g; policy = policy; ranks = sizings s (first ∷ rest) })
        ≡ (if ltb uint64_max (length (first ∷ rest) * s.desired_bytes)
            then err (overflows "total_desired_bytes")
            else ok (record { geometry = g; policy = policy; ranks = sizings s (first ∷ rest) }))
  unfolding result_post_init total_desired_bytes
  checked g first rest e h below fits =
      let size : length (sizings s (first ∷ rest)) ≡ g.tensor_parallel_size =
        length-map (λ r. relabel r s) (first ∷ rest) ∙ ap length (sym e) ∙ h.covered in
      let count : (length (sizings s (first ∷ rest)) == g.tensor_parallel_size) ≡ true =
        (==_iff _ _).1 size in
      let sum : 0 + sum_by (λ (t : RankSizing). t.desired_bytes) (sizings s (first ∷ rest))
          ≡ length (first ∷ rest) * s.desired_bytes =
        omega (arith, total (first ∷ rest)) in
      let covered : covers_range (length (sizings s (first ∷ rest)))
            (map (λ (t : RankSizing). t.rank) (sizings s (first ∷ rest)))
          ≡ true =
        covers-eq (length (sizings s (first ∷ rest))) g.tensor_parallel_size
          (map (λ (t : RankSizing). t.rank) (sizings s (first ∷ rest)))
          (map (λ (r : RankGeometry). r.rank) g.ranks) size
          (numbers (first ∷ rest) ∙ ap (map (λ (r : RankGeometry). r.rank)) (sym e)) h.numbered in
      rw
        (
          count,
          covered,
          all_same (λ t. t.desired_blocks) (λ r. refl) rest,
          all_same (λ t. t.desired_bytes) (λ r. refl) rest,
          all_same (λ t. t.maximum_blocks) (λ r. refl) rest,
          all_same (λ t. t.maximum_bytes) (λ r. refl) rest,
          none_below (first ∷ rest) below,
          checked_total-exact (λ (t : RankSizing). t.desired_bytes) "total_desired_bytes" 0
              (sizings s (first ∷ rest)) (omega arith) (All-fit (first ∷ rest) fits),
        )
        (rw sum (discard _ _ _ _))

-- Over a checked geometry whose first rank is sized, `build_plan` gives every rank the numbers of the
-- first, under its own rank and device; no check of the assembled plan fails, except that it refuses
-- exactly when the bytes of all ranks pass 64 bits.
pub build_plan-uniform :
    (g : GeometryDescriptor) (policy : SizingPolicy) (s : RankSizing) (first : RankGeometry)
    (rest : List RankGeometry)
    → IsPolicy policy
    → IsGeometry g
    → g.ranks ≡ first ∷ rest
    → size_rank first policy ≡ ok s
    → build_plan g policy ≡ (
        if ltb uint64_max (length g.ranks * s.desired_bytes)
        then err (overflows "total_desired_bytes")
        else ok (record { geometry = g; policy = policy; ranks = sizings s g.ranks }))
unfolding build_plan
build_plan-uniform g policy s first rest p h e sized =
    let d = size_rank-IsSized first policy s p sized in
    let alike : all (same_shape first) rest ≡ true = subst (λ l. like_first l ≡ true) e h.uniform in
    subst
      (λ l.
        (traverse (λ (r : RankGeometry). size_rank r policy) l >>= λ ranks.
        result_post_init (record { geometry = g; policy = policy; ranks = ranks }))
        ≡ (if ltb uint64_max (length l * s.desired_bytes)
            then err (overflows "total_desired_bytes")
            else ok (record { geometry = g; policy = policy; ranks = sizings s l })))
      (sym e)
      (rw
        (
          size_rank-SameSize first first policy
              (record { stride = refl; overhead = refl; required = refl }) s sized,
          all_sized policy s first rest sized alike,
        )
        (checked policy s g first rest e h d.desired_below d.desired_bytes.1))
