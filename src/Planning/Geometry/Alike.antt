-- ===== src/Planning/Geometry/Alike.antt =====
-- The comparison of `to_dict` values by which `GeometryDescriptor` compares two ranks.
use kapsl_integrations.Prelude.{
  ℕ, String, true, Option, none, some, List, [], ◌∷◌, map, all, All, str_eq_iff, ◌≡◌, refl, sym, ap,
  ◌∙◌, arith,
}
use kapsl_integrations.Planning.Types.{ElementType, CacheGroupGeometry, RankGeometry}
use kapsl_integrations.Planning.Geometry.{
  same_element, same_policy, same_texts, same_group, same_groups, same_shape, like_first,
}

-- The retention beyond a window, of a group that has one.
abbrev pub retained : Option ℕ → ℕ → ℕ
retained none extra = 0
retained (some window) extra = extra

-- All that a group says of its memory: every field, the retention where there is a window.
abbrev pub physical : CacheGroupGeometry → CacheGroupGeometry
physical g = record g { extra_retained_tokens = retained g.window_tokens g.extra_retained_tokens }

-- The blocks, the overhead and all cache groups of two ranks are the same.
pub record IsAlike (r s : RankGeometry) : Type 0 where
  pub stride : r.pool_bytes_per_block ≡ s.pool_bytes_per_block
  pub overhead : r.fixed_overhead_blocks ≡ s.fixed_overhead_blocks
  pub groups : map physical r.groups ≡ map physical s.groups

IsAlike-join : {q r s : RankGeometry} → IsAlike q r → IsAlike q s → IsAlike r s
IsAlike-join a b = record {
  stride = sym a.stride ∙ b.stride;
  overhead = sym a.overhead ∙ b.overhead;
  groups = sym a.groups ∙ b.groups;
}

same_element-eq : (a b : ElementType) → same_element a b ≡ true → a ≡ b
same_element-eq a b h =
    let names = str_eq_iff a.name b.name in
    let name : a.name ≡ b.name = ground (arith, names) in
    let bits : a.bits ≡ b.bits = ground arith in cc

same_texts-eq : (xs ys : List String) → same_texts xs ys ≡ true → xs ≡ ys
same_texts-eq [] [] h = refl
same_texts-eq [] (y ∷ ys) h = cc
same_texts-eq (x ∷ xs) [] h = cc
same_texts-eq (x ∷ xs) (y ∷ ys) h =
    let texts = str_eq_iff x y in
    let head : x ≡ y = ground (arith, texts) in let tail = same_texts-eq xs ys (ground arith) in cc

record IsPolicyAlike (a b : CacheGroupGeometry) (v w : Option ℕ) : Type 0 where
  pub kind : a.policy_kind ≡ b.policy_kind
  pub window : v ≡ w
  pub extra : retained v a.extra_retained_tokens ≡ retained w b.extra_retained_tokens

same_policy-alike :
    (a b : CacheGroupGeometry) (v w : Option ℕ) → same_policy a b v w ≡ true → IsPolicyAlike a b v w
same_policy-alike a b none none h = record {
  kind = (str_eq_iff a.policy_kind b.policy_kind).0 h;
  window = refl;
  extra = refl;
}
same_policy-alike a b none (some w) h = cc
same_policy-alike a b (some v) none h = cc
same_policy-alike a b (some v) (some w) h =
    let kinds = str_eq_iff a.policy_kind b.policy_kind in
    let window : v ≡ w = ground arith in
    record { kind = ground (arith, kinds); window = ap some window; extra = ground arith }

same_group-eq : (a b : CacheGroupGeometry) → same_group a b ≡ true → physical a ≡ physical b
same_group-eq a b h =
    let ids = str_eq_iff a.group_id b.group_id in
    let group_id : a.group_id ≡ b.group_id = ground (arith, ids) in
    let layers = same_texts-eq a.layers b.layers (ground arith) in
    let tokens : a.block_size_tokens ≡ b.block_size_tokens = ground arith in
    let bytes : a.bytes_per_group_block ≡ b.bytes_per_group_block = ground arith in
    let blocks : a.required_blocks_per_sequence ≡ b.required_blocks_per_sequence = ground arith in
    let heads : a.kv_heads ≡ b.kv_heads = ground arith in
    let keys : a.key_head_dim ≡ b.key_head_dim = ground arith in
    let values : a.value_head_dim ≡ b.value_head_dim = ground arith in
    let element = same_element-eq a.element_type b.element_type (ground arith) in
    let policy = same_policy-alike a b a.window_tokens b.window_tokens (ground arith) in
    let kind = policy.kind in let window = policy.window in let extra = policy.extra in cc

same_groups-eq :
    (xs ys : List CacheGroupGeometry) → same_groups xs ys ≡ true → map physical xs ≡ map physical ys
same_groups-eq [] [] h = refl
same_groups-eq [] (y ∷ ys) h = cc
same_groups-eq (x ∷ xs) [] h = cc
same_groups-eq (x ∷ xs) (y ∷ ys) h =
    let head = same_group-eq x y (ground arith) in
    let tail = same_groups-eq xs ys (ground arith) in cc

same_shape-IsAlike : (first rank : RankGeometry) → same_shape first rank ≡ true → IsAlike first rank
same_shape-IsAlike first rank h = record {
  stride = ground arith;
  overhead = ground arith;
  groups = sym (same_groups-eq rank.groups first.groups (ground arith));
}

all-IsAlike :
    (first : RankGeometry) (rest : List RankGeometry)
    → all (same_shape first) rest ≡ true
    → All (IsAlike first) rest
all-IsAlike first [] h = tt
all-IsAlike first (r ∷ rest) h =
    (same_shape-IsAlike first r (ground arith), all-IsAlike first rest (ground arith))

IsAlike-All :
    (first r : RankGeometry) (ranks : List RankGeometry)
    → IsAlike first r
    → All (IsAlike first) ranks
    → All (IsAlike r) ranks
IsAlike-All first r [] a h = tt
IsAlike-All first r (s ∷ ranks) a h = (IsAlike-join a h.0, IsAlike-All first r ranks a h.1)

IsAlike-pairs :
    (first : RankGeometry) (ranks others : List RankGeometry)
    → All (IsAlike first) ranks
    → All (IsAlike first) others
    → All (λ r. All (IsAlike r) others) ranks
IsAlike-pairs first [] others h k = tt
IsAlike-pairs first (r ∷ ranks) others h k =
    (IsAlike-All first r others h.0 k, IsAlike-pairs first ranks others h.1 k)

-- When all ranks are like the first, any two of them are alike.
pub like_first-IsAlike :
    (ranks : List RankGeometry) → like_first ranks ≡ true → All (λ r. All (IsAlike r) ranks) ranks
like_first-IsAlike [] h = tt
like_first-IsAlike (first ∷ rest) h =
    let self : IsAlike first first = record { stride = refl; overhead = refl; groups = refl } in
    let alike = all-IsAlike first rest h in
    IsAlike-pairs first (first ∷ rest) (first ∷ rest) (self, alike) (self, alike)
