-- ===== src/Planning/Geometry/Laws.antt =====
-- What the geometry checks establish.
use kapsl_integrations.Prelude.{
  ℕ, ◌≤◌, ◌<◌, max, ◌≡◌, refl, String, true, false, not, ◌&&◌, ◌||◌, List, [], ◌∷◌, map, ok, arith,
  traverse, All, ltb, ◌==◌, str_eq, Ensures, Ensures-ok, Ensures-bind, Ensures-skip,
  Ensures-raise_if,
}
use kapsl_integrations.Prelude.Sorting.{sorted, All-sorted, distinct}
use kapsl_integrations.Planning.Types.{CacheGroupGeometry, RankGeometry}
use kapsl_integrations.Planning.Validity.{IsPositive, IsRank}
use kapsl_integrations.Planning.Checked.{uint}
use kapsl_integrations.Planning.Checked.Laws.{Fits}
use kapsl_integrations.Planning.Checked.Totals.{sum_by}
use kapsl_integrations.Planning.Geometry.{
  is_empty, largest, max_of, shared_pool_block_stride, by_group_id, rank_post_init, check_window,
  text, layers_of, group_post_init,
}

uint-IsPositive : (n : ℕ) (field : String) → Ensures (λ _. IsPositive n) (uint n field false)
unfolding uint
uint-IsPositive n field = record { at = λ m h. ground arith }

uint-eq : (n : ℕ) (field : String) → Ensures (λ m. m ≡ n) (uint n field false)
unfolding uint
uint-eq n field = record { at = λ m h. ground arith }

uint-Fits : (n : ℕ) (field : String) → Ensures (λ _. Fits n) (uint n field true)
unfolding uint
uint-Fits n field = record { at = λ m h. ground arith }

-- What the other code needs of a checked group.
abbrev pub IsGroup : CacheGroupGeometry → Type 0
IsGroup g =
    IsPositive g.block_size_tokens
    × IsPositive g.bytes_per_group_block
    × IsPositive g.required_blocks_per_sequence
    × IsPositive g.kv_heads
    × IsPositive g.key_head_dim
    × IsPositive g.value_head_dim

group_post_init-IsGroup : (g : CacheGroupGeometry) → Ensures IsGroup (group_post_init g)
unfolding group_post_init
group_post_init-IsGroup g = Ensures-skip (text g.group_id "group_id") _ λ group_id.
    Ensures-skip (traverse (λ layer. text layer "layer name") g.layers) _ λ layers.
      Ensures-raise_if (is_empty layers || not (distinct str_eq layers)) _ _ λ _.
        Ensures-bind _ _ (uint-IsPositive _ _) λ a ha.
          Ensures-bind _ _ (uint-IsPositive _ _) λ b hb.
            Ensures-bind _ _ (uint-IsPositive _ _) λ c hc.
              Ensures-bind _ _ (uint-IsPositive _ _) λ d hd.
                Ensures-bind _ _ (uint-IsPositive _ _) λ e he.
                  Ensures-bind _ _ (uint-IsPositive _ _) λ f hf.
                    Ensures-raise_if
                      (not (
                        str_eq g.policy_kind "full_attention"
                        || str_eq g.policy_kind "sliding_window"))
                      _ _
                      λ _.
                        Ensures-skip
                          (check_window (str_eq g.policy_kind "sliding_window") g.window_tokens) _
                          λ w.
                            Ensures-skip (uint g.extra_retained_tokens "extra_retained_tokens" true)
                              _
                              λ x.
                                Ensures-raise_if
                                  (not (str_eq g.policy_kind "sliding_window")
                                    && ltb 0 g.extra_retained_tokens)
                                  _ _ λ _. Ensures-ok _ (ha, hb, hc, hd, he, hf)

-- `max` is an upper bound that is reached.
largest-ge : (n : ℕ) (ms : List ℕ) → (n ≤ largest n ms) × All (λ m. m ≤ largest n ms) ms
largest-ge n [] = (omega arith, tt)
largest-ge n (m ∷ ms) =
    let h = largest-ge (max n m) ms in (omega (arith, h.0), (omega (arith, h.0), h.1))

abbrev pub BoundsBytes : ℕ → List CacheGroupGeometry → Type 0
BoundsBytes stride groups =
    All (λ (g : CacheGroupGeometry). g.bytes_per_group_block ≤ stride) groups

traverse-uint-eq :
    (groups : List CacheGroupGeometry)
    → Ensures
        (λ strides. strides ≡ map (λ (g : CacheGroupGeometry). g.bytes_per_group_block) groups)
        (traverse
          (λ (g : CacheGroupGeometry). uint g.bytes_per_group_block "bytes_per_group_block" false)
          groups)
traverse-uint-eq [] = Ensures-ok _ refl
traverse-uint-eq (g ∷ gs) =
    Ensures-bind _ _ (uint-eq g.bytes_per_group_block "bytes_per_group_block")
      λ m hm. Ensures-bind _ _ (traverse-uint-eq gs) λ ms hs. Ensures-ok _ (rw (hm, hs))

All-map_bytes :
    (stride : ℕ) (groups : List CacheGroupGeometry)
    → All (λ m. m ≤ stride) (map (λ (g : CacheGroupGeometry). g.bytes_per_group_block) groups)
    → BoundsBytes stride groups
All-map_bytes stride [] h = tt
All-map_bytes stride (g ∷ gs) h = (h.0, All-map_bytes stride gs h.1)

max_of-BoundsBytes :
    (groups : List CacheGroupGeometry)
    → BoundsBytes (max_of (map (λ (g : CacheGroupGeometry). g.bytes_per_group_block) groups)) groups
max_of-BoundsBytes [] = tt
max_of-BoundsBytes (g ∷ gs) =
    let h =
      largest-ge g.bytes_per_group_block
        (map (λ (g : CacheGroupGeometry). g.bytes_per_group_block) gs) in
    (h.0, All-map_bytes _ gs h.1)

stride-Ensures :
    (groups : List CacheGroupGeometry)
    → Ensures (λ stride. BoundsBytes stride groups) (shared_pool_block_stride groups)
unfolding shared_pool_block_stride
stride-Ensures groups = Ensures-raise_if _ _ _ λ _.
    Ensures-bind _ _ (traverse-uint-eq groups)
      λ strides e. Ensures-ok (max_of strides) (rw e (max_of-BoundsBytes groups))

sequence-pos :
    (groups : List CacheGroupGeometry)
    → is_empty groups ≡ false
    → All IsGroup groups
    → 0 < sum_by (λ (g : CacheGroupGeometry). g.required_blocks_per_sequence) groups
sequence-pos [] e h = cc
sequence-pos (g ∷ gs) e h = omega (arith, h.0.2)

pub record IsRankChecked (r : RankGeometry) : Type 0 where
  pub valid : IsRank r
  pub groups : All IsGroup r.groups
  pub largest : BoundsBytes r.pool_bytes_per_block r.groups

same_stride :
    (r : RankGeometry) (stride : ℕ)
    → not (r.pool_bytes_per_block == stride) ≡ false
    → BoundsBytes stride (sorted by_group_id r.groups)
    → BoundsBytes r.pool_bytes_per_block (sorted by_group_id r.groups)
same_stride r stride e h = let same : r.pool_bytes_per_block ≡ stride = ground arith in rw same h

rank_post_init-Ensures :
    (r : RankGeometry) → All IsGroup r.groups → Ensures IsRankChecked (rank_post_init r)
unfolding rank_post_init
rank_post_init-Ensures r h =
    let hs = All-sorted by_group_id IsGroup r.groups h in
    Ensures-skip (uint r.rank "rank" true) _ λ _.
      Ensures-skip (uint r.device_id "device_id" true) _ λ _.
        Ensures-bind _ _ (uint-IsPositive _ _) λ _ hp. Ensures-bind _ _ (uint-Fits _ _) λ _ ho.
          Ensures-raise_if (is_empty (sorted by_group_id r.groups)) _ _ λ nonempty.
            Ensures-raise_if
              (not (
                distinct str_eq
                  (map (λ (g : CacheGroupGeometry). g.group_id) (sorted by_group_id r.groups))))
              _ _
              λ _. Ensures-bind _ _ (stride-Ensures _) λ stride hb.
                Ensures-raise_if (not (r.pool_bytes_per_block == stride)) _ _ λ same.
                  Ensures-raise_if (not (distinct str_eq (layers_of (sorted by_group_id r.groups))))
                    _ _
                    λ _. Ensures-ok _ (record {
                      valid = record {
                        stride = hp;
                        overhead = ho;
                        sequence = sequence-pos _ nonempty hs;
                      };
                      groups = hs;
                      largest = same_stride r stride same hb;
                    })

-- A rank that its checks let through, of checked groups, keeps checked groups, has a stride that no
-- group passes, and is what sizing needs.
pub rank_post_init-IsRankChecked :
    (r checked : RankGeometry)
    → All IsGroup r.groups
    → rank_post_init r ≡ ok checked
    → IsRankChecked checked
rank_post_init-IsRankChecked r checked groups h = (rank_post_init-Ensures r groups).at checked h
