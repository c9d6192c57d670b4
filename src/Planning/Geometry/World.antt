-- ===== src/Planning/Geometry/World.antt =====
-- The checks of `GeometryDescriptor` establish what planning assumes of the ranks.
use kapsl_integrations.Prelude.{
  ℕ, List, all, All, str_eq_iff, unnot, length-map, ◌∙◌, ◌≡◌, String, true, false, not, map, ok,
  arith, length, ◌==◌, ==_iff, str_eq, Ensures, Ensures-ok, Ensures-bind, Ensures-skip,
  Ensures-raise_if,
}
use kapsl_integrations.Prelude.Sorting.{sorted, distinct, range}
use kapsl_integrations.Planning.Types.{RankGeometry, GeometryDescriptor}
use kapsl_integrations.Planning.Checked.{uint}
use kapsl_integrations.Planning.Checked.Laws.{Fits}
use kapsl_integrations.Planning.Checked.Totals.{sum_by, checked_total-Ensures}
use kapsl_integrations.Planning.Geometry.Alike.{IsAlike, like_first-IsAlike}
use kapsl_integrations.Planning.Geometry.Numbered.{Apart, distinct-Apart, sorted-range}
use kapsl_integrations.Connector.Ranks.Pigeonhole.{has}
use kapsl_integrations.Planning.Geometry.Valid.{IsGeometry}
use kapsl_integrations.Planning.Geometry.{
  text, by_rank, like_first, covers_range, total_pool_bytes_per_block, geometry_post_init,
}

-- The ranks stand in order and are numbered from 0 to the size of the world, on devices of their own; any
-- two have the same blocks, overhead and cache groups.
pub record IsWorld (g : GeometryDescriptor) : Type 0 where
  pub numbered : map (λ (r : RankGeometry). r.rank) g.ranks ≡ range 0 g.tensor_parallel_size
  pub devices : Apart (map (λ (r : RankGeometry). r.device_id) g.ranks)
  pub alike : All (λ r. All (IsAlike r) g.ranks) g.ranks
  pub total : Fits (sum_by (λ (r : RankGeometry). r.pool_bytes_per_block) g.ranks)
  pub certified : g.attention_backend ≡ "FLASH_ATTN"

covers : (n : ℕ) (xs : List ℕ) → covers_range n xs ≡ true → all (has xs) (range 0 n) ≡ true
covers n xs h = ground arith

geometry_post_init-Ensures :
    (upper : String → String) (g : GeometryDescriptor)
    → Ensures (λ h. IsGeometry h × IsWorld h) (geometry_post_init upper g)
unfolding geometry_post_init total_pool_bytes_per_block
geometry_post_init-Ensures upper g =
    Ensures-skip (text g.model_fingerprint "model_fingerprint") _ λ fingerprint.
      Ensures-skip (text g.attention_backend "attention_backend") _ λ backend.
        Ensures-raise_if (not (str_eq (upper backend) "FLASH_ATTN")) _ _ λ certified.
          Ensures-skip (text g.layout_id "layout_id") _ λ layout.
            Ensures-skip (uint g.max_model_len "max_model_len" false) _ λ _.
              Ensures-skip (uint g.tensor_parallel_size "tensor_parallel_size" false) _ λ _.
                Ensures-raise_if (not (length (sorted by_rank g.ranks) == g.tensor_parallel_size)) _
                  _
                  λ size.
                    Ensures-raise_if
                      (not (
                        covers_range g.tensor_parallel_size
                          (map (λ (r : RankGeometry). r.rank) (sorted by_rank g.ranks))))
                      _ _
                      λ covered.
                        Ensures-raise_if
                          (not (
                            distinct ◌==◌
                              (map (λ (r : RankGeometry). r.device_id) (sorted by_rank g.ranks))))
                          _ _
                          λ devices.
                            Ensures-raise_if (not (like_first (sorted by_rank g.ranks))) _ _
                              λ alike.
                                Ensures-bind _ _
                                  (checked_total-Ensures _ _ 0 (sorted by_rank g.ranks)
                                    (omega arith))
                                  λ t ht. Ensures-ok _ (
                                    record {
                                      covered = (==_iff _ _).0 (unnot size);
                                      numbered = unnot covered;
                                      uniform = unnot alike;
                                    },
                                    record {
                                      numbered =
                                          sorted-range (λ (r : RankGeometry). r.rank)
                                            g.tensor_parallel_size g.ranks
                                            (length-map (λ (r : RankGeometry). r.rank)
                                                (sorted by_rank g.ranks)
                                              ∙ (==_iff _ _).0 (unnot size))
                                            (covers g.tensor_parallel_size _ (unnot covered));
                                      devices = distinct-Apart _ (unnot devices);
                                      alike =
                                          like_first-IsAlike (sorted by_rank g.ranks) (unnot alike);
                                      total = omega (arith, ht.0, ht.1);
                                      certified =
                                          (str_eq_iff (upper backend) "FLASH_ATTN").0
                                            (unnot certified);
                                    },
                                  )

-- A geometry descriptor that its checks let through has its ranks in order, numbered from 0 to the
-- tensor-parallel size without a gap, on distinct devices; any two ranks agree on the bytes of a block,
-- the overhead and every field of their cache groups, where the extra retention counts only with a window;
-- the bytes of one block over all ranks are a word, and the backend is FLASH_ATTN.
pub geometry_post_init-IsWorld :
    (upper : String → String) (g h : GeometryDescriptor)
    → geometry_post_init upper g ≡ ok h
    → IsWorld h
geometry_post_init-IsWorld upper g h e = ((geometry_post_init-Ensures upper g).at h e).1

-- What planning takes from it.
pub geometry_post_init-IsGeometry :
    (upper : String → String) (g h : GeometryDescriptor)
    → geometry_post_init upper g ≡ ok h
    → IsGeometry h
geometry_post_init-IsGeometry upper g h e = ((geometry_post_init-Ensures upper g).at h e).0
