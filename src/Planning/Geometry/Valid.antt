-- ===== src/Planning/Geometry/Valid.antt =====
-- What planning assumes of the ranks of a geometry.
use kapsl_integrations.Prelude.{◌≡◌, true, map, length}
use kapsl_integrations.Planning.Types.{RankGeometry, GeometryDescriptor}
use kapsl_integrations.Planning.Geometry.{covers_range, like_first}

-- The ranks are numbered as the tensor-parallel world, and have the shape of the first.
pub record IsGeometry (g : GeometryDescriptor) : Type 0 where
  pub covered : length g.ranks ≡ g.tensor_parallel_size
  pub numbered :
      covers_range g.tensor_parallel_size (map (λ (r : RankGeometry). r.rank) g.ranks) ≡ true
  pub uniform : like_first g.ranks ≡ true
