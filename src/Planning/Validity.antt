-- ===== src/Planning/Validity.antt =====
-- What the checks of `RankGeometry` and `SizingPolicy` in planning.py leave true of a value.
use kapsl_integrations.Prelude.{ℕ, ◌≤◌, ◌<◌, Option, none, some}
use kapsl_integrations.Planning.Types.{CacheGroupGeometry, RankGeometry, SizingPolicy}
use kapsl_integrations.Planning.Checked.Laws.{Fits}
use kapsl_integrations.Planning.Checked.Totals.{sum_by}

-- A positive word.
abbrev pub IsPositive : ℕ → Type 0
IsPositive n = (0 < n) × Fits n

abbrev pub IsPositiveIfSet : Option ℕ → Type 0
IsPositiveIfSet none = Unit
IsPositiveIfSet (some n) = IsPositive n

-- The optional bounds are ordered where both are given.
abbrev pub Ordered : Option ℕ → Option ℕ → Type 0
Ordered (some a) (some b) = a ≤ b
Ordered _ _ = Unit

pub record IsPolicy (p : SizingPolicy) : Type 0 where
  pub target : IsPositive p.target_concurrency
  pub maximum : IsPositiveIfSet p.maximum_concurrency
  pub maximum_above : Ordered (some p.target_concurrency) p.maximum_concurrency
  pub percent : p.headroom_percent ≤ 100
  pub prefix : Fits p.prefix_blocks
  pub alignment : IsPositive p.alignment_blocks
  pub min_positive : IsPositiveIfSet p.min_bytes
  pub max_positive : IsPositiveIfSet p.max_bytes
  pub bytes_ordered : Ordered p.min_bytes p.max_bytes

-- The blocks of one sequence: the sum over the cache groups.
abbrev pub sequence_of : RankGeometry → ℕ
sequence_of rank = sum_by (λ (g : CacheGroupGeometry). g.required_blocks_per_sequence) rank.groups

-- What sizing needs of a checked rank: a stride, and a sequence that takes a block at least.
pub record IsRank (r : RankGeometry) : Type 0 where
  pub stride : IsPositive r.pool_bytes_per_block
  pub overhead : Fits r.fixed_overhead_blocks
  pub sequence : 0 < sequence_of r
