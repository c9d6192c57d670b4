-- ===== src/Planning/Checked.antt =====
-- The checked unsigned arithmetic of planning.py (`_uint` to `round_down`).
pub mod Laws
pub mod Success
pub mod Totals
use Prim.Native.String.{◌++◌}
use kapsl_integrations.Prelude.{
  ℕ, ◌+◌, ◌-◌, ◌*◌, ◌/◌, ◌%◌, ◌^◌, String, Bool, true, false, ◌||◌, List, [], ◌∷◌, ok, err,
  raise_if, ltb, ◌==◌, if◌then◌else◌, ◌>>=◌, ◌>>◌,
}
use kapsl_integrations.Planning.Errors.{Planned, not_positive, not_non_negative, overflows}

abbrev pub uint64_max : ℕ
uint64_max = 2 ^ 64 - 1

-- `_uint` of a value that is an integer and not negative.
unfoldable pub uint : ℕ → String → Bool → Planned ℕ
uint value field allow_zero =
    if ltb value (if allow_zero then 0 else 1) || ltb uint64_max value
    then err (if allow_zero then not_non_negative field else not_positive field)
    else ok value

unfoldable pub checked_add : ℕ → ℕ → String → Planned ℕ
unfolding uint
checked_add left right field = do
  l ← uint left field true
  r ← uint right field true
  raise_if (ltb uint64_max (l + r)) (overflows field)
  ok (l + r)

unfoldable pub checked_mul : ℕ → ℕ → String → Planned ℕ
unfolding uint
checked_mul left right field = do
  l ← uint left field true
  r ← uint right field true
  raise_if (ltb uint64_max (l * r)) (overflows field)
  ok (l * r)

unfoldable pub ceil_div : ℕ → ℕ → String → Planned ℕ
unfolding uint
ceil_div value divisor field = do
  v ← uint value field true
  d ← uint divisor (field ++ " divisor") false
  ok (v / d + (if v % d == 0 then 0 else 1))

unfoldable pub round_up : ℕ → ℕ → String → Planned ℕ
unfolding uint ceil_div checked_mul
round_up value alignment field = do
  v ← uint value field true
  a ← uint alignment (field ++ " alignment") false
  q ← ceil_div v a field
  checked_mul q a field

unfoldable pub round_down : ℕ → ℕ → String → Planned ℕ
unfolding uint
round_down value alignment field = do
  v ← uint value field true
  a ← uint alignment (field ++ " alignment") false
  ok (v - v % a)

-- `total = 0; for x in xs: total = checked_add(total, x.count, field)`, from any `total`.
unfoldable pub checked_total : {A : Type 0} → (A → ℕ) → String → ℕ → List A → Planned ℕ
checked_total count field total [] = ok total
checked_total count field total (x ∷ xs) =
    checked_add total (count x) field >>= λ t. checked_total count field t xs
