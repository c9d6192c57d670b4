-- ===== src/Planning/Checked/Success.antt =====
-- When the checked arithmetic does not refuse: the operands and the result are words.
use kapsl_integrations.Prelude.{ℕ, ◌-◌, ◌*◌, ◌%◌, ◌≤◌, ◌<◌, String, ◌≡◌, ok, arith}
use kapsl_integrations.Planning.Checked.{uint, checked_mul, ceil_div, round_up, round_down}
use kapsl_integrations.Planning.Checked.Laws.{Fits, ceiling, ceiling-reaches}
use native.Mathlib.Nat.{le_trans}

-- A product with a positive number is no less.
pub le-mul_pos : (q a : ℕ) → 0 < a → q ≤ q * a
le-mul_pos q a h = grind arith

pub checked_mul-ok :
    (a b : ℕ) (field : String) → Fits a → Fits b → Fits (a * b) → checked_mul a b field ≡ ok (a * b)
unfolding checked_mul uint
checked_mul-ok a b field ha hb h = ground arith

pub ceil_div-ok :
    (v d : ℕ) (field : String) → Fits v → 0 < d → Fits d → ceil_div v d field ≡ ok (ceiling v d)
unfolding ceil_div uint
ceil_div-ok v d field hv pos hd = ground arith

pub round_up-ok :
    (v a : ℕ) (field : String)
    → 0 < a
    → Fits a
    → Fits (ceiling v a * a)
    → round_up v a field ≡ ok (ceiling v a * a)
unfolding round_up uint ceil_div checked_mul
round_up-ok v a field pos ha h =
    let hv : Fits v = le_trans (ceiling-reaches v a pos) h in
    let hq : Fits (ceiling v a) = le_trans (le-mul_pos (ceiling v a) a pos) h in ground arith

pub round_down-ok :
    (v a : ℕ) (field : String) → Fits v → 0 < a → Fits a → round_down v a field ≡ ok (v - v % a)
unfolding round_down uint
round_down-ok v a field hv pos ha = ground arith
