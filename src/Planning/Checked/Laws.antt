-- ===== src/Planning/Checked/Laws.antt =====
-- What the checked arithmetic returns, and when it refuses.
use native.Mathlib.Nat.{
  mul-mod_left, div-add-mod', mod-lt, mul_comm, div-mul-le_self, div-le_of_le-mul,
  div-lt_iff_lt-mul, mod-eq-sub-div-mul, mul-le-mul_right, le-div_iff_mul-le,
}
use native.Mathlib.Decide.{ℕ_discrete}
use kapsl_integrations.Prelude.{
  ℕ, ◌+◌, ◌-◌, ◌*◌, ◌/◌, ◌%◌, ◌==◌, ◌≤◌, ◌<◌, String, ◌≡◌, true, ok, err, arith, Ensures, ltb,
  if◌then◌else◌, min, max,
}
use kapsl_integrations.Planning.Errors.{overflows}
use kapsl_integrations.Planning.Checked.{
  uint64_max, uint, checked_add, checked_mul, ceil_div, round_up, round_down,
}

abbrev pub Fits : ℕ → Type 0
Fits n = n ≤ uint64_max

-- `a` divides `n`.
abbrev pub IsMultiple : ℕ → ℕ → Type 0
IsMultiple a n = n % a ≡ 0

-- The value is `v`, and a machine word holds it.
abbrev pub IsWord : ℕ → ℕ → Type 0
IsWord v n = (n ≡ v) × Fits n

uint-eq : (n : ℕ) (field : String) → Fits n → uint n field true ≡ ok n
unfolding uint
uint-eq n field h = ground arith

pub checked_add-Ensures :
    (a b : ℕ) (field : String) → Ensures (IsWord (a + b)) (checked_add a b field)
unfolding checked_add uint
checked_add-Ensures a b field = record { at = λ v h. ground arith }

pub checked_mul-Ensures :
    (a b : ℕ) (field : String) → Ensures (IsWord (a * b)) (checked_mul a b field)
unfolding checked_mul uint
checked_mul-Ensures a b field = record { at = λ v h. ground arith }

pub checked_add-eq :
    (a b : ℕ) (field : String)
    → Fits a
    → Fits b
    → checked_add a b field ≡ (if ltb uint64_max (a + b) then err (overflows field) else ok (a + b))
unfolding checked_add uint
checked_add-eq a b field ha hb = ground arith

pub checked_add-ok : (a b : ℕ) (field : String) → Fits (a + b) → checked_add a b field ≡ ok (a + b)
unfolding checked_add uint
checked_add-ok a b field h = ground arith

pub checked_mul-eq :
    (a b : ℕ) (field : String)
    → Fits a
    → Fits b
    → checked_mul a b field ≡ (if ltb uint64_max (a * b) then err (overflows field) else ok (a * b))
unfolding checked_mul uint
checked_mul-eq a b field ha hb = ground arith

-- The least number of `d`s that reaches `v`.
pub record IsCeiling (v d q : ℕ) : Type 0 where
  pub reaches : v ≤ q * d
  pub least : (k : ℕ) → v ≤ k * d → q ≤ k

pub record IsRoundUp (v a r : ℕ) : Type 0 where
  pub above : v ≤ r
  pub within : r < v + a
  pub multiple : IsMultiple a r
  pub least : (n : ℕ) → IsMultiple a n → v ≤ n → r ≤ n
  pub fits : Fits r

pub record IsRoundDown (v a r : ℕ) : Type 0 where
  pub below : r ≤ v
  pub within : v < r + a
  pub multiple : IsMultiple a r
  pub greatest : (n : ℕ) → IsMultiple a n → n ≤ v → n ≤ r

-- `v // d + int(v % d != 0)` is the ceiling of the quotient.
abbrev pub ceiling : ℕ → ℕ → ℕ
ceiling v d = v / d + (if v % d == 0 then 0 else 1)

ceiling_least : (v d k : ℕ) → 0 < d → v ≤ k * d → ceiling v d ≤ k
ceiling_least v d k h hk =
    let quotient : v / d ≤ k = div-le_of_le-mul d (rw mul_comm hk) in
    let exact : (k * d) % d ≡ 0 = mul-mod_left k d in
    let strict : v < k * d → v / d < k = (div-lt_iff_lt-mul h).1 in
    elim (ℕ_discrete v (k * d)) [
      | yes e ↦ let even : v % d ≡ 0 = rw e exact in ground arith
      | no ne ↦ let less : v / d < k = strict (omega arith) in ground arith
    ]

ceiling-IsCeiling : (v d : ℕ) → 0 < d → IsCeiling v d (ceiling v d)
ceiling-IsCeiling v d h = record {
  reaches = grind (arith, div-add-mod' v d, mod-lt v h);
  least = λ k hk. ceiling_least v d k h hk;
}

pub ceiling-reaches : (v d : ℕ) → 0 < d → v ≤ ceiling v d * d
ceiling-reaches v d h = (ceiling-IsCeiling v d h).reaches

pub ceiling-least_multiple : (v a n : ℕ) → 0 < a → IsMultiple a n → v ≤ n → ceiling v a * a ≤ n
ceiling-least_multiple v a n h hn hv =
    let whole : n / a * a ≡ n = omega (arith, div-add-mod' n a) in
    rw (← whole) (mul-le-mul_right a (ceiling_least v a (n / a) h (omega arith)))

ceiling-IsRoundUp : (v a : ℕ) → 0 < a → Fits (ceiling v a * a) → IsRoundUp v a (ceiling v a * a)
ceiling-IsRoundUp v a h fits = record {
  above = (ceiling-IsCeiling v a h).reaches;
  within = grind (arith, div-add-mod' v a, mod-lt v h);
  multiple = mul-mod_left (ceiling v a) a;
  least = λ n hn hv. ceiling-least_multiple v a n h hn hv;
  fits = fits;
}

ceil_div-inv :
    (v d q : ℕ) (field : String) → ceil_div v d field ≡ ok q → (0 < d) × (q ≡ ceiling v d)
unfolding ceil_div uint
ceil_div-inv v d q field h = ground arith

pub ceil_div-Ensures : (v d : ℕ) (field : String) → Ensures (IsCeiling v d) (ceil_div v d field)
ceil_div-Ensures v d field = record {
  at = λ q h. let (pos, e) = ceil_div-inv v d q field h in rw e (ceiling-IsCeiling v d pos);
}

round_up-inv :
    (v a q : ℕ) (field : String)
    → round_up v a field ≡ ok q
    → (0 < a) × (q ≡ ceiling v a * a) × Fits q
unfolding round_up uint ceil_div checked_mul
round_up-inv v a q field h = ground arith

pub round_up-Ensures : (v a : ℕ) (field : String) → Ensures (IsRoundUp v a) (round_up v a field)
round_up-Ensures v a field = record {
  at = λ q h.
      let (pos, e, fits) = round_up-inv v a q field h in
      rw e (ceiling-IsRoundUp v a pos (rw e at fits));
}

round_down-inv :
    (v a q : ℕ) (field : String) → round_down v a field ≡ ok q → (0 < a) × (q ≡ v - v % a)
unfolding round_down uint
round_down-inv v a q field h = ground arith

floor_greatest : (v a n : ℕ) → 0 < a → IsMultiple a n → n ≤ v → n ≤ v / a * a
floor_greatest v a n h hn hv =
    let whole : n / a * a ≡ n = omega (arith, div-add-mod' n a) in
    rw (← whole) (mul-le-mul_right a ((le-div_iff_mul-le h).1 (omega arith)))

sub_sub_floor : (v a : ℕ) → v - (v - v / a * a) ≡ v / a * a
sub_sub_floor v a = omega (arith, div-mul-le_self v a)

pub round_down-Ensures :
    (v a : ℕ) (field : String) → Ensures (IsRoundDown v a) (round_down v a field)
round_down-Ensures v a field = record {
  at = λ q h.
      let (pos, e) = round_down-inv v a q field h in
      record {
        below = omega arith;
        within = omega (arith, mod-lt v pos);
        greatest = λ n hn hv.
            rw (e, mod-eq-sub-div-mul v a)
              (rw (sub_sub_floor v a) (floor_greatest v a n pos hn hv));
        multiple = rw (e, mod-eq-sub-div-mul v a) (rw (sub_sub_floor v a) (mul-mod_left (v / a) a));
      };
}

pub max-IsMultiple : (a m n : ℕ) → IsMultiple a m → IsMultiple a n → IsMultiple a (max m n)
max-IsMultiple a m n hm hn = ground arith

pub min-IsMultiple : (a m n : ℕ) → IsMultiple a m → IsMultiple a n → IsMultiple a (min m n)
min-IsMultiple a m n hm hn = ground arith
