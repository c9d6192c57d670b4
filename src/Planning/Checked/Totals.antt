-- ===== src/Planning/Checked/Totals.antt =====
-- A checked running total is the sum, or the sum does not fit.
use kapsl_integrations.Prelude.{
  ℕ, ◌+◌, String, ◌≡◌, ap, List, [], ◌∷◌, ok, err, arith, Ensures, Ensures-ok, Ensures-bind, ltb,
  if◌then◌else◌, All, ◌∙◌,
}
use kapsl_integrations.Planning.Errors.{overflows}
use kapsl_integrations.Planning.Checked.{uint64_max, checked_total}
use kapsl_integrations.Planning.Checked.Laws.{
  Fits, IsWord, checked_add-Ensures, checked_add-eq, checked_add-ok,
}

-- The mathematical sum, with no bound.
abbrev pub sum_by : {A : Type 0} → (A → ℕ) → List A → ℕ
sum_by count [] = 0
sum_by count (x ∷ xs) = count x + sum_by count xs

module _ {A : Type 0} (count : A → ℕ) (field : String) where
  pub checked_total-Ensures :
      (total : ℕ) (xs : List A)
      → Fits total
      → Ensures (IsWord (total + sum_by count xs)) (checked_total count field total xs)
  unfolding checked_total
  checked_total-Ensures total [] h = Ensures-ok total (omega arith)
  checked_total-Ensures total (x ∷ xs) h =
      Ensures-bind _ _ (checked_add-Ensures total (count x) field)
        λ t w. record { at = λ v e. omega (arith, (checked_total-Ensures t xs w.1).at v e) }

  -- A sum that fits is returned.
  pub checked_total-ok :
      (total : ℕ) (xs : List A)
      → Fits (total + sum_by count xs)
      → checked_total count field total xs ≡ ok (total + sum_by count xs)
  unfolding checked_total
  checked_total-ok total [] h = ap ok (omega arith)
  checked_total-ok total (x ∷ xs) h =
      rw (checked_add-ok total (count x) field (omega arith))
        (checked_total-ok (total + count x) xs (omega arith) ∙ ap ok (omega arith))

  -- A running total of words is the sum if that is a word, and is refused otherwise.
  pub checked_total-exact :
      (total : ℕ) (xs : List A)
      → Fits total
      → All (λ x. Fits (count x)) xs
      → checked_total count field total xs ≡ (
          if ltb uint64_max (total + sum_by count xs)
          then err (overflows field)
          else ok (total + sum_by count xs))
  unfolding checked_total
  checked_total-exact total [] h hs = ground arith
  checked_total-exact total (x ∷ xs) h hs = ground (
    arith,
    checked_add-eq total (count x) field h hs.0,
    λ (fits : Fits (total + count x)). checked_total-exact (total + count x) xs fits hs.1,
  )
