-- ===== src/Connector/Ranks/Pigeonhole.antt =====
-- Distinct numbers inside a list, for the rank map of connector.py.
use kapsl_integrations.Prelude.{
  ℕ, suc, ◌≤◌, Bool, true, false, not, ◌&&◌, ◌||◌, List, [], ◌∷◌, length, ◌==◌, ==_iff,
  if◌then◌else◌, ◌≡◌, refl, sym, ap, ◌∙◌, arith, Bool-cases, inl, inr,
}
use kapsl_integrations.Prelude.Sorting.{contains, distinct}

abbrev pub has : List ℕ → ℕ → Bool
has xs x = contains ◌==◌ xs x

abbrev take_one : ℕ → List ℕ → List ℕ
take_one x [] = []
take_one x (y ∷ ys) = let later = y ∷ take_one x ys in if y == x then ys else later

length-take_one : (x : ℕ) (xs : List ℕ) → has xs x ≡ true → length xs ≡ suc (length (take_one x xs))
length-take_one x [] h = cc
length-take_one x (y ∷ ys) h = elim (Bool-cases (y == x)) [
  | inl e ↦ rw e refl
  | inr e ↦ let later = length-take_one x ys (ground arith) in rw e (omega (arith, later))
]

length_most : (x : ℕ) (xs : List ℕ) → length xs ≤ suc (length (take_one x xs))
length_most x [] = omega arith
length_most x (y ∷ ys) = elim (Bool-cases (y == x)) [
  | inl e ↦ rw e (omega arith)
  | inr e ↦ let later = length_most x ys in rw e (omega (arith, later))
]

has-take_one :
    (x : ℕ) (xs : List ℕ) (y : ℕ)
    → has xs y ≡ true
    → (x == y) ≡ false
    → has (take_one x xs) y ≡ true
has-take_one x [] y h k = cc
has-take_one x (z ∷ zs) y h k = elim (Bool-cases (z == x)) [
  | inl e ↦
      let same = (==_iff z x).0 e in let other = ap (λ w. w == y) same ∙ k in rw e (ground arith)
  | inr e ↦ elim (Bool-cases (z == y)) [
    | inl f ↦ rw (e, f) refl
    | inr f ↦ let later = has-take_one x zs y (ground arith) k in rw (e, f) later
  ]
]

take_one-has : (x : ℕ) (xs : List ℕ) (y : ℕ) → has (take_one x xs) y ≡ true → has xs y ≡ true
take_one-has x [] y h = h
take_one-has x (z ∷ zs) y h = elim (Bool-cases (z == x)) [
  | inl e ↦
      let here = sym (ap (λ b. has (if b then zs else z ∷ take_one x zs) y) e) ∙ h in ground arith
  | inr e ↦
      let here = sym (ap (λ b. has (if b then zs else z ∷ take_one x zs) y) e) ∙ h in
      elim (Bool-cases (z == y)) [
        | inl f ↦ rw f refl
        | inr f ↦ rw f (take_one-has x zs y (sym (ap (λ b. b || has (take_one x zs) y) f) ∙ here))
      ]
]

-- Distinct elements that all occur are no more than the occurrences.
pub distinct_fits :
    (xs ys : List ℕ)
    → distinct ◌==◌ xs ≡ true
    → ((x : ℕ) → has xs x ≡ true → has ys x ≡ true)
    → length xs ≤ length ys
distinct_fits [] ys d h = omega arith
distinct_fits (x ∷ xs) ys d h =
    let here = h x (let self = (==_iff x x).1 refl in ground arith) in
    let rest =
      distinct_fits xs (take_one x ys) (ground arith)
        (λ y k. has-take_one x ys y (h y (ground arith)) (apart y k)) in
    omega (arith, rest, length-take_one x ys here)
  where
    apart : (y : ℕ) → has xs y ≡ true → (x == y) ≡ false
    apart y k = elim (Bool-cases (x == y)) [
      | inl e ↦ let same = ap (has xs) ((==_iff x y).0 e) in ground arith
      | inr e ↦ e
    ]

distinct-take_one :
    (x : ℕ) (xs : List ℕ) → distinct ◌==◌ xs ≡ true → distinct ◌==◌ (take_one x xs) ≡ true
distinct-take_one x [] d = refl
distinct-take_one x (z ∷ zs) d = elim (Bool-cases (z == x)) [
  | inl e ↦ rw e (ground arith)
  | inr e ↦ rw e (both (new (ground arith)) (distinct-take_one x zs (ground arith)))
]
  where
    both : {a b : Bool} → a ≡ false → b ≡ true → (not a && b) ≡ true
    both {a = a} {b = b} h k = ground arith

    new : has zs z ≡ false → has (take_one x zs) z ≡ false
    new k = elim (Bool-cases (has (take_one x zs) z)) [
      | inl e ↦ let there = take_one-has x zs z e in cc
      | inr e ↦ e
    ]

gone : (x : ℕ) (xs : List ℕ) → distinct ◌==◌ xs ≡ true → has (take_one x xs) x ≡ false
gone x [] d = refl
gone x (z ∷ zs) d = elim (Bool-cases (z == x)) [
  | inl e ↦ let same = ap (has zs) ((==_iff z x).0 e) in rw e (ground arith)
  | inr e ↦ let later = gone x zs (ground arith) in rw (e, e) later
]

-- When distinct numbers are all found in a list that is no longer, its elements are distinct too.
pub distinct_cover :
    (xs ys : List ℕ)
    → distinct ◌==◌ xs ≡ true
    → ((x : ℕ) → has xs x ≡ true → has ys x ≡ true)
    → length ys ≤ length xs
    → distinct ◌==◌ ys ≡ true
distinct_cover xs [] d h l = refl
distinct_cover xs (y ∷ ys) d h l =
    let rest =
      distinct_cover (take_one y xs) ys (distinct-take_one y xs d)
        (λ x k. others x (h x (take_one-has y xs x k)) k) (omega (arith, l, length_most y xs)) in
    ground (arith, alone, rest)
  where
    others : (x : ℕ) → has (y ∷ ys) x ≡ true → has (take_one y xs) x ≡ true → has ys x ≡ true
    others x k t = elim (Bool-cases (y == x)) [
      | inl e ↦
          let same = ap (has (take_one y xs)) ((==_iff y x).0 e) in let none = gone y xs d in cc
      | inr e ↦ ground arith
    ]

    inside : has ys y ≡ true → (x : ℕ) → has (y ∷ ys) x ≡ true → has ys x ≡ true
    inside e x k = elim (Bool-cases (y == x)) [
      | inl f ↦ let same = ap (has ys) ((==_iff y x).0 f) in ground arith
      | inr f ↦ ground arith
    ]

    alone : has ys y ≡ false
    alone = elim (Bool-cases (has ys y)) [
      | inl e ↦
          let fits = distinct_fits xs ys d (λ x k. inside e x (h x k)) in ground (arith, fits, l)
      | inr e ↦ e
    ]
