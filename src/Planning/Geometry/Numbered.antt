-- ===== src/Planning/Geometry/Numbered.antt =====
-- Sorted numbers that cover a range of their length are that range.
use kapsl_integrations.Prelude.{
  ℕ, zero, suc, ◌≤◌, ◌<◌, Bool, true, false, List, [], ◌∷◌, map, all, All, length, leb, ◌==◌,
  ==_iff, Bool-cases, inl, inr, ◌≡◌, ◌≢◌, refl, sym, ap, arith,
}
use kapsl_integrations.Prelude.Sorting.{sorted, insert, contains, distinct, range}
use kapsl_integrations.Connector.Ranks.Pigeonhole.{has, distinct_fits}
use kapsl_integrations.Client.Poll.Laws.{all-contains, contains-range}

-- Pairwise different.
abbrev pub Apart : List ℕ → Type 0
Apart [] = Unit
Apart (x ∷ xs) = All (λ y. x ≢ y) xs × Apart xs

abbrev Ascending : List ℕ → Type 0
Ascending [] = Unit
Ascending (x ∷ xs) = All (λ y. x ≤ y) xs × Ascending xs

not-contains-All : (x : ℕ) (xs : List ℕ) → contains ◌==◌ xs x ≡ false → All (λ y. x ≢ y) xs
not-contains-All x [] h = tt
not-contains-All x (y ∷ ys) h =
    ((λ e. let same = (==_iff y x).1 (sym e) in ground arith), not-contains-All x ys (ground arith))

pub distinct-Apart : (xs : List ℕ) → distinct ◌==◌ xs ≡ true → Apart xs
distinct-Apart [] h = tt
distinct-Apart (x ∷ xs) h = (not-contains-All x xs (ground arith), distinct-Apart xs (ground arith))

above-range : (start n x : ℕ) → has (range start n) x ≡ true → start ≤ x
above-range start n x h = ((contains-range start n x).0 h).0

distinct-range : (start n : ℕ) → distinct ◌==◌ (range start n) ≡ true
distinct-range start zero = refl
distinct-range start (suc n) = elim (Bool-cases (has (range (suc start) n) start)) [
  | inl e ↦ let low = above-range (suc start) n start e in ground (arith, low)
  | inr e ↦ let later = distinct-range (suc start) n in ground arith
]

length-range : (start n : ℕ) → length (range start n) ≡ n
length-range start zero = refl
length-range start (suc n) = ap suc (length-range (suc start) n)

at_least : (x i : ℕ) (xs : List ℕ) → All (λ y. x ≤ y) xs → has xs i ≡ true → x ≤ i
at_least x i [] a h = cc
at_least x i (y ∷ ys) a h = elim (Bool-cases (y == i)) [
  | inl e ↦ let same = (==_iff y i).0 e in omega (arith, a.0, same)
  | inr e ↦ at_least x i ys a.1 (ground arith)
]

later_has : (x i : ℕ) (xs : List ℕ) → x < i → has (x ∷ xs) i ≡ true → has xs i ≡ true
later_has x i xs l h = ground arith

-- No ascending list as short can begin below the range.
begins_low :
    (start n x : ℕ) (xs : List ℕ)
    → x < start
    → length xs < n
    → ((i : ℕ) → has (range start n) i ≡ true → has (x ∷ xs) i ≡ true)
    → ⊥
begins_low start n x xs low short h =
    let fits = distinct_fits (range start n) xs (distinct-range start n) (λ i k.
      let above = above-range start n i k in
      later_has x i xs (omega (arith, above, low)) (h i k)) in
    omega (arith, fits, short, length-range start n)

-- An ascending list as long as a range, each number of which it has.
Ascending-eq-range :
    (start n : ℕ) (xs : List ℕ)
    → Ascending xs
    → length xs ≡ n
    → ((i : ℕ) → has (range start n) i ≡ true → has xs i ≡ true)
    → xs ≡ range start n
Ascending-eq-range start zero [] a l h = refl
Ascending-eq-range start zero (x ∷ xs) a l h = ground arith
Ascending-eq-range start (suc n) [] a l h = ground arith
Ascending-eq-range start (suc n) (x ∷ xs) a l h =
    let found = h start (let self = (==_iff start start).1 refl in ground arith) in
    elim (Bool-cases (x == start)) [
      | inl e ↦
          let same = (==_iff x start).0 e in
          let rest = Ascending-eq-range (suc start) n xs a.1 (omega (arith, l)) (λ i k.
            let above = above-range (suc start) n i k in
            later_has x i xs (omega (arith, above, same)) (h i (ground arith))) in
          cc
      | inr e ↦
          let below = at_least x start xs a.0 (ground arith) in
          elim (begins_low start (suc n) x xs (ground arith) (omega (arith, l)) h) [ ]
    ]

module _ {A : Type 0} (key : A → ℕ) where
  abbrev pub by_key : A → A → Bool
  by_key a b = leb (key a) (key b)

  All-map-insert :
      (n : ℕ) (x : A) (xs : List A)
      → n ≤ key x
      → All (λ y. n ≤ y) (map key xs)
      → All (λ y. n ≤ y) (map key (insert by_key x xs))
  unfolding insert
  All-map-insert n x [] p h = (p, tt)
  All-map-insert n x (y ∷ ys) p h = elim (Bool-cases (by_key x y)) [
    | inl e ↦ rw e (p, h)
    | inr e ↦ rw e (h.0, All-map-insert n x ys p h.1)
  ]

  All-lower : (m n : ℕ) (xs : List ℕ) → m ≤ n → All (λ y. n ≤ y) xs → All (λ y. m ≤ y) xs
  All-lower m n [] l h = tt
  All-lower m n (x ∷ xs) l h = (omega (arith, l, h.0), All-lower m n xs l h.1)

  Ascending-insert :
      (x : A) (xs : List A) → Ascending (map key xs) → Ascending (map key (insert by_key x xs))
  unfolding insert
  Ascending-insert x [] h = (tt, tt)
  Ascending-insert x (y ∷ ys) h = elim (Bool-cases (by_key x y)) [
    | inl e ↦
        let below : key x ≤ key y = ground arith in
        rw e ((below, All-lower (key x) (key y) (map key ys) below h.0), h)
    | inr e ↦ rw e (All-map-insert (key y) x ys (ground arith) h.0, Ascending-insert x ys h.1)
  ]

  Ascending-sorted : (xs : List A) → Ascending (map key (sorted by_key xs))
  unfolding sorted
  Ascending-sorted [] = tt
  Ascending-sorted (x ∷ xs) = Ascending-insert x (sorted by_key xs) (Ascending-sorted xs)

  -- Sorted by a number, as many as a range whose numbers all occur: numbered as the range.
  pub sorted-range :
      (n : ℕ) (xs : List A)
      → length (map key (sorted by_key xs)) ≡ n
      → all (has (map key (sorted by_key xs))) (range 0 n) ≡ true
      → map key (sorted by_key xs) ≡ range 0 n
  sorted-range n xs l h =
      Ascending-eq-range 0 n (map key (sorted by_key xs)) (Ascending-sorted xs) l
        λ i k. all-contains (has (map key (sorted by_key xs))) (range 0 n) i h k
