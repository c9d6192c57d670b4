-- ===== src/Packaging/Closure/Fuel.antt =====
-- The loop of `resolve_dependency_closure` of package_accelerator.py ends: a library is selected once.
use kapsl_integrations.Prelude.{
  ℕ, zero, suc, ◌+◌, ◌≤◌, ◌<◌, String, Bool, true, false, not, ◌||◌, Option, none, some, List, [],
  ◌∷◌, Result, err, str_eq, str_eq_iff, if◌then◌else◌, ◌≡◌, ◌≢◌, refl, sym, ap, subst, ◌∙◌,
  Bool-cases, inl, inr, arith, length, Never, Never-then,
}
use kapsl_integrations.Prelude.Sorting.{sorted, contains}
use kapsl_integrations.Packaging.Closure.{
  CandidateLibrary, PackageError, exhausted, text_le, is_host_library, find, is_candidate,
  each_once, push, dependencies, resolve_loop, resolve_dependency_closure,
}
use kapsl_integrations.Packaging.Closure.Sound.{among}

abbrev one : Bool → ℕ
one true = 1
one false = 0

-- The candidates whose names are not selected.
abbrev remaining : List CandidateLibrary → List String → ℕ
remaining [] selected = 0
remaining (c ∷ cs) selected = one (not (among selected c.name)) + remaining cs selected

remaining-all : (cs : List CandidateLibrary) → remaining cs [] ≡ length cs
remaining-all [] = refl
remaining-all (c ∷ cs) = omega (arith, remaining-all cs)

remaining-more :
    (cs : List CandidateLibrary) (selected : List String) (name : String)
    → remaining cs (name ∷ selected) ≤ remaining cs selected
remaining-more [] selected name = omega arith
remaining-more (c ∷ cs) selected name =
    let later = remaining-more cs selected name in
    omega (arith, later, less (str_eq name c.name) (among selected c.name))
  where
    less : (a b : Bool) → one (not (a || b)) ≤ one (not b)
    less a b = ground arith

remaining-select :
    (cs : List CandidateLibrary) (selected : List String) (name : String) (c : CandidateLibrary)
    → find cs name ≡ some c
    → among selected name ≡ false
    → remaining cs (name ∷ selected) < remaining cs selected
unfolding find
remaining-select [] selected name c h k = cc
remaining-select (d ∷ cs) selected name c h k =
    let more = remaining-more cs selected name in
    elim (Bool-cases (str_eq d.name name)) [
      | inl e ↦
          let same = (str_eq_iff d.name name).0 e in
          let here = ap one (ap not (subst (λ y. among selected y ≡ false) (sym same) k)) in
          let gone = ap one (
            ap not
              (ap (λ b. b || among selected d.name) ((str_eq_iff name d.name).1 (sym same)))) in
          omega (arith, more, here, gone)
      | inr e ↦
          let later =
            remaining-select cs selected name c
              (sym (ap (λ b. if b then some d else find cs name) e) ∙ h) k in
          omega (arith, later, less (str_eq name d.name) (among selected d.name))
    ]
  where
    less : (a b : Bool) → one (not (a || b)) ≤ one (not b)
    less a b = ground arith

Never-if :
    {A : Type 0} (e : PackageError) (b : Bool) (m m' : Result PackageError A)
    → (b ≡ true → Never e m)
    → (b ≡ false → Never e m')
    → Never e (if b then m else m')
Never-if e true m m' k k' = k refl
Never-if e false m m' k k' = k' refl

module _ (candidates : List CandidateLibrary) (needed : CandidateLibrary → List String) where
  Never-push :
      (selected pending names : List String)
      → Never exhausted (push candidates needed selected pending names)
  unfolding push
  Never-push selected pending [] = record { at = λ h. cc }
  Never-push selected pending (d ∷ rest) =
      Never-if exhausted (is_host_library d || contains str_eq selected d) _ _
        (λ _. Never-push selected pending rest)
        (λ _.
          Never-if exhausted (not (is_candidate (find candidates d))) _ _
            (λ _. record { at = λ h. cc }) (λ _. Never-push selected (d ∷ pending) rest))

  Never-found :
      (name : String) (o : Option CandidateLibrary)
      (k : CandidateLibrary → Result PackageError (List String))
      → find candidates name ≡ o
      → ((c : CandidateLibrary) → find candidates name ≡ some c → Never exhausted (k c))
      → Never exhausted (elim o [ none ↦ err (PackageError.missing name) | some c ↦ k c ])
  Never-found name none k h e = record { at = λ q. cc }
  Never-found name (some c) k h e = e c h

  Never-resolve_loop :
      (fuel : ℕ) (selected pending : List String)
      → remaining candidates selected ≤ fuel
      → Never exhausted (resolve_loop candidates needed fuel selected pending)
  unfolding resolve_loop
  Never-resolve_loop fuel selected [] h = record { at = λ q. cc }
  Never-resolve_loop zero selected (name ∷ pending) h =
      Never-if exhausted (contains str_eq selected name) _ _
        (λ _. Never-resolve_loop zero selected pending h)
        (λ k. Never-found name (find candidates name) _ refl (λ c found.
          let less = remaining-select candidates selected name c found k in
          elim (impossible less refl) [ ]))
    where
      impossible :
          remaining candidates (name ∷ selected) < remaining candidates selected → zero ≢ zero
      impossible less = omega (arith, h, less)
  Never-resolve_loop (suc fuel) selected (name ∷ pending) h =
      Never-if exhausted (contains str_eq selected name) _ _
        (λ _. Never-resolve_loop (suc fuel) selected pending h)
        (λ k. Never-found name (find candidates name) _ refl (λ c found.
          let less = remaining-select candidates selected name c found k in
          Never-then _ _ (Never-push (name ∷ selected) pending (dependencies candidates needed c))
            λ later. Never-resolve_loop fuel (name ∷ selected) later (omega (arith, h, less))))

  -- The loop never runs out of its fuel, the number of the candidates: it ends with a closure or with
  -- one of the code's errors.
  pub resolve_dependency_closure_ends :
      (roots : List String) → resolve_dependency_closure candidates needed roots ≢ err exhausted
  unfolding resolve_dependency_closure
  resolve_dependency_closure_ends roots =
      (Never-resolve_loop (length candidates) [] (sorted text_le (each_once roots))
        (omega (arith, remaining-all candidates))).at
