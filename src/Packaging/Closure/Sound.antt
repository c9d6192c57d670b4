-- ===== src/Packaging/Closure/Sound.antt =====
-- What `resolve_dependency_closure` of package_accelerator.py selects.
use kapsl_integrations.Prelude.{
  ℕ, zero, suc, String, Bool, true, false, not, ◌&&◌, ◌||◌, Option, none, some, List, [], ◌∷◌,
  Result, ok, err, str_eq, str_eq_iff, ◌≡◌, refl, sym, ap, subst, ◌∙◌, Bool-cases, inl, inr, arith,
  length, Ensures, Ensures-ok, Ensures-err, Ensures-bind, Ensures-if,
}
use kapsl_integrations.Prelude.Sorting.{sorted, insert, contains}
use kapsl_integrations.Packaging.Closure.{
  CandidateLibrary, PackageError, text_le, text_ge, is_host_library, find, is_candidate, each_once,
  push, dependencies, resolve_loop, resolve_dependency_closure,
}

abbrev pub among : List String → String → Bool
among xs x = contains str_eq xs x

among-insert :
    (le : String → String → Bool) (y : String) (xs : List String) (x : String)
    → among (insert le y xs) x ≡ (str_eq y x || among xs x)
unfolding insert
among-insert le y [] x = refl
among-insert le y (z ∷ xs) x =
    let later = among-insert le y xs x in
    elim (Bool-cases (le y z)) [
      | inl e ↦ rw e refl
      | inr e ↦ rw (e, later) (swap (str_eq z x) (str_eq y x) (among xs x))
    ]
  where
    swap : (a b c : Bool) → (a || (b || c)) ≡ (b || (a || c))
    swap a b c = ground arith

pub among-sorted :
    (le : String → String → Bool) (xs : List String) (x : String)
    → among (sorted le xs) x ≡ among xs x
unfolding sorted
among-sorted le [] x = refl
among-sorted le (y ∷ xs) x =
    among-insert le y (sorted le xs) x ∙ ap (λ b. str_eq y x || b) (among-sorted le xs x)

same_member : (xs : List String) (x y : String) → str_eq x y ≡ true → among xs y ≡ among xs x
same_member xs x y h = ap (among xs) (sym ((str_eq_iff x y).0 h))

pub among-each_once : (xs : List String) (x : String) → among (each_once xs) x ≡ among xs x
unfolding each_once
among-each_once [] x = refl
among-each_once (y ∷ xs) x =
    let later = among-each_once xs x in
    elim (Bool-cases (among (each_once xs) y)) [
      | inl e ↦ rw e (
          later
          ∙ sym (
              twice (str_eq y x) (among xs x)
                (λ s. sym later ∙ (same_member (each_once xs) y x s ∙ e))))
      | inr e ↦ rw e (ap (λ b. str_eq y x || b) later)
    ]
  where
    twice : (a b : Bool) → (a ≡ true → b ≡ true) → (a || b) ≡ b
    twice true b h = sym (h refl)
    twice false b h = refl

-- `d` needs no selection, or is selected, or waits.
abbrev pub is_settled : List String → List String → String → Bool
is_settled selected pending d = is_host_library d || (among selected d || among pending d)

module _ (candidates : List CandidateLibrary) (needed : CandidateLibrary → List String)
    (roots : List String) where
  -- A library that a root needs, directly or not, past the libraries of the host.
  pub data Reaches : String → Type 0 where
    root : (name : String) → among roots name ≡ true → Reaches name
    needs :
        (name dependency : String) (c : CandidateLibrary)
        → Reaches name
        → find candidates name ≡ some c
        → among (needed c) dependency ≡ true
        → is_host_library dependency ≡ false
        → Reaches dependency

  AllReach : List String → Type 0
  AllReach names = (x : String) → among names x ≡ true → Reaches x

  -- What `push` returns: the waiting names and those dependencies that are to be selected.
  record IsPushed (selected pending names later : List String) : Type 0 where
    pub keeps : (x : String) → among pending x ≡ true → among later x ≡ true
    pub settles : (x : String) → among names x ≡ true → is_settled selected later x ≡ true
    pub comes :
        (x : String)
        → among later x ≡ true
        → (among pending x || (among names x && not (is_host_library x))) ≡ true

  push-Ensures :
      (selected pending names : List String)
      → Ensures (IsPushed selected pending names) (push candidates needed selected pending names)
  unfolding push
  push-Ensures selected pending [] =
      Ensures-ok _ (record { keeps = λ x h. h; settles = λ x h. cc; comes = λ x h. ground arith })
  push-Ensures selected pending (d ∷ rest) =
      Ensures-if (is_host_library d || among selected d) _ _
        (λ skip. record {
          at = λ later h. skipped skip later ((push-Ensures selected pending rest).at later h);
        })
        (λ keep.
          Ensures-if (not (is_candidate (find candidates d))) _ _ (λ _. Ensures-err _)
            (λ _. record {
              at = λ later h.
                  pushed keep later ((push-Ensures selected (d ∷ pending) rest).at later h);
            }))
    where
      same_settled :
          (later : List String) (x : String)
          → str_eq d x ≡ true
          → is_settled selected later d ≡ true
          → is_settled selected later x ≡ true
      same_settled later x e h =
          subst (λ y. is_settled selected later y ≡ true) ((str_eq_iff d x).0 e) h

      skipped :
          is_host_library d || among selected d ≡ true
          → (later : List String) → IsPushed selected pending rest later
          → IsPushed selected pending (d ∷ rest) later
      skipped skip later p = record {
        keeps = p.keeps;
        settles = λ x h. elim (Bool-cases (str_eq d x)) [
          | inl e ↦ same_settled later x e (ground arith)
          | inr e ↦ p.settles x (ground arith)
        ];
        comes = λ x h. let before = p.comes x h in ground arith;
      }

      pushed :
          is_host_library d || among selected d ≡ false
          → (later : List String) → IsPushed selected (d ∷ pending) rest later
          → IsPushed selected pending (d ∷ rest) later
      pushed keep later p = record {
        keeps = λ x h. p.keeps x (ground arith);
        settles = λ x h. elim (Bool-cases (str_eq d x)) [
          | inl e ↦ same_settled later x e (
              let self = (str_eq_iff d d).1 refl in
              let there = p.keeps d (ground arith) in ground arith)
          | inr e ↦ p.settles x (ground arith)
        ];
        comes = λ x h.
            let before = p.comes x h in
            elim (Bool-cases (str_eq d x)) [
              | inl e ↦
                  let outside : is_host_library x ≡ false =
                    subst (λ y. is_host_library y ≡ false) ((str_eq_iff d x).0 e) (ground arith) in
                  ground arith
              | inr e ↦ ground arith
            ];
      }

  -- Each name is a candidate whose needs are settled.
  Closes : List String → List String → Type 0
  Closes selected pending =
      (n : String)
      → among selected n ≡ true
      → (c : CandidateLibrary) × ((find candidates n ≡ some c)
          × ((d : String) → among (needed c) d ≡ true → is_settled selected pending d ≡ true))

  record Ready (selected pending : List String) : Type 0 where
    pub closes : Closes selected pending
    pub reached : AllReach selected
    pub waiting : AllReach pending

  record Resolved (selected pending out : List String) : Type 0 where
    pub closes : Closes out []
    pub keeps : (x : String) → among selected x ≡ true → among out x ≡ true
    pub takes : (x : String) → among pending x ≡ true → among out x ≡ true
    pub reached : AllReach out

  among-dependencies :
      (c : CandidateLibrary) (d : String)
      → among (needed c) d ≡ true
      → among (dependencies candidates needed c) d ≡ true
  among-dependencies c d h =
      among-sorted text_ge (each_once (needed c)) d ∙ (among-each_once (needed c) d ∙ h)

  dependencies-among :
      (c : CandidateLibrary) (d : String)
      → among (dependencies candidates needed c) d ≡ true
      → among (needed c) d ≡ true
  dependencies-among c d h =
      sym (among-sorted text_ge (each_once (needed c)) d ∙ among-each_once (needed c) d) ∙ h

  Ready-skip :
      (selected pending : List String) (name : String)
      → among selected name ≡ true
      → Ready selected (name ∷ pending)
      → Ready selected pending
  unfolding Closes AllReach
  Ready-skip selected pending name h r = record {
    closes = λ n e.
        let old = r.closes n e in
        (old.0, (old.1.0, λ d k. again d (old.1.1 d k) (λ s. same_member selected name d s ∙ h)));
    reached = r.reached;
    waiting = λ x k. r.waiting x (ground arith);
  }
    where
      again :
          (d : String)
          → is_settled selected (name ∷ pending) d ≡ true
          → (str_eq name d ≡ true → among selected d ≡ true)
          → is_settled selected pending d ≡ true
      again d settled same = elim (Bool-cases (str_eq name d)) [
        | inl e ↦ let here = same e in ground arith
        | inr e ↦ ground arith
      ]

  Ready-select :
      (selected pending later : List String) (name : String) (c : CandidateLibrary)
      → find candidates name ≡ some c
      → Ready selected (name ∷ pending)
      → IsPushed (name ∷ selected) pending (dependencies candidates needed c) later
      → Ready (name ∷ selected) later
  unfolding Closes AllReach
  Ready-select selected pending later name c found r p = record {
    closes = λ n e. elim (Bool-cases (str_eq name n)) [
      | inl s ↦ (
        c,
        (
          subst (λ y. find candidates y ≡ some c) ((str_eq_iff name n).0 s) found,
          λ d k. p.settles d (among-dependencies c d k),
        ),
      )
      | inr s ↦
          let old = r.closes n (ground arith) in
          (
            old.0,
            (
              old.1.0,
              λ d k. let settled = old.1.1 d k in let kept = p.keeps d in still d settled kept,
            ),
          )
    ];
    reached = λ x k. elim (Bool-cases (str_eq name x)) [
      | inl s ↦ subst Reaches ((str_eq_iff name x).0 s) here
      | inr s ↦ r.reached x (ground arith)
    ];
    waiting = λ x k.
        let came = p.comes x k in
        elim (Bool-cases (among pending x)) [
          | inl s ↦ r.waiting x (ground arith)
          | inr s ↦ needs name x c here found (dependencies-among c x (ground arith)) (ground arith)
        ];
  }
    where
      here : Reaches name
      here = r.waiting name (let self = (str_eq_iff name name).1 refl in ground arith)

      still :
          (d : String)
          → is_settled selected (name ∷ pending) d ≡ true
          → (among pending d ≡ true → among later d ≡ true)
          → is_settled (name ∷ selected) later d ≡ true
      still d settled kept = elim (Bool-cases (among pending d)) [
        | inl e ↦ let there = kept e in ground arith
        | inr e ↦ ground arith
      ]

  Ensures-found :
      {P : List String → Type 0} (name : String) (o : Option CandidateLibrary)
      (k : CandidateLibrary → Result PackageError (List String))
      → find candidates name ≡ o
      → ((c : CandidateLibrary) → find candidates name ≡ some c → Ensures P (k c))
      → Ensures P (elim o [ none ↦ err (PackageError.missing name) | some c ↦ k c ])
  Ensures-found name none k h e = Ensures-err _
  Ensures-found name (some c) k h e = e c h

  past :
      (selected pending out : List String) (name : String)
      → among selected name ≡ true
      → Resolved selected pending out
      → Resolved selected (name ∷ pending) out
  past selected pending out name h r = record {
    closes = r.closes;
    keeps = r.keeps;
    takes = λ x k. elim (Bool-cases (str_eq name x)) [
      | inl s ↦ r.keeps x (same_member selected name x s ∙ h)
      | inr s ↦ r.takes x (ground arith)
    ];
    reached = r.reached;
  }

  grown :
      (selected pending later out names : List String) (name : String)
      → IsPushed (name ∷ selected) pending names later
      → Resolved (name ∷ selected) later out
      → Resolved selected (name ∷ pending) out
  grown selected pending later out names name p r = record {
    closes = r.closes;
    keeps = λ x k. r.keeps x (ground arith);
    takes = λ x k. elim (Bool-cases (str_eq name x)) [
      | inl s ↦ r.keeps x (ground arith)
      | inr s ↦ r.takes x (p.keeps x (ground arith))
    ];
    reached = r.reached;
  }

  Resolved-resolve_loop :
      (fuel : ℕ) (selected pending : List String)
      → Ready selected pending
      → Ensures (Resolved selected pending) (resolve_loop candidates needed fuel selected pending)
  unfolding resolve_loop Closes AllReach
  Resolved-resolve_loop fuel selected [] r =
      Ensures-ok _
        (record { closes = r.closes; keeps = λ x h. h; takes = λ x h. cc; reached = r.reached })
  Resolved-resolve_loop zero selected (name ∷ pending) r =
      Ensures-if (among selected name) _ _
        (λ h. record {
          at = λ out e. past selected pending out name h (
              (Resolved-resolve_loop zero selected pending
                  (Ready-skip selected pending name h r)).at
                out e);
        })
        (λ h. spent (find candidates name))
    where
      spent :
          (o : Option CandidateLibrary)
          → Ensures (Resolved selected (name ∷ pending)) (elim o [
            | none ↦ err (PackageError.missing name)
            | some c ↦ err PackageError.exhausted
          ])
      spent none = Ensures-err _
      spent (some c) = Ensures-err _
  Resolved-resolve_loop (suc fuel) selected (name ∷ pending) r =
      Ensures-if (among selected name) _ _
        (λ h. record {
          at = λ out e. past selected pending out name h (
              (Resolved-resolve_loop (suc fuel) selected pending
                  (Ready-skip selected pending name h r)).at
                out e);
        })
        (λ h. Ensures-found name (find candidates name) _ refl (λ c found.
          Ensures-bind _ _
            (push-Ensures (name ∷ selected) pending (dependencies candidates needed c))
            λ later p. record {
              at = λ out e. grown selected pending later out _ name p (
                  (Resolved-resolve_loop fuel (name ∷ selected) later
                      (Ready-select selected pending later name c found r p)).at
                    out e);
            }))

  -- The roots and what they need, and nothing else: each is a candidate, whose needs the host has or
  -- are selected too.
  pub record IsClosure (selected : List String) : Type 0 where
    pub rooted : (x : String) → among roots x ≡ true → among selected x ≡ true
    pub closed :
        (x : String)
        → among selected x ≡ true
        → (c : CandidateLibrary) × ((find candidates x ≡ some c)
            × ((d : String)
                → among (needed c) d ≡ true
                → (is_host_library d || among selected d) ≡ true))
    pub least : (x : String) → among selected x ≡ true → Reaches x

  -- A closure that is returned has the roots, is closed under what its libraries need beyond the host's,
  -- and has no library that the roots do not reach.
  pub resolve_dependency_closure-IsClosure :
      (selected : List String)
      → resolve_dependency_closure candidates needed roots ≡ ok selected
      → IsClosure selected
  unfolding resolve_dependency_closure Closes AllReach
  resolve_dependency_closure-IsClosure selected h =
      let start =
        λ (x : String). among-sorted text_le (each_once roots) x ∙ among-each_once roots x in
      let r =
        (Resolved-resolve_loop (length candidates) [] (sorted text_le (each_once roots)) (record {
          closes = λ n e. cc;
          reached = λ x e. cc;
          waiting = λ x e. root x (sym (start x) ∙ e);
        })).at
          selected h in
      record {
        rooted = λ x e. r.takes x (start x ∙ e);
        closed = λ x e.
            let c = r.closes x e in (c.0, (c.1.0, λ d k. let settled = c.1.1 d k in ground arith));
        least = r.reached;
      }
