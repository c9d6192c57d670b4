-- ===== src/Prelude/Results.antt =====
-- Code that returns or raises. `Ensures P m` is the postcondition `P` of what `m` returns, with one
-- rule for each way to build `m`; a proof walks the source in its order.
use mathlib.Core.Path.{◌≡◌, refl, subst}
use mathlib.Core.Logic.{◌≢◌}
use mathlib.Core.Bool.{Bool, true, false}
use mathlib.Core.List.{List, [], ◌∷◌}
use kapsl_integrations.Prelude.Tests.{if◌then◌else◌}

pub data Result (E A : Type 0) : Type 0 where
  ok : A → Result E A
  err : E → Result E A

infixl 5 ◌>>=◌ ◌>>◌
abbrev pub ◌>>=◌ : {E A B : Type 0} → Result E A → (A → Result E B) → Result E B
ok a >>= f = f a
err e >>= f = err e

abbrev pub ◌>>◌ : {E A B : Type 0} → Result E A → Result E B → Result E B
m >> k = m >>= λ _. k

-- `if condition: raise e`
abbrev pub raise_if : {E : Type 0} → Bool → E → Result E (Unit {0})
raise_if true e = err e
raise_if false e = ok tt

-- A comprehension whose element may raise: left to right, the first error ends it.
abbrev pub traverse : {E A B : Type 0} → (A → Result E B) → List A → Result E (List B)
traverse f [] = ok []
traverse f (x ∷ xs) = let rest = traverse f xs in f x >>= λ y. rest >>= λ ys. ok (y ∷ ys)

pub ok-injective : {E A : Type 0} {a b : A} → ◌≡◌ {A = Result E A} (ok a) (ok b) → a ≡ b
ok-injective h = cc

pub record Ensures {E A : Type 0} (P : A → Type 0) (m : Result E A) : Type 0 where
  pub at : (a : A) → m ≡ ok a → P a

module _ {E A : Type 0} {P : A → Type 0} where
  pub Ensures-ok : (a : A) → P a → Ensures {E = E} P (ok a)
  Ensures-ok a p = record { at = λ b e. subst P (ok-injective e) p }

  pub Ensures-err : (e : E) → Ensures P (err e)
  Ensures-err e = record { at = λ b h. cc }

  pub Ensures-if :
      (b : Bool) (m n : Result E A)
      → (b ≡ true → Ensures P m)
      → (b ≡ false → Ensures P n)
      → Ensures P (if b then m else n)
  Ensures-if true m n km kn = km refl
  Ensures-if false m n km kn = kn refl

  pub Ensures-raise_if :
      (b : Bool) (e : E) (k : Result E A)
      → (b ≡ false → Ensures P k)
      → Ensures P (raise_if b e >> k)
  Ensures-raise_if true e k h = record { at = λ a q. cc }
  Ensures-raise_if false e k h = h refl

module _ {E A : Type 0} {P Q : A → Type 0} where
  pub Ensures-both : {m : Result E A} → Ensures P m → Ensures Q m → Ensures (λ a. P a × Q a) m
  Ensures-both em en = record { at = λ a h. (em.at a h, en.at a h) }

module _ {E A B : Type 0} {P : A → Type 0} {Q : B → Type 0} where
  pub Ensures-bind :
      (m : Result E A) (f : A → Result E B)
      → Ensures P m
      → ((value : A) → P value → Ensures Q (f value))
      → Ensures Q (m >>= f)
  Ensures-bind (ok a) f em ef = ef a (em.at a refl)
  Ensures-bind (err e) f em ef = record { at = λ b q. cc }

module _ {E A B : Type 0} {Q : B → Type 0} where
  -- A step whose value the rest does not rely on.
  pub Ensures-skip :
      (m : Result E A) (f : A → Result E B) → ((a : A) → Ensures Q (f a)) → Ensures Q (m >>= f)
  Ensures-skip (ok a) f ef = ef a
  Ensures-skip (err e) f ef = record { at = λ b q. cc }

-- `m` does not raise `e`.
pub record Never {E A : Type 0} (e : E) (m : Result E A) : Type 0 where
  pub at : m ≢ err e

module _ {E A B : Type 0} {P : A → Type 0} {e : E} where
  pub Never-bind :
      (m : Result E A) (f : A → Result E B)
      → Never e m
      → Ensures P m
      → ((a : A) → P a → Never e (f a))
      → Never e (m >>= f)
  Never-bind (ok a) f nm em nf = nf a (em.at a refl)
  Never-bind (err e') f nm em nf = record { at = λ h. nm.at (cc) }

module _ {E A B : Type 0} {e : E} where
  pub Never-then :
      (m : Result E A) (f : A → Result E B)
      → Never e m
      → ((a : A) → Never e (f a))
      → Never e (m >>= f)
  Never-then (ok a) f nm nf = nf a
  Never-then (err e') f nm nf = record { at = λ h. nm.at (cc) }
