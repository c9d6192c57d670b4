-- ===== src/SharedPool/Blocks/Laws.antt =====
-- What the free queue of vLLM documents: it is a set of blocks, `remove` raises and changes nothing
-- when the block is not in it, and eviction leaves it alone. The loops over it, from these laws.
use kapsl_integrations.Prelude.{
  ℕ, zero, suc, ◌+◌, ◌≤◌, ◌≡◌, refl, Bool, true, false, not, ◌&&◌, ◌||◌, List, [], ◌∷◌, ◌++◌, take,
  drop, slice, leb, ltb, ◌==◌, ==_iff, ap, subst, sym, arith, ◌∙◌, Bool-cases, inl, inr,
}
use kapsl_integrations.Prelude.Sorting.{contains, range}
use kapsl_integrations.SharedPool.Blocks.{BlockQueue, remove_all, evict_all}

abbrev pub among : List ℕ → ℕ → Bool
among = contains ◌==◌

pub record Lawful {S : Type 0} (queue : BlockQueue S) : Type 0 where
  pub is_free : S → ℕ → Bool
  pub remove_takes :
      (s : S) (b x : ℕ)
      → (queue.remove s b).1 ≡ true
      → is_free (queue.remove s b).0 x ≡ (is_free s x && not (b == x))
  pub remove_needs : (s : S) (b : ℕ) → (queue.remove s b).1 ≡ true → is_free s b ≡ true
  pub remove_fails :
      (s : S) (b x : ℕ)
      → (queue.remove s b).1 ≡ false
      → is_free (queue.remove s b).0 x ≡ is_free s x
  pub append_adds :
      (s : S) (bs : List ℕ) (x : ℕ)
      → (queue.append_n s bs).1 ≡ true
      → is_free (queue.append_n s bs).0 x ≡ (is_free s x || among bs x)
  pub evict_keeps : (s : S) (b x : ℕ) → is_free (queue.evict s b).0 x ≡ is_free s x

among-append : (xs : List ℕ) (b x : ℕ) → among (xs ++ b ∷ []) x ≡ (among xs x || b == x)
among-append [] b x = ground arith
among-append (y ∷ ys) b x = ground (arith, among-append ys b x)

pub take-range : (start k n : ℕ) → k ≤ n → take k (range start n) ≡ range start k
take-range start zero n h = refl
take-range start (suc k) zero h = ground arith
take-range start (suc k) (suc n) h = ap (λ l. start ∷ l) (take-range (suc start) k n (omega arith))

pub among-drop-range :
    (start k n x : ℕ) → among (drop k (range start n)) x ≡ (leb (start + k) x && ltb x (start + n))
among-drop-range start zero zero x = ground arith
among-drop-range start (suc k) zero x = ground arith
among-drop-range start zero (suc n) x = ground (arith, among-drop-range (suc start) zero n x)
among-drop-range start (suc k) (suc n) x = ground (arith, among-drop-range (suc start) k n x)

pub among-slice :
    (from to n x : ℕ) → to ≤ n → among (slice from to (range 0 n)) x ≡ (leb from x && ltb x to)
among-slice from to n x h =
    ap (λ l. among (drop from l) x) (take-range 0 to n h)
    ∙ ground (arith, among-drop-range 0 from to x)

pub among-drop : (from n x : ℕ) → among (drop from (range 0 n)) x ≡ (leb from x && ltb x n)
among-drop from n x = ground (arith, among-drop-range 0 from n x)

module _ {S : Type 0} (queue : BlockQueue S) (lawful : Lawful queue) where
  -- Whether it stops early or not, the removal moves blocks from the queue to the list.
  pub remove_all-moves :
      (s : S) (removed bs : List ℕ) (x : ℕ)
      → (lawful.is_free (remove_all queue s removed bs).state x
          || among (remove_all queue s removed bs).removed x)
        ≡ (lawful.is_free s x || among removed x)
  unfolding remove_all
  remove_all-moves s removed [] x = refl
  remove_all-moves s removed (b ∷ bs) x = elim (Bool-cases (queue.remove s b).1) [
    | inl taken ↦ rw taken (
        remove_all-moves (queue.remove s b).0 (removed ++ b ∷ []) bs x
        ∙ moved (lawful.is_free s x) (among removed x) (b == x) (λ same. known s b x taken same)
            (lawful.remove_takes s b x taken) (among-append removed b x))
    | inr kept ↦ rw kept (ap (λ f. f || among removed x) (lawful.remove_fails s b x kept))
  ]
    where
      moved :
          {free' gone' : Bool} (free gone same : Bool)
          → (same ≡ true → free ≡ true)
          → free' ≡ (free && not same)
          → gone' ≡ (gone || same)
          → (free' || gone') ≡ (free || gone)
      moved true true true h e g = cc
      moved true true false h e g = cc
      moved true false true h e g = cc
      moved true false false h e g = cc
      moved false gone true h e g = let no = h refl in cc
      moved false true false h e g = cc
      moved false false false h e g = cc

      known :
          (s : S) (b x : ℕ)
          → (queue.remove s b).1 ≡ true
          → (b == x) ≡ true
          → lawful.is_free s x ≡ true
      known s b x taken same =
          subst (λ y. lawful.is_free s y ≡ true) ((==_iff b x).0 same)
            (lawful.remove_needs s b taken)

  pub remove_all-step :
      (s : S) (removed : List ℕ) (b : ℕ) (bs : List ℕ)
      → (queue.remove s b).1 ≡ true
      → remove_all queue s removed (b ∷ bs)
        ≡ remove_all queue (queue.remove s b).0 (removed ++ b ∷ []) bs
  unfolding remove_all
  remove_all-step s removed b bs taken = rw taken refl

  remove_all-stop :
      (s : S) (removed : List ℕ) (b : ℕ) (bs : List ℕ)
      → (queue.remove s b).1 ≡ false
      → (remove_all queue s removed (b ∷ bs)).completed ≡ false
  unfolding remove_all
  remove_all-stop s removed b bs kept = rw kept refl

  -- A removal that completes takes exactly its blocks out of the queue.
  pub remove_all-takes :
      (s : S) (removed bs : List ℕ) (x : ℕ)
      → (remove_all queue s removed bs).completed ≡ true
      → lawful.is_free (remove_all queue s removed bs).state x
        ≡ (lawful.is_free s x && not (among bs x))
  unfolding remove_all
  remove_all-takes s removed [] x h = ground arith
  remove_all-takes s removed (b ∷ bs) x h = elim (Bool-cases (queue.remove s b).1) [
    | inl taken ↦
        let step = remove_all-step s removed b bs taken in
        ap (λ r. lawful.is_free r.state x) step
        ∙ remove_all-takes (queue.remove s b).0 (removed ++ b ∷ []) bs x
            (ap (λ r. r.completed) (sym step) ∙ h)
        ∙ both (lawful.is_free s x) (b == x) (among bs x) (lawful.remove_takes s b x taken)
    | inr kept ↦ let stop = remove_all-stop s removed b bs kept in cc
  ]
    where
      both :
          {free' : Bool} (free same later : Bool)
          → free' ≡ (free && not same)
          → (free' && not later) ≡ (free && not (same || later))
      both true true later e = rw e refl
      both true false later e = rw e refl
      both false same later e = rw e refl

  pub evict_all-keeps :
      (s : S) (bs : List ℕ) (x : ℕ) → lawful.is_free (evict_all queue s bs).0 x ≡ lawful.is_free s x
  unfolding evict_all
  evict_all-keeps s [] x = refl
  evict_all-keeps s (b ∷ bs) x = elim (Bool-cases (queue.evict s b).1) [
    | inl done ↦ rw done (evict_all-keeps (queue.evict s b).0 bs x ∙ lawful.evict_keeps s b x)
    | inr stopped ↦ rw stopped (lawful.evict_keeps s b x)
  ]
