-- ===== src/Connector/Leases/Worlds/Account.antt =====
-- Every lease that the coordinator has out is accounted for, in every interleaving (connector.py).
use kapsl_integrations.Prelude.{
  ℕ, ◌+◌, String, Bool, true, false, List, [], ◌∷◌, ◌++◌, str_eq_iff, append_assoc, all, ◌≡◌, ◌≢◌,
  refl, ap, sym, ◌∙◌, arith,
}
use kapsl_integrations.Connector.Leases.{Thread, ended, values, advance}
use kapsl_integrations.Connector.Leases.Worlds.{
  holds, holds_all, World, one, times, Step, run, start, Steps, done, and_then, IsAccounted,
}
use kapsl_integrations.Connector.Leases.Worlds.Balance.{times-append, Balanced-advance}

holds_all-append : (xs ys : List Thread) → holds_all (xs ++ ys) ≡ holds_all xs ++ holds_all ys
holds_all-append [] ys = refl
holds_all-append (t ∷ ts) ys =
    ap (λ ls. holds t ++ ls) (holds_all-append ts ys)
    ∙ sym (append_assoc (holds t) (holds_all ts) (holds_all ys))

times-threads :
    (m : String) (before after : List Thread) (t : Thread)
    → times m (holds_all (before ++ t ∷ after))
      ≡ times m (holds_all before) + (times m (holds t) + times m (holds_all after))
times-threads m before after t =
    let split = ap (times m) (holds_all-append before (t ∷ after)) in
    omega (
      arith,
      split,
      times-append m (holds_all before) (holds t ++ holds_all after),
      times-append m (holds t) (holds_all after),
    )

Step-IsAccounted : {w w' : World} → Step w w' → IsAccounted w → IsAccounted w'
Step-IsAccounted (run before after t reply c out) a = record {
  at = λ m.
      let balance =
        (Balanced-advance m reply t c out (λ l.
          let whole = a.at l in
          let parts = times-threads l before after t in omega (arith, whole, parts))).at in
      let whole = a.at m in
      let parts = times-threads m before after t in
      let parts' = times-threads m before after (advance t reply c).1 in
      omega (arith, balance, whole, parts, parts');
}
Step-IsAccounted (start threads t c out idle) a = record {
  at = λ m.
      let whole = a.at m in
      let empty = ap (times m) idle in
      omega (arith, whole, empty, times-append m (holds t) (holds_all threads));
}

-- In every interleaving of the handlers, whichever calls fail, each lease that the coordinator has out
-- is in the table, or with a handler that is on its way to return it, or given up by one that ended;
-- if that was so at the start.
pub Steps-IsAccounted : {w w' : World} → Steps w w' → IsAccounted w → IsAccounted w'
Steps-IsAccounted (done w) a = a
Steps-IsAccounted (and_then s ss) a = Steps-IsAccounted ss (Step-IsAccounted s a)

-- A handler that has ended without giving up a lease.
abbrev pub is_clean : Thread → Bool
is_clean (ended raised []) = true
is_clean _ = false

clean_holds : (ts : List Thread) → all is_clean ts ≡ true → holds_all ts ≡ []
clean_holds [] h = refl
clean_holds (ended raised [] ∷ ts) h = clean_holds ts h
clean_holds (_ ∷ ts) h = cc

positive : (n : ℕ) → 1 + n ≢ 0
positive n = omega arith

no_lease : (ls : List String) → ((lease : String) → times lease ls ≡ 0) → ls ≡ []
no_lease [] h = refl
no_lease (l ∷ ls) h =
    let self = ap one ((str_eq_iff l l).1 refl) in
    let absent = h l in elim (positive (times l ls) (omega (arith, self, absent))) [ ]

-- Once the handlers have ended without a failed release and the table is empty, as `shutdown` leaves it,
-- the coordinator has no lease out, whatever the interleaving was.
pub Steps-returns :
    {w w' : World}
    → Steps w w'
    → IsAccounted w
    → all is_clean w'.threads ≡ true
    → w'.connector.leases ≡ []
    → w'.out ≡ []
Steps-returns {w' = w'} steps a clean empty = no_lease w'.out λ lease.
    let whole = (Steps-IsAccounted steps a).at lease in
    let table = ap (λ t. times lease (values t)) empty in
    let threads = ap (times lease) (clean_holds w'.threads clean) in
    omega (arith, whole, table, threads)
