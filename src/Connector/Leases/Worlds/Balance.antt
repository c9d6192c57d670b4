-- ===== src/Connector/Leases/Worlds/Balance.antt =====
-- What one run of a handler (connector.py) does to the leases of the table and to its own.
use kapsl_integrations.Prelude.{
  ℕ, ◌+◌, ◌≤◌, String, Bool, true, false, not, ◌||◌, none, some, List, [], ◌∷◌, ◌++◌, str_eq,
  str_eq_iff, if◌then◌else◌, ◌≡◌, refl, ap, arith, Bool-cases, inl, inr,
}
use kapsl_integrations.Connector.Leases.{
  Reply, granted, accepted, control_error, Thread, entering, awaiting, activating, checking,
  reserving, inserting, returning, finishing, committing, releasing, closing, draining, sleeping,
  polling, counting, beating, ended, Table, Connector, has_lease, set_default, pop, values, enter,
  await_lock, activated, insert_lease, pop_lease, close, drained, wake, heard, beat, advance,
  is_empty_table,
}
use kapsl_integrations.Connector.Leases.Worlds.{holds, take_out, settle, one, times}

pub times-append :
    (lease : String) (xs ys : List String)
    → times lease (xs ++ ys) ≡ times lease xs + times lease ys
times-append lease [] ys = omega arith
times-append lease (x ∷ xs) ys = omega (arith, times-append lease xs ys)

times-take_out :
    (lease : String) (l : String) (ls : List String)
    → 1 ≤ times l ls
    → times lease ls ≡ one (str_eq lease l) + times lease (take_out l ls)
times-take_out lease l [] h = omega arith
times-take_out lease l (x ∷ xs) h = elim (Bool-cases (str_eq l x)) [
  | inl e ↦
      let same = ap (λ y. one (str_eq lease y)) ((str_eq_iff l x).0 e) in rw e (omega (arith, same))
  | inr e ↦
      let absent = ap one e in
      let rest = times-take_out lease l xs (omega (arith, h, absent)) in rw e (omega (arith, rest))
]

values-append : (xs ys : Table) → values (xs ++ ys) ≡ values xs ++ values ys
values-append [] ys = refl
values-append ((r, l) ∷ xs) ys = ap (λ ls. l ∷ ls) (values-append xs ys)

insert-balance :
    (m request lease : String) (c : Connector)
    → times m (values (insert_lease request lease c).0.leases)
        + times m (holds (insert_lease request lease c).1)
      ≡ times m (values c.leases) + times m (lease ∷ [])
unfolding insert_lease set_default
insert-balance m request lease c = elim (Bool-cases (has_lease c.leases request)) [
  | inl e ↦ rw e refl
  | inr e ↦ rw e (
      let split = ap (times m) (values-append c.leases ((request, lease) ∷ [])) in
      let sum = times-append m (values c.leases) (lease ∷ []) in omega (arith, split, sum))
]

pop-balance :
    (m request : String) (c : Connector)
    → times m (values (pop_lease request c).0.leases) + times m (holds (pop_lease request c).1)
      ≡ times m (values c.leases)
unfolding pop_lease pop
pop-balance m request c = go c.leases
  where
    go :
        (table : Table)
        → times m (values (pop table request).0)
            + times m (
                holds (elim (pop table request).1 [
                  | none ↦ ended false []
                  | some lease ↦ committing lease
                ]))
          ≡ times m (values table)
    go [] = refl
    go ((r, l) ∷ rest) = elim (Bool-cases (str_eq r request)) [
      | inl e ↦ rw e (omega arith)
      | inr e ↦ let later = go rest in rw e (omega (arith, later))
    ]

-- The leases of the table and of one thread.
abbrev pub both : String → Connector × Thread → ℕ
both m r = times m (values r.0.leases) + times m (holds r.1)

both-if :
    (m : String) (n : ℕ) (b : Bool) (r r' : Connector × Thread)
    → both m r ≡ n
    → both m r' ≡ n
    → both m (if b then r else r') ≡ n
both-if m n true r r' h h' = h
both-if m n false r r' h h' = h'

enter-balance :
    (m request : String) (c : Connector) → both m (enter request c) ≡ times m (values c.leases) + 0
unfolding enter
enter-balance m request c =
    both-if m _ c.failed _ _ refl (both-if m _ (not c.is_shared || c.active) _ _ refl refl)

await_lock-balance :
    (m request : String) (c : Connector)
    → both m (await_lock request c) ≡ times m (values c.leases) + 0
unfolding await_lock
await_lock-balance m request c = both-if m _ c.locked _ _ refl (both-if m _ c.active _ _ refl refl)

both-choice :
    (m : String) (b : Bool) (t t' : Thread) (c : Connector)
    → holds t ≡ []
    → holds t' ≡ []
    → both m (c, if b then t else t') ≡ times m (values c.leases) + 0
both-choice m true t t' c h h' = ap (λ ls. times m (values c.leases) + times m ls) h
both-choice m false t t' c h h' = ap (λ ls. times m (values c.leases) + times m ls) h'

activated-balance :
    (m request : String) (reply : Reply) (c : Connector)
    → both m (activated reply request c) ≡ times m (values c.leases) + 0
unfolding activated
activated-balance m request accepted c = refl
activated-balance m request _ c = refl

wake-balance : (m : String) (c : Connector) → both m (wake c) ≡ times m (values c.leases) + 0
wake-balance m c =
    both-if m _ c.stopped (c, ended false []) (c, if c.is_live then polling else counting) refl
      (both-choice m c.is_live polling counting c refl refl)

heard-balance :
    (m : String) (reply : Reply) (c : Connector)
    → both m (heard reply c) ≡ times m (values c.leases) + 0
unfolding heard
heard-balance m accepted c = refl
heard-balance m control_error c = refl
heard-balance m _ c = refl

beat-balance :
    (m : String) (reply : Reply) (c : Connector)
    → both m (beat reply c) ≡ times m (values c.leases) + 0
unfolding beat
beat-balance m accepted c = refl
beat-balance m control_error c = both-if m _ (is_empty_table c.leases) _ _ refl refl
beat-balance m _ c = refl

close-balance : (m : String) (c : Connector) → both m (close c) ≡ times m (values c.leases) + 0
close-balance m c = omega (arith, times-append m (values c.leases) [])

drained-balance :
    (m lease : String) (rest lost : List String)
    → times m (holds (drained control_error lease rest lost)) ≡ times m (lease ∷ (rest ++ lost))
unfolding drained
drained-balance m lease rest lost =
    omega (arith, times-append m rest (lease ∷ lost), times-append m rest lost)

-- A run changes the leases that are out as it changes those of the table and of its thread.
pub record Balanced (m : String) (reply : Reply) (t : Thread) (c : Connector) (out : List String)
    : Type 0 where
  pub at :
      times m (settle t reply out) + (times m (values c.leases) + times m (holds t))
      ≡ times m out + both m (advance t reply c)

Balanced-quiet :
    (m : String) (reply : Reply) (t : Thread) (c : Connector) (out : List String)
    → settle t reply out ≡ out
    → both m (advance t reply c) ≡ times m (values c.leases) + times m (holds t)
    → Balanced m reply t c out
Balanced-quiet m reply t c out s h = record {
  at = let same = ap (times m) s in omega (arith, same, h);
}

returned :
    (m lease : String) (out rest : List String) (n : ℕ)
    → 1 ≤ times lease out
    → times m (take_out lease out) + (n + times m (lease ∷ rest)) ≡ times m out + (n + times m rest)
returned m lease out rest n h = omega (arith, times-take_out m lease out h)

own :
    (lease : String) (rest out : List String)
    → times lease (lease ∷ rest) ≤ times lease out
    → 1 ≤ times lease out
own lease rest out h = let self = ap one ((str_eq_iff lease lease).1 refl) in omega (arith, self, h)

module _ (m : String) (c : Connector) (out : List String) where
  Balanced-reserving :
      (reply : Reply) (request : String) → Balanced m reply (reserving request) c out
  unfolding advance
  Balanced-reserving (granted lease) request = record { at = omega arith }
  Balanced-reserving accepted request = record { at = refl }
  Balanced-reserving _ request = record { at = refl }

  Balanced-returning :
      (reply : Reply) (lease : String)
      → 1 ≤ times lease out
      → Balanced m reply (returning lease) c out
  unfolding advance
  Balanced-returning accepted lease h = record { at = returned m lease out [] _ h }
  Balanced-returning _ lease h = record { at = refl }

  Balanced-committing : (reply : Reply) (lease : String) → Balanced m reply (committing lease) c out
  unfolding advance
  Balanced-committing accepted lease = record { at = refl }
  Balanced-committing _ lease = record { at = refl }

  Balanced-releasing :
      (reply : Reply) (raised : Bool) (lease : String)
      → 1 ≤ times lease out
      → Balanced m reply (releasing raised lease) c out
  unfolding advance
  Balanced-releasing accepted raised lease h = record { at = returned m lease out [] _ h }
  Balanced-releasing _ raised lease h = record { at = refl }

  Balanced-draining :
      (reply : Reply) (lease : String) (rest lost : List String)
      → 1 ≤ times lease out
      → Balanced m reply (draining (lease ∷ rest) lost) c out
  unfolding advance drained
  Balanced-draining accepted lease rest lost h = record {
    at = returned m lease out (rest ++ lost) _ h;
  }
  Balanced-draining control_error lease rest lost h = record {
    at = omega (arith, drained-balance m lease rest lost);
  }
  Balanced-draining _ lease rest lost h = record { at = refl }

pub Balanced-advance :
    (m : String) (reply : Reply) (t : Thread) (c : Connector) (out : List String)
    → ((l : String) → times l (holds t) ≤ times l out)
    → Balanced m reply t c out
unfolding advance
Balanced-advance m reply (entering request) c out h =
    Balanced-quiet m reply (entering request) c out refl (enter-balance m request c)
Balanced-advance m reply (awaiting request) c out h =
    Balanced-quiet m reply (awaiting request) c out refl (await_lock-balance m request c)
Balanced-advance m reply (activating request) c out h =
    Balanced-quiet m reply (activating request) c out refl (activated-balance m request reply c)
Balanced-advance m reply (checking request) c out h =
    Balanced-quiet m reply (checking request) c out refl
      (both-choice m (has_lease c.leases request) (ended false []) (reserving request) c refl refl)
Balanced-advance m reply (reserving request) c out h = Balanced-reserving m c out reply request
Balanced-advance m reply (inserting request lease) c out h =
    Balanced-quiet m reply (inserting request lease) c out refl (insert-balance m request lease c)
Balanced-advance m reply (returning lease) c out h =
    Balanced-returning m c out reply lease (own lease [] out (h lease))
Balanced-advance m reply (finishing request) c out h =
    Balanced-quiet m reply (finishing request) c out refl (omega (arith, pop-balance m request c))
Balanced-advance m reply (committing lease) c out h = Balanced-committing m c out reply lease
Balanced-advance m reply (releasing raised lease) c out h =
    Balanced-releasing m c out reply raised lease (own lease [] out (h lease))
Balanced-advance m reply closing c out h =
    Balanced-quiet m reply closing c out refl (close-balance m c)
Balanced-advance m reply (draining [] lost) c out h =
    Balanced-quiet m reply (draining [] lost) c out refl refl
Balanced-advance m reply (draining (lease ∷ rest) lost) c out h =
    Balanced-draining m c out reply lease rest lost (own lease (rest ++ lost) out (h lease))
Balanced-advance m reply sleeping c out h =
    Balanced-quiet m reply sleeping c out refl (wake-balance m c)
Balanced-advance m reply polling c out h =
    Balanced-quiet m reply polling c out refl (heard-balance m reply c)
Balanced-advance m reply counting c out h =
    Balanced-quiet m reply counting c out refl
      (both-choice m (is_empty_table c.leases) sleeping beating c refl refl)
Balanced-advance m reply beating c out h =
    Balanced-quiet m reply beating c out refl (beat-balance m reply c)
Balanced-advance m reply (ended raised lost) c out h =
    Balanced-quiet m reply (ended raised lost) c out refl refl
