-- ===== src/Connector/Leases/Worlds.antt =====
-- Interleavings of the scheduler's handlers in connector.py, with the leases that the coordinator has
-- out. Every one of them is in the table, with a handler that runs, or given up by one that ended.
pub mod Balance
pub mod Account
use kapsl_integrations.Prelude.{
  ℕ, ◌+◌, ◌-◌, ◌≤◌, String, Bool, true, false, not, ◌&&◌, ◌||◌, Option, none, some, List, [], ◌∷◌,
  ◌++◌, str_eq, str_eq_iff, append_assoc, all, if◌then◌else◌, ◌≡◌, ◌≢◌, refl, ap, sym, ◌∙◌, subst,
  arith, Bool-cases, inl, inr,
}
use kapsl_integrations.Connector.Leases.{
  Reply, granted, accepted, control_error, other_error, Thread, entering, activating, checking,
  reserving, inserting, returning, finishing, committing, releasing, closing, draining, sleeping,
  polling, counting, beating, ended, Table, Connector, has_lease, set_default, pop, values, enter,
  activated, insert_lease, pop_lease, close, drained, wake, heard, count_leases, beat, advance,
  is_empty_table,
}

-- The leases that a handler has to return, or gave up.
abbrev pub holds : Thread → List String
holds (inserting request lease) = lease ∷ []
holds (returning lease) = lease ∷ []
holds (committing lease) = lease ∷ []
holds (releasing raised lease) = lease ∷ []
holds (draining leases lost) = leases ++ lost
holds (ended raised lost) = lost
holds _ = []

abbrev pub holds_all : List Thread → List String
holds_all [] = []
holds_all (t ∷ ts) = holds t ++ holds_all ts

abbrev pub take_out : String → List String → List String
take_out lease [] = []
take_out lease (l ∷ ls) = let later = take_out lease ls in if str_eq lease l then ls else l ∷ later

-- The leases that are out after the coordinator's reply to a thread.
abbrev pub settle : Thread → Reply → List String → List String
settle (reserving request) (granted lease) out = lease ∷ out
settle (returning lease) accepted out = take_out lease out
settle (releasing raised lease) accepted out = take_out lease out
settle (draining (lease ∷ rest) lost) accepted out = take_out lease out
settle _ _ out = out

pub record World : Type 0 where
  pub connector : Connector
  pub threads : List Thread
  pub out : List String

abbrev pub one : Bool → ℕ
one true = 1
one false = 0

abbrev pub times : String → List String → ℕ
times lease [] = 0
times lease (l ∷ ls) = one (str_eq lease l) + times lease ls

-- One thread, anywhere in the list, runs on; or a new one starts, that holds nothing.
pub data Step : World → World → Type 0 where
  run :
      (before after : List Thread) (t : Thread) (reply : Reply) (c : Connector) (out : List String)
      → Step
          (record { connector = c; threads = before ++ t ∷ after; out = out })
          (record {
            connector = (advance t reply c).0;
            threads = before ++ (advance t reply c).1 ∷ after;
            out = settle t reply out;
          })
  start :
      (threads : List Thread) (t : Thread) (c : Connector) (out : List String)
      → holds t ≡ []
      → Step
          (record { connector = c; threads = threads; out = out })
          (record { connector = c; threads = t ∷ threads; out = out })

pub data Steps : World → World → Type 0 where
  done : (w : World) → Steps w w
  and_then : {w w' w'' : World} → Step w w' → Steps w' w'' → Steps w w''

-- Every lease that is out is in the table or with a handler, as often as it is out.
pub record IsAccounted (w : World) : Type 0 where
  pub at :
      (lease : String)
      → times lease w.out
        ≡ times lease (values w.connector.leases) + times lease (holds_all w.threads)
