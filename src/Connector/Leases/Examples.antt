-- ===== src/Connector/Leases/Examples.antt =====
-- A run of the scheduler's handlers (connector.py): two callbacks race for one request.
use kapsl_integrations.Prelude.{String, arith, true, false, List, [], ◌∷◌, ◌≡◌, refl}
use kapsl_integrations.Connector.Leases.{
  Reply, granted, accepted, Thread, entering, reserving, inserting, returning, finishing,
  committing, releasing, ended, Connector, control_error, beating, enter, await_lock, awaiting,
  activating, beat, has_lease, set_default, insert_lease, pop, pop_lease, advance,
}
use kapsl_integrations.Connector.Leases.Failure.{Steps-fails}
use kapsl_integrations.Connector.Leases.Worlds.{
  World, run, start, Steps, done, and_then, IsAccounted,
}
use kapsl_integrations.Connector.Leases.Worlds.Account.{Steps-IsAccounted, Steps-returns}

abbrev fresh : Connector
fresh = record {
  is_shared = false;
  is_live = false;
  active = false;
  locked = false;
  stopped = false;
  failed = false;
  leases = [];
}

abbrev one_leased : Connector
one_leased = record fresh { leases = ("r", "a") ∷ [] }

abbrev world : Connector → List Thread → List String → World
world c threads out = record { connector = c; threads = threads; out = out }

-- Both have found no lease and have asked for one.
abbrev asked : World
asked = world fresh (reserving "r" ∷ reserving "r" ∷ []) []

abbrev raced : World
raced = world one_leased (ended false [] ∷ ended false [] ∷ []) ("a" ∷ [])

second_returns :
    Steps (world one_leased (ended false [] ∷ inserting "r" "b" ∷ []) ("b" ∷ "a" ∷ [])) raced
unfolding advance insert_lease set_default has_lease
second_returns =
    and_then (run (ended false [] ∷ []) [] (inserting "r" "b") accepted one_leased ("b" ∷ "a" ∷ []))
      (and_then (run (ended false [] ∷ []) [] (returning "b") accepted one_leased ("b" ∷ "a" ∷ []))
        (done raced))

race : Steps asked raced
unfolding advance insert_lease set_default has_lease
race = and_then (run [] (reserving "r" ∷ []) (reserving "r") (granted "a") fresh []) (
    and_then (run (inserting "r" "a" ∷ []) [] (reserving "r") (granted "b") fresh ("a" ∷ [])) (
      and_then (run [] (inserting "r" "b" ∷ []) (inserting "r" "a") accepted fresh ("b" ∷ "a" ∷ []))
        second_returns))

asked-IsAccounted : IsAccounted asked
asked-IsAccounted = record { at = λ lease. refl }

Steps-IsAccounted_example : IsAccounted raced
Steps-IsAccounted_example = Steps-IsAccounted race asked-IsAccounted

-- The request finishes, with a commit that is accepted and a release too.
abbrev ending : World
ending = world one_leased (finishing "r" ∷ []) ("a" ∷ [])

abbrev over : World
over = world fresh (ended false [] ∷ []) []

finish_releases : Steps ending over
unfolding advance pop_lease pop
finish_releases = and_then (run [] [] (finishing "r") accepted one_leased ("a" ∷ [])) (
    and_then (run [] [] (committing "a") accepted fresh ("a" ∷ []))
      (and_then (run [] [] (releasing false "a") accepted fresh ("a" ∷ [])) (done over)))

ending-IsAccounted : IsAccounted ending
ending-IsAccounted = record { at = λ lease. omega arith }

all_returned : over.out ≡ []
all_returned = Steps-returns finish_releases ending-IsAccounted refl refl

-- A heartbeat fails while a lease is held.
abbrev alone : World
alone = world one_leased (beating ∷ []) ("a" ∷ [])

abbrev cut_off : World
cut_off = world (record one_leased { failed = true }) (ended false [] ∷ []) ("a" ∷ [])

authority_lost : Steps alone cut_off
unfolding advance beat
authority_lost = and_then (run [] [] beating control_error one_leased ("a" ∷ [])) (done cut_off)

-- And then a request comes.
abbrev turned_away : World
turned_away =
    world (record one_leased { failed = true }) (ended true [] ∷ ended false [] ∷ []) ("a" ∷ [])

request_fails : Steps cut_off turned_away
unfolding advance enter
request_fails =
    and_then (start (ended false [] ∷ []) (entering "s") cut_off.connector ("a" ∷ []) refl) (
      and_then (run [] (ended false [] ∷ []) (entering "s") accepted cut_off.connector ("a" ∷ []))
        (done turned_away))

Steps-fails_example :
    (true ≡ true)
    × ((request : String) (reply : Reply)
        → advance (entering request) reply turned_away.connector
          ≡ (turned_away.connector, ended true []))
Steps-fails_example = Steps-fails request_fails refl

-- A request that waits for the activation is not asked again whether the authority was lost.
waits_for_activation :
    advance
      (awaiting "s")
      accepted
      (record fresh { is_shared = true; locked = true; failed = true })
    ≡ (record fresh { is_shared = true; locked = true; failed = true }, awaiting "s")
unfolding advance await_lock
waits_for_activation = refl

activates_after :
    advance (awaiting "s") accepted (record fresh { is_shared = true; failed = true })
    ≡ (record fresh { is_shared = true; locked = true; failed = true }, activating "s")
unfolding advance await_lock
activates_after = refl
