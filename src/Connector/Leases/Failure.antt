-- ===== src/Connector/Leases/Failure.antt =====
-- The loss of the runtime's authority in connector.py: `_control_failure` and what it refuses.
use kapsl_integrations.Prelude.{
  String, Bool, true, false, not, ◌||◌, [], ◌∷◌, ◌≡◌, refl, if◌then◌else◌,
}
use kapsl_integrations.Connector.Leases.{
  Reply, granted, accepted, control_error, Thread, entering, awaiting, activating, checking,
  reserving, inserting, returning, finishing, committing, releasing, closing, draining, sleeping,
  polling, counting, beating, ended, Connector, enter, await_lock, activated, insert_lease,
  pop_lease, heard, beat, advance, is_empty_table,
}
use kapsl_integrations.Connector.Leases.Worlds.{World, Step, run, start, Steps, done, and_then}

failed-if :
    (b : Bool) (r r' : Connector × Thread)
    → r.0.failed ≡ true
    → r'.0.failed ≡ true
    → (if b then r else r').0.failed ≡ true
failed-if true r r' h h' = h
failed-if false r r' h h' = h'

failed-enter :
    (request : String) (c : Connector) → c.failed ≡ true → (enter request c).0.failed ≡ true
unfolding enter
failed-enter request c h =
    failed-if c.failed _ _ h (failed-if (not c.is_shared || c.active) _ _ h h)

failed-await_lock :
    (request : String) (c : Connector) → c.failed ≡ true → (await_lock request c).0.failed ≡ true
unfolding await_lock
failed-await_lock request c h = failed-if c.locked _ _ h (failed-if c.active _ _ h h)

failed-activated :
    (reply : Reply) (request : String) (c : Connector)
    → c.failed ≡ true
    → (activated reply request c).0.failed ≡ true
unfolding activated
failed-activated accepted request c h = h
failed-activated _ request c h = h

failed-heard : (reply : Reply) (c : Connector) → c.failed ≡ true → (heard reply c).0.failed ≡ true
unfolding heard
failed-heard accepted c h = h
failed-heard control_error c h = refl
failed-heard _ c h = h

failed-beat : (reply : Reply) (c : Connector) → c.failed ≡ true → (beat reply c).0.failed ≡ true
unfolding beat
failed-beat accepted c h = h
failed-beat control_error c h = failed-if (is_empty_table c.leases) _ _ h refl
failed-beat _ c h = h

failed-advance :
    (t : Thread) (reply : Reply) (c : Connector)
    → c.failed ≡ true
    → (advance t reply c).0.failed ≡ true
unfolding advance insert_lease pop_lease
failed-advance (entering request) reply c h = failed-enter request c h
failed-advance (awaiting request) reply c h = failed-await_lock request c h
failed-advance (activating request) reply c h = failed-activated reply request c h
failed-advance (checking request) reply c h = h
failed-advance (reserving request) (granted lease) c h = h
failed-advance (reserving request) _ c h = h
failed-advance (inserting request lease) reply c h = h
failed-advance (returning lease) accepted c h = h
failed-advance (returning lease) _ c h = h
failed-advance (finishing request) reply c h = h
failed-advance (committing lease) accepted c h = h
failed-advance (committing lease) _ c h = h
failed-advance (releasing raised lease) accepted c h = h
failed-advance (releasing raised lease) _ c h = h
failed-advance closing reply c h = h
failed-advance (draining [] lost) reply c h = h
failed-advance (draining (lease ∷ rest) lost) reply c h = h
failed-advance sleeping reply c h =
    failed-if c.stopped (c, ended false []) (c, if c.is_live then polling else counting) h h
failed-advance polling reply c h = failed-heard reply c h
failed-advance counting reply c h = h
failed-advance beating reply c h = failed-beat reply c h
failed-advance (ended raised lost) reply c h = h

failed-Step : {w w' : World} → Step w w' → w.connector.failed ≡ true → w'.connector.failed ≡ true
failed-Step (run before after t reply c out) h = failed-advance t reply c h
failed-Step (start threads t c out idle) h = h

failed-Steps : {w w' : World} → Steps w w' → w.connector.failed ≡ true → w'.connector.failed ≡ true
failed-Steps (done w) h = h
failed-Steps (and_then s ss) h = failed-Steps ss (failed-Step s h)

refused :
    (request : String) (c : Connector) → c.failed ≡ true → enter request c ≡ (c, ended true [])
unfolding enter
refused request c h = rw h refl

-- Once the authority is lost it stays lost, whatever the handlers do, and every new request then ends
-- with an error before it asks the coordinator for anything.
pub Steps-fails :
    {w w' : World}
    → Steps w w'
    → w.connector.failed ≡ true
    → (w'.connector.failed ≡ true)
      × ((request : String) (reply : Reply)
          → advance (entering request) reply w'.connector ≡ (w'.connector, ended true []))
unfolding advance
Steps-fails {w' = w'} steps h =
    let lost = failed-Steps steps h in (lost, λ request reply. refused request w'.connector lost)
