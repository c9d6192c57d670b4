-- ===== src/Connector/Leases.antt =====
-- The scheduler's leases in connector.py: `on_new_request`, `request_finished`, `shutdown`, the
-- heartbeat loop, `_ensure_shared_active` and `_raise_if_control_failed` of KapslConnectorV1. A handler
-- is a thread that runs from one call of the coordinator, or one block under a lock, to the next.
pub mod Worlds
pub mod Failure
pub mod Examples
use kapsl_integrations.Prelude.{
  String, Bool, true, false, not, ◌&&◌, ◌||◌, Option, none, some, List, [], ◌∷◌, ◌++◌, str_eq,
  if◌then◌else◌,
}

-- What a call of the coordinator gives: a lease, success, a `KapslKvControlError` or another exception.
-- A call that raises is taken not to have had its effect. Only a
-- reservation is answered by a lease.
pub data Reply : Type 0 where
  granted : String → Reply
  accepted control_error other_error : Reply

-- Where a handler stands. `releasing` and `ended` know whether an exception is to be raised, or was;
-- `draining` has the leases to release and those whose release failed, and `ended` those that the
-- handler gave up.
pub data Thread : Type 0 where
  entering awaiting activating checking reserving : String → Thread
  inserting : String → String → Thread
  returning : String → Thread
  finishing : String → Thread
  committing : String → Thread
  releasing : Bool → String → Thread
  closing : Thread
  draining : List String → List String → Thread
  sleeping polling counting beating : Thread
  ended : Bool → List String → Thread

-- `_leases`: the lease of a request, in the order of insertion.
abbrev pub Table : Type 0
Table = List (String × String)

pub record Connector : Type 0 where
  pub is_shared : Bool
  pub is_live : Bool
  pub active : Bool
  pub locked : Bool
  pub stopped : Bool
  pub failed : Bool
  pub leases : Table

unfoldable pub has_lease : Table → String → Bool
has_lease [] request = false
has_lease ((r, l) ∷ rest) request = str_eq r request || has_lease rest request

-- `self._leases.setdefault(request_id, lease)`, and whether the lease is the one that stays.
unfoldable pub set_default : Table → String → String → Table × Bool
unfolding has_lease
set_default table request lease =
    if has_lease table request then (table, false) else (table ++ (request, lease) ∷ [], true)

-- `self._leases.pop(request_id, None)`
unfoldable pub pop : Table → String → Table × Option String
pop [] request = ([], none)
pop ((r, l) ∷ rest) request =
    let later = pop rest request in
    if str_eq r request then (rest, some l) else ((r, l) ∷ later.0, later.1)

abbrev pub values : Table → List String
values [] = []
values ((r, l) ∷ rest) = l ∷ values rest

abbrev pub is_empty_table : Table → Bool
is_empty_table [] = true
is_empty_table (e ∷ es) = false

-- The start of `on_new_request`: the loss of authority is checked once, and the activation may be needed.
unfoldable pub enter : String → Connector → Connector × Thread
enter request c =
    if c.failed
    then (c, ended true [])
    else if not c.is_shared || c.active
    then (c, checking request)
    else (c, awaiting request)

-- The activation once its lock is free, if it is needed still.
unfoldable pub await_lock : String → Connector → Connector × Thread
await_lock request c =
    if c.locked
    then (c, awaiting request)
    else if c.active
    then (c, checking request)
    else (record c { locked = true }, activating request)

unfoldable pub activated : Reply → String → Connector → Connector × Thread
activated accepted request c = (record c { locked = false; active = true }, checking request)
activated _ request c = (record c { locked = false }, ended true [])

-- The duplicate of a callback that raced gives its lease back.
unfoldable pub insert_lease : String → String → Connector → Connector × Thread
unfolding set_default
insert_lease request lease c =
    let updated = set_default c.leases request lease in
    (record c { leases = updated.0 }, if updated.1 then ended false [] else returning lease)

unfoldable pub pop_lease : String → Connector → Connector × Thread
unfolding pop
pop_lease request c =
    let popped = pop c.leases request in
    (
      record c { leases = popped.0 },
      elim popped.1 [ none ↦ ended false [] | some lease ↦ committing lease ],
    )

-- `shutdown`, after `start_load_kv`'s lock and the worker's hook: the stop of the heartbeat, and then the
-- leases in one step under their lock.
abbrev pub close : Connector → Connector × Thread
close c = (record c { stopped = true; leases = [] }, draining (values c.leases) [])

unfoldable pub drained : Reply → String → List String → List String → Thread
drained accepted lease rest lost = draining rest lost
drained control_error lease rest lost = draining rest (lease ∷ lost)
drained _ lease rest lost = ended true (lease ∷ (rest ++ lost))

-- The heartbeat loop, whose poll of the resizes is that of `Resizes`.
abbrev pub wake : Connector → Connector × Thread
wake c = if c.stopped then (c, ended false []) else (c, if c.is_live then polling else counting)

unfoldable pub heard : Reply → Connector → Connector × Thread
heard accepted c = (c, counting)
heard control_error c = (record c { failed = true }, ended false [])
heard _ c = (c, ended true [])

abbrev pub count_leases : Connector → Connector × Thread
count_leases c = (c, if is_empty_table c.leases then sleeping else beating)

unfoldable pub beat : Reply → Connector → Connector × Thread
beat accepted c = (c, sleeping)
beat control_error c =
    if is_empty_table c.leases then (c, sleeping) else (record c { failed = true }, ended false [])
beat _ c = (c, ended true [])

-- One run of a thread, with the reply of the call that it is at, if it is at one.
unfoldable pub advance : Thread → Reply → Connector → Connector × Thread
unfolding enter await_lock activated has_lease insert_lease pop_lease drained heard beat
advance (entering request) reply c = enter request c
advance (awaiting request) reply c = await_lock request c
advance (activating request) reply c = activated reply request c
advance (checking request) reply c =
    (c, if has_lease c.leases request then ended false [] else reserving request)
advance (reserving request) (granted lease) c = (c, inserting request lease)
advance (reserving request) _ c = (c, ended true [])
advance (inserting request lease) reply c = insert_lease request lease c
advance (returning lease) accepted c = (c, ended false [])
advance (returning lease) _ c = (c, ended true (lease ∷ []))
advance (finishing request) reply c = pop_lease request c
advance (committing lease) accepted c = (c, releasing false lease)
advance (committing lease) _ c = (c, releasing true lease)
advance (releasing raised lease) accepted c = (c, ended raised [])
advance (releasing raised lease) _ c = (c, ended true (lease ∷ []))
advance closing reply c = close c
advance (draining [] lost) reply c = (c, ended false lost)
advance (draining (lease ∷ rest) lost) reply c = (c, drained reply lease rest lost)
advance sleeping reply c = wake c
advance polling reply c = heard reply c
advance counting reply c = count_leases c
advance beating reply c = beat reply c
advance (ended raised lost) reply c = (c, ended raised lost)
