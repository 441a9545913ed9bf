-- ===== src/Executor/Pool.antt =====
-- The bookkeeping of ThreadPoolJobExecutor (calrissian/executor.py): the resource account, the
-- callback of a finished job, and what the threads of the pool do between two steps of the main
-- thread.
use calrissian.Prelude.{
  ℕ, ◌+◌, Bool, true, false, Option, none, some, List, [], ◌∷◌, ◌++◌, get_elem?, set, if◌then◌else◌,
}
use calrissian.Executor.Resources.{Resources, add_rounded, neg, is_negative, exceeds}
use calrissian.Executor.Effects.{
  inconsistent_resources, Exception, Status, pending, running, cancelled, notified, finished,
  Future, System, Result, return, raise, Action,
}

abbrev pub inconsistent : Exception
inconsistent = record { kind = inconsistent_resources; text = [] }

-- `_account`, under the lock, so in one step. What was added stays added when it raises.
unfoldable pub account : Resources → Action (Unit {0})
account rsc s =
    let s' = record s { available = add_rounded s.round s.available rsc } in
    if is_negative s'.available
    then (raise inconsistent, s')
    else if exceeds s'.available s'.total
    then (raise inconsistent, s')
    else (return tt, s')

unfoldable pub allocate : Resources → Action (Unit {0})
unfolding account
allocate rsc = account (neg rsc)

unfoldable pub restore : Resources → Action (Unit {0})
unfolding account
restore rsc = account rsc

abbrev pub put : Exception → System → System
put e s = record s { exceptions = s.exceptions ++ e ∷ [] }

-- `future.cancelled()`
abbrev pub is_cancelled : Status → Bool
is_cancelled cancelled = true
is_cancelled notified = true
is_cancelled _ = false

-- `future.exception()` of a future that is done and not cancelled.
abbrev pub exception : Status → Option Exception
exception (finished e) = e
exception _ = none

abbrev pub queue_raised : Result (Unit {0}) → System → System
queue_raised (raise e) s = put e s
queue_raised _ s = s

abbrev pub queue_outcome : Option Exception → System → System
queue_outcome none s = s
queue_outcome (some e) s = put e s

unfoldable pub job_done_callback : Resources → Status → System → System
unfolding restore
job_done_callback rsc status s =
    let (result, after) = restore rsc s in
    let restored = queue_raised result after in
    if is_cancelled status then restored else queue_outcome (exception status) restored

-- What another thread can do to the future at a place: a worker takes it up, its job ends, a worker
-- sees that it was cancelled, or a worker runs the callback. In concurrent.futures a future is done,
-- and waiters are woken, before its callback runs.
pub data Event : Type 0 where
  begin notify callback : ℕ → Event
  finish : ℕ → Option Exception → Event

abbrev pub is_pending : Status → Bool
is_pending pending = true
is_pending _ = false

-- Done, for `wait`: a cancelled future counts when a worker has seen it.
abbrev pub is_done : Status → Bool
is_done notified = true
is_done (finished _) = true
is_done _ = false

abbrev pub set_status : ℕ → Future → Status → System → System
set_status i f status s = record s { pool = set s.pool i (record f { status = status }) }

-- The callback of a future runs once.
abbrev pub call : ℕ → Future → System → System
call i f s =
    job_done_callback f.rsc f.status (record s { pool = set s.pool i (record f { called = true }) })

abbrev pub on_begin : ℕ → Future → System → System
on_begin i f s = if is_pending f.status then set_status i f running s else s

abbrev pub on_finish : ℕ → Option Exception → Future → Status → System → System
on_finish i e f running s = set_status i f (finished e) s
on_finish i e f _ s = s

abbrev pub on_notify : ℕ → Future → Status → System → System
on_notify i f cancelled s = set_status i f notified s
on_notify i f _ s = s

abbrev pub on_callback : ℕ → Future → System → System
on_callback i f s = if f.called then s else if is_done f.status then call i f s else s

abbrev pub at_future : ℕ → (Future → System → System) → System → System
at_future i act s = elim (get_elem? s.pool i) [ none ↦ s | some f ↦ act f s ]

unfoldable pub work : Event → System → System
unfolding job_done_callback
work (begin i) s = at_future i (on_begin i) s
work (finish i e) s = at_future i (λ f. on_finish i e f f.status) s
work (notify i) s = at_future i (λ f. on_notify i f f.status) s
work (callback i) s = at_future i (on_callback i) s

-- `f.cancel()`: a future that no worker has taken up is cancelled, and its callback runs at once.
abbrev pub on_cancel : ℕ → Future → System → System
on_cancel i f s = if is_pending f.status then call i (record f { status = cancelled }) s else s

unfoldable pub cancel : ℕ → System → System
unfolding job_done_callback
cancel i s = at_future i (on_cancel i) s

unfoldable pub work_all : List Event → System → System
work_all [] s = s
work_all (e ∷ events) s = work_all events (work e s)

-- What the other threads do at each point where they can act, on any condition of the pool.
abbrev pub World : Type 0
World = ℕ → List Future → List Event

unfoldable pub advance : World → System → System
unfolding work_all
advance world s = record (work_all (world s.clock s.pool) s) { clock = s.clock + 1 }

-- The main thread may lose its turn.
abbrev pub preempt : World → Action (Unit {0})
preempt world s = (return tt, advance world s)
