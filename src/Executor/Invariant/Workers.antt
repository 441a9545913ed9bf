-- ===== src/Executor/Invariant/Workers.antt =====
-- The callback of a job, and changes of the status of a future, keep the invariant of the executor
-- (calrissian/executor.py), and only free resources.
use calrissian.Prelude.{
  ◌≡◌, refl, sym, subst, Bool, true, false, Option, none, some, [], ◌∷◌, ℕ, arith, int_laws,
  get_elem?, set, length, length-set, All-append, Option-cases, inl, inr,
}
use calrissian.Executor.Resources.{Resources, add}
use calrissian.Executor.Resources.Order.{
  Within, IsNonnegative, IsSum, IsExact, add-IsSum, IsSum-nonneg, Within-trans, Within-refl,
}
use calrissian.Executor.Effects.{Exception, Status, pending, finished, Future, System}
use calrissian.Executor.Pool.{
  queue_outcome, job_done_callback, call, is_pending, is_done, at_future,
}
use calrissian.Executor.Invariant.{
  outstanding, HasProper, IsProper, StatusIsProper, PendingIsOpen, IsSound, Inv, outstanding-nonneg,
  outstanding-set_called, outstanding-set_same, set-All, get_elem?-All, account-return,
}

-- The other threads leave the queue alone, free resources, and submit nothing.
pub record Frees (s s' : System) : Type 0 where
  pub available : Within s.available s'.available
  pub jrq : s'.jrq ≡ s.jrq
  pub size : length s'.pool ≡ length s.pool

pub Frees-refl : (s : System) → Frees s s
Frees-refl s = record { available = Within-refl s.available; jrq = refl; size = refl }

pub Frees-trans : (s t u : System) → Frees s t → Frees t u → Frees s u
Frees-trans s t u h k = record {
  available = Within-trans s.available t.available u.available h.available k.available;
  jrq = cc;
  size = cc;
}

-- What an event, or a call of main on a future, has to keep.
abbrev pub Keeps : Resources → (System → System) → Type 0
Keeps total act = (s : System) → Inv total s → Inv total (act s) × Frees s (act s)

queue_outcome-Keeps :
    {total : Resources} (e : Option Exception) → HasProper e → Keeps total (queue_outcome e)
queue_outcome-Keeps none p s v = (v, Frees-refl s)
queue_outcome-Keeps (some e) p s v = (
  record {
    whole = v.whole;
    exact = v.exact;
    balance = v.balance;
    spare = v.spare;
    queue = v.queue;
    futures = v.futures;
    proper = All-append IsProper s.exceptions (e ∷ []) v.proper (p, tt);
  },
  record { available = Within-refl s.available; jrq = refl; size = refl },
)

-- The callback, where giving back `rsc` stays within the whole.
job_done_callback-Keeps :
    {total : Resources} (rsc : Resources) (status : Status) (s : System)
    → StatusIsProper status
    → s.total ≡ total
    → IsExact total s.round
    → IsNonnegative (add s.available rsc)
    → Within (add s.available rsc) s.total
    → Inv total (record s { available = add s.available rsc })
    → let s' = record s { available = add s.available rsc } in
      Inv total (job_done_callback rsc status s) × Frees s' (job_done_callback rsc status s)
unfolding job_done_callback
job_done_callback-Keeps rsc (finished e) s p w x h k v =
    rw (account-return rsc s w x h k, job_done_callback) (queue_outcome-Keeps e p _ v)
job_done_callback-Keeps rsc _ s p w x h k v =
    rw (account-return rsc s w x h k, job_done_callback) (v, Frees-refl _)

add-Within_left : (a b : Resources) → IsNonnegative b → Within a (add a b)
unfolding add
add-Within_left a b h = omega int_laws

pub Inv-Within : {total : Resources} {s : System} → Inv total s → Within s.available s.total
Inv-Within {s = s} v =
    subst (Within s.available) (sym v.whole)
      (IsSum-nonneg s.available _ _ v.balance (outstanding-nonneg s.pool v.futures))

taken-PendingIsOpen :
    (status : Status) (called : Bool) → is_pending status ≡ false → PendingIsOpen status called
taken-PendingIsOpen pending called h = cc
taken-PendingIsOpen _ called h = tt

-- A future at a place of the pool, as an event finds it.
abbrev pub IsAt : System → ℕ → Future → Type 0
IsAt s i f = get_elem? s.pool i ≡ some f

module _ {total : Resources} (i : ℕ) (g f : Future) (s : System) (v : Inv total s) (at : IsAt s i g)
    (same : f.rsc ≡ g.rsc) where
  abbrev marked : Future
  marked = record f { called = true }

  -- A future whose callback has run is not pending.
  abbrev IsTaken : Type 0
  IsTaken = is_pending f.status ≡ false

  marked-IsSound : IsTaken → IsSound f → IsSound marked
  marked-IsSound taken h = record {
    nonneg = h.nonneg;
    proper = h.proper;
    waiting = taken-PendingIsOpen f.status true taken;
  }

  freed-IsSum :
      g.called ≡ false → IsSum (outstanding (set s.pool i marked)) f.rsc (outstanding s.pool)
  freed-IsSum open_ =
      subst (λ r. IsSum (outstanding (set s.pool i marked)) r (outstanding s.pool)) (sym same)
        (outstanding-set_called s.pool i g marked at open_ refl)

  freed-Inv :
      g.called ≡ false
      → IsTaken
      → IsSound f
      → Inv total (record s { pool = set s.pool i marked; available = add s.available f.rsc })
  freed-Inv open_ taken h =
      let freed = freed-IsSum open_ in
      let sum = add-IsSum s.available f.rsc in
      let held = v.balance in
      let nonneg = h.nonneg in
      let spare = v.spare in
      record {
        whole = v.whole;
        exact = v.exact;
        balance = omega arith;
        spare = omega arith;
        queue = v.queue;
        futures = set-All IsSound s.pool i marked v.futures (marked-IsSound taken h);
        proper = v.proper;
      }

  pub call-Keeps :
      g.called ≡ false → IsTaken → IsSound f → Inv total (call i f s) × Frees s (call i f s)
  call-Keeps open_ taken h =
      let after = freed-Inv open_ taken h in
      let kept =
        job_done_callback-Keeps f.rsc f.status (record s { pool = set s.pool i marked }) h.proper
          v.whole v.exact after.spare (Inv-Within after) after in
      (
        kept.0,
        Frees-trans s _ _
            (record {
              available = add-Within_left s.available f.rsc h.nonneg;
              jrq = refl;
              size = length-set s.pool i marked;
            })
            kept.1,
      )

-- A change of status that keeps the rest of a future.
pub set_status-Keeps :
    {total : Resources} (i : ℕ) (g f : Future) (s : System)
    → Inv total s
    → IsAt s i g
    → f.rsc ≡ g.rsc
    → f.called ≡ g.called
    → IsSound f
    → let s' = record s { pool = set s.pool i f } in Inv total s' × Frees s s'
set_status-Keeps i g f s v at same called h = (
  record {
    whole = v.whole;
    exact = v.exact;
    balance = rw (outstanding-set_same s.pool i g f at called same) v.balance;
    spare = v.spare;
    queue = v.queue;
    futures = set-All IsSound s.pool i f v.futures h;
    proper = v.proper;
  },
  record { available = Within-refl s.available; jrq = refl; size = length-set s.pool i f },
)

pub IsAt-IsSound :
    {total : Resources} (s : System) (i : ℕ) (f : Future) → Inv total s → IsAt s i f → IsSound f
IsAt-IsSound s i f v at = get_elem?-All IsSound s.pool i f v.futures at

pub done-taken : (status : Status) → is_done status ≡ true → is_pending status ≡ false
done-taken pending h = cc
done-taken _ h = refl

pub pending-open :
    (status : Status) (called : Bool)
    → is_pending status ≡ true
    → PendingIsOpen status called
    → called ≡ false
pending-open pending called h p = p
pending-open _ called h p = cc

-- `cancel` and each event look up a future, and act on it if it is there.
pub at_future-Keeps :
    {total : Resources} (i : ℕ) (act : Future → System → System) (s : System)
    → ((f : Future) → IsAt s i f → IsSound f → Inv total (act f s) × Frees s (act f s))
    → Inv total s
    → Inv total (at_future i act s) × Frees s (at_future i act s)
at_future-Keeps i act s keep v = elim (Option-cases (get_elem? s.pool i)) [
  | inl gone ↦ rw (gone, at_future) (v, Frees-refl s)
  | inr (f, at) ↦ rw (at, at_future) (keep f at (IsAt-IsSound s i f v at))
]
