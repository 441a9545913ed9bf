-- ===== src/Executor/Progress/Prompt.antt =====
-- A world of the executor (calrissian/executor.py) in which every job succeeds as soon as the main
-- thread lets go, and its callback runs at once: it settles everything at every point.
use mathlib.Core.List.{append_assoc}
use calrissian.Prelude.{
  ◌≡◌, refl, sym, ap, subst, ◌∙◌, ℕ, zero, suc, true, false, Bool, none, some, List, [], ◌∷◌, ◌++◌,
  All, All-append, length, length-append, get_elem?, set, Bool-cases, inl, inr, arith,
  if◌then◌else◌,
}
use calrissian.Executor.Resources.{Resources}
use calrissian.Executor.JobQueue.{Job}
use calrissian.Executor.Effects.{
  Status, pending, running, cancelled, notified, finished, Future, System,
}
use calrissian.Executor.Pool.{
  account, restore, job_done_callback, Event, begin, notify, callback, finish, is_pending, is_done,
  at_future, on_begin, on_finish, on_notify, on_callback, work, work_all, World, advance,
}
use calrissian.Executor.Invariant.Events.{EventIsProper, WorldIsProper}
use calrissian.Executor.Progress.{IsSettled, IsTimely}

abbrev prompt_from : ℕ → List Future → List Event
prompt_from i [] = []
prompt_from i (_ ∷ pool) =
    begin i ∷ notify i ∷ finish i none ∷ callback i ∷ prompt_from (suc i) pool

abbrev pub prompt : World
prompt clock pool = prompt_from 0 pool

prompt_from_proper : (i : ℕ) (pool : List Future) → All EventIsProper (prompt_from i pool)
prompt_from_proper i [] = tt
prompt_from_proper i (_ ∷ pool) = (tt, (tt, (tt, (tt, prompt_from_proper (suc i) pool))))

pub prompt-WorldIsProper : WorldIsProper prompt
prompt-WorldIsProper clock pool = prompt_from_proper 0 pool

get-append :
    (xs : List Future) (f : Future) (ys : List Future)
    → get_elem? (xs ++ f ∷ ys) (length xs) ≡ some f
get-append [] f ys = refl
get-append (x ∷ xs) f ys = get-append xs f ys

set-append :
    (xs : List Future) (f g : Future) (ys : List Future)
    → set (xs ++ f ∷ ys) (length xs) g ≡ xs ++ g ∷ ys
set-append [] f g ys = refl
set-append (x ∷ xs) f g ys = ap (λ l. x ∷ l) (set-append xs f g ys)

job_done_callback-pool :
    (rsc : Resources) (status : Status) (s : System)
    → (job_done_callback rsc status s).pool ≡ s.pool
unfolding job_done_callback restore account
job_done_callback-pool rsc status s = ground arith

-- What each event makes of the future it is about.
abbrev begun : Future → Future
begun f = if is_pending f.status then record f { status = running } else f

abbrev noticed : Status → Status
noticed cancelled = notified
noticed status = status

abbrev ended : Status → Status
ended running = finished none
ended status = status

abbrev with_status : (Status → Status) → Future → Future
with_status act f = record f { status = act f.status }

abbrev called_back : Future → Future
called_back f = if f.called then f else if is_done f.status then record f { called = true } else f

abbrev settled : Future → Future
settled f = called_back (with_status ended (with_status noticed (begun f)))

settled_cases :
    (job : Job) (rsc : Resources) (status : Status) (called : Bool)
    → IsSettled (settled (record { job = job; rsc = rsc; status = status; called = called }))
settled_cases job rsc pending true = (refl, refl)
settled_cases job rsc pending false = (refl, refl)
settled_cases job rsc running true = (refl, refl)
settled_cases job rsc running false = (refl, refl)
settled_cases job rsc cancelled true = (refl, refl)
settled_cases job rsc cancelled false = (refl, refl)
settled_cases job rsc notified true = (refl, refl)
settled_cases job rsc notified false = (refl, refl)
settled_cases job rsc (finished e) true = (refl, refl)
settled_cases job rsc (finished e) false = (refl, refl)

-- The pool after each event at the place of `f`.
module _ (xs : List Future) (f : Future) (ys : List Future) (s : System)
    (p : s.pool ≡ xs ++ f ∷ ys) where
  abbrev i : ℕ
  i = length xs

  found : get_elem? s.pool i ≡ some f
  found = rw p (get-append xs f ys)

  written : (g : Future) → set s.pool i g ≡ xs ++ g ∷ ys
  written g = rw p (set-append xs f g ys)

  begin-pool : (work (begin i) s).pool ≡ xs ++ begun f ∷ ys
  unfolding work
  begin-pool =
      rw (found, at_future)
        (elim (Bool-cases (is_pending f.status)) [
          | inl e ↦ rw (e, on_begin) (written (record f { status = running }))
          | inr e ↦ rw (e, on_begin) p
        ])

  same_status :
      (status : Status) → f.status ≡ status → s.pool ≡ xs ++ record f { status = status } ∷ ys
  same_status status e = p ∙ ap (λ st. xs ++ record f { status = st } ∷ ys) e

  on_notify-pool :
      (status : Status)
      → f.status ≡ status
      → (on_notify i f status s).pool ≡ xs ++ record f { status = noticed status } ∷ ys
  on_notify-pool cancelled e = written (record f { status = notified })
  on_notify-pool pending e = same_status pending e
  on_notify-pool running e = same_status running e
  on_notify-pool notified e = same_status notified e
  on_notify-pool (finished x) e = same_status (finished x) e

  notify-pool : (work (notify i) s).pool ≡ xs ++ with_status noticed f ∷ ys
  unfolding work
  notify-pool = rw (found, at_future) (on_notify-pool f.status refl)

  on_finish-pool :
      (status : Status)
      → f.status ≡ status
      → (on_finish i none f status s).pool ≡ xs ++ record f { status = ended status } ∷ ys
  on_finish-pool running e = written (record f { status = finished none })
  on_finish-pool pending e = same_status pending e
  on_finish-pool cancelled e = same_status cancelled e
  on_finish-pool notified e = same_status notified e
  on_finish-pool (finished x) e = same_status (finished x) e

  finish-pool : (work (finish i none) s).pool ≡ xs ++ with_status ended f ∷ ys
  unfolding work
  finish-pool = rw (found, at_future) (on_finish-pool f.status refl)

  callback-pool : (work (callback i) s).pool ≡ xs ++ called_back f ∷ ys
  unfolding work
  callback-pool =
      rw (found, at_future)
        (elim (Bool-cases f.called) [
          | inl called ↦ simp (called, on_callback) p
          | inr open_ ↦ elim (Bool-cases (is_done f.status)) [
            | inl done ↦
                rw (open_, done, on_callback)
                  (job_done_callback-pool f.rsc f.status _ ∙ written (record f { called = true }))
            | inr busy ↦ simp (open_, busy, on_callback) p
          ]
        ])

-- What the events of one point make of a pool, past the futures that they have settled.
work_all-settles :
    (xs ys : List Future) (s : System)
    → s.pool ≡ xs ++ ys
    → All IsSettled xs
    → All IsSettled (work_all (prompt_from (length xs) ys) s).pool
unfolding work_all
work_all-settles xs [] s p h = rw p (All-append IsSettled xs [] h tt)
work_all-settles xs (f ∷ ys) s p h =
    let s1 = work (begin (length xs)) s in
    let f1 = begun f in
    let s2 = work (notify (length xs)) s1 in
    let f2 = with_status noticed f1 in
    let s3 = work (finish (length xs) none) s2 in
    let f3 = with_status ended f2 in
    let s4 = work (callback (length xs)) s3 in
    let p1 = begin-pool xs f ys s p in
    let p2 = notify-pool xs f1 ys s1 p1 in
    let p3 = finish-pool xs f2 ys s2 p2 in
    let p4 = callback-pool xs f3 ys s3 p3 in
    let done = settled_cases f.job f.rsc f.status f.called in
    let all = All-append IsSettled xs (settled f ∷ []) h (done, tt) in
    let size : length (xs ++ settled f ∷ []) ≡ suc (length xs) =
      omega (arith, length-append xs (settled f ∷ [])) in
    subst (λ n. All IsSettled (work_all (prompt_from n ys) s4).pool) size
      (work_all-settles (xs ++ settled f ∷ []) ys s4
        (p4 ∙ sym (append_assoc xs (settled f ∷ []) ys)) all)

advance-settles : (s : System) → All IsSettled (advance prompt s).pool
unfolding advance
advance-settles s = work_all-settles [] s.pool s refl tt

pub prompt-IsTimely : IsTimely prompt 1
prompt-IsTimely s zero l = absurd (omega (arith, l))
prompt-IsTimely s (suc zero) l = advance-settles s
prompt-IsTimely s (suc (suc n)) l = prompt-IsTimely (advance prompt s) (suc n) (omega arith)
