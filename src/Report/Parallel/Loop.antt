-- ===== src/Report/Parallel/Loop.antt =====
-- The loop of `TimelineReport._walk` over sorted events (calrissian/report.py): bounds for the maximum
-- of a processor, from below and from above.
use native.Mathlib.Nat.{le_trans, le_refl}
use calrissian.Prelude.{
  ℕ, ◌+◌, ◌≤◌, ◌≡◌, refl, ◌==◌, ◌||◌, Bool, true, false, Bool-cases, inl, inr, Option, none, some,
  List, [], ◌∷◌, ◌⊎◌, ℤ, pos, pos_part, neg_part, ◌≤ℤ◌, All, All-map, arith, +ℤ_parts, -ℤ_parts,
}
use calrissian.Sort.Laws.{IsPreorder, IsSorted}
use calrissian.Report.Parallel.{
  EventType, started, finished, Event, event_le, Metric, count_unit, Processor, process,
  process_all,
}
use calrissian.Report.Parallel.Sums.{upto}

-- The event happens at the time `t`.
abbrev pub At : Event → ℕ → Type 0
At e t = e.time ≡ some t

abbrev pub Timed : Event → Type 0
Timed e = (t : ℕ) × At e t

event_le-total : (x y : Event) → (event_le x y ≡ true) ⊎ (event_le y x ≡ true)
event_le-total x y = ground arith

event_le_trans : (x y z : Event) → event_le x y ≡ true → event_le y z ≡ true → event_le x z ≡ true
event_le_trans x y z h k = ground arith

pub event_le-IsPreorder : IsPreorder event_le
event_le-IsPreorder = record { total = event_le-total; trans = event_le_trans }

-- Is a report started at `t` among the events?
abbrev pub is_start : ℕ → EventType → Option ℕ → Bool
is_start t started (some s) = s == t
is_start t _ _ = false

unfoldable pub has_start : ℕ → List Event → Bool
has_start t [] = false
has_start t (e ∷ events) = is_start t e.type e.time || has_start t events

-- `c` counts what has happened before, of what is active at the time `t` in the end.
abbrev pub Balanced : Metric → (ℕ → ℕ) → ℤ → List Event → ℕ → Type 0
Balanced m A c events t =
    pos_part c + upto m started t events ≡ neg_part c + A t + upto m finished t events

le-trans_ℤ : (c : ℤ) (a b : ℕ) → c ≤ℤ pos a → a ≤ b → c ≤ℤ pos b
le-trans_ℤ c a b h k = omega arith

-- What is sorted behind an event happens no earlier.
after_low :
    (e : Event) (t0 : ℕ) → At e t0 → (f : Event) → event_le e f ≡ true → (t : ℕ) → At f t → t0 ≤ t
after_low e t0 at f h t there = ground arith

after_eq : (e : Event) (s t : ℕ) → At e s → At e t → s ≤ t
after_eq e s t h k = ground arith

is_start_inv :
    (t : ℕ) (type : EventType) (time : Option ℕ)
    → (is_start t type time || false) ≡ true
    → (type ≡ started) × (time ≡ some t)
is_start_inv t started (some s) h = ground arith
is_start_inv t started none h = cc
is_start_inv t finished time h = cc

module _ (m : Metric) (A : ℕ → ℕ) where
  -- After a start at `t0`, no finish up to `t0` is left.
  no_finish :
      (e : Event) (t0 : ℕ) (events : List Event)
      → At e t0
      → e.type ≡ started
      → All (λ f. event_le e f ≡ true) events
      → upto m finished t0 events ≡ 0
  unfolding upto
  no_finish e t0 [] at ty h = refl
  no_finish e t0 (f ∷ events) at ty h = ground (arith, no_finish e t0 events at ty h.1)

  -- After the last start at `t0`, no start up to `t0` is left.
  no_start :
      (e : Event) (t0 : ℕ) (events : List Event)
      → At e t0
      → All (λ f. event_le e f ≡ true) events
      → has_start t0 events ≡ false
      → upto m started t0 events ≡ 0
  unfolding upto has_start
  no_start e t0 [] at h n = refl
  no_start e t0 (f ∷ events) at h n = ground (arith, no_start e t0 events at h.1)

  -- One event, seen from any later time.
  after_event :
      (e : Event) (t0 t : ℕ) (events : List Event) (p : Processor)
      → At e t0
      → t0 ≤ t
      → Balanced m A p.count (e ∷ events) t
      → Balanced m A (process (count_unit m e.report) e.type p).count events t
  unfolding upto process
  after_event e t0 t events p at le h = ground (
    arith,
    +ℤ_parts p.count (pos (count_unit m e.report)),
    -ℤ_parts p.count (pos (count_unit m e.report)),
  )

  process_max :
      (u : ℕ) (type : EventType) (p : Processor)
      → (p.max ≤ℤ (process u type p).max) × ((process u type p).count ≤ℤ (process u type p).max)
  unfolding process
  process_max u started p = ground arith
  process_max u finished p = ground arith

  pub process_all-max :
      (events : List Event) (p : Processor) → p.max ≤ℤ (process_all m events p).max
  unfolding process_all
  process_all-max [] p = omega arith
  process_all-max (e ∷ events) p =
      let step = process_max (count_unit m e.report) e.type p in
      omega (arith, step.0, process_all-max events (process (count_unit m e.report) e.type p))

  abbrev pub BoundedBy : ℕ → List Event → Type 0
  BoundedBy B = All (λ e. e.type ≡ started → (t : ℕ) → At e t → A t ≤ B)

  -- The new count after a start is at most what is active then.
  start-le :
      (e : Event) (t0 : ℕ) (events : List Event) (p : Processor)
      → At e t0
      → e.type ≡ started
      → All (λ f. event_le e f ≡ true) events
      → Balanced m A p.count events t0
      → p.count ≤ℤ pos (A t0)
  start-le e t0 events p at ty h b = omega (arith, no_finish e t0 events at ty h)

  peak-le :
      (e : Event) (t : ℕ) (events : List Event) (p : Processor)
      → At e t
      → e.type ≡ started
      → All (λ f. event_le e f ≡ true) events
      → has_start t events ≡ false
      → Balanced m A p.count events t
      → pos (A t) ≤ℤ p.count
  peak-le e t events p at ty h last b =
      omega (arith, no_start e t events at h last, no_finish e t events at ty h)

  process-le :
      (B u : ℕ) (type : EventType) (p : Processor)
      → p.count ≤ℤ pos B
      → p.max ≤ℤ pos B
      → (type ≡ started → (process u type p).count ≤ℤ pos B)
      → ((process u type p).max ≤ℤ pos B) × ((process u type p).count ≤ℤ pos B)
  unfolding process
  process-le B u started p hc hm h = let now = h refl in ground arith
  process-le B u finished p hc hm h = ground (arith, -ℤ_parts p.count (pos u))

  pub upper :
      (B : ℕ) (events : List Event) (p : Processor) (lo : ℕ)
      → IsSorted event_le events
      → All Timed events
      → All (λ e. (t : ℕ) → At e t → lo ≤ t) events
      → ((t : ℕ) → lo ≤ t → Balanced m A p.count events t)
      → BoundedBy B events
      → p.count ≤ℤ pos B
      → p.max ≤ℤ pos B
      → (process_all m events p).max ≤ℤ pos B
  unfolding process_all
  upper B [] p lo s timed low b bound hc hm = hm
  upper B (e ∷ events) p lo s timed low b bound hc hm =
      let (t0, at) = timed.0 in
      let u = count_unit m e.report in
      let p' = process u e.type p in
      let b' = λ (t : ℕ) (le : t0 ≤ t).
        after_event e t0 t events p at le (b t (le_trans (low.0 t0 at) le)) in
      let (hm', hc') = process-le B u e.type p hc hm λ ty.
        le-trans_ℤ p'.count (A t0) B (start-le e t0 events p' at ty s.0 (b' t0 (le_refl t0)))
          (bound.0 ty t0 at) in
      upper B events p' t0 s.1 timed.1 (All-map _ events (after_low e t0 at) s.0) b' bound.1 hc' hm'

  pub lower :
      (events : List Event) (p : Processor) (lo : ℕ)
      → IsSorted event_le events
      → All Timed events
      → All (λ e. (t : ℕ) → At e t → lo ≤ t) events
      → ((t : ℕ) → lo ≤ t → Balanced m A p.count events t)
      → (t : ℕ) → has_start t events ≡ true
      → pos (A t) ≤ℤ (process_all m events p).max
  unfolding process_all has_start
  lower [] p lo s timed low b t h = cc
  lower (e ∷ events) p lo s timed low b t h =
      let (t0, at) = timed.0 in
      let u = count_unit m e.report in
      let p' = process u e.type p in
      let b' = λ (t : ℕ) (le : t0 ≤ t).
        after_event e t0 t events p at le (b t (le_trans (low.0 t0 at) le)) in
      elim (Bool-cases (has_start t events)) [
        | inl later ↦
            lower events p' t0 s.1 timed.1 (All-map _ events (after_low e t0 at) s.0) b' t later
        | inr last ↦
            let (ty, now) = is_start_inv t e.type e.time (rw last at h) in
            let same : t0 ≤ t = after_eq e t0 t at now in
            let (_, le_max) = process_max u e.type p in
            omega (
              arith,
              peak-le e t events p' now ty s.0 last (b' t same),
              le_max,
              process_all-max events p',
            )
      ]
