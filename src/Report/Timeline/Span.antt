-- ===== src/Report/Timeline/Span.antt =====
-- The times of a timeline after `add_report` (calrissian/report.py) span those of its reports.
use mathlib.Core.List.{Mem, Perm, mem-cons_self, mem-cons_of_mem, not-mem-nil}
use mathlib.Core.List.Perm
use mathlib.Core.Option.{some-injective}
use native.Mathlib.Bridge.{le_prop}
use calrissian.Prelude.{
  ℕ, ◌≡◌, refl, sym, subst, ◌∙◌, Option-cases, ◌≤◌, ◌-◌, leb, map, Option, some, List, [], ◌∷◌,
  ◌++◌, All, All-map, All-append, All-right, All-perm, inl, inr, arith,
}
use calrissian.Sort.{sorted}
use calrissian.Sort.Laws.{IsPreorder, IsSorted, sorted-perm, sorted-IsSorted}
use calrissian.Report.{
  TimedResourceReport, TimedReport, TimelineReport, ok, elapsed_between, elapsed_seconds,
}
use calrissian.Report.Timeline.{
  present, starts, finishes, first_or, last_or, recalculate_times, add_report,
}
use calrissian.Report.Parallel.Sums.{IsClosed}

leb-IsPreorder : IsPreorder leb
leb-IsPreorder = record { total = λ x y. ground arith; trans = λ x y z h k. ground arith }

-- The first of a sorted list is an element, and at most every other.
first_least : (t : ℕ) (ts : List ℕ) → IsSorted leb (t ∷ ts) → All (λ u. t ≤ u) (t ∷ ts)
first_least t ts h = (omega arith, All-map _ ts (λ u e. ground (arith, e)) h.0)

last_greatest :
    (t : ℕ) (ts : List ℕ)
    → IsSorted leb (t ∷ ts)
    → (u : ℕ) × (last_or (some t) ts ≡ some u) × Mem u (t ∷ ts) × All (λ v. v ≤ u) (t ∷ ts)
last_greatest t [] h = (t, refl, mem-cons_self, (omega arith, tt))
last_greatest t (t' ∷ ts) h =
    let (u, last, mem, all) = last_greatest t' ts h.1 in
    let first = h.0.0 in
    let next = all.0 in (u, last, mem-cons_of_mem t mem, (ground (arith, first, next), all))

module _ (x : ℕ) (times : List ℕ) (here : Mem x times) where
  not_nil : {A : Type 0} → Perm [] times → A
  not_nil p = absurd (not-mem-nil (Perm.subset (Perm.symm p) x here))

  first_lem :
      (old : Option ℕ) (l : List ℕ)
      → IsSorted leb l
      → Perm l times
      → (t : ℕ) × (first_or old l ≡ some t) × Mem t times × All (λ u. t ≤ u) times
  first_lem old [] h p = not_nil p
  first_lem old (t ∷ ts) h p = (
    t,
    refl,
    Perm.subset p t mem-cons_self,
    All-perm (λ u. t ≤ u) (λ u. hlevel le_prop) (t ∷ ts) times p (first_least t ts h),
  )

  last_lem :
      (old : Option ℕ) (l : List ℕ)
      → IsSorted leb l
      → Perm l times
      → (t : ℕ) × (last_or old l ≡ some t) × Mem t times × All (λ u. u ≤ t) times
  last_lem old [] h p = not_nil p
  last_lem old (t ∷ ts) h p =
      let (u, last, mem, all) = last_greatest t ts h in
      (
        u,
        last,
        Perm.subset p u mem,
        All-perm (λ v. v ≤ u) (λ v. hlevel le_prop) (t ∷ ts) times p all,
      )

module _ (time : TimedResourceReport → Option ℕ) where
  -- What holds of all times holds of the time of each report.
  present-All :
      (P : ℕ → Type 0) (children : List TimedResourceReport)
      → All P (present (map time children))
      → All (λ c. (t : ℕ) → time c ≡ some t → P t) children
  unfolding present
  present-All P [] h = tt
  present-All P (c ∷ children) h = elim (Option-cases (time c)) [
    | inl e ↦ ((λ t e'. cc), present-All P children (rw e at h))
    | inr (u, e) ↦
        let (here, rest) = rw e at h in
        ((λ t e'. subst P (some-injective u t (sym e ∙ e')) here), present-All P children rest)
  ]

  mem-present :
      (children : List TimedResourceReport) (child : TimedResourceReport) (t : ℕ)
      → time child ≡ some t
      → Mem t (present (map time (children ++ child ∷ [])))
  unfolding present
  mem-present [] child t e = rw e mem-cons_self
  mem-present (c ∷ children) child t e = elim (Option-cases (time c)) [
    | inl e' ↦ rw e' (mem-present children child t e)
    | inr (u, e') ↦ rw e' (mem-cons_of_mem u (mem-present children child t e))
  ]

-- The timeline starts at the start of one of its reports, and not after any other, and finishes at
-- the finish of one, and not before any other.
pub record Spans (r : TimelineReport) : Type 0 where
  pub lo : ℕ
  pub hi : ℕ
  pub start : r.start_time ≡ some lo
  pub finish : r.finish_time ≡ some hi
  pub first : Mem lo (present (starts r.children))
  pub last : Mem hi (present (finishes r.children))
  pub after : All (λ c. (t : ℕ) → c.start_time ≡ some t → lo ≤ t) r.children
  pub before : All (λ c. (t : ℕ) → c.finish_time ≡ some t → t ≤ hi) r.children

-- After a report with both times is added to a timeline, the timeline starts when the first of its
-- reports does, and finishes when the last does; reports without a time do not matter.
pub add_report-Spans :
    (child : TimedResourceReport) (r : TimelineReport) → IsClosed child → Spans (add_report child r)
unfolding add_report recalculate_times
add_report-Spans child r h =
    let children = r.children ++ child ∷ [] in
    let times = present (starts children) in
    let ends = present (finishes children) in
    let (lo, start, first, after) =
      first_lem h.s times (mem-present (λ c. c.start_time) r.children child h.s h.starts)
        r.start_time (sorted leb times) (sorted-IsSorted leb-IsPreorder times)
        (sorted-perm leb times) in
    let (hi, finish, last, before) =
      last_lem h.f ends (mem-present (λ c. c.finish_time) r.children child h.f h.finishes)
        r.finish_time (sorted leb ends) (sorted-IsSorted leb-IsPreorder ends)
        (sorted-perm leb ends) in
    record {
      lo = lo;
      hi = hi;
      start = start;
      finish = finish;
      first = first;
      last = last;
      after = present-All (λ c. c.start_time) (λ t. lo ≤ t) children after;
      before = present-All (λ c. c.finish_time) (λ t. t ≤ hi) children before;
    }

pub elapsed_between-ok :
    (r : TimedReport) (s f : ℕ)
    → r.start_time ≡ some s
    → r.finish_time ≡ some f
    → s ≤ f
    → elapsed_seconds r ≡ ok (some (f - s))
unfolding elapsed_seconds elapsed_between
elapsed_between-ok r s f e e' h = rw (e, e') (ground arith)

-- A report that takes at most a time.
abbrev pub TakesAtMost : ℕ → TimedResourceReport → Type 0
TakesAtMost n c = (m : ℕ) × (elapsed_seconds c.timed ≡ ok (some m)) × (m ≤ n)

within_span :
    (lo hi : ℕ) (children : List TimedResourceReport)
    → All IsClosed children
    → All (λ c. (t : ℕ) → c.start_time ≡ some t → lo ≤ t) children
    → All (λ c. (t : ℕ) → c.finish_time ≡ some t → t ≤ hi) children
    → All (TakesAtMost (hi - lo)) children
within_span lo hi [] h a b = tt
within_span lo hi (c ∷ children) h a b =
    let begins = a.0 h.0.s h.0.starts in
    let ends = b.0 h.0.f h.0.finishes in
    (
      (
        h.0.f - h.0.s,
        elapsed_between-ok c.timed h.0.s h.0.f h.0.starts h.0.finishes h.0.ordered,
        omega (arith, begins, ends),
      ),
      within_span lo hi children h.1 a.1 b.1,
    )

-- Where every report has both times and none finishes before it starts, the elapsed time of the
-- timeline can be computed, and no report takes longer.
pub add_report-TakesAtMost :
    (child : TimedResourceReport) (r : TimelineReport)
    → IsClosed child
    → All IsClosed r.children
    → (n : ℕ) × (elapsed_seconds (add_report child r).timed ≡ ok (some n))
      × All (TakesAtMost n) (add_report child r).children
unfolding add_report recalculate_times
add_report-TakesAtMost child r h k =
    let span = add_report-Spans child r h in
    let children = r.children ++ child ∷ [] in
    let closed = All-append IsClosed r.children (child ∷ []) k (h, tt) in
    let after = (All-right _ r.children (child ∷ []) span.after).0 h.s h.starts in
    let before = (All-right _ r.children (child ∷ []) span.before).0 h.f h.finishes in
    let ordered = h.ordered in
    (
      span.hi - span.lo,
      elapsed_between-ok (add_report child r).timed span.lo span.hi span.start span.finish
          (omega (arith, after, before, ordered)),
      within_span span.lo span.hi children closed span.after span.before,
    )
