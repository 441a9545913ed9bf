-- ===== src/Report/Area.antt =====
-- The totals of a timeline are what is active summed over its ticks (calrissian/report.py).
use Prim.Native.Nat.{min}
use calrissian.Prelude.{
  ℕ, zero, suc, ◌+◌, ◌*◌, ◌-◌, ◌≤◌, ◌≡◌, refl, sym, ap, not, leb, ◌&&◌, Bool, Bool-cases, inl, inr,
  Option, some, List, [], ◌∷◌, All, map, arith, ◌==◌, if◌then◌else◌,
}
use calrissian.Report.{
  TimedResourceReport, TimelineReport, Result, ok, bind, elapsed_hours, if_positive, scaled,
  cpu_hours, ram_megabyte_hours, sum_ignore_none, add_option, total_cpu_hours,
  total_ram_megabyte_hours,
}
use calrissian.Report.Timeline.Span.{Spans, elapsed_between-ok}
use calrissian.Report.Parallel.{Metric, cpus, ram, count_unit}
use calrissian.Report.Parallel.Sums.{IsClosed, active, begun}

-- What is active, summed over the `n` ticks from `lo` on.
unfoldable pub area : Metric → List TimedResourceReport → ℕ → ℕ → ℕ
unfolding active
area m children lo zero = 0
area m children lo (suc n) = active m (lo + n) children + area m children lo n

module _ (m : Metric) where
  active-cons :
      (t : ℕ) (c : TimedResourceReport) (children : List TimedResourceReport)
      → active m t (c ∷ children) ≡ active m t (c ∷ []) + active m t children
  unfolding active
  active-cons t c children = ground arith

  area-cons :
      (c : TimedResourceReport) (children : List TimedResourceReport) (lo n : ℕ)
      → area m (c ∷ children) lo n ≡ area m (c ∷ []) lo n + area m children lo n
  unfolding area
  area-cons c children lo zero = refl
  area-cons c children lo (suc n) =
      omega (arith, active-cons (lo + n) c children, area-cons c children lo n)

  area-nil : (lo n : ℕ) → area m [] lo n ≡ 0
  unfolding area active
  area-nil lo zero = refl
  area-nil lo (suc n) = omega (arith, area-nil lo n)

  -- The ticks before the end of `n` at which a report is active.
  width : ℕ → ℕ → ℕ → ℕ
  width s f e = min f e - min s e

  mul_suc : (u k : ℕ) → u * suc k ≡ u + u * k
  mul_suc u k = omega arith

  counted :
      (a a' b b' : Bool) (u : ℕ)
      → a ≡ a'
      → b ≡ b'
      → (if a && not b then u + 0 else 0) ≡ (if a' && not b' then u else 0)
  counted a a' b b' u e f = ground (arith, e, f)

  active-one :
      (t : ℕ) (c : TimedResourceReport) (h : IsClosed c)
      → active m t (c ∷ []) ≡ (if leb h.s t && not (leb h.f t) then count_unit m c else 0)
  unfolding active
  active-one t c h =
      counted _ _ _ _ (count_unit m c) (ap (begun t) h.starts) (ap (begun t) h.finishes)

  -- One more tick, at which the report counts if it is active.
  step :
      (u s f e : ℕ)
      → s ≤ f
      → (if leb s e && not (leb f e) then u else 0) + u * width s f e ≡ u * width s f (suc e)
  unfolding width
  step u s f e o = elim (Bool-cases (leb s e && not (leb f e))) [
    | inl on ↦
        let more : min f (suc e) - min s (suc e) ≡ suc (min f e - min s e) = ground (arith, on) in
        rw (on, more) (sym (mul_suc u (min f e - min s e)))
    | inr off ↦
        let same : min f (suc e) - min s (suc e) ≡ min f e - min s e = ground (arith, off, o) in
        rw (off, same) (omega arith)
  ]

  area_one :
      (c : TimedResourceReport) (h : IsClosed c) (lo n : ℕ)
      → lo ≤ h.s
      → area m (c ∷ []) lo n ≡ count_unit m c * width h.s h.f (lo + n)
  unfolding area width
  area_one c h lo zero after =
      let ordered = h.ordered in
      let nothing : min h.f (lo + 0) - min h.s (lo + 0) ≡ 0 = omega (arith, after, ordered) in
      rw nothing (omega arith)
  area_one c h lo (suc n) after =
      let next : lo + suc n ≡ suc (lo + n) = omega arith in
      rw (active-one (lo + n) c h, area_one c h lo n after, next)
        (step (count_unit m c) h.s h.f (lo + n) h.ordered)

  -- The reports are within the ticks from `lo` to `hi`.
  abbrev IsWithin : ℕ → ℕ → TimedResourceReport → Type 0
  IsWithin lo hi c = (h : IsClosed c) × (lo ≤ h.s) × (h.f ≤ hi)

  area_whole :
      (c : TimedResourceReport) (lo hi : ℕ) (w : IsWithin lo hi c)
      → area m (c ∷ []) lo (hi - lo) ≡ count_unit m c * (w.0.f - w.0.s)
  unfolding width
  area_whole c lo hi (h, after, before) =
      let ordered = h.ordered in
      let all : min h.f (lo + (hi - lo)) - min h.s (lo + (hi - lo)) ≡ h.f - h.s =
        omega (arith, after, before, ordered) in
      rw⁻¹ all (area_one c h lo (hi - lo) after)

  added :
      (u k n : ℕ)
      → bind (ok (scaled u (if_positive (some k)))) (λ v. bind (ok n) (λ w. ok (add_option v w)))
        ≡ ok (u * k + n)
  added u k n = elim (Bool-cases (k == 0)) [
    | inl e ↦ let none_left : k ≡ 0 = ground arith in rw none_left (ap ok (omega arith))
    | inr e ↦ rw e refl
  ]

  -- A value per report, as the methods compute it.
  module _ (value : TimedResourceReport → Result (Option ℕ))
      (values : (c : TimedResourceReport) (h : IsClosed c)
        → value c ≡ ok (scaled (count_unit m c) (if_positive (some (h.f - h.s))))) where
    sum-area :
        (children : List TimedResourceReport) (lo hi : ℕ)
        → All (IsWithin lo hi) children
        → sum_ignore_none (map value children) ≡ ok (area m children lo (hi - lo))
    unfolding sum_ignore_none
    sum-area [] lo hi h = ap ok (sym (area-nil lo (hi - lo)))
    sum-area (c ∷ children) lo hi h =
        let here = area_whole c lo hi h.0 in
        let both = area-cons c children lo (hi - lo) in
        let rest = sum-area children lo hi h.1 in
        let head = values c h.0.0 in
        rw (head, rest, both, here) (added (count_unit m c) (h.0.0.f - h.0.0.s) _)

within :
    (m : Metric) (lo hi : ℕ) (children : List TimedResourceReport)
    → All IsClosed children
    → All (λ c. (t : ℕ) → c.start_time ≡ some t → lo ≤ t) children
    → All (λ c. (t : ℕ) → c.finish_time ≡ some t → t ≤ hi) children
    → All (IsWithin m lo hi) children
within m lo hi [] h a b = tt
within m lo hi (c ∷ children) h a b =
    ((h.0, a.0 h.0.s h.0.starts, b.0 h.0.f h.0.finishes), within m lo hi children h.1 a.1 b.1)

hours_of :
    (c : TimedResourceReport) (h : IsClosed c)
    → elapsed_hours c.timed ≡ ok (if_positive (some (h.f - h.s)))
unfolding elapsed_hours
hours_of c h =
    ap (λ r. bind r (λ n. ok (if_positive n)))
      (elapsed_between-ok c.timed h.s h.f h.starts h.finishes h.ordered)

cpu_hours_lem :
    (c : TimedResourceReport) (h : IsClosed c)
    → cpu_hours c ≡ ok (scaled (count_unit cpus c) (if_positive (some (h.f - h.s))))
unfolding cpu_hours count_unit
cpu_hours_lem c h = ap (λ r. bind r (λ n. ok (scaled c.cpus n))) (hours_of c h)

ram_megabyte_hours_lem :
    (c : TimedResourceReport) (h : IsClosed c)
    → ram_megabyte_hours c ≡ ok (scaled (count_unit ram c) (if_positive (some (h.f - h.s))))
unfolding ram_megabyte_hours count_unit
ram_megabyte_hours_lem c h = ap (λ r. bind r (λ n. ok (scaled c.ram_megabytes n))) (hours_of c h)

-- Where every report has both times and none finishes before it starts, and the timeline spans them,
-- the total of CPU hours is the CPUs of the reports that are active summed over the ticks of the
-- timeline, and so is the total of memory hours.
pub totals-area :
    (r : TimelineReport) (span : Spans r)
    → All IsClosed r.children
    → (total_cpu_hours r ≡ ok (area cpus r.children span.lo (span.hi - span.lo)))
      × (total_ram_megabyte_hours r ≡ ok (area ram r.children span.lo (span.hi - span.lo)))
unfolding total_cpu_hours total_ram_megabyte_hours
totals-area r span closed =
    let inside =
      λ (m : Metric). within m span.lo span.hi r.children closed span.after span.before in
    (
      sum-area cpus cpu_hours cpu_hours_lem r.children span.lo span.hi (inside cpus),
      sum-area ram ram_megabyte_hours ram_megabyte_hours_lem r.children span.lo span.hi
          (inside ram),
    )
