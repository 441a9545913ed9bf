-- ===== src/Executor/Rounding.antt =====
-- The account of the executor (calrissian/executor.py) on floats that are rounded as IEEE 754 doubles
-- are: resources that are taken and given back need not add up.
use calrissian.Prelude.{
  ℕ, suc, ◌*◌, ◌/◌, ◌%◌, ◌^◌, ◌≡◌, refl, ◌<◌, ◌-◌, true, arith, int_laws, ◌≤ℤ◌, [], ltb, ◌==◌, ℤ,
  pos, negsuc, neg_ℤ, ◌+ℤ◌, if◌then◌else◌,
}
use calrissian.Executor.Resources.{Resources, add, rounded, add_rounded, neg, is_negative, exceeds}
use calrissian.Executor.Resources.Order.{Within, IsExact}
use calrissian.Executor.JobQueue.{ram}
use calrissian.Executor.Effects.{Result, System, raise, ◌>>◌}
use calrissian.Executor.Pool.{inconsistent, account, allocate, restore}

-- To the nearest multiple of a step, and to an even one between two that are as near.
abbrev to_step : ℕ → ℕ → ℕ
to_step step n =
    let q = n / step in
    let r = n % step * 2 in
    if ltb r step
    then q * step
    else if ltb step r
    then suc q * step
    else if q % 2 == 0
    then q * step
    else suc q * step

-- A double in units of 2 ^ -56, up to 4.0: its mantissa has 53 bits.
abbrev to_double : ℕ → ℕ
to_double n =
    if ltb n (2 ^ 53)
    then n
    else if ltb n (2 ^ 54)
    then to_step 2 n
    else if ltb n (2 ^ 55)
    then to_step 4 n
    else if ltb n (2 ^ 56)
    then to_step 8 n
    else if ltb n (2 ^ 57)
    then to_step 16 n
    else to_step 32 n

abbrev double : ℤ → ℤ
double (pos n) = pos (to_double n)
double (negsuc n) = neg_ℤ (pos (to_double (suc n)))

to_double-small : (n : ℕ) → n < 2 ^ 53 → to_double n ≡ n
to_double-small n h = let small : ltb n (2 ^ 53) ≡ true = ground arith in rw small refl

double-small : (n t : ℤ) → neg_ℤ t ≤ℤ n → n ≤ℤ t → t ≤ℤ pos (2 ^ 53 - 1) → double n ≡ n
double-small (pos n) t h k l = rw (to_double-small n (omega int_laws)) refl
double-small (negsuc n) t h k l =
    let small : suc n < 2 ^ 53 = omega int_laws in
    rw (to_double-small (suc n) small) (grind int_laws)

-- Doubles that are multiples of the unit are exact where the whole has less than 53 bits.
double-IsExact :
    (total : Resources)
    → Within total
        (record { ram = pos (2 ^ 53 - 1); cores = pos (2 ^ 53 - 1); gpus = pos (2 ^ 53 - 1) })
    → IsExact total double
unfolding rounded neg
double-IsExact total small a low high = λ i. record {
  ram = double-small a.ram total.ram low.ram high.ram small.ram i;
  cores = double-small a.cores total.cores low.cores high.cores small.cores i;
  gpus = double-small a.gpus total.gpus low.gpus high.gpus small.gpus i;
}

abbrev cores_of : ℕ → Resources
cores_of n = record { ram = pos 0; cores = pos n; gpus = pos 0 }

-- The doubles 1.0, 0.1, 0.2 and 0.3.
abbrev one : Resources
one = cores_of (2 ^ 56)

abbrev tenth : Resources
tenth = cores_of 7205759403792794

abbrev two_tenths : Resources
two_tenths = cores_of 14411518807585588

abbrev three_tenths : Resources
three_tenths = cores_of 21617278211378380

abbrev with_one_core : System
with_one_core = record {
  jrq = record { jobs = []; priority = ram; descending = true };
  exceptions = [];
  total = one;
  available = one;
  output_dirs = [];
  pool = [];
  clock = 0;
  round = double;
}

abbrev in_turn : Result (Unit {0}) × System
in_turn =
    (allocate tenth >> allocate three_tenths >> restore three_tenths >> restore tenth) with_one_core

abbrev in_reverse : Result (Unit {0}) × System
in_reverse =
    (allocate tenth >> allocate two_tenths >> restore two_tenths >> restore tenth) with_one_core

-- On one core, 0.1 and 0.3 are taken, and 0.3 and 0.1 given back: the last of it raises an
-- InconsistentResourcesException.
rounding_raises : in_turn.0 ≡ raise inconsistent
unfolding allocate restore account add_rounded rounded add neg is_negative exceeds ◌+ℤ◌ neg_ℤ
rounding_raises = refl

-- With 0.1 and 0.2 nothing is raised, and less is available at the end than at the start.
rounding_loses : in_reverse.1.available ≡ cores_of 72057594037927928
unfolding allocate restore account add_rounded rounded add neg is_negative exceeds ◌+ℤ◌ neg_ℤ
rounding_loses = refl
