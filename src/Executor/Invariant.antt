-- ===== src/Executor/Invariant.antt =====
-- The invariant of the executor (calrissian/executor.py): what is available and what the futures
-- hold is the whole, nothing is overdrawn, and the queue holds only jobs that fit.
pub mod Workers
pub mod Events
pub mod Taken
pub mod Start
pub mod Calls
pub mod MainThread
pub mod End
use mathlib.Core.Option.{some-injective}
use calrissian.Prelude.{
  ◌≡◌, refl, ◌≢◌, ◌+◌, Bool, true, false, Option, none, some, List, [], ◌∷◌, ◌++◌, ℕ, subst, zero,
  suc, pos, arith, int_laws, get_elem?, set, All, if◌then◌else◌,
}
use calrissian.Executor.Resources.{Resources, add, is_negative, exceeds}
use calrissian.Executor.Resources.Order.{
  Within, IsNonnegative, IsSum, IsExact, add_rounded-exact, is_negative_iff, exceeds_iff, add-IsSum,
  Within-trans, Within-refl,
}
use calrissian.Executor.JobQueue.Laws.{IsValid}
use calrissian.Executor.Effects.{
  inconsistent_resources, Exception, Status, pending, finished, Future, System, Result, return,
  raise, waits,
}
use calrissian.Executor.Pool.{account}

-- What the futures whose callback has not run hold.
unfoldable pub outstanding : List Future → Resources
outstanding [] = record { ram = pos 0; cores = pos 0; gpus = pos 0 }
outstanding (f ∷ pool) = let rest = outstanding pool in if f.called then rest else add f.rsc rest

-- An exception that does not report inconsistent resources.
abbrev pub IsProper : Exception → Type 0
IsProper e = e.kind ≢ inconsistent_resources

abbrev pub HasProper : Option Exception → Type 0
HasProper none = Unit
HasProper (some e) = IsProper e

abbrev pub StatusIsProper : Status → Type 0
StatusIsProper (finished e) = HasProper e
StatusIsProper _ = Unit

-- A future that no worker has taken up has not been called back.
abbrev pub PendingIsOpen : Status → Bool → Type 0
PendingIsOpen pending called = called ≡ false
PendingIsOpen _ called = Unit

pub record IsSound (f : Future) : Type 0 where
  pub nonneg : IsNonnegative f.rsc
  pub proper : StatusIsProper f.status
  pub waiting : PendingIsOpen f.status f.called

pub record Inv (total : Resources) (s : System) : Type 0 where
  pub whole : s.total ≡ total
  pub exact : IsExact total s.round
  pub balance : IsSum s.available (outstanding s.pool) total
  pub spare : IsNonnegative s.available
  pub queue : IsValid total s.jrq
  pub futures : All IsSound s.pool
  pub proper : All IsProper s.exceptions

outstanding-nonneg : (pool : List Future) → All IsSound pool → IsNonnegative (outstanding pool)
unfolding outstanding add
outstanding-nonneg [] h = omega arith
outstanding-nonneg (f ∷ pool) h = grind (int_laws, outstanding-nonneg pool h.1)

pub outstanding-append :
    (pool : List Future) (f : Future)
    → f.called ≡ false
    → IsSum (outstanding pool) f.rsc (outstanding (pool ++ f ∷ []))
unfolding outstanding add
outstanding-append [] f h = grind int_laws
outstanding-append (g ∷ pool) f h = grind (int_laws, outstanding-append pool f h)

pub outstanding-set_called :
    (pool : List Future) (i : ℕ) (f g : Future)
    → get_elem? pool i ≡ some f
    → f.called ≡ false
    → g.called ≡ true
    → IsSum (outstanding (set pool i g)) f.rsc (outstanding pool)
unfolding outstanding add
outstanding-set_called [] i f g e h k = cc
outstanding-set_called (x ∷ pool) zero f g e h k = grind int_laws
outstanding-set_called (x ∷ pool) (suc i) f g e h k =
    grind (int_laws, outstanding-set_called pool i f g e h k)

pub outstanding-set_same :
    (pool : List Future) (i : ℕ) (f g : Future)
    → get_elem? pool i ≡ some f
    → g.called ≡ f.called
    → g.rsc ≡ f.rsc
    → outstanding (set pool i g) ≡ outstanding pool
unfolding outstanding
outstanding-set_same [] i f g e h k = refl
outstanding-set_same (x ∷ pool) zero f g e h k = ground arith
outstanding-set_same (x ∷ pool) (suc i) f g e h k =
    ground (arith, outstanding-set_same pool i f g e h k)

pub set-All :
    {A : Type 0} (P : A → Type 0) (xs : List A) (i : ℕ) (v : A)
    → All P xs
    → P v
    → All P (set xs i v)
set-All P [] i v h p = tt
set-All P (x ∷ xs) zero v h p = (p, h.1)
set-All P (x ∷ xs) (suc i) v h p = (h.0, set-All P xs i v h.1 p)

pub get_elem?-All :
    {A : Type 0} (P : A → Type 0) (xs : List A) (i : ℕ) (v : A)
    → All P xs
    → get_elem? xs i ≡ some v
    → P v
get_elem?-All P [] i v h e = cc
get_elem?-All P (x ∷ xs) zero v h e = subst P (some-injective x v e) h.0
get_elem?-All P (x ∷ xs) (suc i) v h e = get_elem?-All P xs i v h.1 e

-- An account that stays between nothing and the whole, where nothing is rounded, does not raise.
pub account-return :
    {total : Resources} (rsc : Resources) (s : System)
    → s.total ≡ total
    → IsExact total s.round
    → IsNonnegative (add s.available rsc)
    → Within (add s.available rsc) s.total
    → account rsc s ≡ (return tt, record s { available = add s.available rsc })
unfolding account
account-return {total} rsc s whole exact h k = rw (
  add_rounded-exact total s.round s.available rsc exact h (rw whole at k),
  (is_negative_iff (add s.available rsc)).1 h,
  (exceeds_iff (add s.available rsc) s.total).1 k,
)
