-- ===== src/Executor/Progress.antt =====
-- Progress of the main thread of the executor (calrissian/executor.py): calls that end, where the
-- other threads take a bounded time.
pub mod Futures
pub mod Waits
pub mod Rounds
pub mod Drain
pub mod Run
pub mod Prompt
use calrissian.Prelude.{
  ◌≡◌, refl, ◌≤◌, ℕ, zero, suc, true, false, Bool, List, All, length, if◌then◌else◌,
}
use calrissian.Executor.Resources.{Resources}
use calrissian.Executor.Effects.{
  Future, System, Result, return, raise, waits, Action, and_then, ◌>>=◌,
}
use calrissian.Executor.Pool.{World, advance, is_done}
use calrissian.Executor.Invariant.{Inv}
use calrissian.Executor.Invariant.Events.{WorldIsProper, advance-Keeps}

-- The state after a number of points at which the other threads acted.
abbrev pub after : World → ℕ → System → System
after world zero s = s
after world (suc k) s = after world k (advance world s)

-- A future that is done, and whose callback has run.
abbrev pub IsSettled : Future → Type 0
IsSettled f = (is_done f.status ≡ true) × (f.called ≡ true)

-- From the k-th point on, all that was submitted is settled.
abbrev pub SettlesIn : World → ℕ → System → Type 0
SettlesIn world k s = (n : ℕ) → k ≤ n → All IsSettled (after world n s).pool

-- The threads settle every job that was submitted within `delay` such points.
abbrev pub IsTimely : World → ℕ → Type 0
IsTimely world delay = (s : System) → SettlesIn world delay s

-- A call does not wait in the end, and what it returns has the property.
abbrev pub Ends : {A : Type 0} → (A → System → Type 0) → Result A → System → Type 0
Ends P (return a) s = P a s
Ends P (raise e) s = Unit
Ends P waits s = ⊥

-- The same of a call of an action.
abbrev pub EndsAt : {A : Type 0} → (A → System → Type 0) → Action A → System → Type 0
EndsAt P m s = Ends P (m s).0 (m s).1

pub mono-Ends :
    {A : Type 0} (P Q : A → System → Type 0) (r : Result A) (s : System)
    → ((a : A) (s' : System) → P a s' → Q a s')
    → Ends P r s
    → Ends Q r s
mono-Ends P Q (return a) s h e = h a s e
mono-Ends P Q (raise _) s h e = tt
mono-Ends P Q waits s h e = e

module _ {A B : Type 0} (P : A → System → Type 0) (Q : B → System → Type 0) where
  and_then-Ends :
      (r : Result A) (f : A → Action B) (s : System)
      → ((a : A) (s' : System) → P a s' → EndsAt Q (f a) s')
      → Ends P r s
      → Ends Q (and_then r f s).0 (and_then r f s).1
  and_then-Ends (return a) f s h e = h a s e
  and_then-Ends (raise e) f s h _ = tt
  and_then-Ends waits f s h e = e

  pub >>=-EndsAt :
      (m : Action A) (f : A → Action B) (s : System)
      → EndsAt P m s
      → ((a : A) (s' : System) → P a s' → EndsAt Q (f a) s')
      → EndsAt Q (m >>= f) s
  >>=-EndsAt m f s e h = and_then-Ends (m s).0 f (m s).1 h e

pub if-EndsAt :
    {A : Type 0} (P : A → System → Type 0) (b : Bool) (m n : Action A) (s : System)
    → (b ≡ true → EndsAt P m s)
    → (b ≡ false → EndsAt P n s)
    → EndsAt P (if b then m else n) s
if-EndsAt P true m n s h k = h refl
if-EndsAt P false m n s h k = k refl

-- What waiting and cancelling keep.
pub record IsKept (total : Resources) (s s' : System) : Type 0 where
  pub inv : Inv total s'
  pub jrq : s'.jrq ≡ s.jrq
  pub size : length s'.pool ≡ length s.pool

pub IsKept-refl : (total : Resources) (s : System) → Inv total s → IsKept total s s
IsKept-refl total s v = record { inv = v; jrq = refl; size = refl }

pub IsKept-trans :
    (total : Resources) (s t u : System) → IsKept total s t → IsKept total t u → IsKept total s u
IsKept-trans total s t u h k = record { inv = k.inv; jrq = cc; size = cc }

pub advance-IsKept :
    (total : Resources) (world : World) (s : System)
    → WorldIsProper world
    → Inv total s
    → IsKept total s (advance world s)
advance-IsKept total world s proper v =
    let (v', freed) = advance-Keeps world proper s v in
    record { inv = v'; jrq = freed.jrq; size = freed.size }
