-- ===== src/Retry/Bounded.antt =====
-- A retry that has the documented behaviour: it makes at most the given number of attempts.
use calrissian.Prelude.{ℕ, zero, suc, ◌≤◌, ◌≡◌, Bool, true, false, if◌then◌else◌, arith}
use calrissian.K8s.Effects.{Error, Result, ok, err, Session, Action}
use calrissian.Retry.{Tenacity, IsTenacity}

abbrev settled : {A : Type 0} → (Error → Bool) → Action A → Result A → Action A
settled p rest (ok a) s = (ok a, s)
settled p rest (err e) s = if p e then rest s else (err e, s)

attempt : (A : Type 0) → (Error → Bool) → ℕ → Action A → Action A
attempt A p zero m s = m s
attempt A p (suc zero) m s = m s
attempt A p (suc (suc n)) m s = let (r, s') = m s in settled p (attempt A p (suc n) m) r s'

unfoldable pub bounded : Tenacity
unfolding attempt
bounded = record { retry = attempt }

module _ (A : Type 0) (p : Error → Bool) where
  returns :
      (n : ℕ) (m : Action A) (s s' : Session) (a : A)
      → m s ≡ (ok a, s')
      → attempt A p n m s ≡ (ok a, s')
  unfolding attempt
  returns zero m s s' a e = e
  returns (suc zero) m s s' a e = e
  returns (suc (suc n)) m s s' a e = rw e

  passes :
      (n : ℕ) (m : Action A) (s s' : Session) (x : Error)
      → m s ≡ (err x, s')
      → p x ≡ false
      → attempt A p n m s ≡ (err x, s')
  unfolding attempt
  passes zero m s s' x e q = e
  passes (suc zero) m s s' x e q = e
  passes (suc (suc n)) m s s' x e q = rw e (rw q)

  stops :
      (n : ℕ) (m : Action A) (s s' : Session) (x : Error)
      → n ≤ 1
      → m s ≡ (err x, s')
      → attempt A p n m s ≡ (err x, s')
  unfolding attempt
  stops zero m s s' x few e = e
  stops (suc zero) m s s' x few e = e
  stops (suc (suc n)) m s s' x few e = absurd (omega arith)

  again :
      (n : ℕ) (m : Action A) (s s' : Session) (x : Error)
      → m s ≡ (err x, s')
      → p x ≡ true
      → attempt A p (suc (suc n)) m s ≡ attempt A p (suc n) m s'
  unfolding attempt
  again n m s s' x e q = rw e (rw q)

-- The documented behaviour can be had.
pub bounded-IsTenacity : IsTenacity bounded
unfolding bounded
bounded-IsTenacity = record { returns = returns; passes = passes; stops = stops; again = again }
