-- ===== src/Retry.antt =====
-- calrissian/retry.py: the decorator that retries a call. The tenacity package is a parameter, with
-- its documented behaviour; the pauses between two attempts are not modelled.
pub mod Rule
pub mod Bounded
pub mod Count
use calrissian.Prelude.{ℕ, suc, ◌≤◌, ◌≡◌, Bool, true, false, Option, none, some}
use calrissian.K8s.Effects.{Error, ok, err, Session, Action}

-- `tenacity.retry`: which exceptions are tried again, and how many attempts are made.
pub record Tenacity : Type 1 where
  pub retry : (A : Type 0) → (Error → Bool) → ℕ → Action A → Action A

-- What tenacity documents of `retry_if_exception_type`, `stop_after_attempt` and `reraise=True`.
pub record IsTenacity (t : Tenacity) : Type 1 where
  pub returns :
      (A : Type 0) (p : Error → Bool) (n : ℕ) (m : Action A) (s s' : Session) (a : A)
      → m s ≡ (ok a, s')
      → t.retry A p n m s ≡ (ok a, s')
  pub passes :
      (A : Type 0) (p : Error → Bool) (n : ℕ) (m : Action A) (s s' : Session) (e : Error)
      → m s ≡ (err e, s')
      → p e ≡ false
      → t.retry A p n m s ≡ (err e, s')
  pub stops :
      (A : Type 0) (p : Error → Bool) (n : ℕ) (m : Action A) (s s' : Session) (e : Error)
      → n ≤ 1
      → m s ≡ (err e, s')
      → t.retry A p n m s ≡ (err e, s')
  pub again :
      (A : Type 0) (p : Error → Bool) (n : ℕ) (m : Action A) (s s' : Session) (e : Error)
      → m s ≡ (err e, s')
      → p e ≡ true
      → t.retry A p (suc (suc n)) m s ≡ t.retry A p (suc n) m s'

-- RetryParameters.ATTEMPTS: the number in the environment, or 10.
abbrev pub attempts : Option ℕ → ℕ
attempts none = 10
attempts (some n) = n

-- `retry_exponential_if_exception_type`
abbrev pub retry_exponential_if_exception_type :
    Tenacity → Option ℕ → (A : Type 0) → (Error → Bool) → Action A → Action A
retry_exponential_if_exception_type t env A p m = t.retry A p (attempts env) m
