-- ===== src/Retry/Count.antt =====
-- How many calls of the API a retried call makes (calrissian/retry.py).
use Prim.Native.Nat.{max}
use calrissian.Prelude.{ℕ, zero, suc, ◌+◌, ◌≤◌, ◌<◌, ◌≡◌, refl, Bool, arith}
use calrissian.K8s.Effects.{Error, Result, Session, Action}
use calrissian.Retry.{Tenacity, IsTenacity}
use calrissian.Retry.Rule.{final, further}

-- From one state to another there is at least one call, and there are at most `n`.
pub record Calls (n : ℕ) (s s' : Session) : Type 0 where
  pub some_call : s.calls < s'.calls
  pub few : s'.calls ≤ s.calls + max 1 n

module _ (t : Tenacity) (laws : IsTenacity t) (A : Type 0) (p : Error → Bool) (m : Action A)
    (one : (s : Session) → (m s).1.calls ≡ suc s.calls) where
  abbrev After : ℕ → Session → Result A → Session → Type 0
  After n s r s' = Calls n s s'

  once : (n : ℕ) (s : Session) → Calls n s (m s).1
  once n s = let e = one s in record { some_call = omega (arith, e); few = omega (arith, e) }

  -- One attempt and then some more.
  then_more : (n : ℕ) (s s' : Session) → Calls (suc n) (m s).1 s' → Calls (suc (suc n)) s s'
  then_more n s s' h =
      let e = one s in
      let more = h.some_call in
      let few = h.few in record { some_call = omega (arith, e, more); few = omega (arith, e, few) }

  -- A retried action that makes one call each time makes no more than the number of attempts.
  pub retry-Calls : (n : ℕ) (s : Session) → Calls n s (t.retry A p n m s).1
  retry-Calls zero s =
      final t laws A p m (λ _. Unit) (After 0 s) 0 s (m s).1 (m s).0 (omega arith) refl (once 0 s)
  retry-Calls (suc zero) s =
      final t laws A p m (λ _. Unit) (After 1 s) 1 s (m s).1 (m s).0 (omega arith) refl (once 1 s)
  retry-Calls (suc (suc n)) s =
      further t laws A p m (λ _. Unit) (After (suc (suc n)) s) n s (m s).1 (m s).0 refl
        (once (suc (suc n)) s) (λ e failed retried. then_more n s _ (retry-Calls (suc n) (m s).1))
