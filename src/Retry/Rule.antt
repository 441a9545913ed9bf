-- ===== src/Retry/Rule.antt =====
-- A proof rule for the calls that calrissian/retry.py decorates.
use calrissian.Prelude.{
  ℕ, zero, suc, ◌≡◌, ◌≤◌, refl, subst, sym, Bool, true, Bool-cases, inl, inr, arith,
}
use calrissian.K8s.Effects.{Error, Result, ok, err, Session, Action}
use calrissian.Retry.{Tenacity, IsTenacity}

module _ (t : Tenacity) (laws : IsTenacity t) (A : Type 0) (p : Error → Bool) (m : Action A)
    (P : Session → Type 0) (Q : Result A → Session → Type 0) where
  -- What one attempt has to show: how it may end the call, and what it leaves for a next attempt.
  abbrev pub Attempt : Type 0
  Attempt =
      (s : Session)
      → P s
      → Q (m s).0 (m s).1 × ((e : Error) → (m s).0 ≡ err e → p e ≡ true → P (m s).1)

  abbrev pub Ends : ℕ → Session → Type 0
  Ends n s = Q (t.retry A p n m s).0 (t.retry A p n m s).1

  ends :
      (n : ℕ) (s : Session) (r : Result A × Session) → t.retry A p n m s ≡ r → Q r.0 r.1 → Ends n s
  ends n s r e q = subst (λ x. Q x.0 x.1) (sym e) q

  -- The last attempt, or one that is not followed by another.
  pub final : (n : ℕ) (s s' : Session) (r : Result A) → n ≤ 1 → m s ≡ (r, s') → Q r s' → Ends n s
  final n s s' (ok a) few e q = ends n s (ok a, s') (laws.returns A p n m s s' a e) q
  final n s s' (err x) few e q = ends n s (err x, s') (laws.stops A p n m s s' x few e) q

  -- An attempt before the last: `next` is what the further attempts give.
  pub further :
      (n : ℕ) (s s' : Session) (r : Result A)
      → m s ≡ (r, s')
      → Q r s'
      → ((e : Error) → r ≡ err e → p e ≡ true → Ends (suc n) s')
      → Ends (suc (suc n)) s
  further n s s' (ok a) e q next = ends _ s (ok a, s') (laws.returns A p _ m s s' a e) q
  further n s s' (err x) e q next = elim (Bool-cases (p x)) [
    | inl retried ↦
        subst (λ z. Q z.0 z.1) (sym (laws.again A p n m s s' x e retried)) (next x refl retried)
    | inr passed ↦ ends _ s (err x, s') (laws.passes A p _ m s s' x e passed) q
  ]

  pub retry_rule : Attempt → (n : ℕ) (s : Session) → P s → Ends n s
  retry_rule h zero s ps = final zero s (m s).1 (m s).0 (omega arith) refl (h s ps).0
  retry_rule h (suc zero) s ps = final 1 s (m s).1 (m s).0 (omega arith) refl (h s ps).0
  retry_rule h (suc (suc n)) s ps =
      further n s (m s).1 (m s).0 refl (h s ps).0
        λ e failed retried. retry_rule h (suc n) (m s).1 ((h s ps).1 e failed retried)
