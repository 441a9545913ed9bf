-- ===== src/Text/Dict.antt =====
-- A Python dict keyed by texts that the code takes apart, in insertion order.
use calrissian.Prelude.{
  ◌≡◌, refl, sym, subst, ◌∙◌, false, Bool-cases, inl, inr, Option, none, some, List, [], ◌∷◌,
  if◌then◌else◌,
}
use calrissian.Text.{Text, eq_text}
use calrissian.Text.Laws.{eq_text→eq, eq_text_refl}

abbrev pub TextDict {ℓ} : Type ℓ → Type ℓ
TextDict V = List (Text × V)

module _ {ℓ} {V : Type ℓ} where
  unfoldable pub lookup : Text → TextDict V → Option V
  lookup k [] = none
  lookup k ((j, v) ∷ d) = if eq_text j k then some v else lookup k d

  -- `d[k] = v`: an old key keeps its place.
  unfoldable pub insert : Text → V → TextDict V → TextDict V
  insert k v [] = (k, v) ∷ []
  insert k v ((j, w) ∷ d) = if eq_text j k then (j, v) ∷ d else (j, w) ∷ insert k v d

  pub lookup-insert : (k : Text) (v : V) (d : TextDict V) → lookup k (insert k v d) ≡ some v
  unfolding lookup insert
  lookup-insert k v [] = rw (eq_text_refl k) refl
  lookup-insert k v ((j, w) ∷ d) = elim (Bool-cases (eq_text j k)) [
    | inl e ↦ rw (e, insert) (rw (e, lookup) refl)
    | inr e ↦ rw (e, insert) (rw (e, lookup) (lookup-insert k v d))
  ]

  pub lookup-insert_other :
      (k j : Text) (v : V) (d : TextDict V)
      → eq_text j k ≡ false
      → lookup k (insert j v d) ≡ lookup k d
  unfolding lookup insert
  lookup-insert_other k j v [] h = rw h refl
  lookup-insert_other k j v ((i, w) ∷ d) h = elim (Bool-cases (eq_text i j)) [
    | inl e ↦
        let other = subst (λ t. eq_text t k ≡ false) (sym (eq_text→eq i j e)) h in
        rw (e, insert) (rw (other, lookup) refl)
    | inr e ↦ elim (Bool-cases (eq_text i k)) [
      | inl e' ↦ rw (e, insert) (rw (e', lookup) refl)
      | inr e' ↦ rw (e, insert) (rw (e', lookup) (lookup-insert_other k j v d h))
    ]
  ]

  pub lookup-insert_cases :
      (k j : Text) (v : V) (d : TextDict V)
      → lookup k (insert j v d) ≡ (if eq_text j k then some v else lookup k d)
  lookup-insert_cases k j v d = elim (Bool-cases (eq_text j k)) [
    | inl e ↦ rw e (
        subst (λ i. lookup k (insert i v d) ≡ some v) (sym (eq_text→eq j k e))
          (lookup-insert k v d))
    | inr e ↦ rw e (lookup-insert_other k j v d e)
  ]

  -- `d.update(pairs)`, or an assignment for each pair.
  unfoldable pub update : List (Text × V) → TextDict V → TextDict V
  unfolding insert
  update [] d = d
  update ((k, v) ∷ pairs) d = update pairs (insert k v d)

  abbrev pub or_value : Option V → Option V → Option V
  or_value none other = other
  or_value (some v) other = some v

  -- The value of the last pair with a key.
  unfoldable pub last_value : Text → List (Text × V) → Option V
  last_value k [] = none
  last_value k ((j, v) ∷ pairs) =
      or_value (last_value k pairs) (if eq_text j k then some v else none)

  pub lookup-update :
      (k : Text) (pairs : List (Text × V)) (d : TextDict V)
      → lookup k (update pairs d) ≡ or_value (last_value k pairs) (lookup k d)
  unfolding update last_value
  lookup-update k [] d = refl
  lookup-update k ((j, v) ∷ pairs) d =
      lookup-update k pairs (insert j v d) ∙ after_insert k j v d (last_value k pairs)
    where
      after_insert :
          (k j : Text) (v : V) (d : TextDict V) (last : Option V)
          → or_value last (lookup k (insert j v d))
            ≡ or_value (or_value last (if eq_text j k then some v else none)) (lookup k d)
      after_insert k j v d (some w) = refl
      after_insert k j v d none = elim (Bool-cases (eq_text j k)) [
        | inl e ↦ rw (lookup-insert_cases k j v d, e) refl
        | inr e ↦ rw (lookup-insert_cases k j v d, e) refl
      ]
