-- ===== src/Sort/Laws.antt =====
-- What a sort guarantees: the same elements, in order, and equal ones in their old order.
use mathlib.Core.List.{Perm}
use mathlib.Core.List.Perm
use calrissian.Prelude.{
  ◌≡◌, ◌⊎◌, inl, inr, Bool, true, false, List, [], ◌∷◌, All, All-map, Bool-cases,
}
use calrissian.Sort.{insert, sorted}

module _ {ℓ} {A : Type ℓ} where
  -- A total preorder, as a test.
  pub record IsPreorder (before : A → A → Bool) : Type ℓ where
    pub total : (x y : A) → (before x y ≡ true) ⊎ (before y x ≡ true)
    pub trans : (x y z : A) → before x y ≡ true → before y z ≡ true → before x z ≡ true

  -- Every element is before all that follow it.
  abbrev pub IsSorted : (A → A → Bool) → List A → Type ℓ
  IsSorted before [] = Unit
  IsSorted before (x ∷ xs) = All (λ y. before x y ≡ true) xs × IsSorted before xs

module _ {ℓ} {A : Type ℓ} (before : A → A → Bool) where
  insert-perm : (x : A) (ys : List A) → Perm (insert before x ys) (x ∷ ys)
  unfolding insert
  insert-perm x [] = Perm.rfl
  insert-perm x (y ∷ ys) = elim (Bool-cases (before x y)) [
    | inl h ↦ rw (h, insert) Perm.rfl
    | inr h ↦ rw (h, insert) (Perm.trans (Perm.cons y (insert-perm x ys)) (Perm.swap x y ys))
  ]

  pub sorted-perm : (xs : List A) → Perm (sorted before xs) xs
  unfolding sorted
  sorted-perm [] = Perm.rfl
  sorted-perm (x ∷ xs) =
      Perm.trans (insert-perm x (sorted before xs)) (Perm.cons x (sorted-perm xs))

module _ {ℓ κ} {A : Type ℓ} (before : A → A → Bool) (P : A → Type κ) where
  insert-All : (x : A) (ys : List A) → P x → All P ys → All P (insert before x ys)
  unfolding insert
  insert-All x [] p h = (p, tt)
  insert-All x (y ∷ ys) p h = elim (Bool-cases (before x y)) [
    | inl e ↦ rw (e, insert) (p, h)
    | inr e ↦ rw (e, insert) (h.0, insert-All x ys p h.1)
  ]

  pub sorted-All : (xs : List A) → All P xs → All P (sorted before xs)
  unfolding sorted
  sorted-All [] h = tt
  sorted-All (x ∷ xs) h = insert-All x (sorted before xs) h.0 (sorted-All xs h.1)

module _ {ℓ} {A : Type ℓ} {before : A → A → Bool} (order : IsPreorder before) where
  turn : (x y : A) → before x y ≡ false → before y x ≡ true
  turn x y e = elim (order.total x y) [ inl h ↦ cc | inr h ↦ h ]

  insert-IsSorted :
      (x : A) (ys : List A) → IsSorted before ys → IsSorted before (insert before x ys)
  unfolding insert
  insert-IsSorted x [] h = (tt, tt)
  insert-IsSorted x (y ∷ ys) h = elim (Bool-cases (before x y)) [
    | inl e ↦ rw (e, insert) ((e, All-map _ ys (λ z. order.trans x y z e) h.0), h)
    | inr e ↦
        rw (e, insert)
          (
            insert-All before (λ z. before y z ≡ true) x ys (turn x y e) h.0,
            insert-IsSorted x ys h.1,
          )
  ]

  pub sorted-IsSorted : (xs : List A) → IsSorted before (sorted before xs)
  unfolding sorted
  sorted-IsSorted [] = tt
  sorted-IsSorted (x ∷ xs) = insert-IsSorted x (sorted before xs) (sorted-IsSorted xs)
