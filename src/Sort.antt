-- ===== src/Sort.antt =====
-- Python's `sorted`: a stable sort. `before x y` says that the key of `x` is not behind that of `y`;
-- under `reverse=True` it is the opposite order, and equal elements still keep their places.
pub mod Laws
use calrissian.Prelude.{Bool, List, [], ◌∷◌, if◌then◌else◌}

module _ {ℓ} {A : Type ℓ} (before : A → A → Bool) where
  unfoldable pub insert : A → List A → List A
  insert x [] = x ∷ []
  insert x (y ∷ ys) = if before x y then x ∷ y ∷ ys else y ∷ insert x ys

  unfoldable pub sorted : List A → List A
  unfolding insert
  sorted [] = []
  sorted (x ∷ xs) = insert x (sorted xs)
