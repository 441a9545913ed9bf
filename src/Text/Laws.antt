-- ===== src/Text/Laws.antt =====
-- The tests on texts decide equality and being a prefix.
use calrissian.Prelude.{◌≡◌, refl, true, [], ◌∷◌, ◌++◌, arith, length}
use calrissian.Text.{Text, eq_text, starts_with, drop}

pub eq_text→eq : (s t : Text) → eq_text s t ≡ true → s ≡ t
unfolding eq_text
eq_text→eq [] [] h = refl
eq_text→eq [] (_ ∷ _) h = cc
eq_text→eq (_ ∷ _) [] h = cc
eq_text→eq (c ∷ s) (d ∷ t) h = ground (arith, eq_text→eq s t)

pub eq_text_refl : (s : Text) → eq_text s s ≡ true
unfolding eq_text
eq_text_refl [] = refl
eq_text_refl (c ∷ s) = ground (arith, eq_text_refl s)

-- A prefix is found exactly where the text goes on from it.
pub starts_with→append : (s t : Text) → starts_with s t ≡ true → (rest : Text) × (t ≡ s ++ rest)
unfolding starts_with
starts_with→append [] t h = (t, refl)
starts_with→append (_ ∷ _) [] h = cc
starts_with→append (c ∷ s) (d ∷ t) h =
    let (rest, e) = starts_with→append s t (ground arith) in (rest, ground arith)

pub starts_with-append : (s rest : Text) → starts_with s (s ++ rest) ≡ true
unfolding starts_with
starts_with-append [] rest = refl
starts_with-append (c ∷ s) rest = ground (arith, starts_with-append s rest)

pub drop-append : (s rest : Text) → drop (length s) (s ++ rest) ≡ rest
unfolding drop
drop-append [] rest = refl
drop-append (c ∷ s) rest = drop-append s rest

pub starts_with_refl : (s : Text) → starts_with s s ≡ true
unfolding starts_with
starts_with_refl [] = refl
starts_with_refl (c ∷ s) = ground (arith, starts_with_refl s)
