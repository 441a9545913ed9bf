-- ===== src/Text/Suffix.antt =====
-- Reversed texts, and what is left of a text without its suffix.
use calrissian.Prelude.{
  ℕ, suc, ◌-◌, ◌≡◌, refl, sym, ap, ◌∙◌, true, false, [], ◌∷◌, ◌++◌, All, All-map, length, ◌==◌,
  arith,
}
use mathlib.Core.List.{append_assoc}
use calrissian.Text.{Text, starts_with, reverse, reverse_onto, remove_from, remove}
use calrissian.Text.Decimal.{is_digit, IsDecimal}
use calrissian.Text.Laws.{starts_with_refl}

reverse_onto-append :
    (out s t : Text) → reverse_onto out (s ++ t) ≡ reverse_onto (reverse_onto out s) t
reverse_onto-append out [] t = refl
reverse_onto-append out (c ∷ s) t = reverse_onto-append (c ∷ out) s t

reverse_onto_lem : (out t : Text) → reverse_onto out t ≡ reverse t ++ out
reverse_onto_lem out [] = refl
reverse_onto_lem out (c ∷ t) =
    reverse_onto_lem (c ∷ out) t
    ∙ sym (append_assoc (reverse t) (c ∷ []) out)
    ∙ ap (λ u. u ++ out) (sym (reverse_onto_lem (c ∷ []) t))

pub reverse-append : (s t : Text) → reverse (s ++ t) ≡ reverse t ++ reverse s
reverse-append s t = reverse_onto-append [] s t ∙ reverse_onto_lem (reverse s) t

-- What is removed from a text that ends with a suffix is the suffix, if its first character is not
-- in the rest.
skip_all : (s t : Text) → remove_from s (length t) t ≡ []
unfolding remove_from
skip_all s [] = refl
skip_all s (c ∷ t) = skip_all s t

-- A text in which a character does not occur.
abbrev pub Lacks : ℕ → Text → Type 0
Lacks h = All (λ c. (h == c) ≡ false)

pub remove_suffix : (h : ℕ) (s t : Text) → Lacks h t → remove (h ∷ s) (t ++ h ∷ s) ≡ t
unfolding remove remove_from starts_with
remove_suffix h s [] l =
    let found : starts_with (h ∷ s) (h ∷ s) ≡ true = starts_with_refl (h ∷ s) in
    let rest : suc (length s) - 1 ≡ length s = omega arith in rw (found, rest) (skip_all (h ∷ s) s)
remove_suffix h s (c ∷ t) l = rw l.0 (ap (λ u. c ∷ u) (remove_suffix h s t l.1))

pub IsDecimal-Lacks : (h : ℕ) (t : Text) → is_digit h ≡ false → IsDecimal t → Lacks h t
IsDecimal-Lacks h t e d = All-map _ t (λ c k. ground arith) d.digits

-- A suffix that does not end in a digit does not end a decimal number.
abbrev pub EndsInLetter : Text → Type 0
EndsInLetter s = (h : ℕ) × (r : Text) × (reverse s ≡ h ∷ r) × (is_digit h ≡ false)

abbrev pub EndsInDigit : Text → Type 0
EndsInDigit r = (c : ℕ) × (r' : Text) × (r ≡ c ∷ r') × (is_digit c ≡ true)

last_digit_onto :
    (c : ℕ) (out t : Text)
    → is_digit c ≡ true
    → All (λ c. is_digit c ≡ true) t
    → EndsInDigit (reverse_onto (c ∷ out) t)
last_digit_onto c out [] d h = (c, out, refl, d)
last_digit_onto c out (c' ∷ t) d h = last_digit_onto c' (c ∷ out) t h.0 h.1

pub last_digit : (t : Text) → IsDecimal t → EndsInDigit (reverse t)
last_digit [] d = absurd (d.filled refl)
last_digit (c ∷ t) d = last_digit_onto c [] t d.digits.0 d.digits.1
