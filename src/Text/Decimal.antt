-- ===== src/Text/Decimal.antt =====
-- `str` of a number: its decimal digits, and what they stand for.
use calrissian.Prelude.{
  ℕ, zero, suc, ◌+◌, ◌*◌, ◌/◌, ◌%◌, ◌-◌, ◌<◌, ◌≡◌, ◌≢◌, ap, ◌∙◌, Bool, true, ◌&&◌, Bool-cases, inl,
  inr, [], ◌∷◌, All, ltb, leb, arith, if◌then◌else◌,
}
use calrissian.Text.{Text}

abbrev pub is_digit : ℕ → Bool
is_digit c = leb b'0' c && leb c b'9'

-- One or more decimal digits.
pub record IsDecimal (t : Text) : Type 0 where
  pub filled : t ≢ []
  pub digits : All (λ c. is_digit c ≡ true) t

abbrev pub value_onto : ℕ → Text → ℕ
value_onto n [] = n
value_onto n (c ∷ t) = value_onto (n * 10 + (c - b'0')) t

abbrev pub value : Text → ℕ
value t = value_onto 0 t

-- The digits in front of `out`. A fuel above the number is enough.
unfoldable pub digits_onto : ℕ → ℕ → Text → Text
digits_onto zero n out = out
digits_onto (suc fuel) n out =
    let rest = digits_onto fuel (n / 10) ((b'0' + n % 10) ∷ out) in
    if ltb n 10 then (b'0' + n) ∷ out else rest

unfoldable pub str : ℕ → Text
unfolding digits_onto
str n = digits_onto (suc n) n []

value_onto-digits_onto :
    (fuel n : ℕ) (out : Text) → n < fuel → value_onto 0 (digits_onto fuel n out) ≡ value_onto n out
unfolding digits_onto
value_onto-digits_onto zero n out h = absurd (omega (arith, h))
value_onto-digits_onto (suc fuel) n out h = elim (Bool-cases (ltb n 10)) [
  | inl e ↦
      let same : 0 * 10 + (b'0' + n - b'0') ≡ n = omega arith in
      rw e (ap (λ m. value_onto m out) same)
  | inr e ↦
      let less : n / 10 < fuel = ground arith in
      let same : n / 10 * 10 + (b'0' + n % 10 - b'0') ≡ n = omega arith in
      rw e (
        value_onto-digits_onto fuel (n / 10) ((b'0' + n % 10) ∷ out) less
        ∙ ap (λ m. value_onto m out) same)
]

digits_onto-digits :
    (fuel n : ℕ) (out : Text)
    → All (λ c. is_digit c ≡ true) out
    → All (λ c. is_digit c ≡ true) (digits_onto fuel n out)
unfolding digits_onto
digits_onto-digits zero n out h = h
digits_onto-digits (suc fuel) n out h = elim (Bool-cases (ltb n 10)) [
  | inl e ↦ let digit : is_digit (b'0' + n) ≡ true = ground arith in rw e (digit, h)
  | inr e ↦
      let digit : is_digit (b'0' + n % 10) ≡ true = ground arith in
      rw e (digits_onto-digits fuel (n / 10) ((b'0' + n % 10) ∷ out) (digit, h))
]

digits_onto_filled : (fuel n : ℕ) (out : Text) → n < fuel → digits_onto fuel n out ≢ []
unfolding digits_onto
digits_onto_filled zero n out h = absurd (omega (arith, h))
digits_onto_filled (suc fuel) n out h = elim (Bool-cases (ltb n 10)) [
  | inl e ↦ rw e (λ f. cc)
  | inr e ↦
      let less : n / 10 < fuel = ground arith in
      rw e (digits_onto_filled fuel (n / 10) ((b'0' + n % 10) ∷ out) less)
]

pub str-IsDecimal : (n : ℕ) → IsDecimal (str n)
unfolding str
str-IsDecimal n = record {
  filled = digits_onto_filled (suc n) n [] (omega arith);
  digits = digits_onto-digits (suc n) n [] tt;
}

pub value-str : (n : ℕ) → value (str n) ≡ n
unfolding str
value-str n = value_onto-digits_onto (suc n) n [] (omega arith)
