-- ===== src/Report/Parser/RoundTrip.antt =====
-- An amount that is printed with a suffix is parsed to what the suffix means (calrissian/report.py).
use calrissian.Prelude.{
  ℕ, ◌^◌, ◌≡◌, refl, sym, subst, ap, ◌∙◌, true, false, Bool-cases, inl, inr, Option, none, some,
  List, [], ◌∷◌, ◌++◌, All, ◌==◌, arith, if◌then◌else◌,
}
use mathlib.Core.Option.{some-injective}
use calrissian.Text.{
  Text, codes, starts_with, reverse, reverse_onto, ends_with, remove_from, remove,
}
use calrissian.Text.Decimal.{is_digit, IsDecimal, value, str, str-IsDecimal, value-str}
use calrissian.Text.Suffix.{
  reverse-append, remove_suffix, IsDecimal-Lacks, EndsInLetter, last_digit,
}
use calrissian.Job.Pod.Resources.{resource_value}
use calrissian.Report.Parser.{
  Floats, Suffixes, times, parse, memory_suffixes, cpu_suffixes, mega, in_megabytes,
  parse_to_megabytes, parse_cpu,
}

-- `float` reads decimal digits.
abbrev pub ReadsDecimals : Floats → Type 0
ReadsDecimals fl = (t : Text) → IsDecimal t → fl.float t ≡ some (fl.of_nat (value t))

-- The suffixes of a quantity of memory, by the powers that they stand for.
abbrev pub quantities : List (Text × ℕ)
quantities =
    (codes "E", 1000 ^ 6)
    ∷ (codes "P", 1000 ^ 5)
    ∷ (codes "T", 1000 ^ 4)
    ∷ (codes "G", 1000 ^ 3)
    ∷ (codes "M", 1000 ^ 2)
    ∷ (codes "K", 1000 ^ 1)
    ∷ (codes "Ei", 1024 ^ 6)
    ∷ (codes "Pi", 1024 ^ 5)
    ∷ (codes "Ti", 1024 ^ 4)
    ∷ (codes "Gi", 1024 ^ 3)
    ∷ (codes "Mi", 1024 ^ 2)
    ∷ (codes "Ki", 1024 ^ 1)
    ∷ []

module _ (fl : Floats) where
  -- The first entry whose suffix ends a text, given the text from its end.
  abbrev find : Suffixes fl → Text → Option (Text × fl.Float)
  find [] r = none
  find (e ∷ table) r = if starts_with (reverse e.0) r then some e else find table r

  parse-hit :
      (table : Suffixes fl) (t : Text) (h : ℕ) (s : Text) (factor : fl.Float)
      → IsDecimal t
      → is_digit h ≡ false
      → ReadsDecimals fl
      → find table (reverse (t ++ h ∷ s)) ≡ some (h ∷ s, factor)
      → parse fl table (t ++ h ∷ s) ≡ some (fl.mul (fl.of_nat (value t)) factor)
  unfolding parse ends_with
  parse-hit [] t h s factor d e reads found = cc
  parse-hit ((s', f) ∷ table) t h s factor d e reads found =
      elim (Bool-cases (starts_with (reverse s') (reverse (t ++ h ∷ s)))) [
        | inl fits ↦
            let want : Text × fl.Float = (h ∷ s, factor) in
            let have : Text × fl.Float = (s', f) in
            let same : have ≡ want = some-injective have want (rw fits at found) in
            let done : times fl factor (fl.float (remove (h ∷ s) (t ++ h ∷ s)))
                ≡ some (fl.mul (fl.of_nat (value t)) factor) =
              rw (remove_suffix h s t (IsDecimal-Lacks h t e d), reads t d) refl in
            rw fits (
              subst
                (λ e.
                  times fl e.1 (fl.float (remove e.0 (t ++ h ∷ s)))
                  ≡ some (fl.mul (fl.of_nat (value t)) factor))
                (sym same) done)
        | inr other ↦ rw other (parse-hit table t h s factor d e reads (rw other at found))
      ]

  parse-miss :
      (table : Suffixes fl) (t : Text)
      → find table (reverse t) ≡ none
      → parse fl table t ≡ fl.float t
  unfolding parse ends_with
  parse-miss [] t found = refl
  parse-miss ((s', f) ∷ table) t found = elim (Bool-cases (starts_with (reverse s') (reverse t))) [
    | inl fits ↦ cc (rw fits at found)
    | inr other ↦ rw other (parse-miss table t (rw other at found))
  ]

  find_digits :
      (table : Suffixes fl) (c : ℕ) (r : Text)
      → is_digit c ≡ true
      → All (λ e. EndsInLetter e.0) table
      → find table (c ∷ r) ≡ none
  unfolding starts_with
  find_digits [] c r d h = refl
  find_digits (e ∷ table) c r d ((h, r', ends, letter), more) =
      let differ : (h == c) ≡ false = ground arith in
      rw (ends, differ) (find_digits table c r d more)

  parse_plain :
      (table : Suffixes fl) (t : Text)
      → ReadsDecimals fl
      → IsDecimal t
      → All (λ e. EndsInLetter e.0) table
      → parse fl table t ≡ some (fl.of_nat (value t))
  parse_plain table t reads d letters =
      let (c, r, ends, digit) = last_digit t d in
      parse-miss table t (rw ends (find_digits table c r digit letters)) ∙ reads t d

  -- Digits with a suffix are parsed as so many times a factor.
  abbrev pub Parses : Suffixes fl → Text → Text × ℕ → Type 0
  Parses table t (suffix, factor) =
      parse fl table (t ++ suffix) ≡ some (fl.mul (fl.of_nat (value t)) (fl.of_nat factor))

  hit :
      (table : Suffixes fl) (t : Text)
      → ReadsDecimals fl
      → IsDecimal t
      → (h : ℕ) (s : Text) (f : fl.Float) → is_digit h ≡ false
      → find table (reverse (h ∷ s) ++ reverse t) ≡ some (h ∷ s, f)
      → parse fl table (t ++ h ∷ s) ≡ some (fl.mul (fl.of_nat (value t)) f)
  hit table t reads d h s f e k =
      parse-hit table t h s f d e reads (rw (reverse-append t (h ∷ s)) k)

  memory_letters : All (λ e. EndsInLetter e.0) (memory_suffixes fl)
  memory_letters = (
    (b'E', [], refl, refl),
    (
      (b'P', [], refl, refl),
      (
        (b'T', [], refl, refl),
        (
          (b'G', [], refl, refl),
          (
            (b'M', [], refl, refl),
            (
              (b'K', [], refl, refl),
              (
                (b'i', codes "E", refl, refl),
                (
                  (b'i', codes "P", refl, refl),
                  (
                    (b'i', codes "T", refl, refl),
                    (
                      (b'i', codes "G", refl, refl),
                      ((b'i', codes "M", refl, refl), ((b'i', codes "K", refl, refl), tt)),
                    ),
                  ),
                ),
              ),
            ),
          ),
        ),
      ),
    ),
  )

  -- Decimal digits are parsed as the number of bytes, and with a suffix as that number times what
  -- the suffix stands for: K, M, G, T, P and E for the powers of 1000, and Ki, Mi, Gi, Ti, Pi and
  -- Ei for those of 1024. That holds where float reads decimal digits.
  pub parse_memory-suffixes :
      (t : Text)
      → ReadsDecimals fl
      → IsDecimal t
      → (parse fl (memory_suffixes fl) t ≡ some (fl.of_nat (value t)))
        × All (Parses (memory_suffixes fl) t) quantities
  unfolding starts_with
  parse_memory-suffixes t reads d =
      let at = hit (memory_suffixes fl) t reads d in
      (
        parse_plain (memory_suffixes fl) t reads d memory_letters,
        (
          at b'E' [] _ refl refl,
          (
            at b'P' [] _ refl refl,
            (
              at b'T' [] _ refl refl,
              (
                at b'G' [] _ refl refl,
                (
                  at b'M' [] _ refl refl,
                  (
                    at b'K' [] _ refl refl,
                    (
                      at b'E' (codes "i") _ refl refl,
                      (
                        at b'P' (codes "i") _ refl refl,
                        (
                          at b'T' (codes "i") _ refl refl,
                          (
                            at b'G' (codes "i") _ refl refl,
                            (
                              at b'M' (codes "i") _ refl refl,
                              (at b'K' (codes "i") _ refl refl, tt),
                            ),
                          ),
                        ),
                      ),
                    ),
                  ),
                ),
              ),
            ),
          ),
        ),
      )

  -- A CPU quantity in decimal digits is parsed as that number, and with an m as so many thousandths.
  pub parse_cpu-suffixes :
      (t : Text)
      → ReadsDecimals fl
      → IsDecimal t
      → (parse_cpu fl t ≡ some (fl.of_nat (value t)))
        × (parse_cpu fl (t ++ codes "m") ≡ some (fl.mul (fl.of_nat (value t)) fl.milli))
  unfolding starts_with parse_cpu
  parse_cpu-suffixes t reads d = (
    parse_plain (cpu_suffixes fl) t reads d ((b'm', [], refl, refl), tt),
    hit (cpu_suffixes fl) t reads d b'm' [] fl.milli refl refl,
  )

  -- What the pod builder writes for the memory and the cores that a job asks for, the parsers
  -- read: n mebibytes are reported as n * 2 ^ 20 / 10 ^ 6 megabytes, and n cores as n, where float
  -- reads decimal digits.
  pub parse_to_megabytes-resource_value :
      (n : ℕ)
      → ReadsDecimals fl
      → ((w : Text) × (resource_value (some (codes "memory")) (str n) ≡ some w)
          × (parse_to_megabytes fl w
              ≡ some (fl.div (fl.mul (fl.of_nat n) (fl.of_nat (2 ^ 20))) (mega fl))))
        × (w : Text) × (resource_value (some (codes "cpu")) (str n) ≡ some w)
        × (parse_cpu fl w ≡ some (fl.of_nat n))
  unfolding resource_value calrissian.Text.eq_text starts_with parse_to_megabytes
  parse_to_megabytes-resource_value n reads =
      let t = str n in
      let d = str-IsDecimal n in
      let same : value t ≡ n = value-str n in
      (
        (
          t ++ codes "Mi",
          refl,
          ap (in_megabytes fl) (hit (memory_suffixes fl) t reads d b'M' (codes "i") _ refl refl)
              ∙ ap (λ m. some (fl.div (fl.mul (fl.of_nat m) (fl.of_nat (2 ^ 20))) (mega fl))) same,
        ),
        t,
        refl,
        (parse_cpu-suffixes t reads d).0 ∙ ap (λ m. some (fl.of_nat m)) same,
      )
