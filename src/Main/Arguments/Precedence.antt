-- ===== src/Main/Arguments/Precedence.antt =====
-- Which of several values of an argument counts (calrissian/main.py).
use calrissian.Prelude.{
  ◌≡◌, refl, ◌⊎◌, ap, ◌∙◌, Bool, true, false, Bool-cases, ◌&&◌, inl, inr, Option, none, some, List,
}
use calrissian.Text.{Text, codes}
use calrissian.Text.Dict.{lookup, last_value, or_value, update, lookup-update}
use calrissian.Main.Arguments.{
  Value, Parser, Namespace, or_missing, parse_args, set_defaults, is_set, Home, home_defaults,
  conf_defaults, Parsed, exits_with_success, exits_with_failure, raised, parsed, checked,
  with_defaults, parse_arguments,
}

-- The value of the command line, else that of the file of `--conf`, else that of `default.json`, else
-- the parser's own default.
abbrev pub chosen : Parser → (conf home : List (Text × Value)) → Text → Value
chosen p conf home key = or_missing (
    or_value (last_value key p.given)
      (or_value (last_value key conf) (or_value (last_value key home) (lookup key p.defaults))))

-- The two files are read.
pub record AreRead (h : Home) (p : Parser) (conf home : List (Text × Value)) : Type 0 where
  pub home_read : home_defaults h ≡ some home
  pub conf_read : conf_defaults h p ≡ some conf

abbrev pub has : Parser → (conf home : List (Text × Value)) → Text → Bool
has p conf home key = is_set (chosen p conf home key)

abbrev pub has_totals : Parser → (conf home : List (Text × Value)) → Bool
has_totals p conf home = has p conf home (codes "max_ram") && has p conf home (codes "max_cores")

-- What each end of `parse_arguments` says.
abbrev pub Means : Parser → (conf home : List (Text × Value)) → Parsed → Type 0
Means p conf home exits_with_success = has p conf home (codes "version") ≡ true
Means p conf home exits_with_failure =
    (has p conf home (codes "version") ≡ false) × (has_totals p conf home ≡ false)
Means p conf home raised = ⊥
Means p conf home (parsed args) =
    (has p conf home (codes "version") ≡ false)
    × (has_totals p conf home ≡ true)
    × ((key : Text) → args key ≡ chosen p conf home key)

parse_args-chosen :
    (p : Parser) (conf home : List (Text × Value)) (key : Text)
    → parse_args (set_defaults conf (set_defaults home p)) key ≡ chosen p conf home key
unfolding parse_args set_defaults
parse_args-chosen p conf home key =
    ap (λ v. or_missing (or_value (last_value key p.given) v))
      (lookup-update key conf (update home p.defaults)
        ∙ ap (λ v. or_value (last_value key conf) v) (lookup-update key home p.defaults))

choose : (p : Parser) (conf home : List (Text × Value)) → Namespace
choose p conf home = parse_args (set_defaults conf (set_defaults home p))

checked-Means :
    (p : Parser) (conf home : List (Text × Value))
    → Means p conf home (checked (choose p conf home))
unfolding choose
checked-Means p conf home =
    let same = parse_args-chosen p conf home in
    elim (Bool-cases (has p conf home (codes "version"))) [
      | inl v ↦ rw (same (codes "version"), v, checked) v
      | inr v ↦ elim (Bool-cases (has_totals p conf home)) [
        | inl t ↦
            rw
              (
                same (codes "version"),
                v,
                same (codes "max_ram"),
                same (codes "max_cores"),
                t,
                checked,
              )
              (v, t, same)
        | inr t ↦
            rw
              (
                same (codes "version"),
                v,
                same (codes "max_ram"),
                same (codes "max_cores"),
                t,
                checked,
              )
              (v, t)
      ]
    ]

-- The files are read and the result is what they mean, or one cannot be read, which is raised.
abbrev pub Reads : Home → Parser → Parsed → Type 0
Reads h p result =
    ((conf : List (Text × Value)) × (home : List (Text × Value)) × AreRead h p conf home
      × Means p conf home result)
    ⊎ (((home_defaults h ≡ none) ⊎ (conf_defaults h p ≡ none)) × (result ≡ raised))

with_defaults-Reads :
    (h : Home) (p : Parser) (home conf : Option (List (Text × Value)))
    → home_defaults h ≡ home
    → conf_defaults h p ≡ conf
    → Reads h p (with_defaults p home conf)
unfolding choose
with_defaults-Reads h p none conf e f = inr (inl e, refl)
with_defaults-Reads h p (some home) none e f = inr (inr f, refl)
with_defaults-Reads h p (some home) (some conf) e f =
    inl (conf, home, record { home_read = e; conf_read = f }, checked-Means p conf home)

-- A value of the command line goes before one of the file of `--conf`, that before one of
-- `default.json`, and that before the parser's own default. By these values the process exits with
-- success where the version is asked for, else with a failure where the total of RAM or of cores is not
-- given, and else they are the arguments. A file that cannot be read is an exception, but
-- `default.json` may be missing.
pub parse_arguments-Reads : (h : Home) (p : Parser) → Reads h p (parse_arguments h p)
unfolding parse_arguments
parse_arguments-Reads h p = with_defaults-Reads h p (home_defaults h) (conf_defaults h p) refl refl
