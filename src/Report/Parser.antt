-- ===== src/Report/Parser.antt =====
-- ResourceParser, MemoryParser and CPUParser (calrissian/report.py). Python's floats are an argument:
-- a type with the operations that the parsers use.
pub mod RoundTrip
mod Tests
use calrissian.Prelude.{ℕ, ◌^◌, ◌*◌, Option, none, some, List, [], ◌∷◌, if◌then◌else◌}
use calrissian.Text.{Text, codes, ends_with, remove}

-- `float` of a text raises (`none`) where the text is no number. `milli` is the literal 0.001.
pub record Floats : Type 1 where
  pub Float : Type 0
  pub float : Text → Option Float
  pub of_nat : ℕ → Float
  pub milli : Float
  pub mul : Float → Float → Float
  pub div : Float → Float → Float

module _ (fl : Floats) where
  abbrev pub Suffixes : Type 0
  Suffixes = List (Text × fl.Float)

  abbrev pub times : fl.Float → Option fl.Float → Option fl.Float
  times factor none = none
  times factor (some x) = some (fl.mul x factor)

  -- The first suffix that fits decides, and a ValueError ends the loop.
  unfoldable pub parse : Suffixes → Text → Option fl.Float
  unfolding ends_with remove
  parse [] value = fl.float value
  parse ((suffix, factor) ∷ suffixes) value =
      if ends_with suffix value
      then times factor (fl.float (remove suffix value))
      else parse suffixes value

  abbrev pub mega : fl.Float
  mega = fl.of_nat (10 ^ 6)

  abbrev pub memory_suffixes : Suffixes
  memory_suffixes =
      (codes "E", fl.of_nat (10 ^ 18))
      ∷ (codes "P", fl.of_nat (10 ^ 15))
      ∷ (codes "T", fl.of_nat (10 ^ 12))
      ∷ (codes "G", fl.of_nat (10 ^ 9))
      ∷ (codes "M", mega)
      ∷ (codes "K", fl.of_nat (10 ^ 3))
      ∷ (codes "Ei", fl.of_nat (2 ^ 60))
      ∷ (codes "Pi", fl.of_nat (2 ^ 50))
      ∷ (codes "Ti", fl.of_nat (2 ^ 40))
      ∷ (codes "Gi", fl.of_nat (2 ^ 30))
      ∷ (codes "Mi", fl.of_nat (2 ^ 20))
      ∷ (codes "Ki", fl.of_nat (2 ^ 10))
      ∷ []

  abbrev pub in_megabytes : Option fl.Float → Option fl.Float
  in_megabytes none = none
  in_megabytes (some x) = some (fl.div x mega)

  unfoldable pub parse_to_megabytes : Text → Option fl.Float
  unfolding parse
  parse_to_megabytes value = in_megabytes (parse memory_suffixes value)

  abbrev pub cpu_suffixes : Suffixes
  cpu_suffixes = (codes "m", fl.milli) ∷ []

  unfoldable pub parse_cpu : Text → Option fl.Float
  unfolding parse
  parse_cpu value = parse cpu_suffixes value
