-- ===== src/Executor/Resources.antt =====
-- class Resources of calrissian/executor.py. Amounts are whole multiples of a unit, which may be as
-- small as it takes, as every Python number is. Python rounds the sum and the difference of floats, by a
-- function that is an argument here; negating, comparing and choosing do not round.
pub mod Order
use Prim.Native.String.{String}
use calrissian.Prelude.{
  Bool, ◌&&◌, ◌||◌, Option, none, some, List, [], ◌∷◌, ℤ, pos, ◌+ℤ◌, ◌-ℤ◌, neg_ℤ, ltb_ℤ, leb_ℤ,
  eqb_ℤ, min_ℤ,
}
use calrissian.Dict.{Dict, get_or}

-- The constants Resources.RAM, CORES and GPUS, by which a queue is ordered too.
abbrev pub ram_key : String
ram_key = "ram"

abbrev pub cores_key : String
cores_key = "cores"

abbrev pub gpus_key : String
gpus_key = "gpus"

pub record Resources : Type 0 where
  pub ram : ℤ
  pub cores : ℤ
  pub gpus : ℤ

unfoldable pub empty : Resources
empty = record { ram = pos 0; cores = pos 0; gpus = pos 0 }

unfoldable pub sub : Resources → Resources → Resources
sub a b = record { ram = a.ram -ℤ b.ram; cores = a.cores -ℤ b.cores; gpus = a.gpus -ℤ b.gpus }

unfoldable pub add : Resources → Resources → Resources
add a b = record { ram = a.ram +ℤ b.ram; cores = a.cores +ℤ b.cores; gpus = a.gpus +ℤ b.gpus }

-- The amounts as Python rounds them.
unfoldable pub rounded : (ℤ → ℤ) → Resources → Resources
rounded round a = record { ram = round a.ram; cores = round a.cores; gpus = round a.gpus }

unfoldable pub sub_rounded : (ℤ → ℤ) → Resources → Resources → Resources
unfolding rounded sub
sub_rounded round a b = rounded round (sub a b)

unfoldable pub add_rounded : (ℤ → ℤ) → Resources → Resources → Resources
unfolding rounded add
add_rounded round a b = rounded round (add a b)

unfoldable pub neg : Resources → Resources
neg a = record { ram = neg_ℤ a.ram; cores = neg_ℤ a.cores; gpus = neg_ℤ a.gpus }

unfoldable pub lt : Resources → Resources → Bool
lt a b = ltb_ℤ a.ram b.ram && ltb_ℤ a.cores b.cores && ltb_ℤ a.gpus b.gpus

unfoldable pub gt : Resources → Resources → Bool
gt a b = ltb_ℤ b.ram a.ram && ltb_ℤ b.cores a.cores && ltb_ℤ b.gpus a.gpus

unfoldable pub eq : Resources → Resources → Bool
eq a b = eqb_ℤ a.ram b.ram && eqb_ℤ a.cores b.cores && eqb_ℤ a.gpus b.gpus

unfoldable pub ge : Resources → Resources → Bool
ge a b = leb_ℤ b.ram a.ram && leb_ℤ b.cores a.cores && leb_ℤ b.gpus a.gpus

unfoldable pub le : Resources → Resources → Bool
le a b = leb_ℤ a.ram b.ram && leb_ℤ a.cores b.cores && leb_ℤ a.gpus b.gpus

unfoldable pub is_negative : Resources → Bool
is_negative a = ltb_ℤ a.ram (pos 0) || ltb_ℤ a.cores (pos 0) || ltb_ℤ a.gpus (pos 0)

unfoldable pub exceeds : Resources → Resources → Bool
exceeds a b = ltb_ℤ b.ram a.ram || ltb_ℤ b.cores a.cores || ltb_ℤ b.gpus a.gpus

unfoldable pub to_dict : Resources → Dict ℤ
to_dict a = (cores_key, a.cores) ∷ (ram_key, a.ram) ∷ (gpus_key, a.gpus) ∷ []

unfoldable pub from_dict : Dict ℤ → Resources
from_dict d = record {
  ram = get_or ram_key (pos 0) d;
  cores = get_or cores_key (pos 0) d;
  gpus = get_or gpus_key (pos 0) d;
}

unfoldable pub min : Resources → Resources → Resources
min a b = record {
  ram = min_ℤ a.ram b.ram;
  cores = min_ℤ a.cores b.cores;
  gpus = min_ℤ a.gpus b.gpus;
}
