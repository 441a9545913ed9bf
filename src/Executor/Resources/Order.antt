-- ===== src/Executor/Resources/Order.antt =====
-- The comparisons of Resources decide the componentwise order, and sums and differences respect it.
use native.Mathlib.Bridge.{le_prop}
use calrissian.Prelude.{
  ◌+◌, pos_part, neg_part, ◌≡◌, ◌↔◌, true, false, ℤ, pos, ◌+ℤ◌, ◌-ℤ◌, ◌≤ℤ◌, int_laws, arith,
}
use calrissian.Executor.Resources.{
  Resources, empty, sub, add, neg, rounded, sub_rounded, add_rounded, ge, le, is_negative, exceeds,
}

-- Each amount of `a` is at most that of `b`.
pub record Within (a b : Resources) : Type 0 where
  pub ram : a.ram ≤ℤ b.ram
  pub cores : a.cores ≤ℤ b.cores
  pub gpus : a.gpus ≤ℤ b.gpus

abbrev pub IsNonnegative : Resources → Type 0
IsNonnegative a = Within (record { ram = pos 0; cores = pos 0; gpus = pos 0 }) a

-- Python does not round between `- total` and `total`: so it is for integers, and for floats that are
-- whole numbers up to 2 ^ 53.
abbrev pub IsExact : Resources → (ℤ → ℤ) → Type 0
IsExact total round = (a : Resources) → Within (neg total) a → Within a total → rounded round a ≡ a

pub le_iff : (a b : Resources) → (le a b ≡ true) ↔ Within a b
unfolding le
le_iff a b = ground arith

pub ge_iff : (a b : Resources) → (ge a b ≡ true) ↔ Within b a
unfolding ge
ge_iff a b = ground arith

pub exceeds_iff : (a b : Resources) → (exceeds a b ≡ false) ↔ Within a b
unfolding exceeds
exceeds_iff a b = ground arith

pub is_negative_iff : (a : Resources) → (is_negative a ≡ false) ↔ IsNonnegative a
unfolding is_negative
is_negative_iff a = ground arith

pub ge-sub_iff : (a b : Resources) → (ge (sub a b) empty ≡ true) ↔ Within b a
unfolding sub empty ge
ge-sub_iff a b = grind int_laws

pub Within-trans : (a b c : Resources) → Within a b → Within b c → Within a c
Within-trans a b c h k = omega arith

pub Within-refl : (a : Resources) → Within a a
Within-refl a = omega arith

pub sub-Within : (a b : Resources) → IsNonnegative b → Within (sub a b) a
unfolding sub
sub-Within a b h = omega int_laws

pub sub-IsNonnegative : (a b : Resources) → Within b a → IsNonnegative (sub a b)
unfolding sub
sub-IsNonnegative a b h = omega int_laws

pub add-Within :
    (limit a b : Resources) → Within a limit → Within b (sub limit a) → Within (add a b) limit
unfolding add sub
add-Within limit a b h k = omega int_laws

pub add-IsNonnegative :
    (a b : Resources) → IsNonnegative a → IsNonnegative b → IsNonnegative (add a b)
unfolding add
add-IsNonnegative a b h k = omega int_laws

pub empty-IsNonnegative : IsNonnegative empty
unfolding empty
empty-IsNonnegative = omega arith

pub sub-empty : (a : Resources) → sub a empty ≡ a
unfolding sub empty
sub-empty a = grind int_laws

sub_add_ℤ : (a b c : ℤ) → a -ℤ (b +ℤ c) ≡ a -ℤ b -ℤ c
sub_add_ℤ a b c = omega int_laws

pub sub-add : (a b c : Resources) → sub a (add b c) ≡ sub (sub a b) c
unfolding sub add
sub-add a b c = λ i. record {
  ram = sub_add_ℤ a.ram b.ram c.ram i;
  cores = sub_add_ℤ a.cores b.cores c.cores i;
  gpus = sub_add_ℤ a.gpus b.gpus c.gpus i;
}

pub Within-prop : (a b : Resources) → IsProp (Within a b)
Within-prop a b = hlevel le_prop

-- a + b = c, each amount for itself, over the parts of the integers.
abbrev pub SumsTo : ℤ → ℤ → ℤ → Type 0
SumsTo a b c = pos_part a + pos_part b + neg_part c ≡ neg_part a + neg_part b + pos_part c

pub record IsSum (a b c : Resources) : Type 0 where
  pub ram : SumsTo a.ram b.ram c.ram
  pub cores : SumsTo a.cores b.cores c.cores
  pub gpus : SumsTo a.gpus b.gpus c.gpus

pub add-IsSum : (a b : Resources) → IsSum a b (add a b)
unfolding add
add-IsSum a b = omega int_laws

pub IsSum-nonneg : (a b c : Resources) → IsSum a b c → IsNonnegative b → Within a c
IsSum-nonneg a b c h k = omega arith

sub-IsBetween :
    (total a b : Resources)
    → IsNonnegative a
    → Within a total
    → IsNonnegative b
    → Within b total
    → Within (neg total) (sub a b) × Within (sub a b) total
unfolding neg sub
sub-IsBetween total a b h k l m = (omega int_laws, omega int_laws)

pub sub_rounded-exact :
    (total : Resources) (round : ℤ → ℤ) (a b : Resources)
    → IsExact total round
    → IsNonnegative a
    → Within a total
    → IsNonnegative b
    → Within b total
    → sub_rounded round a b ≡ sub a b
unfolding sub_rounded
sub_rounded-exact total round a b exact h k l m =
    let (low, high) = sub-IsBetween total a b h k l m in exact (sub a b) low high

neg-Within : (total a : Resources) → IsNonnegative a → Within a total → Within (neg total) a
unfolding neg
neg-Within total a h k = omega int_laws

pub add_rounded-exact :
    (total : Resources) (round : ℤ → ℤ) (a b : Resources)
    → IsExact total round
    → IsNonnegative (add a b)
    → Within (add a b) total
    → add_rounded round a b ≡ add a b
unfolding add_rounded
add_rounded-exact total round a b exact h k = exact (add a b) (neg-Within total (add a b) h k) k
