-- ===== src/Text.antt =====
-- Text that the code takes apart, as the list of its code points.
pub mod Laws
pub mod Dict
pub mod Decimal
pub mod Suffix
use Prim.Native.Char.{code}
use Prim.Native.String.{String}
use calrissian.Prelude.{
  ℕ, zero, suc, ◌+◌, ◌-◌, Bool, true, false, ◌&&◌, List, [], ◌∷◌, ◌++◌, map, leb, length, ◌==◌,
  if◌then◌else◌,
}

abbrev pub Text : Type 0
Text = List ℕ

abbrev pub codes : String → Text
codes String.[] = []
codes (String.◌∷◌ c s) = code c ∷ codes s

-- `str.lower` of an ASCII letter; any other character stands for itself.
unfoldable pub lower_char : ℕ → ℕ
lower_char c = if leb b'A' c && leb c b'Z' then c + 32 else c

unfoldable pub lower : Text → Text
unfolding lower_char
lower = map lower_char

unfoldable pub eq_text : Text → Text → Bool
eq_text [] [] = true
eq_text [] (_ ∷ _) = false
eq_text (_ ∷ _) [] = false
eq_text (c ∷ s) (d ∷ t) = c == d && eq_text s t

-- `t.startswith(s)`, the prefix first.
unfoldable pub starts_with : Text → Text → Bool
starts_with [] t = true
starts_with (_ ∷ _) [] = false
starts_with (c ∷ s) (d ∷ t) = c == d && starts_with s t

-- `t[n:]`
unfoldable pub drop : ℕ → Text → Text
drop zero t = t
drop (suc n) [] = []
drop (suc n) (_ ∷ t) = drop n t

-- `sep.join(parts)`
unfoldable pub join : Text → List Text → Text
join sep [] = []
join sep (t ∷ []) = t
join sep (t ∷ u ∷ ts) = t ++ sep ++ join sep (u ∷ ts)

abbrev pub reverse_onto : Text → Text → Text
reverse_onto out [] = out
reverse_onto out (c ∷ t) = reverse_onto (c ∷ out) t

abbrev pub reverse : Text → Text
reverse t = reverse_onto [] t

-- `t.endswith(s)`, the suffix first.
unfoldable pub ends_with : Text → Text → Bool
unfolding starts_with
ends_with s t = starts_with (reverse s) (reverse t)

-- `t.replace(s, '')` for a text `s` that is not empty. The number is what is left to skip of the
-- occurrence that was found last.
unfoldable pub remove_from : Text → ℕ → Text → Text
unfolding starts_with
remove_from s skip [] = []
remove_from s (suc skip) (c ∷ t) = remove_from s skip t
remove_from s zero (c ∷ t) =
    let rest = remove_from s zero t in
    let skipped = remove_from s (length s - 1) t in
    if starts_with s (c ∷ t) then skipped else c ∷ rest

unfoldable pub remove : Text → Text → Text
unfolding remove_from
remove s t = remove_from s 0 t
