-- ===== src/Strings.antt =====
-- More of the package `strings` than `Text` has: prefixes, searches and folding of case.
pub mod Laws
use mathlib.Core.Option
use mathlib.Core.List.{map, reverse}
use sovereign_vpn.Base.{
  ℕ, zero, suc, ◌+◌, ◌-◌, Bool, true, false, not, ◌&&◌, ◌||◌, Option, none, some, List, [], ◌∷◌,
  ◌++◌, ◌==◌, nat_eq, text_eq, if◌then◌else◌, ltb, leb, ℤ,
}
use sovereign_vpn.Text.{Text, text, is_space, format_uint}

-- What follows a prefix, if the text has it: `HasPrefix` with `TrimPrefix`.
unfoldable pub cut_prefix : Text → Text → Option Text
cut_prefix [] s = some s
cut_prefix (c ∷ p) [] = none
cut_prefix (c ∷ p) (d ∷ s) = let rest = cut_prefix p s in if c == d then rest else none

-- What stands before the first occurrence of `sep`, by `Index`
unfoldable pub before_text : Text → Text → Option Text
before_text sep [] = elim (cut_prefix sep []) [ some _ ↦ some [] | none ↦ none ]
before_text sep (c ∷ s) =
    let later = Option.map (◌∷◌ c) (before_text sep s) in
    elim (cut_prefix sep (c ∷ s)) [ some _ ↦ some [] | none ↦ later ]

abbrev pub lower_byte : ℕ → ℕ
lower_byte c = if leb b'A' c && leb c b'Z' then c + 32 else c

-- `ToLower` and `EqualFold` on ASCII
abbrev pub to_lower : Text → Text
to_lower s = map lower_byte s

abbrev pub equal_fold : Text → Text → Bool
equal_fold a b = to_lower a == to_lower b

-- `%d` of an int
unfoldable pub format_int : ℤ → Text
format_int (ℤ.pos n) = format_uint n
format_int (ℤ.negsuc n) = b'-' ∷ format_uint (suc n)

push_word : Text → List Text → List Text
push_word [] ws = ws
push_word (c ∷ w) ws = (c ∷ w) ∷ ws

-- The words of `s` after `word`, which is read in front of it.
fields_from : Text → Text → List Text
unfolding push_word
fields_from word [] = push_word word []
fields_from word (c ∷ s) =
    let next = push_word word (fields_from [] s) in
    let more = fields_from (word ++ c ∷ []) s in if is_space c then next else more

-- `strings.Fields`
unfoldable pub fields : Text → List Text
unfolding fields_from
fields s = fields_from [] s

-- The first `n` bytes, `s[:n]`
unfoldable pub take_bytes : ℕ → Text → Text
take_bytes zero s = []
take_bytes (suc n) [] = []
take_bytes (suc n) (c ∷ s) = c ∷ take_bytes n s

trim_left_byte : ℕ → Text → Text
trim_left_byte c [] = []
trim_left_byte c (d ∷ s) = let rest = trim_left_byte c s in if d == c then rest else d ∷ s

-- `strings.Trim` with a cut set of one byte
unfoldable pub trim_byte : ℕ → Text → Text
unfolding trim_left_byte
trim_byte c s = reverse (trim_left_byte c (reverse (trim_left_byte c s)))

abbrev pub trim_prefix : Text → Text → Text
trim_prefix p s = elim (cut_prefix p s) [ some rest ↦ rest | none ↦ s ]

-- What stands before a suffix, if the text has it.
unfoldable pub cut_suffix : Text → Text → Option Text
unfolding cut_prefix
cut_suffix p s = Option.map reverse (cut_prefix (reverse p) (reverse s))

abbrev pub trim_suffix : Text → Text → Text
trim_suffix p s = elim (cut_suffix p s) [ some rest ↦ rest | none ↦ s ]
