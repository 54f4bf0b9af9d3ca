-- ===== src/Text.antt =====
-- Go strings as lists of bytes, with what the gateway uses of `strings` and `strconv`.
pub mod Laws
use mathlib.Core.List.{reverse}
use mathlib.Core.Option
use Prim.Native.Char.{code}
use Prim.Native.String.{String}
use sovereign_vpn.Base.{
  ℕ, zero, suc, ◌+◌, ◌-◌, ◌*◌, ◌/◌, ◌%◌, ◌^◌, Bool, true, false, ◌&&◌, ◌||◌, Option, none, some,
  List, [], ◌∷◌, ◌++◌, ◌==◌, nat_eq, if◌then◌else◌, ltb, leb, ℤ, length,
}

abbrev pub Text : Type 0
Text = List ℕ

-- The code points of a literal: its bytes, since every literal here is ASCII.
abbrev pub text : String → Text
text String.[] = []
text (String.◌∷◌ c s) = code c ∷ text s

abbrev pub is_empty : Text → Bool
is_empty [] = true
is_empty (_ ∷ _) = false

push_head : ℕ → List Text → List Text
push_head x [] = (x ∷ []) ∷ []
push_head x (w ∷ ws) = (x ∷ w) ∷ ws

-- `strings.Split` by a separator of one byte
unfoldable pub split : ℕ → Text → List Text
unfolding push_head
split sep [] = [] ∷ []
split sep (x ∷ s) = let rest = split sep s in if x == sep then [] ∷ rest else push_head x rest

-- `strings.Join` with a separator of one byte
unfoldable pub join : ℕ → List Text → Text
join sep [] = []
join sep (w ∷ []) = w
join sep (w ∷ v ∷ ws) = w ++ sep ∷ join sep (v ∷ ws)

-- Decimal digits of `n` in front of `rest`; `n + 1` rounds are enough.
unfoldable pub digits : ℕ → ℕ → Text → Text
digits zero n rest = rest
digits (suc f) n rest =
    let more = digits f (n / 10) ((48 + n % 10) ∷ rest) in
    if ltb n 10 then (48 + n) ∷ rest else more

-- `strconv.FormatUint(n, 10)`, and `FormatInt` of a number that is not negative
unfoldable pub format_uint : ℕ → Text
unfolding digits
format_uint n = digits (suc n) n []

unfoldable pub read_digits : ℕ → Text → Option ℕ
read_digits acc [] = some acc
read_digits acc (c ∷ s) =
    let rest = read_digits (acc * 10 + (c - 48)) s in if leb 48 c && leb c 57 then rest else none

-- `strconv.ParseUint(s, 10, 64)`: an empty text, a byte that is no digit and a value over 64 bits
-- are all errors.
in_range : ℕ → Option ℕ → Option ℕ
in_range bound none = none
in_range bound (some n) = if ltb n bound then some n else none

unfoldable pub parse_uint : Text → Option ℕ
unfolding read_digits in_range
parse_uint [] = none
parse_uint (c ∷ s) = in_range (2 ^ 64) (read_digits 0 (c ∷ s))

as_pos : Option ℕ → Option ℤ
as_pos none = none
as_pos (some n) = some (ℤ.pos n)

as_neg : Option ℕ → Option ℤ
as_neg none = none
as_neg (some zero) = some (ℤ.pos 0)
as_neg (some (suc n)) = some (ℤ.negsuc n)

parse_unsigned : ℕ → Text → Option ℕ
unfolding read_digits in_range
parse_unsigned bound [] = none
parse_unsigned bound (c ∷ s) = in_range bound (read_digits 0 (c ∷ s))

-- `strconv.ParseInt(s, 10, 64)`: an optional sign, digits, and the range of an int64
unfoldable pub parse_int : Text → Option ℤ
unfolding parse_unsigned as_pos as_neg
parse_int [] = none
parse_int (c ∷ s) =
    if c == b'-'
    then as_neg (parse_unsigned (2 ^ 63 + 1) s)
    else if c == b'+'
    then as_pos (parse_unsigned (2 ^ 63) s)
    else as_pos (parse_unsigned (2 ^ 63) (c ∷ s))

-- ASCII white space; the spaces of Unicode beyond it are not modelled.
abbrev pub is_space : ℕ → Bool
is_space c = c == 32 || (leb 9 c && leb c 13)

trim_left : Text → Text
trim_left [] = []
trim_left (c ∷ s) = let rest = trim_left s in if is_space c then rest else c ∷ s

-- `strings.TrimSpace`
unfoldable pub trim_space : Text → Text
unfolding trim_left
trim_space s = reverse (trim_left (reverse (trim_left s)))

-- What stands before the first byte `sep`, if there is one.
unfoldable pub before_byte : ℕ → Text → Option Text
before_byte sep [] = none
before_byte sep (c ∷ s) =
    let rest = Option.map (◌∷◌ c) (before_byte sep s) in if c == sep then some [] else rest
