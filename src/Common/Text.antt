-- ===== src/Common/Text.antt =====
-- Text as the list of its code points, and what the program uses of `str`.
use midgard_rs.Common.Tests.{leb, ltb, ◌==◌, if◌then◌else◌}
use midgard_rs.Common.Int.{ℤ, pos, neg_ℤ}
use Prim.Native.Nat.{ℕ, ◌+◌, ◌-◌, ◌*◌, ◌^◌}
use Prim.Native.Char.{code}
use Prim.Native.String.{String}
use mathlib.Core.Path.{◌≡◌, refl}
use mathlib.Core.Logic.{◌↔◌}
use mathlib.Core.Bool.{Bool, true, false, ◌&&◌, ◌||◌}
use mathlib.Core.Option.{Option, none, some}
use mathlib.Core.List.{List, [], ◌∷◌, map, reverse}
use native.Mathlib.Omega.{arith}

abbrev pub Text : Type 0
Text = List ℕ

-- A literal of the source.
abbrev pub codes : String → Text
codes String.[] = []
codes (String.◌∷◌ c s) = code c ∷ codes s

unfoldable pub text_eq : Text → Text → Bool
text_eq [] [] = true
text_eq [] (d ∷ t) = false
text_eq (c ∷ s) [] = false
text_eq (c ∷ s) (d ∷ t) = c == d && text_eq s t

pub text_eq_iff : (s t : Text) → (text_eq s t ≡ true) ↔ (s ≡ t)
unfolding text_eq
text_eq_iff [] [] = (λ _. refl, λ _. refl)
text_eq_iff [] (d ∷ t) = (λ e. cc, λ e. cc)
text_eq_iff (c ∷ s) [] = (λ e. cc, λ e. cc)
text_eq_iff (c ∷ s) (d ∷ t) = ground (arith, text_eq_iff s t)

-- `[…].contains(&s)`
unfoldable pub one_of : Text → List Text → Bool
unfolding text_eq
one_of s [] = false
one_of s (t ∷ ts) = text_eq s t || one_of s ts

unfoldable pub to_ascii_uppercase : Text → Text
to_ascii_uppercase s = map (λ c. if leb b'a' c && leb c b'z' then c - 32 else c) s

unfoldable pub to_ascii_lowercase : Text → Text
to_ascii_lowercase s = map (λ c. if leb b'A' c && leb c b'Z' then c + 32 else c) s

unfoldable pub starts_with : Text → Text → Bool
starts_with s [] = true
starts_with [] (d ∷ p) = false
starts_with (c ∷ s) (d ∷ p) = c == d && starts_with s p

-- `s.contains(c)` for a character.
unfoldable pub contains : ℕ → Text → Bool
contains c [] = false
contains c (d ∷ s) = c == d || contains c s

-- `s.split_once(test)`: the parts before and after the first character that passes.
unfoldable pub split_once : (ℕ → Bool) → Text → Option (Text × Text)
split_once test [] = none
split_once test (c ∷ s) =
    if test c
    then some ([], s)
    else elim (split_once test s) [ none ↦ none | some (a, b) ↦ some (c ∷ a, b) ]

-- `s.replacen(test, with, 1)` for a character.
unfoldable pub replace_first : (ℕ → Bool) → ℕ → Text → Text
replace_first test d [] = []
replace_first test d (c ∷ s) = if test c then d ∷ s else c ∷ replace_first test d s

-- `s.split(c)`: one part more than there are separators.
unfoldable pub split : ℕ → Text → List Text
split sep [] = [] ∷ []
split sep (c ∷ s) = elim (split sep s) [
  | [] ↦ (c ∷ []) ∷ []
  | part ∷ parts ↦ if c == sep then [] ∷ part ∷ parts else (c ∷ part) ∷ parts
]

-- The characters with the property White_Space.
unfoldable pub is_whitespace : ℕ → Bool
is_whitespace c =
    (leb 9 c && leb c 13)
    || c == 32
    || c == 0x85
    || c == 0xa0
    || c == 0x1680
    || (leb 0x2000 c && leb c 0x200a)
    || c == 0x2028
    || c == 0x2029
    || c == 0x202f
    || c == 0x205f
    || c == 0x3000

unfoldable pub trim_start : Text → Text
unfolding is_whitespace
trim_start [] = []
trim_start (c ∷ s) = let rest = trim_start s in if is_whitespace c then rest else c ∷ s

unfoldable pub trim : Text → Text
unfolding trim_start
trim s = reverse (trim_start (reverse (trim_start s)))

unfoldable pub is_digit : ℕ → Bool
is_digit c = leb b'0' c && leb c b'9'

abbrev pub is_nil : Text → Bool
is_nil [] = true
is_nil (c ∷ s) = false

-- The value of a run of digits that is not empty.
unfoldable pub digits_value : ℕ → Text → Option ℕ
unfolding is_digit
digits_value acc [] = some acc
digits_value acc (c ∷ s) =
    let rest = digits_value (acc * 10 + (c - b'0')) s in if is_digit c then rest else none

unfoldable pub parse_digits : Text → Option ℕ
unfolding digits_value
parse_digits s = if is_nil s then none else digits_value 0 s

-- `s.parse::<i64>()`: a sign, then digits, within the range of i64.
abbrev in_positive : Option ℕ → Option ℤ
in_positive none = none
in_positive (some n) = if ltb n (2 ^ 63) then some (pos n) else none

abbrev in_negative : Option ℕ → Option ℤ
in_negative none = none
in_negative (some n) = if leb n (2 ^ 63) then some (neg_ℤ n) else none

unfoldable pub parse_i64 : Text → Option ℤ
unfolding parse_digits
parse_i64 [] = none
parse_i64 (c ∷ s) =
    if c == b'-'
    then in_negative (parse_digits s)
    else if c == b'+'
    then in_positive (parse_digits s)
    else in_positive (parse_digits (c ∷ s))
