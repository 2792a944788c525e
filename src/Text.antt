-- ===== src/Text.antt =====
-- JavaScript strings as lists of UTF-16 code units, with the operations of the standard library
-- that the program calls on them.
pub mod Decimal
pub mod Cut
pub mod Trim
pub mod Equality
pub mod Search
use Prim.Native.Char.{code}
use pytone_digital.Prelude.{
  ℕ, ◌+◌, String, Bool, true, false, ◌&&◌, ◌||◌, Option, none, some, List, [], ◌∷◌, map, reverse,
  leb, ◌==◌, if◌then◌else◌,
}

abbrev pub Text : Type 0
Text = List ℕ

-- The code units of a literal, whose characters are all in the basic plane.
abbrev pub codes : String → Text
codes String.[] = []
codes (String.◌∷◌ c s) = code c ∷ codes s

-- `a === b`
abbrev pub text_eq : Text → Text → Bool
text_eq [] [] = true
text_eq [] (_ ∷ _) = false
text_eq (_ ∷ _) [] = false
text_eq (a ∷ s) (b ∷ t) = a == b && text_eq s t

-- `!s`: the empty string is the only falsy one.
abbrev pub is_empty : Text → Bool
is_empty [] = true
is_empty (_ ∷ _) = false

abbrev pub is_digit : ℕ → Bool
is_digit c = leb 48 c && leb c 57

-- `\w` of a regular expression with no flag.
abbrev pub is_word : ℕ → Bool
is_word c = is_digit c || (leb b'A' c && leb c b'Z') || (leb b'a' c && leb c b'z') || c == b'_'

-- White space and line terminators, as `trim` and `\s` read them.
abbrev pub is_space : ℕ → Bool
is_space c =
    (leb 9 c && leb c 13)
    || c == 32
    || c == 0xa0
    || c == 0x1680
    || (leb 0x2000 c && leb c 0x200a)
    || c == 0x2028
    || c == 0x2029
    || c == 0x202f
    || c == 0x205f
    || c == 0x3000
    || c == 0xfeff

unfoldable pub trim_start : Text → Text
trim_start [] = []
trim_start (c ∷ s) = let rest = trim_start s in if is_space c then rest else c ∷ s

unfoldable pub trim : Text → Text
unfolding trim_start
trim s = reverse (trim_start (reverse (trim_start s)))

-- `toLowerCase` on ASCII letters; other units stay.
abbrev pub lower_unit : ℕ → ℕ
lower_unit c = if leb b'A' c && leb c b'Z' then c + 32 else c

unfoldable pub ascii_lower : Text → Text
ascii_lower s = map lower_unit s

unfoldable pub starts_with : Text → Text → Bool
starts_with s [] = true
starts_with [] (_ ∷ _) = false
starts_with (c ∷ s) (d ∷ t) = c == d && starts_with s t

pub push_front : ℕ → List Text → List Text
push_front d [] = (d ∷ []) ∷ []
push_front d (l ∷ ls) = (d ∷ l) ∷ ls

-- `s.split(c)` at each unit `c`.
unfoldable pub split_at_unit : ℕ → Text → List Text
unfolding push_front
split_at_unit c [] = [] ∷ []
split_at_unit c (d ∷ s) =
    let rest = split_at_unit c s in if d == c then [] ∷ rest else push_front d rest

cut_later : ℕ → Option (Text × Text) → Option (Text × Text)
cut_later d none = none
cut_later d (some (l, r)) = some (d ∷ l, r)

-- The parts before and after the first unit `c`, when there is one: `indexOf` and two slices.
unfoldable pub cut_at : ℕ → Text → Option (Text × Text)
unfolding cut_later
cut_at c [] = none
cut_at c (d ∷ s) = if d == c then some ([], s) else cut_later d (cut_at c s)

abbrev starts_with_newline : Text → Bool
starts_with_newline [] = false
starts_with_newline (c ∷ _) = c == 10

-- `s.split(/\r?\n/)`: a carriage return is dropped exactly before a line feed.
unfoldable pub split_lines : Text → List Text
unfolding push_front
split_lines [] = [] ∷ []
split_lines (c ∷ s) =
    let rest = split_lines s in
    if c == 10
    then [] ∷ rest
    else if c == 13 && starts_with_newline s
    then rest
    else push_front c rest

-- `s.includes(t)`, and the test of a regular expression without special units.
unfoldable pub includes : Text → Text → Bool
unfolding starts_with
includes [] t = is_empty t
includes (c ∷ s) t = starts_with (c ∷ s) t || includes s t
