-- ===== src/Epg/Entities.antt =====
-- `decodeEntities` and `unwrapCdata` of epg.ts.
use pytone_digital.Prelude.{
  ℕ, zero, suc, ◌+◌, ◌-◌, ◌/◌, ◌%◌, Bool, false, ◌&&◌, ◌||◌, Option, none, some, [], ◌∷◌, ◌++◌, leb,
  ◌==◌, if◌then◌else◌, length, all,
}
use pytone_digital.Prelude.Chain.{◌>>=◌}
use pytone_digital.Text.{Text, codes, is_digit, is_space, starts_with}
use pytone_digital.Text.Decimal.{read_base}
use pytone_digital.Text.Search.{strip_prefix, or_later}

-- `s.replace(/t/g, r)` for a text `t` that is not empty; the units of a match are passed over.
unfoldable pub replace_from : Text → Text → ℕ → Text → Text
replace_from t r n [] = []
replace_from t r (suc n) (c ∷ s) = replace_from t r n s
replace_from t r zero (c ∷ s) =
    let matched = r ++ replace_from t r (length t - 1) s in
    let passed = c ∷ replace_from t r zero s in if starts_with (c ∷ s) t then matched else passed

abbrev pub replace_all : Text → Text → Text → Text
replace_all t r s = replace_from t r zero s

abbrev pub is_hex : ℕ → Bool
is_hex c = is_digit c || (leb b'a' c && leb c b'f') || (leb b'A' c && leb c b'F')

-- The longest start of a text whose units pass, and the rest.
unfoldable pub span : (ℕ → Bool) → Text → Text × Text
span p [] = ([], [])
span p (c ∷ s) = let (l, r) = span p s in if p c then (c ∷ l, r) else ([], c ∷ s)

-- Digits and a semicolon: the value, and the length of the text read.
abbrev reference : ℕ → Text × Text → Option (ℕ × ℕ)
reference base ([], _) = none
reference base (_ ∷ _, []) = none
reference base (d ∷ ds, c ∷ _) =
    if c == b';' then some (read_base base (d ∷ ds), length (d ∷ ds) + 1) else none

abbrev behind : ℕ → Option (ℕ × ℕ) → Option (ℕ × ℕ)
behind n none = none
behind n (some (value, size)) = some (value, n + size)

abbrev digits_behind : ℕ → (ℕ → Bool) → ℕ → Option Text → Option (ℕ × ℕ)
digits_behind n p base none = none
digits_behind n p base (some s) = behind n (reference base (span p s))

-- `&#(\d+);`
unfoldable pub decimal_ref : Text → Option (ℕ × ℕ)
decimal_ref s = digits_behind 2 is_digit 10 (strip_prefix (codes "&#") s)

-- `&#x([0-9a-f]+);` in either case
unfoldable pub hex_ref : Text → Option (ℕ × ℕ)
hex_ref s =
    digits_behind 3 is_hex 16
      (or_later (strip_prefix (codes "&#x") s) (strip_prefix (codes "&#X") s))

-- `String.fromCodePoint(n)` in UTF-16; `none` is the `RangeError` of a number that is no code point.
unfoldable pub from_code_point : ℕ → Option Text
from_code_point n =
    if leb n 0xffff
    then some (n ∷ [])
    else if leb n 0x10ffff
    then some ((0xd800 + (n - 0x10000) / 1024) ∷ (0xdc00 + (n - 0x10000) % 1024) ∷ [])
    else none

-- A replacement of every reference by its character.
unfoldable pub decode_refs : (Text → Option (ℕ × ℕ)) → ℕ → Text → Option Text
unfolding from_code_point
decode_refs read n [] = some []
decode_refs read (suc n) (c ∷ s) = decode_refs read n s
decode_refs read zero (c ∷ s) = elim (read (c ∷ s)) [
  | none ↦ do rest ← decode_refs read zero s; some (c ∷ rest)
  | some (value, size) ↦ do
    units ← from_code_point value
    rest ← decode_refs read (size - 1) s
    some (units ++ rest)
]

-- The replacements in their order; `none` when one throws.
unfoldable pub decode_entities : Text → Option Text
unfolding replace_from decode_refs decimal_ref hex_ref
decode_entities s = do
  let named = replace_all (codes "&apos;") (codes "'") (
      replace_all (codes "&quot;") (codes "\"")
        (replace_all (codes "&gt;") (codes ">") (replace_all (codes "&lt;") (codes "<") s)))
  decimal ← decode_refs decimal_ref zero named
  hex ← decode_refs hex_ref zero decimal
  some (replace_all (codes "&amp;") (codes "&") hex)

abbrev push_unit : ℕ → Option Text → Option Text
push_unit c none = none
push_unit c (some s) = some (c ∷ s)

abbrev ends_section : Option Text → Bool
ends_section none = false
ends_section (some rest) = all is_space rest

-- What stands before the first `]]>` behind which there is only white space.
unfoldable pub section_body : Text → Option Text
section_body [] = none
section_body (c ∷ s) =
    let later = push_unit c (section_body s) in
    if ends_section (strip_prefix (codes "]]>") (c ∷ s)) then some [] else later

abbrev body_or : Text → Option Text → Text
body_or s none = s
body_or s (some body) = body

abbrev section_of : Text → Option Text → Text
section_of s none = s
section_of s (some rest) = body_or s (section_body rest)

abbrev drop_spaces : Text → Text
drop_spaces [] = []
drop_spaces (c ∷ s) = if is_space c then drop_spaces s else c ∷ s

unfoldable pub unwrap_cdata : Text → Text
unfolding section_body
unwrap_cdata s = section_of s (strip_prefix (codes "<![CDATA[") (drop_spaces s))
