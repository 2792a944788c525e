-- ===== src/Ssrf/Parts.antt =====
-- The spellings of the parts of an IPv4 address, written from the values of their digits, and what
-- `canonicaliseIPv4` of ssrfGuard.ts reads in them.
use pytone_digital.Prelude.{
  ℕ, suc, ◌+◌, ◌*◌, ◌≤◌, ◌<◌, ◌≡◌, refl, ap, ◌∙◌, Bool, true, false, not, ◌&&◌, ◌||◌, none, some,
  List, [], ◌∷◌, map, foldl, arith, ltb, ◌==◌, if◌then◌else◌, length, all, All,
}
use pytone_digital.Text.{Text, is_empty, is_digit}
use pytone_digital.Text.Decimal.{read_base, add_digit, digit_value}
use pytone_digital.Ssrf.Ipv4.{
  is_hex_digit, is_octal_digit, is_decimal, is_octal, hex_part, parse_part, parse_parts,
  canonicalise_ipv4,
}
use pytone_digital.Ssrf.Spellings.{inet_aton, dotted_option, join_dots, canonicalise_ipv4-parts}

-- A part as `inet_aton` takes it: the digits, as numbers. A digit of a hexadecimal part says
-- whether it is a capital letter, the part whether its x is.
pub data Part : Type 0 where
  decimal : List ℕ → Part
  octal : List ℕ → Part
  hexadecimal : Bool → List (ℕ × Bool) → Part

abbrev hex_unit : ℕ × Bool → ℕ
hex_unit (d, capital) = if ltb d 10 then d + 48 else if capital then d + 55 else d + 87

abbrev digit_unit : ℕ → ℕ
digit_unit d = d + 48

-- The text of a part: an octal one has a leading 0, a hexadecimal one a leading 0x or 0X.
unfoldable pub spell : Part → Text
spell (decimal ds) = map digit_unit ds
spell (octal ds) = b'0' ∷ map digit_unit ds
spell (hexadecimal capital ds) = b'0' ∷ (if capital then b'X' else b'x') ∷ map hex_unit ds

abbrev number : ℕ → ℕ → List ℕ → ℕ
number base n [] = n
number base n (d ∷ ds) = number base (n * base + d) ds

abbrev digits_of : List (ℕ × Bool) → List ℕ
digits_of ds = map (λ d. d.0) ds

-- The value of a part, in base 10, 8 or 16.
unfoldable pub value : Part → ℕ
value (decimal ds) = number 10 0 ds
value (octal ds) = number 8 0 ds
value (hexadecimal capital ds) = number 16 0 (digits_of ds)

-- There are digits, each is one of the base, and a decimal part of several does not begin with 0.
abbrev pub IsSpelling : Part → Type 0
IsSpelling (decimal []) = ⊥
IsSpelling (decimal (d ∷ [])) = (d < 10) × Unit {0}
IsSpelling (decimal (d ∷ e ∷ ds)) = (1 ≤ d) × All (λ x. x < 10) (d ∷ e ∷ ds)
IsSpelling (octal []) = ⊥
IsSpelling (octal (d ∷ ds)) = All (λ x. x < 8) (d ∷ ds)
IsSpelling (hexadecimal capital []) = ⊥
IsSpelling (hexadecimal capital (d ∷ ds)) = All (λ x. x.0 < 16) (d ∷ ds)

add_digit-unit : (base n d : ℕ) → d < 10 → add_digit base n (d + 48) ≡ n * base + d
add_digit-unit base n d h = ap (λ v. n * base + v) (unit d h)
  where
    unit : (d : ℕ) → d < 10 → digit_value (d + 48) ≡ d
    unit d h = ground arith

add_digit-hex : (n : ℕ) (d : ℕ × Bool) → d.0 < 16 → add_digit 16 n (hex_unit d) ≡ n * 16 + d.0
add_digit-hex n (d, capital) h = ap (λ v. n * 16 + v) (unit capital d h)
  where
    unit : (b : Bool) (d : ℕ) → d < 16 → digit_value (hex_unit (d, b)) ≡ d
    unit true d h = ground arith
    unit false d h = ground arith

foldl-digits :
    (base n : ℕ) (ds : List ℕ)
    → All (λ x. x < 10) ds
    → foldl (add_digit base) n (map digit_unit ds) ≡ number base n ds
foldl-digits base n [] h = refl
foldl-digits base n (d ∷ ds) (h, k) =
    ap (λ m. foldl (add_digit base) m (map digit_unit ds)) (add_digit-unit base n d h)
    ∙ foldl-digits base (n * base + d) ds k

foldl-hex :
    (n : ℕ) (ds : List (ℕ × Bool))
    → All (λ x. x.0 < 16) ds
    → foldl (add_digit 16) n (map hex_unit ds) ≡ number 16 n (digits_of ds)
foldl-hex n [] h = refl
foldl-hex n (d ∷ ds) (h, k) =
    ap (λ m. foldl (add_digit 16) m (map hex_unit ds)) (add_digit-hex n d h)
    ∙ foldl-hex (n * 16 + d.0) ds k

below_ten : (ds : List ℕ) → All (λ x. x < 8) ds → All (λ x. x < 10) ds
below_ten [] h = tt
below_ten (d ∷ ds) (h, k) = (omega arith, below_ten ds k)

all-decimal : (ds : List ℕ) → All (λ x. x < 10) ds → all is_digit (map digit_unit ds) ≡ true
all-decimal [] h = refl
all-decimal (d ∷ ds) (h, k) = rw (unit d h) (all-decimal ds k)
  where
    unit : (d : ℕ) → d < 10 → is_digit (d + 48) ≡ true
    unit d h = ground arith

all-octal : (ds : List ℕ) → All (λ x. x < 8) ds → all is_octal_digit (map digit_unit ds) ≡ true
all-octal [] h = refl
all-octal (d ∷ ds) (h, k) = rw (unit d h) (all-octal ds k)
  where
    unit : (d : ℕ) → d < 8 → is_octal_digit (d + 48) ≡ true
    unit d h = ground arith

all-hex :
    (ds : List (ℕ × Bool)) → All (λ x. x.0 < 16) ds → all is_hex_digit (map hex_unit ds) ≡ true
all-hex [] h = refl
all-hex ((d, b) ∷ ds) (h, k) = rw (unit b d h) (all-hex ds k)
  where
    unit : (b : Bool) (d : ℕ) → d < 16 → is_hex_digit (hex_unit (d, b)) ≡ true
    unit true d h = ground arith
    unit false d h = ground arith

-- Digits alone are no hexadecimal part.
hex_part-digits : (z x : ℕ) (s : Text) → x < 10 → hex_part (z ∷ digit_unit x ∷ s) ≡ none
hex_part-digits z x s h = rw (unit x h) (by_zero (z == b'0'))
  where
    unit : (x : ℕ) → x < 10 → (x + 48 == b'x' || x + 48 == b'X') ≡ false
    unit x h = ground arith

    by_zero :
        (b : Bool)
        → (if b && false && not (is_empty s) && all is_hex_digit s then some s else none) ≡ none
    by_zero true = refl
    by_zero false = refl

parse_part-hex : (p s : Text) → hex_part p ≡ some s → parse_part p ≡ some (read_base 16 s)
unfolding parse_part
parse_part-hex p s h = rw (h, parse_part) refl

parse_part-octal :
    (p : Text) → hex_part p ≡ none → is_octal p ≡ true → parse_part p ≡ some (read_base 8 p)
unfolding parse_part
parse_part-octal p h o = rw (h, o, parse_part) refl

parse_part-decimal :
    (p : Text)
    → hex_part p ≡ none
    → is_octal p ≡ false
    → is_decimal p ≡ true
    → parse_part p ≡ some (read_base 10 p)
unfolding parse_part
parse_part-decimal p h o d = rw (h, o, d, parse_part) refl

read_base-digits :
    (base : ℕ) (ds : List ℕ)
    → All (λ x. x < 10) ds
    → read_base base (map digit_unit ds) ≡ number base 0 ds
unfolding read_base
read_base-digits base ds h = foldl-digits base 0 ds h

read_base-zero : (base : ℕ) (s : Text) → read_base base (b'0' ∷ s) ≡ read_base base s
unfolding read_base
read_base-zero base s = ap (λ m. foldl (add_digit base) m s) (omega arith)

read_base-hex :
    (ds : List (ℕ × Bool))
    → All (λ x. x.0 < 16) ds
    → read_base 16 (map hex_unit ds) ≡ number 16 0 (digits_of ds)
unfolding read_base
read_base-hex ds h = foldl-hex 0 ds h

hex_part-hex :
    (b : Bool) (ds : List (ℕ × Bool))
    → IsSpelling (hexadecimal b ds)
    → hex_part (spell (hexadecimal b ds)) ≡ some (map hex_unit ds)
unfolding spell
hex_part-hex true [] h = absurd h
hex_part-hex false [] h = absurd h
hex_part-hex true (d ∷ ds) h = rw (all-hex (d ∷ ds) h) refl
hex_part-hex false (d ∷ ds) h = rw (all-hex (d ∷ ds) h) refl

not_zero : (d : ℕ) → 1 ≤ d → (d + 48 == b'0') ≡ false
not_zero d h = ground arith

one_digit-octal : (d : ℕ) → is_octal (digit_unit d ∷ []) ≡ false
one_digit-octal d = by_zero (digit_unit d == b'0')
  where
    by_zero : (b : Bool) → b && false && true ≡ false
    by_zero true = refl
    by_zero false = refl

-- `parse_part` reads a part as its value.
parse_part-spell : (p : Part) → IsSpelling p → parse_part (spell p) ≡ some (value p)
unfolding spell value
parse_part-spell (decimal []) h = absurd h
parse_part-spell (decimal (d ∷ [])) h =
    parse_part-decimal (digit_unit d ∷ []) refl (one_digit-octal d) (all-decimal (d ∷ []) h)
    ∙ ap some (read_base-digits 10 (d ∷ []) h)
parse_part-spell (decimal (d ∷ e ∷ ds)) (h, k) =
    parse_part-decimal (map digit_unit (d ∷ e ∷ ds))
      (hex_part-digits (digit_unit d) e (map digit_unit ds) k.1.0) (rw (not_zero d h) refl)
      (all-decimal (d ∷ e ∷ ds) k)
    ∙ ap some (read_base-digits 10 (d ∷ e ∷ ds) k)
parse_part-spell (octal []) h = absurd h
parse_part-spell (octal (d ∷ ds)) h =
    parse_part-octal (b'0' ∷ map digit_unit (d ∷ ds))
      (hex_part-digits b'0' d (map digit_unit ds) (omega (arith, h.0))) (all-octal (d ∷ ds) h)
    ∙ ap some (
        read_base-zero 8 (map digit_unit (d ∷ ds))
        ∙ read_base-digits 8 (d ∷ ds) (below_ten (d ∷ ds) h))
parse_part-spell (hexadecimal b []) h = absurd h
parse_part-spell (hexadecimal b (d ∷ ds)) h =
    parse_part-hex (spell (hexadecimal b (d ∷ ds))) (map hex_unit (d ∷ ds))
      (hex_part-hex b (d ∷ ds) h)
    ∙ ap some (read_base-hex (d ∷ ds) h)

pub parse_parts-spell :
    (ps : List Part) → All IsSpelling ps → parse_parts (map spell ps) ≡ some (map value ps)
unfolding parse_parts
parse_parts-spell [] h = refl
parse_parts-spell (p ∷ ps) (h, k) = rw (parse_part-spell p h, parse_parts-spell ps k) refl

pub length-spell : (ps : List Part) → length (map spell ps) ≡ length ps
length-spell [] = refl
length-spell (p ∷ ps) = ap suc (length-spell ps)

-- Two to four parts, each of digits in base 10, of digits in base 8 behind a leading 0, or of
-- digits in base 16 behind a leading 0x, joined by dots: `canonicaliseIPv4` gives the dotted form
-- of the address that `inet_aton` gives to the values of the digits, and null when it gives none.
pub canonicalise_ipv4-spell :
    (p q : Part) (ps : List Part)
    → All IsSpelling (p ∷ q ∷ ps)
    → length ps ≤ 2
    → canonicalise_ipv4 (join_dots (map spell (p ∷ q ∷ ps)))
      ≡ dotted_option (inet_aton (map value (p ∷ q ∷ ps)))
canonicalise_ipv4-spell p q ps h k =
    canonicalise_ipv4-parts (spell p) (spell q) (map spell ps) (map value (p ∷ q ∷ ps))
      (parse_parts-spell (p ∷ q ∷ ps) h) (omega (arith, length-spell ps))
