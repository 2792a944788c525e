-- ===== src/Ssrf/Ipv4.antt =====
-- `canonicaliseIPv4` and `isPrivateIPv4` of ssrfGuard.ts.
use pytone_digital.Prelude.{
  ℕ, zero, suc, ◌+◌, ◌-◌, ◌*◌, ◌/◌, ◌%◌, ◌^◌, Bool, true, false, not, ◌&&◌, ◌||◌, Option, none,
  some, List, [], ◌∷◌, ◌++◌, map, foldl, ltb, leb, ◌==◌, if◌then◌else◌, length, any, all,
}
use pytone_digital.Text.{Text, is_empty, is_digit, trim, split_at_unit}
use pytone_digital.Text.Decimal.{show, read_base}
use pytone_digital.Runtime.{Js}
use pytone_digital.Ssrf.{is_nat, at_least, at_most}

abbrev pub max_u32 : ℕ
max_u32 = 0xffffffff

-- `[(n >>> 24) & 255, (n >>> 16) & 255, (n >>> 8) & 255, n & 255].join('.')`
unfoldable pub dotted : ℕ → Text
dotted n =
    show (n / 0x1000000 % 256)
    ++ b'.' ∷ (show (n / 0x10000 % 256) ++ b'.' ∷ (show (n / 0x100 % 256) ++ b'.' ∷ show (n % 256)))

abbrev pub is_octal_digit : ℕ → Bool
is_octal_digit c = leb 48 c && leb c 55

abbrev pub is_hex_digit : ℕ → Bool
is_hex_digit c = is_digit c || (leb b'a' c && leb c b'f') || (leb b'A' c && leb c b'F')

-- `/^\d+$/`
abbrev pub is_decimal : Text → Bool
is_decimal s = not (is_empty s) && all is_digit s

-- `/^0x[0-9a-f]+$/i` and what follows the `0x`
abbrev pub hex_part : Text → Option Text
hex_part (z ∷ x ∷ s) =
    if z == b'0' && (x == b'x' || x == b'X') && not (is_empty s) && all is_hex_digit s
    then some s
    else none
hex_part _ = none

-- `/^0[0-7]+$/`
abbrev pub is_octal : Text → Bool
is_octal [] = false
is_octal (z ∷ s) = z == b'0' && not (is_empty s) && all is_octal_digit s

-- One part of the dotted form.
unfoldable pub parse_part : Text → Option ℕ
parse_part p = elim (hex_part p) [
  | some s ↦ some (read_base 16 s)
  | none ↦
      if is_octal p
      then some (read_base 8 p)
      else if is_decimal p
      then some (read_base 10 p)
      else none
]

abbrev pub cons_part : Option ℕ → Option (List ℕ) → Option (List ℕ)
cons_part none ns = none
cons_part (some n) none = none
cons_part (some n) (some ns) = some (n ∷ ns)

unfoldable pub parse_parts : List Text → Option (List ℕ)
parse_parts [] = some []
parse_parts (p ∷ ps) = cons_part (parse_part p) (parse_parts ps)

-- The check and the packing of the parts, `head` reversed in front of the last.
abbrev pub max_last : ℕ → ℕ
max_last zero = 0xffffffff
max_last (suc zero) = 0xffffff
max_last (suc (suc zero)) = 0xffff
max_last _ = 0xff

unfoldable pub split_last : List ℕ → List ℕ × ℕ
split_last [] = ([], 0)
split_last (n ∷ []) = ([], n)
split_last (n ∷ m ∷ ns) = let (head, last) = split_last (m ∷ ns) in (n ∷ head, last)

unfoldable pub pack : List ℕ → Option Text
unfolding split_last
pack ns =
    let (head, last) = split_last ns in
    let packed = foldl (λ acc v. acc * 256 + v) 0 head * 2 ^ (8 * (4 - length head)) + last in
    if any (λ v. ltb 255 v) head
    then none
    else if ltb (max_last (length head)) last
    then none
    else if ltb max_u32 packed
    then none
    else some (dotted packed)

abbrev pack_parsed : Option (List ℕ) → Option Text
pack_parsed none = none
pack_parsed (some ns) = pack ns

abbrev canonical_number : ℕ → Option Text
canonical_number n = if ltb max_u32 n then none else some (dotted n)

unfoldable pub canonicalise_dotted : Text → Option Text
canonicalise_dotted h =
    let parts = split_at_unit b'.' h in
    if ltb 4 (length parts) then none else pack_parsed (parse_parts parts)

unfoldable pub canonicalise_ipv4 : Text → Option Text
canonicalise_ipv4 host =
    let h = trim host in
    if is_empty h
    then none
    else if is_decimal h
    then canonical_number (read_base 10 h)
    else elim (hex_part h) [
      | some s ↦ canonical_number (read_base 16 s)
      | none ↦ canonicalise_dotted h
    ]

module _ (js : Js) where
  -- The table of ranges, on the first two octets.
  unfoldable pub is_private_range : js.Num → js.Num → Bool
  is_private_range a b =
      is_nat js a 0
      || is_nat js a 10
      || is_nat js a 127
      || (is_nat js a 169 && is_nat js b 254)
      || (is_nat js a 172 && at_least js b 16 && at_most js b 31)
      || (is_nat js a 192 && is_nat js b 168)
      || (is_nat js a 100 && at_least js b 64 && at_most js b 127)
      || (is_nat js a 192 && is_nat js b 0)
      || (is_nat js a 198 && (is_nat js b 18 || is_nat js b 19))
      || at_least js a 224

  -- `n < 0 || n > 255`
  abbrev out_of_octet : js.Num → Bool
  out_of_octet n = js.less n (js.of_nat 0) || js.less (js.of_nat 255) n

  unfoldable pub is_private_octets : List (Option js.Num) → Bool
  is_private_octets (some a ∷ some b ∷ some c ∷ some d ∷ []) =
      if out_of_octet a || out_of_octet b || out_of_octet c || out_of_octet d
      then true
      else is_private_range a b
  is_private_octets _ = true

  unfoldable pub is_private_ipv4 : Text → Bool
  is_private_ipv4 ip = is_private_octets (map js.number_of (split_at_unit b'.' ip))
