-- ===== src/Ssrf/Ipv6.antt =====
-- `isPrivateIPv6` of ssrfGuard.ts: each regular expression is read on the parts between colons.
use pytone_digital.Prelude.{
  ℕ, zero, suc, Bool, false, not, ◌&&◌, ◌||◌, Option, none, some, List, [], ◌∷◌, leb, ◌==◌,
  if◌then◌else◌, length, drop, keep, any, all,
}
use pytone_digital.Text.{Text, codes, is_empty, is_digit, starts_with, text_eq, split_at_unit}
use pytone_digital.Text.Decimal.{read_base}
use pytone_digital.Runtime.{Js}
use pytone_digital.Ssrf.Ipv4.{is_private_ipv4, is_decimal, dotted}

abbrev is_zeros : Text → Bool
is_zeros s = all (λ c. c == b'0') s

-- `0*1`
abbrev zeros_then_one : Text → Bool
zeros_then_one [] = false
zeros_then_one (c ∷ []) = c == b'1'
zeros_then_one (c ∷ d ∷ s) = c == b'0' && zeros_then_one (d ∷ s)

-- `(0+:){k}0*1`
abbrev is_loopback_after : ℕ → List Text → Bool
is_loopback_after zero (p ∷ []) = zeros_then_one p
is_loopback_after (suc k) (p ∷ ps) = not (is_empty p) && is_zeros p && is_loopback_after k ps
is_loopback_after _ _ = false

-- `0*(:0+)*`
abbrev is_unspecified_groups : List Text → Bool
is_unspecified_groups [] = false
is_unspecified_groups (p ∷ ps) = is_zeros p && all (λ q. not (is_empty q) && is_zeros q) ps

abbrev pub is_lower_hex : ℕ → Bool
is_lower_hex c = is_digit c || (leb b'a' c && leb c b'f')

-- `/^f[cd][0-9a-f]{2}:/`
abbrev is_unique_local : Text → Bool
is_unique_local (f ∷ x ∷ a ∷ b ∷ c ∷ _) =
    f == b'f' && (x == b'c' || x == b'd') && is_lower_hex a && is_lower_hex b && c == b':'
is_unique_local _ = false

-- `/^\d+\.\d+\.\d+\.\d+$/`
abbrev pub is_quad : Text → Bool
is_quad s = let parts = split_at_unit b'.' s in length parts == 4 && all is_decimal parts

abbrev is_line_end : ℕ → Bool
is_line_end c = c == 10 || c == 13 || c == 0x2028 || c == 0x2029

-- What follows the `::ffff:` of `/^::ffff:(.+)$/`.
abbrev mapped_part : Text → Option Text
mapped_part h =
    let inner = drop 7 h in
    if starts_with h (codes "::ffff:") && not (is_empty inner) && not (any is_line_end inner)
    then some inner
    else none

-- What follows the `::` of `/^::(\d+\.\d+\.\d+\.\d+)$/`.
abbrev compatible_part : Text → Option Text
compatible_part h =
    let inner = drop 2 h in if starts_with h (codes "::") && is_quad inner then some inner else none

abbrev inner_part : Text → Option Text
inner_part h = elim (mapped_part h) [ some inner ↦ some inner | none ↦ compatible_part h ]

-- `inner.replace(/:/g, '')`
unfoldable pub remove_colons : Text → Text
remove_colons s = keep (λ c. not (c == b':')) s

module _ (js : Js) where
  -- The body of `if (mapped)`.
  unfoldable pub is_private_inner : Text → Bool
  is_private_inner inner =
      let hx = remove_colons inner in
      if is_quad inner
      then is_private_ipv4 js inner
      else if not (is_empty hx) && leb (length hx) 8 && all is_lower_hex hx
      then is_private_ipv4 js (dotted (read_base 16 hx))
      else false

  abbrev is_private_mapped : Option Text → Bool
  is_private_mapped none = false
  is_private_mapped (some inner) = is_private_inner inner

  unfoldable pub is_private_lower : Text → Bool
  is_private_lower h =
      let groups = split_at_unit b':' h in
      let rest = is_private_mapped (inner_part h) in
      text_eq h (codes "::1")
      || is_loopback_after 7 groups
      || text_eq h (codes "::")
      || is_unspecified_groups groups
      || starts_with h (codes "fe80:")
      || is_unique_local h
      || rest

  unfoldable pub is_private_ipv6 : Text → Bool
  is_private_ipv6 host = is_private_lower (js.to_lower host)
