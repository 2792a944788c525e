-- ===== src/Ssrf/Mapped.antt =====
-- How `isPrivateIPv6` of ssrfGuard.ts reads an IPv4-mapped address in two groups of digits.
use pytone_digital.Prelude.{
  ℕ, ◌+◌, ◌*◌, ◌^◌, ◌≤◌, ◌<◌, ◌≡◌, refl, ap, ◌∙◌, true, false, [], ◌∷◌, ◌++◌, foldl, arith, ◌==◌,
  le→leb, length, keep, all, All, All-append,
}
use native.Mathlib.Nat.{pow-suc, mul-le-mul_right, pow-le-pow_right}
use pytone_digital.Text.{Text, is_empty, split_at_unit}
use pytone_digital.Text.Decimal.{read_base, digit_value, add_digit}
use pytone_digital.Runtime.{Js}
use pytone_digital.Ssrf.{IsExact}
use pytone_digital.Ssrf.Ipv6.{is_lower_hex, is_quad, remove_colons, is_private_inner}
use pytone_digital.Ssrf.Blocks.{is_reserved, is_private_ipv4-dotted}

abbrev pub IsLowerHex : Text → Type 0
IsLowerHex s = All (λ c. is_lower_hex c ≡ true) s

is_hex-groups : (x y : Text) → IsLowerHex x → IsLowerHex y → all is_lower_hex (x ++ y) ≡ true
is_hex-groups [] [] h k = refl
is_hex-groups [] (c ∷ y) h (p, k) = rw p (is_hex-groups [] y h k)
is_hex-groups (c ∷ x) y (p, h) k = rw p (is_hex-groups x y h k)

remove_colons-hex : (y : Text) → IsLowerHex y → remove_colons y ≡ y
unfolding remove_colons keep
remove_colons-hex [] h = refl
remove_colons-hex (c ∷ y) (p, h) = ground (arith, remove_colons-hex y h)

remove_colons-groups :
    (x y : Text) → IsLowerHex x → IsLowerHex y → remove_colons (x ++ b':' ∷ y) ≡ x ++ y
unfolding remove_colons keep
remove_colons-groups [] y h k = remove_colons-hex y k
remove_colons-groups (c ∷ x) y (p, h) k = ground (arith, remove_colons-groups x y h k)

abbrev IsUndotted : Text → Type 0
IsUndotted s = All (λ c. (c == b'.') ≡ false) s

split_at_unit-undotted : (s : Text) → IsUndotted s → split_at_unit b'.' s ≡ s ∷ []
unfolding split_at_unit
split_at_unit-undotted [] h = refl
split_at_unit-undotted (c ∷ s) (p, h) = ground (arith, split_at_unit-undotted s h)

hex-IsUndotted : (s : Text) → IsLowerHex s → IsUndotted s
hex-IsUndotted [] h = tt
hex-IsUndotted (c ∷ s) (p, h) = (ground arith, hex-IsUndotted s h)

is_quad-undotted : (s : Text) → IsUndotted s → is_quad s ≡ false
is_quad-undotted s h = rw (split_at_unit-undotted s h) refl

digit_value-lt : (c : ℕ) → is_lower_hex c ≡ true → digit_value c < 16
digit_value-lt c h = ground arith

-- Reading on from a value shifts it by the digits that follow.
fold-shift :
    (a : ℕ) (y : Text) → foldl (add_digit 16) a y ≡ a * 16 ^ length y + foldl (add_digit 16) 0 y
fold-shift a [] = omega arith
fold-shift a (c ∷ y) =
    fold-shift (a * 16 + digit_value c) y
    ∙ rw (fold-shift (0 * 16 + digit_value c) y, pow-suc 16 (length y))
        (regroup a (digit_value c) (16 ^ length y) (foldl (add_digit 16) 0 y))
  where
    regroup : (a d p f : ℕ) → (a * 16 + d) * p + f ≡ a * (p * 16) + (((0 * 16 + d) * p) + f)
    regroup a d p f = grind arith

fold-lt : (y : Text) → IsLowerHex y → foldl (add_digit 16) 0 y < 16 ^ length y
fold-lt [] h = omega arith
fold-lt (c ∷ y) (p, h) =
    rw (fold-shift (0 * 16 + digit_value c) y, pow-suc 16 (length y))
      (bounded (0 * 16 + digit_value c) (16 ^ length y) (foldl (add_digit 16) 0 y)
        (omega (arith, digit_value-lt c p)) (fold-lt y h))
  where
    bounded : (d p f : ℕ) → d < 16 → f < p → d * p + f < p * 16
    bounded d p f h k = omega (arith, mul-le-mul_right p h)

All-groups : (x y : Text) → IsLowerHex x → IsLowerHex y → IsLowerHex (x ++ y)
All-groups x y h k = All-append (λ c. is_lower_hex c ≡ true) x y h k

read_base-groups :
    (x y : Text) → read_base 16 (x ++ y) ≡ read_base 16 x * 16 ^ length y + read_base 16 y
unfolding read_base
read_base-groups x y = foldl_append 0 x ∙ fold-shift (foldl (add_digit 16) 0 x) y
  where
    foldl_append :
        (a : ℕ) (s : Text)
        → foldl (add_digit 16) a (s ++ y) ≡ foldl (add_digit 16) (foldl (add_digit 16) a s) y
    foldl_append a [] = refl
    foldl_append a (c ∷ s) = foldl_append (add_digit 16 a c) s

read_base-lt : (s : Text) → IsLowerHex s → length s ≤ 8 → read_base 16 s < 0x100000000
unfolding read_base
read_base-lt s h k =
    omega (arith, fold-lt s h, pow-le-pow_right {n = 16} (omega arith) {i = length s} {j = 8} k)

-- An IPv4-mapped address `::ffff:x:y` whose groups hold at most eight hexadecimal digits together
-- is refused exactly when the address `x * 16 ^ (number of digits of y) + y` is in a reserved block.
pub is_private_inner-groups :
    (js : Js) (exact : IsExact js) (x y : Text)
    → IsLowerHex x
    → IsLowerHex y
    → 1 ≤ length (x ++ y)
    → length (x ++ y) ≤ 8
    → is_private_inner js (x ++ b':' ∷ y)
      ≡ is_reserved (read_base 16 x * 16 ^ length y + read_base 16 y)
unfolding is_private_inner
is_private_inner-groups js exact x y h k some_digit few =
    rw
      (
        is_quad-undotted (x ++ b':' ∷ y) (
            All-append (λ c. (c == b'.') ≡ false) x (b':' ∷ y) (hex-IsUndotted x h)
              (refl, hex-IsUndotted y k)),
        remove_colons-groups x y h k,
        is_hex-groups x y h k,
        not_empty (x ++ y) some_digit,
        le→leb (length (x ++ y)) 8 few,
      )
      (is_private_ipv4-dotted js exact (read_base 16 (x ++ y))
          (read_base-lt (x ++ y) (All-groups x y h k) few)
        ∙ ap is_reserved (read_base-groups x y))
  where
    not_empty : (s : Text) → 1 ≤ length s → is_empty s ≡ false
    not_empty [] h = absurd (omega arith)
    not_empty (c ∷ s) h = refl
