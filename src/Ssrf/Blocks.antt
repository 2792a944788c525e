-- ===== src/Ssrf/Blocks.antt =====
-- The address blocks that must never be reached, as prefixes of 32-bit addresses, and
-- `isPrivateIPv4` of ssrfGuard.ts against them.
use pytone_digital.Prelude.{
  ℕ, ◌+◌, ◌*◌, ◌/◌, ◌%◌, ◌^◌, ◌<◌, ◌≡◌, refl, Bool, true, ◌&&◌, ◌||◌, [], ◌∷◌, ◌++◌, arith, leb,
  ◌==◌, All, some, ◌∙◌, false, not, ap, sym,
}
use pytone_digital.Text.{Text, split_at_unit, is_digit}
use pytone_digital.Text.Decimal.{show, show-digits}
use pytone_digital.Ssrf.Ipv4.{dotted, is_private_range, is_private_octets, is_private_ipv4}
use pytone_digital.Runtime.{Js}
use pytone_digital.Ssrf.{IsExact, is_nat, at_least, at_most}

-- The address block `a.b.0.0/k`: the leading `k` bits, the other `32 - k` are free.
abbrev pub in_block : ℕ → ℕ → ℕ → Bool
in_block n address free = n / 2 ^ free == address / 2 ^ free

-- 0/8, 10/8, 127/8, 169.254/16, 172.16/12, 192.168/16, 100.64/10, 192.0/16, 198.18/15, 224/3
abbrev pub is_reserved : ℕ → Bool
is_reserved n =
    in_block n 0x00000000 24
    || in_block n 0x0a000000 24
    || in_block n 0x7f000000 24
    || in_block n 0xa9fe0000 16
    || in_block n 0xac100000 20
    || in_block n 0xc0a80000 16
    || in_block n 0x64400000 22
    || in_block n 0xc0000000 16
    || in_block n 0xc6120000 17
    || in_block n 0xe0000000 29

split_at_unit-digits :
    (x t : Text)
    → All (λ c. is_digit c ≡ true) x
    → split_at_unit b'.' (x ++ b'.' ∷ t) ≡ x ∷ split_at_unit b'.' t
unfolding split_at_unit
split_at_unit-digits [] t h = refl
split_at_unit-digits (c ∷ x) t (p, h) = ground (arith, split_at_unit-digits x t h)

split_at_unit-digits_end :
    (x : Text) → All (λ c. is_digit c ≡ true) x → split_at_unit b'.' x ≡ x ∷ []
unfolding split_at_unit
split_at_unit-digits_end [] h = refl
split_at_unit-digits_end (c ∷ x) (p, h) = ground (arith, split_at_unit-digits_end x h)

pub split_at_unit-dotted :
    (n : ℕ)
    → split_at_unit b'.' (dotted n)
      ≡ show (n / 0x1000000 % 256)
        ∷ show (n / 0x10000 % 256)
        ∷ show (n / 0x100 % 256)
        ∷ show (n % 256)
        ∷ []
unfolding dotted
split_at_unit-dotted n =
    rw
      (
        split_at_unit-digits (show (n / 0x1000000 % 256))
            (show (n / 0x10000 % 256) ++ b'.' ∷ (show (n / 0x100 % 256) ++ b'.' ∷ show (n % 256)))
            (show-digits (n / 0x1000000 % 256)),
        split_at_unit-digits (show (n / 0x10000 % 256))
            (show (n / 0x100 % 256) ++ b'.' ∷ show (n % 256)) (show-digits (n / 0x10000 % 256)),
        split_at_unit-digits (show (n / 0x100 % 256)) (show (n % 256))
            (show-digits (n / 0x100 % 256)),
        split_at_unit-digits_end (show (n % 256)) (show-digits (n % 256)),
      )
      refl

-- The table of the code on two octets.
abbrev in_table : ℕ → ℕ → Bool
in_table a b =
    a == 0
    || a == 10
    || a == 127
    || (a == 169 && b == 254)
    || (a == 172 && leb 16 b && leb b 31)
    || (a == 192 && b == 168)
    || (a == 100 && leb 64 b && leb b 127)
    || (a == 192 && b == 0)
    || (a == 198 && (b == 18 || b == 19))
    || leb 224 a

-- Each row of the table is the block of its prefix.
module _ (n : ℕ) (bound : n < 0x100000000) where
  one_octet : (k : ℕ) → (n / 0x1000000 % 256 == k) ≡ (n / 0x1000000 == k)
  one_octet k = ground arith

  two_octets :
      (a b : ℕ)
      → b < 256
      → (n / 0x1000000 % 256 == a && n / 0x10000 % 256 == b) ≡ (n / 0x10000 == a * 256 + b)
  two_octets a b h = ground arith

  twelve_bits :
      (n / 0x1000000 % 256 == 172 && leb 16 (n / 0x10000 % 256) && leb (n / 0x10000 % 256) 31)
      ≡ (n / 0x100000 == 2753)
  twelve_bits = ground arith

  ten_bits :
      (n / 0x1000000 % 256 == 100 && leb 64 (n / 0x10000 % 256) && leb (n / 0x10000 % 256) 127)
      ≡ (n / 0x400000 == 401)
  ten_bits = ground arith

  fifteen_bits :
      (n / 0x1000000 % 256 == 198 && (n / 0x10000 % 256 == 18 || n / 0x10000 % 256 == 19))
      ≡ (n / 0x20000 == 25353)
  fifteen_bits = ground arith

  three_bits : leb 224 (n / 0x1000000 % 256) ≡ (n / 0x20000000 == 7)
  three_bits = ground arith

  in_table-is_reserved : in_table (n / 0x1000000 % 256) (n / 0x10000 % 256) ≡ is_reserved n
  in_table-is_reserved =
      rw
        (
          one_octet 0,
          one_octet 10,
          one_octet 127,
          two_octets 169 254 (omega arith),
          twelve_bits,
          two_octets 192 168 (omega arith),
          ten_bits,
          two_octets 192 0 (omega arith),
          fifteen_bits,
          three_bits,
        )
        refl

module _ (js : Js) (exact : IsExact js) where
  is_nat-of_nat : (a k : ℕ) → a < 256 → k < 256 → is_nat js (js.of_nat a) k ≡ (a == k)
  is_nat-of_nat a k p q =
      rw
        (
          exact.less-of_nat a k (omega arith) (omega arith),
          exact.less-of_nat k a (omega arith) (omega arith),
        )
        (ground arith)

  at_least-of_nat : (a k : ℕ) → a < 256 → k < 256 → at_least js (js.of_nat a) k ≡ leb k a
  at_least-of_nat a k p q = rw (exact.less-of_nat a k (omega arith) (omega arith)) (ground arith)

  at_most-of_nat : (a k : ℕ) → a < 256 → k < 256 → at_most js (js.of_nat a) k ≡ leb a k
  at_most-of_nat a k p q = rw (exact.less-of_nat k a (omega arith) (omega arith)) (ground arith)

  is_private_range-of_nat :
      (a b : ℕ) → a < 256 → b < 256 → is_private_range js (js.of_nat a) (js.of_nat b) ≡ in_table a b
  unfolding is_private_range
  is_private_range-of_nat a b p q =
      rw
        (
          is_nat-of_nat a 0 p (omega arith),
          is_nat-of_nat a 10 p (omega arith),
          is_nat-of_nat a 127 p (omega arith),
          is_nat-of_nat a 169 p (omega arith),
          is_nat-of_nat a 172 p (omega arith),
          is_nat-of_nat a 192 p (omega arith),
          is_nat-of_nat a 100 p (omega arith),
          is_nat-of_nat a 198 p (omega arith),
          is_nat-of_nat b 254 q (omega arith),
          is_nat-of_nat b 168 q (omega arith),
          is_nat-of_nat b 0 q (omega arith),
          is_nat-of_nat b 18 q (omega arith),
          is_nat-of_nat b 19 q (omega arith),
          at_least-of_nat b 16 q (omega arith),
          at_most-of_nat b 31 q (omega arith),
          at_least-of_nat b 64 q (omega arith),
          at_most-of_nat b 127 q (omega arith),
          at_least-of_nat a 224 p (omega arith),
        )
        refl

  is_private_octets-of_nat :
      (a b c d : ℕ)
      → a < 256
      → b < 256
      → c < 256
      → d < 256
      → is_private_octets js
          (some (js.of_nat a) ∷ some (js.of_nat b) ∷ some (js.of_nat c) ∷ some (js.of_nat d) ∷ [])
        ≡ in_table a b
  unfolding is_private_octets
  is_private_octets-of_nat a b c d p q r s =
      rw (in_octet a p, in_octet b q, in_octet c r, in_octet d s) (is_private_range-of_nat a b p q)
    where
      in_octet :
          (x : ℕ)
          → x < 256
          → (js.less (js.of_nat x) (js.of_nat 0) || js.less (js.of_nat 255) (js.of_nat x)) ≡ false
      in_octet x h =
          rw
            (
              exact.less-of_nat x 0 (omega arith) (omega arith),
              exact.less-of_nat 255 x (omega arith) (omega arith),
            )
            (ground arith)

  pub is_private_ipv4-dotted :
      (n : ℕ) → n < 0x100000000 → is_private_ipv4 js (dotted n) ≡ is_reserved n
  unfolding is_private_ipv4
  is_private_ipv4-dotted n h =
      rw
        (
          split_at_unit-dotted n,
          exact.number_of-show (n / 0x1000000 % 256) (omega arith),
          exact.number_of-show (n / 0x10000 % 256) (omega arith),
          exact.number_of-show (n / 0x100 % 256) (omega arith),
          exact.number_of-show (n % 256) (omega arith),
        )
        (is_private_octets-of_nat (n / 0x1000000 % 256) (n / 0x10000 % 256) (n / 0x100 % 256)
            (n % 256) (omega arith) (omega arith) (omega arith) (omega arith)
          ∙ in_table-is_reserved n h)

-- The blocks that the comments of the table name: of 192.0/16 two blocks of 24 bits only.
unfoldable pub is_documented : ℕ → Bool
is_documented n =
    in_block n 0 24
    || in_block n 0x0a000000 24
    || in_block n 0x7f000000 24
    || in_block n 0xa9fe0000 16
    || in_block n 0xac100000 20
    || in_block n 0xc0a80000 16
    || in_block n 0x64400000 22
    || in_block n 0xc0000000 8
    || in_block n 0xc0000200 8
    || in_block n 0xc6120000 17
    || in_block n 0xe0000000 29

-- The rest of 192.0/16, on which the code and its comment differ.
abbrev pub is_disputed : ℕ → Bool
is_disputed n = in_block n 0xc0000000 16 && not (in_block n 0xc0000000 8 || in_block n 0xc0000200 8)

wide :
    (n : ℕ)
    → is_disputed n ≡ false
    → (n / 65536 == 49152) ≡ (n / 256 == 12582912 || n / 256 == 12582914)
wide n h = ground arith

or_assoc : (a b c : Bool) → ((a || b) || c) ≡ (a || (b || c))
or_assoc true b c = refl
or_assoc false b c = refl

reserved-documented : (n : ℕ) → is_disputed n ≡ false → is_reserved n ≡ is_documented n
unfolding is_documented
reserved-documented n h = rw (wide n h) (
    ap (λ b. b || in_block n 0xc6120000 17 || in_block n 0xe0000000 29)
      (sym (
        or_assoc
          (in_block n 0 24
            || in_block n 0x0a000000 24
            || in_block n 0x7f000000 24
            || in_block n 0xa9fe0000 16
            || in_block n 0xac100000 20
            || in_block n 0xc0a80000 16
            || in_block n 0x64400000 22)
          (in_block n 0xc0000000 8) (in_block n 0xc0000200 8))))

module _ (js : Js) (exact : IsExact js) where
  -- On the dotted form of an address outside the rest of 192.0/16, `isPrivateIPv4` refuses exactly
  -- the addresses of 0/8, 10/8, 127/8, 169.254/16, 172.16/12, 192.168/16, 100.64/10, 192.0.0/24,
  -- 192.0.2/24, 198.18/15 and 224/3, each read as a prefix of the 32-bit number.
  pub is_private_ipv4-blocks :
      (n : ℕ)
      → n < 0x100000000
      → is_disputed n ≡ false
      → is_private_ipv4 js (dotted n) ≡ is_documented n
  is_private_ipv4-blocks n h d = is_private_ipv4-dotted js exact n h ∙ reserved-documented n d
