-- ===== src/Ssrf/Spellings.antt =====
-- The spellings of an IPv4 address that `canonicaliseIPv4` of ssrfGuard.ts reads, against the
-- rules of `inet_aton`.
use pytone_digital.Prelude.{
  ℕ, ◌+◌, ◌*◌, ◌≤◌, ◌<◌, ◌≡◌, refl, ap, ◌∙◌, inl, inr, Bool, true, false, ◌&&◌, ◌||◌, Option, none,
  some, List, [], ◌∷◌, ◌++◌, arith, ltb, ◌==◌, if◌then◌else◌, le→ltb_false, Bool-cases,
  Option-cases, length, all, All, All-append, any,
}
use pytone_digital.Text.Trim.{IsUnspaced, trim-unspaced}
use pytone_digital.Text.{Text, is_empty, is_digit, is_space, split_at_unit}
use pytone_digital.Text.Decimal.{show, show-digits, read_base-show, show-not_empty}
use pytone_digital.Ssrf.Ipv4.{
  dotted, is_hex_digit, is_decimal, is_octal, is_octal_digit, hex_part, parse_part, parse_parts,
  split_last, pack, canonicalise_dotted, canonicalise_ipv4, max_u32,
}

-- The address that numbers between dots denote: the last one fills what the others leave.
abbrev pub inet_aton : List ℕ → Option ℕ
inet_aton (a ∷ []) = if ltb a 0x100000000 then some a else none
inet_aton (a ∷ b ∷ []) = if ltb a 256 && ltb b 0x1000000 then some (a * 0x1000000 + b) else none
inet_aton (a ∷ b ∷ c ∷ []) =
    if ltb a 256 && ltb b 256 && ltb c 0x10000 then some (a * 0x1000000 + b * 0x10000 + c) else none
inet_aton (a ∷ b ∷ c ∷ d ∷ []) =
    if ltb a 256 && ltb b 256 && ltb c 256 && ltb d 256
    then some (a * 0x1000000 + b * 0x10000 + c * 0x100 + d)
    else none
inet_aton _ = none

abbrev pub dotted_option : Option ℕ → Option Text
dotted_option none = none
dotted_option (some n) = some (dotted n)

pack-inet_aton :
    (ns : List ℕ) → 1 ≤ length ns → length ns ≤ 4 → pack ns ≡ dotted_option (inet_aton ns)
unfolding pack split_last
pack-inet_aton [] h k = absurd (omega arith)
pack-inet_aton (a ∷ []) h k = ground arith
pack-inet_aton (a ∷ b ∷ []) h k = ground arith
pack-inet_aton (a ∷ b ∷ c ∷ []) h k = ground arith
pack-inet_aton (a ∷ b ∷ c ∷ d ∷ []) h k = ground arith
pack-inet_aton (a ∷ b ∷ c ∷ d ∷ e ∷ ns) h k = absurd (omega arith)

-- A unit that a part can hold.
abbrev is_part_unit : ℕ → Bool
is_part_unit c = is_hex_digit c || c == b'x' || c == b'X'

all-All : (p : ℕ → Bool) (s : Text) → all p s ≡ true → All (λ c. p c ≡ true) s
all-All p [] h = tt
all-All p (c ∷ s) h = (ground arith, all-All p s (ground arith))

All-weaken :
    (p q : ℕ → Bool)
    → ((c : ℕ) → p c ≡ true → q c ≡ true)
    → (s : Text) → All (λ c. p c ≡ true) s
    → All (λ c. q c ≡ true) s
All-weaken p q f [] h = tt
All-weaken p q f (c ∷ s) (h, k) = (f c h, All-weaken p q f s k)

hex_digit-part_unit : (c : ℕ) → is_hex_digit c ≡ true → is_part_unit c ≡ true
hex_digit-part_unit c h = ground arith

digit-part_unit : (c : ℕ) → is_digit c ≡ true → is_part_unit c ≡ true
digit-part_unit c h = ground arith

octal_digit-part_unit : (c : ℕ) → is_octal_digit c ≡ true → is_part_unit c ≡ true
octal_digit-part_unit c h = ground arith

hex_part-units : (p s : Text) → hex_part p ≡ some s → All (λ c. is_part_unit c ≡ true) p
hex_part-units [] s h = tt
hex_part-units (z ∷ []) s h = ground arith
hex_part-units (z ∷ x ∷ t) s h = (
  ground arith,
  (
    ground arith,
    All-weaken is_hex_digit is_part_unit hex_digit-part_unit t
        (all-All is_hex_digit t (ground arith)),
  ),
)

octal-units : (p : Text) → is_octal p ≡ true → All (λ c. is_part_unit c ≡ true) p
octal-units [] h = tt
octal-units (z ∷ s) h = (
  ground arith,
  All-weaken is_octal_digit is_part_unit octal_digit-part_unit s
      (all-All is_octal_digit s (ground arith)),
)

decimal-units : (p : Text) → is_decimal p ≡ true → All (λ c. is_part_unit c ≡ true) p
decimal-units p h =
    All-weaken is_digit is_part_unit digit-part_unit p (all-All is_digit p (ground arith))

parse_part-units : (p : Text) (v : ℕ) → parse_part p ≡ some v → All (λ c. is_part_unit c ≡ true) p
unfolding parse_part
parse_part-units p v h = elim (Option-cases (hex_part p)) [
  | inr (s, e) ↦ hex_part-units p s e
  | inl e ↦ elim (Bool-cases (is_octal p)) [
    | inl o ↦ octal-units p o
    | inr o ↦ decimal-units p (ground arith)
  ]
]

abbrev pub join_dots : List Text → Text
join_dots [] = []
join_dots (p ∷ []) = p
join_dots (p ∷ q ∷ ps) = p ++ b'.' ∷ join_dots (q ∷ ps)

abbrev IsPart : Text → Type 0
IsPart p = All (λ c. is_part_unit c ≡ true) p

parse_parts-IsPart :
    (ps : List Text) (ns : List ℕ)
    → parse_parts ps ≡ some ns
    → All IsPart ps × (length ns ≡ length ps)
unfolding parse_parts
parse_parts-IsPart [] ns h = (tt, ground arith)
parse_parts-IsPart (p ∷ ps) ns h = elim (Option-cases (parse_part p)) [
  | inl e ↦ ground arith
  | inr (v, e) ↦ elim (Option-cases (parse_parts ps)) [
    | inl f ↦ ground arith
    | inr (vs, f) ↦ (
      (parse_part-units p v e, (parse_parts-IsPart ps vs f).0),
      ground (arith, parse_parts-IsPart ps vs f),
    )
  ]
]

part_unit-unspaced : (c : ℕ) → is_part_unit c ≡ true → is_space c ≡ false
part_unit-unspaced c h = ground arith

part-IsUnspaced : (p : Text) → IsPart p → IsUnspaced p
part-IsUnspaced [] h = tt
part-IsUnspaced (c ∷ p) (h, k) = (part_unit-unspaced c h, part-IsUnspaced p k)

join_dots-IsUnspaced : (ps : List Text) → All IsPart ps → IsUnspaced (join_dots ps)
join_dots-IsUnspaced [] h = tt
join_dots-IsUnspaced (p ∷ []) (h, k) = part-IsUnspaced p h
join_dots-IsUnspaced (p ∷ q ∷ ps) (h, k) =
    All-append (λ c. is_space c ≡ false) p (b'.' ∷ join_dots (q ∷ ps)) (part-IsUnspaced p h)
      (refl, join_dots-IsUnspaced (q ∷ ps) k)

split_at_unit-part :
    (p t : Text) → IsPart p → split_at_unit b'.' (p ++ b'.' ∷ t) ≡ p ∷ split_at_unit b'.' t
unfolding split_at_unit
split_at_unit-part [] t h = refl
split_at_unit-part (c ∷ p) t (h, k) = ground (arith, split_at_unit-part p t k)

split_at_unit-part_end : (p : Text) → IsPart p → split_at_unit b'.' p ≡ p ∷ []
unfolding split_at_unit
split_at_unit-part_end [] h = refl
split_at_unit-part_end (c ∷ p) (h, k) = ground (arith, split_at_unit-part_end p k)

split_at_unit-join_dots :
    (p : Text) (ps : List Text)
    → All IsPart (p ∷ ps)
    → split_at_unit b'.' (join_dots (p ∷ ps)) ≡ p ∷ ps
split_at_unit-join_dots p [] (h, k) = split_at_unit-part_end p h
split_at_unit-join_dots p (q ∷ ps) (h, k) =
    split_at_unit-part p (join_dots (q ∷ ps)) h ∙ ap (λ l. p ∷ l) (split_at_unit-join_dots q ps k)

all_digits-dot : (p t : Text) → all is_digit (p ++ b'.' ∷ t) ≡ false
all_digits-dot [] t = refl
all_digits-dot (c ∷ p) t = ground (arith, all_digits-dot p t)

all_hex-dot : (p t : Text) → all is_hex_digit (p ++ b'.' ∷ t) ≡ false
all_hex-dot [] t = refl
all_hex-dot (c ∷ p) t = ground (arith, all_hex-dot p t)

hex_part-dot : (p t : Text) → hex_part (p ++ b'.' ∷ t) ≡ none
hex_part-dot [] [] = refl
hex_part-dot [] (c ∷ t) = refl
hex_part-dot (z ∷ []) t = ground arith
hex_part-dot (z ∷ x ∷ p) t = ground (arith, all_hex-dot p t)

canonicalise_dotted-parts :
    (p : Text) (ps : List Text) (ns : List ℕ)
    → parse_parts (p ∷ ps) ≡ some ns
    → length ps ≤ 3
    → canonicalise_dotted (join_dots (p ∷ ps)) ≡ dotted_option (inet_aton ns)
unfolding canonicalise_dotted
canonicalise_dotted-parts p ps ns h k =
    rw
      (
        split_at_unit-join_dots p ps (parse_parts-IsPart (p ∷ ps) ns h).0,
        le→ltb_false 4 (length (p ∷ ps)) (omega arith),
        h,
      )
      (pack-inet_aton ns (omega (arith, (parse_parts-IsPart (p ∷ ps) ns h).1))
        (omega (arith, (parse_parts-IsPart (p ∷ ps) ns h).1)))

-- The same with the parts as the code reads them.
pub canonicalise_ipv4-parts :
    (p q : Text) (ps : List Text) (ns : List ℕ)
    → parse_parts (p ∷ q ∷ ps) ≡ some ns
    → length ps ≤ 2
    → canonicalise_ipv4 (join_dots (p ∷ q ∷ ps)) ≡ dotted_option (inet_aton ns)
unfolding canonicalise_ipv4
canonicalise_ipv4-parts p q ps ns h k =
    rw
      (
        trim-unspaced (join_dots (p ∷ q ∷ ps))
            (join_dots-IsUnspaced (p ∷ q ∷ ps) (parse_parts-IsPart (p ∷ q ∷ ps) ns h).0),
        not_empty p (join_dots (q ∷ ps)),
        all_digits-dot p (join_dots (q ∷ ps)),
        hex_part-dot p (join_dots (q ∷ ps)),
        trim-unspaced (join_dots (p ∷ q ∷ ps))
            (join_dots-IsUnspaced (p ∷ q ∷ ps) (parse_parts-IsPart (p ∷ q ∷ ps) ns h).0),
      )
      (canonicalise_dotted-parts p (q ∷ ps) ns h (omega arith))
  where
    not_empty : (x t : Text) → is_empty (x ++ b'.' ∷ t) ≡ false
    not_empty [] t = refl
    not_empty (c ∷ x) t = refl

digits-IsPart : (s : Text) → All (λ c. is_digit c ≡ true) s → IsPart s
digits-IsPart s h = All-weaken is_digit is_part_unit digit-part_unit s h

part-colon : (p : Text) → IsPart p → any (λ c. c == b':') p ≡ false
part-colon [] h = refl
part-colon (c ∷ p) (h, k) = ground (arith, part-colon p k)

any-append :
    (f : ℕ → Bool) (s t : Text) → any f s ≡ false → any f t ≡ false → any f (s ++ t) ≡ false
any-append f [] t h k = k
any-append f (c ∷ s) t h k = ground (arith, any-append f s t)

join_dots_of-colon : (ps : List Text) → All IsPart ps → any (λ c. c == b':') (join_dots ps) ≡ false
join_dots_of-colon [] h = refl
join_dots_of-colon (p ∷ []) (h, k) = part-colon p h
join_dots_of-colon (p ∷ q ∷ ps) (h, k) =
    any-append (λ c. c == b':') p (b'.' ∷ join_dots (q ∷ ps)) (part-colon p h)
      (join_dots_of-colon (q ∷ ps) k)

-- Parts joined by dots are not read as an IPv6 address.
pub join_dots-colon :
    (ps : List Text) (ns : List ℕ)
    → parse_parts ps ≡ some ns
    → any (λ c. c == b':') (join_dots ps) ≡ false
join_dots-colon ps ns h = join_dots_of-colon ps (parse_parts-IsPart ps ns h).0

pub inet_aton-lt : (ns : List ℕ) (n : ℕ) → inet_aton ns ≡ some n → n < 0x100000000
inet_aton-lt [] n h = ground arith
inet_aton-lt (a ∷ []) n h = ground arith
inet_aton-lt (a ∷ b ∷ []) n h = ground arith
inet_aton-lt (a ∷ b ∷ c ∷ []) n h = ground arith
inet_aton-lt (a ∷ b ∷ c ∷ d ∷ []) n h = ground arith
inet_aton-lt (a ∷ b ∷ c ∷ d ∷ e ∷ ns) n h = ground arith

pub all-digits : (s : Text) → All (λ c. is_digit c ≡ true) s → all is_digit s ≡ true
all-digits [] h = refl
all-digits (c ∷ s) (h, k) = rw h (all-digits s k)

-- The decimal spelling of a 32-bit number is canonicalised to its dotted form.
pub canonicalise_ipv4-show :
    (n : ℕ) → n < 0x100000000 → canonicalise_ipv4 (show n) ≡ some (dotted n)
unfolding canonicalise_ipv4
canonicalise_ipv4-show n h =
    rw
      (
        trim-unspaced (show n) (part-IsUnspaced (show n) (digits-IsPart (show n) (show-digits n))),
        show-not_empty n,
        all-digits (show n) (show-digits n),
        read_base-show n,
        le→ltb_false max_u32 n (omega arith),
      )
      refl
