-- ===== src/Epg/Stamps.antt =====
-- A stamp of a guide is read as the time that it names.
use pytone_digital.Prelude.{
  ℕ, zero, suc, ◌+◌, ◌-◌, ◌*◌, ◌/◌, ◌%◌, ◌<◌, ◌≡◌, refl, sym, ap, ◌∙◌, Bool, true, some, [], ◌∷◌,
  ◌++◌, arith, ◌==◌, length, take, drop, all, length-append, All, All-append,
}
use mathlib.Core.List.{append-nil}
use pytone_digital.Text.{Text, is_digit}
use pytone_digital.Text.Decimal.{read_base, add_digit, add_digit-digit, foldl-append}
use pytone_digital.Epg.Stamp.{date_utc, read_digits, less_offset, parse_xmltv_date, skip_spaces}

-- The numbers with at most so many digits.
abbrev limit : ℕ → ℕ
limit zero = 1
limit (suc n) = 10 * limit n

-- A number with a fixed count of digits.
pub padded : ℕ → ℕ → Text
padded zero v = []
padded (suc n) v = padded n (v / 10) ++ (v % 10 + 48) ∷ []

digit-unit : (v : ℕ) → is_digit (v % 10 + 48) ≡ true
digit-unit v = ground arith

padded-digits : (n v : ℕ) → All (λ c. is_digit c ≡ true) (padded n v)
unfolding padded
padded-digits zero v = tt
padded-digits (suc n) v =
    All-append (λ c. is_digit c ≡ true) (padded n (v / 10)) ((v % 10 + 48) ∷ [])
      (padded-digits n (v / 10)) (digit-unit v, tt)

length-padded : (n v : ℕ) → length (padded n v) ≡ n
unfolding padded
length-padded zero v = refl
length-padded (suc n) v =
    length-append (padded n (v / 10)) ((v % 10 + 48) ∷ []) ∙ omega (arith, length-padded n (v / 10))

read_base-padded : (n v : ℕ) → v < limit n → read_base 10 (padded n v) ≡ v
unfolding padded read_base
read_base-padded zero v h = ground arith
read_base-padded (suc n) v h =
    foldl-append (add_digit 10) 0 (padded n (v / 10)) ((v % 10 + 48) ∷ [])
    ∙ ap (λ a. add_digit 10 a (v % 10 + 48)) (read_base-padded n (v / 10) (omega arith))
    ∙ add_digit-digit (v / 10) (v % 10) (omega arith)
    ∙ omega arith

take-append : (xs ys : Text) → take (length xs) (xs ++ ys) ≡ xs
take-append [] ys = refl
take-append (x ∷ xs) ys = ap (λ l. x ∷ l) (take-append xs ys)

drop-append : (xs ys : Text) → drop (length xs) (xs ++ ys) ≡ ys
drop-append [] ys = refl
drop-append (x ∷ xs) ys = drop-append xs ys

all-All : (f : ℕ → Bool) (xs : Text) → All (λ c. f c ≡ true) xs → all f xs ≡ true
all-All f [] h = refl
all-All f (x ∷ xs) (h, hs) = ground (arith, all-All f xs)

-- The digits in front are read, and the rest is left.
read_digits-padded :
    (n v : ℕ) (rest : Text) → v < limit n → read_digits n (padded n v ++ rest) ≡ some (v, rest)
unfolding read_digits
read_digits-padded n v rest h =
    rw
      (
        front,
        back,
        length-padded n v,
        all-All is_digit (padded n v) (padded-digits n v),
        read_base-padded n v h,
        counted,
      )
      refl
  where
    front : take n (padded n v ++ rest) ≡ padded n v
    front =
        ap (λ k. take k (padded n v ++ rest)) (sym (length-padded n v))
        ∙ take-append (padded n v) rest

    back : drop n (padded n v ++ rest) ≡ rest
    back =
        ap (λ k. drop k (padded n v ++ rest)) (sym (length-padded n v))
        ∙ drop-append (padded n v) rest

    counted : (n == n) ≡ true
    counted = ground arith

-- A stamp, by its fields and its zone.
pub stamp : ℕ → ℕ → ℕ → ℕ → ℕ → ℕ → Text → Text
stamp y mo d h mi se zone =
    padded 4 y
    ++ (padded 2 mo ++ (padded 2 d ++ (padded 2 h ++ (padded 2 mi ++ (padded 2 se ++ zone)))))

-- The fields are two digits each, the year four; they need not be in range.
abbrev pub IsFields : ℕ → ℕ → ℕ → ℕ → ℕ → ℕ → Type 0
IsFields y mo d h mi se = (y < 10000) × (mo < 100) × (d < 100) × (h < 100) × (mi < 100) × (se < 100)

module _ (y mo d h mi se : ℕ) (fields : IsFields y mo d h mi se) where
  parse_xmltv_date-stamp_zone :
      (zone : Text)
      → parse_xmltv_date (stamp y mo d h mi se zone)
        ≡ some (less_offset (date_utc y mo d h mi se) (skip_spaces zone))
  unfolding parse_xmltv_date stamp
  parse_xmltv_date-stamp_zone zone =
      rw
        (
          read_digits-padded 4 y
              (padded 2 mo
                ++ (padded 2 d ++ (padded 2 h ++ (padded 2 mi ++ (padded 2 se ++ zone)))))
              fields.0,
          read_digits-padded 2 mo
              (padded 2 d ++ (padded 2 h ++ (padded 2 mi ++ (padded 2 se ++ zone)))) fields.1,
          read_digits-padded 2 d (padded 2 h ++ (padded 2 mi ++ (padded 2 se ++ zone))) fields.2,
          read_digits-padded 2 h (padded 2 mi ++ (padded 2 se ++ zone)) fields.3,
          read_digits-padded 2 mi (padded 2 se ++ zone) fields.4,
          read_digits-padded 2 se zone fields.5,
        )
        refl

  -- A stamp without a zone is read as UTC; one with an offset, with a space in front of it or
  -- not, is read as its fields in UTC less the offset, which counts hours and minutes.
  pub parse_xmltv_date-stamp :
      (offset : ℕ)
      → offset < 10000
      → (parse_xmltv_date (stamp y mo d h mi se []) ≡ some (date_utc y mo d h mi se))
        × (parse_xmltv_date (stamp y mo d h mi se (b' ' ∷ b'+' ∷ padded 4 offset))
            ≡ some (date_utc y mo d h mi se - (offset / 100 * 60 + offset % 100) * 60000))
        × (parse_xmltv_date (stamp y mo d h mi se (b'+' ∷ padded 4 offset))
            ≡ some (date_utc y mo d h mi se - (offset / 100 * 60 + offset % 100) * 60000))
        × (parse_xmltv_date (stamp y mo d h mi se (b' ' ∷ b'-' ∷ padded 4 offset))
            ≡ some (date_utc y mo d h mi se + (offset / 100 * 60 + offset % 100) * 60000))
  unfolding less_offset
  parse_xmltv_date-stamp offset small = (
    parse_xmltv_date-stamp_zone [],
    parse_xmltv_date-stamp_zone (b' ' ∷ b'+' ∷ padded 4 offset) ∙ rw read refl,
    parse_xmltv_date-stamp_zone (b'+' ∷ padded 4 offset) ∙ rw read refl,
    parse_xmltv_date-stamp_zone (b' ' ∷ b'-' ∷ padded 4 offset) ∙ rw read refl,
  )
    where
      read : read_digits 4 (padded 4 offset) ≡ some (offset, [])
      read =
          ap (read_digits 4) (sym (append-nil (padded 4 offset)))
          ∙ read_digits-padded 4 offset [] small
