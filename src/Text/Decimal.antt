-- ===== src/Text/Decimal.antt =====
-- `String(n)` of a non-negative integer, and the reading of digits in a base.
use pytone_digital.Prelude.{
  ℕ, zero, suc, ◌+◌, ◌-◌, ◌*◌, ◌/◌, ◌%◌, ◌<◌, ◌≡◌, refl, sym, ap, ◌∙◌, inl, inr, true, List, [],
  ◌∷◌, ◌++◌, foldl, arith, ltb, leb, if◌then◌else◌, ltb→lt, Bool-cases, All, All-append, false,
}
use pytone_digital.Text.{Text, is_digit, is_empty}

show_fuel : ℕ → ℕ → Text
show_fuel zero n = []
show_fuel (suc f) n =
    let rest = show_fuel f (n / 10) in
    if ltb n 10 then (n + 48) ∷ [] else rest ++ ((n % 10 + 48) ∷ [])

unfoldable pub show : ℕ → Text
unfolding show_fuel
show n = show_fuel (suc n) n

-- The value of one digit of a base up to 16; other units are not met.
abbrev pub digit_value : ℕ → ℕ
digit_value c = if leb 97 c then c - 87 else if leb 65 c then c - 55 else c - 48

abbrev pub add_digit : ℕ → ℕ → ℕ → ℕ
add_digit base acc c = acc * base + digit_value c

-- `parseInt(s, base)` of a text that holds only digits of the base.
unfoldable pub read_base : ℕ → Text → ℕ
read_base base s = foldl (add_digit base) 0 s

IsDigit-of_lt : (d : ℕ) → d < 10 → is_digit (d + 48) ≡ true
IsDigit-of_lt d h = ground arith

show_fuel-digits : (f n : ℕ) → All (λ c. is_digit c ≡ true) (show_fuel f n)
unfolding show_fuel
show_fuel-digits zero n = tt
show_fuel-digits (suc f) n = elim (Bool-cases (ltb n 10)) [
  | inl small ↦ rw small (IsDigit-of_lt n (ltb→lt n 10 small), tt)
  | inr large ↦ rw large (
      All-append (λ c. is_digit c ≡ true) (show_fuel f (n / 10)) ((n % 10 + 48) ∷ [])
        (show_fuel-digits f (n / 10)) (IsDigit-of_lt (n % 10) (omega arith), tt))
]

-- A printed number holds decimal digits only.
pub show-digits : (n : ℕ) → All (λ c. is_digit c ≡ true) (show n)
unfolding show
show-digits n = show_fuel-digits (suc n) n

pub foldl-append {ℓ κ} :
    {A : Type ℓ} {B : Type κ} (f : B → A → B) (b : B) (xs ys : List A)
    → foldl f b (xs ++ ys) ≡ foldl f (foldl f b xs) ys
foldl-append f b [] ys = refl
foldl-append f b (x ∷ xs) ys = foldl-append f (f b x) xs ys

pub add_digit-digit : (a d : ℕ) → d < 10 → add_digit 10 a (d + 48) ≡ a * 10 + d
add_digit-digit a d h = ground arith

read_base-show_fuel : (f n : ℕ) → n < f → read_base 10 (show_fuel f n) ≡ n
unfolding read_base show_fuel
read_base-show_fuel zero n h = absurd (omega arith)
read_base-show_fuel (suc f) n h = elim (Bool-cases (ltb n 10)) [
  | inl small ↦ rw small (add_digit-digit 0 n (ltb→lt n 10 small) ∙ omega arith)
  | inr large ↦
      rw
        (
          large,
          foldl-append (add_digit 10) 0 (show_fuel f (n / 10)) ((n % 10 + 48) ∷ []),
          read_base-show_fuel f (n / 10) (ground arith),
        )
        (add_digit-digit (n / 10) (n % 10) (omega arith) ∙ omega arith)
]

-- Reading a printed number gives it back.
pub read_base-show : (n : ℕ) → read_base 10 (show n) ≡ n
unfolding show
read_base-show n = read_base-show_fuel (suc n) n (omega arith)

pub show-injective : (m n : ℕ) → show m ≡ show n → m ≡ n
show-injective m n e = sym (read_base-show m) ∙ ap (read_base 10) e ∙ read_base-show n

append-not_empty : (x : Text) (c : ℕ) → is_empty (x ++ c ∷ []) ≡ false
append-not_empty [] c = refl
append-not_empty (d ∷ x) c = refl

pub show-not_empty : (n : ℕ) → is_empty (show n) ≡ false
unfolding show show_fuel
show-not_empty n = elim (Bool-cases (ltb n 10)) [
  | inl small ↦ rw small refl
  | inr large ↦ rw large (append-not_empty (show_fuel n (n / 10)) (n % 10 + 48))
]
