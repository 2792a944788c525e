-- ===== src/Text/Cut.antt =====
-- Laws of `cut_at`: where a text is cut at a unit.
use pytone_digital.Prelude.{
  ℕ, ◌≡◌, refl, inl, inr, true, none, some, [], ◌∷◌, ◌++◌, arith, ◌==◌, Bool-cases, Option-cases,
  All,
}
use pytone_digital.Text.{Text, is_digit, cut_at, split_at_unit}

-- A part that lacks the unit goes whole to the left of the cut.
pub cut_at-append : (c : ℕ) (x t : Text) → cut_at c x ≡ none → cut_at c (x ++ c ∷ t) ≡ some (x, t)
unfolding cut_at
cut_at-append c [] t h = ground arith
cut_at-append c (d ∷ x) t h = ground (arith, cut_at-append c x t)

pub cut_at-append_none :
    (c : ℕ) (x y : Text) → cut_at c x ≡ none → cut_at c y ≡ none → cut_at c (x ++ y) ≡ none
unfolding cut_at
cut_at-append_none c [] y h k = k
cut_at-append_none c (d ∷ x) y h k = ground (arith, cut_at-append_none c x y)

pub cut_at-digits : (x : Text) → All (λ c. is_digit c ≡ true) x → cut_at b'#' x ≡ none
unfolding cut_at
cut_at-digits [] h = refl
cut_at-digits (d ∷ x) (p, h) = ground (arith, cut_at-digits x h)

-- What was cut is put together again.
pub cut_at-join :
    (c : ℕ) (s l r : Text) → cut_at c s ≡ some (l, r) → (s ≡ l ++ c ∷ r) × (cut_at c l ≡ none)
unfolding cut_at
cut_at-join c [] l r h = ground arith
cut_at-join c (d ∷ s) l r h = elim (Bool-cases (d == c)) [
  | inl e ↦ ground arith
  | inr e ↦ elim (Option-cases (cut_at c s)) [
    | inl n ↦ ground arith
    | inr ((l', r'), q) ↦ ground (arith, cut_at-join c s l' r' q)
  ]
]

-- `split` at a unit that a part lacks.
pub split_at_unit-append :
    (c : ℕ) (x t : Text) → cut_at c x ≡ none → split_at_unit c (x ++ c ∷ t) ≡ x ∷ split_at_unit c t
unfolding cut_at split_at_unit
split_at_unit-append c [] t h = ground arith
split_at_unit-append c (d ∷ x) t h = elim (Option-cases (cut_at c x)) [
  | inl e ↦ ground (arith, split_at_unit-append c x t e)
  | inr (p, e) ↦ ground arith
]

pub split_at_unit-whole : (c : ℕ) (x : Text) → cut_at c x ≡ none → split_at_unit c x ≡ x ∷ []
unfolding cut_at split_at_unit
split_at_unit-whole c [] h = refl
split_at_unit-whole c (d ∷ x) h = elim (Option-cases (cut_at c x)) [
  | inl e ↦ ground (arith, split_at_unit-whole c x e)
  | inr (p, e) ↦ ground arith
]
