-- ===== src/Text/Equality.antt =====
-- Laws of text equality and of the text operations that other modules prove things with.
use pytone_digital.Prelude.{◌≡◌, refl, ◌≢◌, ◌↔◌, inl, inr, true, false, [], ◌∷◌, arith, Bool-cases}
use pytone_digital.Text.{Text, text_eq}

text_eq→eq : (a b : Text) → text_eq a b ≡ true → a ≡ b
text_eq→eq [] [] h = refl
text_eq→eq [] (_ ∷ _) h = ground arith
text_eq→eq (_ ∷ _) [] h = ground arith
text_eq→eq (x ∷ a) (y ∷ b) h = ground (arith, text_eq→eq a b)

pub text_eq_refl : (a : Text) → text_eq a a ≡ true
text_eq_refl [] = refl
text_eq_refl (x ∷ a) = ground (arith, text_eq_refl a)

pub text_eq_iff : (a b : Text) → (text_eq a b ≡ true) ↔ (a ≡ b)
text_eq_iff a b = (text_eq→eq a b, λ e. subst_right e)
  where
    subst_right : a ≡ b → text_eq a b ≡ true
    subst_right e = ground (arith, text_eq_refl a)

pub text_eq-false : (a b : Text) → a ≢ b → text_eq a b ≡ false
text_eq-false a b h = elim (Bool-cases (text_eq a b)) [
  | inl e ↦ absurd (h (text_eq→eq a b e))
  | inr e ↦ e
]
