-- ===== src/Password/Compare.antt =====
-- The comparison of two keys in password.ts, which does not stop at the first difference.
use pytone_digital.Prelude.{
  ℕ, zero, suc, ◌/◌, ◌%◌, ◌≤◌, max, ◌≡◌, refl, sym, ap, ◌∙◌, subst, ◌↔◌, inl, inr, true, false,
  none, some, List, [], ◌∷◌, ◌++◌, arith, ◌==◌, le→ltb_false, ==_iff, Bool-cases, length,
}
use pytone_digital.Text.{Text, codes, cut_at, split_at_unit}
use pytone_digital.Text.Cut.{split_at_unit-append, split_at_unit-whole}
use Prim.Native.Nat.{digits, differ, bit_or, bit_xor, bit_or-bitwise, bit_xor-bitwise}
use pytone_digital.Password.{Crypto, diff_of, compare_keys, verify_password}

differ-zero : (x y : ℕ) → differ x y ≡ 0 → x ≡ y
differ-zero zero zero h = refl
differ-zero zero (suc y) h = omega arith
differ-zero (suc x) zero h = omega arith
differ-zero (suc x) (suc y) h = ap suc (differ-zero x y h)

differ_self : (x : ℕ) → differ x x ≡ 0
differ_self zero = refl
differ_self (suc x) = differ_self x

xor_digits-zero : (n a b : ℕ) → a ≤ n → digits (λ b. b) differ n a b ≡ 0 → a ≡ b
xor_digits-zero zero a b le h = omega arith
xor_digits-zero (suc n) zero b le h = omega arith
xor_digits-zero (suc n) (suc a) b le h =
    let high = xor_digits-zero n (suc a / 2) (b / 2) (omega arith) (omega arith) in
    let low = differ-zero (suc a % 2) (b % 2) (omega arith) in omega arith

xor_digits_self : (n a : ℕ) → a ≤ n → digits (λ b. b) differ n a a ≡ 0
xor_digits_self zero a le = omega arith
xor_digits_self (suc n) zero le = refl
xor_digits_self (suc n) (suc a) le =
    omega (arith, xor_digits_self n (suc a / 2) (omega arith), differ_self (suc a % 2))

or_digits-zero : (n a b : ℕ) → a ≤ n → digits (λ b. b) max n a b ≡ 0 → (a ≡ 0) × (b ≡ 0)
or_digits-zero zero a b le h = (omega arith, omega arith)
or_digits-zero (suc n) zero b le h = (refl, omega arith)
or_digits-zero (suc n) (suc a) b le h =
    let (p, q) = or_digits-zero n (suc a / 2) (b / 2) (omega arith) (omega arith) in
    (omega arith, omega arith)

xor_bitwise : (a b : ℕ) → bit_xor a b ≡ digits (λ b. b) differ a a b
xor_bitwise a b = λ i. bit_xor-bitwise a b i

or_bitwise : (a b : ℕ) → bit_or a b ≡ digits (λ b. b) max a a b
or_bitwise a b = λ i. bit_or-bitwise a b i

bit_xor-zero : (a b : ℕ) → (bit_xor a b ≡ 0) ↔ (a ≡ b)
bit_xor-zero a b = (
  λ h. xor_digits-zero a a b (omega arith) (sym (xor_bitwise a b) ∙ h),
  λ e. subst (λ c. bit_xor a c ≡ 0) e (xor_bitwise a a ∙ xor_digits_self a a (omega arith)),
)

bit_or-zero : (a b : ℕ) → bit_or a b ≡ 0 → (a ≡ 0) × (b ≡ 0)
bit_or-zero a b h = or_digits-zero a a b (omega arith) (sym (or_bitwise a b) ∙ h)

diff_of-same : (xs : List ℕ) → diff_of 0 xs xs ≡ 0
unfolding diff_of
diff_of-same [] = refl
diff_of-same (x ∷ xs) = rw ((bit_xor-zero x x).1 refl, or_bitwise 0 0) (diff_of-same xs)

diff_of-zero :
    (d : ℕ) (xs ys : List ℕ) → length xs ≡ length ys → diff_of d xs ys ≡ 0 → (d ≡ 0) × (xs ≡ ys)
unfolding diff_of
diff_of-zero d [] [] e h = (h, refl)
diff_of-zero d [] (y ∷ ys) e h = absurd (omega arith)
diff_of-zero d (x ∷ xs) [] e h = absurd (omega arith)
diff_of-zero d (x ∷ xs) (y ∷ ys) e h =
    let (p, q) = diff_of-zero (bit_or d (bit_xor x y)) xs ys (omega arith) h in
    let (no_old, no_new) = bit_or-zero d (bit_xor x y) p in
    (no_old, ap (λ z. z ∷ xs) ((bit_xor-zero x y).0 no_new) ∙ ap (λ zs. y ∷ zs) q)

-- The comparison accepts a key exactly when it is the expected one.
compare_keys_iff :
    (expected actual : List ℕ)
    → (compare_keys expected (some actual) ≡ some true) ↔ (actual ≡ expected)
compare_keys_iff expected actual = (same, back)
  where
    rejected : some false ≡ some true → ⊥
    rejected q = cc

    same : compare_keys expected (some actual) ≡ some true → actual ≡ expected
    same h = elim (Bool-cases (length actual == length expected)) [
      | inl e ↦ elim (Bool-cases (diff_of 0 actual expected == 0)) [
        | inl q ↦
            (diff_of-zero 0 actual expected ((==_iff (length actual) (length expected)).0 e)
              ((==_iff (diff_of 0 actual expected) 0).0 q)).1
        | inr q ↦ absurd (rejected (rw (e, q) at h))
      ]
      | inr e ↦ absurd (rejected (rw e at h))
    ]

    back : actual ≡ expected → compare_keys expected (some actual) ≡ some true
    back e =
        subst (λ k. compare_keys k (some actual) ≡ some true) e
          (rw ((==_iff (length actual) (length actual)).1 refl, diff_of-same actual) refl)

-- A stored password, `pbkdf2$<iterations>$<salt>$<hash>`.
abbrev pub stored_form : Text → Text → Text → Text
stored_form n salt hash = codes "pbkdf2" ++ b'$' ∷ (n ++ b'$' ∷ (salt ++ b'$' ∷ hash))

split_stored :
    (n salt hash : Text)
    → cut_at b'$' n ≡ none
    → cut_at b'$' salt ≡ none
    → cut_at b'$' hash ≡ none
    → split_at_unit b'$' (stored_form n salt hash) ≡ codes "pbkdf2" ∷ n ∷ salt ∷ hash ∷ []
split_stored n salt hash p q r =
    split_at_unit-append b'$' (codes "pbkdf2") (n ++ b'$' ∷ (salt ++ b'$' ∷ hash))
      (unfold cut_at in refl)
    ∙ ap (λ l. codes "pbkdf2" ∷ l)
        (split_at_unit-append b'$' n (salt ++ b'$' ∷ hash) p
          ∙ ap (λ l. n ∷ l)
              (split_at_unit-append b'$' salt hash q
                ∙ ap (λ l. salt ∷ l) (split_at_unit-whole b'$' hash r)))

-- A password is accepted for a stored form exactly when the key that is derived from it, with the
-- salt and the number of iterations of the form, is the one of the form. The parts of the form
-- hold no dollar sign and can be read, and there are at least 1000 iterations.
pub verify_password_iff :
    (crypto : Crypto) (password n salt hash : Text) (iterations : ℕ) (s key actual : List ℕ)
    → cut_at b'$' n ≡ none
    → cut_at b'$' salt ≡ none
    → cut_at b'$' hash ≡ none
    → crypto.integer n ≡ some iterations
    → 1000 ≤ iterations
    → crypto.base64 salt ≡ some s
    → crypto.base64 hash ≡ some key
    → crypto.derive password s iterations ≡ some actual
    → (verify_password crypto password (stored_form n salt hash) ≡ some true) ↔ (actual ≡ key)
unfolding verify_password
verify_password_iff crypto password n salt hash iterations s key actual p q r e le salted hashed d =
    rw (split_stored n salt hash p q r, e, le→ltb_false iterations 1000 le, salted, hashed, d)
      (compare_keys_iff key actual)
