-- ===== src/Password/Tests.antt =====
-- The theorem on verifyPassword at a concrete input.
use pytone_digital.Prelude.{◌≡◌, refl, ◌↔◌, true, some, ◌++◌, arith}
use pytone_digital.Text.{codes, cut_at}
use pytone_digital.Text.Decimal.{read_base}
use pytone_digital.Password.{Crypto, verify_password}
use pytone_digital.Password.Compare.{stored_form, verify_password_iff}

-- A derivation that appends the salt.
abbrev salted : Crypto
salted = record {
  base64 = λ t. some t;
  derive = λ password salt n. some (password ++ salt);
  integer = λ t. some (read_base 10 t);
}

verify_password_iff_example :
    (verify_password salted (codes "pw") (stored_form (codes "1000") (codes "s") (codes "pwt"))
      ≡ some true)
    ↔ (codes "pws" ≡ codes "pwt")
unfolding cut_at read_base
verify_password_iff_example =
    verify_password_iff salted (codes "pw") (codes "1000") (codes "s") (codes "pwt") 1000
      (codes "s") (codes "pwt") (codes "pws") refl refl refl refl (omega arith) refl refl refl
