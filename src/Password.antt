-- ===== src/Password.antt =====
-- The check of a stored password, `verifyPassword` of apps/web/src/lib/auth/password.ts. The key
-- derivation and base64 are parameters.
pub mod Compare
mod Tests
use pytone_digital.Prelude.{
  ℕ, zero, suc, ◌+◌, ◌-◌, ◌*◌, ◌/◌, ◌%◌, ◌^◌, ◌≤◌, ◌<◌, min, max, String, ◌≡◌, refl, sym, ap, ◌∙◌,
  subst, ◌≡⟨◌⟩◌, ◌∎, ◌≢◌, ◌↔◌, ◌⊎◌, inl, inr, Bool, true, false, not, ◌&&◌, ◌||◌, Option, none,
  some, List, [], ◌∷◌, ◌++◌, map, foldl, reverse, arith, ltb, leb, ◌==◌, if◌then◌else◌, ltb→lt,
  lt→ltb, le→ltb_false, leb→le, le→leb, ==_iff, Bool-cases, Option-cases, length, get_elem?, take,
  drop, keep, any, all, length-append, length-keep-le, All, All-append, All-append_left,
  All-append_right,
}
use Prim.Native.Nat.{bit_or, bit_xor}
use pytone_digital.Text.{Text, codes, text_eq, split_at_unit}

-- The parts of a password's check that the runtime gives: `atob` (bytes), the derivation of a key
-- (`none` when it throws), and `Number(text)` when it is an integer.
pub record Crypto : Type 0 where
  pub base64 : Text → Option (List ℕ)
  pub derive : Text → List ℕ → ℕ → Option (List ℕ)
  pub integer : Text → Option ℕ

-- The loop `diff |= actual[i] ^ expected[i]`
unfoldable pub diff_of : ℕ → List ℕ → List ℕ → ℕ
diff_of diff [] _ = diff
diff_of diff (a ∷ actual) [] = diff_of (bit_or diff a) actual []
diff_of diff (a ∷ actual) (b ∷ expected) = diff_of (bit_or diff (bit_xor a b)) actual expected

abbrev pub compare_keys : List ℕ → Option (List ℕ) → Option Bool
compare_keys expected none = none
compare_keys expected (some actual) =
    some (length actual == length expected && diff_of 0 actual expected == 0)

module _ (crypto : Crypto) where
  abbrev pub check_key : Text → ℕ → Option (List ℕ) → Option (List ℕ) → Option Bool
  check_key password iterations none _ = some false
  check_key password iterations (some salt) none = some false
  check_key password iterations (some salt) (some expected) =
      compare_keys expected (crypto.derive password salt iterations)

  abbrev pub check_iterations : Text → Option ℕ → Text → Text → Option Bool
  check_iterations password none salt hash = some false
  check_iterations password (some n) salt hash =
      if ltb n 1000
      then some false
      else check_key password n (crypto.base64 salt) (crypto.base64 hash)

  abbrev pub check_parts : Text → List Text → Option Bool
  check_parts password (tag ∷ n ∷ salt ∷ hash ∷ []) =
      if text_eq tag (codes "pbkdf2")
      then check_iterations password (crypto.integer n) salt hash
      else some false
  check_parts password _ = some false

  -- `verifyPassword`; `none` when the derivation throws.
  unfoldable pub verify_password : Text → Text → Option Bool
  verify_password password stored = check_parts password (split_at_unit b'$' stored)
