-- ===== src/Users/Flat.antt =====
-- Accounts written as lists of numbers, for the tests of the code that stores them.
use pytone_digital.Prelude.{
  ℕ, zero, suc, ◌≡◌, refl, ◌∙◌, Bool, true, false, Option, none, some, [], ◌∷◌,
}
use pytone_digital.Text.{Text}
use pytone_digital.Kv.{Codec, IsCodec}
use pytone_digital.Kv.Flat.{
  write_text, read_text, read_text-write_text, write_option, read_option, read_option-write_option,
  write_number, read_number,
}
use pytone_digital.Access.{UserRecord}

abbrev write_moment : Option ℕ → Text → Text
write_moment none rest = 0 ∷ rest
write_moment (some n) rest = 1 ∷ n ∷ rest

abbrev read_some : {A : Type 0} → Text → (Option ℕ → Text → Option A) → Option A
read_some [] k = none
read_some (n ∷ rest) k = k (some n) rest

abbrev read_moment : {A : Type 0} → Text → (Option ℕ → Text → Option A) → Option A
read_moment [] k = none
read_moment (zero ∷ rest) k = k none rest
read_moment (suc n ∷ rest) k = read_some rest k

read_moment-write_moment :
    {A : Type 0} (o : Option ℕ) (rest : Text) (k : Option ℕ → Text → Option A)
    → read_moment (write_moment o rest) k ≡ k o rest
read_moment-write_moment none rest k = refl
read_moment-write_moment (some n) rest k = refl

abbrev write_flag : Option Bool → Text → Text
write_flag none rest = 0 ∷ rest
write_flag (some false) rest = 1 ∷ rest
write_flag (some true) rest = 2 ∷ rest

abbrev flag_at : ℕ → Option Bool
flag_at zero = none
flag_at (suc zero) = some false
flag_at (suc (suc n)) = some true

abbrev read_flag : {A : Type 0} → Text → (Option Bool → Text → Option A) → Option A
read_flag [] k = none
read_flag (n ∷ rest) k = k (flag_at n) rest

read_flag-write_flag :
    {A : Type 0} (o : Option Bool) (rest : Text) (k : Option Bool → Text → Option A)
    → read_flag (write_flag o rest) k ≡ k o rest
read_flag-write_flag none rest k = refl
read_flag-write_flag (some false) rest k = refl
read_flag-write_flag (some true) rest k = refl

abbrev read_8 :
    Text
    → Text
    → Option Text
    → Option Bool
    → ℕ
    → Option ℕ
    → Option ℕ
    → Option ℕ
    → Text
    → Option UserRecord
read_8 a b c d e f g h rest = some (record {
  user_id = a;
  email = b;
  password_hash = c;
  legacy_migrated = d;
  created_at = e;
  last_login_at = f;
  trial_started_at = g;
  subscribed_until = h;
})

abbrev read_7 :
    Text → Text → Option Text → Option Bool → ℕ → Option ℕ → Option ℕ → Text → Option UserRecord
read_7 a b c d e f g rest = read_moment rest (read_8 a b c d e f g)

abbrev read_6 : Text → Text → Option Text → Option Bool → ℕ → Option ℕ → Text → Option UserRecord
read_6 a b c d e f rest = read_moment rest (read_7 a b c d e f)

abbrev read_5 : Text → Text → Option Text → Option Bool → ℕ → Text → Option UserRecord
read_5 a b c d e rest = read_moment rest (read_6 a b c d e)

abbrev read_4 : Text → Text → Option Text → Option Bool → Text → Option UserRecord
read_4 a b c d rest = read_number rest (read_5 a b c d)

abbrev read_3 : Text → Text → Option Text → Text → Option UserRecord
read_3 a b c rest = read_flag rest (read_4 a b c)

abbrev read_2 : Text → Text → Text → Option UserRecord
read_2 a b rest = read_option rest (read_3 a b)

abbrev read_1 : Text → Text → Option UserRecord
read_1 a rest = read_text rest (read_2 a)

abbrev read_0 : Text → Option UserRecord
read_0 rest = read_text rest (read_1)

abbrev write_8 : UserRecord → Text
write_8 u = []

abbrev write_7 : UserRecord → Text
write_7 u = write_moment u.subscribed_until (write_8 u)

abbrev write_6 : UserRecord → Text
write_6 u = write_moment u.trial_started_at (write_7 u)

abbrev write_5 : UserRecord → Text
write_5 u = write_moment u.last_login_at (write_6 u)

abbrev write_4 : UserRecord → Text
write_4 u = write_number u.created_at (write_5 u)

abbrev write_3 : UserRecord → Text
write_3 u = write_flag u.legacy_migrated (write_4 u)

abbrev write_2 : UserRecord → Text
write_2 u = write_option u.password_hash (write_3 u)

abbrev write_1 : UserRecord → Text
write_1 u = write_text u.email (write_2 u)

abbrev write_0 : UserRecord → Text
write_0 u = write_text u.user_id (write_1 u)

abbrev pub flat_users : Codec UserRecord
flat_users = record { encode = write_0; decode = read_0 }

pub flat_users-IsCodec : IsCodec flat_users
flat_users-IsCodec = record {
  decode-encode = λ u.
      read_text-write_text u.user_id (write_1 u) (read_1)
      ∙ read_text-write_text u.email (write_2 u) (read_2 u.user_id)
      ∙ read_option-write_option u.password_hash (write_3 u) (read_3 u.user_id u.email)
      ∙ read_flag-write_flag u.legacy_migrated (write_4 u)
          (read_4 u.user_id u.email u.password_hash)
      ∙ read_moment-write_moment u.last_login_at (write_6 u)
          (read_6 u.user_id u.email u.password_hash u.legacy_migrated u.created_at)
      ∙ read_moment-write_moment u.trial_started_at (write_7 u)
          (read_7 u.user_id u.email u.password_hash u.legacy_migrated u.created_at u.last_login_at)
      ∙ read_moment-write_moment u.subscribed_until (write_8 u) (
          read_8 u.user_id u.email u.password_hash u.legacy_migrated u.created_at u.last_login_at
            u.trial_started_at);
  encode-not_empty = λ u. refl;
}
