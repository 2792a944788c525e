-- ===== src/AdminSession/Tests.antt =====
-- The theorem on the token of an administrator at a concrete input, with a base64 of two letters
-- and a signature that shows what it signs.
use pytone_digital.Prelude.{
  ℕ, zero, suc, ◌+◌, ◌-◌, ◌%◌, ◌≡◌, refl, ap, ◌∙◌, true, Option, none, some, List, [], ◌∷◌, ◌++◌,
  arith, ◌==◌, if◌then◌else◌, length, All,
}
use pytone_digital.Text.{Text, codes, is_empty, text_eq}
use pytone_digital.Text.Equality.{text_eq_refl}
use pytone_digital.Kv.{Codec, IsCodec}
use pytone_digital.Kv.Flat.{write_text, read_text, read_text-write_text}
use pytone_digital.AdminSession.{Crypto, AdminClaims, pads, sign_admin_token, verify_admin_token}
use pytone_digital.AdminSession.Base64.{IsBase64, is_letter}
use pytone_digital.AdminSession.Lifetime.{IsSigner, verify_admin_token-sign}

-- A number is as many letters A, with a B after them.
abbrev run_of : ℕ → Text → Text
run_of zero t = t
run_of (suc n) t = b'A' ∷ run_of n t

abbrev letters : List ℕ → Text
letters [] = []
letters (n ∷ bytes) = run_of n (b'B' ∷ letters bytes)

abbrev count_runs : ℕ → Text → List ℕ
count_runs k [] = []
count_runs k (c ∷ s) =
    let longer = count_runs (suc k) s in
    let next = count_runs 0 s in if c == b'A' then longer else if c == b'B' then k ∷ next else []

count_runs-run_of :
    (k n : ℕ) (t : Text) → count_runs k (run_of n (b'B' ∷ t)) ≡ (n + k) ∷ count_runs 0 t
count_runs-run_of k zero t = ap (λ m. m ∷ count_runs 0 t) (omega arith)
count_runs-run_of k (suc n) t =
    count_runs-run_of (suc k) n t ∙ ap (λ m. m ∷ count_runs 0 t) (omega arith)

run_of-append : (n : ℕ) (s t : Text) → run_of n s ++ t ≡ run_of n (s ++ t)
run_of-append zero s t = refl
run_of-append (suc n) s t = ap (λ r. b'A' ∷ r) (run_of-append n s t)

count_runs-pads : (m : ℕ) → count_runs 0 (pads m) ≡ []
unfolding pads
count_runs-pads zero = refl
count_runs-pads (suc m) = refl

count_runs-letters : (bytes : List ℕ) (m : ℕ) → count_runs 0 (letters bytes ++ pads m) ≡ bytes
count_runs-letters [] m = count_runs-pads m
count_runs-letters (n ∷ bytes) m =
    ap (count_runs 0) (run_of-append n (b'B' ∷ letters bytes) (pads m))
    ∙ count_runs-run_of 0 n (letters bytes ++ pads m)
    ∙ ap (λ r. (n + 0) ∷ r) (count_runs-letters bytes m)
    ∙ ap (λ k. k ∷ bytes) (omega arith)

run_of-letters :
    (n : ℕ) (t : Text)
    → All (λ c. is_letter c ≡ true) t
    → All (λ c. is_letter c ≡ true) (run_of n t)
run_of-letters zero t h = h
run_of-letters (suc n) t h = (refl, run_of-letters n t h)

letters-all : (bytes : List ℕ) → All (λ c. is_letter c ≡ true) (letters bytes)
letters-all [] = tt
letters-all (n ∷ bytes) = run_of-letters n (b'B' ∷ letters bytes) (refl, letters-all bytes)

letters_full : (bytes : List ℕ) → is_empty (letters bytes) ≡ is_empty bytes
letters_full [] = refl
letters_full (zero ∷ bytes) = refl
letters_full (suc n ∷ bytes) = refl

abbrev pad_count : ℕ → ℕ
pad_count l = (4 - l % 4) % 4

abbrev plain : Crypto
plain = record {
  Key = Text;
  import_key = λ secret. some secret;
  sign = λ key t. 1 ∷ t;
  verify = λ key sig t. text_eq sig (1 ∷ t);
  btoa = λ bytes. letters bytes ++ pads (pad_count (length (letters bytes)));
  atob = λ t. some (count_runs 0 t);
  utf8 = λ t. t;
  text_of = λ bytes. bytes;
}

plain-IsBase64 : IsBase64 plain
plain-IsBase64 = record {
  btoa-IsPadded = λ bytes. (
    letters bytes,
    pad_count (length (letters bytes)),
    refl,
    omega arith,
    omega arith,
    letters-all bytes,
    letters_full bytes,
  );
  atob-btoa = λ bytes. ap some (count_runs-letters bytes (pad_count (length (letters bytes))));
}

plain-IsSigner : IsSigner plain
plain-IsSigner = record {
  verify-sign = λ key t. text_eq_refl (1 ∷ t);
  sign-full = λ key t. refl;
  text_of-utf8 = λ t. refl;
  utf8-full = λ t. refl;
}

abbrev read_times : Text → Text → Option AdminClaims
read_times sub (iat ∷ exp ∷ rest) = some (record { sub = sub; iat = iat; exp = exp })
read_times sub _ = none

abbrev claims_json : Codec AdminClaims
claims_json = record {
  encode = λ c. write_text c.sub (c.iat ∷ c.exp ∷ []);
  decode = λ raw. read_text raw read_times;
}

claims_json-IsCodec : IsCodec claims_json
claims_json-IsCodec = record {
  decode-encode = λ c. read_text-write_text c.sub (c.iat ∷ c.exp ∷ []) read_times;
  encode-not_empty = λ c. refl;
}

verify_admin_token-sign_example :
    (token : Text) × (sign_admin_token plain claims_json 5000 (codes "root") (codes "key") 10
      ≡ some token)
    × (verify_admin_token plain claims_json 15999 token (codes "key")
        ≡ some (some (record { sub = codes "root"; iat = 5; exp = 15 })))
verify_admin_token-sign_example =
    verify_admin_token-sign plain plain-IsBase64 plain-IsSigner claims_json claims_json-IsCodec 5000
      15999 (codes "root") (codes "key") 10 (codes "key") refl (omega arith)
