-- ===== src/AdminSession/Lifetime.antt =====
-- How long the token of an administrator is accepted, in adminSession.ts.
use pytone_digital.Prelude.{
  ℕ, ◌+◌, ◌/◌, ◌<◌, ◌≡◌, refl, ap, ◌∙◌, true, false, none, some, [], ◌∷◌, ◌++◌, arith, ltb, ◌==◌,
  if◌then◌else◌,
}
use pytone_digital.Text.{Text, is_empty, split_at_unit}
use pytone_digital.Text.Cut.{split_at_unit-append, split_at_unit-whole}
use pytone_digital.Kv.{Codec, IsCodec}
use pytone_digital.AdminSession.{
  Crypto, AdminClaims, b64u_enc, b64u_dec, sign_admin_token, verify_admin_token, parsed_claims,
}
use pytone_digital.AdminSession.Base64.{IsBase64, b64u_dec-enc, b64u_enc-undotted}

-- A signature verifies what was signed and is not empty, and UTF-8 reads back.
pub record IsSigner (crypto : Crypto) : Type 0 where
  pub verify-sign : (key : crypto.Key) (t : Text) → crypto.verify key (crypto.sign key t) t ≡ true
  pub sign-full : (key : crypto.Key) (t : Text) → is_empty (crypto.sign key t) ≡ false
  pub text_of-utf8 : (t : Text) → crypto.text_of (crypto.utf8 t) ≡ t
  pub utf8-full : (t : Text) → is_empty (crypto.utf8 t) ≡ is_empty t

module _ (crypto : Crypto) (base : IsBase64 crypto) (signer : IsSigner crypto)
    (json : Codec AdminClaims) (codec : IsCodec json) where
  abbrev payload_of : AdminClaims → Text
  payload_of c = b64u_enc crypto (crypto.utf8 (json.encode c))

  payload-full : (c : AdminClaims) → is_empty (payload_of c) ≡ false
  payload-full c =
      (b64u_enc-undotted crypto base (crypto.utf8 (json.encode c))).1
      ∙ signer.utf8-full (json.encode c)
      ∙ codec.encode-not_empty c

  payload-read :
      (c : AdminClaims) → parsed_claims crypto json (b64u_dec crypto (payload_of c)) ≡ some c
  payload-read c =
      ap (parsed_claims crypto json) (b64u_dec-enc crypto base (crypto.utf8 (json.encode c)))
      ∙ ap json.decode (signer.text_of-utf8 (json.encode c))
      ∙ codec.decode-encode c

  split_token :
      (c : AdminClaims) (key : crypto.Key)
      → split_at_unit b'.' (payload_of c ++ b'.' ∷ b64u_enc crypto (crypto.sign key (payload_of c)))
        ≡ payload_of c ∷ b64u_enc crypto (crypto.sign key (payload_of c)) ∷ []
  split_token c key =
      split_at_unit-append b'.' (payload_of c) (b64u_enc crypto (crypto.sign key (payload_of c)))
        (b64u_enc-undotted crypto base (crypto.utf8 (json.encode c))).0
      ∙ ap (λ l. payload_of c ∷ l)
          (split_at_unit-whole b'.' (b64u_enc crypto (crypto.sign key (payload_of c)))
            (b64u_enc-undotted crypto base (crypto.sign key (payload_of c))).0)

  -- A token that is signed, and whose life is not zero seconds, is accepted with its claims up to
  -- the second of its expiry, and not afterwards.
  pub verify_admin_token-sign :
      (at later : ℕ) (sub secret : Text) (ttl : ℕ) (key : crypto.Key)
      → crypto.import_key secret ≡ some key
      → 0 < ttl
      → (token : Text) × (sign_admin_token crypto json at sub secret ttl ≡ some token)
        × (verify_admin_token crypto json later token secret
            ≡ some (
                if ltb (at / 1000 + ttl) (later / 1000)
                then none
                else some (record { sub = sub; iat = at / 1000; exp = at / 1000 + ttl })))
  unfolding sign_admin_token verify_admin_token
  verify_admin_token-sign at later sub secret ttl key e positive =
      let c : AdminClaims = record { sub = sub; iat = at / 1000; exp = at / 1000 + ttl } in
      let sig = b64u_enc crypto (crypto.sign key (payload_of c)) in
      (
        payload_of c ++ b'.' ∷ sig,
        rw e refl,
        rw
            (
              split_token c key,
              payload-full c,
              (b64u_enc-undotted crypto base (crypto.sign key (payload_of c))).1,
              signer.sign-full key (payload_of c),
              e,
              b64u_dec-enc crypto base (crypto.sign key (payload_of c)),
              signer.verify-sign key (payload_of c),
              payload-read c,
              not_zero (at / 1000 + ttl) (omega arith),
            )
            refl,
      )
    where
      not_zero : (n : ℕ) → 0 < n → (n == 0) ≡ false
      not_zero n h = ground arith
