-- ===== src/AdminSession.antt =====
-- The token of an administrator: apps/web/src/lib/adminSession.ts. Base64, UTF-8 and the signature
-- are parameters.
pub mod Base64
pub mod Lifetime
mod Tests
use pytone_digital.Prelude.{
  ℕ, zero, suc, ◌+◌, ◌-◌, ◌*◌, ◌/◌, ◌%◌, ◌^◌, ◌≤◌, ◌<◌, min, max, String, ◌≡◌, refl, sym, ap, ◌∙◌,
  subst, ◌≡⟨◌⟩◌, ◌∎, ◌≢◌, ◌↔◌, ◌⊎◌, inl, inr, Bool, true, false, not, ◌&&◌, ◌||◌, Option, none,
  some, List, [], ◌∷◌, ◌++◌, map, foldl, reverse, arith, ltb, leb, ◌==◌, if◌then◌else◌, ltb→lt,
  lt→ltb, le→ltb_false, leb→le, le→leb, ==_iff, Bool-cases, Option-cases, length, get_elem?, take,
  drop, keep, any, all, length-append, length-keep-le, All, All-append, All-append_left,
  All-append_right,
}
use pytone_digital.Text.{Text, codes, is_empty, split_at_unit}
use pytone_digital.Kv.{Codec}

-- What the runtime gives: `none` when a call throws. `verify` is for a key, a signature, a text.
pub record Crypto : Type 1 where
  pub Key : Type 0
  pub import_key : Text → Option Key
  pub sign : Key → Text → List ℕ
  pub verify : Key → List ℕ → Text → Bool
  pub btoa : List ℕ → Text
  pub atob : Text → Option (List ℕ)
  pub utf8 : Text → List ℕ
  pub text_of : List ℕ → Text

pub record AdminClaims : Type 0 where
  pub sub : Text
  pub iat : ℕ
  pub exp : ℕ

-- `replace(/\+/g, '-').replace(/\//g, '_')`
abbrev pub url_unit : ℕ → ℕ
url_unit c = if c == b'+' then b'-' else if c == b'/' then b'_' else c

-- `replace(/-/g, '+').replace(/_/g, '/')`
abbrev pub plain_unit : ℕ → ℕ
plain_unit c = if c == b'-' then b'+' else if c == b'_' then b'/' else c

unfoldable pub skip_pads : Text → Text
skip_pads [] = []
skip_pads (c ∷ s) = let rest = skip_pads s in if c == b'=' then rest else c ∷ s

-- `replace(/=+$/, '')`
unfoldable pub drop_pads : Text → Text
drop_pads s = reverse (skip_pads (reverse s))

-- `'='.repeat(n)`
unfoldable pub pads : ℕ → Text
pads zero = []
pads (suc n) = b'=' ∷ pads n

module _ (crypto : Crypto) where
  -- `b64uEnc` of bytes
  unfoldable pub b64u_enc : List ℕ → Text
  b64u_enc bytes = drop_pads (map url_unit (crypto.btoa bytes))

  -- `b64uDec`
  unfoldable pub b64u_dec : Text → Option (List ℕ)
  b64u_dec s = crypto.atob (map plain_unit (s ++ pads ((4 - length s % 4) % 4)))

  abbrev pub sealed : Text → Option crypto.Key → Option Text
  sealed payload none = none
  sealed payload (some key) = some (payload ++ b'.' ∷ b64u_enc (crypto.sign key payload))

  -- `signAdminToken` at a time in milliseconds; `none` when it throws.
  unfoldable pub sign_admin_token : Codec AdminClaims → ℕ → Text → Text → ℕ → Option Text
  sign_admin_token json now_ms sub secret ttl_sec =
      let now = now_ms / 1000 in
      sealed
        (b64u_enc
          (crypto.utf8 (json.encode (record { sub = sub; iat = now; exp = now + ttl_sec }))))
        (crypto.import_key secret)

  -- `!claims.exp || claims.exp < now`
  abbrev pub unless_expired : ℕ → Option AdminClaims → Option AdminClaims
  unless_expired now none = none
  unless_expired now (some claims) =
      if claims.exp == 0 || ltb claims.exp now then none else some claims

  abbrev pub parsed_claims : Codec AdminClaims → Option (List ℕ) → Option AdminClaims
  parsed_claims json none = none
  parsed_claims json (some bytes) = json.decode (crypto.text_of bytes)

  -- The signature decides; decoding it may throw.
  abbrev pub check_signature :
      Codec AdminClaims → ℕ → Text → crypto.Key → Option (List ℕ) → Option (Option AdminClaims)
  check_signature json now payload key none = none
  check_signature json now payload key (some sig) =
      if crypto.verify key sig payload
      then some (unless_expired now (parsed_claims json (b64u_dec payload)))
      else some none

  abbrev pub check_key :
      Codec AdminClaims → ℕ → Text → Text → Option crypto.Key → Option (Option AdminClaims)
  check_key json now payload sig none = some none
  check_key json now payload sig (some key) = check_signature json now payload key (b64u_dec sig)

  abbrev pub check_parts : Codec AdminClaims → ℕ → Text → List Text → Option (Option AdminClaims)
  check_parts json now secret (payload ∷ sig ∷ _) =
      if is_empty payload || is_empty sig
      then some none
      else check_key json now payload sig (crypto.import_key secret)
  check_parts json now secret _ = some none

  -- `verifyAdminToken`; `none` when it throws.
  unfoldable pub verify_admin_token :
      Codec AdminClaims → ℕ → Text → Text → Option (Option AdminClaims)
  verify_admin_token json now_ms token secret =
      check_parts json (now_ms / 1000) secret (split_at_unit b'.' token)
