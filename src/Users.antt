-- ===== src/Users.antt =====
-- The records of users in the store: apps/web/src/lib/auth/users.ts, and the handle that a user
-- holds before the address is verified, apps/web/src/lib/auth/preverify.ts.
pub mod Flat
pub mod Kinds
use pytone_digital.Prelude.{
  ℕ, zero, suc, ◌+◌, ◌-◌, ◌*◌, ◌/◌, ◌%◌, ◌^◌, ◌≤◌, ◌<◌, min, max, String, ◌≡◌, refl, sym, ap, ◌∙◌,
  subst, ◌≡⟨◌⟩◌, ◌∎, ◌≢◌, ◌↔◌, ◌⊎◌, inl, inr, Bool, true, false, not, ◌&&◌, ◌||◌, Option, none,
  some, List, [], ◌∷◌, ◌++◌, map, foldl, reverse, arith, ltb, leb, ◌==◌, if◌then◌else◌, ltb→lt,
  lt→ltb, le→ltb_false, leb→le, le→leb, ==_iff, Bool-cases, Option-cases, length, get_elem?, take,
  drop, keep, any, all, length-append, length-keep-le, All, All-append, All-append_left,
  All-append_right,
}
use pytone_digital.Text.{Text, codes, is_empty, text_eq, trim, split_at_unit}
use pytone_digital.Runtime.{Js}
use pytone_digital.Effect.{M, returned, answered, thrown, ◌>>=◌, ◌>>◌, pure, quietly}
use pytone_digital.Kv.{Kv, Codec, decode_value, kv_get, kv_put, kv_delete}
use pytone_digital.Access.{
  UserRecord, normalise_email, user_key, create_user_from_firebase, touch_last_login,
}

pub record StoredHandle : Type 0 where
  pub email : Text
  pub refresh_token : Text
  pub created_at : ℕ

unfoldable pub handle_key : Text → Text
handle_key token = codes "preverify:" ++ token

abbrev pub handle_ttl_sec : ℕ
handle_ttl_sec = 24 * 60 * 60

module _ (js : Js) (kv : Kv) (users : Codec UserRecord) {R : Type 0} where
  -- `findUserByEmail`
  unfoldable pub find_user : ℕ → Text → M kv.State R (Option UserRecord)
  find_user now email =
      if is_empty email
      then pure none
      else do raw ← kv_get kv (now / 1000) (user_key js email); pure (decode_value users raw)

  -- `createUserFromFirebase`
  unfoldable pub create_user : ℕ → Text → Text → M kv.State R UserRecord
  create_user now uid email = do
    let user = create_user_from_firebase js now uid email
    kv_put kv (now / 1000) (user_key js email) (users.encode user) none
    pure user

  -- `touchLastLogin`: the user as it is from then on.
  unfoldable pub touch_user : ℕ → UserRecord → M kv.State R UserRecord
  touch_user now user = do
    let touched = touch_last_login now user
    quietly (kv_put kv (now / 1000) (user_key js user.email) (users.encode touched) none)
    pure touched

  -- `kv.put` of a user under an address as it stands.
  unfoldable pub save_user : ℕ → Text → UserRecord → M kv.State R (Unit {0})
  save_user now email user =
      kv_put kv (now / 1000) (codes "user:" ++ email) (users.encode user) none

module _ (kv : Kv) (handles : Codec StoredHandle) {R : Type 0} where
  -- `createPreverifyHandle`, with the random token.
  unfoldable pub create_preverify_handle : ℕ → Text → Text → Text → M kv.State R Text
  create_preverify_handle now token email refresh_token = do
    let handle : StoredHandle = record {
      email = email;
      refresh_token = refresh_token;
      created_at = now;
    }
    kv_put kv (now / 1000) (handle_key token) (handles.encode handle) (some handle_ttl_sec)
    pure token

  unfoldable pub read_preverify_handle : ℕ → Text → M kv.State R (Option StoredHandle)
  read_preverify_handle now token =
      if is_empty token
      then pure none
      else do raw ← kv_get kv (now / 1000) (handle_key token); pure (decode_value handles raw)

  unfoldable pub delete_preverify_handle : ℕ → Text → M kv.State R (Unit {0})
  delete_preverify_handle now token =
      if is_empty token then pure tt else quietly (kv_delete kv (now / 1000) (handle_key token))

abbrev pub preverify_cookie : Text
preverify_cookie = codes "ns_preverify"

unfoldable pub set_preverify_cookie_header : Text → Text
set_preverify_cookie_header token =
    preverify_cookie
    ++ (b'=' ∷ token)
    ++ codes "; Path=/; HttpOnly; Secure; SameSite=Lax; Max-Age=86400"

-- `const [k, v] = part.split('=')`: the value when the key is that of the cookie and it is not
-- empty.
abbrev pub handle_in : List Text → Option Text
handle_in [] = none
handle_in (k ∷ []) = none
handle_in (k ∷ v ∷ _) = if text_eq k preverify_cookie && not (is_empty v) then some v else none

abbrev or_find : Option Text → Text → Text
or_find none later = later
or_find (some v) later = v

unfoldable pub find_handle : List Text → Text
find_handle [] = []
find_handle (part ∷ parts) =
    or_find (handle_in (split_at_unit b'=' (trim part))) (find_handle parts)

-- `readPreverifyCookie` of the `cookie` header, which is empty when it is missing.
unfoldable pub read_preverify_cookie : Text → Text
read_preverify_cookie header = find_handle (split_at_unit b';' header)
