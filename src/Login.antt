-- ===== src/Login.antt =====
-- The sign-in with a password: POST of apps/web/src/app/api/auth/login/route.ts. The identity
-- service is a parameter.
pub mod Frames
pub mod Credentials
pub mod Gate
pub mod Grant
pub mod Trust
mod Tests
use pytone_digital.Prelude.{
  ℕ, zero, suc, ◌+◌, ◌-◌, ◌*◌, ◌/◌, ◌%◌, ◌^◌, ◌≤◌, ◌<◌, min, max, String, ◌≡◌, refl, sym, ap, ◌∙◌,
  subst, ◌≡⟨◌⟩◌, ◌∎, ◌≢◌, ◌↔◌, ◌⊎◌, inl, inr, Bool, true, false, not, ◌&&◌, ◌||◌, Option, none,
  some, List, [], ◌∷◌, ◌++◌, map, foldl, reverse, arith, ltb, leb, ◌==◌, if◌then◌else◌, ltb→lt,
  lt→ltb, le→ltb_false, leb→le, le→leb, ==_iff, Bool-cases, Option-cases, length, get_elem?, take,
  drop, keep, any, all, length-append, length-keep-le, All, All-append, All-append_left,
  All-append_right,
}
use pytone_digital.Password.{Crypto, verify_password}
use pytone_digital.Text.{Text, codes, is_empty, text_eq, includes, split_at_unit}
use pytone_digital.Runtime.{Js}
use pytone_digital.Effect.{
  M, Outcome, returned, answered, thrown, ◌>>=◌, ◌>>◌, pure, answer, throw, answer_if, or_throw,
  or_answer,
}
use pytone_digital.Kv.{Kv, Codec}
use pytone_digital.RateLimit.{RateLimitResult, rate_limit, caller_ip}
use pytone_digital.Access.{UserRecord, normalise_email}
use pytone_digital.Session.{SessionRecord, create_session}
use pytone_digital.Users.{
  StoredHandle, find_user, create_user, touch_user, save_user, create_preverify_handle,
  delete_preverify_handle, read_preverify_cookie,
}
use pytone_digital.Firebase.{
  Firebase, FirebaseUser, Result, ok, err, FirebaseError, not_configured, auth_error, other_error,
}

-- The body: it may not parse, may be `null`, and a field may not be a string.
pub data Body : Type 0 where
  unreadable : Body
  null_body : Body
  fields : Option Text → Option Text → Body

pub record Request : Type 0 where
  pub ip : Option Text
  pub user_agent : Option Text
  pub cookie : Text
  pub body : Body

pub data LoginReply : Type 0 where
  storage_unconfigured : LoginReply
  too_many_requests : ℕ → LoginReply
  bad_request : LoginReply
  auth_unconfigured : LoginReply
  invalid_credentials : LoginReply
  email_not_verified : Text → Text → LoginReply

pub record SignedIn : Type 0 where
  pub sid : Text
  pub email : Text

-- What the identity service accepted, and whether the account was moved to it just now.
pub record Accepted : Type 0 where
  pub firebase_user : FirebaseUser
  pub migrated : Bool

-- The parts the handler works with, and the random texts it draws.
pub record Env : Type 1 where
  pub js : Js
  pub kv : Kv
  pub users : Codec UserRecord
  pub sessions : Codec SessionRecord
  pub handles : Codec StoredHandle
  pub crypto : Crypto
  pub firebase : Firebase
  pub has_kv : Bool
  pub sid : Text
  pub token : Text

abbrev pub is_set : Option Bool → Bool
is_set none = false
is_set (some b) = b

abbrev pub or_empty : Option Text → Text
or_empty none = []
or_empty (some t) = t

abbrev pub normalised : Js → Option Text → Text
normalised js none = []
normalised js (some email) = normalise_email js email

module _ (env : Env) where
  abbrev pub Handler : Type 0 → Type 0
  Handler A = M env.kv.State LoginReply A

  -- `rateLimit` of the caller, or 429.
  abbrev pub throttle_end :
      RateLimitResult × env.kv.State → Outcome LoginReply (Unit {0}) × env.kv.State
  throttle_end (r, s) = answer_if (not r.ok) (too_many_requests r.retry_after) s

  unfoldable pub throttle : ℕ → Text → Option Text → ℕ → ℕ → Handler (Unit {0})
  throttle now bucket ip limit window s =
      throttle_end (rate_limit env.kv now bucket (caller_ip ip) limit window s)

  unfoldable pub credentials : Body → Handler (Text × Text)
  credentials unreadable = answer bad_request
  credentials null_body = throw
  credentials (fields email password) =
      let email = normalised env.js email in
      let password = or_empty password in
      if is_empty email || is_empty password then answer bad_request else pure (email, password)

  -- `firebaseSignup` of a migration: a race is `none`.
  abbrev pub signed_up : Result FirebaseUser → Handler (Option FirebaseUser)
  signed_up (ok u) = pure (some u)
  signed_up (err (auth_error status code)) =
      if includes code (codes "EMAIL_EXISTS") then pure none else throw
  signed_up (err not_configured) = throw
  signed_up (err other_error) = throw

  abbrev pub migrate_hash : Text → Text → Option Text → Handler (Option FirebaseUser)
  migrate_hash email password none = pure none
  migrate_hash email password (some hash) = if is_empty hash then pure none else do
    matches ← or_throw (verify_password env.crypto password hash)
    if matches then signed_up (env.firebase.signup email password) else pure none

  abbrev pub migrate_user : Text → Text → Option UserRecord → Handler (Option FirebaseUser)
  migrate_user email password none = pure none
  migrate_user email password (some user) = migrate_hash email password user.password_hash

  -- `migrateLegacyToFirebase`
  unfoldable pub migrate_legacy : ℕ → Text → Text → Handler (Option FirebaseUser)
  migrate_legacy now email password = do
    user ← find_user env.js env.kv env.users now email
    migrate_user email password user

  -- The first `try`: the identity service, or the migration when it does not know the address.
  abbrev pub sign_in_end : ℕ → Text → Text → Result FirebaseUser → Handler Accepted
  sign_in_end now email password (ok u) = pure (record { firebase_user = u; migrated = false })
  sign_in_end now email password (err not_configured) = answer auth_unconfigured
  sign_in_end now email password (err other_error) = throw
  sign_in_end now email password (err (auth_error status code)) =
      if includes code (codes "EMAIL_NOT_FOUND")
      then (do
        migrated ← migrate_legacy now email password
        u ← or_answer invalid_credentials migrated
        pure (record { firebase_user = u; migrated = true }))
      else answer invalid_credentials

  unfoldable pub sign_in : ℕ → Text → Text → Handler Accepted
  sign_in now email password = sign_in_end now email password (env.firebase.signin email password)

  abbrev pub verified_by : Result (Option Bool) → Bool
  verified_by (ok (some b)) = b
  verified_by _ = false

  -- `emailVerified`
  unfoldable pub is_verified : FirebaseUser → Bool
  is_verified u = verified_by (env.firebase.lookup u.id_token)

  -- The user's record, made or brought in line with the identity service.
  abbrev pub align_user : ℕ → Text → Accepted → Option UserRecord → Handler UserRecord
  align_user now email a none = do
    user ← create_user env.js env.kv env.users now a.firebase_user.local_id email
    if not a.migrated then pure user else do
      let flagged = record user { legacy_migrated = some true }
      save_user env.js env.kv env.users now email flagged
      pure flagged
  align_user now email a (some user) =
      if text_eq user.user_id a.firebase_user.local_id then pure user else do
        let user = record user {
          user_id = a.firebase_user.local_id;
          password_hash = none;
          legacy_migrated = some true;
        }
        save_user env.js env.kv env.users now email user
        pure user

  unfoldable pub account : ℕ → Text → Accepted → Handler UserRecord
  account now email a = do
    user ← find_user env.js env.kv env.users now email
    align_user now email a user

  -- The gate on the address, which answers 403 with a handle.
  unfoldable pub gate : ℕ → Text → Accepted → UserRecord → Handler (Unit {0})
  gate now email a user =
      if is_verified a.firebase_user || is_set user.legacy_migrated then pure tt else do
        token ←
            create_preverify_handle env.kv env.handles now env.token user.email
              a.firebase_user.refresh_token
        answer (email_not_verified email token)

  -- What is done before a session is made.
  unfoldable pub admit : ℕ → Request → Handler UserRecord
  admit now req = do
    answer_if (not env.has_kv) storage_unconfigured
    throttle now (codes "login") req.ip 10 300
    c ← credentials req.body
    accepted ← sign_in now c.0 c.1
    user ← account now c.0 accepted
    gate now c.0 accepted user
    pure user

  unfoldable pub grant : ℕ → Request → UserRecord → Handler SignedIn
  grant now req user = do
    user ← touch_user env.js env.kv env.users now user
    sid ←
        create_session env.kv env.sessions now env.sid user.user_id user.email req.user_agent req.ip
    delete_preverify_handle env.kv env.handles now (read_preverify_cookie req.cookie)
    pure (record { sid = sid; email = user.email })

  -- POST
  unfoldable pub login : ℕ → Request → Handler SignedIn
  login now req = do user ← admit now req; grant now req user
