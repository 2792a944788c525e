-- ===== src/Access.antt =====
-- Trials and subscriptions: apps/web/src/lib/auth/users.ts and the guard of the routes in
-- apps/web/src/lib/accessGuard.ts. Times are in milliseconds.
pub mod Periods
mod Tests
use pytone_digital.Prelude.{
  ℕ, zero, suc, ◌+◌, ◌-◌, ◌*◌, ◌/◌, ◌%◌, ◌^◌, ◌≤◌, ◌<◌, min, max, String, ◌≡◌, refl, sym, ap, ◌∙◌,
  subst, ◌≡⟨◌⟩◌, ◌∎, ◌≢◌, ◌↔◌, ◌⊎◌, inl, inr, Bool, true, false, not, ◌&&◌, ◌||◌, Option, none,
  some, List, [], ◌∷◌, ◌++◌, map, foldl, reverse, arith, ltb, leb, ◌==◌, if◌then◌else◌, ltb→lt,
  lt→ltb, le→ltb_false, leb→le, le→leb, ==_iff, Bool-cases, Option-cases, length, get_elem?, take,
  drop, keep, any, all, length-append, length-keep-le, All, All-append, All-append_left,
  All-append_right,
}
use pytone_digital.Text.{Text, codes, is_empty, trim}
use pytone_digital.Runtime.{Js}

pub record UserRecord : Type 0 where
  pub user_id : Text
  pub email : Text
  pub password_hash : Option Text
  pub legacy_migrated : Option Bool
  pub created_at : ℕ
  pub last_login_at : Option ℕ
  pub trial_started_at : Option ℕ
  pub subscribed_until : Option ℕ

-- `normaliseEmail`
unfoldable pub normalise_email : Js → Text → Text
normalise_email js email = trim (js.to_lower email)

unfoldable pub user_key : Js → Text → Text
user_key js email = codes "user:" ++ normalise_email js email

-- `raw`, parsed by `JSON.parse`, whose failure is `none`.
abbrev pub parsed_user : (Text → Option UserRecord) → Option Text → Option UserRecord
parsed_user parse none = none
parsed_user parse (some raw) = if is_empty raw then none else parse raw

-- `findUserByEmail`, with the store's `get` and `JSON.parse` given.
unfoldable pub find_user_by_email :
    Js → (Text → Option Text) → (Text → Option UserRecord) → Text → Option UserRecord
find_user_by_email js get parse email =
    if is_empty email then none else parsed_user parse (get (user_key js email))

-- The record that `createUserFromFirebase` stores and returns.
unfoldable pub create_user_from_firebase : Js → ℕ → Text → Text → UserRecord
create_user_from_firebase js now uid email = record {
  user_id = uid;
  email = normalise_email js email;
  password_hash = none;
  legacy_migrated = none;
  created_at = now;
  last_login_at = none;
  trial_started_at = some now;
  subscribed_until = none;
}

-- The record that `touchLastLogin` stores.
unfoldable pub touch_last_login : ℕ → UserRecord → UserRecord
touch_last_login now user = record user { last_login_at = some now }

abbrev pub trial_ms : ℕ
trial_ms = 7 * 24 * 60 * 60 * 1000

abbrev pub day_ms : ℕ
day_ms = 24 * 60 * 60 * 1000

pub data Status : Type 0 where
  trial : Status
  subscribed : Status
  expired : Status

pub record AccessState : Type 0 where
  pub status : Status
  pub trial_ends_at : ℕ
  pub subscribed_until : ℕ
  pub days_left : ℕ

-- `x ?? y`
abbrev pub or_default : Option ℕ → ℕ → ℕ
or_default none y = y
or_default (some x) y = x

unfoldable pub access_state : UserRecord → ℕ → AccessState
access_state user now =
    let trial_ends_at = or_default user.trial_started_at user.created_at + trial_ms in
    let subbed_until = or_default user.subscribed_until 0 in
    let end_ms =
      if ltb now subbed_until
      then subbed_until
      else if ltb now trial_ends_at
      then trial_ends_at
      else 0 in
    record {
      status =
          if ltb now subbed_until
          then subscribed
          else if ltb now trial_ends_at
          then trial
          else expired;
      trial_ends_at = trial_ends_at;
      subscribed_until = subbed_until;
      days_left = if ltb now end_ms then (end_ms - now) / day_ms else 0;
    }

-- What `requireActiveAccess` gives: the account with its access, or an answer with its HTTP code.
pub data Guarded : Type 0 where
  granted : UserRecord → AccessState → Guarded
  unavailable : Guarded
  unauthorized : Guarded
  access_expired : AccessState → Guarded

abbrev pub is_expired : Status → Bool
is_expired expired = true
is_expired _ = false

abbrev pub guard_state : UserRecord → AccessState → Guarded
guard_state user access =
    if is_expired access.status then access_expired access else granted user access

abbrev pub guard_user : ℕ → Option UserRecord → Guarded
guard_user now none = unauthorized
guard_user now (some user) = guard_state user (access_state user now)

-- `readSession` of the cookie, when there is one; the session holds the email.
abbrev pub guard_session : ℕ → (Text → Option UserRecord) → Option Text → Guarded
guard_session now find_user_by_email none = unauthorized
guard_session now find_user_by_email (some email) = guard_user now (find_user_by_email email)

abbrev pub session_of : (Text → Option Text) → Option Text → Option Text
session_of read_session none = none
session_of read_session (some sid) = if is_empty sid then none else read_session sid

-- Whether the store is bound, the cookie, and the two lookups in the store are given.
unfoldable pub require_active_access :
    ℕ → Bool → Option Text → (Text → Option Text) → (Text → Option UserRecord) → Guarded
require_active_access now has_kv cookie read_session find_user_by_email =
    if has_kv
    then guard_session now find_user_by_email (session_of read_session cookie)
    else unavailable
