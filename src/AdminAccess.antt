-- ===== src/AdminAccess.antt =====
-- What an administrator does to the access of an account: PATCH of
-- apps/web/src/app/api/admin/users/[email]/access/route.ts, behind the guard
-- apps/web/src/lib/adminGuard.ts. Times are in milliseconds; days are whole numbers.
pub mod Ends
pub mod Lawful
pub mod Written
mod Tests
use pytone_digital.Prelude.{
  ℕ, zero, suc, ◌+◌, ◌-◌, ◌*◌, ◌/◌, ◌%◌, ◌^◌, ◌≤◌, ◌<◌, min, max, String, ◌≡◌, refl, sym, ap, ◌∙◌,
  subst, ◌≡⟨◌⟩◌, ◌∎, ◌≢◌, ◌↔◌, ◌⊎◌, inl, inr, Bool, true, false, not, ◌&&◌, ◌||◌, Option, none,
  some, List, [], ◌∷◌, ◌++◌, map, foldl, reverse, arith, ltb, leb, ◌==◌, if◌then◌else◌, ltb→lt,
  lt→ltb, le→ltb_false, leb→le, le→leb, ==_iff, Bool-cases, Option-cases, length, get_elem?, take,
  drop, keep, any, all, length-append, length-keep-le, All, All-append, All-append_left,
  All-append_right,
}
use pytone_digital.Text.{Text, codes, text_eq, is_empty}
use pytone_digital.Runtime.{Js}
use pytone_digital.Effect.{M, ◌>>=◌, ◌>>◌, pure, answer, answer_if, or_throw, or_answer}
use pytone_digital.Kv.{Kv, Codec}
use pytone_digital.Access.{UserRecord, AccessState, access_state, normalise_email, trial_ms, day_ms}
use pytone_digital.Users.{find_user, save_user}

pub data Action : Type 0 where
  extend_trial : ℕ → Action
  grant_subscription : ℕ → Action
  cancel_subscription : Action
  reset_trial : Action

-- The body: it may not parse, or be no object. `days` is `none` when it is no number, or negative.
pub data PatchBody : Type 0 where
  unreadable : PatchBody
  not_object : PatchBody
  object : Option Text → Option ℕ → PatchBody

pub data AdminReply : Type 0 where
  admin_not_configured : AdminReply
  unauthorized : AdminReply
  storage_unconfigured : AdminReply
  not_found : AdminReply
  invalid_json : AdminReply
  bad_body : Text → AdminReply

pub data Checked : Type 0 where
  accepted : Action → Checked
  rejected : Text → Checked

abbrev bad_days : Text
bad_days = codes "days must be a positive number ≤ 3650"

abbrev pub with_days : (ℕ → Action) → Option ℕ → Checked
with_days act none = rejected bad_days
with_days act (some days) =
    if days == 0 || ltb 3650 days then rejected bad_days else accepted (act days)

-- `validate` of a body that parses
unfoldable pub validate : Option Text → Option ℕ → Checked
validate none days = rejected (codes "missing action")
validate (some action) days =
    if text_eq action (codes "extendTrial")
    then with_days extend_trial days
    else if text_eq action (codes "grantSubscription")
    then with_days grant_subscription days
    else if text_eq action (codes "cancelSubscription")
    then accepted cancel_subscription
    else if text_eq action (codes "resetTrial")
    then accepted reset_trial
    else rejected (codes "unknown action: " ++ action)

-- `subscribedUntil && subscribedUntil > now ? subscribedUntil : now`
abbrev pub paid_base : ℕ → Option ℕ → ℕ
paid_base now none = now
paid_base now (some until) = if ltb now until then until else now

-- The switch over the actions
unfoldable pub apply_action : ℕ → Action → UserRecord → UserRecord
apply_action now (extend_trial days) user = record user {
  trial_started_at = some (now + days * day_ms - trial_ms);
}
apply_action now reset_trial user = record user { trial_started_at = some now }
apply_action now (grant_subscription days) user = record user {
  subscribed_until = some (paid_base now user.subscribed_until + days * day_ms);
}
apply_action now cancel_subscription user = record user { subscribed_until = some 0 }

pub record Patched : Type 0 where
  pub action : Action
  pub user_id : Text
  pub email : Text
  pub access : AccessState

pub record Prepared : Type 0 where
  pub email : Text
  pub action : Action
  pub updated : UserRecord

-- `requireAdmin`: the secret of the environment, the cookie, and `verifyAdminToken` with the clock
-- in it, which is `none` when it throws.
unfoldable pub require_admin :
    {S C : Type 0}
    → Option Text
    → Option Text
    → (Text → Text → Option (Option C))
    → M S AdminReply C
require_admin none _ verify = answer admin_not_configured
require_admin (some secret) none verify =
    if is_empty secret then answer admin_not_configured else answer unauthorized
require_admin (some secret) (some token) verify =
    if is_empty secret
    then answer admin_not_configured
    else if is_empty token
    then answer unauthorized
    else do claims ← or_throw (verify token secret); or_answer unauthorized claims

module _ (js : Js) (kv : Kv) (users : Codec UserRecord) where
  abbrev pub checked_end : Checked → M kv.State AdminReply Action
  checked_end (accepted action) = pure action
  checked_end (rejected msg) = answer (bad_body msg)

  unfoldable pub check_body : PatchBody → M kv.State AdminReply Action
  check_body unreadable = answer invalid_json
  check_body not_object = answer (bad_body (codes "expected JSON body"))
  check_body (object action days) = checked_end (validate action days)

  -- What is done before the write, for the address as it is decoded from the path.
  unfoldable pub prepare : ℕ → Bool → Option Text → PatchBody → M kv.State AdminReply Prepared
  prepare now has_kv decoded body = do
    answer_if (not has_kv) storage_unconfigured
    raw ← or_throw decoded
    found ← find_user js kv users now (normalise_email js raw)
    user ← or_answer not_found found
    action ← check_body body
    pure (record {
      email = normalise_email js raw;
      action = action;
      updated = apply_action now action user;
    })

  unfoldable pub commit : ℕ → Prepared → M kv.State AdminReply Patched
  commit now p = do
    save_user js kv users now p.email p.updated
    pure (record {
      action = p.action;
      user_id = p.updated.user_id;
      email = p.updated.email;
      access = access_state p.updated now;
    })

  -- PATCH
  unfoldable pub patch :
      {C : Type 0}
      → Option Text
      → Option Text
      → (Text → Text → Option (Option C))
      → ℕ
      → Bool
      → Option Text
      → PatchBody
      → M kv.State AdminReply Patched
  patch secret token verify now has_kv decoded body = do
    claims ← require_admin secret token verify
    p ← prepare now has_kv decoded body
    commit now p
