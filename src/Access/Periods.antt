-- ===== src/Access/Periods.antt =====
-- How long an account has access by users.ts, and whom accessGuard.ts lets in.
use pytone_digital.Prelude.{
  ℕ, ◌+◌, ◌*◌, ◌≤◌, ◌<◌, max, ◌≡◌, refl, Bool, true, false, Option, some, arith, ltb, if◌then◌else◌,
}
use pytone_digital.Text.{Text, is_empty}
use pytone_digital.Runtime.{Js}
use pytone_digital.Access.{
  find_user_by_email, user_key, normalise_email, UserRecord, trial, expired, access_state,
  or_default, trial_ms, create_user_from_firebase, touch_last_login, Guarded, granted, guard_user,
  require_active_access,
}

-- The time at which the access of an account ends at the latest.
abbrev pub access_end : UserRecord → ℕ
access_end user =
    max (or_default user.subscribed_until 0)
      (or_default user.trial_started_at user.created_at + trial_ms)

abbrev pub is_granted : Guarded → Bool
is_granted (granted user access) = true
is_granted _ = false

guard_user-end :
    (now : ℕ) (user : UserRecord)
    → is_granted (guard_user now (some user)) ≡ ltb now (access_end user)
unfolding access_state
guard_user-end now user = ground arith

-- A signed-in account is let through exactly until the later of the ends of its trial and of its
-- subscription.
pub require_active_access-end :
    (now : ℕ) (sid email : Text) (read_session : Text → Option Text)
    (find_user_by_email : Text → Option UserRecord) (user : UserRecord)
    → is_empty sid ≡ false
    → read_session sid ≡ some email
    → find_user_by_email email ≡ some user
    → is_granted (require_active_access now true (some sid) read_session find_user_by_email)
      ≡ ltb now (access_end user)
unfolding require_active_access
require_active_access-end now sid email read_session find_user_by_email user h k l =
    rw (h, k, l) (guard_user-end now user)

-- The lookup of an account does not depend on the spelling of the email: two emails that are
-- equal in lower case and without outer white space find the same account.
pub find_user_by_email-normalised :
    (js : Js) (get : Text → Option Text) (parse : Text → Option UserRecord) (a b : Text)
    → is_empty a ≡ false
    → is_empty b ≡ false
    → normalise_email js a ≡ normalise_email js b
    → find_user_by_email js get parse a ≡ find_user_by_email js get parse b
unfolding find_user_by_email user_key
find_user_by_email-normalised js get parse a b h k e = rw (h, k, e) refl

-- A new account is on trial for seven days from its creation and expired from then on, and a
-- login changes nothing in this.
pub create_user_from_firebase-trial :
    (js : Js) (created login now : ℕ) (uid email : Text)
    → (access_state
        (touch_last_login login (create_user_from_firebase js created uid email))
        now).status
      ≡ (if ltb now (created + 604800000) then trial else expired)
unfolding access_state touch_last_login create_user_from_firebase
create_user_from_firebase-trial js created login now uid email = ground arith

-- The end of the period that counts: the subscription when it is active, else the trial.
abbrev pub period_end : UserRecord → ℕ → ℕ
period_end user now =
    if ltb now (or_default user.subscribed_until 0)
    then or_default user.subscribed_until 0
    else or_default user.trial_started_at user.created_at + trial_ms

-- While an account has access, the days left are the whole days until the end of the period that
-- counts: the subscription when it is active, else the trial.
pub access_state-days_left :
    (user : UserRecord) (now : ℕ)
    → now < access_end user
    → (now + (access_state user now).days_left * 86400000 ≤ period_end user now)
      × (period_end user now < now + ((access_state user now).days_left + 1) * 86400000)
unfolding access_state
access_state-days_left user now h = (ground arith, ground arith)
