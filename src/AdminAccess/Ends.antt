-- ===== src/AdminAccess/Ends.antt =====
-- When the access of an account ends after the change of an administrator.
use pytone_digital.Prelude.{
  ℕ, ◌+◌, ◌*◌, ◌≤◌, max, ◌≡◌, ap, ◌∙◌, not, Option, none, some, arith, ltb,
}
use pytone_digital.Access.{UserRecord, access_state, is_expired, or_default, trial_ms, day_ms}
use pytone_digital.AdminAccess.{
  Action, extend_trial, grant_subscription, cancel_subscription, reset_trial, paid_base,
  apply_action,
}

abbrev pub trial_end : UserRecord → ℕ
trial_end user = or_default user.trial_started_at user.created_at + trial_ms

abbrev pub paid_until : UserRecord → ℕ
paid_until user = or_default user.subscribed_until 0

-- The first moment without access, when the change is made at `now`.
abbrev pub ends_at : ℕ → Action → UserRecord → ℕ
ends_at now (extend_trial days) user = max (now + days * day_ms) (paid_until user)
ends_at now reset_trial user = max (now + 7 * day_ms) (paid_until user)
ends_at now (grant_subscription days) user =
    max (trial_end user) (max now (paid_until user) + days * day_ms)
ends_at now cancel_subscription user = trial_end user

access_state-open :
    (user : UserRecord) (t : ℕ)
    → not (is_expired (access_state user t).status) ≡ ltb t (max (trial_end user) (paid_until user))
unfolding access_state
access_state-open user t = ground arith

paid_base-max : (now : ℕ) (o : Option ℕ) → paid_base now o ≡ max now (or_default o 0)
paid_base-max now none = omega arith
paid_base-max now (some until) = ground arith

-- After each of the four actions the account has access exactly until the moment that the action
-- is for: whole days from now, or on top of what is paid, or the end of the trial alone.
pub apply_action-ends :
    (now t : ℕ) (action : Action) (user : UserRecord)
    → trial_ms ≤ now
    → not (is_expired (access_state (apply_action now action user) t).status)
      ≡ ltb t (ends_at now action user)
unfolding apply_action
apply_action-ends now t (extend_trial days) user le =
    access_state-open (apply_action now (extend_trial days) user) t
    ∙ ap (λ e. ltb t (max e (paid_until user))) (omega arith)
apply_action-ends now t reset_trial user le =
    access_state-open (apply_action now reset_trial user) t
apply_action-ends now t (grant_subscription days) user le =
    access_state-open (apply_action now (grant_subscription days) user) t
    ∙ ap (λ e. ltb t (max (trial_end user) (e + days * day_ms)))
        (paid_base-max now user.subscribed_until)
apply_action-ends now t cancel_subscription user le =
    access_state-open (apply_action now cancel_subscription user) t
    ∙ ap (λ e. ltb t e) (omega arith)
