-- ===== src/AdminAccess/Lawful.antt =====
-- What a change of an administrator leaves in the store.
use pytone_digital.Prelude.{
  ℕ, ◌≤◌, ◌≡◌, refl, sym, ap, ◌∙◌, subst, inl, inr, Bool, false, not, ◌||◌, Option, none, some,
  arith, ltb, ◌==◌, if◌then◌else◌, Bool-cases,
}
use pytone_digital.Text.{Text, codes, text_eq}
use pytone_digital.Runtime.{Js}
use pytone_digital.Effect.{returned, pure, answer_if, or_throw, or_answer, >>=-returned}
use pytone_digital.Effect.Ends.{
  pure-returned, answer-returned, answer_if-returned, or_throw-returned, or_answer-returned,
}
use pytone_digital.Kv.{Kv, Codec}
use pytone_digital.Access.{UserRecord, normalise_email}
use pytone_digital.Users.{find_user}
use pytone_digital.AdminAccess.{
  Action, extend_trial, grant_subscription, cancel_subscription, reset_trial, PatchBody, unreadable,
  not_object, object, AdminReply, storage_unconfigured, not_found, Checked, accepted, rejected,
  with_days, validate, apply_action, Prepared, checked_end, check_body, prepare,
}
use pytone_digital.Text.Equality.{text_eq_iff}

-- The days of an action are between 1 and 3650.
abbrev pub IsAllowed : Action → Type 0
IsAllowed (extend_trial days) = (1 ≤ days) × (days ≤ 3650)
IsAllowed (grant_subscription days) = (1 ≤ days) × (days ≤ 3650)
IsAllowed cancel_subscription = Unit
IsAllowed reset_trial = Unit

-- The body that asks for an action: its name, and the days where it has some.
abbrev pub AsksFor : Option Text → Option ℕ → Action → Type 0
AsksFor name days (extend_trial n) = (name ≡ some (codes "extendTrial")) × (days ≡ some n)
AsksFor name days (grant_subscription n) =
    (name ≡ some (codes "grantSubscription")) × (days ≡ some n)
AsksFor name days cancel_subscription = name ≡ some (codes "cancelSubscription")
AsksFor name days reset_trial = name ≡ some (codes "resetTrial")

abbrev pub IsAsked : PatchBody → Action → Type 0
IsAsked unreadable action = ⊥
IsAsked not_object action = ⊥
IsAsked (object name days) action = AsksFor name days action × IsAllowed action

abbrev IsSound : Option Text → Option ℕ → Checked → Type 0
IsSound name days (accepted action) = AsksFor name days action × IsAllowed action
IsSound name days (rejected msg) = Unit

bounds : (days : ℕ) → (days == 0 || ltb 3650 days) ≡ false → (1 ≤ days) × (days ≤ 3650)
bounds days h = (ground arith, ground arith)

extend-IsSound :
    (name : Option Text) (days : Option ℕ)
    → name ≡ some (codes "extendTrial")
    → IsSound name days (with_days extend_trial days)
extend-IsSound name none h = tt
extend-IsSound name (some days) h = elim (Bool-cases (days == 0 || ltb 3650 days)) [
  | inl e ↦ rw e tt
  | inr e ↦ rw e ((h, refl), bounds days e)
]

grant-IsSound :
    (name : Option Text) (days : Option ℕ)
    → name ≡ some (codes "grantSubscription")
    → IsSound name days (with_days grant_subscription days)
grant-IsSound name none h = tt
grant-IsSound name (some days) h = elim (Bool-cases (days == 0 || ltb 3650 days)) [
  | inl e ↦ rw e tt
  | inr e ↦ rw e ((h, refl), bounds days e)
]

-- A test of the name passes its name on.
if-IsSound :
    (name word : Text) (days : Option ℕ) (x y : Checked)
    → (some name ≡ some word → IsSound (some name) days x)
    → IsSound (some name) days y
    → IsSound (some name) days (if text_eq name word then x else y)
if-IsSound name word days x y h k = elim (Bool-cases (text_eq name word)) [
  | inl e ↦ rw e (h (ap some ((text_eq_iff name word).0 e)))
  | inr e ↦ rw e k
]

validate-IsSound : (name : Option Text) (days : Option ℕ) → IsSound name days (validate name days)
unfolding validate
validate-IsSound none days = tt
validate-IsSound (some name) days =
    if-IsSound name (codes "extendTrial") days _ _ (extend-IsSound (some name) days) (
      if-IsSound name (codes "grantSubscription") days _ _ (grant-IsSound (some name) days) (
        if-IsSound name (codes "cancelSubscription") days _ _ (λ e. (e, tt))
          (if-IsSound name (codes "resetTrial") days _ _ (λ e. (e, tt)) tt)))

module _ (js : Js) (kv : Kv) (users : Codec UserRecord) where
  checked_end-IsAsked :
      (name : Option Text) (days : Option ℕ) (c : Checked) (s s' : kv.State) (action : Action)
      → IsSound name days c
      → checked_end js kv users c s ≡ (returned action, s')
      → IsAsked (object name days) action
  checked_end-IsAsked name days (accepted a) s s' action h e =
      subst (IsAsked (object name days)) (pure-returned a s e).0 h
  checked_end-IsAsked name days (rejected msg) s s' action h e = answer-returned _ s e

  check_body-IsAsked :
      (body : PatchBody) (s s' : kv.State) (action : Action)
      → check_body js kv users body s ≡ (returned action, s')
      → IsAsked body action
  unfolding check_body
  check_body-IsAsked unreadable s s' action e = answer-returned _ s e
  check_body-IsAsked not_object s s' action e = answer-returned _ s e
  check_body-IsAsked (object a days) s s' action e =
      checked_end-IsAsked a days (validate a days) s s' action (validate-IsSound a days) e

  -- What is known of a change before it is written.
  abbrev pub IsPrepared : ℕ → Option Text → PatchBody → kv.State → Prepared → Type 0
  IsPrepared now decoded body s p =
      (raw : Text) × (user : UserRecord) × (s₁ : kv.State) × (decoded ≡ some raw)
      × (p.email ≡ normalise_email js raw)
      × (find_user js kv users {R = AdminReply} now p.email s ≡ (returned (some user), s₁))
      × IsAsked body p.action
      × (p.updated ≡ apply_action now p.action user)

  assembled :
      (now : ℕ) (has_kv : Bool) (decoded : Option Text) (body : PatchBody)
      (s s₀ s₁ s₂ s₃ s₄ s' : kv.State) (raw : Text) (found : Option UserRecord) (user : UserRecord)
      (action : Action) (p : Prepared)
      → (s ≡ s₀)
      → (decoded ≡ some raw) × (s₀ ≡ s₁)
      → find_user js kv users {R = AdminReply} now (normalise_email js raw) s₁
        ≡ (returned found, s₂)
      → (found ≡ some user)
      → check_body js kv users body s₃ ≡ (returned action, s₄)
      → pure {R = AdminReply}
          (record {
            email = normalise_email js raw;
            action = action;
            updated = apply_action now action user;
          })
          s₄
        ≡ (returned p, s')
      → IsPrepared now decoded body s p
  assembled now has_kv decoded body s s₀ s₁ s₂ s₃ s₄ s' raw found user action p h (d, k) f is_user c
        e =
      subst (IsPrepared now decoded body s) (pure-returned _ s₄ e).0 (
        raw,
        user,
        s₂,
        d,
        refl,
        subst
            (λ z.
              find_user js kv users {R = AdminReply} now (normalise_email js raw) z
              ≡ (returned (some user), s₂))
            (sym (h ∙ k)) (f ∙ ap (λ o. (returned o, s₂)) is_user),
        check_body-IsAsked body s₃ s₄ action c,
        refl,
      )

  pub prepare-IsPrepared :
      (now : ℕ) (has_kv : Bool) (decoded : Option Text) (body : PatchBody) (s s' : kv.State)
      (p : Prepared)
      → prepare js kv users now has_kv decoded body s ≡ (returned p, s')
      → IsPrepared now decoded body s p
  unfolding prepare
  prepare-IsPrepared now has_kv decoded body s s' p h =
      let (_, s₀, p₀, q₀) = >>=-returned (answer_if (not has_kv) storage_unconfigured) _ s h in
      let (raw, s₁, p₁, q₁) = >>=-returned (or_throw decoded) _ s₀ q₀ in
      let (found, s₂, p₂, q₂) =
        >>=-returned (find_user js kv users now (normalise_email js raw)) _ s₁ q₁ in
      let (user, s₃, p₃, q₃) = >>=-returned (or_answer not_found found) _ s₂ q₂ in
      let (action, s₄, p₄, q₄) = >>=-returned (check_body js kv users body) _ s₃ q₃ in
      assembled now has_kv decoded body s s₀ s₁ s₂ s₃ s₄ s' raw found user action p
        (answer_if-returned (not has_kv) storage_unconfigured s p₀).1
        (or_throw-returned decoded s₀ p₁) p₂ (or_answer-returned not_found found s₂ p₃).0 p₄ q₄
