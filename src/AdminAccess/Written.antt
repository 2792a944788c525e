-- ===== src/AdminAccess/Written.antt =====
-- What the PATCH of an administrator writes, and that it writes nothing when it refuses.
use pytone_digital.Prelude.{
  ℕ, ◌/◌, ◌≡◌, refl, sym, ap, ◌∙◌, subst, inl, inr, Bool, true, false, Option, none, some, ◌++◌,
  Bool-cases,
}
use pytone_digital.Text.{Text, codes, is_empty}
use pytone_digital.Text.Equality.{text_eq_refl}
use pytone_digital.Runtime.{Js}
use pytone_digital.Effect.{
  M, Outcome, returned, answered, thrown, then_do, ◌>>=◌, or_throw, or_answer, >>=-returned,
}
use pytone_digital.Effect.Ends.{
  pure-returned, answer-returned, or_answer-returned, or_throw-returned,
}
use pytone_digital.Kv.{Kv, IsKeeping, Codec, IsCodec, kv_get, decode_value-encode, kv_put}
use pytone_digital.Kv.Frame.{Spares, spare_rules, SameAt}
use pytone_digital.Access.{UserRecord, normalise_email, user_key, access_state}
use pytone_digital.Users.{find_user, save_user}
use pytone_digital.AdminAccess.{
  PatchBody, unreadable, not_object, object, AdminReply, unauthorized, admin_not_configured,
  Checked, accepted, rejected, validate, require_admin, checked_end, check_body, prepare, patch,
  Patched, commit, Prepared,
}
use pytone_digital.AdminAccess.Lawful.{IsPrepared, prepare-IsPrepared}

-- The request carries a token that the secret of the environment verifies.
abbrev pub IsAdmin :
    {C : Type 0} → Option Text → Option Text → (Text → Text → Option (Option C)) → Type 0
IsAdmin {C} secret token verify =
    (key : Text) × (signed : Text) × (claims : C) × (secret ≡ some key)
    × (token ≡ some signed)
    × (verify signed key ≡ some (some claims))

require_admin-IsAdmin :
    {S C : Type 0} (secret token : Option Text) (verify : Text → Text → Option (Option C)) (s : S)
    {c : C} {s' : S}
    → require_admin secret token verify s ≡ (returned c, s')
    → IsAdmin secret token verify × (s ≡ s')
unfolding require_admin
require_admin-IsAdmin none token verify s h = answer-returned _ s h
require_admin-IsAdmin (some key) none verify s h = elim (Bool-cases (is_empty key)) [
  | inl e ↦ answer-returned admin_not_configured s (rw e at h)
  | inr e ↦ answer-returned unauthorized s (rw e at h)
]
require_admin-IsAdmin (some key) (some signed) verify s {c} h = elim (Bool-cases (is_empty key)) [
  | inl e ↦ answer-returned admin_not_configured s (rw e at h)
  | inr e ↦ elim (Bool-cases (is_empty signed)) [
    | inl q ↦ answer-returned unauthorized s (rw (e, q) at h)
    | inr q ↦
        let (o, s₁, p₁, q₁) =
          >>=-returned (or_throw (verify signed key)) (or_answer unauthorized) s (rw (e, q) at h) in
        let (checked, before) = or_throw-returned (verify signed key) s p₁ in
        let (verified, after) = or_answer-returned unauthorized o s₁ q₁ in
        ((key, signed, c, refl, refl, checked ∙ ap some verified), before ∙ after)
  ]
]

-- Normalising the address of the path twice does no more than once.
abbrev pub IsNormal : Js → Option Text → Type 0
IsNormal js none = Unit
IsNormal js (some raw) = normalise_email js (normalise_email js raw) ≡ normalise_email js raw

abbrev pub every : Text → Bool
every k = true

module _ (js : Js) (kv : Kv) (users : Codec UserRecord) where
  -- How the PATCH ends: with the change written, for an administrator only, or with a store that
  -- reads as before.
  abbrev pub IsWritten :
      {C : Type 0}
      → ℕ
      → ℕ
      → Option Text
      → Option Text
      → (Text → Text → Option (Option C))
      → Option Text
      → PatchBody
      → kv.State
      → Outcome AdminReply Patched × kv.State
      → Type 0
  IsWritten now later secret token verify decoded body s (returned r, s') =
      IsAdmin secret token verify
      × ((p : Prepared) × IsPrepared js kv users now decoded body s p
          × (r.action ≡ p.action)
          × (r.access ≡ access_state p.updated now)
          × (find_user js kv users {R = AdminReply} later p.email s'
              ≡ (returned (some p.updated), s')))
  IsWritten now later secret token verify decoded body s (answered r, s') = SameAt kv every s s'
  IsWritten now later secret token verify decoded body s (thrown, s') = SameAt kv every s s'

module _ (js : Js) (kv : Kv) (keeping : IsKeeping kv) (users : Codec UserRecord) where
  abbrev Fine : {A : Type 0} → M kv.State AdminReply A → Type 0
  Fine m = Spares kv every m

  require_admin-Spares :
      {C : Type 0} (secret token : Option Text) (verify : Text → Text → Option (Option C))
      → Fine (require_admin secret token verify)
  unfolding require_admin
  require_admin-Spares none token verify = search spare_rules
  require_admin-Spares (some key) none verify = search spare_rules
  require_admin-Spares (some key) (some signed) verify = search spare_rules

  find_user-Spares : (now : ℕ) (email : Text) → Fine (find_user js kv users now email)
  unfolding find_user
  find_user-Spares now email = search spare_rules

  checked_end-Spares : (c : Checked) → Fine (checked_end js kv users c)
  checked_end-Spares (accepted a) = search spare_rules
  checked_end-Spares (rejected msg) = search spare_rules

  check_body-Spares : (body : PatchBody) → Fine (check_body js kv users body)
  unfolding check_body
  check_body-Spares unreadable = search spare_rules
  check_body-Spares not_object = search spare_rules
  check_body-Spares (object action days) = checked_end-Spares (validate action days)

  prepare-Spares :
      (now : ℕ) (has_kv : Bool) (decoded : Option Text) (body : PatchBody)
      → Fine (prepare js kv users now has_kv decoded body)
  unfolding prepare
  prepare-Spares now has_kv decoded body =
      search (spare_rules, find_user-Spares, check_body-Spares) depth 14

  found-not_empty :
      (now : ℕ) (email : Text) (user : UserRecord) (s s' : kv.State)
      → find_user js kv users {R = AdminReply} now email s ≡ (returned (some user), s')
      → is_empty email ≡ false
  unfolding find_user
  found-not_empty now email user s s' h = elim (Bool-cases (is_empty email)) [
    | inl e ↦ nothing (pure-returned none s (rw e at h)).0
    | inr e ↦ e
  ]
    where
      nothing : none ≡ some user → is_empty email ≡ false
      nothing q = cc

  module _ (codec : IsCodec users) where
    -- A record that was written is found.
    found_again :
        (now later : ℕ) (raw email : Text) (user : UserRecord) (s s' : kv.State)
        → is_empty email ≡ false
        → email ≡ normalise_email js raw
        → normalise_email js (normalise_email js raw) ≡ normalise_email js raw
        → kv.put (now / 1000) (codes "user:" ++ email) (users.encode user) none s ≡ some s'
        → find_user js kv users {R = AdminReply} later email s' ≡ (returned (some user), s')
    unfolding find_user kv_get user_key
    found_again now later raw email user s s' h is_email normal e =
        rw
          (
            h,
            same_email,
            keeping.get-put (now / 1000) (later / 1000) (codes "user:" ++ email)
                (codes "user:" ++ email) (users.encode user) none s s' e,
            text_eq_refl (codes "user:" ++ email),
          )
          (ap (λ o. (returned o, s')) (decode_value-encode users codec user))
      where
        same_email : normalise_email js email ≡ email
        same_email = ap (normalise_email js) is_email ∙ normal ∙ sym is_email

    -- When the PATCH answers with a change, the caller is an administrator, the body parsed and
    -- named that action, with days between 1 and 3650 where it has days, the action was applied to
    -- the stored account of the address, and a later read of the account finds the result; a
    -- refusal or a failure leaves the store as it was. The write is seen by later reads, and the
    -- address is one that normalising twice leaves as normalising once does.
    pub patch-IsWritten :
        {C : Type 0} (secret token : Option Text) (verify : Text → Text → Option (Option C))
        (now later : ℕ) (has_kv : Bool) (decoded : Option Text) (body : PatchBody) (s : kv.State)
        → IsNormal js decoded
        → IsWritten js kv users now later secret token verify decoded body s
            (patch js kv users secret token verify now has_kv decoded body s)
    unfolding patch commit save_user kv_put
    patch-IsWritten {C} secret token verify now later has_kv decoded body s normal =
        guarded (require_admin secret token verify s) refl
          (require_admin-Spares secret token verify s)
      where
        Goal : Outcome AdminReply Patched × kv.State → Type 0
        Goal r = IsWritten js kv users now later secret token verify decoded body s r

        written :
            (p : Prepared) (s₂ : kv.State) (o : Option kv.State)
            → IsAdmin secret token verify
            → IsPrepared js kv users now decoded body s p
            → SameAt kv every s s₂
            → kv.put (now / 1000) (codes "user:" ++ p.email) (users.encode p.updated) none s₂ ≡ o
            → Goal (commit js kv users now p s₂)
        written p s₂ none admin prepared same e = rw e same
        written p s₂ (some s') admin prepared same e =
            let (raw, user, s₁, d, is_email, found, allowed, updated) = prepared in
            let read_back =
              found_again now later raw p.email p.updated s₂ s'
                (found-not_empty now p.email user s s₁ found) is_email
                (subst (IsNormal js) d normal) e in
            rw e (admin, (p, prepared, refl, refl, read_back))

        ready :
            (r : Outcome AdminReply Prepared × kv.State)
            → prepare js kv users now has_kv decoded body s ≡ r
            → SameAt kv every s r.1
            → IsAdmin secret token verify
            → Goal (then_do r (commit js kv users now))
        ready (returned p, s₂) e same admin =
            written p s₂
              (kv.put (now / 1000) (codes "user:" ++ p.email) (users.encode p.updated) none s₂)
              admin (prepare-IsPrepared js kv users now has_kv decoded body s s₂ p e) same refl
        ready (answered x, s₂) e same admin = same
        ready (thrown, s₂) e same admin = same

        rest : C → M kv.State AdminReply Patched
        rest claims = prepare js kv users now has_kv decoded body >>= commit js kv users now

        guarded :
            (r : Outcome AdminReply C × kv.State)
            → require_admin secret token verify s ≡ r
            → SameAt kv every s r.1
            → Goal (then_do r rest)
        guarded (returned c, s₁) e same =
            let (admin, is_same) = require_admin-IsAdmin secret token verify s e in
            subst (λ z. Goal (rest c z)) is_same
              (ready (prepare js kv users now has_kv decoded body s) refl
                (prepare-Spares now has_kv decoded body s) admin)
        guarded (answered x, s₁) e same = same
        guarded (thrown, s₁) e same = same
