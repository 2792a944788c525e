-- ===== src/Login/Gate.antt =====
-- Who gets past the checks of auth/login/route.ts before a session is made.
use pytone_digital.Prelude.{
  ℕ, ◌/◌, ◌≡◌, refl, sym, ap, ◌∙◌, subst, inl, inr, Bool, true, false, not, ◌||◌, Option, none,
  some, if◌then◌else◌, Bool-cases,
}
use pytone_digital.Login.Credentials.{HasCredentials, sign_in_end-accepted}
use pytone_digital.Text.{Text, codes, is_empty, text_eq}
use pytone_digital.Text.Equality.{text_eq_iff}
use pytone_digital.Effect.{returned, ◌>>=◌, ◌>>◌, pure, answer, answer_if, >>=-returned}
use pytone_digital.Effect.Ends.{pure-returned, answer-returned, throw-returned, answer_if-returned}
use pytone_digital.Kv.{kv_put, got}
use pytone_digital.RateLimit.{RateLimitResult, rate_limit, caller_ip}
use pytone_digital.Access.{UserRecord, create_user_from_firebase, user_key}
use pytone_digital.Users.{find_user, create_user, save_user, create_preverify_handle}
use pytone_digital.Login.{
  Env, Body, unreadable, null_body, fields, LoginReply, Accepted, Request, throttle_end, throttle,
  credentials, sign_in, align_user, account, gate, admit, is_verified, is_set, storage_unconfigured,
  too_many_requests, bad_request, email_not_verified, or_empty, normalised, sign_in_end,
}

module _ (env : Env) where
  abbrev pub flagged_if : Bool → UserRecord → UserRecord
  flagged_if m user = if m then record user { legacy_migrated = some true } else user

  -- The account that a sign-in works with, from the record that is stored for the address: a new
  -- one, which is flagged after a migration; the stored one, when its id is that of the identity
  -- service; or the stored one with that id, flagged and without its password.
  abbrev pub aligned : ℕ → Text → Accepted → Option UserRecord → UserRecord
  aligned now email a none =
      flagged_if a.migrated (create_user_from_firebase env.js now a.firebase_user.local_id email)
  aligned now email a (some old) =
      if text_eq old.user_id a.firebase_user.local_id then old else record old {
        user_id = a.firebase_user.local_id;
        password_hash = none;
        legacy_migrated = some true;
      }

  -- The user is the account of the address, as it is stored when the credentials are accepted.
  abbrev pub IsAccountOf : ℕ → Text → Accepted → env.kv.State → UserRecord → Type 0
  IsAccountOf now email a s user =
      (stored_ : Option UserRecord) × (s' : env.kv.State) × (find_user env.js env.kv env.users
          {R = LoginReply} now email s
        ≡ (returned stored_, s'))
      × (user ≡ aligned now email a stored_)

  -- What the handler knows of a user it lets in.
  abbrev pub IsAdmitted : ℕ → Request → env.kv.State → UserRecord → Type 0
  IsAdmitted now req s user =
      (email : Text) × (password : Text) × (a : Accepted) × (s₁ : env.kv.State)
      × (s₂ : env.kv.State) × (env.has_kv ≡ true)
      × ((rate_limit env.kv now (codes "login") (caller_ip req.ip) 10 300 s).0.ok ≡ true)
      × ((rate_limit env.kv now (codes "login") (caller_ip req.ip) 10 300 s).1 ≡ s₁)
      × (credentials env req.body s₁ ≡ (returned (email, password), s₁))
      × (sign_in env now email password s₁ ≡ (returned a, s₂))
      × HasCredentials env now email password s₁ a
      × IsAccountOf now email a s₂ user
      × (user.user_id ≡ a.firebase_user.local_id)
      × ((is_verified env a.firebase_user || is_set user.legacy_migrated) ≡ true)

  create_user-new :
      (now : ℕ) (uid email : Text) (s s' : env.kv.State) (user : UserRecord)
      → create_user env.js env.kv env.users {R = LoginReply} now uid email s ≡ (returned user, s')
      → user ≡ create_user_from_firebase env.js now uid email
  unfolding create_user
  create_user-new now uid email s s' user h =
      let new = create_user_from_firebase env.js now uid email in
      let (_, s₁, p, q) =
        >>=-returned
          (kv_put env.kv (now / 1000) (user_key env.js email) (env.users.encode new) none)
          (λ _. pure {R = LoginReply} new) s h in
      sym (pure-returned new s₁ q).0

  save_pure-id :
      (now : ℕ) (email : Text) (user got : UserRecord) (s s' : env.kv.State)
      → (save_user env.js env.kv env.users now email user >>= λ _. pure {R = LoginReply} user) s
        ≡ (returned got, s')
      → got ≡ user
  save_pure-id now email user got s s' h =
      let (_, s₁, p, q) =
        >>=-returned (save_user env.js env.kv env.users now email user)
          (λ _. pure {R = LoginReply} user) s h in
      sym (pure-returned user s₁ q).0

  flag_end-flagged :
      (now : ℕ) (email : Text) (m : Bool) (new user : UserRecord) (s s' : env.kv.State)
      → (if not m then pure new else (do
        let flagged = record new { legacy_migrated = some true }
        save_user env.js env.kv env.users now email flagged
        pure {R = LoginReply} flagged))
          s
        ≡ (returned user, s')
      → user ≡ flagged_if m new
  flag_end-flagged now email false new user s s' h = sym (pure-returned new s h).0
  flag_end-flagged now email true new user s s' h =
      save_pure-id now email (record new { legacy_migrated = some true }) user s s' h

  align_user-aligned :
      (now : ℕ) (email : Text) (a : Accepted) (o : Option UserRecord) (s s' : env.kv.State)
      (user : UserRecord)
      → align_user env now email a o s ≡ (returned user, s')
      → user ≡ aligned now email a o
  align_user-aligned now email a none s s' user h =
      let (new, s₁, p, q) =
        >>=-returned (create_user env.js env.kv env.users now a.firebase_user.local_id email)
          (λ new. if not a.migrated then pure new else do
            let flagged = record new { legacy_migrated = some true }
            save_user env.js env.kv env.users now email flagged
            pure flagged)
          s h in
      flag_end-flagged now email a.migrated new user s₁ s' q
      ∙ ap (flagged_if a.migrated) (create_user-new now a.firebase_user.local_id email s s₁ new p)
  align_user-aligned now email a (some old) s s' user h =
      elim (Bool-cases (text_eq old.user_id a.firebase_user.local_id)) [
        | inl e ↦ rw e (sym (pure-returned old s (rw e at h)).0)
        | inr e ↦ rw e (
            save_pure-id now email
              (record old {
                user_id = a.firebase_user.local_id;
                password_hash = none;
                legacy_migrated = some true;
              })
              user s s' (rw e at h))
      ]

  account-IsAccountOf :
      (now : ℕ) (email : Text) (a : Accepted) (s s' : env.kv.State) (user : UserRecord)
      → account env now email a s ≡ (returned user, s')
      → IsAccountOf now email a s user
  unfolding account
  account-IsAccountOf now email a s s' user h =
      let (o, s₁, p, q) =
        >>=-returned (find_user env.js env.kv env.users now email) (align_user env now email a) s
          h in
      (o, s₁, p, align_user-aligned now email a o s₁ s' user q)

  flagged_if-id : (m : Bool) (user : UserRecord) → (flagged_if m user).user_id ≡ user.user_id
  flagged_if-id true user = refl
  flagged_if-id false user = refl

  aligned-id :
      (now : ℕ) (email : Text) (a : Accepted) (o : Option UserRecord)
      → (aligned now email a o).user_id ≡ a.firebase_user.local_id
  unfolding create_user_from_firebase
  aligned-id now email a none =
      flagged_if-id a.migrated (create_user_from_firebase env.js now a.firebase_user.local_id email)
  aligned-id now email a (some old) =
      elim (Bool-cases (text_eq old.user_id a.firebase_user.local_id)) [
        | inl e ↦ rw e ((text_eq_iff old.user_id a.firebase_user.local_id).0 e)
        | inr e ↦ rw e refl
      ]

  gate-open :
      (now : ℕ) (email : Text) (a : Accepted) (user : UserRecord) (s s' : env.kv.State)
      → gate env now email a user s ≡ (returned tt, s')
      → (is_verified env a.firebase_user || is_set user.legacy_migrated) ≡ true
  unfolding gate
  gate-open now email a user s s' h =
      elim (Bool-cases (is_verified env a.firebase_user || is_set user.legacy_migrated)) [
        | inl e ↦ e
        | inr e ↦
            let (token, s₁, p, q) =
              >>=-returned
                (create_preverify_handle env.kv env.handles now env.token user.email
                  a.firebase_user.refresh_token)
                (λ token. answer (email_not_verified email token)) s (rw e at h) in
            answer-returned (email_not_verified email token) s₁ q
      ]

  of_not : (b : Bool) → not b ≡ false → b ≡ true
  of_not true e = refl
  of_not false e = cc

  throttle_end-ok :
      (r : RateLimitResult × env.kv.State) (s' : env.kv.State)
      → throttle_end env r ≡ (returned tt, s')
      → (r.0.ok ≡ true) × (r.1 ≡ s')
  throttle_end-ok (r, s₁) s' h =
      let (p, q) = answer_if-returned (not r.ok) (too_many_requests r.retry_after) s₁ h in
      (of_not r.ok p, q)

  credentials-state :
      (b : Body) (s s' : env.kv.State) (c : Text × Text)
      → credentials env b s ≡ (returned c, s')
      → s ≡ s'
  unfolding credentials
  credentials-state unreadable s s' c h = answer-returned bad_request s h
  credentials-state null_body s s' c h = throw-returned s h
  credentials-state (fields email password) s s' c h =
      checked (is_empty (normalised env.js email) || is_empty (or_empty password))
        (normalised env.js email, or_empty password) h
    where
      checked :
          (b : Bool) (d : Text × Text)
          → (if b then answer bad_request else pure d) s ≡ (returned c, s')
          → s ≡ s'
      checked true d k = answer-returned bad_request s k
      checked false d k = (pure-returned d s k).1

  -- The checks, one after the other, put together.
  assembled :
      (now : ℕ) (req : Request) (s s₀ s₁ s₂ s₃ s₄ s₅ s' : env.kv.State) (c : Text × Text)
      (a : Accepted) (u user : UserRecord)
      → not env.has_kv ≡ false
      → s ≡ s₀
      → throttle env now (codes "login") req.ip 10 300 s₀ ≡ (returned tt, s₁)
      → credentials env req.body s₁ ≡ (returned c, s₂)
      → sign_in env now c.0 c.1 s₂ ≡ (returned a, s₃)
      → account env now c.0 a s₃ ≡ (returned u, s₄)
      → gate env now c.0 a u s₄ ≡ (returned tt, s₅)
      → pure {R = LoginReply} u s₅ ≡ (returned user, s')
      → IsAdmitted now req s user
  unfolding throttle sign_in
  assembled now req s s₀ s₁ s₂ s₃ s₄ s₅ s' c a u user has_kv same p₁ p₂ p₃ p₄ p₅ q₅ =
      let of_account = account-IsAccountOf now c.0 a s₃ s₄ u p₄ in
      let limited =
        λ (z : env.kv.State). rate_limit env.kv now (codes "login") (caller_ip req.ip) 10 300 z in
      let (ok_, counted) =
        throttle_end-ok (limited s) s₁
          (subst (λ z. throttle_end env (limited z) ≡ (returned tt, s₁)) (sym same) p₁) in
      let back = sym (credentials-state req.body s₁ s₂ c p₂) in
      let is_user = (pure-returned u s₅ q₅).0 in
      (
        c.0,
        c.1,
        a,
        s₁,
        s₃,
        of_not env.has_kv has_kv,
        ok_,
        counted,
        p₂ ∙ ap (λ z. (returned c, z)) back,
        subst (λ z. sign_in_end env now c.0 c.1 (env.firebase.signin c.0 c.1) z ≡ (returned a, s₃))
            back p₃,
        subst (λ z. HasCredentials env now c.0 c.1 z a) back
            (sign_in_end-accepted env now c.0 c.1 (env.firebase.signin c.0 c.1) s₂ s₃ a refl p₃),
        subst (IsAccountOf now c.0 a s₃) is_user of_account,
        sym (ap (λ x. x.user_id) is_user)
            ∙ (ap (λ x. x.user_id) of_account.3 ∙ aligned-id now c.0 a of_account.0),
        sym (ap (λ x. is_verified env a.firebase_user || is_set x.legacy_migrated) is_user)
            ∙ gate-open now c.0 a u s₄ s₅ p₅,
      )

  -- A user that is let in has passed every check of the handler.
  pub admit-IsAdmitted :
      (now : ℕ) (req : Request) (s s' : env.kv.State) (user : UserRecord)
      → admit env now req s ≡ (returned user, s')
      → IsAdmitted now req s user
  unfolding admit throttle sign_in
  admit-IsAdmitted now req s s' user h =
      let (_, s₀, p₀, q₀) = >>=-returned (answer_if (not env.has_kv) storage_unconfigured) _ s h in
      let (has_kv, same) = answer_if-returned (not env.has_kv) storage_unconfigured s p₀ in
      let (_, s₁, p₁, q₁) = >>=-returned (throttle env now (codes "login") req.ip 10 300) _ s₀ q₀ in
      let (c, s₂, p₂, q₂) = >>=-returned (credentials env req.body) _ s₁ q₁ in
      let (a, s₃, p₃, q₃) = >>=-returned (sign_in env now c.0 c.1) _ s₂ q₂ in
      let (u, s₄, p₄, q₄) = >>=-returned (account env now c.0 a) _ s₃ q₃ in
      let (_, s₅, p₅, q₅) = >>=-returned (gate env now c.0 a u) _ s₄ q₄ in
      assembled now req s s₀ s₁ s₂ s₃ s₄ s₅ s' c a u user has_kv same p₁ p₂ p₃ p₄ p₅ q₅
