-- ===== src/Login/Credentials.antt =====
-- Which passwords the sign-in of auth/login/route.ts accepts.
use pytone_digital.Prelude.{
  ℕ, ◌≡◌, refl, ap, ◌∙◌, subst, ◌⊎◌, inl, inr, true, false, Option, none, some, if◌then◌else◌,
  Bool-cases,
}
use pytone_digital.Text.{Text, codes, is_empty, includes}
use pytone_digital.Effect.{returned, ◌>>=◌, pure, or_throw, or_answer, >>=-returned}
use pytone_digital.Effect.Ends.{
  pure-returned, answer-returned, throw-returned, or_answer-returned, or_throw-returned,
}
use pytone_digital.Access.{UserRecord}
use pytone_digital.Users.{find_user}
use pytone_digital.Firebase.{FirebaseUser, Result, ok, err, not_configured, auth_error, other_error}
use pytone_digital.Login.{
  Env, LoginReply, Accepted, signed_up, migrate_hash, migrate_user, migrate_legacy, sign_in_end,
  invalid_credentials,
}
use pytone_digital.Password.{verify_password}

module _ (env : Env) where
  -- The stored hash of an account from before the identity service matches the password, and the
  -- service has taken the account over.
  abbrev pub IsMigrated : ℕ → Text → Text → env.kv.State → FirebaseUser → Type 0
  IsMigrated now email password s u =
      (user : UserRecord) × (hash : Text) × (s₁ : env.kv.State) × (find_user env.js env.kv env.users
          {R = LoginReply} now email s
        ≡ (returned (some user), s₁))
      × (user.password_hash ≡ some hash)
      × (verify_password env.crypto password hash ≡ some true)
      × (env.firebase.signup email password ≡ ok u)

  -- The password was accepted: by the identity service, or, when that does not know the address,
  -- by a migration.
  abbrev pub HasCredentials : ℕ → Text → Text → env.kv.State → Accepted → Type 0
  HasCredentials now email password s a =
      (env.firebase.signin email password ≡ ok a.firebase_user)
      ⊎ (IsMigrated now email password s a.firebase_user
          × ((status : ℕ) × (code : Text) × (env.firebase.signin email password
                ≡ err (auth_error status code))
              × (includes code (codes "EMAIL_NOT_FOUND") ≡ true)))

  absent_value : {A C : Type 0} {x : A} → none ≡ some x → C
  absent_value h = cc

  signed_up-ok :
      (r : Result FirebaseUser) (s s' : env.kv.State) (u : FirebaseUser)
      → signed_up env r s ≡ (returned (some u), s')
      → r ≡ ok u
  signed_up-ok (ok v) s s' u h = cc
  signed_up-ok (err not_configured) s s' u h = throw-returned s h
  signed_up-ok (err other_error) s s' u h = throw-returned s h
  signed_up-ok (err (auth_error status code)) s s' u h =
      elim (Bool-cases (includes code (codes "EMAIL_EXISTS"))) [
        | inl e ↦ absent_value (pure-returned none s (rw e at h)).0
        | inr e ↦ throw-returned s (rw e at h)
      ]

  migrate_hash-ok :
      (email password : Text) (o : Option Text) (s s' : env.kv.State) (u : FirebaseUser)
      → migrate_hash env email password o s ≡ (returned (some u), s')
      → (hash : Text) × (o ≡ some hash)
        × (verify_password env.crypto password hash ≡ some true)
        × (env.firebase.signup email password ≡ ok u)
  migrate_hash-ok email password none s s' u h = absent_value (pure-returned none s h).0
  migrate_hash-ok email password (some hash) s s' u h = elim (Bool-cases (is_empty hash)) [
    | inl e ↦ absent_value (pure-returned none s (rw e at h)).0
    | inr e ↦
        let (matches, s₁, p, q) =
          >>=-returned (or_throw (verify_password env.crypto password hash))
            (λ matches.
              if matches then signed_up env (env.firebase.signup email password) else pure none)
            s (rw e at h) in
        let (found, same) = or_throw-returned (verify_password env.crypto password hash) s p in
        elim (Bool-cases matches) [
          | inl m ↦ (
            hash,
            refl,
            found ∙ ap some m,
            signed_up-ok (env.firebase.signup email password) s₁ s' u (rw m at q),
          )
          | inr m ↦ absent_value (pure-returned none s₁ (rw m at q)).0
        ]
  ]

  migrate_legacy-ok :
      (now : ℕ) (email password : Text) (s s' : env.kv.State) (u : FirebaseUser)
      → migrate_legacy env now email password s ≡ (returned (some u), s')
      → IsMigrated now email password s u
  unfolding migrate_legacy
  migrate_legacy-ok now email password s s' u h =
      let (o, s₁, p, q) =
        >>=-returned (find_user env.js env.kv env.users now email) (migrate_user env email password)
          s h in
      found o s₁ p q
    where
      found :
          (o : Option UserRecord) (s₁ : env.kv.State)
          → find_user env.js env.kv env.users {R = LoginReply} now email s ≡ (returned o, s₁)
          → migrate_user env email password o s₁ ≡ (returned (some u), s')
          → IsMigrated now email password s u
      found none s₁ p q = absent_value (pure-returned none s₁ q).0
      found (some user) s₁ p q =
          let (hash, e, v, up) = migrate_hash-ok email password user.password_hash s₁ s' u q in
          (user, hash, s₁, p, e, v, up)

  pub sign_in_end-accepted :
      (now : ℕ) (email password : Text) (r : Result FirebaseUser) (s s' : env.kv.State)
      (a : Accepted)
      → env.firebase.signin email password ≡ r
      → sign_in_end env now email password r s ≡ (returned a, s')
      → HasCredentials now email password s a
  sign_in_end-accepted now email password (ok u) s s' a e h = inl (
      e
      ∙ ap (λ a. ok a.firebase_user)
          (pure-returned (record { firebase_user = u; migrated = false }) s h).0)
  sign_in_end-accepted now email password (err not_configured) s s' a e h = answer-returned _ s h
  sign_in_end-accepted now email password (err other_error) s s' a e h = throw-returned s h
  sign_in_end-accepted now email password (err (auth_error status code)) s s' a e h =
      elim (Bool-cases (includes code (codes "EMAIL_NOT_FOUND"))) [
        | inl unknown ↦
            let (o, s₁, p, q) =
              >>=-returned (migrate_legacy env now email password)
                (λ o. do
                  u ← or_answer invalid_credentials o
                  pure (record { firebase_user = u; migrated = true }))
                s (rw unknown at h) in
            let (u, s₂, p₂, q₂) =
              >>=-returned (or_answer invalid_credentials o)
                (λ u. pure (record { firebase_user = u; migrated = true })) s₁ q in
            let (is_some, _) = or_answer-returned invalid_credentials o s₁ p₂ in
            let migrated =
              migrate_legacy-ok now email password s s₁ u
                (p ∙ ap (λ o. (returned o, s₁)) is_some) in
            let same = (pure-returned (record { firebase_user = u; migrated = true }) s₂ q₂).0 in
            inr (
              subst (λ x. IsMigrated now email password s x) (ap (λ a. a.firebase_user) same)
                  migrated,
              (status, code, e, unknown),
            )
        | inr known ↦ answer-returned invalid_credentials s (rw known at h)
      ]
