-- ===== src/Login/Frames.antt =====
-- What the steps of a sign-in leave alone: no step before the session is made touches a session.
use pytone_digital.Prelude.{
  ℕ, ◌+◌, ◌/◌, ◌≡◌, refl, ◌∙◌, subst, inl, inr, false, not, Option, none, some, Bool-cases,
}
use pytone_digital.Text.{Text}
use pytone_digital.Effect.{M}
use pytone_digital.Kv.{IsKeeping, kv_put, stored}
use pytone_digital.Kv.Frame.{SameAt, SameAt-refl, Spares, spare_rules, put-Spares, answer_if-Spares}
use pytone_digital.Session.Keys.{is_session_key}
use pytone_digital.RateLimit.{
  RateLimitResult, rate_limit, after_read, limit_key, kept_state, reaches, count_of, show_next,
  caller_ip,
}
use pytone_digital.Access.{UserRecord}
use pytone_digital.Users.{
  find_user, create_user, touch_user, save_user, create_preverify_handle, delete_preverify_handle,
}
use pytone_digital.Users.Kinds.{
  user_key-session, saved_key-session, handle_key-session, limit_key-session,
}
use pytone_digital.Firebase.{FirebaseUser, Result, ok, err, not_configured, auth_error, other_error}
use pytone_digital.Login.{
  Env, Body, unreadable, null_body, fields, LoginReply, too_many_requests, Accepted, Request,
  throttle_end, throttle, credentials, signed_up, migrate_hash, migrate_user, migrate_legacy,
  sign_in, sign_in_end, align_user, account, gate, admit,
}

module _ (env : Env) (keeping : IsKeeping env.kv) where
  abbrev Fine : {A : Type 0} → M env.kv.State LoginReply A → Type 0
  Fine m = Spares env.kv is_session_key m

  find_user-Spares : (now : ℕ) (email : Text) → Fine (find_user env.js env.kv env.users now email)
  unfolding find_user
  find_user-Spares now email = search spare_rules

  create_user-Spares :
      (now : ℕ) (uid email : Text) → Fine (create_user env.js env.kv env.users now uid email)
  unfolding create_user
  create_user-Spares now uid email = search (spare_rules, user_key-session)

  save_user-Spares :
      (now : ℕ) (email : Text) (user : UserRecord)
      → Fine (save_user env.js env.kv env.users now email user)
  unfolding save_user
  save_user-Spares now email user = search (spare_rules, saved_key-session)

  pub touch_user-Spares :
      (now : ℕ) (user : UserRecord) → Fine (touch_user env.js env.kv env.users now user)
  unfolding touch_user
  touch_user-Spares now user = search (spare_rules, user_key-session)

  create_preverify_handle-Spares :
      (now : ℕ) (token email refresh : Text)
      → Fine (create_preverify_handle env.kv env.handles now token email refresh)
  unfolding create_preverify_handle
  create_preverify_handle-Spares now token email refresh = search (spare_rules, handle_key-session)

  pub delete_preverify_handle-Spares :
      (now : ℕ) (token : Text) → Fine (delete_preverify_handle env.kv env.handles now token)
  unfolding delete_preverify_handle
  delete_preverify_handle-Spares now token = search (spare_rules, handle_key-session)

  credentials-Spares : (b : Body) → Fine (credentials env b)
  unfolding credentials
  credentials-Spares unreadable = search spare_rules
  credentials-Spares null_body = search spare_rules
  credentials-Spares (fields email password) = search spare_rules

  kept_state-SameAt :
      (now : ℕ) (k v : Text) (ttl : Option ℕ) (s : env.kv.State)
      → is_session_key k ≡ false
      → SameAt env.kv is_session_key s (kept_state env.kv s (env.kv.put now k v ttl s))
  unfolding kv_put
  kept_state-SameAt now k v ttl s h =
      subst (λ z. SameAt env.kv is_session_key s z) (stored_kept s (env.kv.put now k v ttl s))
        (put-Spares env.kv is_session_key LoginReply now k v ttl keeping h s)
    where
      stored_kept :
          (s : env.kv.State) (o : Option env.kv.State)
          → (stored env.kv {R = LoginReply} s o).1 ≡ kept_state env.kv s o
      stored_kept s none = refl
      stored_kept s (some s') = refl

  after_read-SameAt :
      (now : ℕ) (k : Text) (limit window : ℕ) (s : env.kv.State) (o : Option (Option Text))
      → is_session_key k ≡ false
      → SameAt env.kv is_session_key s (after_read env.kv now k limit window s o).1
  unfolding after_read
  after_read-SameAt now k limit window s none h = SameAt-refl env.kv is_session_key s
  after_read-SameAt now k limit window s (some raw) h =
      elim (Bool-cases (reaches (count_of raw) limit)) [
        | inl e ↦ rw e (SameAt-refl env.kv is_session_key s)
        | inr e ↦ rw e (kept_state-SameAt now k (show_next (count_of raw)) (some (window + 5)) s h)
      ]

  throttle_end-SameAt :
      (s : env.kv.State) (r : RateLimitResult × env.kv.State)
      → SameAt env.kv is_session_key s r.1
      → SameAt env.kv is_session_key s (throttle_end env r).1
  throttle_end-SameAt s (r, s') h now k e =
      answer_if-Spares env.kv is_session_key LoginReply (not r.ok) (too_many_requests r.retry_after)
        s' now k e
      ∙ h now k e

  throttle-Spares :
      (now : ℕ) (bucket : Text) (ip : Option Text) (limit window : ℕ)
      → Fine (throttle env now bucket ip limit window)
  unfolding throttle rate_limit
  throttle-Spares now bucket ip limit window s =
      throttle_end-SameAt s (rate_limit env.kv now bucket (caller_ip ip) limit window s) (
        after_read-SameAt (now / 1000) (limit_key bucket (caller_ip ip) (now / 1000 / window)) limit
          window s
          (env.kv.get (now / 1000) (limit_key bucket (caller_ip ip) (now / 1000 / window)) s)
          (limit_key-session bucket (caller_ip ip) (now / 1000 / window)))

  signed_up-Spares : (r : Result FirebaseUser) → Fine (signed_up env r)
  signed_up-Spares (ok u) = search spare_rules
  signed_up-Spares (err not_configured) = search spare_rules
  signed_up-Spares (err other_error) = search spare_rules
  signed_up-Spares (err (auth_error status code)) = search spare_rules

  migrate_hash-Spares :
      (email password : Text) (hash : Option Text) → Fine (migrate_hash env email password hash)
  migrate_hash-Spares email password none = search spare_rules
  migrate_hash-Spares email password (some hash) = search (spare_rules, signed_up-Spares)

  migrate_user-Spares :
      (email password : Text) (user : Option UserRecord)
      → Fine (migrate_user env email password user)
  migrate_user-Spares email password none = search spare_rules
  migrate_user-Spares email password (some user) =
      migrate_hash-Spares email password user.password_hash

  migrate_legacy-Spares :
      (now : ℕ) (email password : Text) → Fine (migrate_legacy env now email password)
  unfolding migrate_legacy
  migrate_legacy-Spares now email password =
      search (spare_rules, find_user-Spares, migrate_user-Spares)

  sign_in_end-Spares :
      (now : ℕ) (email password : Text) (r : Result FirebaseUser)
      → Fine (sign_in_end env now email password r)
  sign_in_end-Spares now email password (ok u) = search spare_rules
  sign_in_end-Spares now email password (err not_configured) = search spare_rules
  sign_in_end-Spares now email password (err other_error) = search spare_rules
  sign_in_end-Spares now email password (err (auth_error status code)) =
      search (spare_rules, migrate_legacy-Spares)

  sign_in-Spares : (now : ℕ) (email password : Text) → Fine (sign_in env now email password)
  unfolding sign_in
  sign_in-Spares now email password =
      sign_in_end-Spares now email password (env.firebase.signin email password)

  align_user-Spares :
      (now : ℕ) (email : Text) (a : Accepted) (user : Option UserRecord)
      → Fine (align_user env now email a user)
  align_user-Spares now email a none = search (spare_rules, create_user-Spares, save_user-Spares)
  align_user-Spares now email a (some user) = search (spare_rules, save_user-Spares)

  account-Spares : (now : ℕ) (email : Text) (a : Accepted) → Fine (account env now email a)
  unfolding account
  account-Spares now email a = search (spare_rules, find_user-Spares, align_user-Spares)

  gate-Spares :
      (now : ℕ) (email : Text) (a : Accepted) (user : UserRecord) → Fine (gate env now email a user)
  unfolding gate
  gate-Spares now email a user = search (spare_rules, create_preverify_handle-Spares)

  -- Nothing that is done before the session is made touches a session.
  pub admit-Spares : (now : ℕ) (req : Request) → Fine (admit env now req)
  unfolding admit
  admit-Spares now req =
      search
        (
          spare_rules, throttle-Spares, credentials-Spares, sign_in-Spares, account-Spares,
          gate-Spares,
        )
        depth 14
