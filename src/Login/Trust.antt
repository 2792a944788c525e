-- ===== src/Login/Trust.antt =====
-- Which accounts pass the gate on the address without a verified address.
use pytone_digital.Prelude.{
  ℕ, ◌/◌, ◌≡◌, refl, ◌∙◌, inl, inr, Bool, true, false, not, ◌||◌, none, some, ◌++◌, Bool-cases,
}
use pytone_digital.Text.{Text, text_eq, codes}
use pytone_digital.Effect.{Outcome, returned, answered, thrown, ◌>>=◌}
use pytone_digital.Kv.{IsUp, kv_put}
use pytone_digital.Access.{UserRecord}
use pytone_digital.Users.{
  find_user, save_user, create_preverify_handle, handle_key, StoredHandle, handle_ttl_sec,
}
use pytone_digital.Login.{Env, LoginReply, Accepted, account, gate, is_verified, is_set}

abbrev pub is_returned : {R A : Type 0} → Outcome R A → Bool
is_returned (returned a) = true
is_returned (answered r) = false
is_returned thrown = false

module _ (env : Env) (up : IsUp env.kv) where
  save_user-returned :
      (now : ℕ) (email : Text) (user : UserRecord) (s : env.kv.State)
      → save_user env.js env.kv env.users {R = LoginReply} now email user s
        ≡ (returned tt, (save_user env.js env.kv env.users {R = LoginReply} now email user s).1)
  unfolding save_user kv_put
  save_user-returned now email user s =
      let (s', e) =
        up.put_up (now / 1000) (codes "user:" ++ email) (env.users.encode user) none s in
      rw e refl

  create_handle-returned :
      (now : ℕ) (token email refresh : Text) (s : env.kv.State)
      → create_preverify_handle env.kv env.handles {R = LoginReply} now token email refresh s ≡ (
        returned token,
        (create_preverify_handle env.kv env.handles {R = LoginReply} now token email refresh s).1,
      )
  unfolding create_preverify_handle kv_put
  create_handle-returned now token email refresh s =
      let handle : StoredHandle = record {
        email = email;
        refresh_token = refresh;
        created_at = now;
      } in
      let (s', e) =
        up.put_up (now / 1000) (handle_key token) (env.handles.encode handle) (some handle_ttl_sec)
          s in
      rw e refl

  gate-is_returned :
      (now : ℕ) (email : Text) (a : Accepted) (user : UserRecord) (s : env.kv.State)
      → is_returned (gate env now email a user s).0
        ≡ (is_verified env a.firebase_user || is_set user.legacy_migrated)
  unfolding gate
  gate-is_returned now email a user s =
      elim (Bool-cases (is_verified env a.firebase_user || is_set user.legacy_migrated)) [
        | inl e ↦ rw e refl
        | inr e ↦
            rw (e, create_handle-returned now env.token user.email a.firebase_user.refresh_token s)
              refl
      ]

  -- When a record of the address is stored, the gate opens exactly when the identity service says
  -- the address is verified, or the record is flagged as trusted, or the record has another id
  -- than the one the identity service gave.
  pub gate-account :
      (now : ℕ) (email : Text) (a : Accepted) (old : UserRecord) (s : env.kv.State)
      → find_user env.js env.kv env.users {R = LoginReply} now email s ≡ (returned (some old), s)
      → is_returned ((account env now email a >>= λ user. gate env now email a user) s).0 ≡ (
          is_verified env a.firebase_user
          || (is_set old.legacy_migrated || not (text_eq old.user_id a.firebase_user.local_id)))
  unfolding account
  gate-account now email a old s h =
      elim (Bool-cases (text_eq old.user_id a.firebase_user.local_id)) [
        | inl e ↦
            rw (h, e) (gate-is_returned now email a old s ∙ no_more (is_set old.legacy_migrated))
        | inr e ↦
            let new : UserRecord = record old {
              user_id = a.firebase_user.local_id;
              password_hash = none;
              legacy_migrated = some true;
            } in
            rw (h, e, save_user-returned now email new s)
              (gate-is_returned now email a new
                  (save_user env.js env.kv env.users {R = LoginReply} now email new s).1
                ∙ trusted (is_set old.legacy_migrated))
      ]
    where
      no_more :
          (b : Bool)
          → (is_verified env a.firebase_user || b)
            ≡ (is_verified env a.firebase_user || (b || false))
      no_more true = refl
      no_more false = refl

      trusted :
          (b : Bool)
          → (is_verified env a.firebase_user || true)
            ≡ (is_verified env a.firebase_user || (b || true))
      trusted true = refl
      trusted false = refl
