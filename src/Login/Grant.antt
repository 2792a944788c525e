-- ===== src/Login/Grant.antt =====
-- The session that the sign-in of auth/login/route.ts ends with.
use pytone_digital.Prelude.{ℕ, ◌≡◌, some}
use pytone_digital.Text.{Text}
use pytone_digital.Effect.{Outcome, returned, answered, thrown}
use pytone_digital.Kv.{IsKeeping, IsUp, IsCodec}
use pytone_digital.Kv.Frame.{SameAt}
use pytone_digital.Session.{read_session, create_session}
use pytone_digital.Session.Keys.{is_session_key}
use pytone_digital.Access.{UserRecord}
use pytone_digital.Users.{touch_user, delete_preverify_handle, read_preverify_cookie}
use pytone_digital.Login.{Env, LoginReply, Request, SignedIn}
use pytone_digital.Login.Gate.{IsAdmitted}

module _ (env : Env) where
  -- How a sign-in may end: with a session of a user that was let in, or with every session as it
  -- was.
  abbrev pub IsLawful :
      ℕ → Request → env.kv.State → Outcome LoginReply SignedIn × env.kv.State → Type 0
  IsLawful now req s (returned l, s') =
      (user : UserRecord) × IsAdmitted env now req s user
      × (l.email ≡ user.email)
      × (read_session env.kv env.sessions {R = LoginReply} now l.sid s' ≡ (
        returned (
            some (record {
              user_id = user.user_id;
              email = user.email;
              created_at = now;
              user_agent = req.user_agent;
              ip = req.ip;
            })),
        s',
      ))
  IsLawful now req s (answered r, s') = SameAt env.kv is_session_key s s'
  IsLawful now req s (thrown, s') = SameAt env.kv is_session_key s s'

module _ (env : Env) (keeping : IsKeeping env.kv) (up : IsUp env.kv)
    (codec : IsCodec env.sessions) where
  -- Once a user is let in, the sign-in succeeds.
  abbrev after_touch : ℕ → UserRecord → env.kv.State → env.kv.State
  after_touch now user s = (touch_user env.js env.kv env.users {R = LoginReply} now user s).1

  abbrev after_create : ℕ → Request → UserRecord → env.kv.State → env.kv.State
  after_create now req user s =
      (create_session env.kv env.sessions {R = LoginReply} now env.sid user.user_id user.email
        req.user_agent req.ip s).1

  abbrev after_delete : ℕ → Request → env.kv.State → env.kv.State
  after_delete now req s =
      (delete_preverify_handle env.kv env.handles {R = LoginReply} now
        (read_preverify_cookie req.cookie) s).1
