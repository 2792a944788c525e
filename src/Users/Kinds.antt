-- ===== src/Users/Kinds.antt =====
-- The kinds of keys of the server: those of users, handles and counters are none of a session.
use pytone_digital.Prelude.{ℕ, ◌≡◌, refl, false, ◌++◌}
use pytone_digital.Text.{Text, codes, starts_with}
use pytone_digital.Runtime.{Js}
use pytone_digital.Access.{user_key}
use pytone_digital.RateLimit.{limit_key}
use pytone_digital.Session.Keys.{is_session_key}
use pytone_digital.Users.{handle_key}

pub user_key-session : (js : Js) (email : Text) → is_session_key (user_key js email) ≡ false
unfolding user_key starts_with
user_key-session js email = refl

pub saved_key-session : (email : Text) → is_session_key (codes "user:" ++ email) ≡ false
unfolding starts_with
saved_key-session email = refl

pub handle_key-session : (token : Text) → is_session_key (handle_key token) ≡ false
unfolding handle_key starts_with
handle_key-session token = refl

pub limit_key-session :
    (bucket id : Text) (window : ℕ) → is_session_key (limit_key bucket id window) ≡ false
unfolding limit_key starts_with
limit_key-session bucket id window = refl
