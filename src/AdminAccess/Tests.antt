-- ===== src/AdminAccess/Tests.antt =====
-- The theorems on the changes of administrators at concrete inputs.
use pytone_digital.Prelude.{◌≡◌, refl, true, not, none, some, [], ◌∷◌, arith}
use pytone_digital.Users.Flat.{flat_users, flat_users-IsCodec}
use pytone_digital.Effect.{Outcome}
use pytone_digital.Runtime.{naturals}
use pytone_digital.AdminAccess.{Patched, AdminReply}
use pytone_digital.Text.{codes, trim, ascii_lower}
use pytone_digital.Kv.Dict.{dict, dict-IsKeeping}
use pytone_digital.Access.{UserRecord, access_state, is_expired, normalise_email}
use pytone_digital.AdminAccess.{grant_subscription, object, apply_action, patch}
use pytone_digital.AdminAccess.Ends.{apply_action-ends}
use pytone_digital.AdminAccess.Written.{IsWritten, patch-IsWritten}

abbrev paying : UserRecord
paying = record {
  user_id = codes "u";
  email = codes "u@x";
  password_hash = none;
  legacy_migrated = none;
  created_at = 1000000000;
  last_login_at = none;
  trial_started_at = none;
  subscribed_until = some 2000000000;
}

-- Thirty days on top of a subscription.
apply_action-ends_example :
    not (
      is_expired
        (access_state (apply_action 1700000000 (grant_subscription 30) paying) 4500000000).status)
    ≡ true
apply_action-ends_example =
    apply_action-ends 1700000000 4500000000 (grant_subscription 30) paying (omega arith)

-- The store that holds this account.
abbrev with_account : dict.State
with_account =
    (codes "user:u@x", record { content = flat_users.encode paying; put_at = 0; ttl = none }) ∷ []

abbrev change_example : Outcome AdminReply Patched × dict.State
change_example =
    patch naturals dict flat_users (some (codes "key")) (some (codes "token"))
      (λ token key. some (some token)) 1700000000 true (some (codes "U@x"))
      (object (some (codes "grantSubscription")) (some 30)) with_account

patch-IsWritten_example :
    IsWritten naturals dict flat_users 1700000000 1800000000
      (some (codes "key"))
      (some (codes "token"))
      (λ token key. some (some token))
      (some (codes "U@x"))
      (object (some (codes "grantSubscription")) (some 30))
      with_account
      change_example
unfolding normalise_email trim ascii_lower
patch-IsWritten_example =
    patch-IsWritten naturals dict dict-IsKeeping flat_users flat_users-IsCodec (some (codes "key"))
      (some (codes "token")) (λ token key. some (some token)) 1700000000 1800000000 true
      (some (codes "U@x")) (object (some (codes "grantSubscription")) (some 30)) with_account refl
