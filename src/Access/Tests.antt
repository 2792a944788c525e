-- ===== src/Access/Tests.antt =====
-- The theorems on users.ts and accessGuard.ts at concrete inputs.
use pytone_digital.Prelude.{◌≡◌, refl, true, false, none, some}
use pytone_digital.Text.{codes}
use pytone_digital.Access.{UserRecord, access_state, require_active_access}
use pytone_digital.Access.Periods.{is_granted, require_active_access-end}

abbrev account : UserRecord
account = record {
  user_id = codes "u1";
  email = codes "a@b.c";
  password_hash = none;
  legacy_migrated = none;
  created_at = 1000;
  last_login_at = none;
  trial_started_at = none;
  subscribed_until = some 900000000;
}

require_active_access-end_example :
    is_granted (
      require_active_access 900000001 true
        (some (codes "s"))
        (λ sid. some (codes "a@b.c"))
        (λ email. some account))
    ≡ false
require_active_access-end_example =
    require_active_access-end 900000001 (codes "s") (codes "a@b.c") (λ sid. some (codes "a@b.c"))
      (λ email. some account) account refl refl refl

-- A subscription that ends in more than a day and less than two.
access_state_runs : (access_state account 800000000).days_left ≡ 1
unfolding access_state
access_state_runs = refl
