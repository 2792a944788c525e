-- ===== src/Login/Tests.antt =====
-- The theorems on the sign-in at concrete inputs, with a dictionary as the store.
use pytone_digital.Prelude.{◌≡◌, refl, true, false, none, some, [], ◌∷◌, if◌then◌else◌}
use pytone_digital.Users.Flat.{flat_users}
use pytone_digital.Text.{Text, codes, text_eq, trim, ascii_lower}
use pytone_digital.Runtime.{naturals}
use pytone_digital.Kv.{Codec, kv_get}
use pytone_digital.Kv.Dict.{dict, dict-IsUp}
use pytone_digital.Kv.Flat.{write_text}
use pytone_digital.Effect.{◌>>=◌}
use pytone_digital.Dictionary.{lookup}
use pytone_digital.Session.Tests.{flat_json}
use pytone_digital.Access.{UserRecord, user_key, normalise_email}
use pytone_digital.Users.{StoredHandle, find_user}
use pytone_digital.Firebase.{Firebase, FirebaseUser, ok, err, auth_error}
use pytone_digital.Login.{Env, Request, fields, account, gate, is_verified}
use pytone_digital.Login.Trust.{is_returned, gate-account}

abbrev uid_1 : FirebaseUser
uid_1 = record { local_id = codes "uid1"; id_token = codes "t"; refresh_token = codes "r" }

-- One account, whose address is not verified.
abbrev one_account : Firebase
one_account = record {
  signin = λ email password.
      if text_eq password (codes "pw")
      then ok uid_1
      else err (auth_error 400 (codes "INVALID_PASSWORD"));
  signup = λ email password. err (auth_error 400 (codes "EMAIL_EXISTS"));
  lookup = λ id_token. ok (some false);
}

abbrev old_user : Text → Text → UserRecord
old_user user_id email = record {
  user_id = user_id;
  email = email;
  password_hash = none;
  legacy_migrated = none;
  created_at = 0;
  last_login_at = none;
  trial_started_at = none;
  subscribed_until = none;
}

abbrev handle_json : Codec StoredHandle
handle_json = record {
  encode = λ h. write_text h.email (write_text h.refresh_token []);
  decode = λ raw. none;
}

abbrev test_env : Env
test_env = record {
  js = naturals;
  kv = dict;
  users = flat_users;
  sessions = flat_json;
  handles = handle_json;
  crypto = record {
    base64 = λ t. some t;
    derive = λ password salt n. some password;
    integer = λ t. some 100000;
  };
  firebase = one_account;
  has_kv = true;
  sid = codes "a1";
  token = codes "tok";
}

abbrev test_request : Request
test_request = record {
  ip = some (codes "1.2.3.4");
  user_agent = some (codes "TV");
  cookie = [];
  body = fields (some (codes "U@x")) (some (codes "pw"));
}

-- The store with a record of the address under another id.
abbrev stored_user : dict.State
stored_user =
    (
      codes "user:u@x",
      record {
        content = flat_users.encode (old_user (codes "legacy7") (codes "u@x"));
        put_at = 0;
        ttl = none;
      },
    )
    ∷ []

-- The address is not verified, and the gate opens.
gate-account_example :
    is_returned
      ((account test_env 5000 (codes "u@x") (record { firebase_user = uid_1; migrated = false })
          >>= λ user.
              gate test_env 5000
                (codes "u@x")
                (record { firebase_user = uid_1; migrated = false })
                user)
        stored_user).0
    ≡ true
unfolding lookup find_user kv_get user_key normalise_email trim ascii_lower is_verified
gate-account_example =
    gate-account test_env dict-IsUp 5000 (codes "u@x")
      (record { firebase_user = uid_1; migrated = false })
      (old_user (codes "legacy7") (codes "u@x")) stored_user refl
