-- ===== src/Firebase.antt =====
-- The client of the identity service, apps/web/src/lib/firebaseAuth.ts. The service and the
-- network are parameters: what a request came back with.
use pytone_digital.Prelude.{ℕ, Bool, true, false, ◌&&◌, Option, none, some, ltb, leb, if◌then◌else◌}
use pytone_digital.Text.{Text, codes, is_empty}

pub record FirebaseUser : Type 0 where
  pub local_id : Text
  pub id_token : Text
  pub refresh_token : Text

-- What a call throws.
pub data FirebaseError : Type 0 where
  not_configured : FirebaseError
  auth_error : ℕ → Text → FirebaseError
  other_error : FirebaseError

pub data Result (A : Type 0) : Type 0 where
  ok : A → Result A
  err : FirebaseError → Result A

-- A response: its status, and its body.
pub record Reply : Type 0 where
  pub status : ℕ
  pub text : Text

abbrev pub is_ok : Reply → Bool
is_ok r = leb 200 r.status && ltb r.status 300

-- The code of an error's body: its `error.message`, when the body has one that is not empty.
abbrev pub code_of : Option Text → Text
code_of none = codes "unknown"
code_of (some message) = if is_empty message then codes "unknown" else message

abbrev pub parsed_reply : {A : Type 0} → ℕ → Option A → Result A
parsed_reply status none = err (auth_error status (codes "bad_json"))
parsed_reply status (some a) = ok a

module _ (message_of : Text → Option Text) {A : Type 0} (parse : Text → Option A) where
  -- What `call` makes of a reply, `none` when the request itself throws.
  abbrev pub read_reply : Option Reply → Result A
  read_reply none = err other_error
  read_reply (some r) =
      if is_ok r
      then parsed_reply r.status (parse r.text)
      else err (auth_error r.status (code_of (message_of r.text)))

  abbrev read_keyed : Bool → Option Reply → Result A
  read_keyed true reply = err not_configured
  read_keyed false reply = read_reply reply

  -- `call`, with the key of the environment, and what the request comes back with.
  unfoldable pub call : Option Text → (Text → Option Reply) → Result A
  call none fetch = err not_configured
  call (some key) fetch = read_keyed (is_empty key) (fetch key)

-- What the routes ask of the service.
pub record Firebase : Type 0 where
  pub signin : Text → Text → Result FirebaseUser
  pub signup : Text → Text → Result FirebaseUser
  -- `firebaseLookupByIdToken`: whether the address is verified, when there is a user.
  pub lookup : Text → Result (Option Bool)
