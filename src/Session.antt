-- ===== src/Session.antt =====
-- Sessions on the server: apps/web/src/lib/auth/serverSession.ts and the routes on them, under
-- apps/web/src/app/api/auth (logout, sessions, sessions/[sid]). Times are in milliseconds.
pub mod Cookie
pub mod Keys
pub mod Writes
pub mod Index
pub mod Lifetime
pub mod Revoke
pub mod Tests
use pytone_digital.Prelude.{
  ℕ, zero, suc, ◌+◌, ◌-◌, ◌*◌, ◌/◌, ◌%◌, ◌^◌, ◌≤◌, ◌<◌, min, max, String, ◌≡◌, refl, sym, ap, ◌∙◌,
  subst, ◌≡⟨◌⟩◌, ◌∎, ◌≢◌, ◌↔◌, ◌⊎◌, inl, inr, Bool, true, false, not, ◌&&◌, ◌||◌, Option, none,
  some, List, [], ◌∷◌, ◌++◌, map, foldl, reverse, arith, ltb, leb, ◌==◌, if◌then◌else◌, ltb→lt,
  lt→ltb, le→ltb_false, leb→le, le→leb, ==_iff, Bool-cases, Option-cases, length, get_elem?, take,
  drop, keep, any, all, length-append, length-keep-le, All, All-append, All-append_left,
  All-append_right,
}
use pytone_digital.Text.{Text, codes, is_empty, text_eq}
use pytone_digital.Effect.{
  M, returned, answered, thrown, ◌>>=◌, ◌>>◌, pure, answer, answer_if, or_answer, quietly, both,
}
use pytone_digital.Kv.{Kv, Page, Codec, decode_value, kv_get, kv_put, kv_delete}

abbrev pub session_ttl_sec : ℕ
session_ttl_sec = 30 * 24 * 60 * 60

pub record SessionRecord : Type 0 where
  pub user_id : Text
  pub email : Text
  pub created_at : ℕ
  pub user_agent : Option Text
  pub ip : Option Text

unfoldable pub session_key : Text → Text
session_key id = codes "session:" ++ id

unfoldable pub index_prefix : Text → Text
index_prefix user_id = codes "user_sessions:" ++ (user_id ++ codes ":")

unfoldable pub index_key : Text → Text → Text
index_key user_id id = codes "user_sessions:" ++ (user_id ++ (b':' ∷ id))

module _ (kv : Kv) (json : Codec SessionRecord) {R : Type 0} where
  -- `createSession`, with the clock and the random id.
  unfoldable pub create_session :
      ℕ → Text → Text → Text → Option Text → Option Text → M kv.State R Text
  create_session now id user_id email user_agent ip = do
    let record_ : SessionRecord = record {
      user_id = user_id;
      email = email;
      created_at = now;
      user_agent = user_agent;
      ip = ip;
    }
    both (kv_put kv (now / 1000) (session_key id) (json.encode record_) (some session_ttl_sec))
        (kv_put kv (now / 1000) (index_key user_id id) (codes "1") (some session_ttl_sec))
    pure id

  -- `readSession`
  unfoldable pub read_session : ℕ → Text → M kv.State R (Option SessionRecord)
  read_session now id =
      if is_empty id
      then pure none
      else do raw ← kv_get kv (now / 1000) (session_key id); pure (decode_value json raw)

  abbrev pub delete_index : ℕ → Text → Option SessionRecord → M kv.State R (Unit {0})
  delete_index now id none = pure tt
  delete_index now id (some r) = kv_delete kv (now / 1000) (index_key r.user_id id)

  -- `destroySession`: `allSettled` runs both deletions and hides what they throw.
  unfoldable pub destroy_session : ℕ → Text → M kv.State R (Unit {0})
  destroy_session now id = if is_empty id then pure tt else do
    session ← read_session now id
    quietly (kv_delete kv (now / 1000) (session_key id))
    quietly (delete_index now id session)

  abbrev pub paged : kv.State → Option Page → M kv.State R Page
  paged s none = λ s. (thrown, s)
  paged s (some page) = pure page

  unfoldable pub kv_list : ℕ → Text → Option Text → ℕ → M kv.State R Page
  kv_list now prefix cursor limit s = paged s (kv.list (now / 1000) prefix cursor limit s) s

  -- The loop of `listSessionsForUser` over at most `pages` pages.
  unfoldable pub list_pages : ℕ → Text → ℕ → Option Text → M kv.State R (List Text)
  list_pages now prefix zero cursor = pure []
  list_pages now prefix (suc pages) cursor = do
    page ← kv_list now prefix cursor 1000
    let ids = map (λ name. drop (length prefix) name) page.names
    if page.list_complete
        then pure ids
        else do rest ← list_pages now prefix pages page.cursor; pure (ids ++ rest)

  unfoldable pub list_sessions_for_user : ℕ → Text → M kv.State R (List Text)
  list_sessions_for_user now user_id = list_pages now (index_prefix user_id) 8 none

-- What the routes on sessions answer.
pub data SessionReply : Type 0 where
  unavailable : SessionReply
  unauthorized : SessionReply
  forbidden : SessionReply
  already_gone : SessionReply

pub record SessionView : Type 0 where
  pub sid : Text
  pub created_at : ℕ
  pub user_agent : Option Text
  pub ip : Option Text
  pub is_current : Bool

-- The order of the devices: newest first, the current device first among equals.
abbrev pub comes_before : SessionView → SessionView → Bool
comes_before a b =
    ltb b.created_at a.created_at
    || (a.created_at == b.created_at && (a.is_current || not b.is_current))

unfoldable pub insert_view : SessionView → List SessionView → List SessionView
insert_view v [] = v ∷ []
insert_view v (w ∷ ws) =
    let rest = insert_view v ws in if comes_before v w then v ∷ w ∷ ws else w ∷ rest

unfoldable pub sort_views : List SessionView → List SessionView
sort_views [] = []
sort_views (v ∷ vs) = insert_view v (sort_views vs)

module _ (kv : Kv) (json : Codec SessionRecord) where
  -- The calling user's own session, or 401.
  unfoldable pub current_session : ℕ → Text → M kv.State SessionReply SessionRecord
  current_session now current_sid = do
    current ← read_session kv json now current_sid
    or_answer unauthorized current

  abbrev view_of : Text → Text → Option SessionRecord → List SessionView
  view_of current_sid sid none = []
  view_of current_sid sid (some r) =
      record {
        sid = sid;
        created_at = r.created_at;
        user_agent = r.user_agent;
        ip = r.ip;
        is_current = text_eq sid current_sid;
      }
      ∷ []

  unfoldable pub read_views : ℕ → Text → List Text → M kv.State SessionReply (List SessionView)
  read_views now current_sid [] = pure []
  read_views now current_sid (sid ∷ ids) = do
    r ← read_session kv json now sid
    rest ← read_views now current_sid ids
    pure (view_of current_sid sid r ++ rest)

  -- GET of the list of sessions.
  unfoldable pub get_sessions : ℕ → Bool → Text → M kv.State SessionReply (List SessionView)
  get_sessions now has_kv current_sid = do
    answer_if (not has_kv) unavailable
    current ← current_session now current_sid
    ids ← list_sessions_for_user kv json now current.user_id
    views ← read_views now current_sid ids
    pure (sort_views views)

  -- DELETE of one session; the result says whether the caller is signed out by it.
  unfoldable pub delete_session : ℕ → Bool → Text → Text → M kv.State SessionReply Bool
  delete_session now has_kv current_sid target_sid = do
    answer_if (not has_kv) unavailable
    current ← current_session now current_sid
    found ← read_session kv json now target_sid
    target ← or_answer already_gone found
    answer_if (not (text_eq target.user_id current.user_id)) forbidden
    destroy_session kv json now target_sid
    pure (text_eq target_sid current_sid)

  -- POST of a logout: it always succeeds.
  unfoldable pub logout : ℕ → Bool → Text → M kv.State SessionReply (Unit {0})
  logout now has_kv sid =
      if has_kv && not (is_empty sid) then quietly (destroy_session kv json now sid) else pure tt
