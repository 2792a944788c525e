-- ===== src/ChannelCache.antt =====
-- The cache of channels, apps/web/src/lib/channelCache.ts. A browser tab holds a map in memory, which
-- survives navigation, and the storage of the session, which survives a reload; both are keyed by
-- the user. Times are milliseconds.
pub mod Provenance
mod Tests
use pytone_digital.Prelude.{
  ℕ, zero, suc, ◌+◌, ◌-◌, ◌*◌, ◌/◌, ◌%◌, ◌^◌, ◌≤◌, ◌<◌, min, max, String, ◌≡◌, refl, sym, ap, ◌∙◌,
  subst, ◌≡⟨◌⟩◌, ◌∎, ◌≢◌, ◌↔◌, ◌⊎◌, inl, inr, Bool, true, false, not, ◌&&◌, ◌||◌, Option, none,
  some, List, [], ◌∷◌, ◌++◌, map, foldl, reverse, arith, ltb, leb, ◌==◌, if◌then◌else◌, ltb→lt,
  lt→ltb, le→ltb_false, leb→le, le→leb, ==_iff, Bool-cases, Option-cases, length, get_elem?, take,
  drop, keep, any, all, length-append, length-keep-le, All, All-append, All-append_left,
  All-append_right,
}
use pytone_digital.Text.{
  Text, codes, text_eq, is_empty, is_digit, ascii_lower, starts_with, includes, trim,
}
use pytone_digital.Text.Decimal.{show}
use pytone_digital.Dictionary.{lookup, insert, remove}
use pytone_digital.Runtime.{Js}
use pytone_digital.M3u.{Channel, ParseStats}
use pytone_digital.M3u.Playlist.{parse_m3u}

abbrev pub parse_version : ℕ
parse_version = 3

abbrev pub max_age_ms : ℕ
max_age_ms = 30 * 60000

pub record CacheEntry (N : Type 0) : Type 0 where
  pub url : Text
  pub fetched_at : ℕ
  pub channels : List (Channel N)
  pub v : Option ℕ

-- What a key of the session's storage holds: a text, as `JSON.parse` reads it. It reads an entry, or
-- the text is not the JSON of one.
pub data Stored (N : Type 0) : Type 0 where
  unreadable : Stored N
  entry : CacheEntry N → Stored N

-- `full` says that `setItem` throws.
pub record Tab (N : Type 0) : Type 0 where
  pub mem : List (Text × CacheEntry N)
  pub session : List (Text × Stored N)
  pub full : Bool

pub record Source : Type 0 where
  pub title : Text
  pub sub : Text

abbrev is_handle_unit : ℕ → Bool
is_handle_unit c = is_digit c || (leb b'a' c && leb c b'z') || c == b'-'

-- `/^local:[a-z0-9-]+$/i`
unfoldable pub is_local_handle : Text → Bool
is_local_handle sub =
    starts_with (ascii_lower sub) (codes "local:")
    && not (is_empty (drop 6 sub))
    && all is_handle_unit (drop 6 (ascii_lower sub))

unfoldable pub is_real_url : Text → Bool
is_real_url sub =
    not (is_empty sub)
    && (starts_with (ascii_lower sub) (codes "http://")
        || starts_with (ascii_lower sub) (codes "https://"))
    && not (includes (ascii_lower sub) (codes "provider.example"))
    && not (includes sub (0x2022 ∷ []))

unfoldable pub is_real_live_source_url : Text → Bool
unfolding is_local_handle is_real_url
is_real_live_source_url sub = is_local_handle sub || is_real_url sub

-- The address and the title of the first real source; `none` for the list is a storage that is
-- empty or holds no list.
unfoldable pub find_source : List Source → Option (Text × Text)
unfolding is_real_live_source_url
find_source [] = none
find_source (s ∷ ss) =
    if is_real_live_source_url s.sub
    then some (s.sub, if is_empty s.title then codes "My playlist" else s.title)
    else find_source ss

unfoldable pub get_user_source_url : Option (List Source) → Option (Text × Text)
unfolding find_source
get_user_source_url none = none
get_user_source_url (some ss) = find_source ss

abbrev pub is_version : Option ℕ → Bool
is_version none = false
is_version (some v) = v == parse_version

abbrev pub is_wanted : Option Text → Text → Bool
is_wanted none url = true
is_wanted (some wanted) url = text_eq url wanted

-- `forUrl ?? getUserSourceUrl()?.url`
abbrev pub wanted_url : Option Text → Option (Text × Text) → Option Text
wanted_url (some url) source = some url
wanted_url none none = none
wanted_url none (some (url, _)) = some url

abbrev pub map_number {ℓ} : {A : Type ℓ} → (A → A) → Option A → Option A
map_number f none = none
map_number f (some a) = some (f a)

module _ {N : Type 0} where
  abbrev pub checked_entry : ℕ → Option (Stored N) → Option (CacheEntry N)
  checked_entry now none = none
  checked_entry now (some unreadable) = none
  checked_entry now (some (entry e)) =
      if ltb max_age_ms (now - e.fetched_at) then none else if is_version e.v then some e else none

  -- `readSessionCache` for the key.
  unfoldable pub read_session_cache : Text → ℕ → Tab N → Option (CacheEntry N)
  read_session_cache key now t = checked_entry now (lookup key t.session)

  -- A channel after `JSON.stringify` and `JSON.parse`, which keep texts and missing fields, where
  -- `json_num` is what they make of a number: JSON has no infinite numbers, and writes null.
  abbrev pub revived : (N → N) → Channel N → Channel N
  revived json_num c = record c {
    number = json_num c.number;
    catchup_days = map_number json_num c.catchup_days;
    catchup_correction = map_number json_num c.catchup_correction;
  }

  -- What will be read back is put; `setItem` that fails changes nothing.
  unfoldable pub write_session_cache : (N → N) → Text → CacheEntry N → Tab N → Tab N
  write_session_cache json_num key e t = if t.full then t else record t {
    session =
        insert key (entry (record e { channels = map (revived json_num) e.channels })) t.session;
  }

  -- `fresh`
  unfoldable pub fresh : Option Text → CacheEntry N → Option (List (Channel N))
  fresh wanted e = if is_version e.v && is_wanted wanted e.url then some e.channels else none

  abbrev pub from_session :
      Text → Option Text → Tab N → Option (CacheEntry N) → Option (List (Channel N)) × Tab N
  from_session key wanted t none = (none, t)
  from_session key wanted t (some e) = (fresh wanted e, record t { mem = insert key e t.mem })

  abbrev pub from_mem :
      Text → Option Text → ℕ → Tab N → Option (CacheEntry N) → Option (List (Channel N)) × Tab N
  from_mem key wanted now t (some e) = (fresh wanted e, t)
  from_mem key wanted now t none = from_session key wanted t (read_session_cache key now t)

  unfoldable pub get_cached_channels :
      Text → Option Text → Option (Text × Text) → ℕ → Tab N → Option (List (Channel N)) × Tab N
  unfolding fresh read_session_cache
  get_cached_channels key for_url source now t =
      from_mem key (wanted_url for_url source) now t (lookup key t.mem)

  unfoldable pub invalidate_cache : Text → Tab N → Tab N
  invalidate_cache key t = record t { mem = remove key t.mem; session = remove key t.session }

-- How the request to the playlist proxy ends: a network error with its message, or an answer with
-- its body (`none` when reading it throws).
pub data Reply : Type 0 where
  unreachable : Text → Reply
  answered : Bool → ℕ → Option Text → Reply

-- `loadChannelsResult` rejects where `r.text()` throws, which is `thrown`.
pub data LoadResult (N : Type 0) : Type 0 where
  failed : Text → LoadResult N
  loaded : List (Channel N) → Option ParseStats → LoadResult N
  thrown : LoadResult N

module _ (js : Js) (json_num : js.Num → js.Num) where
  -- What `fetchAndParse` does with the text of a playlist.
  unfoldable pub parse_and_store :
      Text → Text → ℕ → Text → Tab js.Num → LoadResult js.Num × Tab js.Num
  parse_and_store key url now text t =
      let (channels, stats) = parse_m3u js text in
      let e : CacheEntry js.Num = record {
        url = url;
        fetched_at = now;
        channels = channels;
        v = some parse_version;
      } in
      if length channels == 0
      then (
        failed (
            codes
              "Playlist contained no channels. The file may be empty or use a non-standard format."),
        t,
      )
      else (
        loaded channels (some stats),
        write_session_cache json_num key e (record t { mem = insert key e t.mem }),
      )

  abbrev or_blank : Option Text → Text
  or_blank none = []
  or_blank (some s) = s

  proxy_error : ℕ → Option Text → Text
  proxy_error status body =
      let trimmed = take 200 (trim (or_blank body)) in
      codes "Playlist proxy returned "
      ++ show status
      ++ (if is_empty trimmed then [] else codes " " ++ 0x2014 ∷ codes " " ++ trimmed)

  pub parse_file : Text → Text → ℕ → Text → Tab js.Num → LoadResult js.Num × Tab js.Num
  parse_file key url now file t =
      if is_empty file
      then (
        failed
            (codes "The uploaded playlist isn't in browser storage any more. Re-upload the file."),
        t,
      )
      else parse_and_store key url now file t

  pub parse_reply : Text → Text → ℕ → Reply → Tab js.Num → LoadResult js.Num × Tab js.Num
  unfolding proxy_error
  parse_reply key url now (unreachable message) t =
      (failed (codes "Network error reaching /api/m3u: " ++ message), t)
  parse_reply key url now (answered false status body) t = (failed (proxy_error status body), t)
  parse_reply key url now (answered true status none) t = (thrown, t)
  parse_reply key url now (answered true status (some text)) t = parse_and_store key url now text t

  -- `file` is the text that the browser's storage holds for the address of an uploaded file, empty
  -- when there is none; `reply` is used for other addresses. The key of the user is read when the
  -- text is there.
  unfoldable pub fetch_and_parse :
      Text → Text → ℕ → Text → Reply → Tab js.Num → LoadResult js.Num × Tab js.Num
  unfolding parse_file parse_reply
  fetch_and_parse key url now file reply t =
      if starts_with url (codes "local:")
      then parse_file key url now file t
      else parse_reply key url now reply t

module _ (js : Js) where
  -- What a call of `loadChannelsResult` does at once: it answers, or it waits for a fetch, its own
  -- or one that is in flight for the same user and address.
  pub data Started : Type 0 where
    no_source : Started
    served : List (Channel js.Num) → Started
    waits : Text → Started

  abbrev pub or_fetch : Text → Option (List (Channel js.Num)) → Started
  or_fetch url none = waits url
  or_fetch url (some []) = waits url
  or_fetch url (some (c ∷ cs)) = served (c ∷ cs)

  unfoldable pub start_load : Text → Option (Text × Text) → ℕ → Tab js.Num → Started × Tab js.Num
  unfolding get_cached_channels
  start_load key none now t = (no_source, t)
  start_load key (some (url, title)) now t =
      let (cached, t) = get_cached_channels key (some url) (some (url, title)) now t in
      (or_fetch url cached, t)
