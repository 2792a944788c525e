-- ===== src/Catchup/Panels.antt =====
-- The shapes of live addresses in catchup.ts: `parseXtreamLiveUrl`, `parseFlussonicLiveUrl`, and the
-- candidates that are built from them.
use pytone_digital.Prelude.{
  ℕ, ◌+◌, ◌-◌, ◌*◌, ◌/◌, Bool, not, ◌&&◌, ◌||◌, Option, none, some, List, [], ◌∷◌, ◌++◌, reverse,
  ◌==◌, if◌then◌else◌, length, take, keep, all,
}
use pytone_digital.Text.{
  Text, codes, text_eq, is_empty, is_digit, ascii_lower, starts_with, split_at_unit,
}
use pytone_digital.Text.Decimal.{show}
use pytone_digital.Text.Search.{strip_prefix}
use pytone_digital.Epg.Entities.{span}
use pytone_digital.Catchup.{CatchupRequest, LiveUrl, Platform, corrected_start_ms}
use pytone_digital.Catchup.Template.{pad2, is_letter}

pub record XtreamParts : Type 0 where
  pub base : Text
  pub user : Text
  pub pass : Text
  pub sid : Text

pub record FlussonicParts : Type 0 where
  pub base : Text
  pub stream : Text
  pub playlist : Text

-- `pathname.split('/').filter(Boolean)`, the last segment first.
unfoldable pub segments : Text → List Text
segments path = reverse (keep (λ s. not (is_empty s)) (split_at_unit b'/' path))

abbrev is_web : LiveUrl → Bool
is_web u = text_eq u.protocol (codes "http:") || text_eq u.protocol (codes "https:")

abbrev ends_with : Text → Text → Bool
ends_with s t = starts_with (reverse s) (reverse t)

abbrev origin : LiveUrl → Text
origin u = u.protocol ++ codes "//" ++ u.host

abbrev joined : List Text → Text
joined [] = []
joined (p ∷ ps) = b'/' ∷ p ++ joined ps

abbrev flussonic_parts : LiveUrl → List Text → Option FlussonicParts
flussonic_parts u (last ∷ stream ∷ front) =
    let lower = ascii_lower last in
    if not (ends_with lower (codes ".m3u8")) && not (ends_with lower (codes ".ts"))
    then none
    else if all is_digit stream
    then none
    else some
        (record { base = origin u ++ joined (reverse front); stream = stream; playlist = last })
flussonic_parts u _ = none

abbrev flussonic_of : Option LiveUrl → Option FlussonicParts
flussonic_of none = none
flussonic_of (some u) = if is_web u then flussonic_parts u (segments u.pathname) else none

abbrev is_suffix_unit : ℕ → Bool
is_suffix_unit c = is_digit c || is_letter c

abbrev sid_behind : Text × Text → Option Text
sid_behind ([], _) = none
sid_behind (d ∷ ds, []) = some (d ∷ ds)
sid_behind (d ∷ ds, c ∷ s) =
    if c == b'.' && not (is_empty s) && all is_suffix_unit s then some (d ∷ ds) else none

-- `/^([0-9]+)(?:\.[a-z0-9]+)?$/i`
unfoldable pub sid_of : Text → Option Text
unfolding span
sid_of last = sid_behind (span is_digit last)

abbrev with_sid : LiveUrl → Text → Text → Option Text → Option XtreamParts
with_sid u user pass none = none
with_sid u user pass (some sid) =
    some (record { base = origin u; user = user; pass = pass; sid = sid })

abbrev xtream_parts : LiveUrl → List Text → Option XtreamParts
xtream_parts u (last ∷ pass ∷ user ∷ _) = with_sid u user pass (sid_of last)
xtream_parts u _ = none

abbrev xtream_of : Option LiveUrl → Option XtreamParts
xtream_of none = none
xtream_of (some u) = if is_web u then xtream_parts u (segments u.pathname) else none

abbrev without_token : Text × Text → Option Text
without_token ([], _) = none
without_token (_ ∷ _, rest) = some rest

abbrev token_rest : Option Text → Option Text
token_rest none = none
token_rest (some s) = without_token (span (λ c. not (c == b'/')) s)

abbrev or_unit : ℕ → Text → Option Text → Text
or_unit c later none = c ∷ later
or_unit c later (some rest) = rest

-- `base.replace(/\/s\/[^/]+(?=$|\/)/, '')`
unfoldable pub unsigned_base : Text → Text
unfolding span
unsigned_base [] = []
unsigned_base (c ∷ s) =
    let later = unsigned_base s in or_unit c later (token_rest (strip_prefix (codes "/s/") (c ∷ s)))

-- `replace(/\.m3u8$/i, '')`
unfoldable pub playlist_name : Text → Text
playlist_name p = if ends_with (ascii_lower p) (codes ".m3u8") then take (length p - 5) p else p

module _ {N : Type 0} (pf : Platform N) where
  unfoldable pub parse_flussonic_live_url : Text → Option FlussonicParts
  unfolding segments
  parse_flussonic_live_url url = flussonic_of (pf.parse_url url)

  unfoldable pub parse_xtream_live_url : Text → Option XtreamParts
  unfolding segments sid_of
  parse_xtream_live_url url = xtream_of (pf.parse_url url)

  unfoldable pub build_flussonic_candidates : ℕ → CatchupRequest N → FlussonicParts → List Text
  build_flussonic_candidates now req p =
      let start = show (corrected_start_ms pf req / 1000) in
      let seconds = show (req.duration_min * 60) in
      let end_ = show (corrected_start_ms pf req / 1000 + req.duration_min * 60) in
      let offset = show ((now - req.start_ms) / 1000) in
      let at = p.base ++ b'/' ∷ p.stream in
      let bare = unsigned_base p.base ++ b'/' ∷ p.stream in
      let span_ = start ++ b'-' ∷ seconds ++ codes ".m3u8" in
      (at ++ codes "/index-" ++ span_)
      ∷ (at ++ b'/' ∷ playlist_name p.playlist ++ b'-' ∷ span_)
      ∷ (at ++ codes "/archive-" ++ span_)
      ∷ (at ++ codes "/dvr-" ++ span_)
      ∷ (at ++ codes "/dvr/index-" ++ span_)
      ∷ (p.base ++ codes "/dvr/" ++ p.stream ++ codes "/index-" ++ span_)
      ∷ (at ++ codes "/timeshift_abs-" ++ start ++ codes ".m3u8")
      ∷ (at ++ codes "/timeshift_rel-" ++ offset ++ codes ".m3u8")
      ∷ (at ++ codes "/archive.m3u8?from=" ++ start ++ codes "&to=" ++ end_)
      ∷ (bare ++ codes "/index-" ++ span_)
      ∷ (bare ++ codes "/archive-" ++ span_)
      ∷ (at ++ b'/' ∷ p.playlist ++ codes "?utc=" ++ start ++ codes "&lutc=" ++ show (now / 1000))
      ∷ []

  unfoldable pub build_xtream_candidates : ℕ → CatchupRequest N → XtreamParts → List Text
  build_xtream_candidates now req p =
      let start_ms = corrected_start_ms pf req in
      let f = pf.local start_ms in
      let day = show f.year ++ b'-' ∷ pad2 f.month ++ b'-' ∷ pad2 f.day in
      let time = pad2 f.hour ++ b'-' ∷ pad2 f.minute in
      let start = show (start_ms / 1000) in
      let end_ = show ((start_ms + req.duration_min * 60000) / 1000) in
      let account = pf.encode p.user ++ b'/' ∷ pf.encode p.pass in
      let shifted_ = p.base ++ codes "/timeshift/" ++ account ++ b'/' ∷ show req.duration_min in
      let since = codes ".m3u8?utc=" ++ start ++ codes "&lutc=" ++ show (now / 1000) in
      (shifted_ ++ b'/' ∷ day ++ b':' ∷ time ++ b'/' ∷ p.sid ++ codes ".m3u8")
      ∷ (shifted_ ++ b'/' ∷ day ++ b'-' ∷ time ++ b'/' ∷ p.sid ++ codes ".m3u8")
      ∷ (p.base ++ codes "/live/" ++ account ++ b'/' ∷ p.sid ++ since)
      ∷ (p.base ++ b'/' ∷ account ++ b'/' ∷ p.sid ++ since)
      ∷ (p.base
          ++ codes "/live/"
          ++ account
          ++ b'/' ∷ p.sid
          ++ codes ".m3u8?from="
          ++ start
          ++ codes "&to="
          ++ end_)
      ∷ (p.base
          ++ codes "/streaming/timeshift.php?username="
          ++ pf.encode p.user
          ++ codes "&password="
          ++ pf.encode p.pass
          ++ codes "&stream="
          ++ p.sid
          ++ codes "&start="
          ++ day
          ++ b':' ∷ time
          ++ codes "&duration="
          ++ show req.duration_min)
      ∷ []
