-- ===== src/Catchup/Tests.antt =====
-- Runs of the catch-up addresses, and the theorem at an input that meets its hypotheses.
use pytone_digital.Prelude.{
  ℕ, ◌+◌, ◌*◌, ◌≡◌, refl, none, some, List, [], ◌∷◌, ◌==◌, keep, arith, true,
}
use pytone_digital.Text.{Text, codes, ascii_lower, starts_with, split_at_unit}
use pytone_digital.Text.Decimal.{show, read_base}
use pytone_digital.Text.Search.{strip_prefix}
use pytone_digital.Dictionary.{lookup}
use pytone_digital.M3u.{Channel}
use pytone_digital.Epg.Entities.{span}
use pytone_digital.Catchup.{CatchupRequest, Fields, LiveUrl, Platform, corrected_start_ms}
use pytone_digital.Catchup.Template.{
  expand_template, substitutions, read_token, expand_token, pad_start,
}
use pytone_digital.Catchup.Panels.{
  parse_xtream_live_url, parse_flussonic_live_url, build_xtream_candidates,
  build_flussonic_candidates, unsigned_base, playlist_name,
}
use pytone_digital.Catchup.Build.{build_catchup_url, playable, path_placeholder_from}
use pytone_digital.Catchup.Distinct.{IsDistinct}
use pytone_digital.Catchup.Places.{from_live, build_catchup_url-path}
use pytone_digital.Catchup.Build.{has_path_placeholder}

catchup : Unit {0}
unfolding expand_template read_token expand_token pad_start substitutions corrected_start_ms span
    show read_base starts_with split_at_unit ascii_lower strip_prefix lookup parse_xtream_live_url
    keep parse_flussonic_live_url build_xtream_candidates build_flussonic_candidates unsigned_base
    playlist_name build_catchup_url path_placeholder_from
catchup = tt

abbrev noon : Fields
noon = record { year = 2026; month = 5; day = 6; hour = 12; minute = 0; second = 7 }

abbrev live : LiveUrl
live = record { protocol = codes "http:"; host = codes "h"; pathname = codes "/live/u/p/42.ts" }

-- A platform whose corrections are whole minutes forward.
abbrev platform : Platform ℕ
platform = record {
  utc = λ t. noon;
  local = λ t. noon;
  parse_url = λ s. some live;
  encode = λ s. s;
  to_lower = ascii_lower;
  is_zero = λ n. n == 0;
  shifted = λ t n. t + n * 60000;
}

abbrev channel : Text → Channel ℕ
channel template = record {
  id = codes "ch-1";
  number = 1;
  name = codes "One";
  logo_url = [];
  category = [];
  stream_url = codes "http://h/live/u/p/42.ts";
  tvg_id = none;
  catchup_kind = some (codes "Default");
  catchup_source = some template;
  catchup_days = none;
  catchup_correction = none;
  http_user_agent = none;
  http_referrer = none;
}

abbrev request : Text → CatchupRequest ℕ
request template = record {
  channel = channel template;
  start_ms = 1000000;
  duration_min = 30;
  catchup_id = some (codes "x7");
}

expand_template_runs :
    (expand_template platform 2000000
      (codes "a/${start}-{utc:6}-{duration}-{duration:5}-{nope}-{offset:+90}-{offset}{catchup-id}{")
      (request []))
    ≡ codes "a/2026-05-06-12-00-07-001000-30-01800-{nope}-90-1000x7{"
unfolding catchup
expand_template_runs = refl

abbrev template : Text
template = codes "http://h/dvr-{utc}.m3u8"

build_catchup_url-path_example :
    (us : List Text) × (build_catchup_url platform 2000000 (request template)
      ≡ playable (expand_template platform 2000000 template (request template)) us)
    × IsDistinct (expand_template platform 2000000 template (request template) ∷ us)
unfolding catchup
build_catchup_url-path_example =
    build_catchup_url-path platform 2000000 (request template) (codes "http://h") (codes "dvr-")
      b'u' (codes "tc}.m3u8") refl (omega arith) (omega arith) refl refl refl

abbrev query_template : Text
query_template = codes "http://h/live/u/p/42.ts?utc={utc}"

abbrev guesses : List Text
guesses = from_live platform 2000000 (request query_template)

abbrev head_or_blank : List Text → Text
head_or_blank [] = []
head_or_blank (g ∷ gs) = g

-- A placeholder behind a slash in the query counts as one in the path.
slash_in_query_runs : has_path_placeholder (codes "http://h/live.m3u8?p=/x/{utc}") ≡ true
unfolding path_placeholder_from
slash_in_query_runs = refl
