-- ===== src/Probe/One.antt =====
-- `probeOne` of the probe route, as a process: it ends with a verdict, or it sends a request and
-- goes on with what it then sees.
use pytone_digital.Prelude.{
  ℕ, ◌+◌, Bool, true, false, not, ◌&&◌, Option, none, some, leb, if◌then◌else◌,
}
use pytone_digital.Text.{Text, codes}
use pytone_digital.Runtime.{Js}
use pytone_digital.Ssrf.{Url}
use pytone_digital.Ssrf.Guard.{Check, safe, validate_upstream_url}
use pytone_digital.Ssrf.Guard
use pytone_digital.Probe.{
  Item, max_subrequests, sniff_bytes, manifest_sniff_bytes, safe_header_value,
}
use pytone_digital.Probe.Head.{
  FetchOutcome, ok, refused, unknown, looks_like_manifest, pick_media_uri, is_playlist_url,
}

-- A request of `fetchHead`: the cap of the read, and whether a range is asked for.
pub record Request : Type 0 where
  pub url : Text
  pub user_agent : Text
  pub referer : Option Text
  pub max_bytes : ℕ
  pub ranged : Bool

-- What the process sees when it goes on: the outcome, whether its deadline has passed, and what is
-- used of the budget. Nothing else runs until it sends the next request or ends.
pub record Reply : Type 0 where
  pub outcome : FetchOutcome
  pub late : Bool
  pub used : ℕ

pub data Process : Type 0 where
  answered : Option Bool → Option ℕ → Process
  fetching : Request → (Reply → Process) → Process

abbrev pub dead : Process
dead = answered (some false) none

abbrev pub dead_by : ℕ → Process
dead_by status = answered (some false) (some status)

abbrev pub no_verdict : Process
no_verdict = answered none none

abbrev pub default_ua : Text
default_ua =
    codes
      "Mozilla/5.0 (Macintosh; Intel Mac OS X 10_15_7) AppleWebKit/537.36 (KHTML, like Gecko) Chrome/123.0.0.0 Safari/537.36"

abbrev or_default : Option Text → Text
or_default none = default_ua
or_default (some v) = v

unfoldable pub request : Item → Text → ℕ → Bool → Request
request item url max_bytes ranged = record {
  url = url;
  user_agent = or_default (safe_header_value item.ua);
  referer = safe_header_value item.ref;
  max_bytes = max_bytes;
  ranged = ranged;
}

-- The verdict on the segment.
abbrev pub segment_verdict : FetchOutcome → Process
segment_verdict unknown = no_verdict
segment_verdict (refused status) = answered (some false) (some status)
segment_verdict (ok status _) = answered (some true) (some status)

-- One plain request where the ranged one was refused.
abbrev pub after_segment : Item → Text → Bool → ℕ → FetchOutcome → Process
after_segment item url late used (refused status) =
    if not late && leb (used + 2) max_subrequests
    then fetching (request item url sniff_bytes false) (λ q. segment_verdict q.outcome)
    else segment_verdict (refused status)
after_segment item url late used outcome = segment_verdict outcome

module _ (js : Js) (parse_url : Text → Option Url) (resolve : Text → Text → Option Text)
    (item : Item) where
  abbrev pub on_segment : Check → Process
  on_segment (Guard.refused _) = dead
  on_segment (safe u) =
      fetching (request item u.href sniff_bytes true)
        (λ r. after_segment item u.href r.late r.used r.outcome)

  abbrev pub to_segment : Bool → Text → Process
  to_segment late url =
      if late then no_verdict else on_segment (validate_upstream_url js parse_url url)

  abbrev pub follow_variant : Bool → ℕ → Option Text → Process
  follow_variant late status none = dead_by status
  follow_variant late status (some url) = to_segment late url

  abbrev pub after_variant : Text → Bool → FetchOutcome → Process
  after_variant base late unknown = no_verdict
  after_variant base late (refused status) = dead_by status
  after_variant base late (ok status text) =
      if looks_like_manifest text
      then follow_variant late status (pick_media_uri resolve text base)
      else dead_by status

  abbrev pub on_variant : Check → Process
  on_variant (Guard.refused _) = dead
  on_variant (safe u) =
      fetching (request item u.href manifest_sniff_bytes false)
        (λ r. after_variant u.href r.late r.outcome)

  -- A playlist leads to another request for its own media; media is the segment.
  abbrev pub follow_top : Bool → ℕ → Option Text → Process
  follow_top late status none = dead_by status
  follow_top late status (some url) =
      if is_playlist_url url
      then (if late then no_verdict else on_variant (validate_upstream_url js parse_url url))
      else to_segment late url

  abbrev pub after_top : Text → Bool → FetchOutcome → Process
  after_top base late unknown = no_verdict
  after_top base late (refused status) = dead_by status
  after_top base late (ok status text) =
      if looks_like_manifest text
      then follow_top late status (pick_media_uri resolve text base)
      else dead_by status

  abbrev pub on_top : Check → Process
  on_top (Guard.refused _) = dead
  on_top (safe u) =
      fetching (request item u.href manifest_sniff_bytes false)
        (λ r. after_top u.href r.late r.outcome)

  unfoldable pub probe_one : Process
  unfolding request
  probe_one = on_top (validate_upstream_url js parse_url item.url)
