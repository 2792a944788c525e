-- ===== src/Probe/Tests.antt =====
-- Runs of the probe route, and the theorems at inputs that meet their hypotheses.
use pytone_digital.Prelude.{
  ℕ, ◌≤◌, ◌≡◌, refl, true, false, Option, none, some, List, [], ◌∷◌, length, take, keep,
}
use pytone_digital.Probe.One.{probe_one}
use pytone_digital.Probe.Pool.{Reaches, started, stepped, pool_reply, start_pool, step_at}
use pytone_digital.Probe.Counting.{occurs, answered_ids, ids_of}
use pytone_digital.Probe.Evidence.{IsSound, probe_one-IsSound}
use pytone_digital.Probe.Budget.{Reaches-used_le}
use pytone_digital.Probe.Prefix.{pool_reply-prefix}
use pytone_digital.Text.{
  Text, codes, starts_with, includes, ascii_lower, split_lines, split_at_unit, trim, trim_start,
}
use pytone_digital.Text.Decimal.{show, read_base}
use pytone_digital.Text.Search.{strip_prefix}
use pytone_digital.Runtime.{naturals}
use pytone_digital.Ssrf.{Url}
use pytone_digital.Ssrf.Ipv4.{
  canonicalise_ipv4, canonicalise_dotted, parse_parts, parse_part, pack, split_last,
  is_private_ipv4, is_private_octets, is_private_range, dotted,
}
use pytone_digital.Ssrf.Guard.{
  validate_upstream_url, validate_url, is_blocked_name, bare_host, is_bad_port,
}
use pytone_digital.Probe.{Item, is_allowed_caller}
use pytone_digital.Probe.Head.{
  FetchOutcome, ok, refused, unknown, head_outcome, broken, piece, looks_like_manifest,
  pick_media_uri, is_playlist_url,
}
use pytone_digital.Probe.One.{probe_one, request}
use pytone_digital.Probe.Pool.{Worker, Pool, start_pool, step_at, pool_reply}

probe : Unit {0}
unfolding validate_upstream_url validate_url is_blocked_name bare_host is_bad_port canonicalise_ipv4
    canonicalise_dotted parse_parts parse_part pack split_last is_private_ipv4 is_private_octets
    is_private_range dotted show read_base split_at_unit starts_with ascii_lower trim trim_start
    includes split_lines strip_prefix looks_like_manifest pick_media_uri is_playlist_url probe_one
    request start_pool step_at keep pool_reply
probe = tt

-- The answer to an address that redirects too often, or that resolves to a private one, is no
-- verdict: `fetchHead` catches what `safeFetch` throws.
head_outcome_runs :
    (head_outcome 4 none ≡ unknown)
    × (head_outcome 4 (some (record { status = 404; body = none })) ≡ refused 404)
    × (head_outcome 4 (some (record { status = 416; body = none })) ≡ ok 416 [])
    × (head_outcome 4 (
          some
            (record { status = 200; body = some (piece (codes "ab") (piece (codes "cd") broken)) }))
        ≡ ok 200 (codes "abcd"))
    × (head_outcome 5 (
          some
            (record { status = 200; body = some (piece (codes "ab") (piece (codes "cd") broken)) }))
        ≡ unknown)
unfolding head_outcome
head_outcome_runs = (refl, refl, refl, refl, refl)

is_allowed_caller_runs :
    (is_allowed_caller
        (λ u. some u)
        (codes "a.example, b.example")
        (record { origin = none; referer = some (codes "b.example"); host = some (codes "c") })
      ≡ true)
    × (is_allowed_caller
          (λ u. some u)
          []
          (record { origin = some (codes "d"); referer = none; host = some (codes "c") })
        ≡ false)
unfolding is_allowed_caller probe
is_allowed_caller_runs = (refl, refl)

abbrev page : Url
page = record {
  protocol = codes "https:";
  username = [];
  password = [];
  hostname = codes "8.8.8.8";
  port = [];
  href = codes "https://8.8.8.8/";
}

abbrev parse_page : Text → Option Url
parse_page t = some page

abbrev resolve_page : Text → Text → Option Text
resolve_page uri base = some uri

abbrev item : Text → Item
item id = record { id = id; url = codes "https://8.8.8.8/"; ua = none; ref = none }

abbrev five : List Item
five =
    item (codes "a")
    ∷ item (codes "b")
    ∷ item (codes "c")
    ∷ item (codes "d")
    ∷ item (codes "e")
    ∷ []

abbrev manifest : FetchOutcome
manifest = ok 200 (codes "#EXTM3U\nx.m3u8\n")

abbrev steps : List ℕ → List Worker × Pool → List Worker × Pool
steps [] r = r
steps (n ∷ ns) (ws, s) =
    steps ns (step_at (probe_one naturals parse_page resolve_page) five n manifest false ws s)

-- Five channels, each a manifest that leads to a playlist that leads to a segment: the workers put
-- 60 requests on the budget of 42.
budget_runs :
    (steps
      (0 ∷ 0 ∷ 0 ∷ 0 ∷ 0 ∷ 0 ∷ 1 ∷ 1 ∷ 2 ∷ 2 ∷ 3 ∷ 3 ∷ [])
      (start_pool (probe_one naturals parse_page resolve_page) five)).1.used
    ≡ 60
unfolding probe
budget_runs = refl

probe_one-IsSound_example :
    IsSound naturals parse_page (probe_one naturals parse_page resolve_page (item (codes "a")))
probe_one-IsSound_example = probe_one-IsSound naturals parse_page resolve_page (item (codes "a"))

abbrev one_item : List Item
one_item = item (codes "a") ∷ []

abbrev one_pool : List Worker × Pool
one_pool = start_pool (probe_one naturals parse_page resolve_page) one_item

-- No answer: the worker ends its item, and then returns.
abbrev one_ended : List Worker × Pool
one_ended =
    step_at (probe_one naturals parse_page resolve_page) one_item 0 unknown false one_pool.0
      one_pool.1

abbrev one_done : List Worker × Pool
one_done =
    step_at (probe_one naturals parse_page resolve_page) one_item 0 unknown false one_ended.0
      one_ended.1

abbrev one_reaches :
    Reaches (probe_one naturals parse_page resolve_page) one_item one_done.0 one_done.1
one_reaches =
    stepped 0 unknown false one_ended.0 one_ended.1
      (stepped 0 unknown false one_pool.0 one_pool.1 started)

Reaches-used_le_example : one_done.1.used ≤ 68
Reaches-used_le_example =
    Reaches-used_le naturals parse_page resolve_page one_item one_done.0 one_done.1 one_reaches

pool_reply-prefix_example :
    ((pool_reply one_item one_done.1).checked ≤ length one_item)
    × ((id : Text)
        → occurs id (answered_ids (pool_reply one_item one_done.1).results)
          ≡ occurs id (ids_of (take (pool_reply one_item one_done.1).checked one_item)))
pool_reply-prefix_example =
    pool_reply-prefix (probe_one naturals parse_page resolve_page) one_item one_done.0 one_done.1
      one_reaches (unfold probe in refl)
