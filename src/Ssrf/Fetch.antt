-- ===== src/Ssrf/Fetch.antt =====
-- `dohResolvesToPrivate` and `safeFetch` of ssrfGuard.ts. The network is a parameter: what each
-- hop of the loop reads from the clock, the resolver and the server.
use pytone_digital.Prelude.{
  ℕ, zero, suc, ◌+◌, Bool, true, false, not, ◌&&◌, ◌||◌, Option, none, some, List, [], ◌∷◌, ltb,
  leb, ◌==◌, if◌then◌else◌, any, all,
}
use pytone_digital.Text.{Text, codes, is_empty, is_digit}
use pytone_digital.Runtime.{Js}
use pytone_digital.Dictionary.{lookup, insert}
use pytone_digital.Ssrf.{Url}
use pytone_digital.Ssrf.Ipv4.{is_private_ipv4}
use pytone_digital.Ssrf.Ipv6.{is_private_ipv6}
use pytone_digital.Ssrf.Guard.{safe, refused, validate_upstream_url, Check}

abbrev pub doh_ttl_ms : ℕ
doh_ttl_ms = 60000

pub record Answer : Type 0 where
  pub kind : ℕ
  pub content : Text

pub record Remembered : Type 0 where
  pub is_private : Bool
  pub at : ℕ

pub record Response : Type 0 where
  pub status : ℕ
  pub location : Option Text
  pub body : Text

-- What one hop meets: the clock when the cached verdict is looked at and when the new one is
-- stored, the answers of the resolver (`none` when it fails) and of the server (`none` when
-- `fetch` throws).
pub record Hop : Type 0 where
  pub read_at : ℕ
  pub stored_at : ℕ
  pub resolve : Text → Option (List Answer)
  pub serve : Text → Option Response

-- What leaves the process.
pub data Event : Type 0 where
  queried : Text → Event
  dialled : Url → Event

-- The map of verdicts, and what was sent, the latest first.
pub record Net : Type 0 where
  pub cache : List (Text × Remembered)
  pub sent : List Event

pub data Outcome : Type 0 where
  fetched : Response → Text → Outcome
  blocked : Text → Outcome
  thrown : Outcome

-- `/^[\d.]+$/.test(hostname) || hostname.includes(':')`
unfoldable pub is_literal : Text → Bool
is_literal host =
    (not (is_empty host) && all (λ c. is_digit c || c == b'.') host) || any (λ c. c == b':') host

abbrev pub is_fresh : ℕ → Option Remembered → Bool
is_fresh now none = false
is_fresh now (some r) = ltb now (r.at + doh_ttl_ms)

abbrev pub verdict_of : Option Remembered → Bool
verdict_of none = false
verdict_of (some r) = r.is_private

module _ (js : Js) where
  unfoldable pub is_private_answer : Answer → Bool
  is_private_answer ans =
      (ans.kind == 1 && is_private_ipv4 js ans.content)
      || (ans.kind == 28 && is_private_ipv6 js ans.content)

  abbrev with_answers : Text → ℕ → Option (List Answer) → Net → Bool × Net
  with_answers host now none net = (false, record net { sent = queried host ∷ net.sent })
  with_answers host now (some answers) net =
      let verdict = any is_private_answer answers in
      (
        verdict,
        record {
          cache = insert host (record { is_private = verdict; at = now }) net.cache;
          sent = queried host ∷ net.sent;
        },
      )

  unfoldable pub doh_resolves_to_private : Hop → Text → Net → Bool × Net
  doh_resolves_to_private hop host net =
      let cached = lookup host net.cache in
      if is_literal host
      then (false, net)
      else if is_fresh hop.read_at cached
      then (verdict_of cached, net)
      else with_answers host hop.stored_at (hop.resolve host) net

-- A 3xx answer.
abbrev pub is_redirect : Response → Bool
is_redirect r = leb 300 r.status && ltb r.status 400

-- Where a redirect leads: `loc`, unless it is missing or empty.
unfoldable pub next_location : Response → Option Text
next_location r = elim r.location [
  | none ↦ none
  | some l ↦ if is_redirect r && not (is_empty l) then some l else none
]

-- How a hop ends: the loop goes on with a text, or `safeFetch` ends.
pub data Step : Type 0 where
  follow : Text → Step
  stop : Outcome → Step

-- The turns `hop = k, k + 1, ..` of the loop, `n` of them.
abbrev pub hops_from : (ℕ → Hop) → ℕ → ℕ → List Hop
hops_from hop_at k zero = []
hops_from hop_at k (suc n) = hop_at k ∷ hops_from hop_at (suc k) n

-- `opts.maxRedirects ?? 4`
abbrev pub max_redirects : Option ℕ → ℕ
max_redirects none = 4
max_redirects (some m) = m

module _ (js : Js) (parse_url : Text → Option Url) (resolve_url : Text → Url → Option Text) where
  abbrev pub after_resolve : Option Text → Step
  after_resolve none = stop thrown
  after_resolve (some t) = follow t

  abbrev pub after_location : Url → Response → Option Text → Step
  after_location u r none = stop (fetched r u.href)
  after_location u r (some l) = after_resolve (resolve_url l u)

  -- What the answer of the server leads to.
  abbrev pub after_response : Url → Option Response → Step
  after_response u none = stop thrown
  after_response u (some r) = after_location u r (next_location r)

  abbrev dial : Hop → Url → Net → Step × Net
  dial hop u net = (after_response u (hop.serve u.href), record net { sent = dialled u ∷ net.sent })

  abbrev pub after_doh : Hop → Url → Bool × Net → Step × Net
  after_doh hop u (true, net) =
      (stop (blocked (codes "refused: hostname resolves to a private address")), net)
  after_doh hop u (false, net) = dial hop u net

  abbrev pub after_check : Hop → Net → Check → Step × Net
  after_check hop net (refused why) = (stop (blocked why), net)
  after_check hop net (safe u) = after_doh hop u (doh_resolves_to_private js hop u.hostname net)

  -- One turn of the loop.
  unfoldable pub hop_step : Hop → Text → Net → Step × Net
  hop_step hop current net = after_check hop net (validate_upstream_url js parse_url current)

  abbrev pub after_step : (Text → Net → Outcome × Net) → Step × Net → Outcome × Net
  after_step go (stop o, net) = (o, net)
  after_step go (follow t, net) = go t net

  -- The loop, with the turns it has left.
  unfoldable pub fetch_loop : List Hop → Text → Net → Outcome × Net
  fetch_loop [] current net = (blocked (codes "too many redirects"), net)
  fetch_loop (hop ∷ hops) current net = after_step (fetch_loop hops) (hop_step hop current net)

  -- The turns are `hop = 0 .. max`.
  unfoldable pub safe_fetch : (ℕ → Hop) → Text → Option ℕ → Net → Outcome × Net
  safe_fetch hop_at initial limit net =
      fetch_loop (hops_from hop_at 0 (suc (max_redirects limit))) initial net
