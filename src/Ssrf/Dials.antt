-- ===== src/Ssrf/Dials.antt =====
-- What `safeFetch` of ssrfGuard.ts sends: the requests that leave the process, their number and
-- the last of them.
use pytone_digital.Prelude.{
  ℕ, zero, suc, ◌+◌, ◌≤◌, ◌≡◌, refl, ap, Bool, true, false, Option, none, some, List, [], ◌∷◌,
  arith, length, All, subst,
}
use pytone_digital.Text.{Text}
use pytone_digital.Runtime.{Js}
use pytone_digital.Ssrf.{Url}
use pytone_digital.Ssrf.Guard.{Check, safe, refused, validate_upstream_url}
use pytone_digital.Ssrf.Fetch.{
  Response, Hop, Event, queried, dialled, Net, Outcome, fetched, doh_resolves_to_private,
  next_location, Step, follow, stop, after_response, after_location, after_resolve, after_doh,
  after_check, after_step, hops_from, max_redirects, hop_step, fetch_loop, safe_fetch, blocked,
  thrown,
}

abbrev pub dials : List Event → ℕ
dials [] = 0
dials (queried h ∷ es) = dials es
dials (dialled u ∷ es) = suc (dials es)

-- The cached verdict, the resolver's or none: no request for the page leaves.
doh_resolves_to_private-dials :
    (js : Js) (hop : Hop) (h : Text) (net : Net)
    → dials (doh_resolves_to_private js hop h net).1.sent ≡ dials net.sent
unfolding doh_resolves_to_private
doh_resolves_to_private-dials js hop h net = ground arith

length-hops_from : (hop_at : ℕ → Hop) (k n : ℕ) → length (hops_from hop_at k n) ≡ n
length-hops_from hop_at k zero = refl
length-hops_from hop_at k (suc n) = ap suc (length-hops_from hop_at (suc k) n)

module _ (js : Js) (parse_url : Text → Option Url) (resolve_url : Text → Url → Option Text) where
  -- The URL of a request passed the guard.
  abbrev pub IsChecked : Event → Type 0
  IsChecked (queried h) = Unit
  IsChecked (dialled u) = (t : Text) × (validate_upstream_url js parse_url t ≡ safe u)

  doh_resolves_to_private-IsChecked :
      (hop : Hop) (h : Text) (net : Net)
      → All IsChecked net.sent
      → All IsChecked (doh_resolves_to_private js hop h net).1.sent
  unfolding doh_resolves_to_private
  doh_resolves_to_private-IsChecked hop h net a = ground arith

  after_doh-IsChecked :
      (hop : Hop) (u : Url) (r : Bool × Net)
      → All IsChecked r.1.sent
      → IsChecked (dialled u)
      → All IsChecked (after_doh js parse_url resolve_url hop u r).1.sent
  after_doh-IsChecked hop u (true, net) a c = a
  after_doh-IsChecked hop u (false, net) a c = (c, a)

  after_check-IsChecked :
      (hop : Hop) (t : Text) (net : Net) (c : Check)
      → validate_upstream_url js parse_url t ≡ c
      → All IsChecked net.sent
      → All IsChecked (after_check js parse_url resolve_url hop net c).1.sent
  after_check-IsChecked hop t net (refused why) e a = a
  after_check-IsChecked hop t net (safe u) e a =
      after_doh-IsChecked hop u (doh_resolves_to_private js hop u.hostname net)
        (doh_resolves_to_private-IsChecked hop u.hostname net a) (t, e)

  after_step-IsChecked :
      (go : Text → Net → Outcome × Net)
      → ((t : Text) (net : Net) → All IsChecked net.sent → All IsChecked (go t net).1.sent)
      → (r : Step × Net) → All IsChecked r.1.sent
      → All IsChecked (after_step js parse_url resolve_url go r).1.sent
  after_step-IsChecked go h (stop o, net) a = a
  after_step-IsChecked go h (follow t, net) a = h t net a

  fetch_loop-IsChecked :
      (hops : List Hop) (t : Text) (net : Net)
      → All IsChecked net.sent
      → All IsChecked (fetch_loop js parse_url resolve_url hops t net).1.sent
  unfolding fetch_loop hop_step
  fetch_loop-IsChecked [] t net a = a
  fetch_loop-IsChecked (hop ∷ hops) t net a =
      after_step-IsChecked (fetch_loop js parse_url resolve_url hops) (fetch_loop-IsChecked hops)
        (hop_step js parse_url resolve_url hop t net)
        (after_check-IsChecked hop t net (validate_upstream_url js parse_url t) refl a)

  pub safe_fetch-IsChecked :
      (hop_at : ℕ → Hop) (initial : Text) (limit : Option ℕ) (net : Net)
      → All IsChecked net.sent
      → All IsChecked (safe_fetch js parse_url resolve_url hop_at initial limit net).1.sent
  unfolding safe_fetch
  safe_fetch-IsChecked hop_at initial limit net a =
      fetch_loop-IsChecked (hops_from hop_at 0 (suc (max_redirects limit))) initial net a

  after_doh-dials :
      (hop : Hop) (u : Url) (r : Bool × Net)
      → dials (after_doh js parse_url resolve_url hop u r).1.sent ≤ suc (dials r.1.sent)
  after_doh-dials hop u (true, net) = omega arith
  after_doh-dials hop u (false, net) = omega arith

  after_check-dials :
      (hop : Hop) (net : Net) (c : Check)
      → dials (after_check js parse_url resolve_url hop net c).1.sent ≤ suc (dials net.sent)
  after_check-dials hop net (refused why) = omega arith
  after_check-dials hop net (safe u) = omega (
    arith,
    after_doh-dials hop u (doh_resolves_to_private js hop u.hostname net),
    doh_resolves_to_private-dials js hop u.hostname net,
  )

  after_step-dials :
      (n k : ℕ) (go : Text → Net → Outcome × Net)
      → ((t : Text) (net : Net) → dials (go t net).1.sent ≤ n + dials net.sent)
      → (r : Step × Net) → dials r.1.sent ≤ suc k
      → dials (after_step js parse_url resolve_url go r).1.sent ≤ suc n + k
  after_step-dials n k go h (stop o, net) a = omega arith
  after_step-dials n k go h (follow t, net) a = omega (arith, h t net)

  fetch_loop-dials :
      (hops : List Hop) (t : Text) (net : Net)
      → dials (fetch_loop js parse_url resolve_url hops t net).1.sent ≤ length hops + dials net.sent
  unfolding fetch_loop hop_step
  fetch_loop-dials [] t net = omega arith
  fetch_loop-dials (hop ∷ hops) t net =
      after_step-dials (length hops) (dials net.sent) (fetch_loop js parse_url resolve_url hops)
        (fetch_loop-dials hops) (hop_step js parse_url resolve_url hop t net)
        (after_check-dials hop net (validate_upstream_url js parse_url t))

  -- `safeFetch` sends at most one request more than the redirects it may follow, whatever the
  -- servers answer.
  pub safe_fetch-dials :
      (hop_at : ℕ → Hop) (initial : Text) (limit : Option ℕ) (net : Net)
      → dials (safe_fetch js parse_url resolve_url hop_at initial limit net).1.sent
        ≤ suc (max_redirects limit) + dials net.sent
  unfolding safe_fetch
  safe_fetch-dials hop_at initial limit net = omega (
    arith,
    fetch_loop-dials (hops_from hop_at 0 (suc (max_redirects limit))) initial net,
    length-hops_from hop_at 0 (suc (max_redirects limit)),
  )

  module _ (hop_at : ℕ → Hop) where
    -- What `safeFetch` returns is what the server answered to the last request, which was sent in
    -- the turn that its number says, when `k` turns had been made for `before` requests.
    abbrev pub EndsAt : ℕ → ℕ → Outcome → List Event → Type 0
    EndsAt k before (fetched r final) (dialled u ∷ es) =
        (final ≡ u.href)
        × (next_location r ≡ none)
        × ((turn : ℕ) × ((hop_at turn).serve u.href ≡ some r)
            × (k + dials (dialled u ∷ es) ≡ suc (before + turn)))
    EndsAt k before (fetched r final) _ = ⊥
    EndsAt k before _ es = Unit

    -- A turn that goes on has sent one request.
    abbrev StepEndsAt : ℕ → ℕ → Step → List Event → Type 0
    StepEndsAt k before (follow t) es = dials es ≡ suc before
    StepEndsAt k before (stop o) es = EndsAt k before o es

    after_resolve-EndsAt :
        (k before : ℕ) (o : Option Text) (es : List Event)
        → dials es ≡ suc before
        → StepEndsAt k before (after_resolve js parse_url resolve_url o) es
    after_resolve-EndsAt k before none es h = tt
    after_resolve-EndsAt k before (some t) es h = h

    after_response-EndsAt :
        (k before : ℕ) (u : Url) (o : Option Response) (es : List Event)
        → (hop_at k).serve u.href ≡ o
        → dials es ≡ before
        → StepEndsAt k before (after_response js parse_url resolve_url u o) (dialled u ∷ es)
    after_response-EndsAt k before u none es served h = tt
    after_response-EndsAt k before u (some r) es served h = located (next_location r) refl
      where
        located :
            (l : Option Text)
            → next_location r ≡ l
            → StepEndsAt k before (after_location js parse_url resolve_url u r l) (dialled u ∷ es)
        located none e = (refl, e, (k, served, omega arith))
        located (some l) e =
            after_resolve-EndsAt k before (resolve_url l u) (dialled u ∷ es) (omega arith)

    after_doh-EndsAt :
        (k before : ℕ) (u : Url) (r : Bool × Net)
        → dials r.1.sent ≡ before
        → StepEndsAt k before
            (after_doh js parse_url resolve_url (hop_at k) u r).0
            (after_doh js parse_url resolve_url (hop_at k) u r).1.sent
    after_doh-EndsAt k before u (true, net) h = tt
    after_doh-EndsAt k before u (false, net) h =
        after_response-EndsAt k before u ((hop_at k).serve u.href) net.sent refl h

    after_check-EndsAt :
        (k : ℕ) (net : Net) (c : Check)
        → StepEndsAt k
            (dials net.sent)
            (after_check js parse_url resolve_url (hop_at k) net c).0
            (after_check js parse_url resolve_url (hop_at k) net c).1.sent
    after_check-EndsAt k net (refused why) = tt
    after_check-EndsAt k net (safe u) =
        after_doh-EndsAt k (dials net.sent) u (doh_resolves_to_private js (hop_at k) u.hostname net)
          (doh_resolves_to_private-dials js (hop_at k) u.hostname net)

    later-EndsAt :
        (k before : ℕ) (o : Outcome) (es : List Event)
        → EndsAt (suc k) (suc before) o es
        → EndsAt k before o es
    later-EndsAt k before (fetched r final) (dialled u ∷ es) (e, l, (turn, s, n)) =
        (e, l, (turn, s, omega arith))
    later-EndsAt k before (fetched r final) (queried h ∷ es) e = e
    later-EndsAt k before (fetched r final) [] e = e
    later-EndsAt k before (blocked why) es e = tt
    later-EndsAt k before thrown es e = tt

    after_step-EndsAt :
        (k before : ℕ) (go : Text → Net → Outcome × Net)
        → ((t : Text) (net : Net) → EndsAt (suc k) (dials net.sent) (go t net).0 (go t net).1.sent)
        → (r : Step × Net) → StepEndsAt k before r.0 r.1.sent
        → EndsAt k before
            (after_step js parse_url resolve_url go r).0
            (after_step js parse_url resolve_url go r).1.sent
    after_step-EndsAt k before go h (stop o, net) a = a
    after_step-EndsAt k before go h (follow t, net) a =
        later-EndsAt k before (go t net).0 (go t net).1.sent
          (subst (λ n. EndsAt (suc k) n (go t net).0 (go t net).1.sent) a (h t net))

    fetch_loop-EndsAt :
        (n k : ℕ) (t : Text) (net : Net)
        → EndsAt k
            (dials net.sent)
            (fetch_loop js parse_url resolve_url (hops_from hop_at k n) t net).0
            (fetch_loop js parse_url resolve_url (hops_from hop_at k n) t net).1.sent
    unfolding fetch_loop hop_step
    fetch_loop-EndsAt zero k t net = tt
    fetch_loop-EndsAt (suc n) k t net =
        after_step-EndsAt k (dials net.sent)
          (fetch_loop js parse_url resolve_url (hops_from hop_at (suc k) n))
          (fetch_loop-EndsAt n (suc k)) (hop_step js parse_url resolve_url (hop_at k) t net)
          (after_check-EndsAt k net (validate_upstream_url js parse_url t))

  -- When `safeFetch` returns an answer, status, location and body are what the server answered to
  -- the last request that was sent, in the turn of the loop that as many requests before it say;
  -- `finalUrl` is the URL of that request, and the answer is no redirect with a location.
  pub safe_fetch-final :
      (hop_at : ℕ → Hop) (initial : Text) (limit : Option ℕ) (net : Net)
      → EndsAt hop_at 0
          (dials net.sent)
          (safe_fetch js parse_url resolve_url hop_at initial limit net).0
          (safe_fetch js parse_url resolve_url hop_at initial limit net).1.sent
  unfolding safe_fetch
  safe_fetch-final hop_at initial limit net =
      fetch_loop-EndsAt hop_at (suc (max_redirects limit)) 0 initial net
