-- ===== src/Ssrf/Admission.antt =====
-- What `validateUpstreamUrl` and `safeFetch` of ssrfGuard.ts let through.
use pytone_digital.Prelude.{
  ℕ, ◌≤◌, ◌≡◌, refl, sym, ap, ◌∙◌, subst, ◌≢◌, ◌⊎◌, inl, inr, Bool, true, false, not, ◌&&◌, ◌||◌,
  Option, none, some, List, [], ◌∷◌, arith, ◌==◌, if◌then◌else◌, length, any, All, map,
}
use pytone_digital.Text.{Text, codes, is_empty, text_eq}
use pytone_digital.Runtime.{Js}
use pytone_digital.Ssrf.{Url, IsExact}
use pytone_digital.Ssrf.Ipv4.{parse_parts, canonicalise_ipv4}
use pytone_digital.Ssrf.Ipv6.{is_private_ipv6}
use pytone_digital.Ssrf.Guard.{
  Check, safe, refused, bare_host, is_blocked_name, is_bad_port, validate_port, validate_host,
  validate_parsed, is_private_canonical, validate_url, validate_upstream_url,
}
use pytone_digital.Ssrf.Blocks.{is_reserved, is_private_ipv4-dotted}
use pytone_digital.Ssrf.Parts.{Part, spell, value, IsSpelling, length-spell, parse_parts-spell}
use pytone_digital.Ssrf.Spellings.{
  inet_aton, inet_aton-lt, join_dots, canonicalise_ipv4-parts, join_dots-colon,
}
use pytone_digital.Ssrf.Fetch.{Remembered, Hop, Event, dialled, safe_fetch}
use pytone_digital.Ssrf.Dials.{IsChecked, safe_fetch-IsChecked}

-- A web URL without credentials, on a port that is not blocked, whose host is no blocked name.
abbrev pub IsWeb : Js → Url → Type 0
IsWeb js u =
    ((text_eq u.protocol (codes "http:") || text_eq u.protocol (codes "https:")) ≡ true)
    × ((is_empty u.username && is_empty u.password) ≡ true)
    × (is_blocked_name (bare_host u.hostname) ≡ false)
    × (is_bad_port js u ≡ false)

refused≢safe : (why : Text) (v : Url) → refused why ≢ safe v
refused≢safe why v h = subst IsRefused h tt
  where
    IsRefused : Check → Type 0
    IsRefused (refused why) = Unit
    IsRefused (safe u) = ⊥

safe-injective : (u v : Url) → safe u ≡ safe v → u ≡ v
safe-injective u v h = ap url_of h
  where
    url_of : Check → Url
    url_of (refused why) = u
    url_of (safe w) = w

-- A test that refuses did not hold when the URL was let through.
passed :
    (b : Bool) (why : Text) (c : Check) (v : Url)
    → (if b then refused why else c) ≡ safe v
    → (b ≡ false) × (c ≡ safe v)
passed true why c v h = absurd (refused≢safe why v h)
passed false why c v h = (refl, h)

-- The same for the two tests of which a third chooses one.
passed_either :
    (b six four : Bool) (why why' : Text) (c : Check) (v : Url)
    → (if b then (if six then refused why else c) else if four then refused why' else c) ≡ safe v
    → ((if b then six else four) ≡ false) × (c ≡ safe v)
passed_either true six four why why' c v h = passed six why c v h
passed_either false six four why why' c v h = passed four why' c v h

is_web-not : (a b : Bool) → (not a && not b) ≡ false → (a || b) ≡ true
is_web-not a b h = ground arith

both_empty : (a b : Bool) → (not a || not b) ≡ false → (a && b) ≡ true
both_empty a b h = ground arith

-- The host is classified as an IPv6 address when it holds a colon and as IPv4 otherwise, and is
-- not private.
abbrev pub IsClassified : Js → Text → Type 0
IsClassified js host =
    (if any (λ c. c == b':') host
      then is_private_ipv6 js host
      else is_private_canonical js (canonicalise_ipv4 host))
    ≡ false

module _ (js : Js) (u v : Url) where
  validate_port-safe : validate_port js u ≡ safe v → (u ≡ v) × (is_bad_port js u ≡ false)
  validate_port-safe h =
      let (p, e) = passed (is_bad_port js u) (codes "refused: blocked port") (safe u) v h in
      (safe-injective u v e, p)

  validate_host-safe :
      (host : Text)
      → validate_host js u host ≡ safe v
      → (is_blocked_name host ≡ false) × IsClassified js host × (validate_port js u ≡ safe v)
  validate_host-safe host h =
      let (name, rest) =
        passed (is_blocked_name host) (codes "refused: blocked hostname")
          (if any (λ c. c == b':') host
            then (if is_private_ipv6 js host
                then refused (codes "refused: private IPv6")
                else validate_port js u)
            else if is_private_canonical js (canonicalise_ipv4 host)
            then refused (codes "refused: private / reserved IPv4")
            else validate_port js u)
          v h in
      let (class, port) =
        passed_either (any (λ c. c == b':') host) (is_private_ipv6 js host)
          (is_private_canonical js (canonicalise_ipv4 host)) (codes "refused: private IPv6")
          (codes "refused: private / reserved IPv4") (validate_port js u) v rest in
      (name, class, port)

  validate_url-safe :
      validate_url js u ≡ safe v → IsWeb js u × IsClassified js (bare_host u.hostname) × (u ≡ v)
  unfolding validate_url
  validate_url-safe h =
      let (web, rest) =
        passed
          (not (text_eq u.protocol (codes "http:")) && not (text_eq u.protocol (codes "https:")))
          (codes "only http / https allowed")
          (if not (is_empty u.username) || not (is_empty u.password)
            then refused (codes "credentials in URL not allowed")
            else validate_host js u (bare_host u.hostname))
          v h in
      let (credentials, rest') =
        passed (not (is_empty u.username) || not (is_empty u.password))
          (codes "credentials in URL not allowed") (validate_host js u (bare_host u.hostname)) v
          rest in
      let (name, class, port) = validate_host-safe (bare_host u.hostname) rest' in
      let (self, free) = validate_port-safe port in
      (
        (
          is_web-not (text_eq u.protocol (codes "http:")) (text_eq u.protocol (codes "https:")) web,
          both_empty (is_empty u.username) (is_empty u.password) credentials,
          name,
          free,
        ),
        class,
        self,
      )

module _ (js : Js) where
  validate_parsed-safe :
      (o : Option Url) (u : Url) → validate_parsed js o ≡ safe u → validate_url js u ≡ safe u
  validate_parsed-safe none u h = absurd (refused≢safe (codes "invalid url") u h)
  validate_parsed-safe (some w) u h =
      subst (λ x. validate_url js x ≡ safe u) (validate_url-safe js w u h).2 h

  validate_upstream_url-safe :
      (parse_url : Text → Option Url) (target : Text) (u : Url)
      → validate_upstream_url js parse_url target ≡ safe u
      → validate_url js u ≡ safe u
  unfolding validate_upstream_url
  validate_upstream_url-safe parse_url target u h = validate_parsed-safe (parse_url target) u h

module _ (js : Js) (exact : IsExact js) where
  classified-is_reserved :
      (host : Text) (p q : Text) (ps : List Text) (ns : List ℕ) (n : ℕ)
      → host ≡ join_dots (p ∷ q ∷ ps)
      → length ps ≤ 2
      → parse_parts (p ∷ q ∷ ps) ≡ some ns
      → inet_aton ns ≡ some n
      → IsClassified js host
      → is_reserved n ≡ false
  classified-is_reserved host p q ps ns n e few parsed value class =
      sym (is_private_ipv4-dotted js exact n (inet_aton-lt ns n value))
      ∙ rw
          (
            e,
            join_dots-colon (p ∷ q ∷ ps) ns parsed,
            canonicalise_ipv4-parts p q ps ns parsed few,
            value,
          )
          at class

  -- Dotted spellings do not get past the guard: when a URL is let through and its host consists
  -- of two to four parts, each decimal, octal or hexadecimal, then the address that `inet_aton`
  -- reads in them is in no reserved block.
  pub validate_upstream_url-spellings :
      (parse_url : Text → Option Url) (target : Text) (u : Url) (p q : Text) (ps : List Text)
      (ns : List ℕ) (n : ℕ)
      → validate_upstream_url js parse_url target ≡ safe u
      → bare_host u.hostname ≡ join_dots (p ∷ q ∷ ps)
      → length ps ≤ 2
      → parse_parts (p ∷ q ∷ ps) ≡ some ns
      → inet_aton ns ≡ some n
      → is_reserved n ≡ false
  validate_upstream_url-spellings parse_url target u p q ps ns n h e few parsed value =
      classified-is_reserved (bare_host u.hostname) p q ps ns n e few parsed value
        (validate_url-safe js u u (validate_upstream_url-safe js parse_url target u h)).1

-- The event is one of the list.
abbrev pub IsAmong : Event → List Event → Type 0
IsAmong e [] = ⊥
IsAmong e (x ∷ xs) = (x ≡ e) ⊎ IsAmong e xs

module _ (js : Js) (parse_url : Text → Option Url) (resolve_url : Text → Url → Option Text) where
  checked :
      (u : Url) (es : List Event)
      → All (IsChecked js parse_url resolve_url) es
      → IsAmong (dialled u) es
      → (t : Text) × (validate_upstream_url js parse_url t ≡ safe u)
  checked u [] a m = absurd m
  checked u (x ∷ es) (c, a) (inl e) = subst (IsChecked js parse_url resolve_url) e c
  checked u (x ∷ es) (c, a) (inr m) = checked u es a m

  -- Every URL that `safeFetch` sends a request to, the first one and those of the redirects, is a
  -- web URL without credentials on a port that is not blocked, and its host is no blocked name
  -- and was classified as not private.
  pub safe_fetch-IsWeb :
      (hop_at : ℕ → Hop) (initial : Text) (limit : Option ℕ) (cache : List (Text × Remembered))
      (u : Url)
      → IsAmong
          (dialled u)
          (safe_fetch js parse_url resolve_url hop_at initial limit
            (record { cache = cache; sent = [] })).1.sent
      → IsWeb js u × IsClassified js (bare_host u.hostname)
  safe_fetch-IsWeb hop_at initial limit cache u m =
      let (t, e) =
        checked u
          (safe_fetch js parse_url resolve_url hop_at initial limit
            (record { cache = cache; sent = [] })).1.sent
          (safe_fetch-IsChecked js parse_url resolve_url hop_at initial limit
            (record { cache = cache; sent = [] }) tt)
          m in
      let (web, class, self) =
        validate_url-safe js u u (validate_upstream_url-safe js parse_url t u e) in
      (web, class)

  -- No request of `safeFetch`, neither the first nor one after a redirect, goes to a host that
  -- spells an address of a reserved block in two to four parts joined by dots, each of digits in
  -- base 10, of digits in base 8 behind a leading 0, or of digits in base 16 behind a leading 0x,
  -- whose values `inet_aton` puts together.
  pub safe_fetch-spellings :
      (exact : IsExact js) (hop_at : ℕ → Hop) (initial : Text) (limit : Option ℕ)
      (cache : List (Text × Remembered)) (u : Url) (p q : Part) (ps : List Part) (n : ℕ)
      → IsAmong
          (dialled u)
          (safe_fetch js parse_url resolve_url hop_at initial limit
            (record { cache = cache; sent = [] })).1.sent
      → bare_host u.hostname ≡ join_dots (map spell (p ∷ q ∷ ps))
      → All IsSpelling (p ∷ q ∷ ps)
      → length ps ≤ 2
      → inet_aton (map value (p ∷ q ∷ ps)) ≡ some n
      → is_reserved n ≡ false
  safe_fetch-spellings exact hop_at initial limit cache u p q ps n m e spelt few is_value =
      classified-is_reserved js exact (bare_host u.hostname) (spell p) (spell q) (map spell ps)
        (map value (p ∷ q ∷ ps)) n e (omega (arith, length-spell ps))
        (parse_parts-spell (p ∷ q ∷ ps) spelt) is_value
        (safe_fetch-IsWeb hop_at initial limit cache u m).1
