-- ===== src/Ssrf/Guard.antt =====
-- `validateUpstreamUrl` of ssrfGuard.ts with its tables.
use pytone_digital.Prelude.{
  ℕ, ◌-◌, Bool, false, not, ◌&&◌, ◌||◌, Option, none, some, List, [], ◌∷◌, reverse, ◌==◌,
  if◌then◌else◌, length, take, drop, any,
}
use pytone_digital.Text.{Text, codes, is_empty, ascii_lower, starts_with, text_eq}
use pytone_digital.Runtime.{Js}
use pytone_digital.Ssrf.{Url, is_nat}
use pytone_digital.Ssrf.Ipv4.{canonicalise_ipv4, is_private_ipv4}
use pytone_digital.Ssrf.Ipv6.{is_private_ipv6}

abbrev bad_ports : List ℕ
bad_ports =
    22 ∷ 23 ∷ 25 ∷ 53 ∷ 110 ∷ 143 ∷ 389 ∷ 445 ∷ 465 ∷ 587 ∷ 636 ∷ 993 ∷ 995 ∷ 1433 ∷ 1521 ∷ 2049
    ∷ 3306 ∷ 3389 ∷ 5432 ∷ 5900 ∷ 6379 ∷ 9200 ∷ 9300 ∷ 11211 ∷ 27017 ∷ 27018 ∷ []

abbrev ends_with : Text → Text → Bool
ends_with s t = starts_with (reverse s) (reverse t)

unfoldable pub is_blocked_name : Text → Bool
is_blocked_name host =
    let h = ascii_lower host in
    text_eq h (codes "localhost")
    || ends_with h (codes ".localhost")
    || text_eq h (codes "metadata")
    || starts_with h (codes "metadata.")
    || text_eq h (codes "instance-data")
    || starts_with h (codes "instance-data.")
    || ends_with h (codes ".internal")
    || ends_with h (codes ".local")

-- `replace(/\.$/, '')`
abbrev strip_dot : Text → Text
strip_dot [] = []
strip_dot (c ∷ []) = if c == b'.' then [] else c ∷ []
strip_dot (c ∷ d ∷ s) = c ∷ strip_dot (d ∷ s)

-- The host that is classified: no trailing dot, no brackets.
unfoldable pub bare_host : Text → Text
bare_host hostname =
    let host = strip_dot hostname in
    if starts_with host (codes "[") && ends_with host (codes "]")
    then take (length host - 2) (drop 1 host)
    else host

pub data Check : Type 0 where
  safe : Url → Check
  refused : Text → Check

module _ (js : Js) where
  abbrev pub is_private_canonical : Option Text → Bool
  is_private_canonical none = false
  is_private_canonical (some canon) = is_private_ipv4 js canon

  abbrev is_bad_number : Option js.Num → Bool
  is_bad_number none = false
  is_bad_number (some p) = any (λ k. is_nat js p k) bad_ports

  unfoldable pub is_bad_port : Url → Bool
  is_bad_port u = is_bad_number (
      if is_empty u.port
      then some (js.of_nat (if text_eq u.protocol (codes "https:") then 443 else 80))
      else js.number_of u.port)

  abbrev pub validate_port : Url → Check
  validate_port u = if is_bad_port u then refused (codes "refused: blocked port") else safe u

  abbrev pub validate_host : Url → Text → Check
  validate_host u host =
      if is_blocked_name host
      then refused (codes "refused: blocked hostname")
      else if any (λ c. c == b':') host
      then (if is_private_ipv6 js host
          then refused (codes "refused: private IPv6")
          else validate_port u)
      else if is_private_canonical (canonicalise_ipv4 host)
      then refused (codes "refused: private / reserved IPv4")
      else validate_port u

  unfoldable pub validate_url : Url → Check
  validate_url u =
      if not (text_eq u.protocol (codes "http:")) && not (text_eq u.protocol (codes "https:"))
      then refused (codes "only http / https allowed")
      else if not (is_empty u.username) || not (is_empty u.password)
      then refused (codes "credentials in URL not allowed")
      else validate_host u (bare_host u.hostname)

  abbrev pub validate_parsed : Option Url → Check
  validate_parsed none = refused (codes "invalid url")
  validate_parsed (some u) = validate_url u

  module _ (parse_url : Text → Option Url) where
    unfoldable pub validate_upstream_url : Text → Check
    validate_upstream_url target = validate_parsed (parse_url target)
