-- ===== src/Ssrf/Tests.antt =====
-- The theorems on ssrfGuard.ts at concrete inputs, and runs of the guard.
use pytone_digital.Prelude.{
  ℕ, zero, suc, ◌≡◌, refl, inl, true, false, Option, none, some, [], ◌∷◌, arith, keep,
}
use pytone_digital.Text.{Text, codes, starts_with, split_at_unit, ascii_lower, trim, trim_start}
use pytone_digital.Text.Decimal.{show, read_base, show-digits, show-not_empty, read_base-show}
use pytone_digital.Runtime.{naturals}
use pytone_digital.Ssrf.{Url, IsExact}
use pytone_digital.Ssrf.Ipv4.{
  dotted, parse_part, parse_parts, split_last, pack, canonicalise_dotted, canonicalise_ipv4,
  is_private_range, is_private_octets, is_private_ipv4,
}
use pytone_digital.Ssrf.Ipv6.{remove_colons, is_private_inner, is_private_lower, is_private_ipv6}
use pytone_digital.Ssrf.Guard.{
  is_blocked_name, bare_host, is_bad_port, validate_url, validate_upstream_url,
}
use pytone_digital.Ssrf.Blocks.{is_reserved, is_documented, is_private_ipv4-blocks}
use pytone_digital.Ssrf.Spellings.{all-digits}
use pytone_digital.Ssrf.Parts.{decimal, octal, hexadecimal, spell, value, canonicalise_ipv4-spell}
use pytone_digital.Ssrf.Fetch.{
  Response, Hop, dialled, Net, fetched, is_literal, doh_resolves_to_private, next_location,
  hop_step, fetch_loop, safe_fetch,
}
use pytone_digital.Ssrf.Dials.{EndsAt, safe_fetch-final}
use pytone_digital.Ssrf.Admission.{IsWeb, IsClassified, safe_fetch-IsWeb, safe_fetch-spellings}

number_of-show : (n : ℕ) → naturals.number_of (show n) ≡ some n
number_of-show n = rw (show-not_empty n, all-digits (show n) (show-digits n), read_base-show n) refl

naturals-IsExact : IsExact naturals
naturals-IsExact = record {
  less-of_nat = λ a b h k. refl;
  number_of-show = λ n h. number_of-show n;
}

is_private_ipv4-blocks_example :
    is_private_ipv4 naturals (dotted 3232235777) ≡ is_documented 3232235777
is_private_ipv4-blocks_example =
    is_private_ipv4-blocks naturals naturals-IsExact 3232235777 (omega arith) refl

-- 192.0.78.9 is in neither of the two blocks of the comment, and is refused.
disputed_runs : is_private_ipv4 naturals (dotted 3221245449) ≡ true
unfolding is_private_ipv4 is_private_octets is_private_range dotted show read_base split_at_unit
disputed_runs = refl

-- `0x7F.01`
canonicalise_ipv4-spell_example : canonicalise_ipv4 (codes "0x7F.01") ≡ some (dotted 2130706433)
unfolding spell value
canonicalise_ipv4-spell_example =
    canonicalise_ipv4-spell (hexadecimal false ((7, false) ∷ (15, true) ∷ [])) (octal (1 ∷ [])) []
      (omega arith) (omega arith)

-- `c0a8:0101`
-- `::ffff:c0a8:101` is 192.168.1.1 and is not refused.
mapped_address_runs : is_private_ipv6 naturals (codes "::ffff:c0a8:101") ≡ false
unfolding is_private_ipv6 is_private_lower is_private_inner remove_colons is_private_ipv4
    is_private_octets is_private_range dotted show read_base split_at_unit starts_with keep
    ascii_lower
mapped_address_runs = refl

abbrev page : Url
page = record {
  protocol = codes "https:";
  username = [];
  password = [];
  hostname = codes "010.8.8.8";
  port = [];
  href = codes "https://8.8.8.8/";
}

abbrev parse_page : Text → Option Url
parse_page t = some page

abbrev resolve_page : Text → Url → Option Text
resolve_page l u = some l

-- The first answer is a redirect, the next one is not.
abbrev answers_of : ℕ → Response
answers_of zero = record { status = 302; location = some (codes "/b"); body = [] }
answers_of (suc k) = record { status = 200; location = none; body = codes "ok" }

abbrev hop_at : ℕ → Hop
hop_at k = record {
  read_at = 0;
  stored_at = 1000;
  resolve = λ h. some (record { kind = 1; content = codes "10.0.0.1" } ∷ []);
  serve = λ h. some (answers_of k);
}

abbrev idle : Net
idle = record { cache = []; sent = [] }

safe_fetch-IsWeb_example : IsWeb naturals page × IsClassified naturals (bare_host page.hostname)
unfolding validate_upstream_url validate_url is_blocked_name bare_host is_bad_port canonicalise_ipv4
    canonicalise_dotted parse_parts parse_part pack split_last is_private_ipv4 is_private_octets
    is_private_range dotted show read_base split_at_unit starts_with ascii_lower trim trim_start
    safe_fetch fetch_loop hop_step next_location doh_resolves_to_private is_literal
safe_fetch-IsWeb_example =
    safe_fetch-IsWeb naturals parse_page resolve_page hop_at (codes "a") none [] page (inl refl)

safe_fetch-spellings_example : is_reserved 134744072 ≡ false
unfolding spell value validate_upstream_url validate_url is_blocked_name bare_host is_bad_port
    canonicalise_ipv4 canonicalise_dotted parse_parts parse_part pack split_last is_private_ipv4
    is_private_octets is_private_range dotted show read_base split_at_unit starts_with ascii_lower
    trim trim_start safe_fetch fetch_loop hop_step next_location doh_resolves_to_private is_literal
safe_fetch-spellings_example =
    safe_fetch-spellings naturals parse_page resolve_page naturals-IsExact hop_at (codes "a") none
      [] page (octal (1 ∷ 0 ∷ [])) (decimal (8 ∷ [])) (decimal (8 ∷ []) ∷ decimal (8 ∷ []) ∷ [])
      134744072 (inl refl) refl (omega arith) (omega arith) refl

safe_fetch-final_example :
    EndsAt naturals parse_page resolve_page hop_at 0 0
      (safe_fetch naturals parse_page resolve_page hop_at (codes "a") none idle).0
      (safe_fetch naturals parse_page resolve_page hop_at (codes "a") none idle).1.sent
safe_fetch-final_example =
    safe_fetch-final naturals parse_page resolve_page hop_at (codes "a") none idle

-- The redirect is followed: two requests.
safe_fetch_runs : safe_fetch naturals parse_page resolve_page hop_at (codes "a") none idle ≡ (
  fetched (answers_of 1) page.href,
  record { cache = []; sent = dialled page ∷ dialled page ∷ [] },
)
unfolding validate_upstream_url validate_url is_blocked_name bare_host is_bad_port canonicalise_ipv4
    canonicalise_dotted parse_parts parse_part pack split_last is_private_ipv4 is_private_octets
    is_private_range dotted show read_base split_at_unit starts_with ascii_lower trim trim_start
    safe_fetch fetch_loop hop_step next_location doh_resolves_to_private is_literal
safe_fetch_runs = refl

abbrev later_hop : Hop
later_hop = record (hop_at 0) { read_at = 30000 }
