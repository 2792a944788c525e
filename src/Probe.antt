-- ===== src/Probe.antt =====
-- The batch check of channels, apps/web/src/app/api/stream/probe/route.ts: its data, the callers it
-- admits, the items it takes from a request and the headers it sends on. What is not text is
-- `none`.
pub mod Head
pub mod One
pub mod Pool
pub mod Counting
pub mod Prefix
mod Tests
pub mod Bounds
pub mod Budget
pub mod Evidence
use pytone_digital.Prelude.{
  ℕ, zero, suc, ◌+◌, ◌-◌, ◌*◌, ◌/◌, ◌%◌, ◌^◌, ◌≤◌, ◌<◌, min, max, String, ◌≡◌, refl, sym, ap, ◌∙◌,
  subst, ◌≡⟨◌⟩◌, ◌∎, ◌≢◌, ◌↔◌, ◌⊎◌, inl, inr, Bool, true, false, not, ◌&&◌, ◌||◌, Option, none,
  some, List, [], ◌∷◌, ◌++◌, map, foldl, reverse, arith, ltb, leb, ◌==◌, if◌then◌else◌, ltb→lt,
  lt→ltb, le→ltb_false, leb→le, le→leb, ==_iff, Bool-cases, Option-cases, length, get_elem?, take,
  drop, keep, any, all, length-append, length-keep-le, All, All-append, All-append_left,
  All-append_right,
}
use pytone_digital.Text.{Text, codes, text_eq, is_empty, trim, split_at_unit}

pub record Item : Type 0 where
  pub id : Text
  pub url : Text
  pub ua : Option Text
  pub ref : Option Text

-- `ok` is null when there is no verdict.
pub record Verdict : Type 0 where
  pub id : Text
  pub ok : Option Bool
  pub status : Option ℕ

abbrev pub max_items : ℕ
max_items = 12

abbrev pub max_subrequests : ℕ
max_subrequests = 42

abbrev pub max_redirects : ℕ
max_redirects = 3

abbrev pub concurrency : ℕ
concurrency = 4

abbrev pub sniff_bytes : ℕ
sniff_bytes = 2048

abbrev pub manifest_sniff_bytes : ℕ
manifest_sniff_bytes = 8192

-- The headers of a request that the gate reads.
pub record Caller : Type 0 where
  pub origin : Option Text
  pub referer : Option Text
  pub host : Option Text

-- `a || b`, where both may be missing
abbrev pub or_header : Option Text → Text → Text
or_header none b = b
or_header (some a) b = if is_empty a then b else a

abbrev names_host : Text → List Text → Option Text → Bool
names_host own extra none = false
names_host own extra (some host) = text_eq host own || any (λ e. text_eq e host) extra

-- `ALLOWED_HOSTS.split(',').map(trim).filter(Boolean)`
unfoldable pub extra_hosts : Text → List Text
extra_hosts allowed = keep (λ h. not (is_empty h)) (map trim (split_at_unit b',' allowed))

-- `host_of` is the host of a parsed URL.
unfoldable pub is_allowed_caller : (Text → Option Text) → Text → Caller → Bool
unfolding extra_hosts
is_allowed_caller host_of allowed c =
    let ref = or_header c.origin (or_header c.referer []) in
    if is_empty ref
    then false
    else names_host (or_header c.host []) (extra_hosts allowed) (host_of ref)

abbrev is_printable : ℕ → Bool
is_printable c = c == 9 || (leb 0x20 c && leb c 0x7e)

unfoldable pub safe_header_value : Option Text → Option Text
safe_header_value none = none
safe_header_value (some raw) =
    let v = trim raw in
    if is_empty v || ltb 512 (length v)
    then none
    else if any (λ c. c == 13 || c == 10 || c == 0) v
    then none
    else if all is_printable v
    then some v
    else none

-- An entry of the request, when it is an object.
pub record RawItem : Type 0 where
  pub id : Option Text
  pub url : Option Text
  pub ua : Option Text
  pub ref : Option Text

abbrev named_item : RawItem → Option Text → Option Text → Option Item
named_item o (some id) (some url) =
    if is_empty id || is_empty url
    then none
    else some (record { id = id; url = url; ua = o.ua; ref = o.ref })
named_item o _ _ = none

unfoldable pub item_of : Option RawItem → Option Item
item_of none = none
item_of (some o) = named_item o o.id o.url

abbrev or_skip : Option Item → List Item → List Item
or_skip none items = items
or_skip (some i) items = i ∷ items

unfoldable pub items_of : List (Option RawItem) → List Item
unfolding item_of
items_of [] = []
items_of (raw ∷ raws) = or_skip (item_of raw) (items_of raws)
