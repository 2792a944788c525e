-- ===== src/RateLimit.antt =====
-- The rate limiter of the account routes, apps/web/src/lib/rateLimit.ts, over a key-value store.
pub mod Budget
mod Tests
use pytone_digital.Prelude.{
  ℕ, zero, suc, ◌+◌, ◌-◌, ◌*◌, ◌/◌, ◌%◌, ◌^◌, ◌≤◌, ◌<◌, min, max, String, ◌≡◌, refl, sym, ap, ◌∙◌,
  subst, ◌≡⟨◌⟩◌, ◌∎, ◌≢◌, ◌↔◌, ◌⊎◌, inl, inr, Bool, true, false, not, ◌&&◌, ◌||◌, Option, none,
  some, List, [], ◌∷◌, ◌++◌, map, foldl, reverse, arith, ltb, leb, ◌==◌, if◌then◌else◌, ltb→lt,
  lt→ltb, le→ltb_false, leb→le, le→leb, ==_iff, Bool-cases, Option-cases, length, get_elem?, take,
  drop, keep, any, all, length-append, length-keep-le, All, All-append, All-append_left,
  All-append_right,
}
use pytone_digital.Text.{Text, codes, is_empty, is_digit, trim_start}
use pytone_digital.Kv.{Kv}
use pytone_digital.Text.Decimal.{show, read_base}

pub record RateLimitResult : Type 0 where
  pub ok : Bool
  pub remaining : ℕ
  pub retry_after : ℕ

-- A count: a number, or the negative of a number that is not zero.
pub data Count : Type 0 where
  positive : ℕ → Count
  negative : ℕ → Count

unfoldable pub leading_digits : Text → Text
leading_digits [] = []
leading_digits (c ∷ s) = let rest = leading_digits s in if is_digit c then c ∷ rest else []

-- `parseInt(s, 10) || 0` after white space; no digits give NaN, which is replaced by 0.
unfoldable pub parse_sign : Text → Count
parse_sign [] = positive 0
parse_sign (c ∷ s) =
    let below = read_base 10 (leading_digits s) in
    if c == b'-'
    then (if below == 0 then positive 0 else negative below)
    else if c == b'+'
    then positive below
    else positive (read_base 10 (leading_digits (c ∷ s)))

-- `raw ? parseInt(raw, 10) || 0 : 0`
unfoldable pub count_of : Option Text → Count
count_of none = positive 0
count_of (some raw) = parse_sign (trim_start raw)

-- `count >= max`
abbrev pub reaches : Count → ℕ → Bool
reaches (positive n) max = leb max n
reaches (negative n) max = false

-- `String(count + 1)`
abbrev pub show_next : Count → Text
show_next (positive n) = show (n + 1)
show_next (negative n) = if n == 1 then codes "0" else b'-' ∷ show (n - 1)

-- `max - count - 1`, where the count is below `max`
abbrev pub left_of : Count → ℕ → ℕ
left_of (positive n) max = max - n - 1
left_of (negative n) max = max + n - 1

unfoldable pub limit_key : Text → Text → ℕ → Text
limit_key bucket id window = codes "rl:" ++ bucket ++ b':' ∷ (id ++ b':' ∷ show window)

module _ (kv : Kv) where
  -- What follows the write: the new state, or the old one when the write throws.
  abbrev pub kept_state : kv.State → Option kv.State → kv.State
  kept_state s none = s
  kept_state s (some s') = s'

  -- What follows the read, at the second `now`.
  unfoldable pub after_read :
      ℕ → Text → ℕ → ℕ → kv.State → Option (Option Text) → RateLimitResult × kv.State
  after_read now key limit window_sec s none =
      (record { ok = true; remaining = limit; retry_after = 0 }, s)
  after_read now key limit window_sec s (some raw) =
      let count = count_of raw in
      let reset_at = (now / window_sec + 1) * window_sec in
      let s' = kept_state s (kv.put now key (show_next count) (some (window_sec + 5)) s) in
      if reaches count limit
      then (record { ok = false; remaining = 0; retry_after = max 1 (reset_at - now) }, s)
      else (record { ok = true; remaining = left_of count limit; retry_after = 0 }, s')

  -- `rateLimit` at a time in milliseconds, of a request that no other one of its key overlaps: the
  -- code awaits the read, and then the write.
  unfoldable pub rate_limit : ℕ → Text → Text → ℕ → ℕ → kv.State → RateLimitResult × kv.State
  rate_limit now_ms bucket id limit window_sec s =
      let now = now_ms / 1000 in
      let key = limit_key bucket id (now / window_sec) in
      after_read now key limit window_sec s (kv.get now key s)

-- `callerIp`
unfoldable pub caller_ip : Option Text → Text
caller_ip none = codes "unknown"
caller_ip (some ip) = if is_empty ip then codes "unknown" else ip
