-- ===== src/Catchup.antt =====
-- The addresses of the archive of a channel, apps/web/src/lib/catchup.ts. Times are milliseconds
-- of JavaScript, durations are minutes. `N` is the type of the numbers of a playlist.
pub mod Template
pub mod Panels
pub mod Build
pub mod Places
pub mod Distinct
mod Tests
use pytone_digital.Prelude.{
  ℕ, zero, suc, ◌+◌, ◌-◌, ◌*◌, ◌/◌, ◌%◌, ◌^◌, ◌≤◌, ◌<◌, min, max, String, ◌≡◌, refl, sym, ap, ◌∙◌,
  subst, ◌≡⟨◌⟩◌, ◌∎, ◌≢◌, ◌↔◌, ◌⊎◌, inl, inr, Bool, true, false, not, ◌&&◌, ◌||◌, Option, none,
  some, List, [], ◌∷◌, ◌++◌, map, foldl, reverse, arith, ltb, leb, ◌==◌, if◌then◌else◌, ltb→lt,
  lt→ltb, le→ltb_false, leb→le, le→leb, ==_iff, Bool-cases, Option-cases, length, get_elem?, take,
  drop, keep, any, all, length-append, length-keep-le, All, All-append, All-append_left,
  All-append_right,
}
use pytone_digital.Text.{Text}
use pytone_digital.M3u.{Channel}

pub record CatchupRequest (N : Type 0) : Type 0 where
  pub channel : Channel N
  pub start_ms : ℕ
  pub duration_min : ℕ
  pub catchup_id : Option Text

-- The fields of a date, the month counted from 1.
pub record Fields : Type 0 where
  pub year : ℕ
  pub month : ℕ
  pub day : ℕ
  pub hour : ℕ
  pub minute : ℕ
  pub second : ℕ

pub record LiveUrl : Type 0 where
  pub protocol : Text
  pub host : Text
  pub pathname : Text

-- What the code takes from the runtime: the fields of a time in UTC and in local time, the parser
-- of URLs, `encodeURIComponent`, `toLowerCase`, whether a correction is 0, and a time moved by a
-- correction in minutes.
pub record Platform (N : Type 0) : Type 0 where
  pub utc : ℕ → Fields
  pub local : ℕ → Fields
  pub parse_url : Text → Option LiveUrl
  pub encode : Text → Text
  pub to_lower : Text → Text
  pub is_zero : N → Bool
  pub shifted : ℕ → N → ℕ

module _ {N : Type 0} (pf : Platform N) where
  abbrev shifted_by : ℕ → Option N → ℕ
  shifted_by start none = start
  shifted_by start (some c) = if pf.is_zero c then start else pf.shifted start c

  unfoldable pub corrected_start_ms : CatchupRequest N → ℕ
  corrected_start_ms req = shifted_by req.start_ms req.channel.catchup_correction
