-- ===== src/Epg.antt =====
-- The programme guide, apps/web/src/lib/epg.ts and epgCache.ts: its data. A time is the number of
-- milliseconds since the day before the first of January of the year 1, so that every date of a
-- guide is a natural number: a JavaScript time is this number less `epoch`. NaN is `none`.
pub mod Stamp
pub mod Entities
pub mod Attributes
pub mod Elements
pub mod Scan
pub mod Names
pub mod Now
pub mod Cuts
pub mod Finds
pub mod Progress
pub mod Order
pub mod OnAir
pub mod Dates
pub mod Stamps
pub mod Tails
mod Tests
use pytone_digital.Prelude.{
  ℕ, zero, suc, ◌+◌, ◌-◌, ◌*◌, ◌/◌, ◌%◌, ◌^◌, ◌≤◌, ◌<◌, min, max, String, ◌≡◌, refl, sym, ap, ◌∙◌,
  subst, ◌≡⟨◌⟩◌, ◌∎, ◌≢◌, ◌↔◌, ◌⊎◌, inl, inr, Bool, true, false, not, ◌&&◌, ◌||◌, Option, none,
  some, List, [], ◌∷◌, ◌++◌, map, foldl, reverse, arith, ltb, leb, ◌==◌, if◌then◌else◌, ltb→lt,
  lt→ltb, le→ltb_false, leb→le, le→leb, ==_iff, Bool-cases, Option-cases, length, get_elem?, take,
  drop, keep, any, all, length-append, length-keep-le, All, All-append, All-append_left,
  All-append_right,
}
use pytone_digital.Text.{Text}

pub record Programme : Type 0 where
  pub channel_id : Text
  pub start : ℕ
  pub stop : ℕ
  pub title : Text
  pub description : Option Text
  pub catchup_id : Option Text

-- The time of the JavaScript epoch, 1970-01-01T00:00Z, whose day has number 719163.
abbrev pub epoch : ℕ
epoch = 719163 * 86400000
