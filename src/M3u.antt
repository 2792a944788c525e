-- ===== src/M3u.antt =====
-- The playlist parser, apps/web/src/lib/m3u.ts: its data. `N` is the type of numbers; an optional
-- property that is `undefined` is `none`.
pub mod Attributes
mod Tests
pub mod Order
pub mod Numbers
pub mod Ids
pub mod Pairing
pub mod Quoting
pub mod ExtInf
pub mod Playlist
use pytone_digital.Prelude.{
  ℕ, zero, suc, ◌+◌, ◌-◌, ◌*◌, ◌/◌, ◌%◌, ◌^◌, ◌≤◌, ◌<◌, min, max, String, ◌≡◌, refl, sym, ap, ◌∙◌,
  subst, ◌≡⟨◌⟩◌, ◌∎, ◌≢◌, ◌↔◌, ◌⊎◌, inl, inr, Bool, true, false, not, ◌&&◌, ◌||◌, Option, none,
  some, List, [], ◌∷◌, ◌++◌, map, foldl, reverse, arith, ltb, leb, ◌==◌, if◌then◌else◌, ltb→lt,
  lt→ltb, le→ltb_false, leb→le, le→leb, ==_iff, Bool-cases, Option-cases, length, get_elem?, take,
  drop, keep, any, all, length-append, length-keep-le, All, All-append, All-append_left,
  All-append_right,
}
use pytone_digital.Text.{Text, is_empty}

pub record Channel (N : Type 0) : Type 0 where
  pub id : Text
  pub number : N
  pub name : Text
  pub logo_url : Text
  pub category : Text
  pub stream_url : Text
  pub tvg_id : Option Text
  pub catchup_kind : Option Text
  pub catchup_source : Option Text
  pub catchup_days : Option N
  pub catchup_correction : Option N
  pub http_user_agent : Option Text
  pub http_referrer : Option Text

pub record Entry (N : Type 0) : Type 0 where
  pub tvg_id : Option Text
  pub tvg_logo : Option Text
  pub tvg_chno : Option N
  pub group : Option Text
  pub name : Text
  pub catchup_kind : Option Text
  pub catchup_source : Option Text
  pub catchup_days : Option N
  pub catchup_correction : Option N
  pub http_user_agent : Option Text
  pub http_referrer : Option Text

pub record Defaults (N : Type 0) : Type 0 where
  pub catchup_kind : Option Text
  pub catchup_source : Option Text
  pub catchup_days : Option N
  pub catchup_correction : Option N

pub record ParseStats : Type 0 where
  pub extinf : ℕ
  pub emitted : ℕ
  pub dropped : ℕ
  pub orphan_urls : ℕ

-- `a || b` on texts: the empty text counts as missing.
abbrev pub or_text : Option Text → Text → Text
or_text none b = b
or_text (some a) b = if is_empty a then b else a

-- `a ?? b`
abbrev pub or_else {ℓ} : {A : Type ℓ} → Option A → Option A → Option A
or_else none b = b
or_else (some a) b = some a
