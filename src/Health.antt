-- ===== src/Health.antt =====
-- Playback health of channels, apps/web/src/lib/channelHealth.ts: the records, the browser storage
-- they live in, and the reading and writing of the store. Times are milliseconds.
pub mod Evidence
pub mod Verdicts
pub mod Failures
pub mod Reports
mod Tests
pub mod Breaker
pub mod Cursor
pub mod Blame
pub mod Sweep
use pytone_digital.Text.{Text, codes, text_eq}
use pytone_digital.Text.Decimal.{show}
use pytone_digital.Dictionary.{lookup}
use pytone_digital.Prelude.{
  ℕ, zero, suc, ◌+◌, ◌-◌, ◌*◌, ◌/◌, ◌%◌, ◌^◌, ◌≤◌, ◌<◌, min, max, String, ◌≡◌, refl, sym, ap, ◌∙◌,
  subst, ◌≡⟨◌⟩◌, ◌∎, ◌≢◌, ◌↔◌, ◌⊎◌, inl, inr, Bool, true, false, not, ◌&&◌, ◌||◌, Option, none,
  some, List, [], ◌∷◌, ◌++◌, map, foldl, reverse, arith, ltb, leb, ◌==◌, if◌then◌else◌, ltb→lt,
  lt→ltb, le→ltb_false, leb→le, le→leb, ==_iff, Bool-cases, Option-cases, length, get_elem?, take,
  drop, keep, any, all, length-append, length-keep-le, All, All-append, All-append_left,
  All-append_right,
}

pub record HealthRecord : Type 0 where
  pub fails : ℕ
  pub play_fails : Option ℕ
  pub last_fail_at : ℕ
  pub last_ok_at : ℕ
  pub unplayable : Option Bool

pub data HealthSource : Type 0 where
  probe playback : HealthSource

abbrev pub Store : Type 0
Store = List (Text × HealthRecord)

-- The text under the store's key: missing; not the JSON of an object; or an object, whose values
-- may be no records.
pub data Stored : Type 0 where
  absent unreadable : Stored
  entries : List (Text × Option HealthRecord) → Stored

-- The part of `localStorage` under this user's keys. `full` says that `setItem` throws, and
-- `notified` counts the rounds of calls to the listeners.
pub record World : Type 0 where
  pub in_browser : Bool
  pub full : Bool
  pub schema : Option Text
  pub health : Stored
  pub hide_anyway : Bool
  pub last_probe_at : ℕ
  pub sweep_cursor : ℕ
  pub scanned : ℕ
  pub notified : ℕ

abbrev pub schema_version : Text
schema_version = codes "3"

abbrev pub fail_threshold : ℕ
fail_threshold = 3

abbrev pub probe_fail_threshold : ℕ
probe_fail_threshold = 2

-- 14 days
abbrev pub record_ttl_ms : ℕ
record_ttl_ms = 1_209_600_000

-- `rec.playFails ?? 0`
abbrev pub play_fails_of : HealthRecord → ℕ
play_fails_of r = elim (r.play_fails) [ none ↦ 0 | some n ↦ n ]

-- `!!rec.unplayable`
abbrev pub is_unplayable : HealthRecord → Bool
is_unplayable r = elim (r.unplayable) [ none ↦ false | some b ↦ b ]

-- The records that `read` keeps: the time since the last event is at most the limit, where there
-- was an event.
unfoldable pub is_fresh : ℕ → HealthRecord → Bool
is_fresh now r =
    let seen = max r.last_fail_at r.last_ok_at in seen == 0 || leb (now - seen) record_ttl_ms

unfoldable pub fresh_entries : ℕ → List (Text × Option HealthRecord) → Store
unfolding is_fresh
fresh_entries now [] = []
fresh_entries now ((id, none) ∷ rest) = fresh_entries now rest
fresh_entries now ((id, some r) ∷ rest) =
    let later = fresh_entries now rest in if is_fresh now r then (id, r) ∷ later else later

unfoldable pub store_of : ℕ → Stored → Store
store_of now absent = []
store_of now unreadable = []
store_of now (entries es) = fresh_entries now es

unfoldable pub is_current : Option Text → Bool
is_current none = false
is_current (some v) = text_eq v schema_version

-- An old schema discards the store. Where `setItem` throws the new version is not written.
unfoldable pub read : ℕ → World → Store × World
read now w =
    if not w.in_browser
    then ([], w)
    else if not (is_current w.schema)
    then (
      [],
      record w { schema = if w.full then w.schema else some schema_version; health = absent },
    )
    else (store_of now w.health, w)

abbrev pub to_stored : Store → List (Text × Option HealthRecord)
to_stored [] = []
to_stored ((id, r) ∷ s) = (id, some r) ∷ to_stored s

unfoldable pub write : Store → World → World
write s w = if not w.in_browser then w else record w {
  health = if w.full then w.health else entries (to_stored s);
  notified = w.notified + 1;
}
