-- ===== src/Health/Reports.antt =====
-- `reportOk`, `reportFail`, `isHiddenRecord`, `hiddenIds`, `getRecord`, `restore` and `restoreAll`
-- of channelHealth.ts.
use pytone_digital.Text.{Text, is_empty}
use pytone_digital.Dictionary.{lookup, insert, remove}
use pytone_digital.Double.{exceeds_seven_tenths}
use pytone_digital.Health.{
  HealthRecord, HealthSource, probe, playback, Store, World, fail_threshold, probe_fail_threshold,
  play_fails_of, is_unplayable, read, write,
}
use pytone_digital.Prelude.{
  ℕ, ◌+◌, Bool, true, false, not, ◌&&◌, ◌||◌, Option, none, some, List, [], ◌∷◌, ltb, leb, ◌==◌,
  if◌then◌else◌, length,
}

unfoldable pub is_hidden_record : HealthRecord → Bool
is_hidden_record r =
    if is_unplayable r
    then true
    else leb probe_fail_threshold r.fails || leb fail_threshold (play_fails_of r)

-- The record that a success leaves, or none where `reportOk` returns before it writes.
unfoldable pub ok_record : ℕ → HealthSource → Option HealthRecord → Option HealthRecord
ok_record now playback none = some (record {
  fails = 0;
  play_fails = some 0;
  last_fail_at = 0;
  last_ok_at = now;
  unplayable = some false;
})
ok_record now probe none = some (record {
  fails = 0;
  play_fails = some 0;
  last_fail_at = 0;
  last_ok_at = now;
  unplayable = none;
})
ok_record now playback (some prev) =
    if prev.fails == 0 && play_fails_of prev == 0
    then none
    else some (record {
      fails = 0;
      play_fails = some 0;
      last_fail_at = prev.last_fail_at;
      last_ok_at = now;
      unplayable = some false;
    })
ok_record now probe (some prev) =
    if is_unplayable prev
    then none
    else if prev.fails == 0
    then none
    else some (record {
      fails = 0;
      play_fails = some (play_fails_of prev);
      last_fail_at = prev.last_fail_at;
      last_ok_at = now;
      unplayable = prev.unplayable;
    })

unfoldable pub write_record : Text → Store → Option HealthRecord → World → World
write_record id store none w = w
write_record id store (some r) w = write (insert id r store) w

unfoldable pub report_ok : ℕ → Text → HealthSource → World → World
unfolding write_record
report_ok now id source w =
    let (store, w') = read now w in
    if is_empty id then w else write_record id store (ok_record now source (lookup id store)) w'

abbrev pub no_record : HealthRecord
no_record = record {
  fails = 0;
  play_fails = some 0;
  last_fail_at = 0;
  last_ok_at = 0;
  unplayable = none;
}

-- `store[channelId] ?? { … }`
abbrev pub record_or_new : Option HealthRecord → HealthRecord
record_or_new none = no_record
record_or_new (some r) = r

unfoldable pub fail_record : ℕ → HealthSource → Bool → HealthRecord → HealthRecord
fail_record now probe permanent prev = record {
  fails = prev.fails + (if permanent then probe_fail_threshold else 1);
  play_fails = some (play_fails_of prev);
  last_fail_at = now;
  last_ok_at = prev.last_ok_at;
  unplayable = if permanent then some true else prev.unplayable;
}
fail_record now playback permanent prev = record {
  fails = prev.fails;
  play_fails = some (play_fails_of prev + (if permanent then fail_threshold else 1));
  last_fail_at = now;
  last_ok_at = prev.last_ok_at;
  unplayable = if permanent then some true else prev.unplayable;
}

-- The result says whether the failure hid the channel.
unfoldable pub report_fail : ℕ → Text → HealthSource → Bool → World → World × Bool
report_fail now id source permanent w =
    let (store, w') = read now w in
    let prev = record_or_new (lookup id store) in
    let r = fail_record now source permanent prev in
    if is_empty id
    then (w, false)
    else (write (insert id r store) w', not (is_hidden_record prev) && is_hidden_record r)

unfoldable pub hidden_in : Store → List Text
hidden_in [] = []
hidden_in ((id, r) ∷ s) = let rest = hidden_in s in if is_hidden_record r then id ∷ rest else rest

-- The circuit breaker: `total && total > 0 && out.size > total * 0.7 && !hideAnywayEnabled()`.
unfoldable pub refuses : Option ℕ → ℕ → World → Bool
refuses none size w = false
refuses (some total) size w =
    ltb 0 total && exceeds_seven_tenths size total && not (w.in_browser && w.hide_anyway)

unfoldable pub hidden_ids : ℕ → Option ℕ → World → List Text × World
hidden_ids now total w =
    let (store, w') = read now w in
    let out = hidden_in store in (if refuses total (length out) w' then [] else out, w')

unfoldable pub get_record : ℕ → Text → World → Option HealthRecord
get_record now id w = lookup id (read now w).0

unfoldable pub restore : ℕ → Text → World → World
restore now id w =
    let (store, w') = read now w in
    elim (lookup id store) [ none ↦ w' | some _ ↦ write (remove id store) w' ]

unfoldable pub restore_all : World → World
restore_all w = write [] w

unfoldable pub set_hide_anyway : Bool → World → World
set_hide_anyway on w = record w {
  hide_anyway =
      if not w.in_browser
      then w.hide_anyway
      else if on
      then (w.hide_anyway || not w.full)
      else false;
  notified = w.notified + 1;
}

-- A verdict of a probe, as the sweep records it.
unfoldable pub report_probe : ℕ → Text → Bool → World → World
report_probe now id ok w =
    if ok then report_ok now id probe w else (report_fail now id probe false w).0
