-- ===== src/Health/Verdicts.antt =====
-- What the reports mean for the verdict on a channel: success at playback wins, three failures at
-- playback hide, and probes leave the evidence of playback alone.
use pytone_digital.Prelude.{
  ℕ, ◌≤◌, ◌≡◌, refl, inl, inr, Bool, true, false, not, ◌||◌, Option, none, some, arith, leb,
  if◌then◌else◌, Bool-cases,
}
use pytone_digital.Text.{Text, is_empty, text_eq}
use pytone_digital.Text.Equality.{text_eq_refl}
use pytone_digital.Dictionary.{lookup}
use pytone_digital.Health.{
  HealthRecord, HealthSource, probe, playback, absent, World, play_fails_of, is_unplayable,
  is_fresh, store_of,
}
use pytone_digital.Health.Evidence.{
  keep_fresh, or_kept, IsReady, get_record-report_ok, get_record-report_fail, report_ok-IsReady,
  report_fail-IsReady, get_record-ready,
}
use pytone_digital.Health.Reports.{
  is_hidden_record, ok_record, report_ok, record_or_new, fail_record, report_fail, get_record,
}

-- Whether the store, read at time `t`, hides a channel.
abbrev pub hides : Option HealthRecord → Bool
hides none = false
hides (some r) = is_hidden_record r

unfoldable pub hidden_at : ℕ → Text → World → Bool
hidden_at t id w = hides (get_record t id w)

-- A record marked as unplayable also has the failures that hide it.
abbrev pub is_sound : Option HealthRecord → Bool
is_sound none = true
is_sound (some r) = not (is_unplayable r) || leb 2 r.fails || leb 3 (play_fails_of r)

keep_fresh_sound :
    (t : ℕ) (o : Option HealthRecord) → is_sound o ≡ true → is_sound (keep_fresh t o) ≡ true
unfolding keep_fresh
keep_fresh_sound t none h = refl
keep_fresh_sound t (some r) h = elim (Bool-cases (is_fresh t r)) [ inl e ↦ rw e h | inr e ↦ rw e ]

ok_record_sound :
    (now : ℕ) (source : HealthSource) (o : Option HealthRecord)
    → is_sound o ≡ true
    → is_sound (or_kept (ok_record now source o) o) ≡ true
unfolding ok_record
ok_record_sound now playback none h = refl
ok_record_sound now probe none h = refl
ok_record_sound now playback (some r) h = ground arith
ok_record_sound now probe (some r) h = ground arith

fail_record_sound :
    (now : ℕ) (source : HealthSource) (permanent : Bool) (o : Option HealthRecord)
    → is_sound o ≡ true
    → is_sound (some (fail_record now source permanent (record_or_new o))) ≡ true
unfolding fail_record
fail_record_sound now playback permanent none h = ground arith
fail_record_sound now probe permanent none h = ground arith
fail_record_sound now playback permanent (some r) h = ground arith
fail_record_sound now probe permanent (some r) h = ground arith

-- The worlds that reports lead to from a store that was never written; the index is a time that
-- no report so far is later than.
pub data Reach : ℕ → World → Type 0 where
  fresh : (t : ℕ) {w : World} → IsReady w → w.health ≡ absent → Reach t w
  after_ok :
      {s : ℕ} (t : ℕ) {w : World} (id : Text) (source : HealthSource)
      → s ≤ t
      → Reach s w
      → Reach t (report_ok t id source w)
  after_fail :
      {s : ℕ} (t : ℕ) {w : World} (id : Text) (source : HealthSource) (permanent : Bool)
      → s ≤ t
      → Reach s w
      → Reach t (report_fail t id source permanent w).0

pub Reach-IsReady : {t : ℕ} {w : World} → Reach t w → IsReady w
Reach-IsReady (fresh t ok e) = ok
Reach-IsReady (after_ok t id source le r) = report_ok-IsReady t id source _ (Reach-IsReady r)
Reach-IsReady (after_fail t id source permanent le r) =
    report_fail-IsReady t id source permanent _ (Reach-IsReady r)

pub report_ok-empty :
    (now : ℕ) (id : Text) (source : HealthSource) (w : World)
    → is_empty id ≡ true
    → report_ok now id source w ≡ w
unfolding report_ok
report_ok-empty now id source w e = rw e

pub report_fail-empty :
    (now : ℕ) (id : Text) (source : HealthSource) (permanent : Bool) (w : World)
    → is_empty id ≡ true
    → (report_fail now id source permanent w).0 ≡ w
unfolding report_fail
report_fail-empty now id source permanent w e = rw e

get_record-absent :
    (t : ℕ) (j : Text) (w : World) → IsReady w → w.health ≡ absent → get_record t j w ≡ none
get_record-absent t j w ok e = rw (get_record-ready t j w ok, e) (unfold store_of lookup in refl)

if_sound :
    (b : Bool) (x y : Option HealthRecord)
    → is_sound x ≡ true
    → is_sound y ≡ true
    → is_sound (if b then x else y) ≡ true
if_sound true x y h k = h
if_sound false x y h k = k

-- In a world that reports lead to, every record is sound at every later reading.
Reach-sound :
    {s : ℕ} {w : World} (t : ℕ) (j : Text) → Reach s w → s ≤ t → is_sound (get_record t j w) ≡ true
Reach-sound t j (fresh s {w} ok e) le = rw (get_record-absent t j w ok e)
Reach-sound t j (after_ok {s} u {w} id source le r) le' = elim (Bool-cases (is_empty id)) [
  | inl e ↦ rw (report_ok-empty u id source w e) (Reach-sound t j r (omega arith))
  | inr e ↦ rw (get_record-report_ok u t id j source w (Reach-IsReady r) e le') (
      keep_fresh_sound t _ (
        if_sound (text_eq id j) _ _
          (ok_record_sound u source (get_record u id w) (Reach-sound u id r le))
          (Reach-sound u j r le)))
]
Reach-sound t j (after_fail {s} u {w} id source permanent le r) le' =
    elim (Bool-cases (is_empty id)) [
      | inl e ↦ rw (report_fail-empty u id source permanent w e) (Reach-sound t j r (omega arith))
      | inr e ↦ rw (get_record-report_fail u t id j source permanent w (Reach-IsReady r) e) (
          keep_fresh_sound t _ (
            if_sound (text_eq id j) _ _
              (fail_record_sound u source permanent (get_record u id w) (Reach-sound u id r le))
              (Reach-sound u j r le)))
    ]

ok_record-visible :
    (t now : ℕ) (o : Option HealthRecord)
    → is_sound o ≡ true
    → hides (keep_fresh t (or_kept (ok_record now playback o) o)) ≡ false
unfolding ok_record keep_fresh is_hidden_record
ok_record-visible t now none h = ground arith
ok_record-visible t now (some r) h = ground arith

-- Success at playback always wins: after any history of reports, a playback that works leaves the
-- channel visible at every later time.
pub report_ok-visible :
    {s : ℕ} {w : World} (now t : ℕ) (id : Text)
    → Reach s w
    → s ≤ now
    → now ≤ t
    → is_empty id ≡ false
    → hidden_at t id (report_ok now id playback w) ≡ false
unfolding hidden_at
report_ok-visible {w = w} now t id r le le' e =
    rw (get_record-report_ok now t id id playback w (Reach-IsReady r) e le', text_eq_refl id)
      (ok_record-visible t now (get_record now id w) (Reach-sound now id r le))
