-- ===== src/Health/Failures.antt =====
-- How many failures hide a channel, and what probes cannot change.
use pytone_digital.Prelude.{
  ℕ, suc, ◌+◌, ◌≤◌, ◌≡◌, refl, sym, ap, ◌∙◌, ◌⊎◌, inl, inr, Bool, true, false, Option, none, some,
  List, [], ◌∷◌, arith, leb, if◌then◌else◌, Bool-cases, length,
}
use pytone_digital.Text.{Text, is_empty, text_eq}
use pytone_digital.Text.Equality.{text_eq_iff, text_eq_refl}
use pytone_digital.Health.{
  HealthRecord, HealthSource, probe, playback, World, play_fails_of, is_unplayable, is_fresh,
  record_ttl_ms,
}
use pytone_digital.Health.Evidence.{
  keep_fresh, or_kept, IsReady, get_record-report_ok, get_record-report_fail, report_fail-IsReady,
  get_record-ready, report_ok-IsReady, store_of-later,
}
use pytone_digital.Health.Reports.{
  is_hidden_record, ok_record, report_ok, record_or_new, fail_record, report_fail, get_record,
  report_probe,
}
use pytone_digital.Health.Verdicts.{hidden_at, report_ok-empty, report_fail-empty}

-- Failures at playback at time `t` and then at the times of the list.
pub fail_at_times : Text → ℕ → List ℕ → World → World
fail_at_times id t [] w = (report_fail t id playback false w).0
fail_at_times id t (u ∷ ts) w = fail_at_times id u ts (report_fail t id playback false w).0

abbrev pub last_time : ℕ → List ℕ → ℕ
last_time t [] = t
last_time t (u ∷ ts) = last_time u ts

-- No failure comes more than the lifetime of a record after the one before it.
abbrev pub IsClose : ℕ → List ℕ → Type 0
IsClose t [] = Unit
IsClose t (u ∷ ts) = (u ≤ t + record_ttl_ms) × IsClose u ts

keep_fresh-now :
    (t u : ℕ) (source : HealthSource) (p : Bool) (r : HealthRecord)
    → u ≤ t + record_ttl_ms
    → keep_fresh u (some (fail_record t source p r)) ≡ some (fail_record t source p r)
unfolding keep_fresh is_fresh fail_record
keep_fresh-now t u playback p r h = ground arith
keep_fresh-now t u probe p r h = ground arith

get_record-fail_self :
    (t u : ℕ) (id : Text) (w : World)
    → IsReady w
    → is_empty id ≡ false
    → u ≤ t + record_ttl_ms
    → get_record u id (report_fail t id playback false w).0
      ≡ some (fail_record t playback false (record_or_new (get_record t id w)))
get_record-fail_self t u id w ok e h =
    rw (get_record-report_fail t u id id playback false w ok e, text_eq_refl id)
      (keep_fresh-now t u playback false (record_or_new (get_record t id w)) h)

-- What the record of a channel says before a failure.
record Counts (n : ℕ) (r : HealthRecord) : Type 0 where
  probes : r.fails ≡ 0
  plays : play_fails_of r ≡ n
  playable : is_unplayable r ≡ false

fail_record-Counts :
    (n t : ℕ) (r : HealthRecord) → Counts n r → Counts (suc n) (fail_record t playback false r)
unfolding fail_record
fail_record-Counts n t r c = record {
  probes = c.probes;
  plays = omega (arith, c.plays);
  playable = c.playable;
}

Counts-hidden : (n : ℕ) (r : HealthRecord) → Counts n r → is_hidden_record r ≡ leb 3 n
unfolding is_hidden_record
Counts-hidden n r c = rw (c.playable, c.probes, c.plays)

fail_at_times-hidden :
    (id : Text) (t : ℕ) (ts : List ℕ) (w : World) (n : ℕ)
    → IsReady w
    → is_empty id ≡ false
    → IsClose t ts
    → Counts n (record_or_new (get_record t id w))
    → hidden_at (last_time t ts) id (fail_at_times id t ts w) ≡ leb 3 (n + suc (length ts))
unfolding hidden_at fail_at_times
fail_at_times-hidden id t [] w n ok e h c =
    rw (get_record-fail_self t t id w ok e (omega arith))
      (Counts-hidden (suc n) _ (fail_record-Counts n t _ c) ∙ ap (leb 3) (omega arith))
fail_at_times-hidden id t (u ∷ ts) w n ok e (h, hs) c =
    fail_at_times-hidden id u ts (report_fail t id playback false w).0 (suc n)
      (report_fail-IsReady t id playback false w ok) e hs
      (rw (get_record-fail_self t u id w ok e h) (fail_record-Counts n t _ c))
    ∙ ap (leb 3) (omega arith)

-- For a channel with no record, and failures at playback that are not reported as permanent, each
-- of them no later than the lifetime of a record after the one before it: after the last of them
-- the channel is hidden when there are three or more, and is not hidden when there are one or two.
pub three_failures_hide :
    (id : Text) (t : ℕ) (ts : List ℕ) (w : World)
    → IsReady w
    → is_empty id ≡ false
    → get_record t id w ≡ none
    → IsClose t ts
    → hidden_at (last_time t ts) id (fail_at_times id t ts w) ≡ leb 3 (suc (length ts))
three_failures_hide id t ts w ok e n h =
    fail_at_times-hidden id t ts w 0 ok e h
      (rw n (record { probes = refl; plays = refl; playable = refl }))
    ∙ ap (leb 3) (omega arith)

-- What playback recorded: the count of failures and the mark.
abbrev pub play_evidence : Option HealthRecord → ℕ × Bool
play_evidence none = (0, false)
play_evidence (some r) = (play_fails_of r, is_unplayable r)

ok_record-play :
    (now : ℕ) (o : Option HealthRecord)
    → o ≡ keep_fresh now o
    → play_evidence (keep_fresh now (or_kept (ok_record now probe o) o)) ≡ play_evidence o
unfolding ok_record keep_fresh is_fresh
ok_record-play now none h = ground arith
ok_record-play now (some r) h = ground arith

fail_record-play :
    (now : ℕ) (o : Option HealthRecord)
    → play_evidence (keep_fresh now (some (fail_record now probe false (record_or_new o))))
      ≡ play_evidence o
unfolding fail_record keep_fresh is_fresh
fail_record-play now none = ground arith
fail_record-play now (some r) = ground arith

get_record-fresh :
    (now : ℕ) (j : Text) (w : World)
    → IsReady w
    → get_record now j w ≡ keep_fresh now (get_record now j w)
get_record-fresh now j w ok =
    rw (get_record-ready now j w ok) (store_of-later now now j w.health ok.unique (omega arith))

pub report_probe-IsReady :
    (now : ℕ) (id : Text) (alive : Bool) (w : World)
    → IsReady w
    → IsReady (report_probe now id alive w)
unfolding report_probe
report_probe-IsReady now id true w ok = report_ok-IsReady now id probe w ok
report_probe-IsReady now id false w ok = report_fail-IsReady now id probe false w ok

probe_ok-play :
    (now : ℕ) (id j : Text) (w : World)
    → IsReady w
    → is_empty id ≡ false
    → play_evidence (get_record now j (report_ok now id probe w))
      ≡ play_evidence (get_record now j w)
probe_ok-play now id j w ok e =
    ap play_evidence (get_record-report_ok now now id j probe w ok e (omega arith))
    ∙ by_key (Bool-cases (text_eq id j))
  where
    by_key :
        (text_eq id j ≡ true) ⊎ (text_eq id j ≡ false)
        → play_evidence (
            keep_fresh now (
              if text_eq id j
              then or_kept (ok_record now probe (get_record now id w)) (get_record now id w)
              else get_record now j w))
          ≡ play_evidence (get_record now j w)
    by_key (inl h) =
        rw (h, ← (text_eq_iff id j).0 h)
          (ok_record-play now (get_record now id w) (get_record-fresh now id w ok))
    by_key (inr h) = rw h (ap play_evidence (sym (get_record-fresh now j w ok)))

probe_fail-play :
    (now : ℕ) (id j : Text) (w : World)
    → IsReady w
    → is_empty id ≡ false
    → play_evidence (get_record now j (report_fail now id probe false w).0)
      ≡ play_evidence (get_record now j w)
probe_fail-play now id j w ok e =
    ap play_evidence (get_record-report_fail now now id j probe false w ok e)
    ∙ by_key (Bool-cases (text_eq id j))
  where
    by_key :
        (text_eq id j ≡ true) ⊎ (text_eq id j ≡ false)
        → play_evidence (
            keep_fresh now (
              if text_eq id j
              then some (fail_record now probe false (record_or_new (get_record now id w)))
              else get_record now j w))
          ≡ play_evidence (get_record now j w)
    by_key (inl h) = rw (h, ← (text_eq_iff id j).0 h) (fail_record-play now (get_record now id w))
    by_key (inr h) = rw h (ap play_evidence (sym (get_record-fresh now j w ok)))

-- Whatever a probe answers, about whichever channel, the failures at playback and the marks that
-- the store holds for every channel are the same before and after.
pub report_probe-play :
    (now : ℕ) (id j : Text) (alive : Bool) (w : World)
    → IsReady w
    → play_evidence (get_record now j (report_probe now id alive w))
      ≡ play_evidence (get_record now j w)
unfolding report_probe
report_probe-play now id j alive w ok = elim (Bool-cases (is_empty id)) [
  | inl e ↦ empty_id alive e
  | inr e ↦ named_id alive e
]
  where
    empty_id :
        (alive : Bool)
        → is_empty id ≡ true
        → play_evidence (get_record now j (report_probe now id alive w))
          ≡ play_evidence (get_record now j w)
    empty_id true e = rw (report_ok-empty now id probe w e)
    empty_id false e = rw (report_fail-empty now id probe false w e)

    named_id :
        (alive : Bool)
        → is_empty id ≡ false
        → play_evidence (get_record now j (report_probe now id alive w))
          ≡ play_evidence (get_record now j w)
    named_id true e = probe_ok-play now id j w ok e
    named_id false e = probe_fail-play now id j w ok e
