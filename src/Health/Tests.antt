-- ===== src/Health/Tests.antt =====
-- Runs of the health store and the sweep, and the theorems at inputs that meet their hypotheses.
use pytone_digital.Prelude.{
  ◌*◌, ◌≤◌, ◌<◌, ◌≡◌, refl, inl, true, false, none, some, List, [], ◌∷◌, arith, length, keep,
}
use pytone_digital.Text.{Text, codes}
use pytone_digital.Dictionary.{lookup, insert}
use pytone_digital.Health.{
  World, absent, probe, playback, read, write, is_current, store_of, fresh_entries, is_fresh,
}
use pytone_digital.Health.Evidence.{IsReady, report_fail-IsReady}
use pytone_digital.Health.Reports.{
  report_ok, report_fail, get_record, hidden_ids, hidden_in, refuses, report_probe,
  is_hidden_record, ok_record, fail_record, write_record,
}
use pytone_digital.Health.Verdicts.{hidden_at}
use pytone_digital.Health.Failures.{fail_at_times, three_failures_hide, play_evidence}
use pytone_digital.Health.Sweep.{
  ProbeTarget, Reply, failed, results, Round, Tally, collect, verdicts_of, slice_from, slices_from,
  report_all, fold_slice, fold_slices, sweep_round, sweep_rounds, sweep_next_batch,
}
use pytone_digital.Health.Blame.{sweep_next_batch-play}
use pytone_digital.Health.Breaker.{hidden_ids_breaker}
use pytone_digital.Health.Cursor.{sweep_next_batch-down}

store : Unit {0}
unfolding report_ok report_fail keep get_record hidden_ids hidden_in refuses report_probe
    is_hidden_record ok_record fail_record write_record read write is_current store_of fresh_entries
    is_fresh lookup insert collect verdicts_of slice_from slices_from report_all fold_slice
    fold_slices sweep_round sweep_rounds sweep_next_batch hidden_at
store = tt

abbrev news : Text
news = codes "news"

abbrev blank : World
blank = record {
  in_browser = true;
  full = false;
  schema = some (codes "3");
  health = absent;
  hide_anyway = false;
  last_probe_at = 0;
  sweep_cursor = 0;
  scanned = 0;
  notified = 0;
}

blank-IsReady : IsReady blank
unfolding store
blank-IsReady = record { browser = refl; writable = refl; current = refl; unique = tt }

abbrev marked : World
marked = (report_fail 5 news playback true blank).0

marked_runs :
    (hidden_at 5 news marked ≡ true) × (hidden_at 5 news (report_ok 6 news probe marked) ≡ true)
unfolding store
marked_runs = (refl, refl)

blank-get_record : get_record 1 news blank ≡ none
unfolding store
blank-get_record = refl

three_failures_hide_example : hidden_at 4 news (fail_at_times news 1 (3 ∷ 4 ∷ []) blank) ≡ true
three_failures_hide_example =
    three_failures_hide news 1 (3 ∷ 4 ∷ []) blank blank-IsReady refl blank-get_record
      (omega arith, (omega arith, tt))

abbrev target : Text → ProbeTarget
target id = record {
  id = id;
  stream_url = codes "http://x";
  http_user_agent = none;
  http_referrer = none;
}

abbrev three_targets : List ProbeTarget
three_targets = target news ∷ target (codes "b") ∷ target (codes "c") ∷ []

abbrev dead_news : Round
dead_news = record {
  now = 7;
  reply = λ behind slice. results ((news, some false) ∷ (codes "b", none) ∷ []);
}

-- In a playlist of fewer channels than a round asks about, one round probes a channel several
-- times, and one dead answer is counted as often.
small_playlist_runs :
    ((sweep_next_batch 7 7 three_targets (dead_news ∷ []) blank).0 ≡ record {
      checked = 12;
      failed_count = 12;
      restored = 0;
      discarded = false;
      cursor = 0;
      total = 3;
    })
    × (hidden_at 7 news (sweep_next_batch 7 7 three_targets (dead_news ∷ []) blank).1 ≡ true)
unfolding store
small_playlist_runs = (refl, refl)

sweep_next_batch-play_example :
    play_evidence (get_record 7 news (sweep_next_batch 7 7 three_targets (dead_news ∷ []) marked).1)
    ≡ play_evidence (get_record 7 news marked)
sweep_next_batch-play_example =
    sweep_next_batch-play 7 three_targets (dead_news ∷ []) marked news
      (report_fail-IsReady 5 news playback true blank blank-IsReady) (refl, tt)

hidden_ids_breaker_example :
    (10 * length (hidden_ids 6 (some 1) marked).0 ≤ 7 * 1)
    × (10 * length (hidden_ids 6 none marked).0 < 7 * 1
        → (hidden_ids 6 (some 1) marked).0 ≡ (hidden_ids 6 none marked).0)
hidden_ids_breaker_example =
    hidden_ids_breaker 6 1 marked (omega arith) (omega arith) (unfold store in refl)

abbrev offline : Round
offline = record { now = 7; reply = λ behind slice. failed }

sweep_next_batch-down_example : (sweep_next_batch 7 7 three_targets (offline ∷ []) blank).1 ≡ blank
sweep_next_batch-down_example =
    sweep_next_batch-down 7 three_targets offline [] blank blank-IsReady
      (unfold store in (inl refl, (inl refl, (inl refl, tt))))

abbrev flaky_reply : List ProbeTarget → Reply
flaky_reply (t ∷ []) = results ((t.id, some true) ∷ [])
flaky_reply _ = failed

-- The first slice fails, the other two are answered.
abbrev flaky : Round
flaky = record { now = 7; reply = λ behind slice. flaky_reply slice }

abbrev tally : Tally
tally = record { world = blank; checked = 0; failed_count = 0; discarded = false; advanced = 0 }
