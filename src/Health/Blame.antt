-- ===== src/Health/Blame.antt =====
-- What a sweep may and may not change.
use pytone_digital.Prelude.{
  ℕ, ◌+◌, ◌≡◌, refl, sym, ap, ◌∙◌, subst, inl, inr, Bool, true, false, none, List, [], ◌∷◌, ◌==◌,
  if◌then◌else◌, Bool-cases, length, keep, All,
}
use pytone_digital.Text.{Text}
use pytone_digital.Health.{World, store_of}
use pytone_digital.Health.Evidence.{IsReady, get_record-ready, read-ready}
use pytone_digital.Health.Failures.{play_evidence, report_probe-IsReady, report_probe-play}
use pytone_digital.Health.Reports.{get_record, report_probe, hidden_ids}
use pytone_digital.Health.Sweep.{
  ProbeTarget, Verdicts, verdicts_of, Round, Tally, Sweep, is_alive, has_verdict, bump_scanned,
  save_cursor, report_all, fold_slice, fold_slices, sweep_round, sweep_rounds, sweep_next_batch,
  slices_from, sweep_parallel, sweep_start,
}
use pytone_digital.Dictionary.{lookup}

-- The evidence of playback is the same in two worlds, which are both ready.
record KeepsPlay (now : ℕ) (v w : World) : Type 0 where
  ready : IsReady w
  same : (j : Text) → play_evidence (get_record now j w) ≡ play_evidence (get_record now j v)

KeepsPlay-trans :
    (now : ℕ) {u v w : World} → KeepsPlay now u v → KeepsPlay now v w → KeepsPlay now u w
KeepsPlay-trans now a b = record { ready = b.ready; same = λ j. b.same j ∙ a.same j }

KeepsPlay-refl : (now : ℕ) {w : World} → IsReady w → KeepsPlay now w w
KeepsPlay-refl now ok = record { ready = ok; same = λ j. refl }

report_all-KeepsPlay :
    (now : ℕ) (vs : Verdicts) (ts : List ProbeTarget) (w : World)
    → IsReady w
    → KeepsPlay now w (report_all now vs ts w)
unfolding report_all
report_all-KeepsPlay now vs [] w ok = KeepsPlay-refl now ok
report_all-KeepsPlay now vs (t ∷ ts) w ok =
    let one = report_probe-IsReady now t.id (is_alive vs t) w ok in
    KeepsPlay-trans now
      (record { ready = one; same = λ j. report_probe-play now t.id j (is_alive vs t) w ok })
      (report_all-KeepsPlay now vs ts (report_probe now t.id (is_alive vs t) w) one)

KeepsPlay-if :
    (now : ℕ) (b : Bool) (w x y : World)
    → KeepsPlay now w x
    → KeepsPlay now w y
    → KeepsPlay now w (if b then x else y)
KeepsPlay-if now true w x y h k = h
KeepsPlay-if now false w x y h k = k

KeepsPlay-of_health :
    (now : ℕ) (v w : World) → IsReady v → IsReady w → v.health ≡ w.health → KeepsPlay now v w
KeepsPlay-of_health now v w okv okw e = record {
  ready = okw;
  same = λ j. ap play_evidence (
      get_record-ready now j w okw
      ∙ ap (λ h. lookup j (store_of now h)) (sym e)
      ∙ sym (get_record-ready now j v okv));
}

bump_scanned-KeepsPlay : (now n : ℕ) (w : World) → IsReady w → KeepsPlay now w (bump_scanned n w)
bump_scanned-KeepsPlay now n w ok = KeepsPlay-if now _ w w _ (KeepsPlay-refl now ok) (
    KeepsPlay-of_health now w (record w { scanned = w.scanned + n }) ok
      (record {
        browser = ok.browser;
        writable = ok.writable;
        current = ok.current;
        unique = ok.unique;
      })
      refl)

save_cursor-KeepsPlay : (now n : ℕ) (w : World) → IsReady w → KeepsPlay now w (save_cursor n w)
save_cursor-KeepsPlay now n w ok = KeepsPlay-if now _ w w _ (KeepsPlay-refl now ok) (
    KeepsPlay-of_health now w (record w { sweep_cursor = n }) ok
      (record {
        browser = ok.browser;
        writable = ok.writable;
        current = ok.current;
        unique = ok.unique;
      })
      refl)

-- Branches of a conditional on a tally.
if-world : (b : Bool) (x y : Tally) → (if b then x else y).world ≡ (if b then x.world else y.world)
if-world true x y = refl
if-world false x y = refl

fold_slice-KeepsPlay :
    (now : ℕ) (slice : List ProbeTarget) (vs : Verdicts) (t : Tally)
    → IsReady t.world
    → KeepsPlay now t.world (fold_slice now slice vs t).world
unfolding fold_slice
fold_slice-KeepsPlay now slice [] t ok = KeepsPlay-refl now ok
fold_slice-KeepsPlay now slice (v ∷ vs) t ok =
    let answered = keep (has_verdict (v ∷ vs)) slice in
    let r = report_all-KeepsPlay now (v ∷ vs) answered t.world ok in
    rw (if-world, if-world)
      (KeepsPlay-if now _ t.world _ _ (KeepsPlay-refl now ok) (
        KeepsPlay-if now _ t.world _ _ (KeepsPlay-refl now ok)
          (KeepsPlay-trans now r (bump_scanned-KeepsPlay now (length answered) _ r.ready))))

fold_slices-KeepsPlay :
    (r : Round) (slices : List (List ProbeTarget)) (t : Tally)
    → IsReady t.world
    → KeepsPlay r.now t.world (fold_slices r slices t).world
unfolding fold_slices
fold_slices-KeepsPlay r [] t ok = KeepsPlay-refl r.now ok
fold_slices-KeepsPlay r (slice ∷ slices) t ok =
    let one = fold_slice-KeepsPlay r.now slice (verdicts_of (r.reply (length slices) slice)) t ok in
    KeepsPlay-trans r.now one (fold_slices-KeepsPlay r slices _ one.ready)

if-sweep :
    (b : Bool) (x y : Sweep × Bool)
    → (if b then x else y).0.world ≡ (if b then x.0.world else y.0.world)
if-sweep true x y = refl
if-sweep false x y = refl

sweep_round-KeepsPlay :
    (channels : List ProbeTarget) (r : Round) (s : Sweep)
    → IsReady s.world
    → KeepsPlay r.now s.world (sweep_round channels r s).0.world
unfolding sweep_round
sweep_round-KeepsPlay channels r s ok =
    let folded =
      fold_slices-KeepsPlay r (slices_from channels s.cursor sweep_parallel [])
        (record {
          world = s.world;
          checked = s.checked;
          failed_count = s.failed_count;
          discarded = s.discarded;
          advanced = 0;
        })
        ok in
    rw (if-sweep, if-sweep)
      (KeepsPlay-if r.now _ s.world _ _ (KeepsPlay-refl r.now ok) (
        KeepsPlay-if r.now _ s.world _ _ folded
          (KeepsPlay-trans r.now folded (save_cursor-KeepsPlay r.now _ _ folded.ready))))

sweep_rounds-KeepsPlay :
    (now : ℕ) (channels : List ProbeTarget) (rs : List Round) (s : Sweep)
    → All (λ r. r.now ≡ now) rs
    → IsReady s.world
    → KeepsPlay now s.world (sweep_rounds channels rs s).world
unfolding sweep_rounds
sweep_rounds-KeepsPlay now channels [] s h ok = KeepsPlay-refl now ok
sweep_rounds-KeepsPlay now channels (r ∷ rs) s (e, h) ok =
    elim (Bool-cases (sweep_round channels r s).1) [
      | inl m ↦
          rw m (KeepsPlay-trans now one (sweep_rounds-KeepsPlay now channels rs _ h one.ready))
      | inr m ↦ rw m one
    ]
  where
    one : KeepsPlay now s.world (sweep_round channels r s).0.world
    one =
        subst (λ n. KeepsPlay n s.world (sweep_round channels r s).0.world) e
          (sweep_round-KeepsPlay channels r s ok)

pub hidden_ids-ready : (now : ℕ) (w : World) → IsReady w → (hidden_ids now none w).1 ≡ w
unfolding hidden_ids
hidden_ids-ready now w ok = rw (read-ready now w ok)

-- A sweep of the playlist, whatever the network answers, leaves what playback recorded of every
-- channel as it was: the count of failures and the mark. (The clock stands still in the sweep.)
pub sweep_next_batch-play :
    (now : ℕ) (channels : List ProbeTarget) (rounds : List Round) (w : World) (j : Text)
    → IsReady w
    → All (λ r. r.now ≡ now) rounds
    → play_evidence (get_record now j (sweep_next_batch now now channels rounds w).1)
      ≡ play_evidence (get_record now j w)
unfolding sweep_next_batch
sweep_next_batch-play now channels rounds w j ok h = elim (Bool-cases (length channels == 0)) [
  | inl e ↦ rw e
  | inr e ↦
      rw (e, hidden_ids-ready now w ok)
        (swept (sweep_rounds channels rounds (sweep_start (length channels) w))
          (sweep_rounds-KeepsPlay now channels rounds (sweep_start (length channels) w) h ok))
]
  where
    swept :
        (s : Sweep)
        → KeepsPlay now w s.world
        → play_evidence (get_record now j (hidden_ids now none s.world).1)
          ≡ play_evidence (get_record now j w)
    swept s k = rw (hidden_ids-ready now s.world k.ready) (k.same j)
