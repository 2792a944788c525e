-- ===== src/Health/Cursor.antt =====
-- The cursor of the sweep, its counts, and the batches that it throws away.
use native.Mathlib.Nat.{mod-lt}
use pytone_digital.Prelude.{
  ℕ, ◌+◌, ◌≤◌, ◌<◌, ◌≡◌, refl, sym, ap, ◌∙◌, subst, ◌≢◌, ◌⊎◌, inl, inr, true, false, none, List, [],
  ◌∷◌, arith, ◌==◌, Bool-cases, length, keep, length-keep-le,
}
use pytone_digital.Health.{World}
use pytone_digital.Health.Reports.{hidden_ids}
use pytone_digital.Health.Sweep.{
  ProbeTarget, Verdicts, verdicts_of, Round, Tally, Sweep, is_dead, has_verdict, is_bad_batch,
  fold_slice, fold_slices, sweep_round, sweep_rounds, sweep_next_batch, slices_from, sweep_parallel,
  sweep_start,
}
use pytone_digital.Health.Evidence.{IsReady}
use pytone_digital.Health.Blame.{hidden_ids-ready}

fold_slice-counts :
    (now : ℕ) (slice : List ProbeTarget) (vs : Verdicts) (t : Tally)
    → t.failed_count ≤ t.checked
    → (fold_slice now slice vs t).failed_count ≤ (fold_slice now slice vs t).checked
unfolding fold_slice
fold_slice-counts now slice [] t h = h
fold_slice-counts now slice (v ∷ vs) t h =
    ground (arith, length-keep-le (is_dead (v ∷ vs)) (keep (has_verdict (v ∷ vs)) slice))

fold_slices-counts :
    (r : Round) (slices : List (List ProbeTarget)) (t : Tally)
    → t.failed_count ≤ t.checked
    → (fold_slices r slices t).failed_count ≤ (fold_slices r slices t).checked
unfolding fold_slices
fold_slices-counts r [] t h = h
fold_slices-counts r (slice ∷ slices) t h =
    fold_slices-counts r slices _
      (fold_slice-counts r.now slice (verdicts_of (r.reply (length slices) slice)) t h)

-- What holds of the loop's variables at each round.
record IsSane (total : ℕ) (s : Sweep) : Type 0 where
  in_list : s.cursor < total
  counts : s.failed_count ≤ s.checked

sweep_round-IsSane :
    (channels : List ProbeTarget) (r : Round) (s : Sweep)
    → IsSane (length channels) s
    → IsSane (length channels) (sweep_round channels r s).0
unfolding sweep_round
sweep_round-IsSane channels r s h = ground (
  arith,
  mod-lt (s.cursor + (folded).advanced) (positive h.in_list),
  fold_slices-counts r (slices_from channels s.cursor sweep_parallel []) (begin) h.counts,
)
  where
    begin : Tally
    begin = record {
      world = s.world;
      checked = s.checked;
      failed_count = s.failed_count;
      discarded = s.discarded;
      advanced = 0;
    }

    folded : Tally
    folded = fold_slices r (slices_from channels s.cursor sweep_parallel []) begin

    positive : s.cursor < length channels → 0 < length channels
    positive p = omega arith

sweep_rounds-IsSane :
    (channels : List ProbeTarget) (rs : List Round) (s : Sweep)
    → IsSane (length channels) s
    → IsSane (length channels) (sweep_rounds channels rs s)
unfolding sweep_rounds
sweep_rounds-IsSane channels [] s h = h
sweep_rounds-IsSane channels (r ∷ rs) s h = elim (Bool-cases (sweep_round channels r s).1) [
  | inl m ↦ rw m (sweep_rounds-IsSane channels rs _ (sweep_round-IsSane channels r s h))
  | inr m ↦ rw m (sweep_round-IsSane channels r s h)
]

-- The result of a sweep over a playlist with channels: the cursor points into the playlist, no
-- more channels failed than were checked, and the total is that of the playlist.
pub sweep_next_batch-IsSane :
    (before_at after_at : ℕ) (channels : List ProbeTarget) (rounds : List Round) (w : World)
    → 0 < length channels
    → let r = (sweep_next_batch before_at after_at channels rounds w).0 in
      (r.cursor < length channels) × (r.failed_count ≤ r.checked) × (r.total ≡ length channels)
unfolding sweep_next_batch
sweep_next_batch-IsSane before_at after_at channels rounds w pos =
    let w' = (hidden_ids before_at none w).1 in
    let h : IsSane (length channels) (sweep_start (length channels) w') = record {
      in_list = mod-lt _ pos;
      counts = omega arith;
    } in
    let done = sweep_rounds-IsSane channels rounds _ h in
    rw (nonempty (length channels) pos) (done.in_list, done.counts, refl)
  where
    nonempty : (n : ℕ) → 0 < n → (n == 0) ≡ false
    nonempty n p = ground arith

-- The server answered, and not nearly every verdict is a failure.
abbrev pub IsAnswered : Verdicts → List ProbeTarget → Type 0
IsAnswered vs slice =
    (vs ≢ [])
    × (is_bad_batch (length (keep (has_verdict vs) slice))
          (length (keep (is_dead vs) (keep (has_verdict vs) slice)))
        ≡ false)

fold_slice-IsAnswered :
    (now : ℕ) (slice : List ProbeTarget) (vs : Verdicts) (t : Tally)
    → IsAnswered vs slice
    → (fold_slice now slice vs t).advanced ≡ t.advanced + length slice
unfolding fold_slice
fold_slice-IsAnswered now slice [] t (n, h) = absurd (n refl)
fold_slice-IsAnswered now slice (v ∷ vs) t (n, h) = rw h (ground arith)

fold_slice-nothing :
    (now : ℕ) (slice : List ProbeTarget) (vs : Verdicts) (t : Tally)
    → vs ≡ []
    → (fold_slice now slice vs t).advanced ≡ t.advanced
unfolding fold_slice
fold_slice-nothing now slice [] t e = refl
fold_slice-nothing now slice (v ∷ vs) t e = cc

-- Nothing was learned of a slice: the request failed, or nearly every verdict is a failure.
abbrev pub IsUseless : Verdicts → List ProbeTarget → Type 0
IsUseless vs slice =
    (vs ≡ [])
    ⊎ (is_bad_batch (length (keep (has_verdict vs) slice))
          (length (keep (is_dead vs) (keep (has_verdict vs) slice)))
        ≡ true)

fold_slice-IsUseless :
    (now : ℕ) (slice : List ProbeTarget) (vs : Verdicts) (t : Tally)
    → IsUseless vs slice
    → fold_slice now slice vs t ≡ record t { discarded = true }
unfolding fold_slice
fold_slice-IsUseless now slice [] t h = refl
fold_slice-IsUseless now slice (v ∷ vs) t (inl e) = cc
fold_slice-IsUseless now slice (v ∷ vs) t (inr e) = rw e (ground arith)

-- The network is down for a round: each slice that it asks about is useless.
abbrev pub IsDown : Round → List (List ProbeTarget) → Type 0
IsDown r [] = Unit
IsDown r (slice ∷ slices) =
    IsUseless (verdicts_of (r.reply (length slices) slice)) slice × IsDown r slices

fold_slices-IsDown :
    (r : Round) (slices : List (List ProbeTarget)) (t : Tally)
    → IsDown r slices
    → ((fold_slices r slices t).world ≡ t.world) × ((fold_slices r slices t).advanced ≡ t.advanced)
unfolding fold_slices
fold_slices-IsDown r [] t d = (refl, refl)
fold_slices-IsDown r (slice ∷ slices) t (d, ds) =
    subst
      (λ u.
        ((fold_slices r slices u).world ≡ t.world)
        × ((fold_slices r slices u).advanced ≡ t.advanced))
      (sym (fold_slice-IsUseless r.now slice (verdicts_of (r.reply (length slices) slice)) t d))
      (fold_slices-IsDown r slices (record t { discarded = true }) ds)

sweep_round-IsDown :
    (channels : List ProbeTarget) (r : Round) (s : Sweep)
    → IsDown r (slices_from channels s.cursor sweep_parallel [])
    → ((sweep_round channels r s).1 ≡ false)
      × ((sweep_round channels r s).0.world ≡ s.world)
      × ((sweep_round channels r s).0.cursor ≡ s.cursor)
unfolding sweep_round
sweep_round-IsDown channels r s d =
    let slices = slices_from channels s.cursor sweep_parallel [] in
    ground (
      arith,
      fold_slices-IsDown r slices
          (record {
            world = s.world;
            checked = s.checked;
            failed_count = s.failed_count;
            discarded = s.discarded;
            advanced = 0;
          })
          d,
    )

sweep_rounds-IsDown :
    (channels : List ProbeTarget) (r : Round) (rs : List Round) (s : Sweep)
    → IsDown r (slices_from channels s.cursor sweep_parallel [])
    → ((sweep_rounds channels (r ∷ rs) s).world ≡ s.world)
      × ((sweep_rounds channels (r ∷ rs) s).cursor ≡ s.cursor)
unfolding sweep_rounds
sweep_rounds-IsDown channels r rs s d =
    let (stops, world, cursor) = sweep_round-IsDown channels r s d in rw stops (world, cursor)

-- A sweep whose first round meets a network that is down, where each request fails or nearly every
-- verdict is a failure, records nothing: the stored health, the saved cursor and the count of
-- scanned channels stay as they are.
pub sweep_next_batch-down :
    (now : ℕ) (channels : List ProbeTarget) (r : Round) (rs : List Round) (w : World)
    → IsReady w
    → IsDown r (slices_from channels (sweep_start (length channels) w).cursor sweep_parallel [])
    → (sweep_next_batch now now channels (r ∷ rs) w).1 ≡ w
unfolding sweep_next_batch
sweep_next_batch-down now channels r rs w ok d = elim (Bool-cases (length channels == 0)) [
  | inl e ↦ rw e
  | inr e ↦
      rw
        (
          e,
          hidden_ids-ready now w ok,
          (sweep_rounds-IsDown channels r rs (sweep_start (length channels) w) d).0,
        )
        (hidden_ids-ready now w ok)
]

-- Two slices that were answered, behind one whose request failed, move the cursor by their own
-- lengths, so it comes to stand behind the slice of which nothing was learned.
pub skips_failed_slice :
    (r : Round) (first second third : List ProbeTarget) (t : Tally)
    → verdicts_of (r.reply 2 first) ≡ []
    → IsAnswered (verdicts_of (r.reply 1 second)) second
    → IsAnswered (verdicts_of (r.reply 0 third)) third
    → (fold_slices r (first ∷ second ∷ third ∷ []) t).advanced
      ≡ t.advanced + length second + length third
unfolding fold_slices
skips_failed_slice r first second third t e h k =
    fold_slice-IsAnswered r.now third _ _ k
    ∙ ap (λ n. n + length third) (fold_slice-IsAnswered r.now second _ _ h)
    ∙ ap (λ n. n + length second + length third) (fold_slice-nothing r.now first _ t e)
