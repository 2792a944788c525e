-- ===== src/Health/Sweep.antt =====
-- `probeBatch` and `sweepNextBatch` of channelHealth.ts, and `probeHidden`. What the network and
-- the clock answer is given, one `Round` for each round of the loop.
use pytone_digital.Prelude.{
  ℕ, zero, suc, ◌+◌, ◌-◌, ◌*◌, ◌%◌, Bool, true, false, not, ◌&&◌, Option, none, some, List, [], ◌∷◌,
  ◌++◌, ltb, leb, ◌==◌, if◌then◌else◌, length, get_elem?, take, keep, any, ◌||◌,
}
use pytone_digital.Text.{Text, text_eq, is_empty}
use pytone_digital.Dictionary.{lookup, insert}
use pytone_digital.Health.{World}
use pytone_digital.Health.Reports.{hidden_ids, report_probe, restore}

pub record ProbeTarget : Type 0 where
  pub id : Text
  pub stream_url : Text
  pub http_user_agent : Option Text
  pub http_referrer : Option Text

-- The answer of the probe endpoint: none that could be used, or a list of verdicts.
pub data Reply : Type 0 where
  failed : Reply
  results : List (Text × Option Bool) → Reply

abbrev pub Verdicts : Type 0
Verdicts = List (Text × Bool)

-- The loop over `j.results`: an item without a verdict is passed over, the last item wins.
unfoldable pub collect : Verdicts → List (Text × Option Bool) → Verdicts
collect out [] = out
collect out ((id, none) ∷ rest) = collect out rest
collect out ((id, some ok) ∷ rest) = collect (insert id ok out) rest

unfoldable pub verdicts_of : Reply → Verdicts
unfolding collect
verdicts_of failed = []
verdicts_of (results rs) = collect [] rs

-- The reply to each request of a round, which is known by its slice and by how many slices come
-- behind it: two slices of one round may be equal.
pub record Round : Type 0 where
  pub now : ℕ
  pub reply : ℕ → List ProbeTarget → Reply

abbrev pub sweep_batch : ℕ
sweep_batch = 12

abbrev pub sweep_parallel : ℕ
sweep_parallel = 3

abbrev push_playable : Option ProbeTarget → List ProbeTarget → List ProbeTarget
push_playable none slice = slice
push_playable (some c) slice = if is_empty c.stream_url then slice else c ∷ slice

-- `n` channels from index `i` on, wrapping at the end, without those that have no URL.
unfoldable pub slice_from : List ProbeTarget → ℕ → ℕ → List ProbeTarget
slice_from channels i zero = []
slice_from channels i (suc n) =
    push_playable (get_elem? channels (i % length channels)) (slice_from channels (i + 1) n)

abbrev push_slice : List ProbeTarget → List (List ProbeTarget) → List (List ProbeTarget)
push_slice [] slices = slices
push_slice (t ∷ ts) slices = slices ++ (t ∷ ts) ∷ []

-- `b` more slices behind those at hand.
unfoldable pub slices_from :
    List ProbeTarget → ℕ → ℕ → List (List ProbeTarget) → List (List ProbeTarget)
slices_from channels cursor zero slices = slices
slices_from channels cursor (suc b) slices =
    slices_from channels cursor b
      (push_slice (slice_from channels (cursor + length slices * sweep_batch) sweep_batch) slices)

-- The variables of the loop over the slices of a round.
pub record Tally : Type 0 where
  pub world : World
  pub checked : ℕ
  pub failed_count : ℕ
  pub discarded : Bool
  pub advanced : ℕ

abbrev pub has_verdict : Verdicts → ProbeTarget → Bool
has_verdict vs t = elim (lookup t.id vs) [ none ↦ false | some _ ↦ true ]

-- `!!verdicts.get(id)`
abbrev pub is_alive : Verdicts → ProbeTarget → Bool
is_alive vs t = elim (lookup t.id vs) [ none ↦ false | some ok ↦ ok ]

abbrev pub is_dead : Verdicts → ProbeTarget → Bool
is_dead vs t = not (is_alive vs t)

unfoldable pub report_all : ℕ → Verdicts → List ProbeTarget → World → World
report_all now vs [] w = w
report_all now vs (t ∷ ts) w = report_all now vs ts (report_probe now t.id (is_alive vs t) w)

-- `answered.length >= 5 && bad / answered.length >= 0.8`; with at most 12 answers the quotient of
-- doubles compares as the exact one does.
abbrev pub is_bad_batch : ℕ → ℕ → Bool
is_bad_batch answered bad = leb 5 answered && leb (4 * answered) (5 * bad)

-- `bumpScanned`
abbrev pub bump_scanned : ℕ → World → World
bump_scanned n w = if w.full || not w.in_browser then w else record w { scanned = w.scanned + n }

-- One slice and its verdicts.
unfoldable pub fold_slice : ℕ → List ProbeTarget → Verdicts → Tally → Tally
fold_slice now slice [] t = record t { discarded = true }
fold_slice now slice (v ∷ vs) t =
    let answered = keep (has_verdict (v ∷ vs)) slice in
    let bad = length (keep (is_dead (v ∷ vs)) answered) in
    let reported = report_all now (v ∷ vs) answered t.world in
    if length answered == 0
    then record t { advanced = t.advanced + length slice }
    else if is_bad_batch (length answered) bad
    then record t { discarded = true }
    else record t {
      world = bump_scanned (length answered) reported;
      checked = t.checked + length answered;
      failed_count = t.failed_count + bad;
      advanced = t.advanced + length slice;
    }

unfoldable pub fold_slices : Round → List (List ProbeTarget) → Tally → Tally
fold_slices r [] t = t
fold_slices r (slice ∷ slices) t =
    fold_slices r slices (fold_slice r.now slice (verdicts_of (r.reply (length slices) slice)) t)

-- The variables of the loop over the rounds.
pub record Sweep : Type 0 where
  pub world : World
  pub checked : ℕ
  pub failed_count : ℕ
  pub discarded : Bool
  pub cursor : ℕ

-- `setSweepCursor`
abbrev pub save_cursor : ℕ → World → World
save_cursor n w = if w.full || not w.in_browser then w else record w { sweep_cursor = n }

-- A round's outcome, and whether the loop goes on.
unfoldable pub sweep_round : List ProbeTarget → Round → Sweep → Sweep × Bool
sweep_round channels r s =
    let slices = slices_from channels s.cursor sweep_parallel [] in
    let start : Tally = record {
      world = s.world;
      checked = s.checked;
      failed_count = s.failed_count;
      discarded = s.discarded;
      advanced = 0;
    } in
    let t = fold_slices r slices start in
    let cursor = (s.cursor + t.advanced) % length channels in
    if length slices == 0
    then (s, false)
    else if t.advanced == 0
    then (
      record {
        world = t.world;
        checked = t.checked;
        failed_count = t.failed_count;
        discarded = t.discarded;
        cursor = s.cursor;
      },
      false,
    )
    else (
      record {
        world = save_cursor cursor t.world;
        checked = t.checked;
        failed_count = t.failed_count;
        discarded = t.discarded;
        cursor = cursor;
      },
      true,
    )

-- At most one round for each element of the list.
unfoldable pub sweep_rounds : List ProbeTarget → List Round → Sweep → Sweep
sweep_rounds channels [] s = s
sweep_rounds channels (r ∷ rs) s =
    let (s', more) = sweep_round channels r s in
    let rest = sweep_rounds channels rs s' in if more then rest else s'

pub record SweepResult : Type 0 where
  pub checked : ℕ
  pub failed_count : ℕ
  pub restored : ℕ
  pub discarded : Bool
  pub cursor : ℕ
  pub total : ℕ

abbrev pub contains : List Text → Text → Bool
contains ids id = any (λ j. text_eq j id) ids

-- The variables before the first round.
abbrev pub sweep_start : ℕ → World → Sweep
sweep_start total w = record {
  world = w;
  checked = 0;
  failed_count = 0;
  discarded = false;
  cursor = (if w.in_browser then w.sweep_cursor else 0) % total;
}

-- `sweepNextBatch`, with the times at which it reads the hidden channels first and last.
unfoldable pub sweep_next_batch :
    ℕ → ℕ → List ProbeTarget → List Round → World → SweepResult × World
sweep_next_batch before_at after_at channels rounds w =
    let total = length channels in
    let (before, w₁) = hidden_ids before_at none w in
    let s = sweep_rounds channels rounds (sweep_start total w₁) in
    let (after, w₂) = hidden_ids after_at none s.world in
    if total == 0
    then (
      record {
        checked = 0;
        failed_count = 0;
        restored = 0;
        discarded = false;
        cursor = 0;
        total = 0;
      },
      w,
    )
    else (
      record {
        checked = s.checked;
        failed_count = s.failed_count;
        restored = length (keep (λ id. not (contains after id)) before);
        discarded = s.discarded;
        cursor = s.cursor;
        total = total;
      },
      w₂,
    )

pub record ProbeResult : Type 0 where
  pub checked : ℕ
  pub restored : ℕ

abbrev probe_cooldown_ms : ℕ
probe_cooldown_ms = 1_800_000

-- `Date.now() - lastProbeAt() > PROBE_COOLDOWN_MS`
unfoldable pub probe_due : ℕ → World → Bool
probe_due now w = ltb probe_cooldown_ms (now - (if w.in_browser then w.last_probe_at else 0))

-- The workers' loop: the targets that answered are restored, in the order of the answers.
unfoldable pub restore_alive : ℕ → (ProbeTarget → Bool) → List ProbeTarget → World → World
restore_alive now alive [] w = w
restore_alive now alive (t ∷ ts) w =
    restore_alive now alive ts (if alive t then restore now t.id w else w)

-- `probeHidden`; the answers of the network are given, and the time stands still.
unfoldable pub probe_hidden :
    ℕ → Bool → ℕ → (ProbeTarget → Bool) → List ProbeTarget → World → ProbeResult × World
probe_hidden now force limit alive channels w =
    let (hidden, w₁) = hidden_ids now none w in
    let targets =
      take limit (keep (λ c. contains hidden c.id && not (is_empty c.stream_url)) channels) in
    let w₂ = if w₁.full || not w₁.in_browser then w₁ else record w₁ { last_probe_at = now } in
    if not force && not (probe_due now w) then (record { checked = 0; restored = 0 }, w) else (
      record { checked = length targets; restored = length (keep alive targets) },
      restore_alive now alive targets w₂,
    )
