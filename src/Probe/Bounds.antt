-- ===== src/Probe/Bounds.antt =====
-- The budget of a batch: how much the workers together can put on it.
use pytone_digital.Prelude.{
  ℕ, zero, suc, ◌+◌, ◌≤◌, ◌⊎◌, inl, inr, Bool, true, false, not, ◌&&◌, Option, none, some, arith,
  leb, if◌then◌else◌, Bool-cases,
}
use pytone_digital.Text.{Text}
use pytone_digital.Ssrf.Guard.{Check, safe}
use pytone_digital.Ssrf.Guard
use pytone_digital.Runtime.{Js}
use pytone_digital.Ssrf.{Url}
use pytone_digital.Probe.{Item}
use pytone_digital.Probe.Head.{
  FetchOutcome, ok, refused, unknown, looks_like_manifest, pick_media_uri, is_playlist_url,
}
use pytone_digital.Ssrf.Guard.{validate_upstream_url}
use pytone_digital.Probe.One.{
  no_verdict, Process, Reply, answered, fetching, segment_verdict, after_segment, probe_one,
  on_segment, to_segment, on_variant, follow_variant, after_variant, on_top, follow_top, after_top,
}

-- The process sends at most so many requests.
abbrev pub AtMost : ℕ → Process → Type 0
AtMost n (answered v status) = Unit
AtMost zero (fetching r go) = ⊥
AtMost (suc n) (fetching r go) = (q : Reply) → AtMost n (go q)

-- The same, but for one last request that is sent only while at most 40 of the budget is used.
abbrev pub Plans : ℕ → Process → Type 0
Plans n (answered v status) = Unit
Plans zero (fetching r go) = ⊥
Plans (suc n) (fetching r go) = (q : Reply) → Plans n (go q) ⊎ ((q.used ≤ 40) × AtMost 1 (go q))

Plans-AtMost : (n m : ℕ) (p : Process) → n ≤ m → AtMost n p → Plans m p
Plans-AtMost n m (answered v status) h a = tt
Plans-AtMost zero m (fetching r go) h a = absurd a
Plans-AtMost (suc n) zero (fetching r go) h a = absurd (omega arith)
Plans-AtMost (suc n) (suc m) (fetching r go) h a =
    λ q. inl (Plans-AtMost n m (go q) (omega arith) (a q))

segment_verdict-AtMost : (n : ℕ) (o : FetchOutcome) → AtMost n (segment_verdict o)
segment_verdict-AtMost n unknown = tt
segment_verdict-AtMost n (refused status) = tt
segment_verdict-AtMost n (ok status text) = tt

Retries : ℕ → Process → Type 0
Retries used p = Plans 0 p ⊎ ((used ≤ 40) × AtMost 1 p)

after_segment-Plans :
    (item : Item) (url : Text) (late : Bool) (used : ℕ) (o : FetchOutcome)
    → Retries used (after_segment item url late used o)
unfolding Retries
after_segment-Plans item url late used unknown = inl tt
after_segment-Plans item url late used (ok status text) = inl tt
after_segment-Plans item url late used (refused status) =
    elim (Bool-cases (not late && leb (used + 2) 42)) [
      | inl e ↦
          let room : used + 2 ≤ 42 = ground arith in
          rw e (inr (omega arith, λ q. segment_verdict-AtMost 0 q.outcome))
      | inr e ↦ rw e (inl tt)
    ]

Plans-more : (n m : ℕ) (p : Process) → n ≤ m → Plans n p → Plans m p
Plans-more n m (answered v status) h a = tt
Plans-more zero m (fetching r go) h a = absurd a
Plans-more (suc n) zero (fetching r go) h a = absurd (omega arith)
Plans-more (suc n) (suc m) (fetching r go) h a =
    λ q. elim (a q) [ inl b ↦ inl (Plans-more n m (go q) (omega arith) b) | inr b ↦ inr b ]

module _ (js : Js) (parse_url : Text → Option Url) (resolve : Text → Text → Option Text)
    (item : Item) where
  on_segment-Plans : (c : Check) → Plans 1 (on_segment js parse_url resolve item c)
  unfolding Retries
  on_segment-Plans (Guard.refused why) = tt
  on_segment-Plans (safe u) = λ q. after_segment-Plans item u.href q.late q.used q.outcome

  to_segment-Plans :
      (late : Bool) (url : Text) → Plans 1 (to_segment js parse_url resolve item late url)
  to_segment-Plans true url = tt
  to_segment-Plans false url = on_segment-Plans (validate_upstream_url js parse_url url)

  follow_variant-Plans :
      (late : Bool) (status : ℕ) (o : Option Text)
      → Plans 1 (follow_variant js parse_url resolve item late status o)
  follow_variant-Plans late status none = tt
  follow_variant-Plans late status (some url) = to_segment-Plans late url

  after_variant-Plans :
      (base : Text) (late : Bool) (o : FetchOutcome)
      → Plans 1 (after_variant js parse_url resolve item base late o)
  after_variant-Plans base late unknown = tt
  after_variant-Plans base late (refused status) = tt
  after_variant-Plans base late (ok status text) = elim (Bool-cases (looks_like_manifest text)) [
    | inl e ↦ rw e (follow_variant-Plans late status (pick_media_uri resolve text base))
    | inr e ↦ rw e tt
  ]

  on_variant-Plans : (c : Check) → Plans 2 (on_variant js parse_url resolve item c)
  on_variant-Plans (Guard.refused why) = tt
  on_variant-Plans (safe u) = λ q. inl (after_variant-Plans u.href q.late q.outcome)

  follow_top-Plans :
      (late : Bool) (status : ℕ) (o : Option Text)
      → Plans 2 (follow_top js parse_url resolve item late status o)
  follow_top-Plans late status none = tt
  follow_top-Plans late status (some url) = elim (Bool-cases (is_playlist_url url)) [
    | inl e ↦ rw e (playlist late)
    | inr e ↦ rw e (Plans-more 1 2 _ (omega arith) (to_segment-Plans late url))
  ]
    where
      playlist :
          (late : Bool)
          → Plans 2 (
              if late
              then no_verdict
              else on_variant js parse_url resolve item (validate_upstream_url js parse_url url))
      playlist true = tt
      playlist false = on_variant-Plans (validate_upstream_url js parse_url url)

  after_top-Plans :
      (base : Text) (late : Bool) (o : FetchOutcome)
      → Plans 2 (after_top js parse_url resolve item base late o)
  after_top-Plans base late unknown = tt
  after_top-Plans base late (refused status) = tt
  after_top-Plans base late (ok status text) = elim (Bool-cases (looks_like_manifest text)) [
    | inl e ↦ rw e (follow_top-Plans late status (pick_media_uri resolve text base))
    | inr e ↦ rw e tt
  ]

  on_top-Plans : (c : Check) → Plans 3 (on_top js parse_url resolve item c)
  on_top-Plans (Guard.refused why) = tt
  on_top-Plans (safe u) = λ q. inl (after_top-Plans u.href q.late q.outcome)

  pub probe_one-Plans : Plans 3 (probe_one js parse_url resolve item)
  unfolding probe_one
  probe_one-Plans = on_top-Plans (validate_upstream_url js parse_url item.url)
