-- ===== src/Probe/Evidence.antt =====
-- What the verdict on a channel rests on.
use pytone_digital.Prelude.{
  ℕ, ◌+◌, ◌≡◌, refl, inl, inr, Bool, true, false, not, ◌&&◌, Option, none, some, leb, if◌then◌else◌,
  Bool-cases,
}
use pytone_digital.Text.{Text}
use pytone_digital.Runtime.{Js}
use pytone_digital.Ssrf.{Url}
use pytone_digital.Ssrf.Guard.{Check, safe, validate_upstream_url}
use pytone_digital.Ssrf.Guard
use pytone_digital.Probe.{Item}
use pytone_digital.Probe.Head.{
  FetchOutcome, ok, refused, unknown, looks_like_manifest, pick_media_uri, is_playlist_url,
}
use pytone_digital.Probe.One.{
  request, Process, Reply, answered, fetching, no_verdict, segment_verdict, after_segment,
  probe_one, on_segment, to_segment, on_variant, follow_variant, after_variant, on_top, follow_top,
  after_top,
}

-- An answer that a server gave, and that serves something.
abbrev pub IsServed : FetchOutcome → Type 0
IsServed o = (code : ℕ) × (text : Text) × (o ≡ ok code text)

module _ (js : Js) (parse_url : Text → Option Url) where
  -- A URL that the guard has passed.
  abbrev pub IsPassed : Text → Type 0
  IsPassed url =
      (target : Text) × (u : Url) × (validate_upstream_url js parse_url target ≡ safe u)
      × (url ≡ u.href)

  -- At each request of the process: its URL is one that the guard has passed, no answer ends it
  -- without a verdict, and a good verdict is given only upon an answer that serves something.
  abbrev pub IsSound : Process → Type 0
  IsSound (answered v status) = Unit
  IsSound (fetching r go) =
      IsPassed r.url
      × ((late : Bool) (used : ℕ)
          → go (record { outcome = unknown; late = late; used = used }) ≡ no_verdict)
      × ((q : Reply) (status : Option ℕ) → go q ≡ answered (some true) status → IsServed q.outcome)
      × ((q : Reply) → IsSound (go q))

  segment_verdict-IsSound : (o : FetchOutcome) → IsSound (segment_verdict o)
  segment_verdict-IsSound unknown = tt
  segment_verdict-IsSound (refused status) = tt
  segment_verdict-IsSound (ok status text) = tt

  module _ (item : Item) where
    segment_verdict-IsServed :
        (o : FetchOutcome) (status : Option ℕ)
        → segment_verdict o ≡ answered (some true) status
        → IsServed o
    segment_verdict-IsServed unknown status h = cc
    segment_verdict-IsServed (refused code) status h = cc
    segment_verdict-IsServed (ok code text) status h = (code, text, refl)

    after_segment-IsServed :
        (url : Text) (late : Bool) (used : ℕ) (o : FetchOutcome) (status : Option ℕ)
        → after_segment item url late used o ≡ answered (some true) status
        → IsServed o
    after_segment-IsServed url late used unknown status h = cc
    after_segment-IsServed url late used (ok code text) status h = (code, text, refl)
    after_segment-IsServed url late used (refused code) status h =
        elim (Bool-cases (not late && leb (used + 2) 42)) [
          | inl e ↦ let k = rw e at h in cc
          | inr e ↦ let k = rw e at h in cc
        ]

    after_segment-IsSound :
        (url : Text) (late : Bool) (used : ℕ) (o : FetchOutcome)
        → IsPassed url
        → IsSound (after_segment item url late used o)
    unfolding request
    after_segment-IsSound url late used unknown p = tt
    after_segment-IsSound url late used (ok code text) p = tt
    after_segment-IsSound url late used (refused code) p =
        elim (Bool-cases (not late && leb (used + 2) 42)) [
          | inl e ↦ rw e (
            p,
            λ late used. refl,
            λ q status h. segment_verdict-IsServed q.outcome status h,
            λ q. segment_verdict-IsSound q.outcome,
          )
          | inr e ↦ rw e tt
        ]

  module _ (resolve : Text → Text → Option Text) (item : Item) where
    on_segment-IsSound :
        (target : Text) (c : Check)
        → validate_upstream_url js parse_url target ≡ c
        → IsSound (on_segment js parse_url resolve item c)
    unfolding request
    on_segment-IsSound target (Guard.refused why) e = tt
    on_segment-IsSound target (safe u) e = (
      (target, u, e, refl),
      λ late used. refl,
      λ q status h. after_segment-IsServed item u.href q.late q.used q.outcome status h,
      λ q. after_segment-IsSound item u.href q.late q.used q.outcome (target, u, e, refl),
    )

    to_segment-IsSound :
        (late : Bool) (url : Text) → IsSound (to_segment js parse_url resolve item late url)
    to_segment-IsSound true url = tt
    to_segment-IsSound false url =
        on_segment-IsSound url (validate_upstream_url js parse_url url) refl

    follow_variant-IsSound :
        (late : Bool) (status : ℕ) (o : Option Text)
        → IsSound (follow_variant js parse_url resolve item late status o)
    follow_variant-IsSound late status none = tt
    follow_variant-IsSound late status (some url) = to_segment-IsSound late url

    after_variant-IsSound :
        (base : Text) (late : Bool) (o : FetchOutcome)
        → IsSound (after_variant js parse_url resolve item base late o)
    after_variant-IsSound base late unknown = tt
    after_variant-IsSound base late (refused status) = tt
    after_variant-IsSound base late (ok status text) =
        elim (Bool-cases (looks_like_manifest text)) [
          | inl e ↦ rw e (follow_variant-IsSound late status (pick_media_uri resolve text base))
          | inr e ↦ rw e tt
        ]

    after_variant-IsServed :
        (base : Text) (late : Bool) (o : FetchOutcome) (status : Option ℕ)
        → after_variant js parse_url resolve item base late o ≡ answered (some true) status
        → IsServed o
    after_variant-IsServed base late unknown status h = cc
    after_variant-IsServed base late (refused code) status h = cc
    after_variant-IsServed base late (ok code text) status h = (code, text, refl)

    on_variant-IsSound :
        (target : Text) (c : Check)
        → validate_upstream_url js parse_url target ≡ c
        → IsSound (on_variant js parse_url resolve item c)
    unfolding request
    on_variant-IsSound target (Guard.refused why) e = tt
    on_variant-IsSound target (safe u) e = (
      (target, u, e, refl),
      λ late used. refl,
      λ q status h. after_variant-IsServed u.href q.late q.outcome status h,
      λ q. after_variant-IsSound u.href q.late q.outcome,
    )

    playlist-IsSound :
        (late : Bool) (url : Text)
        → IsSound (
            if late
            then no_verdict
            else on_variant js parse_url resolve item (validate_upstream_url js parse_url url))
    playlist-IsSound true url = tt
    playlist-IsSound false url =
        on_variant-IsSound url (validate_upstream_url js parse_url url) refl

    follow_top-IsSound :
        (late : Bool) (status : ℕ) (o : Option Text)
        → IsSound (follow_top js parse_url resolve item late status o)
    follow_top-IsSound late status none = tt
    follow_top-IsSound late status (some url) = elim (Bool-cases (is_playlist_url url)) [
      | inl e ↦ rw e (playlist-IsSound late url)
      | inr e ↦ rw e (to_segment-IsSound late url)
    ]

    after_top-IsSound :
        (base : Text) (late : Bool) (o : FetchOutcome)
        → IsSound (after_top js parse_url resolve item base late o)
    after_top-IsSound base late unknown = tt
    after_top-IsSound base late (refused status) = tt
    after_top-IsSound base late (ok status text) = elim (Bool-cases (looks_like_manifest text)) [
      | inl e ↦ rw e (follow_top-IsSound late status (pick_media_uri resolve text base))
      | inr e ↦ rw e tt
    ]

    after_top-IsServed :
        (base : Text) (late : Bool) (o : FetchOutcome) (status : Option ℕ)
        → after_top js parse_url resolve item base late o ≡ answered (some true) status
        → IsServed o
    after_top-IsServed base late unknown status h = cc
    after_top-IsServed base late (refused code) status h = cc
    after_top-IsServed base late (ok code text) status h = (code, text, refl)

    on_top-IsSound :
        (c : Check)
        → validate_upstream_url js parse_url item.url ≡ c
        → IsSound (on_top js parse_url resolve item c)
    unfolding request
    on_top-IsSound (Guard.refused why) e = tt
    on_top-IsSound (safe u) e = (
      (item.url, u, e, refl),
      λ late used. refl,
      λ q status h. after_top-IsServed u.href q.late q.outcome status h,
      λ q. after_top-IsSound u.href q.late q.outcome,
    )

    -- The probe of a channel, through all that its requests can meet: it requests only URLs that
    -- the guard has passed, a request that gets no answer ends it without a verdict, and the
    -- verdict that the channel is alive is given only upon a request that was served.
    pub probe_one-IsSound : IsSound (probe_one js parse_url resolve item)
    unfolding probe_one
    probe_one-IsSound = on_top-IsSound (validate_upstream_url js parse_url item.url) refl
