-- ===== src/Catchup/Distinct.antt =====
-- The addresses that the player tries for an archive.
use pytone_digital.Prelude.{
  ℕ, ◌≡◌, refl, sym, ap, ◌∙◌, subst, inl, inr, Bool, true, false, not, ◌&&◌, ◌||◌, Option, none,
  some, List, [], ◌∷◌, ◌++◌, foldl, arith, if◌then◌else◌, Bool-cases, any, All, All-append,
}
use mathlib.Core.List.{append_assoc, append-nil}
use pytone_digital.Text.{Text, codes, text_eq, is_empty}
use pytone_digital.Catchup.{CatchupRequest, Platform}
use pytone_digital.Catchup.Template.{expand_template}
use pytone_digital.Catchup.Panels.{
  XtreamParts, FlussonicParts, parse_xtream_live_url, parse_flussonic_live_url,
  build_xtream_candidates, build_flussonic_candidates,
}
use pytone_digital.Catchup.Build.{
  has_path_placeholder, path_placeholder_from, or_blank, push, push_template, push_xtream,
  push_flussonic, collect_all_candidates, playable, build_catchup_url,
}

-- No address comes twice, and none is empty.
abbrev pub IsDistinct : List Text → Type 0
IsDistinct [] = Unit
IsDistinct (u ∷ us) = (is_empty u ≡ false) × All (λ v. text_eq u v ≡ false) us × IsDistinct us

IsDistinct-append :
    (us : List Text) (u : Text)
    → IsDistinct us
    → is_empty u ≡ false
    → any (λ c. text_eq c u) us ≡ false
    → IsDistinct (us ++ u ∷ [])
IsDistinct-append [] u h e n = (e, tt, tt)
IsDistinct-append (v ∷ us) u (f, a, h) e n = (
  f,
  All-append (λ w. text_eq v w ≡ false) us (u ∷ []) a (ground arith, tt),
  IsDistinct-append us u h e (ground arith),
)

push-IsDistinct : (us : List Text) (u : Text) → IsDistinct us → IsDistinct (push us u)
unfolding push
push-IsDistinct us u h = elim (Bool-cases (is_empty u || any (λ c. text_eq c u) us)) [
  | inl e ↦ rw e h
  | inr e ↦ rw e (IsDistinct-append us u h (ground arith) (ground arith))
]

foldl-push-IsDistinct : (vs us : List Text) → IsDistinct us → IsDistinct (foldl push us vs)
foldl-push-IsDistinct [] us h = h
foldl-push-IsDistinct (v ∷ vs) us h = foldl-push-IsDistinct vs (push us v) (push-IsDistinct us v h)

-- A list is kept in front, and what is pushed comes behind.
abbrev Extends : List Text → List Text → Type 0
Extends us ws = (vs : List Text) × (ws ≡ us ++ vs)

Extends-trans : (us vs ws : List Text) → Extends us vs → Extends vs ws → Extends us ws
Extends-trans us vs ws (a, p) (b, q) = (a ++ b, q ∙ ap (λ l. l ++ b) p ∙ append_assoc us a b)

push-Extends : (us : List Text) (u : Text) → Extends us (push us u)
unfolding push
push-Extends us u = elim (Bool-cases (is_empty u || any (λ c. text_eq c u) us)) [
  | inl e ↦ rw e ([], sym (append-nil us))
  | inr e ↦ rw e (u ∷ [], refl)
]

foldl-push-Extends : (vs us : List Text) → Extends us (foldl push us vs)
foldl-push-Extends [] us = ([], sym (append-nil us))
foldl-push-Extends (v ∷ vs) us =
    Extends-trans us (push us v) (foldl push us (v ∷ vs)) (push-Extends us v)
      (foldl-push-Extends vs (push us v))

placeholder-not_empty : (t : Text) → has_path_placeholder t ≡ true → is_empty t ≡ false
unfolding path_placeholder_from
placeholder-not_empty [] h = cc
placeholder-not_empty (c ∷ t) h = refl

push-first :
    (t u : Text)
    → has_path_placeholder t ≡ true
    → is_empty u ≡ false
    → (if not (is_empty t) && has_path_placeholder t then push [] u else []) ≡ u ∷ []
unfolding push
push-first t u path full = rw (placeholder-not_empty t path, path, full) refl

-- Both, for a step of the collection.
abbrev Grows : List Text → List Text → Type 0
Grows us ws = (IsDistinct us → IsDistinct ws) × Extends us ws

Grows-trans : (us vs ws : List Text) → Grows us vs → Grows vs ws → Grows us ws
Grows-trans us vs ws (f, p) (g, q) = (λ h. g (f h), Extends-trans us vs ws p q)

Grows-same : (us : List Text) → Grows us us
Grows-same us = (λ h. h, ([], sym (append-nil us)))

foldl-push-Grows : (vs us : List Text) → Grows us (foldl push us vs)
foldl-push-Grows vs us = (λ h. foldl-push-IsDistinct vs us h, foldl-push-Extends vs us)

module _ {N : Type 0} (pf : Platform N) (now : ℕ) (req : CatchupRequest N) where
  push_template-Grows :
      (wanted : Bool) (us : List Text) → Grows us (push_template pf wanted now req us)
  push_template-Grows wanted us =
      elim (Bool-cases (not (is_empty (or_blank req.channel.catchup_source)) && wanted)) [
        | inl e ↦ rw e (λ h. push-IsDistinct us _ h, push-Extends us _)
        | inr e ↦ rw e (Grows-same us)
      ]

  push_xtream-Grows :
      (us : List Text) (o : Option XtreamParts) → Grows us (push_xtream pf now req us o)
  push_xtream-Grows us none = Grows-same us
  push_xtream-Grows us (some p) = foldl-push-Grows (build_xtream_candidates pf now req p) us

  push_flussonic-Grows :
      (us : List Text) (o : Option FlussonicParts) → Grows us (push_flussonic pf now req us o)
  push_flussonic-Grows us none = Grows-same us
  push_flussonic-Grows us (some p) = foldl-push-Grows (build_flussonic_candidates pf now req p) us

  -- All that is collected comes behind what the template of the playlist gives, when it is first.
  collect_all_candidates-Grows :
      Grows
        (push_template pf (has_path_placeholder (or_blank req.channel.catchup_source)) now req [])
        (collect_all_candidates pf now req)
  unfolding collect_all_candidates
  collect_all_candidates-Grows =
      let live = req.channel.stream_url in
      let first =
        push_template pf (has_path_placeholder (or_blank req.channel.catchup_source)) now req [] in
      let panels = push_xtream pf now req first (parse_xtream_live_url pf live) in
      let servers = push_flussonic pf now req panels (parse_flussonic_live_url pf live) in
      Grows-trans first panels _ (push_xtream-Grows first (parse_xtream_live_url pf live)) (
        Grows-trans panels servers _
          (push_flussonic-Grows panels (parse_flussonic_live_url pf live))
          (push_template-Grows true servers))

  collect_all_candidates-IsDistinct : IsDistinct (collect_all_candidates pf now req)
  collect_all_candidates-IsDistinct =
      collect_all_candidates-Grows.0
        ((push_template-Grows (has_path_placeholder (or_blank req.channel.catchup_source)) []).0 tt)

  -- The same with the test of the code.
  pub build_catchup_url-template :
      (template : Text)
      → req.channel.catchup_source ≡ some template
      → has_path_placeholder template ≡ true
      → is_empty (expand_template pf now template req) ≡ false
      → text_eq (pf.to_lower (or_blank req.channel.catchup_kind)) (codes "vod") ≡ false
      → (us : List Text) × (build_catchup_url pf now req
          ≡ playable (expand_template pf now template req) us)
        × IsDistinct (expand_template pf now template req ∷ us)
  unfolding build_catchup_url
  build_catchup_url-template template source path full kind = found collect_all_candidates-Grows.1
    where
      first :
          push_template pf (has_path_placeholder (or_blank req.channel.catchup_source)) now req []
          ≡ expand_template pf now template req ∷ []
      first =
          ap
            (λ t.
              if not (is_empty t) && has_path_placeholder t
              then push [] (expand_template pf now t req)
              else [])
            (ap or_blank source)
          ∙ push-first template (expand_template pf now template req) path full

      found :
          Extends
            (push_template pf
              (has_path_placeholder (or_blank req.channel.catchup_source))
              now
              req
              [])
            (collect_all_candidates pf now req)
          → (us : List Text) × (build_catchup_url pf now req
              ≡ playable (expand_template pf now template req) us)
            × IsDistinct (expand_template pf now template req ∷ us)
      found (us, e) =
          let all : collect_all_candidates pf now req ≡ expand_template pf now template req ∷ us =
            e ∙ ap (λ l. l ++ us) first in
          (us, rw (kind, all) refl, subst IsDistinct all collect_all_candidates-IsDistinct)
