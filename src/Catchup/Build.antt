-- ===== src/Catchup/Build.antt =====
-- `collectAllCandidates` and `buildCatchupUrl` of catchup.ts.
use pytone_digital.Prelude.{
  ℕ, ◌+◌, ◌*◌, ◌/◌, Bool, true, false, not, ◌&&◌, ◌||◌, Option, none, some, List, [], ◌∷◌, ◌++◌,
  foldl, ◌==◌, if◌then◌else◌, any,
}
use pytone_digital.Text.{Text, codes, text_eq, is_empty}
use pytone_digital.Text.Decimal.{show}
use pytone_digital.Catchup.{CatchupRequest, Platform, corrected_start_ms}
use pytone_digital.Catchup.Template.{is_letter, expand_template}
use pytone_digital.Catchup.Panels.{
  XtreamParts, FlussonicParts, parse_xtream_live_url, parse_flussonic_live_url,
  build_xtream_candidates, build_flussonic_candidates,
}

abbrev starts_letter : Text → Bool
starts_letter [] = false
starts_letter (c ∷ _) = is_letter c

-- `/\/[^?]*\$?\{[A-Za-z]/`, where a slash with no question mark behind it was seen or not.
unfoldable pub path_placeholder_from : Bool → Text → Bool
path_placeholder_from seen [] = false
path_placeholder_from seen (c ∷ s) =
    (seen && c == b'{' && starts_letter s)
    || path_placeholder_from ((seen || c == b'/') && not (c == b'?')) s

abbrev pub has_path_placeholder : Text → Bool
has_path_placeholder s = path_placeholder_from false s

-- `push`
unfoldable pub push : List Text → Text → List Text
push candidates u =
    if is_empty u || any (λ c. text_eq c u) candidates then candidates else candidates ++ u ∷ []

-- `all.length > 0`, and the kinds with a guess of their own.
abbrev separator : Text → Text
separator live = if any (λ c. c == b'?') live then codes "&" else codes "?"

-- The address to play with its alternatives, or the reason why there is none.
pub data CatchupResult : Type 0 where
  playable : Text → List Text → CatchupResult
  unavailable : Text → CatchupResult

abbrev pub or_blank : Option Text → Text
or_blank none = []
or_blank (some s) = s

abbrev is_kind : Text → List Text → Bool
is_kind kind kinds = any (λ k. text_eq kind k) kinds

module _ {N : Type 0} (pf : Platform N) where
  -- `if (ch.catchupSource && …) push(expandTemplate(…))`; an empty template is falsy.
  abbrev pub push_template : Bool → ℕ → CatchupRequest N → List Text → List Text
  push_template wanted now req candidates =
      let template = or_blank req.channel.catchup_source in
      if not (is_empty template) && wanted
      then push candidates (expand_template pf now template req)
      else candidates

  abbrev pub push_xtream : ℕ → CatchupRequest N → List Text → Option XtreamParts → List Text
  push_xtream now req candidates none = candidates
  push_xtream now req candidates (some p) =
      foldl push candidates (build_xtream_candidates pf now req p)

  abbrev pub push_flussonic : ℕ → CatchupRequest N → List Text → Option FlussonicParts → List Text
  push_flussonic now req candidates none = candidates
  push_flussonic now req candidates (some p) =
      foldl push candidates (build_flussonic_candidates pf now req p)

  unfoldable pub collect_all_candidates : ℕ → CatchupRequest N → List Text
  unfolding push
  collect_all_candidates now req =
      let template = or_blank req.channel.catchup_source in
      let live = req.channel.stream_url in
      let first = push_template (has_path_placeholder template) now req [] in
      let panels = push_xtream now req first (parse_xtream_live_url pf live) in
      let servers = push_flussonic now req panels (parse_flussonic_live_url pf live) in
      push_template true now req servers

  -- The guesses for a kind when there is no candidate.
  unfoldable pub guess : ℕ → CatchupRequest N → Text → CatchupResult
  guess now req kind =
      let live = req.channel.stream_url in
      let utc = show (corrected_start_ms pf req / 1000) in
      let utcend = show ((corrected_start_ms pf req + req.duration_min * 60000) / 1000) in
      if is_kind kind (codes "append" ∷ codes "xc" ∷ codes "default" ∷ [])
      then playable
          (live ++ separator live ++ codes "utc=" ++ utc ++ codes "&lutc=" ++ show (now / 1000)) []
      else if is_kind kind (codes "shift" ∷ codes "flussonic" ∷ [])
      then playable (live ++ separator live ++ codes "t=" ++ utc ++ codes "&tend=" ++ utcend) []
      else if is_empty kind
      then unavailable (
          codes
            "This channel's playlist doesn't declare a catch-up archive and the live URL isn't a recognisable Xtream / Flussonic pattern. Ask your provider for a playlist with catchup / catchup-source attributes.")
      else unavailable (
          codes "Unknown catch-up kind: "
          ++ kind
          ++ codes ". The playlist would need a catchup-source URL template for this provider.")

  abbrev pub or_guess : ℕ → CatchupRequest N → Text → List Text → CatchupResult
  or_guess now req kind [] = guess now req kind
  or_guess now req kind (u ∷ us) = playable u us

  unfoldable pub build_vod : ℕ → CatchupRequest N → Text → CatchupResult
  build_vod now req template =
      if is_empty template
      then unavailable
          (codes "This channel is marked catchup=\"vod\" but ships no catchup-source URL template.")
      else playable (expand_template pf now template req) []

  unfoldable pub build_catchup_url : ℕ → CatchupRequest N → CatchupResult
  unfolding build_vod collect_all_candidates guess
  build_catchup_url now req =
      let kind = pf.to_lower (or_blank req.channel.catchup_kind) in
      if text_eq kind (codes "vod")
      then build_vod now req (or_blank req.channel.catchup_source)
      else or_guess now req kind (collect_all_candidates now req)
