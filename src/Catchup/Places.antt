-- ===== src/Catchup/Places.antt =====
-- Where a template of the playlist stands among the addresses that the player tries: in front when
-- a placeholder is in its path, and last when its placeholders are in its query.
use pytone_digital.Prelude.{
  ℕ, ◌≡◌, refl, Bool, true, false, not, ◌&&◌, ◌||◌, some, List, [], ◌∷◌, ◌++◌, arith, ◌==◌,
  if◌then◌else◌, All, ◌≢◌,
}
use pytone_digital.Text.{Text, codes, text_eq, is_empty}
use pytone_digital.Catchup.{CatchupRequest, Platform}
use pytone_digital.Catchup.Template.{is_letter, expand_template}
use pytone_digital.Catchup.Panels.{parse_xtream_live_url, parse_flussonic_live_url}
use pytone_digital.Catchup.Build.{
  has_path_placeholder, path_placeholder_from, or_blank, push, push_xtream, push_flussonic,
  playable, build_catchup_url,
}
use pytone_digital.Catchup.Distinct.{IsDistinct, build_catchup_url-template}

-- The unit stands nowhere in the text.
abbrev pub IsWithout : ℕ → Text → Type 0
IsWithout u s = All (λ c. c ≢ u) s

behind_slash :
    (m : Text) (c : ℕ) (s : Text)
    → IsWithout b'?' m
    → is_letter c ≡ true
    → path_placeholder_from true (m ++ b'{' ∷ c ∷ s) ≡ true
unfolding path_placeholder_from
behind_slash [] c s h l = rw l refl
behind_slash (d ∷ m) c s (h, k) l = ground (arith, behind_slash m c s k l)

-- A placeholder behind a slash, with no question mark before it.
in_path :
    (seen : Bool) (x m : Text) (c : ℕ) (s : Text)
    → IsWithout b'?' x
    → IsWithout b'?' m
    → is_letter c ≡ true
    → path_placeholder_from seen (x ++ b'/' ∷ (m ++ b'{' ∷ c ∷ s)) ≡ true
unfolding path_placeholder_from
in_path seen [] m c s h k l = ground (arith, behind_slash m c s k l)
in_path seen (d ∷ x) m c s (h, hs) k l =
    ground (arith, in_path ((seen || d == b'/') && not (d == b'?')) x m c s hs k l)

module _ {N : Type 0} (pf : Platform N) (now : ℕ) (req : CatchupRequest N) where
  -- A template that has a placeholder behind a slash with no question mark before it, of a channel
  -- that is not marked as vod, is what is played first, unless nothing is left of it; every other
  -- address comes behind it, and no address is empty or comes twice.
  pub build_catchup_url-path :
      (x m : Text) (c : ℕ) (s : Text)
      → req.channel.catchup_source ≡ some (x ++ b'/' ∷ (m ++ b'{' ∷ c ∷ s))
      → IsWithout b'?' x
      → IsWithout b'?' m
      → is_letter c ≡ true
      → is_empty (expand_template pf now (x ++ b'/' ∷ (m ++ b'{' ∷ c ∷ s)) req) ≡ false
      → text_eq (pf.to_lower (or_blank req.channel.catchup_kind)) (codes "vod") ≡ false
      → (us : List Text) × (build_catchup_url pf now req
          ≡ playable (expand_template pf now (x ++ b'/' ∷ (m ++ b'{' ∷ c ∷ s)) req) us)
        × IsDistinct (expand_template pf now (x ++ b'/' ∷ (m ++ b'{' ∷ c ∷ s)) req ∷ us)
  build_catchup_url-path x m c s source h k l full kind =
      build_catchup_url-template pf now req (x ++ b'/' ∷ (m ++ b'{' ∷ c ∷ s)) source
        (in_path false x m c s h k l) full kind

  -- The addresses that are built from the live address of the channel.
  unfoldable pub from_live : List Text
  from_live =
      push_flussonic pf now req
        (push_xtream pf now req [] (parse_xtream_live_url pf req.channel.stream_url))
        (parse_flussonic_live_url pf req.channel.stream_url)

  collected_from : Text → List Text
  collected_from t =
      let servers =
        push_flussonic pf now req
          (push_xtream pf now req
            (if not (is_empty t) && has_path_placeholder t
              then push [] (expand_template pf now t req)
              else [])
            (parse_xtream_live_url pf req.channel.stream_url))
          (parse_flussonic_live_url pf req.channel.stream_url) in
      if not (is_empty t) && true then push servers (expand_template pf now t req) else servers
