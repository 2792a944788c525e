-- ===== src/Digest.antt =====
-- The digest of a playlist and its guide, apps/web/src/lib/digest.ts. The times are those of the
-- guide, counted from the year 1, so that no window starts below 0.
pub mod Window
pub mod Client
pub mod Channels
mod Tests
use pytone_digital.Prelude.{
  ℕ, zero, suc, ◌+◌, ◌-◌, ◌*◌, ◌/◌, ◌%◌, ◌^◌, ◌≤◌, ◌<◌, min, max, String, ◌≡◌, refl, sym, ap, ◌∙◌,
  subst, ◌≡⟨◌⟩◌, ◌∎, ◌≢◌, ◌↔◌, ◌⊎◌, inl, inr, Bool, true, false, not, ◌&&◌, ◌||◌, Option, none,
  some, List, [], ◌∷◌, ◌++◌, map, foldl, reverse, arith, ltb, leb, ◌==◌, if◌then◌else◌, ltb→lt,
  lt→ltb, le→ltb_false, leb→le, le→leb, ==_iff, Bool-cases, Option-cases, length, get_elem?, take,
  drop, keep, any, all, length-append, length-keep-le, All, All-append, All-append_left,
  All-append_right,
}
use pytone_digital.Prelude.Chain.{◌>>=◌}
use pytone_digital.Text.{Text, codes, is_empty}
use pytone_digital.Text.Decimal.{show}
use pytone_digital.Dictionary.{lookup}
use pytone_digital.Runtime.{Js}
use pytone_digital.M3u.{Channel}
use pytone_digital.M3u.Playlist.{parse_m3u}
use pytone_digital.Epg.{Programme}
use pytone_digital.Epg.Scan.{Guide, or_nothing, index_programmes}
use pytone_digital.Epg.Names.{
  NameIndex, normalise_channel_name, strip_quality_tags, index_channel_names,
}
use pytone_digital.Epg.Now.{direct_programmes, through, or_list}

pub record DigestProgramme : Type 0 where
  pub s : ℕ
  pub e : ℕ
  pub t : Text
  pub d : Option Text
  pub c : Option Text

-- `if (p.description) item.d = …`: an empty description is left out.
abbrev non_empty : Option Text → Option Text
non_empty none = none
non_empty (some s) = if is_empty s then none else some s

unfoldable pub to_item : Programme → DigestProgramme
to_item p = record {
  s = p.start;
  e = p.stop;
  t = p.title;
  d = non_empty p.description;
  c = non_empty p.catchup_id;
}

-- The loop: programmes that ended are passed over, and the first one behind the window ends it.
unfoldable pub pick_window : ℕ → ℕ → List Programme → List DigestProgramme
unfolding to_item
pick_window from until [] = []
pick_window from until (p ∷ ps) =
    let rest = pick_window from until ps in
    if leb p.stop from then rest else if leb until p.start then [] else to_item p ∷ rest

-- `byName.get(norm) ?? byName.get(stripped)`
abbrev pub or_stripped : Option Text → Option Text → Option Text
or_stripped none later = later
or_stripped (some cid) later = some cid

pub record DigestChannel (N : Type 0) : Type 0 where
  pub channel : Channel N
  pub programmes : List DigestProgramme

pub record Meta : Type 0 where
  pub fetched_at : ℕ
  pub m3u_bytes : ℕ
  pub epg_bytes : ℕ
  pub total_channels : ℕ
  pub matched_channels : ℕ
  pub programmes : ℕ
  pub window_start_ms : ℕ
  pub window_end_ms : ℕ

pub record PlaylistDigest (N : Type 0) : Type 0 where
  pub about : Meta
  pub channels : List (DigestChannel N)

abbrev pub window_days : ℕ
window_days = 8

abbrev pub window_start : ℕ → ℕ
window_start now = now - window_days * 86400000

abbrev pub window_end : ℕ → ℕ
window_end now = now + window_days * 86400000

-- What the loop over the channels has counted, and the channels so far.
pub record Built (N : Type 0) : Type 0 where
  pub matched : ℕ
  pub total : ℕ
  pub enriched : List (DigestChannel N)

unfoldable pub count_channel : {N : Type 0} → Built N → Channel N → List DigestProgramme → Built N
count_channel b ch ps =
    let enriched = b.enriched ++ record { channel = ch; programmes = ps } ∷ [] in
    if ltb 0 (length ps)
    then record { matched = b.matched + 1; total = b.total + length ps; enriched = enriched }
    else record b { enriched = enriched }

-- `epgXml ? … : new Map()`: an empty guide counts as missing.
unfoldable pub guide_of : Option Text → Option Guide
guide_of none = some []
guide_of (some xml) = if is_empty xml then some [] else index_programmes xml

module _ (lower : Text → Text) (in_name : ℕ → Bool) where
  -- The list that is cut to the window.
  unfoldable pub matched_programmes : {N : Type 0} → Channel N → Guide → NameIndex → List Programme
  unfolding direct_programmes
  matched_programmes ch by_id by_name =
      let norm = normalise_channel_name lower in_name ch.name in
      let cid = or_stripped (lookup norm by_name) (lookup (strip_quality_tags norm) by_name) in
      let named = if is_empty norm then [] else through by_id cid in
      or_list (or_nothing (direct_programmes by_id ch)) named

  unfoldable pub pick_programmes :
      {N : Type 0} → Channel N → Guide → NameIndex → ℕ → ℕ → List DigestProgramme
  unfolding matched_programmes pick_window
  pick_programmes ch by_id by_name from until =
      pick_window from until (matched_programmes ch by_id by_name)

  unfoldable pub add_channel : {N : Type 0} → Guide → NameIndex → ℕ → Built N → Channel N → Built N
  unfolding count_channel
  add_channel by_id by_name now b ch =
      count_channel b ch (pick_programmes ch by_id by_name (window_start now) (window_end now))

  unfoldable pub names_of : Option Text → Option NameIndex
  names_of none = some []
  names_of (some xml) = if is_empty xml then some [] else index_channel_names lower in_name xml

  size_of : Option Text → ℕ
  size_of none = 0
  size_of (some xml) = length xml

  -- The digest; `none` when the guide makes the parser throw.
  unfoldable pub build_digest : (js : Js) → Text → Option Text → ℕ → Option (PlaylistDigest js.Num)
  unfolding guide_of names_of size_of add_channel
  build_digest js m3u_text epg_xml now = do
    let channels = (parse_m3u js m3u_text).0
    by_id ← guide_of epg_xml
    by_name ← names_of epg_xml
    let built =
        foldl (add_channel by_id by_name now) (record { matched = 0; total = 0; enriched = [] })
          channels
    some (record {
      about = record {
        fetched_at = now;
        m3u_bytes = length m3u_text;
        epg_bytes = size_of epg_xml;
        total_channels = length channels;
        matched_channels = built.matched;
        programmes = built.total;
        window_start_ms = window_start now;
        window_end_ms = window_end now;
      };
      channels = built.enriched;
    })
