-- ===== src/Epg/Now.antt =====
-- epgCache.ts: which programmes a channel gets, and what is on now and next.
use pytone_digital.Prelude.{
  ℕ, ◌-◌, Bool, ◌&&◌, Option, none, some, List, [], ◌∷◌, ◌++◌, map, foldl, ltb, leb, if◌then◌else◌,
  get_elem?,
}
use pytone_digital.Text.{Text, text_eq, is_empty}
use pytone_digital.Text.Decimal.{show}
use pytone_digital.Dictionary.{lookup}
use pytone_digital.M3u.{Channel}
use pytone_digital.Epg.{Programme, epoch}
use pytone_digital.Epg.Names.{NameIndex, normalise_channel_name, strip_quality_tags}
use pytone_digital.Epg.Scan.{Guide, or_nothing}

pub record EpgIndex : Type 0 where
  pub by_id : Guide
  pub by_name : NameIndex

-- `idx.byId.get(tvgId || '') ?? idx.byId.get(id)`: an empty list is found too.
abbrev pub tvg_key : Option Text → Text
tvg_key none = []
tvg_key (some id) = id

abbrev pub or_get {ℓ} : {A : Type ℓ} → Option A → Option A → Option A
or_get none b = b
or_get (some a) b = some a

unfoldable pub direct_programmes : {N : Type 0} → Guide → Channel N → Option (List Programme)
direct_programmes by_id ch = or_get (lookup (tvg_key ch.tvg_id) by_id) (lookup ch.id by_id)

-- `if (cid)`, and the programmes of that id.
abbrev pub through : Guide → Option Text → List Programme
through by_id none = []
through by_id (some cid) = if is_empty cid then [] else or_nothing (lookup cid by_id)

-- The programmes of a channel id that a name stands for.
unfoldable pub by_name_programmes : EpgIndex → Text → List Programme
by_name_programmes idx name = through idx.by_id (lookup name idx.by_name)

-- The first list that is not empty; the last one otherwise.
abbrev pub or_list : List Programme → List Programme → List Programme
or_list [] later = later
or_list (p ∷ ps) later = p ∷ ps

module _ (lower : Text → Text) (in_name : ℕ → Bool) where
  unfoldable pub programmes_for : {N : Type 0} → EpgIndex → Channel N → List Programme
  unfolding direct_programmes by_name_programmes
  programmes_for idx ch =
      let norm = normalise_channel_name lower in_name ch.name in
      let stripped = strip_quality_tags norm in
      let by_stripped = if text_eq stripped norm then [] else by_name_programmes idx stripped in
      let by_name =
        if is_empty norm then [] else or_list (by_name_programmes idx norm) by_stripped in
      or_list (or_nothing (direct_programmes idx.by_id ch)) by_name

pub record NowNext : Type 0 where
  pub now : Option Programme
  pub next1 : Option Programme
  pub next2 : Option Programme

-- The body of the loop: `current` and `upcoming`.
unfoldable pub sort_out :
    ℕ → Option Programme × List Programme → Programme → Option Programme × List Programme
sort_out now (current, upcoming) p =
    if leb p.start now && ltb now p.stop
    then (some p, upcoming)
    else if ltb now p.start
    then (current, upcoming ++ p ∷ [])
    else (current, upcoming)

unfoldable pub pick_now_next : List Programme → ℕ → NowNext
unfolding sort_out
pick_now_next ps now =
    let (current, upcoming) = foldl (sort_out now) (none, []) ps in
    record { now = current; next1 = get_elem? upcoming 0; next2 = get_elem? upcoming 1 }

-- The `Programme` of the player: `catchupAvailable` is always true.
pub record Shown : Type 0 where
  pub id : Text
  pub title : Text
  pub start : ℕ
  pub stop : ℕ
  pub description : Option Text
  pub catchup_id : Option Text

-- `String` of a time as JavaScript counts it.
unfoldable pub show_time : ℕ → Text
show_time t = if ltb t epoch then b'-' ∷ show (epoch - t) else show (t - epoch)

unfoldable pub to_programme : Programme → Shown
unfolding show_time
to_programme p = record {
  id = p.channel_id ++ b'-' ∷ show_time p.start;
  title = p.title;
  start = p.start;
  stop = p.stop;
  description = p.description;
  catchup_id = p.catchup_id;
}

-- A channel with what is on, or the channel as it was.
pub data Hydrated (N : Type 0) : Type 0 where
  unchanged : Channel N → Hydrated N
  on_air : Channel N → Option Shown → Option Shown → Option Shown → Hydrated N

abbrev shown : Option Programme → Option Shown
shown none = none
shown (some p) = some (to_programme p)

abbrev on_channel : {N : Type 0} → ℕ → Channel N → List Programme → Hydrated N
on_channel now ch [] = unchanged ch
on_channel now ch (p ∷ ps) =
    let picked = pick_now_next (p ∷ ps) now in
    on_air ch (shown picked.now) (shown picked.next1) (shown picked.next2)

module _ (lower : Text → Text) (in_name : ℕ → Bool) where
  unfoldable pub hydrate_channels :
      {N : Type 0} → ℕ → List (Channel N) → EpgIndex → List (Hydrated N)
  unfolding to_programme pick_now_next
  hydrate_channels now chs idx =
      map (λ ch. on_channel now ch (programmes_for lower in_name idx ch)) chs
