-- ===== src/M3u/Playlist.antt =====
-- `parseM3U` of m3u.ts: the loop over the lines, its state, and the final sort.
use pytone_digital.Prelude.{
  ℕ, ◌+◌, ◌-◌, Bool, true, false, ◌||◌, Option, none, some, List, [], ◌∷◌, ◌++◌, foldl,
  if◌then◌else◌, length, drop, any,
}
use pytone_digital.Text.{
  Text, codes, text_eq, is_empty, trim, ascii_lower, starts_with, cut_at, split_lines,
}
use pytone_digital.Text.Decimal.{show}
use pytone_digital.Runtime.{Js}
use pytone_digital.M3u.{Channel, Entry, Defaults, ParseStats, or_text, or_else}
use pytone_digital.M3u.Attributes.{scan_attributes}
use pytone_digital.M3u.ExtInf.{parse_ext_inf, parse_catchup_correction, number_or_undefined}

-- The local variables of the loop. `used_ids` is a set: only membership is asked.
pub record Scan (N : Type 0) : Type 0 where
  pub pending : Option (Entry N)
  pub positional : ℕ
  pub defaults : Defaults N
  pub used_ids : List Text
  pub saw_explicit_number : Bool
  pub extinf_seen : ℕ
  pub orphan_urls : ℕ
  pub out : List (Channel N)

-- `usedIds.has(id)`
unfoldable pub has_id : List Text → Text → Bool
has_id ids id = any (λ used. text_eq used id) ids

-- The bare identity of an entry, and the one that it gets.
unfoldable pub bare_id : Option Text → ℕ → Text
bare_id tvg_id positional = or_text tvg_id (codes "ch-" ++ show positional)

unfoldable pub fresh_id : List Text → Text → ℕ → Text
unfolding has_id
fresh_id used id positional = if has_id used id then id ++ b'#' ∷ show positional else id

-- What a line is, by the tests of the loop in their order.
pub data Line : Type 0 where
  blank : Line
  header : Text → Line
  ext_inf : Text → Line
  vlc_option : Text → Line
  directive : Line
  url : Text → Line

unfoldable pub classify : Text → Line
classify raw =
    let line = trim raw in
    if is_empty line
    then blank
    else if starts_with line (codes "#EXTM3U")
    then header (drop 7 line)
    else if starts_with line (codes "#EXTINF:")
    then ext_inf line
    else if starts_with line (codes "#EXTVLCOPT:")
    then vlc_option (drop 11 line)
    else if starts_with line (codes "#")
    then directive
    else url line

module _ (js : Js) where
  -- One round of the loop over the attributes of an `#EXTM3U` line.
  unfoldable pub set_default : Defaults js.Num → Text × Text → Defaults js.Num
  set_default d (k, v) =
      let key = ascii_lower k in
      if text_eq key (codes "catchup") || text_eq key (codes "catchup-type")
      then record d { catchup_kind = some (js.to_lower v) }
      else if text_eq key (codes "catchup-source")
      then record d { catchup_source = some v }
      else if text_eq key (codes "catchup-days")
      then record d { catchup_days = number_or_undefined js v }
      else if text_eq key (codes "catchup-correction")
      then record d { catchup_correction = parse_catchup_correction js v }
      else d

  -- The option of an `#EXTVLCOPT:` line, folded into the pending entry.
  unfoldable pub set_option : Entry js.Num → Text → Text → Entry js.Num
  set_option e k v =
      if text_eq k (codes "http-user-agent")
      then record e { http_user_agent = some v }
      else if text_eq k (codes "http-referrer") || text_eq k (codes "http-referer")
      then record e { http_referrer = some v }
      else e

  unfoldable pub option_parts : Entry js.Num → Option (Text × Text) → Entry js.Num
  unfolding set_option
  option_parts e none = e
  option_parts e (some (k, v)) =
      if is_empty k then e else set_option e (ascii_lower (trim k)) (trim v)

  unfoldable pub apply_option : Option (Entry js.Num) → Text → Option (Entry js.Num)
  unfolding option_parts
  apply_option none opt = none
  apply_option (some e) opt = some (option_parts e (cut_at b'=' opt))

  unfoldable pub is_defined : Option js.Num → Bool
  is_defined none = false
  is_defined (some _) = true

  number_of_entry : Option js.Num → ℕ → js.Num
  number_of_entry none positional = js.of_nat positional
  number_of_entry (some n) positional = n

  -- The channel of a pending entry whose URL line is `line`, at the given position.
  unfoldable pub to_channel : Defaults js.Num → List Text → ℕ → Entry js.Num → Text → Channel js.Num
  unfolding number_of_entry bare_id
  to_channel d used positional e line =
      let number = number_of_entry e.tvg_chno positional in
      record {
        id = fresh_id used (bare_id e.tvg_id positional) positional;
        number = number;
        name = or_text (some e.name) (codes "Channel " ++ js.show_num number);
        logo_url = or_text e.tvg_logo [];
        category = or_text e.group (codes "Uncategorised");
        stream_url = line;
        tvg_id = e.tvg_id;
        catchup_kind = or_else e.catchup_kind d.catchup_kind;
        catchup_source = or_else e.catchup_source d.catchup_source;
        catchup_days = or_else e.catchup_days d.catchup_days;
        catchup_correction = or_else e.catchup_correction d.catchup_correction;
        http_user_agent = e.http_user_agent;
        http_referrer = e.http_referrer;
      }

  unfoldable pub take_url : Scan js.Num → Option (Entry js.Num) → Text → Scan js.Num
  unfolding is_defined
  take_url s none line = record s { orphan_urls = s.orphan_urls + 1 }
  take_url s (some e) line =
      let positional = s.positional + 1 in
      let channel = to_channel s.defaults s.used_ids positional e line in
      record s {
        pending = none;
        positional = positional;
        used_ids = channel.id ∷ s.used_ids;
        saw_explicit_number = s.saw_explicit_number || is_defined e.tvg_chno;
        out = s.out ++ channel ∷ [];
      }

  -- The body of the loop, for a line of each kind.
  unfoldable pub step : Scan js.Num → Line → Scan js.Num
  unfolding take_url
  step s blank = s
  step s (header head) = record s { defaults = foldl set_default s.defaults (scan_attributes head) }
  step s (ext_inf line) = record s {
    extinf_seen = s.extinf_seen + 1;
    pending = some (parse_ext_inf js line);
  }
  step s (vlc_option opt) = record s { pending = apply_option s.pending opt }
  step s directive = s
  step s (url line) = take_url s s.pending line

  unfoldable pub scan_lines : Scan js.Num → List Text → Scan js.Num
  scan_lines s [] = s
  scan_lines s (raw ∷ lines) = scan_lines (step s (classify raw)) lines

  abbrev pub no_defaults : Defaults js.Num
  no_defaults = record {
    catchup_kind = none;
    catchup_source = none;
    catchup_days = none;
    catchup_correction = none;
  }

  abbrev pub start : Scan js.Num
  start = record {
    pending = none;
    positional = 0;
    defaults = no_defaults;
    used_ids = [];
    saw_explicit_number = false;
    extinf_seen = 0;
    orphan_urls = 0;
    out = [];
  }

  -- A stable sort by `a.number - b.number`: an element goes behind those that are not larger.
  unfoldable pub insert_by_number : Channel js.Num → List (Channel js.Num) → List (Channel js.Num)
  insert_by_number c [] = c ∷ []
  insert_by_number c (d ∷ ds) =
      let rest = insert_by_number c ds in if js.less d.number c.number then d ∷ rest else c ∷ d ∷ ds

  unfoldable pub sort_by_number : List (Channel js.Num) → List (Channel js.Num)
  sort_by_number [] = []
  sort_by_number (c ∷ cs) = insert_by_number c (sort_by_number cs)

  -- The list that the loop leaves, sorted where the playlist gave a number.
  unfoldable pub channels_of : Scan js.Num → List (Channel js.Num)
  channels_of s = if s.saw_explicit_number then sort_by_number s.out else s.out

  -- `Math.max(0, Math.min(e, e) - n)` is the truncated difference.
  unfoldable pub stats_of : Scan js.Num → ParseStats
  stats_of s = record {
    extinf = s.extinf_seen;
    emitted = length s.out;
    dropped = s.extinf_seen - length s.out;
    orphan_urls = s.orphan_urls;
  }

  -- The channels, and what `lastParseStats` answers after the call.
  unfoldable pub parse_m3u : Text → List (Channel js.Num) × ParseStats
  unfolding channels_of stats_of
  parse_m3u text = let s = scan_lines start (split_lines text) in (channels_of s, stats_of s)
