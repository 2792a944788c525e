-- ===== src/Epg/Scan.antt =====
-- `readProgramme`, `iterProgrammes` and `indexProgrammes` of epg.ts.
use pytone_digital.Prelude.{
  ℕ, ◌+◌, ◌*◌, true, false, ◌||◌, Option, none, some, List, [], ◌∷◌, ◌++◌, foldl, ltb,
  if◌then◌else◌,
}
use pytone_digital.Epg.Elements.{Tag, loop_elements}
use pytone_digital.Prelude.Chain.{◌>>=◌}
use pytone_digital.Text.{Text, codes, text_eq, is_empty, trim, ascii_lower}
use pytone_digital.Text.Search.{Element, next_element}
use pytone_digital.Dictionary.{lookup, insert}
use pytone_digital.Epg.{Programme}
use pytone_digital.Epg.Stamp.{parse_xmltv_date}
use pytone_digital.Epg.Entities.{decode_entities, unwrap_cdata}
use pytone_digital.Epg.Attributes.{scan_attributes}

-- The variables that the loop over the attributes sets.
pub record Head : Type 0 where
  pub channel_id : Text
  pub start : Text
  pub stop : Text
  pub catchup_id : Text

abbrev pub no_head : Head
no_head = record { channel_id = []; start = []; stop = []; catchup_id = [] }

unfoldable pub set_head : Head → Text × Text → Head
set_head h (key, v) =
    let k = ascii_lower key in
    if text_eq k (codes "channel")
    then record h { channel_id = v }
    else if text_eq k (codes "start")
    then record h { start = v }
    else if text_eq k (codes "stop")
    then record h { stop = v }
    else if text_eq k (codes "catchup-id")
    then record h { catchup_id = v }
    else h

unfoldable pub read_head : Text → Head
unfolding set_head
read_head attributes = foldl set_head no_head (scan_attributes attributes)

-- The decoded and trimmed contents of the first element of a kind; the outer `none` is an error
-- that is thrown.
abbrev shown_text : Text → Option Text
shown_text s = do decoded ← decode_entities (unwrap_cdata s); some (trim decoded)

unfoldable pub decoded_inner : Option Element → Option (Option Text)
decoded_inner none = some none
decoded_inner (some e) = do text ← shown_text e.inner; some (some text)

abbrev or_blank : Option Text → Text
or_blank none = []
or_blank (some s) = s

abbrev or_half_hour : ℕ → Option ℕ → ℕ
or_half_hour start none = start + 30 * 60000
or_half_hour start (some stop) = stop

-- What `read_programme` answers once the start is known.
unfoldable pub read_at : Head → ℕ → Text → Option (Option Programme)
unfolding decoded_inner
read_at h start inner = do
  title ← decoded_inner (next_element false (codes "<title") (codes "</title>") inner)
  description ← decoded_inner (next_element false (codes "<desc") (codes "</desc>") inner)
  some (
      if is_empty (or_blank title)
      then none
      else some (record {
        channel_id = h.channel_id;
        start = start;
        stop = or_half_hour start (parse_xmltv_date h.stop);
        title = or_blank title;
        description = description;
        catchup_id = if is_empty h.catchup_id then none else some h.catchup_id;
      }))

abbrev read_from : Head → Text → Option ℕ → Option (Option Programme)
read_from h inner none = some none
read_from h inner (some start) = read_at h start inner

-- `none` when it throws, `some none` when it answers null.
unfoldable pub read_programme : Text → Text → Option (Option Programme)
unfolding read_head read_at
read_programme attributes inner =
    let h = read_head attributes in
    if is_empty h.channel_id || is_empty h.start
    then some none
    else read_from h inner (parse_xmltv_date h.start)

abbrev pub programme_tag : Tag
programme_tag = record { bounded = true; open_ = codes "<programme"; close = codes "</programme>" }

-- All that the generator yields; `none` when it throws.
unfoldable pub iter_programmes : Text → Option (List Programme)
unfolding loop_elements read_programme
iter_programmes xml = loop_elements programme_tag (λ e. read_programme e.attributes e.inner) xml

-- A stable sort by `a.start - b.start`: a programme goes behind those that start earlier, and in
-- front of the others.
unfoldable pub insert_by_start : Programme → List Programme → List Programme
insert_by_start p [] = p ∷ []
insert_by_start p (q ∷ qs) =
    let rest = insert_by_start p qs in if ltb q.start p.start then q ∷ rest else p ∷ q ∷ qs

unfoldable pub sort_by_start : List Programme → List Programme
unfolding insert_by_start
sort_by_start [] = []
sort_by_start (p ∷ ps) = insert_by_start p (sort_by_start ps)

abbrev pub Guide : Type 0
Guide = List (Text × List Programme)

abbrev pub or_nothing : Option (List Programme) → List Programme
or_nothing none = []
or_nothing (some ps) = ps

-- `out.get(id)` and the push, or `out.set` with a new list.
unfoldable pub push_programme : Guide → Programme → Guide
push_programme out p = insert p.channel_id (or_nothing (lookup p.channel_id out) ++ p ∷ []) out

unfoldable pub group_programmes : Guide → List Programme → Guide
unfolding push_programme
group_programmes out ps = foldl push_programme out ps

unfoldable pub sort_guide : Guide → Guide
unfolding sort_by_start
sort_guide [] = []
sort_guide ((id, ps) ∷ out) = (id, sort_by_start ps) ∷ sort_guide out

-- The guide by channel; `none` when a programme makes the parser throw.
unfoldable pub index_programmes : Text → Option Guide
unfolding iter_programmes group_programmes sort_guide
index_programmes xml = do ps ← iter_programmes xml; some (sort_guide (group_programmes [] ps))
