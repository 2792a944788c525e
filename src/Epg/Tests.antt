-- ===== src/Epg/Tests.antt =====
-- Runs of the guide parser, and the theorems at inputs that meet their hypotheses.
use pytone_digital.Prelude.{
  ℕ, ◌+◌, ◌-◌, ◌*◌, ◌/◌, ◌%◌, ◌≤◌, ◌<◌, ◌≡◌, refl, none, some, List, [], ◌∷◌, ◌++◌, arith,
  get_elem?, keep, All,
}
use mathlib.Core.List.{Perm}
use pytone_digital.Dictionary.{lookup, insert}
use pytone_digital.Epg.Stamp.{date_utc}
use pytone_digital.Epg.Elements.{next_of}
use pytone_digital.Epg.Scan.{programme_tag, or_nothing, sort_by_start}
use pytone_digital.Epg.Names.{
  strip_quality_tags, index_channel_names, normalise_channel_name, iter_channels,
}
use pytone_digital.Epg.Now.{pick_now_next}
use pytone_digital.Epg.Progress.{GoesOn, iter_programmes-ends}
use pytone_digital.Epg.Order.{listed, of_channel, starting_at, IsSorted, index_programmes-lookup}
use pytone_digital.Epg.OnAir.{starting_after, IsOn, pick_now_next-times}
use pytone_digital.Epg.Stamps.{padded, stamp, parse_xmltv_date-stamp}
use pytone_digital.Text.{Text, codes, trim, ascii_lower, cut_at, starts_with, is_word}
use pytone_digital.Text.Decimal.{read_base, show}
use pytone_digital.Text.Search.{strip_prefix, cut_text, find_tag, next_element}
use pytone_digital.Dictionary.{lookup, insert}
use pytone_digital.Epg.{Programme, epoch}
use pytone_digital.Epg.Stamp.{parse_xmltv_date, days_before_year, days_before_month}
use pytone_digital.Epg.Entities.{decode_entities, unwrap_cdata, span}
use pytone_digital.Epg.Attributes.{scan_attributes}
use pytone_digital.Epg.Elements.{loop_elements}
use pytone_digital.Epg.Scan.{iter_programmes, index_programmes, read_programme}

epg : Unit {0}
unfolding parse_xmltv_date days_before_year days_before_month decode_entities unwrap_cdata span
    scan_attributes iter_programmes index_programmes read_programme loop_elements next_element
    find_tag cut_text strip_prefix lookup insert trim cut_at read_base show ascii_lower starts_with
    keep
epg = tt

-- The example of the source: nine in the evening at +0300 is six in the evening in UTC.
parse_xmltv_date_runs :
    (parse_xmltv_date (codes "20260526210000 +0300") ≡ some (epoch + 1779818400000))
    × (parse_xmltv_date (codes "19700101000000") ≡ some epoch)
    × (parse_xmltv_date (codes "20240230000000-0130") ≡ some (epoch + 1709256600000))
    × (parse_xmltv_date (codes "2026052621") ≡ none)
unfolding epg
parse_xmltv_date_runs = (refl, refl, refl, refl)

decode_entities_runs :
    (decode_entities (codes "a &amp;lt; &#65;&#x42; &quot;&#x1F600;&quot; &nbsp;&#;")
      ≡ some (codes "a &lt; AB \"" ++ 0xd83d ∷ 0xde00 ∷ codes "\" &nbsp;&#;"))
    × (decode_entities (codes "x &#1114112;") ≡ none)
    × (unwrap_cdata (codes " <![CDATA[ a ]]> b ]]> ") ≡ codes " a ]]> b ")
unfolding epg
decode_entities_runs = (refl, refl, refl)

abbrev pub guide : Text
guide =
    codes
      "<tv><channel id=\"k\"><display-name>Kan 11 HD</display-name></channel><programme channel=\"k\" start=\"20260526210000 +0300\"><title lang=\"en\">B &amp; C</title></programme><programme start=\"20260526170000 +0000\" channel=\"k\" stop=\"20260526180000 +0000\" catchup-id=\"7\"><title><![CDATA[A]]></title><desc></desc></programme><programme channel=\"m\" start=\"now\"><title>X</title></programme><programmes><programme channel=\"k\">"

abbrev at_five : Programme
at_five = record {
  channel_id = codes "k";
  start = epoch + 1779814800000;
  stop = epoch + 1779818400000;
  title = codes "A";
  description = some [];
  catchup_id = some (codes "7");
}

abbrev at_six : Programme
at_six = record {
  channel_id = codes "k";
  start = epoch + 1779818400000;
  stop = epoch + 1779820200000;
  title = codes "B & C";
  description = none;
  catchup_id = none;
}

iter_programmes_runs : iter_programmes guide ≡ some (at_six ∷ at_five ∷ [])
unfolding epg
iter_programmes_runs = refl

strip_quality_tags_runs :
    (strip_quality_tags (codes "discoveryfhdch12") ≡ codes "discovery")
    × (strip_quality_tags (codes "ten") ≡ codes "ten")
unfolding strip_quality_tags strip_prefix
strip_quality_tags_runs = (refl, refl)

index_channel_names_runs :
    index_channel_names ascii_lower (λ c. is_word c) guide
    ≡ some ((codes "kan11hd", codes "k") ∷ (codes "kan11", codes "k") ∷ [])
unfolding index_channel_names strip_quality_tags normalise_channel_name iter_channels epg
index_channel_names_runs = refl

iter_programmes-ends_example : GoesOn guide (next_of programme_tag guide)
iter_programmes-ends_example = iter_programmes-ends guide

abbrev listing : List Programme
listing = at_six ∷ at_five ∷ []

index_programmes-lookup_example :
    (g : List (Text × List Programme)) × (index_programmes guide ≡ some g)
    × ((id : Text) → lookup id g ≡ listed (sort_by_start (of_channel id listing)))
    × ((id : Text) → IsSorted (or_nothing (lookup id g)))
    × ((id : Text) → Perm (or_nothing (lookup id g)) (of_channel id listing))
    × ((id : Text) (n : ℕ)
        → starting_at n (or_nothing (lookup id g)) ≡ starting_at n (of_channel id listing))
index_programmes-lookup_example = index_programmes-lookup guide listing iter_programmes_runs

abbrev sorted_listing : List Programme
sorted_listing = at_five ∷ at_six ∷ []

pick_now_next-times_example :
    ((p : Programme)
      → (pick_now_next sorted_listing (epoch + 1779814800001)).now ≡ some p
      → IsOn (epoch + 1779814800001) p
        × All (λ q. IsOn (epoch + 1779814800001) q → q.start ≤ p.start) sorted_listing)
    × ((pick_now_next sorted_listing (epoch + 1779814800001)).now ≡ none
        → All (λ q. IsOn (epoch + 1779814800001) q → ⊥) sorted_listing)
    × ((pick_now_next sorted_listing (epoch + 1779814800001)).next1
        ≡ get_elem? (starting_after (epoch + 1779814800001) sorted_listing) 0)
    × ((pick_now_next sorted_listing (epoch + 1779814800001)).next2
        ≡ get_elem? (starting_after (epoch + 1779814800001) sorted_listing) 1)
    × ((p : Programme)
        → (pick_now_next sorted_listing (epoch + 1779814800001)).next1 ≡ some p
        → (epoch + 1779814800001 < p.start)
          × All (λ q. epoch + 1779814800001 < q.start → p.start ≤ q.start) sorted_listing)
pick_now_next-times_example =
    pick_now_next-times (epoch + 1779814800001) sorted_listing ((omega arith, tt), (tt, tt))

parse_xmltv_date-stamp_example :
    (parse_xmltv_date (stamp 2026 5 26 21 0 0 []) ≡ some (date_utc 2026 5 26 21 0 0))
    × (parse_xmltv_date (stamp 2026 5 26 21 0 0 (b' ' ∷ b'+' ∷ padded 4 300))
        ≡ some (date_utc 2026 5 26 21 0 0 - (300 / 100 * 60 + 300 % 100) * 60000))
    × (parse_xmltv_date (stamp 2026 5 26 21 0 0 (b'+' ∷ padded 4 300))
        ≡ some (date_utc 2026 5 26 21 0 0 - (300 / 100 * 60 + 300 % 100) * 60000))
    × (parse_xmltv_date (stamp 2026 5 26 21 0 0 (b' ' ∷ b'-' ∷ padded 4 300))
        ≡ some (date_utc 2026 5 26 21 0 0 + (300 / 100 * 60 + 300 % 100) * 60000))
parse_xmltv_date-stamp_example =
    parse_xmltv_date-stamp 2026 5 26 21 0 0
      (omega arith, omega arith, omega arith, omega arith, omega arith, omega arith) 300
      (omega arith)
