-- ===== src/M3u/Tests.antt =====
-- Runs of the parser on small playlists, and the theorems at inputs that meet their hypotheses.
use mathlib.Core.List.{Nodup, Perm}
use pytone_digital.Text.{Text, codes, split_lines, trim, starts_with, cut_at, ascii_lower}
use pytone_digital.Text.Decimal.{show, read_base}
use pytone_digital.Runtime.{naturals}
use pytone_digital.M3u.{Channel}
use pytone_digital.M3u.Attributes.{scan_attributes}
use pytone_digital.M3u.ExtInf.{
  split_ext_inf, parse_ext_inf, set_attribute, number_or_undefined, parse_catchup_correction, named,
}
use pytone_digital.M3u.Playlist.{
  parse_m3u, scan_lines, step, classify, to_channel, fresh_id, set_default, apply_option,
  sort_by_number, insert_by_number,
}
use pytone_digital.M3u.Ids.{ids, HasPlainId, parse_m3u-distinct_ids}
use pytone_digital.M3u.{Channel}
use pytone_digital.M3u.Pairing.{
  urls, claimed, lines_of, parse_m3u-claimed, parse_m3u-stats, ext_infs, orphans,
}
use pytone_digital.M3u.Quoting.{IsAttribute, render_ext_inf, parse_ext_inf-render}
use pytone_digital.Prelude.{refl, ◌≡◌, ◌∷◌, All, false, List, foldl, [], length, arith}

parser : Unit {0}
unfolding parse_m3u scan_lines step classify to_channel fresh_id set_default apply_option
    sort_by_number insert_by_number split_ext_inf parse_ext_inf set_attribute number_or_undefined
    parse_catchup_correction scan_attributes split_lines trim starts_with cut_at ascii_lower show
    read_base
parser = tt

abbrev playlist : Text
playlist =
    codes
      "#EXTM3U\n#EXTINF:-1 tvg-id=\"a\",One\r\nhttp://x/1\n\n#EXTINF:-1 tvg-id=\"a\" tvg-chno=\"1\",Two\nhttp://x/2\nhttp://orphan\n#EXTINF:-1,\n"

parse_m3u_runs :
    (ids (parse_m3u naturals playlist).0 ≡ codes "a" ∷ codes "a#2" ∷ [])
    × ((parse_m3u naturals playlist).1
        ≡ record { extinf = 3; emitted = 2; dropped = 1; orphan_urls = 1 })
unfolding parser
parse_m3u_runs = (refl, refl)

parse_m3u-distinct_ids_example : Nodup (ids (parse_m3u naturals playlist).0)
parse_m3u-distinct_ids_example = parse_m3u-distinct_ids naturals playlist plain_ids
  where
    plain_ids : All (λ raw. HasPlainId naturals (classify raw)) (split_lines playlist)
    plain_ids = unfold parser in (tt, (refl, (tt, (tt, (refl, (tt, (tt, (tt, (tt, tt)))))))))

-- The second channel has a number, the first one takes its position.
abbrev numbered : Text
numbered = codes "#EXTM3U\n#EXTINF:-1,One\nhttp://x/1\n#EXTINF:-1 tvg-chno=\"0\",Two\nhttp://x/2\n"

parse_m3u-claimed_example :
    Perm (urls (parse_m3u naturals playlist).0) (claimed false (lines_of playlist))
parse_m3u-claimed_example = parse_m3u-claimed naturals playlist

parse_m3u-stats_example :
    ((parse_m3u naturals playlist).1.extinf ≡ ext_infs (lines_of playlist))
    × ((parse_m3u naturals playlist).1.orphan_urls ≡ orphans false (lines_of playlist))
    × ((parse_m3u naturals playlist).1.emitted ≡ length (claimed false (lines_of playlist)))
parse_m3u-stats_example = parse_m3u-stats naturals playlist

abbrev attributes : List (Text × Text)
attributes =
    (codes "http-user-agent", codes "Mozilla/5.0 (KHTML, like Gecko)")
    ∷ (codes "group-title", codes "General")
    ∷ []

parse_ext_inf-render_example :
    parse_ext_inf naturals (render_ext_inf attributes (codes "1+1 International"))
    ≡ foldl (set_attribute naturals) (named naturals (trim (codes "1+1 International"))) attributes
parse_ext_inf-render_example =
    parse_ext_inf-render naturals attributes (codes "1+1 International") (first, (second, tt))
  where
    first : IsAttribute (codes "http-user-agent", codes "Mozilla/5.0 (KHTML, like Gecko)")
    first = record {
      key_units = ground arith;
      key_ne_nil = ground arith;
      value_units = omega arith;
    }

    second : IsAttribute (codes "group-title", codes "General")
    second = record {
      key_units = ground arith;
      key_ne_nil = ground arith;
      value_units = omega arith;
    }
