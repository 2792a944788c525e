-- ===== src/ChannelCache/Tests.antt =====
-- Runs of the cache of channels, and the theorem at an input that meets its hypotheses.
use pytone_digital.Prelude.{ℕ, ◌≡◌, refl, true, false, none, some, [], ◌∷◌}
use pytone_digital.Text.{Text, codes, split_lines, trim, starts_with, cut_at, ascii_lower, includes}
use pytone_digital.Text.Decimal.{show, read_base}
use pytone_digital.Dictionary.{lookup, insert}
use pytone_digital.Runtime.{naturals}
use pytone_digital.M3u.{Channel}
use pytone_digital.M3u.Attributes.{scan_attributes}
use pytone_digital.M3u.ExtInf.{
  split_ext_inf, parse_ext_inf, set_attribute, number_or_undefined, parse_catchup_correction,
}
use pytone_digital.M3u.Playlist.{
  parse_m3u, scan_lines, step, classify, to_channel, fresh_id, set_default, apply_option,
  sort_by_number, insert_by_number,
}
use pytone_digital.ChannelCache.{
  Tab, Reply, answered, get_user_source_url, get_cached_channels, parse_and_store,
  write_session_cache, fetch_and_parse, start_load, served, waits,
}
use pytone_digital.ChannelCache.Provenance.{
  opened, reloaded, fetched, IsServed, start_load-IsParsed,
}

cache : Unit {0}
unfolding parse_m3u scan_lines step classify to_channel fresh_id set_default apply_option
    sort_by_number insert_by_number split_ext_inf parse_ext_inf set_attribute number_or_undefined
    parse_catchup_correction scan_attributes split_lines trim starts_with cut_at ascii_lower show
    read_base includes get_user_source_url get_cached_channels parse_and_store write_session_cache
    fetch_and_parse start_load lookup insert
cache = tt

get_user_source_url_runs :
    get_user_source_url (
      some (
        record { title = codes "Demo"; sub = codes "http://provider.example/get" }
        ∷ record { title = []; sub = codes "HTTPS://a.b/get.php" }
        ∷ []))
    ≡ some (codes "HTTPS://a.b/get.php", codes "My playlist")
unfolding cache
get_user_source_url_runs = refl

abbrev WasRead : Text → Text → Type 0
WasRead url text = Unit

abbrev new_tab : Tab ℕ
new_tab = record { mem = []; session = []; full = false }

abbrev playlist : Reply
playlist = answered true 200 (some (codes "#EXTM3U\n#EXTINF:-1,One\nhttp://x/1\n"))

abbrev loaded_tab : Tab ℕ
loaded_tab =
    (fetch_and_parse naturals (λ n. n) (codes "k") (codes "http://p") 5 [] playlist new_tab).1

abbrev one : Channel ℕ
one = record {
  id = codes "ch-1";
  number = 1;
  name = codes "One";
  logo_url = [];
  category = codes "Uncategorised";
  stream_url = codes "http://x/1";
  tvg_id = none;
  catchup_kind = none;
  catchup_source = none;
  catchup_days = none;
  catchup_correction = none;
  http_user_agent = none;
  http_referrer = none;
}

-- A year later the memory still serves the list: its age is not looked at.
start_load_runs :
    start_load naturals (codes "k") (some (codes "http://p", codes "P")) 31536000005 loaded_tab
    ≡ (served (one ∷ []), loaded_tab)
unfolding cache
start_load_runs = refl

-- Another address is not served.
other_address_runs :
    start_load naturals (codes "k") (some (codes "http://q", codes "Q")) 6 loaded_tab
    ≡ (waits (codes "http://q"), loaded_tab)
unfolding cache
other_address_runs = refl

-- After a reload the list comes back from the session's storage.
abbrev reloaded_tab : Tab ℕ
reloaded_tab = record loaded_tab { mem = [] }

reloaded_runs :
    start_load naturals (codes "k") (some (codes "http://p", codes "P")) 6 reloaded_tab
    ≡ (served (one ∷ []), loaded_tab)
unfolding cache
reloaded_runs = refl

start_load-IsParsed_example : IsServed naturals (λ n. n) WasRead (codes "http://p") (one ∷ [])
start_load-IsParsed_example =
    start_load-IsParsed naturals (λ n. n) WasRead (λ x h. refl) (codes "k") (codes "http://p")
      (codes "P") 6 reloaded_tab loaded_tab (one ∷ [])
      (reloaded loaded_tab (
        fetched (codes "k") (codes "http://p") [] playlist 5 new_tab (opened false) (λ e. tt)
          (λ status text e. tt)))
      reloaded_runs
