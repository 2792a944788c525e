-- ===== src/Digest/Tests.antt =====
-- Runs of the digest, and the theorems at inputs that meet their hypotheses.
use pytone_digital.Prelude.{ℕ, ◌≡◌, refl, ◌≢◌, none, some, [], ◌∷◌, map, length}
use pytone_digital.Epg.Names.{strip_quality_tags}
use pytone_digital.Text.Search.{strip_prefix}
use pytone_digital.Text.{Text, codes, ascii_lower, is_word}
use pytone_digital.Runtime.{naturals}
use pytone_digital.Dictionary.{lookup}
use pytone_digital.M3u.{Channel}
use pytone_digital.M3u.Playlist.{parse_m3u}
use pytone_digital.Epg.{Programme, epoch}
use pytone_digital.Epg.Names.{normalise_channel_name}
use pytone_digital.Epg.Now.{EpgIndex, by_name_programmes, programmes_for}
use pytone_digital.Digest.{PlaylistDigest, matched_programmes, guide_of, names_of, build_digest}
use pytone_digital.Digest.Window.{matched_of, total_of}
use pytone_digital.Digest.Client.{matched_programmes-client}
use pytone_digital.Digest.Channels.{in_window, build_digest-in_window}

abbrev programme : ℕ → ℕ → Programme
programme start stop = record {
  channel_id = codes "k";
  start = start;
  stop = stop;
  title = codes "A";
  description = some [];
  catchup_id = none;
}

abbrev channel : Channel ℕ
channel = record {
  id = codes "ch-1";
  number = 1;
  name = codes "Kan 11 HD";
  logo_url = [];
  category = [];
  stream_url = codes "http://x";
  tvg_id = none;
  catchup_kind = none;
  catchup_source = none;
  catchup_days = none;
  catchup_correction = none;
  http_user_agent = none;
  http_referrer = none;
}

abbrev idx : EpgIndex
idx = record {
  by_id = (codes "k", programme 10 20 ∷ programme 20 30 ∷ []) ∷ [];
  by_name = (codes "kan11hd", codes "k") ∷ [];
}

-- The full name stands for a channel without programmes: the client goes on to the stripped name,
-- the digest does not.
abbrev split_idx : EpgIndex
split_idx = record {
  by_id = (codes "k", programme 10 20 ∷ []) ∷ [];
  by_name = (codes "kan11hd", codes "hd") ∷ (codes "kan11", codes "k") ∷ [];
}

matched_programmes_runs :
    (matched_programmes ascii_lower is_word channel split_idx.by_id split_idx.by_name ≡ [])
    × (programmes_for ascii_lower is_word split_idx channel ≡ programme 10 20 ∷ [])
unfolding matched_programmes programmes_for lookup normalise_channel_name strip_quality_tags
    strip_prefix ascii_lower
matched_programmes_runs = (refl, refl)

matched_programmes-client_example :
    matched_programmes ascii_lower is_word channel idx.by_id idx.by_name
    ≡ programmes_for ascii_lower is_word idx channel
matched_programmes-client_example = matched_programmes-client ascii_lower is_word idx channel found
  where
    found :
        (cid : Text)
        → lookup (normalise_channel_name ascii_lower is_word channel.name) idx.by_name ≡ some cid
        → by_name_programmes idx (normalise_channel_name ascii_lower is_word channel.name) ≢ []
    found cid h = unfold by_name_programmes lookup normalise_channel_name ascii_lower in (λ e. cc)

abbrev playlist : Text
playlist = codes "#EXTM3U\n#EXTINF:-1,One\nhttp://x/1\n"

build_digest-in_window_example :
    (d : PlaylistDigest ℕ) × (build_digest ascii_lower is_word naturals playlist none epoch
      ≡ some d)
    × (d.channels ≡ map (in_window ascii_lower is_word [] [] epoch) (parse_m3u naturals playlist).0)
    × (d.about.total_channels ≡ length d.channels)
    × (d.about.matched_channels ≡ matched_of d.channels)
    × (d.about.programmes ≡ total_of d.channels)
build_digest-in_window_example =
    build_digest-in_window ascii_lower is_word naturals playlist none epoch [] []
      (unfold guide_of in refl) (unfold names_of in refl)
