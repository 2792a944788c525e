-- ===== src/Digest/Channels.antt =====
-- The channels of a digest, and what its head counts.
use pytone_digital.Prelude.{
  ℕ, ◌≡◌, refl, sym, ap, ◌∙◌, subst, inl, inr, Bool, true, false, Option, none, some, List, [], ◌∷◌,
  ◌++◌, map, foldl, arith, if◌then◌else◌, Bool-cases, length,
}
use mathlib.Core.List.{append_assoc, append-nil}
use pytone_digital.Prelude.Chain.{some->>=}
use pytone_digital.Text.{Text, is_empty}
use pytone_digital.Dictionary.{lookup}
use pytone_digital.Runtime.{Js}
use pytone_digital.M3u.{Channel}
use pytone_digital.M3u.Playlist.{parse_m3u}
use pytone_digital.Epg.{Programme}
use pytone_digital.Epg.Scan.{Guide, or_nothing, iter_programmes, index_programmes}
use pytone_digital.Epg.Order.{IsSorted, index_programmes-lookup}
use pytone_digital.Epg.Names.{NameIndex, normalise_channel_name, strip_quality_tags}
use pytone_digital.Epg.Now.{tvg_key, or_get, direct_programmes, through, or_list}
use pytone_digital.Digest.{
  PlaylistDigest, DigestChannel, Built, to_item, matched_programmes, pick_programmes, add_channel,
  window_start, window_end, guide_of, names_of, build_digest, or_stripped,
}
use pytone_digital.Digest.Window.{
  overlapping, pick_window-overlapping, matched_of, total_of, IsCounted, count_channel-IsCounted,
  enriched-count_channel, start-IsCounted,
}

length-map : {A B : Type 0} (f : A → B) (xs : List A) → length (map f xs) ≡ length xs
length-map f [] = refl
length-map f (x ∷ xs) = omega (arith, length-map f xs)

or_list-IsSorted : (ps qs : List Programme) → IsSorted ps → IsSorted qs → IsSorted (or_list ps qs)
or_list-IsSorted [] qs h k = k
or_list-IsSorted (p ∷ ps) qs h k = h

or_get-IsSorted :
    (o q : Option (List Programme))
    → IsSorted (or_nothing o)
    → IsSorted (or_nothing q)
    → IsSorted (or_nothing (or_get o q))
or_get-IsSorted none q h k = k
or_get-IsSorted (some ps) q h k = h

if-IsSorted : (b : Bool) (ps : List Programme) → IsSorted ps → IsSorted (if b then [] else ps)
if-IsSorted true ps h = tt
if-IsSorted false ps h = h

-- Every list of a guide is in the order of the starts.
abbrev pub IsOrdered : Guide → Type 0
IsOrdered by_id = (id : Text) → IsSorted (or_nothing (lookup id by_id))

through-IsSorted :
    (by_id : Guide) (cid : Option Text) → IsOrdered by_id → IsSorted (through by_id cid)
through-IsSorted by_id none h = tt
through-IsSorted by_id (some cid) h =
    if-IsSorted (is_empty cid) (or_nothing (lookup cid by_id)) (h cid)

module _ (lower : Text → Text) (in_name : ℕ → Bool) {N : Type 0} (by_id : Guide)
    (by_name : NameIndex) where
  matched_programmes-IsSorted :
      (ch : Channel N)
      → IsOrdered by_id
      → IsSorted (matched_programmes lower in_name ch by_id by_name)
  unfolding matched_programmes direct_programmes
  matched_programmes-IsSorted ch h =
      let norm = normalise_channel_name lower in_name ch.name in
      or_list-IsSorted (or_nothing (direct_programmes by_id ch)) _
        (or_get-IsSorted (lookup (tvg_key ch.tvg_id) by_id) (lookup ch.id by_id)
          (h (tvg_key ch.tvg_id)) (h ch.id))
        (if-IsSorted (is_empty norm) _ (
          through-IsSorted by_id
            (or_stripped (lookup norm by_name) (lookup (strip_quality_tags norm) by_name)) h))

  -- The channel with the programmes of its list that overlap the window of the digest.
  pub in_window : ℕ → Channel N → DigestChannel N
  in_window now ch = record {
    channel = ch;
    programmes = map to_item (
        overlapping (window_start now) (window_end now)
          (matched_programmes lower in_name ch by_id by_name));
  }

  enriched-add_channel :
      (now : ℕ) (b : Built N) (ch : Channel N)
      → IsOrdered by_id
      → (add_channel lower in_name by_id by_name now b ch).enriched
        ≡ b.enriched ++ in_window now ch ∷ []
  unfolding add_channel pick_programmes in_window
  enriched-add_channel now b ch h =
      enriched-count_channel b ch _
      ∙ ap (λ ps. b.enriched ++ record { channel = ch; programmes = ps } ∷ [])
          (pick_window-overlapping (window_start now) (window_end now)
            (matched_programmes lower in_name ch by_id by_name) (matched_programmes-IsSorted ch h))

  add_channel-IsCounted :
      (now : ℕ) (b : Built N) (ch : Channel N)
      → IsCounted b
      → IsCounted (add_channel lower in_name by_id by_name now b ch)
  unfolding add_channel
  add_channel-IsCounted now b ch c = count_channel-IsCounted b ch _ c

  foldl-add_channel :
      (now : ℕ) (chs : List (Channel N)) (b : Built N)
      → IsOrdered by_id
      → IsCounted b
      → IsCounted (foldl (add_channel lower in_name by_id by_name now) b chs)
        × ((foldl (add_channel lower in_name by_id by_name now) b chs).enriched
            ≡ b.enriched ++ map (in_window now) chs)
  foldl-add_channel now [] b h c = (c, sym (append-nil b.enriched))
  foldl-add_channel now (ch ∷ chs) b h c =
      let added = add_channel lower in_name by_id by_name now b ch in
      let (counted, all_added) =
        foldl-add_channel now chs added h (add_channel-IsCounted now b ch c) in
      (
        counted,
        all_added
            ∙ ap (λ l. l ++ map (in_window now) chs) (enriched-add_channel now b ch h)
            ∙ append_assoc b.enriched (in_window now ch ∷ []) (map (in_window now) chs),
      )

index_programmes-IsOrdered : (xml : Text) (g : Guide) → index_programmes xml ≡ some g → IsOrdered g
unfolding index_programmes
index_programmes-IsOrdered xml g h id =
    let (ps, found, _) = some->>= (iter_programmes xml) _ h in
    let (k, indexed, _, sorted, _, _) = index_programmes-lookup xml ps found in
    let e : k ≡ g = some-injective (sym indexed ∙ h) in
    subst (λ g. IsSorted (or_nothing (lookup id g))) e (sorted id)
  where
    some-injective : {k : Guide} → some k ≡ some g → k ≡ g
    some-injective e = cc

-- The guide that a digest is built from keeps its lists in order.
guide_of-IsOrdered : (epg_xml : Option Text) (g : Guide) → guide_of epg_xml ≡ some g → IsOrdered g
unfolding guide_of lookup
guide_of-IsOrdered none g h id =
    let e : [] ≡ g = ground arith in subst (λ g. IsSorted (or_nothing (lookup id g))) e tt
guide_of-IsOrdered (some xml) g h id = elim (Bool-cases (is_empty xml)) [
  | inl e ↦
      let k = rw e at h in
      let e : [] ≡ g = ground arith in subst (λ g. IsSorted (or_nothing (lookup id g))) e tt
  | inr e ↦ index_programmes-IsOrdered xml g (rw e at h) id
]

module _ (lower : Text → Text) (in_name : ℕ → Bool) (js : Js) where
  -- A digest is built whenever the guide can be read. It has the channels of the playlist in their
  -- order, each with exactly those of its programmes that overlap the eight days before and after
  -- now, in their order, and its head counts them: the channels, the channels that have
  -- programmes, and the programmes.
  pub build_digest-in_window :
      (m3u_text : Text) (epg_xml : Option Text) (now : ℕ) (by_id : Guide) (by_name : NameIndex)
      → guide_of epg_xml ≡ some by_id
      → names_of lower in_name epg_xml ≡ some by_name
      → (d : PlaylistDigest js.Num) × (build_digest lower in_name js m3u_text epg_xml now ≡ some d)
        × (d.channels ≡ map (in_window lower in_name by_id by_name now) (parse_m3u js m3u_text).0)
        × (d.about.total_channels ≡ length d.channels)
        × (d.about.matched_channels ≡ matched_of d.channels)
        × (d.about.programmes ≡ total_of d.channels)
  unfolding build_digest
  build_digest-in_window m3u_text epg_xml now by_id by_name h k =
      let chs = (parse_m3u js m3u_text).0 in
      let (counted, added) =
        foldl-add_channel lower in_name by_id by_name now chs
          (record { matched = 0; total = 0; enriched = [] }) (guide_of-IsOrdered epg_xml by_id h)
          (start-IsCounted _) in
      rw (h, k) (_, refl, added, sym (ap length added ∙ length-map _ chs), counted.0, counted.1)
