-- ===== src/M3u/Pairing.antt =====
-- Which lines of a playlist become channels, and what the statistics count.
use mathlib.Core.List.{Perm, append_assoc, map-append, append-nil}
use mathlib.Core.List.Perm
use pytone_digital.Prelude.{
  ℕ, suc, ◌+◌, ◌≡◌, refl, sym, ap, ◌∙◌, subst, inl, inr, Bool, true, false, Option, none, some,
  List, [], ◌∷◌, ◌++◌, map, arith, Bool-cases, length,
}
use pytone_digital.Text.{Text, split_lines}
use pytone_digital.Runtime.{Js}
use pytone_digital.M3u.{Channel, Entry}
use pytone_digital.M3u.Order.{sort_by_number-perm}
use pytone_digital.M3u.Playlist.{
  Scan, Line, blank, header, ext_inf, vlc_option, directive, url, classify, apply_option,
  to_channel, take_url, step, scan_lines, start, channels_of, parse_m3u,
}

-- The specification, on the kinds of the lines alone. A URL line belongs to the `#EXTINF` line
-- above it when no other URL line stands between them.
abbrev pub claimed : Bool → List Line → List Text
claimed waiting [] = []
claimed waiting (ext_inf _ ∷ ls) = claimed true ls
claimed true (url u ∷ ls) = u ∷ claimed false ls
claimed false (url u ∷ ls) = claimed false ls
claimed waiting (_ ∷ ls) = claimed waiting ls

-- The URL lines that belong to no `#EXTINF` line.
abbrev pub orphans : Bool → List Line → ℕ
orphans waiting [] = 0
orphans waiting (ext_inf _ ∷ ls) = orphans true ls
orphans true (url u ∷ ls) = orphans false ls
orphans false (url u ∷ ls) = suc (orphans false ls)
orphans waiting (_ ∷ ls) = orphans waiting ls

-- The `#EXTINF` lines.
abbrev pub ext_infs : List Line → ℕ
ext_infs [] = 0
ext_infs (ext_inf _ ∷ ls) = suc (ext_infs ls)
ext_infs (_ ∷ ls) = ext_infs ls

abbrev pub lines_of : Text → List Line
lines_of text = map classify (split_lines text)

abbrev pub urls : {N : Type 0} → List (Channel N) → List Text
urls cs = map (λ c. c.stream_url) cs

abbrev is_some {ℓ} : {A : Type ℓ} → Option A → Bool
is_some none = false
is_some (some _) = true

module _ (js : Js) where
  -- What the rest of the lines adds to the state.
  record Adds (s t : Scan js.Num) (ls : List Line) : Type 0 where
    channels : urls t.out ≡ urls s.out ++ claimed (is_some s.pending) ls
    orphaned : t.orphan_urls ≡ s.orphan_urls + orphans (is_some s.pending) ls
    seen : t.extinf_seen ≡ s.extinf_seen + ext_infs ls

  is_some-apply_option :
      (p : Option (Entry js.Num)) (opt : Text) → is_some (apply_option js p opt) ≡ is_some p
  unfolding apply_option
  is_some-apply_option none opt = refl
  is_some-apply_option (some e) opt = refl

  module _ (s t : Scan js.Num) (ls : List Line) where
    take_url-Adds :
        (p : Option (Entry js.Num)) (u : Text)
        → s.pending ≡ p
        → Adds (take_url js s p u) t ls
        → Adds s t (url u ∷ ls)
    unfolding take_url to_channel
    take_url-Adds none u e a = record {
      channels = rw e (rw e at a.channels);
      orphaned = rw e (omega (arith, rw e at a.orphaned));
      seen = a.seen;
    }
    take_url-Adds (some x) u e a = record {
      channels = rw e (a.channels ∙ simp (map-append, append_assoc));
      orphaned = rw e a.orphaned;
      seen = a.seen;
    }

    step-Adds : (l : Line) → Adds (step js s l) t ls → Adds s t (l ∷ ls)
    unfolding step
    step-Adds blank a = record { channels = a.channels; orphaned = a.orphaned; seen = a.seen }
    step-Adds (header h) a = record { channels = a.channels; orphaned = a.orphaned; seen = a.seen }
    step-Adds (ext_inf l) a = record {
      channels = a.channels;
      orphaned = a.orphaned;
      seen = omega (arith, a.seen);
    }
    step-Adds (vlc_option o) a = record {
      channels = rw (← is_some-apply_option s.pending o) a.channels;
      orphaned = rw (← is_some-apply_option s.pending o) a.orphaned;
      seen = a.seen;
    }
    step-Adds directive a = record { channels = a.channels; orphaned = a.orphaned; seen = a.seen }
    step-Adds (url u) a = take_url-Adds s.pending u refl a

  scan_lines-Adds :
      (s : Scan js.Num) (raws : List Text) → Adds s (scan_lines js s raws) (map classify raws)
  unfolding scan_lines
  scan_lines-Adds s [] = record {
    channels = sym (append-nil _);
    orphaned = omega arith;
    seen = omega arith;
  }
  scan_lines-Adds s (raw ∷ raws) =
      step-Adds s _ (map classify raws) (classify raw)
        (scan_lines-Adds (step js s (classify raw)) raws)

  urls-channels_of : (s : Scan js.Num) → Perm (urls (channels_of js s)) (urls s.out)
  unfolding channels_of
  urls-channels_of s = elim (Bool-cases s.saw_explicit_number) [
    | inl e ↦ rw e (Perm.map (λ c. c.stream_url) (sort_by_number-perm js s.out))
    | inr e ↦ rw e (Perm.refl _)
  ]

  -- The channels are exactly the URL lines that an `#EXTINF` line claims, each once; sorting only
  -- permutes them.
  pub parse_m3u-claimed :
      (text : Text) → Perm (urls (parse_m3u js text).0) (claimed false (lines_of text))
  unfolding parse_m3u
  parse_m3u-claimed text =
      let a = scan_lines-Adds (start js) (split_lines text) in
      subst (Perm _) a.channels (urls-channels_of (scan_lines js (start js) (split_lines text)))

length-map {ℓ κ} :
    {A : Type ℓ} {B : Type κ} (f : A → B) (xs : List A) → length (map f xs) ≡ length xs
length-map f [] = refl
length-map f (x ∷ xs) = ap suc (length-map f xs)

module _ (js : Js) where
  -- The loop collects the channels of the claimed URL lines, in their order.
  pub parse_m3u-urls :
      (text : Text)
      → urls (scan_lines js (start js) (split_lines text)).out ≡ claimed false (lines_of text)
  parse_m3u-urls text = (scan_lines-Adds js (start js) (split_lines text)).channels

  -- What three of the statistics of a call say: `extinf` is the number of `#EXTINF` lines,
  -- `orphan_urls` the number of URL lines that belong to none of them, and `emitted` the number of
  -- those that do.
  pub parse_m3u-stats :
      (text : Text)
      → ((parse_m3u js text).1.extinf ≡ ext_infs (lines_of text))
        × ((parse_m3u js text).1.orphan_urls ≡ orphans false (lines_of text))
        × ((parse_m3u js text).1.emitted ≡ length (claimed false (lines_of text)))
  unfolding parse_m3u
  parse_m3u-stats text =
      let s = scan_lines js (start js) (split_lines text) in
      let a = scan_lines-Adds js (start js) (split_lines text) in
      let n : length s.out ≡ length (claimed false (lines_of text)) =
        sym (length-map (λ c. c.stream_url) s.out) ∙ ap length a.channels in
      (omega (arith, a.seen), omega (arith, a.orphaned), n)
