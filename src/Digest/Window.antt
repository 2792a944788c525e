-- ===== src/Digest/Window.antt =====
-- What a digest holds: for each channel the programmes that overlap the window, and the counts.
use pytone_digital.Prelude.{
  ℕ, ◌+◌, ◌≤◌, ◌≡◌, refl, sym, ap, inl, inr, true, false, ◌&&◌, List, [], ◌∷◌, ◌++◌, map, arith,
  ltb, leb, leb→le, Bool-cases, length, keep, All,
}
use pytone_digital.M3u.{Channel}
use pytone_digital.Epg.{Programme}
use pytone_digital.Epg.Order.{IsSorted}
use pytone_digital.Digest.{
  DigestProgramme, DigestChannel, Built, to_item, pick_window, count_channel,
}

-- The programmes that overlap a window.
pub overlapping : ℕ → ℕ → List Programme → List Programme
overlapping from until ps = keep (λ p. ltb from p.stop && ltb p.start until) ps

none_overlap :
    (from until n : ℕ) (ps : List Programme)
    → until ≤ n
    → All (λ p. n ≤ p.start) ps
    → overlapping from until ps ≡ []
unfolding overlapping keep
none_overlap from until n [] h k = refl
none_overlap from until n (p ∷ ps) h (k, ks) = ground (arith, none_overlap from until n ps h ks)

-- On a list in the order of the starts, the loop that ends at the first programme behind the
-- window keeps exactly the programmes that overlap the window.
pub pick_window-overlapping :
    (from until : ℕ) (ps : List Programme)
    → IsSorted ps
    → pick_window from until ps ≡ map to_item (overlapping from until ps)
unfolding pick_window overlapping keep
pick_window-overlapping from until [] s = refl
pick_window-overlapping from until (p ∷ ps) (s, ss) = elim (Bool-cases (leb p.stop from)) [
  | inl e ↦
      let out : ltb from p.stop ≡ false = ground arith in
      rw (e, out) (pick_window-overlapping from until ps ss)
  | inr e ↦
      let ended : ltb from p.stop ≡ true = ground arith in
      elim (Bool-cases (leb until p.start)) [
        | inl f ↦
            let out : ltb p.start until ≡ false = ground arith in
            rw (e, ended, f, out)
              (ap (map to_item)
                (sym (none_overlap from until p.start ps (leb→le until p.start f) s)))
        | inr f ↦
            let inside : ltb p.start until ≡ true = ground arith in
            rw (e, ended, f, inside)
              (ap (λ l. to_item p ∷ l) (pick_window-overlapping from until ps ss))
      ]
]

-- The numbers of the digest, counted again from its channels.
pub matched_of : {N : Type 0} → List (DigestChannel N) → ℕ
matched_of chs = length (keep (λ ch. ltb 0 (length ch.programmes)) chs)

pub total_of : {N : Type 0} → List (DigestChannel N) → ℕ
total_of [] = 0
total_of (ch ∷ chs) = length ch.programmes + total_of chs

matched_of-append :
    {N : Type 0} (xs ys : List (DigestChannel N))
    → matched_of (xs ++ ys) ≡ matched_of xs + matched_of ys
unfolding matched_of keep
matched_of-append [] ys = omega arith
matched_of-append (x ∷ xs) ys = ground (arith, matched_of-append xs ys)

total_of-append :
    {N : Type 0} (xs ys : List (DigestChannel N)) → total_of (xs ++ ys) ≡ total_of xs + total_of ys
unfolding total_of
total_of-append [] ys = omega arith
total_of-append (x ∷ xs) ys = omega (arith, total_of-append xs ys)

-- The counters agree with the channels.
abbrev pub IsCounted : {N : Type 0} → Built N → Type 0
IsCounted b = (b.matched ≡ matched_of b.enriched) × (b.total ≡ total_of b.enriched)

pub start-IsCounted :
    (N : Type 0) → IsCounted {N = N} (record { matched = 0; total = 0; enriched = [] })
unfolding matched_of total_of keep
start-IsCounted N = (refl, refl)

pub count_channel-IsCounted :
    {N : Type 0} (b : Built N) (ch : Channel N) (ps : List DigestProgramme)
    → IsCounted b
    → IsCounted (count_channel b ch ps)
unfolding count_channel
count_channel-IsCounted b ch ps (m, t) = elim (Bool-cases (ltb 0 (length ps))) [
  | inl e ↦
      rw
        (
          e,
          matched_of-append b.enriched (record { channel = ch; programmes = ps } ∷ []),
          total_of-append b.enriched (record { channel = ch; programmes = ps } ∷ []),
        )
        (unfold matched_of total_of keep in (rw e (omega arith), omega arith))
  | inr e ↦
      rw
        (
          e,
          matched_of-append b.enriched (record { channel = ch; programmes = ps } ∷ []),
          total_of-append b.enriched (record { channel = ch; programmes = ps } ∷ []),
        )
        (unfold matched_of total_of keep in (rw e (omega arith), ground arith))
]

pub enriched-count_channel :
    {N : Type 0} (b : Built N) (ch : Channel N) (ps : List DigestProgramme)
    → (count_channel b ch ps).enriched ≡ b.enriched ++ record { channel = ch; programmes = ps } ∷ []
unfolding count_channel
enriched-count_channel b ch ps = ground arith
