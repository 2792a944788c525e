-- ===== src/M3u/Ids.antt =====
-- The identities that `parseM3U` gives to the channels of a playlist.
use mathlib.Core.List.{
  Mem, Nodup, Nodup-cons, Nodup-nil, Perm, mem-cons, not-mem-nil, reverse-append, reverse_perm,
  map-append,
}
use mathlib.Core.List.Perm
use mathlib.Core.Logic.Or
use mathlib.Core.HLevel.{⊥_prop}
use pytone_digital.Prelude.{
  ℕ, ◌+◌, ◌≤◌, ◌≡◌, refl, subst, ◌≢◌, ◌⊎◌, inl, inr, false, Option, none, some, List, [], ◌∷◌, ◌++◌,
  map, reverse, arith, Bool-cases, All, true,
}
use pytone_digital.Text.{Text, codes, split_lines, cut_at}
use pytone_digital.Text.Cut.{cut_at-append, cut_at-append_none, cut_at-digits}
use pytone_digital.Text.Decimal.{show, show-digits, show-injective}
use pytone_digital.Text.Equality.{text_eq_refl}
use pytone_digital.Runtime.{Js}
use pytone_digital.M3u.{Channel, Entry}
use pytone_digital.M3u.ExtInf.{parse_ext_inf}
use pytone_digital.M3u.Order.{sort_by_number-perm}
use pytone_digital.M3u.Playlist.{
  Scan, Line, blank, header, ext_inf, vlc_option, directive, url, has_id, bare_id, fresh_id,
  classify, apply_option, to_channel, take_url, step, scan_lines, start, channels_of, parse_m3u,
}

abbrev pub HashFree : Text → Type 0
HashFree t = cut_at b'#' t ≡ none

abbrev HashFreeId : Option Text → Type 0
HashFreeId none = Unit
HashFreeId (some t) = HashFree t

-- An identity that was given at some position up to `p`.
abbrev IsGiven : ℕ → Text → Type 0
IsGiven p u = HashFree u ⊎ ((x : Text) × (q : ℕ) × (q ≤ p) × (cut_at b'#' u ≡ some (x, show q)))

IsGiven-suc : (p : ℕ) (u : Text) → IsGiven p u → IsGiven (p + 1) u
IsGiven-suc p u (inl h) = inl h
IsGiven-suc p u (inr (x, q, h, e)) = inr (x, q, omega arith, e)

All-IsGiven-suc : (p : ℕ) (us : List Text) → All (IsGiven p) us → All (IsGiven (p + 1)) us
All-IsGiven-suc p [] h = tt
All-IsGiven-suc p (u ∷ us) (g, h) = (IsGiven-suc p u g, All-IsGiven-suc p us h)

show-HashFree : (n : ℕ) → HashFree (show n)
show-HashFree n = cut_at-digits (show n) (show-digits n)

suffixed : (x : Text) (q : ℕ) → HashFree x → cut_at b'#' (x ++ b'#' ∷ show q) ≡ some (x, show q)
suffixed x q h = cut_at-append b'#' x (show q) h

bare_id-HashFree : (t : Option Text) (p : ℕ) → HashFreeId t → HashFree (bare_id t p)
unfolding bare_id
bare_id-HashFree none p h =
    cut_at-append_none b'#' (codes "ch-") (show p) (unfold cut_at in refl) (show-HashFree p)
bare_id-HashFree (some []) p h =
    cut_at-append_none b'#' (codes "ch-") (show p) (unfold cut_at in refl) (show-HashFree p)
bare_id-HashFree (some (c ∷ t)) p h = h

All-not-mem : (x : Text) (us : List Text) → All (λ u. x ≢ u) us → ¬ Mem x us
All-not-mem x [] h m = not-mem-nil m
All-not-mem x (u ∷ us) (n, h) m = Or.elim ⊥_prop (mem-cons.0 m) n (All-not-mem x us h)

-- An identity with a new position differs from all that were given.
suffixed-new :
    (p : ℕ) (x y : Text) (us : List Text)
    → All (IsGiven p) us
    → cut_at b'#' y ≡ some (x, show (p + 1))
    → All (λ u. y ≢ u) us
suffixed-new p x y [] h e = tt
suffixed-new p x y (u ∷ us) (g, h) e = (differs u g, suffixed-new p x y us h e)
  where
    differs : (u : Text) → IsGiven p u → y ≢ u
    differs u (inl f) same = cc
    differs u (inr (z, q, le, f)) same =
        let shown : show q ≡ show (p + 1) = cc in
        let positions : q ≡ p + 1 = show-injective q (p + 1) shown in omega arith

has_id-false : (us : List Text) (x : Text) → has_id us x ≡ false → All (λ u. x ≢ u) us
unfolding has_id
has_id-false [] x h = tt
has_id-false (u ∷ us) x h = (λ e. ground (arith, text_eq_refl x), has_id-false us x (ground arith))

record IsFresh (p : ℕ) (us : List Text) (x : Text) : Type 0 where
  new : All (λ u. x ≢ u) us
  given : IsGiven (p + 1) x

fresh_id-IsFresh :
    (p : ℕ) (us : List Text) (x : Text)
    → All (IsGiven p) us
    → HashFree x
    → IsFresh p us (fresh_id us x (p + 1))
unfolding fresh_id
fresh_id-IsFresh p us x h f = elim (Bool-cases (has_id us x)) [
  | inl e ↦ rw e (record {
    new = suffixed-new p x (x ++ b'#' ∷ show (p + 1)) us h (suffixed x (p + 1) f);
    given = inr (x, p + 1, omega arith, suffixed x (p + 1) f);
  })
  | inr e ↦ rw e (record { new = has_id-false us x e; given = inl f })
]

abbrev pub ids : {N : Type 0} → List (Channel N) → List Text
ids cs = map (λ c. c.id) cs

abbrev HashFreeEntry : {N : Type 0} → Option (Entry N) → Type 0
HashFreeEntry none = Unit
HashFreeEntry (some e) = HashFreeId e.tvg_id

module _ (js : Js) where
  -- The `tvg-id` of an `#EXTINF` line, if it has one, holds no `#`.
  abbrev pub HasPlainId : Line → Type 0
  HasPlainId (ext_inf line) = HashFreeEntry (some (parse_ext_inf js line))
  HasPlainId _ = Unit

  record Inv (s : Scan js.Num) : Type 0 where
    distinct : Nodup s.used_ids
    given : All (IsGiven s.positional) s.used_ids
    same : s.used_ids ≡ reverse (ids s.out)
    plain : HashFreeEntry s.pending

  apply_option-plain :
      (p : Option (Entry js.Num)) (opt : Text)
      → HashFreeEntry p
      → HashFreeEntry (apply_option js p opt)
  unfolding apply_option
  apply_option-plain none opt h = tt
  apply_option-plain (some e) opt h = ground arith

  take_url-Inv :
      (s : Scan js.Num) (p : Option (Entry js.Num)) (line : Text)
      → Inv s
      → HashFreeEntry p
      → Inv (take_url js s p line)
  unfolding take_url to_channel
  take_url-Inv s none line v h = record {
    distinct = v.distinct;
    given = v.given;
    same = v.same;
    plain = v.plain;
  }
  take_url-Inv s (some e) line v h =
      let f =
        fresh_id-IsFresh s.positional s.used_ids (bare_id e.tvg_id (s.positional + 1)) v.given
          (bare_id-HashFree e.tvg_id (s.positional + 1) h) in
      record {
        distinct = Nodup-cons.1 (All-not-mem _ s.used_ids f.new, v.distinct);
        given = (f.given, All-IsGiven-suc s.positional s.used_ids v.given);
        same = rw (map-append, reverse-append, v.same);
        plain = tt;
      }

  step-Inv : (s : Scan js.Num) (l : Line) → Inv s → HasPlainId l → Inv (step js s l)
  unfolding step
  step-Inv s blank v h = v
  step-Inv s (header head) v h = record {
    distinct = v.distinct;
    given = v.given;
    same = v.same;
    plain = v.plain;
  }
  step-Inv s (ext_inf line) v h = record {
    distinct = v.distinct;
    given = v.given;
    same = v.same;
    plain = h;
  }
  step-Inv s (vlc_option opt) v h = record {
    distinct = v.distinct;
    given = v.given;
    same = v.same;
    plain = apply_option-plain s.pending opt v.plain;
  }
  step-Inv s directive v h = v
  step-Inv s (url line) v h = take_url-Inv s s.pending line v v.plain

  scan_lines-Inv :
      (s : Scan js.Num) (lines : List Text)
      → Inv s
      → All (λ raw. HasPlainId (classify raw)) lines
      → Inv (scan_lines js s lines)
  unfolding scan_lines
  scan_lines-Inv s [] v h = v
  scan_lines-Inv s (raw ∷ lines) v (p, h) =
      scan_lines-Inv (step js s (classify raw)) lines (step-Inv s (classify raw) v p) h

  start-Inv : Inv (start js)
  start-Inv = record { distinct = Nodup-nil; given = tt; same = refl; plain = tt }

  ids-channels_of : (s : Scan js.Num) → Perm (ids (channels_of js s)) (ids s.out)
  unfolding channels_of
  ids-channels_of s = elim (Bool-cases s.saw_explicit_number) [
    | inl e ↦ rw e (Perm.map (λ c. c.id) (sort_by_number-perm js s.out))
    | inr e ↦ rw e (Perm.refl _)
  ]

  -- If no `tvg-id` of the playlist holds a `#`, no two channels get one identity.
  pub parse_m3u-distinct_ids :
      (text : Text)
      → All (λ raw. HasPlainId (classify raw)) (split_lines text)
      → Nodup (ids (parse_m3u js text).0)
  unfolding parse_m3u
  parse_m3u-distinct_ids text h =
      let s = scan_lines js (start js) (split_lines text) in
      let v = scan_lines-Inv (start js) (split_lines text) start-Inv h in
      Perm.nodup (Perm.symm (ids-channels_of s))
        (Perm.nodup (reverse_perm (ids s.out)) (subst Nodup v.same v.distinct))

-- The suffix is not checked against the identities in use: where a bare identity `x` and the text
-- `x#p` are both taken, the identity given at position `p` to another `x` is taken already.
pub fresh_id-taken :
    (used : List Text) (x : Text) (p : ℕ)
    → has_id used x ≡ true
    → has_id used (x ++ b'#' ∷ show p) ≡ true
    → has_id used (fresh_id used x p) ≡ true
unfolding fresh_id
fresh_id-taken used x p h k = rw h k
