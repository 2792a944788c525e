-- ===== src/Epg/Progress.antt =====
-- The loops over the elements of a guide end: what follows an element is shorter than the text, so
-- that the fuel, the length of the text, is never used up.
use pytone_digital.Prelude.{
  ℕ, zero, suc, ◌≤◌, ◌<◌, ◌≡◌, refl, sym, ◌∙◌, inl, inr, Bool, not, ◌||◌, Option, none, some, List,
  [], ◌∷◌, arith, Bool-cases, Option-cases, length, ap, true,
}
use pytone_digital.Epg.{Programme}
use pytone_digital.Epg.Elements.{Tag, round, next_of, loop_from, loop_elements, or_skip}
use pytone_digital.Epg.Finds.{HasElement, next_element-none}
use pytone_digital.Epg.Cuts.{IsElementOf, next_element-IsElementOf}
use pytone_digital.Prelude.Chain.{◌>>=◌}
use pytone_digital.Epg.Scan.{programme_tag, read_programme, iter_programmes}
use pytone_digital.Text.{Text, cut_at, codes}
use pytone_digital.Text.Search.{
  Element, strip_prefix, cut_text, is_boundary, tag_end, find_tag, close_after, next_element,
}

strip_prefix-length : (t s rest : Text) → strip_prefix t s ≡ some rest → length rest ≤ length s
unfolding strip_prefix
strip_prefix-length [] s rest h = ground arith
strip_prefix-length (d ∷ t) [] rest h = cc
strip_prefix-length (d ∷ t) (c ∷ s) rest h = ground (arith, strip_prefix-length t s rest)

cut_at-length : (c : ℕ) (s l r : Text) → cut_at c s ≡ some (l, r) → length r < length s
unfolding cut_at
cut_at-length c [] l r h = cc
cut_at-length c (d ∷ s) l r h = elim (Option-cases (cut_at c s)) [
  | inl n ↦ ground arith
  | inr ((l', r'), q) ↦ ground (arith, cut_at-length c s l' r' q)
]

cut_text-length : (t s l r : Text) → cut_text t s ≡ some (l, r) → length r ≤ length s
unfolding cut_text
cut_text-length t [] l r h = elim (Option-cases (strip_prefix t [])) [
  | inl n ↦ ground arith
  | inr (rest, q) ↦ ground (arith, strip_prefix-length t [] rest q)
]
cut_text-length t (c ∷ s) l r h = elim (Option-cases (strip_prefix t (c ∷ s))) [
  | inl n ↦ elim (Option-cases (cut_text t s)) [
    | inl m ↦ ground arith
    | inr ((l', r'), q) ↦ ground (arith, cut_text-length t s l' r' q)
  ]
  | inr (rest, q) ↦ ground (arith, strip_prefix-length t (c ∷ s) rest q)
]

tag_end-length :
    (bounded : Bool) (o : Option Text) (s l r : Text)
    → ((rest : Text) → o ≡ some rest → length rest ≤ length s)
    → tag_end bounded o ≡ some (l, r)
    → length r < length s
tag_end-length bounded none s l r short h = cc
tag_end-length bounded (some rest) s l r short h =
    elim (Bool-cases (not bounded || is_boundary rest)) [
      | inl e ↦ let q = rw e at h in omega (arith, cut_at-length b'>' rest l r q, short rest refl)
      | inr e ↦ let q = rw e at h in cc
    ]

find_tag-length :
    (bounded : Bool) (name s l r : Text)
    → find_tag bounded name s ≡ some (l, r)
    → length r < length s
unfolding find_tag
find_tag-length bounded name [] l r h = cc
find_tag-length bounded name (c ∷ s) l r h =
    elim (Option-cases (tag_end bounded (strip_prefix name (c ∷ s)))) [
      | inl n ↦ let q = rw n at h in omega (arith, find_tag-length bounded name s l r q)
      | inr ((l', r'), q) ↦
          let p =
            tag_end-length bounded (strip_prefix name (c ∷ s)) (c ∷ s) l' r'
              (strip_prefix-length name (c ∷ s)) q in
          let k = rw q at h in ground arith
    ]

pub next_element-length :
    (bounded : Bool) (open_ close s : Text) (e : Element)
    → next_element bounded open_ close s ≡ some e
    → length e.rest < length s
unfolding next_element
next_element-length bounded open_ close s e h = elim (Option-cases (find_tag bounded open_ s)) [
  | inl n ↦ let k = rw n at h in cc
  | inr ((attributes, after), q) ↦ closed after q (rw q at h)
]
  where
    closed :
        {attributes : Text} (after : Text)
        → find_tag bounded open_ s ≡ some (attributes, after)
        → close_after close (some (attributes, after)) ≡ some e
        → length e.rest < length s
    closed after q k = elim (Option-cases (cut_text close after)) [
      | inl n ↦ let j = rw n at k in cc
      | inr ((inner, rest), p) ↦
          let j = rw p at k in
          let short : length rest < length s = omega (
            arith,
            cut_text-length close after inner rest p,
            find_tag-length bounded open_ s _ after q,
          ) in
          ground arith
    ]

module _ {A : Type 0} (tag : Tag) (read : Element → Option (Option A)) where
  next_of-length : (s : Text) (e : Element) → next_of tag s ≡ some e → length e.rest < length s
  next_of-length s e = next_element-length tag.bounded tag.open_ tag.close s e

  -- A round depends on the loop at shorter texts only.
  round-shorter :
      (f g : Text → Option (List A)) (s : Text) (o : Option Element)
      → next_of tag s ≡ o
      → ((t : Text) → length t < length s → f t ≡ g t)
      → round read f o ≡ round read g o
  round-shorter f g s none q same = refl
  round-shorter f g s (some e) q same = rw (same e.rest (next_of-length s e q)) refl

  loop_from-enough :
      (f : ℕ) (s : Text) → length s ≤ f → loop_from tag read f s ≡ loop_elements tag read s
  unfolding loop_from loop_elements
  loop_from-enough f s h = equal f (length s) s h (omega arith)
    where
      stopped :
          (g : ℕ) (s : Text) (o : Option Element)
          → next_of tag s ≡ o
          → length s ≤ 0
          → some [] ≡ round read (loop_from tag read g) o
      stopped g s none q h = refl
      stopped g s (some e) q h = absurd (omega (arith, next_of-length s e q))

      equal :
          (f g : ℕ) (s : Text)
          → length s ≤ f
          → length s ≤ g
          → loop_from tag read f s ≡ loop_from tag read g s
      equal zero zero s h k = refl
      equal zero (suc g) s h k = stopped g s (next_of tag s) refl h
      equal (suc f) zero s h k = sym (stopped f s (next_of tag s) refl k)
      equal (suc f) (suc g) s h k =
          round-shorter (loop_from tag read f) (loop_from tag read g) s (next_of tag s) refl
            (λ t l. equal f g t (omega arith) (omega arith))

  -- The loop, without fuel.
  pub loop_elements-round :
      (s : Text) → loop_elements tag read s ≡ round read (loop_elements tag read) (next_of tag s)
  unfolding loop_from
  loop_elements-round s =
      sym (loop_from-enough (suc (length s)) s (omega arith))
      ∙ round-shorter (loop_from tag read (length s)) (loop_elements tag read) s (next_of tag s)
          refl (λ t l. loop_from-enough (length s) t (omega arith))

abbrev read_element : Element → Option (Option Programme)
read_element e = read_programme e.attributes e.inner

iter_programmes-round :
    (xml : Text) (o : Option Element)
    → next_of programme_tag xml ≡ o
    → iter_programmes xml ≡ round read_element iter_programmes o
unfolding iter_programmes
iter_programmes-round xml o q =
    loop_elements-round programme_tag read_element xml ∙ ap (round read_element iter_programmes) q

-- A round of the scan: where it finds no element, it ends; where it finds one, it yields what
-- `readProgramme` makes of the tag and the contents, and goes on behind the closing tag.
abbrev pub GoesOn : Text → Option Element → Type 0
GoesOn xml none =
    (iter_programmes xml ≡ some []) × ¬ HasElement (codes "<programme") (codes "</programme>") xml
GoesOn xml (some e) =
    (iter_programmes xml ≡ (do
      p ← read_programme e.attributes e.inner
      ps ← iter_programmes e.rest
      some (or_skip p ps)))
    × IsElementOf (codes "<programme") b'<' (codes "/programme>") xml e
    × (length e.rest < length xml)

-- The scan of a guide ends for every text, however its tags are nested or cut off: with no bound
-- on the rounds, it is the loop that ends where the search finds no element, and then no opening
-- tag of a programme with `</programme>` behind it is left in the text. The element that the
-- search finds is an opening tag, contents in which no `</programme>` stands, and that closing
-- tag; the loop yields the programme that they give, if any, and goes on exactly with what follows
-- the closing tag, which is shorter than the text.
pub iter_programmes-ends : (xml : Text) → GoesOn xml (next_of programme_tag xml)
iter_programmes-ends xml = by_search (next_of programme_tag xml) refl
  where
    by_search : (o : Option Element) → next_of programme_tag xml ≡ o → GoesOn xml o
    by_search none q = (
      iter_programmes-round xml none q,
      next_element-none b'<' (codes "programme") b'<' (codes "/programme>") xml (omega arith) q,
    )
    by_search (some e) q = (
      iter_programmes-round xml (some e) q,
      next_element-IsElementOf true (codes "<programme") b'<' (codes "/programme>") xml e q,
      next_of-length programme_tag read_element xml e q,
    )
