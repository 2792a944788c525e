-- ===== src/Epg/Cuts.antt =====
-- What the search for an element of a text finds, as a division of the text.
use pytone_digital.Prelude.{
  ℕ, ◌≡◌, refl, ap, ◌∙◌, ◌≢◌, inl, inr, Bool, not, ◌||◌, Option, none, some, [], ◌∷◌, ◌++◌, arith,
  ◌==◌, Bool-cases, Option-cases, subst,
}
use mathlib.Core.List.{append_assoc}
use pytone_digital.Text.{Text, cut_at}
use pytone_digital.Text.Search.{
  strip_prefix, cut_text, is_boundary, tag_end, find_tag, Element, next_element, close_after,
}

pub strip_prefix-parts : (t s rest : Text) → strip_prefix t s ≡ some rest → s ≡ t ++ rest
unfolding strip_prefix
strip_prefix-parts [] s rest h = cc
strip_prefix-parts (d ∷ t) [] rest h = cc
strip_prefix-parts (d ∷ t) (c ∷ s) rest h = elim (Bool-cases (c == d)) [
  | inl e ↦
      let q : strip_prefix t s ≡ some rest = rw e at h in
      let same : c ≡ d = ground arith in let tail = strip_prefix-parts t s rest q in cc
  | inr e ↦ let q = rw e at h in cc
]

pub strip_prefix-append : (t r : Text) → strip_prefix t (t ++ r) ≡ some r
unfolding strip_prefix
strip_prefix-append [] r = refl
strip_prefix-append (d ∷ t) r = ground (arith, strip_prefix-append t r)

pub cut_at-parts : (c : ℕ) (s l r : Text) → cut_at c s ≡ some (l, r) → s ≡ l ++ c ∷ r
unfolding cut_at
cut_at-parts c [] l r h = cc
cut_at-parts c (d ∷ s) l r h = elim (Option-cases (cut_at c s)) [
  | inl n ↦ ground arith
  | inr ((l', r'), q) ↦ ground (arith, cut_at-parts c s l' r' q)
]

cut_text-parts : (t s l r : Text) → cut_text t s ≡ some (l, r) → s ≡ l ++ (t ++ r)
unfolding cut_text
cut_text-parts t [] l r h = elim (Option-cases (strip_prefix t [])) [
  | inl n ↦ ground arith
  | inr (rest, q) ↦ ground (arith, strip_prefix-parts t [] rest q)
]
cut_text-parts t (c ∷ s) l r h = elim (Option-cases (strip_prefix t (c ∷ s))) [
  | inl n ↦ elim (Option-cases (cut_text t s)) [
    | inl m ↦ ground arith
    | inr ((l', r'), q) ↦ ground (arith, cut_text-parts t s l' r' q)
  ]
  | inr (rest, q) ↦ ground (arith, strip_prefix-parts t (c ∷ s) rest q)
]

-- A tag with the given name and attributes stands in the text, before what follows it.
abbrev pub HasTag : Text → Text → Text → Text → Type 0
HasTag name s attributes after =
    (before : Text) × (s ≡ before ++ (name ++ (attributes ++ b'>' ∷ after)))

pub tag_end-parts :
    (bounded : Bool) (o : Option Text) (rest l r : Text)
    → o ≡ some rest
    → tag_end bounded o ≡ some (l, r)
    → rest ≡ l ++ b'>' ∷ r
tag_end-parts bounded none rest l r e h = cc
tag_end-parts bounded (some x) rest l r e h = elim (Bool-cases (not bounded || is_boundary x)) [
  | inl q ↦
      let cut : cut_at b'>' x ≡ some (l, r) = rw q at h in
      let same : x ≡ rest = cc in let parts = cut_at-parts b'>' x l r cut in cc
  | inr q ↦ let k = rw q at h in cc
]

pub find_tag-HasTag :
    (bounded : Bool) (name s l r : Text) → find_tag bounded name s ≡ some (l, r) → HasTag name s l r
unfolding find_tag
find_tag-HasTag bounded name [] l r h = cc
find_tag-HasTag bounded name (c ∷ s) l r h =
    elim (Option-cases (tag_end bounded (strip_prefix name (c ∷ s)))) [
      | inl n ↦
          let (before, q) = find_tag-HasTag bounded name s l r (rw n at h) in
          (c ∷ before, ap (λ x. c ∷ x) q)
      | inr ((l', r'), q) ↦
          let k : some (l', r') ≡ some (l, r) = rw q at h in
          ([], here (strip_prefix name (c ∷ s)) refl (q ∙ k))
    ]
  where
    here :
        (o : Option Text)
        → strip_prefix name (c ∷ s) ≡ o
        → tag_end bounded o ≡ some (l, r)
        → c ∷ s ≡ name ++ (l ++ b'>' ∷ r)
    here none e q = cc
    here (some rest) e q =
        let parts = tag_end-parts bounded (some rest) rest l r refl q in
        strip_prefix-parts name (c ∷ s) rest e ∙ ap (λ x. name ++ x) parts

-- A text stands nowhere in another.
abbrev pub IsAbsent : Text → Text → Type 0
IsAbsent t s = (x y : Text) → s ≢ x ++ (t ++ y)

cut_text-IsAbsent : (d : ℕ) (t s l r : Text) → cut_text (d ∷ t) s ≡ some (l, r) → IsAbsent (d ∷ t) l
unfolding cut_text strip_prefix
cut_text-IsAbsent d t [] l r h = cc
cut_text-IsAbsent d t (c ∷ s) l r h = elim (Option-cases (strip_prefix (d ∷ t) (c ∷ s))) [
  | inr (rest, q) ↦
      let k : some ([], rest) ≡ some (l, r) = rw q at h in
      let empty : [] ≡ l = cc in subst (IsAbsent (d ∷ t)) empty nowhere
  | inl n ↦ elim (Option-cases (cut_text (d ∷ t) s)) [
    | inl m ↦ let k : none ≡ some (l, r) = rw (n, m) at h in cc
    | inr ((l', r'), q) ↦
        let k : some (c ∷ l', r') ≡ some (l, r) = rw (n, q) at h in
        let longer : c ∷ l' ≡ l = cc in
        subst (IsAbsent (d ∷ t)) longer (later l' r' n q (cut_text-IsAbsent d t s l' r' q))
  ]
]
  where
    nowhere : IsAbsent (d ∷ t) []
    nowhere [] y e = cc
    nowhere (a ∷ x) y e = cc

    later :
        (l' r' : Text)
        → strip_prefix (d ∷ t) (c ∷ s) ≡ none
        → cut_text (d ∷ t) s ≡ some (l', r')
        → IsAbsent (d ∷ t) l'
        → IsAbsent (d ∷ t) (c ∷ l')
    later l' r' n q absent [] y e =
        let whole : c ∷ s ≡ (d ∷ t) ++ (y ++ ((d ∷ t) ++ r')) =
          ap (λ z. c ∷ z) (cut_text-parts (d ∷ t) s l' r' q)
          ∙ ap (λ z. z ++ ((d ∷ t) ++ r')) e
          ∙ append_assoc (d ∷ t) y ((d ∷ t) ++ r') in
        let found =
          ap (strip_prefix (d ∷ t)) whole ∙ strip_prefix-append (d ∷ t) (y ++ ((d ∷ t) ++ r')) in
        cc
    later l' r' n q absent (a ∷ x) y e = absent x y (cc)

-- An element of the text: what stands before it, its tag, its contents, in which the closing tag
-- does not stand, the closing tag, and the rest.
abbrev pub IsElementOf : Text → ℕ → Text → Text → Element → Type 0
IsElementOf open_ d close s e =
    HasTag open_ s e.attributes (e.inner ++ ((d ∷ close) ++ e.rest)) × IsAbsent (d ∷ close) e.inner

pub next_element-IsElementOf :
    (bounded : Bool) (open_ : Text) (d : ℕ) (close s : Text) (e : Element)
    → next_element bounded open_ (d ∷ close) s ≡ some e
    → IsElementOf open_ d close s e
unfolding next_element
next_element-IsElementOf bounded open_ d close s e h =
    elim (Option-cases (find_tag bounded open_ s)) [
      | inl n ↦ let k = rw n at h in cc
      | inr ((attributes, after), q) ↦ closed attributes after q (rw q at h)
    ]
  where
    closed :
        (attributes after : Text)
        → find_tag bounded open_ s ≡ some (attributes, after)
        → close_after (d ∷ close) (some (attributes, after)) ≡ some e
        → IsElementOf open_ d close s e
    closed attributes after q k = elim (Option-cases (cut_text (d ∷ close) after)) [
      | inl n ↦ let j = rw n at k in cc
      | inr ((inner, rest), p) ↦
          let found : Element = record { attributes = attributes; inner = inner; rest = rest } in
          let j : some found ≡ some e = rw p at k in
          let same : found ≡ e = cc in
          subst (IsElementOf open_ d close s) same (
            subst (HasTag open_ s attributes) (cut_text-parts (d ∷ close) after inner rest p)
                (find_tag-HasTag bounded open_ s attributes after q),
            cut_text-IsAbsent d close after inner rest p,
          )
    ]
