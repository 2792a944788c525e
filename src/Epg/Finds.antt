-- ===== src/Epg/Finds.antt =====
-- The search for an element finds one wherever the text has one.
use mathlib.Core.List.{append_assoc}
use pytone_digital.Prelude.{
  ℕ, ◌≡◌, refl, sym, ap, ◌∙◌, subst, ◌≢◌, inl, inr, true, Option, none, some, [], ◌∷◌, ◌++◌, arith,
  ◌==◌, Bool-cases, Option-cases, All, All-append,
}
use pytone_digital.Text.{Text, cut_at}
use pytone_digital.Text.Search.{
  Element, strip_prefix, cut_text, is_boundary, tag_end, find_tag, next_element,
}
use pytone_digital.Epg.Cuts.{strip_prefix-parts, strip_prefix-append, tag_end-parts, HasTag}

-- The text ends with the other one.
abbrev EndsWith : Text → Text → Type 0
EndsWith after r = (z : Text) × (r ≡ z ++ after)

abbrev Cuts : Text → Option (Text × Text) → Type 0
Cuts after o = (l : Text) × (r : Text) × (o ≡ some (l, r)) × EndsWith after r

-- The first `>` stands before or at any other one.
EndsWith-first :
    (p q r after : Text)
    → All (λ c. c ≢ b'>') p
    → p ++ b'>' ∷ r ≡ q ++ b'>' ∷ after
    → EndsWith after r
EndsWith-first [] [] r after h e = ([], cc)
EndsWith-first [] (d ∷ q) r after h e =
    let tail : r ≡ q ++ b'>' ∷ after = cc in
    (q ++ b'>' ∷ [], tail ∙ sym (append_assoc q (b'>' ∷ []) after))
EndsWith-first (c ∷ p) [] r after (h, k) e = let same : c ≡ b'>' = cc in absurd (h same)
EndsWith-first (c ∷ p) (d ∷ q) r after (h, k) e = EndsWith-first p q r after k (cc)

cut_at-without : (c : ℕ) (s l r : Text) → cut_at c s ≡ some (l, r) → All (λ d. d ≢ c) l
unfolding cut_at
cut_at-without c [] l r h = cc
cut_at-without c (d ∷ s) l r h = elim (Option-cases (cut_at c s)) [
  | inl n ↦ ground arith
  | inr ((l', r'), q) ↦ ground (arith, cut_at-without c s l' r' q)
]

cut_at-Cuts : (l after : Text) → Cuts after (cut_at b'>' (l ++ b'>' ∷ after))
unfolding cut_at
cut_at-Cuts [] after = ([], after, refl, ([], refl))
cut_at-Cuts (d ∷ l) after = elim (Bool-cases (d == b'>')) [
  | inl e ↦
      ([], l ++ b'>' ∷ after, rw e refl, (l ++ b'>' ∷ [], sym (append_assoc l (b'>' ∷ []) after)))
  | inr e ↦ let (x, y, q, z) = cut_at-Cuts l after in (d ∷ x, y, rw (e, q) refl, z)
]

-- What an opening tag is read as, when it is the name with what follows it.
tag_end-Cuts :
    (o : Option Text) (attributes after : Text)
    → o ≡ some (attributes ++ b'>' ∷ after)
    → is_boundary (attributes ++ b'>' ∷ after) ≡ true
    → Cuts after (tag_end true o)
tag_end-Cuts none attributes after e h = cc
tag_end-Cuts (some x) attributes after e h =
    let same : attributes ++ b'>' ∷ after ≡ x = cc in
    subst (λ y. Cuts after (tag_end true (some y))) same (rw h (cut_at-Cuts attributes after))

-- A tag that is found earlier ends before or at the end of this one.
earlier-EndsWith :
    (name s l r q after : Text) (o : Option Text)
    → All (λ c. c ≢ b'>') name
    → strip_prefix name s ≡ o
    → tag_end true o ≡ some (l, r)
    → s ≡ q ++ b'>' ∷ after
    → EndsWith after r
earlier-EndsWith name s l r q after none n p t e = cc
earlier-EndsWith name s l r q after (some x) n p t e =
    EndsWith-first (name ++ l) q r after (All-append (λ c. c ≢ b'>') name l n (unclosed t)) (
      append_assoc name l (b'>' ∷ r)
      ∙ (sym (ap (λ y. name ++ y) (tag_end-parts true (some x) x l r refl t))
          ∙ (sym (strip_prefix-parts name s x p) ∙ e)))
  where
    unclosed : tag_end true (some x) ≡ some (l, r) → All (λ c. c ≢ b'>') l
    unclosed t = elim (Bool-cases (is_boundary x)) [
      | inl b ↦ cut_at-without b'>' x l r (rw b at t)
      | inr b ↦ let k : none ≡ some (l, r) = rw b at t in cc
    ]

find_tag-Cuts :
    (n : ℕ) (name before attributes after : Text)
    → All (λ c. c ≢ b'>') (n ∷ name)
    → is_boundary (attributes ++ b'>' ∷ after) ≡ true
    → Cuts after (find_tag true (n ∷ name) (before ++ ((n ∷ name) ++ (attributes ++ b'>' ∷ after))))
unfolding find_tag
find_tag-Cuts n name [] attributes after w h =
    let (l, r, q, z) =
      tag_end-Cuts (strip_prefix (n ∷ name) ((n ∷ name) ++ (attributes ++ b'>' ∷ after))) attributes
        after (strip_prefix-append (n ∷ name) (attributes ++ b'>' ∷ after)) h in
    (l, r, rw q refl, z)
find_tag-Cuts n name (c ∷ before) attributes after w h =
    let s = c ∷ (before ++ ((n ∷ name) ++ (attributes ++ b'>' ∷ after))) in
    elim (Option-cases (tag_end true (strip_prefix (n ∷ name) s))) [
      | inl e ↦
          let (l, r, q, z) = find_tag-Cuts n name before attributes after w h in
          (l, r, rw (e, q) refl, z)
      | inr ((l, r), e) ↦ (
        l,
        r,
        rw e refl,
        earlier-EndsWith (n ∷ name) s l r ((c ∷ before) ++ ((n ∷ name) ++ attributes)) after
            (strip_prefix (n ∷ name) s) w refl e
            (ap (λ y. (c ∷ before) ++ y) (sym (append_assoc (n ∷ name) attributes (b'>' ∷ after)))
              ∙ sym (append_assoc (c ∷ before) ((n ∷ name) ++ attributes) (b'>' ∷ after))),
      )
    ]

cut_text-found : (d : ℕ) (t l r : Text) → cut_text (d ∷ t) (l ++ ((d ∷ t) ++ r)) ≢ none
unfolding cut_text
cut_text-found d t [] r h =
    let k = strip_prefix-append (d ∷ t) r in let j : some ([], r) ≡ none = rw k at h in cc
cut_text-found d t (c ∷ l) r h =
    elim (Option-cases (strip_prefix (d ∷ t) (c ∷ (l ++ ((d ∷ t) ++ r))))) [
      | inr (rest, q) ↦ let j : some ([], rest) ≡ none = rw q at h in cc
      | inl n ↦ elim (Option-cases (cut_text (d ∷ t) (l ++ ((d ∷ t) ++ r)))) [
        | inl m ↦ absurd (cut_text-found d t l r m)
        | inr ((x, y), q) ↦ let j : some (c ∷ x, y) ≡ none = rw (n, q) at h in cc
      ]
    ]

-- The text has an opening tag, whose name ends where its attributes begin, and the closing tag
-- behind it.
abbrev pub HasElement : Text → Text → Text → Type 0
HasElement open_ close s =
    (attributes : Text) × (inner : Text) × (rest : Text) × HasTag open_ s attributes
      (inner ++ (close ++ rest))
    × (is_boundary (attributes ++ b'>' ∷ (inner ++ (close ++ rest))) ≡ true)

-- Where the search finds nothing there is no element.
pub next_element-none :
    (n : ℕ) (name : Text) (d : ℕ) (close s : Text)
    → All (λ c. c ≢ b'>') (n ∷ name)
    → next_element true (n ∷ name) (d ∷ close) s ≡ none
    → ¬ HasElement (n ∷ name) (d ∷ close) s
unfolding next_element
next_element-none n name d close s w h (attributes, inner, rest, (before, e), b) =
    found (find_tag-Cuts n name before attributes (inner ++ ((d ∷ close) ++ rest)) w b)
  where
    found :
        Cuts (inner ++ ((d ∷ close) ++ rest)) (
          find_tag true
            (n ∷ name)
            (before ++ ((n ∷ name) ++ (attributes ++ b'>' ∷ (inner ++ ((d ∷ close) ++ rest))))))
        → ⊥
    found (l, r, q, (z, p)) =
        let tagged : find_tag true (n ∷ name) s ≡ some (l, r) =
          ap (find_tag true (n ∷ name)) e ∙ q in
        let whole : r ≡ (z ++ inner) ++ ((d ∷ close) ++ rest) =
          p ∙ sym (append_assoc z inner ((d ∷ close) ++ rest)) in
        elim (Option-cases (cut_text (d ∷ close) r)) [
          | inl m ↦
              cut_text-found d close (z ++ inner) rest (sym (ap (cut_text (d ∷ close)) whole) ∙ m)
          | inr ((x, y), m) ↦
              let element : Element = record { attributes = l; inner = x; rest = y } in
              let j : some element ≡ none = rw (tagged, m) at h in cc
        ]
