-- ===== src/Epg/Tails.antt =====
-- What stripping the tags of a channel name leaves.
use pytone_digital.Prelude.{
  ◌≤◌, ◌≡◌, refl, sym, ap, ◌∙◌, ◌⊎◌, inl, inr, true, [], ◌∷◌, ◌++◌, leb, leb→le, Bool-cases, length,
}
use mathlib.Core.List.{append-nil}
use pytone_digital.Text.{Text}
use pytone_digital.Epg.Names.{is_tail, drop_tail, strip_quality_tags}

drop_tail-append :
    (s : Text) → (tail : Text) × (s ≡ drop_tail s ++ tail) × ((tail ≡ []) ⊎ (is_tail tail ≡ true))
unfolding drop_tail
drop_tail-append [] = ([], refl, inl refl)
drop_tail-append (c ∷ s) = elim (Bool-cases (is_tail (c ∷ s))) [
  | inl e ↦ rw e (c ∷ s, refl, inr e)
  | inr e ↦
      let (tail, joined, kind) = drop_tail-append s in rw e (tail, ap (λ l. c ∷ l) joined, kind)
]

-- Stripping the tags either leaves a name as it is, or cuts off an end that is one tag after
-- another and leaves at least three units. A name of three units or more stays one.
pub strip_quality_tags-tail :
    (name : Text)
    → ((strip_quality_tags name ≡ name)
        ⊎ ((tail : Text) × (name ≡ strip_quality_tags name ++ tail)
            × (is_tail tail ≡ true)
            × (3 ≤ length (strip_quality_tags name))))
      × (3 ≤ length name → 3 ≤ length (strip_quality_tags name))
unfolding strip_quality_tags
strip_quality_tags-tail name = elim (Bool-cases (leb 3 (length (drop_tail name)))) [
  | inl e ↦
      let long = leb→le 3 (length (drop_tail name)) e in
      let (tail, joined, kind) = drop_tail-append name in
      rw e (kept tail joined kind long, λ _. long)
  | inr e ↦ rw e (inl refl, λ h. h)
]
  where
    kept :
        (tail : Text)
        → name ≡ drop_tail name ++ tail
        → (tail ≡ []) ⊎ (is_tail tail ≡ true)
        → 3 ≤ length (drop_tail name)
        → (drop_tail name ≡ name)
          ⊎ ((tail : Text) × (name ≡ drop_tail name ++ tail)
              × (is_tail tail ≡ true)
              × (3 ≤ length (drop_tail name)))
    kept tail joined (inl e) long =
        inl (sym (append-nil (drop_tail name)) ∙ ap (λ t. drop_tail name ++ t) (sym e) ∙ sym joined)
    kept tail joined (inr e) long = inr (tail, joined, e, long)
