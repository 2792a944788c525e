-- ===== src/Epg/Order.antt =====
-- The index of a guide: each channel's programmes, all of them, in the order of their starts.
use pytone_digital.Prelude.{
  ℕ, ◌≤◌, ◌≡◌, refl, sym, ap, ◌∙◌, inl, inr, Option, none, some, List, [], ◌∷◌, ◌++◌, arith, ltb,
  ◌==◌, ltb→lt, Bool-cases, keep, All,
}
use mathlib.Core.List.{Perm, append_assoc, append-nil}
use mathlib.Core.List.Perm
use pytone_digital.Text.{Text, text_eq}
use pytone_digital.Text.Equality.{text_eq_iff, text_eq_refl}
use pytone_digital.Dictionary.{lookup, lookup-insert, lookup-insert_self}
use pytone_digital.Epg.{Programme}
use pytone_digital.Epg.Scan.{
  Guide, or_nothing, insert_by_start, sort_by_start, push_programme, group_programmes, sort_guide,
  iter_programmes, index_programmes,
}

insert_by_start-perm : (p : Programme) (ps : List Programme) → Perm (insert_by_start p ps) (p ∷ ps)
unfolding insert_by_start
insert_by_start-perm p [] = Perm.refl _
insert_by_start-perm p (q ∷ qs) = elim (Bool-cases (ltb q.start p.start)) [
  | inl e ↦ rw e (Perm.trans (Perm.cons q (insert_by_start-perm p qs)) (Perm.swap p q qs))
  | inr e ↦ rw e (Perm.refl _)
]

sort_by_start-perm : (ps : List Programme) → Perm (sort_by_start ps) ps
unfolding sort_by_start
sort_by_start-perm [] = Perm.refl _
sort_by_start-perm (p ∷ ps) =
    Perm.trans (insert_by_start-perm p (sort_by_start ps)) (Perm.cons p (sort_by_start-perm ps))

-- No programme starts before one in front of it.
abbrev pub IsSorted : List Programme → Type 0
IsSorted [] = Unit
IsSorted (p ∷ ps) = All (λ q. p.start ≤ q.start) ps × IsSorted ps

All-insert :
    (P : Programme → Type 0) (p : Programme) (ps : List Programme)
    → P p
    → All P ps
    → All P (insert_by_start p ps)
unfolding insert_by_start
All-insert P p [] h k = (h, tt)
All-insert P p (q ∷ qs) h (k, ks) = elim (Bool-cases (ltb q.start p.start)) [
  | inl e ↦ rw e (k, All-insert P p qs h ks)
  | inr e ↦ rw e (h, (k, ks))
]

All-le :
    (m n : ℕ) (ps : List Programme) → m ≤ n → All (λ q. n ≤ q.start) ps → All (λ q. m ≤ q.start) ps
All-le m n [] h k = tt
All-le m n (p ∷ ps) h (k, ks) = (omega arith, All-le m n ps h ks)

insert_by_start-IsSorted :
    (p : Programme) (ps : List Programme) → IsSorted ps → IsSorted (insert_by_start p ps)
unfolding insert_by_start
insert_by_start-IsSorted p [] h = (tt, tt)
insert_by_start-IsSorted p (q ∷ qs) (k, ks) = elim (Bool-cases (ltb q.start p.start)) [
  | inl e ↦ rw e (
    All-insert (λ r. q.start ≤ r.start) p qs (omega (arith, ltb→lt q.start p.start e)) k,
    insert_by_start-IsSorted p qs ks,
  )
  | inr e ↦
      let first : p.start ≤ q.start = ground arith in
      rw e ((first, All-le p.start q.start qs first k), (k, ks))
]

pub sort_by_start-IsSorted : (ps : List Programme) → IsSorted (sort_by_start ps)
unfolding sort_by_start
sort_by_start-IsSorted [] = tt
sort_by_start-IsSorted (p ∷ ps) =
    insert_by_start-IsSorted p (sort_by_start ps) (sort_by_start-IsSorted ps)

-- The programmes that start at a time, in their order.
pub starting_at : ℕ → List Programme → List Programme
starting_at n ps = keep (λ p. p.start == n) ps

insert_by_start-stable :
    (n : ℕ) (p : Programme) (ps : List Programme)
    → starting_at n (insert_by_start p ps) ≡ starting_at n (p ∷ ps)
unfolding insert_by_start starting_at keep
insert_by_start-stable n p [] = refl
insert_by_start-stable n p (q ∷ qs) = ground (arith, insert_by_start-stable n p qs)

sort_by_start-stable :
    (n : ℕ) (ps : List Programme) → starting_at n (sort_by_start ps) ≡ starting_at n ps
unfolding sort_by_start
sort_by_start-stable n [] = refl
sort_by_start-stable n (p ∷ ps) =
    insert_by_start-stable n p (sort_by_start ps) ∙ starting_at-cons (sort_by_start-stable n ps)
  where
    starting_at-cons :
        starting_at n (sort_by_start ps) ≡ starting_at n ps
        → starting_at n (p ∷ sort_by_start ps) ≡ starting_at n (p ∷ ps)
    starting_at-cons e = unfold starting_at keep in ground arith

-- A list that the index keeps: it keeps none that is empty.
abbrev pub listed : List Programme → Option (List Programme)
listed [] = none
listed (p ∷ ps) = some (p ∷ ps)

listed-append : (ps : List Programme) (p : Programme) → listed (ps ++ p ∷ []) ≡ some (ps ++ p ∷ [])
listed-append [] p = refl
listed-append (q ∷ qs) p = refl

-- The programmes of one channel, in the order of the file.
pub of_channel : Text → List Programme → List Programme
of_channel id ps = keep (λ p. text_eq p.channel_id id) ps

lookup-push_programme :
    (id : Text) (out : Guide) (p : Programme)
    → lookup id out ≡ listed (or_nothing (lookup id out))
    → lookup id (push_programme out p)
      ≡ listed (or_nothing (lookup id out) ++ of_channel id (p ∷ []))
unfolding push_programme of_channel keep
lookup-push_programme id out p h = elim (Bool-cases (text_eq p.channel_id id)) [
  | inl e ↦
      rw
        (
          sym ((text_eq_iff p.channel_id id).0 e),
          lookup-insert_self p.channel_id (or_nothing (lookup p.channel_id out) ++ p ∷ []) out,
          text_eq_refl p.channel_id,
        )
        (sym (listed-append (or_nothing (lookup p.channel_id out)) p))
  | inr e ↦
      rw (lookup-insert p.channel_id id (or_nothing (lookup p.channel_id out) ++ p ∷ []) out, e)
        (h ∙ ap listed (sym (append-nil (or_nothing (lookup id out)))))
]

or_nothing-listed : (ps : List Programme) → or_nothing (listed ps) ≡ ps
or_nothing-listed [] = refl
or_nothing-listed (p ∷ ps) = refl

lookup-group_programmes :
    (id : Text) (ps : List Programme) (out : Guide)
    → lookup id out ≡ listed (or_nothing (lookup id out))
    → lookup id (group_programmes out ps) ≡ listed (or_nothing (lookup id out) ++ of_channel id ps)
unfolding group_programmes
lookup-group_programmes id [] out h =
    h ∙ ap listed (sym (append-nil (or_nothing (lookup id out)))) ∙ unfold of_channel keep in refl
lookup-group_programmes id (p ∷ ps) out h =
    lookup-group_programmes id ps (push_programme out p) (pushed ∙ ap listed (sym found))
    ∙ ap listed joined
  where
    pushed :
        lookup id (push_programme out p)
        ≡ listed (or_nothing (lookup id out) ++ of_channel id (p ∷ []))
    pushed = lookup-push_programme id out p h

    found :
        or_nothing (lookup id (push_programme out p))
        ≡ or_nothing (lookup id out) ++ of_channel id (p ∷ [])
    found = ap or_nothing pushed ∙ or_nothing-listed _

    of_channel-cons : of_channel id (p ∷ []) ++ of_channel id ps ≡ of_channel id (p ∷ ps)
    of_channel-cons = unfold of_channel keep in ground arith

    joined :
        or_nothing (lookup id (push_programme out p)) ++ of_channel id ps
        ≡ or_nothing (lookup id out) ++ of_channel id (p ∷ ps)
    joined =
        ap (λ l. l ++ of_channel id ps) found
        ∙ append_assoc (or_nothing (lookup id out)) (of_channel id (p ∷ [])) (of_channel id ps)
        ∙ ap (λ l. or_nothing (lookup id out) ++ l) of_channel-cons

sort_each : Option (List Programme) → Option (List Programme)
sort_each none = none
sort_each (some ps) = some (sort_by_start ps)

lookup-sort_guide :
    (id : Text) (out : Guide) → lookup id (sort_guide out) ≡ sort_each (lookup id out)
unfolding sort_guide lookup sort_each
lookup-sort_guide id [] = refl
lookup-sort_guide id ((j, ps) ∷ out) = ground (arith, lookup-sort_guide id out)

insert-listed :
    (p : Programme) (ps : List Programme)
    → listed (insert_by_start p ps) ≡ some (insert_by_start p ps)
unfolding insert_by_start
insert-listed p [] = refl
insert-listed p (q ∷ qs) = ground arith

sort_each-listed : (ps : List Programme) → sort_each (listed ps) ≡ listed (sort_by_start ps)
unfolding sort_each
sort_each-listed [] = unfold sort_by_start in refl
sort_each-listed (p ∷ ps) = unfold sort_by_start in sym (insert-listed p (sort_by_start ps))

-- A guide none of whose programmes makes the reading throw has an index. In it, a channel id has an entry
-- exactly when the guide has a programme for it; the entry holds all of them and nothing else,
-- in the order of their starts, and those that start together in the order of the file.
pub index_programmes-lookup :
    (xml : Text) (ps : List Programme)
    → iter_programmes xml ≡ some ps
    → (g : Guide) × (index_programmes xml ≡ some g)
      × ((id : Text) → lookup id g ≡ listed (sort_by_start (of_channel id ps)))
      × ((id : Text) → IsSorted (or_nothing (lookup id g)))
      × ((id : Text) → Perm (or_nothing (lookup id g)) (of_channel id ps))
      × ((id : Text) (n : ℕ)
          → starting_at n (or_nothing (lookup id g)) ≡ starting_at n (of_channel id ps))
unfolding lookup
index_programmes-lookup xml ps h = (
  sort_guide (group_programmes [] ps),
  unfold index_programmes in rw h refl,
  found,
  λ id. rw (entry id) (sort_by_start-IsSorted (of_channel id ps)),
  λ id. rw (entry id) (sort_by_start-perm (of_channel id ps)),
  λ id n. rw (entry id) (sort_by_start-stable n (of_channel id ps)),
)
  where
    found :
        (id : Text)
        → lookup id (sort_guide (group_programmes [] ps))
          ≡ listed (sort_by_start (of_channel id ps))
    found id =
        lookup-sort_guide id (group_programmes [] ps)
        ∙ ap sort_each (lookup-group_programmes id ps [] refl)
        ∙ sort_each-listed (of_channel id ps)

    entry :
        (id : Text)
        → or_nothing (lookup id (sort_guide (group_programmes [] ps)))
          ≡ sort_by_start (of_channel id ps)
    entry id = ap or_nothing (found id) ∙ or_nothing-listed (sort_by_start (of_channel id ps))
