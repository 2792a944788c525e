-- ===== src/M3u/Order.antt =====
-- The final sort of `parseM3U`: the result is ordered, has the same channels, and keeps the order
-- of channels with one number.
use mathlib.Core.List.{Perm}
use mathlib.Core.List.Perm
use pytone_digital.Prelude.{
  ◌≡◌, refl, ◌∙◌, inl, inr, true, false, not, ◌&&◌, List, [], ◌∷◌, arith, Bool-cases, keep, All,
}
use pytone_digital.Runtime.{Js, IsOrdered}
use pytone_digital.M3u.{Channel}
use pytone_digital.M3u.Playlist.{Scan, channels_of, insert_by_number, sort_by_number}

module _ (js : Js) where
  insert_by_number-perm :
      (c : Channel js.Num) (cs : List (Channel js.Num)) → Perm (insert_by_number js c cs) (c ∷ cs)
  unfolding insert_by_number
  insert_by_number-perm c [] = Perm.refl _
  insert_by_number-perm c (d ∷ ds) = elim (Bool-cases (js.less d.number c.number)) [
    | inl e ↦ rw e (Perm.trans (Perm.cons d (insert_by_number-perm c ds)) (Perm.swap c d ds))
    | inr e ↦ rw e (Perm.refl _)
  ]

  pub sort_by_number-perm : (cs : List (Channel js.Num)) → Perm (sort_by_number js cs) cs
  unfolding sort_by_number
  sort_by_number-perm [] = Perm.refl _
  sort_by_number-perm (c ∷ cs) =
      Perm.trans (insert_by_number-perm c (sort_by_number js cs))
        (Perm.cons c (sort_by_number-perm cs))

  -- No channel has a larger number than one behind it.
  abbrev pub IsSorted : List (Channel js.Num) → Type 0
  IsSorted [] = Unit
  IsSorted (c ∷ cs) = All (λ d. js.less d.number c.number ≡ false) cs × IsSorted cs

  -- The channels whose number is neither below nor above `n`, in their order.
  pub with_number : js.Num → List (Channel js.Num) → List (Channel js.Num)
  with_number n cs = keep (λ c. not (js.less c.number n) && not (js.less n c.number)) cs

  module _ (ord : IsOrdered js) where
    All-insert :
        (P : Channel js.Num → Type 0) (c : Channel js.Num) (cs : List (Channel js.Num))
        → P c
        → All P cs
        → All P (insert_by_number js c cs)
    unfolding insert_by_number
    All-insert P c [] p h = (p, tt)
    All-insert P c (d ∷ ds) p (q, h) = elim (Bool-cases (js.less d.number c.number)) [
      | inl e ↦ rw e (q, All-insert P c ds p h)
      | inr e ↦ rw e (p, (q, h))
    ]

    All-below :
        (c d : Channel js.Num) (ds : List (Channel js.Num))
        → js.less d.number c.number ≡ false
        → All (λ x. js.less x.number d.number ≡ false) ds
        → All (λ x. js.less x.number c.number ≡ false) ds
    All-below c d [] e h = tt
    All-below c d (x ∷ ds) e (p, h) =
        (ord.less_negtrans c.number d.number x.number e p, All-below c d ds e h)

    insert_by_number-IsSorted :
        (c : Channel js.Num) (cs : List (Channel js.Num))
        → IsSorted cs
        → IsSorted (insert_by_number js c cs)
    unfolding insert_by_number
    insert_by_number-IsSorted c [] h = (tt, tt)
    insert_by_number-IsSorted c (d ∷ ds) (p, h) = elim (Bool-cases (js.less d.number c.number)) [
      | inl e ↦ rw e (
        All-insert (λ x. js.less x.number d.number ≡ false) c ds (ord.less_asym _ _ e) p,
        insert_by_number-IsSorted c ds h,
      )
      | inr e ↦ rw e ((e, All-below c d ds e p), (p, h))
    ]

    pub sort_by_number-IsSorted : (cs : List (Channel js.Num)) → IsSorted (sort_by_number js cs)
    unfolding sort_by_number
    sort_by_number-IsSorted [] = tt
    sort_by_number-IsSorted (c ∷ cs) =
        insert_by_number-IsSorted c (sort_by_number js cs) (sort_by_number-IsSorted cs)

    insert_by_number-stable :
        (n : js.Num) (c : Channel js.Num) (cs : List (Channel js.Num))
        → with_number n (insert_by_number js c cs) ≡ with_number n (c ∷ cs)
    unfolding insert_by_number with_number keep
    insert_by_number-stable n c [] = refl
    insert_by_number-stable n c (d ∷ ds) =
        ground (arith, ord.less_negtrans c.number n d.number, insert_by_number-stable n c ds)

    pub sort_by_number-stable :
        (n : js.Num) (cs : List (Channel js.Num))
        → with_number n (sort_by_number js cs) ≡ with_number n cs
    unfolding sort_by_number
    sort_by_number-stable n [] = refl
    sort_by_number-stable n (c ∷ cs) =
        insert_by_number-stable n c (sort_by_number js cs)
        ∙ with_number-cons (sort_by_number-stable n cs)
      where
        with_number-cons :
            with_number n (sort_by_number js cs) ≡ with_number n cs
            → with_number n (c ∷ sort_by_number js cs) ≡ with_number n (c ∷ cs)
        with_number-cons e = unfold with_number keep in ground arith

    pub channels_of-order :
        (s : Scan js.Num)
        → Perm (channels_of js s) s.out
          × (s.saw_explicit_number ≡ true → IsSorted (channels_of js s))
          × (s.saw_explicit_number ≡ false → channels_of js s ≡ s.out)
          × ((n : js.Num) → with_number n (channels_of js s) ≡ with_number n s.out)
    unfolding channels_of
    channels_of-order s = elim (Bool-cases s.saw_explicit_number) [
      | inl e ↦ rw e (
        sort_by_number-perm s.out,
        λ _. sort_by_number-IsSorted s.out,
        λ f. cc,
        λ n. sort_by_number-stable n s.out,
      )
      | inr e ↦ rw e (Perm.refl _, λ f. cc, λ _. refl, λ n. refl)
    ]
