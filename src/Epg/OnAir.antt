-- ===== src/Epg/OnAir.antt =====
-- What is on now and next, on the sorted list of a channel.
use pytone_digital.Prelude.{
  ℕ, ◌≤◌, ◌<◌, ◌≡◌, refl, sym, ap, ◌∙◌, subst, inl, inr, Bool, false, ◌&&◌, Option, none, some,
  List, [], ◌∷◌, ◌++◌, foldl, arith, ltb, leb, ltb→lt, Bool-cases, get_elem?, keep, All,
}
use mathlib.Core.List.{append_assoc, append-nil}
use pytone_digital.Epg.{Programme}
use pytone_digital.Epg.Order.{IsSorted}
use pytone_digital.Epg.Now.{sort_out, pick_now_next}

-- The programmes that start after a time, in their order.
pub starting_after : ℕ → List Programme → List Programme
starting_after now ps = keep (λ p. ltb now p.start) ps

-- The programmes that are on at a time.
pub running_at : ℕ → List Programme → List Programme
running_at now ps = keep (λ p. leb p.start now && ltb now p.stop) ps

abbrev pub last_or : Option Programme → List Programme → Option Programme
last_or current [] = current
last_or current (p ∷ ps) = last_or (some p) ps

module _ (now : ℕ) where
  sort_out-all :
      (ps : List Programme) (current : Option Programme) (upcoming : List Programme)
      → foldl (sort_out now) (current, upcoming) ps
        ≡ (last_or current (running_at now ps), upcoming ++ starting_after now ps)
  unfolding sort_out running_at starting_after keep
  sort_out-all [] current upcoming = ap (λ l. (current, l)) (sym (append-nil upcoming))
  sort_out-all (p ∷ ps) current upcoming = elim (Bool-cases (leb p.start now && ltb now p.stop)) [
    | inl e ↦
        let later : ltb now p.start ≡ false = ground arith in
        rw (e, later) (sort_out-all ps (some p) upcoming)
    | inr e ↦ elim (Bool-cases (ltb now p.start)) [
      | inl f ↦
          rw (e, f)
            (sort_out-all ps current (upcoming ++ p ∷ [])
              ∙ ap (λ l. (last_or current (running_at now ps), l))
                  (append_assoc upcoming (p ∷ []) (starting_after now ps)))
      | inr f ↦ rw (e, f) (sort_out-all ps current upcoming)
    ]
  ]

All-keep :
    (P : Programme → Type 0) (f : Programme → Bool) (ps : List Programme)
    → All P ps
    → All P (keep f ps)
unfolding keep
All-keep P f [] h = tt
All-keep P f (p ∷ ps) (h, hs) = elim (Bool-cases (f p)) [
  | inl e ↦ rw e (h, All-keep P f ps hs)
  | inr e ↦ rw e (All-keep P f ps hs)
]

last_or-All :
    (P : Programme → Type 0) (c p : Programme) (ps : List Programme)
    → last_or (some c) ps ≡ some p
    → P c
    → All P ps
    → P p
last_or-All P c p [] h k ks = subst P (ground arith) k
last_or-All P c p (q ∷ qs) h k (l, ls) = last_or-All P q p qs h l ls

-- Whether a programme is on at a time.
abbrev pub IsOn : ℕ → Programme → Type 0
IsOn now p = (p.start ≤ now) × (now < p.stop)

module _ (now : ℕ) where
  All-running : (ps : List Programme) → All (IsOn now) (running_at now ps)
  unfolding running_at keep
  All-running [] = tt
  All-running (p ∷ ps) = elim (Bool-cases (leb p.start now && ltb now p.stop)) [
    | inl e ↦ rw e (ground arith, All-running ps)
    | inr e ↦ rw e (All-running ps)
  ]

  -- The last programme that is on is on, and no other that is on starts later.
  last-running :
      (c p : Programme) (ps : List Programme)
      → last_or (some c) (running_at now ps) ≡ some p
      → All (λ q. c.start ≤ q.start) ps
      → IsSorted ps
      → (c.start ≤ p.start) × All (λ q. IsOn now q → q.start ≤ p.start) ps
  unfolding running_at keep
  last-running c p [] h k s = (last_or-All (λ q. c.start ≤ q.start) c p [] h (omega arith) tt, tt)
  last-running c p (q ∷ qs) h (k, ks) (s, ss) =
      elim (Bool-cases (leb q.start now && ltb now q.stop)) [
        | inl e ↦
            let (first, rest) = last-running q p qs (rw e at h) s ss in
            (omega arith, (λ _. first, rest))
        | inr e ↦
            let (first, rest) = last-running c p qs (rw e at h) ks ss in
            (first, (λ on. absurd (ground arith), rest))
      ]

  latest :
      (p : Programme) (ps : List Programme)
      → last_or none (running_at now ps) ≡ some p
      → IsSorted ps
      → IsOn now p × All (λ q. IsOn now q → q.start ≤ p.start) ps
  unfolding running_at keep
  latest p [] h s = cc
  latest p (q ∷ qs) h (s, ss) = elim (Bool-cases (leb q.start now && ltb now q.stop)) [
    | inl e ↦
        let k = rw e at h in
        let (first, rest) = last-running q p qs k s ss in
        (
          last_or-All (IsOn now) q p (running_at now qs) k (ground arith) (All-running qs),
          (λ _. first, rest),
        )
    | inr e ↦
        let (on, rest) = latest p qs (rw e at h) ss in (on, (λ on. absurd (ground arith), rest))
  ]

  earliest :
      (p : Programme) (ps : List Programme)
      → get_elem? (starting_after now ps) 0 ≡ some p
      → IsSorted ps
      → (now < p.start) × All (λ q. now < q.start → p.start ≤ q.start) ps
  unfolding starting_after keep
  earliest p [] h s = cc
  earliest p (q ∷ qs) h (s, ss) = elim (Bool-cases (ltb now q.start)) [
    | inl e ↦
        let same : q ≡ p = ground arith in
        subst (λ r. (now < r.start) × All (λ t. now < t.start → r.start ≤ t.start) (q ∷ qs)) same
          (ltb→lt now q.start e, (λ _. omega arith, weaken qs s))
    | inr e ↦
        let (first, rest) = earliest p qs (rw e at h) ss in
        (first, (λ k. absurd (ground arith), rest))
  ]
    where
      weaken :
          (ts : List Programme)
          → All (λ t. q.start ≤ t.start) ts
          → All (λ t. now < t.start → q.start ≤ t.start) ts
      weaken [] h = tt
      weaken (t ∷ ts) (h, hs) = (λ _. h, weaken ts hs)

last_or-some : (c : Programme) (ps : List Programme) → last_or (some c) ps ≡ none → ⊥
last_or-some c [] h = cc
last_or-some c (p ∷ ps) h = last_or-some p ps h

none_running :
    (now : ℕ) (ps : List Programme)
    → last_or none (running_at now ps) ≡ none
    → All (λ q. IsOn now q → ⊥) ps
unfolding running_at keep
none_running now [] h = tt
none_running now (p ∷ ps) h = elim (Bool-cases (leb p.start now && ltb now p.stop)) [
  | inl e ↦ absurd (last_or-some p (running_at now ps) (rw e at h))
  | inr e ↦ (λ on. ground arith, none_running now ps (rw e at h))
]

-- On a list in the order of the starts: the programme shown as on now is on, and no other that is
-- on started later; one is shown whenever one is on. The next two are the first two of those that
-- start later, in that order, and none of those starts before the first.
pub pick_now_next-times :
    (now : ℕ) (ps : List Programme)
    → IsSorted ps
    → ((p : Programme)
        → (pick_now_next ps now).now ≡ some p
        → IsOn now p × All (λ q. IsOn now q → q.start ≤ p.start) ps)
      × ((pick_now_next ps now).now ≡ none → All (λ q. IsOn now q → ⊥) ps)
      × ((pick_now_next ps now).next1 ≡ get_elem? (starting_after now ps) 0)
      × ((pick_now_next ps now).next2 ≡ get_elem? (starting_after now ps) 1)
      × ((p : Programme)
          → (pick_now_next ps now).next1 ≡ some p
          → (now < p.start) × All (λ q. now < q.start → p.start ≤ q.start) ps)
unfolding pick_now_next
pick_now_next-times now ps s =
    rw (sort_out-all now ps none [])
      (λ p h. latest now p ps h s, none_running now ps, refl, refl, λ p h. earliest now p ps h s)
