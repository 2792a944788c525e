-- ===== src/Probe/Counting.antt =====
-- Counting: how often an item was asked for, is held by a worker, or has a verdict.
use pytone_digital.Prelude.{
  ℕ, zero, suc, ◌+◌, ◌≤◌, ◌<◌, ◌≡◌, refl, ap, ◌∙◌, true, none, some, List, [], ◌∷◌, ◌++◌, map,
  arith, if◌then◌else◌, length, get_elem?, take,
}
use pytone_digital.Text.{Text, text_eq}
use pytone_digital.Probe.{Item, Verdict}
use pytone_digital.Probe.Pool.{returned, is_done, is_done, Worker, probing, returned, is_done}

abbrev pub once : Text → Text → ℕ
once id x = if text_eq x id then 1 else 0

-- How often a text occurs in a list.
unfoldable pub occurs : Text → List Text → ℕ
occurs id [] = 0
occurs id (x ∷ xs) = once id x + occurs id xs

unfoldable pub ids_of : List Item → List Text
ids_of items = map (λ i. i.id) items

unfoldable pub answered_ids : List Verdict → List Text
answered_ids vs = map (λ v. v.id) vs

unfoldable pub held : Text → List Worker → ℕ
held id [] = 0
held id (returned ∷ ws) = held id ws
held id (probing x p ∷ ws) = once id x + held id ws

unfoldable pub busy : List Worker → ℕ
busy [] = 0
busy (returned ∷ ws) = busy ws
busy (probing x p ∷ ws) = suc (busy ws)

pub occurs-append :
    (id : Text) (xs ys : List Text) → occurs id (xs ++ ys) ≡ occurs id xs + occurs id ys
unfolding occurs
occurs-append id [] ys = omega arith
occurs-append id (x ∷ xs) ys = omega (arith, occurs-append id xs ys)

pub answered_ids-append :
    (vs : List Verdict) (v : Verdict) → answered_ids (vs ++ v ∷ []) ≡ answered_ids vs ++ v.id ∷ []
unfolding answered_ids
answered_ids-append [] v = refl
answered_ids-append (w ∷ vs) v = ap (λ l. w.id ∷ l) (answered_ids-append vs v)

-- The next item of a list is one more of its first ones.
pub occurs-take-suc :
    (id : Text) (items : List Item) (k : ℕ) (i : Item)
    → get_elem? items k ≡ some i
    → (occurs id (ids_of (take (suc k) items)) ≡ occurs id (ids_of (take k items)) + once id i.id)
      × (k < length items)
unfolding occurs ids_of
occurs-take-suc id [] k i h = cc
occurs-take-suc id (j ∷ items) zero i h = ground arith
occurs-take-suc id (j ∷ items) (suc k) i h =
    let (e, l) = occurs-take-suc id items k i h in (omega arith, omega arith)

pub get_elem?-none : (items : List Item) (k : ℕ) → get_elem? items k ≡ none → length items ≤ k
get_elem?-none [] k h = omega arith
get_elem?-none (i ∷ items) zero h = cc
get_elem?-none (i ∷ items) (suc k) h = omega (arith, get_elem?-none items k h)

pub occurs-answered :
    (id : Text) (vs : List Verdict) (v : Verdict)
    → occurs id (answered_ids (vs ++ v ∷ [])) ≡ occurs id (answered_ids vs) + once id v.id
unfolding occurs
occurs-answered id vs v =
    ap (occurs id) (answered_ids-append vs v)
    ∙ occurs-append id (answered_ids vs) (v.id ∷ [])
    ∙ omega arith

pub held-nil : (id : Text) → held id [] ≡ 0
unfolding held
held-nil id = refl

pub none_answered : (id : Text) → occurs id (answered_ids []) ≡ 0
unfolding occurs answered_ids
none_answered id = refl

pub busy-nil : busy [] ≡ 0
unfolding busy
busy-nil = refl

pub held-cons :
    (id : Text) (w : Worker) (ws : List Worker) → held id (w ∷ ws) ≡ held id (w ∷ []) + held id ws
unfolding held
held-cons id returned ws = omega arith
held-cons id (probing x p) ws = omega arith

pub busy-cons : (w : Worker) (ws : List Worker) → busy (w ∷ ws) ≡ busy (w ∷ []) + busy ws
unfolding busy
busy-cons returned ws = omega arith
busy-cons (probing x p) ws = omega arith

pub held-done : (id : Text) (ws : List Worker) → is_done ws ≡ true → held id ws ≡ 0
unfolding held
held-done id [] d = refl
held-done id (returned ∷ ws) d = held-done id ws d
held-done id (probing x p ∷ ws) d = cc

pub busy-done : (ws : List Worker) → is_done ws ≡ true → busy ws ≡ 0
unfolding busy
busy-done [] d = refl
busy-done (returned ∷ ws) d = busy-done ws d
busy-done (probing x p ∷ ws) d = cc
