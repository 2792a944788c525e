-- ===== src/Double/Bounds.antt =====
-- How far the rounded product is from the exact one.
use native.Mathlib.Nat.{div-add-mod, mod-lt}
use pytone_digital.Prelude.{
  ℕ, zero, suc, ◌+◌, ◌*◌, ◌≤◌, ◌<◌, ◌≡◌, refl, ◌⊎◌, inl, inr, true, false, arith, ltb, ltb→lt,
  Bool-cases,
}
use pytone_digital.Double.{round_to, round_from, round_53, seven_tenths, exceeds_seven_tenths}

-- `m` is within half a unit in the last of 53 binary places of `n`.
record IsNear (n m : ℕ) : Type 0 where
  above : 9007199254740992 * m ≤ 9007199254740993 * n
  below : 9007199254740991 * n ≤ 9007199254740992 * m

abbrev IsUnit : ℕ → ℕ → Type 0
IsUnit unit n = (unit ≡ 1) ⊎ ((0 < unit) × (4503599627370496 * unit ≤ n))

round_to_bounds :
    (unit n : ℕ)
    → 0 < unit
    → (2 * round_to unit n ≤ 2 * n + unit) × (2 * n ≤ 2 * round_to unit n + unit)
unfolding round_to
round_to_bounds unit n h = ground (arith, div-add-mod n unit, mod-lt n h)

round_to-IsNear : (unit n : ℕ) → IsUnit unit n → IsNear n (round_to unit n)
round_to-IsNear unit n (inl e) = rw e (rw (exact n) (omega arith))
  where
    exact : (n : ℕ) → round_to 1 n ≡ n
    exact n = unfold round_to in ground arith
round_to-IsNear unit n (inr (p, h)) =
    let (a, b) = round_to_bounds unit n p in record { above = omega arith; below = omega arith }

round_from-IsNear : (f unit n : ℕ) → IsUnit unit n → IsNear n (round_from f unit n)
unfolding round_from
round_from-IsNear zero unit n h = round_to-IsNear unit n h
round_from-IsNear (suc f) unit n h = elim (Bool-cases (ltb n (9007199254740992 * unit))) [
  | inl e ↦ rw e (round_to-IsNear unit n h)
  | inr e ↦ rw e (round_from-IsNear f (2 * unit) n (inr (doubled unit h, ground arith)))
]
  where
    doubled : (unit : ℕ) → IsUnit unit n → 0 < 2 * unit
    doubled unit (inl e) = omega arith
    doubled unit (inr (p, _)) = omega arith

-- The comparison of doubles is that of the exact values, except at equality, where the product may
-- have been rounded down.
pub exceeds_seven_tenths_bounds :
    (size total : ℕ)
    → total < 4294967296
    → (exceeds_seven_tenths size total ≡ true → 7 * total ≤ 10 * size)
      × (exceeds_seven_tenths size total ≡ false → 10 * size ≤ 7 * total)
unfolding exceeds_seven_tenths round_53
exceeds_seven_tenths_bounds size total h =
    let near = round_from-IsNear 64 1 (total * seven_tenths) (inl refl) in
    (λ e. omega (arith, ltb→lt _ _ e, near.below), λ e. omega (arith, not-ltb _ _ e, near.above))
  where
    not-ltb : (a b : ℕ) → ltb a b ≡ false → b ≤ a
    not-ltb a b e = ground arith

-- Hiding 63 of 90 channels, exactly seven tenths, counts as more than seven tenths.
exceeds_at_equality : exceeds_seven_tenths 63 90 ≡ true
unfolding exceeds_seven_tenths round_53 round_from round_to
exceeds_at_equality = refl
