-- ===== src/Double.antt =====
-- The product of an integer and the constant 0.7 as IEEE 754 doubles, scaled by 2 ^ 53, and its
-- comparison with an integer. The double next to 0.7 is 6305039478318694 / 2 ^ 53.
pub mod Bounds
use pytone_digital.Prelude.{
  ℕ, zero, suc, ◌+◌, ◌*◌, ◌/◌, ◌%◌, Bool, ◌&&◌, ◌||◌, ltb, ◌==◌, if◌then◌else◌,
}

abbrev pub seven_tenths : ℕ
seven_tenths = 6305039478318694

-- A number rounded to a multiple of `unit`, ties to the even multiple.
unfoldable pub round_to : ℕ → ℕ → ℕ
round_to unit n =
    let q = n / unit in
    let r = n % unit in
    if ltb (2 * r) unit || (2 * r == unit && q % 2 == 0) then q * unit else (q + 1) * unit

-- The unit doubles until the number has at most 53 digits in it.
unfoldable pub round_from : ℕ → ℕ → ℕ → ℕ
round_from zero unit n = round_to unit n
round_from (suc f) unit n =
    let more = round_from f (2 * unit) n in
    if ltb n (9007199254740992 * unit) then round_to unit n else more

-- An integer below 2 ^ 117 rounded to the 53 significant digits of a double.
unfoldable pub round_53 : ℕ → ℕ
round_53 n = round_from 64 1 n

-- `size > total * 0.7`
unfoldable pub exceeds_seven_tenths : ℕ → ℕ → Bool
exceeds_seven_tenths size total = ltb (round_53 (total * seven_tenths)) (size * 9007199254740992)
