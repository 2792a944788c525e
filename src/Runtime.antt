-- ===== src/Runtime.antt =====
-- The parts of the JavaScript runtime that the program relies on and that are not modelled
-- digit by digit: floating-point numbers (without NaN), `Number(text)`, `String(number)` and
-- Unicode lower case.
use pytone_digital.Prelude.{
  ℕ, ◌≡◌, Bool, true, false, Option, none, some, arith, ltb, ◌==◌, if◌then◌else◌, all,
}
use pytone_digital.Text.{Text, is_empty, is_digit, ascii_lower}
use pytone_digital.Text.Decimal.{show, read_base}

pub record Js : Type 1 where
  pub Num : Type 0
  -- the number of an integer
  pub of_nat : ℕ → Num
  -- `-x`
  pub minus : Num → Num
  -- `Number(text)`; `none` is NaN
  pub number_of : Text → Option Num
  pub is_finite : Num → Bool
  -- both zeros
  pub is_zero : Num → Bool
  pub less : Num → Num → Bool
  -- `String(x)`
  pub show_num : Num → Text
  -- `toLowerCase()`
  pub to_lower : Text → Text

-- The order of the numbers that are not NaN.
pub record IsOrdered (js : Js) : Type 0 where
  pub less_asym : (a b : js.Num) → js.less a b ≡ true → js.less b a ≡ false
  pub less_negtrans :
      (a b c : js.Num) → js.less b a ≡ false → js.less c b ≡ false → js.less c a ≡ false

-- A runtime whose numbers are the natural ones, for concrete runs.
abbrev pub naturals : Js
naturals = record {
  Num = ℕ;
  of_nat = λ n. n;
  minus = λ n. n;
  number_of =
      λ s. if is_empty s then some 0 else if all is_digit s then some (read_base 10 s) else none;
  is_finite = λ n. true;
  is_zero = λ n. n == 0;
  less = ltb;
  show_num = show;
  to_lower = ascii_lower;
}

naturals_asym : (a b : ℕ) → ltb a b ≡ true → ltb b a ≡ false
naturals_asym a b h = ground arith

naturals_negtrans : (a b c : ℕ) → ltb b a ≡ false → ltb c b ≡ false → ltb c a ≡ false
naturals_negtrans a b c h k = ground arith

pub naturals-IsOrdered : IsOrdered naturals
naturals-IsOrdered = record { less_asym = naturals_asym; less_negtrans = naturals_negtrans }
