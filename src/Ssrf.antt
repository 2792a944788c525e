-- ===== src/Ssrf.antt =====
-- The guard of the proxying routes, apps/web/src/lib/ssrfGuard.ts: what its parts share.
pub mod Ipv4
pub mod Ipv6
pub mod Guard
pub mod Fetch
pub mod Rebinding
mod Tests
pub mod Mapped
pub mod Admission
pub mod Parts
pub mod Spellings
pub mod Blocks
pub mod Dials
use pytone_digital.Prelude.{
  ℕ, zero, suc, ◌+◌, ◌-◌, ◌*◌, ◌/◌, ◌%◌, ◌^◌, ◌≤◌, ◌<◌, min, max, String, ◌≡◌, refl, sym, ap, ◌∙◌,
  subst, ◌≡⟨◌⟩◌, ◌∎, ◌≢◌, ◌↔◌, ◌⊎◌, inl, inr, Bool, true, false, not, ◌&&◌, ◌||◌, Option, none,
  some, List, [], ◌∷◌, ◌++◌, map, foldl, reverse, arith, ltb, leb, ◌==◌, if◌then◌else◌, ltb→lt,
  lt→ltb, le→ltb_false, leb→le, le→leb, ==_iff, Bool-cases, Option-cases, length, get_elem?, take,
  drop, keep, any, all, length-append, length-keep-le, All, All-append, All-append_left,
  All-append_right,
}
use pytone_digital.Text.{Text, codes}
use pytone_digital.Text.Decimal.{show}
use pytone_digital.Runtime.{Js}

-- What `new URL(text)` gives, as far as the guard reads it; `href` is `url.toString()`.
pub record Url : Type 0 where
  pub protocol : Text
  pub username : Text
  pub password : Text
  pub hostname : Text
  pub port : Text
  pub href : Text

module _ (js : Js) where
  -- `x === k` for an integer literal: neither is below the other.
  abbrev pub is_nat : js.Num → ℕ → Bool
  is_nat x k = not (js.less x (js.of_nat k)) && not (js.less (js.of_nat k) x)

  -- `x >= k` and `x <= k`
  abbrev pub at_least : js.Num → ℕ → Bool
  at_least x k = not (js.less x (js.of_nat k))

  abbrev pub at_most : js.Num → ℕ → Bool
  at_most x k = not (js.less (js.of_nat k) x)

-- Integers that a double holds exactly are compared as integers, and `Number` reads the decimal
-- text of one as that integer.
pub record IsExact (js : Js) : Type 0 where
  pub less-of_nat :
      (a b : ℕ)
      → a < 9007199254740992
      → b < 9007199254740992
      → js.less (js.of_nat a) (js.of_nat b) ≡ ltb a b
  pub number_of-show : (n : ℕ) → n < 9007199254740992 → js.number_of (show n) ≡ some (js.of_nat n)
