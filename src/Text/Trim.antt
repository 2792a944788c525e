-- ===== src/Text/Trim.antt =====
-- `trim` where there is nothing to trim.
use pytone_digital.Prelude.{◌≡◌, refl, false, [], ◌∷◌, reverse, All, All-append}
use mathlib.Core.List.{reverse-cons, reverse-reverse}
use pytone_digital.Text.{Text, is_space, trim, trim_start}

abbrev pub IsUnspaced : Text → Type 0
IsUnspaced s = All (λ c. is_space c ≡ false) s

All-reverse : (s : Text) → IsUnspaced s → IsUnspaced (reverse s)
All-reverse [] h = tt
All-reverse (c ∷ s) (h, k) =
    rw (reverse-cons c s)
      (All-append (λ c. is_space c ≡ false) (reverse s) (c ∷ []) (All-reverse s k) (h, tt))

trim_start-unspaced : (s : Text) → IsUnspaced s → trim_start s ≡ s
unfolding trim_start
trim_start-unspaced [] h = refl
trim_start-unspaced (c ∷ s) (h, k) = rw h refl

pub trim-unspaced : (s : Text) → IsUnspaced s → trim s ≡ s
unfolding trim
trim-unspaced s h =
    rw (trim_start-unspaced s h, trim_start-unspaced (reverse s) (All-reverse s h))
      (reverse-reverse s)

-- A space in front is trimmed away.
pub trim-space : (s : Text) → IsUnspaced s → trim (b' ' ∷ s) ≡ s
unfolding trim trim_start
trim-space s h =
    rw (trim_start-unspaced s h, trim_start-unspaced (reverse s) (All-reverse s h))
      (reverse-reverse s)
