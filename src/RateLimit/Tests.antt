-- ===== src/RateLimit/Tests.antt =====
-- The theorems on rateLimit.ts at concrete inputs, with a dictionary as the store.
use pytone_digital.Prelude.{◌≡◌, refl, none, [], ◌∷◌, arith}
use pytone_digital.Text.{codes}
use pytone_digital.Dictionary.{lookup}
use pytone_digital.Kv.Dict.{dict, dict-IsKeeping, dict-IsUp}
use pytone_digital.RateLimit.{count_of}
use pytone_digital.RateLimit.Budget.{admitted, admitted_lem}

-- Three requests within the minute, of which two are let through.
admitted_lem_example :
    admitted dict (codes "login") (codes "1.2.3.4") 2 60 0 (1000 ∷ 2000 ∷ 59000 ∷ []) [] ≡ 2
unfolding lookup count_of
admitted_lem_example =
    admitted_lem dict dict-IsKeeping dict-IsUp (codes "login") (codes "1.2.3.4") 2 60 0
      (omega arith) 0 (1000 ∷ 2000 ∷ 59000 ∷ []) [] (λ now h. (none, refl, refl))
      (refl, (refl, (refl, tt)))
