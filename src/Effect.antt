-- ===== src/Effect.antt =====
-- Handlers that change a store, may throw, and may end early with an answer.
pub mod Ends
use pytone_digital.Prelude.{◌≡◌, refl, sym, ap, ◌∙◌, Bool, true, false, Option, none, some}

pub data Outcome (R : Type 0) (A : Type 0) : Type 0 where
  returned : A → Outcome R A
  answered : R → Outcome R A
  thrown : Outcome R A

-- A piece of code over a store `S` that gives an `A`, or ends the handler with an answer `R`.
abbrev pub M : Type 0 → Type 0 → Type 0 → Type 0
M S R A = S → Outcome R A × S

abbrev pub then_do : {S R A B : Type 0} → Outcome R A × S → (A → M S R B) → Outcome R B × S
then_do (returned a, s) f = f a s
then_do (answered r, s) f = (answered r, s)
then_do (thrown, s) f = (thrown, s)

infixl 5 ◌>>=◌ ◌>>◌
abbrev pub ◌>>=◌ : {S R A B : Type 0} → M S R A → (A → M S R B) → M S R B
◌>>=◌ m f s = then_do (m s) f

abbrev pub ◌>>◌ : {S R B : Type 0} → M S R (Unit {0}) → M S R B → M S R B
m >> k = m >>= λ _. k

abbrev pub pure : {S R A : Type 0} → A → M S R A
pure a s = (returned a, s)

-- `return new Response(..)` of the handler
abbrev pub answer : {S R A : Type 0} → R → M S R A
answer r s = (answered r, s)

abbrev pub throw : {S R A : Type 0} → M S R A
throw s = (thrown, s)

-- `if (b) return r;`
abbrev pub answer_if : {S R : Type 0} → Bool → R → M S R (Unit {0})
answer_if true r s = (answered r, s)
answer_if false r s = (returned tt, s)

-- `x ?? throw`, `x ?? return r`
abbrev pub or_throw : {S R A : Type 0} → Option A → M S R A
or_throw none = throw
or_throw (some a) = pure a

abbrev pub or_answer : {S R A : Type 0} → R → Option A → M S R A
or_answer r none = answer r
or_answer r (some a) = pure a

-- `try { .. } catch { }` around code that gives nothing.
abbrev pub quiet_end : {S R : Type 0} → Outcome R (Unit {0}) × S → Outcome R (Unit {0}) × S
quiet_end (returned a, s) = (returned a, s)
quiet_end (answered r, s) = (answered r, s)
quiet_end (thrown, s) = (returned tt, s)

abbrev pub quietly : {S R : Type 0} → M S R (Unit {0}) → M S R (Unit {0})
quietly m s = quiet_end (m s)

-- `Promise.all` of two pieces of code: both are run, and it throws when one of them does.
abbrev pub both_end :
    {S R : Type 0} → Outcome R (Unit {0}) → Outcome R (Unit {0}) × S → Outcome R (Unit {0}) × S
both_end (returned _) r = r
both_end (answered x) (_, s) = (answered x, s)
both_end thrown (_, s) = (thrown, s)

abbrev pub both : {S R : Type 0} → M S R (Unit {0}) → M S R (Unit {0}) → M S R (Unit {0})
both m k s = let (o, s') = m s in both_end o (k s')

-- What a piece of code does to the store, however it ends, for a relation that composes.
abbrev pub Keeps : {S R A : Type 0} → (S → S → Type 0) → M S R A → Type 0
Keeps {S} P m = (s : S) → P s (m s).1

module _ {S : Type 0} (P : S → S → Type 0) where
  module _ (trans : (a b c : S) → P a b → P b c → P a c) where
    then_do-Keeps :
        {R A B : Type 0} (s : S) (r : Outcome R A × S) (f : A → M S R B)
        → P s r.1
        → ((a : A) → Keeps P (f a))
        → P s (then_do r f).1
    then_do-Keeps s (returned a, s') f h k = trans s s' (f a s').1 h (k a s')
    then_do-Keeps s (answered r, s') f h k = h
    then_do-Keeps s (thrown, s') f h k = h

    pub >>=-Keeps :
        {R A B : Type 0} (m : M S R A) (f : A → M S R B)
        → Keeps P m
        → ((a : A) → Keeps P (f a))
        → Keeps P (m >>= f)
    >>=-Keeps m f h k s = then_do-Keeps s (m s) f (h s) k

    both_end-Keeps :
        {R : Type 0} (s : S) (o : Outcome R (Unit {0})) (r : Outcome R (Unit {0}) × S)
        → P s r.1
        → P s (both_end o r).1
    both_end-Keeps s (returned _) r h = h
    both_end-Keeps s (answered x) (o, s') h = h
    both_end-Keeps s thrown (o, s') h = h

    pub both-Keeps :
        {R : Type 0} (m k : M S R (Unit {0})) → Keeps P m → Keeps P k → Keeps P (both m k)
    both-Keeps m k h g s =
        both_end-Keeps s (m s).0 (k (m s).1) (trans s (m s).1 (k (m s).1).1 (h s) (g (m s).1))

  quiet_end-Keeps :
      {R : Type 0} (s : S) (r : Outcome R (Unit {0}) × S) → P s r.1 → P s (quiet_end r).1
  quiet_end-Keeps s (returned a, s') h = h
  quiet_end-Keeps s (answered x, s') h = h
  quiet_end-Keeps s (thrown, s') h = h

  pub quietly-Keeps : {R : Type 0} (m : M S R (Unit {0})) → Keeps P m → Keeps P (quietly m)
  quietly-Keeps m h s = quiet_end-Keeps s (m s) (h s)

  module _ (refl_P : (a : S) → P a a) where
    pub answer_if-Keeps : {R : Type 0} (b : Bool) (r : R) → Keeps P (answer_if {S = S} {R = R} b r)
    answer_if-Keeps true r s = refl_P s
    answer_if-Keeps false r s = refl_P s

    pub or_throw-Keeps :
        (R : Type 0) {A : Type 0} (o : Option A) → Keeps P (or_throw {S = S} {R = R} {A = A} o)
    or_throw-Keeps R none s = refl_P s
    or_throw-Keeps R (some a) s = refl_P s

    pub or_answer-Keeps :
        {R A : Type 0} (r : R) (o : Option A) → Keeps P (or_answer {S = S} {R = R} {A = A} r o)
    or_answer-Keeps r none s = refl_P s
    or_answer-Keeps r (some a) s = refl_P s

-- Code that gave a value gave one at each of its steps.
pub >>=-returned :
    {S R A B : Type 0} (m : M S R A) (f : A → M S R B) (s : S) {b : B} {s'' : S}
    → (m >>= f) s ≡ (returned b, s'')
    → (a : A) × (s' : S) × (m s ≡ (returned a, s')) × (f a s' ≡ (returned b, s''))
>>=-returned {S} {R} {A} {B} m f s {b} {s''} h = split (m s) refl
  where
    no_value :
        {r : R} {s' : S}
        → let l : Outcome R B × S = (answered r, s') in
          l ≡ (returned b, s'')
          → (a : A) × (s' : S) × (m s ≡ (returned a, s')) × (f a s' ≡ (returned b, s''))
    no_value e = cc

    no_value' :
        {s' : S}
        → let l : Outcome R B × S = (thrown, s') in
          l ≡ (returned b, s'')
          → (a : A) × (s' : S) × (m s ≡ (returned a, s')) × (f a s' ≡ (returned b, s''))
    no_value' e = cc

    split :
        (r : Outcome R A × S)
        → m s ≡ r
        → (a : A) × (s' : S) × (m s ≡ (returned a, s')) × (f a s' ≡ (returned b, s''))
    split (returned a, s') e = (a, s', e, sym (ap (λ r. then_do r f) e) ∙ h)
    split (answered r, s') e = no_value (sym (ap (λ r. then_do r f) e) ∙ h)
    split (thrown, s') e = no_value' (sym (ap (λ r. then_do r f) e) ∙ h)
