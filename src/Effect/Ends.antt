-- ===== src/Effect/Ends.antt =====
-- What is known when a step of a handler gave a value.
use pytone_digital.Prelude.{◌≡◌, refl, ap, Bool, true, false, Option, none, some}
use pytone_digital.Effect.{returned, pure, answer, throw, answer_if, or_throw, or_answer}

module _ {S R : Type 0} where
  pub pure-returned :
      {A : Type 0} (a : A) (s : S) {b : A} {s' : S}
      → pure {R = R} a s ≡ (returned b, s')
      → (a ≡ b) × (s ≡ s')
  pure-returned a s h = (cc, cc)

  pub answer-returned :
      {A C : Type 0} (r : R) (s : S) {b : A} {s' : S} → answer r s ≡ (returned b, s') → C
  answer-returned r s h = cc

  pub throw-returned :
      {A C : Type 0} (s : S) {b : A} {s' : S} → throw {R = R} s ≡ (returned b, s') → C
  throw-returned s h = cc

  pub answer_if-returned :
      (b : Bool) (r : R) (s : S) {x : Unit {0}} {s' : S}
      → answer_if b r s ≡ (returned x, s')
      → (b ≡ false) × (s ≡ s')
  answer_if-returned true r s h = answer-returned r s h
  answer_if-returned false r s h = (refl, (pure-returned tt s h).1)

  pub or_answer-returned :
      {A : Type 0} (r : R) (o : Option A) (s : S) {a : A} {s' : S}
      → or_answer r o s ≡ (returned a, s')
      → (o ≡ some a) × (s ≡ s')
  or_answer-returned r none s h = answer-returned r s h
  or_answer-returned r (some a) s h = let (p, q) = pure-returned a s h in (ap some p, q)

  pub or_throw-returned :
      {A : Type 0} (o : Option A) (s : S) {a : A} {s' : S}
      → or_throw {R = R} o s ≡ (returned a, s')
      → (o ≡ some a) × (s ≡ s')
  or_throw-returned none s h = throw-returned s h
  or_throw-returned (some a) s h = let (p, q) = pure-returned a s h in (ap some p, q)
