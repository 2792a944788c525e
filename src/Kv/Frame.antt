-- ===== src/Kv/Frame.antt =====
-- What a call of the store leaves as it was.
use pytone_digital.Prelude.{
  ℕ, ◌≡◌, refl, sym, ◌∙◌, subst, inl, inr, Bool, true, false, Option, none, some, if◌then◌else◌,
  Bool-cases,
}
use pytone_digital.Text.{Text, text_eq}
use pytone_digital.Text.Equality.{text_eq_iff}
use pytone_digital.Effect.{
  M, Keeps, ◌>>=◌, pure, answer, throw, answer_if, or_throw, or_answer, quietly, >>=-Keeps,
  answer_if-Keeps, or_throw-Keeps, or_answer-Keeps, quietly-Keeps,
}
use pytone_digital.Kv.{Kv, IsKeeping, kv_get, kv_put, kv_delete, got, stored}

-- The values of the keys of one kind are the same before and after, at every time.
abbrev pub SameAt : (kv : Kv) → (Text → Bool) → kv.State → kv.State → Type 0
SameAt kv of_kind s s' = (now : ℕ) (j : Text) → of_kind j ≡ true → kv.get now j s' ≡ kv.get now j s

pub SameAt-refl : (kv : Kv) (of_kind : Text → Bool) (s : kv.State) → SameAt kv of_kind s s
SameAt-refl kv of_kind s now j h = refl

pub SameAt-trans :
    (kv : Kv) (of_kind : Text → Bool) (a b c : kv.State)
    → SameAt kv of_kind a b
    → SameAt kv of_kind b c
    → SameAt kv of_kind a c
SameAt-trans kv of_kind a b c h k now j e = k now j e ∙ h now j e

module _ (kv : Kv) (keeping : IsKeeping kv) (of_kind : Text → Bool) where
  other_key : (k j : Text) → of_kind k ≡ false → of_kind j ≡ true → text_eq k j ≡ false
  other_key k j h e = elim (Bool-cases (text_eq k j)) [
    | inl q ↦ absurd (clash (sym (subst (λ x. of_kind x ≡ false) ((text_eq_iff k j).0 q) h) ∙ e))
    | inr q ↦ q
  ]
    where
      clash : {A : Type 0} → false ≡ true → A
      clash p = cc

  got-SameAt :
      (R : Type 0) (s : kv.State) (o : Option (Option Text))
      → SameAt kv of_kind s (got kv {R = R} s o).1
  got-SameAt R s none now j e = refl
  got-SameAt R s (some o) now j e = refl

  pub kv_get-SameAt :
      (R : Type 0) (now : ℕ) (k : Text) → Keeps (SameAt kv of_kind) (kv_get kv {R = R} now k)
  unfolding kv_get
  kv_get-SameAt R now k s = got-SameAt R s (kv.get now k s)

  put-SameAt :
      (R : Type 0) (at : ℕ) (k v : Text) (ttl : Option ℕ) (s : kv.State) (o : Option kv.State)
      → of_kind k ≡ false
      → kv.put at k v ttl s ≡ o
      → SameAt kv of_kind s (stored kv {R = R} s o).1
  put-SameAt R at k v ttl s none h e now j q = refl
  put-SameAt R at k v ttl s (some s') h e now j q =
      keeping.get-put at now k j v ttl s s' e ∙ rw (other_key k j h q) refl

  -- Writing and deleting a key leaves the keys of another kind alone.
  pub kv_put-SameAt :
      (R : Type 0) (now : ℕ) (k v : Text) (ttl : Option ℕ)
      → of_kind k ≡ false
      → Keeps (SameAt kv of_kind) (kv_put kv {R = R} now k v ttl)
  unfolding kv_put
  kv_put-SameAt R now k v ttl h s = put-SameAt R now k v ttl s (kv.put now k v ttl s) h refl

  delete-SameAt :
      (R : Type 0) (at : ℕ) (k : Text) (s : kv.State) (o : Option kv.State)
      → of_kind k ≡ false
      → kv.delete at k s ≡ o
      → SameAt kv of_kind s (stored kv {R = R} s o).1
  delete-SameAt R at k s none h e now j q = refl
  delete-SameAt R at k s (some s') h e now j q =
      keeping.get-delete at now k j s s' e ∙ rw (other_key k j h q) refl

  pub kv_delete-SameAt :
      (R : Type 0) (now : ℕ) (k : Text)
      → of_kind k ≡ false
      → Keeps (SameAt kv of_kind) (kv_delete kv {R = R} now k)
  unfolding kv_delete
  kv_delete-SameAt R now k h s = delete-SameAt R now k s (kv.delete now k s) h refl

-- Code that leaves every key of a kind as it was, however it ends.
abbrev pub Spares : (kv : Kv) → (Text → Bool) → {R A : Type 0} → M kv.State R A → Type 0
Spares kv of_kind m = Keeps (SameAt kv of_kind) m

module _ (kv : Kv) (of_kind : Text → Bool) (R : Type 0) where
  pub then-Spares :
      {A B : Type 0} (m : M kv.State R A) (f : A → M kv.State R B)
      → Spares kv of_kind m
      → ((a : A) → Spares kv of_kind (f a))
      → Spares kv of_kind (m >>= f)
  then-Spares m f h k = >>=-Keeps (SameAt kv of_kind) (SameAt-trans kv of_kind) m f h k

  pub if-Spares :
      {A : Type 0} (b : Bool) (m k : M kv.State R A)
      → Spares kv of_kind m
      → Spares kv of_kind k
      → Spares kv of_kind (if b then m else k)
  if-Spares true m k h g = h
  if-Spares false m k h g = g

  pub pure-Spares : {A : Type 0} (a : A) → Spares kv of_kind {R = R} (pure a)
  pure-Spares a s = SameAt-refl kv of_kind s

  pub answer-Spares : (A : Type 0) (r : R) → Spares kv of_kind {A = A} (answer r)
  answer-Spares A r s = SameAt-refl kv of_kind s

  pub throw-Spares : (A : Type 0) → Spares kv of_kind {R = R} {A = A} throw
  throw-Spares A s = SameAt-refl kv of_kind s

  pub answer_if-Spares : (b : Bool) (r : R) → Spares kv of_kind (answer_if b r)
  answer_if-Spares b r = answer_if-Keeps (SameAt kv of_kind) (SameAt-refl kv of_kind) b r

  pub or_throw-Spares : {A : Type 0} (o : Option A) → Spares kv of_kind {R = R} (or_throw o)
  or_throw-Spares o = or_throw-Keeps (SameAt kv of_kind) (SameAt-refl kv of_kind) R o

  pub or_answer-Spares : (A : Type 0) (r : R) (o : Option A) → Spares kv of_kind (or_answer r o)
  or_answer-Spares A r o = or_answer-Keeps (SameAt kv of_kind) (SameAt-refl kv of_kind) r o

  pub quietly-Spares :
      (m : M kv.State R (Unit {0})) → Spares kv of_kind m → Spares kv of_kind (quietly m)
  quietly-Spares m h = quietly-Keeps (SameAt kv of_kind) m h

  pub get-Spares : (now : ℕ) (k : Text) → IsKeeping kv → Spares kv of_kind (kv_get kv {R = R} now k)
  get-Spares now k keeping = kv_get-SameAt kv keeping of_kind R now k

  pub put-Spares :
      (now : ℕ) (k v : Text) (ttl : Option ℕ)
      → IsKeeping kv
      → of_kind k ≡ false
      → Spares kv of_kind (kv_put kv {R = R} now k v ttl)
  put-Spares now k v ttl keeping h = kv_put-SameAt kv keeping of_kind R now k v ttl h

  pub delete-Spares :
      (now : ℕ) (k : Text)
      → IsKeeping kv
      → of_kind k ≡ false
      → Spares kv of_kind (kv_delete kv {R = R} now k)
  delete-Spares now k keeping h = kv_delete-SameAt kv keeping of_kind R now k h

pub ruleset spare_rules = (
  then-Spares, if-Spares, pure-Spares, answer-Spares, throw-Spares, answer_if-Spares,
  or_throw-Spares, or_answer-Spares, quietly-Spares, get-Spares, put-Spares, delete-Spares,
)
