-- ===== src/Dictionary.antt =====
-- An object or `Map` with text keys, as an association list with one entry for a key.
pub mod Values
use pytone_digital.Text.{Text, text_eq}
use pytone_digital.Text.Equality.{text_eq_iff, text_eq_refl}
use pytone_digital.Prelude.{
  ◌≡◌, refl, Option, none, some, List, [], ◌∷◌, arith, if◌then◌else◌, false, Bool-cases, inl, inr,
}

module _ {ℓ} {V : Type ℓ} where
  -- `d[k]`, `d.get(k)`
  unfoldable pub lookup : Text → List (Text × V) → Option V
  lookup k [] = none
  lookup k ((j, v) ∷ d) = if text_eq j k then some v else lookup k d

  -- `d[k] = v`, `d.set(k, v)`: an old key keeps its place.
  unfoldable pub insert : Text → V → List (Text × V) → List (Text × V)
  insert k v [] = (k, v) ∷ []
  insert k v ((j, w) ∷ d) =
      let rest = insert k v d in if text_eq j k then (j, v) ∷ d else (j, w) ∷ rest

  -- `delete d[k]`
  unfoldable pub remove : Text → List (Text × V) → List (Text × V)
  remove k [] = []
  remove k ((j, w) ∷ d) = let rest = remove k d in if text_eq j k then rest else (j, w) ∷ rest

  pub lookup-insert :
      (k j : Text) (v : V) (d : List (Text × V))
      → lookup j (insert k v d) ≡ (if text_eq k j then some v else lookup j d)
  unfolding lookup insert
  lookup-insert k j v [] = refl
  lookup-insert k j v ((i, w) ∷ d) =
      ground (arith, text_eq_iff k j, text_eq_iff i k, text_eq_iff i j, lookup-insert k j v d)

  pub lookup-remove :
      (k j : Text) (d : List (Text × V))
      → lookup j (remove k d) ≡ (if text_eq k j then none else lookup j d)
  unfolding lookup remove
  lookup-remove k j [] = ground arith
  lookup-remove k j ((i, w) ∷ d) =
      ground (arith, text_eq_iff k j, text_eq_iff i k, text_eq_iff i j, lookup-remove k j d)

  pub lookup-insert_self :
      (k : Text) (v : V) (d : List (Text × V)) → lookup k (insert k v d) ≡ some v
  lookup-insert_self k v d = rw (lookup-insert k k v d, text_eq_refl k)

module _ {ℓ} {V : Type ℓ} where
  -- Every key has one entry.
  abbrev pub IsUnique : List (Text × V) → Type ℓ
  IsUnique [] = Unit
  IsUnique ((k, v) ∷ d) = (lookup k d ≡ none) × IsUnique d

  pub insert-IsUnique :
      (k : Text) (v : V) (d : List (Text × V)) → IsUnique d → IsUnique (insert k v d)
  unfolding insert
  insert-IsUnique k v [] h = (unfold lookup in refl, tt)
  insert-IsUnique k v ((j, w) ∷ d) (n, h) = elim (Bool-cases (text_eq j k)) [
    | inl e ↦ rw e (n, h)
    | inr e ↦ rw e (other (lookup-insert k j v d) e, insert-IsUnique k v d h)
  ]
    where
      other :
          lookup j (insert k v d) ≡ (if text_eq k j then some v else lookup j d)
          → text_eq j k ≡ false
          → lookup j (insert k v d) ≡ none
      other l e = ground (arith, text_eq_iff k j, text_eq_iff j k)
