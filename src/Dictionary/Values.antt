-- ===== src/Dictionary/Values.antt =====
-- A property of all values of a map.
use pytone_digital.Prelude.{◌≡◌, subst, inl, inr, some, List, [], ◌∷◌, Bool-cases, All}
use pytone_digital.Text.{Text, text_eq}
use pytone_digital.Dictionary.{lookup, insert, remove}

module _ {ℓ κ} {V : Type ℓ} (P : V → Type κ) where
  abbrev pub AllValues : List (Text × V) → Type κ
  AllValues d = All (λ kv. P kv.1) d

  pub insert-AllValues :
      (k : Text) (v : V) (d : List (Text × V)) → P v → AllValues d → AllValues (insert k v d)
  unfolding insert
  insert-AllValues k v [] p h = (p, tt)
  insert-AllValues k v ((j, w) ∷ d) p (q, h) = elim (Bool-cases (text_eq j k)) [
    | inl e ↦ rw e (p, h)
    | inr e ↦ rw e (q, insert-AllValues k v d p h)
  ]

  pub remove-AllValues : (k : Text) (d : List (Text × V)) → AllValues d → AllValues (remove k d)
  unfolding remove
  remove-AllValues k [] h = tt
  remove-AllValues k ((j, w) ∷ d) (q, h) = elim (Bool-cases (text_eq j k)) [
    | inl e ↦ rw e (remove-AllValues k d h)
    | inr e ↦ rw e (q, remove-AllValues k d h)
  ]

  pub lookup-AllValues :
      (k : Text) (d : List (Text × V)) (v : V) → lookup k d ≡ some v → AllValues d → P v
  unfolding lookup
  lookup-AllValues k [] v h a = cc
  lookup-AllValues k ((j, w) ∷ d) v h (q, a) = elim (Bool-cases (text_eq j k)) [
    | inl e ↦ let same : some w ≡ some v = rw e at h in let equal : w ≡ v = cc in subst P equal q
    | inr e ↦ lookup-AllValues k d v (rw e at h) a
  ]
