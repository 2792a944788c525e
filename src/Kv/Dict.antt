-- ===== src/Kv/Dict.antt =====
-- A dictionary with times of expiry is a store of this kind: it is up and keeps what it is given.
use pytone_digital.Prelude.{
  ℕ, ◌+◌, ◌≤◌, ◌≡◌, refl, sym, ap, ◌∙◌, ◌⊎◌, inl, inr, Bool, true, false, Option, none, some, List,
  [], ◌∷◌, arith, ltb, if◌then◌else◌, ltb→lt, lt→ltb, Bool-cases,
}
use pytone_digital.Text.{Text, text_eq}
use pytone_digital.Dictionary.{lookup, insert, remove, lookup-insert, lookup-remove}
use pytone_digital.Kv.{Kv, IsKeeping, IsUp, alive}

-- A value, the second at which it was put, and its time to live.
pub record Entry : Type 0 where
  pub content : Text
  pub put_at : ℕ
  pub ttl : Option ℕ

abbrev pub Entries : Type 0
Entries = List (Text × Entry)

abbrev pub content_at : ℕ → Option Entry → Option Text
content_at now none = none
content_at now (some e) = alive now e.put_at e.ttl e.content

abbrev pub keys : Entries → List Text
keys [] = []
keys ((k, e) ∷ s) = k ∷ keys s

abbrev pub dict : Kv
dict = record {
  State = Entries;
  get = λ now k s. some (content_at now (lookup k s));
  put = λ now k v ttl s. some (insert k (record { content = v; put_at = now; ttl = ttl }) s);
  delete = λ now k s. some (remove k s);
  list = λ now prefix cursor limit s.
      some (record { names = keys s; list_complete = true; cursor = none });
}

abbrev read_all : ℕ → Text → Option Entries → Option (Option Text)
read_all now j none = none
read_all now j (some s) = some (content_at now (lookup j s))

dict-put :
    (at now : ℕ) (k j v : Text) (ttl : Option ℕ) (s : Entries)
    → content_at now (lookup j (insert k (record { content = v; put_at = at; ttl = ttl }) s))
      ≡ (if text_eq k j then alive now at ttl v else content_at now (lookup j s))
dict-put at now k j v ttl s = elim (Bool-cases (text_eq k j)) [
  | inl e ↦ rw (lookup-insert k j (record { content = v; put_at = at; ttl = ttl }) s, e) refl
  | inr e ↦ rw (lookup-insert k j (record { content = v; put_at = at; ttl = ttl }) s, e) refl
]

dict-delete :
    (now : ℕ) (k j : Text) (s : Entries)
    → content_at now (lookup j (remove k s))
      ≡ (if text_eq k j then none else content_at now (lookup j s))
dict-delete now k j s = elim (Bool-cases (text_eq k j)) [
  | inl e ↦ rw (lookup-remove k j s, e) refl
  | inr e ↦ rw (lookup-remove k j s, e) refl
]

if_some :
    (b : Bool) (x y : Option Text)
    → (let z : Option (Option Text) = some (if b then x else y) in z)
      ≡ (if b then some x else some y)
if_some true x y = refl
if_some false x y = refl

content_at_steady :
    (now later : ℕ) (e : Option Entry)
    → now ≤ later
    → (content_at later e ≡ none) ⊎ (content_at later e ≡ content_at now e)
content_at_steady now later none h = inl refl
content_at_steady now later (some e) h = steady e.put_at e.content e.ttl
  where
    steady :
        (at : ℕ) (v : Text) (ttl : Option ℕ)
        → (alive later at ttl v ≡ none) ⊎ (alive later at ttl v ≡ alive now at ttl v)
    steady at v none = inr refl
    steady at v (some t) = elim (Bool-cases (ltb later (at + t))) [
      | inl q ↦ inr (rw (q, lt→ltb now (at + t) (omega (arith, ltb→lt later (at + t) q))) refl)
      | inr q ↦ inl (rw q refl)
    ]

some_steady :
    (a b : Option Text)
    → (b ≡ none) ⊎ (b ≡ a)
    → ((let y : Option (Option Text) = some b in y) ≡ some none)
      ⊎ ((let y : Option (Option Text) = some b in y) ≡ some a)
some_steady a b (inl e) = inl (ap some e)
some_steady a b (inr e) = inr (ap some e)

pub dict-IsKeeping : IsKeeping dict
dict-IsKeeping = record {
  get-put = λ at now k j v ttl s s' e.
      sym (ap (read_all now j) e)
      ∙ ap some (dict-put at now k j v ttl s)
      ∙ if_some (text_eq k j) (alive now at ttl v) (content_at now (lookup j s));
  get-delete = λ at now k j s s' e.
      sym (ap (read_all now j) e)
      ∙ ap some (dict-delete now k j s)
      ∙ if_some (text_eq k j) none (content_at now (lookup j s));
  get_steady = λ now later k s h.
      some_steady (content_at now (lookup k s)) (content_at later (lookup k s))
        (content_at_steady now later (lookup k s) h);
}

pub dict-IsUp : IsUp dict
dict-IsUp = record {
  get_up = λ now k s. (content_at now (lookup k s), refl);
  put_up = λ now k v ttl s. (insert k (record { content = v; put_at = now; ttl = ttl }) s, refl);
  delete_up = λ now k s. (remove k s, refl);
}
