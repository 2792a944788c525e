-- ===== src/Kv/Flat.antt =====
-- Values written as lists of numbers, with the length of each text before it: a way of writing
-- that reads back, for the tests of the code that uses the store of cfEnv.ts.
use pytone_digital.Prelude.{
  ℕ, zero, suc, ◌≡◌, refl, ap, Option, none, some, [], ◌∷◌, ◌++◌, length, take, drop,
}
use pytone_digital.Text.{Text}

take-length : (t rest : Text) → take (length t) (t ++ rest) ≡ t
take-length [] rest = refl
take-length (c ∷ t) rest = ap (λ x. c ∷ x) (take-length t rest)

drop-length : (t rest : Text) → drop (length t) (t ++ rest) ≡ rest
drop-length [] rest = refl
drop-length (c ∷ t) rest = drop-length t rest

-- A text, followed by others.
abbrev pub write_text : Text → Text → Text
write_text t rest = length t ∷ (t ++ rest)

abbrev pub read_text : {A : Type 0} → Text → (Text → Text → Option A) → Option A
read_text [] f = none
read_text (n ∷ s) f = f (take n s) (drop n s)

pub read_text-write_text :
    {A : Type 0} (t rest : Text) (f : Text → Text → Option A)
    → read_text (write_text t rest) f ≡ f t rest
read_text-write_text t rest f = rw (take-length t rest, drop-length t rest) refl

abbrev pub write_option : Option Text → Text → Text
write_option none rest = 0 ∷ rest
write_option (some t) rest = 1 ∷ write_text t rest

abbrev pub read_option : {A : Type 0} → Text → (Option Text → Text → Option A) → Option A
read_option [] f = none
read_option (zero ∷ s) f = f none s
read_option (suc n ∷ s) f = read_text s (λ t. f (some t))

pub read_option-write_option :
    {A : Type 0} (o : Option Text) (rest : Text) (f : Option Text → Text → Option A)
    → read_option (write_option o rest) f ≡ f o rest
read_option-write_option none rest f = refl
read_option-write_option (some t) rest f = read_text-write_text t rest (λ t. f (some t))

abbrev pub write_number : ℕ → Text → Text
write_number n rest = n ∷ rest

abbrev pub read_number : {A : Type 0} → Text → (ℕ → Text → Option A) → Option A
read_number [] f = none
read_number (n ∷ s) f = f n s
