-- ===== src/Text/Search.antt =====
-- `indexOf` and the elements of a mark-up text, as suffixes of the text.
use pytone_digital.Prelude.{
  ℕ, Bool, true, not, ◌||◌, Option, none, some, [], ◌∷◌, ◌==◌, if◌then◌else◌,
}
use pytone_digital.Text.{Text, is_word, cut_at}

-- What follows `t`, when the text starts with it.
unfoldable pub strip_prefix : Text → Text → Option Text
strip_prefix [] s = some s
strip_prefix (d ∷ t) [] = none
strip_prefix (d ∷ t) (c ∷ s) = let rest = strip_prefix t s in if c == d then rest else none

push_left : ℕ → Option (Text × Text) → Option (Text × Text)
push_left c none = none
push_left c (some (l, r)) = some (c ∷ l, r)

abbrev found_or : Option Text → Option (Text × Text) → Option (Text × Text)
found_or none later = later
found_or (some rest) later = some ([], rest)

-- The parts before and after the first `t`, when there is one.
unfoldable pub cut_text : Text → Text → Option (Text × Text)
unfolding push_left
cut_text t [] = found_or (strip_prefix t []) none
cut_text t (c ∷ s) = found_or (strip_prefix t (c ∷ s)) (push_left c (cut_text t s))

-- Whether a word can end before the text: `\b` after a word unit.
abbrev pub is_boundary : Text → Bool
is_boundary [] = true
is_boundary (c ∷ _) = not (is_word c)

abbrev pub or_later {ℓ} : {A : Type ℓ} → Option A → Option A → Option A
or_later none b = b
or_later (some a) b = some a

-- The attributes of a tag whose name, which is to end here or not, was just read.
abbrev pub tag_end : Bool → Option Text → Option (Text × Text)
tag_end bounded none = none
tag_end bounded (some rest) = if not bounded || is_boundary rest then cut_at b'>' rest else none

-- The first `<name[^>]*>`, or `<name\b[^>]*>`: what is between the name and the end of the tag,
-- and what follows the tag.
unfoldable pub find_tag : Bool → Text → Text → Option (Text × Text)
find_tag bounded name [] = none
find_tag bounded name (c ∷ s) =
    let later = find_tag bounded name s in
    or_later (tag_end bounded (strip_prefix name (c ∷ s))) later

pub record Element : Type 0 where
  pub attributes : Text
  pub inner : Text
  pub rest : Text

abbrev pub close_at : Text → Option (Text × Text) → Option Element
close_at attributes none = none
close_at attributes (some (inner, rest)) =
    some (record { attributes = attributes; inner = inner; rest = rest })

abbrev pub close_after : Text → Option (Text × Text) → Option Element
close_after close none = none
close_after close (some (attributes, rest)) = close_at attributes (cut_text close rest)

-- The first element: its tag, its contents up to the first closing tag, and what follows.
unfoldable pub next_element : Bool → Text → Text → Text → Option Element
next_element bounded open_ close s = close_after close (find_tag bounded open_ s)
