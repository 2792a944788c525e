-- ===== src/Epg/Elements.antt =====
-- The loops of epg.ts over the elements of a text: `exec` of an opening tag from where the last
-- element ended, `indexOf` of the closing tag, and what the body yields.
use pytone_digital.Prelude.{ℕ, zero, suc, Bool, Option, none, some, List, [], ◌∷◌, length}
use pytone_digital.Prelude.Chain.{◌>>=◌}
use pytone_digital.Text.{Text}
use pytone_digital.Text.Search.{Element, next_element}

abbrev pub or_skip {ℓ} : {A : Type ℓ} → Option A → List A → List A
or_skip none rest = rest
or_skip (some a) rest = a ∷ rest

-- The opening tag, its name bounded by `\b` or not, and the closing tag.
pub record Tag : Type 0 where
  pub bounded : Bool
  pub open_ : Text
  pub close : Text

abbrev pub next_of : Tag → Text → Option Element
next_of tag s = next_element tag.bounded tag.open_ tag.close s

module _ {A : Type 0} (read : Element → Option (Option A)) where
  -- One round, at what was found, where `loop` goes on behind the element.
  abbrev pub round : (Text → Option (List A)) → Option Element → Option (List A)
  round loop none = some []
  round loop (some e) = do a ← read e; rest ← loop e.rest; some (or_skip a rest)

module _ {A : Type 0} (tag : Tag) (read : Element → Option (Option A)) where
  -- All that the loop yields, on fuel for the elements; `none` when its body throws.
  unfoldable pub loop_from : ℕ → Text → Option (List A)
  loop_from zero s = some []
  loop_from (suc fuel) s = round read (loop_from fuel) (next_of tag s)

  unfoldable pub loop_elements : Text → Option (List A)
  unfolding loop_from
  loop_elements s = loop_from (length s) s
