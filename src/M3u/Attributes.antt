-- ===== src/M3u/Attributes.antt =====
-- The regular expression `ATTR` of m3u.ts, `/([\w-]+)="([^"]*)"/g`, as the machine that finds its
-- matches from left to right. A key character can only be followed by another, by `="`, or by a
-- character at which no match can go on, so the machine never has to go back.
use pytone_digital.Prelude.{ℕ, ◌≡◌, refl, Bool, ◌||◌, List, [], ◌∷◌, ◌++◌, ◌==◌, if◌then◌else◌}
use pytone_digital.Text.{Text, codes, is_word}

pub data Mode : Type 0 where
  -- the key characters since the last other character
  in_key : Text → Mode
  -- a key and its `=` were read
  after_eq : Text → Mode
  -- inside the quotes, with the value so far
  in_value : Text → Text → Mode

abbrev pub is_key_unit : ℕ → Bool
is_key_unit c = is_word c || c == b'-'

unfoldable pub key_step : Text → ℕ → Mode
key_step [] c = if is_key_unit c then in_key (c ∷ []) else in_key []
key_step (k ∷ key) c =
    if is_key_unit c
    then in_key (k ∷ key ++ c ∷ [])
    else if c == b'='
    then after_eq (k ∷ key)
    else in_key []

eq_step : Text → ℕ → Mode
eq_step key c =
    if c == b'"' then in_value key [] else if is_key_unit c then in_key (c ∷ []) else in_key []

unfoldable pub scan_from : Mode → Text → List (Text × Text)
unfolding key_step eq_step
scan_from _ [] = []
scan_from (in_key key) (c ∷ s) = scan_from (key_step key c) s
scan_from (after_eq key) (c ∷ s) = scan_from (eq_step key c) s
scan_from (in_value key value) (c ∷ s) =
    let found = (key, value) ∷ scan_from (in_key []) s in
    let longer = scan_from (in_value key (value ++ c ∷ [])) s in if c == b'"' then found else longer

-- The pairs that a loop over `ATTR.exec(head)` sees.
unfoldable pub scan_attributes : Text → List (Text × Text)
unfolding scan_from
scan_attributes head = scan_from (in_key []) head

scan_attributes_runs :
    scan_attributes (codes "-1 tvg-id=\"a,b\" x= y=\"\" z=\"open")
    ≡ (codes "tvg-id", codes "a,b") ∷ (codes "y", []) ∷ []
unfolding scan_attributes
scan_attributes_runs = refl
