-- ===== src/Epg/Attributes.antt =====
-- The regular expression `ATTR_RE` of epg.ts, `/(\w[\w-]*)="([^"]*)"/g`, as the machine that finds
-- its matches from left to right. The key starts with a word unit; as in the playlist parser, a
-- place where a match stops is behind every other place where it could have started.
use pytone_digital.Prelude.{ℕ, ◌≡◌, refl, ◌||◌, List, [], ◌∷◌, ◌++◌, ◌==◌, if◌then◌else◌}
use pytone_digital.Text.{Text, codes, is_word}
use pytone_digital.M3u.Attributes.{Mode, in_key, after_eq, in_value}

start_key : ℕ → Mode
start_key c = if is_word c then in_key (c ∷ []) else in_key []

key_step : Text → ℕ → Mode
unfolding start_key
key_step [] c = start_key c
key_step (k ∷ key) c =
    if is_word c || c == b'-'
    then in_key (k ∷ key ++ c ∷ [])
    else if c == b'='
    then after_eq (k ∷ key)
    else in_key []

eq_step : Text → ℕ → Mode
unfolding start_key
eq_step key c = if c == b'"' then in_value key [] else start_key c

unfoldable pub scan_from : Mode → Text → List (Text × Text)
unfolding key_step eq_step
scan_from _ [] = []
scan_from (in_key key) (c ∷ s) = scan_from (key_step key c) s
scan_from (after_eq key) (c ∷ s) = scan_from (eq_step key c) s
scan_from (in_value key value) (c ∷ s) =
    let found = (key, value) ∷ scan_from (in_key []) s in
    let longer = scan_from (in_value key (value ++ c ∷ [])) s in if c == b'"' then found else longer

-- The pairs that a loop over `ATTR_RE.exec(attributes)` sees.
unfoldable pub scan_attributes : Text → List (Text × Text)
unfolding scan_from
scan_attributes s = scan_from (in_key []) s

scan_attributes_runs :
    scan_attributes (codes " start=\"2\" stop =\"3\" -id=\"a b\" x=y=\"z\" w=\"open")
    ≡ (codes "start", codes "2") ∷ (codes "id", codes "a b") ∷ (codes "y", codes "z") ∷ []
unfolding scan_attributes
scan_attributes_runs = refl
