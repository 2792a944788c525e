-- ===== src/Catchup/Template.antt =====
-- `expandTemplate` of catchup.ts.
use pytone_digital.Prelude.{
  ℕ, zero, suc, ◌+◌, ◌-◌, ◌*◌, ◌/◌, Bool, false, ◌&&◌, ◌||◌, Option, none, some, List, [], ◌∷◌,
  ◌++◌, leb, ◌==◌, if◌then◌else◌, length, take, drop,
}
use pytone_digital.Text.{Text, codes, text_eq, is_digit, is_word}
use pytone_digital.Text.Decimal.{show, read_base}
use pytone_digital.Dictionary.{lookup}
use pytone_digital.Epg.Entities.{span}
use pytone_digital.Catchup.{CatchupRequest, Platform, corrected_start_ms}

unfoldable pub zeros : ℕ → Text
zeros zero = []
zeros (suc n) = b'0' ∷ zeros n

-- `s.padStart(w, '0')`
unfoldable pub pad_start : ℕ → Text → Text
unfolding zeros
pad_start w s = zeros (w - length s) ++ s

abbrev pub pad2 : ℕ → Text
pad2 n = pad_start 2 (show n)

abbrev pub is_letter : ℕ → Bool
is_letter c = (leb b'A' c && leb c b'Z') || (leb b'a' c && leb c b'z')

abbrev is_key_unit : ℕ → Bool
is_key_unit c = is_word c || c == b'-'

-- A placeholder: its key, the text behind its colon if any, and its length.
pub record Token : Type 0 where
  pub key : Text
  pub spec : Option Text
  pub size : ℕ

-- `\d+\}` behind a colon and a sign.
abbrev closed : Text → Text → Text × Text → Option Token
closed key sign ([], _) = none
closed key sign (_ ∷ _, []) = none
closed key sign (d ∷ ds, c ∷ _) =
    if c == b'}'
    then some (record {
      key = key;
      spec = some (sign ++ d ∷ ds);
      size = length key + 2 + length sign + length (d ∷ ds);
    })
    else none

abbrev signed : Text → Text → Option Token
signed key [] = none
signed key (c ∷ s) =
    if c == b'+' || c == b'-'
    then closed key (c ∷ []) (span is_digit s)
    else closed key [] (span is_digit (c ∷ s))

abbrev behind_key : Text × Text → Option Token
behind_key (key, []) = none
behind_key (key, c ∷ s) =
    if c == b'}'
    then some (record { key = key; spec = none; size = length key + 1 })
    else if c == b':'
    then signed key s
    else none

-- What stands behind the opening brace; the size counts from there.
unfoldable pub read_inner : Text → Option Token
unfolding span
read_inner [] = none
read_inner (c ∷ s) = if is_letter c then behind_key (span is_key_unit (c ∷ s)) else none

abbrev grown : ℕ → Option Token → Option Token
grown n none = none
grown n (some t) = some (record t { size = n + t.size })

-- `\$?\{key(:spec)?\}` at the start of a text.
unfoldable pub read_token : Text → Option Token
unfolding read_inner
read_token [] = none
read_token (c ∷ []) = none
read_token (c ∷ d ∷ s) =
    if c == b'{'
    then grown 1 (read_inner (d ∷ s))
    else if c == b'$' && d == b'{'
    then grown 2 (read_inner s)
    else none

-- `Number(spec)` where it is a finite number above 0.
abbrev unsigned : Text → Text
unsigned [] = []
unsigned (c ∷ s) = if c == b'+' then s else c ∷ s

abbrev starts_minus : Text → Bool
starts_minus [] = false
starts_minus (c ∷ _) = c == b'-'

abbrev positive : ℕ → Option ℕ
positive zero = none
positive (suc w) = some (suc w)

unfoldable pub width_of : Text → Option ℕ
width_of spec = if starts_minus spec then none else positive (read_base 10 (unsigned spec))

abbrev padded : Option ℕ → Text → Text
padded none value = value
padded (some w) value = pad_start w value

abbrev starts_plus : Text → Bool
starts_plus [] = false
starts_plus (c ∷ _) = c == b'+'

abbrev or_same : Text → Option Text → Text
or_same raw none = raw
or_same raw (some value) = value

abbrev value_with : Option Text → Text → Text
value_with none value = value
value_with (some spec) value = padded (width_of spec) value

abbrev mapped : (Text → Text) → Option Text → Option Text
mapped f none = none
mapped f (some a) = some (f a)

abbrev duration_padded : Text → Option Text → Option ℕ → Text
duration_padded seconds usual none = or_same [] usual
duration_padded seconds usual (some w) = pad_start w seconds

-- The callback of the replacement, for the text `raw` of the placeholder.
unfoldable pub expand_token : List (Text × Text) → ℕ → Text → Token → Text
unfolding pad_start width_of
expand_token subs seconds raw t =
    let plain = or_same raw (mapped (value_with t.spec) (lookup t.key subs)) in
    elim t.spec [
      | none ↦ plain
      | some spec ↦
          if text_eq t.key (codes "offset") && starts_plus spec
          then drop 1 spec
          else if text_eq t.key (codes "duration")
          then duration_padded (show seconds) (some plain) (width_of spec)
          else plain
    ]

-- `template.replace(…/g, callback)`; the units of a placeholder are passed over.
unfoldable pub expand_from : (Text → Token → Text) → ℕ → Text → Text
unfolding read_token
expand_from f n [] = []
expand_from f (suc n) (c ∷ s) = expand_from f n s
expand_from f zero (c ∷ s) = elim (read_token (c ∷ s)) [
  | none ↦ c ∷ expand_from f zero s
  | some t ↦ f (take t.size (c ∷ s)) t ++ expand_from f (t.size - 1) s
]

abbrev or_blank : Option Text → Text
or_blank none = []
or_blank (some s) = s

module _ {N : Type 0} (pf : Platform N) where
  -- The table of the placeholders.
  unfoldable pub substitutions : ℕ → CatchupRequest N → List (Text × Text)
  unfolding pad_start
  substitutions now req =
      let start_ms = corrected_start_ms pf req in
      let f = pf.utc start_ms in
      let y = show f.year in
      let iso =
        y
        ++ b'-' ∷ pad2 f.month
        ++ b'-' ∷ pad2 f.day
        ++ b'-' ∷ pad2 f.hour
        ++ b'-' ∷ pad2 f.minute
        ++ b'-' ∷ pad2 f.second in
      (codes "start", iso)
      ∷ (codes "utc", show (start_ms / 1000))
      ∷ (codes "utcend", show ((start_ms + req.duration_min * 60000) / 1000))
      ∷ (codes "duration", show req.duration_min)
      ∷ (codes "offset", show ((now - req.start_ms) / 1000))
      ∷ (codes "Y", y)
      ∷ (codes "m", pad2 f.month)
      ∷ (codes "d", pad2 f.day)
      ∷ (codes "H", pad2 f.hour)
      ∷ (codes "M", pad2 f.minute)
      ∷ (codes "S", pad2 f.second)
      ∷ (codes "timestamp", show (start_ms / 1000))
      ∷ (codes "lutc", show (now / 1000))
      ∷ (codes "catchup-id", or_blank req.catchup_id)
      ∷ []

  unfoldable pub expand_template : ℕ → Text → CatchupRequest N → Text
  unfolding expand_from expand_token substitutions
  expand_template now template req =
      expand_from (expand_token (substitutions now req) (req.duration_min * 60)) zero template
