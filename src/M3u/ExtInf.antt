-- ===== src/M3u/ExtInf.antt =====
-- `splitExtInf`, `parseCatchupCorrection` and `parseExtInf` of m3u.ts.
use pytone_digital.Prelude.{
  ℕ, ◌+◌, ◌*◌, Bool, true, false, not, ◌&&◌, ◌||◌, Option, none, some, [], ◌∷◌, foldl, ◌==◌,
  if◌then◌else◌,
}
use pytone_digital.Text.{Text, codes, text_eq, is_empty, is_digit, trim, ascii_lower, cut_at}
use pytone_digital.Text.Decimal.{read_base}
use pytone_digital.Runtime.{Js}
use pytone_digital.M3u.{Entry}
use pytone_digital.M3u.Attributes.{scan_attributes}

cons_left : ℕ → Option (Text × Text) → Option (Text × Text)
cons_left c none = none
cons_left c (some (l, r)) = some (c ∷ l, r)

-- The first comma outside quotes: the units before it and those after it.
unfoldable pub cut_unquoted : Bool → Text → Option (Text × Text)
unfolding cons_left
cut_unquoted in_quotes [] = none
cut_unquoted in_quotes (c ∷ s) =
    let rest = cons_left c (cut_unquoted (if c == b'"' then not in_quotes else in_quotes) s) in
    if c == b',' && not in_quotes then some ([], s) else rest

pub cut_found : Text → Option (Text × Text) → Text × Text
cut_found line (some (head, name)) = (head, trim name)
cut_found line none = (line, [])

pub or_cut : Option (Text × Text) → Option (Text × Text) → Option (Text × Text)
or_cut none b = b
or_cut (some a) b = some a

-- `splitExtInf`; the result is never null. The comma is the first outside quotes, else the first.
unfoldable pub split_ext_inf : Text → Text × Text
unfolding cut_unquoted cut_found or_cut
split_ext_inf line = cut_found line (or_cut (cut_unquoted false line) (cut_at b',' line))

-- The groups of `/^([+-]?)(\d{1,2}):(\d{2})$/`: hours and minutes after the sign.
hours_minutes : Text → Option ℕ
hours_minutes (h ∷ c ∷ m ∷ n ∷ []) =
    if is_digit h && c == b':' && is_digit m && is_digit n
    then some (read_base 10 (h ∷ []) * 60 + read_base 10 (m ∷ n ∷ []))
    else none
hours_minutes (h ∷ k ∷ c ∷ m ∷ n ∷ []) =
    if is_digit h && is_digit k && c == b':' && is_digit m && is_digit n
    then some (read_base 10 (h ∷ k ∷ []) * 60 + read_base 10 (m ∷ n ∷ []))
    else none
hours_minutes _ = none

-- Whether the sign is `-`, and what follows the sign.
take_sign : Text → Bool × Text
take_sign [] = (false, [])
take_sign (c ∷ s) =
    if c == b'-' then (true, s) else if c == b'+' then (false, s) else (false, c ∷ s)

module _ (js : Js) where
  finite_number : Option js.Num → Option js.Num
  finite_number none = none
  finite_number (some n) = if js.is_finite n then some n else none

  signed_minutes : Bool → ℕ → js.Num
  signed_minutes negative n = if negative then js.minus (js.of_nat n) else js.of_nat n

  correction_of : Text → Bool → Option ℕ → Option js.Num
  correction_of v negative (some n) = some (signed_minutes negative n)
  correction_of v negative none = finite_number (js.number_of v)

  unfoldable pub parse_catchup_correction : Text → Option js.Num
  unfolding correction_of signed_minutes finite_number take_sign hours_minutes
  parse_catchup_correction raw =
      let v = trim raw in
      let (negative, rest) = take_sign v in
      if is_empty v then none else correction_of v negative (hours_minutes rest)

  nonzero : Option js.Num → Option js.Num
  nonzero none = none
  nonzero (some n) = if js.is_zero n then none else some n

  -- `Number(v) || undefined`
  unfoldable pub number_or_undefined : Text → Option js.Num
  unfolding nonzero
  number_or_undefined v = nonzero (js.number_of v)

  -- One round of the `switch` of `parseExtInf`.
  unfoldable pub set_attribute : Entry js.Num → Text × Text → Entry js.Num
  set_attribute out (k, v) =
      let key = ascii_lower k in
      if text_eq key (codes "tvg-id")
      then record out { tvg_id = some v }
      else if text_eq key (codes "tvg-logo")
      then record out { tvg_logo = some v }
      else if text_eq key (codes "group-title")
      then record out { group = some v }
      else if text_eq key (codes "tvg-chno")
      then record out { tvg_chno = number_or_undefined v }
      else if text_eq key (codes "catchup") || text_eq key (codes "catchup-type")
      then record out { catchup_kind = some (js.to_lower v) }
      else if text_eq key (codes "catchup-source")
      then record out { catchup_source = some v }
      else if text_eq key (codes "catchup-days")
      then record out { catchup_days = number_or_undefined v }
      else if text_eq key (codes "catchup-correction")
      then record out { catchup_correction = parse_catchup_correction v }
      else if text_eq key (codes "http-user-agent") || text_eq key (codes "user-agent")
      then record out { http_user_agent = some v }
      else if text_eq key (codes "http-referrer") || text_eq key (codes "http-referer")
      then record out { http_referrer = some v }
      else if text_eq key (codes "tvg-name") && is_empty out.name
      then record out { name = v }
      else out

  abbrev pub named : Text → Entry js.Num
  named name = record {
    tvg_id = none;
    tvg_logo = none;
    tvg_chno = none;
    group = none;
    name = name;
    catchup_kind = none;
    catchup_source = none;
    catchup_days = none;
    catchup_correction = none;
    http_user_agent = none;
    http_referrer = none;
  }

  unfoldable pub parse_ext_inf : Text → Entry js.Num
  parse_ext_inf line =
      let (head, name) = split_ext_inf line in
      foldl set_attribute (named name) (scan_attributes head)
