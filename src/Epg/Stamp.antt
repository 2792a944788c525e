-- ===== src/Epg/Stamp.antt =====
-- `parseXmltvDate` of epg.ts, and `Date.UTC` on the fields that it reads.
use pytone_digital.Prelude.Chain.{◌>>=◌}
use pytone_digital.Prelude.{
  ℕ, ◌+◌, ◌-◌, ◌*◌, ◌/◌, ◌%◌, Bool, not, ◌&&◌, ◌||◌, Option, none, some, [], ◌∷◌, ltb, leb, ◌==◌,
  if◌then◌else◌, length, take, drop, all,
}
use pytone_digital.Text.{Text, is_digit, is_space}
use pytone_digital.Text.Decimal.{read_base}

-- The days of the years in front of `y`, from the year 1 on.
unfoldable pub days_before_year : ℕ → ℕ
days_before_year y = 365 * (y - 1) + (y - 1) / 4 - (y - 1) / 100 + (y - 1) / 400

abbrev pub is_leap : ℕ → Bool
is_leap y = y % 4 == 0 && (not (y % 100 == 0) || y % 400 == 0)

-- The days of the months in front of a month, which is counted from 0.
abbrev pub month_start : ℕ → ℕ
month_start m =
    if m == 0
    then 0
    else if m == 1
    then 31
    else if m == 2
    then 59
    else if m == 3
    then 90
    else if m == 4
    then 120
    else if m == 5
    then 151
    else if m == 6
    then 181
    else if m == 7
    then 212
    else if m == 8
    then 243
    else if m == 9
    then 273
    else if m == 10
    then 304
    else 334

unfoldable pub days_before_month : ℕ → ℕ → ℕ
days_before_month y m = month_start m + (if leb 2 m && is_leap y then 1 else 0)

-- The number of a day whose fields need not be in range: a month of 0 or above 12 moves the year,
-- and a day of 0 or behind the end of the month moves the month.
unfoldable pub day_number : ℕ → ℕ → ℕ → ℕ
day_number y mo d =
    let year = y + (mo + 11) / 12 - 1 in
    days_before_year year + days_before_month year ((mo + 11) % 12) + d

-- `Date.UTC(y, mo - 1, d, h, mi, se)`: two-digit years are of the twentieth century.
unfoldable pub date_utc : ℕ → ℕ → ℕ → ℕ → ℕ → ℕ → ℕ
unfolding day_number
date_utc y mo d h mi se =
    let year = if ltb y 100 then 1900 + y else y in
    day_number year mo d * 86400000 + h * 3600000 + mi * 60000 + se * 1000

-- `\d{n}` at the start of a text: its value and what follows.
unfoldable pub read_digits : ℕ → Text → Option (ℕ × Text)
read_digits n s =
    if length (take n s) == n && all is_digit (take n s)
    then some (read_base 10 (take n s), drop n s)
    else none

abbrev pub skip_spaces : Text → Text
skip_spaces [] = []
skip_spaces (c ∷ s) = if is_space c then skip_spaces s else c ∷ s

-- The minutes of an offset, and whether it is west of Greenwich.
unfoldable pub offset_minutes : ℕ → ℕ
offset_minutes hhmm = hhmm / 100 * 60 + hhmm % 100

abbrev east_by : ℕ → Option (ℕ × Text) → ℕ
east_by t none = t
east_by t (some (hhmm, _)) = t - offset_minutes hhmm * 60000

abbrev west_by : ℕ → Option (ℕ × Text) → ℕ
west_by t none = t
west_by t (some (hhmm, _)) = t + offset_minutes hhmm * 60000

-- The time in UTC, by the offset that the text starts with, if any.
unfoldable pub less_offset : ℕ → Text → ℕ
unfolding offset_minutes
less_offset t [] = t
less_offset t (c ∷ s) =
    if c == b'+'
    then east_by t (read_digits 4 s)
    else if c == b'-'
    then west_by t (read_digits 4 s)
    else t

-- The stamp, or `none` for NaN. The time never stops at 0: a year is at least 100.
unfoldable pub parse_xmltv_date : Text → Option ℕ
unfolding date_utc less_offset read_digits
parse_xmltv_date s = do
  (y, s) ← read_digits 4 s
  (mo, s) ← read_digits 2 s
  (d, s) ← read_digits 2 s
  (h, s) ← read_digits 2 s
  (mi, s) ← read_digits 2 s
  (se, s) ← read_digits 2 s
  some (less_offset (date_utc y mo d h mi se) (skip_spaces s))
