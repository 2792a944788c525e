-- ===== src/Epg/Dates.antt =====
-- The stamps of a guide: a stamp is read as the time that it names, and the days are numbered as
-- the calendar goes on.
use pytone_digital.Prelude.{
  ℕ, zero, suc, ◌+◌, ◌-◌, ◌/◌, ◌%◌, ◌≤◌, ◌<◌, ◌≡◌, refl, ap, ◌∙◌, inl, inr, Bool, true, false, ◌&&◌,
  ◌||◌, arith, ltb, leb, ◌==◌, if◌then◌else◌, ltb→lt, Bool-cases,
}
use pytone_digital.Epg.Stamp.{days_before_year, days_before_month, day_number, is_leap, month_start}

-- The calendar.
unfoldable pub month_length : ℕ → ℕ → ℕ
month_length y mo =
    if mo == 2
    then (if is_leap y then 29 else 28)
    else if mo == 4 || mo == 6 || mo == 9 || mo == 11
    then 30
    else 31

abbrev pub IsDate : ℕ → ℕ → ℕ → Type 0
IsDate y mo d = (1 ≤ y) × (1 ≤ mo) × (mo ≤ 12) × (1 ≤ d) × (d ≤ month_length y mo)

abbrev pub next_date : ℕ → ℕ → ℕ → ℕ × ℕ × ℕ
next_date y mo d =
    if ltb d (month_length y mo)
    then (y, mo, d + 1)
    else if ltb mo 12
    then (y, suc mo, 1)
    else (suc y, 1, 1)

-- In range, the fields are taken as they are.
day_number-in_range :
    (y m d : ℕ)
    → 1 ≤ y
    → m < 12
    → day_number y (suc m) d ≡ days_before_year y + days_before_month y m + d
unfolding day_number
day_number-in_range y m d h k =
    let year : y + (suc m + 11) / 12 - 1 ≡ y = omega arith in
    let month : (suc m + 11) % 12 ≡ m = omega arith in rw (year, month) refl

-- A month starts where the one in front of it ends.
month_start-suc :
    (leap : Bool) (m : ℕ)
    → m < 11
    → month_start (suc m) + (if leb 2 (suc m) && leap then 1 else 0)
      ≡ month_start m
        + (if leb 2 m && leap then 1 else 0)
        + (if suc m == 2
            then (if leap then 29 else 28)
            else if suc m == 4 || suc m == 6 || suc m == 9 || suc m == 11
            then 30
            else 31)
month_start-suc true zero h = refl
month_start-suc false zero h = refl
month_start-suc true (suc zero) h = refl
month_start-suc false (suc zero) h = refl
month_start-suc true (suc (suc zero)) h = refl
month_start-suc false (suc (suc zero)) h = refl
month_start-suc true (suc (suc (suc zero))) h = refl
month_start-suc false (suc (suc (suc zero))) h = refl
month_start-suc true (suc (suc (suc (suc zero)))) h = refl
month_start-suc false (suc (suc (suc (suc zero)))) h = refl
month_start-suc true (suc (suc (suc (suc (suc zero))))) h = refl
month_start-suc false (suc (suc (suc (suc (suc zero))))) h = refl
month_start-suc true (suc (suc (suc (suc (suc (suc zero)))))) h = refl
month_start-suc false (suc (suc (suc (suc (suc (suc zero)))))) h = refl
month_start-suc true (suc (suc (suc (suc (suc (suc (suc zero))))))) h = refl
month_start-suc false (suc (suc (suc (suc (suc (suc (suc zero))))))) h = refl
month_start-suc true (suc (suc (suc (suc (suc (suc (suc (suc zero)))))))) h = refl
month_start-suc false (suc (suc (suc (suc (suc (suc (suc (suc zero)))))))) h = refl
month_start-suc true (suc (suc (suc (suc (suc (suc (suc (suc (suc zero))))))))) h = refl
month_start-suc false (suc (suc (suc (suc (suc (suc (suc (suc (suc zero))))))))) h = refl
month_start-suc true (suc (suc (suc (suc (suc (suc (suc (suc (suc (suc zero)))))))))) h = refl
month_start-suc false (suc (suc (suc (suc (suc (suc (suc (suc (suc (suc zero)))))))))) h = refl
month_start-suc b (suc (suc (suc (suc (suc (suc (suc (suc (suc (suc (suc m))))))))))) h =
    absurd (omega arith)

days_before_month-suc :
    (y m : ℕ)
    → m < 11
    → days_before_month y (suc m) ≡ days_before_month y m + month_length y (suc m)
unfolding days_before_month month_length
days_before_month-suc y m h = month_start-suc (is_leap y) m h

days_before_year-suc :
    (y : ℕ) → 1 ≤ y → days_before_year (suc y) ≡ days_before_year y + days_before_month y 11 + 31
unfolding days_before_year days_before_month
days_before_year-suc y h = ground arith

-- The day after a date has the next number.
pub day_number-next_date :
    (y mo d : ℕ)
    → IsDate y mo d
    → (let (y', mo', d') = next_date y mo d in day_number y' mo' d') ≡ day_number y mo d + 1
day_number-next_date y zero d (hy, hl, hm, hd, he) = absurd (omega arith)
day_number-next_date y (suc m) d (hy, hl, hm, hd, he) =
    let here = day_number-in_range y m d hy (omega arith) in
    elim (Bool-cases (ltb d (month_length y (suc m)))) [
      | inl e ↦ rw e (day_number-in_range y m (d + 1) hy (omega arith) ∙ omega (arith, here))
      | inr e ↦
          let last : d ≡ month_length y (suc m) = ground arith in
          elim (Bool-cases (ltb (suc m) 12)) [
            | inl f ↦
                rw (e, f)
                  (day_number-in_range y (suc m) 1 hy (ltb→lt (suc m) 12 f)
                    ∙ omega (arith, here, days_before_month-suc y m (ltb→lt m 11 (ground arith))))
            | inr f ↦
                let december : m ≡ 11 = ground arith in rw (e, f) (new_year december last here)
          ]
    ]
  where
    new_year :
        m ≡ 11
        → d ≡ month_length y (suc m)
        → day_number y (suc m) d ≡ days_before_year y + days_before_month y m + d
        → day_number (suc y) 1 1 ≡ day_number y (suc m) d + 1
    new_year e l here =
        let days : month_length y (suc m) ≡ 31 = rw e (unfold month_length in refl) in
        let first : days_before_month (suc y) 0 ≡ 0 = unfold days_before_month in refl in
        let here' : day_number y (suc m) d ≡ days_before_year y + days_before_month y 11 + d =
          here ∙ ap (λ k. days_before_year y + days_before_month y k + d) e in
        day_number-in_range (suc y) 0 1 (omega arith) (omega arith)
        ∙ omega (arith, days_before_year-suc y hy)
