-- ===== src/Relay/Auth/Dates/Laws.antt =====
-- The parts of a date are within their ranges.
use slack_claude_remote.Prelude.{
  ℕ, ◌+◌, ◌-◌, ◌*◌, ◌/◌, ◌%◌, ◌≤◌, ◌<◌, ◌≡◌, arith, leb, if◌then◌else◌, ap, ◌∙◌, sym, subst,
  Bool-cases, inl, inr,
}
use slack_claude_remote.Prelude.Int.{ℤ, pos, negsuc, pos_part, ◌+ℤ◌}
use slack_claude_remote.Relay.Auth.Dates.{
  div_euclid, rem_euclid, year_of_era, day_of_year, shifted_month, day_of_month, month_of, civil,
  date_in_era,
}

rem_euclid-lt : (a : ℤ) → rem_euclid a 146097 < 146097
unfolding rem_euclid
rem_euclid-lt (pos n) = omega arith
rem_euclid-lt (negsuc n) = omega arith

year_of_era-lt : (doe : ℕ) → doe < 146097 → year_of_era doe < 400
year_of_era-lt doe h = omega arith

day_of_year-lt : (doe : ℕ) → doe < 146097 → day_of_year doe < 366
day_of_year-lt doe h = omega arith

month_bounds :
    (doy : ℕ) → doy < 366 → (1 ≤ month_of (shifted_month doy)) × (month_of (shifted_month doy) ≤ 12)
month_bounds doy h = ground arith

day_bounds : (doy : ℕ) → doy < 366 → (1 ≤ day_of_month doy) × (day_of_month doy ≤ 31)
day_bounds doy h = (omega arith, omega arith)

-- The day count of a date, from 0000-03-01 on: the inverse of the algorithm, for positive years.
month_index : ℕ → ℕ
month_index m = if leb m 2 then m + 9 else m - 3

abbrev year_start : ℕ → ℕ
year_start yoe = 365 * yoe + yoe / 4 - yoe / 100

pub days_of_civil : ℕ → ℕ → ℕ → ℕ
days_of_civil y m d =
    let y' = if leb m 2 then y - 1 else y in
    y' / 400 * 146097 + (year_start (y' % 400) + ((153 * month_index m + 2) / 5 + d - 1))

year_start_of_era : (doe : ℕ) → doe < 146097 → doe ≡ year_start (year_of_era doe) + day_of_year doe
year_start_of_era doe h = omega arith

day_restored :
    (doy : ℕ)
    → doy < 366
    → doy ≡ (153 * month_index (month_of (shifted_month doy)) + 2) / 5 + day_of_month doy - 1
unfolding month_index
day_restored doy h = ground arith

add_pos : (a b : ℕ) → pos a +ℤ pos b ≡ pos (a + b)
unfolding ◌+ℤ◌
add_pos a b = ground arith

civil_pos :
    (n : ℕ) → civil (pos n) ≡ date_in_era (pos ((n + 719468) / 146097)) ((n + 719468) % 146097)
unfolding civil div_euclid rem_euclid
civil_pos n = ap (λ z. date_in_era (div_euclid z 146097) (rem_euclid z 146097)) (add_pos n 719468)

year_pos :
    (era doe : ℕ)
    → (date_in_era (pos era) doe).0
      ≡ pos (
          year_of_era doe
          + era * 400
          + (if leb (month_of (shifted_month (day_of_year doe))) 2 then 1 else 0))
unfolding date_in_era
year_pos era doe =
    ap (λ y. y +ℤ pos (if leb (month_of (shifted_month (day_of_year doe))) 2 then 1 else 0))
      (add_pos (year_of_era doe) (era * 400))
    ∙ add_pos (year_of_era doe + era * 400)
        (if leb (month_of (shifted_month (day_of_year doe))) 2 then 1 else 0)

century_split :
    (yoe era : ℕ) → yoe < 400 → ((yoe + era * 400) / 400 ≡ era) × ((yoe + era * 400) % 400 ≡ yoe)
century_split yoe era h = (omega arith, omega arith)

count_back :
    (yoe doy m d era doe : ℕ)
    → yoe < 400
    → doe ≡ year_start yoe + doy
    → doy ≡ (153 * month_index m + 2) / 5 + d - 1
    → days_of_civil (yoe + era * 400 + (if leb m 2 then 1 else 0)) m d ≡ era * 146097 + doe
unfolding days_of_civil
count_back yoe doy m d era doe small start day =
    let (same_era, same_yoe) = century_split yoe era small in
    elim (Bool-cases (leb m 2)) [
      | inl early ↦
          let y : yoe + era * 400 + 1 - 1 ≡ yoe + era * 400 = omega arith in
          rw (early, y, same_era, same_yoe) (omega arith)
      | inr late ↦
          let y : yoe + era * 400 + 0 ≡ yoe + era * 400 = omega arith in
          rw (late, y, same_era, same_yoe) (omega arith)
    ]

days_restored :
    (era doe : ℕ)
    → doe < 146097
    → days_of_civil
        (year_of_era doe
          + era * 400
          + (if leb (month_of (shifted_month (day_of_year doe))) 2 then 1 else 0))
        (month_of (shifted_month (day_of_year doe)))
        (day_of_month (day_of_year doe))
      ≡ era * 146097 + doe
days_restored era doe h =
    count_back (year_of_era doe) (day_of_year doe) (month_of (shifted_month (day_of_year doe)))
      (day_of_month (day_of_year doe)) era doe (year_of_era-lt doe h) (year_start_of_era doe h)
      (day_restored (day_of_year doe) (day_of_year-lt doe h))

-- What a date says of its day: month and day are in their ranges, and counting the days back from
-- the date gives the day.
abbrev pub IsDateOf : ℕ → ℤ × (ℕ × ℕ) → Type 0
IsDateOf n (year, (month, day)) =
    (1 ≤ month)
    × (month ≤ 12)
    × (1 ≤ day)
    × (day ≤ 31)
    × (days_of_civil (pos_part year) month day ≡ n + 719468)

in_era-IsDateOf :
    (n era doe : ℕ)
    → doe < 146097
    → era * 146097 + doe ≡ n + 719468
    → IsDateOf n (date_in_era (pos era) doe)
unfolding date_in_era
in_era-IsDateOf n era doe h count =
    let small = day_of_year-lt doe h in
    let (m1, m2) = month_bounds (day_of_year doe) small in
    let (d1, d2) = day_bounds (day_of_year doe) small in
    (
      m1,
      m2,
      d1,
      d2,
      ap
            (λ y.
              days_of_civil (pos_part y) (month_of (shifted_month (day_of_year doe)))
                (day_of_month (day_of_year doe)))
            (year_pos era doe)
          ∙ days_restored era doe h
          ∙ count,
    )

-- For a day since 1970: the month of its date is within 1 to 12 and the day within 1 to 31, and
-- days_of_civil, which counts the days up to a date, gives the day again; so no two days have the
-- same date.
pub civil-IsDateOf : (n : ℕ) → IsDateOf n (civil (pos n))
civil-IsDateOf n =
    subst (IsDateOf n) (sym (civil_pos n)) (
      in_era-IsDateOf n ((n + 719468) / 146097) ((n + 719468) % 146097) (omega arith) (omega arith))
