-- ===== src/Relay/Auth/Dates.antt =====
-- `rfc3339` of crates/relay/src/auth/routes.rs: a time as a date. `div_euclid` and `rem_euclid` by a
-- positive number round down, also for a time before 1970.
pub mod Laws
mod Tests
use slack_claude_remote.Prelude.{
  ℕ, suc, ◌+◌, ◌-◌, ◌*◌, ◌/◌, ◌%◌, ◌≤◌, ◌<◌, Bool, [], ◌∷◌, ◌++◌, length, replicate, leb, ltb,
  arith, if◌then◌else◌,
}
use slack_claude_remote.Prelude.Int.{ℤ, pos, negsuc, ◌+ℤ◌}
use slack_claude_remote.Prelude.Text.{Text, codes, decimal, decimal_padded}

unfoldable pub div_euclid : ℤ → ℕ → ℤ
div_euclid (pos n) d = pos (n / d)
div_euclid (negsuc n) d = negsuc (n / d)

unfoldable pub rem_euclid : ℤ → ℕ → ℕ
rem_euclid (pos n) d = n % d
rem_euclid (negsuc n) d = d - 1 - n % d

-- The steps on the day of its era of 400 years.
abbrev pub year_of_era : ℕ → ℕ
year_of_era doe = (doe - doe / 1460 + doe / 36524 - doe / 146096) / 365

abbrev pub day_of_year : ℕ → ℕ
day_of_year doe = let yoe = year_of_era doe in doe - (365 * yoe + yoe / 4 - yoe / 100)

abbrev pub shifted_month : ℕ → ℕ
shifted_month doy = (5 * doy + 2) / 153

abbrev pub day_of_month : ℕ → ℕ
day_of_month doy = doy - (153 * shifted_month doy + 2) / 5 + 1

abbrev pub month_of : ℕ → ℕ
month_of mp = if ltb mp 10 then mp + 3 else mp - 9

-- `{:04}` of an `i64`: the sign counts.
abbrev year_text : ℤ → Text
year_text (pos n) = decimal_padded 4 n
year_text (negsuc n) = b'-' ∷ decimal_padded 3 (suc n)

abbrev times_400 : ℤ → ℤ
times_400 (pos n) = pos (n * 400)
times_400 (negsuc n) = negsuc (n * 400 + 399)

-- The year, the month and the day of a day of an era.
unfoldable pub date_in_era : ℤ → ℕ → ℤ × (ℕ × ℕ)
unfolding ◌+ℤ◌
date_in_era era doe =
    let doy = day_of_year doe in
    let month = month_of (shifted_month doy) in
    (
      pos (year_of_era doe) +ℤ times_400 era +ℤ pos (if leb month 2 then 1 else 0),
      (month, day_of_month doy),
    )

-- The date of a number of days since 1970-01-01.
unfoldable pub civil : ℤ → ℤ × (ℕ × ℕ)
unfolding div_euclid rem_euclid date_in_era
civil days = let z = days +ℤ pos 719468 in date_in_era (div_euclid z 146097) (rem_euclid z 146097)

unfoldable pub rfc3339 : ℤ → Text
unfolding civil
rfc3339 unix =
    let days = div_euclid unix 86400 in
    let secs = rem_euclid unix 86400 in
    let (year, (month, day)) = civil days in
    (year_text year
      ++ codes "-"
      ++ decimal_padded 2 month
      ++ codes "-"
      ++ decimal_padded 2 day
      ++ codes "T"
      ++ decimal_padded 2 (secs / 3600)
      ++ codes ":"
      ++ decimal_padded 2 (secs % 3600 / 60)
      ++ codes ":"
      ++ decimal_padded 2 (secs % 60)
      ++ codes "Z")
