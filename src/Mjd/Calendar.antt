-- ===== src/Mjd/Calendar.antt =====
-- The Gregorian calendar, by its leap rule and month lengths, as the yardstick for mjd.c.
use libtopfield.Base.{
  ℕ, zero, suc, ◌+◌, ◌-◌, ◌*◌, ◌/◌, ◌%◌, ◌≡◌, refl, Bool, true, not, ◌==◌, ◌||◌, ◌&&◌,
  if◌then◌else◌,
}

unfoldable pub is_leap : ℕ → Bool
is_leap y = (y % 4 == 0) && (not (y % 100 == 0) || (y % 400 == 0))

unfoldable pub days_in_month : ℕ → ℕ → ℕ
unfolding is_leap
days_in_month y m =
    if m == 2
    then (if is_leap y then 29 else 28)
    else if (m == 4) || (m == 6) || (m == 9) || (m == 11)
    then 30
    else 31

-- The days of the months before month `m`.
unfoldable pub days_before_month : ℕ → ℕ → ℕ
unfolding days_in_month
days_before_month y zero = 0
days_before_month y (suc zero) = 0
days_before_month y (suc (suc m)) = days_before_month y (suc m) + days_in_month y (suc m)

-- The days of the years before `y`, of which each fourth is a leap year but not each hundredth
-- that is no four-hundredth.
unfoldable pub days_before_year : ℕ → ℕ
days_before_year y = let p = y - 1 in p * 365 + p / 4 - p / 100 + p / 400

-- The Modified Julian Date counts from 17 November 1858, which is day 678576 of the calendar.
unfoldable pub calendar_mjd : ℕ → ℕ → ℕ → ℕ
unfolding days_before_year days_before_month
calendar_mjd y m d = days_before_year y + days_before_month y m + d - 678576

epoch : (calendar_mjd 1858 11 18 == 1) ≡ true
unfolding calendar_mjd
epoch = refl
