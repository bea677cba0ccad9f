-- ===== src/Mjd/Stamps.antt =====
-- Time stamps there and back (mjd.c): `time_to_tfdt` and `tfdt_to_time`.
use libtopfield.Base.{ℕ, ◌%◌, ◌^◌, ◌<◌, ◌≤◌, ◌≡◌, refl, arith, false, [], ◌==◌}
use libtopfield.Base.Int.{ℤ, pos, negsuc, ◌-ℤ◌, ◌+ℤ◌}
use libtopfield.Bytes.{get_u16, put_u16}
use libtopfield.Bytes.Codec.{get_u16-put_u16}
use libtopfield.Mjd.{Tm, TimeZone, day_of_mjd, tfdt_to_time, time_to_tfdt}
use libtopfield.Mjd.Correct.{first_mjd, mjd_of_day-day_of_mjd}

-- The date with a Modified Julian Date and a time of day, as `localtime` gives them.
abbrev pub tm_of : ℕ → ℕ → ℕ → ℕ → Tm
tm_of mjd hour minute second =
    let t = day_of_mjd mjd in
    record {
      sec = pos second;
      minute = pos minute;
      hour = pos hour;
      mday = t.day;
      mon = t.month -ℤ pos 1;
      year = t.year;
    }

-- A time that `localtime` breaks down into a date of the 16-bit range and a time of day, and that
-- `mktime` makes of these again.
pub record IsLocal (zone : TimeZone) (time : ℤ) : Type 0 where
  pub mjd : ℕ
  pub hour : ℕ
  pub minute : ℕ
  pub second : ℕ
  pub mjd_low : first_mjd ≤ mjd
  pub mjd_high : mjd < 2 ^ 16
  pub hour_in : hour < 24
  pub minute_in : minute < 60
  pub second_in : second ≤ 60
  pub breaks_down : zone.localtime time ≡ tm_of mjd hour minute second
  pub made_again : zone.mktime (tm_of mjd hour minute second) ≡ time

prev_next : (m : ℤ) → m -ℤ pos 1 +ℤ pos 1 ≡ m
prev_next (pos n) = ground arith
prev_next (negsuc n) = ground arith

module _ (zone : TimeZone) (time : ℤ) (l : IsLocal zone time) where
  pub time_to_tfdt-IsLocal :
      time_to_tfdt zone time
      ≡ record { mjd = put_u16 l.mjd; hour = l.hour; minute = l.minute; second = l.second }
  unfolding time_to_tfdt
  time_to_tfdt-IsLocal =
      let date = day_of_mjd l.mjd in
      let number = mjd_of_day-day_of_mjd l.mjd l.mjd_low l.mjd_high in
      let fits : l.mjd % 2 ^ 32 % 2 ^ 16 ≡ l.mjd = omega (arith, l.mjd_high) in
      let hours : l.hour % 2 ^ 32 % 2 ^ 8 ≡ l.hour = omega (arith, l.hour_in) in
      let minutes : l.minute % 2 ^ 32 % 2 ^ 8 ≡ l.minute = omega (arith, l.minute_in) in
      let seconds : l.second % 2 ^ 32 % 2 ^ 8 ≡ l.second = omega (arith, l.second_in) in
      rw (l.breaks_down, prev_next date.month, number, fits, hours, minutes, seconds) refl

  stamped : get_u16 (put_u16 l.mjd) ≡ l.mjd
  unfolding put_u16
  stamped = get_u16-put_u16 l.mjd [] l.mjd_high

  -- A time that `localtime` breaks down into a date from 1900 to 2038 that the 16-bit number can
  -- tell, and that `mktime` makes of its parts again, comes back from its time stamp.
  pub tfdt_to_time-time_to_tfdt : tfdt_to_time zone (time_to_tfdt zone time) ≡ time
  unfolding tfdt_to_time
  tfdt_to_time-time_to_tfdt =
      let not_blank : (l.hour == 0xff) ≡ false = ground (arith, l.hour_in) in
      rw (time_to_tfdt-IsLocal, stamped) (ground (arith, not_blank, l.made_again))
