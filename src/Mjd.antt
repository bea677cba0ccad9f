-- ===== src/Mjd.antt =====
-- mjd.c and mjd.h: Topfield date and time stamps, a 16-bit Modified Julian Date and three bytes.
--
-- The source computes in `double` and truncates each result to an `int`. The constants have at most
-- four decimals, so the model scales by 100 and 10000 and divides towards zero. No exact quotient
-- lies within 1e-5 of a whole number but where it is one that a double holds, so the rounding of
-- the doubles never changes the truncated value.
pub mod Calendar
pub mod Correct
pub mod Stamps
use libtopfield.Base.{
  ℕ, ◌+◌, ◌*◌, ◌%◌, ◌^◌, Bool, true, false, List, ◌==◌, ◌&&◌, ◌||◌, if◌then◌else◌,
}
use libtopfield.Base.Bits.{u8, u16}
use libtopfield.Base.Int.{ℤ, pos, negsuc, ◌+ℤ◌, ◌-ℤ◌, ◌*ℕ◌, ◌/ℕ◌, ◌==ℤ◌, pattern32}
use libtopfield.Bytes.{get_u16, put_u16}

-- `mjd` is the two bytes of the field.
pub record TfDatetime : Type 0 where
  pub mjd : List ℕ
  pub hour : ℕ
  pub minute : ℕ
  pub second : ℕ

-- The fields of `struct tm` that the source sets or reads.
pub record Tm : Type 0 where
  pub sec : ℤ
  pub minute : ℤ
  pub hour : ℤ
  pub mday : ℤ
  pub mon : ℤ
  pub year : ℤ

-- The C library's `mktime` and `localtime`, which depend on the time zone.
pub record TimeZone : Type 0 where
  pub mktime : Tm → ℤ
  pub localtime : ℤ → Tm

-- A year since 1900, a month from 1 and a day.
pub record Day : Type 0 where
  pub year : ℤ
  pub month : ℤ
  pub day : ℤ

-- `(int) (y * 365.25)` and `(int) (m * 30.6001)`
abbrev pub year_days : ℤ → ℤ
year_days y = y *ℕ 36525 /ℕ 100

abbrev pub month_days : ℤ → ℤ
month_days m = m *ℕ 306001 /ℕ 10000

unfoldable pub day_of_mjd : ℕ → Day
day_of_mjd mjd =
    let y = (pos (mjd * 100) -ℤ pos 1507820) /ℕ 36525 in
    let m = (pos (mjd * 10000) -ℤ pos 149561000 -ℤ year_days y *ℕ 10000) /ℕ 306001 in
    let d = pos mjd -ℤ pos 14956 -ℤ year_days y -ℤ month_days m in
    let k : ℕ = if (m ==ℤ pos 14) || (m ==ℤ pos 15) then 1 else 0 in
    record { year = y +ℤ pos k; month = m -ℤ pos 1 -ℤ pos (k * 12); day = d }

unfoldable pub mjd_of_day : Day → ℤ
mjd_of_day t =
    let k : ℕ = if (t.month ==ℤ pos 1) || (t.month ==ℤ pos 2) then 1 else 0 in
    pos 14956
    +ℤ t.day
    +ℤ year_days (t.year -ℤ pos k)
    +ℤ month_days (t.month +ℤ pos 1 +ℤ pos (k * 12))

unfoldable pub tfdt_to_time : TimeZone → TfDatetime → ℤ
tfdt_to_time zone dt =
    let mjd = get_u16 dt.mjd in
    let t = day_of_mjd mjd in
    if (mjd == 0xffff) && (dt.second == 0xff) && (dt.minute == 0xff) && (dt.hour == 0xff)
    then pos 0
    else zone.mktime (record {
      sec = pos dt.second;
      minute = pos dt.minute;
      hour = pos dt.hour;
      mday = t.day;
      mon = t.month -ℤ pos 1;
      year = t.year;
    })

unfoldable pub time_to_tfdt : TimeZone → ℤ → TfDatetime
time_to_tfdt zone time =
    let tm = zone.localtime time in
    let t : Day = record { year = tm.year; month = tm.mon +ℤ pos 1; day = tm.mday } in
    record {
      mjd = put_u16 (u16 (pattern32 (mjd_of_day t)));
      hour = u8 (pattern32 tm.hour);
      minute = u8 (pattern32 tm.minute);
      second = u8 (pattern32 tm.sec);
    }
