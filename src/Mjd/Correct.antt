-- ===== src/Mjd/Correct.antt =====
-- The arithmetic of mjd.c against the Gregorian calendar, in blocks of dates.
use libtopfield.Base.{
  ℕ, ◌+◌, ◌-◌, ◌*◌, ◌≤◌, ◌<◌, ◌≡◌, refl, arith, Bool, true, ◌==◌, leb, dec_lt, ◌^◌, ◌&&◌,
}
use libtopfield.Base.Int.{pos, pos_part, ◌==ℤ◌, ==ℤ_iff}
use libtopfield.Base.Bits.{holds_below, holds_below_sound}
use libtopfield.Mjd.{Day, day_of_mjd, mjd_of_day}
use libtopfield.Mjd.Calendar.{days_in_month, calendar_mjd}

abbrev pub first_mjd : ℕ
first_mjd = 15079

abbrev agrees : ℕ → Bool
agrees mjd =
    let t = day_of_mjd mjd in
    let y = pos_part t.year in
    let m = pos_part t.month in
    let d = pos_part t.day in
    (t.year ==ℤ pos y)
    && (t.month ==ℤ pos m)
    && (t.day ==ℤ pos d)
    && (leb 1 m && leb m 12 && leb 1 d && leb d (days_in_month (1900 + y) m))
    && (calendar_mjd (1900 + y) m d == mjd)
    && (mjd_of_day t ==ℤ pos mjd)

abbrev block : ℕ
block = 8410

abbrev BlockAgrees : ℕ → Type 0
BlockAgrees k = holds_below block (λ i. agrees (first_mjd + k * block + i)) ≡ true

block_zero : BlockAgrees 0
unfolding holds_below day_of_mjd mjd_of_day days_in_month calendar_mjd
block_zero = refl

block_one : BlockAgrees 1
unfolding holds_below day_of_mjd mjd_of_day days_in_month calendar_mjd
block_one = refl

block_two : BlockAgrees 2
unfolding holds_below day_of_mjd mjd_of_day days_in_month calendar_mjd
block_two = refl

block_three : BlockAgrees 3
unfolding holds_below day_of_mjd mjd_of_day days_in_month calendar_mjd
block_three = refl

block_four : BlockAgrees 4
unfolding holds_below day_of_mjd mjd_of_day days_in_month calendar_mjd
block_four = refl

block_five : BlockAgrees 5
unfolding holds_below day_of_mjd mjd_of_day days_in_month calendar_mjd
block_five = refl

in_block :
    (k mjd : ℕ)
    → BlockAgrees k
    → first_mjd + k * block ≤ mjd
    → mjd < first_mjd + (k + 1) * block
    → agrees mjd ≡ true
in_block k mjd h lo hi =
    let e : first_mjd + k * block + (mjd - (first_mjd + k * block)) ≡ mjd = omega arith in
    rw e at (
      holds_below_sound block (λ i. agrees (first_mjd + k * block + i))
        (mjd - (first_mjd + k * block)) h (omega arith))

agrees_all : (mjd : ℕ) → first_mjd ≤ mjd → mjd < 2 ^ 16 → agrees mjd ≡ true
agrees_all mjd lo hi = elim (dec_lt mjd (first_mjd + 1 * block)) [
  | yes a ↦ in_block 0 mjd block_zero lo a
  | no a ↦ elim (dec_lt mjd (first_mjd + 2 * block)) [
    | yes b ↦ in_block 1 mjd block_one (omega arith) b
    | no b ↦ elim (dec_lt mjd (first_mjd + 3 * block)) [
      | yes c ↦ in_block 2 mjd block_two (omega arith) c
      | no c ↦ elim (dec_lt mjd (first_mjd + 4 * block)) [
        | yes d ↦ in_block 3 mjd block_three (omega arith) d
        | no d ↦ elim (dec_lt mjd (first_mjd + 5 * block)) [
          | yes e ↦ in_block 4 mjd block_four (omega arith) e
          | no e ↦ in_block 5 mjd block_five (omega arith) (omega arith)
        ]
      ]
    ]
  ]
]

-- `t` is the date of the Gregorian calendar whose Modified Julian Date is `mjd`.
pub record IsDateOf (mjd : ℕ) (t : Day) : Type 0 where
  pub y : ℕ
  pub m : ℕ
  pub d : ℕ
  pub year_is : t.year ≡ pos y
  pub month_is : t.month ≡ pos m
  pub day_is : t.day ≡ pos d
  pub month_in : (1 ≤ m) × (m ≤ 12)
  pub day_in : (1 ≤ d) × (d ≤ days_in_month (1900 + y) m)
  pub mjd_is : calendar_mjd (1900 + y) m d ≡ mjd

module _ (mjd : ℕ) (lo : first_mjd ≤ mjd) (hi : mjd < 2 ^ 16) where
  -- From 1 March 1900 to 22 April 2038, the whole 16-bit range from 15079 on, the arithmetic of
  -- `tfdt_to_time` gives the date of the Gregorian calendar with that Modified Julian Date.
  pub day_of_mjd-IsDateOf : IsDateOf mjd (day_of_mjd mjd)
  day_of_mjd-IsDateOf =
      let t = day_of_mjd mjd in
      let h = agrees_all mjd lo hi in
      record {
        y = pos_part t.year;
        m = pos_part t.month;
        d = pos_part t.day;
        year_is = ground (arith, h, ==ℤ_iff t.year (pos (pos_part t.year)));
        month_is = ground (arith, h, ==ℤ_iff t.month (pos (pos_part t.month)));
        day_is = ground (arith, h, ==ℤ_iff t.day (pos (pos_part t.day)));
        month_in = ground (arith, h);
        day_in = ground (arith, h);
        mjd_is = ground (arith, h);
      }

  -- Over the same range the arithmetic of `time_to_tfdt` takes the date back to its number.
  pub mjd_of_day-day_of_mjd : mjd_of_day (day_of_mjd mjd) ≡ pos mjd
  mjd_of_day-day_of_mjd =
      let h = agrees_all mjd lo hi in
      ground (arith, h, ==ℤ_iff (mjd_of_day (day_of_mjd mjd)) (pos mjd))
