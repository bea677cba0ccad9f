-- ===== src/Examples/Descriptors.antt =====
-- A time zone that computes in UTC, and a descriptor that is stored and read back there.
use libtopfield.Base.{ℕ, ◌+◌, ◌/◌, ◌%◌, ◌≡◌, refl, arith, [], ◌++◌, some, replicate}
use libtopfield.Base.Int.{ℤ, pos, negsuc, ◌+ℤ◌, ◌-ℤ◌, ◌*ℕ◌}
use libtopfield.Base.Texts.{codes}
use libtopfield.Bytes.{get_u64, put_u64, push_byte}
use libtopfield.Mjd.{Tm, TimeZone, day_of_mjd, mjd_of_day, tfdt_to_time, time_to_tfdt}
use libtopfield.Mjd.Stamps.{tm_of, IsLocal, tfdt_to_time-time_to_tfdt}
use libtopfield.Dirent.{unpack_dirent, pack_typefile}
use libtopfield.Dirent.Stored.{other_order, unpack_dirent-pack_typefile}

abbrev first_of_1970 : ℕ
first_of_1970 = 40587

abbrev seconds : Tm → ℤ
seconds tm =
    (mjd_of_day (record { year = tm.year; month = tm.mon +ℤ pos 1; day = tm.mday })
        -ℤ pos first_of_1970)
      *ℕ 86400
    +ℤ tm.hour *ℕ 3600
    +ℤ tm.minute *ℕ 60
    +ℤ tm.sec

abbrev broken_down : ℤ → Tm
broken_down (pos t) = tm_of (first_of_1970 + t / 86400) (t / 3600 % 24) (t / 60 % 60) (t % 60)
broken_down (negsuc t) = tm_of first_of_1970 0 0 0

abbrev pub greenwich : TimeZone
greenwich = record { mktime = seconds; localtime = broken_down }

abbrev pub time : ℤ
time = pos 1100000000

pub time-IsLocal : IsLocal greenwich time
unfolding day_of_mjd mjd_of_day
time-IsLocal = record {
  mjd = 53318;
  hour = 11;
  minute = 33;
  second = 20;
  mjd_low = omega arith;
  mjd_high = omega arith;
  hour_in = omega arith;
  minute_in = omega arith;
  second_in = omega arith;
  breaks_down = refl;
  made_again = refl;
}

tfdt_to_time-time_to_tfdt_example : tfdt_to_time greenwich (time_to_tfdt greenwich time) ≡ time
tfdt_to_time-time_to_tfdt_example = tfdt_to_time-time_to_tfdt greenwich time time-IsLocal

three_is : other_order 3 ≡ 0x300000000000000
unfolding other_order get_u64 put_u64 push_byte
three_is = refl

unpack_dirent-pack_typefile_example :
    unpack_dirent greenwich
      (pack_typefile greenwich (replicate 95 7) time 3 (codes "News.rec") ++ [])
    ≡ some (record {
      stamp = time;
      type = b'f';
      size = other_order 3;
      name = codes "News.rec";
      attrib = 0;
    })
unpack_dirent-pack_typefile_example =
    unpack_dirent-pack_typefile greenwich (replicate 95 7) time 3 (codes "News.rec") time-IsLocal
      refl (omega arith) []
