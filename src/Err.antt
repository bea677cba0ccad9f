-- ===== src/Err.antt =====
-- tf_io.h, lines 99 to 117: the error codes.
use libtopfield.Base.Int.{ℤ, pos, negsuc}

abbrev pub ok : ℤ
ok = pos 0

abbrev pub done : ℤ
done = pos 1

abbrev pub crc : ℤ
crc = negsuc 0

abbrev pub fail2 : ℤ
fail2 = negsuc 1

abbrev pub badcmd : ℤ
badcmd = negsuc 2

abbrev pub fail4 : ℤ
fail4 = negsuc 3

abbrev pub blksize : ℤ
blksize = negsuc 4

abbrev pub generr : ℤ
generr = negsuc 5

abbrev pub nomem : ℤ
nomem = negsuc 6

abbrev pub unexpected : ℤ
unexpected = negsuc 99

abbrev pub io : ℤ
io = negsuc 100

abbrev pub noconn : ℤ
noconn = negsuc 101
