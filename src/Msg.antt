-- ===== src/Msg.antt =====
-- tf_io.c, lines 83 to 110: the command codes of the Topfield protocol.
use libtopfield.Base.{ℕ}

abbrev pub fail : ℕ
fail = 0x0001

abbrev pub success : ℕ
success = 0x0002

abbrev pub cancel : ℕ
cancel = 0x0003

abbrev pub ready : ℕ
ready = 0x0100

abbrev pub reset : ℕ
reset = 0x0101

abbrev pub turbo : ℕ
turbo = 0x0102

abbrev pub hdd_size : ℕ
hdd_size = 0x1000

abbrev pub hdd_size_result : ℕ
hdd_size_result = 0x1001

abbrev pub hdd_dir : ℕ
hdd_dir = 0x1002

abbrev pub hdd_dirent : ℕ
hdd_dirent = 0x1003

abbrev pub hdd_dirend : ℕ
hdd_dirend = 0x1004

abbrev pub hdd_delete : ℕ
hdd_delete = 0x1005

abbrev pub hdd_rename : ℕ
hdd_rename = 0x1006

abbrev pub hdd_mkdir : ℕ
hdd_mkdir = 0x1007

abbrev pub hdd_file_send : ℕ
hdd_file_send = 0x1008

abbrev pub hdd_file_start : ℕ
hdd_file_start = 0x1009

abbrev pub hdd_file_data : ℕ
hdd_file_data = 0x100a

abbrev pub hdd_file_end : ℕ
hdd_file_end = 0x100b

-- The direction byte of `hdd_file_send`.
abbrev pub dir_put : ℕ
dir_put = 0

abbrev pub dir_get : ℕ
dir_get = 1
