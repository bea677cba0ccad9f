-- ===== src/Examples/Data.antt =====
-- Examples on numbers, checksums, dates, paths and requests.
use libtopfield.Base.{ℕ, ◌≡◌, refl, arith, List, [], ◌∷◌, none, some, ◌≢◌}
use libtopfield.Crc.{crc16_ansi}
use libtopfield.Crc.Reference.{crc_bitwise, crc16_ansi-crc_bitwise}
use libtopfield.Crc.Detect.{crc16_ansi_detects}
use libtopfield.Mjd.{day_of_mjd}
use libtopfield.Mjd.Correct.{IsDateOf, day_of_mjd-IsDateOf}
use libtopfield.Packet.{TfPacket}
use libtopfield.Put.{file_data_request}
use libtopfield.Put.Block.{HasBlock, file_data_request_lem}
use libtopfield.Search.{UsbDevice, is_wanted, scan_devices, scan_busses}
use libtopfield.Path.{tf_makename}
use libtopfield.Path.Spec.{join, resolve, abs_path}
use libtopfield.Path.Resolve.{tf_makename_resolves}
use libtopfield.Msg

crc16_ansi-crc_bitwise_example :
    crc16_ansi 0 (0x31 ∷ 0x32 ∷ 0xff ∷ []) ≡ crc_bitwise 0 (0x31 ∷ 0x32 ∷ 0xff ∷ [])
crc16_ansi-crc_bitwise_example = crc16_ansi-crc_bitwise 0 (0x31 ∷ 0x32 ∷ 0xff ∷ []) (omega arith)

crc16_ansi_detects_example : crc16_ansi 0 (1 ∷ 2 ∷ 5 ∷ 9 ∷ []) ≢ crc16_ansi 0 (1 ∷ 2 ∷ 6 ∷ 9 ∷ [])
crc16_ansi_detects_example =
    crc16_ansi_detects 0 (1 ∷ 2 ∷ []) (9 ∷ []) 5 6 (omega arith) (omega arith) (omega arith)
      (omega arith)

day_of_mjd-IsDateOf_example : IsDateOf 53000 (day_of_mjd 53000)
day_of_mjd-IsDateOf_example = day_of_mjd-IsDateOf 53000 (omega arith) (omega arith)

abbrev name_ab : List ℕ
name_ab = b'/' ∷ b'a' ∷ b'b' ∷ []

file_data_request_lem_example :
    (p : TfPacket) × (file_data_request 4096 (1 ∷ 2 ∷ 3 ∷ []) ≡ some p)
    × HasBlock p 4096 (1 ∷ 2 ∷ 3 ∷ [])
file_data_request_lem_example =
    file_data_request_lem 4096 (1 ∷ 2 ∷ 3 ∷ []) (omega arith) (omega arith) (omega arith)

abbrev dir_ab : List (List ℕ)
dir_ab = (b'a' ∷ []) ∷ (b'b' ∷ []) ∷ []

abbrev up_c : List (List ℕ)
up_c = (b'.' ∷ b'.' ∷ []) ∷ (b'c' ∷ []) ∷ []

tf_makename_resolves_example :
    (tf_makename (b'/' ∷ join dir_ab) none ≡ abs_path (resolve [] dir_ab))
    × (tf_makename (b'/' ∷ join dir_ab) (some (join up_c))
        ≡ abs_path (resolve (resolve [] dir_ab) up_c))
    × (tf_makename (b'x' ∷ []) (some (b'/' ∷ join up_c)) ≡ abs_path (resolve [] up_c))
tf_makename_resolves_example =
    tf_makename_resolves dir_ab up_c (b'x' ∷ []) (ground arith) (ground arith)

abbrev receiver : ℕ → UsbDevice
receiver number = record { id_vendor = 0x11db; id_product = 0x1000; number = number }

abbrev keyboard : UsbDevice
keyboard = record { id_vendor = 0x46d; id_product = 0xc31c; number = 9 }

abbrev two_busses : List (List UsbDevice)
two_busses = (keyboard ∷ receiver 1 ∷ []) ∷ [] ∷ (receiver 2 ∷ keyboard ∷ []) ∷ []

second_receiver : scan_busses (is_wanted 0x11db 0x1000) 1 0 two_busses ≡ some (receiver 2)
unfolding scan_busses scan_devices is_wanted
second_receiver = refl
