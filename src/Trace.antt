-- ===== src/Trace.antt =====
-- tf_io.c, lines 116 to 128, 879 to 901 and 925 to 993, and tf_fwio.c, lines 334 to 390: the texts
-- for people, the names of errors and commands and the traces of packets.
--
-- A text is the list of its characters. The commands write traces on the way; what they write does
-- not come back to the program, so it is modelled here alone, from what they pass. `now` is the
-- result of time(0), and `packet` the memory from the start of the packet.
pub mod Names
pub mod Dump
use libtopfield.Base.{
  ℕ, zero, suc, ◌+◌, ◌-◌, ◌*◌, ◌/◌, ◌%◌, Bool, true, false, not, List, [], ◌∷◌, ◌++◌, length, take,
  drop, replicate, ltb, leb, ◌==◌, ◌&&◌, if◌then◌else◌, min,
}
use libtopfield.Base.Int.{ℤ, pos, negsuc, ◌==ℤ◌}
use libtopfield.Base.Texts.{codes}
use libtopfield.Bytes.{at, get_u16, get_u32}
use libtopfield.Daemon.{decimal}
use libtopfield.Fw
use libtopfield.Err
use libtopfield.Msg

unfoldable pub tf_strerror : ℤ → List ℕ
tf_strerror error =
    if error ==ℤ Err.ok
    then codes "No error"
    else if error ==ℤ Err.done
    then codes "No more files"
    else if error ==ℤ Err.crc
    then codes "CRC error"
    else if error ==ℤ Err.fail2
    then codes "Unknown command (2)"
    else if error ==ℤ Err.fail4
    then codes "Unknown command (4)"
    else if error ==ℤ Err.badcmd
    then codes "Invalid command"
    else if error ==ℤ Err.blksize
    then codes "Invalid block size"
    else if error ==ℤ Err.generr
    then codes "Unknown error while running"
    else if error ==ℤ Err.nomem
    then codes "Memory is full"
    else if error ==ℤ Err.unexpected
    then codes "Unexpected response"
    else if error ==ℤ Err.io
    then codes "I/O error"
    else if error ==ℤ Err.noconn
    then codes "Not connected"
    else codes "Unknown error"

-- A hexadecimal digit; `letter` is the digit of ten, for %x or %X.
unfoldable pub hex_digit : ℕ → ℕ → ℕ
hex_digit letter d = if ltb d 10 then b'0' + d else letter + (d - 10)

-- The digits of a number, at most so many, in front of `digits`.
unfoldable pub hex_digits : ℕ → ℕ → ℕ → List ℕ → List ℕ
unfolding hex_digit
hex_digits letter zero n digits = digits
hex_digits letter (suc fuel) n digits =
    let more = hex_digits letter fuel (n / 16) (hex_digit letter (n % 16) ∷ digits) in
    if n / 16 == 0 then hex_digit letter (n % 16) ∷ digits else more

-- `%0<width>x`; a `long` has at most sixteen digits.
unfoldable pub padded_hex : ℕ → ℕ → ℕ → List ℕ
padded_hex letter width n =
    let digits = hex_digits letter 16 n [] in replicate (width - length digits) b'0' ++ digits

-- The name that a table has for a command.
unfoldable pub name_in : List (ℕ × List ℕ) → ℕ → List ℕ → List ℕ
name_in [] cmd unknown = unknown
name_in ((known, name) ∷ names) cmd unknown =
    if cmd == known then name else name_in names cmd unknown

abbrev pub command_names : List (ℕ × List ℕ)
command_names =
    (Msg.fail, codes "FAIL")
    ∷ (Msg.success, codes "SUCCESS")
    ∷ (Msg.cancel, codes "CANCEL")
    ∷ (Msg.ready, codes "READY")
    ∷ (Msg.reset, codes "RESET")
    ∷ (Msg.turbo, codes "TURBO")
    ∷ (Msg.hdd_size, codes "SIZE")
    ∷ (Msg.hdd_size_result, codes "SIZE_RESULT")
    ∷ (Msg.hdd_dir, codes "DIR")
    ∷ (Msg.hdd_dirent, codes "DIRENT")
    ∷ (Msg.hdd_dirend, codes "DIREND")
    ∷ (Msg.hdd_delete, codes "DELETE")
    ∷ (Msg.hdd_rename, codes "RENAME")
    ∷ (Msg.hdd_mkdir, codes "MKDIR")
    ∷ (Msg.hdd_file_send, codes "FILE_SEND")
    ∷ (Msg.hdd_file_start, codes "FILE_START")
    ∷ (Msg.hdd_file_data, codes "FILE_DATA")
    ∷ (Msg.hdd_file_end, codes "FILE_END")
    ∷ []

-- "UNKNOWN(%04lX)"
abbrev pub unknown_name : ℕ → ℕ → List ℕ
unknown_name width cmd = codes "UNKNOWN(" ++ (padded_hex b'A' width cmd ++ b')' ∷ [])

unfoldable pub tf_command_name : ℕ → List ℕ
unfolding name_in padded_hex
tf_command_name cmd = name_in command_names cmd (unknown_name 4 cmd)

abbrev pub fw_command_names : List (ℕ × List ℕ)
fw_command_names =
    (Fw.fw_id, codes "ID")
    ∷ (Fw.fw_pc_to_stb, codes "PC_TO_STB")
    ∷ (0x03, codes "STB_TO_PC")
    ∷ (Fw.fw_req_data, codes "REQ_DATA")
    ∷ (Fw.fw_data, codes "DATA")
    ∷ (Fw.fw_end, codes "END")
    ∷ []

unfoldable pub fw_command_name : ℕ → List ℕ
unfolding name_in padded_hex
fw_command_name cmd = name_in fw_command_names cmd (unknown_name 2 cmd)

-- `" %02x"` for each byte, a new line before each 32; `i` counts the bytes before.
unfoldable pub dump_bytes : ℕ → List ℕ → List ℕ
unfolding padded_hex
dump_bytes i [] = []
dump_bytes i (b ∷ bytes) =
    (if i % 32 == 0 then 10 ∷ [] else []) ++ (32 ∷ padded_hex b'a' 2 b ++ dump_bytes (i + 1) bytes)

-- The trace of the bytes of a transfer, in builds with DEBUG_DUMP; tf_fwio.c has the same one.
unfoldable pub hex_rows : ℕ → List ℕ → List ℕ
unfolding padded_hex
hex_rows i [] = []
hex_rows i (b ∷ bytes) =
    (if not (i == 0) && (i % 32 == 0) then 10 ∷ [] else [])
    ++ (32 ∷ padded_hex b'a' 2 b ++ hex_rows (i + 1) bytes)

unfoldable pub dump_hex_buf : List ℕ → List ℕ
unfolding hex_rows
dump_hex_buf buf = hex_rows 0 buf ++ 10 ∷ []

-- `%ld` and `%d` of numbers that are not negative.
abbrev pub shown : ℕ → List ℕ
shown n = decimal 20 n []

unfoldable pub concat : List (List ℕ) → List ℕ
concat [] = []
concat (text ∷ texts) = text ++ concat texts

-- The first line of a trace, without the end of the line.
unfoldable pub packet_line : ℕ → List ℕ → List ℕ → List ℕ
unfolding concat padded_hex
packet_line now prefix packet =
    let cmd = get_u32 (drop 4 packet) in
    concat (
      codes "("
      ∷ shown now
      ∷ codes ") "
      ∷ prefix
      ∷ codes ": cmd="
      ∷ tf_command_name cmd
      ∷ codes "(0x"
      ∷ padded_hex b'A' 4 cmd
      ∷ codes "), len="
      ∷ shown (get_u16 packet)
      ∷ codes ", crc=0x"
      ∷ padded_hex b'A' 4 (get_u16 (drop 2 packet))
      ∷ [])

-- The bytes of the data that a trace shows.
unfoldable pub traced : ℕ → List ℕ → List ℕ
traced trace_level packet =
    let len = get_u16 packet in
    let num : ℕ = (if trace_level == 1 then 64 else len - 8) in
    take (min num (len - 8)) (drop 8 packet)

-- What is written to `fh`; `fh` says whether there is a file.
unfoldable pub print_packet : Bool → ℕ → List ℕ → ℕ → List ℕ → List ℕ
print_packet fh now prefix trace_level packet =
    if ltb 0 trace_level && fh
    then packet_line now prefix packet ++ (dump_bytes 0 (traced trace_level packet) ++ 10 ∷ [])
    else []

-- The bytes in the header line and those that the loop of the bootloader's trace shows: at most 64,
-- and no more than the packet with its checksum, rounded up to an even count.
unfoldable pub fw_traced : List ℕ → List ℕ
fw_traced packet = let len = get_u16 (drop 6 packet) in take (min 64 ((len + 10) / 2 * 2)) packet

unfoldable pub fw_header : List ℕ → List ℕ
fw_header [] = []
fw_header (b ∷ bytes) = 32 ∷ padded_hex b'a' 2 b ++ fw_header bytes

unfoldable pub fw_packet_line : ℕ → List ℕ → List ℕ → List ℕ
unfolding concat padded_hex
fw_packet_line now prefix packet = concat (
    codes "("
    ∷ shown now
    ∷ codes ") "
    ∷ prefix
    ∷ codes ": cmd="
    ∷ fw_command_name (at packet 5)
    ∷ codes "(0x"
    ∷ padded_hex b'A' 2 (at packet 5)
    ∷ codes "), len="
    ∷ shown (get_u16 (drop 6 packet))
    ∷ codes ", seq=0x"
    ∷ padded_hex b'A' 2 (at packet 4)
    ∷ (10 ∷ [])
    ∷ [])

unfoldable pub fw_print_packet : Bool → ℕ → List ℕ → ℕ → List ℕ → List ℕ
fw_print_packet fh now prefix trace_level packet =
    if ltb 0 trace_level && fh
    then fw_packet_line now prefix packet
      ++ (codes "HEADER:"
          ++ (fw_header (take 8 packet) ++ (dump_bytes 0 (fw_traced packet) ++ 10 ∷ [])))
    else []
