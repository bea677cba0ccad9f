-- ===== src/Examples/Traces.antt =====
-- Traces of packets and names of commands.
use libtopfield.Base.{ℕ, ◌≡◌, refl, arith, true, List, [], ◌∷◌, ◌++◌}
use libtopfield.Base.Texts.{codes}
use libtopfield.Bytes.{get_u16, get_u32}
use libtopfield.Packet.{TfPacket, tf_req_init, header_bytes}
use libtopfield.Packet.Shape.{IsRequest, tf_req_init-IsRequest, extended, extended-IsRequest}
use libtopfield.Daemon.{decimal}
use libtopfield.Trace.{
  tf_command_name, hex_digits, print_packet, packet_line, traced, dump_bytes, tf_strerror,
}
use libtopfield.Trace.Dump.{read_dump, shown_data, print_packet-header_bytes}
use libtopfield.Trace.Names.{tf_command_name-injective}
use libtopfield.Err
use libtopfield.Msg

abbrev mkdir : TfPacket
mkdir = extended (tf_req_init Msg.hdd_mkdir) (1 ∷ 0xfe ∷ 3 ∷ [])

mkdir-IsRequest : IsRequest mkdir
unfolding tf_req_init
mkdir-IsRequest =
    extended-IsRequest (tf_req_init Msg.hdd_mkdir) (1 ∷ 0xfe ∷ 3 ∷ [])
      (tf_req_init-IsRequest Msg.hdd_mkdir) (omega arith) (omega arith)

print_packet-header_bytes_example :
    (text : List ℕ) × (print_packet true 1136433910 (codes ">>") 2 (header_bytes mkdir)
      ≡ packet_line 1136433910 (codes ">>") (header_bytes mkdir) ++ text)
    × (read_dump text ≡ shown_data 2 mkdir.body)
print_packet-header_bytes_example =
    print_packet-header_bytes mkdir 1136433910 2 (codes ">>") mkdir-IsRequest (omega arith)

success_trace :
    print_packet true 7 (codes "<<") 1 (0 ∷ 9 ∷ 0xab ∷ 0xcd ∷ 0 ∷ 0 ∷ 0 ∷ 2 ∷ 0x1f ∷ [])
    ≡ codes "(7) <<: cmd=SUCCESS(0x0002), len=9, crc=0xABCD" ++ (10 ∷ codes " 1f" ++ 10 ∷ [])
unfolding print_packet packet_line tf_command_name traced dump_bytes decimal hex_digits get_u16
    get_u32
success_trace = refl

unknown_command : tf_command_name 0x1234 ≡ codes "UNKNOWN(1234)"
unfolding tf_command_name hex_digits
unknown_command = refl

no_memory : tf_strerror Err.nomem ≡ codes "Memory is full"
unfolding tf_strerror
no_memory = refl

tf_command_name-injective_example : ◌≡◌ {A = ℕ} Msg.hdd_dir 0x1002
tf_command_name-injective_example =
    tf_command_name-injective Msg.hdd_dir 0x1002 (omega arith) (omega arith) refl
