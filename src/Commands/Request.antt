-- ===== src/Commands/Request.antt =====
-- The request packets of the commands with names, and the acknowledgement (tf_io.c).
use libtopfield.Base.{ℕ, ◌%◌, ◌≡◌, refl, ap, List, ◌++◌, length}
use mathlib.Core.List.{map}
use libtopfield.Bytes.{put_u16, put_u32, byte_swap, swap_rounds, c_string}
use libtopfield.Crc.{crc16_ansi, crc_round}
use libtopfield.Packet.{TfPacket, tf_req_init, tf_req_done, header_bytes, backslash}
use libtopfield.Packet.Shape.{IsRequest}
use libtopfield.Handle.{Usb, State}
use libtopfield.Io.{tf_send, tf_send_success, success_packet}
use libtopfield.Msg

-- Both names of a RENAME, each behind its length.
pub record HasNames (q : TfPacket) (src dest : List ℕ) : Type 0 where
  pub src_field : List ℕ
  pub dest_field : List ℕ
  pub body_is :
      q.body ≡ put_u16 (length src_field) ++ src_field ++ put_u16 (length dest_field) ++ dest_field
  pub src_reads : c_string src_field ≡ map backslash src
  pub dest_reads : c_string dest_field ≡ map backslash dest
  pub even : q.length % 2 ≡ 0
  pub request : IsRequest q

pub success_packet-tf_req_done : success_packet ≡ tf_req_done (tf_req_init Msg.success)
unfolding tf_req_done header_bytes tf_req_init put_u16 put_u32 byte_swap swap_rounds crc16_ansi
    crc_round
success_packet-tf_req_done = refl

-- `tf_send_success`, with its constant packet, sends what the packet code would make of SUCCESS.
pub tf_send_success-tf_req_done :
    {W : Type 0} (usb : Usb W) (s : State W)
    → tf_send_success usb s ≡ tf_send usb (tf_req_done (tf_req_init Msg.success)) s
unfolding tf_send_success
tf_send_success-tf_req_done usb s = ap (λ req. tf_send usb req s) success_packet-tf_req_done
