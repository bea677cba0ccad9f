-- ===== src/Examples/Pieces.antt =====
-- A kernel that takes three bytes at a time and brings an answer in pieces of four.
use libtopfield.Base.{ℕ, ◌≡◌, refl, sym, arith, List, [], ◌∷◌, some, ◌≤◌, length, min}
use libtopfield.Base.Int.{ℤ, pos, negsuc}
use libtopfield.Bytes.{get_u16_raw, get_u32, put_u32}
use libtopfield.Packet.{TfPacket, tf_req_init, packet_size}
use libtopfield.Packet.Shape.{tf_req_init-IsRequest}
use libtopfield.Commands.Request.{success_packet-tf_req_done}
use libtopfield.Io.{tf_cmd, send_pad, success_packet}
use libtopfield.Io.Answers.{received}
use libtopfield.Io.Exchange.{answer}
use libtopfield.Io.Bus.{Serves, tf_cmd-usb_io}
use libtopfield.Transfer.{Kernel}
use libtopfield.Transfer.Pieces.{Takes, Arrives}
use libtopfield.Transfer.Bus.{usb_io}
use libtopfield.Examples.Device.{opened}
use libtopfield.Msg

abbrev next_piece : List (List ℕ) → ℤ × List ℕ × List (List ℕ)
next_piece [] = (negsuc 0, [], [])
next_piece (piece ∷ pieces) = (pos (length piece), piece, pieces)

abbrev by_three : Kernel (List (List ℕ))
by_three = record {
  bulk_out = λ w ep bytes len timeout. (pos (min len 3), w);
  bulk_in = λ w ep len timeout. next_piece w;
  sleep = λ w n. w;
}

abbrev pieces : List (List ℕ)
pieces = (0x08 ∷ 0x00 ∷ 0x81 ∷ 0xc1 ∷ []) ∷ (0x00 ∷ 0x00 ∷ 0x02 ∷ 0x00 ∷ []) ∷ [] ∷ []

abbrev success : TfPacket
success = tf_req_init Msg.success

abbrev request : List ℕ
request = success_packet

taken : (w : List (List ℕ)) → Takes by_three 4 11000 8 request w w
taken w = Takes.piece 8 3 _ w w w refl (omega arith) (omega arith) (
    Takes.piece 5 3 _ w w w refl (omega arith) (omega arith)
      (Takes.piece 2 2 _ w w w refl (omega arith) (omega arith) (Takes.all _ w)))

brought : Arrives by_three 4 11000 packet_size success_packet pieces []
brought =
    Arrives.full packet_size (0x08 ∷ 0x00 ∷ 0x81 ∷ 0xc1 ∷ []) (0x00 ∷ 0x00 ∷ 0x02 ∷ 0x00 ∷ []) _ _
      [] refl refl (omega arith)
      (Arrives.full _ (0x00 ∷ 0x00 ∷ 0x02 ∷ 0x00 ∷ []) [] _ _ [] refl refl (omega arith)
        (Arrives.short _ [] _ [] refl (omega arith)))

served : Serves by_three 4 (opened pieces) request success pieces []
unfolding get_u16_raw send_pad
served = record {
  connected = refl;
  takes = taken pieces;
  request = tf_req_init-IsRequest Msg.success;
  junk = [];
  junk_bytes = tt;
  brings = rw (sym success_packet-tf_req_done) brought;
}

succeeds : get_u32 success.cmd ≡ Msg.fail → 4 ≤ length success.body
unfolding get_u32 tf_req_init put_u32
succeeds e = ground (arith, e)

tf_cmd-usb_io_example :
    tf_cmd (usb_io by_three 4) request (opened pieces)
    ≡ some (answer success, received (opened pieces) [] (answer success))
tf_cmd-usb_io_example =
    tf_cmd-usb_io by_three 4 (opened pieces) request success pieces [] served succeeds
