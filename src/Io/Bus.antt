-- ===== src/Io/Bus.antt =====
-- A command of tf_io.c down to the kernel's calls of usb_io.c.
use libtopfield.Base.{ℕ, ◌≤◌, ◌<◌, ◌≡◌, arith, List, ◌++◌, true, some, length}
use libtopfield.Bytes.{get_u32}
use libtopfield.Bytes.Arith.{IsBytes}
use libtopfield.Packet.{TfPacket, tf_req_done, packet_size}
use libtopfield.Packet.Shape.{IsRequest}
use libtopfield.Handle.{State}
use libtopfield.Io.{tf_cmd, send_pad}
use libtopfield.Io.Answers.{received}
use libtopfield.Io.Exchange.{sent_length, answer, Exchanges, tf_cmd_answered}
use libtopfield.Transfer.{Kernel}
use libtopfield.Transfer.Pieces.{Takes, Arrives}
use libtopfield.Transfer.Bus.{usb_io, bulk_write-Takes, bulk_read-Arrives}
use libtopfield.Msg

-- A connected device behind a kernel: the kernel takes the request in pieces and brings the packet
-- `p`, with `junk` behind it, in pieces.
pub record Serves {W : Type 0} (kernel : Kernel W) (max : ℕ) (s : State W) (req : List ℕ)
    (p : TfPacket) (w1 w2 : W) : Type 0 where
  pub connected : s.tf.dev ≡ true
  pub takes : Takes kernel max s.tf.timeout (sent_length req) req s.world w1
  pub request : IsRequest p
  pub junk : List ℕ
  pub junk_bytes : IsBytes junk
  pub brings : Arrives kernel max s.tf.timeout packet_size (tf_req_done p ++ junk) w1 w2

sent_length_some : (req : List ℕ) → 0 < sent_length req
unfolding send_pad
sent_length_some req = ground arith

-- A command over the loops of usb_io.c: the kernel takes the request in pieces of any size, none of
-- them empty, and brings the answer, with any bytes behind it, in full pieces up to a short one or
-- a failed read. `tf_cmd` then returns and stores what the answer says, 0 for SUCCESS, the negated
-- 32-bit reason for FAIL and -100 for any other command. Conditions: a connected handle, and a
-- FAIL that has its reason.
pub tf_cmd-usb_io :
    {W : Type 0} (kernel : Kernel W) (max : ℕ) (s : State W) (req : List ℕ) (p : TfPacket)
    (w1 w2 : W)
    → Serves kernel max s req p w1 w2
    → (get_u32 p.cmd ≡ Msg.fail → 4 ≤ length p.body)
    → tf_cmd (usb_io kernel max) req s ≡ some (answer p, received s w2 (answer p))
tf_cmd-usb_io kernel max s req p w1 w2 x coded =
    let exchange : Exchanges (usb_io kernel max) s req p w1 w2 = record {
      connected = x.connected;
      takes =
          bulk_write-Takes kernel max s.tf.timeout (sent_length req) req s.world w1 x.takes
            (sent_length_some req);
      request = x.request;
      junk = x.junk;
      junk_bytes = x.junk_bytes;
      sends =
          bulk_read-Arrives kernel max s.tf.timeout packet_size (tf_req_done p ++ x.junk) w1 w2
            x.brings (omega arith);
    } in
    tf_cmd_answered (usb_io kernel max) s req p w1 w2 exchange coded
