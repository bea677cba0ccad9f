-- ===== src/Put/Session.antt =====
-- A whole file on its way out (tf_io.c): `tf_cmd_put`, the calls of `tf_cmd_put_data` and
-- `tf_cmd_put_done`.
use libtopfield.Base.{
  ℕ, ◌^◌, ◌<◌, ◌≤◌, All, ◌*◌, ◌≡◌, ◌∙◌, arith, true, List, [], ◌∷◌, ◌++◌, some, length,
}
use libtopfield.Base.Int.{ℤ, pos}
use libtopfield.Bytes.{get_u32, put_u32}
use libtopfield.Bytes.Arith.{IsBytes}
use libtopfield.Packet.{TfPacket, tf_req_init, tf_req_done, packet_size}
use libtopfield.Packet.Shape.{IsRequest}
use libtopfield.Handle.{TfHandle, Usb, State, >>=-some}
use libtopfield.Io.{Reply, tf_send, tf_get_response}
use libtopfield.Io.Answers.{tf_get_response-tf_req_done}
use libtopfield.Io.Exchange.{sent_length, sent_ok}
use libtopfield.Dirent.{name_size, pack_typefile}
use libtopfield.Dirent.Stored.{stored}
use libtopfield.Packet.Filename.{IsChar}
use libtopfield.Mjd.Stamps.{IsLocal}
use libtopfield.Put.Block.{HasBlock}
use libtopfield.Put.Requests.{
  IsSend, IsStart, file_send_request-IsSend, file_start_request-IsStart, file_data_request-HasBlock,
}
use libtopfield.Put.{
  max_put_size, file_send_request, file_start_request, file_data_request, expect_success,
  tf_cmd_put, tf_cmd_put_data, tf_cmd_put_done,
}
use libtopfield.Mjd.{TimeZone}
use libtopfield.Err
use libtopfield.Msg

-- The device takes the request and answers SUCCESS, which is waited for as long as `patience`.
pub record Obeys {W : Type 0} (usb : Usb W) (timeout patience : ℕ) (w : W) (req : TfPacket)
    (after : W) : Type 0 where
  pub between : W
  pub takes :
      usb.bulk_write w 0x01 (tf_req_done req) (sent_length (tf_req_done req)) timeout
      ≡ (pos (sent_length (tf_req_done req)), between)
  pub answer : TfPacket
  pub junk : List ℕ
  pub request : IsRequest answer
  pub is_success : get_u32 answer.cmd ≡ Msg.success
  pub junk_bytes : IsBytes junk
  pub sends :
      usb.bulk_read between 0x82 packet_size patience
      ≡ (pos (length (tf_req_done answer ++ junk)), tf_req_done answer ++ junk, after)

-- The last packet: FILE_END, with no body.
abbrev pub end_packet : TfPacket
end_packet = record { length = 8; cmd = put_u32 0x100b; body = [] }

-- The device takes a block after the other, and then FILE_END. It may take twice the timeout to
-- answer a block.
pub data Stores {W : Type 0} (usb : Usb W) (timeout : ℕ) : W → List (ℕ × List ℕ) → Type 0 where
  ends : (w after : W) → Obeys usb timeout timeout w end_packet after → Stores usb timeout w []
  block :
      (w after : W) (offset : ℕ) (buffer : List ℕ) (req : TfPacket) (rest : List (ℕ × List ℕ))
      → offset < 2 ^ 64
      → IsBytes buffer
      → length buffer ≤ max_put_size
      → HasBlock req offset buffer
      → Obeys usb timeout (timeout * 2) w req after
      → Stores usb timeout after rest
      → Stores usb timeout w ((offset, buffer) ∷ rest)

-- The calls that send the blocks and end the transfer all return 0.
pub data Sent {W : Type 0} (usb : Usb W) : State W → List (ℕ × List ℕ) → Type 0 where
  done : (s t : State W) → tf_cmd_put_done usb s ≡ some (Err.ok, t) → Sent usb s []
  next :
      (s t : State W) (offset : ℕ) (buffer : List ℕ) (rest : List (ℕ × List ℕ))
      → tf_cmd_put_data usb offset buffer s ≡ some (Err.ok, t)
      → Sent usb t rest
      → Sent usb s ((offset, buffer) ∷ rest)

module _ {W : Type 0} (usb : Usb W) (h : TfHandle) (dev : h.dev ≡ true) where
  abbrev at : ℤ → W → State W
  at error w = record { tf = record h { error = error }; world = w }

  abbrev patient : ℤ → W → State W
  patient error w = record { tf = record h { error = error; timeout = h.timeout * 2 }; world = w }

  request_sent :
      (error : ℤ) (patience : ℕ) (w after : W) (req : TfPacket)
      → (o : Obeys usb h.timeout patience w req after)
      → tf_send usb (tf_req_done req) (at error w) ≡ some (Err.ok, at Err.ok o.between)
  request_sent error patience w after req o =
      sent_ok usb (at error w) (tf_req_done req) o.between dev o.takes

  -- The answer, waited for with the handle's timeout or with twice that.
  answered :
      (w after : W) (req : TfPacket)
      → (o : Obeys usb h.timeout h.timeout w req after)
      → (reply : Reply) × (tf_get_response usb (at Err.ok o.between)
          ≡ some ((Err.ok, reply), at Err.ok after))
        × (reply.cmd ≡ Msg.success)
  answered w after req o =
      let (reply, gets, carried) =
        tf_get_response-tf_req_done usb (at Err.ok o.between) o.answer o.junk after o.request
          o.junk_bytes dev o.sends in
      (reply, gets, carried.cmd_is ∙ o.is_success)

  answered_late :
      (w after : W) (req : TfPacket)
      → (o : Obeys usb h.timeout (h.timeout * 2) w req after)
      → (reply : Reply) × (tf_get_response usb (patient Err.ok o.between)
          ≡ some ((Err.ok, reply), patient Err.ok after))
        × (reply.cmd ≡ Msg.success)
  answered_late w after req o =
      let (reply, gets, carried) =
        tf_get_response-tf_req_done usb (patient Err.ok o.between) o.answer o.junk after o.request
          o.junk_bytes dev o.sends in
      (reply, gets, carried.cmd_is ∙ o.is_success)

  succeeds :
      (w after : W) (req : TfPacket)
      → (o : Obeys usb h.timeout h.timeout w req after)
      → expect_success usb (at Err.ok o.between) ≡ some (Err.ok, at Err.ok after)
  unfolding expect_success
  succeeds w after req o =
      let (reply, gets, is_success) = answered w after req o in
      >>=-some (tf_get_response usb) _ _ gets ∙ ground (arith, is_success)

  data_stored :
      (error : ℤ) (w after : W) (offset : ℕ) (buffer : List ℕ) (req : TfPacket)
      → file_data_request offset buffer ≡ some req
      → Obeys usb h.timeout (h.timeout * 2) w req after
      → tf_cmd_put_data usb offset buffer (at error w) ≡ some (Err.ok, at Err.ok after)
  unfolding tf_cmd_put_data
  data_stored error w after offset buffer req request o =
      let sent = request_sent error (h.timeout * 2) w after req o in
      let (reply, gets, is_success) = answered_late w after req o in
      ground (arith, request, sent, gets, is_success)

  end_stored :
      (error : ℤ) (w after : W)
      → Obeys usb h.timeout h.timeout w (tf_req_init Msg.hdd_file_end) after
      → tf_cmd_put_done usb (at error w) ≡ some (Err.ok, at Err.ok after)
  unfolding tf_cmd_put_done
  end_stored error w after o =
      let sent = request_sent error h.timeout w after (tf_req_init Msg.hdd_file_end) o in
      let ends = succeeds w after (tf_req_init Msg.hdd_file_end) o in ground (arith, sent, ends)

  blocks-Sent :
      (error : ℤ) (w : W) (blocks : List (ℕ × List ℕ))
      → Stores usb h.timeout w blocks
      → Sent usb (at error w) blocks
  unfolding tf_req_init
  blocks-Sent error w _ (Stores.ends _ after o) =
      Sent.done (at error w) (at Err.ok after) (end_stored error w after o)
  blocks-Sent error w _ (Stores.block _ after offset buffer req rest small bytes fits has o more) =
      Sent.next (at error w) (at Err.ok after) offset buffer rest
        (data_stored error w after offset buffer req
          (file_data_request-HasBlock offset buffer req small bytes fits has) o)
        (blocks-Sent Err.ok after rest more)

  put_begins :
      (zone : TimeZone) (stale path : List ℕ) (size : ℕ) (stamp : ℤ) (offset : ℕ) (error : ℤ)
      (w w1 w2 : W) (request start : TfPacket)
      → file_send_request Msg.dir_put path offset ≡ some request
      → file_start_request (pack_typefile zone stale stamp size path) ≡ some start
      → Obeys usb h.timeout h.timeout w request w1
      → Obeys usb h.timeout h.timeout w1 start w2
      → tf_cmd_put usb zone stale path size stamp offset (at error w) ≡ some (Err.ok, at Err.ok w2)
  unfolding tf_cmd_put
  put_begins zone stale path size stamp offset error w w1 w2 request start names starts o1 o2 =
      let sent = request_sent error h.timeout w w1 request o1 in
      let (reply, gets, is_success) = answered w w1 request o1 in
      let started = request_sent Err.ok h.timeout w1 w2 start o2 in
      let last = succeeds w1 w2 start o2 in
      ground (arith, names, starts, sent, gets, is_success, started, last)

-- Over a device that takes each request and answers it with SUCCESS, sending a file succeeds:
-- `tf_cmd_put`, the call of `tf_cmd_put_data` for each block and `tf_cmd_put_done` return 0. The
-- device gets a FILE_SEND packet with the direction 0, the path with backslashes for slashes and the
-- offset; a FILE_START packet with the stamp, the name up to its 94th character and the size, its
-- bytes in the opposite order; a FILE_DATA packet with the offset and bytes of each block, in order;
-- and FILE_END. It may take twice the timeout to answer a block. Conditions: a connected handle, a
-- path of characters other than the terminator that fits its request, offsets below 2 ^ 64, a stamp
-- that `localtime` and `mktime` take there and back, a name field of 95 bytes, and blocks of at most
-- MAX_PUT_SIZE bytes.
pub tf_cmd_put-Sent :
    {W : Type 0} (usb : Usb W) (zone : TimeZone) (stale path : List ℕ) (size : ℕ) (stamp : ℤ)
    (offset : ℕ) (s : State W) (request start : TfPacket) (w1 w2 : W) (blocks : List (ℕ × List ℕ))
    (l : IsLocal zone stamp) (room : length stale ≡ name_size) (chars : All IsChar path)
    → s.tf.dev ≡ true
    → length path < 0xff00
    → offset < 2 ^ 64
    → file_send_request Msg.dir_put path offset ≡ some request
    → file_start_request (pack_typefile zone stale stamp size path) ≡ some start
    → Obeys usb s.tf.timeout s.tf.timeout s.world request w1
    → Obeys usb s.tf.timeout s.tf.timeout w1 start w2
    → Stores usb s.tf.timeout w2 blocks
    → IsSend request 0 path offset
      × IsStart start (stored zone stale stamp size path l room chars)
      × ((t : State W) × (tf_cmd_put usb zone stale path size stamp offset s ≡ some (Err.ok, t))
          × Sent usb t blocks)
tf_cmd_put-Sent usb zone stale path size stamp offset s request start w1 w2 blocks l room chars dev
      short small names starts o1 o2 stores =
    (
      file_send_request-IsSend Msg.dir_put path offset request (omega arith) chars short small
          names,
      file_start_request-IsStart zone stale stamp size path l room chars start starts,
      (
        _,
        put_begins usb s.tf dev zone stale path size stamp offset s.tf.error s.world w1 w2 request
            start names starts o1 o2,
        blocks-Sent usb s.tf dev Err.ok w2 blocks stores,
      ),
    )
