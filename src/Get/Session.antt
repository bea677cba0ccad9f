-- ===== src/Get/Session.antt =====
-- A whole file on its way in (tf_io.c): `tf_cmd_get`, and the calls of `tf_cmd_get_next` behind it.
use libtopfield.Base.{
  ℕ, ◌<◌, ◌^◌, All, ◌≡◌, ap, ◌∙◌, arith, true, false, List, ◌++◌, some, length, inr,
}
use libtopfield.Base.Int.{pos}
use libtopfield.Bytes.{get_u32}
use libtopfield.Bytes.Arith.{IsBytes}
use libtopfield.Packet.{TfPacket, tf_req_done, packet_size}
use libtopfield.Packet.Shape.{IsRequest}
use libtopfield.Handle.{Usb, State}
use libtopfield.Io.{success_packet}
use libtopfield.Io.Answers.{received, tf_get_response-tf_req_done}
use libtopfield.Io.Exchange.{sent_length, sent_ok}
use libtopfield.Dirent.{unpack_dirent}
use libtopfield.Dirent.Wire.{
  Descriptor, IsDescriptor, descriptor_bytes, entry_of, unpack_dirent-descriptor_bytes,
}
use libtopfield.Put.{file_send_request}
use libtopfield.Put.Requests.{IsSend, file_send_request-IsSend}
use libtopfield.Packet.Filename.{IsChar}
use libtopfield.Get.{tf_cmd_get}
use libtopfield.Get.Stream.{Streams, Downloads, tf_cmd_get_next-Downloads}
use libtopfield.Mjd.{TimeZone}
use libtopfield.Err
use libtopfield.Msg

-- A device that takes the request for a file, answers FILE_START with the file's descriptor and, once
-- that is acknowledged in full, sends the blocks.
pub record Opens {W : Type 0} (usb : Usb W) (timeout : ℕ) (w : W) (req : TfPacket) (f : Descriptor)
    (blocks : List (ℕ × List ℕ)) : Type 0 where
  pub asked : W
  pub answered : W
  pub acked : W
  pub start : TfPacket
  pub junk : List ℕ
  pub takes :
      usb.bulk_write w 0x01 (tf_req_done req) (sent_length (tf_req_done req)) timeout
      ≡ (pos (sent_length (tf_req_done req)), asked)
  pub request : IsRequest start
  pub is_start : get_u32 start.cmd ≡ Msg.hdd_file_start
  pub body_is : start.body ≡ descriptor_bytes f
  pub descriptor : IsDescriptor f
  pub junk_bytes : IsBytes junk
  pub sends :
      usb.bulk_read asked 0x82 packet_size timeout
      ≡ (pos (length (tf_req_done start ++ junk)), tf_req_done start ++ junk, answered)
  pub acks : usb.bulk_write answered 0x01 success_packet 8 timeout ≡ (pos 8, acked)
  pub streams : Streams usb timeout acked blocks

-- Over a device that takes the request for a file, answers FILE_START with the file's descriptor and
-- then sends its blocks and FILE_END, `tf_cmd_get` returns 0 with the stamp, type, size and name of
-- the descriptor and the first two of its four attribute bytes, and the calls of `tf_cmd_get_next`
-- behind it give exactly the blocks, in order, each with its offset and its bytes, and then
-- TF_ERR_DONE. The request is a FILE_SEND packet with the direction 1, the path with backslashes for
-- slashes and the offset. Conditions: a connected handle with a buffer and no reply pending, a path of
-- characters other than the terminator that fits the request, offsets and a size below 2 ^ 64,
-- acknowledgements that go out, blocks of at most MAX_PUT_SIZE bytes, and a name of at most 94
-- characters.
pub tf_cmd_get-Downloads :
    {W : Type 0} (usb : Usb W) (zone : TimeZone) (path : List ℕ) (offset : ℕ) (s : State W)
    (req : TfPacket) (f : Descriptor) (blocks : List (ℕ × List ℕ))
    → s.tf.dev ≡ true
    → s.tf.buf ≡ true
    → s.tf.pending ≡ false
    → All IsChar path
    → length path < 0xff00
    → offset < 2 ^ 64
    → file_send_request Msg.dir_get path offset ≡ some req
    → Opens usb s.tf.timeout s.world req f blocks
    → IsSend req 1 path offset
      × (t : State W) × (tf_cmd_get usb zone path offset s
          ≡ some ((Err.ok, some (entry_of zone f)), t))
      × Downloads usb t blocks
unfolding tf_cmd_get
tf_cmd_get-Downloads usb zone path offset s req f blocks dev buf idle chars short small named o =
    let sent = sent_ok usb s (tf_req_done req) o.asked dev o.takes in
    let (reply, gets, carried) =
      tf_get_response-tf_req_done usb (received s o.asked Err.ok) o.start o.junk o.answered
        o.request o.junk_bytes dev o.sends in
    let is_start : reply.cmd ≡ Msg.hdd_file_start = carried.cmd_is ∙ o.is_start in
    let unpacked : unpack_dirent zone reply.body ≡ some (entry_of zone f) =
      ap (unpack_dirent zone) (carried.body_is ∙ ap (◌++ carried.behind) o.body_is)
      ∙ unpack_dirent-descriptor_bytes f o.descriptor carried.behind zone in
    let t = received (received s o.asked Err.ok) o.answered Err.ok in
    (
      file_send_request-IsSend Msg.dir_get path offset req (omega arith) chars short small named,
      t,
      ground (arith, named, sent, gets, is_start, unpacked),
      tf_cmd_get_next-Downloads usb t o.acked blocks dev buf (inr (idle, o.acks)) o.streams,
    )
