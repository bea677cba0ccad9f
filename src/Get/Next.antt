-- ===== src/Get/Next.antt =====
-- A block of a file on its way in (tf_io.c): `tf_cmd_get_next` over a device that sends one.
use libtopfield.Base.{
  ℕ, ◌^◌, ◌<◌, ◌≤◌, ◌≡◌, refl, ap, sym, ◌∙◌, arith, true, false, List, ◌++◌, some, length, take,
  drop, if◌then◌else◌, inl, inr, Bool-cases, append_assoc, drop-append, take-append,
}
use libtopfield.Base.Int.{ℤ, pos, ◌==ℤ◌}
use libtopfield.Bytes.{put_u64, get_u64}
use libtopfield.Bytes.Codec.{get_u64-put_u64, length-put_u64}
use libtopfield.Packet.{TfPacket, tf_req_init, tf_req_done}
use libtopfield.Bytes.{put_u32, get_u32, get_u16_raw}
use libtopfield.Bytes.Arith.{IsBytes}
use libtopfield.Packet.{packet_size}
use libtopfield.Handle.{Usb, State, pure, >>=-some}
use libtopfield.Io.{Reply, tf_get_response, tf_send, tf_send_success, success_packet, send_pad}
use libtopfield.Io.Answers.{Carries, received, tf_get_response-tf_req_done}
use libtopfield.Err
use libtopfield.Msg
use libtopfield.Put.{max_put_size}
use libtopfield.Put.Block.{HasBlock}
use libtopfield.Get.{TfBuffer, data_block, take_block, fetch_block, tf_cmd_get_next}

-- What the caller gets of a block.
pub record IsBlock (block : TfBuffer) (offset : ℕ) (buffer : List ℕ) : Type 0 where
  pub offset_is : block.offset ≡ offset
  pub size_is : block.size ≡ length buffer
  pub bytes_are : take (length buffer) block.bytes ≡ buffer

-- The block that is read out of the reply is the one that was put into the packet.
pub data_block-HasBlock :
    (p : TfPacket) (reply : Reply) (offset : ℕ) (buffer : List ℕ)
    → offset < 2 ^ 64
    → length buffer ≤ max_put_size
    → HasBlock p offset buffer
    → Carries p reply
    → IsBlock (data_block reply) offset buffer
unfolding data_block
data_block-HasBlock p reply offset buffer small fits b c =
    let whole : reply.body ≡ put_u64 offset ++ (buffer ++ c.behind) =
      c.body_is ∙ ap (◌++ c.behind) b.body_is ∙ append_assoc (put_u64 offset) buffer c.behind in
    record {
      offset_is = ap get_u64 whole ∙ get_u64-put_u64 offset (buffer ++ c.behind) small;
      size_is = omega (arith, c.length_is, b.length_is, fits);
      bytes_are =
          ap (λ body. take (length buffer) (drop 8 body)) whole
          ∙ ap (take (length buffer))
              (drop-append 8 (put_u64 offset) (buffer ++ c.behind) (sym (length-put_u64 offset)))
          ∙ take-append (length buffer) buffer c.behind refl;
    }

-- The outcome of `tf_cmd_get_next` where the device sends the block.
pub record Fetches {W : Type 0} (usb : Usb W) (s : State W) (offset : ℕ) (buffer : List ℕ)
    (acked : ℤ) : Type 0 where
  pub block : TfBuffer
  pub after : State W
  pub returns : tf_cmd_get_next usb s ≡ some ((Err.ok, some block), after)
  pub is_block : IsBlock block offset buffer
  pub pending_is : after.tf.pending ≡ (acked ==ℤ pos 8)

-- The handle after a block whose acknowledgement had the result `acked`.
acknowledged : {W : Type 0} → State W → W → ℤ → State W
acknowledged s w acked = record {
  tf = record (s.tf) { error = Err.ok; pending = acked ==ℤ pos 8 };
  world = w;
}

pub ack_sent :
    {W : Type 0} (usb : Usb W) (s : State W) (w : W) (acked : ℤ)
    → s.tf.dev ≡ true
    → usb.bulk_write s.world 0x01 success_packet 8 s.tf.timeout ≡ (acked, w)
    → tf_send_success usb s
      ≡ (let e : ℤ = (if acked ==ℤ pos 8 then Err.ok else Err.io) in some (e, received s w e))
unfolding tf_send_success tf_send get_u16_raw send_pad
ack_sent usb s w acked dev acks = ground (arith, dev, acks)

unfoldable pub noted : {W : Type 0} → State W → W → ℤ → State W
noted s w acked =
    let e : ℤ = (if acked ==ℤ pos 8 then Err.ok else Err.io) in
    record { tf = record (s.tf) { error = e; pending = acked ==ℤ pos 8 }; world = w }

pub take_block_data :
    {W : Type 0} (usb : Usb W) (s : State W) (reply : Reply) (w : W) (acked : ℤ)
    → s.tf.dev ≡ true
    → s.tf.pending ≡ false
    → reply.cmd ≡ Msg.hdd_file_data
    → usb.bulk_write s.world 0x01 success_packet 8 s.tf.timeout ≡ (acked, w)
    → take_block usb reply s ≡ some ((Err.ok, some (data_block reply)), noted s w acked)
unfolding take_block noted
take_block_data usb s reply w acked dev pending command acks =
    let ack = ack_sent usb s w acked dev acks in
    elim (Bool-cases (acked ==ℤ pos 8)) [
      | inl y ↦ ground (arith, command, ack, y, pending)
      | inr n ↦ ground (arith, command, ack, n, pending)
    ]

pub fetch_takes :
    {W : Type 0} (usb : Usb W) (s : State W) (reply : Reply) (w1 w2 : W) (acked : ℤ)
    → s.tf.dev ≡ true
    → s.tf.buf ≡ true
    → s.tf.pending ≡ false
    → reply.cmd ≡ Msg.hdd_file_data
    → tf_get_response usb s ≡ some ((Err.ok, reply), received s w1 Err.ok)
    → usb.bulk_write w1 0x01 success_packet 8 s.tf.timeout ≡ (acked, w2)
    → fetch_block usb s ≡ some ((Err.ok, some (data_block reply)), noted s w2 acked)
unfolding fetch_block noted
fetch_takes usb s reply w1 w2 acked dev buf pending command gets acks =
    let takes =
      take_block_data usb (received s w1 Err.ok) reply w2 acked dev pending command acks in
    ground (arith, dev, buf, gets, takes)

next_takes :
    {W : Type 0} (usb : Usb W) (s : State W) (reply : Reply) (w1 w2 : W) (acked : ℤ)
    → s.tf.dev ≡ true
    → s.tf.buf ≡ true
    → s.tf.pending ≡ true
    → reply.cmd ≡ Msg.hdd_file_data
    → tf_get_response usb (record s { tf = record (s.tf) { pending = false } })
      ≡ some (
        (Err.ok, reply),
        received (record s { tf = record (s.tf) { pending = false } }) w1 Err.ok,
      )
    → usb.bulk_write w1 0x01 success_packet 8 s.tf.timeout ≡ (acked, w2)
    → tf_cmd_get_next usb s ≡ some ((Err.ok, some (data_block reply)), acknowledged s w2 acked)
unfolding tf_cmd_get_next acknowledged noted
next_takes usb s reply w1 w2 acked dev buf pending command gets acks =
    let first : (if s.tf.pending then pure Err.ok else tf_send_success usb) s ≡ some (Err.ok, s) =
      ground (arith, pending) in
    let fetched =
      fetch_takes usb (record s { tf = record (s.tf) { pending = false } }) reply w1 w2 acked dev
        buf refl command gets acks in
    >>=-some (if s.tf.pending then pure Err.ok else tf_send_success usb) _ s first
    ∙ >>=-some (fetch_block usb) _ _ fetched

-- `tf_cmd_get_next` where the device sends the FILE_DATA packet of a block: it returns 0 and the
-- offset, the size and the bytes of the block, and `pending` tells whether the acknowledgement went
-- out. Conditions: a connected handle with a buffer whose last block was acknowledged, an offset
-- below 2 ^ 64 and no more than MAX_PUT_SIZE bytes.
pub tf_cmd_get_next-Fetches :
    {W : Type 0} (usb : Usb W) (s : State W) (p : TfPacket) (offset : ℕ) (buffer junk : List ℕ)
    (w1 w2 : W) (acked : ℤ)
    → s.tf.dev ≡ true
    → s.tf.buf ≡ true
    → s.tf.pending ≡ true
    → offset < 2 ^ 64
    → length buffer ≤ max_put_size
    → HasBlock p offset buffer
    → IsBytes junk
    → usb.bulk_read s.world 0x82 packet_size s.tf.timeout
      ≡ (pos (length (tf_req_done p ++ junk)), tf_req_done p ++ junk, w1)
    → usb.bulk_write w1 0x01 success_packet 8 s.tf.timeout ≡ (acked, w2)
    → Fetches usb s offset buffer acked
unfolding acknowledged
tf_cmd_get_next-Fetches {W = W} usb s p offset buffer junk w1 w2 acked dev buf pending small fits b
      bytes sends acks =
    let cleared : State W = record s { tf = record (s.tf) { pending = false } } in
    let (reply, gets, carried) =
      tf_get_response-tf_req_done usb cleared p junk w1 b.request bytes dev sends in
    let command : reply.cmd ≡ Msg.hdd_file_data =
      carried.cmd_is ∙ ap get_u32 b.cmd_is ∙ (unfold get_u32 tf_req_init put_u32 in refl) in
    record {
      block = data_block reply;
      after = acknowledged s w2 acked;
      returns = next_takes usb s reply w1 w2 acked dev buf pending command gets acks;
      is_block = data_block-HasBlock p reply offset buffer small fits b carried;
      pending_is = refl;
    }
