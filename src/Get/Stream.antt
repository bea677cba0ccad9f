-- ===== src/Get/Stream.antt =====
-- A whole file on its way in (tf_io.c): the calls of `tf_cmd_get_next` that fetch it.
use libtopfield.Base.{
  ℕ, ◌^◌, ◌<◌, ◌≤◌, ◌≡◌, ◌⊎◌, inl, inr, refl, ap, ◌∙◌, arith, Bool, true, false, List, [], ◌∷◌,
  ◌++◌, none, some, length, if◌then◌else◌, Option,
}
use libtopfield.Base.Int.{ℤ, pos, ◌==ℤ◌}
use libtopfield.Bytes.{put_u32, get_u32}
use libtopfield.Bytes.Arith.{IsBytes}
use libtopfield.Packet.{TfPacket, tf_req_init, tf_req_done, packet_size}
use libtopfield.Packet.Shape.{IsRequest}
use libtopfield.Handle.{TfHandle, Usb, State, pure, >>=-some}
use libtopfield.Io.{tf_send_success, success_packet}
use libtopfield.Io.Answers.{received, tf_get_response-tf_req_done}
use libtopfield.Put.{max_put_size}
use libtopfield.Put.Block.{HasBlock}
use libtopfield.Get.{TfBuffer, data_block, take_block, fetch_block, tf_cmd_get_next}
use libtopfield.Get.Next.{IsBlock, data_block-HasBlock, ack_sent, noted, fetch_takes}
use libtopfield.Err
use libtopfield.Msg

-- A device that sends the blocks of a file, each an offset and its bytes, and then FILE_END. It
-- goes on when its packet has been acknowledged in full.
pub data Streams {W : Type 0} (usb : Usb W) (timeout : ℕ) : W → List (ℕ × List ℕ) → Type 0 where
  ends :
      (w w1 w2 : W) (p : TfPacket) (junk : List ℕ) (acked : ℤ)
      → IsRequest p
      → get_u32 p.cmd ≡ Msg.hdd_file_end
      → IsBytes junk
      → usb.bulk_read w 0x82 packet_size timeout
        ≡ (pos (length (tf_req_done p ++ junk)), tf_req_done p ++ junk, w1)
      → usb.bulk_write w1 0x01 success_packet 8 timeout ≡ (acked, w2)
      → Streams usb timeout w []
  sends :
      (w w1 w2 : W) (p : TfPacket) (offset : ℕ) (buffer junk : List ℕ) (rest : List (ℕ × List ℕ))
      → offset < 2 ^ 64
      → length buffer ≤ max_put_size
      → HasBlock p offset buffer
      → IsBytes junk
      → usb.bulk_read w 0x82 packet_size timeout
        ≡ (pos (length (tf_req_done p ++ junk)), tf_req_done p ++ junk, w1)
      → usb.bulk_write w1 0x01 success_packet 8 timeout ≡ (pos 8, w2)
      → Streams usb timeout w2 rest
      → Streams usb timeout w ((offset, buffer) ∷ rest)

-- The calls of `tf_cmd_get_next` that a caller makes until one returns TF_ERR_DONE, and what they
-- give it.
pub data Downloads {W : Type 0} (usb : Usb W) : State W → List (ℕ × List ℕ) → Type 0 where
  finished :
      (s t : State W) → tf_cmd_get_next usb s ≡ some ((Err.done, none), t) → Downloads usb s []
  next :
      (s t : State W) (b : TfBuffer) (offset : ℕ) (buffer : List ℕ) (rest : List (ℕ × List ℕ))
      → tf_cmd_get_next usb s ≡ some ((Err.ok, some b), t)
      → IsBlock b offset buffer
      → Downloads usb t rest
      → Downloads usb s ((offset, buffer) ∷ rest)

module _ {W : Type 0} (usb : Usb W) where
  -- The acknowledgement that a call of `tf_cmd_get_next` may owe the device is out.
  abbrev Acked : State W → State W → Type 0
  Acked s t = (if s.tf.pending then pure Err.ok else tf_send_success usb) s ≡ some (Err.ok, t)

  abbrev cleared : State W → State W
  cleared t = record t { tf = record (t.tf) { pending = false } }

  next_fetches :
      (s t u : State W) (code : ℤ) (block : Option TfBuffer)
      → Acked s t
      → fetch_block usb (cleared t) ≡ some ((code, block), u)
      → tf_cmd_get_next usb s
        ≡ some ((code, block), record u { tf = record (u.tf) { error = code } })
  unfolding tf_cmd_get_next
  next_fetches s t u code block first fetched =
      >>=-some (if s.tf.pending then pure Err.ok else tf_send_success usb) _ s first
      ∙ >>=-some (fetch_block usb) _ _ fetched

  fetch_ends :
      (t : State W) (w1 w2 : W) (p : TfPacket) (junk : List ℕ) (acked : ℤ)
      → t.tf.dev ≡ true
      → t.tf.buf ≡ true
      → IsRequest p
      → get_u32 p.cmd ≡ Msg.hdd_file_end
      → IsBytes junk
      → usb.bulk_read t.world 0x82 packet_size t.tf.timeout
        ≡ (pos (length (tf_req_done p ++ junk)), tf_req_done p ++ junk, w1)
      → usb.bulk_write w1 0x01 success_packet 8 t.tf.timeout ≡ (acked, w2)
      → (u : State W) × (fetch_block usb t ≡ some ((Err.done, none), u))
  unfolding fetch_block take_block
  fetch_ends t w1 w2 p junk acked dev buf r command bytes arrives acks =
      let (reply, gets, carried) =
        tf_get_response-tf_req_done usb t p junk w1 r bytes dev arrives in
      let ack = ack_sent usb (received t w1 Err.ok) w2 acked dev acks in
      let e : ℤ = (if acked ==ℤ pos 8 then Err.ok else Err.io) in
      let is_end : reply.cmd ≡ Msg.hdd_file_end = carried.cmd_is ∙ command in
      (received (received t w1 Err.ok) w2 e, ground (arith, dev, buf, gets, ack, is_end))

  module _ (h : TfHandle) (dev : h.dev ≡ true) (buf : h.buf ≡ true) where
    -- The state of an open handle before and after a call.
    abbrev at : Bool → ℤ → W → State W
    at pending error w = record { tf = record h { pending = pending; error = error }; world = w }

    fetch_one :
        (error : ℤ) (w w1 w2 : W) (p : TfPacket) (offset : ℕ) (buffer junk : List ℕ)
        → offset < 2 ^ 64
        → length buffer ≤ max_put_size
        → HasBlock p offset buffer
        → IsBytes junk
        → usb.bulk_read w 0x82 packet_size h.timeout
          ≡ (pos (length (tf_req_done p ++ junk)), tf_req_done p ++ junk, w1)
        → usb.bulk_write w1 0x01 success_packet 8 h.timeout ≡ (pos 8, w2)
        → (b : TfBuffer) × (fetch_block usb (at false error w)
            ≡ some ((Err.ok, some b), at true Err.ok w2))
          × IsBlock b offset buffer
    fetch_one error w w1 w2 p offset buffer junk small fits b bytes arrives acks =
        let (reply, gets, carried) =
          tf_get_response-tf_req_done usb (at false error w) p junk w1 b.request bytes dev
            arrives in
        let command : reply.cmd ≡ Msg.hdd_file_data =
          carried.cmd_is ∙ ap get_u32 b.cmd_is ∙ (unfold get_u32 tf_req_init put_u32 in refl) in
        (
          data_block reply,
          fetch_takes usb (at false error w) reply w1 w2 (pos 8) dev buf refl command gets acks
              ∙ (unfold noted in refl),
          data_block-HasBlock p reply offset buffer small fits b carried,
        )

    downloads :
        (w : W) (blocks : List (ℕ × List ℕ))
        → Streams usb h.timeout w blocks
        → (s : State W) (pending : Bool) (error : ℤ) → Acked s (at pending error w)
        → Downloads usb s blocks
    downloads w _ (Streams.ends _ w1 w2 p junk acked r command bytes arrives acks) s pending error
          first =
        let (u, fetched) =
          fetch_ends (at false error w) w1 w2 p junk acked dev buf r command bytes arrives acks in
        Downloads.finished s _ (next_fetches s _ u Err.done none first fetched)
    downloads w _
          (Streams.sends _ w1 w2 p offset buffer junk rest small fits b bytes arrives acks more) s
          pending error first =
        let (block, fetched, is_block) =
          fetch_one error w w1 w2 p offset buffer junk small fits b bytes arrives acks in
        Downloads.next s (at true Err.ok w2) block offset buffer rest
          (next_fetches s _ _ Err.ok (some block) first fetched) is_block
          (downloads w2 rest more (at true Err.ok w2) true Err.ok refl)

-- Over a device that sends the blocks of a file and then FILE_END, the calls of `tf_cmd_get_next`
-- give exactly these blocks, in order, each with its offset and its bytes, and then TF_ERR_DONE; so
-- they come to an end. Conditions: a connected handle with a buffer; the acknowledgement that is
-- still owed at the first call goes out, and those of the blocks do.
pub tf_cmd_get_next-Downloads :
    {W : Type 0} (usb : Usb W) (s : State W) (w : W) (blocks : List (ℕ × List ℕ))
    → s.tf.dev ≡ true
    → s.tf.buf ≡ true
    → ((s.tf.pending ≡ true) × (s.world ≡ w))
      ⊎ ((s.tf.pending ≡ false)
          × (usb.bulk_write s.world 0x01 success_packet 8 s.tf.timeout ≡ (pos 8, w)))
    → Streams usb s.tf.timeout w blocks
    → Downloads usb s blocks
tf_cmd_get_next-Downloads usb s w blocks dev buf (inl (pending, here)) stream =
    downloads usb s.tf dev buf w blocks stream s s.tf.pending s.tf.error
      (ground (arith, pending, here))
tf_cmd_get_next-Downloads usb s w blocks dev buf (inr (pending, acks)) stream =
    let ack = ack_sent usb s w (pos 8) dev acks in
    downloads usb s.tf dev buf w blocks stream s false Err.ok (ground (arith, pending, ack))
