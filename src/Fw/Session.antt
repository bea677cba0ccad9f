-- ===== src/Fw/Session.antt =====
-- A firmware upload from the first packet to the last (tf_fwio.c).
use libtopfield.Base.{
  ◌*◌, ℕ, zero, suc, ◌+◌, ◌-◌, ◌<◌, ◌≤◌, ◌≡◌, refl, ap, sym, ◌%◌, ◌∙◌, arith, true, false, ◌==◌,
  List, [], ◌∷◌, ◌++◌, Option, none, some, length, drop, min, ltb, length-append, append_assoc,
}
use libtopfield.Base.Int.{ℤ, pos}
use libtopfield.Bytes.{at, get_u16, get_u24, put_u16}
use libtopfield.Bytes.Arith.{IsBytes, get_u16_sum, get_u24_sum}
use libtopfield.Bytes.Codec.{get_u16-put_u16}
use libtopfield.Handle.{TfHandle, Usb, State, >>=-some}
use libtopfield.Fw.{
  fw_packet_size, max_data_size, max_send_size, fw_end, FwPacket, TfFwData, fw_req_init,
  fw_req_putdata, fw_req_done, summed_bytes, calc_checksum, fw_pad, send_rounds, fw_send,
  fw_get_response, tf_wait_for_req_data, tf_fw_upload, tf_fw_upload_next,
}
use libtopfield.Fw.Send.{length_field}
use libtopfield.Fw.Wire.{fw_req_done-wire_of, fw_pad-IsPadded, IsPadded-unique}
use libtopfield.Fw.Device.{
  Takes, TakesPacket, SendsPacket, asking, asked, piece, data_packet, Asks, Uploads, hello, Greets,
}

-- A packet on the wire, as `tf_get_response` takes it apart.
module _ (reply : FwPacket) (junk : List ℕ) (fits : length reply.payload ≤ max_data_size) where
  abbrev wire : List ℕ
  wire = fw_req_done reply ++ junk

  wire_field : get_u16 (drop 6 wire) ≡ length reply.payload
  unfolding fw_req_done summed_bytes
  wire_field =
      let sum = calc_checksum (summed_bytes reply) in
      let n = length reply.payload in
      ap (λ bytes. get_u16 (bytes ++ junk)) (append_assoc (put_u16 n) reply.payload (sum ∷ []))
      ∙ ap get_u16 (append_assoc (put_u16 n) (reply.payload ++ sum ∷ []) junk)
      ∙ get_u16-put_u16 n _ (omega (arith, fits))

  wire_payload : drop 8 wire ≡ reply.payload ++ (calc_checksum (summed_bytes reply) ∷ junk)
  unfolding fw_req_done summed_bytes put_u16
  wire_payload = append_assoc reply.payload (calc_checksum (summed_bytes reply) ∷ []) junk

  wire_head : (at wire 4 ≡ reply.seq) × (at wire 5 ≡ reply.cmd)
  unfolding fw_req_done summed_bytes
  wire_head = (refl, refl)

  wire_long : 9 + length reply.payload ≤ length wire
  unfolding fw_req_done summed_bytes put_u16
  wire_long = omega (
    arith,
    length-append (reply.payload ++ calc_checksum (summed_bytes reply) ∷ []) junk,
    length-append reply.payload (calc_checksum (summed_bytes reply) ∷ []),
  )

module _ {W : Type 0} (usb : Usb W) (h : TfHandle) (dev : h.dev ≡ true) where
  abbrev at_rest : ℤ → W → State W
  at_rest error w = record { tf = record h { error = error }; world = w }

  send_rounds-Takes :
      (fuel : ℕ) (w after : W) (bytes : List ℕ) (len : ℕ)
      → len < fuel
      → Takes usb h.timeout w bytes len after
      → send_rounds usb fuel bytes len (at_rest (pos 0) w) ≡ some (pos 0, at_rest (pos 0) after)
  unfolding send_rounds
  send_rounds-Takes zero w after bytes len enough t = absurd (omega arith)
  send_rounds-Takes (suc fuel) w after bytes len enough (Takes.last _ _ _ _ small all) =
      let whole : min len max_send_size ≡ len = omega arith in ground (arith, whole, all)
  send_rounds-Takes (suc fuel) w after bytes len enough (Takes.more _ _ _ between _ large all t) =
      let part : min len max_send_size ≡ max_send_size = omega arith in
      let rest =
        send_rounds-Takes fuel between after (drop max_send_size bytes) (len - max_send_size)
          (omega arith) t in
      let left : (len - max_send_size == 0) ≡ false = ground (arith, large) in
      rw (part, all, left, send_rounds) rest

  fw_send-TakesPacket :
      (error : ℤ) (w after : W) (req : FwPacket)
      → length req.payload ≤ max_data_size
      → TakesPacket usb h.timeout w req after
      → fw_send usb (fw_req_done req) (at_rest error w) ≡ some (pos 0, at_rest (pos 0) after)
  unfolding fw_send
  fw_send-TakesPacket error w after req fits t =
      let len = 8 + length req.payload + 1 in
      let nine : 9 + length req.payload ≡ len = omega arith in
      let size : t.moved ≡ len + fw_pad len =
        IsPadded-unique len t.moved (len + fw_pad len) (rw nine at t.padded)
          (fw_pad-IsPadded len) in
      let bytes = sym (fw_req_done-wire_of req) in
      let takes : Takes usb h.timeout w (fw_req_done req) (len + fw_pad len) after =
        rw (bytes, size) at t.takes in
      let run =
        send_rounds-Takes (len + fw_pad len + 1) w after (fw_req_done req) (len + fw_pad len)
          (omega arith) takes in
      let first : fw_send usb (fw_req_done req) (at_rest error w)
          ≡ send_rounds usb (len + fw_pad len + 1) (fw_req_done req) (len + fw_pad len)
              (at_rest (pos 0) w) =
        rw (length_field req fits, dev, fw_send) refl in
      first ∙ run

  fw_get_response-SendsPacket :
      (error : ℤ) (w after : W) (reply : FwPacket) (junk : List ℕ)
      → length reply.payload ≤ max_data_size
      → SendsPacket usb h.timeout w reply junk after
      → fw_get_response usb (at_rest error w)
        ≡ some (
          (
            pos 0,
            record {
              seq = reply.seq;
              cmd = reply.cmd;
              payload = reply.payload ++ (calc_checksum (summed_bytes reply) ∷ junk);
            },
          ),
          at_rest (pos 0) after,
        )
  unfolding fw_get_response
  fw_get_response-SendsPacket error w after reply junk fits sends =
      let came : usb.bulk_read w 0x82 fw_packet_size h.timeout
          ≡ (pos (length (wire reply junk fits)), wire reply junk fits, after) =
        rw (fw_req_done-wire_of reply) sends in
      let field = wire_field reply junk fits in
      let payload = wire_payload reply junk fits in
      let head = wire_head reply junk fits in
      let long = wire_long reply junk fits in
      rw (dev, came, field, payload, head.0, head.1) (ground (arith, long))

  -- The length and the offset in the data of a reply.
  field_sums :
      (l1 l0 o2 o1 o0 : ℕ) (rest : List ℕ)
      → IsBytes (l1 ∷ l0 ∷ o2 ∷ o1 ∷ o0 ∷ [])
      → (get_u16 (l1 ∷ l0 ∷ o2 ∷ o1 ∷ o0 ∷ rest) ≡ l1 * 256 + l0)
        × (get_u24 (o2 ∷ o1 ∷ o0 ∷ rest) ≡ o2 * 65536 + o1 * 256 + o0)
  unfolding get_u16 get_u24
  field_sums l1 l0 o2 o1 o0 rest bytes = (
    get_u16_sum (l1 ∷ l0 ∷ []) (bytes.0, (bytes.1.0, tt)),
    get_u24_sum o2 o1 o0 (bytes.1.1.0) (bytes.1.1.1.0) (bytes.1.1.1.1.0),
  )

  wait_asked :
      (error : ℤ) (w after : W) (seq l1 l0 o2 o1 o0 : ℕ) (junk : List ℕ)
      → IsBytes (seq ∷ l1 ∷ l0 ∷ o2 ∷ o1 ∷ o0 ∷ [])
      → SendsPacket usb h.timeout w (asking seq l1 l0 o2 o1 o0) junk after
      → tf_wait_for_req_data usb (at_rest error w)
        ≡ some ((pos 0, some (asked seq l1 l0 o2 o1 o0)), at_rest (pos 0) after)
  unfolding tf_wait_for_req_data
  wait_asked error w after seq l1 l0 o2 o1 o0 junk bytes sends =
      let request = asking seq l1 l0 o2 o1 o0 in
      let behind = calc_checksum (summed_bytes request) ∷ junk in
      let (len, offset) = field_sums l1 l0 o2 o1 o0 behind (bytes.1) in
      >>=-some (fw_get_response usb) _ _
        (fw_get_response-SendsPacket error w after request junk (omega arith) sends)
      ∙ ap
          (λ (n, at).
            some
              ((pos 0, some (record { seq = seq; len = n; offset = at })), at_rest (pos 0) after))
          (λ i. (len i, offset i))

  wait_ended :
      (error : ℤ) (w after : W) (reply : FwPacket) (junk : List ℕ)
      → reply.cmd ≡ fw_end
      → length reply.payload ≤ max_data_size
      → SendsPacket usb h.timeout w reply junk after
      → tf_wait_for_req_data usb (at_rest error w) ≡ some ((pos 1, none), at_rest (pos 0) after)
  unfolding tf_wait_for_req_data
  wait_ended error w after reply junk is_end fits sends =
      >>=-some (fw_get_response usb) _ _
        (fw_get_response-SendsPacket error w after reply junk fits sends)
      ∙ ground (arith, is_end)

  -- What a call returns, and the calls that follow it.
  record Answers (image : List ℕ) (requests : List TfFwData)
      (r : Option ((ℤ × Option TfFwData) × State W)) : Type 0 where
    pub code : ℤ
    pub got : Option TfFwData
    pub after : State W
    pub returns : r ≡ some ((code, got), after)
    pub uploads : Uploads usb image code got after requests

  next_sends :
      (image : List ℕ) (wanted : TfFwData) (w after : W)
      → wanted.seq < 256
      → length (piece image wanted) ≤ max_data_size
      → TakesPacket usb h.timeout w (data_packet image wanted) after
      → tf_fw_upload_next usb (piece image wanted) wanted (at_rest (pos 0) w)
        ≡ tf_wait_for_req_data usb (at_rest (pos 0) after)
  unfolding tf_fw_upload_next fw_req_init fw_req_putdata
  next_sends image wanted w after byte fits takes =
      let room : ltb max_data_size (length (piece image wanted)) ≡ false = ground (arith, fits) in
      let same : wanted.seq % 256 ≡ wanted.seq = omega (arith, byte) in
      let sent = fw_send-TakesPacket (pos 0) w after (data_packet image wanted) fits takes in
      rw (room, same) (>>=-some (fw_send usb (fw_req_done (data_packet image wanted))) _ _ sent)

  wait-Answers :
      (image : List ℕ) (w : W) (requests : List TfFwData)
      → Asks usb h.timeout image w requests
      → (error : ℤ) → Answers image requests (tf_wait_for_req_data usb (at_rest error w))
  wait-Answers image w _ (Asks.ends _ after reply junk is_end fits sends) error = record {
    code = pos 1;
    got = none;
    after = at_rest (pos 0) after;
    returns = wait_ended error w after reply junk is_end fits sends;
    uploads = Uploads.finished _;
  }
  wait-Answers image w _
        (Asks.asks _ between after seq l1 l0 o2 o1 o0 junk rest bytes fits sends takes goes_on)
        error =
      let wanted = asked seq l1 l0 o2 o1 o0 in
      let later = wait-Answers image after rest goes_on (pos 0) in
      record {
        code = pos 0;
        got = some wanted;
        after = at_rest (pos 0) between;
        returns = wait_asked error w between seq l1 l0 o2 o1 o0 junk bytes sends;
        uploads =
            Uploads.next (at_rest (pos 0) between) later.after wanted later.code later.got rest
              (next_sends image wanted between after (bytes.0) fits takes ∙ later.returns)
              later.uploads;
      }

-- An upload of an image: what `tf_fw_upload` returns, and the calls that follow it.
pub record Installs {W : Type 0} (usb : Usb W) (image : List ℕ) (s : State W)
    (requests : List TfFwData) : Type 0 where
  pub code : ℤ
  pub got : Option TfFwData
  pub after : State W
  pub returns : tf_fw_upload usb s ≡ some ((code, got), after)
  pub uploads : Uploads usb image code got after requests

-- Over a device that sends its ID, asks for pieces of an image, each once it has the one before, and
-- then sends END, an upload succeeds: `tf_fw_upload` and the calls of `tf_fw_upload_next` return 0
-- and the requests of the device, in order and with their numbers, and the last call returns 1. The
-- device gets each piece in a DATA packet with the sequence number of its request. Conditions: a
-- connected handle, requests that are made of bytes, and none for more than 0x8000 of the image.
pub tf_fw_upload-Installs :
    {W : Type 0} (usb : Usb W) (s : State W) (image : List ℕ) (w : W) (requests : List TfFwData)
    → s.tf.dev ≡ true
    → Greets usb s.tf.timeout s.world w
    → Asks usb s.tf.timeout image w requests
    → Installs usb image s requests
unfolding tf_fw_upload fw_req_init
tf_fw_upload-Installs usb s image w requests dev greets stream =
    let size : length hello.payload ≤ max_data_size = omega arith in
    let sent =
      fw_send-TakesPacket usb s.tf dev s.tf.error s.world greets.between hello size greets.takes in
    let heard =
      fw_get_response-SendsPacket usb s.tf dev (pos 0) greets.between w greets.reply greets.junk
        greets.fits greets.sends in
    let answers = wait-Answers usb s.tf dev image w requests stream (pos 0) in
    let id = greets.is_id in
    record {
      code = answers.code;
      got = answers.got;
      after = answers.after;
      returns =
          >>=-some (fw_send usb (fw_req_done hello)) _ _ sent
          ∙ >>=-some (fw_get_response usb) _ _ heard
          ∙ ground (arith, id, answers.returns);
      uploads = answers.uploads;
    }
