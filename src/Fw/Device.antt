-- ===== src/Fw/Device.antt =====
-- The device's side of a firmware upload (tf_fwio.c), and the calls that a caller makes in one.
use libtopfield.Base.{
  ℕ, ◌+◌, ◌*◌, ◌-◌, ◌<◌, ◌≤◌, ◌≡◌, List, [], ◌∷◌, ◌++◌, Option, none, some, length, take, drop,
}
use libtopfield.Base.Int.{ℤ, pos}
use libtopfield.Bytes.Arith.{IsBytes}
use libtopfield.Handle.{Usb, State}
use libtopfield.Fw.Wire.{wire_of, IsPadded}
use libtopfield.Fw.{
  max_data_size, max_send_size, fw_packet_size, FwPacket, TfFwData, tf_fw_upload_next,
}

module _ {W : Type 0} (usb : Usb W) (timeout : ℕ) where
  -- The device takes `len` bytes, of which no transfer has more than 0x4000.
  pub data Takes : W → List ℕ → ℕ → W → Type 0 where
    last :
        (w : W) (bytes : List ℕ) (len : ℕ) (after : W)
        → len ≤ max_send_size
        → usb.bulk_write w 0x01 bytes len timeout ≡ (pos len, after)
        → Takes w bytes len after
    more :
        (w : W) (bytes : List ℕ) (len : ℕ) (between after : W)
        → max_send_size < len
        → usb.bulk_write w 0x01 bytes max_send_size timeout ≡ (pos max_send_size, between)
        → Takes between (drop max_send_size bytes) (len - max_send_size) after
        → Takes w bytes len after

  -- The device takes a packet and its padding.
  pub record TakesPacket (w : W) (req : FwPacket) (after : W) : Type 0 where
    pub moved : ℕ
    pub padded : IsPadded (9 + length req.payload) moved
    pub takes : Takes w (wire_of req.seq req.cmd req.payload) moved after

  -- The device sends a packet, with `junk` behind it.
  abbrev pub SendsPacket : W → FwPacket → List ℕ → W → Type 0
  SendsPacket w reply junk after =
      let bytes = wire_of reply.seq reply.cmd reply.payload ++ junk in
      usb.bulk_read w 0x82 fw_packet_size timeout ≡ (pos (length bytes), bytes, after)

-- A REQ_DATA packet: two bytes of the length and three of the offset, the highest first.
abbrev pub asking : ℕ → ℕ → ℕ → ℕ → ℕ → ℕ → FwPacket
asking seq l1 l0 o2 o1 o0 = record { seq = seq; cmd = 0x04; payload = l1 ∷ l0 ∷ o2 ∷ o1 ∷ o0 ∷ [] }

-- What it asks for.
abbrev pub asked : ℕ → ℕ → ℕ → ℕ → ℕ → ℕ → TfFwData
asked seq l1 l0 o2 o1 o0 = record {
  seq = seq;
  len = l1 * 256 + l0;
  offset = o2 * 65536 + o1 * 256 + o0;
}

-- The part of the image that a request asks for.
abbrev pub piece : List ℕ → TfFwData → List ℕ
piece image wanted = take wanted.len (drop wanted.offset image)

-- The packet that answers it: a DATA packet with the sequence number of the request.
abbrev pub data_packet : List ℕ → TfFwData → FwPacket
data_packet image wanted = record { seq = wanted.seq; cmd = 0x05; payload = piece image wanted }

-- A device that asks for pieces of the image, one when it has the one before, and then sends END.
pub data Asks {W : Type 0} (usb : Usb W) (timeout : ℕ) (image : List ℕ)
    : W → List TfFwData → Type 0 where
  ends :
      (w after : W) (reply : FwPacket) (junk : List ℕ)
      → reply.cmd ≡ 0x06
      → length reply.payload ≤ max_data_size
      → SendsPacket usb timeout w reply junk after
      → Asks usb timeout image w []
  asks :
      (w between after : W) (seq l1 l0 o2 o1 o0 : ℕ) (junk : List ℕ) (rest : List TfFwData)
      → IsBytes (seq ∷ l1 ∷ l0 ∷ o2 ∷ o1 ∷ o0 ∷ [])
      → length (piece image (asked seq l1 l0 o2 o1 o0)) ≤ max_data_size
      → SendsPacket usb timeout w (asking seq l1 l0 o2 o1 o0) junk between
      → TakesPacket usb timeout between (data_packet image (asked seq l1 l0 o2 o1 o0)) after
      → Asks usb timeout image after rest
      → Asks usb timeout image w (asked seq l1 l0 o2 o1 o0 ∷ rest)

-- The calls of `tf_fw_upload_next` that answer what the call before returned, until one returns 1.
pub data Uploads {W : Type 0} (usb : Usb W) (image : List ℕ)
    : ℤ → Option TfFwData → State W → List TfFwData → Type 0 where
  finished : (s : State W) → Uploads usb image (pos 1) none s []
  next :
      (s t : State W) (wanted : TfFwData) (code : ℤ) (got : Option TfFwData) (rest : List TfFwData)
      → tf_fw_upload_next usb (piece image wanted) wanted s ≡ some ((code, got), t)
      → Uploads usb image code got t rest
      → Uploads usb image (pos 0) (some wanted) s (wanted ∷ rest)

-- The first packet of an upload.
abbrev pub hello : FwPacket
hello = record { seq = 0; cmd = 0x01; payload = [] }

-- A device that takes the first packet and sends its ID.
pub record Greets {W : Type 0} (usb : Usb W) (timeout : ℕ) (w after : W) : Type 0 where
  pub between : W
  pub takes : TakesPacket usb timeout w hello between
  pub reply : FwPacket
  pub junk : List ℕ
  pub is_id : reply.cmd ≡ 0x02
  pub fits : length reply.payload ≤ max_data_size
  pub sends : SendsPacket usb timeout between reply junk after
