-- ===== src/Fw.antt =====
-- tf_fwio.c: the bootloader's protocol, which uploads firmware in blocks that the device asks for.
--
-- Its packets have an own header, the letters ToFi, a sequence number, a command and a length, and
-- end in a checksum byte. They are not byte-swapped. The transfer loop of `tf_send` runs on fuel.
pub mod Checksum
pub mod Wire
pub mod Send
pub mod Device
pub mod Session
use libtopfield.Base.{
  ℕ, zero, suc, ◌+◌, ◌-◌, ◌%◌, ◌^◌, Bool, true, false, not, List, [], ◌∷◌, ◌++◌, Option, none, some,
  length, drop, ltb, ◌==◌, if◌then◌else◌, min,
}
use libtopfield.Base.Bits.{u8}
use libtopfield.Base.Int.{ℤ, pos, negsuc, ltb_ℤ, ◌==ℤ◌}
use libtopfield.Bytes.{at, get_u16, get_u24, put_u16}
use libtopfield.Handle.{TfHandle, Usb, State, M, pure, ◌>>=◌, ◌>>◌, set_error}

abbrev pub max_send_size : ℕ
max_send_size = 0x4000

abbrev pub max_data_size : ℕ
max_data_size = 0x8000

-- sizeof(tf_packet_t)
abbrev pub fw_packet_size : ℕ
fw_packet_size = 8 + max_data_size + 1

abbrev pub fw_id : ℕ
fw_id = 0x02

abbrev pub fw_pc_to_stb : ℕ
fw_pc_to_stb = 0x01

abbrev pub fw_req_data : ℕ
fw_req_data = 0x04

abbrev pub fw_data : ℕ
fw_data = 0x05

abbrev pub fw_end : ℕ
fw_end = 0x06

abbrev pub fw_reboot : ℕ
fw_reboot = 0x0B

-- A packet under construction, or one that came in; the length of `payload` is its length field in a
-- request. The letters in front are always the same.
pub record FwPacket : Type 0 where
  pub seq : ℕ
  pub cmd : ℕ
  pub payload : List ℕ

-- What the device asks for.
pub record TfFwData : Type 0 where
  pub seq : ℕ
  pub len : ℕ
  pub offset : ℕ

unfoldable pub fw_req_init : ℕ → ℕ → FwPacket
fw_req_init cmd seq = record { seq = seq % 256; cmd = cmd; payload = [] }

-- The rest of the loop of `calc_checksum` with `sum` so far.
unfoldable pub sum_bytes : ℕ → List ℕ → ℕ
sum_bytes sum [] = sum
sum_bytes sum (b ∷ buf) = sum_bytes (u8 (sum + b)) buf

unfoldable pub calc_checksum : List ℕ → ℕ
calc_checksum buf = sum_bytes 0 buf

-- From the sequence number on.
unfoldable pub summed_bytes : FwPacket → List ℕ
summed_bytes req = req.seq ∷ req.cmd ∷ (put_u16 (length req.payload) ++ req.payload)

-- The packet in memory after `tf_req_done`; zeros follow.
unfoldable pub fw_req_done : FwPacket → List ℕ
fw_req_done req =
    b'T' ∷ b'o' ∷ b'F' ∷ b'i' ∷ (summed_bytes req ++ calc_checksum (summed_bytes req) ∷ [])

unfoldable pub fw_req_putdata : FwPacket → List ℕ → FwPacket
fw_req_putdata req bytes = record req { payload = req.payload ++ bytes }

-- The padding of a transfer of `len` bytes.
unfoldable pub fw_pad : ℕ → ℕ
fw_pad len =
    let pad : ℕ = if len % 2 == 0 then 0 else 1 in
    if (len + pad) % 0x200 == 0 then (if pad + len == max_send_size then pad else pad + 2) else pad

module _ {W : Type 0} (usb : Usb W) where
  -- The do loop of `tf_send`: `len` bytes are left, from `bytes` on.
  unfoldable pub send_rounds : ℕ → List ℕ → ℕ → M W ℤ
  send_rounds zero bytes len s = none
  send_rounds (suc fuel) bytes len s =
      let tosend = min len max_send_size in
      let r = usb.bulk_write s.world 0x01 bytes tosend s.tf.timeout in
      let s' : State W = record s { world = r.1 } in
      let more = send_rounds fuel (drop tosend bytes) (len - tosend) s' in
      if r.0 ==ℤ pos tosend
      then (if len - tosend == 0 then some (s'.tf.error, s') else more)
      else set_error (negsuc 0) s'

  unfoldable pub fw_send : List ℕ → M W ℤ
  fw_send req s =
      if s.tf.dev
      then (let len = 8 + get_u16 (drop 6 req) + 1 in
          let total = len + fw_pad len in
          send_rounds (total + 1) req total (record s { tf = record (s.tf) { error = pos 0 } }))
      else set_error (negsuc 1) s

  -- The code and the packet; a packet is there where the code is 0.
  unfoldable pub fw_get_response : M W (ℤ × FwPacket)
  fw_get_response s =
      let nothing : FwPacket = record { seq = 0; cmd = 0; payload = [] } in
      if s.tf.dev
      then (let r = usb.bulk_read s.world 0x82 fw_packet_size s.tf.timeout in
          let s' : State W = record s { world = r.2 } in
          if ltb_ℤ (r.0) (pos 8)
          then (do e ← set_error (negsuc 0); pure (e, nothing)) s'
          else if ltb_ℤ (r.0) (pos (get_u16 (drop 6 (r.1))))
          then (do e ← set_error (negsuc 0); pure (e, nothing)) s'
          else (do
            e ← set_error (pos 0)
            pure (e, record { seq = at (r.1) 4; cmd = at (r.1) 5; payload = drop 8 (r.1) }))
              s')
      else (do e ← set_error (negsuc 1); pure (e, nothing)) s

  -- The result and what is stored into `*fw_data`.
  unfoldable pub tf_wait_for_req_data : M W (ℤ × Option TfFwData)
  tf_wait_for_req_data = do
    (ret, reply) ← fw_get_response
    (if not (ret ==ℤ pos 0)
        then pure (negsuc 0, none)
        else if reply.cmd == fw_req_data
        then pure (
          pos 0,
          some (record {
            seq = reply.seq;
            len = get_u16 reply.payload;
            offset = get_u24 (drop 2 reply.payload);
          }),
        )
        else if reply.cmd == fw_end
        then pure (pos 1, none)
        else pure (negsuc 0, none))

  unfoldable pub tf_fw_upload : M W (ℤ × Option TfFwData)
  tf_fw_upload = do
    ret ← fw_send (fw_req_done (fw_req_init fw_pc_to_stb 0))
    (if ret ==ℤ pos 0
        then (do
          (got, reply) ← fw_get_response
          (if not (got ==ℤ pos 0)
              then pure (negsuc 0, none)
              else if not (reply.cmd == fw_id)
              then pure (negsuc 0, none)
              else tf_wait_for_req_data))
        else pure (negsuc 0, none))

  unfoldable pub tf_fw_upload_next : List ℕ → TfFwData → M W (ℤ × Option TfFwData)
  tf_fw_upload_next buf wanted =
      if ltb max_data_size (length buf) then pure (negsuc 0, none) else (do
        ret ← fw_send (fw_req_done (fw_req_putdata (fw_req_init fw_data wanted.seq) buf))
        (if not (ret ==ℤ pos 0) then pure (negsuc 0, none) else tf_wait_for_req_data))

  unfoldable pub tf_fw_reboot : M W ℤ
  tf_fw_reboot = fw_send (fw_req_done (fw_req_init fw_reboot 0))
