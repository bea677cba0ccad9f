-- ===== src/Io.antt =====
-- tf_io.c, lines 246 to 367 and 902 to 924: one packet out, one packet in, and the command that
-- does both.
pub mod Answers
pub mod Bus
pub mod Errors
pub mod Exchange
pub mod Faults
use libtopfield.Base.{
  ℕ, zero, suc, ◌+◌, ◌-◌, ◌*◌, ◌%◌, ◌^◌, Bool, true, false, not, List, [], ◌∷◌, Option, none, some,
  length, take, drop, ltb, ◌==◌, ◌||◌, if◌then◌else◌,
}
use libtopfield.Base.Bits.{u32}
use libtopfield.Base.Int.{ℤ, pos, negsuc, ltb_ℤ, ◌==ℤ◌, signed32, pattern32}
use libtopfield.Bytes.{get_u16, get_u32, get_u16_raw, byte_swap}
use libtopfield.Crc.{crc16_ansi}
use libtopfield.Packet.{
  TfPacket, packet_head_size, packet_size, tf_req_init, tf_req_put32, tf_req_done,
}
use libtopfield.Handle.{
  TfHandle, Usb, State, M, pure, fault, ◌>>=◌, ◌>>◌, lift, get_tf, modify_tf, set_error,
}
use libtopfield.Err
use libtopfield.Msg

-- A reply as the callers see it: length and command in host order, and the bytes from offset 8 on.
pub record Reply : Type 0 where
  pub length : ℕ
  pub cmd : ℕ
  pub body : List ℕ

abbrev pub no_reply : Reply
no_reply = record { length = 0; cmd = 0; body = [] }

-- The bytes with the zeros behind them, up to at least `n`.
unfoldable pub fill : ℕ → List ℕ → List ℕ
fill zero bytes = bytes
fill (suc n) [] = 0 ∷ fill n []
fill (suc n) (b ∷ bytes) = b ∷ fill n bytes

-- The padding bytes that `tf_send` sends behind a packet of `len` bytes.
unfoldable pub send_pad : ℕ → ℕ
send_pad len = if len % 64 == 0 then 2 else if len % 2 == 1 then 1 else 0

-- `-get_u32(reply.data)`, stored into an `int`.
unfoldable pub neg_u32 : ℕ → ℤ
neg_u32 v = signed32 ((2 ^ 32 - v) % 2 ^ 32)

-- The fields of a packet that is back in memory order.
unfoldable pub reply_of : ℕ → List ℕ → Reply
reply_of len packet = record { length = len; cmd = get_u32 (drop 4 packet); body = drop 8 packet }

-- The CRC test of `tf_get_response` and the reply. Below a length of 4 the CRC would run over
-- `len - 4` bytes, a huge unsigned number.
unfoldable pub check_reply : Bool → ℕ → List ℕ → Option (ℤ × Reply)
check_reply nocrc len packet =
    if nocrc
    then some (Err.ok, reply_of len packet)
    else if ltb len 4
    then none
    else if get_u16 (drop 2 packet) == crc16_ansi 0 (take (len - 4) (drop 4 packet))
    then some (Err.ok, reply_of len packet)
    else some (Err.crc, reply_of len packet)

-- The packet of `len` bytes at the start of `buf`, swapped back.
unfoldable pub unpack_reply : Bool → ℕ → List ℕ → Option (ℤ × Reply)
unpack_reply nocrc len buf =
    let n = len + len % 2 in check_reply nocrc len (byte_swap (fill n buf) n)

-- `if (ret == 0) ret = k; return ret;`
abbrev pub if_ok : {W : Type 0} → ℤ → M W ℤ → M W ℤ
if_ok ret k = if ret ==ℤ Err.ok then k else pure ret

-- The same where the caller also gets something, `none` if it is left as it was.
abbrev pub if_ok_or : {W A : Type 0} → ℤ → A → M W (ℤ × A) → M W (ℤ × A)
if_ok_or ret left k = if ret ==ℤ Err.ok then k else pure (ret, left)

module _ {W : Type 0} (usb : Usb W) where
  unfoldable pub tf_send : List ℕ → M W ℤ
  tf_send req s =
      if s.tf.dev
      then (let len = get_u16_raw req + send_pad (get_u16_raw req) in
          let sent = usb.bulk_write s.world 0x01 req len s.tf.timeout in
          let error = (if sent.0 ==ℤ pos len then Err.ok else Err.io) in
          some (error, record { tf = record (s.tf) { error = error }; world = sent.1 }))
      else set_error Err.noconn s

  unfoldable pub tf_get_response : M W (ℤ × Reply)
  tf_get_response s =
      if s.tf.dev
      then (let got = usb.bulk_read s.world 0x82 packet_size s.tf.timeout in
          let s' : State W = record { tf = record (s.tf) { error = Err.ok }; world = got.2 } in
          let len = get_u16_raw got.1 in
          if ltb_ℤ got.0 (pos packet_head_size) || ltb_ℤ got.0 (pos len)
          then (do e ← set_error Err.io; pure (e, no_reply)) s'
          else (do
            (e, reply) ← lift (unpack_reply s'.tf.nocrc len got.1)
            set_error e
            pure (e, reply))
              s')
      else (do e ← set_error Err.noconn; pure (e, no_reply)) s

  unfoldable pub tf_cmd : List ℕ → M W ℤ
  tf_cmd req = do
    ret ← tf_send req
    if_ok ret (do
      (got, reply) ← tf_get_response
      if_ok got (
          if reply.cmd == Msg.fail
          then set_error (neg_u32 (get_u32 reply.body))
          else if not (reply.cmd == Msg.success)
          then set_error Err.unexpected
          else pure got))

-- The constant packet of `tf_send_success`.
abbrev pub success_packet : List ℕ
success_packet = 0x08 ∷ 0x00 ∷ 0x81 ∷ 0xc1 ∷ 0x00 ∷ 0x00 ∷ 0x02 ∷ 0x00 ∷ []

unfoldable pub fail_request : ℤ → Option TfPacket
fail_request reason = tf_req_put32 (tf_req_init Msg.fail) (pattern32 reason)

module _ {W : Type 0} (usb : Usb W) where
  unfoldable pub tf_send_success : M W ℤ
  tf_send_success = tf_send usb success_packet

  unfoldable pub tf_send_fail : ℤ → M W ℤ
  tf_send_fail reason = do req ← lift (fail_request reason); tf_send usb (tf_req_done req)
