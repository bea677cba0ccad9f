-- ===== src/Io/Answers.antt =====
-- `tf_get_response` (tf_io.c) on a packet that `tf_req_done` finished.
use libtopfield.Base.{
  ℕ, zero, suc, ◌-◌, ◌≤◌, ◌≡◌, refl, ap, sym, ◌∙◌, arith, List, [], ◌∷◌, ◌++◌, some, Bool, true,
  false, length, length-append, All-append, append_assoc, take, drop, take-append, drop-append,
  drop-drop,
}
use libtopfield.Base.Int.{ℤ, pos}
use libtopfield.Bytes.{put_u16, get_u16, get_u32}
use libtopfield.Bytes.Arith.{IsByte, IsBytes}
use libtopfield.Bytes.Codec.{length-put_u16, get_u16-put_u16, get_u32-append}
use libtopfield.Crc.Detect.{crc16_ansi-lt}
use libtopfield.Packet.{TfPacket, tf_req_done, packet_size}
use libtopfield.Handle.{State, Usb}
use libtopfield.Packet.Shape.{IsRequest}
use libtopfield.Packet.Wire.{
  padded_length, checksum, wire_unswap, wire_length, parts, length-tf_req_done,
}
use libtopfield.Io.{tf_get_response, Reply, fill, reply_of, check_reply, unpack_reply}
use libtopfield.Err

fill_enough : (n : ℕ) (xs : List ℕ) → n ≤ length xs → fill n xs ≡ xs
unfolding fill
fill_enough zero xs h = refl
fill_enough (suc n) [] h = absurd (omega arith)
fill_enough (suc n) (x ∷ xs) h = ap (◌∷◌ x) (fill_enough n xs (omega arith))

-- `reply` carries the length, the command and the body of the packet `p`; what the buffer holds
-- behind the packet follows.
pub record Carries (p : TfPacket) (reply : Reply) : Type 0 where
  pub length_is : reply.length ≡ p.length
  pub cmd_is : reply.cmd ≡ get_u32 p.cmd
  pub behind : List ℕ
  pub body_is : reply.body ≡ p.body ++ behind

module _ (p : TfPacket) (r : IsRequest p) (pad : List ℕ) where
  abbrev packet : List ℕ
  packet = put_u16 p.length ++ (put_u16 (checksum p) ++ (p.cmd ++ (p.body ++ pad)))

  drop_two : drop 2 packet ≡ put_u16 (checksum p) ++ (p.cmd ++ (p.body ++ pad))
  drop_two = drop-append 2 (put_u16 p.length) _ (sym (length-put_u16 p.length))

  drop_four : drop 4 packet ≡ p.cmd ++ (p.body ++ pad)
  drop_four =
      ap (drop 4) (sym (append_assoc (put_u16 p.length) (put_u16 (checksum p)) _))
      ∙ drop-append 4 (put_u16 p.length ++ put_u16 (checksum p)) _ (
          omega (
            arith,
            length-append (put_u16 p.length) (put_u16 (checksum p)),
            length-put_u16 p.length,
            length-put_u16 (checksum p),
          ))

  drop_eight : drop 8 packet ≡ p.body ++ pad
  drop_eight =
      sym (drop-drop 4 4 packet) ∙ ap (drop 4) drop_four ∙ drop-append 4 p.cmd _ (sym r.cmd_sized)

  covered : take (p.length - 4) (drop 4 packet) ≡ p.cmd ++ p.body
  covered =
      ap (take (p.length - 4)) (drop_four ∙ sym (append_assoc p.cmd p.body pad))
      ∙ take-append (p.length - 4) (p.cmd ++ p.body) pad
          (omega (arith, r.sized, r.cmd_sized, length-append p.cmd p.body))

  stored_crc : get_u16 (drop 2 packet) ≡ checksum p
  stored_crc =
      ap get_u16 drop_two
      ∙ get_u16-put_u16 (checksum p) _ (
          crc16_ansi-lt 0 (p.cmd ++ p.body) (omega arith)
            (All-append IsByte p.cmd p.body r.cmd_bytes r.body_bytes))

  passes :
      (nocrc : Bool) → check_reply nocrc p.length packet ≡ some (Err.ok, reply_of p.length packet)
  unfolding check_reply
  passes true = refl
  passes false = rw (stored_crc, covered) (ground (arith, r.sized))

  carries : Carries p (reply_of p.length packet)
  unfolding reply_of
  carries = record {
    length_is = refl;
    cmd_is = ap get_u32 drop_four ∙ get_u32-append p.cmd _ (omega (arith, r.cmd_sized));
    behind = pad;
    body_is = drop_eight;
  }

-- Unpacking what `tf_req_done` packed, whatever follows on the wire.
unpack_wire :
    (p : TfPacket) (nocrc : Bool) (junk : List ℕ)
    → IsRequest p
    → (reply : Reply) × (unpack_reply nocrc p.length (tf_req_done p ++ junk) ≡ some (Err.ok, reply))
      × Carries p reply
unfolding unpack_reply
unpack_wire p nocrc junk r =
    let (pad, shape, _) = parts p r junk in
    let n = padded_length p in
    let enough : fill n (tf_req_done p ++ junk) ≡ tf_req_done p ++ junk =
      fill_enough n _ (omega (arith, length-append (tf_req_done p) junk, length-tf_req_done p r)) in
    (
      reply_of p.length (packet p r pad),
      rw (enough, wire_unswap p r junk, shape) (passes p r pad nocrc),
      carries p r pad,
    )

-- The handle and world after a transfer in.
abbrev pub received : {W : Type 0} → State W → W → ℤ → State W
received s w e = record { tf = record (s.tf) { error = e }; world = w }

-- A device that sends a packet which `tf_req_done` finished, any bytes behind it, is heard: with or
-- without the CRC test, `tf_get_response` returns and stores 0, with the packet's length, command and
-- body. Conditions: a connected handle, and a packet that the `tf_req_put...` calls can make.
pub tf_get_response-tf_req_done :
    {W : Type 0} (usb : Usb W) (s : State W) (p : TfPacket) (junk : List ℕ) (w : W)
    → IsRequest p
    → IsBytes junk
    → s.tf.dev ≡ true
    → usb.bulk_read s.world 0x82 packet_size s.tf.timeout
      ≡ (pos (length (tf_req_done p ++ junk)), tf_req_done p ++ junk, w)
    → (reply : Reply) × (tf_get_response usb s ≡ some ((Err.ok, reply), received s w Err.ok))
      × Carries p reply
unfolding tf_get_response
tf_get_response-tf_req_done usb s p junk w r hj connected arrives =
    let (reply, unpacks, carried) = unpack_wire p s.tf.nocrc junk r in
    let long : p.length ≤ length (tf_req_done p ++ junk) =
      omega (arith, length-append (tf_req_done p) junk, length-tf_req_done p r) in
    (
      reply,
      rw (connected, arrives, wire_length p r junk hj) (ground (arith, long, r.sized, unpacks)),
      carried,
    )
