-- ===== src/Put/Block.antt =====
-- A block of a file on its way out (tf_io.c): its request, and the timeout around the answer.
use libtopfield.Base.{
  ℕ, ◌+◌, ◌*◌, ◌^◌, ◌<◌, ◌≤◌, ◌≡◌, refl, ap, arith, List, ◌++◌, some, length, inl, inr,
  Option-cases,
}
use libtopfield.Base.Int.{ℤ}
use libtopfield.Base.Bits.{u64}
use libtopfield.Bytes.{put_u64}
use libtopfield.Bytes.Arith.{IsBytes}
use libtopfield.Bytes.Codec.{put_u64-IsBytes}
use libtopfield.Packet.{TfPacket, tf_req_init, tf_req_put64, tf_req_putdata, tf_req_done}
use libtopfield.Packet.Shape.{
  IsRequest, tf_req_init-IsRequest, extended, store_fits, extended-IsRequest,
}
use libtopfield.Handle.{Usb, State}
use libtopfield.Io.{tf_send, tf_get_response}
use libtopfield.Io.Errors.{SameSettings, tf_send-Stores, tf_get_response-Stores}
use libtopfield.Put.{max_put_size, file_data_request, tf_cmd_put_data}
use libtopfield.Msg

-- The request of a block.
pub record HasBlock (p : TfPacket) (offset : ℕ) (buffer : List ℕ) : Type 0 where
  pub request : IsRequest p
  pub cmd_is : p.cmd ≡ (tf_req_init Msg.hdd_file_data).cmd
  pub length_is : p.length ≡ 16 + length buffer
  pub body_is : p.body ≡ put_u64 offset ++ buffer

-- The request of `tf_cmd_put_data` is made without a fault, and its body is the offset and then the
-- buffer. Conditions: an offset below 2 ^ 64 and at most MAX_PUT_SIZE bytes.
pub file_data_request_lem :
    (offset : ℕ) (buffer : List ℕ)
    → offset < 2 ^ 64
    → IsBytes buffer
    → length buffer ≤ max_put_size
    → (p : TfPacket) × (file_data_request offset buffer ≡ some p) × HasBlock p offset buffer
unfolding file_data_request tf_req_put64 tf_req_putdata tf_req_init put_u64
file_data_request_lem offset buffer small bytes fits =
    let same : u64 offset ≡ offset = omega (arith, small) in
    let start = tf_req_init Msg.hdd_file_data in
    let placed = extended start (put_u64 (u64 offset)) in
    let first = store_fits start (put_u64 (u64 offset)) (omega (arith, fits)) in
    let second = store_fits placed buffer (omega (arith, fits)) in
    (
      extended placed buffer,
      rw first second,
      record {
        request =
            extended-IsRequest placed buffer
              (extended-IsRequest start (put_u64 (u64 offset))
                (tf_req_init-IsRequest Msg.hdd_file_data) (put_u64-IsBytes _) (omega arith))
              bytes (omega (arith, fits));
        cmd_is = refl;
        length_is = refl;
        body_is = ap (λ v. put_u64 v ++ buffer) same;
      },
    )

-- `tf_cmd_put_data` gives the doubled timeout back on every path that returns, and changes no other
-- setting of the handle.
pub tf_cmd_put_data-settings :
    {W : Type 0} (usb : Usb W) (offset : ℕ) (buffer : List ℕ) (s t : State W) (ret : ℤ)
    → tf_cmd_put_data usb offset buffer s ≡ some (ret, t)
    → SameSettings s.tf t.tf
unfolding tf_cmd_put_data
tf_cmd_put_data-settings {W = W} usb offset buffer s t ret e =
    elim (Option-cases (file_data_request offset buffer)) [
      | inl x ↦ ground (arith, e, x)
      | inr (p, x) ↦ elim (Option-cases (tf_send usb (tf_req_done p) s)) [
        | inl y ↦ ground (arith, e, x, y)
        | inr ((sent, s1), y) ↦
            let kept = (tf_send-Stores usb (tf_req_done p) s s1 sent y).settings in
            let s2 : State W = record s1 { tf = record (s1.tf) { timeout = s1.tf.timeout * 2 } } in
            elim (Option-cases (tf_get_response usb s2)) [
              | inl z ↦ ground (arith, e, x, y, z, kept)
              | inr (((got, reply), s3), z) ↦
                  let kept2 = (tf_get_response-Stores usb s2 s3 got reply z).settings in
                  ground (arith, e, x, y, z, kept, kept2)
            ]
      ]
    ]
