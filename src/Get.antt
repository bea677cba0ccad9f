-- ===== src/Get.antt =====
-- tf_io.c, lines 723 to 878: fetching a file from the device.
pub mod Next
pub mod Session
pub mod Stream
use libtopfield.Base.{
  ℕ, zero, suc, ◌+◌, ◌-◌, ◌%◌, ◌^◌, Bool, true, false, not, List, [], Option, none, some, drop,
  ◌==◌, ◌&&◌, if◌then◌else◌,
}
use libtopfield.Base.Int.{ℤ, ◌==ℤ◌}
use libtopfield.Bytes.{get_u32, get_u64}
use libtopfield.Packet.{tf_req_done}
use libtopfield.Handle.{
  TfHandle, Usb, State, M, pure, fault, ◌>>=◌, ◌>>◌, lift, get_tf, modify_tf, set_error, wait,
}
use libtopfield.Io.{
  Reply, if_ok_or, neg_u32, tf_send, tf_get_response, tf_send_success, tf_send_fail,
}
use libtopfield.Commands.{tf_cmd_cancel, unless_ok}
use libtopfield.Dirent.{TfDirent, unpack_dirent}
use libtopfield.Mjd.{TimeZone}
use libtopfield.Put.{file_send_request}
use libtopfield.Err
use libtopfield.Msg

-- `bytes` is what stands at `buf->data`, of which `size` bytes belong to the block.
pub record TfBuffer : Type 0 where
  pub offset : ℕ
  pub size : ℕ
  pub bytes : List ℕ

-- The block of a FILE_DATA reply. The size is a 16-bit number, so a reply that is shorter than its
-- 16 bytes of header and offset wraps it.
unfoldable pub data_block : Reply → TfBuffer
data_block reply = record {
  offset = get_u64 reply.body;
  size = (reply.length + 2 ^ 16 - (8 + 8)) % 2 ^ 16;
  bytes = drop 8 reply.body;
}

module _ {W : Type 0} (usb : Usb W) where
  unfoldable pub tf_cmd_get : TimeZone → List ℕ → ℕ → M W (ℤ × Option TfDirent)
  tf_cmd_get zone path offset = do
    req ← lift (file_send_request Msg.dir_get path offset)
    ret ← tf_send usb (tf_req_done req)
    if_ok_or ret none (do
      (got, reply) ← tf_get_response usb
      if_ok_or got none (
          if reply.cmd == Msg.hdd_file_start
          then (do dirent ← lift (unpack_dirent zone reply.body); pure (got, some dirent))
          else if reply.cmd == Msg.fail
          then pure (neg_u32 (get_u32 reply.body), none)
          else pure (Err.unexpected, none)))

  -- What `tf_cmd_get_next` does with a reply that came in well.
  unfoldable pub take_block : Reply → M W (ℤ × Option TfBuffer)
  take_block reply =
      if reply.cmd == Msg.hdd_file_end
      then (do sent ← tf_send_success usb; pure (Err.done, none))
      else if reply.cmd == Msg.hdd_file_data
      then (do
        sent ← tf_send_success usb
        noted ← modify_tf (λ h. if sent ==ℤ Err.ok then record h { pending = true } else h)
        pure (Err.ok, some (data_block reply)))
      else if reply.cmd == Msg.fail
      then pure (Err.io, none)
      else pure (Err.unexpected, none)

  -- The part of `tf_cmd_get_next` behind the acknowledgement. The reply goes into the handle's
  -- buffer; without one the read is a fault.
  unfoldable pub fetch_block : M W (ℤ × Option TfBuffer)
  fetch_block = do
    tf ← get_tf
    (if tf.dev && not tf.buf
        then fault
        else (do (got, reply) ← tf_get_response usb; if_ok_or got none (take_block reply)))

  -- `pending` says that the last block has been acknowledged already.
  unfoldable pub tf_cmd_get_next : M W (ℤ × Option TfBuffer)
  tf_cmd_get_next = do
    tf ← get_tf
    ret ← (if tf.pending then pure Err.ok else tf_send_success usb)
    cleared ← modify_tf (λ h. record h { pending = false })
    (code, block) ← if_ok_or ret none fetch_block
    stored ← set_error code
    pure (code, block)

  -- The rounds of `tf_cmd_get_cancel` that are left; `ret` is the result of the last one.
  unfoldable pub cancel_rounds : ℕ → ℤ → M W ℤ
  cancel_rounds zero ret = pure ret
  cancel_rounds (suc n) ret = do
    failed ← tf_send_fail usb Err.crc
    cancelled ← tf_cmd_cancel usb
    unless_ok cancelled (do
      slept ← wait usb 2
      (got, reply) ← tf_get_response usb
      unless_ok got (cancel_rounds n got))

  unfoldable pub tf_cmd_get_cancel : M W ℤ
  tf_cmd_get_cancel = do
    tf ← get_tf
    drained ←
        (if tf.pending
          then (do
            cleared ← modify_tf (λ h. record h { pending = false })
            (got, reply) ← tf_get_response usb
            pure got)
          else pure Err.ok)
    cancel_rounds 5 Err.ok
