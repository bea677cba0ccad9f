-- ===== src/Put.antt =====
-- tf_io.c, lines 581 to 721: sending a file to the device.
pub mod Block
pub mod Requests
pub mod Session
use libtopfield.Base.{
  ℕ, ◌*◌, ◌-◌, Bool, true, false, not, List, Option, none, some, ◌==◌, ◌&&◌, if◌then◌else◌,
}
use libtopfield.Base.Int.{ℤ, ◌==ℤ◌}
use libtopfield.Bytes.{get_u32}
use libtopfield.Packet.{
  TfPacket, tf_req_init, tf_req_put8, tf_req_put64, tf_req_putdata, tf_req_putfilename, tf_req_done,
}
use libtopfield.Packet
use libtopfield.Handle.{Usb, State, M, pure, ◌>>=◌, ◌>>◌, lift, get_tf, modify_tf, wait}
use libtopfield.Io.{if_ok, neg_u32, tf_send, tf_get_response}
use libtopfield.Commands.{tf_cmd_cancel}
use libtopfield.Dirent.{pack_typefile}
use libtopfield.Mjd.{TimeZone}
use libtopfield.Err
use libtopfield.Msg

-- The largest block that `tf_cmd_put_data` may be given.
abbrev pub max_put_size : ℕ
max_put_size = 0xffff - 8 - 9

-- The request that opens a transfer in the direction `dir`.
unfoldable pub file_send_request : ℕ → List ℕ → ℕ → Option TfPacket
file_send_request dir path offset =
    Packet.◌>>=◌ (tf_req_put8 (tf_req_init Msg.hdd_file_send) dir) λ directed.
      Packet.◌>>=◌ (tf_req_putfilename directed path true) λ named. tf_req_put64 named offset

unfoldable pub file_start_request : List ℕ → Option TfPacket
file_start_request typefile = tf_req_putdata (tf_req_init Msg.hdd_file_start) typefile

unfoldable pub file_data_request : ℕ → List ℕ → Option TfPacket
file_data_request offset buffer =
    Packet.◌>>=◌ (tf_req_put64 (tf_req_init Msg.hdd_file_data) offset)
      λ placed. tf_req_putdata placed buffer

module _ {W : Type 0} (usb : Usb W) where
  -- A reply that must be SUCCESS.
  unfoldable pub expect_success : M W ℤ
  expect_success = do
    (ret, reply) ← tf_get_response usb
    if_ok ret (pure (if reply.cmd == Msg.success then ret else Err.unexpected))

  -- `stale` is what the descriptor's name field held before.
  unfoldable pub tf_cmd_put : TimeZone → List ℕ → List ℕ → ℕ → ℤ → ℕ → M W ℤ
  tf_cmd_put zone stale path size stamp offset = do
    req ← lift (file_send_request Msg.dir_put path offset)
    ret ← tf_send usb (tf_req_done req)
    if_ok ret (do
      (got, reply) ← tf_get_response usb
      if_ok got (
          if reply.cmd == Msg.success
          then (do
            start ← lift (file_start_request (pack_typefile zone stale stamp size path))
            sent ← tf_send usb (tf_req_done start)
            if_ok sent expect_success)
          else if reply.cmd == Msg.fail
          then pure (neg_u32 (get_u32 reply.body))
          else pure Err.unexpected))

  -- The reply may take twice the timeout.
  unfoldable pub tf_cmd_put_data : ℕ → List ℕ → M W ℤ
  tf_cmd_put_data offset buffer = do
    req ← lift (file_data_request offset buffer)
    ret ← tf_send usb (tf_req_done req)
    if_ok ret (do
      tf ← get_tf
      doubled ← modify_tf (λ h. record h { timeout = tf.timeout * 2 })
      (got, reply) ← tf_get_response usb
      restored ← modify_tf (λ h. record h { timeout = tf.timeout })
      if_ok got (pure (if reply.cmd == Msg.success then got else Err.unexpected)))

  unfoldable pub tf_cmd_put_done : M W ℤ
  tf_cmd_put_done = do
    ret ← tf_send usb (tf_req_done (tf_req_init Msg.hdd_file_end))
    if_ok ret (do
      done ← expect_success
      if done ==ℤ Err.ok then pure done else (do cancelled ← tf_cmd_cancel usb; pure done))

  unfoldable pub tf_cmd_put_cancel : M W ℤ
  tf_cmd_put_cancel = do first ← tf_cmd_cancel usb; slept ← wait usb 1; tf_cmd_cancel usb
