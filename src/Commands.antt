-- ===== src/Commands.antt =====
-- tf_io.c, lines 369 to 503: the commands that are one request and one answer.
pub mod Closed
pub mod Request
use libtopfield.Base.{
  ℕ, ◌+◌, Bool, true, false, List, [], ◌∷◌, Option, none, some, take, drop, ◌==◌, if◌then◌else◌,
}
use libtopfield.Base.Int.{ℤ, pos, negsuc, ◌==ℤ◌, pattern32}
use libtopfield.Bytes.{get_u32}
use libtopfield.Packet.{TfPacket, tf_req_init, tf_req_put32, tf_req_putfilename, tf_req_done}
use libtopfield.Packet
use libtopfield.Handle.{
  TfHandle, Usb, State, M, pure, fault, ◌>>=◌, ◌>>◌, lift, get_tf, modify_tf, set_error,
}
use libtopfield.Io.{if_ok_or, tf_send, tf_get_response, tf_cmd, tf_send_success, tf_send_fail}
use libtopfield.Err
use libtopfield.Msg

pub record TfSizeResult : Type 0 where
  pub totalk : ℕ
  pub freek : ℕ

-- The two numbers of the reply.
unfoldable pub size_result : List ℕ → TfSizeResult
size_result body = record { totalk = get_u32 body; freek = get_u32 (drop 4 body) }

-- `if (ret == 0) return 0;` and what follows.
abbrev pub unless_ok : {W : Type 0} → ℤ → M W ℤ → M W ℤ
unless_ok ret k = if ret ==ℤ Err.ok then pure Err.ok else k

-- The request packets that the commands build.
unfoldable pub turbo_request : ℤ → Option TfPacket
turbo_request on = tf_req_put32 (tf_req_init Msg.turbo) (pattern32 on)

unfoldable pub delete_request : List ℕ → Option TfPacket
delete_request path = tf_req_putfilename (tf_req_init Msg.hdd_delete) path false

unfoldable pub mkdir_request : List ℕ → Option TfPacket
mkdir_request path = tf_req_putfilename (tf_req_init Msg.hdd_mkdir) path true

unfoldable pub rename_request : List ℕ → List ℕ → Option TfPacket
rename_request src dest =
    Packet.◌>>=◌ (tf_req_putfilename (tf_req_init Msg.hdd_rename) src true)
      λ req. tf_req_putfilename req dest true

module _ {W : Type 0} (usb : Usb W) where
  -- `tf_req_done` and `tf_cmd` on a request that was built.
  unfoldable pub run_request : Option TfPacket → M W ℤ
  run_request request = do req ← lift request; tf_cmd usb (tf_req_done req)

  unfoldable pub tf_cmd_cancel : M W ℤ
  tf_cmd_cancel = tf_cmd usb (tf_req_done (tf_req_init Msg.cancel))

  unfoldable pub tf_cmd_ready : M W ℤ
  tf_cmd_ready = tf_cmd usb (tf_req_done (tf_req_init Msg.ready))

  unfoldable pub tf_cmd_reset : M W ℤ
  tf_cmd_reset = tf_cmd usb (tf_req_done (tf_req_init Msg.reset))

  unfoldable pub tf_cmd_turbo : ℤ → M W ℤ
  tf_cmd_turbo on = run_request (turbo_request on)

  unfoldable pub tf_cmd_delete : List ℕ → M W ℤ
  tf_cmd_delete path = run_request (delete_request path)

  unfoldable pub tf_cmd_mkdir : List ℕ → M W ℤ
  tf_cmd_mkdir path = run_request (mkdir_request path)

  unfoldable pub tf_cmd_rename : List ℕ → List ℕ → M W ℤ
  tf_cmd_rename src dest = run_request (rename_request src dest)

  -- The result and, on success, what is stored into `*result`.
  unfoldable pub tf_cmd_size : M W (ℤ × Option TfSizeResult)
  tf_cmd_size = do
    ret ← tf_send usb (tf_req_done (tf_req_init Msg.hdd_size))
    if_ok_or ret none (do
      (got, reply) ← tf_get_response usb
      if_ok_or got none (
          if reply.cmd == Msg.hdd_size_result
          then pure (got, some (size_result reply.body))
          else pure (Err.unexpected, none)))

  unfoldable pub tf_init : M W ℤ
  tf_init = do
    first ← tf_cmd_cancel
    unless_ok first (do
      second ← tf_cmd_cancel
      unless_ok second (do
        failed ← tf_send_fail usb (pos 2)
        sent ← tf_send_success usb
        ready ← tf_cmd_ready
        unless_ok ready (do last ← tf_cmd_cancel; unless_ok last (pure (negsuc 0)))))
