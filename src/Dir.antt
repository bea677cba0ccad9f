-- ===== src/Dir.antt =====
-- tf_io.c, lines 516 to 579: the listing of a directory.
pub mod Entries
pub mod Pages
pub mod Stream
use libtopfield.Base.{
  ℕ, zero, suc, ◌+◌, ◌-◌, ◌/◌, ◌%◌, ◌^◌, Bool, true, false, List, [], ◌∷◌, Option, none, some, drop,
  ltb, ◌==◌, if◌then◌else◌,
}
use libtopfield.Base.Int.{ℤ, pos, negsuc, signed32}
use libtopfield.Packet.{TfPacket, packet_head_size, tf_req_init, tf_req_putfilename, tf_req_done}
use libtopfield.Packet
use libtopfield.Handle.{Usb, State, M, pure, fault, ◌>>=◌, ◌>>◌, lift}
use libtopfield.Io.{Reply, if_ok_or, tf_send, tf_get_response, tf_send_success}
use libtopfield.Commands.{tf_cmd_cancel}
use libtopfield.Dirent.{TfDirent, unpack_dirent, typefile_size}
use libtopfield.Mjd.{TimeZone}
use libtopfield.Err
use libtopfield.Msg

abbrev pub max_dir_entries : ℕ
max_dir_entries = 595

-- The loop over the entries of a reply: `n` of them, from `typefile` on.
unfoldable pub unpack_dirents : TimeZone → ℕ → List ℕ → Option (List TfDirent)
unpack_dirents zone zero typefile = some []
unpack_dirents zone (suc n) typefile =
    Packet.◌>>=◌ (unpack_dirent zone typefile)
      λ d. Packet.◌>>=◌ (unpack_dirents zone n (drop typefile_size typefile)) λ ds. some (d ∷ ds)

-- `result->count`: the difference is taken in `size_t`, of 64 bits here, and the quotient is cut to
-- an int.
unfoldable pub entry_count : ℕ → ℤ
entry_count len = signed32 ((len + 2 ^ 64 - packet_head_size) % 2 ^ 64 / typefile_size % 2 ^ 32)

-- The rounds of the loop up to a count. It stores an entry in each: more than the array has are a
-- fault, and a negative count stores none.
unfoldable pub rounds : ℤ → Option ℕ
rounds (pos n) = if ltb max_dir_entries n then none else some n
rounds (negsuc n) = some 0

unfoldable pub dir_request : List ℕ → Option TfPacket
dir_request path = tf_req_putfilename (tf_req_init Msg.hdd_dir) path false

module _ {W : Type 0} (usb : Usb W) (zone : TimeZone) where
  -- The result and, where a reply brought entries, the new contents of `*result`.
  unfoldable pub get_dirents : M W (ℤ × Option (List TfDirent))
  get_dirents = do
    (ret, reply) ← tf_get_response usb
    if_ok_or ret none (
        if reply.cmd == Msg.hdd_dirent
        then (do
          n ← lift (rounds (entry_count reply.length))
          entries ← lift (unpack_dirents zone n reply.body)
          pure (ret, some entries))
        else if reply.cmd == Msg.hdd_dirend
        then (do sent ← tf_send_success usb; pure (Err.done, none))
        else pure (Err.unexpected, none))

  unfoldable pub tf_cmd_dir_first : List ℕ → M W (ℤ × Option (List TfDirent))
  tf_cmd_dir_first path = do
    req ← lift (dir_request path)
    ret ← tf_send usb (tf_req_done req)
    if_ok_or ret none get_dirents

  unfoldable pub tf_cmd_dir_next : M W (ℤ × Option (List TfDirent))
  tf_cmd_dir_next = do ret ← tf_send_success usb; if_ok_or ret none get_dirents

module _ {W : Type 0} (usb : Usb W) where
  unfoldable pub tf_cmd_dir_cancel : M W ℤ
  tf_cmd_dir_cancel = tf_cmd_cancel usb
