-- ===== src/Examples/Sessions.antt =====
-- Examples of whole command runs over the device that answers from a list.
use libtopfield.Base.{ℕ, ◌≢◌, ◌≤◌, ◌≡◌, ◌⊎◌, refl, List, [], ◌∷◌, ◌++◌, some, replicate, All}
use libtopfield.Base.Int.{pos}
use libtopfield.Bytes.{
  put_u32, get_u32, put_u16, put_u64, get_u16, byte_swap, get_u16_raw, c_string, get_u64, push_byte,
}
use libtopfield.Crc.{crc16_ansi, crc_round}
use libtopfield.Packet.{
  TfPacket, tf_req_putfilename, put_name, tf_req_put8, backslash, tf_req_init, tf_req_done,
  header_bytes, store, tf_req_putdata, tf_req_put64,
}
use libtopfield.Put.{file_data_request}
use libtopfield.Mjd.{tfdt_to_time, day_of_mjd}
use libtopfield.Dirent.{TfDirent, unpack_dirent, stamp_at}
use libtopfield.Dir.{
  max_dir_entries, tf_cmd_dir_first, tf_cmd_dir_cancel, dir_request, get_dirents, unpack_dirents,
  entry_count, rounds,
}
use libtopfield.Dir.Entries.{StoresEntries, get_dirents-bounded}
use libtopfield.Stat.{
  tf_stat, stat_rounds, find_entry, same_name, split_path, parent_dir, root_dirent,
}
use libtopfield.Path.Spec.{NoSlash}
use libtopfield.Io.Errors.{SameSettings}
use libtopfield.Commands.{tf_cmd_cancel}
use libtopfield.Stat.Found.{tf_stat-name}
use libtopfield.Put.{tf_cmd_put_data}
use libtopfield.Put.Block.{tf_cmd_put_data-settings}
use libtopfield.Io.{
  Reply, tf_cmd, tf_get_response, tf_send, unpack_reply, check_reply, reply_of, fill, send_pad,
}
use libtopfield.Examples.Device.{device, opened, utc}
use libtopfield.Msg
use libtopfield.Err

-- A listing with one entry, the file /a.
abbrev listing : TfPacket
listing = record {
  length = 122;
  cmd = put_u32 Msg.hdd_dirent;
  body = replicate 5 0 ++ 2 ∷ (replicate 8 0 ++ b'a' ∷ replicate 99 0);
}

abbrev entry : TfDirent
entry = record { stamp = pos 0; type = b'f'; size = 0; name = b'a' ∷ []; attrib = 0 }

abbrev listing_reply : Reply
listing_reply = record { length = 122; cmd = Msg.hdd_dirent; body = listing.body }

listed :
    tf_get_response device (opened (tf_req_done listing ∷ []))
    ≡ some ((Err.ok, listing_reply), opened [])
unfolding tf_get_response unpack_reply check_reply reply_of fill get_u16_raw get_u16 get_u32
    push_byte put_u16 put_u32 tf_req_done header_bytes byte_swap crc16_ansi crc_round
listed = refl

get_dirents-bounded_example :
    StoresEntries utc listing.body 1
      (opened [])
      (get_dirents device utc (opened (tf_req_done listing ∷ [])))
    × (1 ≤ max_dir_entries)
get_dirents-bounded_example =
    get_dirents-bounded device utc (opened (tf_req_done listing ∷ [])) (opened []) listing_reply
      listed refl

abbrev success : List ℕ
success = tf_req_done (tf_req_init Msg.success)

written :
    tf_cmd_put_data device 4096 (1 ∷ 2 ∷ 3 ∷ []) (opened (success ∷ [])) ≡ some (Err.ok, opened [])
unfolding tf_cmd_put_data file_data_request tf_req_put64 tf_req_putdata store tf_req_init tf_send
    send_pad tf_get_response unpack_reply check_reply reply_of fill get_u16_raw get_u16 get_u32
    put_u64 put_u16 put_u32 tf_req_done header_bytes byte_swap crc16_ansi crc_round
written = refl

tf_cmd_put_data-settings_example : SameSettings (opened (success ∷ [])).tf (opened []).tf
tf_cmd_put_data-settings_example =
    tf_cmd_put_data-settings device 4096 (1 ∷ 2 ∷ 3 ∷ []) (opened (success ∷ [])) (opened []) Err.ok
      written

abbrev slash_a : List ℕ
slash_a = b'/' ∷ b'a' ∷ []

found :
    tf_stat device utc 1 slash_a (opened (tf_req_done listing ∷ success ∷ []))
    ≡ some ((pos 0, some entry), opened [])
unfolding tf_stat stat_rounds find_entry same_name split_path parent_dir tf_cmd_dir_first
    tf_cmd_dir_cancel tf_cmd_cancel tf_cmd dir_request tf_req_putfilename put_name tf_req_put8 store
    backslash tf_send send_pad tf_req_init get_dirents tf_get_response unpack_reply check_reply
    reply_of fill get_u16_raw get_u16 get_u32 get_u64 push_byte put_u16 put_u32 tf_req_done
    header_bytes byte_swap crc16_ansi crc_round unpack_dirents rounds entry_count unpack_dirent
    stamp_at tfdt_to_time day_of_mjd c_string
found = refl

tf_stat-name_example :
    (pos 0 ≡ pos 0)
    × (((slash_a ≡ b'/' ∷ []) × (entry ≡ root_dirent))
        ⊎ ((slash_a ≢ b'/' ∷ [])
            × ((parent : List ℕ) × (slash_a ≡ parent ++ b'/' ∷ entry.name)
                × All NoSlash entry.name)))
tf_stat-name_example =
    tf_stat-name device utc 1 slash_a (opened (tf_req_done listing ∷ success ∷ [])) (opened [])
      (pos 0) entry found
