-- ===== src/Examples/Upload.antt =====
-- A file of three bytes, sent to a device that answers every request with SUCCESS.
use libtopfield.Base.{ℕ, arith, All, ◌≡◌, refl, List, [], ◌∷◌, ◌++◌, some, replicate}
use libtopfield.Base.Texts.{codes}
use libtopfield.Bytes.{put_u16, put_u32, put_u64, get_u32}
use libtopfield.Packet.{
  TfPacket, tf_req_init, tf_req_putfilename, put_name, tf_req_put8, tf_req_put16, tf_req_put64,
  tf_req_putdata, store, backslash, tf_req_done,
}
use libtopfield.Packet.Shape.{tf_req_init-IsRequest}
use libtopfield.Handle.{State}
use libtopfield.Dirent.{pack_typefile}
use libtopfield.Mjd.{time_to_tfdt, mjd_of_day}
use libtopfield.Put.{file_send_request, file_start_request, tf_cmd_put}
use libtopfield.Put.Block.{HasBlock}
use libtopfield.Put.Requests.{IsSend, IsStart}
use libtopfield.Dirent.Stored.{stored}
use libtopfield.Packet.Filename.{IsChar}
use libtopfield.Put.Session.{end_packet, Obeys, Stores, Sent, tf_cmd_put-Sent}
use libtopfield.Examples.Device.{device, opened}
use libtopfield.Examples.Descriptors.{greenwich, time, time-IsLocal}
use libtopfield.Err
use libtopfield.Msg

abbrev success : List ℕ
success = tf_req_done (tf_req_init Msg.success) ++ []

abbrev path : List ℕ
path = codes "/a"

abbrev stale : List ℕ
stale = replicate 95 0

abbrev request : TfPacket
request = record {
  length = 22;
  cmd = put_u32 Msg.hdd_file_send;
  body = 0 ∷ 0 ∷ 3 ∷ 92 ∷ 97 ∷ 0 ∷ put_u64 0;
}

abbrev start : TfPacket
start = record {
  length = 122;
  cmd = put_u32 Msg.hdd_file_start;
  body = pack_typefile greenwich stale time 3 path;
}

abbrev block_request : TfPacket
block_request = record {
  length = 19;
  cmd = put_u32 Msg.hdd_file_data;
  body = put_u64 0 ++ 1 ∷ 2 ∷ 3 ∷ [];
}

named : file_send_request Msg.dir_put path 0 ≡ some request
unfolding file_send_request tf_req_putfilename put_name tf_req_put8 tf_req_put16 tf_req_put64 store
    backslash tf_req_init put_u64 put_u16
named = refl

started : file_start_request (pack_typefile greenwich stale time 3 path) ≡ some start
unfolding file_start_request tf_req_putdata store tf_req_init pack_typefile time_to_tfdt mjd_of_day
    put_u16 put_u64
started = refl

placed : HasBlock block_request 0 (1 ∷ 2 ∷ 3 ∷ [])
unfolding tf_req_init put_u32 put_u64
placed = record {
  request = record {
    sized = refl;
    fits = omega arith;
    cmd_sized = refl;
    cmd_bytes = omega arith;
    body_bytes = omega arith;
  };
  cmd_is = refl;
  length_is = refl;
  body_is = refl;
}

obeyed :
    (patience : ℕ) (req : TfPacket) (rest : List (List ℕ))
    → Obeys device 11000 patience (success ∷ rest) req rest
unfolding get_u32 tf_req_init put_u32
obeyed patience req rest = record {
  between = success ∷ rest;
  takes = refl;
  answer = tf_req_init Msg.success;
  junk = [];
  request = tf_req_init-IsRequest Msg.success;
  is_success = refl;
  junk_bytes = tt;
  sends = refl;
}

blocks_taken : Stores device 11000 (success ∷ success ∷ []) ((0, 1 ∷ 2 ∷ 3 ∷ []) ∷ [])
blocks_taken =
    Stores.block _ _ 0 (1 ∷ 2 ∷ 3 ∷ []) block_request [] (omega arith) (omega arith) (omega arith)
      placed (obeyed 22000 block_request _) (Stores.ends _ _ (obeyed 11000 end_packet _))

path_chars : All IsChar path
path_chars = omega arith

tf_cmd_put-Sent_example :
    IsSend request 0 path 0
    × IsStart start (stored greenwich stale time 3 path time-IsLocal refl path_chars)
    × ((t : State (List (List ℕ))) × (tf_cmd_put device greenwich stale path 3 time 0
            (opened (success ∷ success ∷ success ∷ success ∷ []))
          ≡ some (Err.ok, t))
        × Sent device t ((0, 1 ∷ 2 ∷ 3 ∷ []) ∷ []))
tf_cmd_put-Sent_example =
    tf_cmd_put-Sent device greenwich stale path 3 time 0
      (opened (success ∷ success ∷ success ∷ success ∷ [])) request start
      (success ∷ success ∷ success ∷ []) (success ∷ success ∷ []) ((0, 1 ∷ 2 ∷ 3 ∷ []) ∷ [])
      time-IsLocal refl path_chars refl (omega arith) (omega arith) named started
      (obeyed 11000 request _) (obeyed 11000 start _) blocks_taken
