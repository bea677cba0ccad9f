-- ===== src/Examples/Download.antt =====
-- A file of one block, opened and fetched.
use libtopfield.Base.{◌≡◌, refl, List, [], ◌∷◌, ◌++◌, some, false, ℕ, arith}
use libtopfield.Base.Texts.{codes}
use libtopfield.Bytes.{get_u32, put_u16, put_u32, put_u64}
use libtopfield.Packet.{
  TfPacket, tf_req_init, tf_req_putfilename, put_name, tf_req_put8, tf_req_put16, tf_req_put64,
  store, backslash, tf_req_done,
}
use libtopfield.Handle.{State}
use libtopfield.Dirent.Wire.{descriptor_bytes, entry_of}
use libtopfield.Put.{file_send_request}
use libtopfield.Put.Requests.{IsSend}
use libtopfield.Get.{tf_cmd_get}
use libtopfield.Get.Stream.{Downloads}
use libtopfield.Get.Session.{Opens, tf_cmd_get-Downloads}
use libtopfield.Examples.Device.{device, open_handle, utc}
use libtopfield.Examples.Directory.{recording, recording-IsDescriptor}
use libtopfield.Examples.Files.{two_packets, small_file}
use libtopfield.Err
use libtopfield.Msg

abbrev path : List ℕ
path = codes "/a"

abbrev request : TfPacket
request = record {
  length = 22;
  cmd = put_u32 Msg.hdd_file_send;
  body = 1 ∷ 0 ∷ 3 ∷ 92 ∷ 97 ∷ 0 ∷ put_u64 4096;
}

abbrev start : TfPacket
start = record {
  length = 122;
  cmd = put_u32 Msg.hdd_file_start;
  body = descriptor_bytes (recording 300000);
}

abbrev answers : List (List ℕ)
answers = (tf_req_done start ++ []) ∷ two_packets

abbrev idle : State (List (List ℕ))
idle = record { tf = record open_handle { pending = false }; world = answers }

named : file_send_request Msg.dir_get path 4096 ≡ some request
unfolding file_send_request tf_req_putfilename put_name tf_req_put8 tf_req_put16 tf_req_put64 store
    backslash tf_req_init put_u64 put_u16
named = refl

recording_sent : Opens device 11000 answers request (recording 300000) ((4096, 1 ∷ 2 ∷ 3 ∷ []) ∷ [])
unfolding get_u32 put_u32 descriptor_bytes put_u64
recording_sent = record {
  asked = answers;
  answered = two_packets;
  acked = two_packets;
  start = start;
  junk = [];
  takes = refl;
  request = record {
    sized = refl;
    fits = omega arith;
    cmd_sized = refl;
    cmd_bytes = omega arith;
    body_bytes = omega arith;
  };
  is_start = refl;
  body_is = refl;
  descriptor = recording-IsDescriptor;
  junk_bytes = tt;
  sends = refl;
  acks = refl;
  streams = small_file;
}

tf_cmd_get-Downloads_example :
    IsSend request 1 path 4096
    × (t : State (List (List ℕ))) × (tf_cmd_get device utc path 4096 idle
        ≡ some ((Err.ok, some (entry_of utc (recording 300000))), t))
    × Downloads device t ((4096, 1 ∷ 2 ∷ 3 ∷ []) ∷ [])
tf_cmd_get-Downloads_example =
    tf_cmd_get-Downloads device utc path 4096 idle request (recording 300000)
      ((4096, 1 ∷ 2 ∷ 3 ∷ []) ∷ []) refl refl refl (omega arith) (omega arith) (omega arith) named
      recording_sent
