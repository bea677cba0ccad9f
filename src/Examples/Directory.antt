-- ===== src/Examples/Directory.antt =====
-- A listing of /a in two pages of one file each.
use libtopfield.Base.{
  zero, suc, length, ℕ, ◌≡◌, refl, arith, List, [], ◌∷◌, ◌++◌, some, replicate, map,
}
use libtopfield.Base.Int.{pos}
use libtopfield.Base.Texts.{codes}
use libtopfield.Bytes.{put_u32, put_u64, get_u32}
use libtopfield.Packet.{
  TfPacket, tf_req_init, tf_req_putfilename, put_name, tf_req_put8, store, backslash, tf_req_done,
}
use libtopfield.Packet.Shape.{tf_req_init-IsRequest}
use libtopfield.Dirent.Wire.{Descriptor, IsDescriptor, descriptor_bytes, entry_of}
use libtopfield.Dir.{dir_request, tf_cmd_dir_first}
use libtopfield.Dir.Pages.{page_bytes, HasPage, Sends, Brings}
use libtopfield.Dir.Stream.{IsDirRequest, tf_cmd_dir_first-Brings}
use libtopfield.Handle.{Usb, State}
use libtopfield.Stat.Listing.{Answers}
use libtopfield.Err
use libtopfield.Examples.Device.{open_handle, device, opened, utc}
use libtopfield.Msg

abbrev pub recording : ℕ → Descriptor
recording size = record {
  mjd_high = 0xcf;
  mjd_low = 0x9f;
  hour = 12;
  minute = 30;
  second = 0;
  filetype = 2;
  size = size;
  name = codes "News.rec";
  behind = replicate 86 0;
  unused = 0;
  attrib_0 = 0;
  attrib_1 = 0;
  attrib_2 = 0;
  attrib_3 = 0;
}

pub recording-IsDescriptor : IsDescriptor (recording 300000)
recording-IsDescriptor = record {
  size_fits = omega arith;
  name_chars = omega arith;
  name_sized = refl;
}

abbrev page : List Descriptor
page = recording 300000 ∷ []

abbrev page_packet : TfPacket
page_packet = record { length = 122; cmd = put_u32 Msg.hdd_dirent; body = page_bytes page }

page_packet-HasPage : HasPage page_packet page
unfolding get_u32 put_u32 descriptor_bytes put_u64
page_packet-HasPage = record {
  request = record {
    sized = refl;
    fits = omega arith;
    cmd_sized = refl;
    cmd_bytes = omega arith;
    body_bytes = omega arith;
  };
  cmd_is = refl;
  length_is = refl;
  body_is = refl;
  descriptors = (recording-IsDescriptor, tt);
}

abbrev end_packet : TfPacket
end_packet = tf_req_init Msg.hdd_dirend

abbrev replies : List (List ℕ)
replies =
    (tf_req_done page_packet ++ [])
    ∷ (tf_req_done page_packet ++ [])
    ∷ (tf_req_done end_packet ++ [])
    ∷ []

two_pages : Sends device 11000 replies (page ∷ page ∷ [])
two_pages = Sends.sends_page _ _ _ page_packet page [] _ page_packet-HasPage tt refl refl (
    Sends.sends_page _ _ _ page_packet page [] _ page_packet-HasPage tt refl refl (
      Sends.ends _ _ _ end_packet [] (pos 8) (tf_req_init-IsRequest Msg.hdd_dirend)
        (unfold get_u32 tf_req_init put_u32 in refl) tt refl refl))

abbrev request : TfPacket
request = record { length = 12; cmd = put_u32 Msg.hdd_dir; body = codes "\\a" ++ 0 ∷ 0 ∷ [] }

requested : dir_request (codes "/a") ≡ some request
unfolding dir_request tf_req_putfilename put_name tf_req_put8 store backslash tf_req_init
requested = refl

tf_cmd_dir_first-Brings_example :
    IsDirRequest request (codes "/a")
    × Brings device utc
        (map (map (entry_of utc)) (page ∷ page ∷ []))
        (tf_cmd_dir_first device utc (codes "/a") (opened replies))
tf_cmd_dir_first-Brings_example =
    tf_cmd_dir_first-Brings device utc (opened replies) (codes "/a") request replies
      (page ∷ page ∷ []) refl (omega arith) (omega arith) requested refl two_pages

-- A recorder with so many pages to send; behind them it answers with DIREND.
abbrev reply : ℕ → TfPacket × ℕ
reply zero = (end_packet, 0)
reply (suc n) = (page_packet, n)

abbrev recorder : Usb ℕ
recorder = record {
  bulk_write = λ n endpoint bytes len timeout. (pos len, n);
  bulk_read = λ n endpoint size timeout.
      (pos (length (tf_req_done (reply n).0 ++ [])), tf_req_done (reply n).0 ++ [], (reply n).1);
  sleep = λ n seconds. n;
}

abbrev ready : State ℕ
ready = record { tf = open_handle; world = 2 }

abbrev path_of_file : List ℕ
path_of_file = codes "/a/News.rec"
