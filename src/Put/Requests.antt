-- ===== src/Put/Requests.antt =====
-- The requests that send a file (tf_io.c), field by field.
use libtopfield.Base.{
  ℕ, ◌+◌, ◌^◌, ◌<◌, ◌≤◌, ◌≡◌, ap, sym, ◌∙◌, arith, true, List, [], ◌∷◌, ◌++◌, some, length, map,
  All, length-append,
}
use libtopfield.Base.Bits.{u8, u64}
use libtopfield.Base.Int.{ℤ}
use libtopfield.Bytes.{put_u16, put_u32, put_u64, c_string}
use libtopfield.Bytes.Arith.{IsBytes}
use libtopfield.Packet.{
  TfPacket, tf_req_init, tf_req_put8, store, tf_req_put64, tf_req_putdata, backslash,
}
use libtopfield.Packet.Shape.{
  tf_req_init-IsRequest, extended, store_fits, store_only_fits, extended-IsRequest,
}
use libtopfield.Packet.Filename.{IsChar, putfilename_cmd, tf_req_putfilename_lem}
use libtopfield.Put.{max_put_size, file_send_request, file_start_request, file_data_request}
use libtopfield.Put.Block.{HasBlock, file_data_request_lem}
use libtopfield.Dirent.{name_size, pack_typefile}
use libtopfield.Dirent.Wire.{Descriptor, descriptor_bytes, length-descriptor_bytes}
use libtopfield.Dirent.Stored.{stored, stored-IsDescriptor, pack_typefile-stored}
use libtopfield.Mjd.{TimeZone}
use libtopfield.Mjd.Stamps.{IsLocal}
use libtopfield.Msg

-- A FILE_SEND packet: the direction, the counted name with backslashes for slashes, and the offset.
pub record IsSend (q : TfPacket) (dir : ℕ) (path : List ℕ) (offset : ℕ) : Type 0 where
  pub field : List ℕ
  pub cmd_is : q.cmd ≡ put_u32 0x1008
  pub length_is : q.length ≡ 8 + length q.body
  pub body_is : q.body ≡ dir ∷ (put_u16 (length field) ++ field ++ put_u64 offset)
  pub reads : c_string field ≡ map backslash path

same_some : {A : Type 0} {a b : A} → some a ≡ some b → a ≡ b
same_some h = cc

pub file_send_request-IsSend :
    (dir : ℕ) (path : List ℕ) (offset : ℕ) (q : TfPacket)
    → dir < 256
    → All IsChar path
    → length path < 0xff00
    → offset < 2 ^ 64
    → file_send_request dir path offset ≡ some q
    → IsSend q dir path offset
unfolding file_send_request tf_req_put8 tf_req_put64 tf_req_init
file_send_request-IsSend dir path offset q byte chars short small made =
    let start = tf_req_init Msg.hdd_file_send in
    let directed = extended start (u8 dir ∷ []) in
    let first = store_fits start (u8 dir ∷ []) (omega arith) in
    let well =
      extended-IsRequest start (u8 dir ∷ []) (tf_req_init-IsRequest Msg.hdd_file_send) (omega arith)
        (omega arith) in
    let (named, names, has) =
      tf_req_putfilename_lem directed path true well chars (omega (arith, short)) in
    let kept = putfilename_cmd directed named path true (omega (arith, short)) names in
    let bytes = put_u64 (u64 offset) in
    let last : store named bytes ≡ some q = sym (ground (arith, first, names)) ∙ made in
    let (room, is) = store_only_fits named q bytes last in
    let dir_is : u8 dir ≡ dir = omega (arith, byte) in
    let offset_is : u64 offset ≡ offset = omega (arith, small) in
    record {
      field = has.field;
      cmd_is = ap (λ p. p.cmd) is ∙ kept;
      length_is = rw is (omega (arith, has.request.sized, length-append named.body bytes));
      body_is =
          ap (λ p. p.body) is
          ∙ ap (λ b. b ++ bytes) has.body_is
          ∙ ap (λ d. d ∷ (put_u16 (length has.field) ++ has.field ++ bytes)) dir_is
          ∙ ap (λ v. dir ∷ (put_u16 (length has.field) ++ has.field ++ put_u64 v)) offset_is;
      reads = has.reads;
    }

-- A FILE_START packet with a descriptor.
pub record IsStart (q : TfPacket) (f : Descriptor) : Type 0 where
  pub cmd_is : q.cmd ≡ put_u32 0x1009
  pub length_is : q.length ≡ 122
  pub body_is : q.body ≡ descriptor_bytes f

pub file_start_request-IsStart :
    (zone : TimeZone) (stale : List ℕ) (stamp : ℤ) (size : ℕ) (path : List ℕ)
    (l : IsLocal zone stamp) (room : length stale ≡ name_size) (chars : All IsChar path)
    (q : TfPacket)
    → file_start_request (pack_typefile zone stale stamp size path) ≡ some q
    → IsStart q (stored zone stale stamp size path l room chars)
unfolding file_start_request tf_req_putdata tf_req_init
file_start_request-IsStart zone stale stamp size path l room chars q made =
    let f = stored zone stale stamp size path l room chars in
    let typefile = pack_typefile zone stale stamp size path in
    let bytes : typefile ≡ descriptor_bytes f =
      pack_typefile-stored zone stale stamp size path l room chars in
    let (fits, is) = store_only_fits (tf_req_init Msg.hdd_file_start) q typefile made in
    let long : length typefile ≡ 114 =
      ap length bytes
      ∙ length-descriptor_bytes f (stored-IsDescriptor zone stale stamp size path l room chars)
          [] in
    record {
      cmd_is = ap (λ p. p.cmd) is;
      length_is = ap (λ p. p.length) is ∙ omega (arith, long);
      body_is = ap (λ p. p.body) is ∙ bytes;
    }

same_packet : (p q : TfPacket) → p.length ≡ q.length → p.cmd ≡ q.cmd → p.body ≡ q.body → p ≡ q
same_packet p q lengths cmds bodies i = record { length = lengths i; cmd = cmds i; body = bodies i }

-- A packet with a block is the one that `tf_cmd_put_data` makes.
pub file_data_request-HasBlock :
    (offset : ℕ) (buffer : List ℕ) (q : TfPacket)
    → offset < 2 ^ 64
    → IsBytes buffer
    → length buffer ≤ max_put_size
    → HasBlock q offset buffer
    → file_data_request offset buffer ≡ some q
file_data_request-HasBlock offset buffer q small bytes fits has =
    let (p, made, made_has) = file_data_request_lem offset buffer small bytes fits in
    let same =
      same_packet p q (made_has.length_is ∙ sym has.length_is) (made_has.cmd_is ∙ sym has.cmd_is)
        (made_has.body_is ∙ sym has.body_is) in
    made ∙ ap some same
