-- ===== src/Dir/Stream.antt =====
-- A whole listing (tf_io.c): the calls of `tf_cmd_dir_first` and `tf_cmd_dir_next` that bring it.
use libtopfield.Base.{
  ℕ, ◌+◌, ◌<◌, All, sym, ◌≡◌, ap, ◌∙◌, arith, true, List, ◌++◌, none, some, length, map,
  if◌then◌else◌, false, ◌-◌, ◌/◌,
}
use libtopfield.Base.Int.{ℤ, pos, ◌==ℤ◌}
use libtopfield.Bytes.{get_u32, put_u32, c_string}
use libtopfield.Packet.Filename.{IsChar, tf_req_putfilename_lem, putfilename_cmd}
use libtopfield.Bytes.Arith.{IsBytes}
use libtopfield.Packet.{TfPacket, tf_req_init, backslash, tf_req_done, packet_size}
use libtopfield.Packet.Shape.{IsRequest, tf_req_init-IsRequest}
use libtopfield.Handle.{TfHandle, Usb, State, >>=-some}
use libtopfield.Io.{tf_get_response, tf_send_success, success_packet}
use libtopfield.Io.Answers.{tf_get_response-tf_req_done}
use libtopfield.Io.Exchange.{sent_length, sent_ok}
use libtopfield.Dirent.{TfDirent}
use libtopfield.Dirent.Wire.{Descriptor, entry_of}
use libtopfield.Dir.{
  unpack_dirents, rounds, entry_count, dir_request, get_dirents, tf_cmd_dir_first, tf_cmd_dir_next,
}
use libtopfield.Get.Next.{ack_sent}
use libtopfield.Dir.Entries.{rounds-entry_count, tf_get_response-length}
use libtopfield.Dir.Pages.{page_bytes, HasPage, Sends, Lists, Brings, unpack_dirents-page_bytes}
use libtopfield.Mjd.{TimeZone}
use libtopfield.Err
use libtopfield.Msg

module _ {W : Type 0} (usb : Usb W) (zone : TimeZone) (h : TfHandle) (dev : h.dev ≡ true) where
  abbrev at : ℤ → W → State W
  at error w = record { tf = record h { error = error }; world = w }

  abbrev entries_of : List Descriptor → List TfDirent
  entries_of = map (entry_of zone)

  page_arrives :
      (error : ℤ) (w w1 : W) (p : TfPacket) (page : List Descriptor) (junk : List ℕ)
      → HasPage p page
      → IsBytes junk
      → usb.bulk_read w 0x82 packet_size h.timeout
        ≡ (pos (length (tf_req_done p ++ junk)), tf_req_done p ++ junk, w1)
      → get_dirents usb zone (at error w) ≡ some ((Err.ok, some (entries_of page)), at Err.ok w1)
  unfolding get_dirents
  page_arrives error w w1 p page junk has bytes arrives =
      let (reply, gets, carried) =
        tf_get_response-tf_req_done usb (at error w) p junk w1 has.request bytes dev arrives in
      let command : reply.cmd ≡ Msg.hdd_dirent = carried.cmd_is ∙ has.cmd_is in
      let len = carried.length_is ∙ has.length_is in
      let small = tf_get_response-length usb (at error w) (at Err.ok w1) Err.ok reply gets in
      let whole : (reply.length - 8) / 114 ≡ length page = omega (arith, len) in
      let count : rounds (entry_count reply.length) ≡ some (length page) =
        rounds-entry_count reply.length small ∙ ap some whole in
      let body : reply.body ≡ page_bytes page ++ carried.behind =
        carried.body_is ∙ ap (◌++ carried.behind) has.body_is in
      let unpacked : unpack_dirents zone (length page) reply.body ≡ some (entries_of page) =
        ap (unpack_dirents zone (length page)) body
        ∙ unpack_dirents-page_bytes zone page carried.behind has.descriptors in
      >>=-some (tf_get_response usb) _ _ gets ∙ ground (arith, command, count, unpacked)

  end_arrives :
      (error : ℤ) (w w1 w2 : W) (p : TfPacket) (junk : List ℕ) (acked : ℤ)
      → IsRequest p
      → get_u32 p.cmd ≡ Msg.hdd_dirend
      → IsBytes junk
      → usb.bulk_read w 0x82 packet_size h.timeout
        ≡ (pos (length (tf_req_done p ++ junk)), tf_req_done p ++ junk, w1)
      → usb.bulk_write w1 0x01 success_packet 8 h.timeout ≡ (acked, w2)
      → (t : State W) × (get_dirents usb zone (at error w) ≡ some ((Err.done, none), t))
  unfolding get_dirents
  end_arrives error w w1 w2 p junk acked r command bytes arrives acks =
      let (reply, gets, carried) =
        tf_get_response-tf_req_done usb (at error w) p junk w1 r bytes dev arrives in
      let is_end : reply.cmd ≡ Msg.hdd_dirend = carried.cmd_is ∙ command in
      let ack = ack_sent usb (at Err.ok w1) w2 acked dev acks in
      let e : ℤ = (if acked ==ℤ pos 8 then Err.ok else Err.io) in
      (at e w2, >>=-some (tf_get_response usb) _ _ gets ∙ ground (arith, is_end, ack))

  next_asks :
      (error : ℤ) (w1 w2 : W)
      → usb.bulk_write w1 0x01 success_packet 8 h.timeout ≡ (pos 8, w2)
      → tf_cmd_dir_next usb zone (at error w1) ≡ get_dirents usb zone (at Err.ok w2)
  unfolding tf_cmd_dir_next
  next_asks error w1 w2 acks =
      >>=-some (tf_send_success usb) _ _ (ack_sent usb (at error w1) w2 (pos 8) dev acks)

  get_dirents-Brings :
      (w : W) (pages : List (List Descriptor))
      → Sends usb h.timeout w pages
      → (error : ℤ) → Brings usb zone (map entries_of pages) (get_dirents usb zone (at error w))
  get_dirents-Brings w _ (Sends.ends _ w1 w2 p junk acked r command bytes arrives acks) error =
      let (t, ended) = end_arrives error w w1 w2 p junk acked r command bytes arrives acks in
      record { ret = Err.done; entries = none; after = t; returns = ended; lists = Lists.over t }
  get_dirents-Brings w _ (Sends.sends_page _ w1 w2 p page junk rest has bytes arrives acks more)
        error =
      let later = get_dirents-Brings w2 rest more Err.ok in
      record {
        ret = Err.ok;
        entries = some (entries_of page);
        after = at Err.ok w1;
        returns = page_arrives error w w1 p page junk has bytes arrives;
        lists =
            Lists.next (at Err.ok w1) later.after (entries_of page) later.ret later.entries
              (map entries_of rest) (next_asks Err.ok w1 w2 acks ∙ later.returns) later.lists;
      }

-- The calls and what they bring.
pub listing_brought :
    {W : Type 0} (usb : Usb W) (zone : TimeZone) (s : State W) (path : List ℕ) (req : TfPacket)
    (w : W) (pages : List (List Descriptor))
    → s.tf.dev ≡ true
    → dir_request path ≡ some req
    → usb.bulk_write s.world 0x01 (tf_req_done req) (sent_length (tf_req_done req)) s.tf.timeout
      ≡ (pos (sent_length (tf_req_done req)), w)
    → Sends usb s.tf.timeout w pages
    → Brings usb zone (map (map (entry_of zone)) pages) (tf_cmd_dir_first usb zone path s)
unfolding tf_cmd_dir_first
listing_brought usb zone s path req w pages dev request takes stream =
    let b = get_dirents-Brings usb zone s.tf dev w pages stream Err.ok in
    let sent = sent_ok usb s (tf_req_done req) w dev takes in
    record {
      ret = b.ret;
      entries = b.entries;
      after = b.after;
      returns = ground (arith, request, sent, b.returns);
      lists = b.lists;
    }

-- A DIR packet, with the path, in which backslashes stand for the slashes.
pub record IsDirRequest (q : TfPacket) (path : List ℕ) : Type 0 where
  pub cmd_is : q.cmd ≡ put_u32 0x1002
  pub length_is : q.length ≡ 8 + length q.body
  pub reads : c_string q.body ≡ map backslash path

same_some : {A : Type 0} {a b : A} → some a ≡ some b → a ≡ b
same_some h = cc

dir_request-IsDirRequest :
    (path : List ℕ) (q : TfPacket)
    → All IsChar path
    → length path < 0xff00
    → dir_request path ≡ some q
    → IsDirRequest q path
unfolding dir_request tf_req_init
dir_request-IsDirRequest path q chars short made =
    let start = tf_req_init Msg.hdd_dir in
    let (named, names, has) =
      tf_req_putfilename_lem start path false (tf_req_init-IsRequest Msg.hdd_dir) chars
        (omega (arith, short)) in
    let kept = putfilename_cmd start named path false (omega (arith, short)) names in
    let same : named ≡ q = same_some (sym names ∙ made) in
    record {
      cmd_is = rw (sym same) kept;
      length_is = rw (sym same) has.request.sized;
      reads = rw (sym same) (ap c_string has.body_is ∙ has.reads);
    }

-- Over a device that takes the request for a directory, sends the pages of its listing and then
-- DIREND, the calls of `tf_cmd_dir_first` and `tf_cmd_dir_next` bring exactly the entries of the
-- pages, page for page and in order, each with the time stamp, type, size and name of its descriptor
-- and the first two of its four attribute bytes, and then TF_ERR_DONE. The request is a DIR packet
-- with the path, backslashes for slashes. Conditions: a connected handle, a path of characters other
-- than the terminator that fits a request, acknowledgements that go out, sizes below 2 ^ 64, and
-- names of at most 94 characters.
pub tf_cmd_dir_first-Brings :
    {W : Type 0} (usb : Usb W) (zone : TimeZone) (s : State W) (path : List ℕ) (req : TfPacket)
    (w : W) (pages : List (List Descriptor))
    → s.tf.dev ≡ true
    → All IsChar path
    → length path < 0xff00
    → dir_request path ≡ some req
    → usb.bulk_write s.world 0x01 (tf_req_done req) (sent_length (tf_req_done req)) s.tf.timeout
      ≡ (pos (sent_length (tf_req_done req)), w)
    → Sends usb s.tf.timeout w pages
    → IsDirRequest req path
      × Brings usb zone (map (map (entry_of zone)) pages) (tf_cmd_dir_first usb zone path s)
tf_cmd_dir_first-Brings usb zone s path req w pages dev chars short request takes stream = (
  dir_request-IsDirRequest path req chars short request,
  listing_brought usb zone s path req w pages dev request takes stream,
)
