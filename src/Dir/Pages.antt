-- ===== src/Dir/Pages.antt =====
-- The pages of a listing as the device sends them (tf_io.c), and the calls that a caller makes.
use libtopfield.Base.{
  ℕ, ◌+◌, ◌*◌, ◌≡◌, refl, List, [], ◌∷◌, ◌++◌, Option, none, some, length, map, All, append_assoc,
}
use libtopfield.Base.Int.{ℤ, pos}
use libtopfield.Bytes.{get_u32}
use libtopfield.Bytes.Arith.{IsBytes}
use libtopfield.Packet.{TfPacket, tf_req_done, packet_size}
use libtopfield.Packet.Shape.{IsRequest}
use libtopfield.Handle.{Usb, State}
use libtopfield.Io.{success_packet}
use libtopfield.Dirent.{TfDirent}
use libtopfield.Dirent.Wire.{
  Descriptor, IsDescriptor, descriptor_bytes, entry_of, unpack_dirent-descriptor_bytes,
  next_descriptor,
}
use libtopfield.Dir.{unpack_dirents, tf_cmd_dir_next}
use libtopfield.Mjd.{TimeZone}
use libtopfield.Err
use libtopfield.Msg

-- The descriptors of a reply, one behind the other.
abbrev pub page_bytes : List Descriptor → List ℕ
page_bytes [] = []
page_bytes (f ∷ page) = descriptor_bytes f ++ page_bytes page

-- A DIRENT packet with a page of descriptors.
pub record HasPage (p : TfPacket) (page : List Descriptor) : Type 0 where
  pub request : IsRequest p
  pub cmd_is : get_u32 p.cmd ≡ Msg.hdd_dirent
  pub length_is : p.length ≡ 8 + 114 * length page
  pub body_is : p.body ≡ page_bytes page
  pub descriptors : All IsDescriptor page

-- A device that sends the pages of a listing, each when the one before has been acknowledged in
-- full, and then DIREND.
pub data Sends {W : Type 0} (usb : Usb W) (timeout : ℕ) : W → List (List Descriptor) → Type 0 where
  ends :
      (w w1 w2 : W) (p : TfPacket) (junk : List ℕ) (acked : ℤ)
      → IsRequest p
      → get_u32 p.cmd ≡ Msg.hdd_dirend
      → IsBytes junk
      → usb.bulk_read w 0x82 packet_size timeout
        ≡ (pos (length (tf_req_done p ++ junk)), tf_req_done p ++ junk, w1)
      → usb.bulk_write w1 0x01 success_packet 8 timeout ≡ (acked, w2)
      → Sends usb timeout w []
  sends_page :
      (w w1 w2 : W) (p : TfPacket) (descriptors : List Descriptor) (junk : List ℕ)
      (rest : List (List Descriptor))
      → HasPage p descriptors
      → IsBytes junk
      → usb.bulk_read w 0x82 packet_size timeout
        ≡ (pos (length (tf_req_done p ++ junk)), tf_req_done p ++ junk, w1)
      → usb.bulk_write w1 0x01 success_packet 8 timeout ≡ (pos 8, w2)
      → Sends usb timeout w2 rest
      → Sends usb timeout w (descriptors ∷ rest)

-- The calls of `tf_cmd_dir_next` after one that returned `ret` and these entries, until one returns
-- TF_ERR_DONE; and the entries that they bring.
pub data Lists {W : Type 0} (usb : Usb W) (zone : TimeZone)
    : ℤ → Option (List TfDirent) → State W → List (List TfDirent) → Type 0 where
  over : (s : State W) → Lists usb zone Err.done none s []
  next :
      (s t : State W) (entries : List TfDirent) (ret : ℤ) (more : Option (List TfDirent))
      (rest : List (List TfDirent))
      → tf_cmd_dir_next usb zone s ≡ some ((ret, more), t)
      → Lists usb zone ret more t rest
      → Lists usb zone Err.ok (some entries) s (entries ∷ rest)

-- What a call returns, and the calls that follow it.
pub record Brings {W : Type 0} (usb : Usb W) (zone : TimeZone) (pages : List (List TfDirent))
    (r : Option ((ℤ × Option (List TfDirent)) × State W)) : Type 0 where
  pub ret : ℤ
  pub entries : Option (List TfDirent)
  pub after : State W
  pub returns : r ≡ some ((ret, entries), after)
  pub lists : Lists usb zone ret entries after pages

pub unpack_dirents-page_bytes :
    (zone : TimeZone) (page : List Descriptor) (rest : List ℕ)
    → All IsDescriptor page
    → unpack_dirents zone (length page) (page_bytes page ++ rest) ≡ some (map (entry_of zone) page)
unfolding unpack_dirents
unpack_dirents-page_bytes zone [] rest h = refl
unpack_dirents-page_bytes zone (f ∷ page) rest h =
    let behind = page_bytes page ++ rest in
    let group : (descriptor_bytes f ++ page_bytes page) ++ rest ≡ descriptor_bytes f ++ behind =
      append_assoc (descriptor_bytes f) (page_bytes page) rest in
    let first = unpack_dirent-descriptor_bytes f h.0 behind zone in
    let skip = next_descriptor f h.0 behind in
    let later = unpack_dirents-page_bytes zone page rest h.1 in rw (group, first, skip, later) refl
