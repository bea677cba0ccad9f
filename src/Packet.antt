-- ===== src/Packet.antt =====
-- tf_io.c, lines 47 to 244: a request packet from `tf_req_init` over the `tf_req_put...` calls to
-- the bytes that `tf_req_done` leaves for the transfer.
--
-- A packet under construction is its length field, the four bytes of the command and the bytes
-- from offset 8 up to the length. `none` is a call that would carry the 16-bit length past 0xffff:
-- there the source wraps the length or writes past the end of the packet.
pub mod Shape
pub mod Filename
pub mod Wire
use libtopfield.Base.{
  ℕ, suc, ◌+◌, ◌-◌, ◌%◌, Bool, true, false, List, [], ◌∷◌, ◌++◌, Option, none, some, length, take,
  ltb, ◌==◌, if◌then◌else◌, bit_and,
}
use libtopfield.Base.Bits.{u8, u16, u32, u64}
use libtopfield.Bytes.{put_u16, put_u32, put_u64, byte_swap}
use libtopfield.Crc.{crc16_ansi}

abbrev pub packet_head_size : ℕ
packet_head_size = 8

-- sizeof(tf_packet_t): the largest packet and the dummy byte.
abbrev pub packet_size : ℕ
packet_size = 0x10000

pub record TfPacket : Type 0 where
  pub length : ℕ
  pub cmd : List ℕ
  pub body : List ℕ

-- `req->length` in host order; the CRC field is filled in by `tf_req_done`.
unfoldable pub tf_req_init : ℕ → TfPacket
tf_req_init cmd = record { length = 8; cmd = put_u32 cmd; body = [] }

-- Stores bytes at `req->length` and moves it on.
unfoldable pub store : TfPacket → List ℕ → Option TfPacket
store req bytes =
    if ltb (req.length + length bytes) 0x10000
    then some (record req { length = req.length + length bytes; body = req.body ++ bytes })
    else none

unfoldable pub tf_req_put8 : TfPacket → ℕ → Option TfPacket
tf_req_put8 req value = store req (u8 value ∷ [])

unfoldable pub tf_req_put16 : TfPacket → ℕ → Option TfPacket
tf_req_put16 req value = store req (put_u16 (u16 value))

unfoldable pub tf_req_put32 : TfPacket → ℕ → Option TfPacket
tf_req_put32 req value = store req (put_u32 (u32 value))

unfoldable pub tf_req_put64 : TfPacket → ℕ → Option TfPacket
tf_req_put64 req value = store req (put_u64 (u64 value))

unfoldable pub tf_req_putdata : TfPacket → List ℕ → Option TfPacket
tf_req_putdata req bytes = store req bytes

infixl 5 ◌>>=◌
abbrev pub ◌>>=◌ {ℓ κ} : {A : Type ℓ} {B : Type κ} → Option A → (A → Option B) → Option B
none >>= f = none
some a >>= f = f a

-- `*str == '/' ? '\\' : *str`
unfoldable pub backslash : ℕ → ℕ
backslash c = if c == b'/' then 92 else c

-- The loop over the characters of the name and its terminator.
unfoldable pub put_name : TfPacket → List ℕ → Option TfPacket
put_name req [] = some req
put_name req (c ∷ str) = do req' ← tf_req_put8 req (backslash c); put_name req' str

-- `str` is the C string without its terminator.
unfoldable pub tf_req_putfilename : TfPacket → List ℕ → Bool → Option TfPacket
tf_req_putfilename req str addlength =
    let len = length str + 1 in
    let odd = bit_and (len + req.length) 1 == 1 in
    let pad : ℕ = if odd then 1 else 0 in
    do
      counted ← (if addlength then tf_req_put16 req (len + pad) else some req)
      named ← put_name counted (str ++ 0 ∷ [])
      if odd then tf_req_put8 named 0 else some named

-- The header and body, most significant bytes first, before the swap.
unfoldable pub header_bytes : TfPacket → List ℕ
header_bytes req =
    put_u16 req.length
    ++ (put_u16 (crc16_ansi 0 (take (req.length - 4) (req.cmd ++ req.body)))
        ++ (req.cmd ++ req.body))

-- What is in memory from the start of the packet when `tf_req_done` returns. An odd packet gets a
-- zero byte behind it.
unfoldable pub tf_req_done : TfPacket → List ℕ
tf_req_done req =
    let len = req.length in
    if len % 2 == 1
    then byte_swap (header_bytes req ++ 0 ∷ []) (len + 1)
    else byte_swap (header_bytes req) len
