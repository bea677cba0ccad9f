-- ===== src/Packet/Shape.antt =====
-- Well-formed requests, and the `tf_req_put...` calls (tf_io.c) on them.
use libtopfield.Base.{
  ℕ, ◌+◌, ◌<◌, ◌≡◌, refl, arith, List, ◌++◌, some, length, length-append, All-append, append_assoc,
  lt→ltb,
}
use libtopfield.Bytes.Arith.{IsByte, IsBytes}
use libtopfield.Bytes.Codec.{put_u32-IsBytes, length-put_u32}
use libtopfield.Packet.{TfPacket, tf_req_init, store}

pub record IsRequest (p : TfPacket) : Type 0 where
  pub sized : p.length ≡ 8 + length p.body
  pub fits : p.length < 0x10000
  pub cmd_sized : length p.cmd ≡ 4
  pub cmd_bytes : IsBytes p.cmd
  pub body_bytes : IsBytes p.body

pub tf_req_init-IsRequest : (cmd : ℕ) → IsRequest (tf_req_init cmd)
unfolding tf_req_init
tf_req_init-IsRequest cmd = record {
  sized = refl;
  fits = omega arith;
  cmd_sized = length-put_u32 cmd;
  cmd_bytes = put_u32-IsBytes cmd;
  body_bytes = tt;
}

-- The packet with more bytes in its body.
abbrev pub extended : TfPacket → List ℕ → TfPacket
extended p bytes = record p { length = p.length + length bytes; body = p.body ++ bytes }

pub store_fits :
    (p : TfPacket) (bytes : List ℕ)
    → p.length + length bytes < 0x10000
    → store p bytes ≡ some (extended p bytes)
unfolding store
store_fits p bytes h = rw (lt→ltb _ _ h)

pub store_only_fits :
    (p q : TfPacket) (bytes : List ℕ)
    → store p bytes ≡ some q
    → (p.length + length bytes < 0x10000) × (q ≡ extended p bytes)
unfolding store
store_only_fits p q bytes h = ground arith

pub extended-IsRequest :
    (p : TfPacket) (bytes : List ℕ)
    → IsRequest p
    → IsBytes bytes
    → p.length + length bytes < 0x10000
    → IsRequest (extended p bytes)
extended-IsRequest p bytes r h fits = record {
  sized = omega (arith, r.sized, length-append p.body bytes);
  fits = fits;
  cmd_sized = r.cmd_sized;
  cmd_bytes = r.cmd_bytes;
  body_bytes = All-append IsByte p.body bytes r.body_bytes h;
}

pub store-IsRequest :
    (p q : TfPacket) (bytes : List ℕ)
    → IsRequest p
    → IsBytes bytes
    → store p bytes ≡ some q
    → IsRequest q
store-IsRequest p q bytes r h e =
    let (fits, same) = store_only_fits p q bytes e in rw same (extended-IsRequest p bytes r h fits)

-- Two stores are one store of both.
pub extended-append :
    (p : TfPacket) (xs ys : List ℕ) → extended (extended p xs) ys ≡ extended p (xs ++ ys)
extended-append p xs ys =
    let sum : p.length + length xs + length ys ≡ p.length + length (xs ++ ys) =
      omega (arith, length-append xs ys) in
    rw (sum, append_assoc)
