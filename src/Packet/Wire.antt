-- ===== src/Packet/Wire.antt =====
-- The bytes of a request that `tf_req_done` (tf_io.c) finished, and those bytes swapped back.
use libtopfield.Base.{
  ℕ, ◌+◌, ◌-◌, ◌%◌, ◌⊎◌, inl, inr, ◌≡◌, refl, ap, sym, ◌∙◌, arith, List, [], ◌∷◌, ◌++◌, length,
  length-append, All-append, append_assoc, append-nil, take, ◌==◌, if◌then◌else◌,
}
use native.Mathlib.Nat.{add-zero}
use libtopfield.Bytes.{put_u16, get_u16_raw, byte_swap}
use libtopfield.Bytes.Arith.{IsByte, IsBytes}
use libtopfield.Bytes.Codec.{put_u16-IsBytes, get_u16-put_u16, length-put_u16}
use libtopfield.Bytes.Swap.{
  byte_swap-byte_swap, byte_swap-append, length-byte_swap, get_u16_raw-byte_swap,
}
use libtopfield.Crc.{crc16_ansi}
use libtopfield.Packet.{TfPacket, header_bytes, tf_req_done}
use libtopfield.Packet.Shape.{IsRequest}

take_all : (xs : List ℕ) → take (length xs) xs ≡ xs
take_all [] = refl
take_all (x ∷ xs) = ap (◌∷◌ x) (take_all xs)

-- The packet in memory order with its padding byte.
abbrev pub padded_bytes : TfPacket → List ℕ
padded_bytes p = header_bytes p ++ (if p.length % 2 == 1 then 0 ∷ [] else [])

abbrev pub padded_length : TfPacket → ℕ
padded_length p = p.length + p.length % 2

parity : (n : ℕ) → (n % 2 ≡ 0) ⊎ (n % 2 ≡ 1)
parity n = omega arith

tf_req_done-swap : (p : TfPacket) → tf_req_done p ≡ byte_swap (padded_bytes p) (padded_length p)
unfolding tf_req_done
tf_req_done-swap p = elim (parity p.length) [
  | inl even ↦ rw (even, add-zero, append-nil)
  | inr odd ↦ rw odd
]

-- The checksum over the command and the body.
abbrev pub checksum : TfPacket → ℕ
checksum p = crc16_ansi 0 (p.cmd ++ p.body)

module _ (p : TfPacket) (r : IsRequest p) where
  header_is : header_bytes p ≡ put_u16 p.length ++ (put_u16 (checksum p) ++ (p.cmd ++ p.body))
  unfolding header_bytes
  header_is =
      let e : p.length - 4 ≡ length (p.cmd ++ p.body) =
        omega (arith, r.sized, r.cmd_sized, length-append p.cmd p.body) in
      let all : take (p.length - 4) (p.cmd ++ p.body) ≡ p.cmd ++ p.body =
        ap (λ n. take n (p.cmd ++ p.body)) e ∙ take_all (p.cmd ++ p.body) in
      rw all

  header-IsBytes : IsBytes (header_bytes p)
  header-IsBytes = rw header_is (
      All-append IsByte (put_u16 p.length) _ (put_u16-IsBytes p.length) (
        All-append IsByte (put_u16 (checksum p)) _ (put_u16-IsBytes (checksum p))
          (All-append IsByte p.cmd p.body r.cmd_bytes r.body_bytes)))

  length-header : length (header_bytes p) ≡ p.length
  length-header = rw header_is (
      omega (
        arith,
        length-append (put_u16 p.length) (put_u16 (checksum p) ++ (p.cmd ++ p.body)),
        length-append (put_u16 (checksum p)) (p.cmd ++ p.body),
        length-append p.cmd p.body,
        length-put_u16 p.length,
        length-put_u16 (checksum p),
        r.sized,
        r.cmd_sized,
      ))

  length-padded : length (padded_bytes p) ≡ padded_length p
  length-padded = elim (parity p.length) [
    | inl even ↦ rw (even, append-nil) (omega (arith, length-header))
    | inr odd ↦ rw odd (omega (arith, length-header, length-append (header_bytes p) (0 ∷ [])))
  ]

  padded-IsBytes : IsBytes (padded_bytes p)
  padded-IsBytes = All-append IsByte (header_bytes p) _ header-IsBytes (ground arith)

  -- What comes in when a finished packet is sent back, with more bytes behind it.
  pub wire_swap :
      (junk : List ℕ) → tf_req_done p ++ junk ≡ byte_swap (padded_bytes p ++ junk) (padded_length p)
  wire_swap junk =
      rw (tf_req_done-swap p)
        (sym (byte_swap-append (padded_bytes p) junk (padded_length p) (sym length-padded)))

  pub length-tf_req_done : length (tf_req_done p) ≡ padded_length p
  length-tf_req_done =
      rw (tf_req_done-swap p) (length-byte_swap (padded_bytes p) (padded_length p) ∙ length-padded)

  -- Swapped back, the packet stands in memory order.
  pub wire_unswap :
      (junk : List ℕ) → byte_swap (tf_req_done p ++ junk) (padded_length p) ≡ padded_bytes p ++ junk
  wire_unswap junk =
      rw (wire_swap junk) (byte_swap-byte_swap (padded_bytes p ++ junk) (padded_length p))

  -- The parts of the packet in memory order.
  pub parts :
      (junk : List ℕ)
      → (pad : List ℕ) × (padded_bytes p ++ junk
          ≡ put_u16 p.length ++ (put_u16 (checksum p) ++ (p.cmd ++ (p.body ++ pad))))
        × (pad ≡ (if p.length % 2 == 1 then 0 ∷ [] else []) ++ junk)
  parts junk = (_, rw header_is (simp append_assoc), refl)

  -- The length that the raw load finds, and the parts that the swapped packet has.
  pub wire_length : (junk : List ℕ) → IsBytes junk → get_u16_raw (tf_req_done p ++ junk) ≡ p.length
  wire_length junk hj =
      rw
        (
          wire_swap junk,
          get_u16_raw-byte_swap (padded_bytes p ++ junk) (padded_length p)
              (All-append IsByte (padded_bytes p) junk padded-IsBytes hj)
              (omega (arith, length-append (padded_bytes p) junk, length-padded, r.sized))
              (omega (arith, r.sized)),
          (parts junk).1,
        )
        (get_u16-put_u16 p.length _ r.fits)
