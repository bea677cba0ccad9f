-- ===== src/Fw/Wire.antt =====
-- A bootloader packet as it is sent (tf_fwio.c): its bytes, and the number of bytes of its transfer.
use libtopfield.Base.{
  ℕ, ◌+◌, ◌-◌, ◌/◌, ◌%◌, ◌≤◌, ◌≡◌, ◌≢◌, ◌⊎◌, refl, arith, List, [], ◌∷◌, ◌++◌, length,
  length-append,
}
use libtopfield.Bytes.Arith.{put_u16_bytes}
use libtopfield.Fw.{FwPacket, fw_pad, fw_req_done, summed_bytes}
use libtopfield.Fw.Checksum.{total, calc_checksum-total}

-- Sequence number, command and length, the high byte first, and the data.
abbrev pub fields : ℕ → ℕ → List ℕ → List ℕ
fields seq cmd payload = seq ∷ cmd ∷ length payload / 256 % 256 ∷ length payload % 256 ∷ payload

-- The letters ToFi, the fields and the sum of their bytes.
abbrev pub wire_of : ℕ → ℕ → List ℕ → List ℕ
wire_of seq cmd payload =
    0x54
    ∷ 0x6f
    ∷ 0x46
    ∷ 0x69
    ∷ (fields seq cmd payload ++ total (fields seq cmd payload) % 256 ∷ [])

pub fw_req_done-wire_of : (req : FwPacket) → fw_req_done req ≡ wire_of req.seq req.cmd req.payload
unfolding fw_req_done summed_bytes
fw_req_done-wire_of req =
    rw
      (put_u16_bytes (length req.payload), calc_checksum-total (fields req.seq req.cmd req.payload))
      refl

pub length-wire_of :
    (seq cmd : ℕ) (payload : List ℕ) → length (wire_of seq cmd payload) ≡ 9 + length payload
length-wire_of seq cmd payload =
    omega (arith, length-append payload (total (fields seq cmd payload) % 256 ∷ []))

-- The number of bytes that a packet of `len` bytes is sent with: it is even, not less than `len` and
-- at most three more, and no multiple of 512 but 0x4000. Two bytes more than the next even number
-- are only sent where that is such a multiple.
pub record IsPadded (len n : ℕ) : Type 0 where
  pub even : n % 2 ≡ 0
  pub enough : len ≤ n
  pub few : n ≤ len + 3
  pub size : (n % 0x200 ≢ 0) ⊎ (n ≡ 0x4000)
  pub needed : (n ≤ len + 1) ⊎ (((n - 2) % 0x200 ≡ 0) × (n ≢ 0x4002))

pub fw_pad-IsPadded : (len : ℕ) → IsPadded len (len + fw_pad len)
unfolding fw_pad
fw_pad-IsPadded len = record {
  even = ground arith;
  enough = omega arith;
  few = ground arith;
  size = ground arith;
  needed = ground arith;
}

pub IsPadded-unique : (len m n : ℕ) → IsPadded len m → IsPadded len n → m ≡ n
IsPadded-unique len m n a b =
    ground
      (arith, a.even, a.enough, a.few, a.size, a.needed, b.even, b.enough, b.few, b.size, b.needed)
