-- ===== src/Bytes.antt =====
-- tf_bytes.c: numbers in a packet's bytes, most significant byte first, and the swap of
-- neighbouring bytes before a transfer. A pointer into a buffer is the list of bytes from there
-- on; a byte past the end of the list reads as 0.
pub mod Arith
pub mod Codec
pub mod Swap
use libtopfield.Base.{
  ℕ, zero, suc, ◌+◌, ◌/◌, List, [], ◌∷◌, get_or, set, bit_and, bit_or, ◌==◌, if◌then◌else◌,
}
use libtopfield.Base.Bits.{◌<<◌, ◌>>◌, u8, u16, u32, u64}

-- `b[i]`
abbrev pub at : List ℕ → ℕ → ℕ
at b i = get_or b i 0

unfoldable pub get_u16 : List ℕ → ℕ
get_u16 b = u16 (bit_or (bit_and (at b 0 << 8) 0xff00) (bit_and (at b 1 << 0) 0x00ff))

-- The bytes that are stored at the address.
unfoldable pub put_u16 : ℕ → List ℕ
put_u16 val = bit_and (val >> 8) 0xff ∷ bit_and val 0xff ∷ []

unfoldable pub get_u24 : List ℕ → ℕ
get_u24 b = u32 (bit_or (bit_or (at b 0 << 16) (at b 1 << 8)) (at b 2))

unfoldable pub get_u32 : List ℕ → ℕ
get_u32 b = u32 (bit_or (bit_or (bit_or (at b 0 << 24) (at b 1 << 16)) (at b 2 << 8)) (at b 3))

unfoldable pub get_u32_raw : List ℕ → ℕ
get_u32_raw b = u32 (bit_or (bit_or (bit_or (at b 1 << 24) (at b 0 << 16)) (at b 3 << 8)) (at b 2))

unfoldable pub get_u16_raw : List ℕ → ℕ
get_u16_raw b = u16 (bit_or (bit_and (at b 1 << 8) 0xff00) (bit_and (at b 0 << 0) 0x00ff))

unfoldable pub put_u32 : ℕ → List ℕ
put_u32 val =
    bit_and (val >> 24) 0xff
    ∷ bit_and (val >> 16) 0xff
    ∷ bit_and (val >> 8) 0xff
    ∷ bit_and val 0xff
    ∷ []

-- `r = (r << 8) | b`
unfoldable pub push_byte : ℕ → ℕ → ℕ
push_byte r b = bit_or (u64 (r << 8)) b

unfoldable pub get_u64 : List ℕ → ℕ
get_u64 b =
    let r0 = at b 0 in
    let r1 = push_byte r0 (at b 1) in
    let r2 = push_byte r1 (at b 2) in
    let r3 = push_byte r2 (at b 3) in
    let r4 = push_byte r3 (at b 4) in
    let r5 = push_byte r4 (at b 5) in let r6 = push_byte r5 (at b 6) in push_byte r6 (at b 7)

unfoldable pub put_u64 : ℕ → List ℕ
put_u64 val =
    bit_and (val >> 56) 0xff
    ∷ bit_and (val >> 48) 0xff
    ∷ bit_and (val >> 40) 0xff
    ∷ bit_and (val >> 32) 0xff
    ∷ bit_and (val >> 24) 0xff
    ∷ bit_and (val >> 16) 0xff
    ∷ bit_and (val >> 8) 0xff
    ∷ bit_and val 0xff
    ∷ []

-- `swab` of the C library, in place: swaps bytes 0 and 1, 2 and 3, and so on through the first
-- `count` bytes; the last byte of an odd count stays.
unfoldable pub byte_swap : List ℕ → ℕ → List ℕ
byte_swap d zero = d
byte_swap d (suc zero) = d
byte_swap [] (suc (suc count)) = []
byte_swap (a ∷ []) (suc (suc count)) = a ∷ []
byte_swap (a ∷ b ∷ d) (suc (suc count)) = b ∷ a ∷ byte_swap d count

-- The loop of the NO_SWAB build at index `i`, with `n` rounds to go.
unfoldable pub swap_rounds : ℕ → ℕ → List ℕ → List ℕ
swap_rounds zero i d = d
swap_rounds (suc n) i d =
    let t = at d i in swap_rounds n (i + 2) (set (set d i (at d (i + 1))) (i + 1) t)

unfoldable pub byte_swap_manual : List ℕ → ℕ → List ℕ
byte_swap_manual packet count = swap_rounds ((count + 1) / 2) 0 packet

-- The string that stands at an address: the bytes before the first zero byte.
unfoldable pub c_string : List ℕ → List ℕ
c_string [] = []
c_string (c ∷ bytes) = if c == 0 then [] else c ∷ c_string bytes
