-- ===== src/Bytes/Codec.antt =====
-- The stores of tf_bytes.c followed by its loads.
use libtopfield.Base.{
  ℕ, ◌/◌, ◌%◌, ◌^◌, ◌<◌, ◌≤◌, ◌≡◌, refl, sym, ◌∙◌, arith, List, [], ◌∷◌, ◌++◌, length,
}
use libtopfield.Bytes.{get_u16, put_u16, get_u32, put_u32, get_u64, put_u64}
use libtopfield.Bytes.Arith.{
  IsBytes, get_u16_sum, get_u32_sum, get_u64_sum, put_u16_bytes, put_u32_bytes, put_u64_bytes,
}

-- What a store leaves, bytes in order and each a byte.
pub put_u16-IsBytes : (v : ℕ) → IsBytes (put_u16 v)
put_u16-IsBytes v = rw (put_u16_bytes v) (omega arith)

pub put_u32-IsBytes : (v : ℕ) → IsBytes (put_u32 v)
put_u32-IsBytes v = rw (put_u32_bytes v) (omega arith)

pub put_u64-IsBytes : (v : ℕ) → IsBytes (put_u64 v)
put_u64-IsBytes v = rw (put_u64_bytes v) (omega arith)

-- A load looks at no byte behind the number.
get_u16_front : (a b : ℕ) (rest : List ℕ) → get_u16 (a ∷ b ∷ rest) ≡ get_u16 (a ∷ b ∷ [])
unfolding get_u16
get_u16_front a b rest = refl

get_u32_front :
    (a b c d : ℕ) (rest : List ℕ) → get_u32 (a ∷ b ∷ c ∷ d ∷ rest) ≡ get_u32 (a ∷ b ∷ c ∷ d ∷ [])
unfolding get_u32
get_u32_front a b c d rest = refl

pub get_u32-append : (xs rest : List ℕ) → 4 ≤ length xs → get_u32 (xs ++ rest) ≡ get_u32 xs
get_u32-append (a ∷ b ∷ c ∷ d ∷ xs) rest h =
    get_u32_front a b c d (xs ++ rest) ∙ sym (get_u32_front a b c d xs)
get_u32-append xs rest h = absurd (omega arith)

-- A load from where a 16-bit value was stored, with whatever bytes behind it.
pub get_u16-put_u16 : (v : ℕ) (rest : List ℕ) → v < 2 ^ 16 → get_u16 (put_u16 v ++ rest) ≡ v
get_u16-put_u16 v rest h =
    rw (put_u16_bytes v, get_u16_front (v / 256 % 256) (v % 256) rest)
      (omega (arith, get_u16_sum (v / 256 % 256 ∷ v % 256 ∷ []) (omega arith)))

pub get_u32-put_u32 : (v : ℕ) (rest : List ℕ) → v < 2 ^ 32 → get_u32 (put_u32 v ++ rest) ≡ v
get_u32-put_u32 v rest h =
    let a = v / 2 ^ 24 % 256 in
    let b = v / 2 ^ 16 % 256 in
    let c = v / 256 % 256 in
    let d = v % 256 in
    rw (put_u32_bytes v, get_u32_front a b c d rest)
      (omega (arith, get_u32_sum (a ∷ b ∷ c ∷ d ∷ []) (omega arith)))

-- The same for 64 bits.
pub get_u64-put_u64 : (v : ℕ) (rest : List ℕ) → v < 2 ^ 64 → get_u64 (put_u64 v ++ rest) ≡ v
get_u64-put_u64 v rest h = rw (put_u64_bytes v) (
    get_u64_sum (v / 2 ^ 56 % 256) (v / 2 ^ 48 % 256) (v / 2 ^ 40 % 256) (v / 2 ^ 32 % 256)
      (v / 2 ^ 24 % 256) (v / 2 ^ 16 % 256) (v / 256 % 256) (v % 256) rest (omega arith)
    ∙ omega arith)

pub length-put_u16 : (v : ℕ) → length (put_u16 v) ≡ 2
unfolding put_u16
length-put_u16 v = refl

pub length-put_u32 : (v : ℕ) → length (put_u32 v) ≡ 4
unfolding put_u32
length-put_u32 v = refl

pub length-put_u64 : (v : ℕ) → length (put_u64 v) ≡ 8
unfolding put_u64
length-put_u64 v = refl
