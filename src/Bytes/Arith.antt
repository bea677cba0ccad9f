-- ===== src/Bytes/Arith.antt =====
-- What the loads and stores of tf_bytes.c compute, as sums and remainders.
use libtopfield.Base.{
  ℕ, zero, suc, ◌+◌, ◌*◌, ◌/◌, ◌%◌, ◌^◌, ◌<◌, ◌≡◌, refl, arith, List, [], ◌∷◌, bit_and, bit_or,
  true, All, ◌==◌, ==_iff,
}
use libtopfield.Base.Bits.{bit_or_sum, bit_and_mod, holds_below, holds_below_sound}
use libtopfield.Bytes.{
  at, get_u16, get_u24, put_u16, get_u32, get_u16_raw, get_u32_raw, put_u32, push_byte, get_u64,
  put_u64,
}

abbrev pub IsByte : ℕ → Type 0
IsByte b = b < 256

abbrev pub IsBytes : List ℕ → Type 0
IsBytes bs = All IsByte bs

-- `& 0xff`
pub low_byte : (a : ℕ) → bit_and a 0xff ≡ a % 256
low_byte a = bit_and_mod 8 a

high_table : holds_below 256 (λ x. bit_and (x * 256) 0xff00 == x * 256) ≡ true
unfolding holds_below
high_table = refl

high_byte : (x : ℕ) → x < 256 → bit_and (x * 256) 0xff00 ≡ x * 256
high_byte x h = (==_iff _ (x * 256)).0 (holds_below_sound 256 _ x high_table h)

word_sum :
    (a b : ℕ)
    → a < 256
    → b < 256
    → bit_or (bit_and (a * 256) 0xff00) (bit_and (b * 1) 0xff) ≡ a * 256 + b
word_sum a b ha hb =
    rw (high_byte a ha, low_byte (b * 1))
      (omega (arith, bit_or_sum 8 a (b * 1 % 256) (omega arith)))

module _ (b : List ℕ) (bytes : IsBytes b) where
  at-lt : (i : ℕ) → at b i < 256
  at-lt = go b bytes
    where
      go : (bs : List ℕ) → IsBytes bs → (i : ℕ) → at bs i < 256
      go [] h i = omega arith
      go (x ∷ bs) h zero = h.0
      go (x ∷ bs) h (suc i) = go bs h.1 i

  pub get_u16_sum : get_u16 b ≡ at b 0 * 256 + at b 1
  unfolding get_u16
  get_u16_sum =
      rw (word_sum (at b 0) (at b 1) (at-lt 0) (at-lt 1)) (omega (arith, at-lt 0, at-lt 1))

  pub get_u16_raw_sum : get_u16_raw b ≡ at b 1 * 256 + at b 0
  unfolding get_u16_raw
  get_u16_raw_sum =
      rw (word_sum (at b 1) (at b 0) (at-lt 1) (at-lt 0)) (omega (arith, at-lt 0, at-lt 1))

or_fields :
    (w x y z : ℕ)
    → x < 256
    → y < 256
    → z < 256
    → bit_or (bit_or (bit_or (w * 2 ^ 24) (x * 2 ^ 16)) (y * 2 ^ 8)) z
      ≡ w * 2 ^ 24 + x * 2 ^ 16 + y * 2 ^ 8 + z
or_fields w x y z hx hy hz =
    let e1 : bit_or (w * 2 ^ 24) (x * 2 ^ 16) ≡ (w * 256 + x) * 2 ^ 16 =
      omega (arith, bit_or_sum 24 w (x * 2 ^ 16) (omega arith)) in
    let e2 : bit_or ((w * 256 + x) * 2 ^ 16) (y * 2 ^ 8) ≡ ((w * 256 + x) * 256 + y) * 2 ^ 8 =
      omega (arith, bit_or_sum 16 (w * 256 + x) (y * 2 ^ 8) (omega arith)) in
    rw (e1, e2) (omega (arith, bit_or_sum 8 ((w * 256 + x) * 256 + y) z (omega arith)))

module _ (b : List ℕ) (bytes : IsBytes b) where
  pub get_u32_sum : get_u32 b ≡ at b 0 * 2 ^ 24 + at b 1 * 2 ^ 16 + at b 2 * 2 ^ 8 + at b 3
  unfolding get_u32
  get_u32_sum =
      rw
        (or_fields (at b 0) (at b 1) (at b 2) (at b 3) (at-lt b bytes 1) (at-lt b bytes 2)
          (at-lt b bytes 3))
        (omega (arith, at-lt b bytes 0, at-lt b bytes 1, at-lt b bytes 2, at-lt b bytes 3))

  pub get_u32_raw_sum : get_u32_raw b ≡ at b 1 * 2 ^ 24 + at b 0 * 2 ^ 16 + at b 3 * 2 ^ 8 + at b 2
  unfolding get_u32_raw
  get_u32_raw_sum =
      rw
        (or_fields (at b 1) (at b 0) (at b 3) (at b 2) (at-lt b bytes 0) (at-lt b bytes 3)
          (at-lt b bytes 2))
        (omega (arith, at-lt b bytes 0, at-lt b bytes 1, at-lt b bytes 2, at-lt b bytes 3))

pub get_u24_sum :
    (x y z : ℕ) → x < 256 → y < 256 → z < 256 → get_u24 (x ∷ y ∷ z ∷ []) ≡ x * 65536 + y * 256 + z
unfolding get_u24
get_u24_sum x y z hx hy hz =
    let e : bit_or (x * 2 ^ 16) (y * 2 ^ 8) ≡ (x * 256 + y) * 2 ^ 8 =
      omega (arith, bit_or_sum 16 x (y * 2 ^ 8) (omega arith)) in
    rw e (omega (arith, bit_or_sum 8 (x * 256 + y) z (omega arith)))

-- A value of fewer than eight bytes takes in one more byte.
pub push_byte_sum : (r x : ℕ) → r < 2 ^ 56 → x < 256 → push_byte r x ≡ r * 256 + x
unfolding push_byte
push_byte_sum r x hr hx =
    let e : r * 2 ^ 8 % 2 ^ 64 ≡ r * 2 ^ 8 = omega arith in rw e (bit_or_sum 8 r x hx)

pub put_u16_bytes : (v : ℕ) → put_u16 v ≡ v / 256 % 256 ∷ v % 256 ∷ []
unfolding put_u16
put_u16_bytes v = rw (low_byte (v / 256), low_byte v)

pub put_u32_bytes :
    (v : ℕ) → put_u32 v ≡ v / 2 ^ 24 % 256 ∷ v / 2 ^ 16 % 256 ∷ v / 256 % 256 ∷ v % 256 ∷ []
unfolding put_u32
put_u32_bytes v = rw (low_byte (v / 2 ^ 24), low_byte (v / 2 ^ 16), low_byte (v / 256), low_byte v)

-- Eight bytes, most significant first.
abbrev pub word64 : ℕ → ℕ → ℕ → ℕ → ℕ → ℕ → ℕ → ℕ → ℕ
word64 a b c d e f g h =
    a * 2 ^ 56 + b * 2 ^ 48 + c * 2 ^ 40 + d * 2 ^ 32 + e * 2 ^ 24 + f * 2 ^ 16 + g * 2 ^ 8 + h

pub get_u64_sum :
    (a b c d e f g h : ℕ) (rest : List ℕ)
    → IsBytes (a ∷ b ∷ c ∷ d ∷ e ∷ f ∷ g ∷ h ∷ [])
    → get_u64 (a ∷ b ∷ c ∷ d ∷ e ∷ f ∷ g ∷ h ∷ rest) ≡ word64 a b c d e f g h
unfolding get_u64
get_u64_sum a b c d e f g h rest bytes =
    rw
      (
        push_byte_sum a b (omega arith) (omega arith),
        push_byte_sum (a * 256 + b) c (omega arith) (omega arith),
        push_byte_sum ((a * 256 + b) * 256 + c) d (omega arith) (omega arith),
        push_byte_sum (((a * 256 + b) * 256 + c) * 256 + d) e (omega arith) (omega arith),
        push_byte_sum ((((a * 256 + b) * 256 + c) * 256 + d) * 256 + e) f (omega arith)
            (omega arith),
        push_byte_sum (((((a * 256 + b) * 256 + c) * 256 + d) * 256 + e) * 256 + f) g (omega arith)
            (omega arith),
        push_byte_sum ((((((a * 256 + b) * 256 + c) * 256 + d) * 256 + e) * 256 + f) * 256 + g) h
            (omega arith) (omega arith),
      )
      (omega arith)

pub put_u64_bytes :
    (v : ℕ)
    → put_u64 v
      ≡ v / 2 ^ 56 % 256
        ∷ v / 2 ^ 48 % 256
        ∷ v / 2 ^ 40 % 256
        ∷ v / 2 ^ 32 % 256
        ∷ v / 2 ^ 24 % 256
        ∷ v / 2 ^ 16 % 256
        ∷ v / 256 % 256
        ∷ v % 256
        ∷ []
unfolding put_u64
put_u64_bytes v = simp low_byte
