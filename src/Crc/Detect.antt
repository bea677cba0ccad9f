-- ===== src/Crc/Detect.antt =====
-- crc16.c on messages that differ in one byte.
use libtopfield.Base.{
  ℕ, zero, suc, ◌*◌, ◌/◌, ◌%◌, ◌^◌, ◌<◌, ◌≤◌, ◌⊎◌, ◌≡◌, ◌≢◌, refl, sym, ◌∙◌, arith, List, [], ◌∷◌,
  ◌++◌, bit_xor, inl, inr,
}
use libtopfield.Base.Bits.Xor.{xor_comm, xor_assoc, xor-zero, xor_inj, xor-lt, xor_disjoint}
use libtopfield.Bytes.Arith.{IsBytes}
use libtopfield.Crc.{crc_round, crc16_ansi}
use libtopfield.Crc.Reference.{shift_bit, shift_bits, crc_round-shift_bits}

abbrev IsWord : ℕ → Type 0
IsWord x = x < 2 ^ 16

-- The top bit of a step tells whether the polynomial was subtracted.
top_bit : (h : ℕ) → h < 2 ^ 15 → 2 ^ 15 ≤ bit_xor h 0xa001
top_bit h lt = omega (
  arith,
  xor_assoc h 0x2001 (1 * 2 ^ 15),
  xor_disjoint 15 1 (bit_xor h 0x2001) (xor-lt 15 h 0x2001 lt (omega arith)),
)

parity : (x : ℕ) → (x % 2 ≡ 0) ⊎ (x % 2 ≡ 1)
parity x = omega arith

shift_even : (x : ℕ) → x % 2 ≡ 0 → shift_bit x ≡ x / 2
shift_even x e = rw e (xor-zero (x / 2))

shift_odd : (x : ℕ) → x % 2 ≡ 1 → shift_bit x ≡ bit_xor (x / 2) 0xa001
shift_odd x e = rw e

shift_bit-lt : (x : ℕ) → IsWord x → IsWord (shift_bit x)
shift_bit-lt x h = xor-lt 16 (x / 2) _ (omega arith) (ground arith)

shift_bit_inj : (x y : ℕ) → IsWord x → IsWord y → shift_bit x ≡ shift_bit y → x ≡ y
shift_bit_inj x y hx hy e = elim (parity x) [
  | inl ex ↦ elim (parity y) [
    | inl ey ↦ omega (arith, shift_even x ex, shift_even y ey)
    | inr oy ↦
        absurd (omega (arith, shift_even x ex, shift_odd y oy, top_bit (y / 2) (omega arith)))
  ]
  | inr ox ↦ elim (parity y) [
    | inl ey ↦
        absurd (omega (arith, shift_odd x ox, shift_even y ey, top_bit (x / 2) (omega arith)))
    | inr oy ↦
        omega (arith, xor_inj (x / 2) (y / 2) 0xa001 (sym (shift_odd x ox) ∙ e ∙ shift_odd y oy))
  ]
]

shift_bits_inj : (k x y : ℕ) → IsWord x → IsWord y → shift_bits k x ≡ shift_bits k y → x ≡ y
shift_bits_inj zero x y hx hy e = e
shift_bits_inj (suc k) x y hx hy e =
    shift_bit_inj x y hx hy
      (shift_bits_inj k (shift_bit x) (shift_bit y) (shift_bit-lt x hx) (shift_bit-lt y hy) e)

shift_bits-lt : (k x : ℕ) → IsWord x → IsWord (shift_bits k x)
shift_bits-lt zero x h = h
shift_bits-lt (suc k) x h = shift_bits-lt k (shift_bit x) (shift_bit-lt x h)

crc_round-lt : (crc d : ℕ) → IsWord crc → d < 256 → IsWord (crc_round crc d)
crc_round-lt crc d hc hd =
    rw (crc_round-shift_bits crc d hd) (shift_bits-lt 8 _ (xor-lt 16 crc d hc (omega arith)))

-- The checksum fits its 16-bit field.
pub crc16_ansi-lt :
    (crc : ℕ) (bytes : List ℕ) → crc < 2 ^ 16 → IsBytes bytes → crc16_ansi crc bytes < 2 ^ 16
unfolding crc16_ansi
crc16_ansi-lt crc [] hc h = hc
crc16_ansi-lt crc (d ∷ bytes) hc h =
    crc16_ansi-lt (crc_round crc d) bytes (crc_round-lt crc d hc h.0) h.1

-- Messages are checked piece by piece.
pub crc16_ansi-append :
    (crc : ℕ) (xs ys : List ℕ) → crc16_ansi crc (xs ++ ys) ≡ crc16_ansi (crc16_ansi crc xs) ys
unfolding crc16_ansi
crc16_ansi-append crc [] ys = refl
crc16_ansi-append crc (d ∷ xs) ys = crc16_ansi-append (crc_round crc d) xs ys

crc_round_inj :
    (c c' d d' : ℕ)
    → IsWord c
    → IsWord c'
    → d < 256
    → d' < 256
    → crc_round c d ≡ crc_round c' d'
    → bit_xor c d ≡ bit_xor c' d'
crc_round_inj c c' d d' hc hc' hd hd' e =
    shift_bits_inj 8 (bit_xor c d) (bit_xor c' d') (xor-lt 16 c d hc (omega arith))
      (xor-lt 16 c' d' hc' (omega arith))
      (sym (crc_round-shift_bits c d hd) ∙ e ∙ crc_round-shift_bits c' d' hd')

-- Over the same bytes, different starting values stay different.
crc16_ansi_inj :
    (ys : List ℕ) (c c' : ℕ)
    → IsWord c
    → IsWord c'
    → IsBytes ys
    → crc16_ansi c ys ≡ crc16_ansi c' ys
    → c ≡ c'
unfolding crc16_ansi
crc16_ansi_inj [] c c' hc hc' h e = e
crc16_ansi_inj (d ∷ ys) c c' hc hc' h e = xor_inj c c' d (
    crc_round_inj c c' d d hc hc' h.0 h.0 (
      crc16_ansi_inj ys (crc_round c d) (crc_round c' d) (crc_round-lt c d hc h.0)
        (crc_round-lt c' d hc' h.0) h.1 e))

-- Where two messages differ in one byte at most, equal checksums mean equal bytes.
crc16_ansi_same :
    (crc : ℕ) (xs ys : List ℕ) (d d' : ℕ)
    → crc < 2 ^ 16
    → IsBytes (xs ++ d ∷ ys)
    → d' < 256
    → crc16_ansi crc (xs ++ d ∷ ys) ≡ crc16_ansi crc (xs ++ d' ∷ ys)
    → d ≡ d'
unfolding crc16_ansi
crc16_ansi_same crc [] ys d d' hc h hd' e = xor_inj d d' crc (
    xor_comm d crc
    ∙ crc_round_inj crc crc d d' hc hc h.0 hd' (
        crc16_ansi_inj ys (crc_round crc d) (crc_round crc d') (crc_round-lt crc d hc h.0)
          (crc_round-lt crc d' hc hd') h.1 e)
    ∙ xor_comm crc d')
crc16_ansi_same crc (x ∷ xs) ys d d' hc h hd' e =
    crc16_ansi_same (crc_round crc x) xs ys d d' (crc_round-lt crc x hc h.0) h.1 hd' e

-- A message in which one byte was changed to another one has another checksum, wherever the byte
-- stands and whatever the starting value.
pub crc16_ansi_detects :
    (crc : ℕ) (xs ys : List ℕ) (d d' : ℕ)
    → crc < 2 ^ 16
    → IsBytes (xs ++ d ∷ ys)
    → d' < 256
    → d ≢ d'
    → crc16_ansi crc (xs ++ d ∷ ys) ≢ crc16_ansi crc (xs ++ d' ∷ ys)
crc16_ansi_detects crc xs ys d d' hc h hd' differ e =
    differ (crc16_ansi_same crc xs ys d d' hc h hd' e)
