-- ===== src/Crc/Reference.antt =====
-- The table of crc16.c against the definition of CRC-16, one bit at a time with the polynomial
-- 0x8005 reflected.
use libtopfield.Base.{
  ℕ, zero, suc, ◌+◌, ◌*◌, ◌/◌, ◌%◌, ◌^◌, ◌<◌, ◌≡◌, refl, ap, sym, ◌∙◌, arith, List, [], ◌∷◌, get_or,
  bit_and, bit_xor, true, ◌==◌, ==_iff, if◌then◌else◌,
}
use native.Mathlib.Nat.{pow-suc}
use libtopfield.Base.Bits.{holds_below, holds_below_sound, bit_and_mod}
use libtopfield.Base.Bits.Xor.{xor_comm, xor_assoc, xor-lt, xor_disjoint, xor_parts}
use libtopfield.Bytes.Arith.{IsBytes}
use libtopfield.Crc.{crc_16_table, crc_round, crc16_ansi}

-- One bit of the division: shift out the lowest bit, and subtract the polynomial if it was 1.
abbrev pub shift_bit : ℕ → ℕ
shift_bit x = bit_xor (x / 2) (if x % 2 == 0 then 0 else 0xa001)

abbrev pub shift_bits : ℕ → ℕ → ℕ
shift_bits zero x = x
shift_bits (suc n) x = shift_bits n (shift_bit x)

-- The CRC as a division of the message, bit by bit.
pub crc_bitwise : ℕ → List ℕ → ℕ
crc_bitwise crc [] = crc
crc_bitwise crc (d ∷ bytes) = crc_bitwise (shift_bits 8 (bit_xor crc d)) bytes

table_check : holds_below 256 (λ x. get_or crc_16_table x 0 == shift_bits 8 x) ≡ true
unfolding holds_below
table_check = refl

-- Every entry of the table is eight steps of its index.
table_entry : (x : ℕ) → x < 256 → get_or crc_16_table x 0 ≡ shift_bits 8 x
table_entry x h = (==_iff _ (shift_bits 8 x)).0 (holds_below_sound 256 _ x table_check h)

-- A shifted-up part only moves down by one place.
shift_bit-xor : (a h : ℕ) → shift_bit (bit_xor a (h * 2)) ≡ bit_xor (shift_bit a) h
shift_bit-xor a h =
    let half : bit_xor a (h * 2) / 2 ≡ bit_xor (a / 2) h =
      (xor_parts a (h * 2)).0 ∙ ap (bit_xor (a / 2)) (omega arith) in
    let odd : bit_xor a (h * 2) % 2 ≡ a % 2 = omega (arith, xor_parts a (h * 2)) in
    rw (half, odd)
      (xor_assoc (a / 2) h _ ∙ ap (bit_xor (a / 2)) (xor_comm h _) ∙ sym (xor_assoc (a / 2) _ h))

shift_bits-xor : (k a h : ℕ) → shift_bits k (bit_xor a (h * 2 ^ k)) ≡ bit_xor (shift_bits k a) h
shift_bits-xor zero a h = ap (bit_xor a) (omega arith)
shift_bits-xor (suc k) a h =
    let e : h * 2 ^ suc k ≡ h * 2 ^ k * 2 = omega (arith, ap (λ (t : ℕ). h * t) (pow-suc 2 k)) in
    rw (e, shift_bit-xor a (h * 2 ^ k)) (shift_bits-xor k (shift_bit a) h)

-- `crc ^ d` changes the low byte of `crc` only.
xor_low : (crc d : ℕ) → bit_xor crc d ≡ bit_xor (bit_xor (crc % 256) d) (crc / 256 * 2 ^ 8)
xor_low crc d =
    let split : crc ≡ bit_xor (crc % 256) (crc / 256 * 2 ^ 8) =
      omega (arith, xor_disjoint 8 (crc / 256) (crc % 256) (omega arith)) in
    ap (λ (t : ℕ). bit_xor t d) split
    ∙ xor_assoc (crc % 256) _ d
    ∙ ap (bit_xor (crc % 256)) (xor_comm (crc / 256 * 2 ^ 8) d)
    ∙ sym (xor_assoc (crc % 256) d _)

-- A table round is eight single-bit rounds.
pub crc_round-shift_bits : (crc d : ℕ) → d < 256 → crc_round crc d ≡ shift_bits 8 (bit_xor crc d)
unfolding crc_round
crc_round-shift_bits crc d hd =
    let lo = bit_xor (crc % 256) d in
    let lo_lt : lo < 256 = xor-lt 8 (crc % 256) d (omega arith) hd in
    let sum : bit_xor crc d ≡ lo + crc / 256 * 256 =
      xor_low crc d ∙ xor_disjoint 8 (crc / 256) lo lo_lt in
    let index : bit_and (bit_xor crc d) 0xff ≡ lo = omega (arith, bit_and_mod 8 (bit_xor crc d)) in
    rw (index, table_entry lo lo_lt, xor_low crc d) (sym (shift_bits-xor 8 lo (crc / 256)))

-- On bytes, the routine computes the CRC of the definition, from every starting value.
pub crc16_ansi-crc_bitwise :
    (crc : ℕ) (bytes : List ℕ) → IsBytes bytes → crc16_ansi crc bytes ≡ crc_bitwise crc bytes
unfolding crc16_ansi crc_bitwise
crc16_ansi-crc_bitwise crc [] h = refl
crc16_ansi-crc_bitwise crc (d ∷ bytes) h =
    rw (crc_round-shift_bits crc d h.0)
      (crc16_ansi-crc_bitwise (shift_bits 8 (bit_xor crc d)) bytes h.1)
