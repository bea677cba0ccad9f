-- ===== src/Fw/Checksum.antt =====
-- The checksum of the bootloader's packets (tf_fwio.c).
use libtopfield.Base.{ℕ, ◌+◌, ◌%◌, ◌<◌, ◌≡◌, arith, List, [], ◌∷◌}
use libtopfield.Base.Bits.{u8}
use libtopfield.Fw.{sum_bytes, calc_checksum}

-- The plain sum of the bytes.
unfoldable pub total : List ℕ → ℕ
total [] = 0
total (b ∷ buf) = b + total buf

sum_bytes-total : (sum : ℕ) (buf : List ℕ) → sum < 256 → sum_bytes sum buf ≡ (sum + total buf) % 256
unfolding sum_bytes total
sum_bytes-total sum [] h = omega (arith, h)
sum_bytes-total sum (b ∷ buf) h = omega (arith, sum_bytes-total (u8 (sum + b)) buf (omega arith))

-- `calc_checksum` of a buffer is the sum of its bytes modulo 256.
pub calc_checksum-total : (buf : List ℕ) → calc_checksum buf ≡ total buf % 256
unfolding calc_checksum
calc_checksum-total buf = omega (arith, sum_bytes-total 0 buf (omega arith))
