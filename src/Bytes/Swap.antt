-- ===== src/Bytes/Swap.antt =====
-- byte_swap of tf_bytes.c in both builds, and the raw loads from a swapped packet.

use libtopfield.Base.{
  ℕ, zero, suc, ◌+◌, ◌*◌, ◌/◌, ◌%◌, ◌≤◌, ◌≡◌, refl, ap, ◌∙◌, arith, List, [], ◌∷◌, ◌++◌, length,
  set,
}
use libtopfield.Bytes.{
  at, get_u16, get_u32, get_u16_raw, get_u32_raw, byte_swap, swap_rounds, byte_swap_manual,
}
use libtopfield.Bytes.Arith.{IsBytes, get_u16_sum, get_u16_raw_sum, get_u32_sum, get_u32_raw_sum}

-- Swapping the same stretch twice gives the bytes back, whatever the count.
pub byte_swap-byte_swap : (d : List ℕ) (n : ℕ) → byte_swap (byte_swap d n) n ≡ d
unfolding byte_swap
byte_swap-byte_swap d zero = refl
byte_swap-byte_swap d (suc zero) = refl
byte_swap-byte_swap [] (suc (suc n)) = refl
byte_swap-byte_swap (a ∷ []) (suc (suc n)) = refl
byte_swap-byte_swap (a ∷ b ∷ d) (suc (suc n)) = ap (λ t. a ∷ b ∷ t) (byte_swap-byte_swap d n)

pub length-byte_swap : (d : List ℕ) (n : ℕ) → length (byte_swap d n) ≡ length d
unfolding byte_swap
length-byte_swap d zero = refl
length-byte_swap d (suc zero) = refl
length-byte_swap [] (suc (suc n)) = refl
length-byte_swap (a ∷ []) (suc (suc n)) = refl
length-byte_swap (a ∷ b ∷ d) (suc (suc n)) = ap (λ t. suc (suc t)) (length-byte_swap d n)

pub byte_swap-IsBytes : (d : List ℕ) (n : ℕ) → IsBytes d → IsBytes (byte_swap d n)
unfolding byte_swap
byte_swap-IsBytes d zero h = h
byte_swap-IsBytes d (suc zero) h = h
byte_swap-IsBytes [] (suc (suc n)) h = h
byte_swap-IsBytes (a ∷ []) (suc (suc n)) h = h
byte_swap-IsBytes (a ∷ b ∷ d) (suc (suc n)) h = (h.1.0, (h.0, byte_swap-IsBytes d n h.1.1))

-- Bytes past the count stay, and the swapped stretch does not depend on them.
pub byte_swap-append :
    (d e : List ℕ) (n : ℕ) → n ≡ length d → byte_swap (d ++ e) n ≡ byte_swap d n ++ e
unfolding byte_swap
byte_swap-append d e zero h = refl
byte_swap-append d e (suc zero) h = refl
byte_swap-append [] e (suc (suc n)) h = absurd (omega arith)
byte_swap-append (a ∷ []) e (suc (suc n)) h = absurd (omega arith)
byte_swap-append (a ∷ b ∷ d) e (suc (suc n)) h =
    ap (λ t. b ∷ a ∷ t) (byte_swap-append d e n (omega arith))

-- The raw loads read from a swapped buffer what the plain loads read from the buffer itself, once
-- the swapped stretch covers the number: its length, its command, at whatever even offset.
pub raw-byte_swap :
    (a b c d : ℕ) (rest : List ℕ) (n : ℕ)
    → IsBytes (a ∷ b ∷ c ∷ d ∷ rest)
    → let packet = a ∷ b ∷ c ∷ d ∷ rest in
      (get_u16_raw (byte_swap packet (suc (suc (suc (suc n))))) ≡ get_u16 packet)
      × (get_u32_raw (byte_swap packet (suc (suc (suc (suc n))))) ≡ get_u32 packet)
unfolding byte_swap
raw-byte_swap a b c d rest n h =
    let p : List ℕ = a ∷ b ∷ c ∷ d ∷ rest in
    let s : List ℕ = b ∷ a ∷ d ∷ c ∷ byte_swap rest n in
    let hs : IsBytes s =
      (h.1.0, (h.0, (h.1.1.1.0, (h.1.1.0, byte_swap-IsBytes rest n h.1.1.1.1)))) in
    (
      omega (arith, get_u16_raw_sum s hs, get_u16_sum p h),
      omega (arith, get_u32_raw_sum s hs, get_u32_sum p h),
    )

-- Rounds past the first two bytes leave those alone.
rounds_shift :
    (n i a b : ℕ) (d : List ℕ) → swap_rounds n (suc (suc i)) (a ∷ b ∷ d) ≡ a ∷ b ∷ swap_rounds n i d
unfolding swap_rounds
rounds_shift zero i a b d = refl
rounds_shift (suc n) i a b d =
    let next : suc (suc i) + 1 ≡ suc (suc (i + 1)) = omega arith in
    let skip : suc (suc i) + 2 ≡ suc (suc (i + 2)) = omega arith in
    rw (next, skip) (rounds_shift n (i + 2) a b (set (set d i (at d (i + 1))) (i + 1) (at d i)))

rounds_swap : (n : ℕ) (d : List ℕ) → n * 2 ≤ length d → swap_rounds n 0 d ≡ byte_swap d (n * 2)
unfolding swap_rounds byte_swap
rounds_swap zero d h = refl
rounds_swap (suc n) [] h = absurd (omega arith)
rounds_swap (suc n) (a ∷ []) h = absurd (omega arith)
rounds_swap (suc n) (a ∷ b ∷ d) h =
    let e : suc n * 2 ≡ suc (suc (n * 2)) = omega arith in
    rw e (rounds_shift n 0 b a d ∙ ap (λ t. b ∷ a ∷ t) (rounds_swap n d (omega arith)))

-- On an even count within the buffer both builds swap alike.
pub byte_swap_manual-even :
    (d : List ℕ) (count : ℕ)
    → count % 2 ≡ 0
    → count ≤ length d
    → byte_swap_manual d count ≡ byte_swap d count
unfolding byte_swap_manual
byte_swap_manual-even d count even fits =
    let e : (count + 1) / 2 * 2 ≡ count = omega arith in
    rounds_swap ((count + 1) / 2) d (omega arith) ∙ ap (byte_swap d) e

-- The same for any packet and count of four bytes or more.
pub get_u16_raw-byte_swap :
    (packet : List ℕ) (n : ℕ)
    → IsBytes packet
    → 4 ≤ length packet
    → 4 ≤ n
    → get_u16_raw (byte_swap packet n) ≡ get_u16 packet
get_u16_raw-byte_swap (a ∷ b ∷ c ∷ d ∷ rest) (suc (suc (suc (suc n)))) h hl hn =
    (raw-byte_swap a b c d rest n h).0
get_u16_raw-byte_swap packet n h hl hn = absurd (omega arith)
