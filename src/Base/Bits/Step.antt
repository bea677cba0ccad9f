-- ===== src/Base/Bits/Step.antt =====
-- One equation for the lowest digit of each bit operation. The native operations stand for
-- `bitwise`, a recursion on the binary digits with fuel.
use Prim.Native.Nat.{
  ℕ, zero, suc, ◌+◌, ◌*◌, ◌/◌, ◌%◌, ◌≤◌, ◌<◌, min, max, digits, bitwise, bit_and, bit_or, bit_xor,
  differ, bit_and-bitwise, bit_or-bitwise, bit_xor-bitwise,
}
use mathlib.Core.Path.{◌≡◌, refl}
use native.Mathlib.Nat.{le_refl}
use native.Mathlib.Omega.{arith}

module _ (rest : ℕ → ℕ) (digit : ℕ → ℕ → ℕ) where
  -- No digit is left at fuel zero or operand zero, and each step halves the operand.
  digits_settle :
      (x y fuel spare : ℕ)
      → x ≤ fuel
      → x ≤ spare
      → digits rest digit fuel x y ≡ digits rest digit spare x y
  digits_settle zero y zero zero u v = refl
  digits_settle zero y zero (suc spare) u v = refl
  digits_settle zero y (suc fuel) zero u v = refl
  digits_settle zero y (suc fuel) (suc spare) u v = refl
  digits_settle (suc x) y zero spare u v = absurd (omega arith)
  digits_settle (suc x) y (suc fuel) zero u v = absurd (omega arith)
  digits_settle (suc x) y (suc fuel) (suc spare) u v =
      rw (digits_settle (suc x / 2) (y / 2) fuel spare (omega arith) (omega arith))

  lowest_digit :
      (x y : ℕ)
      → bitwise rest digit (suc x) y
        ≡ bitwise rest digit (suc x / 2) (y / 2) * 2 + digit (suc x % 2) (y % 2)
  lowest_digit x y =
      omega (arith, digits_settle (suc x / 2) (y / 2) x (suc x / 2) (omega arith) (le_refl _))

pub bit_and_step : (x y : ℕ) → bit_and x y ≡ bit_and (x / 2) (y / 2) * 2 + min (x % 2) (y % 2)
bit_and_step (suc x) y = simp bit_and-bitwise (lowest_digit (λ _. 0) min x y)
bit_and_step zero y = simp bit_and-bitwise (omega arith)

pub bit_or_step : (x y : ℕ) → bit_or x y ≡ bit_or (x / 2) (y / 2) * 2 + max (x % 2) (y % 2)
bit_or_step (suc x) y = simp bit_or-bitwise (lowest_digit (λ t. t) max x y)
bit_or_step zero y = simp bit_or-bitwise (omega arith)

differ_digits : (x y : ℕ) → x < 2 → y < 2 → differ x y ≡ (x + y) % 2
differ_digits zero zero p q = refl
differ_digits zero (suc zero) p q = refl
differ_digits (suc zero) zero p q = refl
differ_digits (suc zero) (suc zero) p q = refl
differ_digits x (suc (suc y)) p q = absurd (omega arith)
differ_digits (suc (suc x)) y p q = absurd (omega arith)

pub bit_xor_step : (a b : ℕ) → bit_xor a b ≡ bit_xor (a / 2) (b / 2) * 2 + (a % 2 + b % 2) % 2
bit_xor_step zero b = simp bit_xor-bitwise (omega arith)
bit_xor_step (suc a) b = simp bit_xor-bitwise (
    omega (
      arith,
      lowest_digit (λ t. t) differ a b,
      differ_digits (suc a % 2) (b % 2) (omega arith) (omega arith),
    ))
