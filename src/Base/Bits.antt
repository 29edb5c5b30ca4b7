-- ===== src/Base/Bits.antt =====
-- The lowest digit of `bit_and` and `bit_or`, and the masks that the program uses.
use Prim.Native.Nat.{
  ℕ, zero, suc, ◌+◌, ◌*◌, ◌/◌, ◌%◌, ◌≤◌, ◌<◌, min, max, bit_and, bit_or, digits, bitwise,
  bit_and-bitwise, bit_or-bitwise,
}
use mathlib.Core.Path.{◌≡◌, refl, ap}
use native.Mathlib.Omega.{arith}

module _ (last : ℕ → ℕ) (digit : ℕ → ℕ → ℕ) where
  -- A count of digits below the bound, and not below the number, gives what the number itself gives.
  spare_digits :
      (bound count x y : ℕ)
      → count ≤ bound
      → x ≤ count
      → digits last digit count x y ≡ bitwise last digit x y
  spare_digits bound zero zero y below enough = refl
  spare_digits bound (suc count) zero y below enough = refl
  spare_digits bound zero (suc x) y below enough = absurd (omega (arith, enough))
  spare_digits zero (suc count) (suc x) y below enough = absurd (omega (arith, below))
  spare_digits (suc bound) (suc count) (suc x) y below enough =
      let here = spare_digits bound count (suc x / 2) (y / 2) (omega arith) (omega arith) in
      let there = spare_digits bound x (suc x / 2) (y / 2) (omega arith) (omega arith) in
      omega (arith, here, there)

  lowest :
      (x y : ℕ)
      → digit (suc x % 2) (y % 2) + 2 * bitwise last digit (suc x / 2) (y / 2)
        ≡ bitwise last digit (suc x) y
  lowest x y = omega (arith, spare_digits x x (suc x / 2) (y / 2) (omega arith) (omega arith))

pub bit_or_step : (x y : ℕ) → bit_or x y ≡ max (x % 2) (y % 2) + 2 * bit_or (x / 2) (y / 2)
bit_or_step zero y = omega (arith, bit_or-bitwise 0 y, bit_or-bitwise 0 (y / 2))
bit_or_step (suc x) y =
    let halves = bit_or-bitwise (suc x / 2) (y / 2) in
    omega (arith, lowest (λ rest. rest) max x y, bit_or-bitwise (suc x) y, halves)

pub bit_and_step : (x y : ℕ) → bit_and x y ≡ min (x % 2) (y % 2) + 2 * bit_and (x / 2) (y / 2)
bit_and_step zero y = omega (arith, bit_and-bitwise 0 y, bit_and-bitwise 0 (y / 2))
bit_and_step (suc x) y =
    let halves = bit_and-bitwise (suc x / 2) (y / 2) in
    omega (arith, lowest (λ rest. zero) min x y, bit_and-bitwise (suc x) y, halves)

bit_and-zero : (a : ℕ) → bit_and a 0 ≡ 0
bit_and-zero a = bounded a a (omega arith)
  where
    bounded : (n a : ℕ) → a ≤ n → bit_and a 0 ≡ 0
    bounded n zero h = refl
    bounded zero (suc a) h = absurd (omega arith)
    bounded (suc n) (suc a) h =
        omega (arith, bit_and_step (suc a) 0, bounded n (suc a / 2) (omega arith))

pub bit_or-zero : (a : ℕ) → bit_or a 0 ≡ a
bit_or-zero a = bounded a a (omega arith)
  where
    bounded : (n a : ℕ) → a ≤ n → bit_or a 0 ≡ a
    bounded n zero h = refl
    bounded zero (suc a) h = absurd (omega arith)
    bounded (suc n) (suc a) h =
        omega (arith, bit_or_step (suc a) 0, bounded n (suc a / 2) (omega arith))

pub bit_and-1 : (a : ℕ) → bit_and a 1 ≡ a % 2
bit_and-1 a = omega (arith, bit_and_step a 1, bit_and-zero (a / 2))

pub bit_and-15 : (a : ℕ) → bit_and a 15 ≡ a % 16
bit_and-15 a = omega (
  arith,
  bit_and_step a 15,
  bit_and_step (a / 2) 7,
  bit_and_step (a / 2 / 2) 3,
  bit_and-1 (a / 2 / 2 / 2),
)

bit_and-255 : (a : ℕ) → bit_and a 255 ≡ a % 256
bit_and-255 a = omega (
  arith,
  bit_and_step a 255,
  bit_and_step (a / 2) 127,
  bit_and_step (a / 2 / 2) 63,
  bit_and_step (a / 2 / 2 / 2) 31,
  bit_and-15 (a / 2 / 2 / 2 / 2),
)

bit_and-4095 : (a : ℕ) → bit_and a 4095 ≡ a % 4096
bit_and-4095 a = omega (
  arith,
  bit_and_step a 4095,
  bit_and_step (a / 2) 2047,
  bit_and_step (a / 2 / 2) 1023,
  bit_and_step (a / 2 / 2 / 2) 511,
  bit_and-255 (a / 2 / 2 / 2 / 2),
)

-- The 12 bits above the lowest four.
pub bit_and-fff0 : (a : ℕ) → bit_and a 0xfff0 ≡ a % 0x10000 / 16 * 16
bit_and-fff0 a = omega (
  arith,
  bit_and_step a 0xfff0,
  bit_and_step (a / 2) 0x7ff8,
  bit_and_step (a / 2 / 2) 0x3ffc,
  bit_and_step (a / 2 / 2 / 2) 0x1ffe,
  bit_and-4095 (a / 2 / 2 / 2 / 2),
)

-- A number below 16 in the place of four zeros.
pub bit_or_nibble : (a n : ℕ) → a % 16 ≡ 0 → n < 16 → bit_or a n ≡ a + n
bit_or_nibble a n z h =
    let gone : n / 2 / 2 / 2 / 2 ≡ 0 = omega arith in
    omega (
      arith,
      bit_or_step a n,
      bit_or_step (a / 2) (n / 2),
      bit_or_step (a / 2 / 2) (n / 2 / 2),
      bit_or_step (a / 2 / 2 / 2) (n / 2 / 2 / 2),
      ap (bit_or (a / 2 / 2 / 2 / 2)) gone,
      bit_or-zero (a / 2 / 2 / 2 / 2),
    )
