-- ===== src/Prelude/Bits.antt =====
-- `&` with a mask and with a single bit, and `|` of two bytes, as arithmetic. The operations are
-- those of the library; their meaning is its recursion on binary digits.
use Prim.Native.Nat.{
  ℕ, zero, suc, ◌+◌, ◌*◌, ◌/◌, ◌%◌, ◌^◌, ◌≤◌, ◌<◌, min, max, bit_and, bit_or, digits, bitwise,
  bit_and-bitwise, bit_or-bitwise,
}
use mathlib.Core.Path.{◌≡◌, refl, sym, ap, ◌∙◌}
use native.Mathlib.Nat.{le_refl, div-div-eq-div-mul, pow-succ'}
use native.Mathlib.Omega.{arith}

-- Two amounts of fuel that both cover the first number give the same digits.
module _ (z : ℕ → ℕ) (f : ℕ → ℕ → ℕ) where
  digits_enough : (n k x y : ℕ) → x ≤ n → x ≤ k → digits z f n x y ≡ digits z f k x y
  digits_enough (suc n) (suc k) (suc x) y hn hk =
      rw (digits_enough n k (suc x / 2) (y / 2) (omega arith) (omega arith))
  digits_enough (suc n) (suc k) zero y hn hk = refl
  digits_enough (suc n) zero zero y hn hk = refl
  digits_enough zero (suc k) zero y hn hk = refl
  digits_enough zero zero x y hn hk = refl
  digits_enough (suc n) zero (suc x) y hn hk = absurd (omega arith)
  digits_enough zero (suc k) (suc x) y hn hk = absurd (omega arith)

  low_digit :
      (x y : ℕ)
      → bitwise z f (suc x) y ≡ 2 * bitwise z f (suc x / 2) (y / 2) + f (suc x % 2) (y % 2)
  low_digit x y =
      omega (arith, digits_enough x (suc x / 2) (suc x / 2) (y / 2) (omega arith) (le_refl _))

-- The lowest digit of an "and" and of an "or".
pub bit_and_step : (x y : ℕ) → bit_and x y ≡ 2 * bit_and (x / 2) (y / 2) + min (x % 2) (y % 2)
bit_and_step zero y = simp bit_and-bitwise (omega arith)
bit_and_step (suc x) y = simp bit_and-bitwise (low_digit (λ b. 0) min x y)

pub bit_or_step : (x y : ℕ) → bit_or x y ≡ 2 * bit_or (x / 2) (y / 2) + max (x % 2) (y % 2)
bit_or_step zero y = simp bit_or-bitwise (omega arith)
bit_or_step (suc x) y = simp bit_or-bitwise (low_digit (λ b. b) max x y)

bit_and-zero_below : (n x : ℕ) → x ≤ n → bit_and x 0 ≡ 0
bit_and-zero_below n zero h = refl
bit_and-zero_below zero (suc x) h = absurd (omega arith)
bit_and-zero_below (suc n) (suc x) h =
    omega (arith, bit_and_step (suc x) 0, bit_and-zero_below n (suc x / 2) (omega arith))

pub bit_and-zero : (x : ℕ) → bit_and x 0 ≡ 0
bit_and-zero x = bit_and-zero_below x x (le_refl _)

-- A mask that is shifted left by `k` bits.
pub bit_and_shifted : (k x m : ℕ) → bit_and x (m * 2 ^ k) ≡ bit_and (x / 2 ^ k) m * 2 ^ k
bit_and_shifted zero x m = ground arith
bit_and_shifted (suc k) x m =
    let mask : m * 2 ^ suc k ≡ 2 * (m * 2 ^ k) =
      omega (arith, ap (λ (t : ℕ). m * t) (pow-succ' 2 k)) in
    let shifted : x / 2 ^ suc k ≡ x / 2 / 2 ^ k =
      ap (λ (t : ℕ). x / t) (pow-succ' 2 k) ∙ sym (div-div-eq-div-mul x 2 (2 ^ k)) in
    rw (mask, shifted)
      (ground (
        arith,
        bit_and_step x (2 * (m * 2 ^ k)),
        bit_and_shifted k (x / 2) m,
        ap (λ (t : ℕ). bit_and (x / 2 / 2 ^ k) m * t) (pow-succ' 2 k),
      ))

bit_and-one : (x : ℕ) → bit_and x 1 ≡ x % 2
bit_and-one x = omega (arith, bit_and_step x 1, bit_and-zero (x / 2))

-- A single bit.
pub bit_and_pow : (k x : ℕ) → bit_and x (2 ^ k) ≡ (x / 2 ^ k) % 2 * 2 ^ k
bit_and_pow k x = ground (arith, bit_and_shifted k x 1, bit_and-one (x / 2 ^ k))

-- Masks of 4, 8 and 12 low bits.
pub bit_and_nibble : (x : ℕ) → bit_and x 0x000F ≡ x % 16
bit_and_nibble x = omega (
  arith,
  bit_and_step x 15,
  bit_and_step (x / 2) 7,
  bit_and_step (x / 2 / 2) 3,
  bit_and-one (x / 2 / 2 / 2),
)

pub nibble_step : (x m : ℕ) → bit_and x (16 * m + 15) ≡ 16 * bit_and (x / 16) m + x % 16
nibble_step x m = ground (
  arith,
  bit_and_step x (16 * m + 15),
  bit_and_step (x / 2) (8 * m + 7),
  bit_and_step (x / 2 / 2) (4 * m + 3),
  bit_and_step (x / 2 / 2 / 2) (2 * m + 1),
)

pub bit_and_byte : (x : ℕ) → bit_and x 0x00FF ≡ x % 256
bit_and_byte x = omega (arith, nibble_step x 15, bit_and_nibble (x / 16))

pub bit_and_12bit : (x : ℕ) → bit_and x 0x0FFF ≡ x % 4096
bit_and_12bit x = omega (arith, nibble_step x 255, bit_and_byte (x / 16))

bit_or-zero_below : (n x : ℕ) → x ≤ n → bit_or x 0 ≡ x
bit_or-zero_below n zero h = refl
bit_or-zero_below zero (suc x) h = absurd (omega arith)
bit_or-zero_below (suc n) (suc x) h =
    omega (arith, bit_or_step (suc x) 0, bit_or-zero_below n (suc x / 2) (omega arith))

-- `(high << 8) | low` of two bytes is a sum.
pub bit_or_shifted : (k high low : ℕ) → low < 2 ^ k → bit_or (high * 2 ^ k) low ≡ high * 2 ^ k + low
bit_or_shifted zero high low h = ground (arith, bit_or-zero_below high high (le_refl _))
bit_or_shifted (suc k) high low h = ground (
  arith,
  bit_or_step (high * 2 ^ suc k) low,
  pow-succ' 2 k,
  ap (λ (t : ℕ). high * t) (pow-succ' 2 k),
  bit_or_shifted k high (low / 2) (omega (arith, pow-succ' 2 k)),
)
