-- ===== src/Base/Bits.antt =====
-- The masks that the code applies, `&` with low and high ones and `|`, as arithmetic. The native
-- operations are recursions on binary digits; one equation for the lowest digit gives the rest.
use Prim.Native.Nat.{
  ℕ, zero, suc, ◌+◌, ◌-◌, ◌*◌, ◌/◌, ◌%◌, ◌^◌, ◌≤◌, ◌<◌, min, max, bit_and, bit_or, digits, bitwise,
  bit_and-bitwise, bit_or-bitwise,
}
use mathlib.Core.Path.{◌≡◌, refl, sym, ap, ◌∙◌}
use native.Mathlib.Nat.{
  le_refl, pow-suc, one-le-pow, div-div-eq-div-mul, div-add-mod, zero-div, mul_comm,
}
use advanced_unix_progr.Base.Tests.{◌==◌, if◌then◌else◌}
use native.Mathlib.Omega.{arith}

-- The fuel of the digit recursion does not matter once it reaches the first operand.
module _ (ends : ℕ → ℕ) (digit : ℕ → ℕ → ℕ) where
  digits_enough : (n m a b : ℕ) → a ≤ n → a ≤ m → digits ends digit n a b ≡ digits ends digit m a b
  digits_enough zero zero a b p q = refl
  digits_enough zero (suc m) zero b p q = refl
  digits_enough zero (suc m) (suc a) b p q = absurd (omega arith)
  digits_enough (suc n) zero zero b p q = refl
  digits_enough (suc n) zero (suc a) b p q = absurd (omega arith)
  digits_enough (suc n) (suc m) zero b p q = refl
  digits_enough (suc n) (suc m) (suc a) b p q =
      rw (digits_enough n m (suc a / 2) (b / 2) (omega arith) (omega arith))

  lowest_digit :
      (a b : ℕ)
      → bitwise ends digit (suc a) b
        ≡ bitwise ends digit (suc a / 2) (b / 2) * 2 + digit (suc a % 2) (b % 2)
  lowest_digit a b =
      omega (arith, digits_enough a (suc a / 2) (suc a / 2) (b / 2) (omega arith) (le_refl _))

pub bit_and_digit : (a b : ℕ) → bit_and a b ≡ bit_and (a / 2) (b / 2) * 2 + min (a % 2) (b % 2)
bit_and_digit zero b = simp bit_and-bitwise (omega arith)
bit_and_digit (suc a) b = simp bit_and-bitwise (lowest_digit (λ y. 0) min a b)

pub bit_or_digit : (a b : ℕ) → bit_or a b ≡ bit_or (a / 2) (b / 2) * 2 + max (a % 2) (b % 2)
bit_or_digit zero b = simp bit_or-bitwise (omega arith)
bit_or_digit (suc a) b = simp bit_or-bitwise (lowest_digit (λ y. y) max a b)

zero-bit_and : (b : ℕ) → bit_and 0 b ≡ 0
zero-bit_and b = bit_and-bitwise 0 b

bit_and-zero_below : (n a : ℕ) → a ≤ n → bit_and a 0 ≡ 0
bit_and-zero_below n zero h = refl
bit_and-zero_below zero (suc a) h = absurd (omega arith)
bit_and-zero_below (suc n) (suc a) h =
    omega (arith, bit_and_digit (suc a) 0, bit_and-zero_below n (suc a / 2) (omega arith))

pub bit_and-zero : (a : ℕ) → bit_and a 0 ≡ 0
bit_and-zero a = bit_and-zero_below a a (le_refl a)

bit_or-zero_below : (n a : ℕ) → a ≤ n → bit_or a 0 ≡ a
bit_or-zero_below n zero h = refl
bit_or-zero_below zero (suc a) h = absurd (omega arith)
bit_or-zero_below (suc n) (suc a) h =
    omega (arith, bit_or_digit (suc a) 0, bit_or-zero_below n (suc a / 2) (omega arith))

pub bit_or-zero : (a : ℕ) → bit_or a 0 ≡ a
bit_or-zero a = bit_or-zero_below a a (le_refl a)

mod-two_mul : (a m : ℕ) → a % (m * 2) ≡ a / 2 % m * 2 + a % 2
mod-two_mul a m =
    let e : a / 2 / m ≡ a / (m * 2) =
      div-div-eq-div-mul a 2 m ∙ ap (λ (t : ℕ). a / t) (mul_comm 2 m) in
    omega (arith, ap (λ (t : ℕ). m * t) e, div-add-mod a (m * 2), div-add-mod (a / 2) m)

ones_suc : (k : ℕ) → ((2 ^ suc k - 1) / 2 ≡ 2 ^ k - 1) × ((2 ^ suc k - 1) % 2 ≡ 1)
ones_suc k = omega (arith, pow-suc 2 k, one-le-pow k 2)

-- A mask of `k` ones is a remainder.
pub bit_and_ones : (k a : ℕ) → bit_and a (2 ^ k - 1) ≡ a % 2 ^ k
bit_and_ones zero a = rw bit_and-zero (omega arith)
bit_and_ones (suc k) a =
    rw (bit_and_digit, (ones_suc k).0, bit_and_ones k (a / 2), (ones_suc k).1, pow-suc 2 k)
      (omega (arith, mod-two_mul a (2 ^ k)))

bit_and-two_mul : (a m : ℕ) → bit_and a (2 * m) ≡ bit_and (a / 2) m * 2
bit_and-two_mul a m =
    let half : 2 * m / 2 ≡ m = omega arith in
    let even : 2 * m % 2 ≡ 0 = omega arith in rw (bit_and_digit, half, even) (omega arith)

-- A word with its lowest byte cut off.
pub bit_and_high : (w : ℕ) → w < 2 ^ 64 → bit_and w 0xffffffffffffff00 ≡ w / 256 * 256
bit_and_high w h = omega (
  arith,
  bit_and-two_mul w 0x7fffffffffffff80,
  bit_and-two_mul (w / 2) 0x3fffffffffffffc0,
  bit_and-two_mul (w / 2 / 2) 0x1fffffffffffffe0,
  bit_and-two_mul (w / 2 / 2 / 2) 0x0ffffffffffffff0,
  bit_and-two_mul (w / 2 / 2 / 2 / 2) 0x07fffffffffffff8,
  bit_and-two_mul (w / 2 / 2 / 2 / 2 / 2) 0x03fffffffffffffc,
  bit_and-two_mul (w / 2 / 2 / 2 / 2 / 2 / 2) 0x01fffffffffffffe,
  bit_and-two_mul (w / 2 / 2 / 2 / 2 / 2 / 2 / 2) 0x00ffffffffffffff,
  bit_and_ones 56 (w / 2 / 2 / 2 / 2 / 2 / 2 / 2 / 2),
)

-- The bit at place `k`.
abbrev pub bit : ℕ → ℕ → ℕ
bit k a = a / 2 ^ k % 2

bit-suc : (k a : ℕ) → bit (suc k) a ≡ bit k (a / 2)
bit-suc k a =
    ap (λ (t : ℕ). t % 2) (ap (λ (t : ℕ). a / t) (omega (arith, pow-suc 2 k)))
    ∙ ap (λ (t : ℕ). t % 2) (sym (div-div-eq-div-mul a 2 (2 ^ k)))

pub bit-bit_or : (k a b : ℕ) → bit k (bit_or a b) ≡ max (bit k a) (bit k b)
bit-bit_or zero a b = omega (arith, bit_or_digit a b)
bit-bit_or (suc k) a b = omega (
  arith,
  bit-suc k (bit_or a b),
  bit-suc k a,
  bit-suc k b,
  bit-bit_or k (a / 2) (b / 2),
  ap (bit k) (half_or a b),
)
  where
    half_or : (a b : ℕ) → bit_or a b / 2 ≡ bit_or (a / 2) (b / 2)
    half_or a b = omega (arith, bit_or_digit a b)

pub bit-bit_and : (k a b : ℕ) → bit k (bit_and a b) ≡ min (bit k a) (bit k b)
bit-bit_and zero a b = omega (arith, bit_and_digit a b)
bit-bit_and (suc k) a b = omega (
  arith,
  bit-suc k (bit_and a b),
  bit-suc k a,
  bit-suc k b,
  bit-bit_and k (a / 2) (b / 2),
  ap (bit k) (half_and a b),
)
  where
    half_and : (a b : ℕ) → bit_and a b / 2 ≡ bit_and (a / 2) (b / 2)
    half_and a b = omega (arith, bit_and_digit a b)

-- A power of two has one bit.
pub bit-two_pow : (k j : ℕ) → bit k (2 ^ j) ≡ (if k == j then 1 else 0)
bit-two_pow zero zero = refl
bit-two_pow zero (suc j) = ground (arith, pow-suc 2 j)
bit-two_pow (suc k) zero = ground (arith, bit-suc k 1, zero-div (2 ^ k))
bit-two_pow (suc k) (suc j) =
    let e : 2 ^ suc j / 2 ≡ 2 ^ j = omega (arith, pow-suc 2 j) in
    ground (arith, bit-suc k (2 ^ suc j), ap (bit k) e, bit-two_pow k j)

-- `|` is a sum where the first operand has only zeros below the bit `k` and the second only those.
pub bit_or_disjoint : (k q r : ℕ) → r < 2 ^ k → bit_or (q * 2 ^ k) r ≡ q * 2 ^ k + r
bit_or_disjoint zero q r h = ground (arith, bit_or-zero q)
bit_or_disjoint (suc k) q r h =
    let e : q * 2 ^ suc k ≡ q * 2 ^ k * 2 = omega (arith, ap (λ (t : ℕ). q * t) (pow-suc 2 k)) in
    let half : q * 2 ^ k * 2 / 2 ≡ q * 2 ^ k = omega arith in
    rw (e, bit_or_digit (q * 2 ^ k * 2) r, half)
      (omega (arith, bit_or_disjoint k q (r / 2) (omega (arith, pow-suc 2 k))))
