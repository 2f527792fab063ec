-- ===== src/Libmini/Sigset/Members.antt =====
-- The masks as sets of signals.
use advanced_unix_progr.Base.{
  ℕ, zero, suc, ◌*◌, ◌/◌, ◌%◌, ◌-◌, ◌^◌, ◌≤◌, ◌<◌, true, some, bit_and, bit_or, ◌==◌, if◌then◌else◌,
  ◌≡◌, refl, ap, ◌∙◌, sym, arith, bit, bit-bit_or, bit-bit_and, bit-two_pow, bit_and_digit,
  bit_and_ones,
}
use mathlib.Core.Option.{some-injective}
use native.Mathlib.Nat.{pow-suc, div-div-eq-div-mul, one-le-pow, pow-le-pow_right, zero-div}
use advanced_unix_progr.Libmini.Sigset.{
  is_signal, signal_bit, complement, sigemptyset, sigfillset, sigaddset, sigdelset, sigismember,
}

bit-half : (k a : ℕ) → bit (suc k) a ≡ bit k (a / 2)
bit-half k a =
    ap (λ (t : ℕ). t % 2) (ap (λ (t : ℕ). a / t) (omega (arith, pow-suc 2 k)))
    ∙ ap (λ (t : ℕ). t % 2) (sym (div-div-eq-div-mul a 2 (2 ^ k)))

bit_and-two_pow : (k a : ℕ) → bit_and a (2 ^ k) ≡ bit k a * 2 ^ k
bit_and-two_pow zero a = omega (arith, bit_and_ones 1 a)
bit_and-two_pow (suc k) a =
    let half : 2 ^ suc k / 2 ≡ 2 ^ k = omega (arith, pow-suc 2 k) in
    let even : 2 ^ suc k % 2 ≡ 0 = omega (arith, pow-suc 2 k) in
    rw (bit_and_digit, half, even, bit_and-two_pow k (a / 2), bit-half k a)
      (omega (arith, ap (λ (t : ℕ). bit k (a / 2) * t) (pow-suc 2 k)))

bit-complement : (n k m : ℕ) → k < n → m < 2 ^ n → bit k (2 ^ n - 1 - m) ≡ 1 - bit k m
bit-complement zero k m h below = elim h [ ]
bit-complement (suc n) zero m h below = omega (arith, pow-suc 2 n)
bit-complement (suc n) (suc k) m h below =
    let e : (2 ^ suc n - 1 - m) / 2 ≡ 2 ^ n - 1 - m / 2 = omega (arith, pow-suc 2 n) in
    rw
      (
        bit-half,
        e,
        bit-complement n k (m / 2) (omega arith) (omega (arith, pow-suc 2 n)),
        ← bit-half,
      )
      refl

digit_nonzero : (x p : ℕ) → x < 2 → 1 ≤ p → (if x * p == 0 then 0 else 1) ≡ x
digit_nonzero zero p small pos = ground arith
digit_nonzero (suc zero) p small pos = ground arith
digit_nonzero (suc (suc x)) p small pos = absurd (omega arith)

-- Membership is the bit.
sigismember-bit : (set b : ℕ) → is_signal b ≡ true → sigismember set b ≡ some (bit (b - 1) set)
unfolding sigismember
sigismember-bit set b h =
    rw (h, bit_and-two_pow (b - 1) set)
      (ap some (
        digit_nonzero (bit (b - 1) set) (2 ^ (b - 1)) (omega arith)
          (one-le-pow (b - 1) 2 (omega arith))))

other_place : (a b : ℕ) → is_signal a ≡ true → is_signal b ≡ true → (b - 1 == a - 1) ≡ (a == b)
other_place a b ha hb = ground arith

pow_mono_64 : (a : ℕ) → is_signal a ≡ true → signal_bit a < 2 ^ 64
pow_mono_64 a h =
    let e : 2 ^ (a - 1) ≤ 2 ^ 63 = pow-le-pow_right (omega arith) {j = 63} (ground arith) in
    omega (arith, e)

bit-zero : (k : ℕ) → bit k 0 ≡ 0
bit-zero k = omega (arith, zero-div (2 ^ k))

-- The empty set has no signal, and the full one has every signal.
pub sigismember-sigemptyset :
    (set b : ℕ)
    → is_signal b ≡ true
    → (sigismember (sigemptyset set) b ≡ some 0) × (sigismember (sigfillset set) b ≡ some 1)
unfolding sigemptyset sigfillset
sigismember-sigemptyset set b h = (
  sigismember-bit 0 b h ∙ ap some (bit-zero (b - 1)),
  sigismember-bit (complement 0) b h
      ∙ ap some (
          bit-complement 64 (b - 1) 0 (ground arith) (omega arith)
          ∙ omega (arith, bit-zero (b - 1))),
)

-- `sigaddset` of a signal adds it, and leaves every other signal in the set or out of it.
pub sigismember-sigaddset :
    (set a b : ℕ)
    → is_signal a ≡ true
    → is_signal b ≡ true
    → (set' : ℕ) × (sigaddset set a ≡ some set')
      × (sigismember set' b ≡ (if a == b then some 1 else sigismember set b))
unfolding sigaddset
sigismember-sigaddset set a b ha hb = (
  bit_or set (signal_bit a),
  rw ha,
  sigismember-bit (bit_or set (signal_bit a)) b hb
      ∙ ground (
        arith,
        sigismember-bit set b hb,
        bit-bit_or (b - 1) set (signal_bit a),
        bit-two_pow (b - 1) (a - 1),
        other_place a b ha hb,
      ),
)

-- `sigdelset` of a signal takes it away, and leaves every other signal in the set or out of it.
pub sigismember-sigdelset :
    (set a b : ℕ)
    → is_signal a ≡ true
    → is_signal b ≡ true
    → (set' : ℕ) × (sigdelset set a ≡ some set')
      × (sigismember set' b ≡ (if a == b then some 0 else sigismember set b))
unfolding sigdelset
sigismember-sigdelset set a b ha hb = (
  bit_and set (complement (signal_bit a)),
  rw ha,
  sigismember-bit (bit_and set (complement (signal_bit a))) b hb
      ∙ ground (
        arith,
        sigismember-bit set b hb,
        bit-bit_and (b - 1) set (complement (signal_bit a)),
        bit-complement 64 (b - 1) (signal_bit a) (ground arith) (pow_mono_64 a ha),
        bit-two_pow (b - 1) (a - 1),
        other_place a b ha hb,
      ),
)

-- A signal of a set is in every larger one.
pub sigismember-bit_or :
    (x y b : ℕ)
    → is_signal b ≡ true
    → sigismember y b ≡ some 1
    → sigismember (bit_or x y) b ≡ some 1
sigismember-bit_or x y b h member =
    let one : bit (b - 1) y ≡ 1 = some-injective _ _ (sym (sigismember-bit y b h) ∙ member) in
    sigismember-bit (bit_or x y) b h ∙ ap some (omega (arith, one, bit-bit_or (b - 1) x y))
