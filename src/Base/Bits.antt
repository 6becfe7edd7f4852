-- ===== src/Base/Bits.antt =====
-- The binary digits of machine words: `|`, `&`, `1 << k` and `!0` at variables, digit by digit.
pub mod Step
pub mod Words
pub mod Zeros
use Prim.Native.Nat.{
  ℕ, zero, suc, ◌+◌, ◌-◌, ◌*◌, ◌/◌, ◌%◌, ◌^◌, ◌≤◌, ◌<◌, min, max, bit_and, bit_or,
}
use mathlib.Core.Path.{◌≡◌, refl, ap}
use mathlib.Core.Bool.{Bool, true, false, ◌&&◌, ◌||◌, not}
use mathlib.Core.Logic.{◌⊎◌, inl, inr, ◌≢◌}
use native.Mathlib.Omega.{arith}
use native.Mathlib.Nat.{
  pow-suc, one-le-pow, pow-le-pow_right, div-add-mod, mod-lt, mul-add-mod_self_right, mod-eq_of_lt,
}
use nanokrnl.Base.Tests.{◌==◌, leb}
use Step.{bit_or_step, bit_and_step, bit_and-left_zero}

-- Digit `k` of `w`.
unfoldable pub bit : ℕ → ℕ → Bool
bit w zero = w % 2 == 1
bit w (suc k) = bit (w / 2) k

pub bit-bit_or : (a b k : ℕ) → bit (bit_or a b) k ≡ (bit a k || bit b k)
unfolding bit
bit-bit_or a b zero = ground (arith, bit_or_step a b)
bit-bit_or a b (suc k) =
    let half : bit_or a b / 2 ≡ bit_or (a / 2) (b / 2) = omega (arith, bit_or_step a b) in
    rw half (bit-bit_or (a / 2) (b / 2) k)

pub bit-bit_and : (a b k : ℕ) → bit (bit_and a b) k ≡ (bit a k && bit b k)
unfolding bit
bit-bit_and a b zero = ground (arith, bit_and_step a b)
bit-bit_and a b (suc k) =
    let half : bit_and a b / 2 ≡ bit_and (a / 2) (b / 2) = omega (arith, bit_and_step a b) in
    rw half (bit-bit_and (a / 2) (b / 2) k)

pub bit-zero : (k : ℕ) → bit 0 k ≡ false
unfolding bit
bit-zero zero = refl
bit-zero (suc k) = bit-zero k

half_pow : (j : ℕ) → 2 ^ suc j / 2 ≡ 2 ^ j
half_pow j = omega (arith, pow-suc 2 j)

-- `1 << j` has digit `j` only.
pub bit-pow : (j k : ℕ) → bit (2 ^ j) k ≡ (j == k)
unfolding bit
bit-pow zero zero = refl
bit-pow zero (suc k) = ground (arith, bit-zero k)
bit-pow (suc j) zero = ground (arith, pow-suc 2 j)
bit-pow (suc j) (suc k) = rw (half_pow j, bit-pow j k) (ground arith)

-- `!0` at width `n` has every digit below `n`.
pub bit-ones : (n k : ℕ) → k < n → bit (2 ^ n - 1) k ≡ true
unfolding bit
bit-ones zero k h = elim h [ ]
bit-ones (suc n) zero h = ground (arith, pow-suc 2 n, one-le-pow n 2)
bit-ones (suc n) (suc k) h =
    let half : (2 ^ suc n - 1) / 2 ≡ 2 ^ n - 1 = omega (arith, pow-suc 2 n, one-le-pow n 2) in
    rw half (bit-ones n k (omega arith))

-- `!(1 << j)` at width `n` lacks digit `j` only.
pub bit-ones_but : (n j k : ℕ) → j < n → k < n → bit (2 ^ n - 1 - 2 ^ j) k ≡ not (j == k)
unfolding bit
bit-ones_but zero j k hj hk = elim hj [ ]
bit-ones_but (suc n) zero zero hj hk = ground (arith, pow-suc 2 n, one-le-pow n 2)
bit-ones_but (suc n) zero (suc k) hj hk =
    let half : (2 ^ suc n - 1 - 2 ^ 0) / 2 ≡ 2 ^ n - 1 =
      omega (arith, pow-suc 2 n, one-le-pow n 2) in
    rw half (ground (arith, bit-ones n k))
bit-ones_but (suc n) (suc j) zero hj hk =
    let below : 2 ^ suc j ≤ 2 ^ n = pow-le-pow_right (omega arith) (omega arith) in
    let odd : (2 ^ suc n - 1 - 2 ^ suc j) % 2 ≡ 1 =
      omega (arith, pow-suc 2 n, pow-suc 2 j, one-le-pow n 2) in
    ground arith
bit-ones_but (suc n) (suc j) (suc k) hj hk =
    let half : (2 ^ suc n - 1 - 2 ^ suc j) / 2 ≡ 2 ^ n - 1 - 2 ^ j =
      omega (arith, pow-suc 2 n, pow-suc 2 j) in
    rw (half, bit-ones_but n j k (omega arith) (omega arith)) (ground arith)

bit_and-zero_below : (n w : ℕ) → w ≤ n → bit_and w 0 ≡ 0
bit_and-zero_below n zero h = omega (arith, bit_and_step 0 0)
bit_and-zero_below zero (suc w) h = absurd (omega arith)
bit_and-zero_below (suc n) (suc w) h =
    omega (arith, bit_and_step (suc w) 0, bit_and-zero_below n (suc w / 2) (omega arith))

bit_and-zero : (w : ℕ) → bit_and w 0 ≡ 0
bit_and-zero w = bit_and-zero_below w w (omega arith)

pub pow-lt : (j n : ℕ) → j < n → 2 ^ j < 2 ^ n
pow-lt j n h =
    let next : 2 ^ suc j ≤ 2 ^ n = pow-le-pow_right (omega arith) h in
    omega (arith, pow-suc 2 j, one-le-pow j 2)

-- `w & (1 << k) != 0` is the test of digit `k`.
pub bit_and-pow : (k w : ℕ) → (bit_and w (2 ^ k) == 0) ≡ not (bit w k)
unfolding bit
bit_and-pow zero w = ground (arith, bit_and_step w 1, bit_and-zero (w / 2))
bit_and-pow (suc k) w =
    ground (arith, bit_and_step w (2 ^ suc k), pow-suc 2 k, bit_and-pow k (w / 2))

-- The bit operations stay within the width.
pub bit_or-lt : (n a b : ℕ) → a < 2 ^ n → b < 2 ^ n → bit_or a b < 2 ^ n
bit_or-lt zero a b ha hb = ground (arith, bit_or_step 0 0)
bit_or-lt (suc n) a b ha hb = omega (
  arith,
  bit_or_step a b,
  pow-suc 2 n,
  bit_or-lt n (a / 2) (b / 2) (omega (arith, pow-suc 2 n)) (omega (arith, pow-suc 2 n)),
)

pub bit_and-lt : (n a b : ℕ) → a < 2 ^ n → bit_and a b < 2 ^ n
bit_and-lt zero a b ha = ground (arith, bit_and-left_zero b)
bit_and-lt (suc n) a b ha = omega (
  arith,
  bit_and_step a b,
  pow-suc 2 n,
  bit_and-lt n (a / 2) (b / 2) (omega (arith, pow-suc 2 n)),
)

-- A word is what its digits say.
pub eq_of_bits : (n a b : ℕ) → a < 2 ^ n → b < 2 ^ n → ((k : ℕ) → k < n → bit a k ≡ bit b k) → a ≡ b
unfolding bit
eq_of_bits zero a b ha hb same = omega arith
eq_of_bits (suc n) a b ha hb same =
    let halves : a / 2 ≡ b / 2 =
      eq_of_bits n (a / 2) (b / 2) (omega (arith, pow-suc 2 n)) (omega (arith, pow-suc 2 n))
        (λ k hk. same (suc k) (omega arith)) in
    ground (arith, same 0 (omega arith))

half-mod : (x m : ℕ) → 0 < m → x % (m * 2) / 2 ≡ x / 2 % m
half-mod x m h =
    let q = x / (m * 2) in
    let r = x % (m * 2) in
    let split : x / 2 ≡ q * m + r / 2 = omega (arith, div-add-mod x (m * 2)) in
    let small : r / 2 < m = omega (arith, mod-lt x {m = m * 2} (omega arith)) in
    rw (split, mul-add-mod_self_right q m (r / 2), mod-eq_of_lt small)

parity-mod : (x m : ℕ) → x % (m * 2) % 2 ≡ x % 2
parity-mod x m = omega (arith, div-add-mod x (m * 2))

-- Cutting a number to `n` digits leaves those digits.
pub bit-mod : (n x k : ℕ) → k < n → bit (x % 2 ^ n) k ≡ bit x k
unfolding bit
bit-mod zero x k h = elim h [ ]
bit-mod (suc n) x zero h = rw (pow-suc 2 n, parity-mod x (2 ^ n))
bit-mod (suc n) x (suc k) h =
    rw (pow-suc 2 n, half-mod x (2 ^ n) (one-le-pow n 2 (omega arith)))
      (bit-mod n (x / 2) k (omega arith))

double_half : (w t : ℕ) → w * 2 ^ suc t / 2 ≡ w * 2 ^ t
double_half w t = omega (arith, ap (λ (p : ℕ). w * p) (pow-suc 2 t))

double_even : (w t : ℕ) → w * 2 ^ suc t % 2 ≡ 0
double_even w t = omega (arith, ap (λ (p : ℕ). w * p) (pow-suc 2 t))

-- A shift to the left moves the digits up.
pub bit-shl : (t w k : ℕ) → bit (w * 2 ^ t) k ≡ (leb t k && bit w (k - t))
unfolding bit
bit-shl zero w k =
    let one : w * 2 ^ 0 ≡ w = omega arith in
    let stay : k - 0 ≡ k = omega arith in rw (one, stay) (ground arith)
bit-shl (suc t) w zero = ground (arith, double_even w t)
bit-shl (suc t) w (suc k) =
    let less : suc k - suc t ≡ k - t = omega arith in
    rw (double_half w t, bit-shl t w k, less) (ground arith)
