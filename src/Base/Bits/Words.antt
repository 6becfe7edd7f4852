-- ===== src/Base/Bits/Words.antt =====
-- Machine words at a width: exclusive or, masks, the highest digit, and `|` of parts that do not meet.
use Prim.Native.Nat.{bit_xor}
use native.Mathlib.Nat.{pow-suc, one-le-pow, mod-lt, pow-le-pow_right, div-div-eq-div-mul}
use nanokrnl.Base.{
  ℕ, zero, suc, ◌+◌, ◌-◌, ◌*◌, ◌/◌, ◌%◌, ◌^◌, ◌≤◌, ◌<◌, bit_and, bit_or, ◌≡◌, ap, ◌∙◌, Bool, true,
  false, not, leb, ltb, Bool-cases, inl, inr, arith,
}
use nanokrnl.Base.Bits.{bit, bit-bit_and, bit-ones, bit-zero, bit-mod, bit_and-lt, eq_of_bits}
use nanokrnl.Base.Bits.Step.{bit_and_step, bit_or_step, bit_xor_step, differ_lem}

abbrev pub xor : Bool → Bool → Bool
xor true b = not b
xor false b = b

pub bit-bit_xor : (a b k : ℕ) → bit (bit_xor a b) k ≡ xor (bit a k) (bit b k)
unfolding bit
bit-bit_xor a b zero = ground (arith, bit_xor_step a b, differ_lem (a % 2) (b % 2))
bit-bit_xor a b (suc k) =
    let half : bit_xor a b / 2 ≡ bit_xor (a / 2) (b / 2) =
      omega (arith, bit_xor_step a b, differ_lem (a % 2) (b % 2)) in
    rw half (bit-bit_xor (a / 2) (b / 2) k)

-- A word has no digit from its width on.
pub bit-above : (n a k : ℕ) → a < 2 ^ n → n ≤ k → bit a k ≡ false
unfolding bit
bit-above zero a k lt le = let e : a ≡ 0 = omega arith in rw e (bit-zero k)
bit-above (suc n) a zero lt le = absurd (omega arith)
bit-above (suc n) a (suc k) lt le = bit-above n (a / 2) k (omega (arith, pow-suc 2 n)) (omega arith)

-- The highest digit tells the two halves of the range apart.
pub bit-top : (n a : ℕ) → a < 2 ^ suc n → bit a n ≡ leb (2 ^ n) a
unfolding bit
bit-top zero a lt = ground (arith, lt)
bit-top (suc n) a lt =
    rw (bit-top n (a / 2) (omega (arith, pow-suc 2 (suc n)))) (ground (arith, pow-suc 2 n))

mod-below : (n a : ℕ) → a % 2 ^ n < 2 ^ n
mod-below n a = mod-lt a {m = 2 ^ n} (one-le-pow n 2 (omega arith))

-- `a & (2 ^ n - 1)`
pub bit_and-ones : (m n a : ℕ) → a < 2 ^ m → n ≤ m → bit_and a (2 ^ n - 1) ≡ a % 2 ^ n
bit_and-ones m n a lt le =
    let below : 2 ^ n ≤ 2 ^ m = pow-le-pow_right (omega arith) le in
    let pos : 1 ≤ 2 ^ n = one-le-pow n 2 (omega arith) in
    eq_of_bits m (bit_and a (2 ^ n - 1)) (a % 2 ^ n) (bit_and-lt m a (2 ^ n - 1) lt)
      (omega (arith, mod-below n a))
      (λ k hk. rw (bit-bit_and a (2 ^ n - 1) k) (elim (Bool-cases (ltb k n)) [
        | inl lo ↦ ground (arith, bit-ones n k, bit-mod n a k)
        | inr hi ↦
            rw
              (
                bit-above n (2 ^ n - 1) k (omega (arith, pos)) (ground (arith, hi)),
                bit-above n (a % 2 ^ n) k (mod-below n a) (ground (arith, hi)),
              )
              (ground arith)
      ]))

bit_or-zero_below : (n w : ℕ) → w ≤ n → bit_or w 0 ≡ w
bit_or-zero_below n zero h = omega (arith, bit_or_step 0 0)
bit_or-zero_below zero (suc w) h = absurd (omega arith)
bit_or-zero_below (suc n) (suc w) h =
    omega (arith, bit_or_step (suc w) 0, bit_or-zero_below n (suc w / 2) (omega arith))

-- Parts that do not meet are put together by `|` as by a sum.
pub bit_or-add : (n a b : ℕ) → b < 2 ^ n → bit_or (a * 2 ^ n) b ≡ a * 2 ^ n + b
bit_or-add zero a b lt =
    let none : b ≡ 0 = omega arith in
    let one : a * 2 ^ 0 ≡ a = omega arith in
    rw (none, one, bit_or-zero_below a a (omega arith)) (omega arith)
bit_or-add (suc n) a b lt =
    let double : a * 2 ^ suc n ≡ 2 * (a * 2 ^ n) =
      omega (arith, ap (λ (p : ℕ). a * p) (pow-suc 2 n)) in
    let half : a * 2 ^ suc n / 2 ≡ a * 2 ^ n = omega (arith, double) in
    let even : a * 2 ^ suc n % 2 ≡ 0 = omega (arith, double) in
    let ih : bit_or (a * 2 ^ n) (b / 2) ≡ a * 2 ^ n + b / 2 =
      bit_or-add n a (b / 2) (omega (arith, pow-suc 2 n)) in
    let step = bit_or_step (a * 2 ^ suc n) b in omega (arith, rw (half, even, ih) at step, double)

pub bit_xor-lt : (n a b : ℕ) → a < 2 ^ n → b < 2 ^ n → bit_xor a b < 2 ^ n
bit_xor-lt zero a b ha hb =
    let za : a ≡ 0 = omega arith in let zb : b ≡ 0 = omega arith in rw (za, zb) (omega arith)
bit_xor-lt (suc n) a b ha hb = omega (
  arith,
  bit_xor_step a b,
  differ_lem (a % 2) (b % 2),
  pow-suc 2 n,
  bit_xor-lt n (a / 2) (b / 2) (omega (arith, pow-suc 2 n)) (omega (arith, pow-suc 2 n)),
)

-- `!y` at width `n` has the digits that `y` lacks.
pub bit-not : (n y k : ℕ) → y < 2 ^ n → k < n → bit (2 ^ n - 1 - y) k ≡ not (bit y k)
unfolding bit
bit-not zero y k lt hk = absurd (omega arith)
bit-not (suc n) y zero lt hk = ground (arith, pow-suc 2 n, lt)
bit-not (suc n) y (suc k) lt hk =
    let half : (2 ^ suc n - 1 - y) / 2 ≡ 2 ^ n - 1 - y / 2 = omega (arith, pow-suc 2 n, lt) in
    rw half (bit-not n (y / 2) k (omega (arith, pow-suc 2 n)) (omega arith))

-- A mask that is shifted to the left.
pub bit_and-shl : (t a w : ℕ) → bit_and a (w * 2 ^ t) ≡ bit_and (a / 2 ^ t) w * 2 ^ t
bit_and-shl zero a w =
    let one : w * 2 ^ 0 ≡ w = omega arith in
    let whole : a / 2 ^ 0 ≡ a = omega arith in rw (one, whole) (omega arith)
bit_and-shl (suc t) a w =
    let double : w * 2 ^ suc t ≡ 2 * (w * 2 ^ t) =
      omega (arith, ap (λ (p : ℕ). w * p) (pow-suc 2 t)) in
    let half : w * 2 ^ suc t / 2 ≡ w * 2 ^ t = omega (arith, double) in
    let even : w * 2 ^ suc t % 2 ≡ 0 = omega (arith, double) in
    let deeper : a / 2 / 2 ^ t ≡ a / 2 ^ suc t =
      div-div-eq-div-mul a 2 (2 ^ t) ∙ ap (λ (d : ℕ). a / d) (omega (arith, pow-suc 2 t)) in
    let ih = bit_and-shl t (a / 2) w in
    let step = bit_and_step a (w * 2 ^ suc t) in
    let x = bit_and (a / 2 ^ suc t) w in
    let out : x * 2 ^ suc t ≡ 2 * (x * 2 ^ t) =
      omega (arith, ap (λ (p : ℕ). x * p) (pow-suc 2 t)) in
    omega (arith, rw (half, even) at step, rw deeper at ih, out)
