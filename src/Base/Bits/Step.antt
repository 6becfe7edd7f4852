-- ===== src/Base/Bits/Step.antt =====
-- One equation for the lowest digit of `a & b` and of `a | b`. The native operations stand for a
-- recursion on digits that is cut off by a bound; any bound from the first operand on will do.
use Prim.Native.Nat.{
  ℕ, zero, suc, ◌+◌, ◌-◌, ◌*◌, ◌/◌, ◌%◌, ◌≤◌, min, max, differ, digits, bitwise, bit_and, bit_or,
  bit_xor, bit_and-bitwise, bit_or-bitwise, bit_xor-bitwise,
}
use mathlib.Core.Path.{◌≡◌, refl}
use native.Mathlib.Omega.{arith}

module _ (rest : ℕ → ℕ) (op : ℕ → ℕ → ℕ) where
  bound_irrelevant : (x y k l : ℕ) → x ≤ k → x ≤ l → digits rest op k x y ≡ digits rest op l x y
  bound_irrelevant zero y zero zero hk hl = refl
  bound_irrelevant zero y zero (suc l) hk hl = refl
  bound_irrelevant zero y (suc k) zero hk hl = refl
  bound_irrelevant zero y (suc k) (suc l) hk hl = refl
  bound_irrelevant (suc x) y zero l hk hl = absurd (omega arith)
  bound_irrelevant (suc x) y (suc k) zero hk hl = absurd (omega arith)
  bound_irrelevant (suc x) y (suc k) (suc l) hk hl =
      rw (bound_irrelevant (suc x / 2) (y / 2) k l (omega arith) (omega arith))

  lowest_digit :
      (x y : ℕ)
      → bitwise rest op (suc x) y ≡ 2 * bitwise rest op (suc x / 2) (y / 2) + op (suc x % 2) (y % 2)
  lowest_digit x y =
      omega (arith, bound_irrelevant (suc x / 2) (y / 2) x (suc x / 2) (omega arith) (omega arith))

pub bit_and-left_zero : (y : ℕ) → bit_and 0 y ≡ 0
bit_and-left_zero y = bit_and-bitwise 0 y

pub bit_and_step : (x y : ℕ) → bit_and x y ≡ 2 * bit_and (x / 2) (y / 2) + min (x % 2) (y % 2)
bit_and_step zero y = simp bit_and-bitwise (omega arith)
bit_and_step (suc x) y = simp bit_and-bitwise (lowest_digit (λ b. 0) min x y)

pub bit_or_step : (x y : ℕ) → bit_or x y ≡ 2 * bit_or (x / 2) (y / 2) + max (x % 2) (y % 2)
bit_or_step zero y = simp bit_or-bitwise (omega arith)
bit_or_step (suc x) y = simp bit_or-bitwise (lowest_digit (λ b. b) max x y)

pub bit_xor_step : (x y : ℕ) → bit_xor x y ≡ 2 * bit_xor (x / 2) (y / 2) + differ (x % 2) (y % 2)
bit_xor_step zero y = simp bit_xor-bitwise (omega arith)
bit_xor_step (suc x) y = simp bit_xor-bitwise (lowest_digit (λ b. b) differ x y)

pub differ_lem : (a b : ℕ) → differ a b ≡ (a - b) + (b - a)
differ_lem zero b = omega arith
differ_lem (suc a) zero = omega arith
differ_lem (suc a) (suc b) = omega (arith, differ_lem a b)
