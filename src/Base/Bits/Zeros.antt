-- ===== src/Base/Bits/Zeros.antt =====
-- `leading_zeros` and the highest digit of a word.
use nanokrnl.Base.{
  ℕ, zero, suc, ◌+◌, ◌<◌, ◌≡◌, true, false, ◌⊎◌, inl, inr, if◌then◌else◌, Bool-cases, arith,
}
use nanokrnl.Base.Bits.{bit}

-- `leading_zeros` of the low `n` digits.
unfoldable pub zeros_from : ℕ → ℕ → ℕ
zeros_from zero w = 0
zeros_from (suc n) w = let rest = zeros_from n w in if bit w n then 0 else suc rest

-- The highest digit of a word.
pub zeros_from-top :
    (n w : ℕ)
    → ((k : ℕ) → k < n → bit w k ≡ false)
      ⊎ ((p : ℕ) × (p + 1 + zeros_from n w ≡ n)
          × (bit w p ≡ true)
          × ((k : ℕ) → p < k → k < n → bit w k ≡ false))
unfolding zeros_from
zeros_from-top zero w = inl (λ k lt. absurd (omega arith))
zeros_from-top (suc n) w = elim (Bool-cases (bit w n)) [
  | inl on ↦ inr (n, ground (arith, on), on, λ k lo hi. absurd (omega arith))
  | inr off ↦ elim (zeros_from-top n w) [
    | inl all ↦ inl (λ k lt. ground (arith, all k))
    | inr (p, eq, on, above) ↦
        inr (p, ground (arith, eq, off), on, λ k lo hi. ground (arith, above k))
  ]
]
