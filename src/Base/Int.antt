-- ===== src/Base/Int.antt =====
-- Signed integers over the native numbers, under the library's names, and the integer that a
-- machine word stands for.
use nanokrnl.Base.{ℕ, suc, ◌+◌, ◌-◌, ◌*◌, Bool, ◌&&◌, ltb, leb, if◌then◌else◌}

-- `negsuc n` is -(n + 1).
pub data ℤ : Type 0 where
  pos : ℕ → ℤ
  negsuc : ℕ → ℤ

abbrev pub pos_part : ℤ → ℕ
pos_part (pos n) = n
pos_part (negsuc n) = 0

abbrev pub neg_part : ℤ → ℕ
neg_part (pos n) = 0
neg_part (negsuc n) = suc n

abbrev pub sub_ℕ : ℕ → ℕ → ℤ
sub_ℕ a b = if leb b a then pos (a - b) else negsuc (b - a - 1)

infixl 65 ◌+ℤ◌ ◌-ℤ◌
abbrev pub ◌+ℤ◌ : ℤ → ℤ → ℤ
a +ℤ b = sub_ℕ (pos_part a + pos_part b) (neg_part a + neg_part b)

abbrev pub ◌-ℤ◌ : ℤ → ℤ → ℤ
a -ℤ b = sub_ℕ (pos_part a + neg_part b) (neg_part a + pos_part b)

abbrev pub ltb_ℤ : ℤ → ℤ → Bool
ltb_ℤ a b = ltb (pos_part a + neg_part b) (pos_part b + neg_part a)

-- A word below `2 * h` in two's complement.
abbrev pub signed : (h w : ℕ) → ℤ
signed h w = if ltb w h then pos w else negsuc (2 * h - w - 1)

-- `x` is from -h to h - 1.
abbrev pub fits : (h : ℕ) → ℤ → Bool
fits h x = ltb (pos_part x) h && leb (neg_part x) h
