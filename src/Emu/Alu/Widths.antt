-- ===== src/Emu/Alu/Widths.antt =====
-- emu/src/lib.rs: what the masks and the wrapping operations give at each operand size.
use nanokrnl.Base.{
  ℕ, ◌+◌, ◌-◌, ◌*◌, ◌/◌, ◌%◌, ◌^◌, ◌<◌, ◌≤◌, ◌≡◌, refl, ◌∙◌, bit_and, ◌==◌, leb, ◌⊎◌, arith,
}
use nanokrnl.Base.Bits.Words.{bit_and-ones}
use nanokrnl.Emu.Alu.{mask_of, masked, wrapping_sub}

-- The operand sizes of the instruction set, in bytes.
pub data IsSize : ℕ → Type 0 where
  byte : IsSize 1
  word : IsSize 2
  double : IsSize 4
  quad : IsSize 8

-- How many words there are of a size, and half as many.
abbrev pub words : ℕ → ℕ
words size = 2 ^ (size * 8)

abbrev pub half : ℕ → ℕ
half size = 2 ^ (size * 8 - 1)

pub words-half : {size : ℕ} → IsSize size → words size ≡ 2 * half size
words-half byte = refl
words-half word = refl
words-half double = refl
words-half quad = refl

pub mask-words : {size : ℕ} → IsSize size → mask_of size + 1 ≡ words size
mask-words byte = refl
mask-words word = refl
mask-words double = refl
mask-words quad = refl

pub top_lt : {size : ℕ} → IsSize size → size * 8 - 1 < 64
top_lt byte = omega arith
top_lt word = omega arith
top_lt double = omega arith
top_lt quad = omega arith

-- `x & mask` cuts to the width.
pub mask_lem :
    {size : ℕ} (x : ℕ) → IsSize size → x < 2 ^ 64 → bit_and x (mask_of size) ≡ x % words size
mask_lem x byte lt = bit_and-ones 64 8 x lt (omega arith)
mask_lem x word lt = bit_and-ones 64 16 x lt (omega arith)
mask_lem x double lt = bit_and-ones 64 32 x lt (omega arith)
mask_lem x quad lt = bit_and-ones 64 64 x lt (omega arith)

-- `set_zsp` finds a result of the width as it is.
pub masked_lem : {size : ℕ} (x : ℕ) → IsSize size → x < words size → masked x size ≡ x
masked_lem x byte lt = bit_and-ones 64 8 x (omega (arith, lt)) (omega arith) ∙ omega (arith, lt)
masked_lem x word lt = bit_and-ones 64 16 x (omega (arith, lt)) (omega arith) ∙ omega (arith, lt)
masked_lem x double lt = bit_and-ones 64 32 x (omega (arith, lt)) (omega arith) ∙ omega (arith, lt)
masked_lem x quad lt = refl

pub sign_lem :
    {size : ℕ} (x : ℕ)
    → IsSize size
    → x < words size
    → (bit_and (x / half size) 1 == 1) ≡ leb (half size) x
sign_lem x byte lt =
    rw (bit_and-ones 64 1 (x / 2 ^ 7) (omega (arith, lt)) (omega arith)) (ground (arith, lt))
sign_lem x word lt =
    rw (bit_and-ones 64 1 (x / 2 ^ 15) (omega (arith, lt)) (omega arith)) (ground (arith, lt))
sign_lem x double lt =
    rw (bit_and-ones 64 1 (x / 2 ^ 31) (omega (arith, lt)) (omega arith)) (ground (arith, lt))
sign_lem x quad lt =
    rw (bit_and-ones 64 1 (x / 2 ^ 63) (omega (arith, lt)) (omega arith)) (ground (arith, lt))

-- `r` is `s` or what is left of it after the carry.
abbrev pub Wraps : (size s r : ℕ) → Type 0
Wraps size s r = (r < words size) × ((r ≡ s) ⊎ (r + words size ≡ s))

pub sum_lem :
    {size : ℕ} (s : ℕ)
    → IsSize size
    → s < words size + words size
    → Wraps size s (bit_and (s % 2 ^ 64) (mask_of size))
sum_lem s byte lt =
    rw (bit_and-ones 64 8 (s % 2 ^ 64) (omega arith) (omega arith)) (ground (arith, lt))
sum_lem s word lt =
    rw (bit_and-ones 64 16 (s % 2 ^ 64) (omega arith) (omega arith)) (ground (arith, lt))
sum_lem s double lt =
    rw (bit_and-ones 64 32 (s % 2 ^ 64) (omega arith) (omega arith)) (ground (arith, lt))
sum_lem s quad lt =
    rw (bit_and-ones 64 64 (s % 2 ^ 64) (omega arith) (omega arith)) (ground (arith, lt))

-- `r` is a - b - c, where it borrows if it has to.
abbrev pub Borrows : (size a b c r : ℕ) → Type 0
Borrows size a b c r = (r < words size) × ((r + b + c ≡ a) ⊎ (r + b + c ≡ a + words size))

pub difference_lem :
    {size : ℕ} (a b c : ℕ)
    → IsSize size
    → a < words size
    → b < words size
    → c ≤ 1
    → Borrows size a b c (bit_and (wrapping_sub (wrapping_sub a b) c) (mask_of size))
difference_lem a b c byte ha hb hc =
    rw (bit_and-ones 64 8 (wrapping_sub (wrapping_sub a b) c) (omega arith) (omega arith))
      (ground (arith, ha, hb, hc))
difference_lem a b c word ha hb hc =
    rw (bit_and-ones 64 16 (wrapping_sub (wrapping_sub a b) c) (omega arith) (omega arith))
      (ground (arith, ha, hb, hc))
difference_lem a b c double ha hb hc =
    rw (bit_and-ones 64 32 (wrapping_sub (wrapping_sub a b) c) (omega arith) (omega arith))
      (ground (arith, ha, hb, hc))
difference_lem a b c quad ha hb hc =
    rw (bit_and-ones 64 64 (wrapping_sub (wrapping_sub a b) c) (omega arith) (omega arith))
      (ground (arith, ha, hb, hc))
