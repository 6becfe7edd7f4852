-- ===== src/Emu/Alu/Outcome.antt =====
-- emu/src/lib.rs: `apply_alu` and the condition codes against the integers that the words stand for.
use nanokrnl.Base.{
  ℕ, ◌+◌, ◌-◌, ◌*◌, ◌/◌, ◌%◌, ◌^◌, ◌<◌, ◌≤◌, ◌≡◌, refl, ap, subst, suc, ◌∙◌, bit_and, Bool, true,
  false, not, if◌then◌else◌, ◌==◌, ltb, leb, ◌⊎◌, arith,
}
use native.Mathlib.Nat.{pow-suc}
use nanokrnl.Base.Int.{pos, ◌+ℤ◌, ◌-ℤ◌, signed, fits}
use nanokrnl.Emu.Alu.{
  Alu, flag, cf, zf, sf, of, set_zsp, mask_of, add_arm, sub_arm, alu_arm, apply_alu,
}
use nanokrnl.Emu.Alu.Flags.{zsp_cf, zsp_of, zsp_zf, zsp_sf, arm_cf, arm_of}
use nanokrnl.Emu.Alu.Widths.{
  IsSize, byte, word, double, quad, words, half, words-half, mask-words, top_lt, mask_lem,
  masked_lem, sign_lem, Wraps, sum_lem, Borrows, difference_lem,
}
use nanokrnl.Emu.Alu.Overflow.{
  sub_overflow, add_overflow_lem, sub_overflow_lem, add_overflow-fits, sub_overflow-fits,
}

-- The zero and the sign flag say what the result is.
pub record Shown (size : ℕ) (r : Alu) : Type 0 where
  pub zero_flag : flag r.rflags zf ≡ (r.res == 0)
  pub sign_flag : flag r.rflags sf ≡ leb (half size) r.res

shown_lem :
    {size : ℕ} (r : Alu)
    → IsSize size
    → r.res < words size
    → Shown size (record r { rflags = set_zsp r.res size r.rflags })
shown_lem {size} r is lt = record {
  zero_flag = zsp_zf r.res size r.rflags ∙ ap (λ x. x == 0) (masked_lem r.res is lt);
  sign_flag =
      zsp_sf r.res size r.rflags
      ∙ ap (λ x. bit_and (x / 2 ^ (size * 8 - 1)) 1 == 1) (masked_lem r.res is lt)
      ∙ sign_lem r.res is lt;
}

-- The sum of `a`, `b` and the carry `c` at a width.
pub record Sums (size a b c : ℕ) (r : Alu) : Type 0 where
  pub result : Wraps size (a + b + c) r.res
  pub stored : r.writeback ≡ true
  pub carry : flag r.rflags cf ≡ leb (words size) (a + b + c)
  pub overflow :
      flag r.rflags of
      ≡ not (fits (half size) (signed (half size) a +ℤ signed (half size) b +ℤ pos c))
  pub shown : Shown size r

-- A word of the width, as the overflow lemmas want it.
in_width : {size : ℕ} (x : ℕ) → IsSize size → x < words size → x < 2 ^ suc (size * 8 - 1)
in_width {size} x is lt = omega (arith, pow-suc 2 (size * 8 - 1), words-half is)

add_arm-Sums :
    {size : ℕ} (a b c rflags : ℕ)
    → IsSize size
    → a < words size
    → b < words size
    → c ≤ 1
    → let r = add_arm c (mask_of size) (half size) a b rflags in
      Sums size a b c (record r { rflags = set_zsp r.res size r.rflags })
unfolding add_arm
add_arm-Sums {size} a b c rflags is ha hb hc =
    let r = add_arm c (mask_of size) (half size) a b rflags in
    let (lt, wraps) = sum_lem (a + b + c) is (omega (arith, ha, hb, hc, words-half is)) in
    let two = words-half is in
    let over =
      add_overflow_lem (size * 8 - 1) a b r.res (top_lt is) (in_width a is ha) (in_width b is hb)
        (in_width r.res is lt) in
    record {
      result = (lt, wraps);
      stored = refl;
      carry = zsp_cf r.res size r.rflags ∙ arm_cf _ _ rflags ∙ ground (arith, mask-words is);
      overflow =
          zsp_of r.res size r.rflags
          ∙ arm_of _ _
          ∙ over
          ∙ add_overflow-fits (half size) a b c r.res (omega (arith, ha, two))
              (omega (arith, hb, two)) hc (omega (arith, lt, two))
              (subst (λ w. (r.res ≡ a + b + c) ⊎ (r.res + w ≡ a + b + c)) two wraps);
      shown = shown_lem r is lt;
    }

-- The difference `a` less `b` less the borrow `c` at a width.
pub record Differs (size a b c : ℕ) (writeback : Bool) (r : Alu) : Type 0 where
  pub result : Borrows size a b c r.res
  pub stored : r.writeback ≡ writeback
  pub borrow : flag r.rflags cf ≡ ltb a (b + c)
  pub overflow :
      flag r.rflags of
      ≡ not (fits (half size) (signed (half size) a -ℤ signed (half size) b -ℤ pos c))
  pub signs :
      flag r.rflags of
      ≡ sub_overflow (leb (half size) a) (leb (half size) b) (leb (half size) r.res)
  pub shown : Shown size r

sub_arm-Differs :
    {size : ℕ} (w : Bool) (a b c rflags : ℕ)
    → IsSize size
    → a < words size
    → b < words size
    → c ≤ 1
    → let r = sub_arm w c (mask_of size) (half size) a b rflags in
      Differs size a b c w (record r { rflags = set_zsp r.res size r.rflags })
unfolding sub_arm
sub_arm-Differs {size} w a b c rflags is ha hb hc =
    let r = sub_arm w c (mask_of size) (half size) a b rflags in
    let (lt, borrows) = difference_lem a b c is ha hb hc in
    let two = words-half is in
    let over =
      sub_overflow_lem (size * 8 - 1) a b r.res (in_width a is ha) (in_width b is hb)
        (in_width r.res is lt) in
    let signs : flag (set_zsp r.res size r.rflags) of
        ≡ sub_overflow (leb (half size) a) (leb (half size) b) (leb (half size) r.res) =
      zsp_of r.res size r.rflags ∙ arm_of _ _ ∙ over in
    record {
      result = (lt, borrows);
      stored = refl;
      borrow = zsp_cf r.res size r.rflags ∙ arm_cf _ _ rflags;
      overflow =
          signs
          ∙ sub_overflow-fits (half size) a b c r.res (omega (arith, ha, two))
              (omega (arith, hb, two)) hc (omega (arith, lt, two))
              (subst (λ v. (r.res + b + c ≡ a) ⊎ (r.res + b + c ≡ a + v)) two borrows);
      signs = signs;
      shown = shown_lem r is lt;
    }

-- The carry into `adc` and `sbb`.
abbrev pub carry_in : (with_carry : Bool) (rflags : ℕ) → ℕ
carry_in true rflags = if flag rflags cf then 1 else 0
carry_in false rflags = 0

carry_in-le : (with_carry : Bool) (rflags : ℕ) → carry_in with_carry rflags ≤ 1
carry_in-le true rflags = ground arith
carry_in-le false rflags = omega arith

pub cut-lt : {size : ℕ} (x : ℕ) → IsSize size → x % words size < words size
cut-lt x byte = omega arith
cut-lt x word = omega arith
cut-lt x double = omega arith
cut-lt x quad = omega arith

-- `add` (sel 0) and `adc` (sel 2) of 64-bit operands at each size return the sum of their low parts, with the carry flag
-- for `adc`, cut to the size. The carry flag says whether that sum leaves the width, the overflow
-- flag whether the sum of the signed values does, the zero and the sign flag what the result is.
pub apply_alu-Sums :
    {size : ℕ} (with_carry : Bool) (a b rflags : ℕ)
    → IsSize size
    → a < 2 ^ 64
    → b < 2 ^ 64
    → Sums size
        (a % words size)
        (b % words size)
        (carry_in with_carry rflags)
        (apply_alu (if with_carry then 2 else 0) a b size rflags)
unfolding apply_alu alu_arm
apply_alu-Sums true a b rflags is ha hb =
    rw (mask_lem a is ha, mask_lem b is hb)
      (add_arm-Sums (a % words _) (b % words _) (carry_in true rflags) rflags is (cut-lt a is)
        (cut-lt b is) (carry_in-le true rflags))
apply_alu-Sums false a b rflags is ha hb =
    rw (mask_lem a is ha, mask_lem b is hb)
      (add_arm-Sums (a % words _) (b % words _) (carry_in false rflags) rflags is (cut-lt a is)
        (cut-lt b is) (carry_in-le false rflags))

-- The three subtractions: with borrow, without, and one that only sets flags.
pub data Subtraction : Type 0 where
  sbb sub cmp : Subtraction

abbrev pub sel_of : Subtraction → ℕ
sel_of sbb = 3
sel_of sub = 5
sel_of cmp = 7

abbrev pub borrow_in : Subtraction → (rflags : ℕ) → ℕ
borrow_in sbb rflags = carry_in true rflags
borrow_in sub rflags = 0
borrow_in cmp rflags = 0

abbrev pub stores : Subtraction → Bool
stores sbb = true
stores sub = true
stores cmp = false

-- `sbb`, `sub` and `cmp` of 64-bit operands at each size return the difference of their low parts,
-- less the carry flag for `sbb`, cut to the size, and `cmp` alone does not store it. The carry flag
-- says whether the difference borrows, the overflow flag whether the difference of the signed values leaves the width.
pub apply_alu-Differs :
    {size : ℕ} (op : Subtraction) (a b rflags : ℕ)
    → IsSize size
    → a < 2 ^ 64
    → b < 2 ^ 64
    → Differs size
        (a % words size)
        (b % words size)
        (borrow_in op rflags)
        (stores op)
        (apply_alu (sel_of op) a b size rflags)
unfolding apply_alu alu_arm
apply_alu-Differs sbb a b rflags is ha hb =
    rw (mask_lem a is ha, mask_lem b is hb)
      (sub_arm-Differs true (a % words _) (b % words _) (carry_in true rflags) rflags is
        (cut-lt a is) (cut-lt b is) (carry_in-le true rflags))
apply_alu-Differs sub a b rflags is ha hb =
    rw (mask_lem a is ha, mask_lem b is hb)
      (sub_arm-Differs true (a % words _) (b % words _) 0 rflags is (cut-lt a is) (cut-lt b is)
        (omega arith))
apply_alu-Differs cmp a b rflags is ha hb =
    rw (mask_lem a is ha, mask_lem b is hb)
      (sub_arm-Differs false (a % words _) (b % words _) 0 rflags is (cut-lt a is) (cut-lt b is)
        (omega arith))
