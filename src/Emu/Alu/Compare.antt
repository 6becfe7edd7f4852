-- ===== src/Emu/Alu/Compare.antt =====
-- emu/src/lib.rs: a conditional instruction after `cmp`.
use nanokrnl.Base.{
  ℕ, ◌+◌, ◌*◌, ◌%◌, ◌^◌, ◌<◌, ◌≡◌, refl, subst, ◌∙◌, not, ◌||◌, ◌==◌, ltb, leb, ◌⊎◌, arith,
}
use nanokrnl.Base.Int.{ltb_ℤ, signed}
use nanokrnl.Base.Bits.Words.{xor}
use nanokrnl.Emu.Alu.{flag, cf, zf, sf, of, apply_alu, cond}
use nanokrnl.Emu.Alu.Widths.{IsSize, words, half, words-half}
use nanokrnl.Emu.Alu.Overflow.{less_lem}
use nanokrnl.Emu.Alu.Outcome.{cmp, cut-lt, apply_alu-Differs}

-- The ten conditions that compare the words `a` and `b` below `2 * h`, by the number of their condition code.
pub record Compares (h a b rflags : ℕ) : Type 0 where
  pub below : cond 0x2 rflags ≡ ltb a b
  pub above_or_equal : cond 0x3 rflags ≡ leb b a
  pub equal : cond 0x4 rflags ≡ (a == b)
  pub not_equal : cond 0x5 rflags ≡ not (a == b)
  pub below_or_equal : cond 0x6 rflags ≡ leb a b
  pub above : cond 0x7 rflags ≡ ltb b a
  pub less : cond 0xc rflags ≡ ltb_ℤ (signed h a) (signed h b)
  pub greater_or_equal : cond 0xd rflags ≡ not (ltb_ℤ (signed h a) (signed h b))
  pub less_or_equal : cond 0xe rflags ≡ not (ltb_ℤ (signed h b) (signed h a))
  pub greater : cond 0xf rflags ≡ ltb_ℤ (signed h b) (signed h a)

less-le :
    (h a b : ℕ)
    → a < 2 * h
    → b < 2 * h
    → ((a == b) || ltb_ℤ (signed h a) (signed h b)) ≡ not (ltb_ℤ (signed h b) (signed h a))
less-le h a b ha hb = ground arith

-- The conditions from the flags.
flags-Compares :
    (h a b rflags : ℕ)
    → a < 2 * h
    → b < 2 * h
    → flag rflags cf ≡ ltb a b
    → flag rflags zf ≡ (a == b)
    → xor (flag rflags sf) (flag rflags of) ≡ ltb_ℤ (signed h a) (signed h b)
    → Compares h a b rflags
unfolding cond
flags-Compares h a b rflags ha hb c z l = record {
  below = c;
  above_or_equal = rw c (ground arith);
  equal = z;
  not_equal = rw z refl;
  below_or_equal = rw (c, z) (ground arith);
  above = rw (c, z) (ground arith);
  less = l;
  greater_or_equal = rw l refl;
  less_or_equal = rw (z, l) (less-le h a b ha hb);
  greater = rw (z, l) (ground (arith, less-le h a b ha hb));
}

equal_lem :
    (h a b r : ℕ)
    → a < 2 * h
    → b < 2 * h
    → r < 2 * h
    → (r + b + 0 ≡ a) ⊎ (r + b + 0 ≡ a + 2 * h)
    → (r == 0) ≡ (a == b)
equal_lem h a b r ha hb hr borrows = ground arith

-- After `cmp` of two 64-bit operands at any size, each of the conditions b, ae, e, ne, be and a
-- holds exactly when it holds of their low parts as numbers, and each of l, ge, le and g exactly
-- when it holds of the signed values of these parts.
pub cmp-Compares :
    {size : ℕ} (a b rflags : ℕ)
    → IsSize size
    → a < 2 ^ 64
    → b < 2 ^ 64
    → Compares (half size) (a % words size) (b % words size) (apply_alu 7 a b size rflags).rflags
cmp-Compares {size} a b rflags is ha hb =
    let two = words-half is in
    let d = apply_alu-Differs cmp a b rflags is ha hb in
    let r = apply_alu 7 a b size rflags in
    let x = a % words size in
    let y = b % words size in
    let x_lt : x < 2 * half size = omega (arith, cut-lt a is, two) in
    let y_lt : y < 2 * half size = omega (arith, cut-lt b is, two) in
    let r_lt : r.res < 2 * half size = omega (arith, d.result.0, two) in
    let borrows = subst (λ v. (r.res + y + 0 ≡ x) ⊎ (r.res + y + 0 ≡ x + v)) two d.result.1 in
    flags-Compares (half size) x y r.rflags x_lt y_lt (d.borrow ∙ ground arith)
      (d.shown.zero_flag ∙ equal_lem (half size) x y r.res x_lt y_lt r_lt borrows)
      (rw (d.shown.sign_flag, d.signs) refl ∙ less_lem (half size) x y r.res x_lt y_lt r_lt borrows)
