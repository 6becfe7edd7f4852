-- ===== src/Emu/Alu/Overflow.antt =====
-- emu/src/lib.rs: the overflow flag from the signs of operands and result.
use Prim.Native.Nat.{bit_xor}
use native.Mathlib.Nat.{pow-le-pow_right}
use nanokrnl.Base.{
  ℕ, suc, ◌+◌, ◌*◌, ◌^◌, ◌<◌, ◌≤◌, ◌≡◌, bit_and, Bool, not, ◌&&◌, ◌==◌, leb, ◌⊎◌, arith,
}
use nanokrnl.Base.Int.{pos, ◌+ℤ◌, ◌-ℤ◌, ltb_ℤ, signed, fits}
use nanokrnl.Base.Bits.{bit-bit_and, bit_and-pow}
use nanokrnl.Base.Bits.Words.{xor, bit-bit_xor, bit_xor-lt, bit-not, bit-top}
use nanokrnl.Emu.Alu.{not64}

-- Whether the signs `a` and `b` agree and that of the result `r` differs.
abbrev pub add_overflow : (a b r : Bool) → Bool
add_overflow a b r = not (xor a b) && xor a r

abbrev pub sub_overflow : (a b r : Bool) → Bool
sub_overflow a b r = xor a b && xor a r

pub add_overflow_lem :
    (m am bm r : ℕ)
    → m < 64
    → am < 2 ^ suc m
    → bm < 2 ^ suc m
    → r < 2 ^ suc m
    → not (bit_and (bit_and (not64 (bit_xor am bm)) (bit_xor am r)) (2 ^ m) == 0)
      ≡ add_overflow (leb (2 ^ m) am) (leb (2 ^ m) bm) (leb (2 ^ m) r)
add_overflow_lem m am bm r hm ha hb hr =
    let le : suc m ≤ 64 = omega (arith, hm) in
    let wide : 2 ^ suc m ≤ 2 ^ 64 = pow-le-pow_right (omega arith) le in
    rw
      (
        bit_and-pow m (bit_and (not64 (bit_xor am bm)) (bit_xor am r)),
        bit-bit_and (not64 (bit_xor am bm)) (bit_xor am r) m,
        bit-not 64 (bit_xor am bm) m
            (bit_xor-lt 64 am bm (omega (arith, wide, ha)) (omega (arith, wide, hb))) hm,
        bit-bit_xor am bm m,
        bit-bit_xor am r m,
        bit-top m am ha,
        bit-top m bm hb,
        bit-top m r hr,
      )
      (ground arith)

pub sub_overflow_lem :
    (m am bm r : ℕ)
    → am < 2 ^ suc m
    → bm < 2 ^ suc m
    → r < 2 ^ suc m
    → not (bit_and (bit_and (bit_xor am bm) (bit_xor am r)) (2 ^ m) == 0)
      ≡ sub_overflow (leb (2 ^ m) am) (leb (2 ^ m) bm) (leb (2 ^ m) r)
sub_overflow_lem m am bm r ha hb hr =
    rw
      (
        bit_and-pow m (bit_and (bit_xor am bm) (bit_xor am r)),
        bit-bit_and (bit_xor am bm) (bit_xor am r) m,
        bit-bit_xor am bm m,
        bit-bit_xor am r m,
        bit-top m am ha,
        bit-top m bm hb,
        bit-top m r hr,
      )
      (ground arith)

-- The sign rule for a sum of words below 2 * h, with a carry in.
pub add_overflow-fits :
    (h a b c r : ℕ)
    → a < 2 * h
    → b < 2 * h
    → c ≤ 1
    → r < 2 * h
    → (r ≡ a + b + c) ⊎ (r + 2 * h ≡ a + b + c)
    → add_overflow (leb h a) (leb h b) (leb h r) ≡ not (fits h (signed h a +ℤ signed h b +ℤ pos c))
add_overflow-fits h a b c r ha hb hc hr sum = ground arith

pub sub_overflow-fits :
    (h a b c r : ℕ)
    → a < 2 * h
    → b < 2 * h
    → c ≤ 1
    → r < 2 * h
    → (r + b + c ≡ a) ⊎ (r + b + c ≡ a + 2 * h)
    → sub_overflow (leb h a) (leb h b) (leb h r) ≡ not (fits h (signed h a -ℤ signed h b -ℤ pos c))
sub_overflow-fits h a b c r ha hb hc hr difference = ground arith

-- After a comparison, sign and overflow differ exactly if the first operand is the smaller one.
pub less_lem :
    (h a b r : ℕ)
    → a < 2 * h
    → b < 2 * h
    → r < 2 * h
    → (r + b + 0 ≡ a) ⊎ (r + b + 0 ≡ a + 2 * h)
    → xor (leb h r) (sub_overflow (leb h a) (leb h b) (leb h r)) ≡ ltb_ℤ (signed h a) (signed h b)
less_lem h a b r ha hb hr difference = ground arith
