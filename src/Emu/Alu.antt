-- ===== src/Emu/Alu.antt =====
-- emu/src/lib.rs: the flags and the two-operand arithmetic of the processor. `rflags` is the only
-- field of the processor that this code reads and writes, so the functions take and return it. A
-- `size` is a number of bytes: 1, 2, 4 or 8.
pub mod Flags
pub mod Widths
pub mod Overflow
pub mod Outcome
pub mod Compare
mod Tests
use nanokrnl.Base.{
  ℕ, ◌+◌, ◌-◌, ◌*◌, ◌/◌, ◌%◌, ◌^◌, bit_and, bit_or, Bool, true, false, not, ◌&&◌, ◌||◌, ◌==◌, ltb,
  leb, if◌then◌else◌,
}
use Prim.Native.Nat.{bit_xor}
use nanokrnl.Base.Bits.Words.{xor}
use nanokrnl.Rtl.Bitmap.{count_digits}

abbrev pub cf : ℕ
cf = 2 ^ 0

abbrev pub pf : ℕ
pf = 2 ^ 2

abbrev pub zf : ℕ
zf = 2 ^ 6

abbrev pub sf : ℕ
sf = 2 ^ 7

abbrev pub of : ℕ
of = 2 ^ 11

unfoldable pub flag : (rflags bit : ℕ) → Bool
flag rflags bit = not (bit_and rflags bit == 0)

-- `!bit` at 64 bits
abbrev pub not64 : ℕ → ℕ
not64 x = 2 ^ 64 - 1 - x

unfoldable pub set_flag : (bit : ℕ) → Bool → (rflags : ℕ) → ℕ
set_flag bit on rflags = if on then bit_or rflags bit else bit_and rflags (not64 bit)

-- `masked` of `set_zsp`
abbrev pub masked : (val size : ℕ) → ℕ
masked val size = if size * 8 == 64 then val else bit_and val (2 ^ (size * 8) - 1)

unfoldable pub set_zsp : (val size rflags : ℕ) → ℕ
set_zsp val size rflags = set_flag pf (count_digits 8 (masked val size % 2 ^ 8) % 2 == 0) (
    set_flag sf (bit_and (masked val size / 2 ^ (size * 8 - 1)) 1 == 1)
      (set_flag zf (masked val size == 0) rflags))

unfoldable pub logic_flags : (rflags : ℕ) → ℕ
logic_flags rflags = set_flag of false (set_flag cf false rflags)

pub record Alu : Type 0 where
  pub rflags : ℕ
  pub res : ℕ
  pub writeback : Bool

-- `wrapping_sub` at 64 bits
abbrev pub wrapping_sub : ℕ → ℕ → ℕ
wrapping_sub a b = (a + 2 ^ 64 - b) % 2 ^ 64

-- The arms of `apply_alu`, at operands cut to the width.
unfoldable pub add_arm : (c mask msb am bm rflags : ℕ) → Alu
add_arm c mask msb am bm rflags =
    let wide = am + bm + c in
    let res = bit_and (wide % 2 ^ 64) mask in
    record {
      rflags =
          set_flag of (not (bit_and (bit_and (not64 (bit_xor am bm)) (bit_xor am res)) msb == 0))
            (set_flag cf (ltb mask wide) rflags);
      res = res;
      writeback = true;
    }

unfoldable pub sub_arm : (writeback : Bool) (c mask msb am bm rflags : ℕ) → Alu
sub_arm writeback c mask msb am bm rflags =
    let res = bit_and (wrapping_sub (wrapping_sub am bm) c) mask in
    record {
      rflags =
          set_flag of (not (bit_and (bit_and (bit_xor am bm) (bit_xor am res)) msb == 0))
            (set_flag cf (ltb am (bm + c)) rflags);
      res = res;
      writeback = writeback;
    }

unfoldable pub logic_arm : (res rflags : ℕ) → Alu
logic_arm res rflags = record { rflags = logic_flags rflags; res = res; writeback = true }

-- The `match` of `apply_alu`, with the carry flag as `cin`.
unfoldable pub alu_arm : (sel cin mask msb am bm rflags : ℕ) → Alu
alu_arm sel cin mask msb am bm rflags =
    if sel == 0 || sel == 2
    then add_arm (if sel == 2 then cin else 0) mask msb am bm rflags
    else if sel == 3 || (sel == 5 || sel == 7)
    then sub_arm (not (sel == 7)) (if sel == 3 then cin else 0) mask msb am bm rflags
    else if sel == 1
    then logic_arm (bit_and (bit_or am bm) mask) rflags
    else if sel == 4
    then logic_arm (bit_and (bit_and am bm) mask) rflags
    else if sel == 6
    then logic_arm (bit_and (bit_xor am bm) mask) rflags
    else record { rflags = rflags; res = am; writeback = false }

-- `mask` of `apply_alu`
abbrev pub mask_of : (size : ℕ) → ℕ
mask_of size = if leb 64 (size * 8) then 2 ^ 64 - 1 else 2 ^ (size * 8) - 1

unfoldable pub apply_alu : (sel a b size rflags : ℕ) → Alu
apply_alu sel a b size rflags =
    let done =
      alu_arm sel (if flag rflags cf then 1 else 0) (mask_of size) (2 ^ (size * 8 - 1))
        (bit_and a (mask_of size)) (bit_and b (mask_of size)) rflags in
    record done { rflags = set_zsp done.res size done.rflags }

-- A condition code.
unfoldable pub cond : (cc rflags : ℕ) → Bool
cond cc rflags =
    let c = flag rflags cf in
    let z = flag rflags zf in
    let s = flag rflags sf in
    let o = flag rflags of in
    let p = flag rflags pf in
    let k = bit_and cc 0xf in
    if k == 0
    then o
    else if k == 1
    then not o
    else if k == 2
    then c
    else if k == 3
    then not c
    else if k == 4
    then z
    else if k == 5
    then not z
    else if k == 6
    then c || z
    else if k == 7
    then not c && not z
    else if k == 8
    then s
    else if k == 9
    then not s
    else if k == 10
    then p
    else if k == 11
    then not p
    else if k == 12
    then xor s o
    else if k == 13
    then not (xor s o)
    else if k == 14
    then z || xor s o
    else not z && not (xor s o)
