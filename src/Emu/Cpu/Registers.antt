-- ===== src/Emu/Cpu/Registers.antt =====
-- emu/src/lib.rs: partial writes of registers, and the model-specific registers.
use nanokrnl.Base.{
  ℕ, ◌+◌, ◌-◌, ◌*◌, ◌/◌, ◌%◌, ◌^◌, ◌<◌, ◌≡◌, ◌≢◌, refl, bit_and, true, some, length, leb,
  if◌then◌else◌, get_or-set_self, get_or-set_ne, arith,
}
use nanokrnl.Base.Bits.{}
use nanokrnl.Base.Bits.Words.{bit_and-ones, bit_and-shl, bit_or-add}
use nanokrnl.Emu.Alu.{}
use nanokrnl.Emu.Alu.Widths.{IsSize, byte, word, double, quad, words}
use nanokrnl.Emu.Mmu.{}
use nanokrnl.Emu.Mmu.Fields.{}
use nanokrnl.Emu.Cpu.{State, reg, reg_of, set_reg, merged, read_rm, write_rm}
use nanokrnl.Emu.Cpu.System.{}

-- A write of a byte or two keeps the part above, a wider one clears it.
merged_lem :
    {size : ℕ} (old val : ℕ)
    → IsSize size
    → old < 2 ^ 64
    → val < 2 ^ 64
    → merged size old val
      ≡ (if leb size 2 then old / words size * words size else 0) + val % words size
merged_lem old val byte ho hv =
    rw
      (
        bit_and-shl 8 old (2 ^ 56 - 1),
        bit_and-ones 64 56 (old / 2 ^ 8) (omega (arith, ho)) (omega arith),
        bit_and-ones 64 8 val hv (omega arith),
        bit_or-add 8 (old / 2 ^ 8 % 2 ^ 56) (val % 2 ^ 8) (omega arith),
      )
      (omega (arith, ho))
merged_lem old val word ho hv =
    rw
      (
        bit_and-shl 16 old (2 ^ 48 - 1),
        bit_and-ones 64 48 (old / 2 ^ 16) (omega (arith, ho)) (omega arith),
        bit_and-ones 64 16 val hv (omega arith),
        bit_or-add 16 (old / 2 ^ 16 % 2 ^ 48) (val % 2 ^ 16) (omega arith),
      )
      (omega (arith, ho))
merged_lem old val double ho hv = rw (bit_and-ones 64 32 val hv (omega arith)) (omega arith)
merged_lem old val quad ho hv = omega (arith, hv)

-- The low part of a register.
low_part :
    {size : ℕ} (v : ℕ)
    → IsSize size
    → v < 2 ^ 64
    → (if leb 8 size then v else bit_and v (2 ^ (size * 8) - 1)) ≡ v % words size
low_part v byte lt = bit_and-ones 64 8 v lt (omega arith)
low_part v word lt = bit_and-ones 64 16 v lt (omega arith)
low_part v double lt = bit_and-ones 64 32 v lt (omega arith)
low_part v quad lt = omega (arith, lt)

merged-lt :
    {size : ℕ} (old val : ℕ)
    → IsSize size
    → old < 2 ^ 64
    → val < 2 ^ 64
    → merged size old val < 2 ^ 64
merged-lt old val byte ho hv = omega (arith, merged_lem old val byte ho hv, ho)
merged-lt old val word ho hv = omega (arith, merged_lem old val word ho hv, ho)
merged-lt old val double ho hv = omega (arith, merged_lem old val double ho hv)
merged-lt old val quad ho hv = hv

merged-parts :
    {size : ℕ} (old val : ℕ)
    → IsSize size
    → old < 2 ^ 64
    → val < 2 ^ 64
    → (merged size old val % words size ≡ val % words size)
      × (merged size old val / words size ≡ (if leb size 2 then old / words size else 0))
merged-parts old val byte ho hv =
    (omega (arith, merged_lem old val byte ho hv), omega (arith, merged_lem old val byte ho hv))
merged-parts old val word ho hv =
    (omega (arith, merged_lem old val word ho hv), omega (arith, merged_lem old val word ho hv))
merged-parts old val double ho hv =
    (omega (arith, merged_lem old val double ho hv), omega (arith, merged_lem old val double ho hv))
merged-parts old val quad ho hv = (refl, omega (arith, hv))

-- The value of the register after `write_rm` of `val` at a size, and what `read_rm` reads then.
pub record WritesReg (s : State) (r val size : ℕ) (s1 : State) : Type 0 where
  pub value_lt : reg_of r s1 < 2 ^ 64
  pub read_back : read_rm (reg r) size s1 ≡ some (s1, some (val % words size))
  pub above : reg_of r s1 / words size ≡ (if leb size 2 then reg_of r s / words size else 0)

-- For a register that holds a 64-bit word and a 64-bit value, `write_rm` succeeds at each size. `read_rm` then returns the
-- value cut to the size, the bits above it are kept at one and two bytes and cleared at four, the register
-- still holds a 64-bit word, and any other register is unchanged.
pub write_rm-Reads :
    {size : ℕ} (s : State) (r val q : ℕ)
    → IsSize size
    → r < length s.cpu.regs
    → reg_of r s < 2 ^ 64
    → val < 2 ^ 64
    → r ≢ q
    → (write_rm (reg r) val size s ≡ some (set_reg r (merged size (reg_of r s) val) s, true))
      × WritesReg s r val size (set_reg r (merged size (reg_of r s) val) s)
      × (reg_of q (set_reg r (merged size (reg_of r s) val) s) ≡ reg_of q s)
unfolding write_rm read_rm
write_rm-Reads {size} s r val q is lt ho hv ne =
    let m = merged size (reg_of r s) val in
    let now : reg_of r (set_reg r m s) ≡ m = get_or-set_self s.cpu.regs r m 0 lt in
    let parts = merged-parts (reg_of r s) val is ho hv in
    let m_lt = merged-lt (reg_of r s) val is ho hv in
    (
      refl,
      record {
        value_lt = rw now m_lt;
        read_back = rw (now, low_part m is m_lt, parts.0) refl;
        above = rw now parts.1;
      },
      get_or-set_ne s.cpu.regs r q m 0 ne,
    )
