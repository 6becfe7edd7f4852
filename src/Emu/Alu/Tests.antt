-- ===== src/Emu/Alu/Tests.antt =====
-- emu/src/lib.rs: the arithmetic at concrete operands.
use nanokrnl.Base.{true, arith}
use nanokrnl.Emu.Alu.{flag, apply_alu}
use nanokrnl.Emu.Alu.Widths.{byte, double}
use nanokrnl.Emu.Alu.Outcome.{Sums, Differs, sbb, apply_alu-Sums, apply_alu-Differs}
use nanokrnl.Emu.Alu.Compare.{Compares, cmp-Compares}

-- `adc` of two bytes with the carry flag set: 0x7f and 0x00 overflow.
apply_alu-Sums_example : Sums 1 0x7f 0 1 (apply_alu 2 0x17f 0x200 1 3)
unfolding flag
apply_alu-Sums_example = apply_alu-Sums true 0x17f 0x200 3 byte (omega arith) (omega arith)

apply_alu-Differs_example : Differs 4 5 0xffffffff 1 true (apply_alu 3 5 0xffffffffffffffff 4 3)
unfolding flag
apply_alu-Differs_example =
    apply_alu-Differs sbb 5 0xffffffffffffffff 3 double (omega arith) (omega arith)

-- -1 and 1 as bytes.
cmp-Compares_example : Compares 128 255 1 (apply_alu 7 255 1 1 2).rflags
cmp-Compares_example = cmp-Compares 255 1 2 byte (omega arith) (omega arith)
