-- ===== src/Emu/Machine.antt =====
-- emu/src/machine.rs: physical memory as the boot code writes it, and the gates of interrupts. `none`
-- is a slice out of bounds.
pub mod Gates
pub mod Delivery
mod Tests
use nanokrnl.Base.{
  ℕ, ◌+◌, ◌*◌, ◌/◌, ◌^◌, bit_and, bit_or, Bool, true, false, Option, none, some, leb, if◌then◌else◌,
  ◌>>=◌,
}
use nanokrnl.Emu.Mmu.{Memory, le_bytes}
use nanokrnl.Emu.Cpu.{put_bytes}

abbrev pub idt_addr : ℕ
idt_addr = 0x1_0000

-- `write_phys` of the bytes of a word.
unfoldable pub put64 : (phys val : ℕ) → Memory → Option Memory
put64 phys val m = if leb (phys + 8) m.len then some (put_bytes phys 0 8 val m) else none

unfoldable pub get64 : (phys : ℕ) → Memory → Option ℕ
get64 phys m = if leb (phys + 8) m.len then some (le_bytes m phys 8) else none

abbrev pub idt_lo : (handler : ℕ) → ℕ
idt_lo handler =
    bit_or (bit_or (bit_or (bit_and handler 0xffff) (0x08 * 2 ^ 16)) (0x8e * 2 ^ 40))
      (bit_and (handler / 2 ^ 16) 0xffff * 2 ^ 48)

abbrev pub idt_hi : (handler : ℕ) → ℕ
idt_hi handler = bit_and (handler / 2 ^ 32) 0xffff_ffff

unfoldable pub set_idt_gate : (vector handler : ℕ) → Memory → Option Memory
unfolding put64
set_idt_gate vector handler m =
    let desc = idt_addr + vector * 16 in
    put64 desc (idt_lo handler) m >>= put64 (desc + 8) (idt_hi handler)
