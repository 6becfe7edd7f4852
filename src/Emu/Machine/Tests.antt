-- ===== src/Emu/Machine/Tests.antt =====
-- emu/src/machine.rs: the gate of vector 14, which a processor in user mode takes.
use nanokrnl.Base.{◌≡◌, refl, some, none, inl, arith}
use nanokrnl.Emu.Mmu.{Memory}
use nanokrnl.Emu.Cpu.{State}
use nanokrnl.Emu.Cpu.System.{deliver_interrupt}
use nanokrnl.Emu.Cpu.Tests.{state, state-flat}
use nanokrnl.Emu.Machine.{set_idt_gate}
use nanokrnl.Emu.Machine.Gates.{lo_at, hi_at}
use nanokrnl.Emu.Machine.Delivery.{CanTake, Enters, set_idt_gate-Enters}

abbrev memory : Memory
memory = record { len = 0x2_0000; byte_at = λ a. 0 }

abbrev guest : State
guest = record { cpu = record state.cpu { idtr_base = 0x1_0000 }; mem = memory }

guest-CanTake : CanTake guest 14
guest-CanTake = record {
  plain = record { flat = state-flat; bytes = λ a. omega arith; low = omega arith };
  wide = omega arith;
  idtr = refl;
  table = omega arith;
  task = omega arith;
  apart = inl (omega arith);
  room = omega arith;
  inside = omega arith;
}

set_idt_gate-Enters_example :
    (m : Memory) × (set_idt_gate 14 0xffff_8000_0000_1234 memory ≡ some m)
    × (lo_at m 13 ≡ lo_at memory 13)
    × (hi_at m 13 ≡ hi_at memory 13)
    × Enters guest 0xffff_8000_0000_1234 (deliver_interrupt 14 none (record guest { mem = m }))
set_idt_gate-Enters_example =
    set_idt_gate-Enters guest 14 13 0xffff_8000_0000_1234 (omega arith) (λ e. ground (arith, e))
      guest-CanTake
