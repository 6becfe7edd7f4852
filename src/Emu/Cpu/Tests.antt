-- ===== src/Emu/Cpu/Tests.antt =====
-- emu/src/lib.rs: a processor with one gate, which is interrupted in user mode.
use nanokrnl.Base.{
  ◌%◌, ◌^◌, ◌≡◌, refl, true, false, inl, inr, none, some, [], ◌∷◌, ◌++◌, ◌==◌, if◌then◌else◌, arith,
}
use nanokrnl.Base.Bits.{}
use nanokrnl.Emu.Alu.Widths.{byte}
use nanokrnl.Emu.Mmu.{Memory, le_bytes, long_mode_paging}
use nanokrnl.Emu.Mmu.Walk.{AreBytes}
use nanokrnl.Emu.Devices.{Devices}
use nanokrnl.Emu.Cpu.{Cpu, State, reg, reg_of, set_reg, load, store, write_rm, merged}
use nanokrnl.Emu.Cpu.System.{deliver_interrupt, iretq}
use nanokrnl.Emu.Cpu.Plain.{IsPlain, stored}
use nanokrnl.Emu.Cpu.Stack.{}
use nanokrnl.Emu.Cpu.LoadStore.{load-store}
use nanokrnl.Emu.Cpu.Gate.{handled, gate_lo, gate_hi}
use nanokrnl.Emu.Cpu.Interrupt.{
  handled-EndsHandler, CanDeliver, EndsHandler, resumed, deliver_interrupt-iretq,
}
use nanokrnl.Emu.Cpu.Registers.{WritesReg, write_rm-Reads}
use nanokrnl.Emu.Cpu.Decode.{decode_modrm_imm}
use nanokrnl.Emu.Cpu.Decode.Bounds.{IsInRange, with_regs, decode_modrm_imm-IsInRange}
use nanokrnl.Emu.Cpu.Msr.{}

abbrev devices : Devices
devices = record {
  uart = record { tx = []; rx = []; ier = 0; lcr = 0; mcr = 0 };
  apic = record {
    id = 0;
    svr = 0;
    tpr = 0;
    lvt_timer = 0;
    initial_count = 0;
    current_count = 0;
    divide_config = 0;
    irr = 0 ∷ 0 ∷ 0 ∷ 0 ∷ [];
  };
  ps2 = [];
  p9 = record { tx = []; rx = [] };
}

-- The gate of vector 3 at 0x130 leads to 0x500 at level 0 and disables interrupts.
abbrev memory : Memory
memory = record {
  len = 0x1000;
  byte_at = λ a. if a == 0x131 then 5 else if a == 0x132 then 8 else if a == 0x135 then 0x8e else 0;
}

abbrev cpu : Cpu
cpu = record {
  regs = 0 ∷ 0 ∷ 0 ∷ 0 ∷ 0x900 ∷ 0 ∷ 0 ∷ 0 ∷ 0 ∷ 0 ∷ 0 ∷ 0 ∷ 0 ∷ 0 ∷ 0 ∷ 0 ∷ [];
  rip = 0x400;
  rflags = 0x202;
  gs_base = 0;
  fs_base = 0;
  seg_base = 0;
  xmm = [];
  machine_mode = false;
  paging = record { cr0 = 2 ^ 31; cr3 = 0; cr4 = 0; efer = 0 };
  cr2 = 0;
  pf_code = 0;
  cr8 = 0;
  cpl = 3;
  dev = devices;
  idtr_base = 0x100;
  idtr_limit = 0xfff;
  gdtr_base = 0;
  gdtr_limit = 0;
  star = 0;
  lstar = 0;
  sfmask = 0;
  kernel_gs_base = 0;
  tss_rsp0 = 0x800;
  tr_base = 0;
  icount = 0;
}

abbrev pub state : State
state = record { cpu = cpu; mem = memory }

memory-AreBytes : AreBytes memory
memory-AreBytes a = ground arith

pub state-flat : long_mode_paging cpu.paging ≡ false
unfolding long_mode_paging
state-flat = refl

state-IsPlain : IsPlain state
state-IsPlain = record { flat = state-flat; bytes = memory-AreBytes; low = omega arith }

load-store_example :
    (store 0x300 0x1234 4 state ≡ some (stored 0x300 0x1234 4 state, true))
    × (load 0x300 4 (stored 0x300 0x1234 4 state)
        ≡ some (stored 0x300 0x1234 4 state, some (0x1234 % 256 ^ 4)))
    × (load 0x130 8 (stored 0x300 0x1234 4 state)
        ≡ some (stored 0x300 0x1234 4 state, some (le_bytes memory 0x130 8)))
    × (load 0x130 8 state ≡ some (state, some (le_bytes memory 0x130 8)))
load-store_example =
    load-store state 0x300 0x1234 4 0x130 8 state-IsPlain (omega arith) (omega arith) (omega arith)
      (omega arith) (inl (omega arith))

state-CanDeliver : CanDeliver state 3
unfolding le_bytes
state-CanDeliver = record {
  plain = state-IsPlain;
  wide = omega arith;
  task = omega arith;
  table = omega arith;
  present = refl;
  room = omega arith;
  inside = omega arith;
  level = inr refl;
  rip_lt = omega arith;
  rflags_lt = omega arith;
  rsp_lt = omega arith;
}

-- The handler returns at once.
abbrev in_handler : State
in_handler = handled state (gate_lo state 3) (gate_hi state 3)

in_handler-EndsHandler : EndsHandler state 3 in_handler
in_handler-EndsHandler = handled-EndsHandler state 3 state-CanDeliver

deliver_interrupt-iretq_example :
    (deliver_interrupt 3 none state
      ≡ some (handled state (gate_lo state 3) (gate_hi state 3), true))
    × (iretq in_handler ≡ some (resumed in_handler state, true))
deliver_interrupt-iretq_example =
    deliver_interrupt-iretq state in_handler 3 state-CanDeliver in_handler-EndsHandler

write_rm-Reads_example :
    (write_rm (reg 4) 0x1ff 1 state ≡ some (set_reg 4 (merged 1 0x900 0x1ff) state, true))
    × WritesReg state 4 0x1ff 1 (set_reg 4 (merged 1 0x900 0x1ff) state)
    × (reg_of 3 (set_reg 4 (merged 1 0x900 0x1ff) state) ≡ reg_of 3 state)
write_rm-Reads_example =
    write_rm-Reads state 4 0x1ff 3 byte (omega arith) (omega arith) (omega arith)
      (λ e. ground (arith, e))

-- 0x8e: a displacement of 32 bits from the sixth register.
decode_modrm_imm-IsInRange_example :
    IsInRange 0x135 (decode_modrm_imm 0x135 true false false 0 state)
    × (decode_modrm_imm 0x135 true false false 0 (with_regs state (state.cpu.regs ++ 77 ∷ []))
        ≡ decode_modrm_imm 0x135 true false false 0 state)
decode_modrm_imm-IsInRange_example =
    decode_modrm_imm-IsInRange state 0x135 true false false 0 (state.cpu.regs ++ 77 ∷ [])
      memory-AreBytes (λ r lt. ground (arith, lt))
