-- ===== src/Emu/Cpu/Gate.antt =====
-- emu/src/lib.rs: the delivery of an interrupt through its gate, while paging is off.
use nanokrnl.Base.{
  ℕ, ◌+◌, ◌*◌, ◌/◌, ◌^◌, ◌<◌, ◌≤◌, ◌≡◌, refl, sym, ap, bit_and, bit_or, true, false, not, inl, inr,
  none, some, length, ◌==◌, ltb, leb, if◌then◌else◌, arith, Bool-cases,
}
use nanokrnl.Emu.Alu.{set_flag}
use nanokrnl.Emu.Mmu.{le_bytes}
use nanokrnl.Emu.Cpu.{State, rsp, reg_of}
use nanokrnl.Emu.Cpu.System.{ss_for, cs_for, if_flag, switch_stack, through_gate, deliver_interrupt}
use nanokrnl.Emu.Cpu.Bytes.{}
use nanokrnl.Emu.Cpu.Plain.{IsPlain, load-inside}
use nanokrnl.Emu.Cpu.Stack.{framed, framed-own}
use nanokrnl.Emu.Cpu.Frame.{pushed, frame_memory, push_frame_lem}

-- The fields of a gate.
abbrev pub target_of : (lo : ℕ) → ℕ
target_of lo = bit_and (bit_and (lo / 2 ^ 16) 0xffff) 3

abbrev pub attributes_of : (lo : ℕ) → ℕ
attributes_of lo = bit_and (lo / 2 ^ 40) 0xff

abbrev pub handler_of : (lo hi : ℕ) → ℕ
handler_of lo hi =
    bit_or (bit_or (bit_and lo 0xffff) (bit_and (lo / 2 ^ 48) 0xffff * 2 ^ 16))
      (bit_and hi 0xffff_ffff * 2 ^ 32)

-- The stack on which the handler runs: another one if the privilege rises.
abbrev pub stack_of : State → (target : ℕ) → ℕ
stack_of s target =
    if not (ltb target s.cpu.cpl)
    then reg_of rsp s
    else if s.cpu.tr_base == 0
    then s.cpu.tss_rsp0
    else le_bytes s.mem (s.cpu.tr_base + 4) 8

abbrev pub privileged : State → State
privileged s = record s { cpu = record s.cpu { cpl = 0 } }

-- The state at the first instruction of the handler.
abbrev pub handled : State → (lo hi : ℕ) → State
handled s lo hi =
    let top = stack_of s (target_of lo) in
    let f = framed s (pushed 5 top) (
      frame_memory top (ss_for s.cpu.cpl) (reg_of rsp s) s.cpu.rflags (cs_for s.cpu.cpl) s.cpu.rip
        s.mem) in
    record f {
      cpu = record f.cpu {
        cpl = target_of lo;
        rip = handler_of lo hi;
        rflags =
            if bit_and (attributes_of lo) 0xf == 0xe
            then set_flag if_flag false s.cpu.rflags
            else s.cpu.rflags;
      };
    }

switch_stack_lem :
    (s : State) (target : ℕ)
    → IsPlain s
    → 4 < length s.cpu.regs
    → s.cpu.tr_base + 12 ≤ s.mem.len
    → switch_stack target s.cpu.cpl (privileged s)
      ≡ some (framed (privileged s) (stack_of s target) s.mem)
unfolding switch_stack
switch_stack_lem s target plain wide task = elim (Bool-cases (ltb target s.cpu.cpl)) [
  | inr stay ↦ rw stay (ap some (sym (framed-own (privileged s) s.mem wide)))
  | inl rises ↦ elim (Bool-cases (s.cpu.tr_base == 0)) [
    | inl boot ↦ rw (rises, boot) refl
    | inr loaded ↦
        let fits : leb (2 ^ 64) (s.cpu.tr_base + 4) ≡ false = ground (arith, plain.low, task) in
        rw
          (
            rises,
            loaded,
            fits,
            load-inside (privileged s) (s.cpu.tr_base + 4) 8
                (record { flat = plain.flat; bytes = plain.bytes; low = plain.low }) (omega arith)
                (omega (arith, task)),
          )
          refl
  ]
]

through_gate_lem :
    (s : State) (lo hi : ℕ)
    → IsPlain s
    → 4 < length s.cpu.regs
    → s.cpu.tr_base + 12 ≤ s.mem.len
    → (bit_and (attributes_of lo) 0x80 == 0) ≡ false
    → 40 ≤ stack_of s (target_of lo)
    → stack_of s (target_of lo) ≤ s.mem.len
    → through_gate s.cpu.cpl none lo hi (privileged s) ≡ some (handled s lo hi, true)
unfolding through_gate
through_gate_lem s lo hi plain wide task present room inside =
    rw
      (
        present,
        switch_stack_lem s (target_of lo) plain wide task,
        push_frame_lem (privileged s) s.cpu.cpl (reg_of rsp s) (stack_of s (target_of lo)) s.mem
            wide (record { flat = plain.flat; bytes = plain.bytes; low = plain.low }) room inside,
      )
      refl

-- The gate of a vector.
abbrev pub gate_of : State → (vector : ℕ) → ℕ
gate_of s vector = s.cpu.idtr_base + vector * 16

abbrev pub gate_lo : State → (vector : ℕ) → ℕ
gate_lo s vector = le_bytes s.mem (gate_of s vector) 8

abbrev pub gate_hi : State → (vector : ℕ) → ℕ
gate_hi s vector = le_bytes s.mem (gate_of s vector + 8) 8

pub deliver_lem :
    (s : State) (vector : ℕ)
    → IsPlain s
    → 4 < length s.cpu.regs
    → s.cpu.tr_base + 12 ≤ s.mem.len
    → gate_of s vector + 16 ≤ s.mem.len
    → (bit_and (attributes_of (gate_lo s vector)) 0x80 == 0) ≡ false
    → 40 ≤ stack_of s (target_of (gate_lo s vector))
    → stack_of s (target_of (gate_lo s vector)) ≤ s.mem.len
    → deliver_interrupt vector none s ≡ some (handled s (gate_lo s vector) (gate_hi s vector), true)
unfolding deliver_interrupt
deliver_lem s vector plain wide task table present room inside =
    let again : IsPlain (privileged s) = record {
      flat = plain.flat;
      bytes = plain.bytes;
      low = plain.low;
    } in
    let fits_lo : leb (2 ^ 64) (gate_of s vector) ≡ false = ground (arith, plain.low, table) in
    let fits_hi : leb (2 ^ 64) (gate_of s vector + 8) ≡ false = ground (arith, plain.low, table) in
    rw
      (
        fits_lo,
        load-inside (privileged s) (gate_of s vector) 8 again (omega arith) (omega (arith, table)),
        fits_hi,
        load-inside (privileged s) (gate_of s vector + 8) 8 again (omega arith)
            (omega (arith, table)),
      )
      (through_gate_lem s (gate_lo s vector) (gate_hi s vector) plain wide task present room inside)
