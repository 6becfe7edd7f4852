-- ===== src/Emu/Machine/Delivery.antt =====
-- emu/src/machine.rs: the processor takes an interrupt through the gate that the machine wrote.
use nanokrnl.Base.{
  ℕ, ◌+◌, ◌-◌, ◌*◌, ◌^◌, ◌<◌, ◌≤◌, ◌≡◌, ◌≢◌, refl, ap, ◌∙◌, Bool, true, false, ◌⊎◌, Option, none,
  some, length, arith,
}
use nanokrnl.Emu.Alu.{set_flag}
use nanokrnl.Emu.Mmu.{Memory, le_bytes}
use nanokrnl.Emu.Cpu.{State, rsp, reg_of}
use nanokrnl.Emu.Cpu.Bytes.{put_bytes-len}
use nanokrnl.Emu.Cpu.System.{if_flag, deliver_interrupt}
use nanokrnl.Emu.Cpu.Plain.{IsPlain, stored, stored-IsPlain, stored_other}
use nanokrnl.Emu.Cpu.Stack.{framed-rsp}
use nanokrnl.Emu.Cpu.Frame.{pushed}
use nanokrnl.Emu.Cpu.Gate.{
  target_of, attributes_of, stack_of, handled, gate_lo, gate_hi, deliver_lem,
}
use nanokrnl.Emu.Machine.{idt_addr, idt_lo, idt_hi, set_idt_gate}
use nanokrnl.Emu.Machine.Gates.{lo_at, hi_at, with_gate, set_idt_gate-Leads}

abbrev with_memory : State → Memory → State
with_memory s m = record s { mem = m }

-- A state whose table of gates is that of the machine and whose stack for a handler at level 0 has room
-- for five words. The gate lies in memory, and the stack pointer of the task state beside it.
pub record CanTake (s : State) (vector : ℕ) : Type 0 where
  pub plain : IsPlain s
  pub wide : 4 < length s.cpu.regs
  pub idtr : s.cpu.idtr_base ≡ 0x1_0000
  pub table : 0x1_0000 + vector * 16 + 16 ≤ s.mem.len
  pub task : s.cpu.tr_base + 12 ≤ s.mem.len
  pub apart :
      (s.cpu.tr_base + 12 ≤ 0x1_0000 + vector * 16) ⊎ (0x1_0000 + vector * 16 + 16 ≤ s.cpu.tr_base)
  pub room : 40 ≤ stack_of s 0
  pub inside : stack_of s 0 ≤ s.mem.len

-- The result of a delivery: the handler at `h` runs at level 0, on its stack below five words, with
-- interrupts disabled.
pub record Enters (s : State) (h : ℕ) (r : Option (State × Bool)) : Type 0 where
  pub after : State
  pub taken : r ≡ some (after, true)
  pub rip : after.cpu.rip ≡ h
  pub cpl : after.cpu.cpl ≡ 0
  pub stack : reg_of rsp after ≡ stack_of s 0 - 40
  pub rflags : after.cpu.rflags ≡ set_flag if_flag false s.cpu.rflags

with_gate-IsPlain :
    (s : State) (vector h : ℕ) → IsPlain s → IsPlain (with_memory s (with_gate s.mem vector h))
with_gate-IsPlain s vector h plain =
    let d : ℕ = idt_addr + vector * 16 in
    let p =
      stored-IsPlain (stored d (idt_lo h) 8 s) (d + 8) (idt_hi h) 8
        (stored-IsPlain s d (idt_lo h) 8 plain) in
    record { flat = p.flat; bytes = p.bytes; low = p.low }

with_gate-len : (m : Memory) (vector h : ℕ) → (with_gate m vector h).len ≡ m.len
with_gate-len m vector h =
    let d : ℕ = idt_addr + vector * 16 in
    put_bytes-len (d + 8) 0 8 (idt_hi h) _ ∙ put_bytes-len d 0 8 (idt_lo h) m

with_gate-stack_of :
    (s : State) (vector h : ℕ)
    → CanTake s vector
    → stack_of (with_memory s (with_gate s.mem vector h)) 0 ≡ stack_of s 0
with_gate-stack_of s vector h can =
    let d : ℕ = idt_addr + vector * 16 in
    let same : le_bytes (with_gate s.mem vector h) (s.cpu.tr_base + 4) 8
        ≡ le_bytes s.mem (s.cpu.tr_base + 4) 8 =
      stored_other (stored d (idt_lo h) 8 s).mem (d + 8) (idt_hi h) 8 (s.cpu.tr_base + 4) 8
        (ground (arith, can.apart))
      ∙ stored_other s.mem d (idt_lo h) 8 (s.cpu.tr_base + 4) 8 (ground (arith, can.apart)) in
    rw same refl

-- `set_idt_gate` of a 64-bit address succeeds when memory reaches past the gate, and leaves the gate of any other vector.
-- Afterwards `deliver_interrupt` of the vector without an error code enters that address at level 0 with interrupts
-- disabled, on the stack of level 0 below the five words of the frame. Conditions: paging is off, memory ends below the
-- device windows, the processor has its registers and its table at 0x10000, the task state segment is
-- in memory apart from the gate, and the stack of level 0 has room for five words in memory.
pub set_idt_gate-Enters :
    (s : State) (vector other h : ℕ)
    → h < 2 ^ 64
    → other ≢ vector
    → CanTake s vector
    → (m : Memory) × (set_idt_gate vector h s.mem ≡ some m)
      × (lo_at m other ≡ lo_at s.mem other)
      × (hi_at m other ≡ hi_at s.mem other)
      × Enters s h (deliver_interrupt vector none (record s { mem = m }))
set_idt_gate-Enters s vector other h lt ne can =
    let m = with_gate s.mem vector h in
    let t = with_memory s m in
    let (set, leads, lo_other, hi_other) =
      set_idt_gate-Leads s.mem vector other h lt can.table ne in
    let lo : gate_lo t vector ≡ lo_at m vector =
      ap (λ b. le_bytes m (b + vector * 16) 8) can.idtr in
    let hi : gate_hi t vector ≡ hi_at m vector =
      ap (λ b. le_bytes m (b + vector * 16 + 8) 8) can.idtr in
    let level : target_of (gate_lo t vector) ≡ 0 = ap target_of lo ∙ leads.target in
    let attributes : attributes_of (gate_lo t vector) ≡ 0x8e =
      ap attributes_of lo ∙ leads.attributes in
    let len : m.len ≡ s.mem.len = with_gate-len s.mem vector h in
    let stack : stack_of t (target_of (gate_lo t vector)) ≡ stack_of s 0 =
      ap (stack_of t) level ∙ with_gate-stack_of s vector h can in
    (
      m,
      set,
      lo_other,
      hi_other,
      record {
        after = handled t (gate_lo t vector) (gate_hi t vector);
        taken =
            deliver_lem t vector (with_gate-IsPlain s vector h can.plain) can.wide (rw len can.task)
              (rw (len, can.idtr) can.table) (rw attributes refl) (rw stack can.room)
              (rw (stack, len) can.inside);
        rip = rw (lo, hi) leads.handler;
        cpl = level;
        stack =
            framed-rsp t can.wide (pushed 5 (stack_of t (target_of (gate_lo t vector)))) m
            ∙ rw stack (omega arith);
        rflags = rw attributes refl;
      },
    )
