-- ===== src/Emu/Cpu/Interrupt.antt =====
-- emu/src/lib.rs: the delivery of an interrupt and the return from it, while paging is off.
use nanokrnl.Base.{
  ℕ, ◌+◌, ◌%◌, ◌^◌, ◌<◌, ◌≤◌, ◌≡◌, refl, ◌∙◌, bit_and, true, false, ◌⊎◌, inl, inr, none, some,
  length, ◌==◌, set, arith, length-set,
}
use nanokrnl.Emu.Alu.{}
use nanokrnl.Emu.Mmu.{le_bytes}
use nanokrnl.Emu.Cpu.{State, rsp, reg_of}
use nanokrnl.Emu.Cpu.System.{ss_for, cs_for, iretq, deliver_interrupt}
use nanokrnl.Emu.Cpu.Bytes.{le_bytes-same}
use nanokrnl.Emu.Cpu.Plain.{IsPlain}
use nanokrnl.Emu.Cpu.Stack.{framed, framed-rsp}
use nanokrnl.Emu.Cpu.Frame.{frame_memory-IsPlain, pushed, frame_memory-Holds, iretq_lem}
use nanokrnl.Emu.Cpu.Gate.{
  target_of, attributes_of, stack_of, handled, gate_of, gate_lo, gate_hi, deliver_lem,
}

-- The privilege level of an interrupted state.
level_back : (cpl : ℕ) → (cpl ≡ 0) ⊎ (cpl ≡ 3) → bit_and (cs_for cpl % 256 ^ 8) 3 ≡ cpl
level_back cpl (inl kernel) = rw kernel refl
level_back cpl (inr user) = rw user refl

-- A state in which the vector has a present gate and its handler a stack with room for the frame.
pub record CanDeliver (s : State) (vector : ℕ) : Type 0 where
  pub plain : IsPlain s
  pub wide : 4 < length s.cpu.regs
  pub task : s.cpu.tr_base + 12 ≤ s.mem.len
  pub table : gate_of s vector + 16 ≤ s.mem.len
  pub present : (bit_and (attributes_of (gate_lo s vector)) 0x80 == 0) ≡ false
  pub room : 40 ≤ stack_of s (target_of (gate_lo s vector))
  pub inside : stack_of s (target_of (gate_lo s vector)) ≤ s.mem.len
  pub level : (s.cpu.cpl ≡ 0) ⊎ (s.cpu.cpl ≡ 3)
  pub rip_lt : s.cpu.rip < 2 ^ 64
  pub rflags_lt : s.cpu.rflags < 2 ^ 64
  pub rsp_lt : reg_of rsp s < 2 ^ 64

abbrev pub top_for : State → (vector : ℕ) → ℕ
top_for s vector = stack_of s (target_of (gate_lo s vector))

-- A state of the handler with the stack pointer and the frame that it got; all else may differ.
pub record EndsHandler (s : State) (vector : ℕ) (t : State) : Type 0 where
  pub plain : IsPlain t
  pub wide : 4 < length t.cpu.regs
  pub stack : reg_of rsp t ≡ pushed 5 (top_for s vector)
  pub inside : pushed 5 (top_for s vector) + 40 ≤ t.mem.len
  pub kept :
      (a k : ℕ)
      → a ≡ pushed 5 (top_for s vector) + k
      → k < 32
      → t.mem.byte_at a ≡ (handled s (gate_lo s vector) (gate_hi s vector)).mem.byte_at a

-- The handler's first state is one of them.
pub handled-EndsHandler :
    (s : State) (vector : ℕ)
    → CanDeliver s vector
    → EndsHandler s vector (handled s (gate_lo s vector) (gate_hi s vector))
handled-EndsHandler s vector can =
    let top = top_for s vector in
    let own : IsPlain (framed s top s.mem) = record {
      flat = can.plain.flat;
      bytes = can.plain.bytes;
      low = can.plain.low;
    } in
    let kept =
      frame_memory-IsPlain s top (ss_for s.cpu.cpl) (reg_of rsp s) s.cpu.rflags (cs_for s.cpu.cpl)
        s.cpu.rip s.mem can.wide own in
    record {
      plain = record { flat = kept.0.flat; bytes = kept.0.bytes; low = kept.0.low };
      wide = rw (length-set s.cpu.regs rsp (pushed 5 top)) can.wide;
      stack = framed-rsp s can.wide (pushed 5 top) s.mem;
      inside = rw kept.1 (omega (arith, can.room, can.inside));
      kept = λ a k e lt. refl;
    }

-- `t` with the place, flags, stack and privilege level of `s`.
abbrev pub resumed : (t s : State) → State
resumed t s = record t {
  cpu = record t.cpu {
    regs = set t.cpu.regs rsp (reg_of rsp s);
    rip = s.cpu.rip;
    rflags = s.cpu.rflags;
    cpl = s.cpu.cpl;
  };
}

-- A word of the frame in the memory of the handler.
kept_word :
    {s t : State} {vector : ℕ} (h : EndsHandler s vector t) (b j : ℕ)
    → b ≡ pushed 5 (top_for s vector) + j
    → j + 8 ≤ 32
    → le_bytes t.mem b 8 ≡ le_bytes (handled s (gate_lo s vector) (gate_hi s vector)).mem b 8
kept_word {s} {t} {vector} h b j e le =
    le_bytes-same t.mem (handled s (gate_lo s vector) (gate_hi s vector)).mem b 8
      (λ k hk. h.kept (b + k) (j + k) (omega (arith, e)) (omega (arith, le, hk)))

resumed_lem :
    (s t : State) (vector : ℕ)
    → CanDeliver s vector
    → EndsHandler s vector t
    → iretq t ≡ some (resumed t s, true)
resumed_lem s t vector can h =
    let top = top_for s vector in
    let b = pushed 5 top in
    let f =
      frame_memory-Holds top (ss_for s.cpu.cpl) (reg_of rsp s) s.cpu.rflags (cs_for s.cpu.cpl)
        s.cpu.rip s.mem can.room in
    let rip : le_bytes t.mem b 8 ≡ s.cpu.rip =
      kept_word h b 0 (omega arith) (omega arith) ∙ f.rip_at ∙ omega (arith, can.rip_lt) in
    let cs : le_bytes t.mem (b + 8) 8 ≡ cs_for s.cpu.cpl % 256 ^ 8 =
      kept_word h (b + 8) 8 refl (omega arith) ∙ f.cs_at in
    let rflags : le_bytes t.mem (b + 8 + 8) 8 ≡ s.cpu.rflags =
      kept_word h (b + 8 + 8) 16 (omega arith) (omega arith)
      ∙ f.rflags_at
      ∙ omega (arith, can.rflags_lt) in
    let sp : le_bytes t.mem (b + 8 + 8 + 8) 8 ≡ reg_of rsp s =
      kept_word h (b + 8 + 8 + 8) 24 (omega arith) (omega arith)
      ∙ f.sp_at
      ∙ omega (arith, can.rsp_lt) in
    iretq_lem t h.plain h.wide (rw h.stack h.inside)
    ∙ rw (h.stack, rip, cs, rflags, sp, level_back s.cpu.cpl can.level) refl

-- Conditions: paging is off, memory holds bytes and ends below the device windows, the privilege level is
-- 0 or 3, and the instruction pointer, the flags and the stack pointer are 64-bit words. The vector has a
-- present gate in memory, the task state is in memory, and the stack of the handler, that of the task
-- state if the privilege rises, has room for five words in memory. Then `deliver_interrupt` without an error
-- code succeeds: the handler starts at the address and the level of the gate, with interrupts disabled by
-- an interrupt gate. From any state with the stack pointer of the handler and its frame, up to the stack selector,
-- in memory under the same conditions on paging and memory, `iretq` returns to the address, the flags, the stack and
-- the privilege level of before.
pub deliver_interrupt-iretq :
    (s t : State) (vector : ℕ)
    → CanDeliver s vector
    → EndsHandler s vector t
    → (deliver_interrupt vector none s
        ≡ some (handled s (gate_lo s vector) (gate_hi s vector), true))
      × (iretq t ≡ some (resumed t s, true))
deliver_interrupt-iretq s t vector can h = (
  deliver_lem s vector can.plain can.wide can.task can.table can.present can.room can.inside,
  resumed_lem s t vector can h,
)
