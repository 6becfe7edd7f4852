-- ===== src/Emu/Cpu/System.antt =====
-- emu/src/lib.rs: the system registers, the delivery of interrupts and the return from them, and
-- emu/src/machine.rs: the service of a pending interrupt.
use nanokrnl.Base.{
  ℕ, ◌+◌, ◌-◌, ◌*◌, ◌/◌, ◌%◌, ◌^◌, bit_and, bit_or, Bool, true, false, not, ◌&&◌, ◌||◌, Option,
  none, some, ◌==◌, ltb, leb, if◌then◌else◌, ◌>>=◌,
}
use nanokrnl.Emu.Alu.{flag, set_flag, not64}
use nanokrnl.Emu.Mmu.{has, cr0_pg, efer_lma}
use nanokrnl.Emu.Devices.{apic_reg_read, apic_reg_write, highest_pending, ack}
use nanokrnl.Emu.Cpu.{Cpu, State, rsp, reg_of, set_reg, load, push64, pop64}

abbrev pub efer_lme : ℕ
efer_lme = 2 ^ 8

abbrev pub if_flag : ℕ
if_flag = 2 ^ 9

unfoldable pub recompute_lma : Cpu → Cpu
recompute_lma c = record c {
  paging = record c.paging {
    efer =
        if has c.paging.efer efer_lme && has c.paging.cr0 cr0_pg
        then bit_or c.paging.efer efer_lma
        else bit_and c.paging.efer (not64 efer_lma);
  };
}

unfoldable pub read_msr : (idx : ℕ) → Cpu → ℕ
read_msr idx c =
    if leb 0x800 idx && leb idx 0x83f
    then apic_reg_read ((idx - 0x800) * 16) c.dev.apic
    else if idx == 0x1b
    then 0xfee0_0d00
    else if idx == 0x80
    then c.paging.efer
    else if idx == 0xc000_0080
    then c.paging.efer
    else if idx == 0xc000_0081
    then c.star
    else if idx == 0xc000_0082
    then c.lstar
    else if idx == 0xc000_0084
    then c.sfmask
    else if idx == 0xc000_0100
    then c.fs_base
    else if idx == 0xc000_0101
    then c.gs_base
    else if idx == 0xc000_0102
    then c.kernel_gs_base
    else 0

unfoldable pub write_msr : (idx val : ℕ) → Cpu → Cpu
unfolding recompute_lma
write_msr idx val c =
    if leb 0x800 idx && leb idx 0x83f
    then record c {
      dev = record c.dev { apic = apic_reg_write ((idx - 0x800) * 16) (val % 2 ^ 32) c.dev.apic };
    }
    else if idx == 0x1b
    then c
    else if (idx == 0x80) || (idx == 0xc000_0080)
    then recompute_lma (record c { paging = record c.paging { efer = val } })
    else if idx == 0xc000_0081
    then record c { star = val }
    else if idx == 0xc000_0082
    then record c { lstar = val }
    else if idx == 0xc000_0084
    then record c { sfmask = val }
    else if idx == 0xc000_0100
    then record c { fs_base = val }
    else if idx == 0xc000_0101
    then record c { gs_base = val }
    else if idx == 0xc000_0102
    then record c { kernel_gs_base = val }
    else c

abbrev pub cs_for : (cpl : ℕ) → ℕ
cs_for cpl = if cpl == 3 then 0x33 else 0x08

abbrev pub ss_for : (cpl : ℕ) → ℕ
ss_for cpl = if cpl == 3 then 0x2b else 0x10

-- `self.push64(mem, v) && next`
abbrev pub and_then : (next : State → Option (State × Bool)) → State × Bool → Option (State × Bool)
and_then next (s, false) = some (s, false)
and_then next (s, true) = next s

-- `error.map_or(true, |e| self.push64(mem, e))`
abbrev pub push_error : (error : Option ℕ) → State → Option (State × Bool)
push_error none s = some (s, true)
push_error (some e) s = push64 e s

-- The frame of an interrupt.
unfoldable pub push_frame : (old_cpl old_rsp : ℕ) (error : Option ℕ) → State → Option (State × Bool)
push_frame old_cpl old_rsp error s =
    push64 (ss_for old_cpl) s
    >>= and_then (λ s1.
      push64 old_rsp s1
      >>= and_then (λ s2.
        push64 s2.cpu.rflags s2
        >>= and_then (λ s3.
          push64 (cs_for old_cpl) s3
          >>= and_then (λ s4. push64 s4.cpu.rip s4 >>= and_then (push_error error)))))

-- The end of `deliver_interrupt`.
abbrev pub enter_gate : (target_cpl offset type_attr : ℕ) → State → Option (State × Bool)
enter_gate target_cpl offset type_attr s = some (
  record s {
    cpu = record s.cpu {
      cpl = target_cpl;
      rip = offset;
      rflags =
          if bit_and type_attr 0xf == 0xe
          then set_flag if_flag false s.cpu.rflags
          else s.cpu.rflags;
    };
  },
  true,
)

-- `unwrap_or`
abbrev pub or_else : (d : ℕ) → Option ℕ → ℕ
or_else d none = d
or_else d (some v) = v

-- The stack of the handler.
-- The read of the stack pointer from the task state.
abbrev pub task_stack : State → Option (State × Option ℕ)
task_stack s = if leb (2 ^ 64) (s.cpu.tr_base + 4) then none else load (s.cpu.tr_base + 4) 8 s

abbrev pub loaded_stack : State × Option ℕ → State
loaded_stack (s, r) = set_reg rsp (or_else s.cpu.tss_rsp0 r) s

unfoldable pub switch_stack : (target_cpl old_cpl : ℕ) → State → Option State
switch_stack target_cpl old_cpl s =
    if not (ltb target_cpl old_cpl)
    then some s
    else if s.cpu.tr_base == 0
    then some (set_reg rsp s.cpu.tss_rsp0 s)
    else task_stack s >>= λ r. some (loaded_stack r)

-- `deliver_interrupt` from the words of the gate on.
unfoldable pub through_gate :
    (old_cpl : ℕ) (error : Option ℕ) (lo hi : ℕ) → State → Option (State × Bool)
through_gate old_cpl error lo hi s =
    let selector = bit_and (lo / 2 ^ 16) 0xffff in
    let type_attr = bit_and (lo / 2 ^ 40) 0xff in
    let offset =
      bit_or (bit_or (bit_and lo 0xffff) (bit_and (lo / 2 ^ 48) 0xffff * 2 ^ 16))
        (bit_and hi 0xffff_ffff * 2 ^ 32) in
    let target_cpl = bit_and selector 3 in
    if bit_and type_attr 0x80 == 0
    then some (s, false)
    else switch_stack target_cpl old_cpl s >>= λ s1.
        push_frame old_cpl (reg_of rsp s) error s1
        >>= and_then (enter_gate target_cpl offset type_attr)

-- `match self.load(..)` with an early `return false`.
abbrev pub or_return :
    (next : ℕ → State → Option (State × Bool)) → State × Option ℕ → Option (State × Bool)
or_return next (s, none) = some (s, false)
or_return next (s, some v) = next v s

-- A sum of addresses that passes 2 ^ 64 panics.
abbrev pub load_sum : (addr size : ℕ) → State → Option (State × Option ℕ)
load_sum addr size s = if leb (2 ^ 64) addr then none else load addr size s

unfoldable pub deliver_interrupt : (vector : ℕ) (error : Option ℕ) → State → Option (State × Bool)
deliver_interrupt vector error s =
    let desc = s.cpu.idtr_base + vector * 16 in
    load_sum desc 8 (record s { cpu = record s.cpu { cpl = 0 } })
    >>= or_return (λ lo s1.
      load_sum (desc + 8) 8 s1 >>= or_return (λ hi s2. through_gate s.cpu.cpl error lo hi s2))

-- The arm of iretq in `step`; the flag says that it did not fault.
unfoldable pub iretq : State → Option (State × Bool)
iretq s =
    pop64 s
    >>= or_return (λ rip s1. pop64 s1 >>= λ cs. pop64 cs.0 >>= λ rflags. pop64 rflags.0 >>= λ sp.
        pop64 sp.0 >>= λ ss. some (
          set_reg rsp (or_else (reg_of rsp sp.0) sp.1) (record ss.0 {
            cpu = record ss.0.cpu {
              rip = rip;
              rflags = or_else rflags.0.cpu.rflags rflags.1;
              cpl = bit_and (or_else 0 cs.1) 3;
            };
          }),
          true,
        ))

-- The arms of wrmsr, rdmsr and sysret in `step`; they advance `rip` but for sysret.
pub sysret : State → State
sysret s = record s { cpu = record s.cpu { rip = reg_of 1 s; rflags = reg_of 11 s; cpl = 3 } }

-- `service_pending_irq`: the answer of the delivery is ignored.
pub service_vector : Option ℕ → State → Option (State × Bool)
unfolding deliver_interrupt
service_vector none s = some (s, false)
service_vector (some v) s =
    if leb (v / 2 ^ 4) s.cpu.cr8
    then some (s, false)
    else deliver_interrupt v none
        (record s { cpu = record s.cpu { dev = record s.cpu.dev { apic = ack v s.cpu.dev.apic } } })
      >>= λ r. some (r.0, true)

pub service_pending_irq : State → Option (State × Bool)
unfolding service_vector
service_pending_irq s =
    if not (flag s.cpu.rflags if_flag)
    then some (s, false)
    else service_vector (highest_pending s.cpu.dev.apic) s
