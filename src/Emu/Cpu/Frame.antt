-- ===== src/Emu/Cpu/Frame.antt =====
-- emu/src/lib.rs: the frame that an interrupt pushes and iretq pops, while paging is off.
use nanokrnl.Base.{
  ℕ, zero, suc, ◌+◌, ◌-◌, ◌%◌, ◌^◌, ◌<◌, ◌≤◌, ◌≡◌, refl, sym, ap, ◌∙◌, bit_and, true, inr, none,
  some, length, set, arith,
}
use nanokrnl.Emu.Mmu.{Memory, le_bytes}
use nanokrnl.Emu.Cpu.{State, rsp, reg_of, pop64}
use nanokrnl.Emu.Cpu.System.{push_frame, ss_for, cs_for, iretq}
use nanokrnl.Emu.Cpu.Bytes.{put_bytes-len}
use nanokrnl.Emu.Cpu.Plain.{IsPlain, stored_self, stored_other}
use nanokrnl.Emu.Cpu.Stack.{
  framed, put8, set-set, push64-framed, pop64-framed, framed-IsPlain, framed-own,
}

-- The stack pointer after `n` pushes.
abbrev pub pushed : (n top : ℕ) → ℕ
pushed zero top = top
pushed (suc n) top = pushed n top - 8

-- Memory after the five pushes.
abbrev pub frame_memory : (top ss sp rflags cs rip : ℕ) → Memory → Memory
frame_memory top ss sp rflags cs rip m =
    put8 (pushed 4 top) rip
      (put8 (pushed 3 top) cs (put8 (pushed 2 top) rflags (put8 (pushed 1 top) sp (put8 top ss m))))

put8-len : (sp v : ℕ) (m : Memory) → (put8 sp v m).len ≡ m.len
put8-len sp v m = put_bytes-len (sp - 8) 0 8 v m

-- The pushes keep a plain state plain.
pub frame_memory-IsPlain :
    (s : State) (top ss sp rflags cs rip : ℕ) (m : Memory)
    → 4 < length s.cpu.regs
    → IsPlain (framed s top m)
    → IsPlain (framed s (pushed 5 top) (frame_memory top ss sp rflags cs rip m))
      × ((frame_memory top ss sp rflags cs rip m).len ≡ m.len)
frame_memory-IsPlain s top ss sp rflags cs rip m wide p0 =
    let m1 = put8 top ss m in
    let m2 = put8 (pushed 1 top) sp m1 in
    let m3 = put8 (pushed 2 top) rflags m2 in
    let m4 = put8 (pushed 3 top) cs m3 in
    let p1 = framed-IsPlain s wide top ss (pushed 1 top) m p0 in
    let p2 = framed-IsPlain s wide (pushed 1 top) sp (pushed 2 top) m1 p1 in
    let p3 = framed-IsPlain s wide (pushed 2 top) rflags (pushed 3 top) m2 p2 in
    let p4 = framed-IsPlain s wide (pushed 3 top) cs (pushed 4 top) m3 p3 in
    (
      framed-IsPlain s wide (pushed 4 top) rip (pushed 5 top) m4 p4,
      put8-len (pushed 4 top) rip m4
          ∙ put8-len (pushed 3 top) cs m3
          ∙ put8-len (pushed 2 top) rflags m2
          ∙ put8-len (pushed 1 top) sp m1
          ∙ put8-len top ss m,
    )

pub push_frame_lem :
    (s : State) (old_cpl old_rsp top : ℕ) (m : Memory)
    → 4 < length s.cpu.regs
    → IsPlain (framed s top m)
    → 40 ≤ top
    → top ≤ m.len
    → push_frame old_cpl old_rsp none (framed s top m)
      ≡ some (
        framed s
            (pushed 5 top)
            (frame_memory top (ss_for old_cpl) old_rsp s.cpu.rflags (cs_for old_cpl) s.cpu.rip m),
        true,
      )
unfolding push_frame
push_frame_lem s old_cpl old_rsp top m wide p0 room inside =
    let m1 = put8 top (ss_for old_cpl) m in
    let m2 = put8 (pushed 1 top) old_rsp m1 in
    let m3 = put8 (pushed 2 top) s.cpu.rflags m2 in
    let m4 = put8 (pushed 3 top) (cs_for old_cpl) m3 in
    let p1 = framed-IsPlain s wide top (ss_for old_cpl) (pushed 1 top) m p0 in
    let p2 = framed-IsPlain s wide (pushed 1 top) old_rsp (pushed 2 top) m1 p1 in
    let p3 = framed-IsPlain s wide (pushed 2 top) s.cpu.rflags (pushed 3 top) m2 p2 in
    let p4 = framed-IsPlain s wide (pushed 3 top) (cs_for old_cpl) (pushed 4 top) m3 p3 in
    let l1 : m1.len ≡ m.len = put8-len top (ss_for old_cpl) m in
    let l2 : m2.len ≡ m.len = put8-len (pushed 1 top) old_rsp m1 ∙ l1 in
    let l3 : m3.len ≡ m.len = put8-len (pushed 2 top) s.cpu.rflags m2 ∙ l2 in
    let l4 : m4.len ≡ m.len = put8-len (pushed 3 top) (cs_for old_cpl) m3 ∙ l3 in
    rw
      (
        push64-framed s wide top (ss_for old_cpl) m p0 (omega (arith, room)) inside,
        push64-framed s wide (pushed 1 top) old_rsp m1 p1 (omega (arith, room))
            (omega (arith, l1, inside)),
        push64-framed s wide (pushed 2 top) s.cpu.rflags m2 p2 (omega (arith, room))
            (omega (arith, l2, inside)),
        push64-framed s wide (pushed 3 top) (cs_for old_cpl) m3 p3 (omega (arith, room))
            (omega (arith, l3, inside)),
        push64-framed s wide (pushed 4 top) s.cpu.rip m4 p4 (omega (arith, room))
            (omega (arith, l4, inside)),
      )
      refl

-- The words of a frame at `b`.
pub record Holds (m : Memory) (b sp rflags cs rip : ℕ) : Type 0 where
  pub rip_at : le_bytes m b 8 ≡ rip % 256 ^ 8
  pub cs_at : le_bytes m (b + 8) 8 ≡ cs % 256 ^ 8
  pub rflags_at : le_bytes m (b + 8 + 8) 8 ≡ rflags % 256 ^ 8
  pub sp_at : le_bytes m (b + 8 + 8 + 8) 8 ≡ sp % 256 ^ 8

-- A word below the last push, or that push itself.
put8-at : (top v : ℕ) (m : Memory) (b : ℕ) → b ≡ top - 8 → le_bytes (put8 top v m) b 8 ≡ v % 256 ^ 8
put8-at top v m b e = ap (λ x. le_bytes (put8 top v m) x 8) e ∙ stored_self m (top - 8) v 8

put8-above :
    (top v : ℕ) (m : Memory) (b : ℕ)
    → 8 ≤ top
    → top ≤ b
    → le_bytes (put8 top v m) b 8 ≡ le_bytes m b 8
put8-above top v m b room le = stored_other m (top - 8) v 8 b 8 (inr (omega (arith, le, room)))

pub frame_memory-Holds :
    (top ss sp rflags cs rip : ℕ) (m : Memory)
    → 40 ≤ top
    → Holds (frame_memory top ss sp rflags cs rip m) (pushed 5 top) sp rflags cs rip
frame_memory-Holds top ss sp rflags cs rip m room =
    let m2 = put8 (pushed 1 top) sp (put8 top ss m) in
    let m3 = put8 (pushed 2 top) rflags m2 in
    let m4 = put8 (pushed 3 top) cs m3 in
    let b = pushed 5 top in
    record {
      rip_at = put8-at (pushed 4 top) rip m4 b refl;
      cs_at =
          put8-above (pushed 4 top) rip m4 (b + 8) (omega (arith, room)) (omega (arith, room))
          ∙ put8-at (pushed 3 top) cs m3 (b + 8) (omega (arith, room));
      rflags_at =
          put8-above (pushed 4 top) rip m4 (b + 8 + 8) (omega (arith, room)) (omega (arith, room))
          ∙ put8-above (pushed 3 top) cs m3 (b + 8 + 8) (omega (arith, room)) (omega (arith, room))
          ∙ put8-at (pushed 2 top) rflags m2 (b + 8 + 8) (omega (arith, room));
      sp_at =
          put8-above (pushed 4 top) rip m4 (b + 8 + 8 + 8) (omega (arith, room))
            (omega (arith, room))
          ∙ put8-above (pushed 3 top) cs m3 (b + 8 + 8 + 8) (omega (arith, room))
              (omega (arith, room))
          ∙ put8-above (pushed 2 top) rflags m2 (b + 8 + 8 + 8) (omega (arith, room))
              (omega (arith, room))
          ∙ put8-at (pushed 1 top) sp (put8 top ss m) (b + 8 + 8 + 8) (omega (arith, room));
    }

-- The state that iretq makes.
abbrev pub returned : State → (sp rflags cs rip : ℕ) → State
returned t sp rflags cs rip = record t {
  cpu = record t.cpu {
    regs = set t.cpu.regs rsp sp;
    rip = rip;
    rflags = rflags;
    cpl = bit_and cs 3;
  };
}

pub iretq_lem :
    (t : State)
    → IsPlain t
    → 4 < length t.cpu.regs
    → reg_of rsp t + 40 ≤ t.mem.len
    → iretq t
      ≡ some (
        returned t
            (le_bytes t.mem (reg_of rsp t + 8 + 8 + 8) 8)
            (le_bytes t.mem (reg_of rsp t + 8 + 8) 8)
            (le_bytes t.mem (reg_of rsp t + 8) 8)
            (le_bytes t.mem (reg_of rsp t) 8),
        true,
      )
unfolding iretq
iretq_lem t plain wide inside =
    let b = reg_of rsp t in
    let again : (x : ℕ) → IsPlain (framed t x t.mem) =
      λ x. record { flat = plain.flat; bytes = plain.bytes; low = plain.low } in
    let first : pop64 t ≡ some (framed t (b + 8) t.mem, some (le_bytes t.mem b 8)) =
      ap pop64 (sym (framed-own t t.mem wide))
      ∙ pop64-framed t wide b t.mem (again b) (omega (arith, inside)) in
    rw
      (
        first,
        pop64-framed t wide (b + 8) t.mem (again (b + 8)) (omega (arith, inside)),
        pop64-framed t wide (b + 8 + 8) t.mem (again (b + 8 + 8)) (omega (arith, inside)),
        pop64-framed t wide (b + 8 + 8 + 8) t.mem (again (b + 8 + 8 + 8)) (omega (arith, inside)),
        pop64-framed t wide (b + 8 + 8 + 8 + 8) t.mem (again (b + 8 + 8 + 8 + 8))
            (omega (arith, inside)),
        set-set t.cpu.regs rsp _ _,
      )
      refl
