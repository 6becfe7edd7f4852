-- ===== src/Emu/Cpu/Stack.antt =====
-- emu/src/lib.rs: `push64` and `pop64` while paging is off.
use nanokrnl.Base.{
  ℕ, zero, suc, ◌+◌, ◌-◌, ◌%◌, ◌^◌, ◌<◌, ◌≤◌, ◌≡◌, refl, sym, ap, ◌∙◌, true, some, List, [], ◌∷◌,
  length, get_or, set, get_or-set_self, arith,
}
use nanokrnl.Emu.Mmu.{Memory, le_bytes}
use nanokrnl.Emu.Cpu.{State, rsp, reg_of, push64, pop64, put_bytes}
use nanokrnl.Emu.Cpu.Bytes.{put_bytes-len}
use nanokrnl.Emu.Cpu.Plain.{IsPlain, load-inside, store-inside, stored-IsPlain, stored_self}

pub set-set : (xs : List ℕ) (i v w : ℕ) → set (set xs i v) i w ≡ set xs i w
set-set [] i v w = refl
set-set (x ∷ xs) zero v w = refl
set-set (x ∷ xs) (suc i) v w = ap (λ ys. x ∷ ys) (set-set xs i v w)

pub set-get_or : (xs : List ℕ) (i d : ℕ) → i < length xs → set xs i (get_or xs i d) ≡ xs
set-get_or [] i d lt = refl
set-get_or (x ∷ xs) zero d lt = refl
set-get_or (x ∷ xs) (suc i) d lt = ap (λ ys. x ∷ ys) (set-get_or xs i d (omega arith))

-- A state with another stack pointer and other memory.
abbrev pub framed : State → (sp : ℕ) → Memory → State
framed s sp m = record { cpu = record s.cpu { regs = set s.cpu.regs rsp sp }; mem = m }

-- Memory after a push to the stack that ends at `sp`.
abbrev pub put8 : (sp v : ℕ) → Memory → Memory
put8 sp v m = put_bytes (sp - 8) 0 8 v m

module _ (s : State) (wide : 4 < length s.cpu.regs) where
  pub framed-rsp : (sp : ℕ) (m : Memory) → reg_of rsp (framed s sp m) ≡ sp
  framed-rsp sp m = get_or-set_self s.cpu.regs rsp sp 0 wide

  pub push64-framed :
      (sp v : ℕ) (m : Memory)
      → IsPlain (framed s sp m)
      → 8 ≤ sp
      → sp ≤ m.len
      → push64 v (framed s sp m) ≡ some (framed s (sp - 8) (put8 sp v m), true)
  unfolding push64
  push64-framed sp v m plain room inside =
      let down : (sp + 2 ^ 64 - 8) % 2 ^ 64 ≡ sp - 8 = omega (arith, plain.low) in
      rw (framed-rsp sp m, down, set-set s.cpu.regs rsp sp (sp - 8))
        (store-inside (framed s (sp - 8) m) (sp - 8) v 8
          (record { flat = plain.flat; bytes = plain.bytes; low = plain.low }) (omega arith)
          (omega arith))

  pub pop64-framed :
      (sp : ℕ) (m : Memory)
      → IsPlain (framed s sp m)
      → sp + 8 ≤ m.len
      → pop64 (framed s sp m) ≡ some (framed s (sp + 8) m, some (le_bytes m sp 8))
  unfolding pop64
  pop64-framed sp m plain inside =
      let up : (sp + 8) % 2 ^ 64 ≡ sp + 8 = omega (arith, plain.low) in
      rw
        (
          framed-rsp sp m,
          load-inside (framed s sp m) sp 8 plain (omega arith) inside,
          framed-rsp sp m,
          up,
          set-set s.cpu.regs rsp sp (sp + 8),
        )
        refl

  pub framed-IsPlain :
      (sp v sp2 : ℕ) (m : Memory) → IsPlain (framed s sp m) → IsPlain (framed s sp2 (put8 sp v m))
  framed-IsPlain sp v sp2 m plain =
      let after = stored-IsPlain (framed s sp m) (sp - 8) v 8 plain in
      record { flat = after.flat; bytes = after.bytes; low = after.low }

-- With its own stack pointer only memory differs.
pub framed-own :
    (s : State) (m : Memory)
    → 4 < length s.cpu.regs
    → framed s (reg_of rsp s) m ≡ record s { mem = m }
framed-own s m wide =
    ap (λ (r : List ℕ). record { cpu = record s.cpu { regs = r }; mem = m })
      (set-get_or s.cpu.regs rsp 0 wide)

-- Paging is off, memory ends below the windows of the devices, and there is room for a word below
-- the stack pointer. `push64` of a word succeeds, and `pop64` after it returns the word and restores
-- every register; memory then holds what the push left.
pub pop64-push64 :
    (s : State) (v : ℕ)
    → IsPlain s
    → 4 < length s.cpu.regs
    → 8 ≤ reg_of rsp s
    → reg_of rsp s ≤ s.mem.len
    → v < 2 ^ 64
    → (push64 v s ≡ some (framed s (reg_of rsp s - 8) (put8 (reg_of rsp s) v s.mem), true))
      × (pop64 (framed s (reg_of rsp s - 8) (put8 (reg_of rsp s) v s.mem))
          ≡ some (record s { mem = put8 (reg_of rsp s) v s.mem }, some v))
pop64-push64 s v plain wide room inside lt =
    let sp = reg_of rsp s in
    let own : IsPlain (framed s sp s.mem) = record {
      flat = plain.flat;
      bytes = plain.bytes;
      low = plain.low;
    } in
    let back : sp - 8 + 8 ≡ sp = omega (arith, room) in
    let below : sp - 8 + 8 ≤ (put8 sp v s.mem).len =
      rw (back, put_bytes-len (sp - 8) 0 8 v s.mem) inside in
    let word : le_bytes (put8 sp v s.mem) (sp - 8) 8 ≡ v =
      stored_self s.mem (sp - 8) v 8 ∙ omega (arith, lt) in
    (
      ap (push64 v) (sym (framed-own s s.mem wide))
          ∙ push64-framed s wide sp v s.mem own room inside,
      pop64-framed s wide (sp - 8) (put8 sp v s.mem) (framed-IsPlain s wide sp v (sp - 8) s.mem own)
            below
          ∙ rw (back, word, framed-own s (put8 sp v s.mem) wide) refl,
    )
