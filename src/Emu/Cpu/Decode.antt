-- ===== src/Emu/Cpu/Decode.antt =====
-- emu/src/lib.rs: the decoder of operands. A sum of code addresses wraps at 2 ^ 64.
pub mod Bounds
use nanokrnl.Base.{
  ℕ, ◌+◌, ◌-◌, ◌*◌, ◌/◌, ◌%◌, ◌^◌, bit_and, bit_or, Bool, true, false, not, ◌&&◌, Option, none,
  some, ◌==◌, ltb, if◌then◌else◌,
}
use nanokrnl.Emu.Mmu.{Memory, execute, Translation, ok, page_fault, translate}
use nanokrnl.Emu.Cpu.{Cpu, State, Rm, reg, mem_at, reg_of}

-- `unwrap_or(p)`; `translate` always returns.
abbrev pub place_or : (p : ℕ) → Option Translation → ℕ
place_or p none = p
place_or p (some (ok phys)) = phys
place_or p (some (page_fault addr code)) = p

-- The closure `cb`.
unfoldable pub code_byte : State → (p : ℕ) → ℕ
code_byte s p =
    let ph = place_or p (translate s.mem s.cpu.paging p execute (s.cpu.cpl == 3)) in
    if ltb ph s.mem.len then s.mem.byte_at ph else 0

abbrev pub next_pc : (pc n : ℕ) → ℕ
next_pc pc n = (pc + n) % 2 ^ 64

-- `v as i32 as i64` and `v as i8 as i64`, at 64 bits.
abbrev pub extend : (bits v : ℕ) → ℕ
extend bits v = if ltb v (2 ^ (bits - 1)) then v else v + 2 ^ 64 - 2 ^ bits

-- The closure `rd32`.
unfoldable pub read_disp32 : State → (p : ℕ) → ℕ
read_disp32 s p = extend 32 (
    bit_or
      (bit_or (bit_or (code_byte s p) (code_byte s (next_pc p 1) * 2 ^ 8))
        (code_byte s (next_pc p 2) * 2 ^ 16))
      (code_byte s (next_pc p 3) * 2 ^ 24))

abbrev pub wrapping_add : ℕ → ℕ → ℕ
wrapping_add a b = (a + b) % 2 ^ 64

abbrev pub extended : (rex : Bool) → ℕ
extended rex = if rex then 8 else 0

-- `addr` and `pc`
pub record Place : Type 0 where
  pub addr : ℕ
  pub pc : ℕ

-- The base and index of a SIB byte.
abbrev pub sib_place : (sib md : ℕ) (rex_x rex_b : Bool) (pc : ℕ) → State → Place
sib_place sib md rex_x rex_b pc s =
    let field = bit_and (sib / 2 ^ 3) 7 in
    let base_reg = bit_and sib 7 in
    let idx_val = if (field == 4) && not rex_x then 0 else reg_of (field + extended rex_x) s in
    let scaled = idx_val * 2 ^ (sib / 2 ^ 6) % 2 ^ 64 in
    if (md == 0) && (base_reg == 5)
    then record { addr = wrapping_add scaled (read_disp32 s pc); pc = next_pc pc 4 }
    else record { addr = wrapping_add (reg_of (base_reg + extended rex_b) s) scaled; pc = pc }

-- The address without the displacement of md 1 and 2.
unfoldable pub base_place : (md rm : ℕ) (rex_x rex_b : Bool) (imm_len pc : ℕ) → State → Place
base_place md rm rex_x rex_b imm_len pc s =
    if rm == 4
    then sib_place (code_byte s pc) md rex_x rex_b (next_pc pc 1) s
    else if (md == 0) && (rm == 5)
    then record {
      addr = wrapping_add (next_pc (next_pc pc 4) imm_len) (read_disp32 s pc);
      pc = next_pc pc 4;
    }
    else record { addr = reg_of (rm + extended rex_b) s; pc = pc }

abbrev pub displaced : (md : ℕ) → State → Place → Place
displaced md s p =
    if md == 1
    then record { addr = wrapping_add p.addr (extend 8 (code_byte s p.pc)); pc = next_pc p.pc 1 }
    else if md == 2
    then record { addr = wrapping_add p.addr (read_disp32 s p.pc); pc = next_pc p.pc 4 }
    else p

pub record Operands : Type 0 where
  pub reg_field : ℕ
  pub rm : Rm
  pub pc : ℕ

unfoldable pub decode_modrm_imm :
    (pc : ℕ) (rex_r rex_x rex_b : Bool) (imm_len : ℕ) → State → Operands
decode_modrm_imm pc rex_r rex_x rex_b imm_len s =
    let modrm = code_byte s pc in
    let md = modrm / 2 ^ 6 in
    let reg_field = bit_and (modrm / 2 ^ 3) 7 + extended rex_r in
    let rm = bit_and modrm 7 in
    if md == 3
    then record { reg_field = reg_field; rm = reg (rm + extended rex_b); pc = next_pc pc 1 }
    else let p = displaced md s (base_place md rm rex_x rex_b imm_len (next_pc pc 1) s) in
      record { reg_field = reg_field; rm = mem_at (wrapping_add p.addr s.cpu.seg_base); pc = p.pc }

abbrev pub decode_modrm : (pc : ℕ) (rex_r rex_x rex_b : Bool) → State → Operands
decode_modrm pc rex_r rex_x rex_b s = decode_modrm_imm pc rex_r rex_x rex_b 0 s
