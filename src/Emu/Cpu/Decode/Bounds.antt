-- ===== src/Emu/Cpu/Decode/Bounds.antt =====
-- emu/src/lib.rs: what the decoder of operands can give.
use nanokrnl.Base.{
  List, get_or, ℕ, ◌+◌, ◌/◌, ◌%◌, ◌^◌, ◌<◌, ◌≤◌, ◌≡◌, refl, bit_and, Bool, ◌&&◌, inl, inr, ◌==◌,
  if◌then◌else◌, arith, Bool-cases,
}
use nanokrnl.Base.Bits.Words.{bit_and-ones}
use nanokrnl.Emu.Mmu.Walk.{AreBytes}
use nanokrnl.Emu.Cpu.{State, Rm, reg, mem_at}
use nanokrnl.Emu.Mmu.{execute, translate}
use nanokrnl.Emu.Cpu.Decode.{
  place_or, code_byte, extended, read_disp32, sib_place, Place, base_place, displaced, next_pc,
  Operands, decode_modrm_imm,
}

code_byte-lt : (s : State) (p : ℕ) → AreBytes s.mem → code_byte s p < 256
unfolding code_byte
code_byte-lt s p bytes =
    let p1 : ℕ = place_or p (translate s.mem s.cpu.paging p execute (s.cpu.cpl == 3)) in
    ground (arith, bytes p1)

-- The operand is a register of the sixteen or a 64-bit address.
abbrev pub InRange : Rm → Type 0
InRange (reg r) = r < 16
InRange (mem_at a) = a < 2 ^ 64

-- The code moved on by `k` bytes, at least `least` and at most `most`.
abbrev pub Moves : (least most pc pc1 : ℕ) → Type 0
Moves least most pc pc1 = (k : ℕ) × (least ≤ k) × (k ≤ most) × (pc1 ≡ (pc + k) % 2 ^ 64)

base_moves :
    (md rm : ℕ) (rex_x rex_b : Bool) (imm_len pc : ℕ) (s : State)
    → pc < 2 ^ 64
    → Moves 0 (if md == 0 then 5 else 1) pc (base_place md rm rex_x rex_b imm_len pc s).pc
unfolding base_place
base_moves md rm rex_x rex_b imm_len pc s lt = elim (Bool-cases (rm == 4)) [
  | inl sib ↦ elim (Bool-cases ((md == 0) && (bit_and (code_byte s pc) 7 == 5))) [
    | inl direct ↦ rw (sib, direct) (5, omega arith, ground (arith, direct), omega arith)
    | inr based ↦ rw (sib, based) (1, omega arith, ground arith, omega arith)
  ]
  | inr plain ↦ elim (Bool-cases ((md == 0) && (rm == 5))) [
    | inl relative ↦ rw (plain, relative) (4, omega arith, ground (arith, relative), omega arith)
    | inr based ↦ rw (plain, based) (0, omega arith, ground arith, omega (arith, lt))
  ]
]

displaced_moves :
    (md : ℕ) (s : State) (p : Place)
    → p.pc < 2 ^ 64
    → Moves 0 (if md == 0 then 0 else 4) p.pc (displaced md s p).pc
displaced_moves md s p lt = elim (Bool-cases (md == 1)) [
  | inl byte ↦ rw byte (1, omega arith, ground (arith, byte), omega arith)
  | inr more ↦ elim (Bool-cases (md == 2)) [
    | inl word ↦ rw (more, word) (4, omega arith, ground (arith, word), omega arith)
    | inr none ↦ rw (more, none) (0, omega arith, ground arith, omega (arith, lt))
  ]
]

-- The moves of the parts add up.
Moves_sum :
    {m n : ℕ} (pc pc1 pc2 : ℕ)
    → m + n ≤ 5
    → Moves 0 m ((pc + 1) % 2 ^ 64) pc1
    → Moves 0 n pc1 pc2
    → Moves 1 6 pc pc2
Moves_sum pc pc1 pc2 le (j, j_pos, j_le, ej) (k, k_pos, k_le, ek) =
    (1 + j + k, omega arith, omega (arith, le, j_le, k_le), omega (arith, ej, ek))

-- The same state with other registers, of which the first sixteen are the same.
abbrev pub with_regs : State → List ℕ → State
with_regs s regs = record s { cpu = record s.cpu { regs = regs } }

abbrev pub SameSixteen : (regs regs' : List ℕ) → Type 0
SameSixteen regs regs' = (r : ℕ) → r < 16 → get_or regs' r 0 ≡ get_or regs r 0

field-lt : (v : ℕ) (rex : Bool) → v < 256 → bit_and v 7 + extended rex < 16
field-lt v rex lt =
    let low : bit_and v 7 ≡ v % 2 ^ 3 = bit_and-ones 64 3 v (omega (arith, lt)) (omega arith) in
    elim (Bool-cases rex) [
      | inl set ↦ rw set (omega (arith, low))
      | inr clear ↦ rw clear (omega (arith, low))
    ]

sib_place-with_regs :
    (sib md : ℕ) (rex_x rex_b : Bool) (pc : ℕ) (s : State) (regs : List ℕ)
    → sib < 256
    → SameSixteen s.cpu.regs regs
    → sib_place sib md rex_x rex_b pc (with_regs s regs) ≡ sib_place sib md rex_x rex_b pc s
unfolding read_disp32 code_byte
sib_place-with_regs sib md rex_x rex_b pc s regs lt same =
    rw
      (
        same (bit_and (sib / 2 ^ 3) 7 + extended rex_x)
            (field-lt (sib / 2 ^ 3) rex_x (omega (arith, lt))),
        same (bit_and sib 7 + extended rex_b) (field-lt sib rex_b lt),
      )
      refl

base_place-with_regs :
    (md m : ℕ) (rex_x rex_b : Bool) (imm_len pc : ℕ) (s : State) (regs : List ℕ)
    → AreBytes s.mem
    → m < 256
    → SameSixteen s.cpu.regs regs
    → base_place md (bit_and m 7) rex_x rex_b imm_len pc (with_regs s regs)
      ≡ base_place md (bit_and m 7) rex_x rex_b imm_len pc s
unfolding base_place read_disp32 code_byte
base_place-with_regs md m rex_x rex_b imm_len pc s regs bytes lt same =
    rw
      (
        sib_place-with_regs (code_byte s pc) md rex_x rex_b (next_pc pc 1) s regs
            (code_byte-lt s pc bytes) same,
        same (bit_and m 7 + extended rex_b) (field-lt m rex_b lt),
      )
      refl

pub record IsInRange (pc : ℕ) (o : Operands) : Type 0 where
  pub register : o.reg_field < 16
  pub operand : InRange o.rm
  pub length : Moves 1 6 pc o.pc

decode_modrm_imm_range :
    (s : State) (pc : ℕ) (rex_r rex_x rex_b : Bool) (imm_len : ℕ)
    → AreBytes s.mem
    → IsInRange pc (decode_modrm_imm pc rex_r rex_x rex_b imm_len s)
unfolding decode_modrm_imm
decode_modrm_imm_range s pc rex_r rex_x rex_b imm_len bytes =
    let m : ℕ = code_byte s pc in
    let m_lt : m < 256 = code_byte-lt s pc bytes in
    let md : ℕ = m / 2 ^ 6 in
    let field : bit_and (m / 2 ^ 3) 7 ≡ m / 2 ^ 3 % 2 ^ 3 =
      bit_and-ones 64 3 (m / 2 ^ 3) (omega (arith, m_lt)) (omega arith) in
    let low : bit_and m 7 ≡ m % 2 ^ 3 = bit_and-ones 64 3 m (omega (arith, m_lt)) (omega arith) in
    let first : ℕ = next_pc pc 1 in
    let base = base_place md (bit_and m 7) rex_x rex_b imm_len first s in
    let moved = base_moves md (bit_and m 7) rex_x rex_b imm_len first s (omega arith) in
    elim (Bool-cases (md == 3)) [
      | inl register ↦ rw register (record {
        register = ground (arith, field);
        operand = ground (arith, low);
        length = (1, omega arith, omega arith, refl);
      })
      | inr memory ↦ rw memory (record {
        register = ground (arith, field);
        operand = omega arith;
        length =
            Moves_sum pc base.pc (displaced md s base).pc (ground arith) moved
              (displaced_moves md s base (omega (arith, moved.3)));
      })
    ]

decode_modrm_imm-with_regs :
    (s : State) (pc : ℕ) (rex_r rex_x rex_b : Bool) (imm_len : ℕ) (regs : List ℕ)
    → AreBytes s.mem
    → SameSixteen s.cpu.regs regs
    → decode_modrm_imm pc rex_r rex_x rex_b imm_len (with_regs s regs)
      ≡ decode_modrm_imm pc rex_r rex_x rex_b imm_len s
unfolding decode_modrm_imm code_byte read_disp32
decode_modrm_imm-with_regs s pc rex_r rex_x rex_b imm_len regs bytes same =
    let m : ℕ = code_byte s pc in
    rw
      (base_place-with_regs (m / 2 ^ 6) m rex_x rex_b imm_len (next_pc pc 1) s regs bytes
        (code_byte-lt s pc bytes) same)
      refl

-- In memory of bytes `decode_modrm_imm` gives register numbers below 16 and operands in memory at 64-bit
-- addresses, and moves on by one to six bytes, modulo 2 ^ 64. What it gives depends on no register but the
-- first sixteen: its base and index registers are among them.
pub decode_modrm_imm-IsInRange :
    (s : State) (pc : ℕ) (rex_r rex_x rex_b : Bool) (imm_len : ℕ) (regs : List ℕ)
    → AreBytes s.mem
    → SameSixteen s.cpu.regs regs
    → IsInRange pc (decode_modrm_imm pc rex_r rex_x rex_b imm_len s)
      × (decode_modrm_imm pc rex_r rex_x rex_b imm_len (with_regs s regs)
          ≡ decode_modrm_imm pc rex_r rex_x rex_b imm_len s)
decode_modrm_imm-IsInRange s pc rex_r rex_x rex_b imm_len regs bytes same = (
  decode_modrm_imm_range s pc rex_r rex_x rex_b imm_len bytes,
  decode_modrm_imm-with_regs s pc rex_r rex_x rex_b imm_len regs bytes same,
)
