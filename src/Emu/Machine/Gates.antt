-- ===== src/Emu/Machine/Gates.antt =====
-- emu/src/machine.rs: a gate as the processor reads it.
use native.Mathlib.Nat.{pow-le-pow_right}
use nanokrnl.Base.{
  ℕ, ◌+◌, ◌*◌, ◌/◌, ◌%◌, ◌^◌, ◌<◌, ◌≤◌, ◌≡◌, ◌≢◌, refl, ◌∙◌, bit_and, bit_or, true, ◌⊎◌, inl, inr,
  some, leb, ltb, Bool-cases, arith,
}
use nanokrnl.Base.Bits.{bit_and-lt}
use nanokrnl.Base.Bits.Words.{bit_and-ones, bit_or-add}
use nanokrnl.Emu.Mmu.{Memory, le_bytes}
use nanokrnl.Emu.Cpu.{put_bytes}
use nanokrnl.Emu.Cpu.Bytes.{put_bytes-len, bit_or_comm}
use nanokrnl.Emu.Cpu.Plain.{stored_self, stored_other}
use nanokrnl.Emu.Cpu.Gate.{target_of, attributes_of, handler_of}
use nanokrnl.Emu.Machine.{idt_addr, idt_lo, idt_hi, put64, set_idt_gate}

-- A field above the fields so far.
or_field :
    (n a b : ℕ) → b < 2 ^ n → n ≤ 64 → a * 2 ^ n < 2 ^ 64 → bit_or b (a * 2 ^ n) ≡ b + a * 2 ^ n
or_field n a b lt le wide =
    let below : 2 ^ n ≤ 2 ^ 64 = pow-le-pow_right (omega arith) le in
    bit_or_comm 64 b (a * 2 ^ n) (omega (arith, lt, below)) wide ∙ bit_or-add n a b lt ∙ omega arith

idt_lo_lem :
    (h : ℕ)
    → h < 2 ^ 64
    → idt_lo h ≡ h % 2 ^ 16 + 8 * 2 ^ 16 + 0x8e * 2 ^ 40 + h / 2 ^ 16 % 2 ^ 16 * 2 ^ 48
idt_lo_lem h lt =
    rw
      (
        bit_and-ones 64 16 h lt (omega arith),
        bit_and-ones 64 16 (h / 2 ^ 16) (omega (arith, lt)) (omega arith),
        or_field 16 8 (h % 2 ^ 16) (omega arith) (omega arith) (omega arith),
        or_field 40 0x8e (h % 2 ^ 16 + 8 * 2 ^ 16) (omega arith) (omega arith) (omega arith),
        or_field 48 (h / 2 ^ 16 % 2 ^ 16) (h % 2 ^ 16 + 8 * 2 ^ 16 + 0x8e * 2 ^ 40) (omega arith)
            (omega arith) (omega arith),
      )
      refl

-- The fields in the words of a gate.
pub record Leads (lo hi h : ℕ) : Type 0 where
  pub target : target_of lo ≡ 0
  pub attributes : attributes_of lo ≡ 0x8e
  pub handler : handler_of lo hi ≡ h

gate-Leads : (h : ℕ) → h < 2 ^ 64 → Leads (idt_lo h) (idt_hi h) h
gate-Leads h lt =
    let lo : ℕ = h % 2 ^ 16 + 8 * 2 ^ 16 + 0x8e * 2 ^ 40 + h / 2 ^ 16 % 2 ^ 16 * 2 ^ 48 in
    let e : idt_lo h ≡ lo = idt_lo_lem h lt in
    let upper : bit_and (h / 2 ^ 32) 0xffff_ffff ≡ h / 2 ^ 32 =
      bit_and-ones 64 32 (h / 2 ^ 32) (omega (arith, lt)) (omega arith) ∙ omega (arith, lt) in
    let selector : bit_and (lo / 2 ^ 16) 0xffff ≡ 8 =
      bit_and-ones 64 16 (lo / 2 ^ 16) (omega arith) (omega arith) ∙ omega arith in
    let low : bit_and lo 0xffff ≡ h % 2 ^ 16 =
      bit_and-ones 64 16 lo (omega arith) (omega arith) ∙ omega arith in
    let middle : bit_and (lo / 2 ^ 48) 0xffff ≡ h / 2 ^ 16 % 2 ^ 16 =
      bit_and-ones 64 16 (lo / 2 ^ 48) (omega arith) (omega arith) ∙ omega arith in
    record {
      target = rw (e, selector) refl;
      attributes = rw e (bit_and-ones 64 8 (lo / 2 ^ 40) (omega arith) (omega arith) ∙ omega arith);
      handler =
          rw
            (
              e,
              low,
              middle,
              upper,
              upper,
              or_field 16 (h / 2 ^ 16 % 2 ^ 16) (h % 2 ^ 16) (omega arith) (omega arith)
                  (omega arith),
              or_field 32 (h / 2 ^ 32) (h % 2 ^ 16 + h / 2 ^ 16 % 2 ^ 16 * 2 ^ 16) (omega arith)
                  (omega arith) (omega (arith, lt)),
            )
            (omega (arith, lt));
    }

-- The gate of a vector in memory.
abbrev pub lo_at : Memory → (vector : ℕ) → ℕ
lo_at m vector = le_bytes m (idt_addr + vector * 16) 8

abbrev pub hi_at : Memory → (vector : ℕ) → ℕ
hi_at m vector = le_bytes m (idt_addr + vector * 16 + 8) 8

-- Memory after the gate is written.
abbrev pub with_gate : Memory → (vector handler : ℕ) → Memory
with_gate m vector handler =
    put_bytes (idt_addr + vector * 16 + 8) 0 8 (idt_hi handler)
      (put_bytes (idt_addr + vector * 16) 0 8 (idt_lo handler) m)

-- When memory reaches past the gate, `set_idt_gate` of a 64-bit address succeeds. The fields of the gate are
-- that address, the privilege level 0, and the attributes of a present interrupt gate. The gate of any other
-- vector is unchanged.
pub set_idt_gate-Leads :
    (m : Memory) (vector other h : ℕ)
    → h < 2 ^ 64
    → idt_addr + vector * 16 + 16 ≤ m.len
    → other ≢ vector
    → (set_idt_gate vector h m ≡ some (with_gate m vector h))
      × Leads (lo_at (with_gate m vector h) vector) (hi_at (with_gate m vector h) vector) h
      × (lo_at (with_gate m vector h) other ≡ lo_at m other)
      × (hi_at (with_gate m vector h) other ≡ hi_at m other)
unfolding set_idt_gate put64
set_idt_gate-Leads m vector other h lt inside ne =
    let d : ℕ = idt_addr + vector * 16 in
    let first = put_bytes d 0 8 (idt_lo h) m in
    let fits : leb (d + 8) m.len ≡ true = ground (arith, inside) in
    let fits_hi : leb (d + 8 + 8) first.len ≡ true =
      ground (arith, inside, put_bytes-len d 0 8 (idt_lo h) m) in
    let lo : lo_at (with_gate m vector h) vector ≡ idt_lo h =
      stored_other first (d + 8) (idt_hi h) 8 d 8 (inl (omega arith))
      ∙ stored_self m d (idt_lo h) 8
      ∙ omega (arith, idt_lo_lem h lt) in
    let hi : hi_at (with_gate m vector h) vector ≡ idt_hi h =
      stored_self first (d + 8) (idt_hi h) 8
      ∙ omega (arith, bit_and-lt 64 (h / 2 ^ 32) 0xffff_ffff (omega (arith, lt))) in
    let o : ℕ = idt_addr + other * 16 in
    let apart : (o + 16 ≤ d) ⊎ (d + 16 ≤ o) = elim (Bool-cases (ltb other vector)) [
      | inl before ↦ inl (ground (arith, before))
      | inr after ↦ inr (ground (arith, after, ne))
    ] in
    (
      rw (fits, fits_hi) refl,
      rw (lo, hi) (gate-Leads h lt),
      stored_other first (d + 8) (idt_hi h) 8 o 8 (ground (arith, apart))
          ∙ stored_other m d (idt_lo h) 8 o 8 (ground (arith, apart)),
      stored_other first (d + 8) (idt_hi h) 8 (o + 8) 8 (ground (arith, apart))
          ∙ stored_other m d (idt_lo h) 8 (o + 8) 8 (ground (arith, apart)),
    )
