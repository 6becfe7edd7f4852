-- ===== src/Emu/Cpu/Msr.antt =====
-- emu/src/lib.rs: the model-specific registers.
use nanokrnl.Base.{
  ℕ, ◌-◌, ◌^◌, ◌<◌, ◌≡◌, ◌≢◌, refl, bit_and, bit_or, ◌&&◌, ◌==◌, if◌then◌else◌, arith, Bool-cases,
  inl, inr,
}
use nanokrnl.Base.Bits.{bit, bit-bit_or, bit-bit_and, bit-pow, bit-ones_but}
use nanokrnl.Emu.Mmu.{long_mode_paging}
use nanokrnl.Emu.Mmu.Fields.{has-bit}
use nanokrnl.Emu.Cpu.{Cpu}
use nanokrnl.Emu.Cpu.System.{recompute_lma, read_msr, write_msr}

-- The registers that keep what is written.
pub data IsKept : ℕ → Type 0 where
  star : IsKept 0xc000_0081
  lstar : IsKept 0xc000_0082
  sfmask : IsKept 0xc000_0084
  fs_base : IsKept 0xc000_0100
  gs_base : IsKept 0xc000_0101
  kernel_gs_base : IsKept 0xc000_0102

-- A write of STAR, LSTAR, SFMASK, or of the base of FS, GS or the kernel's GS, is read back, and no other
-- register that `read_msr` reads changes.
pub read_msr-write_msr :
    {idx : ℕ} (c : Cpu) (val other : ℕ)
    → IsKept idx
    → other ≢ idx
    → (read_msr idx (write_msr idx val c) ≡ val)
      × (read_msr other (write_msr idx val c) ≡ read_msr other c)
unfolding read_msr write_msr
read_msr-write_msr c val other star ne = (refl, ground (arith, ne))
read_msr-write_msr c val other lstar ne = (refl, ground (arith, ne))
read_msr-write_msr c val other sfmask ne = (refl, ground (arith, ne))
read_msr-write_msr c val other fs_base ne = (refl, ground (arith, ne))
read_msr-write_msr c val other gs_base ne = (refl, ground (arith, ne))
read_msr-write_msr c val other kernel_gs_base ne = (refl, ground (arith, ne))

-- After a 64-bit write of EFER its bit 10, long mode active, is set exactly when bit 8 of the value, long mode enable, and
-- bit 31 of CR0, paging, are. Every other bit is the value's. Long-mode paging is
-- then on exactly when bit 8 of the value, CR0's paging bit and bit 5 of CR4 are all set.
pub write_msr-efer :
    (c : Cpu) (val k : ℕ)
    → k < 64
    → (bit (read_msr 0xc000_0080 (write_msr 0xc000_0080 val c)) k
        ≡ (if k == 10 then bit val 8 && bit c.paging.cr0 31 else bit val k))
      × (long_mode_paging (write_msr 0xc000_0080 val c).paging
          ≡ (bit val 8 && (bit c.paging.cr0 31 && bit c.paging.cr4 5)))
unfolding read_msr write_msr recompute_lma long_mode_paging
write_msr-efer c val k lt =
    rw (has-bit val 8, has-bit c.paging.cr0 31, has-bit c.paging.cr4 5)
      (elim (Bool-cases (bit val 8 && bit c.paging.cr0 31)) [
        | inl active ↦
            rw
              (
                active,
                has-bit (bit_or val (2 ^ 10)) 10,
                bit-bit_or val (2 ^ 10) k,
                bit-bit_or val (2 ^ 10) 10,
                bit-pow 10 k,
              )
              (ground (arith, active), ground (arith, active, bit-pow 10 10))
        | inr idle ↦
            rw
              (
                idle,
                has-bit (bit_and val (2 ^ 64 - 1 - 2 ^ 10)) 10,
                bit-bit_and val (2 ^ 64 - 1 - 2 ^ 10) k,
                bit-bit_and val (2 ^ 64 - 1 - 2 ^ 10) 10,
                bit-ones_but 64 10 k (omega arith) lt,
              )
              (ground (arith, idle), ground (arith, idle, bit-ones_but 64 10 10))
      ])
