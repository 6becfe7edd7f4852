-- ===== src/Emu/Cpu/LoadStore.antt =====
-- emu/src/lib.rs: `load` after `store` in memory, while paging is off.
use nanokrnl.Base.{ℕ, ◌+◌, ◌%◌, ◌^◌, ◌<◌, ◌≤◌, ◌≡◌, ap, ◌∙◌, true, ◌⊎◌, some}
use nanokrnl.Emu.Mmu.{le_bytes}
use nanokrnl.Emu.Mmu.Walk.{}
use nanokrnl.Emu.Cpu.{State, load, store}
use nanokrnl.Emu.Cpu.Bytes.{put_bytes-len}
use nanokrnl.Emu.Cpu.Plain.{
  IsPlain, load-inside, store-inside, stored, stored-IsPlain, stored_self, stored_other,
}

-- Paging is off, memory ends below the windows of the devices, and both accesses lie in memory.
-- `store` succeeds, and `load` of the same bytes then returns the value cut to their number. `load` of bytes
-- that the store does not touch returns the same before and after it.
pub load-store :
    (s : State) (a val size b k : ℕ)
    → IsPlain s
    → 0 < size
    → a + size ≤ s.mem.len
    → 0 < k
    → b + k ≤ s.mem.len
    → (b + k ≤ a) ⊎ (a + size ≤ b)
    → (store a val size s ≡ some (stored a val size s, true))
      × (load a size (stored a val size s) ≡ some (stored a val size s, some (val % 256 ^ size)))
      × (load b k (stored a val size s) ≡ some (stored a val size s, some (le_bytes s.mem b k)))
      × (load b k s ≡ some (s, some (le_bytes s.mem b k)))
load-store s a val size b k plain pos inside k_pos k_inside apart =
    let after = stored-IsPlain s a val size plain in
    let same : (stored a val size s).mem.len ≡ s.mem.len = put_bytes-len a 0 size val s.mem in
    (
      store-inside s a val size plain pos inside,
      load-inside (stored a val size s) a size after pos (rw same inside)
          ∙ ap (λ v. some (stored a val size s, some v)) (stored_self s.mem a val size),
      load-inside (stored a val size s) b k after k_pos (rw same k_inside)
          ∙ ap (λ v. some (stored a val size s, some v)) (stored_other s.mem a val size b k apart),
      load-inside s b k plain k_pos k_inside,
    )
