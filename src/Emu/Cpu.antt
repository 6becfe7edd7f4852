-- ===== src/Emu/Cpu.antt =====
-- emu/src/lib.rs: the processor's registers and its access to memory and to the stack. `none` is a
-- panic: an address whose end passes 2 ^ 64. A register number is below 16. The fields that only
-- trace or debug are left out.
pub mod System
pub mod Bytes
pub mod Plain
pub mod Stack
pub mod Interrupt
pub mod Gate
pub mod LoadStore
pub mod Registers
pub mod Decode
pub mod Msr
pub mod Tests
pub mod Frame
use nanokrnl.Base.{
  ℕ, zero, suc, ◌+◌, ◌-◌, ◌*◌, ◌/◌, ◌%◌, ◌^◌, bit_and, bit_or, Bool, true, false, not, ◌&&◌, ◌||◌,
  Option, none, some, List, [], ◌∷◌, ◌==◌, ltb, leb, if◌then◌else◌, ◌>>=◌, get_or, set,
}
use nanokrnl.Emu.Mmu.{
  Memory, Paging, Access, read, write, Translation, ok, page_fault, le_bytes, translate,
}
use nanokrnl.Emu.Devices.{Devices}
use nanokrnl.Emu.Devices.Dispatch.{
  is_apic_mmio, is_p9_mmio, apic_read, apic_write, p9_read, p9_write,
}

pub record Cpu : Type 0 where
  pub regs : List ℕ
  pub rip : ℕ
  pub rflags : ℕ
  pub gs_base : ℕ
  pub fs_base : ℕ
  pub seg_base : ℕ
  pub xmm : List ℕ
  pub machine_mode : Bool
  pub paging : Paging
  pub cr2 : ℕ
  pub pf_code : ℕ
  pub cr8 : ℕ
  pub cpl : ℕ
  pub dev : Devices
  pub idtr_base : ℕ
  pub idtr_limit : ℕ
  pub gdtr_base : ℕ
  pub gdtr_limit : ℕ
  pub star : ℕ
  pub lstar : ℕ
  pub sfmask : ℕ
  pub kernel_gs_base : ℕ
  pub tss_rsp0 : ℕ
  pub tr_base : ℕ
  pub icount : ℕ

-- `self` and `mem`.
pub record State : Type 0 where
  pub cpu : Cpu
  pub mem : Memory

pub data Rm : Type 0 where
  reg : (r : ℕ) → Rm
  mem_at : (a : ℕ) → Rm

abbrev pub rsp : ℕ
rsp = 4

abbrev pub reg_of : ℕ → State → ℕ
reg_of r s = get_or s.cpu.regs r 0

abbrev pub set_reg : (r v : ℕ) → State → State
set_reg r v s = record s { cpu = record s.cpu { regs = set s.cpu.regs r v } }

abbrev pub mask128 : (size : ℕ) → ℕ
mask128 size = if leb 8 size then 2 ^ 64 - 1 else 2 ^ (size * 8) - 1

-- The arms of the `match` in `xlate`.
abbrev pub translated : State → Option Translation → Option (State × Option ℕ)
translated s none = none
translated s (some (ok p)) = some (s, some p)
translated s (some (page_fault addr code)) =
    some (record s { cpu = record s.cpu { cr2 = addr; pf_code = code } }, none)

unfoldable pub xlate : (vaddr : ℕ) → Access → State → Option (State × Option ℕ)
xlate vaddr access s = translated s (translate s.mem s.cpu.paging vaddr access (s.cpu.cpl == 3))

-- The loop of `load`: `v |= mem[a + i] << (i * 8)`.
unfoldable pub or_bytes : Memory → (a i n v : ℕ) → ℕ
or_bytes mem a i zero v = v
or_bytes mem a i (suc n) v = or_bytes mem a (i + 1) n (bit_or v (mem.byte_at (a + i) * 2 ^ (i * 8)))

-- The loop of `store`: `mem[a + i] = (val >> (i * 8)) as u8`.
unfoldable pub put_bytes : (a i n val : ℕ) → Memory → Memory
put_bytes a i zero val mem = mem
put_bytes a i (suc n) val mem =
    put_bytes a (i + 1) n val (record mem {
      byte_at = λ x. if x == a + i then val / 2 ^ (i * 8) % 2 ^ 8 else mem.byte_at x;
    })

abbrev read_p9 : (size : ℕ) → State → Devices × ℕ → State × Option ℕ
read_p9 size s (d, v) =
    (record s { cpu = record s.cpu { dev = d } }, some (bit_and v (mask128 size)))

-- `load` at the physical address.
abbrev pub load_at : (size : ℕ) → State × Option ℕ → Option (State × Option ℕ)
load_at size (s, none) = some (s, none)
load_at size (s, some phys) =
    if s.cpu.machine_mode && is_apic_mmio phys
    then some (s, some (bit_and (apic_read phys s.cpu.dev) (mask128 size)))
    else if s.cpu.machine_mode && is_p9_mmio phys
    then some (read_p9 size s (p9_read phys s.cpu.dev))
    else if leb (2 ^ 64) (phys + size)
    then none
    else if ltb s.mem.len (phys + size)
    then some (s, none)
    else some (s, some (or_bytes s.mem phys 0 size 0))

unfoldable pub load : (addr size : ℕ) → State → Option (State × Option ℕ)
load addr size s = xlate addr read s >>= load_at size

-- `store` at the physical address.
abbrev pub store_at : (val size : ℕ) → State × Option ℕ → Option (State × Bool)
store_at val size (s, none) = some (s, false)
store_at val size (s, some phys) =
    if s.cpu.machine_mode && is_apic_mmio phys
    then some (record s { cpu = record s.cpu { dev = apic_write phys val s.cpu.dev } }, true)
    else if s.cpu.machine_mode && is_p9_mmio phys
    then some (record s { cpu = record s.cpu { dev = p9_write phys val s.cpu.dev } }, true)
    else if leb (2 ^ 64) (phys + size)
    then none
    else if ltb s.mem.len (phys + size)
    then some (s, false)
    else some (record s { mem = put_bytes phys 0 size val s.mem }, true)

unfoldable pub store : (addr val size : ℕ) → State → Option (State × Bool)
store addr val size s = xlate addr write s >>= store_at val size

-- `load128` and `store128` at the physical address.
abbrev load128_at : State × Option ℕ → Option (State × Option ℕ)
load128_at (s, none) = some (s, none)
load128_at (s, some phys) =
    if leb (2 ^ 64) (phys + 16)
    then none
    else if ltb s.mem.len (phys + 16)
    then some (s, none)
    else some (s, some (le_bytes s.mem phys 16))

pub load128 : (addr : ℕ) → State → Option (State × Option ℕ)
load128 addr s = xlate addr read s >>= load128_at

abbrev store128_at : (val : ℕ) → State × Option ℕ → Option (State × Bool)
store128_at val (s, none) = some (s, false)
store128_at val (s, some phys) =
    if leb (2 ^ 64) (phys + 16)
    then none
    else if ltb s.mem.len (phys + 16)
    then some (s, false)
    else some (record s { mem = put_bytes phys 0 16 val s.mem }, true)

pub store128 : (addr val : ℕ) → State → Option (State × Bool)
store128 addr val s = xlate addr write s >>= store128_at val

pub read_xmm_rm : Rm → State → Option (State × Option ℕ)
unfolding load128
read_xmm_rm (reg r) s = some (s, some (get_or s.cpu.xmm r 0))
read_xmm_rm (mem_at a) s = load128 a s

pub write_xmm_rm : Rm → (val : ℕ) → State → Option (State × Bool)
unfolding store128
write_xmm_rm (reg r) val s =
    some (record s { cpu = record s.cpu { xmm = set s.cpu.xmm r val } }, true)
write_xmm_rm (mem_at a) val s = store128 a val s

unfoldable pub read_rm : Rm → (size : ℕ) → State → Option (State × Option ℕ)
unfolding load
read_rm (reg r) size s =
    some (s, some (if leb 8 size then reg_of r s else bit_and (reg_of r s) (2 ^ (size * 8) - 1)))
read_rm (mem_at a) size s = load a size s

-- The value that `write_rm` stores in a register.
abbrev pub merged : (size old val : ℕ) → ℕ
merged size old val =
    if size == 1
    then bit_or (bit_and old (2 ^ 64 - 1 - 0xff)) (bit_and val 0xff)
    else if size == 2
    then bit_or (bit_and old (2 ^ 64 - 1 - 0xffff)) (bit_and val 0xffff)
    else if size == 4
    then bit_and val 0xffff_ffff
    else val

unfoldable pub write_rm : Rm → (val size : ℕ) → State → Option (State × Bool)
unfolding store
write_rm (reg r) val size s = some (set_reg r (merged size (reg_of r s) val) s, true)
write_rm (mem_at a) val size s = store a val size s

unfoldable pub push64 : (val : ℕ) → State → Option (State × Bool)
unfolding store
push64 val s = let sp = (reg_of rsp s + 2 ^ 64 - 8) % 2 ^ 64 in store sp val 8 (set_reg rsp sp s)

-- The end of `pop64`.
abbrev pub popped : State × Option ℕ → State × Option ℕ
popped (s, none) = (s, none)
popped (s, some v) = (set_reg rsp ((reg_of rsp s + 8) % 2 ^ 64) s, some v)

unfoldable pub pop64 : State → Option (State × Option ℕ)
unfolding load
pop64 s = load (reg_of rsp s) 8 s >>= λ r. some (popped r)

-- `setup_frame`: the answer of the push is ignored.
pub setup_frame : (entry stack_top : ℕ) → State → Option State
unfolding push64
setup_frame entry stack_top s =
    push64 (2 ^ 64 - 1) (set_reg rsp stack_top (record s { cpu = record s.cpu { rip = entry } }))
    >>= λ r. some r.0
