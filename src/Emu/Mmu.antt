-- ===== src/Emu/Mmu.antt =====
-- emu/src/mmu.rs: the translation of a virtual address through the page tables of the guest. Memory
-- is its size and a function from addresses to bytes.
pub mod Fields
pub mod Walk
pub mod Outcome
mod Tests
use nanokrnl.Base.{
  ℕ, zero, suc, ◌+◌, ◌-◌, ◌*◌, ◌/◌, ◌^◌, bit_and, bit_or, Bool, true, false, not, ◌&&◌, ◌||◌,
  Option, none, some, ◌==◌, leb, if◌then◌else◌,
}

pub record Memory : Type 0 where
  pub len : ℕ
  pub byte_at : ℕ → ℕ

pub record Paging : Type 0 where
  pub cr0 : ℕ
  pub cr3 : ℕ
  pub cr4 : ℕ
  pub efer : ℕ

pub data Access : Type 0 where
  read write execute : Access

abbrev pub cr0_pg : ℕ
cr0_pg = 2 ^ 31

abbrev pub cr4_pae : ℕ
cr4_pae = 2 ^ 5

abbrev pub efer_lma : ℕ
efer_lma = 2 ^ 10

abbrev pub efer_nxe : ℕ
efer_nxe = 2 ^ 11

abbrev pub pte_p : ℕ
pte_p = 2 ^ 0

abbrev pub pte_rw : ℕ
pte_rw = 2 ^ 1

abbrev pub pte_us : ℕ
pte_us = 2 ^ 2

abbrev pub pte_ps : ℕ
pte_ps = 2 ^ 7

abbrev pub pte_nx : ℕ
pte_nx = 2 ^ 63

abbrev pub addr_mask : ℕ
addr_mask = 0x000f_ffff_ffff_f000

-- `Ok` with the physical address, or a `PageFault`.
pub data Translation : Type 0 where
  ok : (phys : ℕ) → Translation
  page_fault : (addr code : ℕ) → Translation

-- `x & bit != 0`
abbrev pub has : (x bit : ℕ) → Bool
has x bit = not (bit_and x bit == 0)

unfoldable pub long_mode_paging : Paging → Bool
long_mode_paging p = has p.cr0 cr0_pg && has p.cr4 cr4_pae && has p.efer efer_lma

unfoldable pub is_canonical : ℕ → Bool
is_canonical v = (v / 2 ^ 47 == 0) || (v / 2 ^ 47 == 0x1_ffff)

-- `u64::from_le_bytes` of the `n` bytes at `a`.
unfoldable pub le_bytes : Memory → (a n : ℕ) → ℕ
le_bytes mem a zero = 0
le_bytes mem a (suc n) = mem.byte_at a + 256 * le_bytes mem (a + 1) n

unfoldable pub read_u64 : Memory → (phys : ℕ) → Option ℕ
read_u64 mem phys = if leb (phys + 8) mem.len then some (le_bytes mem phys 8) else none

abbrev pub is_write : Access → Bool
is_write read = false
is_write write = true
is_write execute = false

abbrev pub is_execute : Access → Bool
is_execute read = false
is_execute write = false
is_execute execute = true

-- The permissions that all levels so far give.
pub record Permissions : Type 0 where
  pub writable : Bool
  pub user : Bool
  pub executable : Bool

-- The closure `fault`.
unfoldable pub fault : (vaddr : ℕ) → Access → (cpl_user present : Bool) → Translation
fault vaddr access cpl_user present =
    let c0 = if present then bit_or 0 1 else 0 in
    let c1 = if is_write access then bit_or c0 2 else c0 in
    let c2 = if cpl_user then bit_or c1 4 else c1 in
    let c3 = if is_execute access then bit_or c2 16 else c2 in page_fault vaddr c3

abbrev pub narrow : (nxe : Bool) (entry : ℕ) → Permissions → Permissions
narrow nxe entry p = record {
  writable = p.writable && has entry pte_rw;
  user = p.user && has entry pte_us;
  executable = if nxe then p.executable && not (has entry pte_nx) else p.executable;
}

-- The body of the branch that ends the walk.
unfoldable pub finish :
    (vaddr : ℕ) → Access → (cpl_user : Bool) (offset_bits entry : ℕ) → Permissions → Translation
finish vaddr access cpl_user offset_bits entry p =
    if is_write access && not p.writable
    then fault vaddr access cpl_user true
    else if cpl_user && not p.user
    then fault vaddr access cpl_user true
    else if is_execute access && not p.executable
    then fault vaddr access cpl_user true
    else ok (
        bit_or (bit_and (bit_and entry addr_mask) (2 ^ 64 - 1 - (2 ^ offset_bits - 1)))
          (bit_and vaddr (2 ^ offset_bits - 1)))

abbrev pub is_large : (level entry : ℕ) → Bool
is_large level entry = has entry pte_ps && ((level == 1) || (level == 2))

abbrev pub offset_bits_of : (level entry : ℕ) → ℕ
offset_bits_of level entry = if is_large level entry then if level == 1 then 30 else 21 else 12

-- The body of the loop at the entry that it read; `next` is the rest of the loop.
unfoldable pub at_entry :
    (nxe : Bool) (vaddr : ℕ)
    → Access
    → (cpl_user : Bool) → (next : (table : ℕ) → Permissions → Option Translation) (level : ℕ)
    → Permissions
    → Option ℕ
    → Option Translation
unfolding finish fault
at_entry nxe vaddr access cpl_user next level p none = some (fault vaddr access cpl_user false)
at_entry nxe vaddr access cpl_user next level p (some entry) =
    if not (has entry pte_p)
    then some (fault vaddr access cpl_user false)
    else if (level == 3) || is_large level entry
    then some (finish vaddr access cpl_user (offset_bits_of level entry) entry (narrow nxe entry p))
    else next (bit_and entry addr_mask) (narrow nxe entry p)

module _ (mem : Memory) (nxe : Bool) (vaddr : ℕ) (access : Access) (cpl_user : Bool) where
  -- The loop over the levels; `none` is the `unreachable!` behind it.
  unfoldable pub walk : (rounds level table : ℕ) → Permissions → Option Translation
  unfolding at_entry
  walk zero level table p = none
  walk (suc rounds) level table p =
      at_entry nxe vaddr access cpl_user (walk rounds (suc level)) level p
        (read_u64 mem (table + bit_and (vaddr / 2 ^ (39 - level * 9)) 0x1ff * 8))

unfoldable pub translate :
    Memory → Paging → (vaddr : ℕ) → Access → (cpl_user : Bool) → Option Translation
translate mem p vaddr access cpl_user =
    if not (long_mode_paging p)
    then some (ok vaddr)
    else if not (is_canonical vaddr)
    then some (fault vaddr access cpl_user false)
    else walk mem (has p.efer efer_nxe) vaddr access cpl_user 4 0 (bit_and p.cr3 addr_mask)
        (record { writable = true; user = true; executable = true })
