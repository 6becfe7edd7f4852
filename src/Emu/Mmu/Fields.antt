-- ===== src/Emu/Mmu/Fields.antt =====
-- emu/src/mmu.rs: the fields of addresses and page table entries.
use nanokrnl.Base.{
  ℕ, ◌+◌, ◌-◌, ◌*◌, ◌/◌, ◌%◌, ◌^◌, ◌<◌, ◌≡◌, refl, ap, ◌∙◌, bit_and, bit_or, Bool, true, false,
  if◌then◌else◌, arith,
}
use nanokrnl.Base.Bits.{bit, bit_and-pow}
use nanokrnl.Base.Bits.Words.{bit_and-ones, bit_and-shl, bit_or-add}
use nanokrnl.Emu.Mmu.{
  addr_mask, has, Access, read, write, execute, fault, page_fault, is_write, is_execute,
}

pub has-bit : (x k : ℕ) → has x (2 ^ k) ≡ bit x k
has-bit x k = rw (bit_and-pow k x) (ground arith)

-- The digit 12 to 51 of an entry, as an address.
abbrev pub frame_of : ℕ → ℕ
frame_of e = e / 2 ^ 12 % 2 ^ 40 * 2 ^ 12

pub frame_of_lem : (e : ℕ) → e < 2 ^ 64 → bit_and e addr_mask ≡ frame_of e
frame_of_lem e lt =
    bit_and-shl 12 e (2 ^ 40 - 1)
    ∙ ap (λ (x : ℕ). x * 2 ^ 12) (bit_and-ones 64 40 (e / 2 ^ 12) (omega (arith, lt)) (omega arith))

pub index_lem :
    (v shift : ℕ) → v / 2 ^ shift < 2 ^ 64 → bit_and (v / 2 ^ shift) 0x1ff ≡ v / 2 ^ shift % 512
index_lem v shift lt = bit_and-ones 64 9 (v / 2 ^ shift) lt (omega arith)

-- The sizes of a page: 4 KiB, 2 MiB and 1 GiB.
pub data PageBits : ℕ → Type 0 where
  small : PageBits 12
  large : PageBits 21
  huge : PageBits 30

-- The page that an entry gives, and the place in it.
pub address_lem :
    {o : ℕ} (e v : ℕ)
    → PageBits o
    → e < 2 ^ 64
    → v < 2 ^ 64
    → bit_or (bit_and (bit_and e addr_mask) (2 ^ 64 - 1 - (2 ^ o - 1))) (bit_and v (2 ^ o - 1))
      ≡ frame_of e / 2 ^ o * 2 ^ o + v % 2 ^ o
address_lem e v small he hv =
    rw
      (
        frame_of_lem e he,
        bit_and-shl 12 (frame_of e) (2 ^ 52 - 1),
        bit_and-ones 64 52 (frame_of e / 2 ^ 12) (omega arith) (omega arith),
        bit_and-ones 64 12 v hv (omega arith),
        bit_or-add 12 (frame_of e / 2 ^ 12 % 2 ^ 52) (v % 2 ^ 12) (omega arith),
      )
      (omega arith)
address_lem e v large he hv =
    rw
      (
        frame_of_lem e he,
        bit_and-shl 21 (frame_of e) (2 ^ 43 - 1),
        bit_and-ones 64 43 (frame_of e / 2 ^ 21) (omega arith) (omega arith),
        bit_and-ones 64 21 v hv (omega arith),
        bit_or-add 21 (frame_of e / 2 ^ 21 % 2 ^ 43) (v % 2 ^ 21) (omega arith),
      )
      (omega arith)
address_lem e v huge he hv =
    rw
      (
        frame_of_lem e he,
        bit_and-shl 30 (frame_of e) (2 ^ 34 - 1),
        bit_and-ones 64 34 (frame_of e / 2 ^ 30) (omega arith) (omega arith),
        bit_and-ones 64 30 v hv (omega arith),
        bit_or-add 30 (frame_of e / 2 ^ 30 % 2 ^ 34) (v % 2 ^ 30) (omega arith),
      )
      (omega arith)

-- The error code of the processor: present, write, user and instruction fetch.
abbrev pub code_of : (present stores user fetch : Bool) → ℕ
code_of present stores user fetch =
    (if present then 1 else 0)
    + (if stores then 2 else 0)
    + (if user then 4 else 0)
    + (if fetch then 16 else 0)

pub fault_lem :
    (v : ℕ) (access : Access) (user present : Bool)
    → fault v access user present
      ≡ page_fault v (code_of present (is_write access) user (is_execute access))
unfolding fault
fault_lem v read true true = refl
fault_lem v read true false = refl
fault_lem v read false true = refl
fault_lem v read false false = refl
fault_lem v write true true = refl
fault_lem v write true false = refl
fault_lem v write false true = refl
fault_lem v write false false = refl
fault_lem v execute true true = refl
fault_lem v execute true false = refl
fault_lem v execute false true = refl
fault_lem v execute false false = refl
