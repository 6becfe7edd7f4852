-- ===== src/Emu/Alu/Flags.antt =====
-- emu/src/lib.rs: one flag at a time.
use nanokrnl.Base.{
  ℕ, ◌-◌, ◌*◌, ◌/◌, ◌^◌, ◌<◌, ◌≡◌, refl, bit_and, bit_or, Bool, true, false, ◌==◌, if◌then◌else◌,
  arith,
}
use nanokrnl.Base.Bits.{bit, bit-bit_or, bit-bit_and, bit-pow, bit-ones_but, bit_and-pow}
use nanokrnl.Emu.Alu.{flag, set_flag, not64, masked, set_zsp, cf, zf, sf, of}

pub flag-bit : (k rflags : ℕ) → flag rflags (2 ^ k) ≡ bit rflags k
unfolding flag
flag-bit k rflags = rw (bit_and-pow k rflags) (ground arith)

-- A write of one flag changes no other.
pub flag-set_flag :
    (j k : ℕ) (on : Bool) (rflags : ℕ)
    → j < 64
    → k < 64
    → flag (set_flag (2 ^ j) on rflags) (2 ^ k) ≡ (if j == k then on else flag rflags (2 ^ k))
unfolding set_flag
flag-set_flag j k true rflags hj hk =
    rw
      (
        flag-bit k (bit_or rflags (2 ^ j)),
        flag-bit k rflags,
        bit-bit_or rflags (2 ^ j) k,
        bit-pow j k,
      )
      (ground arith)
flag-set_flag j k false rflags hj hk =
    rw
      (
        flag-bit k (bit_and rflags (not64 (2 ^ j))),
        flag-bit k rflags,
        bit-bit_and rflags (not64 (2 ^ j)) k,
        bit-ones_but 64 j k hj hk,
      )
      (ground arith)

-- What `set_zsp` leaves in the flags.
pub zsp_cf : (val size rflags : ℕ) → flag (set_zsp val size rflags) cf ≡ flag rflags cf
unfolding set_zsp
zsp_cf val size rflags =
    rw
      (
        flag-set_flag 2 0 _ _ (omega arith) (omega arith),
        flag-set_flag 7 0 _ _ (omega arith) (omega arith),
        flag-set_flag 6 0 _ _ (omega arith) (omega arith),
      )
      refl

pub zsp_of : (val size rflags : ℕ) → flag (set_zsp val size rflags) of ≡ flag rflags of
unfolding set_zsp
zsp_of val size rflags =
    rw
      (
        flag-set_flag 2 11 _ _ (omega arith) (omega arith),
        flag-set_flag 7 11 _ _ (omega arith) (omega arith),
        flag-set_flag 6 11 _ _ (omega arith) (omega arith),
      )
      refl

pub zsp_zf : (val size rflags : ℕ) → flag (set_zsp val size rflags) zf ≡ (masked val size == 0)
unfolding set_zsp
zsp_zf val size rflags =
    rw
      (
        flag-set_flag 2 6 _ _ (omega arith) (omega arith),
        flag-set_flag 7 6 _ _ (omega arith) (omega arith),
        flag-set_flag 6 6 _ _ (omega arith) (omega arith),
      )
      refl

pub zsp_sf :
    (val size rflags : ℕ)
    → flag (set_zsp val size rflags) sf ≡ (bit_and (masked val size / 2 ^ (size * 8 - 1)) 1 == 1)
unfolding set_zsp
zsp_sf val size rflags =
    rw
      (
        flag-set_flag 2 7 _ _ (omega arith) (omega arith),
        flag-set_flag 7 7 _ _ (omega arith) (omega arith),
      )
      refl

-- The carry and the overflow flag of an arm.
pub arm_cf : (o c : Bool) (rflags : ℕ) → flag (set_flag of o (set_flag cf c rflags)) cf ≡ c
arm_cf o c rflags =
    rw
      (
        flag-set_flag 11 0 _ _ (omega arith) (omega arith),
        flag-set_flag 0 0 _ _ (omega arith) (omega arith),
      )
      refl

pub arm_of : (o : Bool) (rflags : ℕ) → flag (set_flag of o rflags) of ≡ o
arm_of o rflags = rw (flag-set_flag 11 11 _ _ (omega arith) (omega arith)) refl
