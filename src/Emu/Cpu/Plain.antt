-- ===== src/Emu/Cpu/Plain.antt =====
-- emu/src/lib.rs: memory and the stack while paging is off.
use nanokrnl.Base.{
  ℕ, ◌+◌, ◌-◌, ◌%◌, ◌^◌, ◌<◌, ◌≤◌, ◌≡◌, refl, ◌∙◌, true, false, ◌&&◌, ◌⊎◌, some, ltb, leb, arith,
}
use nanokrnl.Emu.Mmu.{Memory, Access, read, write, le_bytes, translate, long_mode_paging}
use nanokrnl.Emu.Mmu.Walk.{AreBytes}
use nanokrnl.Emu.Devices.Dispatch.{is_apic_mmio, is_p9_mmio, p9_base}
use nanokrnl.Emu.Cpu.{State, xlate, load, store, or_bytes, put_bytes}
use nanokrnl.Emu.Cpu.Bytes.{
  or_bytes_lem, le_bytes-digits, le_bytes-same, put_bytes-byte, put_bytes-len,
}

-- Paging is off, memory holds bytes and ends below the windows of the devices.
pub record IsPlain (s : State) : Type 0 where
  pub flat : long_mode_paging s.cpu.paging ≡ false
  pub bytes : AreBytes s.mem
  pub low : s.mem.len ≤ p9_base

xlate-flat :
    (s : State) (v : ℕ) (access : Access)
    → long_mode_paging s.cpu.paging ≡ false
    → xlate v access s ≡ some (s, some v)
unfolding xlate translate
xlate-flat s v access flat = rw flat refl

no_device : (a : ℕ) → a < p9_base → (is_apic_mmio a ≡ false) × (is_p9_mmio a ≡ false)
unfolding is_apic_mmio is_p9_mmio
no_device a lt = (ground arith, ground arith)

-- A load inside memory reads the bytes there, the lowest first.
pub load-inside :
    (s : State) (a size : ℕ)
    → IsPlain s
    → 0 < size
    → a + size ≤ s.mem.len
    → load a size s ≡ some (s, some (le_bytes s.mem a size))
unfolding load
load-inside s a size plain pos le =
    let quiet = no_device a (omega (arith, plain.low)) in
    let never : (s.cpu.machine_mode && false) ≡ false = ground arith in
    let fits : leb (2 ^ 64) (a + size) ≡ false = ground (arith, plain.low, le) in
    let inside : ltb s.mem.len (a + size) ≡ false = ground (arith, le) in
    let at : a + 0 ≡ a = omega arith in
    let whole : or_bytes s.mem a 0 size 0 ≡ le_bytes s.mem a size =
      or_bytes_lem s.mem a 0 size 0 plain.bytes (omega arith) ∙ rw (at) (omega arith) in
    rw (xlate-flat s a read plain.flat, quiet.0, quiet.1, never, fits, inside, whole) refl

-- The state after a store.
abbrev pub stored : (a val size : ℕ) → State → State
stored a val size s = record s { mem = put_bytes a 0 size val s.mem }

pub store-inside :
    (s : State) (a val size : ℕ)
    → IsPlain s
    → 0 < size
    → a + size ≤ s.mem.len
    → store a val size s ≡ some (stored a val size s, true)
unfolding store
store-inside s a val size plain pos le =
    let quiet = no_device a (omega (arith, plain.low)) in
    let never : (s.cpu.machine_mode && false) ≡ false = ground arith in
    let fits : leb (2 ^ 64) (a + size) ≡ false = ground (arith, plain.low, le) in
    let inside : ltb s.mem.len (a + size) ≡ false = ground (arith, le) in
    rw (xlate-flat s a write plain.flat, quiet.0, quiet.1, never, fits, inside) refl

pub stored-IsPlain : (s : State) (a val size : ℕ) → IsPlain s → IsPlain (stored a val size s)
stored-IsPlain s a val size plain = record {
  flat = plain.flat;
  bytes = λ x. rw (put_bytes-byte a 0 size val x s.mem) (ground (arith, plain.bytes x));
  low = rw (put_bytes-len a 0 size val s.mem) plain.low;
}

pub stored_self : (m : Memory) (a val n : ℕ) → le_bytes (put_bytes a 0 n val m) a n ≡ val % 256 ^ n
stored_self m a val n = le_bytes-digits (put_bytes a 0 n val m) a n val (λ k hk.
    rw (put_bytes-byte a 0 n val (a + k) m)
      let at : a + k - a ≡ k = omega arith in rw at (ground (arith, hk)))

pub stored_other :
    (m : Memory) (a val n b k : ℕ)
    → (b + k ≤ a) ⊎ (a + n ≤ b)
    → le_bytes (put_bytes a 0 n val m) b k ≡ le_bytes m b k
stored_other m a val n b k apart =
    le_bytes-same (put_bytes a 0 n val m) m b k
      (λ j hj. rw (put_bytes-byte a 0 n val (b + j) m) (ground (arith, apart, hj)))
