-- ===== src/Emu/Cpu/Bytes.antt =====
-- emu/src/lib.rs: the loops of `load` and `store` as little-endian numbers.
use native.Mathlib.Nat.{
  pow-suc, one-le-pow, mod-lt, div-add-mod, div-div-eq-div-mul, mul-add-mod_self_right,
  mod-eq_of_lt, mul-le-mul_right,
}
use nanokrnl.Base.{
  ℕ, zero, suc, ◌+◌, ◌-◌, ◌*◌, ◌/◌, ◌%◌, ◌^◌, ◌<◌, ◌≡◌, refl, sym, ap, ◌∙◌, bit_or, ◌&&◌, inl, inr,
  ◌==◌, ltb, leb, if◌then◌else◌, arith, Bool-cases,
}
use nanokrnl.Base.Bits.{bit-bit_or, bit_or-lt, eq_of_bits}
use nanokrnl.Base.Bits.Words.{bit_or-add}
use nanokrnl.Emu.Mmu.{Memory, le_bytes}
use nanokrnl.Emu.Mmu.Walk.{AreBytes}
use nanokrnl.Emu.Cpu.{or_bytes, put_bytes}

pow8 : (i : ℕ) → 2 ^ ((i + 1) * 8) ≡ 256 * 2 ^ (i * 8)
pow8 i =
    let e : (i + 1) * 8 ≡ suc (suc (suc (suc (suc (suc (suc (suc (i * 8)))))))) = omega arith in
    rw e (
      omega (
        arith,
        pow-suc 2 (i * 8),
        pow-suc 2 (suc (i * 8)),
        pow-suc 2 (suc (suc (i * 8))),
        pow-suc 2 (suc (suc (suc (i * 8)))),
        pow-suc 2 (suc (suc (suc (suc (i * 8))))),
        pow-suc 2 (suc (suc (suc (suc (suc (i * 8)))))),
        pow-suc 2 (suc (suc (suc (suc (suc (suc (i * 8))))))),
        pow-suc 2 (suc (suc (suc (suc (suc (suc (suc (i * 8)))))))),
      ))

pub bit_or_comm : (n a b : ℕ) → a < 2 ^ n → b < 2 ^ n → bit_or a b ≡ bit_or b a
bit_or_comm n a b ha hb =
    eq_of_bits n (bit_or a b) (bit_or b a) (bit_or-lt n a b ha hb) (bit_or-lt n b a hb ha)
      (λ k hk. rw (bit-bit_or a b k, bit-bit_or b a k) (ground arith))

-- A byte above the bytes so far.
or_byte : (i v b : ℕ) → v < 2 ^ (i * 8) → b < 256 → bit_or v (b * 2 ^ (i * 8)) ≡ v + b * 2 ^ (i * 8)
or_byte i v b hv hb =
    let scaled : b * 2 ^ (i * 8) < 2 ^ ((i + 1) * 8) =
      omega (arith, pow8 i, mul-le-mul_right (2 ^ (i * 8)) hb, one-le-pow (i * 8) 2) in
    bit_or_comm ((i + 1) * 8) v (b * 2 ^ (i * 8)) (omega (arith, pow8 i, hv)) scaled
    ∙ bit_or-add (i * 8) b v hv
    ∙ omega arith

pub or_bytes_lem :
    (mem : Memory) (a i n v : ℕ)
    → AreBytes mem
    → v < 2 ^ (i * 8)
    → or_bytes mem a i n v ≡ v + 2 ^ (i * 8) * le_bytes mem (a + i) n
unfolding or_bytes le_bytes
or_bytes_lem mem a i zero v bytes lt = omega arith
or_bytes_lem mem a i (suc n) v bytes lt =
    let b = mem.byte_at (a + i) in
    let joined = or_byte i v b lt (bytes (a + i)) in
    let below : bit_or v (b * 2 ^ (i * 8)) < 2 ^ ((i + 1) * 8) =
      omega (arith, joined, pow8 i, mul-le-mul_right (2 ^ (i * 8)) (bytes (a + i)), lt) in
    let place : a + (i + 1) ≡ a + i + 1 = omega arith in
    or_bytes_lem mem a (i + 1) n (bit_or v (b * 2 ^ (i * 8))) bytes below
    ∙ rw (joined, pow8 i, place) (omega arith)

mod_split : (w p : ℕ) → 0 < p → w % 256 + 256 * (w / 256 % p) ≡ w % (256 * p)
mod_split w p pos =
    let q = w / 256 / p in
    let r = 256 * (w / 256 % p) + w % 256 in
    let whole : w ≡ q * (256 * p) + r =
      omega (arith, div-add-mod w 256, div-add-mod (w / 256) p, mod-lt (w / 256) pos) in
    let small : r < 256 * p =
      omega (arith, mod-lt (w / 256) pos, mod-lt w {m = 256} (omega arith)) in
    omega (
      arith,
      ap (λ x. x % (256 * p)) whole,
      mul-add-mod_self_right q (256 * p) r,
      mod-eq_of_lt small,
    )

shifted : (w k : ℕ) → w / 256 / 2 ^ (k * 8) ≡ w / 2 ^ (suc k * 8)
shifted w k =
    let same : suc k * 8 ≡ (k + 1) * 8 = omega arith in
    div-div-eq-div-mul w 256 (2 ^ (k * 8)) ∙ ap (λ d. w / d) (rw same (sym (pow8 k)))

-- Bytes that are the digits of a number.
pub le_bytes-digits :
    (mem : Memory) (a n w : ℕ)
    → ((k : ℕ) → k < n → mem.byte_at (a + k) ≡ w / 2 ^ (k * 8) % 2 ^ 8)
    → le_bytes mem a n ≡ w % 256 ^ n
unfolding le_bytes
le_bytes-digits mem a zero w digits = omega arith
le_bytes-digits mem a (suc n) w digits =
    let first : mem.byte_at a ≡ w % 256 =
      ap mem.byte_at (omega arith) ∙ digits 0 (omega arith) ∙ omega arith in
    let next : le_bytes mem (a + 1) n ≡ w / 256 % 256 ^ n =
      le_bytes-digits mem (a + 1) n (w / 256) (λ k hk.
        ap mem.byte_at (omega arith)
        ∙ digits (suc k) (omega (arith, hk))
        ∙ ap (λ d. d % 2 ^ 8) (sym (shifted w k))) in
    rw (first, next, pow-suc 256 n)
      (mod_split w (256 ^ n) (one-le-pow n 256 (omega arith)) ∙ ap (λ m. w % m) (omega arith))

pub le_bytes-same :
    (m1 m2 : Memory) (a n : ℕ)
    → ((k : ℕ) → k < n → m1.byte_at (a + k) ≡ m2.byte_at (a + k))
    → le_bytes m1 a n ≡ le_bytes m2 a n
unfolding le_bytes
le_bytes-same m1 m2 a zero same = refl
le_bytes-same m1 m2 a (suc n) same =
    let first : m1.byte_at a ≡ m2.byte_at a =
      ap m1.byte_at (omega arith) ∙ same 0 (omega arith) ∙ ap m2.byte_at (omega arith) in
    rw
      (
        first,
        le_bytes-same m1 m2 (a + 1) n (λ k hk.
            ap m1.byte_at (omega arith) ∙ same (suc k) (omega arith) ∙ ap m2.byte_at (omega arith)),
      )
      refl

pub put_bytes-byte :
    (a i n val x : ℕ) (mem : Memory)
    → (put_bytes a i n val mem).byte_at x ≡ (
        if leb (a + i) x && ltb x (a + i + n)
        then val / 2 ^ ((x - a) * 8) % 2 ^ 8
        else mem.byte_at x)
unfolding put_bytes
put_bytes-byte a i zero val x mem = ground arith
put_bytes-byte a i (suc n) val x mem =
    rw
      (put_bytes-byte a (i + 1) n val x (record mem {
        byte_at = λ y. if y == a + i then val / 2 ^ (i * 8) % 2 ^ 8 else mem.byte_at y;
      }))
      (elim (Bool-cases (x == a + i)) [
        | inl here ↦ let at : x - a ≡ i = ground (arith, here) in rw at (ground (arith, here))
        | inr other ↦ ground (arith, other)
      ])

pub put_bytes-len : (a i n val : ℕ) (mem : Memory) → (put_bytes a i n val mem).len ≡ mem.len
unfolding put_bytes
put_bytes-len a i zero val mem = refl
put_bytes-len a i (suc n) val mem = put_bytes-len a (i + 1) n val _
