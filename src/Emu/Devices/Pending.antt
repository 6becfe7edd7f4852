-- ===== src/Emu/Devices/Pending.antt =====
-- emu/src/devices.rs: the interrupt request register as a set of vectors.
use nanokrnl.Base.{
  ℕ, zero, suc, ◌+◌, ◌-◌, ◌*◌, ◌/◌, ◌%◌, ◌^◌, ◌<◌, ◌≤◌, ◌≡◌, refl, sym, ap, ◌∙◌, inl, inr, bit_and,
  bit_or, Bool, true, false, not, ◌&&◌, ◌||◌, Option, none, some, List, ◌==◌, ltb, if◌then◌else◌,
  get_or, set, length, length-set, get_or-set_self, get_or-set_ne, Bool-cases, ==_iff, arith,
}
use nanokrnl.Base.Bits.{
  bit, bit-bit_or, bit-bit_and, bit-zero, bit-pow, bit-ones_but, bit_or-lt, bit_and-lt, pow-lt,
  eq_of_bits,
}
use nanokrnl.Base.Bits.Zeros.{zeros_from, zeros_from-top}
use nanokrnl.Emu.Devices.{Apic, request, ack, highest_below, highest_pending}

abbrev pub word : ℕ → List ℕ → ℕ
word i irr = get_or irr i 0

-- A vector is requested.
abbrev pub pending : List ℕ → (vector : ℕ) → Bool
pending irr v = bit (word (v / 64) irr) (v % 64)

-- Four words of 64 bits.
pub record IsValid (irr : List ℕ) : Type 0 where
  pub four : length irr ≡ 4
  pub wide : (i : ℕ) → word i irr < 2 ^ 64

word-set :
    (irr : List ℕ) (i j w : ℕ)
    → i < length irr
    → word j (set irr i w) ≡ (if j == i then w else word j irr)
word-set irr i j w lt = elim (Bool-cases (j == i)) [
  | inl same ↦ rw (same, (==_iff j i).0 same, get_or-set_self irr i w 0 lt) refl
  | inr ne ↦ rw (ne, get_or-set_ne irr i j w 0 (λ e. ground (arith, e))) refl
]

set-IsValid : (irr : List ℕ) (i w : ℕ) → IsValid irr → i < 4 → w < 2 ^ 64 → IsValid (set irr i w)
set-IsValid irr i w valid lt wide = record {
  four = length-set irr i w ∙ valid.four;
  wide = λ j. rw (word-set irr i j w (rw valid.four lt)) (ground (arith, wide, valid.wide j));
}

-- A request adds one vector to the set.
pub request-pending :
    (a : Apic) (v u : ℕ)
    → IsValid a.irr
    → v < 256
    → u < 256
    → pending (request v a).irr u ≡ ((u == v) || pending a.irr u)
unfolding request
request-pending a v u valid hv hu =
    rw
      (word-set a.irr (v / 64) (u / 64) (bit_or (word (v / 64) a.irr) (2 ^ (v % 64)))
        (rw valid.four (omega (arith, hv))))
      (elim (Bool-cases (u / 64 == v / 64)) [
        | inl same ↦
            rw
              (
                same,
                bit-bit_or (word (v / 64) a.irr) (2 ^ (v % 64)) (u % 64),
                bit-pow (v % 64) (u % 64),
                (==_iff (u / 64) (v / 64)).0 same,
              )
              (ground (arith, same))
        | inr ne ↦ rw ne (ground (arith, ne))
      ])

pub request-IsValid : (a : Apic) (v : ℕ) → IsValid a.irr → v < 256 → IsValid (request v a).irr
unfolding request
request-IsValid a v valid hv =
    set-IsValid a.irr (v / 64) (bit_or (word (v / 64) a.irr) (2 ^ (v % 64))) valid
      (omega (arith, hv))
      (bit_or-lt 64 (word (v / 64) a.irr) (2 ^ (v % 64)) (valid.wide (v / 64))
        (pow-lt (v % 64) 64 (omega arith)))

-- An acknowledgement takes one vector from the set.
pub ack-pending :
    (a : Apic) (v u : ℕ)
    → IsValid a.irr
    → v < 256
    → u < 256
    → pending (ack v a).irr u ≡ (not (u == v) && pending a.irr u)
unfolding ack
ack-pending a v u valid hv hu =
    rw
      (word-set a.irr (v / 64) (u / 64) (bit_and (word (v / 64) a.irr) (2 ^ 64 - 1 - 2 ^ (v % 64)))
        (rw valid.four (omega (arith, hv))))
      (elim (Bool-cases (u / 64 == v / 64)) [
        | inl same ↦
            rw
              (
                same,
                bit-bit_and (word (v / 64) a.irr) (2 ^ 64 - 1 - 2 ^ (v % 64)) (u % 64),
                bit-ones_but 64 (v % 64) (u % 64) (omega arith) (omega arith),
                (==_iff (u / 64) (v / 64)).0 same,
              )
              (ground (arith, same))
        | inr ne ↦ rw ne (ground (arith, ne))
      ])

pub ack-IsValid : (a : Apic) (v : ℕ) → IsValid a.irr → v < 256 → IsValid (ack v a).irr
unfolding ack
ack-IsValid a v valid hv =
    set-IsValid a.irr (v / 64) (bit_and (word (v / 64) a.irr) (2 ^ 64 - 1 - 2 ^ (v % 64))) valid
      (omega (arith, hv))
      (bit_and-lt 64 (word (v / 64) a.irr) (2 ^ 64 - 1 - 2 ^ (v % 64)) (valid.wide (v / 64)))

-- `r` is the highest vector of the set below `n`, and none if there is no vector.
abbrev pub Highest : (n : ℕ) → List ℕ → Option ℕ → Type 0
Highest n irr none = (u : ℕ) → u < n → pending irr u ≡ false
Highest n irr (some v) =
    (v < n) × (pending irr v ≡ true) × ((u : ℕ) → v < u → u < n → pending irr u ≡ false)

-- The vectors of one word.
pending_in :
    (n : ℕ) (irr : List ℕ) (u k : ℕ) → u ≡ n * 64 + k → k < 64 → pending irr u ≡ bit (word n irr) k
pending_in n irr u k e lt =
    let high : u / 64 ≡ n = omega (arith, e, lt) in
    let low : u % 64 ≡ k = omega (arith, e, lt) in rw (high, low) refl

Highest-suc :
    (n : ℕ) (irr : List ℕ) (r : Option ℕ)
    → word n irr ≡ 0
    → Highest (n * 64) irr r
    → Highest (suc n * 64) irr r
Highest-suc n irr none empty top = λ u lt. elim (Bool-cases (ltb u (n * 64))) [
  | inl before ↦ top u (ground (arith, before))
  | inr here ↦
      pending_in n irr u (u - n * 64) (ground (arith, here)) (ground (arith, here, lt))
      ∙ ap (λ w. bit w (u - n * 64)) empty
      ∙ bit-zero (u - n * 64)
]
Highest-suc n irr (some v) empty (lt, on, top) = (
  omega (arith, lt),
  on,
  λ u hi u_lt. elim (Bool-cases (ltb u (n * 64))) [
    | inl before ↦ top u hi (ground (arith, before))
    | inr here ↦
        pending_in n irr u (u - n * 64) (ground (arith, here)) (ground (arith, here, u_lt))
        ∙ ap (λ w. bit w (u - n * 64)) empty
        ∙ bit-zero (u - n * 64)
  ],
)

Highest-word :
    (n : ℕ) (irr : List ℕ) (p : ℕ)
    → p < 64
    → bit (word n irr) p ≡ true
    → ((k : ℕ) → p < k → k < 64 → bit (word n irr) k ≡ false)
    → Highest (suc n * 64) irr (some (n * 64 + p))
Highest-word n irr p lt on above = (
  omega (arith, lt),
  pending_in n irr (n * 64 + p) p refl lt ∙ on,
  λ u hi u_lt.
      pending_in n irr u (u - n * 64) (omega (arith, hi)) (omega (arith, u_lt))
      ∙ above (u - n * 64) (omega (arith, hi)) (omega (arith, u_lt)),
)

highest_below-Highest :
    (n : ℕ) (irr : List ℕ) → IsValid irr → n ≤ 4 → Highest (n * 64) irr (highest_below n irr)
unfolding highest_below
highest_below-Highest zero irr valid le = λ u lt. absurd (omega arith)
highest_below-Highest (suc n) irr valid le = elim (Bool-cases (word n irr == 0)) [
  | inl empty ↦ rw empty (
      Highest-suc n irr (highest_below n irr) ((==_iff (word n irr) 0).0 empty)
        (highest_below-Highest n irr valid (omega (arith, le))))
  | inr busy ↦ elim (zeros_from-top 64 (word n irr)) [
    | inl all ↦
        let clear : word n irr ≡ 0 =
          eq_of_bits 64 (word n irr) 0 (valid.wide n) (omega arith)
            (λ k lt. all k lt ∙ sym (bit-zero k)) in
        absurd (ground (arith, busy, clear))
    | inr (p, eq, on, above) ↦
        let is : (n * 64 + (63 - zeros_from 64 (word n irr))) % 2 ^ 8 ≡ n * 64 + p =
          omega (arith, eq, le) in
        rw (busy, is) (Highest-word n irr p (omega (arith, eq)) on above)
  ]
]

-- On a register of four 64-bit words `highest_pending` returns the highest requested vector, and
-- none exactly when no vector is requested. `request` adds its vector to the set and `ack` takes it out.
pub highest_pending-Highest :
    (a : Apic) (v u : ℕ)
    → IsValid a.irr
    → v < 256
    → u < 256
    → Highest 256 a.irr (highest_pending a)
      × IsValid (request v a).irr
      × (pending (request v a).irr u ≡ ((u == v) || pending a.irr u))
      × IsValid (ack v a).irr
      × (pending (ack v a).irr u ≡ (not (u == v) && pending a.irr u))
unfolding highest_pending
highest_pending-Highest a v u valid hv hu = (
  highest_below-Highest 4 a.irr valid (omega arith),
  request-IsValid a v valid hv,
  request-pending a v u valid hv hu,
  ack-IsValid a v valid hv,
  ack-pending a v u valid hv hu,
)
