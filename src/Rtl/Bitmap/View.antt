-- ===== src/Rtl/Bitmap/View.antt =====
-- The bitmap as a set of bit numbers: what a test reads, and what a change of one word does.
use nanokrnl.Base.{
  ℕ, ◌+◌, ◌*◌, ◌/◌, ◌%◌, ◌^◌, ◌≤◌, ◌<◌, zero, suc, ◌≡◌, refl, inl, inr, Bool, true, false, not,
  some, List, [], ◌∷◌, ◌&&◌, ◌==◌, leb, ltb, if◌then◌else◌, arith, length, get_or, set,
  get_elem?-some, get_or-set_self, get_or-set_ne, Bool-cases, ==_iff,
}
use nanokrnl.Base.Bits.{bit, bit_and-pow}
use nanokrnl.Rtl.Bitmap.{RtlBitmap, test_bit}

-- Bit `i` of the storage.
abbrev pub bit_at : List ℕ → ℕ → Bool
bit_at words i = bit (get_or words (i / 64) 0) (i % 64)

-- Does `j` lie in `[start, start + count)`?
abbrev pub within : ℕ → ℕ → ℕ → Bool
within start count j = leb start j && ltb j (start + count)

abbrev pub Clear : List ℕ → ℕ → ℕ → Type 0
Clear words start count = (j : ℕ) → start ≤ j → j < start + count → bit_at words j ≡ false

-- Some bit of `[start, start + count)` is set.
abbrev pub Blocked : List ℕ → ℕ → ℕ → Type 0
Blocked words start count = (j : ℕ) × (start ≤ j) × (j < start + count) × (bit_at words j ≡ true)

abbrev pub AllWords : List ℕ → Type 0
AllWords [] = Unit {0}
AllWords (w ∷ ws) = (w < 2 ^ 64) × AllWords ws

pub record IsValid (bm : RtlBitmap) : Type 0 where
  pub fits : bm.size_in_bits ≤ length bm.words * 64
  pub in_range : AllWords bm.words

pub not-not : (b : Bool) → not (not b) ≡ b
not-not true = refl
not-not false = refl

pub test_bit-some :
    (bm : RtlBitmap) (i : ℕ) → i < length bm.words * 64 → test_bit bm i ≡ some (bit_at bm.words i)
unfolding test_bit
test_bit-some bm i h = rw (get_elem?-some bm.words (i / 64) 0 (omega arith), bit_and-pow, not-not)

-- A write to the word of bit `i` is seen by the bits of that word only.
pub bit_at-set :
    (words : List ℕ) (i j v : ℕ)
    → i < length words * 64
    → bit_at (set words (i / 64) v) j
      ≡ (if i / 64 == j / 64 then bit v (j % 64) else bit_at words j)
bit_at-set words i j v h = elim (Bool-cases (i / 64 == j / 64)) [
  | inl same ↦
      let e : i / 64 ≡ j / 64 = (==_iff _ _).0 same in
      rw (same, e, get_or-set_self words (j / 64) v 0 (omega arith))
  | inr other ↦ rw (other, get_or-set_ne words (i / 64) (j / 64) v 0 (ground arith))
]

pub AllWords-get_or : (words : List ℕ) (i : ℕ) → AllWords words → get_or words i 0 < 2 ^ 64
AllWords-get_or [] i h = omega arith
AllWords-get_or (w ∷ ws) zero h = h.0
AllWords-get_or (w ∷ ws) (suc i) h = AllWords-get_or ws i h.1

pub AllWords-set :
    (words : List ℕ) (i v : ℕ) → AllWords words → v < 2 ^ 64 → AllWords (set words i v)
AllWords-set [] i v h hv = tt
AllWords-set (w ∷ ws) zero v h hv = (hv, h.1)
AllWords-set (w ∷ ws) (suc i) v h hv = (h.0, AllWords-set ws i v h.1 hv)
