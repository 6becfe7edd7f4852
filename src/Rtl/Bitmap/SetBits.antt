-- ===== src/Rtl/Bitmap/SetBits.antt =====
-- `set_bits` and `clear_bits`: which bits they change, and that they stay in the storage.
use nanokrnl.Base.{
  ℕ, zero, suc, ◌+◌, ◌-◌, ◌*◌, ◌/◌, ◌%◌, ◌^◌, ◌≤◌, ◌<◌, ◌≡◌, refl, Bool, not, some, List, ◌&&◌,
  ◌||◌, ◌==◌, arith, length, get_or, set, get_elem?-some, length-set, bit_or, bit_and, Option,
  ◌>>=◌,
}
use nanokrnl.Base.Bits.{
  bit-bit_or, bit-bit_and, bit-pow, bit-ones_but, bit_or-lt, bit_and-lt, pow-lt,
}
use nanokrnl.Rtl.Bitmap.{
  RtlBitmap, all_ones, or_word, and_word, set_loop, clear_loop, set_bits, clear_bits,
}
use nanokrnl.Rtl.Bitmap.View.{
  bit_at, within, AllWords, IsValid, bit_at-set, AllWords-get_or, AllWords-set,
}

-- What a bit becomes when `[start, start + count)` is set or cleared.
abbrev pub marked : ℕ → ℕ → ℕ → Bool → Bool
marked start count j b = within start count j || b

abbrev pub cleared : ℕ → ℕ → ℕ → Bool → Bool
cleared start count j b = not (within start count j) && b

-- What a loop over `words` has done: it returned, the storage kept its shape, and each bit is `f` of its number
-- and its old value.
abbrev pub Updates : List ℕ → (ℕ → Bool → Bool) → Option (List ℕ) → Type 0
Updates words f r =
    (words' : List ℕ) × (r ≡ some words')
    × (length words' ≡ length words)
    × (AllWords words → AllWords words')
    × ((j : ℕ) → bit_at words' j ≡ f j (bit_at words j))

or_word-Updates :
    (words : List ℕ) (i : ℕ)
    → i < length words * 64
    → Updates words (λ j b. (i == j) || b) (or_word words (i / 64) (2 ^ (i % 64)))
unfolding or_word
or_word-Updates words i h = (
  set words (i / 64) (bit_or (get_or words (i / 64) 0) (2 ^ (i % 64))),
  rw (get_elem?-some words (i / 64) 0 (omega arith)),
  length-set words _ _,
  λ a.
      AllWords-set words _ _ a
        (bit_or-lt 64 _ _ (AllWords-get_or words _ a) (pow-lt (i % 64) 64 (omega arith))),
  λ j. rw (bit_at-set words i j _ h, bit-bit_or, bit-pow) (ground arith),
)

and_word-Updates :
    (words : List ℕ) (i : ℕ)
    → i < length words * 64
    → Updates words (λ j b. not (i == j) && b) (and_word words (i / 64) (all_ones - 2 ^ (i % 64)))
unfolding and_word
and_word-Updates words i h = (
  set words (i / 64) (bit_and (get_or words (i / 64) 0) (all_ones - 2 ^ (i % 64))),
  rw (get_elem?-some words (i / 64) 0 (omega arith)),
  length-set words _ _,
  λ a. AllWords-set words _ _ a (bit_and-lt 64 _ _ (AllWords-get_or words _ a)),
  λ j.
      rw
        (
          bit_at-set words i j _ h,
          bit-bit_and,
          bit-ones_but 64 (i % 64) (j % 64) (omega arith) (omega arith),
        )
        (ground arith),
)

pub set_loop-Updates :
    (count i : ℕ) (words : List ℕ)
    → i + count ≤ length words * 64
    → Updates words (marked i count) (set_loop count i words)
unfolding set_loop
set_loop-Updates zero i words h = (words, refl, refl, λ a. a, λ j. ground arith)
set_loop-Updates (suc count) i words h =
    let (ws, e, same, ok, bits) = or_word-Updates words i (omega arith) in
    let (ws', e', same', ok', bits') = set_loop-Updates count (i + 1) ws (omega arith) in
    (ws', rw e e', omega arith, λ a. ok' (ok a), λ j. rw (bits' j, bits j) (ground arith))

pub clear_loop-Updates :
    (count i : ℕ) (words : List ℕ)
    → i + count ≤ length words * 64
    → Updates words (cleared i count) (clear_loop count i words)
unfolding clear_loop
clear_loop-Updates zero i words h = (words, refl, refl, λ a. a, λ j. ground arith)
clear_loop-Updates (suc count) i words h =
    let (ws, e, same, ok, bits) = and_word-Updates words i (omega arith) in
    let (ws', e', same', ok', bits') = clear_loop-Updates count (i + 1) ws (omega arith) in
    (ws', rw e e', omega arith, λ a. ok' (ok a), λ j. rw (bits' j, bits j) (ground arith))

-- What an operation on the bitmap has done: it did not panic, and each bit is `f` of its number
-- and its old value.
abbrev pub Changes : RtlBitmap → (ℕ → Bool → Bool) → Option RtlBitmap → Type 0
Changes bm f r =
    (bm' : RtlBitmap) × (r ≡ some bm')
    × IsValid bm'
    × (bm'.size_in_bits ≡ bm.size_in_bits)
    × (length bm'.words ≡ length bm.words)
    × ((j : ℕ) → bit_at bm'.words j ≡ f j (bit_at bm.words j))

Updates-Changes :
    (bm : RtlBitmap) (f : ℕ → Bool → Bool) (r : Option (List ℕ))
    → IsValid bm
    → Updates bm.words f r
    → Changes bm f (r >>= λ ws. some (record bm { words = ws }))
Updates-Changes bm f r v (ws, e, same, ok, bits) = (
  record bm { words = ws },
  rw e,
  record { fits = omega (arith, v.fits); in_range = ok v.in_range },
  refl,
  same,
  bits,
)

-- `set_bits` on a range of the map does not panic, sets the bits of the range and leaves every
-- other bit as it was.
pub set_bits-Changes :
    (bm : RtlBitmap) (start count : ℕ)
    → IsValid bm
    → start + count ≤ bm.size_in_bits
    → Changes bm (marked start count) (set_bits bm start count)
unfolding set_bits
set_bits-Changes bm start count v h =
    Updates-Changes bm (marked start count) _ v
      (set_loop-Updates count start bm.words (omega (arith, v.fits)))

-- `clear_bits` on a range of the map does not panic, clears the bits of the range and leaves every
-- other bit as it was.
pub clear_bits-Changes :
    (bm : RtlBitmap) (start count : ℕ)
    → IsValid bm
    → start + count ≤ bm.size_in_bits
    → Changes bm (cleared start count) (clear_bits bm start count)
unfolding clear_bits
clear_bits-Changes bm start count v h =
    Updates-Changes bm (cleared start count) _ v
      (clear_loop-Updates count start bm.words (omega (arith, v.fits)))
