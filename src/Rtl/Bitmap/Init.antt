-- ===== src/Rtl/Bitmap/Init.antt =====
-- `new`: the bits behind the end of the map are set once and for all.
use native.Mathlib.Decide.{dec_lt}
use nanokrnl.Base.{
  ap, ◌⊎◌, ℕ, zero, suc, ◌+◌, ◌-◌, ◌*◌, ◌/◌, ◌%◌, ◌^◌, ◌≤◌, ◌<◌, ◌≡◌, refl, inl, inr, true, false,
  bit_or, Option, none, some, List, [], ◌∷◌, ◌||◌, ◌==◌, leb, arith, length, get_or, set,
  Bool-cases, if◌then◌else◌, ◌>>=◌, get_elem?-some, length-set, le→leb,
}
use nanokrnl.Base.Bits.{bit, bit-bit_or, bit-ones, bit-mod, bit-shl, bit_or-lt}
use nanokrnl.Rtl.Bitmap.{RtlBitmap, all_ones, shl64, fill_from, or_word, new}
use nanokrnl.Rtl.Bitmap.View.{bit_at, AllWords, IsValid, bit_at-set, AllWords-get_or, AllWords-set}

-- `!0 << t` has the digits from `t` on.
bit-high_mask : (t k : ℕ) → k < 64 → bit (shl64 all_ones t) k ≡ leb t k
bit-high_mask t k h =
    rw (bit-mod 64 (all_ones * 2 ^ t) k h, bit-shl t all_ones k, bit-ones 64 (k - t) (omega arith))
      (ground arith)

length-fill_from : (from : ℕ) (ws : List ℕ) → length (fill_from from ws) ≡ length ws
unfolding fill_from
length-fill_from from [] = refl
length-fill_from zero (w ∷ ws) = ap suc (length-fill_from zero ws)
length-fill_from (suc from) (w ∷ ws) = ap suc (length-fill_from from ws)

AllWords-fill_from : (from : ℕ) (ws : List ℕ) → AllWords ws → AllWords (fill_from from ws)
unfolding fill_from
AllWords-fill_from from [] a = tt
AllWords-fill_from zero (w ∷ ws) a = (omega arith, AllWords-fill_from zero ws a.1)
AllWords-fill_from (suc from) (w ∷ ws) a = (a.0, AllWords-fill_from from ws a.1)

get_or-fill_from :
    (from : ℕ) (ws : List ℕ) (i : ℕ)
    → i < length ws
    → get_or (fill_from from ws) i 0 ≡ (if leb from i then all_ones else get_or ws i 0)
unfolding fill_from
get_or-fill_from from [] i h = elim h [ ]
get_or-fill_from zero (w ∷ ws) zero h = ground arith
get_or-fill_from zero (w ∷ ws) (suc i) h =
    rw (get_or-fill_from zero ws i (omega arith)) (ground arith)
get_or-fill_from (suc from) (w ∷ ws) zero h = ground arith
get_or-fill_from (suc from) (w ∷ ws) (suc i) h =
    rw (get_or-fill_from from ws i (omega arith)) (ground arith)

bit_at-fill_from :
    (from : ℕ) (ws : List ℕ) (j : ℕ)
    → j < length ws * 64
    → bit_at (fill_from from ws) j ≡ (leb from (j / 64) || bit_at ws j)
bit_at-fill_from from ws j h = elim (Bool-cases (leb from (j / 64))) [
  | inl full ↦
      rw (full, get_or-fill_from from ws (j / 64) (omega arith), full)
        (bit-ones 64 (j % 64) (omega arith))
  | inr old ↦ rw (old, get_or-fill_from from ws (j / 64) (omega arith), old)
]

-- What `new` makes of the storage: the words keep their number, the bits of the map stay, and every
-- bit behind its end is set.
abbrev pub Wraps : List ℕ → ℕ → Option RtlBitmap → Type 0
Wraps words size r =
    (bm : RtlBitmap) × (r ≡ some bm)
    × IsValid bm
    × (bm.size_in_bits ≡ size)
    × (length bm.words ≡ length words)
    × ((j : ℕ) → j < length words * 64 → bit_at bm.words j ≡ (leb size j || bit_at words j))

wrap_whole :
    (words : List ℕ) (size : ℕ)
    → AllWords words
    → size ≤ length words * 64
    → (size % 64 == 0) ≡ true
    → Wraps words size (new words size)
unfolding new
wrap_whole words size a h whole =
    rw (le→leb _ _ h, whole, ◌>>=◌)
      (
        record { words = fill_from (size / 64 + 0) words; size_in_bits = size },
        refl,
        record {
          fits = omega (arith, length-fill_from (size / 64 + 0) words);
          in_range = AllWords-fill_from _ words a;
        },
        refl,
        length-fill_from _ words,
        λ j lt. rw (bit_at-fill_from (size / 64 + 0) words j lt) (ground arith),
      )

part_bits :
    (words : List ℕ) (size j : ℕ)
    → (size % 64 == 0) ≡ false
    → (leb (size / 64 + 1) (j / 64)
        || (if size / 64 == j / 64
            then bit (get_or words (size / 64) 0) (j % 64) || leb (size % 64) (j % 64)
            else bit_at words j))
      ≡ (leb size j || bit_at words j)
part_bits words size j part = ground arith

wrap_part :
    (words : List ℕ) (size : ℕ)
    → AllWords words
    → size ≤ length words * 64
    → (size % 64 == 0) ≡ false
    → Wraps words size (new words size)
unfolding new or_word
wrap_part words size a h part =
    let i = size / 64 in
    let w = bit_or (get_or words i 0) (shl64 all_ones (size % 64)) in
    rw (le→leb _ _ h, part, get_elem?-some words i 0 (ground arith), ◌>>=◌)
      (
        record { words = fill_from (i + 1) (set words i w); size_in_bits = size },
        refl,
        record {
          fits = omega (arith, length-fill_from (i + 1) (set words i w), length-set words i w);
          in_range = AllWords-fill_from (i + 1) (set words i w) (
              AllWords-set words i w a
                (bit_or-lt 64 _ _ (AllWords-get_or words i a) (omega arith)));
        },
        refl,
        omega (arith, length-fill_from (i + 1) (set words i w), length-set words i w),
        λ j lt.
            rw
              (
                bit_at-fill_from (i + 1) (set words i w) j (omega (arith, length-set words i w)),
                bit_at-set words size j w (ground arith),
                bit-bit_or,
                bit-high_mask (size % 64) (j % 64) (omega arith),
              )
              (part_bits words size j part),
      )

-- A map that does not fit its storage is refused by the assertion. Any other is valid, has the bits
-- of the storage below its end, and has every bit of the storage from its end on set.
pub new-Wraps :
    (words : List ℕ) (size : ℕ)
    → AllWords words
    → ((length words * 64 < size) × (new words size ≡ none))
      ⊎ ((size ≤ length words * 64) × Wraps words size (new words size))
unfolding new
new-Wraps words size a = elim (dec_lt (length words * 64) size) [
  | yes over ↦ inl (over, ground arith)
  | no fits ↦ inr (
    omega arith,
    elim (Bool-cases (size % 64 == 0)) [
      | inl whole ↦ wrap_whole words size a (omega arith) whole
      | inr part ↦ wrap_part words size a (omega arith) part
    ],
  )
]
