-- ===== src/Rtl/Bitmap/Allocate.antt =====
-- `find_clear_bits_and_set`: it takes a run whenever the map has one, wherever the hint points.
use nanokrnl.Base.{
  ℕ, ◌+◌, ◌≤◌, ◌<◌, ◌≡◌, refl, inl, inr, true, min, Option, none, some, ◌||◌, ◌⊎◌, ◌==◌, leb, ltb,
  arith, length, Bool-cases, if◌then◌else◌, ◌>>=◌,
}
use native.Mathlib.Decide.{dec_lt, ℕ_discrete}
use nanokrnl.Rtl.Bitmap.{
  RtlBitmap, find_run_from, take_run, search_and_set, find_clear_bits_and_set,
}
use nanokrnl.Rtl.Bitmap.View.{bit_at, Clear, Blocked, IsValid}
use nanokrnl.Rtl.Bitmap.SetBits.{marked, set_bits-Changes}
use nanokrnl.Rtl.Bitmap.FindRun.{FirstRun, find_run_from-FirstRun}

-- The map has no run of `count` clear bits.
abbrev pub Full : RtlBitmap → ℕ → Type 0
Full bm count = (s : ℕ) → s + count ≤ bm.size_in_bits → Blocked bm.words s count

-- A run was taken: it lay in the map and was clear, and now just its bits are set in addition.
abbrev pub Took : RtlBitmap → ℕ → RtlBitmap → ℕ → Type 0
Took bm count bm' start =
    (start + count ≤ bm.size_in_bits)
    × Clear bm.words start count
    × IsValid bm'
    × (bm'.size_in_bits ≡ bm.size_in_bits)
    × (length bm'.words ≡ length bm.words)
    × ((j : ℕ) → bit_at bm'.words j ≡ marked start count j (bit_at bm.words j))

abbrev pub Allocates : RtlBitmap → ℕ → Option (RtlBitmap × Option ℕ) → Type 0
Allocates bm count r =
    ((r ≡ some (bm, none)) × ((count ≡ 0) ⊎ Full bm count))
    ⊎ ((bm' : RtlBitmap) × (start : ℕ) × (r ≡ some (bm', some start)) × Took bm count bm' start)

take_run-Allocates :
    (bm : RtlBitmap) (count start : ℕ)
    → IsValid bm
    → start + count ≤ bm.size_in_bits
    → Clear bm.words start count
    → Allocates bm count (take_run bm count (some start))
unfolding take_run
take_run-Allocates bm count start v fits clear =
    let (bm', e, v', size, words, bits) = set_bits-Changes bm start count v fits in
    inr (bm', start, rw e, (fits, clear, v', size, words, bits))

refused_lem :
    (bm : RtlBitmap) (count : ℕ)
    → ((count == 0) || ltb bm.size_in_bits count) ≡ true
    → (count ≡ 0) ⊎ Full bm count
refused_lem bm count refused = elim (ℕ_discrete count 0) [
  | yes zero_count ↦ inl zero_count
  | no some_bits ↦ inr λ s h. absurd (ground arith)
]

-- Two passes that find nothing have looked at every start of the map.
Full-passes :
    (bm : RtlBitmap) (count from : ℕ)
    → FirstRun bm.words from (min bm.size_in_bits bm.size_in_bits) count none
    → FirstRun bm.words 0 (min (from + min count bm.size_in_bits) bm.size_in_bits) count none
    → Full bm count
Full-passes bm count from above below s fits = elim (dec_lt s from) [
  | yes before ↦ below s (omega arith) (omega arith)
  | no after ↦ above s (omega arith) (omega arith)
]

module _ (bm : RtlBitmap) (count from : ℕ) (v : IsValid bm) where
  second_pass :
      (r : Option ℕ)
      → find_run_from bm from bm.size_in_bits count ≡ some none
      → FirstRun bm.words from (min bm.size_in_bits bm.size_in_bits) count none
      → find_run_from bm 0 (from + min count bm.size_in_bits) count ≡ some r
      → FirstRun bm.words 0 (min (from + min count bm.size_in_bits) bm.size_in_bits) count r
      → Allocates bm count (search_and_set bm count from)
  unfolding search_and_set
  second_pass none e above e' below =
      rw (e, ◌>>=◌, e', ◌>>=◌) (inl (refl, inr (Full-passes bm count from above below)))
  second_pass (some s) e above e' (_, fits, clear, _) =
      rw (e, ◌>>=◌, e', ◌>>=◌) (take_run-Allocates bm count s v (omega arith) clear)

  first_pass :
      (r : Option ℕ)
      → 0 < count
      → find_run_from bm from bm.size_in_bits count ≡ some r
      → FirstRun bm.words from (min bm.size_in_bits bm.size_in_bits) count r
      → Allocates bm count (search_and_set bm count from)
  unfolding search_and_set
  first_pass none some_bits e above =
      let (r, e', below) =
        find_run_from-FirstRun bm 0 (from + min count bm.size_in_bits) count v some_bits
          (omega arith) (omega arith) in
      second_pass r e above e' below
  first_pass (some s) some_bits e (_, fits, clear, _) =
      rw (e, ◌>>=◌) (take_run-Allocates bm count s v (omega arith) clear)

search_and_set-Allocates :
    (bm : RtlBitmap) (count from : ℕ)
    → IsValid bm
    → 0 < count
    → from < bm.size_in_bits
    → Allocates bm count (search_and_set bm count from)
search_and_set-Allocates bm count from v some_bits inside =
    let (r, e, first) =
      find_run_from-FirstRun bm from bm.size_in_bits count v some_bits (omega arith)
        (omega arith) in
    first_pass bm count from v r some_bits e first

-- On a valid map the search neither panics nor runs out of fuel. Either it takes nothing, and then
-- the count is zero or no run of that many clear bits exists anywhere in the map, or it takes a
-- run of clear bits inside the map, sets exactly its bits and keeps the map valid.
pub find_clear_bits_and_set-Allocates :
    (bm : RtlBitmap) (count hint : ℕ)
    → IsValid bm
    → Allocates bm count (find_clear_bits_and_set bm count hint)
unfolding find_clear_bits_and_set
find_clear_bits_and_set-Allocates bm count hint v =
    elim (Bool-cases ((count == 0) || ltb bm.size_in_bits count)) [
      | inl refused ↦ rw refused (inl (refl, refused_lem bm count refused))
      | inr tried ↦ rw tried (
          search_and_set-Allocates bm count (if leb bm.size_in_bits hint then 0 else hint) v
            (ground arith) (ground arith))
    ]
