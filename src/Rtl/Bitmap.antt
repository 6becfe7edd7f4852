-- ===== src/Rtl/Bitmap.antt =====
-- kernel/src/rtl/bitmap.rs: a bitmap over 64-bit words with a search for runs of clear bits.
-- An operation returns `none` where the code panics on an index out of range; the loop of the
-- search also does so without fuel. The `debug_assert!`s are not in a release build and are left
-- out.
mod Tests
pub mod View
pub mod SetBits
pub mod FindRun
pub mod Allocate
pub mod Init
use nanokrnl.Base.{
  ℕ, zero, suc, ◌+◌, ◌-◌, ◌*◌, ◌/◌, ◌%◌, ◌^◌, min, bit_and, bit_or, Bool, true, false, ◌&&◌, ◌||◌,
  not, Option, none, some, List, [], ◌∷◌, ◌==◌, leb, ltb, if◌then◌else◌, ◌>>=◌, length, get_elem?,
  set,
}
use nanokrnl.Base.Bits.{bit}

pub record RtlBitmap : Type 0 where
  pub words : List ℕ
  pub size_in_bits : ℕ

-- `!0u64`
abbrev pub all_ones : ℕ
all_ones = 2 ^ 64 - 1

-- `w << k` on a 64-bit word
abbrev pub shl64 : ℕ → ℕ → ℕ
shl64 w k = w * 2 ^ k % 2 ^ 64

-- `for w in &mut words[from..] { *w = !0 }`
pub fill_from : ℕ → List ℕ → List ℕ
fill_from from [] = []
fill_from zero (w ∷ ws) = all_ones ∷ fill_from zero ws
fill_from (suc from) (w ∷ ws) = w ∷ fill_from from ws

-- `words[i] |= mask`
unfoldable pub or_word : List ℕ → ℕ → ℕ → Option (List ℕ)
or_word words i mask = get_elem? words i >>= λ w. some (set words i (bit_or w mask))

-- `words[i] &= mask`
pub and_word : List ℕ → ℕ → ℕ → Option (List ℕ)
and_word words i mask = get_elem? words i >>= λ w. some (set words i (bit_and w mask))

pub new : List ℕ → ℕ → Option RtlBitmap
unfolding fill_from or_word
new words size_in_bits =
    if leb size_in_bits (length words * 64)
    then (do
      let tail_bits = size_in_bits % 64
      let full_words = size_in_bits / 64
      masked ←
          if tail_bits == 0 then some words else or_word words full_words (shl64 all_ones tail_bits)
      let filled = fill_from (full_words + (if tail_bits == 0 then 0 else 1)) masked
      some (record { words = filled; size_in_bits = size_in_bits }))
    else none

pub len : RtlBitmap → ℕ
len bm = bm.size_in_bits

-- The loop of `set_bits`: `count` rounds from bit `i` on.
unfoldable pub set_loop : ℕ → ℕ → List ℕ → Option (List ℕ)
unfolding or_word
set_loop zero i words = some words
set_loop (suc count) i words =
    or_word words (i / 64) (2 ^ (i % 64)) >>= λ words'. set_loop count (i + 1) words'

unfoldable pub set_bits : RtlBitmap → ℕ → ℕ → Option RtlBitmap
set_bits bm start count = set_loop count start bm.words >>= λ ws. some (record bm { words = ws })

-- The loop of `clear_bits`.
pub clear_loop : ℕ → ℕ → List ℕ → Option (List ℕ)
unfolding and_word
clear_loop zero i words = some words
clear_loop (suc count) i words =
    and_word words (i / 64) (all_ones - 2 ^ (i % 64)) >>= λ words'. clear_loop count (i + 1) words'

pub clear_bits : RtlBitmap → ℕ → ℕ → Option RtlBitmap
clear_bits bm start count =
    clear_loop count start bm.words >>= λ ws. some (record bm { words = ws })

unfoldable pub test_bit : RtlBitmap → ℕ → Option Bool
test_bit bm i = get_elem? bm.words (i / 64) >>= λ w. some (not (bit_and w (2 ^ (i % 64)) == 0))

-- `u64::count_ones`
pub count_digits : ℕ → ℕ → ℕ
count_digits zero w = 0
count_digits (suc k) w = count_digits k w + (if bit w k then 1 else 0)

pub sum_ones : List ℕ → ℕ
unfolding count_digits
sum_ones [] = 0
sum_ones (w ∷ ws) = count_digits 64 w + sum_ones ws

-- The subtraction is that of `usize`.
pub count_set : RtlBitmap → ℕ
unfolding sum_ones
count_set bm =
    let padding = length bm.words * 64 - bm.size_in_bits in
    (sum_ones bm.words + 2 ^ 64 - padding) % 2 ^ 64

-- May the search skip the word that starts at bit `i`? The word is read only if the tests before
-- it pass.
unfoldable pub skips : RtlBitmap → (to i run_len : ℕ) → Option Bool
skips bm to i run_len =
    if (run_len == 0) && ((i % 64 == 0) && leb (i + 64) to)
    then (get_elem? bm.words (i / 64) >>= λ w. some (w == all_ones))
    else some false

-- The loop of `find_run_from`, over `i`, `run_start` and `run_len`.
unfoldable pub find_loop : ℕ → RtlBitmap → (to count i run_start run_len : ℕ) → Option (Option ℕ)
find_loop zero bm to count i run_start run_len = none
find_loop (suc fuel) bm to count i run_start run_len = elim (ltb i to) [
  | false ↦ some none
  | true ↦ skips bm to i run_len >>= λ skip. elim skip [
    | true ↦ find_loop fuel bm to count (i + 64) (i + 64) run_len
    | false ↦ test_bit bm i >>= λ is_set. elim is_set [
      | true ↦ find_loop fuel bm to count (i + 1) (i + 1) 0
      | false ↦ elim (run_len + 1 == count) [
        | true ↦ some (some run_start)
        | false ↦ find_loop fuel bm to count (i + 1) run_start (run_len + 1)
      ]
    ]
  ]
]

-- Each round moves `i` on, so `to + 1` rounds are enough.
unfoldable pub find_run_from : RtlBitmap → (from to count : ℕ) → Option (Option ℕ)
find_run_from bm from to count =
    let to' = min to bm.size_in_bits in find_loop (to' + 1) bm to' count from from 0

-- `.map(|start| { self.set_bits(start, count); start })`
unfoldable pub take_run : RtlBitmap → ℕ → Option ℕ → Option (RtlBitmap × Option ℕ)
take_run bm count none = some (bm, none)
take_run bm count (some start) = set_bits bm start count >>= λ bm'. some (bm', some start)

-- `.or_else(..)`: the second pass, from the beginning up to where the first one started.
unfoldable pub or_else_wrap : RtlBitmap → (count from : ℕ) → Option ℕ → Option (Option ℕ)
or_else_wrap bm count from (some start) = some (some start)
or_else_wrap bm count from none = find_run_from bm 0 (from + min count bm.size_in_bits) count

unfoldable pub search_and_set : RtlBitmap → (count from : ℕ) → Option (RtlBitmap × Option ℕ)
unfolding or_else_wrap take_run
search_and_set bm count from = do
  first ← find_run_from bm from bm.size_in_bits count
  found ← or_else_wrap bm count from first
  take_run bm count found

unfoldable pub find_clear_bits_and_set :
    RtlBitmap → (count hint : ℕ) → Option (RtlBitmap × Option ℕ)
unfolding search_and_set
find_clear_bits_and_set bm count hint =
    if (count == 0) || ltb bm.size_in_bits count
    then some (bm, none)
    else search_and_set bm count (if leb bm.size_in_bits hint then 0 else hint)
