-- ===== src/Rtl/Bitmap/Tests.antt =====
-- The tests of bitmap.rs, and the theorems at concrete maps.
use nanokrnl.Base.{ℕ, ◌-◌, ◌^◌, ◌≡◌, refl, Option, none, some, [], ◌∷◌, arith, ◌>>=◌}
use nanokrnl.Base.Bits.{bit}
use nanokrnl.Rtl.Bitmap.{
  RtlBitmap, new, set_bits, test_bit, count_set, find_run_from, find_clear_bits_and_set, skips,
  find_loop, set_loop,
}
use nanokrnl.Rtl.Bitmap.View.{IsValid}
use nanokrnl.Rtl.Bitmap.SetBits.{}
use nanokrnl.Rtl.Bitmap.FindRun.{}
use nanokrnl.Rtl.Bitmap.Allocate.{Allocates, find_clear_bits_and_set-Allocates}
use nanokrnl.Rtl.Bitmap.Init.{}

-- 128 bits, of which the low 64 are set.
abbrev half_full : RtlBitmap
half_full = record { words = (2 ^ 64 - 1) ∷ 0 ∷ []; size_in_bits = 128 }

half_full-IsValid : IsValid half_full
half_full-IsValid = record { fits = omega arith; in_range = omega arith }

abbrev found_at : Option (RtlBitmap × Option ℕ) → Option ℕ
found_at none = none
found_at (some (bm, r)) = r

-- `find_clear_bits_and_set_with_hint_and_wrap`
above_hint : found_at (find_clear_bits_and_set half_full 8 64) ≡ some 64
unfolding find_clear_bits_and_set find_run_from find_loop skips test_bit set_bits set_loop
above_hint = refl

wraps_around : found_at (find_clear_bits_and_set half_full 56 120) ≡ some 64
unfolding find_clear_bits_and_set find_run_from find_loop skips test_bit set_bits set_loop
wraps_around = refl

-- `tail_bits_are_never_allocatable`
exactly_size : found_at (new (0 ∷ []) 10 >>= λ bm. find_clear_bits_and_set bm 10 0) ≡ some 0
unfolding new find_clear_bits_and_set find_run_from find_loop skips test_bit set_bits set_loop
exactly_size = refl

count_after_new : (new (0 ∷ 0 ∷ 0 ∷ 0 ∷ []) 200 >>= λ bm. some (count_set bm)) ≡ some 0
unfolding new count_set bit
count_after_new = refl

find_clear_bits_and_set-Allocates_example :
    Allocates half_full 56 (find_clear_bits_and_set half_full 56 120)
find_clear_bits_and_set-Allocates_example =
    find_clear_bits_and_set-Allocates half_full 56 120 half_full-IsValid
