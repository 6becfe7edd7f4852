-- ===== src/Mm/Phys/Tests.antt =====
-- The frame allocator at a machine with 128 frames, of which the low 64 are taken.
use nanokrnl.Base.{
  ℕ, ◌+◌, ◌-◌, ◌/◌, ◌%◌, ◌*◌, ◌^◌, ◌≤◌, ◌≡◌, refl, ◌⊎◌, Option, none, some, [], ◌∷◌, arith,
}
use nanokrnl.Base.Bits.{bit, bit-ones}
use nanokrnl.Rtl.Bitmap.{
  RtlBitmap, find_clear_bits_and_set, find_run_from, find_loop, skips, test_bit, set_bits, set_loop,
}
use nanokrnl.Rtl.Bitmap.View.{bit_at}
use nanokrnl.Mm.Phys.{Machine, page_size, from_pfn, try_alloc, mm_free_contiguous_pages}
use nanokrnl.Mm.Phys.Frames.{
  IsValid, Allocates, GivenBack, Taken, try_alloc-Allocates, mm_free_contiguous_pages-GivenBack,
  free-alloc, try_alloc-disjoint,
}

abbrev half_full : RtlBitmap
half_full = record { words = (2 ^ 64 - 1) ∷ 0 ∷ []; size_in_bits = 128 }

abbrev booted : Machine
booted = record {
  db = record { bitmap = some half_full; hint = 0; total_pages = 128; free_pages = 64 };
  memory = λ a. 0xcc;
}

booted-IsValid : IsValid booted half_full
unfolding bit
booted-IsValid = record {
  online = refl;
  map = record { fits = omega arith; in_range = omega arith };
  small = omega arith;
  counted = refl;
}

try_alloc-Allocates_example : Allocates booted half_full 3 (try_alloc booted 3)
try_alloc-Allocates_example = try_alloc-Allocates booted half_full 3 booted-IsValid

-- The frames 60 to 63 are taken.
low-Taken : Taken half_full 60 4
low-Taken j lo hi = let e : j / 64 ≡ 0 = omega arith in rw e (bit-ones 64 (j % 64) (omega arith))

mm_free_contiguous_pages-GivenBack_example :
    (m' : Machine) × (bm' : RtlBitmap) × (mm_free_contiguous_pages booted (from_pfn 60) 4 ≡ some m')
    × GivenBack booted half_full 60 4 m' bm'
mm_free_contiguous_pages-GivenBack_example =
    mm_free_contiguous_pages-GivenBack booted half_full 60 4 booted-IsValid (omega arith)
      (omega arith) low-Taken

-- The machine after three frames, and after two more.
abbrev after : Option (Machine × Option ℕ) → Machine
after none = booted
after (some (m, r)) = m

first_alloc : try_alloc booted 3 ≡ some (after (try_alloc booted 3), some 0x4_0000)
unfolding try_alloc find_clear_bits_and_set find_run_from find_loop skips test_bit set_bits set_loop
    from_pfn
first_alloc = refl

second_alloc :
    try_alloc (after (try_alloc booted 3)) 2
    ≡ some (after (try_alloc (after (try_alloc booted 3)) 2), some 0x4_3000)
unfolding try_alloc find_clear_bits_and_set find_run_from find_loop skips test_bit set_bits set_loop
    from_pfn
second_alloc = refl

free-alloc_example :
    (m'' : Machine) × (bm'' : RtlBitmap) × (mm_free_contiguous_pages
        (after (try_alloc booted 3))
        0x4_0000
        3
      ≡ some m'')
    × IsValid m'' bm''
    × ((j : ℕ) → bit_at bm''.words j ≡ bit_at half_full.words j)
    × (m''.db.free_pages ≡ 64)
free-alloc_example =
    free-alloc booted (after (try_alloc booted 3)) half_full 3 0x4_0000 booted-IsValid first_alloc

try_alloc-disjoint_example :
    (0x4_0000 + 3 * page_size ≤ 0x4_3000) ⊎ (0x4_3000 + 2 * page_size ≤ 0x4_0000)
try_alloc-disjoint_example =
    try_alloc-disjoint booted (after (try_alloc booted 3))
      (after (try_alloc (after (try_alloc booted 3)) 2)) half_full 3 2 0x4_0000 0x4_3000
      booted-IsValid (omega arith) (omega arith) first_alloc second_alloc
