-- ===== src/Mm/Phys.antt =====
-- kernel/src/mm/phys.rs: the allocator of physical frames, over the bitmap of rtl/bitmap.rs, and the
-- frame numbers of mm/mod.rs. Physical memory is a function from addresses to bytes. An operation
-- returns `none` where the code panics. The pager, which the allocator calls when the map is full,
-- is the interface `Pager`.
mod Tests
pub mod Count
pub mod Frames
use nanokrnl.Base.{
  ℕ, zero, suc, ◌+◌, ◌-◌, ◌*◌, ◌/◌, ◌%◌, ◌^◌, ◌≤◌, ◌<◌, min, Bool, true, false, ◌&&◌, Option, none,
  some, leb, ltb, if◌then◌else◌, ◌>>=◌,
}
use nanokrnl.Rtl.Bitmap.{RtlBitmap, find_clear_bits_and_set, clear_bits}

abbrev pub page_size : ℕ
page_size = 4096

-- `PhysAddr::pfn` and `PhysAddr::from_pfn`, on 64-bit addresses
unfoldable pub pfn : ℕ → ℕ
pfn pa = pa / 2 ^ 12

unfoldable pub from_pfn : ℕ → ℕ
from_pfn n = n * 2 ^ 12 % 2 ^ 64

pub record PfnDatabase : Type 0 where
  pub bitmap : Option RtlBitmap
  pub hint : ℕ
  pub total_pages : ℕ
  pub free_pages : ℕ

pub record Machine : Type 0 where
  pub db : PfnDatabase
  pub memory : ℕ → ℕ

-- `write_bytes(at, 0, size)` through the window on physical memory
abbrev pub zero_bytes : (at size : ℕ) → (ℕ → ℕ) → ℕ → ℕ
zero_bytes at size memory a = if leb at a && ltb a (at + size) then 0 else memory a

-- The state after frames `first ..` were found.
pub hand_out : Machine → (count : ℕ) → RtlBitmap × Option ℕ → Machine × Option ℕ
hand_out m count (bm, none) = (record m { db = record m.db { bitmap = some bm } }, none)
hand_out m count (bm, some first) = (
  record m {
    db = record m.db {
      bitmap = some bm;
      hint = first + count;
      free_pages = (m.db.free_pages + 2 ^ 64 - count) % 2 ^ 64;
    };
    memory = zero_bytes (from_pfn first) (count * page_size) m.memory;
  },
  some (from_pfn first),
)

pub try_alloc_in : Machine → (count : ℕ) → Option RtlBitmap → Option (Machine × Option ℕ)
unfolding hand_out
try_alloc_in m count none = some (m, none)
try_alloc_in m count (some bm) =
    find_clear_bits_and_set bm count m.db.hint >>= λ found. some (hand_out m count found)

pub try_alloc : Machine → (count : ℕ) → Option (Machine × Option ℕ)
unfolding try_alloc_in
try_alloc m count = try_alloc_in m count m.db.bitmap

-- `pageout::online` and `pageout::evict_some`, which also changes the machine.
pub record Pager : Type 0 where
  pub online : Bool
  pub evict_some : ℕ → Machine → Option (Machine × ℕ)

pub retry_alloc : (count : ℕ) → Machine × ℕ → Option (Machine × Option ℕ)
retry_alloc count (m, freed) = if ltb 0 freed then try_alloc m count else some (m, none)

pub after_first : Pager → (count : ℕ) → Machine × Option ℕ → Option (Machine × Option ℕ)
unfolding retry_alloc
after_first pager count (m, some pa) = some (m, some pa)
after_first pager count (m, none) =
    if pager.online then (pager.evict_some count m >>= retry_alloc count) else some (m, none)

pub mm_allocate_contiguous_pages : Pager → Machine → (count : ℕ) → Option (Machine × Option ℕ)
unfolding after_first
mm_allocate_contiguous_pages pager m count = try_alloc m count >>= after_first pager count

pub mm_allocate_page : Pager → Machine → Option (Machine × Option ℕ)
mm_allocate_page pager m = mm_allocate_contiguous_pages pager m 1

pub free_in : Machine → (pa count : ℕ) → Option RtlBitmap → Option Machine
free_in m pa count none = some m
free_in m pa count (some bm) = clear_bits bm (pfn pa) count >>= λ bm'. some (record m {
  db = record m.db {
    bitmap = some bm';
    hint = min m.db.hint (pfn pa);
    free_pages = (m.db.free_pages + count) % 2 ^ 64;
  };
})

pub mm_free_contiguous_pages : Machine → (pa count : ℕ) → Option Machine
unfolding free_in
mm_free_contiguous_pages m pa count = free_in m pa count m.db.bitmap

pub mm_free_page_count : Machine → ℕ
mm_free_page_count m = m.db.free_pages
