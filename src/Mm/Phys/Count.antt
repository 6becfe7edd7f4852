-- ===== src/Mm/Phys/Count.antt =====
-- How many flags below a bound are clear, and how that changes when a range is set or cleared.
use nanokrnl.Base.{
  ℕ, zero, suc, ◌+◌, ◌-◌, ◌≤◌, ◌<◌, min, ◌≡◌, Bool, true, false, arith, if◌then◌else◌,
}
use nanokrnl.Rtl.Bitmap.SetBits.{marked, cleared}

abbrev pub clear_below : ℕ → (ℕ → Bool) → ℕ
clear_below zero f = 0
clear_below (suc n) f = clear_below n f + (if f n then 0 else 1)

pub clear_below-le : (n : ℕ) (f : ℕ → Bool) → clear_below n f ≤ n
clear_below-le zero f = omega arith
clear_below-le (suc n) f = ground (arith, clear_below-le n f)

-- Setting a clear range takes its length off the count.
pub clear_below-marked :
    (n start count : ℕ) (f g : ℕ → Bool)
    → ((j : ℕ) → start ≤ j → j < start + count → f j ≡ false)
    → ((j : ℕ) → g j ≡ marked start count j (f j))
    → clear_below n f ≡ clear_below n g + (min n (start + count) - min n start)
clear_below-marked zero start count f g clear same = omega arith
clear_below-marked (suc n) start count f g clear same =
    ground (arith, clear_below-marked n start count f g clear same, same n, clear n)

-- Clearing a set range adds its length.
pub clear_below-cleared :
    (n start count : ℕ) (f g : ℕ → Bool)
    → ((j : ℕ) → start ≤ j → j < start + count → f j ≡ true)
    → ((j : ℕ) → g j ≡ cleared start count j (f j))
    → clear_below n g ≡ clear_below n f + (min n (start + count) - min n start)
clear_below-cleared zero start count f g taken same = omega arith
clear_below-cleared (suc n) start count f g taken same =
    ground (arith, clear_below-cleared n start count f g taken same, same n, taken n)
