-- ===== src/Rtl/Strings.antt =====
-- kernel/src/rtl/string.rs: counted strings of 16-bit units. Memory is a function from addresses to
-- units; the null pointer is 0.
pub mod Equal
mod Tests
use nanokrnl.Base.{
  ℕ, zero, suc, ◌+◌, ◌*◌, ◌/◌, ◌%◌, ◌^◌, Bool, true, false, ◌&&◌, ◌||◌, List, [], ◌∷◌, ◌==◌, leb,
  if◌then◌else◌, length,
}

pub record UnicodeString : Type 0 where
  pub length_in_bytes : ℕ
  pub maximum_length : ℕ
  pub buffer : ℕ

abbrev pub empty : UnicodeString
empty = record { length_in_bytes = 0; maximum_length = 0; buffer = 0 }

-- A slice of `n` units at `p`.
abbrev pub from_units : (p n : ℕ) → UnicodeString
from_units p n = record {
  length_in_bytes = n * 2 % 2 ^ 16;
  maximum_length = n * 2 % 2 ^ 16;
  buffer = p;
}

abbrev pub char_len : UnicodeString → ℕ
char_len u = u.length_in_bytes / 2

-- `from_raw_parts`
unfoldable pub units_at : (m : ℕ → ℕ) (p n : ℕ) → List ℕ
units_at m p zero = []
units_at m p (suc n) = m p ∷ units_at m (p + 2) n

abbrev pub as_units : (m : ℕ → ℕ) → UnicodeString → List ℕ
as_units m u =
    if (u.buffer == 0) || (u.length_in_bytes == 0) then [] else units_at m u.buffer (char_len u)

-- `lx` and `ly`
abbrev pub lower : ℕ → ℕ
lower x = if leb 0x41 x && leb x 0x5a then x + 32 else x

-- `zip(..).all(..)`
unfoldable pub all_same : List ℕ → List ℕ → Bool
all_same [] ys = true
all_same (x ∷ xs) [] = true
all_same (x ∷ xs) (y ∷ ys) = (lower x == lower y) && all_same xs ys

unfoldable pub eq_ignore_ascii_case : (m : ℕ → ℕ) → UnicodeString → UnicodeString → Bool
eq_ignore_ascii_case m u v =
    (length (as_units m u) == length (as_units m v)) && all_same (as_units m u) (as_units m v)
