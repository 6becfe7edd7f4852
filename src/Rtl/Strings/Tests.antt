-- ===== src/Rtl/Strings/Tests.antt =====
-- kernel/src/rtl/string.rs: "Ab" and "aB".
use nanokrnl.Base.{ℕ, ◌≡◌, ◌↔◌, true, ◌==◌, if◌then◌else◌, arith}
use nanokrnl.Rtl.Strings.{from_units, as_units, units_at, eq_ignore_ascii_case}
use nanokrnl.Rtl.Strings.Equal.{folded, eq_ignore_ascii_case-folded}

abbrev memory : ℕ → ℕ
memory a =
    if a == 16
    then 0x41
    else if a == 18
    then 0x62
    else if a == 32
    then 0x61
    else if a == 34
    then 0x42
    else 0

eq_ignore_ascii_case-folded_example :
    (as_units memory (from_units 16 2) ≡ units_at memory 16 2)
    × ((eq_ignore_ascii_case memory (from_units 16 2) (from_units 32 2) ≡ true)
        ↔ (folded (units_at memory 16 2) ≡ folded (units_at memory 32 2)))
eq_ignore_ascii_case-folded_example =
    eq_ignore_ascii_case-folded memory 16 2 32 2 (λ e. ground (arith, e)) (λ e. ground (arith, e))
      (omega arith) (omega arith)
