-- ===== src/Ob/Handle/Tests.antt =====
-- kernel/src/ob/handle.rs: a table with one handle that has two copies.
use nanokrnl.Base.{
  ℕ, zero, suc, ◌+◌, ◌-◌, ◌^◌, ◌<◌, ◌≡◌, refl, true, false, none, some, [], ◌∷◌, ◌==◌,
  if◌then◌else◌, replicate, get_or, arith, Bool-cases, inl, inr,
}
use nanokrnl.Ob.Object.{ObjectType, Objects, Status}
use nanokrnl.Ob.Object.Counts.{count}
use nanokrnl.Ob.Handle.{
  HandleEntry, Entries, Tables, State, handle_to_index, entries_of, entry_at, duplicate_handle,
  ob_close_handle, create_in, ob_free_table,
}
use nanokrnl.Ob.Handle.Refs.{refs_to, refs_in, refs_in-replicate}
use nanokrnl.Ob.Handle.Counts.{IsValid, Open}
use nanokrnl.Ob.Handle.Counts.Copies.{
  Duplicated, Closed, duplicate_handle-IsValid, ob_close_handle-IsValid,
}
use nanokrnl.Ob.Handle.Counts.Creation.{CreatedValid, create_in-IsValid, get_or-replicate}
use nanokrnl.Ob.Handle.Counts.Free.{values_of, ob_free_table-counts}

-- The type of a pipe's write end, whose hooks count its writers.
abbrev pipe : ObjectType ℕ
pipe = record {
  name = 1;
  delete = none;
  on_reference = some (λ b w. w + 1);
  on_dereference = some (λ b w. w - 1);
}

abbrev objects : Objects ℕ
objects = record {
  headers = λ b.
      if b == 100
      then some (record { ref_count = 3; object_type = pipe; total_size = 40 })
      else none;
  world = 3;
}

abbrev shared : HandleEntry
shared = record { object = 100; granted_access = 3; refs = 2 }

abbrev table : Entries
table = none ∷ some shared ∷ replicate 254 none

abbrev tables : Tables
tables =
    record { cr3 = 7; in_use = true; entries = table }
    ∷ record { cr3 = 0; in_use = false; entries = [] }
    ∷ []

abbrev two_copies : State ℕ
two_copies = record { tables = tables; objects = objects }

abbrev creator : ℕ → ℕ
creator o = if o == 100 then 1 else 0

table_copies : (i : ℕ) (e : HandleEntry) → get_or table i none ≡ some e → 0 < e.refs
table_copies zero e at = ground arith
table_copies (suc zero) e at = ground arith
table_copies (suc (suc i)) e at = absurd (ground (arith, get_or-replicate 254 i))

tables_copies : Open tables
unfolding entry_at entries_of
tables_copies cr3 handle e at = elim (Bool-cases (7 == cr3)) [
  | inr ne ↦ ground arith
  | inl same ↦ ground (arith, table_copies (handle_to_index handle) e)
]

two_copies-IsValid : IsValid creator two_copies
unfolding refs_to refs_in entries_of
two_copies-IsValid = record {
  live = λ b h e. ground arith;
  balanced = λ o. ground (arith, refs_in-replicate o 254);
  copies = tables_copies;
  sized = λ cr3 es e. ground arith;
}

two_copies_small : (o : ℕ) → count objects o < 2 ^ 31
two_copies_small o = ground arith

duplicate_handle-IsValid_example :
    (r : State ℕ × ℕ) × (duplicate_handle 7 4 two_copies ≡ some r)
    × IsValid creator r.0
    × Duplicated 7 4 two_copies (entry_at 7 4 tables) r
duplicate_handle-IsValid_example =
    duplicate_handle-IsValid creator 7 4 two_copies two_copies-IsValid two_copies_small

ob_close_handle-IsValid_example :
    (r : State ℕ × Status) × (ob_close_handle 7 4 two_copies ≡ some r)
    × IsValid creator r.0
    × Closed 7 4 two_copies (entry_at 7 4 tables) r
ob_close_handle-IsValid_example =
    ob_close_handle-IsValid creator 7 4 two_copies two_copies-IsValid two_copies_small

create_in-IsValid_example : CreatedValid creator 7 100 1 two_copies (create_in 7 100 1 two_copies)
create_in-IsValid_example =
    create_in-IsValid creator 7 100 1 two_copies two_copies-IsValid (ground arith) two_copies_small

ob_free_table-counts_example :
    (s' : State ℕ) × (ob_free_table 7 two_copies ≡ some s')
    × ((o : ℕ) → count s'.objects o + values_of o (entries_of 7 tables) ≡ count objects o)
ob_free_table-counts_example =
    ob_free_table-counts creator 7 two_copies two_copies-IsValid two_copies_small refl
