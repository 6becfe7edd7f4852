-- ===== src/Ob/Handle.antt =====
-- kernel/src/ob/handle.rs: one handle table for each address space, over the objects of ob/mod.rs.
-- A table is its list of 256 entries, of which the first is never used; the tables are a list of 16
-- slots. `cr3` is the address space of the caller. An operation returns `none` where it would
-- touch a freed object. The lock is left out: the code drops it before it calls the object manager, and
-- nothing between the two reads the tables.
pub mod Slots
pub mod Refs
pub mod Lookups
pub mod Counts
mod Tests
use nanokrnl.Base.{
  ℕ, zero, suc, ◌+◌, ◌-◌, ◌*◌, ◌/◌, ◌%◌, ◌^◌, Bool, true, false, ◌&&◌, Option, none, some, List, [],
  ◌∷◌, ◌==◌, leb, ltb, if◌then◌else◌, ◌>>=◌, get_or, set, replicate,
}
use nanokrnl.Ob.Object.{
  Objects, Status, success, invalid_handle, ob_reference_object, ob_dereference_object,
}

abbrev pub max_handles : ℕ
max_handles = 256

pub record HandleEntry : Type 0 where
  pub object : ℕ
  pub granted_access : ℕ
  pub refs : ℕ

abbrev pub Entries : Type 0
Entries = List (Option HandleEntry)

pub record TableSlot : Type 0 where
  pub cr3 : ℕ
  pub in_use : Bool
  pub entries : Entries

abbrev pub Tables : Type 0
Tables = List TableSlot

abbrev pub index_to_handle : ℕ → ℕ
index_to_handle i = i * 4 % 2 ^ 64

abbrev pub handle_to_index : ℕ → ℕ
handle_to_index h = h / 4

-- `slots[s].in_use && slots[s].cr3 == cr3`
abbrev pub is_for : ℕ → TableSlot → Bool
is_for cr3 s = s.in_use && (s.cr3 == cr3)

-- The entries of the first slot for `cr3`.
unfoldable pub entries_of : ℕ → Tables → Option Entries
entries_of cr3 [] = none
entries_of cr3 (s ∷ ss) = if is_for cr3 s then some s.entries else entries_of cr3 ss

-- A write to the entries of the first slot for `cr3`.
unfoldable pub put_entries : ℕ → Entries → Tables → Tables
put_entries cr3 es [] = []
put_entries cr3 es (s ∷ ss) =
    if is_for cr3 s then record s { entries = es } ∷ ss else s ∷ put_entries cr3 es ss

-- `[None; MAX_HANDLES]`
unfoldable pub no_entries : Entries
no_entries = replicate max_handles none

-- The second loop of `slot_for`: take the first free slot.
unfoldable pub claim : ℕ → Tables → Option Tables
claim cr3 [] = none
claim cr3 (s ∷ ss) =
    if s.in_use
    then (claim cr3 ss >>= λ ss'. some (s ∷ ss'))
    else some (record { cr3 = cr3; in_use = true; entries = no_entries } ∷ ss)

-- `slot_for`, with the entries of the slot that it finds.
pub slot_in : ℕ → Tables → Option Entries → Option (Tables × Entries)
unfolding claim
slot_in cr3 ts (some es) = some (ts, es)
slot_in cr3 ts none = claim cr3 ts >>= λ ts'. some (ts', no_entries)

pub slot_for : ℕ → Tables → Option (Tables × Entries)
unfolding slot_in entries_of
slot_for cr3 ts = slot_in cr3 ts (entries_of cr3 ts)

-- The first free index from `i` on, where `es` are the entries from `i` on.
unfoldable pub free_from : ℕ → Entries → Option ℕ
free_from i [] = none
free_from i (none ∷ es) = some i
free_from i (some e ∷ es) = free_from (i + 1) es

-- `for i in 1..MAX_HANDLES`
abbrev pub tail_of : Entries → Entries
tail_of [] = []
tail_of (e ∷ es) = es

abbrev pub first_free : Entries → Option ℕ
first_free es = free_from 1 (tail_of es)

pub record State (World : Type 0) : Type 0 where
  pub tables : Tables
  pub objects : Objects World

-- The tests before a handle is looked up.
abbrev pub usable : ℕ → Bool
usable i = leb 1 i && ltb i max_handles

-- The entry of a handle in the table of `cr3`.
abbrev pub entry_in : ℕ → Option Entries → Option HandleEntry
entry_in i none = none
entry_in i (some es) = get_or es i none

pub entry_at : (cr3 handle : ℕ) → Tables → Option HandleEntry
unfolding entries_of
entry_at cr3 handle ts =
    if usable (handle_to_index handle)
    then entry_in (handle_to_index handle) (entries_of cr3 ts)
    else none

-- A write of that entry.
abbrev pub put_in : (cr3 i : ℕ) → Option HandleEntry → Tables → Option Entries → Tables
put_in cr3 i e ts none = ts
put_in cr3 i e ts (some es) = put_entries cr3 (set es i e) ts

pub put_entry : (cr3 handle : ℕ) → Option HandleEntry → Tables → Tables
unfolding entries_of put_entries
put_entry cr3 handle e ts = put_in cr3 (handle_to_index handle) e ts (entries_of cr3 ts)

-- What an entry becomes when one copy is closed.
abbrev pub one_less : HandleEntry → Option HandleEntry
one_less e = if ltb 1 e.refs then some (record e { refs = e.refs - 1 }) else none

-- The objects that `ob_free_table` collects, one for each entry.
unfoldable pub objects_of : Entries → List ℕ
objects_of [] = []
objects_of (none ∷ es) = objects_of es
objects_of (some e ∷ es) = e.object ∷ objects_of es

-- `slots[s].in_use = false; slots[s].cr3 = 0`, with the entries from index 1 on taken.
abbrev pub emptied : Entries → Entries
emptied [] = []
emptied (e ∷ es) = e ∷ replicate (max_handles - 1) none

unfoldable pub release_slot : ℕ → Tables → Tables
release_slot cr3 [] = []
release_slot cr3 (s ∷ ss) =
    if is_for cr3 s
    then record { cr3 = 0; in_use = false; entries = emptied s.entries } ∷ ss
    else s ∷ release_slot cr3 ss

module _ {World : Type 0} where
  -- A new entry at a free index, and the reference that it owns. A table that is made for a
  -- handle that finds no index stays.
  pub insert_at :
      (cr3 object access : ℕ) → State World → Tables × Entries → Option ℕ → Option (State World × ℕ)
  unfolding put_entries
  insert_at cr3 object access s (ts, es) none = some (record s { tables = ts }, 0)
  insert_at cr3 object access s (ts, es) (some i) =
      ob_reference_object object s.objects >>= λ objects. some (
        record {
          tables =
              put_entries cr3
                (set es i (some (record { object = object; granted_access = access; refs = 1 })))
                ts;
          objects = objects;
        },
        index_to_handle i,
      )

  pub create_slot :
      (cr3 object access : ℕ) → State World → Option (Tables × Entries) → Option (State World × ℕ)
  unfolding insert_at free_from
  create_slot cr3 object access s none = some (s, 0)
  create_slot cr3 object access s (some (ts, es)) =
      insert_at cr3 object access s (ts, es) (first_free es)

  -- `ob_create_handle` is this at the caller's address space, `ob_create_handle_in` at any.
  pub create_in : (cr3 object access : ℕ) → State World → Option (State World × ℕ)
  unfolding create_slot slot_for
  create_in cr3 object access s = create_slot cr3 object access s (slot_for cr3 s.tables)

  pub ob_reference_object_by_handle : (cr3 handle : ℕ) → State World → Option ℕ
  unfolding entry_at
  ob_reference_object_by_handle cr3 handle s = entry_at cr3 handle s.tables >>= λ e. some e.object

  pub duplicate_entry :
      (cr3 handle : ℕ) → State World → Option HandleEntry → Option (State World × ℕ)
  unfolding put_entry
  duplicate_entry cr3 handle s none = some (s, 0)
  duplicate_entry cr3 handle s (some e) = ob_reference_object e.object s.objects >>= λ objects.
      some (
        record {
          tables = put_entry cr3 handle (some (record e { refs = (e.refs + 1) % 2 ^ 32 })) s.tables;
          objects = objects;
        },
        handle,
      )

  pub duplicate_handle : (cr3 handle : ℕ) → State World → Option (State World × ℕ)
  unfolding duplicate_entry entry_at
  duplicate_handle cr3 handle s = duplicate_entry cr3 handle s (entry_at cr3 handle s.tables)

  pub close_entry :
      (cr3 handle : ℕ) → State World → Option HandleEntry → Option (State World × Status)
  unfolding put_entry
  close_entry cr3 handle s none = some (s, invalid_handle)
  close_entry cr3 handle s (some e) = ob_dereference_object e.object s.objects >>= λ objects.
      some
        (record { tables = put_entry cr3 handle (one_less e) s.tables; objects = objects }, success)

  pub ob_close_handle : (cr3 handle : ℕ) → State World → Option (State World × Status)
  unfolding close_entry entry_at
  ob_close_handle cr3 handle s = close_entry cr3 handle s (entry_at cr3 handle s.tables)

  unfoldable pub dereference_all : List ℕ → Objects World → Option (Objects World)
  dereference_all [] s = some s
  dereference_all (o ∷ os) s = ob_dereference_object o s >>= dereference_all os

  pub free_entries : ℕ → State World → Option Entries → Option (State World)
  unfolding objects_of dereference_all release_slot
  free_entries cr3 s none = some s
  free_entries cr3 s (some es) = dereference_all (objects_of (tail_of es)) s.objects >>= λ objects.
      some (record { tables = release_slot cr3 s.tables; objects = objects })

  pub ob_free_table : ℕ → State World → Option (State World)
  unfolding free_entries entries_of
  ob_free_table cr3 s = if cr3 == 0 then some s else free_entries cr3 s (entries_of cr3 s.tables)
