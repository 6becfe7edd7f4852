-- ===== src/Ob/Handle/Counts.antt =====
-- kernel/src/ob/handle.rs: the references that the handles hold are the ones that objects count.
pub mod Copies
pub mod Creation
pub mod Free
use nanokrnl.Base.{
  ℕ, zero, suc, ◌+◌, ◌-◌, ◌*◌, ◌/◌, ◌%◌, ◌^◌, ◌<◌, ◌≤◌, ◌≡◌, refl, Bool, true, false, ◌&&◌, Option,
  none, some, ◌==◌, leb, ltb, if◌then◌else◌, ◌>>=◌, set, length, length-set, arith, Bool-cases,
  Option-cases, inl, inr, ==_iff,
}
use nanokrnl.Ob.Object.{Objects}
use nanokrnl.Ob.Object.Counts.{count, Live}
use nanokrnl.Ob.Handle.{
  max_handles, HandleEntry, Entries, Tables, State, handle_to_index, entries_of, put_entries,
  entry_at, put_in, put_entry,
}
use nanokrnl.Ob.Handle.Slots.{entries_of-put_entries, entries_of-put_entries_other}
use nanokrnl.Ob.Handle.Refs.{entry_refs, refs_to}
use nanokrnl.Ob.Handle.Lookups.{Found, entry_at-put_entry, refs_to-put_entry}

-- Every table has an entry for each index.
abbrev pub Sized : Tables → Type 0
Sized ts = (cr3 : ℕ) (es : Entries) → entries_of cr3 ts ≡ some es → length es ≡ max_handles

-- An open handle has a copy.
abbrev pub Open : Tables → Type 0
Open ts = (cr3 handle : ℕ) (e : HandleEntry) → entry_at cr3 handle ts ≡ some e → 0 < e.refs

-- `ext o` is how many references on `o` are held by others than the handles. An object counts
-- these and one for each copy of a handle to it.
pub record IsValid {World : Type 0} (ext : ℕ → ℕ) (s : State World) : Type 0 where
  pub live : Live s.objects
  pub balanced : (o : ℕ) → count s.objects o ≡ ext o + refs_to o s.tables
  pub copies : Open s.tables
  pub sized : Sized s.tables

-- The tables `ts'` are `ts` with `v` for the entry of `handle` in the table of `cr3`.
abbrev pub Replaced : (cr3 handle : ℕ) → Option HandleEntry → Tables → Tables → Type 0
Replaced cr3 handle v ts ts' =
    (other h : ℕ)
    → entry_at other h ts' ≡ (
        if (other == cr3) && (handle_to_index h == handle_to_index handle)
        then v
        else entry_at other h ts)

put_entry-Sized :
    (cr3 handle : ℕ) (ts : Tables) (x : Option HandleEntry) (v : Option HandleEntry)
    → Found cr3 handle ts x
    → Sized ts
    → Sized (put_entry cr3 handle v ts)
unfolding put_entry
put_entry-Sized cr3 handle ts x v f sized other es there = elim (Bool-cases (other == cr3)) [
  | inr ne ↦ sized other es (
      rw
        (
          f.table,
          entries_of-put_entries_other cr3 other (set f.entries (handle_to_index handle) v) ts ne,
        )
        at there)
  | inl same ↦
      let at : some (set f.entries (handle_to_index handle) v) ≡ some es =
        rw
          (
            f.table,
            (==_iff other cr3).0 same,
            entries_of-put_entries cr3 f.entries (set f.entries (handle_to_index handle) v) ts
                f.table,
          )
          at there in
      ground
        (arith, at, length-set f.entries (handle_to_index handle) v, sized cr3 f.entries f.table)
]

-- A state stays valid when the references of one entry and the count of its object change by the same number.
pub put_entry-IsValid :
    {World : Type 0} (ext : ℕ → ℕ) (cr3 handle : ℕ) (s : State World) (x : Option HandleEntry)
    (v : Option HandleEntry) (objects : Objects World)
    → Found cr3 handle s.tables x
    → IsValid ext s
    → ((e' : HandleEntry) → v ≡ some e' → 0 < e'.refs)
    → ((o : ℕ) → count objects o + entry_refs o x ≡ count s.objects o + entry_refs o v)
    → (Live s.objects → Live objects)
    → IsValid ext (record { tables = put_entry cr3 handle v s.tables; objects = objects })
put_entry-IsValid ext cr3 handle s x v objects f valid pos moved live = record {
  live = live valid.live;
  balanced =
      λ o. omega (arith, moved o, valid.balanced o, refs_to-put_entry cr3 handle o s.tables x v f);
  copies = λ other h e' at.
      elim (Bool-cases ((other == cr3) && (handle_to_index h == handle_to_index handle))) [
        | inl same ↦ pos e' (rw (entry_at-put_entry cr3 handle other h s.tables x v f, same) at at)
        | inr ne ↦
            valid.copies other h e'
              (rw (entry_at-put_entry cr3 handle other h s.tables x v f, ne) at at)
      ];
  sized = put_entry-Sized cr3 handle s.tables x v f valid.sized;
}
