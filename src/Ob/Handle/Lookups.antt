-- ===== src/Ob/Handle/Lookups.antt =====
-- kernel/src/ob/handle.rs: what a handle names after a write of an entry, and how many references
-- the handles then hold.
use nanokrnl.Base.{
  ℕ, zero, suc, ◌+◌, ◌<◌, ◌≤◌, ◌≡◌, refl, true, ◌&&◌, Option, none, some, [], ◌∷◌, ◌==◌,
  if◌then◌else◌, get_or, set, length, arith, Bool-cases, Option-cases, inl, inr, ==_iff,
  get_or-set_self, get_or-set_ne,
}
use nanokrnl.Ob.Handle.{
  HandleEntry, Entries, Tables, handle_to_index, entries_of, put_entries, usable, entry_at,
  put_entry,
}
use nanokrnl.Ob.Handle.Slots.{entries_of-put_entries, entries_of-put_entries_other}
use nanokrnl.Ob.Handle.Refs.{
  entry_refs, refs_to, refs_in-set, refs_in-get, refs_to-entries_of, refs_to-put_entries,
}

-- `x` is what stands at a usable index of the table of `cr3`.
pub record Found (cr3 handle : ℕ) (ts : Tables) (x : Option HandleEntry) : Type 0 where
  pub entries : Entries
  pub table : entries_of cr3 ts ≡ some entries
  pub in_use : usable (handle_to_index handle) ≡ true
  pub entry : get_or entries (handle_to_index handle) none ≡ x
  pub index : handle_to_index handle < length entries

pub get_or-lt : (es : Entries) (i : ℕ) (e : HandleEntry) → get_or es i none ≡ some e → i < length es
get_or-lt [] i e found = ground arith
get_or-lt (x ∷ es) zero e found = omega arith
get_or-lt (x ∷ es) (suc i) e found = omega (arith, get_or-lt es i e found)

pub entry_at-Found :
    (cr3 handle : ℕ) (ts : Tables) (e : HandleEntry)
    → entry_at cr3 handle ts ≡ some e
    → Found cr3 handle ts (some e)
unfolding entry_at
entry_at-Found cr3 handle ts e found = elim (Bool-cases (usable (handle_to_index handle))) [
  | inr bad ↦ absurd (ground arith)
  | inl good ↦ elim (Option-cases (entries_of cr3 ts)) [
    | inl gone ↦ absurd (ground arith)
    | inr (es, t) ↦
        let entry : get_or es (handle_to_index handle) none ≡ some e = rw (good, t) at found in
        record {
          entries = es;
          table = t;
          in_use = good;
          entry = entry;
          index = get_or-lt es (handle_to_index handle) e entry;
        }
  ]
]

pub Found-entry_at :
    (cr3 handle : ℕ) (ts : Tables) (x : Option HandleEntry)
    → Found cr3 handle ts x
    → entry_at cr3 handle ts ≡ x
unfolding entry_at
Found-entry_at cr3 handle ts x f = rw (f.in_use, f.table) f.entry

pub Found-put_entry :
    (cr3 handle : ℕ) (ts : Tables) (x v : Option HandleEntry)
    → (f : Found cr3 handle ts x)
    → put_entry cr3 handle v ts ≡ put_entries cr3 (set f.entries (handle_to_index handle) v) ts
unfolding put_entry
Found-put_entry cr3 handle ts x v f = rw f.table refl

-- A write changes the handle that it names, in its table, and no other.
pub entry_at-put_entry :
    (cr3 handle other h : ℕ) (ts : Tables) (x : Option HandleEntry) (v : Option HandleEntry)
    → Found cr3 handle ts x
    → entry_at other h (put_entry cr3 handle v ts) ≡ (
        if (other == cr3) && (handle_to_index h == handle_to_index handle)
        then v
        else entry_at other h ts)
unfolding entry_at put_entry
entry_at-put_entry cr3 handle other h ts x v f = rw f.table (elim (Bool-cases (other == cr3)) [
  | inr ne ↦
      rw
        (
          entries_of-put_entries_other cr3 other (set f.entries (handle_to_index handle) v) ts ne,
          ne,
        )
        refl
  | inl same ↦
      rw
        (
          same,
          (==_iff other cr3).0 same,
          entries_of-put_entries cr3 f.entries (set f.entries (handle_to_index handle) v) ts
              f.table,
          f.table,
        )
        (elim (Bool-cases (handle_to_index h == handle_to_index handle)) [
          | inr ne ↦
              rw
                (
                  ne,
                  get_or-set_ne f.entries (handle_to_index handle) (handle_to_index h) v none
                      (λ e. ground (arith, e)),
                )
                refl
          | inl eq ↦
              rw
                (
                  eq,
                  (==_iff (handle_to_index h) (handle_to_index handle)).0 eq,
                  f.in_use,
                  get_or-set_self f.entries (handle_to_index handle) v none f.index,
                )
                refl
        ])
])

pub refs_to-put_entry :
    (cr3 handle o : ℕ) (ts : Tables) (x : Option HandleEntry) (v : Option HandleEntry)
    → Found cr3 handle ts x
    → refs_to o (put_entry cr3 handle v ts) + entry_refs o x ≡ refs_to o ts + entry_refs o v
unfolding put_entry
refs_to-put_entry cr3 handle o ts x v f = rw f.table (
    let a = refs_in-set o f.entries (handle_to_index handle) v f.index in
    let b =
      refs_to-put_entries o cr3 f.entries (set f.entries (handle_to_index handle) v) ts f.table in
    let c : entry_refs o (get_or f.entries (handle_to_index handle) none) ≡ entry_refs o x =
      rw f.entry refl in
    omega (arith, a, b, c))

pub refs_to-Found :
    (cr3 handle o : ℕ) (ts : Tables) (x : Option HandleEntry)
    → Found cr3 handle ts x
    → entry_refs o x ≤ refs_to o ts
refs_to-Found cr3 handle o ts x f =
    let a = refs_in-get o f.entries (handle_to_index handle) in
    let b = refs_to-entries_of o cr3 f.entries ts f.table in
    let c : entry_refs o (get_or f.entries (handle_to_index handle) none) ≡ entry_refs o x =
      rw f.entry refl in
    omega (arith, a, b, c)
