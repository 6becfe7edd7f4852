-- ===== src/Ob/Handle/Counts/Free.antt =====
-- kernel/src/ob/handle.rs: the end of a handle table.
use nanokrnl.Base.{
  ℕ, suc, ◌+◌, ◌^◌, ◌<◌, ◌≤◌, ◌≡◌, refl, sym, false, Option, none, some, List, [], ◌∷◌, ◌==◌,
  if◌then◌else◌, ◌>>=◌, get_or, length, arith, Option-cases, inl, inr,
}
use nanokrnl.Ob.Object.{Objects}
use nanokrnl.Ob.Object.Counts.{count, ob_dereference_object-Recounted}
use nanokrnl.Ob.Handle.{
  max_handles, HandleEntry, Entries, State, index_to_handle, handle_to_index, entries_of, tail_of,
  objects_of, dereference_all, release_slot, free_entries, ob_free_table,
}
use nanokrnl.Ob.Handle.Refs.{refs_in, refs_in-tail_of, refs_to-entries_of}
use nanokrnl.Ob.Handle.Lookups.{Found, get_or-lt, Found-entry_at}
use nanokrnl.Ob.Handle.Counts.{IsValid}

-- How often `o` stands in a list.
occurrences : ℕ → List ℕ → ℕ
occurrences o [] = 0
occurrences o (x ∷ xs) = (if x == o then 1 else 0) + occurrences o xs

-- Whether the handle value of an entry is open and names `o`.
names : ℕ → Option HandleEntry → ℕ
names o none = 0
names o (some e) = if e.object == o then 1 else 0

names_in : ℕ → Entries → ℕ
unfolding names
names_in o [] = 0
names_in o (e ∷ es) = names o e + names_in o es

-- The open handle values of a table that name `o`, whatever their copies. The entry of index 0 has no
-- handle value.
pub values_of : ℕ → Option Entries → ℕ
unfolding names_in
values_of o none = 0
values_of o (some []) = 0
values_of o (some (e ∷ es)) = names_in o es

occurrences-objects_of : (o : ℕ) (es : Entries) → occurrences o (objects_of es) ≡ names_in o es
unfolding occurrences objects_of names_in
occurrences-objects_of o [] = refl
occurrences-objects_of o (none ∷ es) = omega (arith, occurrences-objects_of o es)
occurrences-objects_of o (some e ∷ es) = omega (arith, occurrences-objects_of o es)

values_of-objects_of :
    (o : ℕ) (es : Entries) → values_of o (some es) ≡ occurrences o (objects_of (tail_of es))
unfolding values_of occurrences objects_of
values_of-objects_of o [] = refl
values_of-objects_of o (e ∷ es) = sym (occurrences-objects_of o es)

occurrences_le :
    (o : ℕ) (es : Entries)
    → ((i : ℕ) (e : HandleEntry) → get_or es i none ≡ some e → 0 < e.refs)
    → occurrences o (objects_of es) ≤ refs_in o es
unfolding occurrences objects_of refs_in
occurrences_le o [] pos = omega arith
occurrences_le o (none ∷ es) pos = omega (arith, occurrences_le o es (λ i. pos (suc i)))
occurrences_le o (some e ∷ es) pos =
    ground (arith, occurrences_le o es (λ i. pos (suc i)), pos 0 e refl)

module _ {World : Type 0} where
  dereference_all-counts :
      (os : List ℕ) (s : Objects World)
      → ((o : ℕ) → occurrences o os ≤ count s o)
      → ((o : ℕ) → count s o < 2 ^ 63)
      → (s' : Objects World) × (dereference_all os s ≡ some s')
        × ((o : ℕ) → count s' o + occurrences o os ≡ count s o)
  unfolding dereference_all occurrences
  dereference_all-counts [] s enough small = (s, refl, λ o. omega arith)
  dereference_all-counts (x ∷ os) s enough small =
      let (s1, call, step) =
        ob_dereference_object-Recounted x s (ground (arith, enough x)) (small x) in
      let (s2, rest, counts) =
        dereference_all-counts os s1 (λ o. ground (arith, step.counts o, enough o))
          (λ o. ground (arith, step.counts o, small o, small x)) in
      rw (call, ◌>>=◌, rest) (s2, refl, λ o. ground (arith, step.counts o, counts o, enough o))

  copies_at :
      (ext : ℕ → ℕ) (cr3 : ℕ) (s : State World) (es : Entries)
      → IsValid ext s
      → entries_of cr3 s.tables ≡ some es
      → (i : ℕ) (e : HandleEntry) → get_or (tail_of es) i none ≡ some e
      → 0 < e.refs
  copies_at ext cr3 s [] valid t i e at = absurd (ground arith)
  copies_at ext cr3 s (x ∷ es) valid t i e at =
      let lt = get_or-lt es i e at in
      let len : suc (length es) ≡ max_handles = valid.sized cr3 (x ∷ es) t in
      let back : handle_to_index (index_to_handle (suc i)) ≡ suc i = ground (arith, lt, len) in
      let f : Found cr3 (index_to_handle (suc i)) s.tables (some e) = record {
        entries = x ∷ es;
        table = t;
        in_use = rw back (ground (arith, lt, len));
        entry = rw back at;
        index = rw back (omega (arith, lt));
      } in
      valid.copies cr3 (index_to_handle (suc i)) e
        (Found-entry_at cr3 (index_to_handle (suc i)) s.tables (some e) f)

  -- In a valid state where no object counts 2 ^ 31 references, `ob_free_table` of a process table
  -- succeeds, and the count of each object falls by the number of open handle values of that table
  -- that name it. A value with several copies counts once.
  pub ob_free_table-counts :
      (ext : ℕ → ℕ) (cr3 : ℕ) (s : State World)
      → IsValid ext s
      → ((o : ℕ) → count s.objects o < 2 ^ 31)
      → (cr3 == 0) ≡ false
      → (s' : State World) × (ob_free_table cr3 s ≡ some s')
        × ((o : ℕ) → count s'.objects o + values_of o (entries_of cr3 s.tables) ≡ count s.objects o)
  unfolding ob_free_table free_entries values_of
  ob_free_table-counts ext cr3 s valid small process =
      elim (Option-cases (entries_of cr3 s.tables)) [
        | inl gone ↦ rw (process, gone) (s, refl, λ o. omega arith)
        | inr (es, t) ↦
            let (objects, call, counts) =
              dereference_all-counts (objects_of (tail_of es)) s.objects
                (λ o. omega (
                  arith,
                  occurrences_le o (tail_of es) (copies_at ext cr3 s es valid t),
                  refs_in-tail_of o es,
                  refs_to-entries_of o cr3 es s.tables t,
                  valid.balanced o,
                ))
                (λ o. ground (arith, small o)) in
            rw (process, t, call, ◌>>=◌)
              (
                record { tables = release_slot cr3 s.tables; objects = objects },
                refl,
                λ o. omega (arith, counts o, values_of-objects_of o es),
              )
      ]
