-- ===== src/Ob/Handle/Counts/Creation.antt =====
-- kernel/src/ob/handle.rs: a new handle.
use nanokrnl.Base.{
  ℕ, zero, suc, ◌+◌, ◌^◌, ◌<◌, ◌≤◌, ◌≡◌, refl, Option, none, some, [], ◌∷◌, ◌==◌, ◌>>=◌, get_or,
  set, length, replicate, length-replicate, arith, Bool-cases, Option-cases, inl, inr, ◌⊎◌, ==_iff,
  sym, ◌∙◌,
}
use nanokrnl.Ob.Object.Counts.{count, ob_reference_object-Recounted}
use nanokrnl.Ob.Handle.{
  max_handles, no_entries, HandleEntry, Entries, Tables, State, index_to_handle, handle_to_index,
  entries_of, put_entries, claim, entry_at, put_entry, slot_in, slot_for, free_from, first_free,
  insert_at, create_slot, create_in,
}
use nanokrnl.Ob.Handle.Refs.{refs_to-claim}
use nanokrnl.Ob.Handle.Slots.{entries_of-claim, entries_of-claim_other}
use nanokrnl.Ob.Handle.Lookups.{Found, Found-entry_at, Found-put_entry, entry_at-put_entry}
use nanokrnl.Ob.Handle.Counts.{IsValid, Replaced, put_entry-IsValid}

-- An index that `free_from` finds is free.
free_from-free :
    (i j : ℕ) (es : Entries)
    → free_from i es ≡ some j
    → (k : ℕ) × (j ≡ i + k) × (k < length es) × (get_or es k none ≡ none)
unfolding free_from
free_from-free i j [] e = absurd (ground arith)
free_from-free i j (none ∷ es) e = (0, ground arith, omega arith, refl)
free_from-free i j (some x ∷ es) e =
    let (k, eq, lt, free) = free_from-free (i + 1) j es e in
    (suc k, ground (arith, eq), omega (arith, lt), free)

first_free-free :
    (j : ℕ) (es : Entries)
    → first_free es ≡ some j
    → (1 ≤ j) × (j < length es) × (get_or es j none ≡ none)
first_free-free j [] e = absurd (ground (arith, free_from-free 1 j [] e))
first_free-free j (x ∷ es) e =
    let (k, eq, lt, free) = free_from-free 1 j es e in
    let eq' : j ≡ suc k = omega (arith, eq) in rw eq' (omega arith, omega (arith, lt), free)

pub get_or-replicate : (n i : ℕ) → get_or {A = Option HandleEntry} (replicate n none) i none ≡ none
get_or-replicate zero i = refl
get_or-replicate (suc n) zero = refl
get_or-replicate (suc n) (suc i) = get_or-replicate n i

get_or-no_entries : (i : ℕ) → get_or no_entries i none ≡ none
unfolding no_entries
get_or-no_entries i = get_or-replicate max_handles i

length-no_entries : length no_entries ≡ max_handles
unfolding no_entries
length-no_entries = length-replicate {A = Option HandleEntry} max_handles none

-- Entries of other tables and of this one are as before when a table is made.
entry_at-claim :
    (cr3 other h : ℕ) (ts ts' : Tables)
    → entries_of cr3 ts ≡ none
    → claim cr3 ts ≡ some ts'
    → entry_at other h ts' ≡ entry_at other h ts
unfolding entry_at
entry_at-claim cr3 other h ts ts' fresh c = elim (Bool-cases (other == cr3)) [
  | inr ne ↦ rw (entries_of-claim_other cr3 other ts ts' ne c) refl
  | inl same ↦
      rw ((==_iff other cr3).0 same, fresh, entries_of-claim cr3 ts ts' fresh c)
        (ground (arith, get_or-no_entries (handle_to_index h)))
]

-- A table that the caller of a new handle finds or makes.
record HasTable {World : Type 0} (ext : ℕ → ℕ) (cr3 : ℕ) (s : State World) (ts : Tables)
    (es : Entries) : Type 0 where
  pub table : entries_of cr3 ts ≡ some es
  pub same : (other h : ℕ) → entry_at other h ts ≡ entry_at other h s.tables
  pub valid : IsValid ext (record s { tables = ts })

claim-HasTable :
    {World : Type 0} (ext : ℕ → ℕ) (cr3 : ℕ) (s : State World) (ts : Tables)
    → IsValid ext s
    → entries_of cr3 s.tables ≡ none
    → claim cr3 s.tables ≡ some ts
    → HasTable ext cr3 s ts no_entries
claim-HasTable ext cr3 s ts valid fresh c =
    let same : (other h : ℕ) → entry_at other h ts ≡ entry_at other h s.tables =
      λ other h. entry_at-claim cr3 other h s.tables ts fresh c in
    let table = entries_of-claim cr3 s.tables ts fresh c in
    record {
      table = table;
      same = same;
      valid = record {
        live = valid.live;
        balanced = λ o. omega (arith, valid.balanced o, refs_to-claim o cr3 s.tables ts c);
        copies = λ other h e at. valid.copies other h e (rw (same other h) at at);
        sized = λ other es at. elim (Bool-cases (other == cr3)) [
          | inr ne ↦
              valid.sized other es (rw (entries_of-claim_other cr3 other s.tables ts ne c) at at)
          | inl eq ↦
              let at' : some no_entries ≡ some es = rw ((==_iff other cr3).0 eq, table) at at in
              ground (arith, at', length-no_entries)
        ];
      };
    }

module _ {World : Type 0} where
  -- What `create_in` returns: 0 and the same handles, or a value that was free and now is open.
  abbrev Created : (cr3 object access : ℕ) → State World → State World × ℕ → Type 0
  Created cr3 object access s r =
      ((r.1 ≡ 0) × ((other h : ℕ) → entry_at other h r.0.tables ≡ entry_at other h s.tables))
      ⊎ ((0 < r.1)
          × (entry_at cr3 r.1 s.tables ≡ none)
          × Replaced cr3 r.1 (some (record { object = object; granted_access = access; refs = 1 }))
              s.tables r.0.tables)

  abbrev pub CreatedValid :
      (ext : ℕ → ℕ) (cr3 object access : ℕ) → State World → Option (State World × ℕ) → Type 0
  CreatedValid ext cr3 object access s call =
      (r : State World × ℕ) × (call ≡ some r) × IsValid ext r.0 × Created cr3 object access s r

  insert_at-IsValid :
      (ext : ℕ → ℕ) (cr3 object access : ℕ) (s : State World) (ts : Tables) (es : Entries)
      → HasTable ext cr3 s ts es
      → 0 < count s.objects object
      → ((o : ℕ) → count s.objects o < 2 ^ 31)
      → CreatedValid ext cr3 object access s
          (insert_at cr3 object access s (ts, es) (first_free es))
  unfolding insert_at
  insert_at-IsValid ext cr3 object access s ts es has pos small =
      elim (Option-cases (first_free es)) [
        | inl full ↦ rw full ((record s { tables = ts }, 0), refl, has.valid, inl (refl, has.same))
        | inr (i, at) ↦
            let (lo, lt, free) = first_free-free i es at in
            let len = has.valid.sized cr3 es has.table in
            let few = small object in
            let (objects, call, step) =
              ob_reference_object-Recounted object s.objects pos (ground (arith, few)) in
            let new : HandleEntry = record { object = object; granted_access = access; refs = 1 } in
            let back : handle_to_index (index_to_handle i) ≡ i = ground (arith, lt, len) in
            let f : Found cr3 (index_to_handle i) ts none = record {
              entries = es;
              table = has.table;
              in_use = rw back (ground (arith, lo, lt, len));
              entry = rw back free;
              index = rw back lt;
            } in
            let write : put_entry cr3 (index_to_handle i) (some new) ts
                ≡ put_entries cr3 (set es i (some new)) ts =
              Found-put_entry cr3 (index_to_handle i) ts none (some new) f ∙ rw back refl in
            rw (at, call, ◌>>=◌, sym write)
              (
                (
                  record {
                    tables = put_entry cr3 (index_to_handle i) (some new) ts;
                    objects = objects;
                  },
                  index_to_handle i,
                ),
                refl,
                put_entry-IsValid ext cr3 (index_to_handle i) (record s { tables = ts }) none
                    (some new) objects f has.valid (λ e' eq. ground (arith, eq))
                    (λ o. ground (arith, step.counts o)) step.live,
                inr (
                  ground (arith, lo, lt, len),
                  (sym (has.same cr3 (index_to_handle i))
                      ∙ Found-entry_at cr3 (index_to_handle i) ts none f),
                  λ other h.
                      rw (sym (has.same other h))
                        (entry_at-put_entry cr3 (index_to_handle i) other h ts none (some new) f),
                ),
              )
      ]

  -- When the object has a reference and no object counts 2 ^ 31, `create_in` (`ob_create_handle`,
  -- `ob_create_handle_in`) keeps a valid state valid and returns either 0, with every handle as it
  -- was, or a value above 0 that named nothing in the table of `cr3` and now names the object
  -- with the asked access, one copy, and no other entry of any table changed.
  pub create_in-IsValid :
      (ext : ℕ → ℕ) (cr3 object access : ℕ) (s : State World)
      → IsValid ext s
      → 0 < count s.objects object
      → ((o : ℕ) → count s.objects o < 2 ^ 31)
      → CreatedValid ext cr3 object access s (create_in cr3 object access s)
  unfolding create_in create_slot slot_for slot_in
  create_in-IsValid ext cr3 object access s valid pos small =
      elim (Option-cases (entries_of cr3 s.tables)) [
        | inr (es, t) ↦ rw t (
            insert_at-IsValid ext cr3 object access s s.tables es
              (record { table = t; same = λ other h. refl; valid = valid }) pos small)
        | inl fresh ↦ elim (Option-cases (claim cr3 s.tables)) [
          | inl full ↦ rw (fresh, full, ◌>>=◌) ((s, 0), refl, valid, inl (refl, λ other h. refl))
          | inr (ts, c) ↦
              rw (fresh, c, ◌>>=◌)
                (insert_at-IsValid ext cr3 object access s ts no_entries
                  (claim-HasTable ext cr3 s ts valid fresh c) pos small)
        ]
      ]
