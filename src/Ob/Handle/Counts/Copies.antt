-- ===== src/Ob/Handle/Counts/Copies.antt =====
-- kernel/src/ob/handle.rs: copies of a handle, made and closed.
use nanokrnl.Base.{
  ℕ, ◌+◌, ◌%◌, ◌^◌, ◌<◌, ◌≤◌, ◌≡◌, refl, Option, none, some, ◌==◌, if◌then◌else◌, ◌>>=◌, arith,
  Option-cases, inl, inr,
}
use nanokrnl.Ob.Object.{Status, success, invalid_handle}
use nanokrnl.Ob.Object.Counts.{
  count, ob_reference_object-Recounted, ob_dereference_object-Recounted,
}
use nanokrnl.Ob.Handle.{
  HandleEntry, State, entry_at, put_entry, duplicate_entry, duplicate_handle, one_less, close_entry,
  ob_close_handle,
}
use nanokrnl.Ob.Handle.Refs.{entry_refs}
use nanokrnl.Ob.Handle.Lookups.{Found, entry_at-Found, entry_at-put_entry, refs_to-Found}
use nanokrnl.Ob.Handle.Counts.{IsValid, Replaced, put_entry-IsValid}

one_less_refs :
    (e : HandleEntry) (o : ℕ)
    → 0 < e.refs
    → entry_refs o (one_less e) + (if e.object == o then 1 else 0) ≡ entry_refs o (some e)
one_less_refs e o pos = ground arith

module _ {World : Type 0} where
  -- What `duplicate_handle` returns, by the entry that it finds.
  abbrev pub Duplicated :
      (cr3 handle : ℕ) → State World → Option HandleEntry → State World × ℕ → Type 0
  Duplicated cr3 handle s none r = (r.0 ≡ s) × (r.1 ≡ 0)
  Duplicated cr3 handle s (some e) r =
      (r.1 ≡ handle)
      × Replaced cr3 handle (some (record e { refs = e.refs + 1 })) s.tables r.0.tables

  -- The same for `ob_close_handle`.
  abbrev pub Closed :
      (cr3 handle : ℕ) → State World → Option HandleEntry → State World × Status → Type 0
  Closed cr3 handle s none r = (r.0 ≡ s) × (r.1 ≡ invalid_handle)
  Closed cr3 handle s (some e) r =
      (r.1 ≡ success) × Replaced cr3 handle (one_less e) s.tables r.0.tables

  -- An entry's copies are at most what its object counts.
  refs_le :
      (ext : ℕ → ℕ) (cr3 handle : ℕ) (s : State World) (e : HandleEntry)
      → IsValid ext s
      → Found cr3 handle s.tables (some e)
      → e.refs ≤ count s.objects e.object
  refs_le ext cr3 handle s e valid f =
      ground (arith, valid.balanced e.object, refs_to-Found cr3 handle e.object s.tables (some e) f)

  -- `duplicate_handle` keeps a valid state valid when no object counts 2 ^ 31 references. An open
  -- handle gains a copy under the same value and no other entry of any table changes. Any other
  -- value returns 0 and changes nothing.
  pub duplicate_handle-IsValid :
      (ext : ℕ → ℕ) (cr3 handle : ℕ) (s : State World)
      → IsValid ext s
      → ((o : ℕ) → count s.objects o < 2 ^ 31)
      → (r : State World × ℕ) × (duplicate_handle cr3 handle s ≡ some r)
        × IsValid ext r.0
        × Duplicated cr3 handle s (entry_at cr3 handle s.tables) r
  unfolding duplicate_handle duplicate_entry
  duplicate_handle-IsValid ext cr3 handle s valid small =
      elim (Option-cases (entry_at cr3 handle s.tables)) [
        | inl shut ↦ rw shut ((s, 0), refl, valid, (refl, refl))
        | inr (e, at) ↦
            let f = entry_at-Found cr3 handle s.tables e at in
            let le = refs_le ext cr3 handle s e valid f in
            let pos = valid.copies cr3 handle e at in
            let few = small e.object in
            let (objects, call, step) =
              ob_reference_object-Recounted e.object s.objects (omega (arith, le, pos))
                (ground (arith, few)) in
            let more = record e { refs = e.refs + 1 } in
            let room : (e.refs + 1) % 2 ^ 32 ≡ e.refs + 1 = ground (arith, few, le) in
            rw (at, call, ◌>>=◌, room)
              (
                (
                  record { tables = put_entry cr3 handle (some more) s.tables; objects = objects },
                  handle,
                ),
                refl,
                put_entry-IsValid ext cr3 handle s (some e) (some more) objects f valid
                    (λ e' eq. ground (arith, eq)) (λ o. ground (arith, step.counts o)) step.live,
                (
                  refl,
                  λ other h. entry_at-put_entry cr3 handle other h s.tables (some e) (some more) f,
                ),
              )
      ]

  -- `ob_close_handle` keeps a valid state valid when no object counts 2 ^ 31 references. It takes
  -- one copy from an open handle, which goes with its last copy, and no other entry of any table
  -- changes. Any other value returns STATUS_INVALID_HANDLE and changes nothing.
  pub ob_close_handle-IsValid :
      (ext : ℕ → ℕ) (cr3 handle : ℕ) (s : State World)
      → IsValid ext s
      → ((o : ℕ) → count s.objects o < 2 ^ 31)
      → (r : State World × Status) × (ob_close_handle cr3 handle s ≡ some r)
        × IsValid ext r.0
        × Closed cr3 handle s (entry_at cr3 handle s.tables) r
  unfolding ob_close_handle close_entry
  ob_close_handle-IsValid ext cr3 handle s valid small =
      elim (Option-cases (entry_at cr3 handle s.tables)) [
        | inl shut ↦ rw shut ((s, invalid_handle), refl, valid, (refl, refl))
        | inr (e, at) ↦
            let f = entry_at-Found cr3 handle s.tables e at in
            let le = refs_le ext cr3 handle s e valid f in
            let pos = valid.copies cr3 handle e at in
            let few = small e.object in
            let (objects, call, step) =
              ob_dereference_object-Recounted e.object s.objects (omega (arith, le, pos))
                (ground (arith, few)) in
            rw (at, call, ◌>>=◌)
              (
                (
                  record { tables = put_entry cr3 handle (one_less e) s.tables; objects = objects },
                  success,
                ),
                refl,
                put_entry-IsValid ext cr3 handle s (some e) (one_less e) objects f valid
                    (λ e' eq. ground (arith, eq))
                    (λ o. ground (arith, step.counts o, one_less_refs e o pos)) step.live,
                (
                  refl,
                  λ other h. entry_at-put_entry cr3 handle other h s.tables (some e) (one_less e) f,
                ),
              )
      ]
