-- ===== src/Ob/Handle/Slots.antt =====
-- kernel/src/ob/handle.rs: reads after writes of the handle tables.
use nanokrnl.Base.{
  ℕ, ◌≡◌, refl, false, none, some, [], ◌∷◌, ◌==◌, arith, Bool-cases, Option-cases, inl, inr,
}
use nanokrnl.Ob.Handle.{no_entries, Entries, Tables, entries_of, put_entries, claim}

pub entries_of-put_entries :
    (cr3 : ℕ) (es es' : Entries) (ts : Tables)
    → entries_of cr3 ts ≡ some es
    → entries_of cr3 (put_entries cr3 es' ts) ≡ some es'
unfolding entries_of put_entries
entries_of-put_entries cr3 es es' [] e = ground arith
entries_of-put_entries cr3 es es' (s ∷ ss) e = ground (arith, entries_of-put_entries cr3 es es' ss)

pub entries_of-put_entries_other :
    (cr3 other : ℕ) (es : Entries) (ts : Tables)
    → (other == cr3) ≡ false
    → entries_of other (put_entries cr3 es ts) ≡ entries_of other ts
unfolding entries_of put_entries
entries_of-put_entries_other cr3 other es [] ne = refl
entries_of-put_entries_other cr3 other es (s ∷ ss) ne =
    ground (arith, entries_of-put_entries_other cr3 other es ss ne)

pub entries_of-claim :
    (cr3 : ℕ) (ts ts' : Tables)
    → entries_of cr3 ts ≡ none
    → claim cr3 ts ≡ some ts'
    → entries_of cr3 ts' ≡ some (no_entries)
unfolding entries_of claim
entries_of-claim cr3 [] ts' fresh e = ground arith
entries_of-claim cr3 (s ∷ ss) ts' fresh e = elim (Bool-cases s.in_use) [
  | inl busy ↦ elim (Option-cases (claim cr3 ss)) [
    | inl full ↦ ground arith
    | inr (ss', c) ↦ ground (arith, entries_of-claim cr3 ss ss')
  ]
  | inr idle ↦ ground arith
]

pub entries_of-claim_other :
    (cr3 other : ℕ) (ts ts' : Tables)
    → (other == cr3) ≡ false
    → claim cr3 ts ≡ some ts'
    → entries_of other ts' ≡ entries_of other ts
unfolding entries_of claim
entries_of-claim_other cr3 other [] ts' ne e = ground arith
entries_of-claim_other cr3 other (s ∷ ss) ts' ne e = elim (Bool-cases s.in_use) [
  | inl busy ↦ elim (Option-cases (claim cr3 ss)) [
    | inl full ↦ ground arith
    | inr (ss', c) ↦ ground (arith, entries_of-claim_other cr3 other ss ss' ne)
  ]
  | inr idle ↦ ground arith
]
