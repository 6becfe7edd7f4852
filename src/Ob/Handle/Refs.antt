-- ===== src/Ob/Handle/Refs.antt =====
-- kernel/src/ob/handle.rs: how many references the open handles hold on an object.
use nanokrnl.Base.{
  ℕ, zero, suc, ◌+◌, ◌<◌, ◌≤◌, ◌≡◌, refl, Option, none, some, [], ◌∷◌, ◌==◌, if◌then◌else◌, get_or,
  set, replicate, length, arith, Bool-cases, Option-cases, inl, inr,
}
use nanokrnl.Ob.Handle.{
  max_handles, no_entries, HandleEntry, Entries, TableSlot, Tables, entries_of, put_entries, claim,
  tail_of,
}

-- The references that an entry holds on `o`.
abbrev pub entry_refs : ℕ → Option HandleEntry → ℕ
entry_refs o none = 0
entry_refs o (some e) = if e.object == o then e.refs else 0

unfoldable pub refs_in : ℕ → Entries → ℕ
refs_in o [] = 0
refs_in o (e ∷ es) = entry_refs o e + refs_in o es

abbrev pub slot_refs : ℕ → TableSlot → ℕ
slot_refs o s = if s.in_use then refs_in o s.entries else 0

unfoldable pub refs_to : ℕ → Tables → ℕ
unfolding refs_in
refs_to o [] = 0
refs_to o (s ∷ ss) = slot_refs o s + refs_to o ss

pub refs_in-tail_of : (o : ℕ) (es : Entries) → refs_in o (tail_of es) ≤ refs_in o es
unfolding refs_in
refs_in-tail_of o [] = omega arith
refs_in-tail_of o (e ∷ es) = omega arith

pub refs_in-set :
    (o : ℕ) (es : Entries) (i : ℕ) (v : Option HandleEntry)
    → i < length es
    → refs_in o (set es i v) + entry_refs o (get_or es i none) ≡ refs_in o es + entry_refs o v
unfolding refs_in
refs_in-set o [] i v lt = ground arith
refs_in-set o (e ∷ es) zero v lt = omega arith
refs_in-set o (e ∷ es) (suc i) v lt = omega (arith, refs_in-set o es i v (omega arith))

pub refs_in-replicate : (o n : ℕ) → refs_in o (replicate n none) ≡ 0
unfolding refs_in
refs_in-replicate o zero = refl
refs_in-replicate o (suc n) = omega (arith, refs_in-replicate o n)

refs_in-no_entries : (o : ℕ) → refs_in o no_entries ≡ 0
unfolding no_entries
refs_in-no_entries o = refs_in-replicate o max_handles

pub refs_in-get : (o : ℕ) (es : Entries) (i : ℕ) → entry_refs o (get_or es i none) ≤ refs_in o es
unfolding refs_in
refs_in-get o [] i = ground arith
refs_in-get o (e ∷ es) zero = omega arith
refs_in-get o (e ∷ es) (suc i) = omega (arith, refs_in-get o es i)

pub refs_to-entries_of :
    (o cr3 : ℕ) (es : Entries) (ts : Tables)
    → entries_of cr3 ts ≡ some es
    → refs_in o es ≤ refs_to o ts
unfolding refs_to entries_of
refs_to-entries_of o cr3 es [] e = ground arith
refs_to-entries_of o cr3 es (s ∷ ss) e = ground (arith, refs_to-entries_of o cr3 es ss)

pub refs_to-put_entries :
    (o cr3 : ℕ) (es es' : Entries) (ts : Tables)
    → entries_of cr3 ts ≡ some es
    → refs_to o (put_entries cr3 es' ts) + refs_in o es ≡ refs_to o ts + refs_in o es'
unfolding refs_to entries_of put_entries
refs_to-put_entries o cr3 es es' [] e = ground arith
refs_to-put_entries o cr3 es es' (s ∷ ss) e = ground (arith, refs_to-put_entries o cr3 es es' ss)

pub refs_to-claim :
    (o cr3 : ℕ) (ts ts' : Tables) → claim cr3 ts ≡ some ts' → refs_to o ts' ≡ refs_to o ts
unfolding refs_to claim
refs_to-claim o cr3 [] ts' e = ground arith
refs_to-claim o cr3 (s ∷ ss) ts' e = elim (Bool-cases s.in_use) [
  | inl busy ↦ elim (Option-cases (claim cr3 ss)) [
    | inl full ↦ ground arith
    | inr (ss', c) ↦ ground (arith, refs_to-claim o cr3 ss ss')
  ]
  | inr idle ↦ ground (arith, refs_in-no_entries o)
]
