-- ===== src/Mm/Vad/Spaces.antt =====
-- The list of address spaces as a map, and `vad_allocate` on it.
use nanokrnl.Base.{
  ℕ, ◌+◌, ◌*◌, ◌^◌, ◌≤◌, Bool, true, false, ◌≡◌, refl, inl, inr, Option, none, some, List, [], ◌∷◌,
  ◌==◌, if◌then◌else◌, arith, Bool-cases, ◌⊎◌, lt→ltb,
}
use mathlib.Core.Path.{subst₂}
use native.Mathlib.Decide.{dec_lt, ℕ_discrete}
use nanokrnl.Mm.Phys.{page_size}
use nanokrnl.Mm.Vad.{
  Vad, Spaces, find_space, put_space, or_empty, checked, store_allocation, vad_allocate,
}
use nanokrnl.Mm.Vad.Ranges.{IsValid}
use nanokrnl.Mm.Vad.Allocate.{Allocates, Allocated, Occupied, allocate_in-Allocates}

-- The ranges of address space `pml4`; one that has no entry has no range.
abbrev pub ranges : ℕ → Spaces → List Vad
ranges pml4 spaces = or_empty (find_space pml4 spaces)

abbrev pub AllValid : Spaces → Type 0
AllValid [] = Unit {0}
AllValid (s ∷ ss) = IsValid s.vads × AllValid ss

pub ranges-put_space :
    (p q : ℕ) (vads : List Vad) (ss : Spaces)
    → ranges q (put_space p vads ss) ≡ (if p == q then vads else ranges q ss)
unfolding find_space put_space
ranges-put_space p q vads [] = ground arith
ranges-put_space p q vads (s ∷ ss) = ground (arith, ranges-put_space p q vads ss)

pub AllValid-put_space :
    (p : ℕ) (vads : List Vad) (ss : Spaces)
    → AllValid ss
    → IsValid vads
    → AllValid (put_space p vads ss)
unfolding put_space
AllValid-put_space p vads [] a v = (v, tt)
AllValid-put_space p vads (s ∷ ss) a v = elim (Bool-cases (s.pml4 == p)) [
  | inl here ↦ rw here (v, a.1)
  | inr later ↦ rw later (a.0, AllValid-put_space p vads ss a.1 v)
]

pub IsValid-ranges : (p : ℕ) (ss : Spaces) → AllValid ss → IsValid (ranges p ss)
unfolding find_space
IsValid-ranges p [] a = tt
IsValid-ranges p (s ∷ ss) a = elim (Bool-cases (s.pml4 == p)) [
  | inl here ↦ rw here a.0
  | inr later ↦ rw later (IsValid-ranges p ss a.1)
]

-- No range of any address space has changed.
abbrev pub Unchanged : Spaces → Spaces → Type 0
Unchanged ss ss' = (q : ℕ) → ranges q ss' ≡ ranges q ss

-- The ranges of `pml4` are now `vads`, and no other address space has changed.
abbrev pub Only : ℕ → List Vad → Spaces → Spaces → Type 0
Only pml4 vads ss ss' = (q : ℕ) → ranges q ss' ≡ (if pml4 == q then vads else ranges q ss)

-- Why an allocation may fail.
abbrev pub Refused : List Vad → (pages : ℕ) → Type 0
Refused vs pages =
    (pages ≡ 0)
    ⊎ (2 ^ 64 ≤ pages * page_size)
    ⊎ ((start : ℕ)
        → 0x0000_7000_0000_0000 ≤ start
        → start + pages * page_size ≤ 0x0000_7fff_0000_0000
        → Occupied vs start (pages * page_size))

abbrev pub Commits :
    (pml4 pages : ℕ) (writable executable : Bool) → Spaces → Spaces × Option ℕ → Type 0
Commits pml4 pages writable executable ss (ss', none) =
    Unchanged ss ss' × AllValid ss' × Refused (ranges pml4 ss) pages
Commits pml4 pages writable executable ss (ss', some base) =
    (vs' : List Vad) × Allocated (ranges pml4 ss) (pages * page_size) (writable, executable) vs'
      base
    × Only pml4 vs' ss ss'
    × AllValid ss'

module _ (pml4 pages : ℕ) (writable executable : Bool) (ss : Spaces) (a : AllValid ss) where
  store_allocation-Commits :
      (r : Option (List Vad × ℕ))
      → Allocates (ranges pml4 ss) (pages * page_size) (writable, executable) r
      → Commits pml4 pages writable executable ss (store_allocation pml4 ss (ranges pml4 ss) r)
  unfolding store_allocation
  store_allocation-Commits none (inl (_, full)) = (
    λ q. ground (arith, ranges-put_space pml4 q (ranges pml4 ss) ss),
    AllValid-put_space pml4 _ ss a (IsValid-ranges pml4 ss a),
    inr (inr full),
  )
  store_allocation-Commits none (inr (_, _, e, _)) = cc
  store_allocation-Commits (some (vs, base)) (inl (e, _)) = cc
  store_allocation-Commits (some (vs, base)) (inr (vs', base', e, done)) =
      let same_vs : vs' ≡ vs = cc in
      let same_base : base' ≡ base = cc in
      let done' =
        subst₂ (Allocated (ranges pml4 ss) (pages * page_size) (writable, executable)) same_vs
          same_base done in
      (vs, done', λ q. ranges-put_space pml4 q vs ss, AllValid-put_space pml4 vs ss a done'.4)

  -- `vad_allocate` on valid address spaces fails only for zero pages, a length that overflows, or
  -- lack of a gap in the arena, and then no range changes. Otherwise it commits the first vacant
  -- range of `pml4` with the protection asked for, at no cost to any other address of that or of
  -- another address space. The address spaces are valid again.
  pub vad_allocate-Commits :
      Commits pml4 pages writable executable ss (vad_allocate pml4 pages writable executable ss)
  unfolding vad_allocate
  vad_allocate-Commits = elim (dec_lt (pages * page_size) (2 ^ 64)) [
    | no over ↦
        let e : checked (pages * page_size) ≡ none = ground arith in
        rw e (λ q. refl, a, inr (inl (omega arith)))
    | yes fits ↦ elim (ℕ_discrete pages 0) [
      | yes none_asked ↦
          let e : (pages * page_size == 0) ≡ true = ground arith in
          rw (lt→ltb _ _ fits, e) (λ q. refl, a, inl none_asked)
      | no some_asked ↦
          let e : (pages * page_size == 0) ≡ false = ground arith in
          rw (lt→ltb _ _ fits, e)
            (store_allocation-Commits _ (
              allocate_in-Allocates (ranges pml4 ss) (pages * page_size) writable executable
                (IsValid-ranges pml4 ss a) (omega arith) fits (omega arith)))
    ]
  ]
