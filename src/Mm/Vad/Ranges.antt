-- ===== src/Mm/Vad/Ranges.antt =====
-- The ranges of an address space as a map from addresses to protections, and the invariant: the
-- ranges are sorted, disjoint, not empty, made of whole pages, and lie in the arena.
use nanokrnl.Base.{
  ℕ, ◌%◌, ◌≤◌, ◌<◌, Bool, true, false, ◌&&◌, ◌≡◌, refl, Option, none, some, List, [], ◌∷◌, leb, ltb,
  if◌then◌else◌, arith,
}
use nanokrnl.Mm.Phys.{page_size}
use nanokrnl.Mm.Vad.{Vad, user_vad_base, user_vad_limit}

abbrev pub holds : Vad → ℕ → Bool
holds v a = leb v.start a && ltb a v.end

abbrev pub Protection : Type 0
Protection = Bool × Bool

abbrev pub protection : Vad → Protection
protection v = (v.writable, v.executable)

-- The protection of address `a`, if it is committed.
abbrev pub perm_at : List Vad → ℕ → Option Protection
perm_at [] a = none
perm_at (v ∷ vs) a = if holds v a then some (protection v) else perm_at vs a

abbrev pub committed : List Vad → ℕ → Bool
committed [] a = false
committed (v ∷ vs) a = if holds v a then true else committed vs a

-- The ranges lie behind `from` in order, and inside the arena.
abbrev pub Sorted : ℕ → List Vad → Type 0
Sorted from [] = Unit {0}
Sorted from (v ∷ vs) =
    (from ≤ v.start)
    × (v.start < v.end)
    × (v.end ≤ user_vad_limit)
    × (v.start % page_size ≡ 0)
    × (v.end % page_size ≡ 0)
    × Sorted v.end vs

abbrev pub IsValid : List Vad → Type 0
IsValid = Sorted user_vad_base

pub Sorted-mono : (vs : List Vad) {from from' : ℕ} → from' ≤ from → Sorted from vs → Sorted from' vs
Sorted-mono [] h s = tt
Sorted-mono (v ∷ vs) h s = (omega arith, s.1, s.2, s.3, s.4, s.5)

-- Nothing is committed below the first range.
pub perm_at-below : (vs : List Vad) (from a : ℕ) → Sorted from vs → a < from → perm_at vs a ≡ none
perm_at-below [] from a s h = refl
perm_at-below (v ∷ vs) from a s h = ground (arith, perm_at-below vs v.end a s.5)

pub committed-below :
    (vs : List Vad) (from a : ℕ) → Sorted from vs → a < from → committed vs a ≡ false
committed-below [] from a s h = refl
committed-below (v ∷ vs) from a s h = ground (arith, committed-below vs v.end a s.5)

-- An address is committed exactly when it has a protection.
pub committed-perm_at :
    (vs : List Vad) (a : ℕ) → committed vs a ≡ elim (perm_at vs a) [ none ↦ false | some p ↦ true ]
committed-perm_at [] a = refl
committed-perm_at (v ∷ vs) a = ground (arith, committed-perm_at vs a)
