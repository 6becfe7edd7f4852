-- ===== src/Mm/Vad/Allocate.antt =====
-- `vad_allocate`: first fit finds a gap whenever the arena has one, and commits exactly that.
use native.Mathlib.Decide.{dec_lt}
use nanokrnl.Base.{
  ℕ, ◌+◌, ◌-◌, ◌%◌, ◌^◌, ◌≤◌, ◌<◌, max, Bool, true, false, ◌&&◌, ◌≡◌, refl, inl, inr, Option, none,
  some, List, [], ◌∷◌, leb, ltb, if◌then◌else◌, arith, Bool-cases, ◌⊎◌,
}
use nanokrnl.Mm.Phys.{page_size}
use nanokrnl.Mm.Vad.{Vad, user_vad_base, user_vad_limit, first_fit, insert_sorted, allocate_in}
use nanokrnl.Mm.Vad.Ranges.{holds, Protection, perm_at, committed, Sorted, IsValid, committed-below}

-- Nothing is committed in `[start, start + len)`.
abbrev pub Vacant : List Vad → (start len : ℕ) → Type 0
Vacant vs start len = (a : ℕ) → start ≤ a → a < start + len → committed vs a ≡ false

abbrev pub Occupied : List Vad → (start len : ℕ) → Type 0
Occupied vs start len = (a : ℕ) × (start ≤ a) × (a < start + len) × (committed vs a ≡ true)

-- The gap that the search settles on lies behind the cursor and is vacant.
first_fit-ge : (vs : List Vad) (len cursor : ℕ) → cursor ≤ first_fit len cursor vs
unfolding first_fit
first_fit-ge [] len cursor = omega arith
first_fit-ge (v ∷ vs) len cursor = ground (arith, first_fit-ge vs len (max cursor v.end))

first_fit-Vacant :
    (vs : List Vad) (len cursor : ℕ)
    → 0 < len
    → Sorted cursor vs
    → Vacant vs (first_fit len cursor vs) len
unfolding first_fit
first_fit-Vacant [] len cursor pos s a lo hi = refl
first_fit-Vacant (v ∷ vs) len cursor pos s a lo hi =
    let e : max cursor v.end ≡ v.end = omega (arith, s.0, s.1) in
    ground (
      arith,
      e,
      first_fit-ge vs len v.end,
      first_fit-Vacant vs len v.end pos s.5 a,
      committed-below vs v.end a s.5,
    )

-- It is the first one: each earlier start is occupied.
first_fit-first :
    (vs : List Vad) (len cursor start : ℕ)
    → 0 < len
    → Sorted cursor vs
    → cursor ≤ start
    → start < first_fit len cursor vs
    → Occupied vs start len
unfolding first_fit
first_fit-first [] len cursor start pos s lo hi = absurd (omega arith)
first_fit-first (v ∷ vs) len cursor start pos s lo hi = elim (dec_lt start v.end) [
  | yes inside ↦
      (max start v.start, omega arith, ground (arith, s.0, s.1), ground (arith, s.0, s.1))
  | no behind ↦
      let e : max cursor v.end ≡ v.end = omega (arith, s.0, s.1) in
      let (a, from, upto, used) =
        first_fit-first vs len v.end start pos s.5 (omega arith) (ground (arith, e, s.0, s.1)) in
      (a, from, upto, ground arith)
]

-- A new range in a vacant place keeps the order.
insert_sorted-Sorted :
    (vs : List Vad) (new : Vad) (from : ℕ)
    → Sorted from vs
    → Sorted from (new ∷ [])
    → Vacant vs new.start (new.end - new.start)
    → Sorted from (insert_sorted new vs)
unfolding insert_sorted
insert_sorted-Sorted [] new from s n vacant = n
insert_sorted-Sorted (v ∷ vs) new from s n vacant = elim (Bool-cases (ltb v.start new.start)) [
  | inl before ↦ rw before (
    s.0,
    s.1,
    s.2,
    s.3,
    s.4,
    insert_sorted-Sorted vs new v.end s.5 (ground (arith, vacant new.start), n.1, n.2, n.3, n.4, tt)
        (λ a lo hi. ground (arith, vacant a, committed-below vs v.end a s.5)),
  )
  | inr after ↦
      rw after
        (n.0, n.1, n.2, n.3, n.4, (ground (arith, vacant v.start, s.1), s.1, s.2, s.3, s.4, s.5))
]

perm_at-insert_sorted :
    (vs : List Vad) (new : Vad) (a : ℕ)
    → (holds new a ≡ true → committed vs a ≡ false)
    → perm_at (insert_sorted new vs) a
      ≡ (if holds new a then some (new.writable, new.executable) else perm_at vs a)
unfolding insert_sorted
perm_at-insert_sorted [] new a vacant = ground arith
perm_at-insert_sorted (v ∷ vs) new a vacant = ground (arith, perm_at-insert_sorted vs new a)

abbrev record_of : (start end : ℕ) (writable executable : Bool) → Vad
record_of start end writable executable = record {
  start = start;
  end = end;
  writable = writable;
  executable = executable;
}

-- What an allocation of `len` bytes may do to the ranges.
abbrev pub Allocated : List Vad → (len : ℕ) → Protection → List Vad → ℕ → Type 0
Allocated vs len p vs' base =
    (user_vad_base ≤ base)
    × (base + len ≤ user_vad_limit)
    × Vacant vs base len
    × ((start : ℕ) → user_vad_base ≤ start → start < base → Occupied vs start len)
    × IsValid vs'
    × ((a : ℕ)
        → perm_at vs' a ≡ (if leb base a && ltb a (base + len) then some p else perm_at vs a))

abbrev pub Allocates : List Vad → (len : ℕ) → Protection → Option (List Vad × ℕ) → Type 0
Allocates vs len p r =
    ((r ≡ none)
      × ((start : ℕ)
          → user_vad_base ≤ start
          → start + len ≤ user_vad_limit
          → Occupied vs start len))
    ⊎ ((vs' : List Vad) × (base : ℕ) × (r ≡ some (vs', base)) × Allocated vs len p vs' base)

-- The base is on a page boundary.
first_fit-aligned :
    (vs : List Vad) (len cursor : ℕ)
    → Sorted cursor vs
    → cursor % page_size ≡ 0
    → first_fit len cursor vs % page_size ≡ 0
unfolding first_fit
first_fit-aligned [] len cursor s h = h
first_fit-aligned (v ∷ vs) len cursor s h =
    let e : max cursor v.end ≡ v.end = omega (arith, s.0, s.1) in
    ground (arith, e, first_fit-aligned vs len v.end s.5 s.4)

-- On valid ranges an allocation of whole pages fails exactly for lack of a gap: at every start in
-- the arena some address is taken. Otherwise it commits the first vacant range of the arena, with
-- the protection asked for, changes no other address, and the ranges are valid again.
pub allocate_in-Allocates :
    (vs : List Vad) (len : ℕ) (writable executable : Bool)
    → IsValid vs
    → 0 < len
    → len < 2 ^ 64
    → len % page_size ≡ 0
    → Allocates vs len (writable, executable) (allocate_in len writable executable vs)
unfolding allocate_in
allocate_in-Allocates vs len writable executable s pos small whole =
    let base = first_fit len user_vad_base vs in
    let vacant = first_fit-Vacant vs len user_vad_base pos s in
    let new = record_of base (base + len) writable executable in
    elim (dec_lt user_vad_limit (base + len)) [
      | yes over ↦ inl (
        ground arith,
        λ start lo hi. first_fit-first vs len user_vad_base start pos s lo (omega arith),
      )
      | no fits ↦
          let size : base + len - base ≡ len = omega arith in
          inr (
            insert_sorted new vs,
            base,
            ground arith,
            (
              first_fit-ge vs len user_vad_base,
              omega arith,
              vacant,
              λ start lo hi. first_fit-first vs len user_vad_base start pos s lo hi,
              insert_sorted-Sorted vs new user_vad_base s
                  (
                    first_fit-ge vs len user_vad_base,
                    omega arith,
                    omega arith,
                    first_fit-aligned vs len user_vad_base s (omega arith),
                    omega (arith, first_fit-aligned vs len user_vad_base s (omega arith)),
                    tt,
                  )
                  (rw size vacant),
              λ a. perm_at-insert_sorted vs new a (λ h. ground (arith, vacant a)),
            ),
          )
    ]
