-- ===== src/Mm/Vad/Covers.antt =====
-- `vad_covers` decides whether a whole range is committed.
use nanokrnl.Base.{
  ℕ, ◌+◌, ◌^◌, ◌≤◌, ◌<◌, true, false, ◌≡◌, ◌↔◌, inl, inr, List, [], ◌∷◌, leb, ltb, arith,
  Bool-cases,
}
use nanokrnl.Mm.Vad.{Vad, Spaces, find_space, covers_from, vad_covers}
use nanokrnl.Mm.Vad.Ranges.{committed, Sorted, committed-below}
use nanokrnl.Mm.Vad.Spaces.{ranges, AllValid, IsValid-ranges}

abbrev pub AllCommitted : List Vad → (va end : ℕ) → Type 0
AllCommitted vs va end = (a : ℕ) → va ≤ a → a < end → committed vs a ≡ true

covers_from_sound :
    (vs : List Vad) (cursor end a : ℕ)
    → covers_from cursor end vs ≡ true
    → cursor ≤ a
    → a < end
    → committed vs a ≡ true
unfolding covers_from
covers_from_sound [] cursor end a h lo hi = absurd (ground arith)
covers_from_sound (v ∷ vs) cursor end a h lo hi =
    ground (arith, covers_from_sound vs cursor end a, covers_from_sound vs v.end end a)

-- What is committed behind the first range is committed by the others.
AllCommitted-rest :
    (v : Vad) (vs : List Vad) (va end : ℕ)
    → v.end ≤ va
    → AllCommitted (v ∷ vs) va end
    → AllCommitted vs va end
AllCommitted-rest v vs va end h all a lo hi = ground (arith, all a)

covers_from_complete :
    (vs : List Vad) (from cursor end : ℕ)
    → Sorted from vs
    → cursor < end
    → AllCommitted vs cursor end
    → covers_from cursor end vs ≡ true
unfolding covers_from
covers_from_complete [] from cursor end s lt all = ground (arith, all cursor)
covers_from_complete (v ∷ vs) from cursor end s lt all = elim (Bool-cases (leb v.end cursor)) [
  | inl past ↦ rw past (
      covers_from_complete vs v.end cursor end s.5 lt
        (AllCommitted-rest v vs cursor end (ground arith) all))
  | inr reaches ↦
      let started : ltb cursor v.start ≡ false =
        ground (arith, all cursor, committed-below vs v.end cursor s.5) in
      rw (reaches, started)
        (elim (Bool-cases (leb end v.end)) [
          | inl done ↦ rw done
          | inr more ↦ rw more (
              covers_from_complete vs v.end v.end end s.5 (ground arith) (
                AllCommitted-rest v vs v.end end (omega arith)
                  (λ a lo hi. all a (ground arith) hi)))
        ])
]

vad_covers-ranges :
    (pml4 va len : ℕ) (ss : Spaces)
    → va + len < 2 ^ 64
    → 0 < len
    → vad_covers pml4 va len ss ≡ covers_from va (va + len) (ranges pml4 ss)
unfolding vad_covers find_space
vad_covers-ranges pml4 va len ss fits pos = ground arith

-- In address spaces whose ranges are whole pages of the arena, sorted and apart from each other, and for a
-- range that is not empty and ends below 2 ^ 64, `vad_covers` says yes exactly when every address of the range
-- is committed.
pub vad_covers_iff :
    (pml4 va len : ℕ) (ss : Spaces)
    → AllValid ss
    → 0 < len
    → va + len < 2 ^ 64
    → (vad_covers pml4 va len ss ≡ true) ↔ AllCommitted (ranges pml4 ss) va (va + len)
vad_covers_iff pml4 va len ss v pos fits = rw (vad_covers-ranges pml4 va len ss fits pos) (
  λ h a. covers_from_sound (ranges pml4 ss) va (va + len) a h,
  covers_from_complete (ranges pml4 ss) _ va (va + len) (IsValid-ranges pml4 ss v) (omega arith),
)
