-- ===== src/Mm/Vad/Paging/Free.antt =====
-- `vad_free`: exactly the addresses of the range lose their protection.
use native.Mathlib.Decide.{dec_lt}
use nanokrnl.Base.{
  not, Option-cases, ℕ, ◌+◌, ◌%◌, ◌^◌, ◌≤◌, ◌<◌, min, max, Bool, ◌&&◌, ◌≡◌, refl, inl, inr, none,
  some, List, [], ◌∷◌, ◌==◌, leb, ltb, if◌then◌else◌, arith, Bool-cases, ◌⊎◌,
}
use nanokrnl.Mm.Phys.{page_size}
use nanokrnl.Mm.Vad.{Vad, Spaces, find_space, put_space, checked}
use nanokrnl.Mm.Vad.Ranges.{holds, protection, perm_at, Sorted, IsValid, Sorted-mono, perm_at-below}
use nanokrnl.Mm.Vad.Spaces.{ranges, AllValid, IsValid-ranges, ranges-put_space, AllValid-put_space}
use nanokrnl.Mm.Vad.Paging.{Pages, NtStatus, success, invalid_parameter, cut, free_loop, vad_free}

abbrev pub in_range : (base end a : ℕ) → Bool
in_range base end a = leb base a && ltb a end

perm_at-cut :
    {World : Type 0} (pages : Pages World) (v : Vad) (base end : ℕ) (rest : List Vad) (a : ℕ)
    → base < v.end
    → v.start < end
    → v.start < v.end
    → perm_at (cut pages v (max v.start base) (min v.end end) rest) a
      ≡ (if holds v a && not (in_range base end a) then some (protection v) else perm_at rest a)
unfolding cut
perm_at-cut pages v base end rest a h k s = ground arith

Sorted-cut :
    {World : Type 0} (pages : Pages World) (v : Vad) (base end from : ℕ) (rest : List Vad)
    → base < v.end
    → v.start < end
    → base ≤ end
    → base % page_size ≡ 0
    → end % page_size ≡ 0
    → Sorted from (v ∷ [])
    → Sorted v.end rest
    → Sorted from (cut pages v (max v.start base) (min v.end end) rest)
unfolding cut
Sorted-cut pages v base end from rest h k o hb he s r = ground (
  arith,
  Sorted-mono rest {from = v.end} {from' = max v.start base},
  Sorted-mono rest {from = v.end} {from' = from},
)

module _ {World : Type 0} (pages : Pages World) where
  -- Each address outside the range keeps its protection, each inside has none.
  perm_at-free_loop :
      (base end : ℕ) (vs : List Vad) (from a : ℕ) (w : World)
      → Sorted from vs
      → base ≤ end
      → perm_at (free_loop pages base end vs w).0 a
        ≡ (if in_range base end a then none else perm_at vs a)
  unfolding free_loop
  perm_at-free_loop base end [] from a w s o = ground arith
  perm_at-free_loop base end (v ∷ vs) from a w s o = elim (Bool-cases (leb v.end base)) [
    | inl before ↦ rw before (ground (arith, perm_at-free_loop base end vs v.end a w s.5 o))
    | inr reaches ↦ elim (Bool-cases (leb end v.start)) [
      | inl behind ↦ rw (reaches, behind) (ground (arith, perm_at-below vs v.end a s.5))
      | inr meets ↦
          rw
            (
              reaches,
              meets,
              perm_at-cut pages v base end _ a (ground arith) (ground arith) s.1,
              perm_at-free_loop base end vs v.end a _ s.5 o,
            )
            (ground arith)
    ]
  ]

  Sorted-free_loop :
      (base end : ℕ) (vs : List Vad) (from : ℕ) (w : World)
      → Sorted from vs
      → base ≤ end
      → base % page_size ≡ 0
      → end % page_size ≡ 0
      → Sorted from (free_loop pages base end vs w).0
  unfolding free_loop
  Sorted-free_loop base end [] from w s o hb he = tt
  Sorted-free_loop base end (v ∷ vs) from w s o hb he = elim (Bool-cases (leb v.end base)) [
    | inl before ↦
        rw before (s.0, s.1, s.2, s.3, s.4, Sorted-free_loop base end vs v.end w s.5 o hb he)
    | inr reaches ↦ elim (Bool-cases (leb end v.start)) [
      | inl behind ↦ rw (reaches, behind) s
      | inr meets ↦
          rw (reaches, meets)
            (Sorted-cut pages v base end from _ (ground arith) (ground arith) o hb he
              (s.0, s.1, s.2, s.3, s.4, tt) (Sorted-free_loop base end vs v.end _ s.5 o hb he))
    ]
  ]

-- Address `a` of address space `q` after the range is released in `pml4`.
abbrev pub Released : (pml4 base end : ℕ) → Spaces → Spaces → Type 0
Released pml4 base end ss ss' =
    (q a : ℕ)
    → perm_at (ranges q ss') a
      ≡ (if (pml4 == q) && in_range base end a then none else perm_at (ranges q ss) a)

module _ {World : Type 0} (pages : Pages World) where
  abbrev pub FreeOutcome : (pml4 base len : ℕ) → Spaces → NtStatus × Spaces × World → Type 0
  FreeOutcome pml4 base len ss r =
      ((r.0 ≡ invalid_parameter)
        × (r.1 ≡ ss)
        × ((2 ^ 64 ≤ base + len) ⊎ (find_space pml4 ss ≡ none)))
      ⊎ ((r.0 ≡ success) × Released pml4 base (base + len) ss r.1 × AllValid r.1)

  -- A release of whole pages is refused only for a range that overflows or an address space that is
  -- not known, and then no range changes. Otherwise exactly the addresses of the range in that
  -- address space lose their protection, and the ranges stay valid.
  pub vad_free-FreeOutcome :
      (pml4 base len : ℕ) (ss : Spaces) (w : World)
      → AllValid ss
      → base % page_size ≡ 0
      → len % page_size ≡ 0
      → FreeOutcome pml4 base len ss (vad_free pages pml4 base len ss w)
  unfolding vad_free
  vad_free-FreeOutcome pml4 base len ss w valid hb hl = elim (dec_lt (base + len) (2 ^ 64)) [
    | no over ↦
        let e : checked (base + len) ≡ none = ground arith in
        rw e (inl (refl, refl, inl (omega arith)))
    | yes fits ↦ elim (Option-cases (find_space pml4 ss)) [
      | inl missing ↦
          let r : vad_free pages pml4 base len ss w
              ≡ (invalid_parameter, ss, pages.drop_range w pml4 base len) =
            ground arith in
          rw r (inl (refl, refl, inr missing))
      | inr (vads, e) ↦
          let v : IsValid vads = rw e at (IsValid-ranges pml4 ss valid) in
          let done = free_loop pages base (base + len) vads (pages.drop_range w pml4 base len) in
          let r : vad_free pages pml4 base len ss w ≡ (success, put_space pml4 done.0 ss, done.1) =
            ground arith in
          rw r (
            inr (
              refl,
              λ q a. rw (ranges-put_space pml4 q done.0 ss) (
                  ground (
                    arith,
                    e,
                    perm_at-free_loop pages base (base + len) vads _ a
                        (pages.drop_range w pml4 base len) v,
                  )),
              AllValid-put_space pml4 done.0 ss valid (
                  Sorted-free_loop pages base (base + len) vads _ _ v (omega arith) hb
                    (omega arith)),
            ))
    ]
  ]
