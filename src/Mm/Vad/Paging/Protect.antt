-- ===== src/Mm/Vad/Paging/Protect.antt =====
-- `vad_protect`: exactly the committed addresses of the range change their protection.
use native.Mathlib.Decide.{dec_lt}
use nanokrnl.Base.{
  Option-cases, ℕ, ◌+◌, ◌%◌, ◌^◌, ◌≤◌, ◌<◌, min, max, Bool, true, false, ◌&&◌, ◌≡◌, refl, inl, inr,
  Option, none, some, List, [], ◌∷◌, ◌==◌, leb, ltb, if◌then◌else◌, arith, Bool-cases, ◌⊎◌,
}
use nanokrnl.Mm.Phys.{page_size}
use nanokrnl.Mm.Vad.{Vad, Spaces, find_space, put_space}
use nanokrnl.Mm.Vad.Ranges.{Protection, perm_at, committed, Sorted, IsValid, perm_at-below}
use nanokrnl.Mm.Vad.Spaces.{ranges, AllValid, IsValid-ranges, ranges-put_space, AllValid-put_space}
use nanokrnl.Mm.Vad.Paging.{
  Pages, NtStatus, success, invalid_parameter, page_rounds, protect_pages, protect_loop, overlaps,
  vad_protect,
}

abbrev pub in_range : (base end a : ℕ) → Bool
in_range base end a = leb base a && ltb a end

-- The protection `p` replaces that of the committed addresses of the range.
abbrev pub reprotect : (base end : ℕ) → Protection → ℕ → Option Protection → Option Protection
reprotect base end p a none = none
reprotect base end p a (some q) = if in_range base end a then some p else some q

module _ {World : Type 0} (pages : Pages World) (base end : ℕ) (writable executable : Bool) where
  abbrev loop : List Vad → World → List Vad × World
  loop = protect_loop pages base end writable executable

  -- The world that the loop goes on with behind range `v`.
  abbrev next_world : Vad → World → World
  next_world v w =
      protect_pages pages (page_rounds (max v.start base) (min v.end end)) (max v.start base)
        writable executable w

  perm_at-protect_loop :
      (vs : List Vad) (from a : ℕ) (w : World)
      → Sorted from vs
      → base < end
      → perm_at (loop vs w).0 a ≡ reprotect base end (writable, executable) a (perm_at vs a)
  unfolding protect_loop
  perm_at-protect_loop [] from a w s o = refl
  perm_at-protect_loop (v ∷ vs) from a w s o = elim (Bool-cases (leb v.end base)) [
    | inl before ↦ rw before (ground (arith, perm_at-protect_loop vs v.end a w s.5 o))
    | inr reaches ↦ elim (Bool-cases (leb end v.start)) [
      | inl behind ↦ rw (reaches, behind) (ground (arith, perm_at-below vs v.end a s.5))
      | inr meets ↦ ground (
        arith,
        reaches,
        meets,
        perm_at-below vs v.end a s.5,
        perm_at-protect_loop vs v.end a (next_world v w) s.5 o,
      )
    ]
  ]

  Sorted-protect_loop :
      (vs : List Vad) (from : ℕ) (w : World)
      → Sorted from vs
      → base < end
      → base % page_size ≡ 0
      → end % page_size ≡ 0
      → Sorted from (loop vs w).0
  unfolding protect_loop
  Sorted-protect_loop [] from w s o hb he = tt
  Sorted-protect_loop (v ∷ vs) from w s o hb he = elim (Bool-cases (leb v.end base)) [
    | inl before ↦ rw before (s.0, s.1, s.2, s.3, s.4, Sorted-protect_loop vs v.end w s.5 o hb he)
    | inr reaches ↦ elim (Bool-cases (leb end v.start)) [
      | inl behind ↦ rw (reaches, behind) s
      | inr meets ↦
          let tail = Sorted-protect_loop vs v.end (next_world v w) s.5 o hb he in
          ground (arith, reaches, meets, tail, s.5)
    ]
  ]

-- The test for an overlap finds a committed address of the range, or there is none.
overlaps-committed :
    {World : Type 0} (pages : Pages World) (base end : ℕ) (vs : List Vad) (from : ℕ)
    → Sorted from vs
    → base < end
    → overlaps pages base end vs ≡ true
    → (a : ℕ) × (in_range base end a ≡ true) × (committed vs a ≡ true)
unfolding overlaps
overlaps-committed pages base end [] from s o h = cc
overlaps-committed pages base end (v ∷ vs) from s o h =
    elim (Bool-cases (ltb v.start end && ltb base v.end)) [
      | inl here ↦ (max v.start base, ground (arith, s.1), ground (arith, s.1))
      | inr later ↦
          let (a, inside, used) =
            overlaps-committed pages base end vs v.end s.5 o (rw later at h) in
          (a, inside, ground arith)
    ]

not-overlaps-vacant :
    {World : Type 0} (pages : Pages World) (base end : ℕ) (vs : List Vad) (a : ℕ)
    → overlaps pages base end vs ≡ false
    → in_range base end a ≡ true
    → committed vs a ≡ false
unfolding overlaps
not-overlaps-vacant pages base end [] a h inside = refl
not-overlaps-vacant pages base end (v ∷ vs) a h inside =
    ground (arith, not-overlaps-vacant pages base end vs a)

-- Address `a` of address space `q` after the range is given protection `p` in `pml4`.
abbrev pub Reprotected : (pml4 base end : ℕ) → Protection → Spaces → Spaces → Type 0
Reprotected pml4 base end p ss ss' =
    (q a : ℕ)
    → perm_at (ranges q ss') a ≡ (
        if pml4 == q
        then reprotect base end p a (perm_at (ranges q ss) a)
        else perm_at (ranges q ss) a)

abbrev pub Nothing : (pml4 base end : ℕ) → Spaces → Type 0
Nothing pml4 base end ss =
    (a : ℕ) → in_range base end a ≡ true → committed (ranges pml4 ss) a ≡ false

module _ {World : Type 0} (pages : Pages World) (pml4 base len : ℕ)
    (writable executable : Bool) where
  abbrev pub ProtectOutcome : Spaces → NtStatus × Spaces × World → Type 0
  ProtectOutcome ss r =
      ((r.0 ≡ invalid_parameter)
        × (r.1 ≡ ss)
        × ((2 ^ 64 ≤ base + len) ⊎ Nothing pml4 base (base + len) ss))
      ⊎ ((r.0 ≡ success)
          × ((a : ℕ) × (in_range base (base + len) a ≡ true)
              × (committed (ranges pml4 ss) a ≡ true))
          × Reprotected pml4 base (base + len) (writable, executable) ss r.1
          × AllValid r.1)

  protect_found :
      (ss : Spaces) (w : World) (vads : List Vad)
      → AllValid ss
      → base % page_size ≡ 0
      → len % page_size ≡ 0
      → 0 < len
      → base + len < 2 ^ 64
      → find_space pml4 ss ≡ some vads
      → overlaps pages base (base + len) vads ≡ true
      → ProtectOutcome ss (vad_protect pages pml4 base len writable executable ss w)
  unfolding vad_protect
  protect_found ss w vads valid hb hl pos fits e meets =
      let v : IsValid vads = rw e at (IsValid-ranges pml4 ss valid) in
      let done = protect_loop pages base (base + len) writable executable vads w in
      let r : vad_protect pages pml4 base len writable executable ss w
          ≡ (success, put_space pml4 done.0 ss, done.1) =
        ground arith in
      let used = overlaps-committed pages base (base + len) vads _ v (omega arith) meets in
      rw r (
        inr (
          refl,
          (used.0, used.1, ground (arith, used.2)),
          λ q a. rw (ranges-put_space pml4 q done.0 ss) (
              ground (
                arith,
                e,
                perm_at-protect_loop pages base (base + len) writable executable vads _ a w v
                    (omega arith),
              )),
          AllValid-put_space pml4 done.0 ss valid (
              Sorted-protect_loop pages base (base + len) writable executable vads _ w v
                (omega arith) hb (omega arith)),
        ))

  -- A change of protection of whole pages is refused only for a range that overflows or holds no
  -- committed address, and then no range changes. Otherwise exactly the committed addresses of the
  -- range in that address space get the new protection, no address is committed or released, and
  -- the ranges stay valid.
  pub vad_protect-ProtectOutcome :
      (ss : Spaces) (w : World)
      → AllValid ss
      → base % page_size ≡ 0
      → len % page_size ≡ 0
      → ProtectOutcome ss (vad_protect pages pml4 base len writable executable ss w)
  unfolding vad_protect
  vad_protect-ProtectOutcome ss w valid hb hl = elim (dec_lt (base + len) (2 ^ 64)) [
    | no over ↦
        let r : vad_protect pages pml4 base len writable executable ss w
            ≡ (invalid_parameter, ss, w) =
          ground arith in
        rw r (inl (refl, refl, inl (omega arith)))
    | yes fits ↦ elim (dec_lt 0 len) [
      | no empty ↦
          let r : vad_protect pages pml4 base len writable executable ss w
              ≡ (invalid_parameter, ss, w) =
            ground arith in
          rw r (inl (refl, refl, inr (λ a inside. absurd (ground arith))))
      | yes pos ↦ elim (Option-cases (find_space pml4 ss)) [
        | inl missing ↦
            let r : vad_protect pages pml4 base len writable executable ss w
                ≡ (invalid_parameter, ss, w) =
              ground arith in
            rw r (inl (refl, refl, inr (λ a inside. ground arith)))
        | inr (vads, e) ↦ elim (Bool-cases (overlaps pages base (base + len) vads)) [
          | inl meets ↦ protect_found ss w vads valid hb hl pos fits e meets
          | inr apart ↦
              let r : vad_protect pages pml4 base len writable executable ss w
                  ≡ (invalid_parameter, ss, w) =
                ground arith in
              rw r (
                inl (
                  refl,
                  refl,
                  inr (λ a inside.
                      ground (arith, e, not-overlaps-vacant pages base (base + len) vads a)),
                ))
        ]
      ]
    ]
  ]
