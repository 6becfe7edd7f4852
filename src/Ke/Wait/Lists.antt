-- ===== src/Ke/Wait/Lists.antt =====
-- kernel/src/ke/scheduler.rs: lists of waiters as sets of wait blocks.
use nanokrnl.Base.{
  ℕ, ◌<◌, ◌≤◌, ◌≡◌, refl, ap, Bool, true, false, not, ◌&&◌, ◌||◌, List, [], ◌∷◌, ◌++◌, ◌==◌, length,
  Bool-cases, inl, inr, arith,
}
use nanokrnl.Ke.Wait.{Entry, keep}

-- The block `i` of `t` is in the list.
abbrev pub has_entry : (t i : ℕ) → List Entry → Bool
has_entry t i [] = false
has_entry t i (e ∷ es) = ((e.waiter == t) && (e.index == i)) || has_entry t i es

-- Some block of `t` is in the list.
abbrev pub lists : (t : ℕ) → List Entry → Bool
lists t [] = false
lists t (e ∷ es) = (e.waiter == t) || lists t es

-- The entries of other threads.
abbrev pub without : (t : ℕ) → List Entry → List Entry
without t es = keep (λ e. not (e.waiter == t)) es

pub keep-keep :
    (p q : Entry → Bool) (es : List Entry) → keep p (keep q es) ≡ keep (λ e. q e && p e) es
unfolding keep
keep-keep p q [] = refl
keep-keep p q (e ∷ es) = ground (arith, keep-keep p q es)

-- Two tests that agree on the entries of a list keep the same.
pub keep-same :
    (p q : Entry → Bool) (es : List Entry)
    → ((e : Entry) → has_entry e.waiter e.index es ≡ true → p e ≡ q e)
    → keep p es ≡ keep q es
unfolding keep
keep-same p q [] same = refl
keep-same p q (e ∷ es) same =
    ground (arith, same e (ground arith), keep-same p q es (λ d on. same d (ground (arith, on))))

pub keep-true : (es : List Entry) → keep (λ e. true) es ≡ es
unfolding keep
keep-true [] = refl
keep-true (e ∷ es) = ap (λ ds. e ∷ ds) (keep-true es)

pub has_entry-without :
    (t u i : ℕ) (es : List Entry)
    → has_entry u i (without t es) ≡ (has_entry u i es && not (u == t))
unfolding keep
has_entry-without t u i [] = refl
has_entry-without t u i (e ∷ es) = ground (arith, has_entry-without t u i es)

pub lists-without :
    (t u : ℕ) (es : List Entry) → lists u (without t es) ≡ (lists u es && not (u == t))
unfolding keep
lists-without t u [] = refl
lists-without t u (e ∷ es) = ground (arith, lists-without t u es)

pub length-without-le : (t : ℕ) (es : List Entry) → length (without t es) ≤ length es
unfolding keep
length-without-le t [] = omega arith
length-without-le t (e ∷ es) = ground (arith, length-without-le t es)

pub length-without-lt :
    (t : ℕ) (es : List Entry) → lists t es ≡ true → length (without t es) < length es
unfolding keep
length-without-lt t [] h = ground (arith, h)
length-without-lt t (e ∷ es) h = ground (arith, h, length-without-le t es, length-without-lt t es)

pub lists_of_entry : (t i : ℕ) (es : List Entry) → has_entry t i es ≡ true → lists t es ≡ true
lists_of_entry t i [] h = h
lists_of_entry t i (e ∷ es) h = ground (arith, h, lists_of_entry t i es)

-- A thread in a list has a block there.
pub entry_of_lists :
    (t : ℕ) (es : List Entry) → lists t es ≡ true → (i : ℕ) × (has_entry t i es ≡ true)
entry_of_lists t [] h = absurd (ground (arith, h))
entry_of_lists t (e ∷ es) h = elim (Bool-cases (e.waiter == t)) [
  | inl here ↦ (e.index, ground (arith, here))
  | inr other ↦
      let rest = entry_of_lists t es (ground (arith, h, other)) in (rest.0, ground (arith, rest.1))
]

pub has_entry-append :
    (t i u j : ℕ) (es : List Entry)
    → has_entry t i (es ++ record { waiter = u; index = j } ∷ [])
      ≡ (has_entry t i es || ((u == t) && (j == i)))
has_entry-append t i u j [] = ground arith
has_entry-append t i u j (e ∷ es) = ground (arith, has_entry-append t i u j es)
