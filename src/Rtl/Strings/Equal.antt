-- ===== src/Rtl/Strings/Equal.antt =====
-- kernel/src/rtl/string.rs: the comparison against the folded units.
use nanokrnl.Base.{
  ℕ, zero, suc, ◌*◌, ◌/◌, ◌%◌, ◌^◌, ◌<◌, ◌≡◌, ◌≢◌, refl, ap, ◌↔◌, drop, get_or, true, false, ◌&&◌,
  ◌+◌, ◌-◌, not, ltb, if◌then◌else◌, Bool-cases, inl, inr, sym, ◌∙◌, List, [], ◌∷◌, ◌==◌, length,
  arith,
}
use nanokrnl.Rtl.Strings.{from_units, units_at, as_units, lower, all_same, eq_ignore_ascii_case}

-- The units with the 26 ASCII capitals from 65 on made small.
pub folded : List ℕ → List ℕ
folded [] = []
folded (x ∷ xs) = (if not (ltb x 65) && ltb x (65 + 26) then x + (97 - 65) else x) ∷ folded xs

lower-folded : (x : ℕ) → folded (x ∷ []) ≡ lower x ∷ []
unfolding folded
lower-folded x = elim (Bool-cases (ltb x 65)) [
  | inl low ↦ rw low (ground (arith, low))
  | inr high ↦ rw high (ground (arith, high))
]

folded-cons : (x : ℕ) (xs : List ℕ) → folded (x ∷ xs) ≡ lower x ∷ folded xs
unfolding folded
folded-cons x xs = ap (λ l. get_or l 0 0 ∷ folded xs) (lower-folded x)

same_lem :
    (xs ys : List ℕ) → ((length xs == length ys) && all_same xs ys) ≡ true → folded xs ≡ folded ys
unfolding all_same folded
same_lem [] [] h = refl
same_lem [] (y ∷ ys) h = absurd (ground (arith, h))
same_lem (x ∷ xs) [] h = absurd (ground (arith, h))
same_lem (x ∷ xs) (y ∷ ys) h =
    let heads : lower x ≡ lower y = ground (arith, h) in
    let tails : folded xs ≡ folded ys = same_lem xs ys (ground (arith, h)) in
    rw (folded-cons x xs, folded-cons y ys, heads, tails) refl

folded_lem :
    (xs ys : List ℕ) → folded xs ≡ folded ys → ((length xs == length ys) && all_same xs ys) ≡ true
unfolding all_same folded
folded_lem [] [] h = refl
folded_lem [] (y ∷ ys) h =
    let e : 0 ≡ suc (length (folded ys)) = ap length h in absurd (omega (arith, e))
folded_lem (x ∷ xs) [] h =
    let e : suc (length (folded xs)) ≡ 0 = ap length h in absurd (omega (arith, e))
folded_lem (x ∷ xs) (y ∷ ys) h =
    let e : lower x ∷ folded xs ≡ lower y ∷ folded ys =
      sym (folded-cons x xs) ∙ h ∙ folded-cons y ys in
    let heads : lower x ≡ lower y = ap (λ l. get_or l 0 0) e in
    let tails : folded xs ≡ folded ys = ap (λ l. drop 1 l) e in
    rw heads (ground (arith, folded_lem xs ys tails))

as_units-from_units :
    (m : ℕ → ℕ) (p n : ℕ) → p ≢ 0 → n < 2 ^ 15 → as_units m (from_units p n) ≡ units_at m p n
unfolding units_at
as_units-from_units m p zero ne lt = ground arith
as_units-from_units m p (suc n) ne lt =
    let there : (p == 0) ≡ false = ground (arith, ne) in
    let whole : suc n * 2 % 2 ^ 16 / 2 ≡ suc n = omega (arith, lt) in
    let some_units : (suc n * 2 % 2 ^ 16 == 0) ≡ false = ground (arith, lt) in
    rw (there, some_units, whole) refl

-- For two slices of fewer than 2 ^ 15 units at addresses that are not null, `as_units` of the string that `from_units` makes
-- is the slice, and `eq_ignore_ascii_case` of the two strings is true exactly when the
-- slices are the same after each ASCII capital is made small.
pub eq_ignore_ascii_case-folded :
    (m : ℕ → ℕ) (p n q k : ℕ)
    → p ≢ 0
    → q ≢ 0
    → n < 2 ^ 15
    → k < 2 ^ 15
    → (as_units m (from_units p n) ≡ units_at m p n)
      × ((eq_ignore_ascii_case m (from_units p n) (from_units q k) ≡ true)
          ↔ (folded (units_at m p n) ≡ folded (units_at m q k)))
unfolding eq_ignore_ascii_case
eq_ignore_ascii_case-folded m p n q k p_ne q_ne n_lt k_lt =
    let first = as_units-from_units m p n p_ne n_lt in
    let second = as_units-from_units m q k q_ne k_lt in
    (
      first,
      rw (first, second)
          (
            same_lem (units_at m p n) (units_at m q k),
            folded_lem (units_at m p n) (units_at m q k),
          ),
    )
