-- ===== src/Ke/Wait/Room.antt =====
-- kernel/src/ke/scheduler.rs: counts that are not at the end of the 32-bit integers.
use nanokrnl.Base.{
  ℕ, zero, suc, ◌+◌, ◌^◌, ◌≤◌, ◌≡◌, ◌⊎◌, ◌∙◌, inl, inr, Bool-cases, refl, ◌-◌, Bool, true, false,
  leb, arith,
}
use nanokrnl.Base.Int.{ℤ, pos, negsuc, ◌+ℤ◌, ltb_ℤ, neg_part, fits}
use nanokrnl.Ke.Wait.{positive, decreased}
use nanokrnl.Ke.Wait.Operations.{capped_sum}

-- `k` decrements do not wrap.
abbrev pub has_room : (k : ℕ) → ℤ → Bool
has_room k x = leb (neg_part x + k) (2 ^ 31)

pub positive_down :
    (x : ℤ) → has_room 1 x ≡ true → positive (decreased x) ≡ true → positive x ≡ true
positive_down (pos zero) room up = ground (arith, up)
positive_down (pos (suc n)) room up = ground arith
positive_down (negsuc n) room up = ground (arith, room, up)

pub room_down : (k : ℕ) (x : ℤ) → has_room (suc k) x ≡ true → has_room k (decreased x) ≡ true
room_down k (pos n) room = ground (arith, room)
room_down k (negsuc n) room = ground (arith, room)

pub room_less : (k j : ℕ) (x : ℤ) → j ≤ k → has_room k x ≡ true → has_room j x ≡ true
room_less k j x le room = ground (arith, le, room)

pub room_positive : (k : ℕ) (x : ℤ) → k ≤ 2 ^ 31 → positive x ≡ true → has_room k x ≡ true
room_positive k (pos n) le up = ground (arith, le)
room_positive k (negsuc n) le up = absurd (ground (arith, up))

pub room_up : (k : ℕ) (x : ℤ) → has_room k x ≡ true → has_room k (x +ℤ pos 1) ≡ true
room_up k (pos n) room = ground (arith, room)
room_up k (negsuc n) room = ground (arith, room)

-- The sum, or the largest 32-bit integer when the sum is above that.
abbrev pub IsCapped : (x y z : ℤ) → Type 0
IsCapped x y z =
    ((ltb_ℤ (x +ℤ y) (pos (2 ^ 31)) ≡ true) × (z ≡ x +ℤ y))
    ⊎ ((ltb_ℤ (x +ℤ y) (pos (2 ^ 31)) ≡ false) × (z ≡ pos (2 ^ 31 - 1)))

fits_below :
    (x y : ℤ)
    → has_room 0 x ≡ true
    → ltb_ℤ (pos 0) y ≡ true
    → fits (2 ^ 31) (x +ℤ y) ≡ ltb_ℤ (x +ℤ y) (pos (2 ^ 31))
fits_below (pos n) (pos k) room more = ground (arith, room, more)
fits_below (pos n) (negsuc k) room more = absurd (ground (arith, more))
fits_below (negsuc n) (pos k) room more = ground (arith, room, more)
fits_below (negsuc n) (negsuc k) room more = absurd (ground (arith, more))

pub capped_sum-IsCapped :
    (x y : ℤ) → has_room 0 x ≡ true → ltb_ℤ (pos 0) y ≡ true → IsCapped x y (capped_sum x y)
capped_sum-IsCapped x y room more = elim (Bool-cases (ltb_ℤ (x +ℤ y) (pos (2 ^ 31)))) [
  | inl below ↦ inl (below, rw (fits_below x y room more ∙ below) refl)
  | inr above ↦ inr (above, rw (fits_below x y room more ∙ above) refl)
]

room_sum :
    (k : ℕ) (x y : ℤ) → has_room k x ≡ true → ltb_ℤ (pos 0) y ≡ true → has_room k (x +ℤ y) ≡ true
room_sum k (pos n) (pos m) room more = ground (arith, room, more)
room_sum k (pos n) (negsuc m) room more = absurd (ground (arith, more))
room_sum k (negsuc n) (pos m) room more = ground (arith, room, more)
room_sum k (negsuc n) (negsuc m) room more = absurd (ground (arith, more))

pub room_capped_sum :
    (k : ℕ) (x y : ℤ)
    → has_room k x ≡ true
    → ltb_ℤ (pos 0) y ≡ true
    → has_room k (capped_sum x y) ≡ true
room_capped_sum k x y room more = elim (Bool-cases (fits (2 ^ 31) (x +ℤ y))) [
  | inl inside ↦ rw inside (room_sum k x y room more)
  | inr outside ↦ rw outside (ground (arith, room))
]
