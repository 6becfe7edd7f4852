-- ===== src/Emu/Devices/Timer.antt =====
-- emu/src/devices.rs: the countdown of the timer.
use native.Mathlib.Nat.{div-add-mod, mod-lt, suc-mul, mul-le-mul_right}
use nanokrnl.Base.{
  ℕ, zero, suc, ◌+◌, ◌-◌, ◌*◌, ◌/◌, ◌%◌, ◌^◌, ◌<◌, ◌≤◌, ◌≡◌, refl, sym, ap, ◌∙◌, max, true, false,
  Option, none, some, ◌==◌, ltb, if◌then◌else◌, Bool-cases, ◌⊎◌, inl, inr, arith,
}
use nanokrnl.Emu.Devices.{Apic, has, is_off, divisor, request, fire_timer, fired, tick}
use nanokrnl.Emu.Devices.Pending.{IsValid, pending, request-pending}

pub divisor_pos : (a : Apic) → 0 < divisor a
unfolding divisor
divisor_pos a = ground arith

-- `n` calls of `tick`, and the vector of the last.
pub ticks : (n cycles : ℕ) → Apic → Apic × Option ℕ
ticks zero cycles a = (a, none)
ticks (suc n) cycles a = tick cycles (ticks n cycles a).0

-- How much a call takes from the count.
abbrev pub step_of : (cycles : ℕ) → Apic → ℕ
step_of cycles a = cycles / divisor a

divisor_same : (a : Apic) (c : ℕ) → divisor (record a { current_count = c }) ≡ divisor a
unfolding divisor
divisor_same a c = refl

quiet_tick :
    (cycles : ℕ) (a : Apic)
    → is_off a ≡ false
    → 0 < step_of cycles a
    → step_of cycles a < a.current_count
    → tick cycles a ≡ (record a { current_count = a.current_count - step_of cycles a }, none)
unfolding tick
quiet_tick cycles a on pos more =
    let m : max (divisor a) 1 ≡ divisor a = omega (arith, divisor_pos a) in
    let moves : (step_of cycles a == 0) ≡ false = ground (arith, pos) in
    let left : ltb (step_of cycles a) a.current_count ≡ true = ground (arith, more) in
    rw (on, m, moves, left) refl

last_tick :
    (cycles : ℕ) (a : Apic)
    → is_off a ≡ false
    → 0 < step_of cycles a
    → a.current_count ≤ step_of cycles a
    → tick cycles a ≡ fired (fire_timer a)
unfolding tick
last_tick cycles a on pos less =
    let m : max (divisor a) 1 ≡ divisor a = omega (arith, divisor_pos a) in
    let moves : (step_of cycles a == 0) ≡ false = ground (arith, pos) in
    let left : ltb (step_of cycles a) a.current_count ≡ false = ground (arith, less) in
    rw (on, m, moves, left) refl

-- As long as the count lasts it falls by the step at each call, and no vector is raised.
quiet_ticks :
    (n cycles : ℕ) (a : Apic)
    → is_off a ≡ false
    → 0 < step_of cycles a
    → (n * step_of cycles a < a.current_count) ⊎ (n ≡ 0)
    → ticks n cycles a ≡ (record a { current_count = a.current_count - n * step_of cycles a }, none)
unfolding ticks
quiet_ticks zero cycles a on pos enough =
    let whole : a.current_count - 0 * step_of cycles a ≡ a.current_count = omega arith in
    ap (λ c. (record a { current_count = c }, none)) (sym whole)
quiet_ticks (suc n) cycles a on pos (inr none_left) = absurd (omega arith)
quiet_ticks (suc n) cycles a on pos (inl enough) =
    let s = step_of cycles a in
    let before = record a { current_count = a.current_count - n * s } in
    let next : suc n * s ≡ n * s + s = suc-mul n s in
    let same : step_of cycles before ≡ s =
      ap (λ d. cycles / d) (divisor_same a (a.current_count - n * s)) in
    let left : a.current_count - n * s - s ≡ a.current_count - suc n * s = omega (arith, next) in
    ap (λ r. tick cycles r.0) (quiet_ticks n cycles a on pos (inl (omega (arith, enough, next))))
    ∙ quiet_tick cycles before on (omega (arith, same, pos)) (omega (arith, same, next, enough))
    ∙ ap (λ c. (record a { current_count = c }, none))
        (ap (λ d. a.current_count - n * s - d) same ∙ left)

-- The calls before the last.
abbrev pub quiet_calls : (cycles : ℕ) → Apic → ℕ
quiet_calls cycles a = (a.current_count - 1) / step_of cycles a

-- The count after the timer fired.
abbrev pub reloaded_count : Apic → ℕ
reloaded_count a = if has a.lvt_timer (2 ^ 17) then a.initial_count else 0

fire_timer-count : (a : Apic) → (fire_timer a).0.current_count ≡ reloaded_count a
unfolding fire_timer request
fire_timer-count a = elim (Bool-cases (has a.lvt_timer (2 ^ 17))) [
  | inl periodic ↦ rw periodic refl
  | inr once ↦ rw once refl
]

fire_timer-pending :
    (a : Apic) → IsValid a.irr → pending (fire_timer a).0.irr (a.lvt_timer % 2 ^ 8) ≡ true
unfolding fire_timer
fire_timer-pending a valid = elim (Bool-cases (has a.lvt_timer (2 ^ 17))) [
  | inl periodic ↦ rw periodic (
      rw
        (request-pending (record a { current_count = a.initial_count }) (a.lvt_timer % 2 ^ 8)
          (a.lvt_timer % 2 ^ 8) valid (omega arith) (omega arith))
        (ground arith))
  | inr once ↦ rw once (
      rw
        (request-pending (record a { current_count = 0; initial_count = 0 }) (a.lvt_timer % 2 ^ 8)
          (a.lvt_timer % 2 ^ 8) valid (omega arith) (omega arith))
        (ground arith))
]

fire_timer-vector : (a : Apic) → (fire_timer a).1 ≡ a.lvt_timer % 2 ^ 8
unfolding fire_timer
fire_timer-vector a = refl

div_bounds : (c s : ℕ) → 0 < s → ((c - 1) / s * s < c) ⊎ ((c - 1) / s ≡ 0)
div_bounds zero s pos = inr (ground (arith, div-add-mod 0 s, pos))
div_bounds (suc c) s pos = inl (omega (arith, div-add-mod c s))

div_above : (c s : ℕ) → 0 < s → c - (c - 1) / s * s ≤ s
div_above c s pos = omega (arith, div-add-mod (c - 1) s, mod-lt (c - 1) pos)

early_enough : (m n s c : ℕ) → m ≤ n → (n * s < c) ⊎ (n ≡ 0) → (m * s < c) ⊎ (m ≡ 0)
early_enough m n s c le (inl lt) = inl (omega (arith, mul-le-mul_right s le, lt))
early_enough m n s c le (inr none_left) = inr (omega (arith, le, none_left))

-- Let the timer be running, let a call of `tick` take at least 1 from its count, and let the
-- request register be four 64-bit words. After (current_count - 1) / step calls or fewer no vector
-- was raised and only the count has moved, by the step at each call. The next call after them
-- returns the vector of the timer and requests it, and the count is then the initial
-- count of a periodic timer and 0 otherwise.
pub ticks-fires :
    (cycles m : ℕ) (a : Apic)
    → IsValid a.irr
    → is_off a ≡ false
    → 0 < step_of cycles a
    → m ≤ quiet_calls cycles a
    → (ticks m cycles a
        ≡ (record a { current_count = a.current_count - m * step_of cycles a }, none))
      × ((ticks (suc (quiet_calls cycles a)) cycles a).1 ≡ some (a.lvt_timer % 2 ^ 8))
      × (pending (ticks (suc (quiet_calls cycles a)) cycles a).0.irr (a.lvt_timer % 2 ^ 8) ≡ true)
      × ((ticks (suc (quiet_calls cycles a)) cycles a).0.current_count ≡ reloaded_count a)
unfolding ticks
ticks-fires cycles m a valid on pos few =
    let s = step_of cycles a in
    let n = quiet_calls cycles a in
    let last = record a { current_count = a.current_count - n * s } in
    let same : step_of cycles last ≡ s =
      ap (λ d. cycles / d) (divisor_same a (a.current_count - n * s)) in
    let fires : ticks (suc n) cycles a ≡ fired (fire_timer last) =
      ap (λ r. tick cycles r.0) (quiet_ticks n cycles a on pos (div_bounds a.current_count s pos))
      ∙ last_tick cycles last on (omega (arith, same, pos))
          (omega (arith, same, div_above a.current_count s pos)) in
    (
      quiet_ticks m cycles a on pos
          (early_enough m n s a.current_count few (div_bounds a.current_count s pos)),
      ap (λ r. r.1) fires ∙ ap some (fire_timer-vector last),
      ap (λ r. pending r.0.irr (a.lvt_timer % 2 ^ 8)) fires ∙ fire_timer-pending last valid,
      ap (λ r. r.0.current_count) fires ∙ fire_timer-count last,
    )
