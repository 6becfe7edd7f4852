-- ===== src/Ke/Wait/Evaluate.antt =====
-- kernel/src/ke/scheduler.rs: when `evaluate_wait` finds a wait satisfied.
use nanokrnl.Base.{
  ℕ, zero, suc, ◌+◌, ◌<◌, ◌≤◌, ◌≡◌, refl, ap, ◌∙◌, Bool, true, false, not, ◌&&◌, ◌||◌, Option, none,
  some, ◌==◌, ltb, ==_iff, Bool-cases, inl, inr, arith,
}
use nanokrnl.Ke.Wait.{
  DispatcherHeader, WaitType, all, any, Waiter, State, Satisfy, timer_wait_block, positive,
  signaled_for, first_signaled, all_signaled, or_timed_out, timed_out, evaluate, evaluate_wait,
  is_not_yet, not_yet, timeout, all_of, any_of,
}

-- The test holds from `i` on for some, or for each, of `n` numbers.
abbrev pub some_from : (p : ℕ → Bool) (i n : ℕ) → Bool
some_from p i zero = false
some_from p i (suc n) = p i || some_from p (i + 1) n

abbrev pub each_from : (p : ℕ → Bool) (i n : ℕ) → Bool
each_from p i zero = true
each_from p i (suc n) = p i && each_from p (i + 1) n

-- The object of block `i` is signaled for the thread.
abbrev pub signals : (objects : ℕ → DispatcherHeader) (t : ℕ) → Waiter → (i : ℕ) → Bool
signals objects t w i = signaled_for t (objects (w.wait_blocks i).object)

abbrev pub fired : (objects : ℕ → DispatcherHeader) → Waiter → Bool
fired objects w =
    w.wait_timed && positive (objects (w.wait_blocks timer_wait_block).object).signal_state

abbrev pub by_objects : (p : ℕ → Bool) (n : ℕ) → WaitType → Bool
by_objects p n any = some_from p 0 n
by_objects p n all = ltb 0 n && each_from p 0 n

-- The objects or the timer satisfy the wait.
abbrev pub is_satisfied : (objects : ℕ → DispatcherHeader) (t : ℕ) → Waiter → Bool
is_satisfied objects t w =
    by_objects (signals objects t w) w.wait_count w.wait_type || fired objects w

-- The block belongs to the wait.
abbrev pub counted : Waiter → (i : ℕ) → Bool
counted w i = ltb i w.wait_count || ((i == timer_wait_block) && w.wait_timed)

abbrev is_none : Option ℕ → Bool
is_none none = true
is_none (some i) = false

first_signaled-some_from :
    (s : State) (t i n : ℕ)
    → is_none (first_signaled s t i n) ≡ not (some_from (signals s.objects t (s.waiters t)) i n)
unfolding first_signaled
first_signaled-some_from s t i zero = refl
first_signaled-some_from s t i (suc n) = elim (Bool-cases (signals s.objects t (s.waiters t) i)) [
  | inl here ↦ rw here refl
  | inr other ↦ rw other (first_signaled-some_from s t (i + 1) n)
]

pub all_signaled-each_from :
    (s : State) (t i n : ℕ)
    → all_signaled s t i n ≡ each_from (signals s.objects t (s.waiters t)) i n
unfolding all_signaled
all_signaled-each_from s t i zero = refl
all_signaled-each_from s t i (suc n) =
    ap (λ b. signals s.objects t (s.waiters t) i && b) (all_signaled-each_from s t (i + 1) n)

pub timed_out-fired :
    (s : State) (t : ℕ) → is_not_yet (timed_out s t) ≡ not (fired s.objects (s.waiters t))
timed_out-fired s t = elim (Bool-cases (fired s.objects (s.waiters t))) [
  | inl up ↦ rw up refl
  | inr down ↦ rw down refl
]

or_timed_out-fired :
    (s : State) (t : ℕ) (r : Option ℕ)
    → is_not_yet (or_timed_out s t r) ≡ (is_none r && not (fired s.objects (s.waiters t)))
or_timed_out-fired s t none = timed_out-fired s t
or_timed_out-fired s t (some i) = refl

evaluate-is_satisfied :
    (s : State) (t : ℕ) (wait_type : WaitType)
    → is_not_yet (evaluate s t wait_type)
      ≡ not (
          by_objects (signals s.objects t (s.waiters t)) (s.waiters t).wait_count wait_type
          || fired s.objects (s.waiters t))
unfolding evaluate
evaluate-is_satisfied s t any =
    or_timed_out-fired s t (first_signaled s t 0 (s.waiters t).wait_count)
    ∙ ground (arith, first_signaled-some_from s t 0 (s.waiters t).wait_count)
evaluate-is_satisfied s t all =
    rw (all_signaled-each_from s t 0 (s.waiters t).wait_count)
      (elim (Bool-cases (
        ltb 0 (s.waiters t).wait_count
        && each_from (signals s.objects t (s.waiters t)) 0 (s.waiters t).wait_count)) [
          | inl up ↦ rw up refl
          | inr down ↦ rw down (timed_out-fired s t)
        ])

pub evaluate_wait-is_satisfied :
    (s : State) (t : ℕ)
    → is_not_yet (evaluate_wait s t) ≡ not (is_satisfied s.objects t (s.waiters t))
evaluate_wait-is_satisfied s t = evaluate-is_satisfied s t (s.waiters t).wait_type

pub not_yet_of : (r : Satisfy) → is_not_yet r ≡ true → r ≡ not_yet
not_yet_of not_yet h = refl
not_yet_of timeout h = absurd (ground (arith, h))
not_yet_of all_of h = absurd (ground (arith, h))
not_yet_of (any_of i) h = absurd (ground (arith, h))

some_from_mono :
    (p q : ℕ → Bool) (i n : ℕ)
    → ((j : ℕ) → j < i + n → p j ≡ true → q j ≡ true)
    → some_from p i n ≡ true
    → some_from q i n ≡ true
some_from_mono p q i zero mono h = h
some_from_mono p q i (suc n) mono h = elim (Bool-cases (p i)) [
  | inl here ↦ ground (arith, mono i (omega arith) here)
  | inr other ↦
      ground (arith, h, other, some_from_mono p q (i + 1) n (λ j lt. mono j (omega (arith, lt))))
]

-- A test that holds at one of the numbers.
pub some_from_at :
    (p : ℕ → Bool) (i n k : ℕ) → i ≤ k → k < i + n → p k ≡ true → some_from p i n ≡ true
some_from_at p i zero k low high on = absurd (omega (arith, low, high))
some_from_at p i (suc n) k low high on = elim (Bool-cases (i == k)) [
  | inl here ↦ rw ((==_iff i k).0 here) (ground (arith, on))
  | inr other ↦
      ground
        (arith, some_from_at p (i + 1) n k (ground (arith, low, other)) (omega (arith, high)) on)
]

pub each_from_mono :
    (p q : ℕ → Bool) (i n : ℕ)
    → ((j : ℕ) → j < i + n → p j ≡ true → q j ≡ true)
    → each_from p i n ≡ true
    → each_from q i n ≡ true
each_from_mono p q i zero mono h = h
each_from_mono p q i (suc n) mono h =
    let here : p i ≡ true = ground (arith, h) in
    let rest : each_from p (i + 1) n ≡ true = ground (arith, h) in
    ground (
      arith,
      mono i (omega arith) here,
      each_from_mono p q (i + 1) n (λ j lt. mono j (omega (arith, lt))) rest,
    )

by_objects_mono :
    (p q : ℕ → Bool) (n : ℕ) (wait_type : WaitType)
    → ((j : ℕ) → j < n → p j ≡ true → q j ≡ true)
    → by_objects p n wait_type ≡ true
    → by_objects q n wait_type ≡ true
by_objects_mono p q n any mono h = some_from_mono p q 0 n (λ j lt. mono j (omega (arith, lt))) h
by_objects_mono p q n all mono h =
    let some_block : ltb 0 n ≡ true = ground (arith, h) in
    let each : each_from p 0 n ≡ true = ground (arith, h) in
    ground (arith, some_block, each_from_mono p q 0 n (λ j lt. mono j (omega (arith, lt))) each)

-- A wait stays unsatisfied when no object and no timer that it waits for became signaled.
pub unsatisfied_change :
    (f g : ℕ → DispatcherHeader) (t : ℕ) (w v : Waiter)
    → v.wait_type ≡ w.wait_type
    → v.wait_count ≡ w.wait_count
    → ((i : ℕ) → i < w.wait_count → signals g t v i ≡ true → signals f t w i ≡ true)
    → (fired g v ≡ true → fired f w ≡ true)
    → is_satisfied f t w ≡ false
    → is_satisfied g t v ≡ false
unsatisfied_change f g t w v kind count objects timer quiet =
    rw (kind, count)
      (elim (Bool-cases (by_objects (signals g t v) w.wait_count w.wait_type)) [
        | inl up ↦
            let before =
              by_objects_mono (signals g t v) (signals f t w) w.wait_count w.wait_type objects up in
            absurd (ground (arith, before, quiet))
        | inr down ↦ elim (Bool-cases (fired g v)) [
          | inr idle ↦ rw (down, idle) refl
          | inl up ↦ absurd (ground (arith, timer up, quiet))
        ]
      ])

pub unsatisfied_mono :
    (f g : ℕ → DispatcherHeader) (t : ℕ) (w : Waiter)
    → ((i : ℕ)
        → counted w i ≡ true
        → signaled_for t (g (w.wait_blocks i).object) ≡ true
        → signaled_for t (f (w.wait_blocks i).object) ≡ true)
    → (w.wait_timed ≡ true
        → positive (g (w.wait_blocks timer_wait_block).object).signal_state ≡ true
        → positive (f (w.wait_blocks timer_wait_block).object).signal_state ≡ true)
    → is_satisfied f t w ≡ false
    → is_satisfied g t w ≡ false
unfolding signaled_for
unsatisfied_mono f g t w objects timer quiet =
    unsatisfied_change f g t w w refl refl (λ i lt. objects i (ground (arith, lt)))
      (λ up.
        let timed : w.wait_timed ≡ true = ground (arith, up) in
        ground (arith, timed, timer timed (ground (arith, up))))
      quiet
