-- ===== src/Ke/Wait/Spend.antt =====
-- kernel/src/ke/scheduler.rs: a satisfied wait may take from its objects without a wrap of a count.
use nanokrnl.Base.{
  ℕ, zero, suc, ◌+◌, ◌<◌, ◌≤◌, ◌≡◌, ◌≢◌, refl, ap, ◌∙◌, sym, Bool, true, ◌&&◌, ◌==◌, ltb, some,
  ==_iff, Bool-cases, Option-cases, inl, inr, arith,
}
use nanokrnl.Ke.Wait.{
  DispatcherHeader, State, WaitType, all, any, signaled_for, first_signaled, all_signaled, evaluate,
  evaluate_wait, timed_out, positive, put_object, timer_wait_block,
}
use nanokrnl.Ke.Wait.Room.{has_room, room_less, room_positive}
use nanokrnl.Ke.Wait.Consume.{IsSpendable, Milder}
use nanokrnl.Ke.Wait.Evaluate.{signals, each_from, all_signaled-each_from}
use nanokrnl.Ke.Wait.Valid.{is_waiting}
use nanokrnl.Ke.Wait.Wake.{Woken, still_waiting}

-- The objects that are signaled for the thread have room for three decrements.
abbrev pub CanTake : (t : ℕ) → State → Type 0
CanTake t s =
    (o : ℕ) → signaled_for t (s.objects o) ≡ true → has_room 3 (s.objects o).signal_state ≡ true

-- So for each thread that waits.
abbrev pub IsRoomy : State → Type 0
IsRoomy s = (t : ℕ) → is_waiting s t ≡ true → CanTake t s

pub first_signaled-some :
    (s : State) (t i n k : ℕ)
    → first_signaled s t i n ≡ some k
    → (i ≤ k) × (k < i + n) × (signals s.objects t (s.waiters t) k ≡ true)
unfolding first_signaled signaled_for
first_signaled-some s t i zero k e = absurd (ground (arith, e))
first_signaled-some s t i (suc n) k e = elim (Bool-cases (signals s.objects t (s.waiters t) i)) [
  | inl here ↦
      let same : i ≡ k = ground (arith, rw here at e) in
      (omega (arith, same), omega (arith, same), rw (sym same) here)
  | inr other ↦
      let rest = first_signaled-some s t (i + 1) n k (rw other at e) in
      (omega (arith, rest.0), omega (arith, rest.1), rest.2)
]

each_from_at : (p : ℕ → Bool) (i n j : ℕ) → each_from p i n ≡ true → i ≤ j → j < i + n → p j ≡ true
each_from_at p i zero j h low high = absurd (omega (arith, low, high))
each_from_at p i (suc n) j h low high = elim (Bool-cases (i == j)) [
  | inl here ↦ ap p (sym ((==_iff i j).0 here)) ∙ ground (arith, h)
  | inr other ↦
      each_from_at p (i + 1) n j (ground (arith, h)) (ground (arith, low, other))
        (omega (arith, high))
]

timed_out-IsSpendable : (t : ℕ) (s : State) → IsSpendable t s (timed_out s t)
timed_out-IsSpendable t s =
    elim (Bool-cases (
      (s.waiters t).wait_timed
      && positive (s.objects ((s.waiters t).wait_blocks timer_wait_block).object).signal_state)) [
        | inl up ↦ rw up refl
        | inr down ↦ rw down refl
      ]

-- What `evaluate` finds is signaled, so it has room.
evaluate-IsSpendable :
    (t : ℕ) (s : State) (kind : WaitType)
    → CanTake t s
    → (s.waiters t).wait_count ≤ timer_wait_block
    → IsSpendable t s (evaluate s t kind)
unfolding evaluate
evaluate-IsSpendable t s any room few =
    elim (Option-cases (first_signaled s t 0 (s.waiters t).wait_count)) [
      | inl nothing ↦ rw nothing (timed_out-IsSpendable t s)
      | inr (k, e) ↦ rw e (
          let found = first_signaled-some s t 0 (s.waiters t).wait_count k e in
          let o = ((s.waiters t).wait_blocks k).object in
          room_less 3 1 (s.objects o).signal_state (omega arith) (room o found.2))
    ]
evaluate-IsSpendable t s all room few =
    let n = (s.waiters t).wait_count in
    elim (Bool-cases (ltb 0 n && all_signaled s t 0 n)) [
      | inl on ↦ rw on (λ j lt.
          let o = ((s.waiters t).wait_blocks j).object in
          let up : each_from (signals s.objects t (s.waiters t)) 0 n ≡ true =
            sym (all_signaled-each_from s t 0 n) ∙ ground (arith, on) in
          room_less 3 n (s.objects o).signal_state few (
            room o (
              each_from_at (signals s.objects t (s.waiters t)) 0 n j up (omega arith)
                (omega (arith, lt)))))
      | inr off ↦ rw off (timed_out-IsSpendable t s)
    ]

pub evaluate_wait-IsSpendable :
    (t : ℕ) (s : State)
    → CanTake t s
    → (s.waiters t).wait_count ≤ timer_wait_block
    → IsSpendable t s (evaluate_wait s t)
evaluate_wait-IsSpendable t s room few = evaluate-IsSpendable t s (s.waiters t).wait_type room few

-- What a thread took leaves room for the others.
pub Milder-CanTake :
    (t u : ℕ) (s s1 : State)
    → ((o : ℕ) → Milder t (s.objects o) (s1.objects o))
    → u ≢ t
    → CanTake u s
    → CanTake u s1
Milder-CanTake t u s s1 milder ne room = λ o up. elim ((milder o).stays u ne up) [
  | inl more ↦ room_positive 3 (s1.objects o).signal_state (omega arith) more
  | inr same ↦ ap (has_room 3) same ∙ room o ((milder o).signaled_before u ne up)
]

pub Woken-IsRoomy : (t : ℕ) (s s1 : State) → Woken t s s1 → IsRoomy s → IsRoomy s1
Woken-IsRoomy t s s1 w room = λ u up.
    let before = still_waiting t u s s1 w up in
    Milder-CanTake t u s s1 w.milder before.1 (room u before.0)

-- One object with a new header that has room.
pub put_object-IsRoomy :
    (o : ℕ) (h : DispatcherHeader) (s : State)
    → IsRoomy s
    → ((u : ℕ) → is_waiting s u ≡ true → signaled_for u h ≡ true → has_room 3 h.signal_state ≡ true)
    → IsRoomy (put_object o h s)
put_object-IsRoomy o h s room own = λ u up a now. elim (Bool-cases (a == o)) [
  | inl here ↦
      let e : (put_object o h s).objects a ≡ h = rw here refl in
      ap (λ (g : DispatcherHeader). has_room 3 g.signal_state) e
      ∙ own u up (ap (signaled_for u) (sym e) ∙ now)
  | inr other ↦
      let e : (put_object o h s).objects a ≡ s.objects a = rw other refl in
      ap (λ (g : DispatcherHeader). has_room 3 g.signal_state) e
      ∙ room u up a (ap (signaled_for u) (sym e) ∙ now)
]
