-- ===== src/Ke/Wait/Block.antt =====
-- kernel/src/ke/scheduler.rs: a thread that blocks keeps the lists of waiters and the blocks in agreement.
use nanokrnl.Base.{
  ℕ, ◌≤◌, ◌≡◌, ◌≢◌, ap, ◌∙◌, sym, true, false, ◌&&◌, ◌||◌, ◌==◌, ==_iff, Bool-cases, inl, inr,
  arith, length,
}
use nanokrnl.Ke.Wait.{State, positive, signaled_for, timer_wait_block, timer_of}
use nanokrnl.Ke.Wait.Lists.{has_entry}
use nanokrnl.Ke.Wait.Keeping.{object_of, is_active, list_of, counts}
use nanokrnl.Ke.Wait.Evaluate.{counted, is_satisfied, unsatisfied_mono}
use nanokrnl.Ke.Wait.Valid.{is_waiting, is_live, IsValid, IsQuiet, quiet_of, unsatisfied_of}
use nanokrnl.Ke.Wait.Room.{has_room}
use nanokrnl.Ke.Wait.Spend.{CanTake, IsRoomy}
use nanokrnl.Ke.Wait.Rounds.{IsSettled}

-- The thread waits now, with its blocks in the lists of their objects and nothing that satisfies it.
pub record BlockedOn (t : ℕ) (s s1 : State) : Type 0 where
  pub waits : (u : ℕ) → is_waiting s1 u ≡ (is_waiting s u || (u == t))
  pub lives : (u : ℕ) → is_live s1 u ≡ is_live s u
  pub others : (u : ℕ) → u ≢ t → s1.waiters u ≡ s.waiters u
  pub entries :
      (u i o : ℕ)
      → has_entry u i (list_of s1 o)
        ≡ (has_entry u i (list_of s o) || ((u == t) && (counts s1 t i && (object_of s1 t i == o))))
  pub few : (s1.waiters t).wait_count ≤ timer_wait_block
  pub active : (i : ℕ) → counts s1 t i ≡ true → is_active s1 t i ≡ true
  pub own :
      (i v : ℕ)
      → counts s1 t i ≡ true
      → is_live s v ≡ true
      → object_of s1 t i ≡ timer_of s1 v
      → t ≡ v
  pub positive_before :
      (o : ℕ)
      → positive (s1.objects o).signal_state ≡ true
      → positive (s.objects o).signal_state ≡ true
  pub signaled_before :
      (u o : ℕ) → signaled_for u (s1.objects o) ≡ true → signaled_for u (s.objects o) ≡ true
  pub same_signal :
      (u o : ℕ)
      → signaled_for u (s1.objects o) ≡ true
      → (s1.objects o).signal_state ≡ (s.objects o).signal_state
  pub offset : s1.timer_offset ≡ s.timer_offset
  pub banks : length s1.dispatcher.banks ≡ length s.dispatcher.banks
  pub unsatisfied : is_satisfied s1.objects t (s1.waiters t) ≡ false

waited_before :
    (t u : ℕ) (s s1 : State)
    → BlockedOn t s s1
    → is_waiting s1 u ≡ true
    → (u == t) ≡ false
    → (is_waiting s u ≡ true) × (u ≢ t)
waited_before t u s s1 b up other =
    (ground (arith, up, other, b.waits u), λ e. ground (arith, e, other))

BlockedOn-IsValid :
    (t : ℕ) (s s1 : State) → BlockedOn t s s1 → is_waiting s t ≡ false → IsValid s → IsValid s1
BlockedOn-IsValid t s s1 b idle valid = record {
  few = λ u up. elim (Bool-cases (u == t)) [
    | inl here ↦ rw ((==_iff u t).0 here) b.few
    | inr other ↦
        let before = waited_before t u s s1 b up other in
        rw (b.others u before.1) (valid.few u before.0)
  ];
  linked = λ u i o. elim (Bool-cases (u == t)) [
    | inl here ↦
        let same : u ≡ t = (==_iff u t).0 here in
        rw same (ground (arith, b.entries t i o, valid.linked t i o, idle, b.waits t))
    | inr other ↦
        rw (counts, object_of, b.others u (λ e. ground (arith, e, other)))
          (ground (arith, b.entries u i o, valid.linked u i o, b.waits u, other))
  ];
  active = λ u i up c. elim (Bool-cases (u == t)) [
    | inl here ↦
        let same : u ≡ t = (==_iff u t).0 here in
        rw same (b.active i (ap (λ (v : ℕ). counts s1 v i) (sym same) ∙ c))
    | inr other ↦
        let before = waited_before t u s s1 b up other in
        let same = b.others u before.1 in
        rw (is_active, same) (valid.active u i before.0 (ap (λ w. counted w i) (sym same) ∙ c))
  ];
  own_timer = λ v u i alive on. elim (Bool-cases (u == t)) [
    | inl here ↦
        let same : u ≡ t = (==_iff u t).0 here in
        let a = timer_of s1 v in
        let now : has_entry t i (list_of s1 a) ≡ true =
          ap (λ (w : ℕ). has_entry w i (list_of s1 a)) (sym same) ∙ on in
        let linked : (counts s1 t i && (object_of s1 t i == a)) ≡ true =
          ground (arith, now, b.entries t i a, valid.linked t i a, idle) in
        same
        ∙ b.own i v (ground (arith, linked)) (ground (arith, b.lives v, alive))
            ((==_iff (object_of s1 t i) a).0 (ground (arith, linked)))
    | inr other ↦
        valid.own_timer v u i (ground (arith, b.lives v, alive))
          (rw (sym b.offset) (ground (arith, on, other, b.entries u i (timer_of s1 v))))
  ];
}

BlockedOn-IsQuiet : (t : ℕ) (s s1 : State) → BlockedOn t s s1 → IsQuiet s → IsQuiet s1
BlockedOn-IsQuiet t s s1 b quiet = λ u up. quiet_of s1 u (elim (Bool-cases (u == t)) [
  | inl here ↦ rw ((==_iff u t).0 here) b.unsatisfied
  | inr other ↦
      let before = waited_before t u s s1 b up other in
      rw (b.others u before.1) (
        unsatisfied_mono s.objects s1.objects u (s.waiters u)
          (λ i c now. b.signaled_before u (object_of s u i) now)
          (λ timed now. b.positive_before (object_of s u timer_wait_block) now)
          (unsatisfied_of s u (quiet u before.0)))
])

-- The counts that are signaled for a thread are as before.
BlockedOn-IsRoomy : (t : ℕ) (s s1 : State) → BlockedOn t s s1 → CanTake t s → IsRoomy s → IsRoomy s1
BlockedOn-IsRoomy t s s1 b own room = λ u up o now.
    let before = b.signaled_before u o now in
    ap (has_room 3) (b.same_signal u o now) ∙ elim (Bool-cases (u == t)) [
      | inl here ↦
          own o (ap (λ (v : ℕ). signaled_for v (s.objects o)) (sym ((==_iff u t).0 here)) ∙ before)
      | inr other ↦ room u (waited_before t u s s1 b up other).0 o before
    ]

pub BlockedOn-IsSettled :
    (processors t : ℕ) (s s1 : State)
    → BlockedOn t s s1
    → is_waiting s t ≡ false
    → CanTake t s
    → IsSettled processors s
    → IsSettled processors s1
BlockedOn-IsSettled processors t s s1 b idle own settled = record {
  valid = BlockedOn-IsValid t s s1 b idle settled.valid;
  quiet = BlockedOn-IsQuiet t s s1 b settled.quiet;
  room = BlockedOn-IsRoomy t s s1 b own settled.room;
  banks = b.banks ∙ settled.banks;
}
