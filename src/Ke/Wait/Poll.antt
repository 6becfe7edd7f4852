-- ===== src/Ke/Wait/Poll.antt =====
-- kernel/src/ke/scheduler.rs: `ki_wait_for_objects` returns at once or blocks, and keeps the invariant.
use nanokrnl.Base.{
  ℕ, sym, ==_refl, ◌+◌, ◌^◌, ◌<◌, ◌≤◌, ◌≡◌, ◌≢◌, refl, ap, ◌∙◌, Bool, true, false, not, ◌&&◌, ltb,
  leb, Bool-cases, inl, inr, arith, length, List, get_or, Option, none, some, max,
}
use nanokrnl.Ke.Ready.{Dispatcher, running}
use nanokrnl.Ke.Wait.{
  WaitType, State, Waiter, timer_wait_block, timer_of, evaluate_wait, apply_consume, is_not_yet,
}
use nanokrnl.Ke.Wait.Operations.{
  laid_out, link_blocks, arm_timer, arm_timeout, set_waiting, Waited, returned, blocked, is_poll,
  ki_wait_for_objects, max_wait_blocks,
}
use nanokrnl.Ke.Wait.Evaluate.{evaluate_wait-is_satisfied}
use nanokrnl.Ke.Wait.Consume.{IsSpendable, Consumed, apply_consume-Consumed}
use nanokrnl.Ke.Wait.Valid.{is_waiting, is_waiting_state, is_live, is_live_state}
use nanokrnl.Ke.Wait.Spend.{CanTake, Milder-CanTake, evaluate_wait-IsSpendable}
use nanokrnl.Ke.Wait.Rounds.{IsSettled}
use nanokrnl.Ke.Wait.Signal.{Eased, Eased-IsSettled}
use nanokrnl.Ke.Wait.Block.{BlockedOn, BlockedOn-IsSettled}
use nanokrnl.Ke.Wait.Enter.{Listed, Listed-BlockedOn}
use nanokrnl.Ke.Wait.Arm.{laid_out-Listed}
use nanokrnl.Ke.Wait.Timed.{timed-BlockedOn}
use nanokrnl.Ke.Wait.Armed.{timed}

waiting_ne : (t u : ℕ) (s : State) → is_waiting s t ≡ false → is_waiting s u ≡ true → u ≢ t
waiting_ne t u s idle up = λ e. ground (arith, idle, up, ap (is_waiting s) e)

-- The blocks of a thread that does not wait may be laid out anew.
laid_out-Eased :
    (objs : List ℕ) (wait_type : WaitType) (s : State) (t : ℕ)
    → is_waiting s t ≡ false
    → Eased s (laid_out objs wait_type s t)
laid_out-Eased objs wait_type s t idle = record {
  waits = λ u. refl;
  lives = λ u. refl;
  others = λ u up. ground (arith, waiting_ne t u s idle up);
  lists = λ o. refl;
  offset = refl;
  banks = refl;
  positive_before = λ o now. now;
  signaled_before = λ u o up now. now;
}

-- A thread that does not wait may take from objects.
Consumed-Eased : (t : ℕ) (s s1 : State) → Consumed t s s1 → is_waiting s t ≡ false → Eased s s1
Consumed-Eased t s s1 c idle = record {
  waits = λ u. ap (λ (d : Dispatcher). is_waiting (record s { dispatcher = d }) u) c.dispatcher;
  lives = λ u. ap (λ (d : Dispatcher). is_live (record s { dispatcher = d }) u) c.dispatcher;
  others = λ u up. ap (λ (f : ℕ → Waiter). f u) c.waiters;
  lists = c.lists;
  offset = c.offset;
  banks = ap (λ (d : Dispatcher). length d.banks) c.dispatcher;
  positive_before = λ o now. (c.milder o).positive_before now;
  signaled_before = λ u o up now. (c.milder o).signaled_before u (waiting_ne t u s idle up) now;
}

abbrev pub is_blocked : Waited → Bool
is_blocked blocked = true
is_blocked (returned status) = false

-- The due tick of the timer does not overflow.
abbrev pub fits_tick : State → Option ℕ → Bool
fits_tick s none = true
fits_tick s (some ticks) = ltb (s.dispatcher.tick_count + max ticks 1) (2 ^ 64)

arm_timeout-BlockedOn :
    (t n : ℕ) (timeout : Option ℕ) (s s1 : State)
    → IsSettled (length s.dispatcher.banks) s
    → is_live s t ≡ true
    → is_waiting s t ≡ false
    → fits_tick s timeout ≡ true
    → Listed t n s s1
    → (s2 : State) × (arm_timeout t timeout s1 ≡ some s2) × BlockedOn t s (set_waiting t s2)
unfolding arm_timer arm_timeout
arm_timeout-BlockedOn t n none s s1 settled alive idle small l =
    (s1, refl, Listed-BlockedOn t n s s1 alive l)
arm_timeout-BlockedOn t n (some ticks) s s1 settled alive idle small l =
    let due = s1.dispatcher.tick_count + max ticks 1 in
    let below : leb (2 ^ 64) due ≡ false =
      rw (ap (λ (d : Dispatcher). d.tick_count) l.dispatcher) (ground (arith, small)) in
    (timed t due s1, rw below refl, timed-BlockedOn t due n s s1 settled.valid alive idle l)

-- The outcome of a wait: it ended at once, as the state had it or since it only polls, or the thread
-- is blocked.
abbrev pub WaitDone :
    (cur : ℕ) (objs : List ℕ) → WaitType → Option ℕ → State → State → Waited → Type 0
WaitDone cur objs wait_type timeout s s1 w =
    IsSettled (length s.dispatcher.banks) s1
    × (is_waiting s1 cur ≡ is_blocked w)
    × (is_blocked w
        ≡ (is_not_yet (evaluate_wait (laid_out objs wait_type s cur) cur) && not (is_poll timeout)))

-- From a settled state, a running thread that waits for at most three objects, none of them the timer
-- in a live thread, with a due tick below 2 ^ 64, where each object that is signaled for it counts at
-- least -2 ^ 31 + 3, either returns from `ki_wait_for_objects` at once or
-- waits in the end. It blocks just when its wait is not yet satisfied and does not poll, and the state
-- is settled in either case.
-- Settled includes that an object signaled for a waiting thread counts at least -2 ^ 31 + 3.
pub ki_wait_for_objects-WaitDone :
    (cur : ℕ) (objs : List ℕ) (wait_type : WaitType) (timeout : Option ℕ) (s : State)
    → IsSettled (length s.dispatcher.banks) s
    → (s.dispatcher.threads cur).state ≡ running
    → CanTake cur s
    → length objs ≤ timer_wait_block
    → ((i v : ℕ) → i < length objs → is_live s v ≡ true → get_or objs i 0 ≢ timer_of s v)
    → fits_tick s timeout ≡ true
    → (s1 : State) × (w : Waited) × (ki_wait_for_objects cur objs wait_type timeout s
        ≡ some (s1, w))
      × WaitDone cur objs wait_type timeout s s1 w
unfolding ki_wait_for_objects
ki_wait_for_objects-WaitDone cur objs wait_type timeout s settled runs own few plain small =
    let idle : is_waiting s cur ≡ false = ap is_waiting_state runs in
    let alive : is_live s cur ≡ true = ap is_live_state runs in
    let s1 = laid_out objs wait_type s cur in
    let r = evaluate_wait s1 cur in
    let processors = length s.dispatcher.banks in
    let in_range : ltb max_wait_blocks (length objs) ≡ false = ground (arith, few) in
    let settled1 : IsSettled processors s1 =
      Eased-IsSettled processors s s1 (laid_out-Eased objs wait_type s cur idle) settled.room
        settled in
    let spend : IsSpendable cur s1 r =
      evaluate_wait-IsSpendable cur s1 own (rw (==_refl cur) few) in
    elim (Bool-cases (is_not_yet r)) [
      | inr up ↦
          let c = apply_consume-Consumed cur r s1 spend in
          let e = Consumed-Eased cur s1 (apply_consume cur r s1).0 c idle in
          (
            (apply_consume cur r s1).0,
            returned (apply_consume cur r s1).1,
            rw (in_range, up) refl,
            (
              Eased-IsSettled processors s1 (apply_consume cur r s1).0 e
                  (λ u up.
                    Milder-CanTake cur u s1 (apply_consume cur r s1).0 c.milder
                      (waiting_ne cur u s1 idle (sym (e.waits u) ∙ up))
                      (settled1.room u (sym (e.waits u) ∙ up)))
                  settled1,
              e.waits cur ∙ idle,
              rw up refl,
            ),
          )
      | inl quiet ↦ elim (Bool-cases (is_poll timeout)) [
        | inl poll ↦ (
          s1,
          returned 0x102,
          rw (in_range, quiet, poll) refl,
          (settled1, idle, rw (quiet, poll) refl),
        )
        | inr wait ↦
            let l =
              laid_out-Listed objs wait_type s cur few plain
                (ground (arith, quiet, evaluate_wait-is_satisfied s1 cur)) in
            let (s2, e, b) =
              arm_timeout-BlockedOn cur (length objs) timeout s (link_blocks cur (length objs) s1)
                settled alive idle small l in
            (
              set_waiting cur s2,
              blocked,
              rw (in_range, quiet, wait, e) refl,
              (
                BlockedOn-IsSettled processors cur s (set_waiting cur s2) b idle own settled,
                b.waits cur ∙ ground arith,
                rw (quiet, wait) refl,
              ),
            )
      ]
    ]
