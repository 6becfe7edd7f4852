-- ===== src/Ke/Wait/Runs.antt =====
-- kernel/src/ke/scheduler.rs: what holds after the operations on objects in any order.
use nanokrnl.Base.{ℕ, ◌≡◌, sym, subst, false, Bool-cases, inl, inr, length}
use nanokrnl.Base.Int.{pos, ◌+ℤ◌}
use nanokrnl.Ke.Wait.{remove_timer, put_object, put_timer, State}
use nanokrnl.Ke.Wait.Operations.{
  ki_wait_for_objects, ki_signal_object, err, ok, ki_release_semaphore, ki_release_mutant,
  terminate, set_signal, update_earliest_locked,
}
use nanokrnl.Ke.Wait.Timers.{ke_set_timer, ke_cancel_timer, without_timer}
use nanokrnl.Ke.Wait.Valid.{}
use nanokrnl.Ke.Wait.Rounds.{IsSettled}
use nanokrnl.Ke.Wait.Release.{
  ki_signal_object-Woke, terminate-Woke, ki_reset_object-IsSettled, ki_release_semaphore-Woke,
  ki_release_mutant-Woke,
}
use nanokrnl.Ke.Wait.Poll.{ki_wait_for_objects-WaitDone}
use nanokrnl.Ke.Wait.Steps.{
  Step, signal, reset, semaphore, mutant, exit, wait, set_timer, cancel_timer, expire, Runs, start,
  then_step, IsSettled-same, IsSettled-alike, IsSettled-banks, Woke-IsSettled, timers-IsSettled,
  ki_expire_timers-IsSettled,
}

without_timer-IsSettled :
    (processors a : ℕ) (s : State)
    → IsSettled processors s
    → IsSettled processors (without_timer a s)
without_timer-IsSettled processors a s settled = elim (Bool-cases (s.timers a).inserted) [
  | inl inside ↦
      rw (without_timer, inside)
        (timers-IsSettled processors s.timers (remove_timer a s.timer_list) s.earliest_due s
          settled)
  | inr out ↦ rw (without_timer, out) settled
]

ke_set_timer-IsSettled :
    (processors a due_tick dpc : ℕ) (s : State)
    → IsSettled processors s
    → IsSettled processors (ke_set_timer a due_tick dpc s).0
ke_set_timer-IsSettled processors a due_tick dpc s settled =
    let s1 = set_signal a (pos 0) (without_timer a s) in
    let s2 = (ke_set_timer a due_tick dpc s).0 in
    timers-IsSettled processors s2.timers s2.timer_list s2.earliest_due s1 (
      ki_reset_object-IsSettled processors a (without_timer a s)
        (without_timer-IsSettled processors a s settled))

ke_cancel_timer-IsSettled :
    (processors a : ℕ) (s : State)
    → IsSettled processors s
    → IsSettled processors (ke_cancel_timer a s).0
ke_cancel_timer-IsSettled processors a s settled = elim (Bool-cases (s.timers a).inserted) [
  | inl inside ↦
      let s1 = update_earliest_locked (
        put_timer a (record (s.timers a) { inserted = false })
          (record s { timer_list = remove_timer a s.timer_list })) in
      rw inside (timers-IsSettled processors s1.timers s1.timer_list s1.earliest_due s settled)
  | inr out ↦ rw out settled
]

IsSettled-at : (p q : ℕ) (s : State) → p ≡ q → IsSettled p s → IsSettled q s
IsSettled-at p q s e settled = subst (λ n. IsSettled n s) e settled

Step-IsSettled :
    {s s1 : State} (processors : ℕ) → Step s s1 → IsSettled processors s → IsSettled processors s1
Step-IsSettled processors (signal cpu o prev s s1 lt e) settled =
    let (s2, e2, w) = ki_signal_object-Woke cpu o s lt (IsSettled-banks processors s settled) in
    IsSettled-same processors s2 s1 (s.objects o).signal_state prev (ki_signal_object cpu o s) e2 e
      (Woke-IsSettled processors cpu o s (set_signal o (pos 1) s) s2 settled.banks w)
Step-IsSettled processors (reset o s) settled = ki_reset_object-IsSettled processors o s settled
Step-IsSettled processors (semaphore cpu sem adjustment r s s1 lt whole e) settled =
    elim (ki_release_semaphore-Woke cpu sem adjustment s lt whole
      (IsSettled-banks processors s settled)) [
        | inl (refused, over) ↦
            IsSettled-same processors s s1 (err 0xc000_0047) r
              (ki_release_semaphore cpu sem adjustment s) refused e settled
        | inr (s2, new, e2, more, capped, under, w) ↦
            IsSettled-same processors s2 s1 (ok (s.objects sem).signal_state) r
              (ki_release_semaphore cpu sem adjustment s) e2 e
              (Woke-IsSettled processors cpu sem s (set_signal sem new s) s2 settled.banks w)
      ]
Step-IsSettled processors (mutant cpu cur m r s s1 lt small e) settled =
    let result = ki_release_mutant cpu cur m s in
    let previous = (s.objects m).signal_state in
    elim (ki_release_mutant-Woke cpu cur m s lt small (IsSettled-banks processors s settled)) [
      | inl (refused, other) ↦
          IsSettled-same processors s s1 (err 0xc000_0046) r result refused e settled
      | inr (inl (s2, e2, own, held, same, after)) ↦
          IsSettled-same processors s2 s1 (ok previous) r result e2 e
            (IsSettled-at (length s.dispatcher.banks) processors s2 settled.banks after)
      | inr (inr (s2, e2, own, free, w)) ↦
          IsSettled-same processors s2 s1 (ok previous) r result e2 e (
            Woke-IsSettled processors cpu m s
              (put_object m (record (s.objects m) { signal_state = previous +ℤ pos 1; owner = 0 })
                s)
              s2 settled.banks w)
    ]
Step-IsSettled processors (exit cpu o s s1 lt e) settled =
    let (s2, e2, w) = terminate-Woke cpu o s lt (IsSettled-banks processors s settled) in
    IsSettled-alike processors s2 s1 (terminate cpu o s) e2 e
      (Woke-IsSettled processors cpu o s (set_signal o (pos 1) s) s2 settled.banks w)
Step-IsSettled processors (wait cur objs wait_type timeout w s s1 runs own few plain small e)
      settled =
    let (s2, w2, e2, d) =
      ki_wait_for_objects-WaitDone cur objs wait_type timeout s
        (IsSettled-banks processors s settled) runs own few plain small in
    IsSettled-same processors s2 s1 w2 w (ki_wait_for_objects cur objs wait_type timeout s) e2 e
      (IsSettled-at (length s.dispatcher.banks) processors s2 settled.banks d.0)
Step-IsSettled processors (set_timer a due_tick dpc s) settled =
    ke_set_timer-IsSettled processors a due_tick dpc s settled
Step-IsSettled processors (cancel_timer a s) settled =
    ke_cancel_timer-IsSettled processors a s settled
Step-IsSettled processors (expire cpu dpcs s s1 lt e) settled =
    ki_expire_timers-IsSettled processors cpu s s1 dpcs (rw (sym settled.banks) lt) settled e

-- A state is settled when the lists of waiters hold the wait blocks of the threads that wait and no
-- other, each of at most three objects and active; no thread is blocked in a wait that its objects or
-- its timer satisfy; a live thread alone waits for the timer in it; and an object that is signaled for a
-- waiting thread counts at least -2 ^ 31 + 3. From a settled state, the operations on objects and
-- timers, as far as they return or block their callers, lead to settled states in any order. The
-- conditions on an operation: its processor has a bank. A thread that starts a wait runs and names at most
-- three objects, none of them the timer in a live thread; the due tick of its timer is below 2 ^ 64; and
-- each object that is signaled for it counts at least -2 ^ 31 + 3, so that no decrement wraps. The
-- semaphore released counts at least -2 ^ 31, and one more keeps the count of the mutant in 32 bits.
pub Runs-IsSettled :
    {s s1 : State} (processors : ℕ) → Runs s s1 → IsSettled processors s → IsSettled processors s1
Runs-IsSettled processors (start s) settled = settled
Runs-IsSettled processors (then_step s s1 s2 step rest) settled =
    Runs-IsSettled processors rest (Step-IsSettled processors step settled)
