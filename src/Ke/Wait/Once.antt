-- ===== src/Ke/Wait/Once.antt =====
-- kernel/src/ke/scheduler.rs: after one wake, the signal of an event that resets itself is used up.
use nanokrnl.Base.{
  ℕ, ◌<◌, ◌≤◌, ◌≡◌, ◌≢◌, refl, ap, ◌∙◌, sym, subst, true, false, Option, none, some, ◌==◌, ==_iff,
  ==_refl, Bool-cases, inl, inr, arith, length,
}
use nanokrnl.Base.Int.{pos}
use nanokrnl.Ke.Wait.{
  synchronization_event, DispatcherHeader, State, positive, timer_wait_block, signaled_for,
  evaluate_wait, is_not_yet, not_yet, wake,
}
use nanokrnl.Ke.Wait.Operations.{set_signal, ki_signal_object}
use nanokrnl.Ke.Wait.Keeping.{object_of}
use nanokrnl.Ke.Wait.Evaluate.{not_yet_of, unsatisfied_mono}
use nanokrnl.Ke.Wait.Consume.{IsSpendable, apply_consume-Consumed}
use nanokrnl.Ke.Wait.Valid.{
  is_waiting, IsValid, IsQuiet, quiet_of, unsatisfied_of, put_object-IsValid,
}
use nanokrnl.Ke.Wait.Wake.{Woken, wake-Woken, still_waiting}
use nanokrnl.Ke.Wait.Spend.{IsRoomy, put_object-IsRoomy, evaluate_wait-IsSpendable}
use nanokrnl.Ke.Wait.Rounds.{Wakes, done, next, IsSettled}
use nanokrnl.Ke.Wait.Release.{ki_signal_object-Woke}
use nanokrnl.Ke.Wait.Single.{type_at, signal_at, consumed_clear}

-- The timer of a wait is not the object.
abbrev pub NoTimer : State → (o : ℕ) → Type 0
NoTimer s o =
    (t : ℕ)
    → is_waiting s t ≡ true
    → (s.waiters t).wait_timed ≡ true
    → object_of s t timer_wait_block ≢ o

-- The event is clear after the wake.
Woken-clear :
    (o t : ℕ) (s s1 : State)
    → IsQuiet s
    → IsSpendable t (set_signal o (pos 1) s) (evaluate_wait (set_signal o (pos 1) s) t)
    → type_at s o ≡ synchronization_event
    → NoTimer s o
    → is_waiting s t ≡ true
    → evaluate_wait (set_signal o (pos 1) s) t ≢ not_yet
    → Woken t (set_signal o (pos 1) s) s1
    → (signal_at s1 o ≡ pos 0) × (type_at s1 o ≡ synchronization_event)
Woken-clear o t s s1 quiet spend kind apart up satisfied w =
    let s0 = set_signal o (pos 1) s in
    let c = apply_consume-Consumed t (evaluate_wait s0 t) s0 spend in
    let kind0 : type_at s0 o ≡ synchronization_event = rw (type_at, ==_refl o) kind in
    let now : is_not_yet (evaluate_wait s0 t) ≡ false =
      elim (Bool-cases (is_not_yet (evaluate_wait s0 t))) [
        | inr up_now ↦ up_now
        | inl still ↦ absurd (satisfied (not_yet_of (evaluate_wait s0 t) still))
      ] in
    (
      ap (λ (h : DispatcherHeader). h.signal_state) (w.header o)
          ∙ consumed_clear o t s (s.waiters t).wait_type kind (unsatisfied_of s t (quiet t up))
              (apart t up) now,
      ap (λ (h : DispatcherHeader). h.object_type) (w.header o) ∙ c.types o ∙ kind0,
    )

clear_signaled :
    (u : ℕ) (h : DispatcherHeader)
    → h.signal_state ≡ pos 0
    → h.object_type ≡ synchronization_event
    → signaled_for u h ≡ false
unfolding signaled_for
clear_signaled u h clear kind = rw (clear, kind) refl

-- So no other wait is satisfied.
Woken-IsQuiet :
    (o t : ℕ) (s s1 : State)
    → IsQuiet s
    → IsSpendable t (set_signal o (pos 1) s) (evaluate_wait (set_signal o (pos 1) s) t)
    → type_at s o ≡ synchronization_event
    → NoTimer s o
    → is_waiting s t ≡ true
    → evaluate_wait (set_signal o (pos 1) s) t ≢ not_yet
    → Woken t (set_signal o (pos 1) s) s1
    → IsQuiet s1
Woken-IsQuiet o t s s1 quiet spend kind apart up satisfied w = λ u waits.
    let s0 = set_signal o (pos 1) s in
    let before = still_waiting t u s0 s1 w waits in
    let (clear, sync) = Woken-clear o t s s1 quiet spend kind apart up satisfied w in
    let other : (a : ℕ) → (a == o) ≡ false → s0.objects a ≡ s.objects a = λ a ne. rw ne refl in
    quiet_of s1 u (
      rw (w.others u before.1) (
        unsatisfied_mono s.objects s1.objects u (s.waiters u)
          (λ i c now. elim (Bool-cases (object_of s u i == o)) [
            | inl here ↦ absurd (
                ground (
                  arith,
                  now,
                  clear_signaled u (s1.objects o) clear sync,
                  ap (λ (a : ℕ). signaled_for u (s1.objects a))
                      ((==_iff (object_of s u i) o).0 here),
                ))
            | inr ne ↦
                ap (signaled_for u) (sym (other (object_of s u i) ne))
                ∙ (w.milder (object_of s u i)).signaled_before u before.1 now
          ])
          (λ timed now.
            let ne : (object_of s u timer_wait_block == o) ≡ false =
              ground (arith, apart u before.0 timed) in
            ap (λ (h : DispatcherHeader). positive h.signal_state)
              (sym (other (object_of s u timer_wait_block) ne))
            ∙ (w.milder (object_of s u timer_wait_block)).positive_before now)
          (unsatisfied_of s u (quiet u before.0))))

-- When a wake leaves no satisfied wait there is no second one.
Wakes-one :
    {cpu n : ℕ} {s0 s1 : State}
    → Wakes cpu s0 n s1
    → ((t : ℕ) (s2 : State)
        → is_waiting s0 t ≡ true
        → evaluate_wait s0 t ≢ not_yet
        → wake cpu t s0 ≡ some s2
        → IsQuiet s2)
    → n ≤ 1
Wakes-one (done s) quiet = omega arith
Wakes-one (next t s0 s1 s2 n up ne e (done s1')) quiet = omega arith
Wakes-one (next t s0 s1 s2 n up ne e (next u s1' s3 s4 m up' ne' e' rest)) quiet =
    absurd (ne' (quiet t s1' up ne e u up'))

state_or : State → Option State → State
state_or s none = s
state_or s (some s1) = s1

-- From a settled state and with a bank for `cpu`, the signal of a synchronization event that is not the
-- timer of a wait wakes one thread at most, whose wait is satisfied then; it returns the previous signal
-- state.
-- Settled includes that an object signaled for a waiting thread counts at least -2 ^ 31 + 3.
pub ki_signal_object-Wakes :
    (cpu o : ℕ) (s : State)
    → cpu < length s.dispatcher.banks
    → IsSettled (length s.dispatcher.banks) s
    → (s.objects o).object_type ≡ synchronization_event
    → ((t : ℕ)
        → is_waiting s t ≡ true
        → (s.waiters t).wait_timed ≡ true
        → object_of s t timer_wait_block ≢ o)
    → (s1 : State) × (n : ℕ) × (ki_signal_object cpu o s ≡ some (s1, (s.objects o).signal_state))
      × Wakes cpu (set_signal o (pos 1) s) n s1
      × (n ≤ 1)
unfolding state_or
ki_signal_object-Wakes cpu o s lt settled kind apart =
    let s0 = set_signal o (pos 1) s in
    let valid0 : IsValid s0 =
      put_object-IsValid o (record (s.objects o) { signal_state = pos 1 }) s refl settled.valid in
    let room0 : IsRoomy s0 =
      put_object-IsRoomy o (record (s.objects o) { signal_state = pos 1 }) s settled.room
        (λ u up now. refl) in
    let (s1, e, (n, steps, after, few)) = ki_signal_object-Woke cpu o s lt settled in
    (
      s1,
      n,
      e,
      steps,
      Wakes-one steps (λ t s2 up satisfied e2.
          let spend = evaluate_wait-IsSpendable t s0 (room0 t up) (valid0.few t up) in
          let (s3, e3, w) = wake-Woken cpu t s0 valid0 up lt spend in
          let same : s3 ≡ s2 = ap (state_or s3) (sym e3 ∙ e2) in
          subst IsQuiet same
            (Woken-IsQuiet o t s s3 settled.quiet spend kind apart up satisfied w)),
    )
