-- ===== src/Ke/Wait/Wake.antt =====
-- kernel/src/ke/scheduler.rs: one thread that `ki_wait_test` wakes.
use nanokrnl.Base.{
  ℕ, ◌%◌, ◌<◌, ◌≡◌, ◌≢◌, refl, ap, ◌∙◌, sym, true, false, not, ◌&&◌, some, List, ◌==◌, ==_iff,
  Bool-cases, inl, inr, ==_refl, arith, length, length-set,
}
use nanokrnl.Ke.Ready.{Dispatcher, ReadyBank, queue_ready, push_tail, put_thread}
use nanokrnl.Ke.Ready.Changes.{ready_thread_total}
use nanokrnl.Ke.Wait.{
  Entry, DispatcherHeader, State, Waiter, signaled_for, timer_wait_block, timer_of, apply_consume,
  evaluate_wait, unlink_thread_waits, set_status, wake,
}
use nanokrnl.Ke.Wait.Lists.{has_entry, without, has_entry-without}
use nanokrnl.Ke.Wait.Unlink.{unlink_thread_waits-Keeps, unlink_thread_waits-without}
use nanokrnl.Ke.Wait.Keeping.{object_of, is_active, list_of, counts, relisted}
use nanokrnl.Ke.Wait.Evaluate.{is_satisfied, counted, unsatisfied_mono}
use nanokrnl.Ke.Wait.Consume.{IsSpendable, Milder, Milder-trans, Consumed, apply_consume-Consumed}
use nanokrnl.Ke.Wait.Valid.{
  is_waiting, is_waiting_state, is_live, is_live_state, live_of_waiting, IsValid,
}

-- The thread waits no longer and has left the lists; the objects signal no more to the others.
pub record Woken (t : ℕ) (s s1 : State) : Type 0 where
  pub lists : (o : ℕ) → list_of s1 o ≡ without t (list_of s o)
  pub waits : (u : ℕ) → is_waiting s1 u ≡ (is_waiting s u && not (u == t))
  pub lives : (u : ℕ) → is_live s1 u ≡ is_live s u
  pub others : (u : ℕ) → u ≢ t → s1.waiters u ≡ s.waiters u
  pub milder : (o : ℕ) → Milder t (s.objects o) (s1.objects o)
  pub header :
      (o : ℕ)
      → s1.objects o ≡ relisted ((apply_consume t (evaluate_wait s t) s).0.objects o) (list_of s1 o)
  pub offset : s1.timer_offset ≡ s.timer_offset
  pub banks : length s1.dispatcher.banks ≡ length s.dispatcher.banks

relisted-Milder : (t : ℕ) (h : DispatcherHeader) (es : List Entry) → Milder t h (relisted h es)
unfolding signaled_for
relisted-Milder t h es = record {
  positive_before = λ up. up;
  signaled_before = λ u ne up. up;
  stays = λ u ne up. inr refl;
}

-- The wait blocks of the thread belong to it before its lists are unlinked.
status_own :
    (t status : ℕ) (s s1 : State) (o : ℕ) (e : Entry)
    → IsValid s
    → is_waiting s t ≡ true
    → Consumed t s s1
    → has_entry e.waiter e.index (list_of s1 o) ≡ true
    → e.waiter ≡ t
    → (counts (set_status t status s1) t e.index
        && (is_active (set_status t status s1) t e.index
            && (object_of (set_status t status s1) t e.index == o)))
      ≡ true
status_own t status s s1 o e valid up c on mine =
    let linked : has_entry t e.index (list_of s o) ≡ true =
      ap (λ u. has_entry u e.index (list_of s o)) (sym mine)
      ∙ ap (has_entry e.waiter e.index) (sym (c.lists o))
      ∙ on in
    rw (counts, ==_refl t, ap (λ (f : ℕ → Waiter). f t) c.waiters)
      (ground (arith, linked, valid.linked t e.index o, valid.active t e.index up))

-- A thread that becomes ready does not wait, and no other changes.
queued_waits :
    (cpu t : ℕ) (b : ReadyBank) (d : Dispatcher) (u : ℕ)
    → is_waiting_state ((queue_ready cpu t b d).threads u).state
      ≡ (is_waiting_state (d.threads u).state && not (u == t))
queued_waits cpu t b d u = elim (Bool-cases (u == t)) [
  | inl here ↦ rw (put_thread, here) (ground arith)
  | inr other ↦ rw (put_thread, other) (ground arith)
]

-- It lives as it did before.
queued_lives :
    (cpu t : ℕ) (b : ReadyBank) (d : Dispatcher) (u : ℕ)
    → is_waiting_state (d.threads t).state ≡ true
    → is_live_state ((queue_ready cpu t b d).threads u).state ≡ is_live_state (d.threads u).state
queued_lives cpu t b d u up = elim (Bool-cases (u == t)) [
  | inl here ↦
      rw (put_thread, here)
        (sym (
          ap (λ (v : ℕ). is_live_state (d.threads v).state) ((==_iff u t).0 here)
          ∙ live_of_waiting (d.threads t).state up))
  | inr other ↦ rw (put_thread, other) refl
]

pub wake-Woken :
    (cpu t : ℕ) (s : State)
    → IsValid s
    → is_waiting s t ≡ true
    → cpu < length s.dispatcher.banks
    → IsSpendable t s (evaluate_wait s t)
    → (s1 : State) × (wake cpu t s ≡ some s1) × Woken t s s1
unfolding wake
wake-Woken cpu t s valid up lt room =
    let r = apply_consume t (evaluate_wait s t) s in
    let c : Consumed t s r.0 = apply_consume-Consumed t (evaluate_wait s t) s room in
    let s2 = set_status t r.1 r.0 in
    let s3 = unlink_thread_waits t s2 in
    let k = unlink_thread_waits-Keeps t s2 in
    let same_dispatcher : s3.dispatcher ≡ s.dispatcher = k.dispatcher ∙ c.dispatcher in
    let total = ready_thread_total cpu t s3.dispatcher (rw (k.dispatcher, c.dispatcher) lt) in
    let waiter : (u : ℕ) → u ≢ t → s3.waiters u ≡ s.waiters u =
      λ u ne. k.others u ne ∙ ground (arith, ne, ap (λ (f : ℕ → Waiter). f u) c.waiters) in
    (
      record s3 { dispatcher = queue_ready cpu t total.0 s3.dispatcher },
      rw total.1 refl,
      record {
        lists = λ o.
            unlink_thread_waits-without t s2 o
              (rw (==_refl t, ap (λ (f : ℕ → Waiter). f t) c.waiters) (valid.few t up))
              (λ e on mine. status_own t r.1 s r.0 o e valid up c on mine)
            ∙ ap (without t) (c.lists o);
        waits = λ u.
            queued_waits cpu t total.0 s3.dispatcher u
            ∙ ap (λ (d : Dispatcher). is_waiting_state (d.threads u).state && not (u == t))
                same_dispatcher;
        lives = λ u.
            queued_lives cpu t total.0 s3.dispatcher u
              (ap (λ (d : Dispatcher). is_waiting_state (d.threads t).state) same_dispatcher ∙ up)
            ∙ ap (λ (d : Dispatcher). is_live_state (d.threads u).state) same_dispatcher;
        others = λ u ne. waiter u ne;
        milder = λ o. rw (k.header o) (
            Milder-trans t (s.objects o) (r.0.objects o) (relisted (r.0.objects o) (list_of s3 o))
              (c.milder o) (relisted-Milder t (r.0.objects o) (list_of s3 o)));
        header = k.header;
        offset = k.offset ∙ c.offset;
        banks =
            length-set s3.dispatcher.banks cpu
              (push_tail total.0 ((s3.dispatcher.threads t).priority % 32) t)
            ∙ ap (λ (d : Dispatcher). length d.banks) same_dispatcher;
      },
    )

pub still_waiting :
    (t u : ℕ) (s s1 : State)
    → Woken t s s1
    → is_waiting s1 u ≡ true
    → (is_waiting s u ≡ true) × (u ≢ t)
still_waiting t u s s1 w up = (ground (arith, up, w.waits u), λ e. ground (arith, up, w.waits u, e))

-- The invariant is kept when a thread wakes.
pub Woken-IsValid : (t : ℕ) (s s1 : State) → Woken t s s1 → IsValid s → IsValid s1
Woken-IsValid t s s1 w valid =
    let entry : (u i o : ℕ)
        → has_entry u i (list_of s1 o) ≡ (has_entry u i (list_of s o) && not (u == t)) =
      λ u i o. ap (has_entry u i) (w.lists o) ∙ has_entry-without t u i (list_of s o) in
    record {
      few = λ u up.
          let before = still_waiting t u s s1 w up in
          rw (w.others u before.1) (valid.few u before.0);
      linked = λ u i o. elim (Bool-cases (u == t)) [
        | inl here ↦ ground (arith, entry u i o, w.waits u, here)
        | inr other ↦
            rw (counts, object_of, w.others u (λ e. ground (arith, e, other)))
              (ground (arith, entry u i o, w.waits u, other, valid.linked u i o))
      ];
      active = λ u i up c.
          let before = still_waiting t u s s1 w up in
          let same = w.others u before.1 in
          rw (is_active, same)
            (valid.active u i before.0 (ap (λ (x : Waiter). counted x i) (sym same) ∙ c));
      own_timer = λ u v i alive on.
          valid.own_timer u v i (ground (arith, w.lives u, alive))
            (rw (sym w.offset) (ground (arith, on, entry v i (timer_of s1 u))));
    }

-- The others are as unsatisfied as before.
pub Woken-unsatisfied :
    (t u : ℕ) (s s1 : State)
    → Woken t s s1
    → u ≢ t
    → is_satisfied s.objects u (s.waiters u) ≡ false
    → is_satisfied s1.objects u (s1.waiters u) ≡ false
Woken-unsatisfied t u s s1 w ne quiet = rw (w.others u ne) (
    unsatisfied_mono s.objects s1.objects u (s.waiters u)
      (λ i c now. (w.milder (object_of s u i)).signaled_before u ne now)
      (λ timed now. (w.milder (object_of s u timer_wait_block)).positive_before now) quiet)
