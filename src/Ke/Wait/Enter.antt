-- ===== src/Ke/Wait/Enter.antt =====
-- kernel/src/ke/scheduler.rs: the blocks of a thread that is about to block, with and without a timer.
use nanokrnl.Base.{
  ℕ, ◌+◌, ◌≤◌, ◌≡◌, ◌≢◌, refl, ap, ◌∙◌, sym, true, false, ◌&&◌, ◌||◌, ◌==◌, ltb, ==_iff, Bool-cases,
  inl, inr, arith, length, List,
}
use nanokrnl.Ke.Ready.{Dispatcher, put_thread}
use nanokrnl.Ke.Wait.{
  Entry, DispatcherHeader, State, positive, signaled_for, timer_wait_block, timer_of,
}
use nanokrnl.Ke.Wait.Operations.{set_waiting}
use nanokrnl.Ke.Wait.Lists.{has_entry}
use nanokrnl.Ke.Wait.Keeping.{object_of, is_active, list_of, counts, relisted}
use nanokrnl.Ke.Wait.Evaluate.{is_satisfied}
use nanokrnl.Ke.Wait.Valid.{is_waiting, is_live, is_live_state, is_waiting_state}
use nanokrnl.Ke.Wait.Block.{BlockedOn}

-- The first `n` blocks of the thread are in the lists of their objects, which are not timers of threads,
-- and the wait is not satisfied.
pub record Listed (t n : ℕ) (s s1 : State) : Type 0 where
  pub few : n ≤ timer_wait_block
  pub count : (s1.waiters t).wait_count ≡ n
  pub untimed : (s1.waiters t).wait_timed ≡ false
  pub others : (u : ℕ) → u ≢ t → s1.waiters u ≡ s.waiters u
  pub entries :
      (u i o : ℕ)
      → has_entry u i (list_of s1 o)
        ≡ (has_entry u i (list_of s o) || ((u == t) && (ltb i n && (object_of s1 t i == o))))
  pub active : (i : ℕ) → ltb i n ≡ true → is_active s1 t i ≡ true
  pub plain : (i v : ℕ) → ltb i n ≡ true → is_live s v ≡ true → object_of s1 t i ≢ timer_of s v
  pub header : (o : ℕ) → s1.objects o ≡ relisted (s.objects o) (list_of s1 o)
  pub dispatcher : s1.dispatcher ≡ s.dispatcher
  pub offset : s1.timer_offset ≡ s.timer_offset
  pub unsatisfied : is_satisfied s1.objects t (s1.waiters t) ≡ false

-- A thread that is set to wait waits, and no other changes.
pub set_waiting_lem :
    (t : ℕ) (s : State) (u : ℕ) → is_waiting (set_waiting t s) u ≡ (is_waiting s u || (u == t))
set_waiting_lem t s u = elim (Bool-cases (u == t)) [
  | inl here ↦ rw (is_waiting, put_thread, here) (ground arith)
  | inr other ↦ rw (is_waiting, put_thread, other) (ground arith)
]

pub set_waiting_lives :
    (t : ℕ) (s : State) (u : ℕ) → is_live s t ≡ true → is_live (set_waiting t s) u ≡ is_live s u
set_waiting_lives t s u alive = elim (Bool-cases (u == t)) [
  | inl here ↦ rw (is_live, put_thread, here) (sym (ap (is_live s) ((==_iff u t).0 here) ∙ alive))
  | inr other ↦ rw (is_live, put_thread, other) refl
]

-- A header with another list of waiters.
pub relisted_signaled :
    (u : ℕ) (h : DispatcherHeader) (es : List Entry)
    → signaled_for u (relisted h es) ≡ signaled_for u h
unfolding signaled_for
relisted_signaled u h es = refl

Listed-counts : (t n : ℕ) (s s1 : State) → Listed t n s s1 → (i : ℕ) → counts s1 t i ≡ ltb i n
Listed-counts t n s s1 l i = rw (counts, l.count, l.untimed) (ground arith)

-- Without a timer the thread only has to wait.
pub Listed-BlockedOn :
    (t n : ℕ) (s s1 : State)
    → is_live s t ≡ true
    → Listed t n s s1
    → BlockedOn t s (set_waiting t s1)
Listed-BlockedOn t n s s1 alive l =
    let count = Listed-counts t n s s1 l in
    record {
      waits = λ u.
          set_waiting_lem t s1 u
          ∙ ap (λ (d : Dispatcher). is_waiting_state (d.threads u).state || (u == t)) l.dispatcher;
      lives = λ u.
          set_waiting_lives t s1 u
            (ap (λ (d : Dispatcher). is_live_state (d.threads t).state) l.dispatcher ∙ alive)
          ∙ ap (λ (d : Dispatcher). is_live_state (d.threads u).state) l.dispatcher;
      others = l.others;
      entries = λ u i o. ground (arith, l.entries u i o, count i);
      few = rw l.count l.few;
      active = λ i c. l.active i (ground (arith, count i, c));
      own = λ i v c alive e.
          absurd
            (l.plain i v (ground (arith, count i, c)) alive (e ∙ ap (λ (k : ℕ). v + k) l.offset));
      positive_before =
          λ o now. ap (λ (h : DispatcherHeader). positive h.signal_state) (sym (l.header o)) ∙ now;
      signaled_before = λ u o now.
          sym (relisted_signaled u (s.objects o) (list_of s1 o))
          ∙ ap (signaled_for u) (sym (l.header o))
          ∙ now;
      same_signal = λ u o now. ap (λ (h : DispatcherHeader). h.signal_state) (l.header o);
      offset = l.offset;
      banks = ap (λ (d : Dispatcher). length d.banks) l.dispatcher;
      unsatisfied = l.unsatisfied;
    }
