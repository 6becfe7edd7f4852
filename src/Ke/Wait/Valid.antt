-- ===== src/Ke/Wait/Valid.antt =====
-- kernel/src/ke/scheduler.rs: the lists of waiters and the wait blocks of the threads agree, and a wait
-- that is satisfied is not left blocked.
use nanokrnl.Base.{
  ℕ, ◌≤◌, ◌≡◌, refl, ap, ◌∙◌, sym, Bool, true, false, not, ◌&&◌, List, ◌==◌, ==_iff, Bool-cases,
  inl, inr, arith,
}
use nanokrnl.Ke.Ready.{ThreadState, initialized, ready, running, waiting, terminated}
use nanokrnl.Ke.Wait.{
  Entry, DispatcherHeader, State, positive, signaled_for, timer_wait_block, timer_of, evaluate_wait,
  not_yet, put_object,
}
use nanokrnl.Ke.Wait.Lists.{has_entry, lists, lists_of_entry, entry_of_lists}
use nanokrnl.Ke.Wait.Keeping.{object_of, is_active, list_of, counts}
use nanokrnl.Ke.Wait.Evaluate.{
  is_satisfied, unsatisfied_mono, evaluate_wait-is_satisfied, not_yet_of,
}

abbrev pub is_waiting_state : ThreadState → Bool
is_waiting_state waiting = true
is_waiting_state initialized = false
is_waiting_state ready = false
is_waiting_state running = false
is_waiting_state terminated = false

-- A thread that has started.
abbrev pub is_live_state : ThreadState → Bool
is_live_state initialized = false
is_live_state waiting = true
is_live_state ready = true
is_live_state running = true
is_live_state terminated = true

pub live_of_waiting : (x : ThreadState) → is_waiting_state x ≡ true → is_live_state x ≡ true
live_of_waiting waiting up = refl
live_of_waiting initialized up = up
live_of_waiting ready up = refl
live_of_waiting running up = refl
live_of_waiting terminated up = refl

abbrev pub is_waiting : State → (t : ℕ) → Bool
is_waiting s t = is_waiting_state (s.dispatcher.threads t).state

abbrev pub is_live : State → (t : ℕ) → Bool
is_live s t = is_live_state (s.dispatcher.threads t).state

-- The list of an object holds the blocks that wait for it, of the threads that wait, and no other; such
-- a block is active; and only a thread itself waits for the timer in it.
pub record IsValid (s : State) : Type 0 where
  pub few : (t : ℕ) → is_waiting s t ≡ true → (s.waiters t).wait_count ≤ timer_wait_block
  pub linked :
      (t i o : ℕ)
      → has_entry t i (list_of s o) ≡ (is_waiting s t && (counts s t i && (object_of s t i == o)))
  pub active : (t i : ℕ) → is_waiting s t ≡ true → counts s t i ≡ true → is_active s t i ≡ true
  pub own_timer :
      (t u i : ℕ) → is_live s t ≡ true → has_entry u i (list_of s (timer_of s t)) ≡ true → u ≡ t

-- No thread is blocked in a wait that its objects or its timer satisfy.
abbrev pub IsQuiet : State → Type 0
IsQuiet s = (t : ℕ) → is_waiting s t ≡ true → evaluate_wait s t ≡ not_yet

-- The same, but for the threads in a list of waiters.
abbrev pub QuietBut : List Entry → State → Type 0
QuietBut es s =
    (t : ℕ)
    → is_waiting s t ≡ true
    → lists t es ≡ false
    → is_satisfied s.objects t (s.waiters t) ≡ false

pub unsatisfied_of :
    (s : State) (t : ℕ)
    → evaluate_wait s t ≡ not_yet
    → is_satisfied s.objects t (s.waiters t) ≡ false
unsatisfied_of s t e = ground (arith, evaluate_wait-is_satisfied s t, e)

pub quiet_of :
    (s : State) (t : ℕ)
    → is_satisfied s.objects t (s.waiters t) ≡ false
    → evaluate_wait s t ≡ not_yet
quiet_of s t e = not_yet_of (evaluate_wait s t) (evaluate_wait-is_satisfied s t ∙ ap (λ b. not b) e)

-- A thread in a list waits.
pub waiting_of_lists :
    (s : State) (t o : ℕ) → IsValid s → lists t (list_of s o) ≡ true → is_waiting s t ≡ true
waiting_of_lists s t o valid on =
    let e = entry_of_lists t (list_of s o) on in ground (arith, e.1, valid.linked t e.0 o)

-- A thread that is in the list of no block's object does not wait for it.
pub other_object :
    (s : State) (t i o : ℕ)
    → IsValid s
    → is_waiting s t ≡ true
    → lists t (list_of s o) ≡ false
    → counts s t i ≡ true
    → (object_of s t i == o) ≡ false
other_object s t i o valid up off counts_i = elim (Bool-cases (object_of s t i == o)) [
  | inr other ↦ other
  | inl here ↦
      let on : has_entry t i (list_of s o) ≡ true =
        valid.linked t i o ∙ ground (arith, up, counts_i, here) in
      absurd (ground (arith, lists_of_entry t i (list_of s o) on, off))
]

-- A new state of one object with the same list keeps the lists.
pub put_object-IsValid :
    (o : ℕ) (h : DispatcherHeader) (s : State)
    → h.wait_list ≡ list_of s o
    → IsValid s
    → IsValid (put_object o h s)
put_object-IsValid o h s same valid =
    let list : (a : ℕ) → list_of (put_object o h s) a ≡ list_of s a = λ a.
      elim (Bool-cases (a == o)) [
        | inl here ↦ rw (list_of, here) (same ∙ ap (list_of s) (sym ((==_iff a o).0 here)))
        | inr other ↦ rw (list_of, other) refl
      ] in
    record {
      few = valid.few;
      linked = λ t i a. rw (list a) (valid.linked t i a);
      active = valid.active;
      own_timer = λ t u i alive on.
          valid.own_timer t u i alive (ap (has_entry u i) (sym (list (timer_of s t))) ∙ on);
    }

-- and leaves the threads that do not wait for the object as they were.
pub put_object-QuietBut :
    (o : ℕ) (h : DispatcherHeader) (s : State)
    → h.wait_list ≡ list_of s o
    → IsValid s
    → IsQuiet s
    → QuietBut h.wait_list (put_object o h s)
put_object-QuietBut o h s same valid quiet = λ t up off.
    let w = s.waiters t in
    let off_list : lists t (list_of s o) ≡ false = ap (lists t) (sym same) ∙ off in
    let same_object : (i : ℕ)
        → counts s t i ≡ true
        → (put_object o h s).objects (object_of s t i) ≡ s.objects (object_of s t i) =
      λ i c. rw (other_object s t i o valid up off_list c) refl in
    unsatisfied_mono s.objects (put_object o h s).objects t w
      (λ i c now. ap (signaled_for t) (sym (same_object i c)) ∙ now)
      (λ timed now.
        ap (λ (g : DispatcherHeader). positive g.signal_state)
          (sym (same_object timer_wait_block (ground (arith, timed))))
        ∙ now)
      (unsatisfied_of s t (quiet t up))
