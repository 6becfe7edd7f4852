-- ===== src/Ke/Wait/Tests.antt =====
-- kernel/src/ke/scheduler.rs: a thread waits for an event, a semaphore and a mutant, on one processor.
use nanokrnl.Base.{
  ℕ, zero, suc, ap, ◌+◌, ◌≤◌, ◌<◌, Bool-cases, ◌≡◌, ◌≢◌, ◌⊎◌, refl, true, false, ◌||◌, ◌==◌,
  if◌then◌else◌, inl, inr, arith, length, List, [], ◌∷◌, get_or, Option, none, some, replicate,
}
use nanokrnl.Base.Int.{ℤ, pos, ltb_ℤ}
use nanokrnl.Ke.Ready.{initialized, running}
use nanokrnl.Ke.Wait.{
  evaluate, all_signaled, first_signaled, signaled_for, any, synchronization_event,
  DispatcherHeader, State, positive, put_object,
}
use nanokrnl.Ke.Wait.Operations.{
  link_block, arm_timer, earliest_of, arm_timeout, ki_wait_for_objects, ki_signal_object,
  ki_release_semaphore, ki_release_mutant, set_waiting, link_blocks, laid_out, set_signal, ok, err,
  Waited, blocked, returned,
}
use nanokrnl.Ke.Wait.Valid.{is_waiting, is_live, IsValid}
use nanokrnl.Ke.Wait.Objects.{new_event, new_semaphore, new_mutant, ki_delay_thread}
use nanokrnl.Ke.Wait.Lists.{has_entry}
use nanokrnl.Ke.Wait.Room.{has_room, IsCapped}
use nanokrnl.Ke.Wait.Rounds.{Wakes, IsSettled}
use nanokrnl.Ke.Wait.Once.{ki_signal_object-Wakes}
use nanokrnl.Ke.Wait.Release.{
  Woke, ki_signal_object-Woke, ki_release_semaphore-Woke, ki_release_mutant-Woke,
}
use nanokrnl.Ke.Wait.Poll.{WaitDone, ki_wait_for_objects-WaitDone}
use nanokrnl.Ke.Wait.Steps.{Runs, start, then_step, wait}
use nanokrnl.Ke.Wait.Runs.{Runs-IsSettled}

-- The event is 8000, the semaphore 8100, and the mutant 8200, which thread 600 owns.
abbrev objects_at : ℕ → DispatcherHeader
objects_at o =
    if o == 8100
    then new_semaphore (pos 0) (pos 10)
    else if o == 8200
    then record new_mutant { signal_state = pos 0; owner = 600 }
    else new_event synchronization_event false

-- Before any wait.
abbrev idle_state : State
idle_state = record {
  objects = objects_at;
  waiters = λ t. record {
    wait_blocks = λ i. record { object = 0; wait_key = 0; active = false };
    wait_type = any;
    wait_count = 0;
    wait_timed = false;
    wait_status = 0;
  };
  timers = λ a. record { due_tick = 0; inserted = false; dpc = 0 };
  timer_list = [];
  earliest_due = 0;
  timer_offset = 64;
  dispatcher = record {
    banks = record { queues = replicate 32 []; summary = 0; count = 0 } ∷ [];
    threads = λ t. record {
      priority = 8;
      base_priority = 8;
      boosted = false;
      state = if (t == 500) || (t == 600) then running else initialized;
      ready_since = 0;
    };
    steals = 0;
    tick_count = 77;
  };
}

no_waiters : (o : ℕ) → (objects_at o).wait_list ≡ []
no_waiters o = ground arith

idle_lem : (t : ℕ) → is_waiting idle_state t ≡ false
idle_lem t = elim (Bool-cases ((t == 500) || (t == 600))) [
  | inl on ↦ rw (is_waiting, on) refl
  | inr off ↦ rw (is_waiting, off) refl
]

idle_state-IsValid : IsValid idle_state
idle_state-IsValid = record {
  few = λ t up. absurd (ground (arith, up, idle_lem t));
  linked = λ t i o. ground (arith, ap (has_entry t i) (no_waiters o), idle_lem t);
  active = λ t i up c. absurd (ground (arith, up, idle_lem t));
  own_timer =
      λ t u i alive on. absurd (ground (arith, on, ap (has_entry u i) (no_waiters (t + 64))));
}

idle_state-IsSettled : IsSettled 1 idle_state
idle_state-IsSettled = record {
  valid = idle_state-IsValid;
  quiet = λ t up. absurd (ground (arith, up, idle_lem t));
  room = λ t up. absurd (ground (arith, up, idle_lem t));
  banks = refl;
}

-- Thread 500 waits for any of the three.
abbrev waited : List ℕ
waited = 8000 ∷ 8100 ∷ 8200 ∷ []

abbrev blocked_state : State
blocked_state = set_waiting 500 (link_blocks 500 3 (laid_out waited any idle_state 500))

-- No count is negative.
room_lem : (o : ℕ) → has_room 3 (objects_at o).signal_state ≡ true
room_lem o = ground arith

live_lem : (t : ℕ) → is_live idle_state t ≡ true → ((t == 500) || (t == 600)) ≡ true
live_lem t alive = elim (Bool-cases ((t == 500) || (t == 600))) [
  | inl on ↦ on
  | inr off ↦ absurd (ground (arith, off, alive))
]

not_timers :
    (i v : ℕ) → i < length waited → is_live idle_state v ≡ true → get_or waited i 0 ≢ v + 64
not_timers zero v lt alive e = ground (arith, e, live_lem v alive)
not_timers (suc zero) v lt alive e = ground (arith, e, live_lem v alive)
not_timers (suc (suc zero)) v lt alive e = ground (arith, e, live_lem v alive)
not_timers (suc (suc (suc i))) v lt alive e = absurd (omega (arith, lt))

ki_wait_for_objects-WaitDone_example :
    (s1 : State) × (w : Waited) × (ki_wait_for_objects 500 waited any none idle_state
      ≡ some (s1, w))
    × WaitDone 500 waited any none idle_state s1 w
ki_wait_for_objects-WaitDone_example =
    ki_wait_for_objects-WaitDone 500 waited any none idle_state idle_state-IsSettled refl
      (λ o now. room_lem o) (omega arith) not_timers refl

blocks : ki_wait_for_objects 500 waited any none idle_state ≡ some (blocked_state, blocked)
unfolding ki_wait_for_objects evaluate first_signaled signaled_for link_blocks link_block
    arm_timeout
blocks = refl

blocked_run : Runs idle_state blocked_state
blocked_run =
    then_step idle_state blocked_state blocked_state
      (wait 500 waited any none blocked idle_state blocked_state refl (λ o now. room_lem o)
        (omega arith) not_timers refl blocks)
      (start blocked_state)

Runs-IsSettled_example : IsSettled 1 blocked_state
unfolding link_blocks link_block
Runs-IsSettled_example = Runs-IsSettled 1 blocked_run idle_state-IsSettled

blocked-IsSettled : IsSettled 1 blocked_state
unfolding link_blocks link_block
blocked-IsSettled = Runs-IsSettled 1 blocked_run idle_state-IsSettled

ki_signal_object-Woke_example :
    (s1 : State) × (ki_signal_object 0 8000 blocked_state ≡ some (s1, pos 0))
    × Woke 0 8000 blocked_state (set_signal 8000 (pos 1) blocked_state) s1
unfolding link_blocks link_block
ki_signal_object-Woke_example =
    ki_signal_object-Woke 0 8000 blocked_state (omega arith) blocked-IsSettled

ki_release_semaphore-Woke_example :
    ((ki_release_semaphore 0 8100 (pos 2) blocked_state ≡ some (blocked_state, err 0xc000_0047))
      × ((ltb_ℤ (pos 0) (pos 2) ≡ false)
          ⊎ ((new : ℤ) × IsCapped (pos 0) (pos 2) new × (ltb_ℤ (pos 10) new ≡ true))))
    ⊎ ((s1 : State) × (new : ℤ) × (ki_release_semaphore 0 8100 (pos 2) blocked_state
          ≡ some (s1, ok (pos 0)))
        × (ltb_ℤ (pos 0) (pos 2) ≡ true)
        × IsCapped (pos 0) (pos 2) new
        × (ltb_ℤ (pos 10) new ≡ false)
        × Woke 0 8100 blocked_state (set_signal 8100 new blocked_state) s1)
unfolding link_blocks link_block
ki_release_semaphore-Woke_example =
    ki_release_semaphore-Woke 0 8100 (pos 2) blocked_state (omega arith) refl blocked-IsSettled

ki_release_mutant-Woke_example :
    ((ki_release_mutant 0 600 8200 blocked_state ≡ some (blocked_state, err 0xc000_0046))
      × ((600 == 600) ≡ false))
    ⊎ (((s1 : State) × (ki_release_mutant 0 600 8200 blocked_state ≡ some (s1, ok (pos 0)))
          × ((600 == 600) ≡ true)
          × (positive (pos 1) ≡ false)
          × (s1 ≡ set_signal 8200 (pos 1) blocked_state)
          × IsSettled 1 s1)
        ⊎ ((s1 : State) × (ki_release_mutant 0 600 8200 blocked_state ≡ some (s1, ok (pos 0)))
            × ((600 == 600) ≡ true)
            × (positive (pos 1) ≡ true)
            × Woke 0 8200 blocked_state
                (put_object 8200
                  (record (blocked_state.objects 8200) { signal_state = pos 1; owner = 0 })
                  blocked_state)
                s1))
unfolding link_blocks link_block
ki_release_mutant-Woke_example =
    ki_release_mutant-Woke 0 600 8200 blocked_state (omega arith) refl blocked-IsSettled

-- The state, status and due tick of a sleeping thread.
due_of : Option (State × Waited) → Option (ℕ × ℕ)
due_of none = none
due_of (some (s, returned status)) = none
due_of (some (s, blocked)) = some (s.earliest_due, (s.timers (500 + s.timer_offset)).due_tick)

sleeps : due_of (ki_delay_thread 500 3 idle_state) ≡ some (80, 80)
unfolding due_of ki_wait_for_objects evaluate all_signaled signaled_for link_blocks link_block
    arm_timeout arm_timer earliest_of
sleeps = refl

untimed : (t : ℕ) → (blocked_state.waiters t).wait_timed ≡ false
unfolding link_blocks link_block
untimed t = elim (Bool-cases (t == 500)) [ inl here ↦ rw here refl | inr other ↦ rw other refl ]

ki_signal_object-Wakes_example :
    (s1 : State) × (n : ℕ) × (ki_signal_object 0 8000 blocked_state ≡ some (s1, pos 0))
    × Wakes 0 (set_signal 8000 (pos 1) blocked_state) n s1
    × (n ≤ 1)
unfolding link_blocks link_block
ki_signal_object-Wakes_example =
    ki_signal_object-Wakes 0 8000 blocked_state (omega arith) blocked-IsSettled refl
      (λ t up timed. absurd (ground (arith, timed, untimed t)))
