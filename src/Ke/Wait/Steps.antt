-- ===== src/Ke/Wait/Steps.antt =====
-- kernel/src/ke/scheduler.rs: the operations on objects in any order.
use nanokrnl.Base.{
  ℕ, ◌^◌, ◌<◌, ◌≤◌, ◌≡◌, ◌≢◌, refl, ap, ◌∙◌, sym, subst, true, false, ltb, Bool-cases, Option-cases,
  inl, inr, arith, length, List, [], ◌∷◌, get_or, Option, none, some, take,
}
use nanokrnl.Base.Int.{ℤ, pos, ◌+ℤ◌, fits}
use nanokrnl.Ke.Ready.{running}
use nanokrnl.Ke.Wait.{WaitType, State, timer_wait_block, timer_of, Ktimer, put_timer, remove_timer}
use nanokrnl.Ke.Wait.Operations.{
  Waited, ki_wait_for_objects, ki_signal_object, ki_reset_object, Released, ki_release_semaphore,
  ki_release_mutant, update_earliest_locked, terminate,
}
use nanokrnl.Ke.Wait.Timers.{
  expired, expire_timer, expire_all, ki_expire_timers, due_timers, ke_set_timer, ke_cancel_timer,
  add_dpc,
}
use nanokrnl.Ke.Wait.Valid.{is_live}
use nanokrnl.Ke.Wait.Room.{has_room}
use nanokrnl.Ke.Wait.Spend.{CanTake}
use nanokrnl.Ke.Wait.Rounds.{IsSettled}
use nanokrnl.Ke.Wait.Signal.{Eased, Eased-IsSettled}
use nanokrnl.Ke.Wait.Release.{Woke, put_object-Woke}
use nanokrnl.Ke.Wait.Poll.{fits_tick}

-- One operation that returns or blocks its caller. The caller of a wait runs; it waits for at most three
-- objects, none of them the timer in a thread; the due tick of its timer does not overflow; and the
-- objects that are signaled for it have room. The released counts stay 32-bit integers.
pub data Step : State → State → Type 0 where
  signal :
      (cpu o : ℕ) (prev : ℤ) (s s1 : State)
      → cpu < length s.dispatcher.banks
      → ki_signal_object cpu o s ≡ some (s1, prev)
      → Step s s1
  reset : (o : ℕ) (s : State) → Step s (ki_reset_object o s).0
  semaphore :
      (cpu sem : ℕ) (adjustment : ℤ) (r : Released) (s s1 : State)
      → cpu < length s.dispatcher.banks
      → has_room 0 (s.objects sem).signal_state ≡ true
      → ki_release_semaphore cpu sem adjustment s ≡ some (s1, r)
      → Step s s1
  mutant :
      (cpu cur m : ℕ) (r : Released) (s s1 : State)
      → cpu < length s.dispatcher.banks
      → fits (2 ^ 31) ((s.objects m).signal_state +ℤ pos 1) ≡ true
      → ki_release_mutant cpu cur m s ≡ some (s1, r)
      → Step s s1
  exit :
      (cpu o : ℕ) (s s1 : State)
      → cpu < length s.dispatcher.banks
      → terminate cpu o s ≡ some s1
      → Step s s1
  wait :
      (cur : ℕ) (objs : List ℕ) (wait_type : WaitType) (timeout : Option ℕ) (w : Waited)
      (s s1 : State)
      → (s.dispatcher.threads cur).state ≡ running
      → CanTake cur s
      → length objs ≤ timer_wait_block
      → ((i v : ℕ) → i < length objs → is_live s v ≡ true → get_or objs i 0 ≢ timer_of s v)
      → fits_tick s timeout ≡ true
      → ki_wait_for_objects cur objs wait_type timeout s ≡ some (s1, w)
      → Step s s1
  set_timer : (a due_tick dpc : ℕ) (s : State) → Step s (ke_set_timer a due_tick dpc s).0
  cancel_timer : (a : ℕ) (s : State) → Step s (ke_cancel_timer a s).0
  expire :
      (cpu : ℕ) (dpcs : List ℕ) (s s1 : State)
      → cpu < length s.dispatcher.banks
      → ki_expire_timers cpu s ≡ some (s1, dpcs)
      → Step s s1

pub data Runs : State → State → Type 0 where
  start : (s : State) → Runs s s
  then_step : (s s1 s2 : State) → Step s s1 → Runs s1 s2 → Runs s s2

state_of : {A : Type 0} → State → Option (State × A) → State
state_of s none = s
state_of s (some (s1, a)) = s1

-- An operation has one result.
pub IsSettled-same :
    {A : Type 0} (processors : ℕ) (s1 s2 : State) (a b : A) (r : Option (State × A))
    → r ≡ some (s1, a)
    → r ≡ some (s2, b)
    → IsSettled processors s1
    → IsSettled processors s2
unfolding state_of
IsSettled-same processors s1 s2 a b r e1 e2 settled =
    subst (IsSettled processors) (ap (state_of s1) (sym e1 ∙ e2)) settled

-- The timers and their list decide nothing about the waits.
timers-Eased :
    (timers : ℕ → Ktimer) (timer_list : List ℕ) (earliest_due : ℕ) (s : State)
    → Eased s (record s { timers = timers; timer_list = timer_list; earliest_due = earliest_due })
timers-Eased timers timer_list earliest_due s = record {
  waits = λ u. refl;
  lives = λ u. refl;
  others = λ u up. refl;
  lists = λ o. refl;
  offset = refl;
  banks = refl;
  positive_before = λ o now. now;
  signaled_before = λ u o up now. now;
}

pub timers-IsSettled :
    (processors : ℕ) (timers : ℕ → Ktimer) (timer_list : List ℕ) (earliest_due : ℕ) (s : State)
    → IsSettled processors s
    → IsSettled processors
        (record s { timers = timers; timer_list = timer_list; earliest_due = earliest_due })
timers-IsSettled processors timers timer_list earliest_due s settled =
    Eased-IsSettled processors s
      (record s { timers = timers; timer_list = timer_list; earliest_due = earliest_due })
      (timers-Eased timers timer_list earliest_due s) settled.room settled

state_or : State → Option State → State
state_or s none = s
state_or s (some s1) = s1

pub IsSettled-alike :
    (processors : ℕ) (s1 s2 : State) (r : Option State)
    → r ≡ some s1
    → r ≡ some s2
    → IsSettled processors s1
    → IsSettled processors s2
unfolding state_or
IsSettled-alike processors s1 s2 r e1 e2 settled =
    subst (IsSettled processors) (ap (state_or s1) (sym e1 ∙ e2)) settled

-- The number of processors is the number of banks.
pub IsSettled-banks :
    (processors : ℕ) (s : State) → IsSettled processors s → IsSettled (length s.dispatcher.banks) s
IsSettled-banks processors s settled = record {
  valid = settled.valid;
  quiet = settled.quiet;
  room = settled.room;
  banks = refl;
}

-- What a call that wakes threads leaves.
pub Woke-IsSettled :
    (processors cpu o : ℕ) (s s0 s1 : State)
    → length s.dispatcher.banks ≡ processors
    → Woke cpu o s s0 s1
    → IsSettled processors s1
Woke-IsSettled processors cpu o s s0 s1 banks w = subst (λ p. IsSettled p s1) banks w.2

-- The timer that expires wakes the threads that wait for it.
expire_timer-IsSettled :
    (processors cpu a : ℕ) (s s1 : State)
    → cpu < processors
    → IsSettled processors s
    → expire_timer cpu a s ≡ some s1
    → IsSettled processors s1
unfolding expire_timer
expire_timer-IsSettled processors cpu a s s1 lt settled e =
    elim (Bool-cases (s.timers a).inserted) [
      | inr out ↦ absurd (ground (arith, rw out at e))
      | inl inside ↦
          let s0 =
            put_timer a (record (s.timers a) { inserted = false })
              (record s { timer_list = remove_timer a s.timer_list }) in
          let settled0 =
            timers-IsSettled processors s0.timers s0.timer_list s.earliest_due s settled in
          let (s2, woke, e2, w) =
            put_object-Woke cpu a (record (s.objects a) { signal_state = pos 1 }) s0 refl
              (rw settled.banks lt) (λ u up now. refl) (IsSettled-banks processors s0 settled0) in
          IsSettled-alike processors s2 s1 (expire_timer cpu a s) (rw (inside, e2) refl) e
            (Woke-IsSettled processors cpu a s0 (expired a s) s2 settled.banks w)
    ]

expire_all-IsSettled :
    (processors cpu : ℕ) (as_ : List ℕ) (s s1 : State) (dpcs dpcs1 : List ℕ)
    → cpu < processors
    → IsSettled processors s
    → expire_all cpu as_ s dpcs ≡ some (s1, dpcs1)
    → IsSettled processors s1
unfolding expire_all
expire_all-IsSettled processors cpu [] s s1 dpcs dpcs1 lt settled e =
    IsSettled-same processors s s1 dpcs dpcs1 (some (s, dpcs)) refl e settled
expire_all-IsSettled processors cpu (a ∷ as_) s s1 dpcs dpcs1 lt settled e =
    elim (Option-cases (expire_timer cpu a s)) [
      | inl crash ↦ absurd (ground (arith, crash, e))
      | inr (s2, e2) ↦
          expire_all-IsSettled processors cpu as_ s2 s1 (add_dpc (s2.timers a).dpc dpcs) dpcs1 lt
            (expire_timer-IsSettled processors cpu a s s2 lt settled e2) (rw e2 at e)
    ]

pub ki_expire_timers-IsSettled :
    (processors cpu : ℕ) (s s1 : State) (dpcs : List ℕ)
    → cpu < processors
    → IsSettled processors s
    → ki_expire_timers cpu s ≡ some (s1, dpcs)
    → IsSettled processors s1
unfolding ki_expire_timers
ki_expire_timers-IsSettled processors cpu s s1 dpcs lt settled e =
    let now = s.dispatcher.tick_count in
    let due = take 16 (due_timers s.timers now s.timer_list) in
    elim (Bool-cases (ltb now s.earliest_due)) [
      | inl early ↦
          IsSettled-same processors s s1 [] dpcs (ki_expire_timers cpu s) (rw early refl) e settled
      | inr late ↦ elim (Option-cases (expire_all cpu due s [])) [
        | inl crash ↦ absurd (ground (arith, rw (late, crash) at e))
        | inr ((s2, dpcs2), e2) ↦
            IsSettled-same processors (update_earliest_locked s2) s1 dpcs2 dpcs
              (ki_expire_timers cpu s) (rw (late, e2) refl) e
              (timers-IsSettled processors s2.timers s2.timer_list
                (update_earliest_locked s2).earliest_due s2
                (expire_all-IsSettled processors cpu due s s2 [] dpcs2 lt settled e2))
      ]
    ]
