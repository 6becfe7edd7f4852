-- ===== src/Ke/Wait.antt =====
-- kernel/src/ke/scheduler.rs and kernel/src/ke/dispatcher.rs: dispatcher objects and the threads that
-- wait for them. Objects and threads are named by address, 0 is null. A list of waiters is the
-- list of its wait blocks, each named by its thread and its index, head first. The signal states are 32-bit
-- integers. An operation returns `none` where the code panics or the fuel of its loop ends.
-- The caller holds the dispatcher lock; `cpu` is the processor that runs the code.
pub mod Room
pub mod Timers
pub mod Operations
pub mod Objects
pub mod Lists
pub mod Keeping
pub mod Unlink
pub mod Evaluate
pub mod Valid
pub mod Wake
pub mod Spend
pub mod Rounds
pub mod Signal
pub mod Release
pub mod Single
pub mod Once
pub mod Block
pub mod Link
pub mod Enter
pub mod Arm
pub mod Armed
pub mod Timed
pub mod Poll
pub mod Steps
pub mod Runs
mod Tests
pub mod Consume
use nanokrnl.Base.{
  ℕ, zero, suc, ◌+◌, ◌-◌, ◌%◌, ◌^◌, max, min, Bool, true, false, not, ◌&&◌, ◌||◌, Option, none,
  some, List, [], ◌∷◌, ◌++◌, ◌==◌, ltb, leb, if◌then◌else◌, ◌>>=◌, length, get_or,
}
use nanokrnl.Base.Int.{ℤ, pos, negsuc, ◌+ℤ◌, ◌-ℤ◌, ltb_ℤ, fits}
use nanokrnl.Ke.Ready.{Kthread, ThreadState, waiting, Dispatcher, put_thread, ready_thread_locked}

pub data ObjectType : Type 0 where
  notification_event synchronization_event mutant semaphore thread timer : ObjectType

-- A wait block of a thread, in a list of waiters.
pub record Entry : Type 0 where
  pub waiter : ℕ
  pub index : ℕ

-- A header, with the owner of the mutant and the limit of the semaphore that it may be part of.
pub record DispatcherHeader : Type 0 where
  pub object_type : ObjectType
  pub signal_state : ℤ
  pub wait_list : List Entry
  pub owner : ℕ
  pub limit : ℤ

pub record KwaitBlock : Type 0 where
  pub object : ℕ
  pub wait_key : ℕ
  pub active : Bool

pub data WaitType : Type 0 where
  all any : WaitType

-- The fields of a thread that a wait uses.
pub record Waiter : Type 0 where
  pub wait_blocks : ℕ → KwaitBlock
  pub wait_type : WaitType
  pub wait_count : ℕ
  pub wait_timed : Bool
  pub wait_status : ℕ

-- The fields of a timer besides its header, which has the same address.
pub record Ktimer : Type 0 where
  pub due_tick : ℕ
  pub inserted : Bool
  pub dpc : ℕ

-- `timer_offset` is the place of the header of `wait_timer` in a thread.
pub record State : Type 0 where
  pub objects : ℕ → DispatcherHeader
  pub waiters : ℕ → Waiter
  pub timers : ℕ → Ktimer
  pub timer_list : List ℕ
  pub earliest_due : ℕ
  pub timer_offset : ℕ
  pub dispatcher : Dispatcher

pub data Satisfy : Type 0 where
  not_yet timeout all_of : Satisfy
  any_of : (i : ℕ) → Satisfy

abbrev pub timer_wait_block : ℕ
timer_wait_block = 3

abbrev pub put_object : ℕ → DispatcherHeader → State → State
put_object o h s = record s { objects = λ a. if a == o then h else s.objects a }

abbrev pub put_waiter : ℕ → Waiter → State → State
put_waiter t w s = record s { waiters = λ a. if a == t then w else s.waiters a }

abbrev pub put_timer : ℕ → Ktimer → State → State
put_timer a k s = record s { timers = λ b. if b == a then k else s.timers b }

abbrev pub positive : ℤ → Bool
positive x = ltb_ℤ (pos 0) x

abbrev pub is_mutant : ObjectType → Bool
is_mutant mutant = true
is_mutant notification_event = false
is_mutant synchronization_event = false
is_mutant semaphore = false
is_mutant thread = false
is_mutant timer = false

unfoldable pub signaled_for : (t : ℕ) → DispatcherHeader → Bool
signaled_for t h =
    if positive h.signal_state
    then true
    else if is_mutant h.object_type
    then h.owner == t
    else false

-- The loops of `evaluate_wait` over `n` blocks from `i` on.
unfoldable pub first_signaled : (s : State) (t i n : ℕ) → Option ℕ
unfolding signaled_for
first_signaled s t i zero = none
first_signaled s t i (suc n) =
    let rest = first_signaled s t (i + 1) n in
    if signaled_for t (s.objects ((s.waiters t).wait_blocks i).object) then some i else rest

unfoldable pub all_signaled : (s : State) (t i n : ℕ) → Bool
unfolding signaled_for
all_signaled s t i zero = true
all_signaled s t i (suc n) =
    signaled_for t (s.objects ((s.waiters t).wait_blocks i).object) && all_signaled s t (i + 1) n

-- The end of `evaluate_wait`.
abbrev pub timed_out : (s : State) (t : ℕ) → Satisfy
timed_out s t =
    if (s.waiters t).wait_timed
      && positive (s.objects ((s.waiters t).wait_blocks timer_wait_block).object).signal_state
    then timeout
    else not_yet

abbrev pub or_timed_out : (s : State) (t : ℕ) → Option ℕ → Satisfy
or_timed_out s t none = timed_out s t
or_timed_out s t (some i) = any_of i

unfoldable pub evaluate : (s : State) (t : ℕ) → WaitType → Satisfy
evaluate s t any = or_timed_out s t (first_signaled s t 0 (s.waiters t).wait_count)
evaluate s t all =
    if ltb 0 (s.waiters t).wait_count && all_signaled s t 0 (s.waiters t).wait_count
    then all_of
    else timed_out s t

abbrev pub evaluate_wait : (s : State) (t : ℕ) → Satisfy
evaluate_wait s t = evaluate s t (s.waiters t).wait_type

-- `signal_state -= 1` on 32 bits; it wraps at -2 ^ 31, where an overflow check panics.
abbrev pub decreased : ℤ → ℤ
decreased x = if fits (2 ^ 31) (x -ℤ pos 1) then x -ℤ pos 1 else pos (2 ^ 31 - 1)

-- `signal_state += 1`, likewise.
abbrev pub increased : ℤ → ℤ
increased x = if fits (2 ^ 31) (x +ℤ pos 1) then x +ℤ pos 1 else negsuc (2 ^ 31 - 1)

-- What a wait takes from an object of each type.
abbrev pub taken : (t : ℕ) → DispatcherHeader → ObjectType → DispatcherHeader
taken t h synchronization_event = record h { signal_state = pos 0 }
taken t h semaphore = record h { signal_state = decreased h.signal_state }
taken t h mutant = record h { signal_state = decreased h.signal_state; owner = t }
taken t h notification_event = h
taken t h thread = h
taken t h timer = h

unfoldable pub satisfy_object_for : (o t : ℕ) → State → State
satisfy_object_for o t s = put_object o (taken t (s.objects o) (s.objects o).object_type) s

-- The loop of `apply_consume` over `n` blocks from `i` on.
unfoldable pub satisfy_all : (t i n : ℕ) → State → State
unfolding satisfy_object_for
satisfy_all t i zero s = s
satisfy_all t i (suc n) s =
    satisfy_all t (i + 1) n (satisfy_object_for ((s.waiters t).wait_blocks i).object t s)

unfoldable pub apply_consume : (t : ℕ) → Satisfy → State → State × ℕ
unfolding satisfy_object_for satisfy_all
apply_consume t (any_of i) s = (
  satisfy_object_for ((s.waiters t).wait_blocks i).object t s,
  (0 + ((s.waiters t).wait_blocks i).wait_key) % 2 ^ 32,
)
apply_consume t all_of s = (satisfy_all t 0 (s.waiters t).wait_count s, 0)
apply_consume t timeout s = (s, 0x102)
apply_consume t not_yet s = (s, 0xc000_0001)

-- The entries for which `p` holds.
unfoldable pub keep : (p : Entry → Bool) → List Entry → List Entry
keep p [] = []
keep p (e ∷ es) = let rest = keep p es in if p e then e ∷ rest else rest

-- `ListEntry::remove` of the block's entry, in the list of the object that it waits for.
abbrev pub remove_entry : (t i : ℕ) → List Entry → List Entry
remove_entry t i es = keep (λ e. not ((e.waiter == t) && (e.index == i))) es

-- One block of `unlink_thread_waits`, with what it does on an active block.
abbrev pub unlinked : (t i : ℕ) → KwaitBlock → State → State
unlinked t i b s =
    let h = s.objects b.object in
    let w = s.waiters t in
    put_waiter t
      (record w {
        wait_blocks = λ j. if j == i then record b { active = false } else w.wait_blocks j;
      })
      (put_object b.object (record h { wait_list = remove_entry t i h.wait_list }) s)

unfoldable pub unlink_block : (t i : ℕ) → State → State
unlink_block t i s =
    if ((s.waiters t).wait_blocks i).active then unlinked t i ((s.waiters t).wait_blocks i) s else s

-- The blocks from 0 to `n - 1`, in this order.
unfoldable pub unlink_blocks : (t n : ℕ) → State → State
unfolding unlink_block
unlink_blocks t zero s = s
unlink_blocks t (suc n) s = unlink_block t n (unlink_blocks t n s)

unfoldable pub remove_timer : (a : ℕ) → List ℕ → List ℕ
remove_timer a [] = []
remove_timer a (b ∷ bs) = let rest = remove_timer a bs in if b == a then rest else b ∷ rest

abbrev pub timer_of : State → (t : ℕ) → ℕ
timer_of s t = t + s.timer_offset

-- The timer of the thread leaves the active timers.
unfoldable pub cancel_wait_timer : (t : ℕ) → State → State
unfolding remove_timer
cancel_wait_timer t s =
    if (s.timers (timer_of s t)).inserted
    then put_timer (timer_of s t) (record (s.timers (timer_of s t)) { inserted = false })
        (record s { timer_list = remove_timer (timer_of s t) s.timer_list })
    else s

abbrev pub clear_timed : (t : ℕ) → State → State
clear_timed t s = put_waiter t (record (s.waiters t) { wait_timed = false }) s

unfoldable pub unlink_thread_waits : (t : ℕ) → State → State
unfolding unlink_blocks unlink_block cancel_wait_timer
unlink_thread_waits t s =
    let s1 = unlink_blocks t (s.waiters t).wait_count s in
    if (s.waiters t).wait_timed
    then clear_timed t (cancel_wait_timer t (unlink_block t timer_wait_block s1))
    else s1

abbrev pub set_status : (t status : ℕ) → State → State
set_status t status s = put_waiter t (record (s.waiters t) { wait_status = status }) s

abbrev pub make_ready : (cpu t : ℕ) → State → Option State
make_ready cpu t s =
    ready_thread_locked cpu t s.dispatcher >>= λ d. some (record s { dispatcher = d })

-- The body of the loop of `ki_wait_test` at the thread that it found.
unfoldable pub wake : (cpu t : ℕ) → State → Option State
unfolding unlink_thread_waits apply_consume
wake cpu t s =
    let r = apply_consume t (evaluate_wait s t) s in
    make_ready cpu t (unlink_thread_waits t (set_status t r.1 r.0))

abbrev pub is_not_yet : Satisfy → Bool
is_not_yet not_yet = true
is_not_yet timeout = false
is_not_yet all_of = false
is_not_yet (any_of i) = false

-- The `for_each` of `ki_wait_test`.
unfoldable pub find_satisfied : (s : State) → List Entry → Option ℕ
find_satisfied s [] = none
find_satisfied s (e ∷ es) =
    let rest = find_satisfied s es in
    if is_not_yet (evaluate_wait s e.waiter) then rest else some e.waiter

-- One round: `next` is the rest of the loop.
abbrev pub wake_found :
    (next : State → ℕ → Option (State × ℕ)) (cpu : ℕ)
    → State
    → (woke : ℕ) → Option ℕ
    → Option (State × ℕ)
wake_found next cpu s woke none = some (s, woke)
wake_found next cpu s woke (some t) = wake cpu t s >>= λ s1. next s1 (woke + 1)

unfoldable pub wait_test : (fuel cpu o : ℕ) → State → (woke : ℕ) → Option (State × ℕ)
unfolding wake find_satisfied
wait_test zero cpu o s woke = none
wait_test (suc fuel) cpu o s woke =
    wake_found (wait_test fuel cpu o) cpu s woke (find_satisfied s (s.objects o).wait_list)

-- Each round takes a waiter from the list.
unfoldable pub ki_wait_test : (cpu o : ℕ) → State → Option (State × ℕ)
unfolding wait_test
ki_wait_test cpu o s = wait_test (length (s.objects o).wait_list + 1) cpu o s 0
