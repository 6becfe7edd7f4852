-- ===== src/Ke/Wait/Operations.antt =====
-- kernel/src/ke/scheduler.rs: the operations on dispatcher objects, from the lock to its release. The
-- wait ends where it switches to another thread; the interrupts that follow a wake are left out.
use nanokrnl.Base.{
  ℕ, zero, suc, ◌+◌, ◌-◌, ◌^◌, max, min, Bool, true, false, not, ◌||◌, Option, none, some, List, [],
  ◌∷◌, ◌++◌, ◌==◌, ltb, leb, if◌then◌else◌, ◌>>=◌, length, get_or,
}
use nanokrnl.Base.Int.{ℤ, pos, ◌+ℤ◌, ltb_ℤ, fits}
use nanokrnl.Ke.Ready.{waiting, put_thread}
use nanokrnl.Ke.Wait.{
  timer, KwaitBlock, WaitType, Ktimer, State, timer_wait_block, put_object, put_waiter, put_timer,
  positive, evaluate_wait, increased, apply_consume, is_not_yet, timer_of, ki_wait_test,
}

-- The wait blocks as they are laid out.
abbrev pub laid_out : (objs : List ℕ) → WaitType → State → (t : ℕ) → State
laid_out objs wait_type s t =
    let w = s.waiters t in
    put_waiter t
      (record w {
        wait_type = wait_type;
        wait_count = length objs;
        wait_timed = false;
        wait_blocks = λ i.
            if ltb i (length objs)
            then record { object = get_or objs i 0; wait_key = i; active = false }
            else w.wait_blocks i;
      })
      s

abbrev pub set_block : (t i : ℕ) → KwaitBlock → State → State
set_block t i b s =
    put_waiter t
      (record (s.waiters t) {
        wait_blocks = λ j. if j == i then b else (s.waiters t).wait_blocks j;
      })
      s

abbrev pub append_entry : (o t i : ℕ) → State → State
append_entry o t i s =
    let h = s.objects o in
    put_object o (record h { wait_list = h.wait_list ++ record { waiter = t; index = i } ∷ [] }) s

-- `insert_tail` of a block, which is active then.
unfoldable pub link_block : (t i : ℕ) → State → State
link_block t i s =
    let b = (s.waiters t).wait_blocks i in
    set_block t i (record b { active = true }) (append_entry b.object t i s)

-- The blocks from 0 to `n - 1`, in this order.
unfoldable pub link_blocks : (t n : ℕ) → State → State
unfolding link_block
link_blocks t zero s = s
link_blocks t (suc n) s = link_block t n (link_blocks t n s)

unfoldable pub earliest_of : (timers : ℕ → Ktimer) (earliest : ℕ) → List ℕ → ℕ
earliest_of timers earliest [] = earliest
earliest_of timers earliest (a ∷ as_) = earliest_of timers (min earliest (timers a).due_tick) as_

abbrev pub update_earliest_locked : State → State
update_earliest_locked s = record s {
  earliest_due = earliest_of s.timers (2 ^ 64 - 1) s.timer_list;
}

-- The timer of a thread as it is armed, without its wait block.
abbrev pub new_timer : (t due : ℕ) → State → State
new_timer t due s =
    let a = timer_of s t in
    put_object a
      (record {
        object_type = timer;
        signal_state = pos 0;
        wait_list = [];
        owner = 0;
        limit = pos 0;
      })
      (put_timer a (record { due_tick = due; inserted = true; dpc = 0 })
        (record s { timer_list = s.timer_list ++ a ∷ [] }))

unfoldable pub arm_timer : (t ticks : ℕ) → State → Option State
unfolding link_block earliest_of
arm_timer t ticks s =
    let due = s.dispatcher.tick_count + max ticks 1 in
    let s1 = new_timer t due s in
    let b = (s.waiters t).wait_blocks timer_wait_block in
    let s2 =
      link_block t timer_wait_block
        (set_block t timer_wait_block (record b { object = timer_of s t }) s1) in
    if leb (2 ^ 64) due
    then none
    else some
        (update_earliest_locked (put_waiter t (record (s2.waiters t) { wait_timed = true }) s2))

unfoldable pub arm_timeout : (t : ℕ) → Option ℕ → State → Option State
unfolding arm_timer
arm_timeout t none s = some s
arm_timeout t (some ticks) s = arm_timer t ticks s

abbrev pub set_waiting : (t : ℕ) → State → State
set_waiting t s =
    let d = s.dispatcher in
    record s {
      dispatcher = record d {
        threads = put_thread t (record (d.threads t) { state = waiting }) d.threads;
      };
    }

-- A wait ends with a status, or the thread is blocked.
pub data Waited : Type 0 where
  returned : (status : ℕ) → Waited
  blocked : Waited

abbrev pub is_poll : Option ℕ → Bool
is_poll none = false
is_poll (some ticks) = ticks == 0

-- The size of `wait_blocks`; a longer list of objects is out of its range.
abbrev pub max_wait_blocks : ℕ
max_wait_blocks = 4

unfoldable pub ki_wait_for_objects :
    (cur : ℕ) (objs : List ℕ) → WaitType → (timeout : Option ℕ) → State → Option (State × Waited)
unfolding link_blocks
ki_wait_for_objects cur objs wait_type timeout s =
    let s1 = laid_out objs wait_type s cur in
    let r = evaluate_wait s1 cur in
    let done = apply_consume cur r s1 in
    if ltb max_wait_blocks (length objs)
    then none
    else if not (is_not_yet r)
    then some (done.0, returned done.1)
    else if is_poll timeout
    then some (s1, returned 0x102)
    else arm_timeout cur timeout (link_blocks cur (length objs) s1) >>= λ s2.
        some (set_waiting cur s2, blocked)

abbrev pub set_signal : (o : ℕ) → ℤ → State → State
set_signal o x s = put_object o (record (s.objects o) { signal_state = x }) s

-- The previous state is returned.
abbrev pub with_previous : ℤ → State × ℕ → State × ℤ
with_previous prev (s, woke) = (s, prev)

unfoldable pub ki_signal_object : (cpu o : ℕ) → State → Option (State × ℤ)
ki_signal_object cpu o s = ki_wait_test cpu o (set_signal o (pos 1) s) >>= λ r.
    some (with_previous (s.objects o).signal_state r)

abbrev pub ki_reset_object : (o : ℕ) → State → State × ℤ
ki_reset_object o s = (set_signal o (pos 0) s, (s.objects o).signal_state)

-- `checked_add(..).unwrap_or(i32::MAX)`
abbrev pub capped_sum : ℤ → ℤ → ℤ
capped_sum x y = if fits (2 ^ 31) (x +ℤ y) then x +ℤ y else pos (2 ^ 31 - 1)

-- `Ok` with the previous state, or an error status.
pub data Released : Type 0 where
  ok : (previous : ℤ) → Released
  err : (status : ℕ) → Released

abbrev pub ok_previous : ℤ → State × ℕ → State × Released
ok_previous prev (s, woke) = (s, ok prev)

unfoldable pub ki_release_semaphore :
    (cpu sem : ℕ) (adjustment : ℤ) → State → Option (State × Released)
ki_release_semaphore cpu sem adjustment s =
    let h = s.objects sem in
    let sum = capped_sum h.signal_state adjustment in
    if ltb_ℤ h.limit sum || not (ltb_ℤ (pos 0) adjustment)
    then some (s, err 0xc000_0047)
    else ki_wait_test cpu sem (set_signal sem sum s) >>= λ r. some (ok_previous h.signal_state r)

unfoldable pub ki_release_mutant : (cpu cur m : ℕ) → State → Option (State × Released)
ki_release_mutant cpu cur m s =
    let h = s.objects m in
    let up = increased h.signal_state in
    if not (h.owner == cur)
    then some (s, err 0xc000_0046)
    else if not (positive up)
    then some (put_object m (record h { signal_state = up }) s, ok h.signal_state)
    else ki_wait_test cpu m (put_object m (record h { signal_state = up; owner = 0 }) s) >>= λ r.
        some (ok_previous h.signal_state r)

-- The part of `ki_terminate_current_thread` before the switch; `o` is the header of the thread.
unfoldable pub terminate : (cpu o : ℕ) → State → Option State
terminate cpu o s = ki_wait_test cpu o (set_signal o (pos 1) s) >>= λ r. some r.0
