-- ===== src/Ke/Wait/Objects.antt =====
-- kernel/src/ke/dispatcher.rs: new objects and the waits of their clients.
use nanokrnl.Base.{ℕ, Bool, if◌then◌else◌, Option, some, List, [], ◌∷◌}
use nanokrnl.Base.Int.{ℤ, pos}
use nanokrnl.Ke.Wait.{ObjectType, mutant, semaphore, DispatcherHeader, all, any, State}
use nanokrnl.Ke.Wait.Operations.{Waited, ki_wait_for_objects}

abbrev pub new_header : ObjectType → (signal_state : ℤ) → DispatcherHeader
new_header object_type signal_state = record {
  object_type = object_type;
  signal_state = signal_state;
  wait_list = [];
  owner = 0;
  limit = pos 0;
}

abbrev pub new_event : ObjectType → (initially_signaled : Bool) → DispatcherHeader
new_event object_type initially_signaled =
    new_header object_type (if initially_signaled then pos 1 else pos 0)

abbrev pub new_semaphore : (initial limit : ℤ) → DispatcherHeader
new_semaphore initial limit = record (new_header semaphore initial) { limit = limit }

-- Free, with no owner.
abbrev pub new_mutant : DispatcherHeader
new_mutant = new_header mutant (pos 1)

abbrev pub ki_wait_for_object : (cur o : ℕ) (timeout : Option ℕ) → State → Option (State × Waited)
ki_wait_for_object cur o timeout s = ki_wait_for_objects cur (o ∷ []) any timeout s

abbrev pub ke_wait_for_multiple_objects :
    (cur : ℕ) (objs : List ℕ) (wait_all : Bool) (timeout : Option ℕ)
    → State
    → Option (State × Waited)
ke_wait_for_multiple_objects cur objs wait_all timeout s =
    ki_wait_for_objects cur objs (if wait_all then all else any) timeout s

-- A wait for nothing but its timer.
abbrev pub ki_delay_thread : (cur ticks : ℕ) → State → Option (State × Waited)
ki_delay_thread cur ticks s = ki_wait_for_objects cur [] all (some ticks) s
