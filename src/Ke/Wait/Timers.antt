-- ===== src/Ke/Wait/Timers.antt =====
-- kernel/src/ke/scheduler.rs: timers are set, cancelled and expire.
use nanokrnl.Base.{
  ℕ, Bool, true, false, not, ◌&&◌, Option, none, some, List, [], ◌∷◌, ◌++◌, ◌==◌, ltb, leb,
  if◌then◌else◌, ◌>>=◌, length, take,
}
use nanokrnl.Base.Int.{pos}
use nanokrnl.Ke.Ready.{}
use nanokrnl.Ke.Wait.{Ktimer, State, put_timer, remove_timer, ki_wait_test}
use nanokrnl.Ke.Wait.Operations.{set_signal, update_earliest_locked}

-- The timers that are due, in the order of the list.
unfoldable pub due_timers : (timers : ℕ → Ktimer) (now : ℕ) → List ℕ → List ℕ
due_timers timers now [] = []
due_timers timers now (a ∷ as_) =
    let rest = due_timers timers now as_ in if leb (timers a).due_tick now then a ∷ rest else rest

-- A timer leaves the list; the entry of one that has left it has null links.
abbrev pub expired : (a : ℕ) → State → State
expired a s = set_signal a (pos 1) (
    put_timer a (record (s.timers a) { inserted = false })
      (record s { timer_list = remove_timer a s.timer_list }))

unfoldable pub expire_timer : (cpu a : ℕ) → State → Option State
expire_timer cpu a s =
    if not (s.timers a).inserted then none else ki_wait_test cpu a (expired a s) >>= λ r. some r.0

-- The calls to queue, at most 16.
abbrev pub add_dpc : (dpc : ℕ) → List ℕ → List ℕ
add_dpc dpc dpcs = if not (dpc == 0) && ltb (length dpcs) 16 then dpcs ++ dpc ∷ [] else dpcs

unfoldable pub expire_all : (cpu : ℕ) → List ℕ → State → (dpcs : List ℕ) → Option (State × List ℕ)
unfolding expire_timer
expire_all cpu [] s dpcs = some (s, dpcs)
expire_all cpu (a ∷ as_) s dpcs =
    expire_timer cpu a s >>= λ s1. expire_all cpu as_ s1 (add_dpc (s1.timers a).dpc dpcs)

-- The calls of the expired timers are returned; they are queued after the lock is let go.
unfoldable pub ki_expire_timers : (cpu : ℕ) → State → Option (State × List ℕ)
unfolding expire_all due_timers
ki_expire_timers cpu s =
    let now = s.dispatcher.tick_count in
    if ltb now s.earliest_due
    then some (s, [])
    else expire_all cpu (take 16 (due_timers s.timers now s.timer_list)) s [] >>= λ r.
        some (update_earliest_locked r.0, r.1)

abbrev pub without_timer : (a : ℕ) → State → State
without_timer a s =
    if (s.timers a).inserted then record s { timer_list = remove_timer a s.timer_list } else s

abbrev pub ke_set_timer : (a due_tick dpc : ℕ) → State → State × Bool
ke_set_timer a due_tick dpc s =
    let s1 = set_signal a (pos 0) (without_timer a s) in
    (
      update_earliest_locked (
          put_timer a (record { due_tick = due_tick; inserted = true; dpc = dpc })
            (record s1 { timer_list = s1.timer_list ++ a ∷ [] })),
      (s.timers a).inserted,
    )

abbrev pub ke_cancel_timer : (a : ℕ) → State → State × Bool
ke_cancel_timer a s =
    if (s.timers a).inserted
    then (
      update_earliest_locked
          (put_timer a (record (s.timers a) { inserted = false }) (without_timer a s)),
      true,
    )
    else (s, false)
