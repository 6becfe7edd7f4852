-- ===== src/Ke/Ready.antt =====
-- kernel/src/ke/scheduler.rs: the ready banks, one for each processor, with a queue for each of 32
-- priorities. A queue is the list of its threads, named by address, head first. An operation
-- returns `none` where the code panics. The caller holds the dispatcher lock.
pub mod Banks
pub mod Steal
pub mod Changes
pub mod Select
pub mod Boost
mod Tests
use nanokrnl.Base.{
  ℕ, zero, suc, ◌+◌, ◌-◌, ◌%◌, ◌^◌, Bool, true, false, Option, none, some, List, [], ◌∷◌, ◌++◌,
  ◌==◌, ltb, if◌then◌else◌, ◌>>=◌, get_or, get_elem?, set, bit_or, bit_and,
}
use nanokrnl.Base.Bits.Zeros.{zeros_from}

pub data ThreadState : Type 0 where
  initialized ready running waiting terminated : ThreadState

-- The fields of a thread that the banks use.
pub record Kthread : Type 0 where
  pub priority : ℕ
  pub base_priority : ℕ
  pub boosted : Bool
  pub state : ThreadState
  pub ready_since : ℕ

pub record ReadyBank : Type 0 where
  pub queues : List (List ℕ)
  pub summary : ℕ
  pub count : ℕ

pub record Dispatcher : Type 0 where
  pub banks : List ReadyBank
  pub threads : ℕ → Kthread
  pub steals : ℕ
  pub tick_count : ℕ

-- `b.queues[pri]`, where 32 queues and the ones behind them count as empty.
abbrev pub queue : ReadyBank → ℕ → List ℕ
queue b pri = get_or b.queues pri []

abbrev pub is_empty : List ℕ → Bool
is_empty [] = true
is_empty (t ∷ ts) = false

pub best_priority_in : ReadyBank → Option ℕ
unfolding zeros_from
best_priority_in b = if b.summary == 0 then none else some (31 - zeros_from 32 b.summary)

-- `remove_head`, the count and the summary bit.
pub pop_head : ReadyBank → ℕ → List ℕ → Option (ReadyBank × ℕ)
pop_head b pri [] = none
pop_head b pri (t ∷ ts) = some (
  record {
    queues = set b.queues pri ts;
    summary = if is_empty ts then bit_and b.summary (2 ^ 32 - 1 - 2 ^ pri) else b.summary;
    count = (b.count + 2 ^ 64 - 1) % 2 ^ 64;
  },
  t,
)

pub pop_at : ReadyBank → ℕ → Option (ReadyBank × ℕ)
unfolding pop_head
pop_at b pri = pop_head b pri (queue b pri)

-- One bank of the stealing loop: a strictly better priority wins.
abbrev pub consider : (other : ℕ) → Option ℕ → Option (ℕ × ℕ) → Option (ℕ × ℕ)
consider other none best = best
consider other (some pri) none = some (pri, other)
consider other (some pri) (some (bp, c)) = if ltb bp pri then some (pri, other) else some (bp, c)

unfoldable pub best_other : (cpu other : ℕ) → List ReadyBank → Option (ℕ × ℕ) → Option (ℕ × ℕ)
unfolding best_priority_in
best_other cpu other [] best = best
best_other cpu other (b ∷ bs) best =
    best_other cpu (other + 1) bs
      (if other == cpu then best else consider other (best_priority_in b) best)

-- `pop_at(owner, pri)` with the bank written back.
pub take_from : (owner pri : ℕ) → Dispatcher → Option (Dispatcher × Option ℕ)
unfolding pop_at
take_from owner pri s = get_elem? s.banks owner >>= λ b.
    pop_at b pri >>= λ r. some (record s { banks = set s.banks owner r.0 }, some r.1)

pub steal : Dispatcher → Option (ℕ × ℕ) → Option (Dispatcher × Option ℕ)
unfolding take_from
steal s none = some (s, none)
steal s (some (pri, owner)) = take_from owner pri (record s { steals = (s.steals + 1) % 2 ^ 64 })

pub own_or_steal : ℕ → Dispatcher → Option ℕ → Option (Dispatcher × Option ℕ)
unfolding steal best_other take_from
own_or_steal cpu s none = steal s (best_other cpu 0 s.banks none)
own_or_steal cpu s (some pri) = take_from cpu pri s

-- A null pointer is `none` inside the result.
pub select_next_locked : ℕ → Dispatcher → Option (Dispatcher × Option ℕ)
unfolding own_or_steal best_priority_in
select_next_locked cpu s = get_elem? s.banks cpu >>= λ b. own_or_steal cpu s (best_priority_in b)

-- `insert_tail`, the summary bit and the count.
abbrev pub push_tail : ReadyBank → (pri thread : ℕ) → ReadyBank
push_tail b pri thread = record {
  queues = set b.queues pri (queue b pri ++ thread ∷ []);
  summary = bit_or b.summary (2 ^ pri);
  count = (b.count + 1) % 2 ^ 64;
}

abbrev pub put_thread : ℕ → Kthread → (ℕ → Kthread) → ℕ → Kthread
put_thread thread t threads a = if a == thread then t else threads a

-- The thread is ready and queued on the bank `b` of `cpu`.
abbrev pub queue_ready : (cpu thread : ℕ) → ReadyBank → Dispatcher → Dispatcher
queue_ready cpu thread b s = record s {
  banks = set s.banks cpu (push_tail b ((s.threads thread).priority % 32) thread);
  threads =
      put_thread thread (record (s.threads thread) { state = ready; ready_since = s.tick_count })
        s.threads;
}

pub ready_thread_locked : (cpu thread : ℕ) → Dispatcher → Option Dispatcher
ready_thread_locked cpu thread s = get_elem? s.banks cpu >>= λ b. some (queue_ready cpu thread b s)

pub decay_boost_locked : ℕ → Dispatcher → Dispatcher
decay_boost_locked thread s =
    if (s.threads thread).boosted
    then record s {
      threads =
          put_thread thread
            (record (s.threads thread) {
              boosted = false;
              priority = (s.threads thread).base_priority;
            })
            s.threads;
    }
    else s
