-- ===== src/Ke/Ready/Boost.antt =====
-- kernel/src/ke/scheduler.rs: `boost_starved_locked` lifts the threads that were ready too long.
pub mod Lifted
pub mod Overdue
pub mod Scan
use nanokrnl.Base.{
  ℕ, zero, suc, ◌+◌, ◌-◌, ◌%◌, ◌^◌, ◌<◌, ◌≤◌, ◌≡◌, ◌≢◌, refl, ap, ◌∙◌, sym, ==_refl, Bool, true,
  false, not, ◌||◌, List, [], ◌∷◌, ◌++◌, ◌==◌, ltb, if◌then◌else◌, get_or, set, length, take,
  Bool-cases, ==_iff, inl, inr, arith, bit_and,
}
use mathlib.Core.List.{append-nil, append_assoc}
use nanokrnl.Ke.Ready.{Kthread, ReadyBank, Dispatcher, queue, is_empty, push_tail, put_thread}
use nanokrnl.Ke.Ready.Banks.{IsValid}
use nanokrnl.Ke.Ready.Changes.{Requeued, shortened-IsValid, push_tail-IsValid, length_le_count}

abbrev pub starve_ticks : ℕ
starve_ticks = 300

abbrev pub boost_priority : ℕ
boost_priority = 15

abbrev pub is_starved : (now : ℕ) → Kthread → Bool
is_starved now t = ltb starve_ticks (now - t.ready_since)

-- The threads of a queue that are starved.
unfoldable pub starved_in : (threads : ℕ → Kthread) (now : ℕ) → List ℕ → List ℕ
starved_in threads now [] = []
starved_in threads now (t ∷ ts) =
    let rest = starved_in threads now ts in if is_starved now (threads t) then t ∷ rest else rest

-- `ListEntry::remove`
unfoldable pub remove_thread : (t : ℕ) → List ℕ → List ℕ
remove_thread t [] = []
remove_thread t (u ∷ us) = let rest = remove_thread t us in if u == t then us else u ∷ rest

-- A thread leaves its queue, which may be empty then.
unfoldable pub take_out : (pri thread : ℕ) → ReadyBank → ReadyBank
unfolding remove_thread
take_out pri thread b =
    let ts = remove_thread thread (queue b pri) in
    record {
      queues = set b.queues pri ts;
      summary = if is_empty ts then bit_and b.summary (2 ^ 32 - 1 - 2 ^ pri) else b.summary;
      count = (b.count + 2 ^ 64 - 1) % 2 ^ 64;
    }

abbrev pub lift : (pri thread : ℕ) → ReadyBank → ReadyBank
lift pri thread b = push_tail (take_out pri thread b) boost_priority thread

abbrev pub lifted : Kthread → Kthread
lifted t = record t { boosted = true; priority = boost_priority }

abbrev pub lift_thread : ℕ → (ℕ → Kthread) → ℕ → Kthread
lift_thread thread threads = put_thread thread (lifted (threads thread)) threads

unfoldable pub lift_all : (pri : ℕ) → List ℕ → ReadyBank → (ℕ → Kthread) → ReadyBank × (ℕ → Kthread)
unfolding take_out
lift_all pri [] b threads = (b, threads)
lift_all pri (t ∷ ts) b threads = lift_all pri ts (lift pri t b) (lift_thread t threads)

-- At most 16 threads of a queue.
unfoldable pub boost_queue : (now pri : ℕ) → ReadyBank × (ℕ → Kthread) → ReadyBank × (ℕ → Kthread)
unfolding lift_all starved_in
boost_queue now pri (b, threads) =
    lift_all pri (take 16 (starved_in threads now (queue b pri))) b threads

-- The priorities from 1 to `n`.
unfoldable pub boost_below : (now n : ℕ) → ReadyBank × (ℕ → Kthread) → ReadyBank × (ℕ → Kthread)
unfolding boost_queue
boost_below now zero r = r
boost_below now (suc n) r = boost_queue now (suc n) (boost_below now n r)

unfoldable pub boost_banks :
    (now : ℕ) → List ReadyBank → (ℕ → Kthread) → List ReadyBank × (ℕ → Kthread)
unfolding boost_below
boost_banks now [] threads = ([], threads)
boost_banks now (b ∷ bs) threads =
    let r = boost_below now 14 (b, threads) in
    let rest = boost_banks now bs r.1 in (r.0 ∷ rest.0, rest.1)

unfoldable pub boost_starved_locked : (now : ℕ) → Dispatcher → Dispatcher
unfolding boost_banks
boost_starved_locked now d =
    let r = boost_banks now d.banks d.threads in record d { banks = r.0; threads = r.1 }
