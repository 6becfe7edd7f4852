-- ===== src/Ke/Ready/Boost/Overdue.antt =====
-- kernel/src/ke/scheduler.rs: the threads that `boost_starved_locked` owes a lift.
use nanokrnl.Base.{
  ℕ, zero, suc, ◌+◌, ◌≡◌, refl, true, false, ◌||◌, List, [], ◌∷◌, ◌++◌, ltb, if◌then◌else◌, take,
  Bool-cases, inl, inr, arith,
}
use nanokrnl.Ke.Ready.{Kthread, ReadyBank, queue}
use nanokrnl.Ke.Ready.Boost.{starved_in, is_starved}
use nanokrnl.Ke.Ready.Boost.Lifted.{is_in}

-- The threads of a queue that became ready more than 300 ticks before `now`, in the order of the queue.
unfoldable pub overdue : (threads : ℕ → Kthread) (now : ℕ) → List ℕ → List ℕ
overdue threads now [] = []
overdue threads now (t ∷ ts) =
    if ltb ((threads t).ready_since + 300) now
    then t ∷ overdue threads now ts
    else overdue threads now ts

-- A thread that was lifted: boosted, at priority 15, and as it was otherwise.
unfoldable pub raised : Kthread → Kthread
raised t = record t { boosted = true; priority = 15 }

-- At most 16 of them from each queue.
abbrev pub due : (threads : ℕ → Kthread) (now : ℕ) → List ℕ → List ℕ
due threads now ts = take 16 (overdue threads now ts)

-- Those of the queues from 1 to `n`, the lowest queue first.
unfoldable pub all_due : (threads : ℕ → Kthread) (now n : ℕ) → ReadyBank → List ℕ
all_due threads now zero b = []
all_due threads now (suc n) b = all_due threads now n b ++ due threads now (queue b (suc n))

-- Those of the queues from 1 to 14 of all banks.
unfoldable pub banks_due : (threads : ℕ → Kthread) (now : ℕ) → List ReadyBank → List ℕ
banks_due threads now [] = []
banks_due threads now (b ∷ bs) = all_due threads now 14 b ++ banks_due threads now bs

pub overdue-starved_in :
    (threads : ℕ → Kthread) (now : ℕ) (ts : List ℕ)
    → starved_in threads now ts ≡ overdue threads now ts
unfolding overdue starved_in
overdue-starved_in threads now [] = refl
overdue-starved_in threads now (t ∷ ts) =
    let rest = overdue-starved_in threads now ts in
    elim (Bool-cases (ltb ((threads t).ready_since + 300) now)) [
      | inl late ↦
          let same : is_starved now (threads t) ≡ true = ground (arith, late) in
          rw (late, same, rest) refl
      | inr early ↦
          let same : is_starved now (threads t) ≡ false = ground (arith, early) in
          rw (early, same, rest) refl
    ]

-- Two maps of threads whose threads became ready at the same ticks.
abbrev pub SameSince : (threads threads' : ℕ → Kthread) → Type 0
SameSince threads threads' = (u : ℕ) → (threads' u).ready_since ≡ (threads u).ready_since

pub overdue_same :
    (threads threads' : ℕ → Kthread) (now : ℕ) (ts : List ℕ)
    → SameSince threads threads'
    → overdue threads' now ts ≡ overdue threads now ts
unfolding overdue
overdue_same threads threads' now [] same = refl
overdue_same threads threads' now (t ∷ ts) same =
    rw (same t, overdue_same threads threads' now ts same) refl

pub all_due_same :
    (threads threads' : ℕ → Kthread) (now n : ℕ) (b : ReadyBank)
    → SameSince threads threads'
    → all_due threads' now n b ≡ all_due threads now n b
unfolding all_due
all_due_same threads threads' now zero b same = refl
all_due_same threads threads' now (suc n) b same =
    rw
      (
        all_due_same threads threads' now n b same,
        overdue_same threads threads' now (queue b (suc n)) same,
      )
      refl

pub banks_due_same :
    (threads threads' : ℕ → Kthread) (now : ℕ) (bs : List ReadyBank)
    → SameSince threads threads'
    → banks_due threads' now bs ≡ banks_due threads now bs
unfolding banks_due
banks_due_same threads threads' now [] same = refl
banks_due_same threads threads' now (b ∷ bs) same =
    rw (all_due_same threads threads' now 14 b same, banks_due_same threads threads' now bs same)
      refl

-- The threads of a list are raised and no other changes.
abbrev pub Raised : List ℕ → (threads threads' : ℕ → Kthread) → Type 0
Raised ts threads threads' =
    (u : ℕ) → threads' u ≡ (if is_in u ts then raised (threads u) else threads u)

pub Raised-SameSince :
    (ts : List ℕ) (threads threads' : ℕ → Kthread)
    → Raised ts threads threads'
    → SameSince threads threads'
unfolding raised
Raised-SameSince ts threads threads' all u = elim (Bool-cases (is_in u ts)) [
  | inl here ↦ rw (all u, here) refl
  | inr other ↦ rw (all u, other) refl
]

is_in-append : (u : ℕ) (ts us : List ℕ) → is_in u (ts ++ us) ≡ (is_in u ts || is_in u us)
is_in-append u [] us = refl
is_in-append u (t ∷ ts) us = ground (arith, is_in-append u ts us)

pub Raised-append :
    (ts us : List ℕ) (threads threads1 threads2 : ℕ → Kthread)
    → Raised ts threads threads1
    → Raised us threads1 threads2
    → Raised (ts ++ us) threads threads2
unfolding raised
Raised-append ts us threads threads1 threads2 first next u = elim (Bool-cases (is_in u ts)) [
  | inl here ↦ elim (Bool-cases (is_in u us)) [
    | inl again ↦ rw (next u, first u, is_in-append u ts us, here, again) refl
    | inr once ↦ rw (next u, first u, is_in-append u ts us, here, once) refl
  ]
  | inr other ↦ elim (Bool-cases (is_in u us)) [
    | inl here ↦ rw (next u, first u, is_in-append u ts us, other, here) refl
    | inr none ↦ rw (next u, first u, is_in-append u ts us, other, none) refl
  ]
]
