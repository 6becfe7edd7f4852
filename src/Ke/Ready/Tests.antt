-- ===== src/Ke/Ready/Tests.antt =====
-- kernel/src/ke/scheduler.rs: two processors, of which the first has an empty bank.
use nanokrnl.Base.{
  ℕ, zero, suc, ◌<◌, ◌≡◌, refl, subst, Bool, true, false, not, ◌&&◌, inl, inr, Option, some, [],
  ◌∷◌, ◌==◌, replicate, Bool-cases, ==_iff, arith,
}
use nanokrnl.Base.Bits.{bit}
use nanokrnl.Ke.Ready.{
  initialized, ReadyBank, Dispatcher, queue, is_empty, select_next_locked, ready_thread_locked,
}
use nanokrnl.Ke.Ready.Banks.{IsValid, total}
use nanokrnl.Ke.Ready.Steal.{AllValid}
use nanokrnl.Base.{get_elem?}
use nanokrnl.Ke.Ready.Boost.{boost_queue, boost_starved_locked}
use nanokrnl.Ke.Ready.Boost.Overdue.{all_due, banks_due, overdue, Raised}
use nanokrnl.Ke.Ready.Boost.Lifted.{Lifted}
use nanokrnl.Ke.Ready.Boost.Scan.{Boosted, boost_queue-Lifted, boost_starved_locked-Boosted}
use nanokrnl.Ke.Ready.Select.{
  Counted, Selected, Moved, select_next_locked-Selected, ready_thread_locked-Moved,
}

abbrev idle_bank : ReadyBank
idle_bank = record { queues = replicate 32 []; summary = 0; count = 0 }

-- Threads 300 and 301 at priority 3, thread 500 at priority 5.
abbrev busy_bank : ReadyBank
busy_bank = record {
  queues = [] ∷ [] ∷ [] ∷ (300 ∷ 301 ∷ []) ∷ [] ∷ (500 ∷ []) ∷ replicate 26 [];
  summary = 40;
  count = 3;
}

abbrev dispatcher : Dispatcher
dispatcher = record {
  banks = idle_bank ∷ busy_bank ∷ [];
  threads = λ t. record {
    priority = 8;
    base_priority = 8;
    boosted = false;
    state = initialized;
    ready_since = 0;
  };
  steals = 0;
  tick_count = 77;
}

same_bool : Bool → Bool → Bool
same_bool true b = b
same_bool false b = not b

same_bool_sound : (a b : Bool) → same_bool a b ≡ true → a ≡ b
unfolding same_bool
same_bool_sound true true e = refl
same_bool_sound true false e = absurd (ground (arith, e))
same_bool_sound false true e = absurd (ground (arith, e))
same_bool_sound false false e = refl

-- The marks of the first `n` priorities.
marked_below : ℕ → ReadyBank → Bool
unfolding same_bool
marked_below zero b = true
marked_below (suc n) b =
    same_bool (bit b.summary n) (not (is_empty (queue b n))) && marked_below n b

marked_below_sound :
    (n : ℕ) (b : ReadyBank)
    → marked_below n b ≡ true
    → (pri : ℕ) → pri < n
    → bit b.summary pri ≡ not (is_empty (queue b pri))
unfolding marked_below
marked_below_sound zero b all pri lt = absurd (omega arith)
marked_below_sound (suc n) b all pri lt =
    elim (Bool-cases (same_bool (bit b.summary n) (not (is_empty (queue b n))))) [
      | inl same ↦ elim (Bool-cases (pri == n)) [
        | inl here ↦
            rw ((==_iff pri n).0 here)
              (same_bool_sound (bit b.summary n) (not (is_empty (queue b n))) same)
        | inr below ↦ marked_below_sound n b (ground (arith, same, all)) pri (ground (arith, below))
      ]
      | inr other ↦ absurd (ground (arith, other, all))
    ]

idle_bank-IsValid : IsValid idle_bank
unfolding marked_below same_bool bit total
idle_bank-IsValid = record {
  levels = refl;
  narrow = ground arith;
  marks = marked_below_sound 32 idle_bank refl;
  counts = refl;
}

busy_bank-IsValid : IsValid busy_bank
unfolding marked_below same_bool bit total
busy_bank-IsValid = record {
  levels = refl;
  narrow = ground arith;
  marks = marked_below_sound 32 busy_bank refl;
  counts = refl;
}

dispatcher-AllValid : AllValid dispatcher.banks
dispatcher-AllValid zero b e = subst IsValid (ground (arith, e)) idle_bank-IsValid
dispatcher-AllValid (suc zero) b e = subst IsValid (ground (arith, e)) busy_bank-IsValid
dispatcher-AllValid (suc (suc c)) b e = absurd (ground (arith, e))

dispatcher-Counted : Counted dispatcher.banks
dispatcher-Counted zero b e = ground (arith, e)
dispatcher-Counted (suc zero) b e = ground (arith, e)
dispatcher-Counted (suc (suc c)) b e = absurd (ground (arith, e))

-- The processor with the empty bank steals.
select_next_locked-Selected_example :
    (r : Dispatcher × Option ℕ) × (select_next_locked 0 dispatcher ≡ some r)
    × Selected 0 dispatcher r.0 r.1
select_next_locked-Selected_example =
    select_next_locked-Selected 0 dispatcher idle_bank dispatcher-AllValid dispatcher-Counted refl

ready_thread_locked-Moved_example :
    (s' : Dispatcher) × (ready_thread_locked 1 600 dispatcher ≡ some s')
    × Moved dispatcher 1 8 busy_bank (600 ∷ []) s'
ready_thread_locked-Moved_example =
    ready_thread_locked-Moved 1 600 dispatcher busy_bank dispatcher-AllValid dispatcher-Counted refl

-- After 400 ticks all threads are starved; those of one queue go behind those of priority 15.
boost_queue-Lifted_example :
    Lifted 3 (300 ∷ 301 ∷ []) busy_bank (boost_queue 400 3 (busy_bank, dispatcher.threads)).0
    × Raised
        (300 ∷ 301 ∷ [])
        dispatcher.threads
        (boost_queue 400 3 (busy_bank, dispatcher.threads)).1
unfolding overdue
boost_queue-Lifted_example =
    boost_queue-Lifted 400 3 busy_bank dispatcher.threads busy_bank-IsValid (ground arith)
      (omega arith)

boost_starved_locked-Boosted_example :
    ((b' : ReadyBank) × (get_elem? (boost_starved_locked 400 dispatcher).banks 1 ≡ some b')
      × Boosted 400 14 dispatcher.threads busy_bank b')
    × Raised (300 ∷ 301 ∷ 500 ∷ []) dispatcher.threads (boost_starved_locked 400 dispatcher).threads
unfolding overdue all_due banks_due
boost_starved_locked-Boosted_example =
    boost_starved_locked-Boosted 400 dispatcher dispatcher-AllValid dispatcher-Counted 1 busy_bank
      refl
