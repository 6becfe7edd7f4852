-- ===== src/Ke/Ready/Boost/Scan.antt =====
-- kernel/src/ke/scheduler.rs: one scan of `boost_starved_locked` over the banks.
use nanokrnl.Base.{
  ℕ, zero, suc, ◌+◌, ◌^◌, ◌<◌, ◌≤◌, ◌≡◌, ◌≢◌, refl, ap, ◌∙◌, sym, true, ◌||◌, List, [], ◌∷◌, ◌++◌,
  ◌==◌, ltb, take, Bool-cases, ==_iff, inl, inr, arith, get_elem?, some, subst,
}
use mathlib.Core.List.{append-nil, append_assoc}
use nanokrnl.Ke.Ready.{Kthread, ReadyBank, Dispatcher, queue}
use nanokrnl.Ke.Ready.Banks.{IsValid}
use nanokrnl.Ke.Ready.Boost.{
  starved_in, boost_queue, boost_below, boost_banks, boost_starved_locked,
}
use nanokrnl.Ke.Ready.Steal.{AllValid}
use nanokrnl.Ke.Ready.Select.{Counted}
use nanokrnl.Ke.Ready.Boost.Lifted.{
  occurs, Lifted, lift_all-Lifted, lifted_threads, starved_in-occurs, occurs-take,
}
use nanokrnl.Ke.Ready.Boost.Overdue.{
  raised, due, all_due, banks_due, overdue-starved_in, overdue_same, all_due_same, banks_due_same,
  SameSince, Raised, Raised-SameSince, Raised-append,
}

-- On a valid bank with a count below 2 ^ 64 and for a priority below 15, `boost_queue` moves the first
-- 16 of the threads of the queue that became ready more than 300 ticks ago to the end of the queue of
-- priority 15, in their order. They are marked boosted and have priority 15; no other thread or queue
-- changes, nor does the count, and the bank stays valid.
pub boost_queue-Lifted :
    (now pri : ℕ) (b : ReadyBank) (threads : ℕ → Kthread)
    → IsValid b
    → b.count < 2 ^ 64
    → pri < 15
    → Lifted pri (due threads now (queue b pri)) b (boost_queue now pri (b, threads)).0
      × Raised (due threads now (queue b pri)) threads (boost_queue now pri (b, threads)).1
unfolding boost_queue raised
boost_queue-Lifted now pri b threads valid small lt =
    let ts = take 16 (starved_in threads now (queue b pri)) in
    rw (sym (overdue-starved_in threads now (queue b pri))) (
      lift_all-Lifted pri ts b threads valid small lt (λ u. omega (
        arith,
        occurs-take 16 u (starved_in threads now (queue b pri)),
        starved_in-occurs threads now u (queue b pri),
      )),
      λ u. lifted_threads pri u ts b threads,
    )

-- What the scan of the priorities 1 to `n` leaves of a bank: the first 16 threads of each queue that were
-- ready too long have gone behind the others of priority 15.
pub record Boosted (now n : ℕ) (threads : ℕ → Kthread) (b b' : ReadyBank) : Type 0 where
  pub valid : IsValid b'
  pub count : b'.count ≡ b.count
  pub top : queue b' 15 ≡ queue b 15 ++ all_due threads now n b
  pub left :
      (q u : ℕ)
      → 1 ≤ q
      → q ≤ n
      → occurs u (queue b' q) + occurs u (due threads now (queue b q)) ≡ occurs u (queue b q)
  pub same : (q : ℕ) → ((q == 0) || ltb n q) ≡ true → q ≢ 15 → queue b' q ≡ queue b q

boost_below-Boosted :
    (now n : ℕ) (b : ReadyBank) (threads : ℕ → Kthread)
    → IsValid b
    → b.count < 2 ^ 64
    → n < 15
    → Boosted now n threads b (boost_below now n (b, threads)).0
      × Raised (all_due threads now n b) threads (boost_below now n (b, threads)).1
unfolding boost_below all_due
boost_below-Boosted now zero b threads valid small lt = (
  record {
    valid = valid;
    count = refl;
    top = sym (append-nil (queue b 15));
    left = λ q u some_q none_q. absurd (omega (arith, some_q, none_q));
    same = λ q out ne. refl;
  },
  λ u. refl,
)
boost_below-Boosted now (suc n) b threads valid small lt =
    let (before, moved) = boost_below-Boosted now n b threads valid small (omega (arith, lt)) in
    let r = boost_below now n (b, threads) in
    let own : queue r.0 (suc n) ≡ queue b (suc n) =
      before.same (suc n) (ground arith) (omega (arith, lt)) in
    let ts = due threads now (queue b (suc n)) in
    let since = Raised-SameSince (all_due threads now n b) threads r.1 moved in
    let same_due : due r.1 now (queue r.0 (suc n)) ≡ ts =
      ap (due r.1 now) own ∙ ap (take 16) (overdue_same threads r.1 now (queue b (suc n)) since) in
    let step : Lifted (suc n) ts r.0 (boost_queue now (suc n) r).0
        × Raised ts r.1 (boost_queue now (suc n) r).1 =
      subst
        (λ us.
          Lifted (suc n) us r.0 (boost_queue now (suc n) r).0
          × Raised us r.1 (boost_queue now (suc n) r).1)
        same_due (boost_queue-Lifted now (suc n) r.0 r.1 before.valid (rw before.count small) lt) in
    let lifted = step.0 in
    (
      record {
        valid = lifted.valid;
        count = lifted.count ∙ before.count;
        top =
            lifted.top
            ∙ ap (λ us. us ++ ts) before.top
            ∙ append_assoc (queue b 15) (all_due threads now n b) ts;
        left = λ q u some_q below. elim (Bool-cases (q == suc n)) [
          | inl here ↦
              let e : q ≡ suc n = (==_iff q (suc n)).0 here in
              rw e (lifted.left u ∙ ap (occurs u) own)
          | inr other ↦
              rw (lifted.others q (λ e. ground (arith, e, other)) (omega (arith, below, lt)))
                (before.left q u some_q (ground (arith, below, other)))
        ];
        same = λ q out ne.
            lifted.others q (λ e. ground (arith, e, out)) ne
            ∙ before.same q (ground (arith, out)) ne;
      },
      Raised-append (all_due threads now n b) ts threads r.1 (boost_queue now (suc n) r).1 moved
          step.1,
    )

Boosted-SameSince :
    (now n : ℕ) (threads threads' : ℕ → Kthread) (b b' : ReadyBank)
    → SameSince threads threads'
    → Boosted now n threads' b b'
    → Boosted now n threads b b'
Boosted-SameSince now n threads threads' b b' since boosted = record {
  valid = boosted.valid;
  count = boosted.count;
  top = boosted.top ∙ ap (λ ts. queue b 15 ++ ts) (all_due_same threads threads' now n b since);
  left = λ q u some_q below.
      ap (λ ts. occurs u (queue b' q) + occurs u (take 16 ts))
        (sym (overdue_same threads threads' now (queue b q) since))
      ∙ boosted.left q u some_q below;
  same = boosted.same;
}

-- The banks of the list `bs` are scanned, and `bs'` is what is left of them.
abbrev AllBoosted : (now : ℕ) (threads : ℕ → Kthread) (bs bs' : List ReadyBank) → Type 0
AllBoosted now threads bs bs' =
    (k : ℕ) (b : ReadyBank)
    → get_elem? bs k ≡ some b
    → (b' : ReadyBank) × (get_elem? bs' k ≡ some b') × Boosted now 14 threads b b'

AllBoosted-cons :
    (now : ℕ) (threads threads' : ℕ → Kthread) (c c' : ReadyBank) (cs cs' : List ReadyBank)
    → SameSince threads threads'
    → Boosted now 14 threads c c'
    → AllBoosted now threads' cs cs'
    → AllBoosted now threads (c ∷ cs) (c' ∷ cs')
AllBoosted-cons now threads threads' c c' cs cs' since here others zero b at =
    let same : c ≡ b = ground (arith, at) in
    (c', refl, subst (λ a. Boosted now 14 threads a c') same here)
AllBoosted-cons now threads threads' c c' cs cs' since here others (suc k) b at =
    let (b', at', boosted) = others k b at in
    (b', at', Boosted-SameSince now 14 threads threads' b b' since boosted)

boost_banks-Boosted :
    (now : ℕ) (bs : List ReadyBank) (threads : ℕ → Kthread)
    → ((k : ℕ) (b : ReadyBank) → get_elem? bs k ≡ some b → IsValid b × (b.count < 2 ^ 64))
    → AllBoosted now threads bs (boost_banks now bs threads).0
      × Raised (banks_due threads now bs) threads (boost_banks now bs threads).1
unfolding boost_banks banks_due
boost_banks-Boosted now [] threads all = (λ k b at. absurd (ground (arith, at)), λ u. refl)
boost_banks-Boosted now (c ∷ cs) threads all =
    let (valid, small) = all 0 c refl in
    let (here, moved) = boost_below-Boosted now 14 c threads valid small (omega arith) in
    let threads1 = (boost_below now 14 (c, threads)).1 in
    let since = Raised-SameSince (all_due threads now 14 c) threads threads1 moved in
    let (others, rest) = boost_banks-Boosted now cs threads1 (λ j a e. all (suc j) a e) in
    (
      AllBoosted-cons now threads threads1 c (boost_below now 14 (c, threads)).0 cs
          (boost_banks now cs threads1).0 since here others,
      Raised-append (all_due threads now 14 c) (banks_due threads now cs) threads threads1
          (boost_banks now cs threads1).1 moved
          (subst (λ ts. Raised ts threads1 (boost_banks now cs threads1).1)
            (banks_due_same threads threads1 now cs since) rest),
    )

-- On valid banks with counts below 2 ^ 64 - 1, `boost_starved_locked` keeps each bank valid and its
-- count. In every bank the first 16 of the threads of each queue from 1 to 14 that became ready more than 300 ticks
-- ago leave that queue and stand, the lower queue first, behind the threads of priority 15. They are marked
-- boosted and have priority 15. The queues of priority 0 and above 15 and all other threads stay.
pub boost_starved_locked-Boosted :
    (now : ℕ) (d : Dispatcher)
    → AllValid d.banks
    → Counted d.banks
    → (cpu : ℕ) (b : ReadyBank) → get_elem? d.banks cpu ≡ some b
    → ((b' : ReadyBank) × (get_elem? (boost_starved_locked now d).banks cpu ≡ some b')
        × Boosted now 14 d.threads b b')
      × Raised (banks_due d.threads now d.banks) d.threads (boost_starved_locked now d).threads
unfolding boost_starved_locked
boost_starved_locked-Boosted now d all small cpu b at =
    let (banks, threads) =
      boost_banks-Boosted now d.banks d.threads
        (λ k c e. (all k c e, omega (arith, small k c e))) in
    (banks cpu b at, threads)
