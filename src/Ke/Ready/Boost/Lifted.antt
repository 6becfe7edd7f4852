-- ===== src/Ke/Ready/Boost/Lifted.antt =====
-- kernel/src/ke/scheduler.rs: what `boost_starved_locked` moves.
use nanokrnl.Base.{
  ℕ, zero, suc, ◌+◌, ◌^◌, ◌<◌, ◌≤◌, ◌≡◌, ◌≢◌, refl, ap, ◌∙◌, sym, ==_refl, Bool, true, false, ◌||◌,
  List, [], ◌∷◌, ◌++◌, ◌==◌, if◌then◌else◌, length, take, Bool-cases, ==_iff, inl, inr, arith,
}
use mathlib.Core.List.{append-nil, append_assoc}
use nanokrnl.Ke.Ready.{Kthread, ReadyBank, queue, put_thread}
use nanokrnl.Ke.Ready.Banks.{IsValid}
use nanokrnl.Ke.Ready.Changes.{shortened-IsValid, push_tail-IsValid}
use nanokrnl.Base.{}
use nanokrnl.Ke.Ready.Boost.{
  boost_priority, starved_in, remove_thread, take_out, lift, lifted, lift_thread, lift_all,
}

-- How often a thread is in a queue.
abbrev pub occurs : (t : ℕ) → List ℕ → ℕ
occurs t [] = 0
occurs t (u ∷ us) = (if u == t then 1 else 0) + occurs t us

remove_thread-occurs :
    (t u : ℕ) (ts : List ℕ)
    → 1 ≤ occurs t ts
    → occurs u (remove_thread t ts) + (if t == u then 1 else 0) ≡ occurs u ts
unfolding remove_thread
remove_thread-occurs t u [] h = absurd (ground (arith, h))
remove_thread-occurs t u (v ∷ vs) h = elim (Bool-cases (v == t)) [
  | inl here ↦ rw (here, (==_iff v t).0 here) (ground arith)
  | inr other ↦ rw other (ground (arith, remove_thread-occurs t u vs (ground (arith, h, other))))
]

length-remove_thread :
    (t : ℕ) (ts : List ℕ) → 1 ≤ occurs t ts → length ts ≡ suc (length (remove_thread t ts))
unfolding remove_thread
length-remove_thread t [] h = absurd (ground (arith, h))
length-remove_thread t (u ∷ us) h = elim (Bool-cases (u == t)) [
  | inl here ↦ rw here refl
  | inr other ↦ rw other (ground (arith, length-remove_thread t us (ground (arith, h, other))))
]

pub starved_in-occurs :
    (threads : ℕ → Kthread) (now u : ℕ) (ts : List ℕ)
    → occurs u (starved_in threads now ts) ≤ occurs u ts
unfolding starved_in
starved_in-occurs threads now u [] = omega arith
starved_in-occurs threads now u (t ∷ ts) = ground (arith, starved_in-occurs threads now u ts)

pub occurs-take : (n u : ℕ) (ts : List ℕ) → occurs u (take n ts) ≤ occurs u ts
occurs-take zero u ts = omega arith
occurs-take (suc n) u [] = omega arith
occurs-take (suc n) u (t ∷ ts) = ground (arith, occurs-take n u ts)

-- One thread of the queue `pri` moves to the end of the queue of the boost.
lift-IsValid :
    (b : ReadyBank) (pri t : ℕ)
    → IsValid b
    → b.count < 2 ^ 64
    → pri < boost_priority
    → 1 ≤ occurs t (queue b pri)
    → IsValid (lift pri t b)
      × ((lift pri t b).count ≡ b.count)
      × ((q : ℕ)
          → queue (lift pri t b) q ≡ (
              if q == boost_priority
              then queue b boost_priority ++ t ∷ []
              else if q == pri
              then remove_thread t (queue b pri)
              else queue b q))
unfolding take_out
lift-IsValid b pri t valid small lt one =
    let ts = remove_thread t (queue b pri) in
    let (out, left, down) =
      shortened-IsValid b pri ts valid small (omega (arith, lt))
        (length-remove_thread t (queue b pri) one) in
    let below : (boost_priority == pri) ≡ false = ground (arith, lt) in
    let top : queue (take_out pri t b) boost_priority ≡ queue b boost_priority =
      left boost_priority ∙ rw below refl in
    let (good, joined) =
      push_tail-IsValid (take_out pri t b) boost_priority t out (omega (arith, down, small))
        (omega arith) in
    (
      good,
      ground (arith, down, small),
      λ q. joined q ∙ elim (Bool-cases (q == boost_priority)) [
        | inl here ↦ rw here (ap (λ us. us ++ t ∷ []) top)
        | inr other ↦ rw other (left q)
      ],
    )

-- The threads `ts` have moved from the queue `pri` to the end of the queue of the boost, in their order.
not_equal : (a b : ℕ) → a ≢ b → (a == b) ≡ false
not_equal a b ne = ground (arith, ne)

pub record Lifted (pri : ℕ) (ts : List ℕ) (b b' : ReadyBank) : Type 0 where
  pub valid : IsValid b'
  pub count : b'.count ≡ b.count
  pub top : queue b' 15 ≡ queue b 15 ++ ts
  pub left : (u : ℕ) → occurs u (queue b' pri) + occurs u ts ≡ occurs u (queue b pri)
  pub others : (q : ℕ) → q ≢ pri → q ≢ 15 → queue b' q ≡ queue b q

pub lift_all-Lifted :
    (pri : ℕ) (ts : List ℕ) (b : ReadyBank) (threads : ℕ → Kthread)
    → IsValid b
    → b.count < 2 ^ 64
    → pri < 15
    → ((u : ℕ) → occurs u ts ≤ occurs u (queue b pri))
    → Lifted pri ts b (lift_all pri ts b threads).0
unfolding lift_all
lift_all-Lifted pri [] b threads valid small lt within = record {
  valid = valid;
  count = refl;
  top = sym (append-nil (queue b boost_priority));
  left = λ u. omega arith;
  others = λ q ne ne'. refl;
}
lift_all-Lifted pri (t ∷ ts) b threads valid small lt within =
    let one : 1 ≤ occurs t (queue b pri) = ground (arith, within t) in
    let (good, count, queues) = lift-IsValid b pri t valid small lt one in
    let b1 = lift pri t b in
    let below : (pri == boost_priority) ≡ false = ground (arith, lt) in
    let left : queue b1 pri ≡ remove_thread t (queue b pri) =
      queues pri ∙ rw (below, ==_refl pri) refl in
    let rest =
      lift_all-Lifted pri ts b1 (lift_thread t threads) good (rw count small) lt
        (λ u. rw left (ground (arith, within u, remove_thread-occurs t u (queue b pri) one))) in
    record {
      valid = rest.valid;
      count = rest.count ∙ count;
      top =
          rest.top
          ∙ ap (λ us. us ++ ts) (queues boost_priority)
          ∙ append_assoc (queue b boost_priority) (t ∷ []) ts;
      left = λ u.
          ground
            (arith, rest.left u, ap (occurs u) left, remove_thread-occurs t u (queue b pri) one);
      others = λ q ne ne'.
          rest.others q ne ne'
          ∙ queues q
          ∙ rw (not_equal q boost_priority ne', not_equal q pri ne) refl;
    }

abbrev pub is_in : (u : ℕ) → List ℕ → Bool
is_in u [] = false
is_in u (t ∷ ts) = (t == u) || is_in u ts

pub lifted_threads :
    (pri u : ℕ) (ts : List ℕ) (b : ReadyBank) (threads : ℕ → Kthread)
    → (lift_all pri ts b threads).1 u ≡ (if is_in u ts then lifted (threads u) else threads u)
unfolding lift_all
lifted_threads pri u [] b threads = refl
lifted_threads pri u (t ∷ ts) b threads =
    lifted_threads pri u ts (lift pri t b) (lift_thread t threads) ∙ elim (Bool-cases (u == t)) [
      | inl here ↦
          let same : (t == u) ≡ true = ground (arith, here) in
          let one : lifted (threads t) ≡ lifted (threads u) =
            ap (λ (v : ℕ). lifted (threads v)) (sym ((==_iff u t).0 here)) in
          elim (Bool-cases (is_in u ts)) [
            | inl more ↦ rw (more, lift_thread, put_thread, here, same) one
            | inr last ↦ rw (last, lift_thread, put_thread, here, same) one
          ]
      | inr other ↦
          let differ : (t == u) ≡ false = ground (arith, other) in
          rw (lift_thread, put_thread, other, differ) refl
    ]
