-- ===== src/Ke/Ready/Banks.antt =====
-- kernel/src/ke/scheduler.rs: a bank whose summary and count agree with its queues.
use nanokrnl.Base.{
  ℕ, zero, suc, ◌+◌, ◌-◌, ◌^◌, ◌<◌, ◌≤◌, ◌≡◌, refl, sym, ◌∙◌, true, false, not, ◌⊎◌, inl, inr, none,
  some, List, [], ◌∷◌, ◌==◌, ltb, get_or, set, length, Bool-cases, ==_iff, arith,
}
use nanokrnl.Base.Bits.{bit, bit-zero, eq_of_bits}
use nanokrnl.Base.Bits.Zeros.{zeros_from, zeros_from-top}
use nanokrnl.Ke.Ready.{ReadyBank, queue, is_empty, best_priority_in}

-- The threads of all queues.
unfoldable pub total : List (List ℕ) → ℕ
total [] = 0
total (q ∷ qs) = length q + total qs

pub total-set :
    (qs : List (List ℕ)) (i : ℕ) (q : List ℕ)
    → i < length qs
    → total (set qs i q) + length (get_or qs i []) ≡ total qs + length q
unfolding total
total-set [] i q lt = absurd (omega arith)
total-set (x ∷ qs) zero q lt = omega arith
total-set (x ∷ qs) (suc i) q lt = omega (arith, total-set qs i q (omega arith))

pub record IsValid (b : ReadyBank) : Type 0 where
  pub levels : length b.queues ≡ 32
  pub narrow : b.summary < 2 ^ 32
  pub marks : (pri : ℕ) → pri < 32 → bit b.summary pri ≡ not (is_empty (queue b pri))
  pub counts : b.count ≡ total b.queues

get_or-out : (qs : List (List ℕ)) (i : ℕ) → length qs ≤ i → get_or qs i [] ≡ []
get_or-out [] i le = refl
get_or-out (q ∷ qs) zero le = absurd (omega arith)
get_or-out (q ∷ qs) (suc i) le = get_or-out qs i (omega arith)

pub queue-out : (b : ReadyBank) (pri : ℕ) → IsValid b → 32 ≤ pri → queue b pri ≡ []
queue-out b pri valid le = get_or-out b.queues pri (rw valid.levels le)

pub is_empty-cases : (q : List ℕ) → (q ≡ []) ⊎ ((t : ℕ) × (ts : List ℕ) × (q ≡ t ∷ ts))
is_empty-cases [] = inl refl
is_empty-cases (t ∷ ts) = inr (t, ts, refl)

-- `pri` is the highest priority with a thread.
pub record Top (b : ReadyBank) (pri : ℕ) : Type 0 where
  pub thread : ℕ
  pub behind : List ℕ
  pub level : pri < 32
  pub first : queue b pri ≡ thread ∷ behind
  pub above : (q : ℕ) → pri < q → queue b q ≡ []

-- The queues of priority 0 to 31 whose bits are clear are empty.
queue-clear :
    (b : ReadyBank) (q : ℕ) → IsValid b → (q < 32 → bit b.summary q ≡ false) → queue b q ≡ []
queue-clear b q valid clear = elim (is_empty-cases (queue b q)) [
  | inl e ↦ e
  | inr (t, ts, e) ↦ elim (Bool-cases (ltb q 32)) [
    | inl lt ↦ absurd (ground (arith, e, clear, valid.marks q))
    | inr ge ↦ queue-out b q valid (ground (arith, ge))
  ]
]

highest_found :
    (b : ReadyBank) (pri : ℕ)
    → IsValid b
    → pri < 32
    → bit b.summary pri ≡ true
    → ((q : ℕ) → pri < q → q < 32 → bit b.summary q ≡ false)
    → Top b pri
highest_found b pri valid lt on above = elim (is_empty-cases (queue b pri)) [
  | inl e ↦ absurd (ground (arith, e, valid.marks pri lt))
  | inr (t, ts, e) ↦ record {
    thread = t;
    behind = ts;
    level = lt;
    first = e;
    above = λ q hi. queue-clear b q valid (above q hi);
  }
]

-- `best_priority_in` finds the highest priority with a thread, or that there is no thread.
pub best_priority_in-Top :
    (b : ReadyBank)
    → IsValid b
    → ((best_priority_in b ≡ none) × ((q : ℕ) → queue b q ≡ []))
      ⊎ ((pri : ℕ) × (best_priority_in b ≡ some pri) × Top b pri)
unfolding best_priority_in
best_priority_in-Top b valid = elim (Bool-cases (b.summary == 0)) [
  | inl zero' ↦ inl (
    rw zero' refl,
    λ q. queue-clear b q valid (λ lt. rw ((==_iff b.summary 0).0 zero') (bit-zero q)),
  )
  | inr some' ↦ elim (zeros_from-top 32 b.summary) [
    | inl all ↦
        let w : b.summary ≡ 0 =
          eq_of_bits 32 b.summary 0 valid.narrow (ground arith)
            (λ k lt. all k lt ∙ sym (bit-zero k)) in
        absurd (ground (arith, w))
    | inr (p, eq, on, above) ↦
        let is : 31 - zeros_from 32 b.summary ≡ p = omega (arith, eq) in
        inr (p, rw (some', is) refl, highest_found b p valid (omega (arith, eq)) on above)
  ]
]
