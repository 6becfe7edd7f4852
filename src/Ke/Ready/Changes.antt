-- ===== src/Ke/Ready/Changes.antt =====
-- kernel/src/ke/scheduler.rs: a thread that leaves or joins a bank.
use nanokrnl.Base.{
  ℕ, suc, ◌+◌, ◌-◌, ◌%◌, ◌^◌, ◌<◌, ◌≤◌, ◌≡◌, refl, ap, ◌∙◌, false, not, inl, inr, some, List, [],
  ◌∷◌, ◌++◌, ◌==◌, if◌then◌else◌, get_or, set, length, length-set, length-append, get_or-set_self,
  get_elem?-some, get_or-set_ne, bit_or, bit_and, Bool-cases, ==_iff, arith,
}
use nanokrnl.Base.Bits.{
  bit, bit-bit_or, bit-bit_and, bit-pow, bit-ones_but, bit_or-lt, bit_and-lt, pow-lt,
}
use nanokrnl.Ke.Ready.{
  ReadyBank, queue, is_empty, pop_head, pop_at, push_tail, Dispatcher, queue_ready,
  ready_thread_locked,
}
use nanokrnl.Ke.Ready.Banks.{total-set, IsValid}

-- A bank with the queue of one priority replaced.
abbrev pub Requeued : ReadyBank → (pri : ℕ) → List ℕ → ReadyBank → Type 0
Requeued b pri ts b' = (q : ℕ) → queue b' q ≡ (if q == pri then ts else queue b q)

queue-set :
    (qs : List (List ℕ)) (pri q : ℕ) (ts : List ℕ)
    → pri < length qs
    → get_or (set qs pri ts) q [] ≡ (if q == pri then ts else get_or qs q [])
queue-set qs pri q ts lt = elim (Bool-cases (q == pri)) [
  | inl same ↦ rw (same, (==_iff q pri).0 same, get_or-set_self qs pri ts [] lt) refl
  | inr ne ↦ rw (ne, get_or-set_ne qs pri q ts [] (λ e. ground (arith, e))) refl
]

-- A new queue for one priority, with its summary bit and the count, keeps a bank valid.
requeue-IsValid :
    (b : ReadyBank) (pri summary count : ℕ) (ts : List ℕ)
    → IsValid b
    → pri < 32
    → summary < 2 ^ 32
    → ((q : ℕ) → q < 32 → bit summary q ≡ (if q == pri then not (is_empty ts) else bit b.summary q))
    → count + length (queue b pri) ≡ b.count + length ts
    → IsValid (record { queues = set b.queues pri ts; summary = summary; count = count })
requeue-IsValid b pri summary count ts valid lt narrow marks counts = record {
  levels = length-set b.queues pri ts ∙ valid.levels;
  narrow = narrow;
  marks = λ q q_lt.
      rw (queue-set b.queues pri q ts (rw valid.levels lt))
        (ground (arith, marks q q_lt, valid.marks q q_lt));
  counts = omega (arith, counts, valid.counts, total-set b.queues pri ts (rw valid.levels lt));
}

pub length_le_count :
    (b : ReadyBank) (pri : ℕ) → IsValid b → pri < 32 → length (queue b pri) ≤ b.count
length_le_count b pri valid lt =
    omega (arith, valid.counts, total-set b.queues pri [] (rw valid.levels lt))

-- The bank with a shorter queue, and its summary bit clear when the queue is empty.
abbrev pub shortened : ReadyBank → (pri : ℕ) → List ℕ → ReadyBank
shortened b pri ts = record {
  queues = set b.queues pri ts;
  summary = if is_empty ts then bit_and b.summary (2 ^ 32 - 1 - 2 ^ pri) else b.summary;
  count = (b.count + 2 ^ 64 - 1) % 2 ^ 64;
}

is_empty-length : (xs : List ℕ) (n : ℕ) → length xs ≡ suc n → is_empty xs ≡ false
is_empty-length [] n e = absurd (ground (arith, e))
is_empty-length (x ∷ xs) n e = refl

shortened-marks :
    (b : ReadyBank) (pri : ℕ) (ts : List ℕ)
    → IsValid b
    → pri < 32
    → length (queue b pri) ≡ suc (length ts)
    → (q : ℕ) → q < 32
    → bit (shortened b pri ts).summary q ≡ (if q == pri then not (is_empty ts) else bit b.summary q)
shortened-marks b pri ts valid lt one_less q q_lt = elim (Bool-cases (is_empty ts)) [
  | inl last ↦
      rw (last, bit-bit_and b.summary (2 ^ 32 - 1 - 2 ^ pri) q, bit-ones_but 32 pri q lt q_lt)
        (ground arith)
  | inr more ↦ rw more (elim (Bool-cases (q == pri)) [
    | inl here ↦
        rw (here, (==_iff q pri).0 here)
          (valid.marks pri lt
            ∙ ap (λ b. not b) (is_empty-length (queue b pri) (length ts) one_less))
    | inr other ↦ rw other refl
  ])
]

-- A bank from which one thread is taken.
pub shortened-IsValid :
    (b : ReadyBank) (pri : ℕ) (ts : List ℕ)
    → IsValid b
    → b.count < 2 ^ 64
    → pri < 32
    → length (queue b pri) ≡ suc (length ts)
    → IsValid (shortened b pri ts)
      × Requeued b pri ts (shortened b pri ts)
      × ((shortened b pri ts).count + 1 ≡ b.count)
shortened-IsValid b pri ts valid small lt one_less =
    let down : (shortened b pri ts).count + 1 ≡ b.count =
      ground (arith, small, one_less, length_le_count b pri valid lt) in
    let narrow : (shortened b pri ts).summary < 2 ^ 32 = elim (Bool-cases (is_empty ts)) [
      | inl last ↦ rw last (bit_and-lt 32 b.summary (2 ^ 32 - 1 - 2 ^ pri) valid.narrow)
      | inr more ↦ rw more valid.narrow
    ] in
    (
      requeue-IsValid b pri (shortened b pri ts).summary (shortened b pri ts).count ts valid lt
          narrow (shortened-marks b pri ts valid lt one_less) (omega (arith, down, one_less)),
      (λ q. queue-set b.queues pri q ts (rw valid.levels lt)),
      down,
    )

-- `pop_at` takes the head of the queue.
pub pop_at-IsValid :
    (b : ReadyBank) (pri t : ℕ) (ts : List ℕ)
    → IsValid b
    → b.count < 2 ^ 64
    → pri < 32
    → queue b pri ≡ t ∷ ts
    → (b' : ReadyBank) × (pop_at b pri ≡ some (b', t))
      × IsValid b'
      × Requeued b pri ts b'
      × (b'.count + 1 ≡ b.count)
unfolding pop_at pop_head
pop_at-IsValid b pri t ts valid small lt e =
    let (good, requeued, down) = shortened-IsValid b pri ts valid small lt (rw e refl) in
    rw e (shortened b pri ts, refl, good, requeued, down)

is_empty-snoc : (xs : List ℕ) (x : ℕ) → is_empty (xs ++ x ∷ []) ≡ false
is_empty-snoc [] x = refl
is_empty-snoc (y ∷ xs) x = refl

-- `push_tail` puts a thread behind the others of its priority.
pub push_tail-IsValid :
    (b : ReadyBank) (pri t : ℕ)
    → IsValid b
    → b.count + 1 < 2 ^ 64
    → pri < 32
    → IsValid (push_tail b pri t) × Requeued b pri (queue b pri ++ t ∷ []) (push_tail b pri t)
push_tail-IsValid b pri t valid small lt = (
  requeue-IsValid b pri (bit_or b.summary (2 ^ pri)) ((b.count + 1) % 2 ^ 64)
      (queue b pri ++ t ∷ []) valid lt
      (bit_or-lt 32 b.summary (2 ^ pri) valid.narrow (pow-lt pri 32 lt))
      (λ q q_lt.
        rw (bit-bit_or b.summary (2 ^ pri) q, bit-pow pri q, is_empty-snoc (queue b pri) t)
          (ground arith))
      (ground (arith, small, length-append (queue b pri) (t ∷ []))),
  λ q. queue-set b.queues pri q (queue b pri ++ t ∷ []) (rw valid.levels lt),
)

-- A processor with a bank queues the thread on it.
pub ready_thread_total :
    (cpu t : ℕ) (d : Dispatcher)
    → cpu < length d.banks
    → (b : ReadyBank) × (ready_thread_locked cpu t d ≡ some (queue_ready cpu t b d))
unfolding ready_thread_locked
ready_thread_total cpu t d lt =
    let empty : ReadyBank = record { queues = []; summary = 0; count = 0 } in
    (get_or d.banks cpu empty, rw (get_elem?-some d.banks cpu empty lt) refl)
