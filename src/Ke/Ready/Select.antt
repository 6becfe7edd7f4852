-- ===== src/Ke/Ready/Select.antt =====
-- kernel/src/ke/scheduler.rs: the thread that a processor runs next.
use nanokrnl.Base.{
  ℕ, zero, suc, ◌+◌, ◌<◌, ◌≡◌, refl, sym, ap, subst, ◌∙◌, ◌^◌, ◌%◌, false, ◌⊎◌, inl, inr, Option,
  none, some, List, [], ◌∷◌, ◌++◌, ◌==◌, ◌>>=◌, get_elem?, set, length, Bool-cases, ==_iff, arith,
}
use nanokrnl.Ke.Ready.{
  ReadyBank, Dispatcher, queue, best_other, take_from, steal, own_or_steal, select_next_locked,
  push_tail, queue_ready, ready_thread_locked,
}
use nanokrnl.Ke.Ready.Banks.{IsValid, Top, best_priority_in-Top}
use nanokrnl.Ke.Ready.Changes.{Requeued, pop_at-IsValid, push_tail-IsValid}
use nanokrnl.Ke.Ready.Steal.{AllValid, Best, Quiet, best_other-Best}

get_elem?-set_self :
    {A : Type 0} (xs : List A) (i : ℕ) (x y : A)
    → get_elem? xs i ≡ some y
    → get_elem? (set xs i x) i ≡ some x
get_elem?-set_self [] i x y e = absurd (ground (arith, e))
get_elem?-set_self (z ∷ xs) zero x y e = refl
get_elem?-set_self (z ∷ xs) (suc i) x y e = get_elem?-set_self xs i x y e

get_elem?-set_ne :
    {A : Type 0} (xs : List A) (i j : ℕ) (x : A)
    → (j == i) ≡ false
    → get_elem? (set xs i x) j ≡ get_elem? xs j
get_elem?-set_ne [] i j x ne = refl
get_elem?-set_ne (z ∷ xs) zero zero x ne = absurd (ground (arith, ne))
get_elem?-set_ne (z ∷ xs) zero (suc j) x ne = refl
get_elem?-set_ne (z ∷ xs) (suc i) zero x ne = refl
get_elem?-set_ne (z ∷ xs) (suc i) (suc j) x ne = get_elem?-set_ne xs i j x (ground (arith, ne))

-- In `s'` the queue `pri` of the bank `owner`, which is `bank` in `s`, is `ts`; nothing else changed.
pub record Moved (s : Dispatcher) (owner pri : ℕ) (bank : ReadyBank) (ts : List ℕ) (s' : Dispatcher)
    : Type 0 where
  pub bank' : ReadyBank
  pub held : get_elem? s'.banks owner ≡ some bank'
  pub requeued : Requeued bank pri ts bank'
  pub others : (c : ℕ) → (c == owner) ≡ false → get_elem? s'.banks c ≡ get_elem? s.banks c
  pub valid : AllValid s'.banks

put-Moved :
    (s s' : Dispatcher) (owner pri : ℕ) (bank bank' : ReadyBank) (ts : List ℕ)
    → AllValid s.banks
    → get_elem? s.banks owner ≡ some bank
    → IsValid bank'
    → Requeued bank pri ts bank'
    → s'.banks ≡ set s.banks owner bank'
    → Moved s owner pri bank ts s'
put-Moved s s' owner pri bank bank' ts all at valid requeued is =
    let here : get_elem? s'.banks owner ≡ some bank' =
      rw is (get_elem?-set_self s.banks owner bank' bank at) in
    let there : (c : ℕ) → (c == owner) ≡ false → get_elem? s'.banks c ≡ get_elem? s.banks c =
      λ c ne. rw is (get_elem?-set_ne s.banks owner c bank' ne) in
    record {
      bank' = bank';
      held = here;
      requeued = requeued;
      others = there;
      valid = λ c b at_c. elim (Bool-cases (c == owner)) [
        | inl same ↦
            let e : some bank' ≡ some b =
              sym here ∙ ap (get_elem? s'.banks) (sym ((==_iff c owner).0 same)) ∙ at_c in
            let is_b : bank' ≡ b = ground (arith, e) in subst IsValid is_b valid
        | inr ne ↦ all c b (sym (there c ne) ∙ at_c)
      ];
    }

abbrev pub Counted : List ReadyBank → Type 0
Counted banks = (c : ℕ) (b : ReadyBank) → get_elem? banks c ≡ some b → b.count + 1 < 2 ^ 64

take_from-Moved :
    (s : Dispatcher) (owner pri : ℕ) (bank : ReadyBank)
    → AllValid s.banks
    → Counted s.banks
    → get_elem? s.banks owner ≡ some bank
    → (top : Top bank pri)
    → (s' : Dispatcher) × (take_from owner pri s ≡ some (s', some top.thread))
      × Moved s owner pri bank top.behind s'
unfolding take_from
take_from-Moved s owner pri bank all small at top =
    let (bank', call, valid, requeued, down) =
      pop_at-IsValid bank pri top.thread top.behind (all owner bank at)
        (omega (arith, small owner bank at)) top.level top.first in
    rw (at, ◌>>=◌, call, ◌>>=◌)
      (
        record s { banks = set s.banks owner bank' },
        refl,
        put-Moved s (record s { banks = set s.banks owner bank' }) owner pri bank bank' top.behind
            all at valid requeued refl,
      )

-- A thread that `cpu` may take: the first of the highest queue of a bank. The bank is that of
-- `cpu`, or that bank is empty and no other bank has a thread of a higher priority.
pub record Chosen (cpu : ℕ) (s : Dispatcher) (thread : ℕ) (s' : Dispatcher) : Type 0 where
  pub owner : ℕ
  pub pri : ℕ
  pub bank : ReadyBank
  pub held : get_elem? s.banks owner ≡ some bank
  pub top : Top bank pri
  pub is_first : thread ≡ top.thread
  pub best :
      (owner ≡ cpu)
      ⊎ (((own : ReadyBank) (q : ℕ) → get_elem? s.banks cpu ≡ some own → queue own q ≡ [])
          × Quiet cpu s.banks (length s.banks) (suc pri))
  pub moved : Moved s owner pri bank top.behind s'

-- What `select_next_locked` returns.
abbrev pub Selected : (cpu : ℕ) → Dispatcher → Dispatcher → Option ℕ → Type 0
Selected cpu s s' none =
    (s' ≡ s)
    × ((c : ℕ) (b : ReadyBank) (q : ℕ)
        → c < length s.banks
        → get_elem? s.banks c ≡ some b
        → queue b q ≡ [])
Selected cpu s s' (some thread) = Chosen cpu s thread s'

empty_own :
    (cpu : ℕ) (s : Dispatcher) (own : ReadyBank)
    → get_elem? s.banks cpu ≡ some own
    → ((q : ℕ) → queue own q ≡ [])
    → (b : ReadyBank) (q : ℕ) → get_elem? s.banks cpu ≡ some b
    → queue b q ≡ []
empty_own cpu s own at empty b q at' =
    let same : own ≡ b = ground (arith, at, at') in ap (λ x. queue x q) (sym same) ∙ empty q

steal-Selected :
    (cpu : ℕ) (s : Dispatcher) (own : ReadyBank) (best : Option (ℕ × ℕ))
    → AllValid s.banks
    → Counted s.banks
    → get_elem? s.banks cpu ≡ some own
    → ((q : ℕ) → queue own q ≡ [])
    → Best cpu s.banks (length s.banks) best
    → (r : Dispatcher × Option ℕ) × (steal s best ≡ some r) × Selected cpu s r.0 r.1
unfolding steal
steal-Selected cpu s own none all small at empty quiet = (
  (s, none),
  refl,
  (
    refl,
    λ c b q lt at_c. elim (Bool-cases (c == cpu)) [
      | inl same ↦
          empty_own cpu s own at empty b q
            (ap (get_elem? s.banks) (sym ((==_iff c cpu).0 same)) ∙ at_c)
      | inr ne ↦ quiet c b q lt ne at_c (omega arith)
    ],
  ),
)
steal-Selected cpu s own (some (pri, owner)) all small at empty (owned, quiet) =
    let counted = record s { steals = (s.steals + 1) % 2 ^ 64 } in
    let (s', call, moved) =
      take_from-Moved counted owner pri owned.bank all small owned.held owned.top in
    (
      (s', some owned.top.thread),
      call,
      record {
        owner = owner;
        pri = pri;
        bank = owned.bank;
        held = owned.held;
        top = owned.top;
        is_first = refl;
        best = inr (empty_own cpu s own at empty, quiet);
        moved = record {
          bank' = moved.bank';
          held = moved.held;
          requeued = moved.requeued;
          others = moved.others;
          valid = moved.valid;
        };
      },
    )

stolen_from :
    (cpu : ℕ) (s : Dispatcher)
    → AllValid s.banks
    → Best cpu s.banks (length s.banks) (best_other cpu 0 s.banks none)
stolen_from cpu s all =
    let len : 0 + length s.banks ≡ length s.banks = omega arith in
    subst (λ n. Best cpu s.banks n (best_other cpu 0 s.banks none)) len
      (best_other-Best cpu 0 s.banks s.banks none all (λ k. ap (get_elem? s.banks) (omega arith))
        (λ c b q lt. absurd (omega arith)))

-- On valid banks that include one for `cpu`, with counts below 2 ^ 64 - 1, `select_next_locked`
-- does not panic. It returns null and changes nothing only if no bank has a thread. Otherwise it
-- takes the first thread of the highest priority of the own bank, or, when that is empty, of the
-- highest priority of all other banks; that thread alone leaves its queue and the banks stay valid.
pub select_next_locked-Selected :
    (cpu : ℕ) (s : Dispatcher) (own : ReadyBank)
    → AllValid s.banks
    → Counted s.banks
    → get_elem? s.banks cpu ≡ some own
    → (r : Dispatcher × Option ℕ) × (select_next_locked cpu s ≡ some r) × Selected cpu s r.0 r.1
unfolding select_next_locked own_or_steal
select_next_locked-Selected cpu s own all small at =
    elim (best_priority_in-Top own (all cpu own at)) [
      | inl (nothing, empty) ↦
          rw (at, ◌>>=◌, nothing)
            (steal-Selected cpu s own (best_other cpu 0 s.banks none) all small at empty
              (stolen_from cpu s all))
      | inr (pri, found, top) ↦
          let (s', call, moved) = take_from-Moved s cpu pri own all small at top in
          rw (at, ◌>>=◌, found)
            (
              (s', some top.thread),
              call,
              record {
                owner = cpu;
                pri = pri;
                bank = own;
                held = at;
                top = top;
                is_first = refl;
                best = inl refl;
                moved = moved;
              },
            )
    ]

-- On valid banks with counts below 2 ^ 64 - 1, of which one is that of `cpu`,
-- `ready_thread_locked` does not panic. The thread is the last of the queue of its priority on that
-- bank, no other queue changes, and the banks stay valid.
pub ready_thread_locked-Moved :
    (cpu thread : ℕ) (s : Dispatcher) (bank : ReadyBank)
    → AllValid s.banks
    → Counted s.banks
    → get_elem? s.banks cpu ≡ some bank
    → (s' : Dispatcher) × (ready_thread_locked cpu thread s ≡ some s')
      × Moved s cpu
          ((s.threads thread).priority % 32)
          bank
          (queue bank ((s.threads thread).priority % 32) ++ thread ∷ [])
          s'
unfolding ready_thread_locked
ready_thread_locked-Moved cpu thread s bank all small at =
    let pri = (s.threads thread).priority % 32 in
    let (valid, requeued) =
      push_tail-IsValid bank pri thread (all cpu bank at) (small cpu bank at) (omega arith) in
    rw (at, ◌>>=◌)
      (
        queue_ready cpu thread bank s,
        refl,
        put-Moved s (queue_ready cpu thread bank s) cpu pri bank (push_tail bank pri thread)
            (queue bank pri ++ thread ∷ []) all at valid requeued refl,
      )
