-- ===== src/Ke/Ready/Steal.antt =====
-- kernel/src/ke/scheduler.rs: the search for a thread to steal.
use nanokrnl.Base.{
  ℕ, suc, ◌+◌, ◌<◌, ◌≤◌, ◌≡◌, sym, ap, ◌∙◌, false, inl, inr, Option, none, some, List, [], ◌∷◌,
  ◌==◌, ltb, if◌then◌else◌, get_elem?, length, Bool-cases, ==_iff, arith,
}
use nanokrnl.Ke.Ready.{ReadyBank, queue, best_priority_in, consider, best_other}
use nanokrnl.Ke.Ready.Banks.{IsValid, Top, best_priority_in-Top}

-- The banks before `n`, that of `cpu` excepted, have no thread from priority `level` on.
abbrev pub Quiet : (cpu : ℕ) → List ReadyBank → (n level : ℕ) → Type 0
Quiet cpu banks n level =
    (c : ℕ) (b : ReadyBank) (q : ℕ)
    → c < n
    → (c == cpu) ≡ false
    → get_elem? banks c ≡ some b
    → level ≤ q
    → queue b q ≡ []

-- The bank of a processor other than `cpu` with a thread of priority `pri` and none above.
pub record Owned (cpu pri owner : ℕ) (banks : List ReadyBank) : Type 0 where
  pub bank : ReadyBank
  pub held : get_elem? banks owner ≡ some bank
  pub other : (owner == cpu) ≡ false
  pub top : Top bank pri

-- `best` is the best thread of the banks before `n`.
abbrev pub Best : (cpu : ℕ) → List ReadyBank → ℕ → Option (ℕ × ℕ) → Type 0
Best cpu banks n none = Quiet cpu banks n 0
Best cpu banks n (some (pri, owner)) = Owned cpu pri owner banks × Quiet cpu banks n (suc pri)

abbrev pub AllValid : List ReadyBank → Type 0
AllValid banks = (c : ℕ) (b : ReadyBank) → get_elem? banks c ≡ some b → IsValid b

extend_range :
    (cpu n level level' : ℕ) (banks : List ReadyBank)
    → Quiet cpu banks n level
    → level ≤ level'
    → ((b : ReadyBank) (q : ℕ)
        → (n == cpu) ≡ false
        → get_elem? banks n ≡ some b
        → level' ≤ q
        → queue b q ≡ [])
    → Quiet cpu banks (n + 1) level'
extend_range cpu n level level' banks quiet le here c b q lt ne at le_q =
    elim (Bool-cases (c == n)) [
      | inl same ↦
          let e = (==_iff c n).0 same in
          here b q (ap (λ x. x == cpu) (sym e) ∙ ne) (ap (get_elem? banks) (sym e) ∙ at) le_q
      | inr before ↦ quiet c b q (ground (arith, before)) ne at (omega (arith, le, le_q))
    ]

skip_step :
    (cpu n : ℕ) (banks : List ReadyBank) (best : Option (ℕ × ℕ))
    → Best cpu banks n best
    → ((b : ReadyBank) (q : ℕ) → (n == cpu) ≡ false → get_elem? banks n ≡ some b → queue b q ≡ [])
    → Best cpu banks (n + 1) best
skip_step cpu n banks none quiet empty =
    extend_range cpu n 0 0 banks quiet (omega arith) (λ b q ne at le. empty b q ne at)
skip_step cpu n banks (some (pri, owner)) (owned, quiet) empty = (
  owned,
  extend_range cpu n (suc pri) (suc pri) banks quiet (omega arith)
      (λ b q ne at le. empty b q ne at),
)

above_at :
    (n pri : ℕ) (b b' : ReadyBank) (q : ℕ) (banks : List ReadyBank)
    → Top b pri
    → get_elem? banks n ≡ some b
    → get_elem? banks n ≡ some b'
    → pri < q
    → queue b' q ≡ []
above_at n pri b b' q banks top at at' lt =
    let same : b ≡ b' = ground (arith, at, at') in ap (λ x. queue x q) (sym same) ∙ top.above q lt

-- A bank with a thread is considered.
consider_step :
    (cpu n pri : ℕ) (b : ReadyBank) (banks : List ReadyBank) (best : Option (ℕ × ℕ))
    → Best cpu banks n best
    → (n == cpu) ≡ false
    → get_elem? banks n ≡ some b
    → Top b pri
    → Best cpu banks (n + 1) (consider n (some pri) best)
consider_step cpu n pri b banks none quiet ne at top = (
  record { bank = b; held = at; other = ne; top = top },
  extend_range cpu n 0 (suc pri) banks quiet (omega arith)
      (λ b' q ne' at' le. above_at n pri b b' q banks top at at' le),
)
consider_step cpu n pri b banks (some (bp, c)) (owned, quiet) ne at top =
    elim (Bool-cases (ltb bp pri)) [
      | inl better ↦ rw better (
        record { bank = b; held = at; other = ne; top = top },
        extend_range cpu n (suc bp) (suc pri) banks quiet (ground (arith, better))
            (λ b' q ne' at' le. above_at n pri b b' q banks top at at' le),
      )
      | inr worse ↦ rw worse (
        owned,
        extend_range cpu n (suc bp) (suc bp) banks quiet (omega arith)
            (λ b' q ne' at' le. above_at n pri b b' q banks top at at' (ground (arith, worse, le))),
      )
    ]

bank_step :
    (cpu n : ℕ) (b : ReadyBank) (banks : List ReadyBank) (best : Option (ℕ × ℕ))
    → Best cpu banks n best
    → get_elem? banks n ≡ some b
    → IsValid b
    → Best cpu banks (n + 1) (if n == cpu then best else consider n (best_priority_in b) best)
bank_step cpu n b banks best sofar at valid = elim (Bool-cases (n == cpu)) [
  | inl own ↦
      rw own (skip_step cpu n banks best sofar (λ b' q ne. absurd (ground (arith, own, ne))))
  | inr ne ↦ elim (best_priority_in-Top b valid) [
    | inl (nothing, empty) ↦
        rw (ne, nothing)
          (skip_step cpu n banks best sofar (λ b' q ne' at'.
            let same : b ≡ b' = ground (arith, at, at') in
            ap (λ x. queue x q) (sym same) ∙ empty q))
    | inr (pri, found, top) ↦ rw (ne, found) (consider_step cpu n pri b banks best sofar ne at top)
  ]
]

-- The loop over the banks from `n` on keeps the best thread.
pub best_other-Best :
    (cpu n : ℕ) (bs banks : List ReadyBank) (best : Option (ℕ × ℕ))
    → AllValid banks
    → ((k : ℕ) → get_elem? bs k ≡ get_elem? banks (n + k))
    → Best cpu banks n best
    → Best cpu banks (n + length bs) (best_other cpu n bs best)
unfolding best_other
best_other-Best cpu n [] banks best valid tail sofar = let e : n + 0 ≡ n = omega arith in rw e sofar
best_other-Best cpu n (b ∷ bs) banks best valid tail sofar =
    let e : n + 0 ≡ n = omega arith in
    let at : get_elem? banks n ≡ some b = sym (tail 0 ∙ ap (get_elem? banks) e) in
    let next = bank_step cpu n b banks best sofar at (valid n b at) in
    let len : n + suc (length bs) ≡ n + 1 + length bs = omega arith in
    rw len (
      best_other-Best cpu (n + 1) bs banks
        (if n == cpu then best else consider n (best_priority_in b) best) valid
        (λ k. tail (suc k) ∙ ap (get_elem? banks) (omega arith)) next)
