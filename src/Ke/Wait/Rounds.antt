-- ===== src/Ke/Wait/Rounds.antt =====
-- kernel/src/ke/scheduler.rs: the loop of `ki_wait_test` wakes each thread that can go on.
use nanokrnl.Base.{
  ℕ, zero, suc, ◌+◌, ◌<◌, ◌≤◌, ◌≡◌, ◌≢◌, refl, ap, ◌∙◌, sym, true, false, Option, none, some, List,
  [], ◌∷◌, ◌==◌, ==_iff, Bool-cases, Option-cases, inl, inr, arith, length,
}
use nanokrnl.Ke.Wait.{
  Entry, State, evaluate_wait, is_not_yet, not_yet, find_satisfied, wake, wait_test,
}
use nanokrnl.Ke.Wait.Lists.{lists, lists-without, length-without-lt}
use nanokrnl.Ke.Wait.Keeping.{list_of}
use nanokrnl.Ke.Wait.Evaluate.{is_satisfied, evaluate_wait-is_satisfied}
use nanokrnl.Ke.Wait.Valid.{is_waiting, IsValid, IsQuiet, QuietBut, quiet_of, waiting_of_lists}
use nanokrnl.Ke.Wait.Spend.{IsRoomy, Woken-IsRoomy, evaluate_wait-IsSpendable}
use nanokrnl.Ke.Wait.Wake.{Woken, wake-Woken, Woken-IsValid, Woken-unsatisfied, still_waiting}

find_none :
    (s : State) (t : ℕ) (es : List Entry)
    → find_satisfied s es ≡ none
    → lists t es ≡ true
    → is_satisfied s.objects t (s.waiters t) ≡ false
unfolding find_satisfied
find_none s t [] e on = absurd (ground (arith, on))
find_none s t (d ∷ es) e on = elim (Bool-cases (is_not_yet (evaluate_wait s d.waiter))) [
  | inl quiet ↦
      let rest : find_satisfied s es ≡ none = ground (arith, e, quiet) in
      elim (Bool-cases (d.waiter == t)) [
        | inl here ↦
            let same : d.waiter ≡ t = (==_iff d.waiter t).0 here in
            ap (λ (u : ℕ). is_satisfied s.objects u (s.waiters u)) (sym same)
            ∙ ground (arith, quiet, evaluate_wait-is_satisfied s d.waiter)
        | inr other ↦ find_none s t es rest (ground (arith, on, other))
      ]
  | inr up ↦ absurd (ground (arith, e, up))
]

find_some :
    (s : State) (t : ℕ) (es : List Entry)
    → find_satisfied s es ≡ some t
    → (lists t es ≡ true) × (is_not_yet (evaluate_wait s t) ≡ false)
unfolding find_satisfied
find_some s t [] e = absurd (ground (arith, e))
find_some s t (d ∷ es) e = elim (Bool-cases (is_not_yet (evaluate_wait s d.waiter))) [
  | inl quiet ↦
      let rest = find_some s t es (ground (arith, e, quiet)) in (ground (arith, rest.0), rest.1)
  | inr up ↦
      let same : d.waiter ≡ t = ground (arith, e, up) in
      (ground (arith, same), ap (λ (u : ℕ). is_not_yet (evaluate_wait s u)) (sym same) ∙ up)
]

-- Threads that wait, and whose waits are satisfied at their turn, wake one after the other.
pub data Wakes (cpu : ℕ) : State → ℕ → State → Type 0 where
  done : (s : State) → Wakes cpu s 0 s
  next :
      (t : ℕ) (s s1 s2 : State) (n : ℕ)
      → is_waiting s t ≡ true
      → evaluate_wait s t ≢ not_yet
      → wake cpu t s ≡ some s1
      → Wakes cpu s1 n s2
      → Wakes cpu s (suc n) s2

-- The invariant holds and no satisfied wait is left.
pub record IsSettled (processors : ℕ) (s : State) : Type 0 where
  pub valid : IsValid s
  pub quiet : IsQuiet s
  pub room : IsRoomy s
  pub banks : length s.dispatcher.banks ≡ processors

-- What the loop gives from `s`, when it has woken `woke` threads before.
abbrev pub Tested : (cpu o : ℕ) (s : State) (woke : ℕ) → Option (State × ℕ) → Type 0
Tested cpu o s woke r =
    (s1 : State) × (n : ℕ) × (r ≡ some (s1, woke + n))
    × Wakes cpu s n s1
    × IsSettled (length s.dispatcher.banks) s1
    × (n ≤ length (list_of s o))

quiet_next :
    (o t : ℕ) (s s1 : State) → Woken t s s1 → QuietBut (list_of s o) s → QuietBut (list_of s1 o) s1
quiet_next o t s s1 w but = λ u up off.
    let before = still_waiting t u s s1 w up in
    Woken-unsatisfied t u s s1 w before.1 (
      but u before.0
        (ground (arith, before.1, off, ap (lists u) (w.lists o), lists-without t u (list_of s o))))

pub wait_test-Tested :
    (fuel cpu o : ℕ) (s : State) (woke : ℕ)
    → IsValid s
    → cpu < length s.dispatcher.banks
    → QuietBut (list_of s o) s
    → IsRoomy s
    → length (list_of s o) < fuel
    → Tested cpu o s woke (wait_test fuel cpu o s woke)
unfolding wait_test
wait_test-Tested zero cpu o s woke valid lt but room enough = absurd (omega (arith, enough))
wait_test-Tested (suc fuel) cpu o s woke valid lt but room enough =
    elim (Option-cases (find_satisfied s (list_of s o))) [
      | inl quiet ↦ (
        s,
        0,
        rw quiet (ground arith),
        done s,
        record {
          valid = valid;
          quiet = λ t up. elim (Bool-cases (lists t (list_of s o))) [
            | inl on ↦ quiet_of s t (find_none s t (list_of s o) quiet on)
            | inr off ↦ quiet_of s t (but t up off)
          ];
          room = room;
          banks = refl;
        },
        omega arith,
      )
      | inr (t, found) ↦
          let f = find_some s t (list_of s o) found in
          let up = waiting_of_lists s t o valid f.0 in
          let (s1, e, w) =
            wake-Woken cpu t s valid up lt
              (evaluate_wait-IsSpendable t s (room t up) (valid.few t up)) in
          let shorter : length (list_of s1 o) < length (list_of s o) =
            rw (w.lists o) (length-without-lt t (list_of s o) f.0) in
          let (s2, n, e2, steps, settled, few) =
            wait_test-Tested fuel cpu o s1 (woke + 1) (Woken-IsValid t s s1 w valid) (rw w.banks lt)
              (quiet_next o t s s1 w but) (Woken-IsRoomy t s s1 w room)
              (omega (arith, shorter, enough)) in
          (
            s2,
            suc n,
            rw (found, e) (e2 ∙ ground arith),
            next t s s1 s2 n up (λ q. ground (arith, f.1, ap is_not_yet q)) e steps,
            record {
              valid = settled.valid;
              quiet = settled.quiet;
              room = settled.room;
              banks = settled.banks ∙ w.banks;
            },
            omega (arith, few, shorter),
          )
    ]
