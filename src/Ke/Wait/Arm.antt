-- ===== src/Ke/Wait/Arm.antt =====
-- kernel/src/ke/scheduler.rs: `ki_wait_for_objects` lists its blocks and arms its timer.
use nanokrnl.Base.{
  ℕ, ◌<◌, ◌≤◌, ◌≡◌, ◌≢◌, refl, ap, ◌∙◌, sym, true, false, ◌==◌, ltb, if◌then◌else◌, ==_refl,
  Bool-cases, inl, inr, arith, length, List, [], get_or,
}
use nanokrnl.Base.Int.{}
use nanokrnl.Ke.Ready.{}
use nanokrnl.Ke.Wait.{WaitType, State, positive, signaled_for, timer_wait_block, timer_of}
use nanokrnl.Ke.Wait.Operations.{laid_out, link_blocks, new_timer, set_block}
use nanokrnl.Ke.Wait.Lists.{has_entry}
use nanokrnl.Ke.Wait.Keeping.{object_of, list_of}
use nanokrnl.Ke.Wait.Evaluate.{is_satisfied, unsatisfied_change}
use nanokrnl.Ke.Wait.Valid.{is_waiting, is_live, IsValid}
use nanokrnl.Ke.Wait.Block.{}
use nanokrnl.Ke.Wait.Link.{Linked-signals, link_blocks-Linked}
use nanokrnl.Ke.Wait.Enter.{Listed}

laid_out-object :
    (objs : List ℕ) (wait_type : WaitType) (s : State) (t i : ℕ)
    → ltb i (length objs) ≡ true
    → object_of (laid_out objs wait_type s t) t i ≡ get_or objs i 0
laid_out-object objs wait_type s t i lt = rw (object_of, ==_refl t, lt) refl

-- The blocks of the wait are listed.
pub laid_out-Listed :
    (objs : List ℕ) (wait_type : WaitType) (s : State) (t : ℕ)
    → length objs ≤ timer_wait_block
    → ((i v : ℕ) → i < length objs → is_live s v ≡ true → get_or objs i 0 ≢ timer_of s v)
    → is_satisfied (laid_out objs wait_type s t).objects t ((laid_out objs wait_type s t).waiters t)
      ≡ false
    → Listed t (length objs) s (link_blocks t (length objs) (laid_out objs wait_type s t))
laid_out-Listed objs wait_type s t few plain quiet =
    let n = length objs in
    let s1 = laid_out objs wait_type s t in
    let s2 = link_blocks t n s1 in
    let l = link_blocks-Linked t n s1 in
    let untimed : (s2.waiters t).wait_timed ≡ false = l.wait_timed ∙ rw (==_refl t) refl in
    record {
      few = few;
      count = l.wait_count ∙ rw (==_refl t) refl;
      untimed = untimed;
      others = λ u ne. l.others u ne ∙ ground (arith, ne);
      entries = λ u i o. l.entries u i o ∙ rw (l.objects i) refl;
      active = λ i lt. ground (arith, l.active i, lt);
      plain = λ i v lt alive e.
          plain i v (ground (arith, lt)) alive
            (sym (laid_out-object objs wait_type s t i lt) ∙ sym (l.objects i) ∙ e);
      header = l.header;
      dispatcher = l.dispatcher;
      offset = l.offset;
      unsatisfied =
          unsatisfied_change s1.objects s2.objects t (s1.waiters t) (s2.waiters t) l.wait_type
            l.wait_count (λ i lt now. sym (Linked-signals t (λ j. ltb j n) s1 s2 l i) ∙ now)
            (λ now. absurd (ground (arith, now, untimed))) quiet;
    }

-- The state where the timer of the thread is armed and its block names it.
abbrev pub timed_block : (t due : ℕ) → State → State
timed_block t due s =
    set_block t timer_wait_block
      (record ((s.waiters t).wait_blocks timer_wait_block) { object = timer_of s t })
      (new_timer t due s)

pub timed_block-object :
    (t due : ℕ) (s : State) (i : ℕ)
    → object_of (timed_block t due s) t i
      ≡ (if i == timer_wait_block then timer_of s t else object_of s t i)
timed_block-object t due s i =
    rw (object_of, ==_refl t)
      (elim (Bool-cases (i == timer_wait_block)) [
        | inl here ↦ rw here refl
        | inr other ↦ rw other refl
      ])

pub timed_block-list :
    (t due : ℕ) (s : State) (o : ℕ)
    → list_of (timed_block t due s) o ≡ (if o == timer_of s t then [] else list_of s o)
timed_block-list t due s o = elim (Bool-cases (o == timer_of s t)) [
  | inl here ↦ rw (list_of, here) refl
  | inr other ↦ rw (list_of, other) refl
]

-- Before the thread waits it is in no list, so nothing is in the list of its own timer.
pub idle_timer :
    (t u i : ℕ) (s : State)
    → IsValid s
    → is_live s t ≡ true
    → is_waiting s t ≡ false
    → has_entry u i (list_of s (timer_of s t)) ≡ false
idle_timer t u i s valid alive idle = elim (Bool-cases (has_entry u i (list_of s (timer_of s t)))) [
  | inr off ↦ off
  | inl on ↦
      let same : u ≡ t = valid.own_timer t u i alive on in
      absurd (ground (arith, on, valid.linked u i (timer_of s t), ap (is_waiting s) same, idle))
]

-- Signals of the state with the armed timer come from the state before.
pub timed_positive :
    (t due : ℕ) (s : State) (o : ℕ)
    → positive ((timed_block t due s).objects o).signal_state ≡ true
    → positive (s.objects o).signal_state ≡ true
timed_positive t due s o now = elim (Bool-cases (o == timer_of s t)) [
  | inl here ↦ absurd (ground (arith, here, now))
  | inr other ↦ ground (arith, other, now)
]

pub timed_signaled :
    (t due : ℕ) (s : State) (u o : ℕ)
    → signaled_for u ((timed_block t due s).objects o) ≡ true
    → signaled_for u (s.objects o) ≡ true
unfolding signaled_for
timed_signaled t due s u o now = elim (Bool-cases (o == timer_of s t)) [
  | inl here ↦ absurd (ground (arith, here, now))
  | inr other ↦ ground (arith, other, now)
]
