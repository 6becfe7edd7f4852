-- ===== src/Ke/Wait/Armed.antt =====
-- kernel/src/ke/scheduler.rs: the lists of waiters when the timer of a thread is armed.
use nanokrnl.Base.{
  ℕ, ◌+◌, ◌≡◌, refl, ap, ◌∙◌, true, false, ◌&&◌, ◌||◌, ◌==◌, ltb, if◌then◌else◌, ==_iff, ==_refl,
  Bool-cases, inl, inr, arith,
}
use nanokrnl.Base.Int.{}
use nanokrnl.Ke.Ready.{}
use nanokrnl.Ke.Wait.{State, timer_wait_block, timer_of, put_waiter}
use nanokrnl.Ke.Wait.Operations.{link_block, update_earliest_locked}
use nanokrnl.Ke.Wait.Lists.{has_entry}
use nanokrnl.Ke.Wait.Keeping.{object_of, list_of, counts}
use nanokrnl.Ke.Wait.Evaluate.{}
use nanokrnl.Ke.Wait.Valid.{is_waiting, is_live, IsValid}
use nanokrnl.Ke.Wait.Block.{}
use nanokrnl.Ke.Wait.Link.{link_block-Linked}
use nanokrnl.Ke.Wait.Enter.{Listed}
use nanokrnl.Ke.Wait.Arm.{timed_block, timed_block-object, timed_block-list, idle_timer}

-- The end of `arm_timer`.
abbrev pub armed : (t : ℕ) → State → State
armed t s = update_earliest_locked (put_waiter t (record (s.waiters t) { wait_timed = true }) s)

abbrev pub timed : (t due : ℕ) → State → State
timed t due s = armed t (link_block t timer_wait_block (timed_block t due s))

pub timed-waiter :
    (t due : ℕ) (s : State)
    → (timed t due s).waiters t
      ≡ record ((link_block t timer_wait_block (timed_block t due s)).waiters t) {
        wait_timed = true;
      }
timed-waiter t due s = rw (==_refl t) refl

pub timed-counts :
    (t due n : ℕ) (s s1 : State)
    → Listed t n s s1
    → (i : ℕ) → counts (timed t due s1) t i ≡ (ltb i n || (i == timer_wait_block))
timed-counts t due n s s1 l i =
    let k = link_block-Linked t timer_wait_block (timed_block t due s1) in
    let count : ((timed_block t due s1).waiters t).wait_count ≡ n = rw (==_refl t) l.count in
    rw (counts, timed-waiter t due s1, k.wait_count, count) (ground arith)

pub timed-object :
    (t due : ℕ) (s : State) (i : ℕ)
    → object_of (timed t due s) t i
      ≡ (if i == timer_wait_block then timer_of s t else object_of s t i)
timed-object t due s i =
    rw (object_of, timed-waiter t due s)
      ((link_block-Linked t timer_wait_block (timed_block t due s)).objects i
        ∙ timed_block-object t due s i)

pub plain_false :
    (t n : ℕ) (s s1 : State)
    → Listed t n s s1
    → (i v : ℕ) → is_live s v ≡ true
    → (ltb i n && (object_of s1 t i == timer_of s1 v)) ≡ false
plain_false t n s s1 l i v alive = elim (Bool-cases (ltb i n)) [
  | inr other ↦ rw other refl
  | inl in_wait ↦ elim (Bool-cases (object_of s1 t i == timer_of s1 v)) [
    | inr other ↦ rw (in_wait, other) refl
    | inl same ↦ absurd (
        l.plain i v in_wait alive
          ((==_iff (object_of s1 t i) (timer_of s1 v)).0 same ∙ ap (λ (k : ℕ). v + k) l.offset))
  ]
]

pub timed-entries :
    (t due n : ℕ) (s s1 : State)
    → IsValid s
    → is_live s t ≡ true
    → is_waiting s t ≡ false
    → Listed t n s s1
    → (u i o : ℕ)
    → has_entry u i (list_of (timed t due s1) o) ≡ (
        has_entry u i (list_of s o)
        || ((u == t) && (counts (timed t due s1) t i && (object_of (timed t due s1) t i == o))))
timed-entries t due n s s1 valid alive idle l u i o =
    let k = link_block-Linked t timer_wait_block (timed_block t due s1) in
    let a = timer_of s1 t in
    let empty : has_entry u i (list_of s a) ≡ false =
      ap (λ (m : ℕ). has_entry u i (list_of s (t + m))) l.offset
      ∙ idle_timer t u i s valid alive idle in
    k.entries u i o
    ∙ rw
        (
          timed_block-list t due s1 o,
          timed_block-object t due s1 i,
          timed-counts t due n s s1 l i,
          timed-object t due s1 i,
        )
        (elim (Bool-cases (o == a)) [
          | inl here ↦
              rw (here, (==_iff o a).0 here)
                (elim (Bool-cases (i == timer_wait_block)) [
                  | inl last ↦ rw last (ground (arith, empty))
                  | inr other ↦ rw other (ground (arith, empty, plain_false t n s s1 l i t alive))
                ])
          | inr other ↦ rw other (elim (Bool-cases (i == timer_wait_block)) [
            | inl last ↦ rw last (ground (arith, l.entries u i o, l.few, last))
            | inr before ↦ rw before (ground (arith, l.entries u i o))
          ])
        ])
