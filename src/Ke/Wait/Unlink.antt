-- ===== src/Ke/Wait/Unlink.antt =====
-- kernel/src/ke/scheduler.rs: what `unlink_thread_waits` leaves in the lists of waiters.
use nanokrnl.Base.{
  ℕ, zero, suc, ◌≤◌, ◌≡◌, refl, ap, ◌∙◌, sym, Bool, true, false, not, ◌&&◌, List, ◌==◌, ltb,
  if◌then◌else◌, ==_iff, Bool-cases, inl, inr, arith,
}
use nanokrnl.Ke.Wait.{
  remove_entry, Entry, State, DispatcherHeader, keep, unlink_block, unlink_blocks,
  unlink_thread_waits, cancel_wait_timer, clear_timed, timer_of, timer_wait_block,
}
use nanokrnl.Ke.Wait.Lists.{keep-keep, keep-same, keep-true, has_entry, without}
use nanokrnl.Ke.Wait.Keeping.{
  object_of, is_active, list_of, counts, relisted, Keeps, Keeps-refl, Keeps-trans, relist_lem,
}

-- The entries of an object that one block takes away.
abbrev pub taken_by : (t i : ℕ) (s : State) (o : ℕ) → Entry → Bool
taken_by t i s o e =
    ((e.waiter == t) && (e.index == i)) && (is_active s t i && (object_of s t i == o))

keep_none : (p : Entry → Bool) (es : List Entry) → ((e : Entry) → p e ≡ true) → es ≡ keep p es
keep_none p es all_kept = sym (keep-same p (λ e. true) es (λ e on. all_kept e) ∙ keep-true es)

unlinked-list :
    (t i : ℕ) (s : State) (o : ℕ)
    → (if o == object_of s t i then remove_entry t i (list_of s (object_of s t i)) else list_of s o)
      ≡ keep
          (λ e. not (((e.waiter == t) && (e.index == i)) && (object_of s t i == o)))
          (list_of s o)
unlinked-list t i s o = elim (Bool-cases (o == object_of s t i)) [
  | inl here ↦
      let same : object_of s t i ≡ o = sym ((==_iff o (object_of s t i)).0 here) in
      rw here (
        ap (λ (a : ℕ). remove_entry t i (list_of s a)) same
        ∙ keep-same (λ e. not ((e.waiter == t) && (e.index == i)))
            (λ e. not (((e.waiter == t) && (e.index == i)) && (object_of s t i == o))) (list_of s o)
            (λ e on. ground (arith, same)))
  | inr other ↦ rw other (
      keep_none (λ e. not (((e.waiter == t) && (e.index == i)) && (object_of s t i == o)))
        (list_of s o) (λ e. ground (arith, other)))
]

unlink_block-list :
    (t i : ℕ) (s : State) (o : ℕ)
    → list_of (unlink_block t i s) o ≡ keep (λ e. not (taken_by t i s o e)) (list_of s o)
unfolding unlink_block
unlink_block-list t i s o = elim (Bool-cases (is_active s t i)) [
  | inr idle ↦ rw idle (
      keep_none
        (λ e. not (((e.waiter == t) && (e.index == i)) && (false && (object_of s t i == o))))
        (list_of s o) (λ e. ground arith))
  | inl active ↦ rw active (
      ap (λ (h : DispatcherHeader). h.wait_list)
        (relist_lem s.objects (object_of s t i) o (remove_entry t i (list_of s (object_of s t i))))
      ∙ unlinked-list t i s o)
]

unlink_block-Keeps : (t i : ℕ) (s : State) → Keeps t s (unlink_block t i s)
unfolding unlink_block
unlink_block-Keeps t i s = elim (Bool-cases (is_active s t i)) [
  | inr idle ↦ rw idle (Keeps-refl t s)
  | inl active ↦ rw active (record {
    header = λ o.
        let e =
          relist_lem s.objects (object_of s t i) o
            (remove_entry t i (list_of s (object_of s t i))) in
        e ∙ ap (λ (h : DispatcherHeader). relisted (s.objects o) h.wait_list) (sym e);
    others = λ u ne. ground (arith, ne);
    objects = λ j. ground arith;
    dispatcher = refl;
    offset = refl;
  })
]

unlink_block-active :
    (t i : ℕ) (s : State) (j : ℕ)
    → is_active (unlink_block t i s) t j ≡ (is_active s t j && not (j == i))
unfolding unlink_block
unlink_block-active t i s j = elim (Bool-cases (is_active s t i)) [
  | inr idle ↦ rw idle (elim (Bool-cases (j == i)) [
    | inl here ↦
        let e : j ≡ i = (==_iff j i).0 here in rw here (ap (is_active s t) e ∙ idle ∙ ground arith)
    | inr other ↦ rw other (ground arith)
  ])
  | inl active ↦ rw active (ground arith)
]

unlink_blocks-Keeps : (t n : ℕ) (s : State) → Keeps t s (unlink_blocks t n s)
unfolding unlink_blocks
unlink_blocks-Keeps t zero s = Keeps-refl t s
unlink_blocks-Keeps t (suc n) s =
    Keeps-trans t s (unlink_blocks t n s) (unlink_block t n (unlink_blocks t n s))
      (unlink_blocks-Keeps t n s) (unlink_block-Keeps t n (unlink_blocks t n s))

unlink_blocks-active :
    (t n : ℕ) (s : State) (j : ℕ)
    → is_active (unlink_blocks t n s) t j ≡ (is_active s t j && not (ltb j n))
unfolding unlink_blocks
unlink_blocks-active t zero s j = ground arith
unlink_blocks-active t (suc n) s j =
    unlink_block-active t n (unlink_blocks t n s) j ∙ ground (arith, unlink_blocks-active t n s j)

-- The entries of an object that the blocks below `n` take away.
abbrev taken_below : (t n : ℕ) (s : State) (o : ℕ) → Entry → Bool
taken_below t n s o e =
    ((e.waiter == t) && ltb e.index n) && (is_active s t e.index && (object_of s t e.index == o))

-- The block `n` takes what the blocks below it left.
taken_step :
    (t n : ℕ) (s : State) (o : ℕ) (e : Entry)
    → (not (taken_below t n s o e) && not (taken_by t n (unlink_blocks t n s) o e))
      ≡ not (taken_below t (suc n) s o e)
taken_step t n s o e =
    let active = unlink_blocks-active t n s n in
    let object = (unlink_blocks-Keeps t n s).objects n in
    elim (Bool-cases (e.index == n)) [
      | inl here ↦
          let same : e.index ≡ n = (==_iff e.index n).0 here in
          rw (active, object, same) (ground arith)
      | inr other ↦ rw other (ground (arith, other))
    ]

unlink_blocks-list :
    (t n : ℕ) (s : State) (o : ℕ)
    → list_of (unlink_blocks t n s) o ≡ keep (λ e. not (taken_below t n s o e)) (list_of s o)
unfolding unlink_blocks
unlink_blocks-list t zero s o =
    keep_none (λ e. not (taken_below t 0 s o e)) (list_of s o) (λ e. ground arith)
unlink_blocks-list t (suc n) s o =
    let s1 = unlink_blocks t n s in
    unlink_block-list t n s1 o
    ∙ ap (keep (λ e. not (taken_by t n s1 o e))) (unlink_blocks-list t n s o)
    ∙ keep-keep (λ e. not (taken_by t n s1 o e)) (λ e. not (taken_below t n s o e)) (list_of s o)
    ∙ keep-same (λ e. not (taken_below t n s o e) && not (taken_by t n s1 o e))
        (λ e. not (taken_below t (suc n) s o e)) (list_of s o) (λ e on. taken_step t n s o e)

cancel_wait_timer-Keeps : (t : ℕ) (s : State) → Keeps t s (cancel_wait_timer t s)
unfolding cancel_wait_timer
cancel_wait_timer-Keeps t s = elim (Bool-cases (s.timers (timer_of s t)).inserted) [
  | inl armed ↦ rw armed (record {
    header = λ o. refl;
    others = λ u ne. refl;
    objects = λ i. refl;
    dispatcher = refl;
    offset = refl;
  })
  | inr idle ↦ rw idle (Keeps-refl t s)
]

clear_timed-Keeps : (t : ℕ) (s : State) → Keeps t s (clear_timed t s)
clear_timed-Keeps t s = record {
  header = λ o. refl;
  others = λ u ne. ground (arith, ne);
  objects = λ i. ground arith;
  dispatcher = refl;
  offset = refl;
}

cancel_wait_timer-list :
    (t : ℕ) (s : State) (o : ℕ) → list_of (cancel_wait_timer t s) o ≡ list_of s o
unfolding cancel_wait_timer
cancel_wait_timer-list t s o = elim (Bool-cases (s.timers (timer_of s t)).inserted) [
  | inl armed ↦ rw armed refl
  | inr idle ↦ rw idle refl
]

pub unlink_thread_waits-Keeps : (t : ℕ) (s : State) → Keeps t s (unlink_thread_waits t s)
unfolding unlink_thread_waits
unlink_thread_waits-Keeps t s =
    let s1 = unlink_blocks t (s.waiters t).wait_count s in
    let k1 = unlink_blocks-Keeps t (s.waiters t).wait_count s in
    elim (Bool-cases (s.waiters t).wait_timed) [
      | inr untimed ↦ rw untimed k1
      | inl timed ↦
          let s2 = unlink_block t timer_wait_block s1 in
          let s3 = cancel_wait_timer t s2 in
          rw timed (
            Keeps-trans t s s1 (clear_timed t s3) k1 (
              Keeps-trans t s1 s2 (clear_timed t s3) (unlink_block-Keeps t timer_wait_block s1) (
                Keeps-trans t s2 s3 (clear_timed t s3) (cancel_wait_timer-Keeps t s2)
                  (clear_timed-Keeps t s3))))
    ]

untimed_lem :
    (t : ℕ) (s : State) (o : ℕ) (e : Entry)
    → (s.waiters t).wait_timed ≡ false
    → (e.waiter ≡ t
        → (counts s t e.index && (is_active s t e.index && (object_of s t e.index == o))) ≡ true)
    → not (taken_below t (s.waiters t).wait_count s o e) ≡ not (e.waiter == t)
untimed_lem t s o e untimed own = elim (Bool-cases (e.waiter == t)) [
  | inl here ↦ rw here (ground (arith, own ((==_iff e.waiter t).0 here), untimed))
  | inr other ↦ rw other (ground arith)
]

timed_lem :
    (t : ℕ) (s : State) (o : ℕ) (e : Entry)
    → (s.waiters t).wait_count ≤ timer_wait_block
    → (e.waiter ≡ t
        → (counts s t e.index && (is_active s t e.index && (object_of s t e.index == o))) ≡ true)
    → (not (taken_below t (s.waiters t).wait_count s o e)
        && not (taken_by t timer_wait_block (unlink_blocks t (s.waiters t).wait_count s) o e))
      ≡ not (e.waiter == t)
timed_lem t s o e few own =
    let n = (s.waiters t).wait_count in
    let active = unlink_blocks-active t n s timer_wait_block in
    let object = (unlink_blocks-Keeps t n s).objects timer_wait_block in
    elim (Bool-cases (e.waiter == t)) [
      | inl here ↦
          rw (active, object, here)
            (elim (Bool-cases (e.index == timer_wait_block)) [
              | inl last ↦
                  let same : e.index ≡ timer_wait_block =
                    (==_iff e.index timer_wait_block).0 last in
                  ground (arith, own ((==_iff e.waiter t).0 here), same, few)
              | inr other ↦ ground (arith, own ((==_iff e.waiter t).0 here), other)
            ])
      | inr other ↦ rw other (ground arith)
    ]

-- When each entry of the thread in a list is an active block that waits for its object, the list loses
-- the entries of the thread and no other.
pub unlink_thread_waits-without :
    (t : ℕ) (s : State) (o : ℕ)
    → (s.waiters t).wait_count ≤ timer_wait_block
    → ((e : Entry)
        → has_entry e.waiter e.index (list_of s o) ≡ true
        → e.waiter ≡ t
        → (counts s t e.index && (is_active s t e.index && (object_of s t e.index == o))) ≡ true)
    → list_of (unlink_thread_waits t s) o ≡ without t (list_of s o)
unfolding unlink_thread_waits
unlink_thread_waits-without t s o few own =
    let n = (s.waiters t).wait_count in
    let s1 = unlink_blocks t n s in
    elim (Bool-cases (s.waiters t).wait_timed) [
      | inr untimed ↦ rw untimed (
          unlink_blocks-list t n s o
          ∙ keep-same (λ e. not (taken_below t n s o e)) (λ e. not (e.waiter == t)) (list_of s o)
              (λ e on. untimed_lem t s o e untimed (own e on)))
      | inl timed ↦ rw timed (
          cancel_wait_timer-list t (unlink_block t timer_wait_block s1) o
          ∙ unlink_block-list t timer_wait_block s1 o
          ∙ ap (keep (λ e. not (taken_by t timer_wait_block s1 o e))) (unlink_blocks-list t n s o)
          ∙ keep-keep (λ e. not (taken_by t timer_wait_block s1 o e))
              (λ e. not (taken_below t n s o e)) (list_of s o)
          ∙ keep-same (λ e. not (taken_below t n s o e) && not (taken_by t timer_wait_block s1 o e))
              (λ e. not (e.waiter == t)) (list_of s o) (λ e on. timed_lem t s o e few (own e on)))
    ]
