-- ===== src/Ke/Wait/Timed.antt =====
-- kernel/src/ke/scheduler.rs: a thread that blocks with a timer.
use nanokrnl.Base.{
  ℕ, ◌+◌, ◌≡◌, refl, ap, ◌∙◌, sym, true, false, ◌||◌, ◌==◌, ltb, ==_refl, Bool-cases, inl, inr,
  arith, length,
}
use nanokrnl.Base.Int.{}
use nanokrnl.Ke.Ready.{Dispatcher}
use nanokrnl.Ke.Wait.{
  DispatcherHeader, State, Waiter, positive, signaled_for, timer_wait_block, timer_of,
}
use nanokrnl.Ke.Wait.Operations.{link_block, set_waiting}
use nanokrnl.Ke.Wait.Lists.{}
use nanokrnl.Ke.Wait.Keeping.{object_of, is_active, list_of}
use nanokrnl.Ke.Wait.Evaluate.{is_satisfied, fired, unsatisfied_change}
use nanokrnl.Ke.Wait.Valid.{is_waiting, is_live, is_live_state, is_waiting_state, IsValid}
use nanokrnl.Ke.Wait.Block.{BlockedOn}
use nanokrnl.Ke.Wait.Link.{link_block-Linked}
use nanokrnl.Ke.Wait.Enter.{Listed, set_waiting_lives, set_waiting_lem, relisted_signaled}
use nanokrnl.Ke.Wait.Arm.{timed_block, timed_positive, timed_signaled}
use nanokrnl.Ke.Wait.Armed.{timed, timed-waiter, timed-counts, timed-object, timed-entries}

timed-count :
    (t due n : ℕ) (s s1 : State) → Listed t n s s1 → ((timed t due s1).waiters t).wait_count ≡ n
timed-count t due n s s1 l =
    let k = link_block-Linked t timer_wait_block (timed_block t due s1) in
    ap (λ (w : Waiter). w.wait_count) (timed-waiter t due s1)
    ∙ k.wait_count
    ∙ rw (==_refl t) l.count

timed-wait_type :
    (t due : ℕ) (s : State) → ((timed t due s).waiters t).wait_type ≡ (s.waiters t).wait_type
timed-wait_type t due s =
    let k = link_block-Linked t timer_wait_block (timed_block t due s) in
    ap (λ (w : Waiter). w.wait_type) (timed-waiter t due s) ∙ k.wait_type ∙ rw (==_refl t) refl

timed-active :
    (t due n : ℕ) (s s1 : State)
    → Listed t n s s1
    → (i : ℕ) → (ltb i n || (i == timer_wait_block)) ≡ true
    → is_active (timed t due s1) t i ≡ true
timed-active t due n s s1 l i c =
    let k = link_block-Linked t timer_wait_block (timed_block t due s1) in
    rw (is_active, timed-waiter t due s1)
      (k.active i ∙ elim (Bool-cases (i == timer_wait_block)) [
        | inl last ↦ ground (arith, last)
        | inr other ↦
            let same : is_active (timed_block t due s1) t i ≡ is_active s1 t i =
              rw (is_active, ==_refl t, other) refl in
            ground (arith, same, l.active i (ground (arith, c, other)))
      ])

-- The armed timer signals nothing.
timed-positive_before :
    (t due : ℕ) (s : State) (o : ℕ)
    → positive ((timed t due s).objects o).signal_state ≡ true
    → positive (s.objects o).signal_state ≡ true
timed-positive_before t due s o now =
    let k = link_block-Linked t timer_wait_block (timed_block t due s) in
    timed_positive t due s o
      (ap (λ (h : DispatcherHeader). positive h.signal_state) (sym (k.header o)) ∙ now)

timed-signaled_before :
    (t due : ℕ) (s : State) (u o : ℕ)
    → signaled_for u ((timed t due s).objects o) ≡ true
    → signaled_for u (s.objects o) ≡ true
timed-signaled_before t due s u o now =
    let s2 = timed_block t due s in
    let k = link_block-Linked t timer_wait_block s2 in
    timed_signaled t due s u o (
      sym (relisted_signaled u (s2.objects o) (list_of (link_block t timer_wait_block s2) o))
      ∙ ap (signaled_for u) (sym (k.header o))
      ∙ now)

timed-same_signal :
    (t due : ℕ) (s : State) (u o : ℕ)
    → signaled_for u ((timed t due s).objects o) ≡ true
    → ((timed t due s).objects o).signal_state ≡ (s.objects o).signal_state
unfolding signaled_for
timed-same_signal t due s u o now =
    let s2 = timed_block t due s in
    let k = link_block-Linked t timer_wait_block s2 in
    let count : ((timed t due s).objects o).signal_state ≡ (s2.objects o).signal_state =
      ap (λ (h : DispatcherHeader). h.signal_state) (k.header o) in
    let still : signaled_for u (s2.objects o) ≡ true =
      sym (relisted_signaled u (s2.objects o) (list_of (link_block t timer_wait_block s2) o))
      ∙ ap (signaled_for u) (sym (k.header o))
      ∙ now in
    count ∙ elim (Bool-cases (o == timer_of s t)) [
      | inl here ↦ absurd (ground (arith, here, still))
      | inr other ↦ rw other refl
    ]

timed_unfired :
    (t due : ℕ) (s : State) → fired (timed t due s).objects ((timed t due s).waiters t) ≡ false
timed_unfired t due s =
    let s2 = timed_block t due s in
    let k = link_block-Linked t timer_wait_block s2 in
    let o = object_of (timed t due s) t timer_wait_block in
    let own : o ≡ timer_of s t = timed-object t due s timer_wait_block in
    let down : positive (s2.objects o).signal_state ≡ false =
      rw (own, ==_refl (timer_of s t)) refl in
    let same : positive ((timed t due s).objects o).signal_state ≡ false =
      ap (λ (h : DispatcherHeader). positive h.signal_state) (k.header o) ∙ down in
    ground (arith, same)

timed_unsatisfied :
    (t due n : ℕ) (s s1 : State)
    → Listed t n s s1
    → is_satisfied (timed t due s1).objects t ((timed t due s1).waiters t) ≡ false
timed_unsatisfied t due n s s1 l =
    let s4 = timed t due s1 in
    unsatisfied_change s1.objects s4.objects t (s1.waiters t) (s4.waiters t)
      (timed-wait_type t due s1) (timed-count t due n s s1 l ∙ sym l.count)
      (λ i lt now.
        let below : (i == timer_wait_block) ≡ false = ground (arith, l.count, l.few, lt) in
        let same : object_of s4 t i ≡ object_of s1 t i = timed-object t due s1 i ∙ rw below refl in
        timed-signaled_before t due s1 t (object_of s1 t i)
          (ap (λ (o : ℕ). signaled_for t (s4.objects o)) (sym same) ∙ now))
      (λ now. absurd (ground (arith, now, timed_unfired t due s1))) l.unsatisfied

timed_own :
    (t due n : ℕ) (s s1 : State)
    → Listed t n s s1
    → (i v : ℕ) → (ltb i n || (i == timer_wait_block)) ≡ true
    → is_live s v ≡ true
    → object_of (timed t due s1) t i ≡ timer_of (timed t due s1) v
    → t ≡ v
timed_own t due n s s1 l i v c alive e =
    let k = link_block-Linked t timer_wait_block (timed_block t due s1) in
    let object = timed-object t due s1 i in
    elim (Bool-cases (i == timer_wait_block)) [
      | inl last ↦
          let own : timer_of s1 t ≡ timer_of (timed t due s1) v = sym (object ∙ rw last refl) ∙ e in
          omega (arith, own, k.offset)
      | inr other ↦
          let plain : object_of s1 t i ≡ timer_of s v =
            sym (object ∙ rw other refl) ∙ e ∙ ap (λ (m : ℕ). v + m) (k.offset ∙ l.offset) in
          absurd (l.plain i v (ground (arith, c, other)) alive plain)
    ]

-- The timer of the thread is not yet signaled and its block is in the list.
pub timed-BlockedOn :
    (t due n : ℕ) (s s1 : State)
    → IsValid s
    → is_live s t ≡ true
    → is_waiting s t ≡ false
    → Listed t n s s1
    → BlockedOn t s (set_waiting t (timed t due s1))
timed-BlockedOn t due n s s1 valid alive idle l =
    let k = link_block-Linked t timer_wait_block (timed_block t due s1) in
    let counted_lem = timed-counts t due n s s1 l in
    record {
      waits = λ u.
          set_waiting_lem t (timed t due s1) u
          ∙ ap (λ (d : Dispatcher). is_waiting_state (d.threads u).state || (u == t))
              (k.dispatcher ∙ l.dispatcher);
      others = λ u ne. ground (arith, ne) ∙ k.others u ne ∙ ground (arith, ne) ∙ l.others u ne;
      entries = timed-entries t due n s s1 valid alive idle l;
      few = rw (timed-count t due n s s1 l) l.few;
      active = λ i c. timed-active t due n s s1 l i (sym (counted_lem i) ∙ c);
      own = λ i v c lives e. timed_own t due n s s1 l i v (sym (counted_lem i) ∙ c) lives e;
      lives = λ u.
          set_waiting_lives t (timed t due s1) u (
            ap (λ (d : Dispatcher). is_live_state (d.threads t).state) (k.dispatcher ∙ l.dispatcher)
            ∙ alive)
          ∙ ap (λ (d : Dispatcher). is_live_state (d.threads u).state)
              (k.dispatcher ∙ l.dispatcher);
      positive_before = λ o now.
          ap (λ (h : DispatcherHeader). positive h.signal_state) (sym (l.header o))
          ∙ timed-positive_before t due s1 o now;
      signaled_before = λ u o now.
          sym (relisted_signaled u (s.objects o) (list_of s1 o))
          ∙ ap (signaled_for u) (sym (l.header o))
          ∙ timed-signaled_before t due s1 u o now;
      same_signal = λ u o now.
          timed-same_signal t due s1 u o now
          ∙ ap (λ (h : DispatcherHeader). h.signal_state) (l.header o);
      offset = k.offset ∙ l.offset;
      banks = ap (λ (d : Dispatcher). length d.banks) (k.dispatcher ∙ l.dispatcher);
      unsatisfied = timed_unsatisfied t due n s s1 l;
    }
