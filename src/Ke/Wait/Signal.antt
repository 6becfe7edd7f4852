-- ===== src/Ke/Wait/Signal.antt =====
-- kernel/src/ke/scheduler.rs: the operations that signal or reset an object leave no satisfied wait blocked.
use nanokrnl.Base.{
  ℕ, ◌+◌, ◌<◌, ◌≡◌, refl, ap, ◌∙◌, sym, Bool, true, ◌==◌, ==_iff, ==_refl, Bool-cases, inl, inr,
  arith, length,
}
use nanokrnl.Base.Int.{}
use nanokrnl.Ke.Wait.{
  DispatcherHeader, State, positive, signaled_for, timer_wait_block, timer_of, ki_wait_test,
  put_object,
}
use nanokrnl.Ke.Wait.Lists.{has_entry}
use nanokrnl.Ke.Wait.Keeping.{object_of, is_active, list_of, counts}
use nanokrnl.Ke.Wait.Evaluate.{counted, unsatisfied_mono}
use nanokrnl.Ke.Wait.Valid.{
  is_waiting, is_live, IsValid, IsQuiet, quiet_of, unsatisfied_of, put_object-IsValid,
  put_object-QuietBut,
}
use nanokrnl.Ke.Wait.Room.{has_room}
use nanokrnl.Ke.Wait.Spend.{IsRoomy, put_object-IsRoomy}
use nanokrnl.Ke.Wait.Rounds.{IsSettled, Tested, wait_test-Tested}

-- The waiting threads and their lists stay, and the objects signal no more to them.
pub record Eased (s s1 : State) : Type 0 where
  pub waits : (u : ℕ) → is_waiting s1 u ≡ is_waiting s u
  pub lives : (u : ℕ) → is_live s1 u ≡ is_live s u
  pub others : (u : ℕ) → is_waiting s u ≡ true → s1.waiters u ≡ s.waiters u
  pub lists : (o : ℕ) → list_of s1 o ≡ list_of s o
  pub offset : s1.timer_offset ≡ s.timer_offset
  pub banks : length s1.dispatcher.banks ≡ length s.dispatcher.banks
  pub positive_before :
      (o : ℕ)
      → positive (s1.objects o).signal_state ≡ true
      → positive (s.objects o).signal_state ≡ true
  pub signaled_before :
      (u o : ℕ)
      → is_waiting s u ≡ true
      → signaled_for u (s1.objects o) ≡ true
      → signaled_for u (s.objects o) ≡ true

pub Eased-IsValid : (s s1 : State) → Eased s s1 → IsValid s → IsValid s1
Eased-IsValid s s1 e valid = record {
  few = λ u up. let before = sym (e.waits u) ∙ up in rw (e.others u before) (valid.few u before);
  linked = λ u i o. elim (Bool-cases (is_waiting s u)) [
    | inl up ↦
        rw (counts, object_of, e.others u up, e.lists o) (rw (e.waits u) (valid.linked u i o))
    | inr idle ↦ rw (e.lists o) (ground (arith, e.waits u, idle, valid.linked u i o))
  ];
  active = λ u i up c.
      let before = sym (e.waits u) ∙ up in
      rw (is_active, e.others u before)
        (valid.active u i before (ap (λ w. counted w i) (sym (e.others u before)) ∙ c));
  own_timer = λ t u i alive on.
      valid.own_timer t u i (ground (arith, e.lives t, alive))
        (rw (sym e.offset) (ap (has_entry u i) (sym (e.lists (timer_of s1 t))) ∙ on));
}

pub Eased-IsQuiet : (s s1 : State) → Eased s s1 → IsQuiet s → IsQuiet s1
Eased-IsQuiet s s1 e quiet = λ u up.
    let before = sym (e.waits u) ∙ up in
    quiet_of s1 u (
      rw (e.others u before) (
        unsatisfied_mono s.objects s1.objects u (s.waiters u)
          (λ i c now. e.signaled_before u (object_of s u i) before now)
          (λ timed now. e.positive_before (object_of s u timer_wait_block) now)
          (unsatisfied_of s u (quiet u before))))

pub Eased-IsSettled :
    (processors : ℕ) (s s1 : State)
    → Eased s s1
    → IsRoomy s1
    → IsSettled processors s
    → IsSettled processors s1
Eased-IsSettled processors s s1 e room settled = record {
  valid = Eased-IsValid s s1 e settled.valid;
  quiet = Eased-IsQuiet s s1 e settled.quiet;
  room = room;
  banks = e.banks ∙ settled.banks;
}

-- What holds of the new header wherever it held of the old one holds of each header.
put_before :
    (p : DispatcherHeader → Bool) (o : ℕ) (h : DispatcherHeader) (s : State)
    → (p h ≡ true → p (s.objects o) ≡ true)
    → (a : ℕ) → p ((put_object o h s).objects a) ≡ true
    → p (s.objects a) ≡ true
put_before p o h s before a now = elim (Bool-cases (a == o)) [
  | inl here ↦
      let new : (put_object o h s).objects a ≡ h = rw here refl in
      ap (λ (b : ℕ). p (s.objects b)) ((==_iff a o).0 here) ∙ before (ap p (sym new) ∙ now)
  | inr other ↦
      let old : (put_object o h s).objects a ≡ s.objects a = rw other refl in ap p (sym old) ∙ now
]

-- A new state of one object with the same list that signals no more than the old one.
pub put_object-Eased :
    (o : ℕ) (h : DispatcherHeader) (s : State)
    → h.wait_list ≡ list_of s o
    → (positive h.signal_state ≡ true → positive (s.objects o).signal_state ≡ true)
    → ((u : ℕ) → signaled_for u h ≡ true → signaled_for u (s.objects o) ≡ true)
    → Eased s (put_object o h s)
put_object-Eased o h s same positive_before signaled_before = record {
  waits = λ u. refl;
  lives = λ u. refl;
  others = λ u up. refl;
  lists = λ a. elim (Bool-cases (a == o)) [
    | inl here ↦ rw (list_of, here) (same ∙ ap (list_of s) (sym ((==_iff a o).0 here)))
    | inr other ↦ rw (list_of, other) refl
  ];
  offset = refl;
  banks = refl;
  positive_before = put_before (λ g. positive g.signal_state) o h s positive_before;
  signaled_before = λ u a up. put_before (signaled_for u) o h s (signaled_before u) a;
}

-- `ki_wait_test` after one object has changed.
pub put_object-Tested :
    (cpu o : ℕ) (h : DispatcherHeader) (s : State)
    → h.wait_list ≡ list_of s o
    → cpu < length s.dispatcher.banks
    → ((u : ℕ) → is_waiting s u ≡ true → signaled_for u h ≡ true → has_room 3 h.signal_state ≡ true)
    → IsSettled (length s.dispatcher.banks) s
    → Tested cpu o (put_object o h s) 0 (ki_wait_test cpu o (put_object o h s))
unfolding ki_wait_test
put_object-Tested cpu o h s same lt room settled =
    let s1 = put_object o h s in
    wait_test-Tested (length (list_of s1 o) + 1) cpu o s1 0
      (put_object-IsValid o h s same settled.valid) lt
      (rw (list_of, ==_refl o) (put_object-QuietBut o h s same settled.valid settled.quiet))
      (put_object-IsRoomy o h s settled.room room) (omega arith)
