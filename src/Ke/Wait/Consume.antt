-- ===== src/Ke/Wait/Consume.antt =====
-- kernel/src/ke/scheduler.rs: what a wait takes from its objects signals nothing to another thread.
use nanokrnl.Base.{
  ℕ, zero, suc, ◌+◌, ◌<◌, ◌≤◌, ◌≡◌, ◌≢◌, ◌⊎◌, refl, ap, ◌∙◌, sym, true, ◌==◌, ==_iff, Bool-cases,
  inl, inr, arith,
}
use nanokrnl.Base.Int.{}
use nanokrnl.Ke.Wait.Room.{has_room, positive_down, room_down, room_less}
use nanokrnl.Ke.Wait.{
  ObjectType, notification_event, synchronization_event, mutant, semaphore, thread, timer,
  DispatcherHeader, State, Satisfy, not_yet, timeout, all_of, any_of, positive, is_mutant,
  signaled_for, taken, satisfy_object_for, satisfy_all, apply_consume, decreased,
}
use nanokrnl.Ke.Wait.Keeping.{list_of}

-- The header signals no more than another, for the threads other than `t`.
pub record Milder (t : ℕ) (h g : DispatcherHeader) : Type 0 where
  pub positive_before : positive g.signal_state ≡ true → positive h.signal_state ≡ true
  pub signaled_before : (u : ℕ) → u ≢ t → signaled_for u g ≡ true → signaled_for u h ≡ true
  pub stays :
      (u : ℕ)
      → u ≢ t
      → signaled_for u g ≡ true
      → (positive g.signal_state ≡ true) ⊎ (g.signal_state ≡ h.signal_state)

pub Milder-refl : (t : ℕ) (h : DispatcherHeader) → Milder t h h
Milder-refl t h = record {
  positive_before = λ up. up;
  signaled_before = λ u ne up. up;
  stays = λ u ne up. inr refl;
}

pub Milder-trans : (t : ℕ) (h g f : DispatcherHeader) → Milder t h g → Milder t g f → Milder t h f
Milder-trans t h g f a b = record {
  positive_before = λ up. a.positive_before (b.positive_before up);
  signaled_before = λ u ne up. a.signaled_before u ne (b.signaled_before u ne up);
  stays = λ u ne up. elim (b.stays u ne up) [
    | inl more ↦ inl more
    | inr same ↦ elim (a.stays u ne (b.signaled_before u ne up)) [
      | inl more ↦ inl (ap positive same ∙ more)
      | inr same' ↦ inr (same ∙ same')
    ]
  ];
}

pub record Consumed (t : ℕ) (s s1 : State) : Type 0 where
  pub waiters : s1.waiters ≡ s.waiters
  pub dispatcher : s1.dispatcher ≡ s.dispatcher
  pub offset : s1.timer_offset ≡ s.timer_offset
  pub lists : (o : ℕ) → list_of s1 o ≡ list_of s o
  pub types : (o : ℕ) → (s1.objects o).object_type ≡ (s.objects o).object_type
  pub milder : (o : ℕ) → Milder t (s.objects o) (s1.objects o)

Consumed-refl : (t : ℕ) (s : State) → Consumed t s s
Consumed-refl t s = record {
  waiters = refl;
  dispatcher = refl;
  offset = refl;
  lists = λ o. refl;
  types = λ o. refl;
  milder = λ o. Milder-refl t (s.objects o);
}

Consumed-trans : (t : ℕ) (s s1 s2 : State) → Consumed t s s1 → Consumed t s1 s2 → Consumed t s s2
Consumed-trans t s s1 s2 a b = record {
  waiters = b.waiters ∙ a.waiters;
  dispatcher = b.dispatcher ∙ a.dispatcher;
  offset = b.offset ∙ a.offset;
  lists = λ o. b.lists o ∙ a.lists o;
  types = λ o. b.types o ∙ a.types o;
  milder =
      λ o. Milder-trans t (s.objects o) (s1.objects o) (s2.objects o) (a.milder o) (b.milder o);
}

taken-Milder :
    (t : ℕ) (h : DispatcherHeader) (k : ObjectType)
    → h.object_type ≡ k
    → has_room 1 h.signal_state ≡ true
    → Milder t h (taken t h k)
unfolding signaled_for
taken-Milder t h synchronization_event kind room = record {
  positive_before = λ up. absurd (ground (arith, up));
  signaled_before = λ u ne up. ground (arith, up, ap is_mutant kind);
  stays = λ u ne up. absurd (ground (arith, up, ap is_mutant kind));
}
taken-Milder t h semaphore kind room = record {
  positive_before = λ up. positive_down h.signal_state room up;
  signaled_before = λ u ne up. elim (Bool-cases (positive (decreased h.signal_state))) [
    | inl more ↦ ground (arith, positive_down h.signal_state room more)
    | inr spent ↦ ground (arith, up, spent, ap is_mutant kind)
  ];
  stays = λ u ne up. elim (Bool-cases (positive (decreased h.signal_state))) [
    | inl more ↦ inl more
    | inr spent ↦ absurd (ground (arith, up, spent, ap is_mutant kind))
  ];
}
taken-Milder t h mutant kind room = record {
  positive_before = λ up. positive_down h.signal_state room up;
  signaled_before = λ u ne up. elim (Bool-cases (positive (decreased h.signal_state))) [
    | inl more ↦ ground (arith, positive_down h.signal_state room more)
    | inr spent ↦ absurd (ground (arith, up, spent, ne, ==_iff t u))
  ];
  stays = λ u ne up. elim (Bool-cases (positive (decreased h.signal_state))) [
    | inl more ↦ inl more
    | inr spent ↦ absurd (ground (arith, up, spent, ne, ==_iff t u))
  ];
}
taken-Milder t h notification_event kind room = Milder-refl t h
taken-Milder t h thread kind room = Milder-refl t h
taken-Milder t h timer kind room = Milder-refl t h

pub taken-type :
    (t : ℕ) (h : DispatcherHeader) (k : ObjectType) → (taken t h k).object_type ≡ h.object_type
taken-type t h synchronization_event = refl
taken-type t h semaphore = refl
taken-type t h mutant = refl
taken-type t h notification_event = refl
taken-type t h thread = refl
taken-type t h timer = refl

taken-list : (t : ℕ) (h : DispatcherHeader) (k : ObjectType) → (taken t h k).wait_list ≡ h.wait_list
taken-list t h synchronization_event = refl
taken-list t h semaphore = refl
taken-list t h mutant = refl
taken-list t h notification_event = refl
taken-list t h thread = refl
taken-list t h timer = refl

satisfy_object_for-Consumed :
    (o t : ℕ) (s : State)
    → has_room 1 (s.objects o).signal_state ≡ true
    → Consumed t s (satisfy_object_for o t s)
unfolding satisfy_object_for
satisfy_object_for-Consumed o t s room = record {
  waiters = refl;
  dispatcher = refl;
  offset = refl;
  lists = λ a. elim (Bool-cases (a == o)) [
    | inl here ↦
        rw (list_of, here)
          (taken-list t (s.objects o) (s.objects o).object_type
            ∙ ap (list_of s) (sym ((==_iff a o).0 here)))
    | inr other ↦ rw (list_of, other) refl
  ];
  types = λ a. elim (Bool-cases (a == o)) [
    | inl here ↦ rw here (
        taken-type t (s.objects o) (s.objects o).object_type
        ∙ ap (λ (b : ℕ). (s.objects b).object_type) (sym ((==_iff a o).0 here)))
    | inr other ↦ rw other refl
  ];
  milder = λ a. elim (Bool-cases (a == o)) [
    | inl here ↦ rw here (
        rw ((==_iff a o).0 here) (taken-Milder t (s.objects o) (s.objects o).object_type refl room))
    | inr other ↦ rw other (Milder-refl t (s.objects a))
  ];
}

taken-room :
    (k t : ℕ) (h : DispatcherHeader) (kind : ObjectType)
    → has_room (suc k) h.signal_state ≡ true
    → has_room k (taken t h kind).signal_state ≡ true
taken-room k t h synchronization_event room = ground (arith, room)
taken-room k t h semaphore room = room_down k h.signal_state room
taken-room k t h mutant room = room_down k h.signal_state room
taken-room k t h notification_event room = ground (arith, room)
taken-room k t h thread room = ground (arith, room)
taken-room k t h timer room = ground (arith, room)

satisfied-room :
    (k o t a : ℕ) (s : State)
    → has_room (suc k) (s.objects a).signal_state ≡ true
    → has_room k ((satisfy_object_for o t s).objects a).signal_state ≡ true
unfolding satisfy_object_for
satisfied-room k o t a s room = elim (Bool-cases (a == o)) [
  | inl here ↦
      let e : a ≡ o = (==_iff a o).0 here in
      rw here (
        taken-room k t (s.objects o) (s.objects o).object_type
          (ap (λ (b : ℕ). has_room (suc k) (s.objects b).signal_state) (sym e) ∙ room))
  | inr other ↦ rw other (room_less (suc k) k (s.objects a).signal_state (omega arith) room)
]

-- The objects of the blocks have room for one decrement each.
satisfy_all-Consumed :
    (t i n : ℕ) (s : State)
    → ((j : ℕ)
        → i ≤ j
        → j < i + n
        → has_room n (s.objects ((s.waiters t).wait_blocks j).object).signal_state ≡ true)
    → Consumed t s (satisfy_all t i n s)
unfolding satisfy_all satisfy_object_for
satisfy_all-Consumed t i zero s room = Consumed-refl t s
satisfy_all-Consumed t i (suc n) s room =
    let o = ((s.waiters t).wait_blocks i).object in
    let s1 = satisfy_object_for o t s in
    Consumed-trans t s s1 (satisfy_all t (i + 1) n s1)
      (satisfy_object_for-Consumed o t s (
        room_less (suc n) 1 (s.objects o).signal_state (omega arith)
          (room i (omega arith) (omega arith))))
      (satisfy_all-Consumed t (i + 1) n s1 (λ j low high.
        satisfied-room n o t ((s.waiters t).wait_blocks j).object s
          (room j (omega (arith, low)) (omega (arith, high)))))

-- The objects that a satisfied wait takes from have room for it.
abbrev pub IsSpendable : (t : ℕ) → State → Satisfy → Type 0
IsSpendable t s (any_of i) =
    has_room 1 (s.objects ((s.waiters t).wait_blocks i).object).signal_state ≡ true
IsSpendable t s all_of =
    (j : ℕ)
    → j < (s.waiters t).wait_count
    → has_room (s.waiters t).wait_count
        (s.objects ((s.waiters t).wait_blocks j).object).signal_state
      ≡ true
IsSpendable t s timeout = true ≡ true
IsSpendable t s not_yet = true ≡ true

pub apply_consume-Consumed :
    (t : ℕ) (r : Satisfy) (s : State) → IsSpendable t s r → Consumed t s (apply_consume t r s).0
unfolding apply_consume
apply_consume-Consumed t (any_of i) s room =
    satisfy_object_for-Consumed ((s.waiters t).wait_blocks i).object t s room
apply_consume-Consumed t all_of s room =
    satisfy_all-Consumed t 0 (s.waiters t).wait_count s (λ j low high. room j (omega (arith, high)))
apply_consume-Consumed t timeout s room = Consumed-refl t s
apply_consume-Consumed t not_yet s room = Consumed-refl t s
