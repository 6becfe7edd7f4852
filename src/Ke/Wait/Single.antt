-- ===== src/Ke/Wait/Single.antt =====
-- kernel/src/ke/scheduler.rs: the signal of an event that resets itself wakes one thread at most.
use nanokrnl.Base.{
  ℕ, zero, suc, ◌+◌, ◌<◌, ◌≡◌, ◌≢◌, ◌⊎◌, refl, ap, ◌∙◌, sym, Bool, true, false, not, ◌&&◌, ◌||◌,
  ◌==◌, ltb, ==_iff, ==_refl, Bool-cases, Option-cases, inl, inr, arith,
}
use nanokrnl.Base.Int.{ℤ, pos}
use nanokrnl.Ke.Wait.{
  synchronization_event, ObjectType, DispatcherHeader, State, WaitType, all, any, positive,
  timer_wait_block, signaled_for, first_signaled, all_signaled, evaluate, is_not_yet, taken,
  satisfy_object_for, satisfy_all, apply_consume, timed_out,
}
use nanokrnl.Ke.Wait.Consume.{taken-type}
use nanokrnl.Ke.Wait.Operations.{set_signal}
use nanokrnl.Ke.Wait.Keeping.{object_of}
use nanokrnl.Ke.Wait.Spend.{first_signaled-some}
use nanokrnl.Ke.Wait.Evaluate.{
  some_from, each_from, each_from_mono, signals, fired, by_objects, some_from_at,
  all_signaled-each_from, timed_out-fired,
}

abbrev pub type_at : State → (o : ℕ) → ObjectType
type_at s o = (s.objects o).object_type

abbrev pub signal_at : State → (o : ℕ) → ℤ
signal_at s o = (s.objects o).signal_state

satisfied_type :
    (a o t : ℕ) (s : State)
    → type_at s o ≡ synchronization_event
    → type_at (satisfy_object_for a t s) o ≡ synchronization_event
unfolding satisfy_object_for
satisfied_type a o t s kind = elim (Bool-cases (o == a)) [
  | inl here ↦
      let e : type_at s a ≡ synchronization_event =
        ap (type_at s) (sym ((==_iff o a).0 here)) ∙ kind in
      rw (type_at, here) (taken-type t (s.objects a) (type_at s a) ∙ e)
  | inr other ↦ rw (type_at, other) kind
]

satisfied_signal :
    (a o t : ℕ) (s : State)
    → type_at s o ≡ synchronization_event
    → ((a == o) ≡ true) ⊎ (signal_at s o ≡ pos 0)
    → signal_at (satisfy_object_for a t s) o ≡ pos 0
unfolding satisfy_object_for
satisfied_signal a o t s kind before = elim (Bool-cases (o == a)) [
  | inl here ↦
      let e : type_at s a ≡ synchronization_event =
        ap (type_at s) (sym ((==_iff o a).0 here)) ∙ kind in
      rw (signal_at, here) (ap (λ (k : ObjectType). (taken t (s.objects a) k).signal_state) e)
  | inr other ↦
      rw (signal_at, other)
        (elim before [ inl same ↦ absurd (ground (arith, same, other)) | inr clear ↦ clear ])
]

-- A wait for all of its objects clears the event among them.
satisfy_all-clear :
    (o t i n : ℕ) (s : State)
    → type_at s o ≡ synchronization_event
    → (some_from (λ j. object_of s t j == o) i n ≡ true) ⊎ (signal_at s o ≡ pos 0)
    → signal_at (satisfy_all t i n s) o ≡ pos 0
unfolding satisfy_all satisfy_object_for
satisfy_all-clear o t i zero s kind before = elim before [
  | inl on ↦ absurd (ground (arith, on))
  | inr clear ↦ clear
]
satisfy_all-clear o t i (suc n) s kind before =
    let a = object_of s t i in
    satisfy_all-clear o t (i + 1) n (satisfy_object_for a t s) (satisfied_type a o t s kind)
      (elim before [
        | inr clear ↦ inr (satisfied_signal a o t s kind (inr clear))
        | inl on ↦ elim (Bool-cases (a == o)) [
          | inl here ↦ inr (satisfied_signal a o t s kind (inl here))
          | inr other ↦ inl (ground (arith, on, other))
        ]
      ])

-- Other objects are as they were before the signal.
other_signals :
    (o t j : ℕ) (s : State) (x : ℤ)
    → (object_of s t j == o) ≡ false
    → signals (set_signal o x s).objects t (s.waiters t) j ≡ true
    → signals s.objects t (s.waiters t) j ≡ true
other_signals o t j s x other now =
    let same : (set_signal o x s).objects (object_of s t j) ≡ s.objects (object_of s t j) =
      rw other refl in
    ap (signaled_for t) (sym same) ∙ now

unfired :
    (o t : ℕ) (s : State) (x : ℤ)
    → fired s.objects (s.waiters t) ≡ false
    → ((s.waiters t).wait_timed ≡ true → object_of s t timer_wait_block ≢ o)
    → fired (set_signal o x s).objects (s.waiters t) ≡ false
unfired o t s x down untimed = elim (Bool-cases (s.waiters t).wait_timed) [
  | inr off ↦ ground (arith, off)
  | inl on ↦
      let other : (object_of s t timer_wait_block == o) ≡ false = ground (arith, untimed on) in
      let same : (set_signal o x s).objects (object_of s t timer_wait_block)
          ≡ s.objects (object_of s t timer_wait_block) =
        rw other refl in
      ap (λ (h : DispatcherHeader). (s.waiters t).wait_timed && positive h.signal_state) same ∙ down
]

-- A block that satisfies the wait now waits for the event.
own_block :
    (o t i : ℕ) (s : State) (x : ℤ)
    → i < (s.waiters t).wait_count
    → some_from (signals s.objects t (s.waiters t)) 0 (s.waiters t).wait_count ≡ false
    → signals (set_signal o x s).objects t (s.waiters t) i ≡ true
    → (object_of s t i == o) ≡ true
own_block o t i s x lt quiet now = elim (Bool-cases (object_of s t i == o)) [
  | inl same ↦ same
  | inr other ↦
      let before =
        some_from_at (signals s.objects t (s.waiters t)) 0 (s.waiters t).wait_count i (omega arith)
          (omega (arith, lt)) (other_signals o t i s x other now) in
      absurd (ground (arith, before, quiet))
]

-- A wait for all objects that is satisfied now has a block that waits for the event.
some_block :
    (o t n : ℕ) (s : State) (x : ℤ)
    → each_from (signals s.objects t (s.waiters t)) 0 n ≡ false
    → each_from (signals (set_signal o x s).objects t (s.waiters t)) 0 n ≡ true
    → some_from (λ j. object_of s t j == o) 0 n ≡ true
some_block o t n s x quiet now =
    let p : ℕ → Bool = λ j. object_of s t j == o in
    elim (Bool-cases (some_from p 0 n)) [
      | inl on ↦ on
      | inr off ↦
          let before =
            each_from_mono (signals (set_signal o x s).objects t (s.waiters t))
              (signals s.objects t (s.waiters t)) 0 n
              (λ j lt up.
                other_signals o t j s x
                  (elim (Bool-cases (p j)) [
                    | inr other ↦ other
                    | inl same ↦
                        absurd (ground (arith, off, some_from_at p 0 n j (omega arith) lt same))
                  ])
                  up)
              now in
          absurd (ground (arith, before, quiet))
    ]

-- What a satisfied wait takes clears the event, if only the signal of the event satisfied it.
pub consumed_clear :
    (o t : ℕ) (s : State) (kind : WaitType)
    → type_at s o ≡ synchronization_event
    → (by_objects (signals s.objects t (s.waiters t)) (s.waiters t).wait_count kind
        || fired s.objects (s.waiters t))
      ≡ false
    → ((s.waiters t).wait_timed ≡ true → object_of s t timer_wait_block ≢ o)
    → is_not_yet (evaluate (set_signal o (pos 1) s) t kind) ≡ false
    → signal_at
        (apply_consume t (evaluate (set_signal o (pos 1) s) t kind) (set_signal o (pos 1) s)).0
        o
      ≡ pos 0
unfolding evaluate apply_consume
consumed_clear o t s any kind quiet untimed up =
    let s0 = set_signal o (pos 1) s in
    let n = (s.waiters t).wait_count in
    let kind0 : type_at s0 o ≡ synchronization_event = rw (type_at, ==_refl o) kind in
    let still : is_not_yet (timed_out s0 t) ≡ true =
      timed_out-fired s0 t
      ∙ ap (λ b. not b) (unfired o t s (pos 1) (ground (arith, quiet)) untimed) in
    elim (Option-cases (first_signaled s0 t 0 n)) [
      | inl nothing ↦ absurd (ground (arith, still, rw nothing at up))
      | inr (k, e) ↦ rw e (
          let found = first_signaled-some s0 t 0 n k e in
          let own =
            own_block o t k s (pos 1) (omega (arith, found.1)) (ground (arith, quiet)) found.2 in
          satisfied_signal (object_of s t k) o t s0 kind0 (inl own))
    ]
consumed_clear o t s all kind quiet untimed up =
    let s0 = set_signal o (pos 1) s in
    let n = (s.waiters t).wait_count in
    let kind0 : type_at s0 o ≡ synchronization_event = rw (type_at, ==_refl o) kind in
    let still : is_not_yet (timed_out s0 t) ≡ true =
      timed_out-fired s0 t
      ∙ ap (λ b. not b) (unfired o t s (pos 1) (ground (arith, quiet)) untimed) in
    elim (Bool-cases (ltb 0 n && all_signaled s0 t 0 n)) [
      | inl on ↦ rw on (
          satisfy_all-clear o t 0 n s0 kind0 (
            inl (
              some_block o t n s (pos 1) (ground (arith, on, quiet))
                (sym (all_signaled-each_from s0 t 0 n) ∙ ground (arith, on)))))
      | inr off ↦ absurd (ground (arith, still, rw off at up))
    ]
