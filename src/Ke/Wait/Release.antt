-- ===== src/Ke/Wait/Release.antt =====
-- kernel/src/ke/scheduler.rs: signaling an event, releasing a semaphore or a mutant, on every branch.
use nanokrnl.Base.{
  ℕ, ◌^◌, ◌<◌, ◌≤◌, ◌≡◌, ◌⊎◌, refl, ap, ◌∙◌, Bool, true, false, not, ◌||◌, some, List, ◌==◌,
  ==_refl, Bool-cases, inl, inr, arith, length,
}
use nanokrnl.Base.Int.{ℤ, pos, ◌+ℤ◌, ltb_ℤ, fits}
use nanokrnl.Ke.Wait.{
  Entry, DispatcherHeader, State, positive, signaled_for, ki_wait_test, put_object,
}
use nanokrnl.Ke.Wait.Operations.{
  set_signal, ki_signal_object, ki_reset_object, ki_release_semaphore, ki_release_mutant,
  capped_sum, ok, err, terminate,
}
use nanokrnl.Ke.Wait.Keeping.{list_of}
use nanokrnl.Ke.Wait.Room.{
  has_room, room_positive, room_up, room_capped_sum, IsCapped, capped_sum-IsCapped,
}
use nanokrnl.Ke.Wait.Spend.{put_object-IsRoomy}
use nanokrnl.Ke.Wait.Valid.{is_waiting}
use nanokrnl.Ke.Wait.Rounds.{Wakes, IsSettled}
use nanokrnl.Ke.Wait.Signal.{Eased-IsSettled, put_object-Eased, put_object-Tested}

-- From `s0`, where `o` has changed in `s`, all threads whose waits are satisfied wake.
abbrev pub Woke : (cpu o : ℕ) (s s0 s1 : State) → Type 0
Woke cpu o s s0 s1 =
    (n : ℕ) × Wakes cpu s0 n s1
    × IsSettled (length s.dispatcher.banks) s1
    × (n ≤ length (list_of s o))

-- `ki_wait_test` returns after it has woken all of them.
pub put_object-Woke :
    (cpu o : ℕ) (h : DispatcherHeader) (s : State)
    → h.wait_list ≡ list_of s o
    → cpu < length s.dispatcher.banks
    → ((u : ℕ) → is_waiting s u ≡ true → signaled_for u h ≡ true → has_room 3 h.signal_state ≡ true)
    → IsSettled (length s.dispatcher.banks) s
    → (s1 : State) × (woke : ℕ) × (ki_wait_test cpu o (put_object o h s) ≡ some (s1, woke))
      × Woke cpu o s (put_object o h s) s1
put_object-Woke cpu o h s same lt room settled =
    let (s1, n, e, steps, after, few) = put_object-Tested cpu o h s same lt room settled in
    let list : list_of (put_object o h s) o ≡ list_of s o = rw (list_of, ==_refl o) same in
    (
      s1,
      n,
      e ∙ ground arith,
      (n, steps, after, omega (arith, few, ap (λ (es : List Entry). length es) list)),
    )

signaled_lower :
    (h : DispatcherHeader) (x : ℤ) (u : ℕ)
    → (positive x ≡ true → positive h.signal_state ≡ true)
    → signaled_for u (record h { signal_state = x }) ≡ true
    → signaled_for u h ≡ true
unfolding signaled_for
signaled_lower h x u lower now = elim (Bool-cases (positive x)) [
  | inl up ↦ ground (arith, lower up)
  | inr down ↦ ground (arith, now, down)
]

-- A new count has room when the old one had it for the threads that the object is signaled for.
signal_room :
    (h : DispatcherHeader) (x : ℤ) (u : ℕ)
    → (has_room 3 h.signal_state ≡ true → has_room 3 x ≡ true)
    → (signaled_for u h ≡ true → has_room 3 h.signal_state ≡ true)
    → signaled_for u (record h { signal_state = x }) ≡ true
    → has_room 3 x ≡ true
unfolding signaled_for
signal_room h x u more before now = elim (Bool-cases (positive x)) [
  | inl up ↦ room_positive 3 x (omega arith) up
  | inr down ↦ more (before (ground (arith, now, down)))
]

or_false : (a b : Bool) → (a || not b) ≡ false → (a ≡ false) × (b ≡ true)
or_false a b e = (ground (arith, e), ground (arith, e))

-- From a settled state and with a bank for `cpu`, `ki_signal_object` returns the previous signal state.
-- With the object signaled it wakes threads one after the other, each with a wait that is satisfied
-- then, at most as many as the object had entries; in the end no satisfied wait is left blocked.
-- Settled includes that an object signaled for a waiting thread counts at least -2 ^ 31 + 3.
pub ki_signal_object-Woke :
    (cpu o : ℕ) (s : State)
    → cpu < length s.dispatcher.banks
    → IsSettled (length s.dispatcher.banks) s
    → (s1 : State) × (ki_signal_object cpu o s ≡ some (s1, (s.objects o).signal_state))
      × Woke cpu o s (set_signal o (pos 1) s) s1
unfolding ki_signal_object
ki_signal_object-Woke cpu o s lt settled =
    let (s1, woke, e, w) =
      put_object-Woke cpu o (record (s.objects o) { signal_state = pos 1 }) s refl lt
        (λ u up now. refl) settled in
    (s1, rw e refl, w)

pub terminate-Woke :
    (cpu o : ℕ) (s : State)
    → cpu < length s.dispatcher.banks
    → IsSettled (length s.dispatcher.banks) s
    → (s1 : State) × (terminate cpu o s ≡ some s1) × Woke cpu o s (set_signal o (pos 1) s) s1
unfolding terminate
terminate-Woke cpu o s lt settled =
    let (s1, woke, e, w) =
      put_object-Woke cpu o (record (s.objects o) { signal_state = pos 1 }) s refl lt
        (λ u up now. refl) settled in
    (s1, rw e refl, w)

-- A reset wakes nobody and leaves nobody behind.
pub ki_reset_object-IsSettled :
    (processors o : ℕ) (s : State)
    → IsSettled processors s
    → IsSettled processors (ki_reset_object o s).0
ki_reset_object-IsSettled processors o s settled =
    Eased-IsSettled processors s (set_signal o (pos 0) s)
      (put_object-Eased o (record (s.objects o) { signal_state = pos 0 }) s refl
        (λ up. absurd (ground (arith, up)))
        (λ u up. signaled_lower (s.objects o) (pos 0) u (λ now. absurd (ground (arith, now))) up))
      (put_object-IsRoomy o (record (s.objects o) { signal_state = pos 0 }) s settled.room
        (λ u up now. refl))
      settled

-- From a settled state, with a bank for `cpu` and a 32-bit count, the release of a semaphore takes the new
-- count to be the sum, but 2 ^ 31 - 1 when the sum is above that. A release by zero or less, or with a
-- new count above the limit, is STATUS_SEMAPHORE_LIMIT_EXCEEDED and changes nothing. Any other sets the
-- new count, wakes only threads with satisfied waits and leaves none of those blocked.
-- Settled includes that an object signaled for a waiting thread counts at least -2 ^ 31 + 3.
pub ki_release_semaphore-Woke :
    (cpu sem : ℕ) (adjustment : ℤ) (s : State)
    → cpu < length s.dispatcher.banks
    → has_room 0 (s.objects sem).signal_state ≡ true
    → IsSettled (length s.dispatcher.banks) s
    → ((ki_release_semaphore cpu sem adjustment s ≡ some (s, err 0xc000_0047))
        × ((ltb_ℤ (pos 0) adjustment ≡ false)
            ⊎ ((new : ℤ) × IsCapped (s.objects sem).signal_state adjustment new
                × (ltb_ℤ (s.objects sem).limit new ≡ true))))
      ⊎ ((s1 : State) × (new : ℤ) × (ki_release_semaphore cpu sem adjustment s
            ≡ some (s1, ok (s.objects sem).signal_state))
          × (ltb_ℤ (pos 0) adjustment ≡ true)
          × IsCapped (s.objects sem).signal_state adjustment new
          × (ltb_ℤ (s.objects sem).limit new ≡ false)
          × Woke cpu sem s (set_signal sem new s) s1)
unfolding ki_release_semaphore
ki_release_semaphore-Woke cpu sem adjustment s lt whole settled =
    let h = s.objects sem in
    let x = h.signal_state in
    let sum = capped_sum x adjustment in
    elim (Bool-cases (ltb_ℤ h.limit sum || not (ltb_ℤ (pos 0) adjustment))) [
      | inl over ↦ inl (
        rw over refl,
        elim (Bool-cases (ltb_ℤ (pos 0) adjustment)) [
          | inr less ↦ inl less
          | inl more ↦
              inr (sum, capped_sum-IsCapped x adjustment whole more, ground (arith, over, more))
        ],
      )
      | inr fine ↦
          let checks = or_false (ltb_ℤ h.limit sum) (ltb_ℤ (pos 0) adjustment) fine in
          let (s1, woke, e, w) =
            put_object-Woke cpu sem (record h { signal_state = sum }) s refl lt
              (λ u up.
                signal_room h sum u (λ room. room_capped_sum 3 x adjustment room checks.1)
                  (settled.room u up sem))
              settled in
          inr (
            s1,
            sum,
            rw (fine, e) refl,
            checks.1,
            capped_sum-IsCapped x adjustment whole checks.1,
            checks.0,
            w,
          )
    ]

-- From a settled state, with a bank for `cpu` and a count that one more keeps in 32 bits, a release by a
-- thread that does not own the mutant is STATUS_MUTANT_NOT_OWNED and changes nothing. A release that leaves
-- the mutant owned adds one to its count and changes nothing else; the last one also takes the owner
-- away, wakes only threads with satisfied waits and leaves none of those blocked.
-- Settled includes that an object signaled for a waiting thread counts at least -2 ^ 31 + 3.
pub ki_release_mutant-Woke :
    (cpu cur m : ℕ) (s : State)
    → cpu < length s.dispatcher.banks
    → fits (2 ^ 31) ((s.objects m).signal_state +ℤ pos 1) ≡ true
    → IsSettled (length s.dispatcher.banks) s
    → ((ki_release_mutant cpu cur m s ≡ some (s, err 0xc000_0046))
        × (((s.objects m).owner == cur) ≡ false))
      ⊎ (((s1 : State) × (ki_release_mutant cpu cur m s ≡ some (s1, ok (s.objects m).signal_state))
            × (((s.objects m).owner == cur) ≡ true)
            × (positive ((s.objects m).signal_state +ℤ pos 1) ≡ false)
            × (s1 ≡ set_signal m ((s.objects m).signal_state +ℤ pos 1) s)
            × IsSettled (length s.dispatcher.banks) s1)
          ⊎ ((s1 : State) × (ki_release_mutant cpu cur m s
                ≡ some (s1, ok (s.objects m).signal_state))
              × (((s.objects m).owner == cur) ≡ true)
              × (positive ((s.objects m).signal_state +ℤ pos 1) ≡ true)
              × Woke cpu m s
                  (put_object m
                    (record (s.objects m) {
                      signal_state = (s.objects m).signal_state +ℤ pos 1;
                      owner = 0;
                    })
                    s)
                  s1))
unfolding ki_release_mutant
ki_release_mutant-Woke cpu cur m s lt small settled =
    let h = s.objects m in
    let up = h.signal_state +ℤ pos 1 in
    elim (Bool-cases (h.owner == cur)) [
      | inr other ↦ inl (rw other refl, other)
      | inl own ↦ inr (elim (Bool-cases (positive up)) [
        | inr held ↦ inl (
          set_signal m up s,
          rw (small, own, held) refl,
          own,
          held,
          refl,
          Eased-IsSettled (length s.dispatcher.banks) s (set_signal m up s)
              (put_object-Eased m (record h { signal_state = up }) s refl
                (λ now. absurd (ground (arith, now, held)))
                (λ u now. signaled_lower h up u (λ p. absurd (ground (arith, p, held))) now))
              (put_object-IsRoomy m (record h { signal_state = up }) s settled.room
                (λ u on. signal_room h up u (room_up 3 h.signal_state) (settled.room u on m)))
              settled,
        )
        | inl free ↦
            let (s1, woke, e, w) =
              put_object-Woke cpu m (record h { signal_state = up; owner = 0 }) s refl lt
                (λ u on now. room_positive 3 up (omega arith) free) settled in
            inr (s1, rw (small, own, free, e) refl, own, free, w)
      ])
    ]
