-- ===== src/Ke/Dpc/Order.antt =====
-- kernel/src/ke/dpc.rs: a call is queued at most once, and the queue is first in, first out.
use nanokrnl.Base.{
  ℕ, zero, suc, ◌+◌, ◌<◌, ◌≡◌, refl, sym, ap, ◌∙◌, Bool, true, false, ◌⊎◌, inl, inr, Option, none,
  some, List, [], ◌∷◌, ◌++◌, ◌==◌, if◌then◌else◌, length, Bool-cases, arith,
}
use nanokrnl.Ke.Dpc.{
  Kdpc, Dpcs, set_inserted, ke_insert_queue_dpc, insert_all, plain_routine, routine_of, retire_one,
  retire_next, ki_retire_dpcs,
}

-- How often `d` is queued.
unfoldable pub times : ℕ → List ℕ → ℕ
times d [] = 0
times d (x ∷ xs) = (if x == d then 1 else 0) + times d xs

times-append :
    (d x : ℕ) (xs : List ℕ) → times d (xs ++ x ∷ []) ≡ times d xs + (if x == d then 1 else 0)
unfolding times
times-append d x [] = omega arith
times-append d x (y ∷ xs) = omega (arith, times-append d x xs)

module _ {World : Type 0} where
  -- A call is in the queue once if it is marked as inserted, and not at all if it is not.
  abbrev pub IsValid : Dpcs World → Type 0
  IsValid s = (d : ℕ) → times d s.queue ≡ (if (s.dpcs d).inserted then 1 else 0)

  -- What an insertion does: nothing to a call that is queued, and the end of the queue for another.
  abbrev pub Inserted : ℕ → Dpcs World → Dpcs World × Bool → Type 0
  Inserted dpc s r =
      ((0 < times dpc s.queue) × (r.1 ≡ false) × (r.0 ≡ s))
      ⊎ ((times dpc s.queue ≡ 0)
          × (r.1 ≡ true)
          × (r.0.queue ≡ s.queue ++ dpc ∷ [])
          × (r.0.world ≡ s.world))

  -- `ke_insert_queue_dpc` on a valid queue refuses a call that is queued already, and changes
  -- nothing then. It puts any other call at the end. The queue stays valid.
  pub ke_insert_queue_dpc-Inserted :
      (dpc : ℕ) (s : Dpcs World)
      → IsValid s
      → IsValid (ke_insert_queue_dpc dpc s).0 × Inserted dpc s (ke_insert_queue_dpc dpc s)
  unfolding ke_insert_queue_dpc
  ke_insert_queue_dpc-Inserted dpc s valid = elim (Bool-cases (s.dpcs dpc).inserted) [
    | inl queued ↦ rw queued (valid, inl (ground (arith, valid dpc, queued), refl, refl))
    | inr free ↦ rw free (
      (λ d. rw (times-append d dpc s.queue) (ground (arith, valid d, valid dpc, free))),
      inr (ground (arith, valid dpc, free), refl, refl, refl),
    )
  ]

  insert_all-IsValid : (ds : List ℕ) (s : Dpcs World) → IsValid s → IsValid (insert_all ds s)
  unfolding insert_all
  insert_all-IsValid [] s valid = valid
  insert_all-IsValid (d ∷ ds) s valid =
      insert_all-IsValid ds (ke_insert_queue_dpc d s).0 (ke_insert_queue_dpc-Inserted d s valid).0

  -- The head leaves the queue.
  remove_head-IsValid :
      (dpc : ℕ) (rest : List ℕ) (w : World) (s : Dpcs World)
      → s.queue ≡ dpc ∷ rest
      → IsValid s
      → IsValid (record { queue = rest; dpcs = set_inserted dpc false s.dpcs; world = w })
  unfolding times
  remove_head-IsValid dpc rest w s e valid d =
      let once : times d (dpc ∷ rest) ≡ (if (s.dpcs d).inserted then 1 else 0) =
        ap (times d) (sym e) ∙ valid d in
      ground (arith, once)

  retire_one-IsValid :
      (dpc : ℕ) (rest : List ℕ) (s : Dpcs World)
      → s.queue ≡ dpc ∷ rest
      → IsValid s
      → IsValid (retire_one dpc rest s)
  unfolding retire_one
  retire_one-IsValid dpc rest s e valid =
      insert_all-IsValid (routine_of (s.dpcs dpc).win64_routine dpc (s.dpcs dpc) s.world).1
        (record {
          queue = rest;
          dpcs = set_inserted dpc false s.dpcs;
          world = (routine_of (s.dpcs dpc).win64_routine dpc (s.dpcs dpc) s.world).0;
        })
        (remove_head-IsValid dpc rest
          (routine_of (s.dpcs dpc).win64_routine dpc (s.dpcs dpc) s.world).0 s e valid)

  -- The call of the routine of `d`.
  abbrev pub call_of : Dpcs World → ℕ → World → World × List ℕ
  call_of s d w = routine_of (s.dpcs d).win64_routine d (s.dpcs d) w

  -- The world after the calls of a list, each once and in order.
  pub run_all : (ℕ → World → World × List ℕ) → List ℕ → World → World
  run_all f [] w = w
  run_all f (d ∷ ds) w = run_all f ds (f d w).0

  plain_routine_lem :
      (p : Option ((dpc context : ℕ) → World → World × List ℕ)) (d : ℕ) (k : Kdpc World) (w : World)
      → plain_routine p d (record k { inserted = false }) w ≡ plain_routine p d k w
  plain_routine_lem none d k w = refl
  plain_routine_lem (some f) d k w = refl

  routine_of_lem :
      (o : Option ((dpc context arg1 arg2 : ℕ) → World → World × List ℕ)) (d : ℕ) (k : Kdpc World)
      (w : World)
      → routine_of o d (record k { inserted = false }) w ≡ routine_of o d k w
  routine_of_lem none d k w = plain_routine_lem k.routine d k w
  routine_of_lem (some f) d k w = refl

  -- The mark does not change what a call does.
  call_of-set_inserted :
      (s : Dpcs World) (dpc d : ℕ) (w : World)
      → routine_of
          (set_inserted dpc false s.dpcs d).win64_routine
          d
          (set_inserted dpc false s.dpcs d)
          w
        ≡ call_of s d w
  call_of-set_inserted s dpc d w = elim (Bool-cases (d == dpc)) [
    | inl same ↦ rw same (routine_of_lem (s.dpcs d).win64_routine d (s.dpcs d) w)
    | inr ne ↦ rw ne refl
  ]

  retire_one_quiet :
      (dpc : ℕ) (rest : List ℕ) (s : Dpcs World)
      → (call_of s dpc s.world).1 ≡ []
      → retire_one dpc rest s ≡ record {
        queue = rest;
        dpcs = set_inserted dpc false s.dpcs;
        world = (call_of s dpc s.world).0;
      }
  unfolding retire_one insert_all
  retire_one_quiet dpc rest s none_queued =
      ap
        (λ ds. insert_all ds (record {
          queue = rest;
          dpcs = set_inserted dpc false s.dpcs;
          world = (call_of s dpc s.world).0;
        }))
        none_queued

  retire_quiet :
      (f : ℕ → World → World × List ℕ) (q : List ℕ) (fuel : ℕ) (s : Dpcs World)
      → ((d : ℕ) (w : World) → call_of s d w ≡ f d w)
      → ((d : ℕ) (w : World) → (f d w).1 ≡ [])
      → IsValid s
      → s.queue ≡ q
      → length q < fuel
      → (s' : Dpcs World) × (ki_retire_dpcs fuel s ≡ some s')
        × IsValid s'
        × (s'.queue ≡ [])
        × (s'.world ≡ run_all f q s.world)
  unfolding ki_retire_dpcs retire_next run_all
  retire_quiet f q zero s same quiet valid e lt = absurd (omega arith)
  retire_quiet f [] (suc fuel) s same quiet valid e lt =
      let done : retire_next s.queue s ≡ none = ap (λ x. retire_next x s) e in
      rw (ki_retire_dpcs, done) (s, refl, valid, e, refl)
  retire_quiet f (dpc ∷ rest) (suc fuel) s same quiet valid e lt =
      let next : retire_next s.queue s ≡ some (retire_one dpc rest s) =
        ap (λ x. retire_next x s) e in
      let none_queued : (call_of s dpc s.world).1 ≡ [] =
        ap (λ c. c.1) (same dpc s.world) ∙ quiet dpc s.world in
      let after : Dpcs World = record {
        queue = rest;
        dpcs = set_inserted dpc false s.dpcs;
        world = (call_of s dpc s.world).0;
      } in
      let one : retire_one dpc rest s ≡ after = retire_one_quiet dpc rest s none_queued in
      let (s', call, valid', empty, world) =
        retire_quiet f rest fuel after (λ d w. call_of-set_inserted s dpc d w ∙ same d w) quiet
          (remove_head-IsValid dpc rest (call_of s dpc s.world).0 s e valid) refl
          (omega (arith, lt)) in
      rw (ki_retire_dpcs, next, one)
        (s', call, valid', empty, world ∙ ap (λ c. run_all f rest c.0) (same dpc s.world))

  -- When the routines queue no calls, `ki_retire_dpcs` ends after one iteration more than there are
  -- calls in the queue. Each call has run once, in the order of the queue, which is empty and valid.
  pub ki_retire_dpcs-run_all :
      (s : Dpcs World) (fuel : ℕ)
      → IsValid s
      → ((d : ℕ) (w : World) → (call_of s d w).1 ≡ [])
      → length s.queue < fuel
      → (s' : Dpcs World) × (ki_retire_dpcs fuel s ≡ some s')
        × IsValid s'
        × (s'.queue ≡ [])
        × (s'.world ≡ run_all (call_of s) s.queue s.world)
  ki_retire_dpcs-run_all s fuel valid quiet lt =
      retire_quiet (call_of s) s.queue fuel s (λ d w. refl) quiet valid refl lt
