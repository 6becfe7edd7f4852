-- ===== src/Ke/Dpc.antt =====
-- kernel/src/ke/dpc.rs: the queue of deferred procedure calls, as the list of its Kdpc addresses. A
-- routine may change the world and queue calls, which it does through `ke_insert_queue_dpc`: it
-- returns the addresses in order. The queue lock is left out, since each access holds it throughout.
pub mod Order
mod Tests
use nanokrnl.Base.{
  ℕ, zero, suc, Bool, true, false, Option, none, some, List, [], ◌∷◌, ◌++◌, ◌==◌, if◌then◌else◌,
}

-- The first routine is the win64 one, which also gets the two system arguments.
pub record Kdpc (World : Type 0) : Type 0 where
  pub routine : Option ((dpc context : ℕ) → World → World × List ℕ)
  pub win64_routine : Option ((dpc context arg1 arg2 : ℕ) → World → World × List ℕ)
  pub context : ℕ
  pub system_arg1 : ℕ
  pub system_arg2 : ℕ
  pub inserted : Bool

pub record Dpcs (World : Type 0) : Type 0 where
  pub queue : List ℕ
  pub dpcs : ℕ → Kdpc World
  pub world : World

module _ {World : Type 0} where
  abbrev pub set_inserted : ℕ → Bool → (ℕ → Kdpc World) → ℕ → Kdpc World
  set_inserted dpc b dpcs d = if d == dpc then record (dpcs d) { inserted = b } else dpcs d

  unfoldable pub ke_insert_queue_dpc : ℕ → Dpcs World → Dpcs World × Bool
  ke_insert_queue_dpc dpc s =
      if (s.dpcs dpc).inserted
      then (s, false)
      else (record s { queue = s.queue ++ dpc ∷ []; dpcs = set_inserted dpc true s.dpcs }, true)

  -- The calls that a routine queues.
  unfoldable pub insert_all : List ℕ → Dpcs World → Dpcs World
  unfolding ke_insert_queue_dpc
  insert_all [] s = s
  insert_all (d ∷ ds) s = insert_all ds (ke_insert_queue_dpc d s).0

  abbrev pub plain_routine :
      Option ((dpc context : ℕ) → World → World × List ℕ) → ℕ → Kdpc World → World → World × List ℕ
  plain_routine (some f) dpc k w = f dpc k.context w
  plain_routine none dpc k w = (w, [])

  -- The routine that runs: the win64 one if there is one.
  abbrev pub routine_of :
      Option ((dpc context arg1 arg2 : ℕ) → World → World × List ℕ)
      → ℕ
      → Kdpc World
      → World
      → World × List ℕ
  routine_of (some win64) dpc k w = win64 dpc k.context k.system_arg1 k.system_arg2 w
  routine_of none dpc k w = plain_routine k.routine dpc k w

  -- The body of the loop of `ki_retire_dpcs`, with `dpc` the head of the queue.
  pub retire_one : (dpc : ℕ) → List ℕ → Dpcs World → Dpcs World
  unfolding insert_all
  retire_one dpc rest s =
      let called = routine_of (s.dpcs dpc).win64_routine dpc (s.dpcs dpc) s.world in
      insert_all called.1
        (record { queue = rest; dpcs = set_inserted dpc false s.dpcs; world = called.0 })

  -- One iteration, which ends the loop on an empty queue.
  unfoldable pub retire_next : List ℕ → Dpcs World → Option (Dpcs World)
  unfolding retire_one
  retire_next [] s = none
  retire_next (dpc ∷ rest) s = some (retire_one dpc rest s)

  -- `ki_retire_dpcs`; `none` is out of fuel.
  unfoldable pub ki_retire_dpcs : (fuel : ℕ) → Dpcs World → Option (Dpcs World)
  unfolding retire_next
  ki_retire_dpcs zero s = none
  ki_retire_dpcs (suc fuel) s = elim (retire_next s.queue s) [
    | none ↦ some s
    | some s' ↦ ki_retire_dpcs fuel s'
  ]
