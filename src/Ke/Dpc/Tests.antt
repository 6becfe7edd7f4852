-- ===== src/Ke/Dpc/Tests.antt =====
-- kernel/src/ke/dpc.rs: two queued calls that add to a counter.
use nanokrnl.Base.{ℕ, ◌+◌, ◌*◌, ◌≡◌, refl, ◌||◌, none, some, [], ◌∷◌, ◌==◌, arith}
use nanokrnl.Ke.Dpc.{Dpcs, ke_insert_queue_dpc, ki_retire_dpcs}
use nanokrnl.Ke.Dpc.Order.{
  times, IsValid, Inserted, call_of, run_all, ke_insert_queue_dpc-Inserted, ki_retire_dpcs-run_all,
}

-- Each call makes ten of one and adds its context.
abbrev queued : Dpcs ℕ
queued = record {
  queue = 8 ∷ 5 ∷ [];
  dpcs = λ d. record {
    routine = some (λ dpc context w. (w * 10 + context, []));
    win64_routine = none;
    context = d;
    system_arg1 = 0;
    system_arg2 = 0;
    inserted = (d == 5) || (d == 8);
  };
  world = 1;
}

queued-IsValid : IsValid queued
unfolding times
queued-IsValid d = ground arith

ke_insert_queue_dpc-Inserted_example :
    IsValid (ke_insert_queue_dpc 3 queued).0 × Inserted 3 queued (ke_insert_queue_dpc 3 queued)
ke_insert_queue_dpc-Inserted_example = ke_insert_queue_dpc-Inserted 3 queued queued-IsValid

ki_retire_dpcs-run_all_example :
    (s' : Dpcs ℕ) × (ki_retire_dpcs 3 queued ≡ some s')
    × IsValid s'
    × (s'.queue ≡ [])
    × (s'.world ≡ run_all (call_of queued) (8 ∷ 5 ∷ []) 1)
ki_retire_dpcs-run_all_example =
    ki_retire_dpcs-run_all queued 3 queued-IsValid (λ d w. refl) (omega arith)
