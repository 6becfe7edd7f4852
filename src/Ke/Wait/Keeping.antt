-- ===== src/Ke/Wait/Keeping.antt =====
-- kernel/src/ke/scheduler.rs: what stays the same when a thread is taken from lists of waiters.
use nanokrnl.Base.{
  ℕ, ◌≡◌, ◌≢◌, refl, ap, ◌∙◌, sym, Bool, ◌&&◌, ◌||◌, List, ◌==◌, ltb, if◌then◌else◌, ==_iff,
  Bool-cases, inl, inr,
}
use nanokrnl.Ke.Wait.{Entry, State, DispatcherHeader, timer_wait_block}
use nanokrnl.Ke.Wait.Lists.{}

abbrev pub object_of : State → (t i : ℕ) → ℕ
object_of s t i = ((s.waiters t).wait_blocks i).object

abbrev pub is_active : State → (t i : ℕ) → Bool
is_active s t i = ((s.waiters t).wait_blocks i).active

abbrev pub list_of : State → (o : ℕ) → List Entry
list_of s o = (s.objects o).wait_list

abbrev pub relisted : DispatcherHeader → List Entry → DispatcherHeader
relisted h es = record h { wait_list = es }

-- What stays the same when a thread is taken from lists of waiters.
pub record Keeps (t : ℕ) (s s1 : State) : Type 0 where
  pub header : (o : ℕ) → s1.objects o ≡ relisted (s.objects o) (list_of s1 o)
  pub others : (u : ℕ) → u ≢ t → s1.waiters u ≡ s.waiters u
  pub objects : (i : ℕ) → object_of s1 t i ≡ object_of s t i
  pub dispatcher : s1.dispatcher ≡ s.dispatcher
  pub offset : s1.timer_offset ≡ s.timer_offset

pub Keeps-refl : (t : ℕ) (s : State) → Keeps t s s
Keeps-refl t s = record {
  header = λ o. refl;
  others = λ u ne. refl;
  objects = λ i. refl;
  dispatcher = refl;
  offset = refl;
}

pub Keeps-trans : (t : ℕ) (s s1 s2 : State) → Keeps t s s1 → Keeps t s1 s2 → Keeps t s s2
Keeps-trans t s s1 s2 a b = record {
  header = λ o. b.header o ∙ ap (λ h. relisted h (list_of s2 o)) (a.header o);
  others = λ u ne. b.others u ne ∙ a.others u ne;
  objects = λ i. b.objects i ∙ a.objects i;
  dispatcher = b.dispatcher ∙ a.dispatcher;
  offset = b.offset ∙ a.offset;
}

-- A list of one object is replaced.
pub relist_lem :
    (f : ℕ → DispatcherHeader) (b o : ℕ) (es : List Entry)
    → (if o == b then relisted (f b) es else f o)
      ≡ relisted (f o) (if o == b then es else (f o).wait_list)
relist_lem f b o es = elim (Bool-cases (o == b)) [
  | inl here ↦ rw here (ap (λ (a : ℕ). relisted (f a) es) (sym ((==_iff o b).0 here)))
  | inr other ↦ rw other refl
]

-- The block belongs to the wait of the thread.
abbrev pub counts : State → (t i : ℕ) → Bool
counts s t i =
    ltb i (s.waiters t).wait_count || ((i == timer_wait_block) && (s.waiters t).wait_timed)
