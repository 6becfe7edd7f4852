-- ===== src/Ke/Wait/Link.antt =====
-- kernel/src/ke/scheduler.rs: the wait blocks of a thread enter the lists of their objects.
use nanokrnl.Base.{
  ℕ, zero, suc, ◌≡◌, ◌≢◌, refl, ap, ◌∙◌, sym, Bool, false, ◌&&◌, ◌||◌, [], ◌∷◌, ◌++◌, ◌==◌, ltb,
  if◌then◌else◌, ==_iff, ==_refl, Bool-cases, inl, inr, arith,
}
use nanokrnl.Ke.Wait.{DispatcherHeader, State, signaled_for}
use nanokrnl.Ke.Wait.Evaluate.{signals}
use nanokrnl.Ke.Wait.Operations.{link_block, link_blocks}
use nanokrnl.Ke.Wait.Lists.{has_entry, has_entry-append}
use nanokrnl.Ke.Wait.Keeping.{object_of, is_active, list_of, relisted, relist_lem}

-- The blocks for which `p` holds become active entries of the lists of their objects.
pub record Linked (t : ℕ) (p : ℕ → Bool) (s s1 : State) : Type 0 where
  pub header : (o : ℕ) → s1.objects o ≡ relisted (s.objects o) (list_of s1 o)
  pub entries :
      (u i o : ℕ)
      → has_entry u i (list_of s1 o)
        ≡ (has_entry u i (list_of s o) || ((u == t) && (p i && (object_of s t i == o))))
  pub others : (u : ℕ) → u ≢ t → s1.waiters u ≡ s.waiters u
  pub objects : (i : ℕ) → object_of s1 t i ≡ object_of s t i
  pub active : (i : ℕ) → is_active s1 t i ≡ (is_active s t i || p i)
  pub wait_type : (s1.waiters t).wait_type ≡ (s.waiters t).wait_type
  pub wait_count : (s1.waiters t).wait_count ≡ (s.waiters t).wait_count
  pub wait_timed : (s1.waiters t).wait_timed ≡ (s.waiters t).wait_timed
  pub dispatcher : s1.dispatcher ≡ s.dispatcher
  pub offset : s1.timer_offset ≡ s.timer_offset

appended_lem :
    (f : ℕ → DispatcherHeader) (b o t i u j : ℕ)
    → has_entry u j (
        if o == b
        then (f b).wait_list ++ record { waiter = t; index = i } ∷ []
        else (f o).wait_list)
      ≡ (has_entry u j (f o).wait_list || ((u == t) && ((j == i) && (b == o))))
appended_lem f b o t i u j = elim (Bool-cases (o == b)) [
  | inl here ↦
      let same : o ≡ b = (==_iff o b).0 here in
      rw here (has_entry-append u j t i (f b).wait_list ∙ rw same (ground arith))
  | inr other ↦ rw other (ground (arith, other))
]

pub link_block-Linked : (t i : ℕ) (s : State) → Linked t (λ j. j == i) s (link_block t i s)
unfolding link_block
link_block-Linked t i s =
    let o1 = object_of s t i in
    let es = list_of s o1 ++ record { waiter = t; index = i } ∷ [] in
    record {
      header = λ o.
          let e = relist_lem s.objects o1 o es in
          e ∙ ap (λ (h : DispatcherHeader). relisted (s.objects o) h.wait_list) (sym e);
      entries = λ u j o.
          ap (λ (h : DispatcherHeader). has_entry u j h.wait_list) (relist_lem s.objects o1 o es)
          ∙ appended_lem s.objects o1 o t i u j
          ∙ elim (Bool-cases (j == i)) [
            | inl here ↦ rw ((==_iff j i).0 here) refl
            | inr other ↦ ground (arith, other)
          ];
      others = λ u ne. ground (arith, ne);
      objects = λ j.
          rw (object_of, ==_refl t)
            (elim (Bool-cases (j == i)) [
              | inl here ↦ rw here (ap (object_of s t) (sym ((==_iff j i).0 here)))
              | inr other ↦ rw other refl
            ]);
      active = λ j.
          rw (is_active, ==_refl t)
            (elim (Bool-cases (j == i)) [
              | inl here ↦ rw here (ground arith)
              | inr other ↦ rw other (ground arith)
            ]);
      wait_type = rw (==_refl t) refl;
      wait_count = rw (==_refl t) refl;
      wait_timed = rw (==_refl t) refl;
      dispatcher = refl;
      offset = refl;
    }

Linked-trans :
    (t : ℕ) (p q : ℕ → Bool) (s s1 s2 : State)
    → Linked t p s s1
    → Linked t q s1 s2
    → Linked t (λ i. p i || q i) s s2
Linked-trans t p q s s1 s2 a b = record {
  header = λ o. b.header o ∙ ap (λ h. relisted h (list_of s2 o)) (a.header o);
  entries = λ u i o. ground (arith, b.entries u i o, a.entries u i o, a.objects i);
  others = λ u ne. b.others u ne ∙ a.others u ne;
  objects = λ i. b.objects i ∙ a.objects i;
  active = λ i. ground (arith, b.active i, a.active i);
  wait_type = b.wait_type ∙ a.wait_type;
  wait_count = b.wait_count ∙ a.wait_count;
  wait_timed = b.wait_timed ∙ a.wait_timed;
  dispatcher = b.dispatcher ∙ a.dispatcher;
  offset = b.offset ∙ a.offset;
}

Linked-none : (t : ℕ) (p : ℕ → Bool) (s : State) → ((i : ℕ) → p i ≡ false) → Linked t p s s
Linked-none t p s none_in = record {
  header = λ o. refl;
  entries = λ u i o. ground (arith, none_in i);
  others = λ u ne. refl;
  objects = λ i. refl;
  active = λ i. ground (arith, none_in i);
  wait_type = refl;
  wait_count = refl;
  wait_timed = refl;
  dispatcher = refl;
  offset = refl;
}

-- The test of the blocks may be written otherwise.
Linked-same :
    (t : ℕ) (p q : ℕ → Bool) (s s1 : State)
    → ((i : ℕ) → p i ≡ q i)
    → Linked t p s s1
    → Linked t q s s1
Linked-same t p q s s1 same a = record {
  header = a.header;
  entries = λ u i o. ground (arith, a.entries u i o, same i);
  others = a.others;
  objects = a.objects;
  active = λ i. ground (arith, a.active i, same i);
  wait_type = a.wait_type;
  wait_count = a.wait_count;
  wait_timed = a.wait_timed;
  dispatcher = a.dispatcher;
  offset = a.offset;
}

pub link_blocks-Linked : (t n : ℕ) (s : State) → Linked t (λ i. ltb i n) s (link_blocks t n s)
unfolding link_blocks
link_blocks-Linked t zero s = Linked-none t (λ i. ltb i 0) s (λ i. ground arith)
link_blocks-Linked t (suc n) s =
    Linked-same t (λ i. ltb i n || (i == n)) (λ i. ltb i (suc n)) s
      (link_block t n (link_blocks t n s)) (λ i. ground arith)
      (Linked-trans t (λ i. ltb i n) (λ i. i == n) s (link_blocks t n s)
        (link_block t n (link_blocks t n s)) (link_blocks-Linked t n s)
        (link_block-Linked t n (link_blocks t n s)))

-- The signals of the blocks do not depend on the lists.
pub Linked-signals :
    (t : ℕ) (p : ℕ → Bool) (s s1 : State)
    → Linked t p s s1
    → (i : ℕ) → signals s1.objects t (s1.waiters t) i ≡ signals s.objects t (s.waiters t) i
unfolding signaled_for
Linked-signals t p s s1 l i =
    ap (signaled_for t) (l.header (object_of s1 t i))
    ∙ ap (λ (o : ℕ). signaled_for t (s.objects o)) (l.objects i)
