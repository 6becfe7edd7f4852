-- ===== src/Mm/Vad.antt =====
-- kernel/src/mm/vad.rs: the committed ranges of each address space. A list of ranges is `vads` of the
-- code; `VADS` is a list of address spaces. The page tables, the frames and the pagefile, which the
-- operations call, are the interface `Pages`; the locks are left out, since each operation holds
-- the one lock throughout. A `u64` sum that the code checks is cut off at 2 ^ 64.
mod Tests
pub mod Ranges
pub mod Allocate
pub mod Spaces
pub mod Covers
pub mod Paging
use nanokrnl.Base.{
  ℕ, zero, suc, ◌+◌, ◌-◌, ◌*◌, ◌/◌, ◌%◌, ◌^◌, ◌≤◌, ◌<◌, min, max, Bool, true, false, ◌&&◌, ◌||◌,
  not, Option, none, some, List, [], ◌∷◌, ◌++◌, ◌==◌, leb, ltb, if◌then◌else◌, ◌>>=◌, length,
}
use nanokrnl.Mm.Phys.{page_size}

abbrev pub user_vad_base : ℕ
user_vad_base = 0x0000_7000_0000_0000

abbrev pub user_vad_limit : ℕ
user_vad_limit = 0x0000_7fff_0000_0000

pub record Vad : Type 0 where
  pub start : ℕ
  pub end : ℕ
  pub writable : Bool
  pub executable : Bool

pub record SpaceVads : Type 0 where
  pub pml4 : ℕ
  pub vads : List Vad

abbrev pub Spaces : Type 0
Spaces = List SpaceVads

-- The ranges of the first entry for `pml4`.
pub find_space : ℕ → Spaces → Option (List Vad)
find_space pml4 [] = none
find_space pml4 (s ∷ ss) = if s.pml4 == pml4 then some s.vads else find_space pml4 ss

-- `space_mut(.., create = true)` and a write through its result.
pub put_space : ℕ → List Vad → Spaces → Spaces
put_space pml4 vads [] = record { pml4 = pml4; vads = vads } ∷ []
put_space pml4 vads (s ∷ ss) =
    if s.pml4 == pml4 then record s { vads = vads } ∷ ss else s ∷ put_space pml4 vads ss

-- `spaces.remove(i)` at the first entry for `pml4`.
pub remove_space : ℕ → Spaces → Spaces
remove_space pml4 [] = []
remove_space pml4 (s ∷ ss) = if s.pml4 == pml4 then ss else s ∷ remove_space pml4 ss

abbrev pub or_empty : Option (List Vad) → List Vad
or_empty none = []
or_empty (some vads) = vads

-- `checked_mul` and `checked_add` of `u64`.
abbrev pub checked : ℕ → Option ℕ
checked n = if ltb n (2 ^ 64) then some n else none

-- The gap search of `vad_allocate`.
pub first_fit : (len cursor : ℕ) → List Vad → ℕ
first_fit len cursor [] = cursor
first_fit len cursor (v ∷ vs) =
    let rest = first_fit len (max cursor v.end) vs in
    if leb cursor v.start && leb len (v.start - cursor) then cursor else rest

-- `vads.insert(vads.partition_point(|v| v.start < cursor), new)`
pub insert_sorted : Vad → List Vad → List Vad
insert_sorted new [] = new ∷ []
insert_sorted new (v ∷ vs) =
    if ltb v.start new.start then v ∷ insert_sorted new vs else new ∷ v ∷ vs

-- What `vad_allocate` does to the ranges of one address space.
pub allocate_in : (len : ℕ) (writable executable : Bool) → List Vad → Option (List Vad × ℕ)
unfolding first_fit insert_sorted
allocate_in len writable executable vads =
    let cursor = first_fit len user_vad_base vads in
    checked (cursor + len) >>= λ end.
    if ltb user_vad_limit end
    then none
    else some (
      insert_sorted
          (record { start = cursor; end = end; writable = writable; executable = executable }) vads,
      cursor,
    )

-- The entry of the address space is made before the search, so it stays when the search fails.
store_allocation : ℕ → Spaces → List Vad → Option (List Vad × ℕ) → Spaces × Option ℕ
store_allocation pml4 spaces vads none = (put_space pml4 vads spaces, none)
store_allocation pml4 spaces vads (some (vads', base)) = (put_space pml4 vads' spaces, some base)

allocate_len : ℕ → (len : Option ℕ) → (writable executable : Bool) → Spaces → Spaces × Option ℕ
unfolding allocate_in store_allocation put_space find_space
allocate_len pml4 none writable executable spaces = (spaces, none)
allocate_len pml4 (some len) writable executable spaces =
    if len == 0
    then (spaces, none)
    else (let vads = or_empty (find_space pml4 spaces) in
        store_allocation pml4 spaces vads (allocate_in len writable executable vads))

pub vad_allocate : (pml4 pages : ℕ) (writable executable : Bool) → Spaces → Spaces × Option ℕ
unfolding allocate_len
vad_allocate pml4 pages writable executable spaces =
    allocate_len pml4 (checked (pages * page_size)) writable executable spaces

-- The loop of `vad_covers`.
pub covers_from : (cursor end : ℕ) → List Vad → Bool
covers_from cursor end [] = leb end cursor
covers_from cursor end (v ∷ vs) =
    let past = covers_from cursor end vs in
    let behind = covers_from v.end end vs in
    if leb v.end cursor
    then past
    else (if ltb cursor v.start then false else (if leb end v.end then true else behind))

covers_end : (pml4 va : ℕ) → Option ℕ → Spaces → Bool
unfolding covers_from find_space
covers_end pml4 va none spaces = false
covers_end pml4 va (some end) spaces = elim (find_space pml4 spaces) [
  | none ↦ false
  | some vads ↦ covers_from va end vads
]

pub vad_covers : (pml4 va len : ℕ) → Spaces → Bool
unfolding covers_end
vad_covers pml4 va len spaces = covers_end pml4 va (checked (va + len)) spaces

pub vad_count : (pml4 : ℕ) → Spaces → ℕ
unfolding find_space
vad_count pml4 spaces = length (or_empty (find_space pml4 spaces))
