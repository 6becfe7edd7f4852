-- ===== src/Mm/Vad/Paging.antt =====
-- kernel/src/mm/vad.rs, the operations that also touch pages: the demand commit of the page-fault
-- handler, the release and the change of protection of a range, and the end of an address space.
-- `World` is whatever the page tables, the frame allocator and the pagefile keep; the calls into
-- mm/virt.rs, mm/phys.rs and mm/pageout.rs are the fields of `Pages`.
pub mod Free
pub mod Protect
use nanokrnl.Base.{
  ℕ, zero, suc, ◌+◌, ◌-◌, ◌*◌, ◌/◌, ◌%◌, ◌^◌, min, max, Bool, true, false, ◌&&◌, ◌||◌, not, Option,
  none, some, List, [], ◌∷◌, ◌==◌, leb, ltb, if◌then◌else◌,
}
use nanokrnl.Mm.Phys.{page_size}
use nanokrnl.Mm.Vad.{Vad, Spaces, find_space, put_space, remove_space, checked}

pub record Pages (World : Type 0) : Type 0 where
  -- mm/virt.rs
  pub mm_current_address_space : World → ℕ
  pub is_mapped : World → (page : ℕ) → Bool
  pub mm_map_user_page : World → (pml4 page phys : ℕ) → (writable executable : Bool) → World
  pub mm_unmap_user_page : World → (page : ℕ) → World × Option ℕ
  pub mm_protect_user_page : World → (page : ℕ) → (writable executable : Bool) → World
  -- mm/phys.rs
  pub mm_allocate_page : World → World × Option ℕ
  pub mm_free_page : World → (phys : ℕ) → World
  -- mm/pageout.rs
  pub page_in : World → (pml4 page : ℕ) → (writable executable : Bool) → World × Bool
  pub register_page : World → (pml4 page : ℕ) → World
  pub drop_range : World → (pml4 base len : ℕ) → World
  pub drop_process : World → (pml4 : ℕ) → World

pub data NtStatus : Type 0 where
  success invalid_parameter : NtStatus

-- `va & !(PAGE_SIZE - 1)`
abbrev pub page_of : ℕ → ℕ
page_of va = va / page_size * page_size

-- `vads.iter().find(|v| v.start <= page && page < v.end)`
pub find_vad : (page : ℕ) → List Vad → Option Vad
find_vad page [] = none
find_vad page (v ∷ vs) = if leb v.start page && ltb page v.end then some v else find_vad page vs

-- The rounds of `while page < hi { ..; page += PAGE_SIZE }`.
abbrev pub page_rounds : (lo hi : ℕ) → ℕ
page_rounds lo hi = (hi - lo + (page_size - 1)) / page_size

module _ {World : Type 0} (pages : Pages World) where
  open pages use {
    mm_current_address_space, is_mapped, mm_map_user_page, mm_unmap_user_page, mm_protect_user_page,
    mm_allocate_page, mm_free_page, page_in, register_page, drop_range, drop_process,
  }

  -- The zero-fill end of `vad_resolve`.
  pub back_with : (pml4 page : ℕ) (v : Vad) → World × Option ℕ → World × Bool
  back_with pml4 page v (w, none) = (w, false)
  back_with pml4 page v (w, some phys) =
      (register_page (mm_map_user_page w pml4 page phys v.writable v.executable) pml4 page, true)

  pub or_zero_fill : (pml4 page : ℕ) (v : Vad) → World × Bool → World × Bool
  unfolding back_with
  or_zero_fill pml4 page v (w, true) = (w, true)
  or_zero_fill pml4 page v (w, false) = back_with pml4 page v (mm_allocate_page w)

  pub resolve_in : (pml4 page : ℕ) → World → Option Vad → World × Bool
  unfolding or_zero_fill
  resolve_in pml4 page w none = (w, false)
  resolve_in pml4 page w (some v) =
      if is_mapped w page
      then (w, true)
      else or_zero_fill pml4 page v (page_in w pml4 page v.writable v.executable)

  pub vad_resolve : (va : ℕ) → Spaces → World → World × Bool
  unfolding resolve_in find_space find_vad
  vad_resolve va spaces w =
      let pml4 = mm_current_address_space w in
      elim (find_space pml4 spaces) [
        | none ↦ (w, false)
        | some vads ↦ resolve_in pml4 (page_of va) w (find_vad (page_of va) vads)
      ]

  pub free_unmapped : World × Option ℕ → World
  free_unmapped (w, none) = w
  free_unmapped (w, some phys) = mm_free_page w phys

  -- The inner loop of `vad_free`.
  pub unmap_pages : (rounds page : ℕ) → World → World
  unfolding free_unmapped
  unmap_pages zero page w = w
  unmap_pages (suc rounds) page w =
      unmap_pages rounds (page + page_size) (free_unmapped (mm_unmap_user_page w page))

  -- What is left of a range of which `[lo, hi)` is cut out. The code skips a tail that it inserts.
  pub cut : (v : Vad) (lo hi : ℕ) → List Vad → List Vad
  cut v lo hi rest =
      if ltb v.start lo
      then (if ltb hi v.end
          then record v { end = lo } ∷ record v { start = hi } ∷ rest
          else record v { end = lo } ∷ rest)
      else (if ltb hi v.end then record v { start = hi } ∷ rest else rest)

  -- The outer loop of `vad_free`.
  pub free_loop : (base end : ℕ) → List Vad → World → List Vad × World
  unfolding cut unmap_pages
  free_loop base end [] w = ([], w)
  free_loop base end (v ∷ vs) w =
      if leb v.end base
      then (let (vs', w') = free_loop base end vs w in (v ∷ vs', w'))
      else (if leb end v.start
          then (v ∷ vs, w)
          else (let lo = max v.start base in
              let hi = min v.end end in
              let (vs', w') = free_loop base end vs (unmap_pages (page_rounds lo hi) lo w) in
              (cut v lo hi vs', w')))

  pub store : (pml4 : ℕ) → Spaces → List Vad × World → NtStatus × Spaces × World
  store pml4 spaces (vads, w) = (success, put_space pml4 vads spaces, w)

  pub free_end : (pml4 base len : ℕ) → Option ℕ → Spaces → World → NtStatus × Spaces × World
  unfolding store free_loop find_space
  free_end pml4 base len none spaces w = (invalid_parameter, spaces, w)
  free_end pml4 base len (some end) spaces w =
      let w' = drop_range w pml4 base len in
      elim (find_space pml4 spaces) [
        | none ↦ (invalid_parameter, spaces, w')
        | some vads ↦ store pml4 spaces (free_loop base end vads w')
      ]

  pub vad_free : (pml4 base len : ℕ) → Spaces → World → NtStatus × Spaces × World
  unfolding free_end
  vad_free pml4 base len spaces w = free_end pml4 base len (checked (base + len)) spaces w

  -- The inner loop of `vad_protect`.
  pub protect_pages : (rounds page : ℕ) → (writable executable : Bool) → World → World
  protect_pages zero page writable executable w = w
  protect_pages (suc rounds) page writable executable w =
      protect_pages rounds (page + page_size) writable executable
        (mm_protect_user_page w page writable executable)

  -- The outer loop of `vad_protect`. A head is split off before `lo`. If a tail is split off behind
  -- `hi`, then `hi` is `end`, and the loop stops at that tail.
  pub protect_loop :
      (base end : ℕ) (writable executable : Bool) → List Vad → World → List Vad × World
  unfolding protect_pages
  protect_loop base end writable executable [] w = ([], w)
  protect_loop base end writable executable (v ∷ vs) w =
      if leb v.end base
      then (let (vs', w') = protect_loop base end writable executable vs w in (v ∷ vs', w'))
      else (if leb end v.start
          then (v ∷ vs, w)
          else (let lo = max v.start base in
              let hi = min v.end end in
              let w1 = protect_pages (page_rounds lo hi) lo writable executable w in
              let mid : Vad = record {
                start = lo;
                end = hi;
                writable = writable;
                executable = executable;
              } in
              let (vs', w') =
                (if ltb hi v.end
                  then (record v { start = hi } ∷ vs, w1)
                  else protect_loop base end writable executable vs w1) in
              (if ltb v.start lo then record v { end = lo } ∷ mid ∷ vs' else mid ∷ vs', w')))

  -- `vads.iter().any(|v| v.start < end && base < v.end)`
  pub overlaps : (base end : ℕ) → List Vad → Bool
  overlaps base end [] = false
  overlaps base end (v ∷ vs) = (ltb v.start end && ltb base v.end) || overlaps base end vs

  pub protect_in :
      (pml4 base end : ℕ) (writable executable : Bool)
      → Spaces
      → World
      → Option (List Vad)
      → NtStatus × Spaces × World
  unfolding overlaps store protect_loop
  protect_in pml4 base end writable executable spaces w none = (invalid_parameter, spaces, w)
  protect_in pml4 base end writable executable spaces w (some vads) =
      if overlaps base end vads
      then store pml4 spaces (protect_loop base end writable executable vads w)
      else (invalid_parameter, spaces, w)

  pub protect_end :
      (pml4 base : ℕ)
      → Option ℕ
      → (writable executable : Bool) → Spaces
      → World
      → NtStatus × Spaces × World
  unfolding protect_in find_space
  protect_end pml4 base none writable executable spaces w = (invalid_parameter, spaces, w)
  protect_end pml4 base (some end) writable executable spaces w =
      if leb end base
      then (invalid_parameter, spaces, w)
      else protect_in pml4 base end writable executable spaces w (find_space pml4 spaces)

  pub vad_protect :
      (pml4 base len : ℕ) (writable executable : Bool) → Spaces → World → NtStatus × Spaces × World
  unfolding protect_end
  vad_protect pml4 base len writable executable spaces w =
      protect_end pml4 base (checked (base + len)) writable executable spaces w

  pub vad_teardown : (pml4 : ℕ) → Spaces → World → Spaces × World
  unfolding remove_space
  vad_teardown pml4 spaces w = (remove_space pml4 spaces, drop_process w pml4)
