-- ===== src/Mm/Vad/Tests.antt =====
-- The theorems on the ranges of address spaces at a concrete arena.
use nanokrnl.Base.{
  ℕ, ◌+◌, ◌≡◌, ◌↔◌, Bool, true, false, none, some, List, [], ◌∷◌, ◌==◌, ◌||◌, arith, if◌then◌else◌,
}
use nanokrnl.Mm.Vad.{Vad, Spaces, user_vad_base, vad_allocate, vad_covers}
use nanokrnl.Mm.Vad.Spaces.{AllValid, Commits, vad_allocate-Commits, ranges}
use nanokrnl.Mm.Vad.Covers.{AllCommitted, vad_covers_iff}
use nanokrnl.Mm.Vad.Paging.{Pages, vad_free, vad_protect}
use nanokrnl.Mm.Vad.Paging.Free.{FreeOutcome, vad_free-FreeOutcome}
use nanokrnl.Mm.Vad.Paging.Protect.{ProtectOutcome, vad_protect-ProtectOutcome}

-- Four writable pages at the base, one page of a gap, and two pages that may be executed.
abbrev arena : List Vad
arena =
    record {
      start = user_vad_base;
      end = user_vad_base + 0x4000;
      writable = true;
      executable = false;
    }
    ∷ record {
      start = user_vad_base + 0x5000;
      end = user_vad_base + 0x7000;
      writable = false;
      executable = true;
    }
    ∷ []

abbrev spaces : Spaces
spaces = record { pml4 = 0x1000; vads = arena } ∷ record { pml4 = 0x2000; vads = [] } ∷ []

spaces-AllValid : AllValid spaces
spaces-AllValid = omega arith

vad_allocate-Commits_example :
    Commits 0x1000 1 true false spaces (vad_allocate 0x1000 1 true false spaces)
vad_allocate-Commits_example = vad_allocate-Commits 0x1000 1 true false spaces spaces-AllValid

vad_covers_iff_example :
    (vad_covers 0x1000 (user_vad_base + 0x5010) 0x1000 spaces ≡ true)
    ↔ AllCommitted (ranges 0x1000 spaces) (user_vad_base + 0x5010) (user_vad_base + 0x5010 + 0x1000)
vad_covers_iff_example =
    vad_covers_iff 0x1000 (user_vad_base + 0x5010) 0x1000 spaces spaces-AllValid (omega arith)
      (omega arith)

-- The world is the list of mapped pages; frames never run out, and nothing is paged out.
abbrev elem : ℕ → List ℕ → Bool
elem a [] = false
elem a (b ∷ bs) = (a == b) || elem a bs

abbrev without : ℕ → List ℕ → List ℕ
without a [] = []
without a (b ∷ bs) = if a == b then without a bs else b ∷ without a bs

abbrev plain_pages : Pages (List ℕ)
plain_pages = record {
  mm_current_address_space = λ w. 0x1000;
  is_mapped = λ w page. elem page w;
  mm_map_user_page = λ w pml4 page phys writable executable. page ∷ w;
  mm_unmap_user_page = λ w page. (without page w, if elem page w then some 0x9000 else none);
  mm_protect_user_page = λ w page writable executable. w;
  mm_allocate_page = λ w. (w, some 0x9000);
  mm_free_page = λ w phys. w;
  page_in = λ w pml4 page writable executable. (w, false);
  register_page = λ w pml4 page. w;
  drop_range = λ w pml4 base len. w;
  drop_process = λ w pml4. w;
}

vad_free-FreeOutcome_example :
    FreeOutcome plain_pages 0x1000
      (user_vad_base + 0x1000)
      0x5000
      spaces
      (vad_free plain_pages 0x1000 (user_vad_base + 0x1000) 0x5000 spaces [])
vad_free-FreeOutcome_example =
    vad_free-FreeOutcome plain_pages 0x1000 (user_vad_base + 0x1000) 0x5000 spaces []
      spaces-AllValid (omega arith) (omega arith)

vad_protect-ProtectOutcome_example :
    ProtectOutcome plain_pages 0x1000
      (user_vad_base + 0x1000)
      0x1000
      false
      true
      spaces
      (vad_protect plain_pages 0x1000 (user_vad_base + 0x1000) 0x1000 false true spaces [])
vad_protect-ProtectOutcome_example =
    vad_protect-ProtectOutcome plain_pages 0x1000 (user_vad_base + 0x1000) 0x1000 false true spaces
      [] spaces-AllValid (omega arith) (omega arith)
