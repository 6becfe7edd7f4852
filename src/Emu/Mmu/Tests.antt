-- ===== src/Emu/Mmu/Tests.antt =====
-- emu/src/mmu.rs: four tables that map one page.
use nanokrnl.Base.{◌^◌, true, ◌==◌, if◌then◌else◌, arith}
use nanokrnl.Emu.Mmu.{Memory, Paging, write, translate}
use nanokrnl.Emu.Mmu.Walk.{AreBytes}
use nanokrnl.Emu.Mmu.Outcome.{Translates, translate-Translates}

-- The tables lie at 0x1000 to 0x4000 and map the first page to 0x5000, for reading only.
abbrev tables : Memory
tables = record {
  len = 0x6000;
  byte_at = λ a.
      if a == 0x1000
      then 7
      else if a == 0x1001
      then 0x20
      else if a == 0x2000
      then 7
      else if a == 0x2001
      then 0x30
      else if a == 0x3000
      then 7
      else if a == 0x3001
      then 0x40
      else if a == 0x4000
      then 5
      else if a == 0x4001
      then 0x50
      else 0;
}

abbrev paging : Paging
paging = record { cr0 = 2 ^ 31; cr3 = 0x1000; cr4 = 2 ^ 5; efer = 2 ^ 10 }

tables-AreBytes : AreBytes tables
tables-AreBytes a = ground arith

translate-Translates_example :
    Translates tables paging 0x123 write true (translate tables paging 0x123 write true)
translate-Translates_example =
    translate-Translates tables paging 0x123 write true tables-AreBytes (omega arith) (omega arith)
