-- ===== src/Emu/Mmu/Outcome.antt =====
-- emu/src/mmu.rs: every outcome of a translation.
use nanokrnl.Base.{
  ℕ, ◌+◌, ◌-◌, ◌%◌, ◌^◌, ◌<◌, ◌≡◌, refl, ap, ◌∙◌, Bool, true, false, ◌&&◌, ◌||◌, inl, inr, Option,
  some, List, leb, ltb, if◌then◌else◌, arith, Bool-cases,
}
use nanokrnl.Base.Bits.{bit}
use nanokrnl.Emu.Mmu.{
  Memory, Paging, Access, Translation, ok, page_fault, fault, is_write, is_execute, translate,
  long_mode_paging, is_canonical,
}
use nanokrnl.Emu.Mmu.Fields.{has-bit, frame_of, frame_of_lem, code_of, fault_lem}
use nanokrnl.Emu.Mmu.Walk.{AreBytes, Leads, Stops, all_permit, granted, Walked, walk-Walked}

-- Paging is on, with physical address extension and the long mode active.
abbrev pub in_long_mode : Paging → Bool
in_long_mode p = bit p.cr0 31 && bit p.cr4 5 && bit p.efer 10

-- The digits from 47 on are all alike.
abbrev pub canonical : ℕ → Bool
canonical v = ltb v (2 ^ 47) || leb (2 ^ 64 - 2 ^ 47) v

-- What a translation of `v` gives.
pub data Translates (mem : Memory) (p : Paging) (v : ℕ) (access : Access) (user : Bool)
    (r : Option Translation) : Type 0 where
  flat : in_long_mode p ≡ false → r ≡ some (ok v) → Translates mem p v access user r
  strange :
      in_long_mode p ≡ true
      → canonical v ≡ false
      → r ≡ some (page_fault v (code_of false (is_write access) user (is_execute access)))
      → Translates mem p v access user r
  mapped :
      in_long_mode p ≡ true
      → canonical v ≡ true
      → (es : List ℕ) (o page : ℕ) → Leads mem v 0 (frame_of p.cr3) es o page
      → all_permit (bit p.efer 11) access user es ≡ true
      → r ≡ some (ok (page + v % 2 ^ o))
      → Translates mem p v access user r
  forbidden :
      in_long_mode p ≡ true
      → canonical v ≡ true
      → (es : List ℕ) (o page : ℕ) → Leads mem v 0 (frame_of p.cr3) es o page
      → all_permit (bit p.efer 11) access user es ≡ false
      → r ≡ some (page_fault v (code_of true (is_write access) user (is_execute access)))
      → Translates mem p v access user r
  unmapped :
      in_long_mode p ≡ true
      → canonical v ≡ true
      → Stops mem v 0 (frame_of p.cr3)
      → r ≡ some (page_fault v (code_of false (is_write access) user (is_execute access)))
      → Translates mem p v access user r

long_mode_lem : (p : Paging) → long_mode_paging p ≡ in_long_mode p
unfolding long_mode_paging
long_mode_lem p = rw (has-bit p.cr0 31, has-bit p.cr4 5, has-bit p.efer 10) refl

canonical_lem : (v : ℕ) → v < 2 ^ 64 → is_canonical v ≡ canonical v
unfolding is_canonical
canonical_lem v lt = ground (arith, lt)

granted_all :
    (access : Access) (user b : Bool)
    → (granted access user (record { writable = true; user = true; executable = true }) && b) ≡ b
granted_all access user b = ground arith

walked_lem :
    (mem : Memory) (p : Paging) (v : ℕ) (access : Access) (user : Bool) (r : Option Translation)
    → in_long_mode p ≡ true
    → canonical v ≡ true
    → Walked mem
        (bit p.efer 11)
        v
        access
        user
        0
        (frame_of p.cr3)
        (record { writable = true; user = true; executable = true })
        r
    → Translates mem p v access user r
walked_lem mem p v access user r long can (inl (es, o, page, leads, e)) =
    elim (Bool-cases (all_permit (bit p.efer 11) access user es)) [
      | inl yes_all ↦ mapped long can es o page leads yes_all (
          e
          ∙ ap (λ b. some (if b then ok (page + v % 2 ^ o) else fault v access user true))
              (granted_all access user (all_permit (bit p.efer 11) access user es) ∙ yes_all))
      | inr not_all ↦ forbidden long can es o page leads not_all (
          e
          ∙ ap (λ b. some (if b then ok (page + v % 2 ^ o) else fault v access user true))
              (granted_all access user (all_permit (bit p.efer 11) access user es) ∙ not_all)
          ∙ ap some (fault_lem v access user true))
    ]
walked_lem mem p v access user r long can (inr (stops, e)) =
    unmapped long can stops (e ∙ ap some (fault_lem v access user false))

-- Memory holds bytes, `v` and CR3 are 64-bit words. `translate` returns on every input: the address
-- itself without long-mode paging; a fault for an address that is not canonical; and otherwise
-- what the entries from CR3 on say. If they lead through present entries to a page of 4 KiB, 2 MiB
-- or 1 GiB, it is the place of `v` in that page when every entry permits the access, and a fault
-- with the present bit when one does not. If they stop before, it is a fault without that bit.
pub translate-Translates :
    (mem : Memory) (p : Paging) (v : ℕ) (access : Access) (user : Bool)
    → AreBytes mem
    → v < 2 ^ 64
    → p.cr3 < 2 ^ 64
    → Translates mem p v access user (translate mem p v access user)
unfolding translate
translate-Translates mem p v access user bytes hv hc =
    rw (long_mode_lem p, canonical_lem v hv, has-bit p.efer 11, frame_of_lem p.cr3 hc)
      (elim (Bool-cases (in_long_mode p)) [
        | inr off ↦ rw off (flat off refl)
        | inl on ↦ elim (Bool-cases (canonical v)) [
          | inr odd ↦ rw (on, odd) (strange on odd (ap some (fault_lem v access user false)))
          | inl can ↦
              rw (on, can)
                (walked_lem mem p v access user _ on can (
                  walk-Walked mem (bit p.efer 11) v access user 4 0 (frame_of p.cr3)
                    (record { writable = true; user = true; executable = true }) bytes hv
                    (omega arith) (omega arith)))
        ]
      ])
