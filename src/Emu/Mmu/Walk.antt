-- ===== src/Emu/Mmu/Walk.antt =====
-- emu/src/mmu.rs: the walk against the entries that lie on the way of an address.
use nanokrnl.Base.{
  ℕ, zero, suc, ◌+◌, ◌-◌, ◌*◌, ◌/◌, ◌%◌, ◌^◌, ◌<◌, ◌≡◌, refl, ap, ◌∙◌, bit_and, Bool, true, false,
  not, ◌&&◌, ◌||◌, ◌⊎◌, inl, inr, Option, none, some, List, [], ◌∷◌, ◌==◌, if◌then◌else◌, arith,
  Bool-cases, Option-cases,
}
use native.Mathlib.Nat.{pow-suc}
use nanokrnl.Base.Bits.{bit}
use nanokrnl.Emu.Mmu.{
  Memory, Access, Translation, ok, le_bytes, read_u64, is_write, is_execute, Permissions, fault,
  narrow, finish, is_large, offset_bits_of, at_entry, walk,
}
use nanokrnl.Emu.Mmu.Fields.{
  has-bit, frame_of, frame_of_lem, index_lem, PageBits, small, large, huge, address_lem,
}

abbrev pub AreBytes : Memory → Type 0
AreBytes mem = (a : ℕ) → mem.byte_at a < 256

pub le_bytes-lt : (mem : Memory) (a n : ℕ) → AreBytes mem → le_bytes mem a n < 256 ^ n
unfolding le_bytes
le_bytes-lt mem a zero bytes = omega arith
le_bytes-lt mem a (suc n) bytes =
    omega (arith, bytes a, le_bytes-lt mem (a + 1) n bytes, pow-suc 256 n)

read_u64-lt : (mem : Memory) (a e : ℕ) → AreBytes mem → read_u64 mem a ≡ some e → e < 2 ^ 64
unfolding read_u64
read_u64-lt mem a e bytes found = ground (arith, le_bytes-lt mem a 8 bytes)

-- The entry of an address in the table of a level, 0 to 3 from the top.
abbrev pub entry_of : Memory → (vaddr level table : ℕ) → Option ℕ
entry_of mem vaddr level table = read_u64 mem (table + vaddr / 2 ^ (39 - level * 9) % 512 * 8)

-- Whether an entry of a level maps a page, and of which size: each one at level 3, and one with the
-- page-size bit at level 1 or 2.
abbrev pub Maps : (level entry o : ℕ) → Type 0
Maps level entry o =
    ((level ≡ 3) × (o ≡ 12))
    ⊎ ((level ≡ 2) × (bit entry 7 ≡ true) × (o ≡ 21))
    ⊎ ((level ≡ 1) × (bit entry 7 ≡ true) × (o ≡ 30))

-- Whether an entry points to the table of the next level.
abbrev pub Points : (level entry : ℕ) → Type 0
Points level entry = (level ≡ 0) ⊎ ((level < 3) × (bit entry 7 ≡ false))

module _ (mem : Memory) (vaddr : ℕ) where
  -- From the table of a level the present entries `es` lead to a page of `2 ^ o` bytes at `page`.
  pub data Leads : (level table : ℕ) → List ℕ → (o page : ℕ) → Type 0 where
    page_at :
        (level table e o : ℕ)
        → entry_of mem vaddr level table ≡ some e
        → bit e 0 ≡ true
        → Maps level e o
        → Leads level table (e ∷ []) o (frame_of e / 2 ^ o * 2 ^ o)
    through :
        (level table e : ℕ) (es : List ℕ) (o page : ℕ)
        → entry_of mem vaddr level table ≡ some e
        → bit e 0 ≡ true
        → Points level e
        → Leads (suc level) (frame_of e) es o page
        → Leads level table (e ∷ es) o page

  -- The way ends at an entry that lies outside of memory or is not present.
  pub data Stops : (level table : ℕ) → Type 0 where
    outside : (level table : ℕ) → entry_of mem vaddr level table ≡ none → Stops level table
    absent :
        (level table e : ℕ)
        → entry_of mem vaddr level table ≡ some e
        → bit e 0 ≡ false
        → Stops level table
    further :
        (level table e : ℕ)
        → entry_of mem vaddr level table ≡ some e
        → bit e 0 ≡ true
        → Points level e
        → Stops (suc level) (frame_of e)
        → Stops level table

-- What an entry permits: writes by bit 1, user mode by bit 2, instruction fetches by bit 63 clear
-- where the processor has that bit enabled.
abbrev pub permits : (nxe : Bool) → Access → (user : Bool) → (entry : ℕ) → Bool
permits nxe access user e =
    (not (is_write access) || bit e 1)
    && (not user || bit e 2)
    && (not (is_execute access) || (not nxe || not (bit e 63)))

abbrev pub all_permit : (nxe : Bool) → Access → (user : Bool) → List ℕ → Bool
all_permit nxe access user [] = true
all_permit nxe access user (e ∷ es) = permits nxe access user e && all_permit nxe access user es

-- Whether the permissions so far allow the access.
abbrev pub granted : Access → (user : Bool) → Permissions → Bool
granted access user p =
    (not (is_write access) || p.writable)
    && (not user || p.user)
    && (not (is_execute access) || p.executable)

granted-narrow :
    (nxe : Bool) (access : Access) (user : Bool) (e : ℕ) (p : Permissions)
    → granted access user (narrow nxe e p) ≡ (granted access user p && permits nxe access user e)
granted-narrow nxe access user e p = rw (has-bit e 1, has-bit e 2, has-bit e 63) (ground arith)

-- The end of the walk by the permissions of all levels.
finish_lem :
    (v : ℕ) (access : Access) (user : Bool) (e : ℕ) (p : Permissions) {o : ℕ}
    → PageBits o
    → e < 2 ^ 64
    → v < 2 ^ 64
    → finish v access user o e p ≡ (
        if granted access user p
        then ok (frame_of e / 2 ^ o * 2 ^ o + v % 2 ^ o)
        else fault v access user true)
unfolding finish
finish_lem v access user e p {o} bits he hv = rw (address_lem e v bits he hv) (ground arith)

-- What the walk promises from a level on, with the permissions so far.
abbrev pub Walked :
    (mem : Memory) (nxe : Bool) (v : ℕ)
    → Access
    → (user : Bool) → (level table : ℕ) → Permissions
    → Option Translation
    → Type 0
Walked mem nxe v access user level table p r =
    ((es : List ℕ) × (o : ℕ) × (page : ℕ) × Leads mem v level table es o page
      × (r
          ≡ some (
              if granted access user p && all_permit nxe access user es
              then ok (page + v % 2 ^ o)
              else fault v access user true)))
    ⊎ (Stops mem v level table × (r ≡ some (fault v access user false)))

shift_lem :
    (v level : ℕ)
    → v < 2 ^ 64
    → level < 4
    → bit_and (v / 2 ^ (39 - level * 9)) 0x1ff ≡ v / 2 ^ (39 - level * 9) % 512
shift_lem v zero hv lt = index_lem v 39 (omega arith)
shift_lem v (suc zero) hv lt = index_lem v 30 (omega arith)
shift_lem v (suc (suc zero)) hv lt = index_lem v 21 (omega arith)
shift_lem v (suc (suc (suc zero))) hv lt = index_lem v 12 (omega arith)
shift_lem v (suc (suc (suc (suc l)))) hv lt = absurd (omega arith)

-- An entry ends the walk or points on.
level_cases :
    (level e : ℕ)
    → level < 4
    → ((((level == 3) || is_large level e) ≡ true)
        × Maps level e (offset_bits_of level e)
        × PageBits (offset_bits_of level e))
      ⊎ ((((level == 3) || is_large level e) ≡ false) × Points level e × (level < 3))
level_cases zero e lt = rw (has-bit e 7) (elim (Bool-cases (bit e 7)) [
  | inl on ↦ rw on (inr (refl, inl refl, omega arith))
  | inr off ↦ rw off (inr (refl, inl refl, omega arith))
])
level_cases (suc zero) e lt = rw (has-bit e 7) (elim (Bool-cases (bit e 7)) [
  | inl on ↦ rw on (inl (refl, inr (inr (refl, refl, refl)), huge))
  | inr off ↦ rw off (inr (refl, inr (omega arith, refl), omega arith))
])
level_cases (suc (suc zero)) e lt = rw (has-bit e 7) (elim (Bool-cases (bit e 7)) [
  | inl on ↦ rw on (inl (refl, inr (inl (refl, refl, refl)), large))
  | inr off ↦ rw off (inr (refl, inr (omega arith, refl), omega arith))
])
level_cases (suc (suc (suc zero))) e lt = rw (has-bit e 7) (elim (Bool-cases (bit e 7)) [
  | inl on ↦ rw on (inl (refl, inl (refl, refl), small))
  | inr off ↦ rw off (inl (refl, inl (refl, refl), small))
])
level_cases (suc (suc (suc (suc l)))) e lt = absurd (omega arith)

module _ (mem : Memory) (nxe : Bool) (v : ℕ) (access : Access) (user : Bool)
    (bytes_here : AreBytes mem) (hv : v < 2 ^ 64) where
  -- One entry, with a promise for the rest of the walk.
  at_entry-Walked :
      (next : (table : ℕ) → Permissions → Option Translation) (level table : ℕ) (p : Permissions)
      → level < 4
      → ((t : ℕ) (q : Permissions)
          → level < 3
          → Walked mem nxe v access user (suc level) t q (next t q))
      → Walked mem nxe v access user level table p
          (at_entry nxe v access user next level p (entry_of mem v level table))
  unfolding at_entry
  at_entry-Walked next level table p lt ih = elim (Option-cases (entry_of mem v level table)) [
    | inl none_there ↦ rw none_there (inr (outside level table none_there, refl))
    | inr (e, there) ↦ elim (Bool-cases (bit e 0)) [
      | inr off ↦ rw (there, has-bit e 0, off) (inr (absent level table e there off, refl))
      | inl on ↦ elim (level_cases level e lt) [
        | inl (ends, maps, bits) ↦
            let o = offset_bits_of level e in
            rw (there, has-bit e 0, on, ends)
              (inl (
                e ∷ [],
                o,
                frame_of e / 2 ^ o * 2 ^ o,
                page_at level table e o there on maps,
                ap some (
                    finish_lem v access user e (narrow nxe e p) bits
                      (read_u64-lt mem _ e bytes_here there) hv
                    ∙ ap
                        (λ b.
                          if b
                          then ok (frame_of e / 2 ^ o * 2 ^ o + v % 2 ^ o)
                          else fault v access user true)
                        (granted-narrow nxe access user e p ∙ ground arith)),
              ))
        | inr (goes, points, below) ↦
            rw (there, has-bit e 0, on, goes, frame_of_lem e (read_u64-lt mem _ e bytes_here there))
              (elim (ih (frame_of e) (narrow nxe e p) below) [
                | inl (es, o, page, leads, r) ↦ inl (
                  e ∷ es,
                  o,
                  page,
                  through level table e es o page there on points leads,
                  r
                      ∙ ap
                          (λ b.
                            some (if b then ok (page + v % 2 ^ o) else fault v access user true))
                          (ap (λ b. b && all_permit nxe access user es)
                              (granted-narrow nxe access user e p)
                            ∙ ground arith),
                )
                | inr (stops, r) ↦ inr (further level table e there on points stops, r)
              ])
      ]
    ]
  ]

pub walk-Walked :
    (mem : Memory) (nxe : Bool) (v : ℕ) (access : Access) (user : Bool) (rounds level table : ℕ)
    (p : Permissions)
    → AreBytes mem
    → v < 2 ^ 64
    → rounds + level ≡ 4
    → level < 4
    → Walked mem nxe v access user level table p (walk mem nxe v access user rounds level table p)
unfolding walk
walk-Walked mem nxe v access user zero level table p bytes hv rounds lt =
    absurd (omega (arith, rounds, lt))
walk-Walked mem nxe v access user (suc rounds) level table p bytes hv left lt =
    rw (shift_lem v level hv lt) (
      at_entry-Walked mem nxe v access user bytes hv (walk mem nxe v access user rounds (suc level))
        level table p lt
        (λ t q below.
          walk-Walked mem nxe v access user rounds (suc level) t q bytes hv (omega (arith, left))
            (omega (arith, below))))
