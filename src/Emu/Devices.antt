-- ===== src/Emu/Devices.antt =====
-- emu/src/devices.rs: the serial port, the local interrupt controller with its timer, the keyboard
-- and the host transport. A queue is the list of its bytes, the oldest first; a register is a
-- number below 2 to its width.
pub mod Pending
pub mod Timer
pub mod Dispatch
mod Tests
use nanokrnl.Base.{
  ℕ, zero, suc, ◌+◌, ◌-◌, ◌*◌, ◌/◌, ◌%◌, ◌^◌, bit_and, bit_or, max, Bool, true, false, not, ◌&&◌,
  ◌||◌, Option, none, some, List, [], ◌∷◌, ◌++◌, ◌==◌, ltb, leb, if◌then◌else◌, get_or, set,
}
use nanokrnl.Base.Bits.Zeros.{zeros_from}

pub record Uart : Type 0 where
  pub tx : List ℕ
  pub rx : List ℕ
  pub ier : ℕ
  pub lcr : ℕ
  pub mcr : ℕ

pub record Apic : Type 0 where
  pub id : ℕ
  pub svr : ℕ
  pub tpr : ℕ
  pub lvt_timer : ℕ
  pub initial_count : ℕ
  pub current_count : ℕ
  pub divide_config : ℕ
  pub irr : List ℕ

-- The queue of the keyboard.
abbrev pub Ps2 : Type 0
Ps2 = List ℕ

pub record P9 : Type 0 where
  pub tx : List ℕ
  pub rx : List ℕ

pub record Devices : Type 0 where
  pub uart : Uart
  pub apic : Apic
  pub ps2 : Ps2
  pub p9 : P9

-- `pop_front().unwrap_or(0)`
abbrev pub front : List ℕ → ℕ
front [] = 0
front (b ∷ bs) = b

abbrev pub behind : List ℕ → List ℕ
behind [] = []
behind (b ∷ bs) = bs

abbrev pub is_empty : List ℕ → Bool
is_empty [] = true
is_empty (b ∷ bs) = false

unfoldable pub uart_read : (off : ℕ) → Uart → Uart × ℕ
uart_read off u =
    if off == 0
    then (record u { rx = behind u.rx }, front u.rx)
    else if off == 1
    then (u, u.ier)
    else if off == 2
    then (u, 0x01)
    else if off == 3
    then (u, u.lcr)
    else if off == 4
    then (u, u.mcr)
    else if off == 5
    then (u, bit_or (bit_or 32 64) (if is_empty u.rx then 0 else 1))
    else if off == 6
    then (u, 0xb0)
    else (u, 0)

unfoldable pub uart_write : (off val : ℕ) → Uart → Uart
uart_write off val u =
    if off == 0
    then record u { tx = u.tx ++ val ∷ [] }
    else if off == 1
    then record u { ier = val }
    else if off == 3
    then record u { lcr = val }
    else if off == 4
    then record u { mcr = val }
    else u

-- `push_scancode`
abbrev pub push_scancode : (code : ℕ) → Ps2 → Ps2
push_scancode code queue = queue ++ code ∷ []

abbrev pub push_rx : ℕ → Uart → Uart
push_rx b u = record u { rx = u.rx ++ b ∷ [] }

-- `x & bit != 0`
abbrev pub has : (x bit : ℕ) → Bool
has x bit = not (bit_and x bit == 0)

unfoldable pub divisor : Apic → ℕ
divisor a =
    let e = bit_or (bit_and a.divide_config 3) (bit_and a.divide_config 8 / 2) in
    if e == 0
    then 2
    else if e == 1
    then 4
    else if e == 2
    then 8
    else if e == 3
    then 16
    else if e == 4
    then 32
    else if e == 5
    then 64
    else if e == 6
    then 128
    else 1

unfoldable pub apic_reg_read : (off : ℕ) → Apic → ℕ
apic_reg_read off a =
    if off == 0x20
    then a.id * 2 ^ 24 % 2 ^ 32
    else if off == 0x30
    then 0x00010014
    else if off == 0x80
    then a.tpr
    else if off == 0xf0
    then a.svr
    else if off == 0x320
    then a.lvt_timer
    else if off == 0x380
    then a.initial_count
    else if off == 0x390
    then a.current_count
    else if off == 0x3e0
    then a.divide_config
    else 0

-- `request` sets the bit of a vector and `ack` clears it.
unfoldable pub request : (vector : ℕ) → Apic → Apic
request v a = record a {
  irr = set a.irr (v / 64) (bit_or (get_or a.irr (v / 64) 0) (2 ^ (v % 64)));
}

unfoldable pub ack : (vector : ℕ) → Apic → Apic
ack v a = record a {
  irr = set a.irr (v / 64) (bit_and (get_or a.irr (v / 64) 0) (2 ^ 64 - 1 - 2 ^ (v % 64)));
}

unfoldable pub apic_reg_write : (off val : ℕ) → Apic → Apic
unfolding request
apic_reg_write off val a =
    if off == 0x20
    then record a { id = val / 2 ^ 24 }
    else if off == 0x80
    then record a { tpr = val }
    else if off == 0xf0
    then record a { svr = val }
    else if off == 0x300
    then request (val % 2 ^ 8) a
    else if off == 0x320
    then record a { lvt_timer = val }
    else if off == 0x380
    then record a { initial_count = val; current_count = val }
    else if off == 0x3e0
    then record a { divide_config = val }
    else a

-- `for word in (0..n).rev()`
unfoldable pub highest_below : (n : ℕ) → List ℕ → Option ℕ
highest_below zero irr = none
highest_below (suc n) irr =
    let rest = highest_below n irr in
    if not (get_or irr n 0 == 0)
    then some ((n * 64 + (63 - zeros_from 64 (get_or irr n 0))) % 2 ^ 8)
    else rest

unfoldable pub highest_pending : Apic → Option ℕ
highest_pending a = highest_below 4 a.irr

unfoldable pub fire_timer : Apic → Apic × ℕ
unfolding request
fire_timer a =
    let vector = a.lvt_timer % 2 ^ 8 in
    let reloaded =
      if has a.lvt_timer (2 ^ 17)
      then record a { current_count = a.initial_count }
      else record a { current_count = 0; initial_count = 0 } in
    (request vector reloaded, vector)

-- The timer is masked or stopped.
abbrev pub is_off : Apic → Bool
is_off a = has a.lvt_timer (2 ^ 16) || (a.initial_count == 0)

abbrev pub fired : Apic × ℕ → Apic × Option ℕ
fired (a, vector) = (a, some vector)

unfoldable pub tick : (cycles : ℕ) → Apic → Apic × Option ℕ
tick cycles a =
    if is_off a
    then (a, none)
    else let dec = cycles / max (divisor a) 1 in
      if dec == 0
      then (a, none)
      else if ltb dec a.current_count
      then (record a { current_count = a.current_count - dec }, none)
      else fired (fire_timer a)

unfoldable pub expire : Apic → Apic × Option ℕ
unfolding fire_timer
expire a = if is_off a then (a, none) else fired (fire_timer a)
