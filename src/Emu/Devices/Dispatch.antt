-- ===== src/Emu/Devices/Dispatch.antt =====
-- emu/src/devices.rs: the dispatch of ports and of the two windows in memory.
use nanokrnl.Base.{
  ℕ, ◌+◌, ◌-◌, ◌*◌, ◌%◌, ◌^◌, Bool, ◌&&◌, [], ◌∷◌, ◌++◌, ◌==◌, ltb, leb, if◌then◌else◌,
}
use nanokrnl.Emu.Devices.{
  Uart, Devices, front, behind, is_empty, uart_read, uart_write, apic_reg_read, apic_reg_write,
}

abbrev pub apic_base : ℕ
apic_base = 0xfee0_0000

abbrev pub p9_base : ℕ
p9_base = 0xfed0_0000

unfoldable pub is_apic_mmio : (phys : ℕ) → Bool
is_apic_mmio phys = leb apic_base phys && ltb phys (apic_base + 0x1000)

unfoldable pub is_p9_mmio : (phys : ℕ) → Bool
is_p9_mmio phys = leb p9_base phys && ltb phys (p9_base + 0x1000)

pub apic_read : (phys : ℕ) → Devices → ℕ
unfolding apic_reg_read
apic_read phys d = apic_reg_read (phys - apic_base) d.apic

pub apic_write : (phys val : ℕ) → Devices → Devices
unfolding apic_reg_write
apic_write phys val d = record d { apic = apic_reg_write (phys - apic_base) (val % 2 ^ 32) d.apic }

abbrev pub pop_p9 : Devices → Devices × ℕ
pop_p9 d = (record d { p9 = record d.p9 { rx = behind d.p9.rx } }, front d.p9.rx)

abbrev pub ready_p9 : Devices → ℕ
ready_p9 d = if is_empty d.p9.rx then 0 else 1

abbrev pub push_p9 : ℕ → Devices → Devices
push_p9 b d = record d { p9 = record d.p9 { tx = d.p9.tx ++ b ∷ [] } }

pub p9_read : (phys : ℕ) → Devices → Devices × ℕ
p9_read phys d =
    if phys - p9_base == 0
    then pop_p9 d
    else if phys - p9_base == 4
    then (d, ready_p9 d)
    else (d, 0)

pub p9_write : (phys val : ℕ) → Devices → Devices
p9_write phys val d = if phys - p9_base == 0 then push_p9 (val % 2 ^ 8) d else d

abbrev put_uart : Devices → Uart × ℕ → Devices × ℕ
put_uart d (u, b) = (record d { uart = u }, b)

pub port_in : (port size : ℕ) → Devices → Devices × ℕ
unfolding uart_read
port_in port size d =
    if leb 0x3f8 port && leb port 0x3ff
    then put_uart d (uart_read (port - 0x3f8) d.uart)
    else if port == 0x60
    then (record d { ps2 = behind d.ps2 }, front d.ps2)
    else if port == 0x64
    then (d, if is_empty d.ps2 then 0 else 1)
    else if port == 0x9f0
    then pop_p9 d
    else if port == 0x9f1
    then (d, ready_p9 d)
    else (d, if leb 64 (size * 8) then 2 ^ 64 - 1 else 2 ^ (size * 8) - 1)

pub port_out : (port val : ℕ) → Devices → Devices
unfolding uart_write
port_out port val d =
    if leb 0x3f8 port && leb port 0x3ff
    then record d { uart = uart_write (port - 0x3f8) (val % 2 ^ 8) d.uart }
    else if port == 0x9f0
    then push_p9 (val % 2 ^ 8) d
    else d
