-- ===== src/Emu.antt =====
-- emu/src: the x86-64 emulator.
pub mod Alu
pub mod Devices
pub mod Mmu
pub mod Cpu
pub mod Machine
