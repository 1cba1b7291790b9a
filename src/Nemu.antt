-- ===== src/Nemu.antt =====
-- nemu/: the emulator. One module for each part of it.
pub mod Pattern
pub mod Host
pub mod Config
pub mod Io
pub mod Paddr
pub mod State
pub mod Riscv32
pub mod Boot
pub mod Mips32
pub mod Loongarch32r
pub mod X86
pub mod Difftest
pub mod CpuExec
pub mod Keyboard
pub mod Ports
pub mod PortIo
pub mod Sdcard
pub mod Alarm
pub mod Watchpoint
pub mod Sdb
