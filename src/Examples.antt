-- ===== src/Examples.antt =====
-- The theorems at concrete inputs, and runs of the definitions on small ones.
pub mod Klib
pub mod Devices
pub mod Minirv
pub mod Isas
pub mod Storage
pub mod Machines
pub mod X86
pub mod Paging
pub mod Qemu
pub mod Session
