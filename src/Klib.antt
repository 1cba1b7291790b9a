-- ===== src/Klib.antt =====
-- abstract-machine/klib/src/: the part of the C library that a guest program links. The target is
-- riscv32: int, long, size_t and pointers have 32 bits, and char is unsigned.
pub mod Ctype
pub mod Strings
pub mod Stdio
pub mod Stdlib
