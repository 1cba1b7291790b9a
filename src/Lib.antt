-- ===== src/Lib.antt =====
-- NEMU, an emulator of a RISC-V machine that is checked against a reference while it runs, and
-- klib, the C library of the programs that run on it.
--
-- The parts and how they interact. cpu_exec (nemu/src/cpu/cpu-exec.c) runs instructions one after
-- the other. Each goes through isa_exec_once (nemu/src/isa/riscv32/inst.c), which fetches a word,
-- finds its line by the patterns of nemu/include/cpu/decode.h, and works on the registers and on
-- the memory (nemu/src/memory). An access outside of the memory goes to the table of device
-- regions (nemu/src/device/io), whose callbacks are the devices, such as the keyboard
-- (nemu/src/device/keyboard.c). After each instruction difftest_step (nemu/src/cpu/difftest/dut.c)
-- compares the registers with those of the reference, and device_update
-- (nemu/src/device/device.c) hands the events of the window to the devices. A trap or a failed
-- comparison sets nemu_state, at which the loop ends. klib (abstract-machine/klib/src) is a
-- library of its own, without a caller here.
--
-- The files, by the path from the repository's root of the code that they are about:
--   Nemu/Pattern      nemu/include/cpu/decode.h: pattern_decode, pattern_decode_hex,
--                     INSTPAT
--   Nemu/Host, Nemu/Config, Nemu/Paddr   nemu/include/memory/host.h, nemu/include/memory/paddr.h,
--                     nemu/src/memory/paddr.c, nemu/src/memory/vaddr.c
--   Nemu/Io           nemu/src/device/io/map.c, nemu/src/device/io/mmio.c,
--                     nemu/include/device/map.h
--   Nemu/State        nemu/include/utils.h, nemu/src/utils/state.c
--   Nemu/Riscv32      nemu/src/isa/riscv32, nemu/src/engine/interpreter/hostcall.c,
--                     nemu/include/cpu/ifetch.h; Spec in it is the manual, not the code
--   Nemu/Mips32, Nemu/Loongarch32r   nemu/src/isa/mips32/inst.c, nemu/src/isa/loongarch32r/inst.c,
--                     on the state of Riscv32; Manual in each is the manual, not the code
--   Nemu/X86          nemu/src/isa/x86: inst.c, reg.c and the headers. Address is the operand of a
--                     ModR/M byte; Manual in it and in Mov are the manual, not the code
--   Nemu/Boot         nemu/src/isa/riscv32/init.c and the same file of mips32 and loongarch32r
--   Nemu/Difftest     nemu/src/cpu/difftest/dut.c, nemu/src/isa/riscv32/difftest/dut.c
--   Nemu/CpuExec      nemu/src/cpu/cpu-exec.c, nemu/src/device/device.c
--   Nemu/Keyboard     nemu/src/device/keyboard.c
--   Nemu/Ports        nemu/src/device/timer.c, nemu/src/device/serial.c
--   Nemu/PortIo, Nemu/Sdcard, Nemu/Alarm   nemu/src/device/io/port-io.c, sdcard.c and alarm.c beside
--                     that folder
--   Nemu/Watchpoint, Nemu/Sdb   nemu/src/monitor/sdb/watchpoint.c, nemu/src/monitor/sdb/sdb.c
--   QemuDiff          nemu/tools/qemu-diff/src/gdb-host.c, diff-test.c beside it
--   Am/Vme            abstract-machine/am/src/x86/qemu/vme.c; Mmu in it is the manual, not the code
--   Minirv            abstract-machine/tools/minirv: inst-replace.h, gen-lut.c. The parent is the
--                     processor with eight instructions, Macros the code that the assembler puts for
--                     each macro, Tables the tables, Linked where they stand in memory
--   Klib/Ctype, Klib/Strings, Klib/Stdio, Klib/Stdlib   abstract-machine/klib/src/ctypes.c,
--                     string.c, stdio.c and stdlib.c
--   Base, Outcome     shared helpers: tests, lists, words, bits, bytes, and how a call ends
--   Examples          the theorems at concrete inputs
--
-- A definition has the name of its function. Global variables are the fields of a record that is
-- passed on: Machine (cpu, the memory, nemu_state), Dut (with the reference), Emu (with the
-- counters), Keys (the queue of the keyboard), Output (the formatter). A call gives an Outcome:
-- `ok`, `panic` for a failed assert or a panic, which end the process, and `undefined` where C
-- leaves the behaviour open, such as an access outside of an array. Words are native numbers with
-- their wrap-around written out.
--
-- The configuration is riscv32 with RT_CHECK, DEVICE, DIFFTEST and HAS_KEYBOARD, without TARGET_AM,
-- ISA64, ITRACE and IQUEUE (with the last two the fetch of x86 has an assert on the length of the
-- instruction): 128 MiB of memory at 0x80000000 (x86, whose default is another base, is taken with
-- the same), 16 regions, 32 MiB of device space. The number of registers is the length of a list, so
-- that 32 and the 16 of RVE are both covered. klib is taken for riscv32, where int, long and
-- pointers have 32 bits; a signed result that does not fit is undefined.
--
-- In Minirv a macro is a function from its operands to a list of instructions, and `none` is the
-- .abort of the assembler. The 28 bytes below the stack pointer, which the macros use for their
-- variables, are kept apart from the other memory. A table lies somewhere in memory apart from
-- them; the linker gives its address. The registers that no macro names are numbered.
--
-- Bounds and fuel. pattern_decode has the 64 rounds of its macro, and pattern_decode_hex 16.
-- reversed_digits has the 32 places of the array, and a number below 2 ^ 64 has at most 20 digits.
-- The loop of format takes the length of the format and one more, as each turn consumes a
-- character; that of the scanner takes the length of its format. What either answers without fuel
-- is an argument, so that a theorem can tell that it is never reached. The loop of x86 over
-- prefixes takes the number of opcodes that it may read, of which one more than the prefixes is
-- enough. The loops over strings take fuel as an argument, and the length of the string and one
-- more is enough for them. cpu_exec and the loops over arrays are recursive on their own counters.
--
-- Parameters, since they are no code of the repository: the reference of the difference test, which
-- is a shared object loaded at run time; the scancodes of SDL, and its events; the time; the image
-- of the SD card, which is a file; the pages that pgalloc gives; readline and strtok; protocol.c of
-- qemu-diff, a copy of a library, and what QEMU answers; the random numbers; the addresses that the
-- linker gives to the tables.
--
-- Not modelled: logs, traces, statistics and messages, which are output alone; the monitor, screen, sound and disk, the rest of the platform layer of the abstract machine;
-- int64.c and libgcc, which are copies of the compilers' libraries; kconfig, fixdep and mmc.h, which are copies from the Linux kernel; the
-- hardware model under ecc. The runs of the macros seq, seqz, sll, srl, sra and of the loads that use
-- them are definitions without theorems.
pub mod Base
pub mod Outcome
pub mod Nemu
pub mod Klib
pub mod Am
pub mod QemuDiff
pub mod Minirv
pub mod Examples
