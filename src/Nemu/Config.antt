-- ===== src/Nemu/Config.antt =====
-- The numbers that the configuration fixes (nemu/src/memory/Kconfig, nemu/src/device/io/*.c),
-- and `in_pmem` of nemu/include/memory/paddr.h.
use model_lib.Base.{ℕ, ◌+◌, ◌-◌, ◌*◌, ◌^◌, ◌≤◌, ◌<◌, ◌≡◌, ◌↔◌, Bool, true, arith, ltb}
use model_lib.Base.Words.{sub32}

abbrev pub mbase : ℕ
mbase = 0x8000_0000

abbrev pub msize : ℕ
msize = 0x800_0000

abbrev pub io_space_max : ℕ
io_space_max = 32 * 1024 * 1024

abbrev pub nr_map_max : ℕ
nr_map_max = 16

-- `paddr_t` has 32 bits: an address below the base wraps round to a large number.
unfoldable pub in_pmem : ℕ → Bool
in_pmem addr = ltb (sub32 addr mbase) msize

unfoldable pub guest_to_host : ℕ → ℕ
guest_to_host paddr = paddr - mbase

-- An address of 32 bits is in the memory exactly if it is one of the `msize` from `mbase` on.
pub in_pmem_iff : (a : ℕ) → a < 2 ^ 32 → (in_pmem a ≡ true) ↔ ((mbase ≤ a) × (a < mbase + msize))
unfolding in_pmem
in_pmem_iff a h = ground arith
