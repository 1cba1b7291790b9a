-- ===== src/Nemu/Paddr.antt =====
-- nemu/src/memory/paddr.c and nemu/src/memory/vaddr.c: the physical memory, with what lies
-- outside of it passed on to the devices (CONFIG_DEVICE is on).
pub mod Laws
use model_lib.Base.{
  ℕ, zero, suc, ◌+◌, ◌-◌, ◌*◌, ◌/◌, ◌%◌, ◌^◌, ◌≤◌, ◌<◌, min, bit_and, bit_or, bit_xor, ◌≡◌, refl,
  sym, ap, ap₂, ◌∙◌, ◌≢◌, ◌↔◌, ◌⊎◌, inl, inr, Bool, true, false, not, ◌&&◌, ◌||◌, Option, none,
  some, List, [], ◌∷◌, ◌++◌, map, reverse, arith, ltb, leb, ◌==◌, ◌!=◌, if◌then◌else◌, ltb→lt,
  lt→ltb, le→ltb, ==_iff, ==_refl, ==_of_ne, Bool-cases, Option-cases, length, get_elem?, get_or,
  set, take, replicate, length-append, length-set, length-replicate, get_or-set_self, get_or-set_ne,
  get_or-append_left, get_or-append_length,
}
use model_lib.Base.Words.{u8, u16, u32, u64, sub32, ◌<<<◌, ◌>>>◌}
use model_lib.Outcome.{Outcome, ok, panic, undefined, ◌>>=◌, ◌>>◌, check}
use model_lib.Nemu.Config.{mbase, msize, in_pmem, guest_to_host}
use model_lib.Base.Memory.{Bytes}
use model_lib.Nemu.Host.{host_read, host_write}
use model_lib.Nemu.Io.{Space, IoMap, Skip, fetch_mmio_map, map_read, map_write}

-- `pmem`, the table of mmio.c, the space of the devices, and what the difference test skips.
pub record Mem (D : Type 0) : Type 0 where
  pub pmem : Bytes
  pub maps : List (IoMap D)
  pub space : Space D
  pub skip : Skip

module _ {D : Type 0} where
  unfoldable pub pmem_read : ℕ → ℕ → Mem D → Outcome ℕ
  unfolding guest_to_host
  pmem_read addr len s = host_read msize s.pmem (guest_to_host addr) len

  unfoldable pub pmem_write : ℕ → ℕ → ℕ → Mem D → Outcome (Mem D)
  unfolding guest_to_host
  pmem_write addr len v s = do
    pmem ← host_write msize s.pmem (guest_to_host addr) len v
    ok (record s { pmem = pmem })

  unfoldable pub mmio_read : ℕ → ℕ → Mem D → Outcome (ℕ × Mem D)
  mmio_read addr len s = do
    let (map, skip) = fetch_mmio_map s.maps addr s.skip
    (ret, space) ← map_read addr len map s.space
    ok (ret, record s { space = space; skip = skip })

  unfoldable pub mmio_write : ℕ → ℕ → ℕ → Mem D → Outcome (Mem D)
  mmio_write addr len v s = do
    let (map, skip) = fetch_mmio_map s.maps addr s.skip
    space ← map_write addr len v map s.space
    ok (record s { space = space; skip = skip })

  unfoldable pub paddr_read : ℕ → ℕ → Mem D → Outcome (ℕ × Mem D)
  unfolding pmem_read mmio_read
  paddr_read addr len s =
      if in_pmem addr then (do ret ← pmem_read addr len s; ok (ret, s)) else mmio_read addr len s

  unfoldable pub paddr_write : ℕ → ℕ → ℕ → Mem D → Outcome (Mem D)
  unfolding pmem_write mmio_write
  paddr_write addr len v s =
      if in_pmem addr then pmem_write addr len v s else mmio_write addr len v s

  -- The addresses that a program uses are the physical ones.
  unfoldable pub vaddr_ifetch : ℕ → ℕ → Mem D → Outcome (ℕ × Mem D)
  vaddr_ifetch addr len s = paddr_read addr len s

  unfoldable pub vaddr_read : ℕ → ℕ → Mem D → Outcome (ℕ × Mem D)
  vaddr_read addr len s = paddr_read addr len s

  unfoldable pub vaddr_write : ℕ → ℕ → ℕ → Mem D → Outcome (Mem D)
  vaddr_write addr len v s = paddr_write addr len v s
