-- ===== src/Nemu/Io.antt =====
-- nemu/src/device/io/map.c, nemu/src/device/io/mmio.c and nemu/include/device/map.h: the memory
-- that the devices share with the guest, and the table of its regions.
pub mod Maps
pub mod Alloc
use model_lib.Base.{
  ℕ, zero, suc, ◌+◌, ◌-◌, ◌*◌, ◌/◌, ◌%◌, ◌^◌, ◌≤◌, ◌<◌, min, bit_and, bit_or, bit_xor, ◌≡◌, refl,
  sym, ap, ap₂, ◌∙◌, ◌≢◌, ◌↔◌, ◌⊎◌, inl, inr, Bool, true, false, not, ◌&&◌, ◌||◌, Option, none,
  some, List, [], ◌∷◌, ◌++◌, map, reverse, arith, ltb, leb, ◌==◌, ◌!=◌, if◌then◌else◌, ltb→lt,
  lt→ltb, le→ltb, ==_iff, ==_refl, ==_of_ne, Bool-cases, Option-cases, length, get_elem?, get_or,
  set, take, replicate, length-append, length-set, length-replicate, get_or-set_self, get_or-set_ne,
  get_or-append_left, get_or-append_length,
}
use model_lib.Base.Words.{u8, u16, u32, u64, sub32, ◌<<<◌, ◌>>>◌}
use Prim.Native.String.{String}
use model_lib.Outcome.{Outcome, ok, panic, undefined, ◌>>=◌, ◌>>◌, check}
use model_lib.Nemu.Config.{io_space_max, nr_map_max, in_pmem}
use model_lib.Base.Memory.{Bytes}
use model_lib.Nemu.Host.{host_read, host_write}

-- The bytes of `io_space`, and the states of the devices behind it.
pub record Space (D : Type 0) : Type 0 where
  pub bytes : Bytes
  pub dev : D

-- `io_callback_t`: offset, length, whether it is a write.
abbrev pub Callback : Type 0 → Type 0
Callback D = ℕ → ℕ → Bool → Space D → Outcome (Space D)

-- `space` is an offset in `io_space`; no callback is the NULL of the source.
pub record IoMap (D : Type 0) : Type 0 where
  pub name : String
  pub low : ℕ
  pub high : ℕ
  pub space : ℕ
  pub callback : Option (Callback D)

-- `is_skip_ref` and `skip_dut_nr_inst` of nemu/src/cpu/difftest/dut.c.
pub record Skip : Type 0 where
  pub is_skip_ref : Bool
  pub skip_dut_nr_inst : ℕ

unfoldable pub difftest_skip_ref : Skip → Skip
difftest_skip_ref s = record { is_skip_ref = true; skip_dut_nr_inst = 0 }

-- new_space: `p_space` is an offset from `io_space`. It gives the old value and the new one.
unfoldable pub new_space : ℕ → ℕ → Outcome (ℕ × ℕ)
new_space p_space size = do
  let rounded = bit_and (u64 (size + (4096 - 1))) (2 ^ 64 - 1 - (4096 - 1))
  check (ltb (p_space + rounded) io_space_max)
  ok (p_space, p_space + rounded)

module _ {D : Type 0} where
  unfoldable pub map_inside : IoMap D → ℕ → Bool
  map_inside m addr = leb m.low addr && leb addr m.high

  -- The loop of find_mapid_by_addr; the number is that of the first region of the list.
  unfoldable pub find_from : List (IoMap D) → ℕ → ℕ → Option ℕ
  unfolding map_inside
  find_from [] addr i = none
  find_from (m ∷ ms) addr i = if map_inside m addr then some i else find_from ms addr (i + 1)

  unfoldable pub find_mapid_by_addr : List (IoMap D) → ℕ → Skip → Option ℕ × Skip
  unfolding find_from difftest_skip_ref
  find_mapid_by_addr ms addr s = elim (find_from ms addr 0) [
    | none ↦ (none, s)
    | some i ↦ (some i, difftest_skip_ref s)
  ]

  -- check_bound; `none` is the NULL of the source.
  unfoldable pub check_bound : Option (IoMap D) → ℕ → Outcome (IoMap D)
  check_bound none addr = panic
  check_bound (some m) addr = do check (leb addr m.high && leb m.low addr); ok m

  unfoldable pub invoke_callback : Option (Callback D) → ℕ → ℕ → Bool → Space D → Outcome (Space D)
  invoke_callback none offset len is_write s = ok s
  invoke_callback (some c) offset len is_write s = c offset len is_write s

  unfoldable pub map_read : ℕ → ℕ → Option (IoMap D) → Space D → Outcome (ℕ × Space D)
  unfolding check_bound invoke_callback host_read
  map_read addr len map s = do
    check (leb 1 len && leb len 8)
    m ← check_bound map addr
    let offset = addr - m.low
    s' ← invoke_callback m.callback offset len false s
    ret ← host_read io_space_max s'.bytes (m.space + offset) len
    ok (ret, s')

  unfoldable pub map_write : ℕ → ℕ → ℕ → Option (IoMap D) → Space D → Outcome (Space D)
  unfolding check_bound invoke_callback host_write
  map_write addr len v map s = do
    check (leb 1 len && leb len 8)
    m ← check_bound map addr
    let offset = addr - m.low
    bytes ← host_write io_space_max s.bytes (m.space + offset) len v
    invoke_callback m.callback offset len true (record s { bytes = bytes })

  -- The loop of add_mmio_map over the regions that are there.
  unfoldable pub overlaps : List (IoMap D) → ℕ → ℕ → Bool
  overlaps [] left right = false
  overlaps (m ∷ ms) left right = (leb left m.high && leb m.low right) || overlaps ms left right

  -- The regions in the order of their numbers; `nr_map` is their count.
  unfoldable pub add_mmio_map :
      List (IoMap D) → String → ℕ → ℕ → ℕ → Option (Callback D) → Outcome (List (IoMap D))
  unfolding overlaps
  add_mmio_map ms name addr space len callback = do
    check (ltb (length ms) nr_map_max)
    let right = sub32 (u32 (addr + len)) 1
    check (not (in_pmem addr || in_pmem right))
    check (not (overlaps ms addr right))
    ok (
        ms
        ++ record { name = name; low = addr; high = right; space = space; callback = callback }
          ∷ [])

  -- fetch_mmio_map, mmio_read and mmio_write.
  unfoldable pub fetch_mmio_map : List (IoMap D) → ℕ → Skip → Option (IoMap D) × Skip
  unfolding find_mapid_by_addr
  fetch_mmio_map ms addr s =
      let (mapid, s') = find_mapid_by_addr ms addr s in
      elim mapid [ none ↦ (none, s') | some i ↦ (get_elem? ms i, s') ]
