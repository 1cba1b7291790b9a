-- ===== src/Nemu/PortIo.antt =====
-- nemu/src/device/io/port-io.c: the table of the regions of port I/O.
pub mod Access
use model_lib.Base.{
  ℕ, zero, suc, ◌+◌, ◌-◌, ◌*◌, ◌/◌, ◌%◌, ◌^◌, ◌≤◌, ◌<◌, min, bit_and, bit_or, bit_xor, ◌≡◌, refl,
  sym, ap, ap₂, ◌∙◌, ◌≢◌, ◌↔◌, ◌⊎◌, inl, inr, Bool, true, false, not, ◌&&◌, ◌||◌, Option, none,
  some, List, [], ◌∷◌, ◌++◌, map, reverse, arith, ltb, leb, ◌==◌, ◌!=◌, if◌then◌else◌, ltb→lt,
  lt→ltb, le→ltb, ==_iff, ==_refl, ==_of_ne, Bool-cases, Option-cases, length, get_elem?, get_or,
  set, take, replicate, length-append, length-set, length-replicate, get_or-set_self, get_or-set_ne,
  get_or-append_left, get_or-append_length,
}
use model_lib.Base.Words.{u8, u16, u32, u64, sub32, ◌<<<◌, ◌>>>◌}
use Prim.Native.String.{String}
use model_lib.Outcome.{Outcome, ok, panic, undefined, ◌>>=◌, ◌>>◌, check}
use model_lib.Nemu.Config.{nr_map_max}
use model_lib.Nemu.Io.{Space, IoMap, Callback, Skip, find_mapid_by_addr, map_read, map_write}

abbrev pub port_io_space_max : ℕ
port_io_space_max = 65535

module _ {D : Type 0} where
  -- `nr_map` is the length of the list.
  unfoldable pub add_pio_map :
      List (IoMap D) → String → ℕ → ℕ → ℕ → Option (Callback D) → Outcome (List (IoMap D))
  add_pio_map ms name addr space len callback = do
    check (ltb (length ms) nr_map_max)
    check (leb (u32 (addr + len)) port_io_space_max)
    ok (
        ms
        ++ record {
          name = name;
          low = addr;
          high = sub32 (u32 (addr + len)) 1;
          space = space;
          callback = callback;
        }
          ∷ [])

  -- The region of a port; without one the assert fails. The bound is `addr + len - 1 <` in ints, on
  -- lengths that are not negative.
  unfoldable pub find_port : List (IoMap D) → ℕ → ℕ → Skip → Outcome (Option (IoMap D) × Skip)
  unfolding find_mapid_by_addr
  find_port ms addr len skip = do
    check (ltb (addr + len) (port_io_space_max + 1))
    let (mapid, skip1) = find_mapid_by_addr ms addr skip
    elim mapid [ none ↦ panic | some i ↦ ok (get_elem? ms i, skip1) ]

  unfoldable pub pio_read : List (IoMap D) → ℕ → ℕ → Skip → Space D → Outcome (ℕ × Skip × Space D)
  pio_read ms addr len skip s = do
    (map, skip1) ← find_port ms addr len skip
    (v, s1) ← map_read addr len map s
    ok (v, skip1, s1)

  unfoldable pub pio_write : List (IoMap D) → ℕ → ℕ → ℕ → Skip → Space D → Outcome (Skip × Space D)
  pio_write ms addr len v skip s = do
    (map, skip1) ← find_port ms addr len skip
    s1 ← map_write addr len v map s
    ok (skip1, s1)
