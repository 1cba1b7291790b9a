-- ===== src/Nemu/Ports.antt =====
-- nemu/src/device/timer.c and nemu/src/device/serial.c: the clock and the serial port, as the
-- callbacks of their regions. CONFIG_TARGET_AM is off.
pub mod Access
use model_lib.Base.{
  ℕ, zero, suc, ◌+◌, ◌-◌, ◌*◌, ◌/◌, ◌%◌, ◌^◌, ◌≤◌, ◌<◌, min, bit_and, bit_or, bit_xor, ◌≡◌, refl,
  sym, ap, ap₂, ◌∙◌, ◌≢◌, ◌↔◌, ◌⊎◌, inl, inr, Bool, true, false, not, ◌&&◌, ◌||◌, Option, none,
  some, List, [], ◌∷◌, ◌++◌, map, reverse, arith, ltb, leb, ◌==◌, ◌!=◌, if◌then◌else◌, ltb→lt,
  lt→ltb, le→ltb, ==_iff, ==_refl, ==_of_ne, Bool-cases, Option-cases, length, get_elem?, get_or,
  set, take, replicate, length-append, length-set, length-replicate, get_or-set_self, get_or-set_ne,
  get_or-append_left, get_or-append_length,
}
use model_lib.Base.Words.{u8, u16, u32, u64, sub32, ◌<<<◌, ◌>>>◌}
use model_lib.Outcome.{Outcome, ok, panic, ◌>>=◌, ◌>>◌, check}
use model_lib.Nemu.Host.{store_le}
use model_lib.Nemu.Io.{Space}

-- rtc_io_handler, for a port at offset `base` of `io_space` and the host's get_time.
unfoldable pub rtc_io_handler :
    {D : Type 0} → (D → ℕ × D) → ℕ → ℕ → ℕ → Bool → Space D → Outcome (Space D)
rtc_io_handler get_time base offset len is_write s = do
  check (offset == 0 || offset == 4)
  let (us, dev) = get_time s.dev
  let low = store_le 4 s.bytes base (u32 us)
  ok (
      if not is_write && offset == 4
      then record { bytes = store_le 4 low (base + 4) (us >>> 32); dev = dev }
      else s)

-- serial_io_handler, for a port at offset `base` and the host's putc.
unfoldable pub serial_io_handler :
    {D : Type 0} → (ℕ → D → D) → ℕ → ℕ → ℕ → Bool → Space D → Outcome (Space D)
serial_io_handler putc base offset len is_write s = do
  check (len == 1)
  (if offset == 0
      then (if is_write then ok (record s { dev = putc (s.bytes base) s.dev }) else panic)
      else panic)
