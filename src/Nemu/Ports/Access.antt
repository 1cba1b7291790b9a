-- ===== src/Nemu/Ports/Access.antt =====
-- What a program gets through the two ports.
use model_lib.Base.{
  ℕ, ◌+◌, ◌-◌, ◌/◌, ◌%◌, ◌^◌, ◌≤◌, ◌<◌, ◌≡◌, refl, ap, ◌∙◌, true, false, ◌&&◌, some, arith, leb,
}
use model_lib.Base.Words.{u32}
use model_lib.Outcome.{ok, ◌>>=◌}
use model_lib.Nemu.Config.{io_space_max}
use model_lib.Base.Memory.{Bytes, update, update_at}
use model_lib.Nemu.Host.{load_le, store_le, host_read, host_write}
use model_lib.Nemu.Host.Laws.{store_le_frame, load_le_local, load_le-store_le}
use model_lib.Nemu.Io.{Space, IoMap, map_read, map_write, invoke_callback}
use model_lib.Nemu.Ports.{rtc_io_handler, serial_io_handler}

pub host_read-word :
    (bytes : Bytes) (a : ℕ)
    → a + 4 ≤ io_space_max
    → host_read io_space_max bytes a 4 ≡ ok (load_le 4 bytes a)
unfolding host_read
host_read-word bytes a room = ground arith

module _ {D : Type 0} where
  -- An access inside of its region goes to the callback at its offset.
  pub map_read-inside :
      (m : IoMap D) (s : Space D) (off len : ℕ)
      → m.low + off ≤ m.high
      → 1 ≤ len
      → len ≤ 8
      → map_read (m.low + off) len (some m) s ≡ (
          invoke_callback m.callback off len false s >>= λ s1.
          host_read io_space_max s1.bytes (m.space + off) len >>= λ ret. ok (ret, s1))
  unfolding map_read
  map_read-inside m s off len inside low high =
      let at : m.low + off - m.low ≡ off = omega arith in
      let lens : (leb 1 len && leb len 8) ≡ true = ground arith in
      let bound : (leb (m.low + off) m.high && leb m.low (m.low + off)) ≡ true = ground arith in
      rw (map_read, lens, bound, at) refl

  -- A read of the upper word of the clock's port takes the time and gives the upper half of it,
  -- and a read of the lower word after it gives the lower half of that same time.
  pub rtc-map_read :
      (get_time : D → ℕ × D) (m : IoMap D) (s : Space D)
      → m.high ≡ m.low + 7
      → m.callback ≡ some (rtc_io_handler get_time m.space)
      → m.space + 8 ≤ io_space_max
      → (get_time s.dev).0 < 2 ^ 64
      → (s2 : Space D) × (map_read (m.low + 4) 4 (some m) s ≡ ok ((get_time s.dev).0 / 2 ^ 32, s2))
        × (map_read (m.low + 0) 4 (some m) s2 ≡ ok ((get_time s.dev).0 % 2 ^ 32, s2))
  unfolding rtc_io_handler invoke_callback
  rtc-map_read get_time m s top called room small =
      let us = (get_time s.dev).0 in
      let low = store_le 4 s.bytes m.space (u32 us) in
      let both = store_le 4 low (m.space + 4) (us / 2 ^ 32) in
      let s2 : Space D = record { bytes = both; dev = (get_time s.dev).1 } in
      let upper : load_le 4 both (m.space + 4) ≡ us / 2 ^ 32 =
        omega (arith, load_le-store_le 4 low (m.space + 4) (us / 2 ^ 32)) in
      let same : load_le 4 both (m.space + 0) ≡ load_le 4 low (m.space + 0) =
        load_le_local 4 both low (m.space + 0)
          (λ i p q. store_le_frame 4 low (m.space + 4) (us / 2 ^ 32) i (omega arith)) in
      let lower : load_le 4 low (m.space + 0) ≡ us % 2 ^ 32 =
        ap (load_le 4 low) {x = m.space + 0} {y = m.space} (omega arith)
        ∙ omega (arith, load_le-store_le 4 s.bytes m.space (u32 us)) in
      (
        s2,
        map_read-inside m s 4 4 (omega arith) (omega arith) (omega arith)
            ∙ rw (called, host_read-word both (m.space + 4) (omega arith), upper) refl,
        map_read-inside m s2 0 4 (omega arith) (omega arith) (omega arith)
            ∙ rw (called, host_read-word both (m.space + 0) (omega arith), same, lower) refl,
      )

  -- A write of one byte to the serial port prints the byte.
  pub serial-map_write :
      (putc : ℕ → D → D) (m : IoMap D) (s : Space D) (v : ℕ)
      → m.low ≤ m.high
      → m.callback ≡ some (serial_io_handler putc m.space)
      → m.space < io_space_max
      → (s2 : Space D) × (map_write m.low 1 v (some m) s ≡ ok s2) × (s2.dev ≡ putc (v % 256) s.dev)
  unfolding map_write invoke_callback serial_io_handler host_write store_le update
  serial-map_write putc m s v ordered called room =
      let at : m.low - m.low ≡ 0 = omega arith in
      let same : m.space + 0 ≡ m.space = omega arith in
      let s2 : Space D = record {
        bytes = update s.bytes m.space (v % 256);
        dev = putc (v % 256) s.dev;
      } in
      let bound : (leb m.low m.high && leb m.low m.low) ≡ true = ground arith in
      let room1 : leb (m.space + 1) io_space_max ≡ true = ground arith in
      let there : update s.bytes m.space (v % 256) m.space ≡ v % 256 =
        update_at s.bytes m.space (v % 256) m.space refl in
      (s2, rw (map_write, bound, at, same, room1, called, there) refl, refl)
