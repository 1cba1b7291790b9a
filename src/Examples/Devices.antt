-- ===== src/Examples/Devices.antt =====
-- The memory and the devices of the emulator at concrete inputs.
use model_lib.Base.{
  ℕ, ◌+◌, ◌*◌, ◌%◌, ◌^◌, ◌≤◌, ◌≡◌, refl, inl, false, Option, none, some, List, [], ◌∷◌, arith,
}
use model_lib.Outcome.{ok, undefined}
use model_lib.Nemu.Config.{in_pmem, msize, mbase}
use model_lib.Nemu.Pattern.{codes, Pattern, pattern_decode, matches}
use model_lib.Nemu.Pattern.Fits.{fits}
use model_lib.Nemu.Pattern.Laws.{matches-pattern_decode}
use model_lib.Nemu.Io.{Callback, IoMap, Skip, new_space, add_mmio_map, overlaps}
use model_lib.Nemu.Io.Maps.{IsApart, add_mmio_map-IsApart}
use model_lib.Nemu.Paddr.{Mem, paddr_read, paddr_write}
use model_lib.Nemu.Paddr.Laws.{IsInMemory, paddr_read-paddr_write, paddr_read_past_end}
use model_lib.Nemu.Keyboard.{init_keys}
use model_lib.Nemu.Keyboard.Queue.{KeyOp, press, read, replies}
use model_lib.Nemu.Keyboard.Refine.{contents, run_keys, run_keys-replies, init_keys-IsValid}
use model_lib.Nemu.Io.{Space, map_read}
use model_lib.Base.{◌/◌}
use model_lib.Nemu.Ports.{rtc_io_handler, serial_io_handler}
use model_lib.Nemu.Ports.Access.{rtc-map_read}

-- The pattern of `add`, as pattern_decode computes it.
abbrev add_text : List ℕ
add_text = codes "0000000 ????? ????? 000 ????? 01100 11"

abbrev add_pattern : Pattern
add_pattern = record { key = 0x33; mask = 0xfe00707f; shift = 0 }

pattern_decode-add : pattern_decode add_text ≡ some add_pattern
unfolding pattern_decode
pattern_decode-add = refl

matches-pattern_decode_example : matches add_pattern 0x0031_00b3 ≡ fits add_text 0x0031_00b3
matches-pattern_decode_example =
    matches-pattern_decode add_text add_pattern 0x0031_00b3 pattern_decode-add

abbrev none_callback : Option (Callback ℕ)
none_callback = none

abbrev serial : IoMap ℕ
serial = record { name = "serial"; low = 0xa00003f8; high = 0xa00003ff; space = 0; callback = none }

abbrev rtc : IoMap ℕ
rtc = record { name = "rtc"; low = 0xa0000048; high = 0xa000004f; space = 4096; callback = none }

serial-IsApart : IsApart (serial ∷ [])
serial-IsApart = record {
  single = λ a. ground arith;
  outside = λ a p q. ground arith;
  room = omega arith;
}

add_mmio_map-rtc :
    add_mmio_map (serial ∷ []) "rtc" 0xa0000048 4096 8 none_callback ≡ ok (serial ∷ rtc ∷ [])
unfolding add_mmio_map overlaps in_pmem
add_mmio_map-rtc = refl

add_mmio_map-IsApart_example : IsApart (serial ∷ rtc ∷ [])
add_mmio_map-IsApart_example =
    add_mmio_map-IsApart (serial ∷ []) (serial ∷ rtc ∷ []) "rtc" 0xa0000048 4096 8 none_callback
      (omega arith) (omega arith) (omega arith) serial-IsApart add_mmio_map-rtc

abbrev no_skip : Skip
no_skip = record { is_skip_ref = false; skip_dut_nr_inst = 0 }

new_space-page : new_space 4096 5000 ≡ ok (4096, 12288)
unfolding new_space
new_space-page = refl

abbrev memory : Mem ℕ
memory = record {
  pmem = λ i. i % 256;
  maps = serial ∷ [];
  space = record { bytes = λ i. 0; dev = 0 };
  skip = no_skip;
}

abbrev in_memory : (a : ℕ) → mbase ≤ a → a + 4 ≤ mbase + msize → IsInMemory a 4
in_memory a low high = record { legal = refl; above = low; below = high }

paddr_read-paddr_write_example :
    (s' : Mem ℕ) × (paddr_write 0x8000_0010 4 0x1_2345_6789 memory ≡ ok s')
    × (paddr_read 0x8000_0010 4 s' ≡ ok (0x1_2345_6789 % 2 ^ (8 * 4), s'))
    × ((x : ℕ) × (paddr_read 0x8000_0014 4 memory ≡ ok (x, memory))
        × (paddr_read 0x8000_0014 4 s' ≡ ok (x, s')))
paddr_read-paddr_write_example =
    paddr_read-paddr_write 0x8000_0010 4 0x1_2345_6789 0x8000_0014 4 memory
      (in_memory 0x8000_0010 (omega arith) (omega arith))
      (in_memory 0x8000_0014 (omega arith) (omega arith)) (inl (omega arith))

outside-in_pmem : in_pmem 0x1000 ≡ false
unfolding in_pmem
outside-in_pmem = refl

-- Four bytes from the last but one.
paddr_read_past_end_example : paddr_read 0x87ff_fffe 4 memory ≡ undefined
paddr_read_past_end_example =
    paddr_read_past_end 0x87ff_fffe 4 memory refl (omega arith) (omega arith) (omega arith)

abbrev key_ops : List KeyOp
key_ops = press 30 ∷ press 31 ∷ read ∷ read ∷ read ∷ []

run_keys-replies_example : run_keys key_ops init_keys ≡ replies key_ops (contents init_keys)
run_keys-replies_example = run_keys-replies key_ops init_keys init_keys-IsValid

abbrev keymap : ℕ → ℕ
keymap scancode = scancode + 1

-- A clock that shows its reading and goes on by one, behind the region of `rtc`.
abbrev ticking : ℕ → ℕ × ℕ
ticking d = (d, d + 1)

abbrev clock : IoMap ℕ
clock = record rtc { callback = some (rtc_io_handler ticking rtc.space) }

abbrev at_time : Space ℕ
at_time = record { bytes = λ i. 0; dev = 0x5_0000_0007 }

rtc-map_read_example :
    (s2 : Space ℕ) × (map_read (clock.low + 4) 4 (some clock) at_time
      ≡ ok ((ticking at_time.dev).0 / 2 ^ 32, s2))
    × (map_read (clock.low + 0) 4 (some clock) s2 ≡ ok ((ticking at_time.dev).0 % 2 ^ 32, s2))
rtc-map_read_example = rtc-map_read ticking clock at_time refl refl (omega arith) (omega arith)

-- A port whose state is the last character printed.
abbrev last_printed : ℕ → ℕ → ℕ
last_printed c d = c

abbrev port : IoMap ℕ
port = record serial { callback = some (serial_io_handler last_printed serial.space) }
