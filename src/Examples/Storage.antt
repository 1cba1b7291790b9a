-- ===== src/Examples/Storage.antt =====
-- Port I/O, the SD card, the alarms and the pool of watchpoints at concrete inputs.
use model_lib.Base.{ℕ, ◌%◌, ◌≡◌, refl, false, none, some, List, [], ◌∷◌, arith, length}
use model_lib.Outcome.{ok, ◌>>=◌}
use model_lib.Nemu.Io.{Space, IoMap, Skip, difftest_skip_ref, map_read, map_write, find_from}
use model_lib.Nemu.PortIo.{add_pio_map, pio_read, pio_write}
use model_lib.Nemu.PortIo.Access.{region, pio-add_pio_map}
use model_lib.Nemu.Sdcard.{File, Card, sdcard_io_handler}
use model_lib.Nemu.Sdcard.Access.{card, IsCard, send, write_words, read_words}
use model_lib.Nemu.Sdcard.Transfer.{read_words-write_words}
use model_lib.Nemu.Watchpoint.{init_wp_pool, chain}

abbrev uart : IoMap ℕ
uart = region "serial" 0x3f8 0 8 none

abbrev rtc_port : IoMap ℕ
rtc_port = region "rtc" 0x48 4096 8 none

abbrev idle : Skip
idle = record { is_skip_ref = false; skip_dut_nr_inst = 0 }

abbrev quiet : Space ℕ
quiet = record { bytes = λ i. i % 256; dev = 0 }

added : add_pio_map (uart ∷ []) "rtc" 0x48 4096 8 none ≡ ok (uart ∷ rtc_port ∷ [])
unfolding add_pio_map
added = refl

not_uart : find_from (uart ∷ []) 0x4c 0 ≡ none
unfolding find_from model_lib.Nemu.Io.map_inside
not_uart = refl

pio-add_pio_map_example :
    (pio_read (uart ∷ rtc_port ∷ []) 0x4c 4 idle quiet
      ≡ (map_read 0x4c 4 (some rtc_port) quiet >>= λ r. ok (r.0, difftest_skip_ref idle, r.1)))
    × (pio_write (uart ∷ rtc_port ∷ []) 0x4c 4 7 idle quiet
        ≡ (map_write 0x4c 4 7 (some rtc_port) quiet >>= λ s1. ok (difftest_skip_ref idle, s1)))
pio-add_pio_map_example =
    pio-add_pio_map (uart ∷ []) (uart ∷ rtc_port ∷ []) "rtc" 0x48 4096 8 none 0x4c 4 idle added
      (omega arith) (omega arith) (omega arith) (omega arith) not_uart 7 quiet

abbrev sdhci : IoMap Card
sdhci = record {
  name = "sdhci";
  low = 0xa300_0000;
  high = 0xa300_007f;
  space = 8192;
  callback = some (sdcard_io_handler 8192);
}

sdhci-IsCard : IsCard sdhci
sdhci-IsCard = record { top = refl; called = refl; room = omega arith }

abbrev image : File
image = record { content = λ i. 0; size = 1048576; pos = 3 }

abbrev two_words : List ℕ
two_words = 0x1234_5678 ∷ 0xffff_ffff ∷ []

read_words-write_words_example :
    (s' : Space Card) × ((do
      s1 ← send sdhci 25 5 (card (λ i. 0) image 0 0 0 false)
      s2 ← write_words sdhci two_words s1
      s3 ← send sdhci 18 5 s2
      read_words sdhci (length two_words) s3)
      ≡ ok (two_words, s'))
read_words-write_words_example =
    read_words-write_words sdhci sdhci-IsCard two_words 5 (λ i. 0) image 0 0 0 false
      (omega arith, (omega arith, tt)) (omega arith)

-- The free list of the pool goes through all of its elements.
chain-init_wp_pool : ◌≡◌ {A = ℕ} (length (chain 33 init_wp_pool.wp_pool init_wp_pool.free)) 32
unfolding chain init_wp_pool model_lib.Nemu.Watchpoint.init_from
chain-init_wp_pool = refl
