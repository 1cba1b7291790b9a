-- ===== src/Nemu/Sdcard.antt =====
-- nemu/src/device/sdcard.c: the SD card, as the callback of its region. The numbers of the commands
-- are those of nemu/src/device/mmc.h. The image is a FILE of the C library.
pub mod Access
pub mod Transfer
use model_lib.Base.{
  ℕ, zero, suc, ◌+◌, ◌-◌, ◌*◌, ◌/◌, ◌%◌, ◌^◌, ◌≤◌, ◌<◌, min, bit_and, bit_or, bit_xor, ◌≡◌, refl,
  sym, ap, ap₂, ◌∙◌, ◌≢◌, ◌↔◌, ◌⊎◌, inl, inr, Bool, true, false, not, ◌&&◌, ◌||◌, Option, none,
  some, List, [], ◌∷◌, ◌++◌, map, reverse, arith, ltb, leb, ◌==◌, ◌!=◌, if◌then◌else◌, ltb→lt,
  lt→ltb, le→ltb, ==_iff, ==_refl, ==_of_ne, Bool-cases, Option-cases, length, get_elem?, get_or,
  set, take, replicate, length-append, length-set, length-replicate, get_or-set_self, get_or-set_ne,
  get_or-append_left, get_or-append_length,
}
use model_lib.Base.Words.{u8, u16, u32, u64, sub32, ◌<<<◌, ◌>>>◌}
use Prim.Native.String.{String}
use model_lib.Base.Memory.{Bytes}
use model_lib.Outcome.{Outcome, ok, panic, undefined, ◌>>=◌, ◌>>◌, check}
use model_lib.Nemu.Host.{load_le, store_le}
use model_lib.Nemu.Io.{Space, IoMap, Callback, new_space, add_mmio_map}

abbrev pub memory_size : ℕ
memory_size = 16 * 1024 * 1024 * 1024

abbrev pub read_bl_len : ℕ
read_bl_len = 15

abbrev pub block_len : ℕ
block_len = 2 ^ read_bl_len

abbrev pub nr_block : ℕ
nr_block = memory_size / block_len

abbrev pub c_size_mult : ℕ
c_size_mult = 7

abbrev pub mult : ℕ
mult = 2 ^ (c_size_mult + 2)

abbrev pub c_size : ℕ
c_size = nr_block / mult - 1

-- The numbers of the registers.
abbrev pub sdcmd : ℕ
sdcmd = 0

abbrev pub sdarg : ℕ
sdarg = 1

abbrev pub sdrsp0 : ℕ
sdrsp0 = 4

abbrev pub sdrsp1 : ℕ
sdrsp1 = 5

abbrev pub sdrsp2 : ℕ
sdrsp2 = 6

abbrev pub sdrsp3 : ℕ
sdrsp3 = 7

abbrev pub sddata : ℕ
sddata = 16

-- A file of the host, opened for update.
pub record File : Type 0 where
  pub content : Bytes
  pub size : ℕ
  pub pos : ℕ

-- The static variables.
pub record Card : Type 0 where
  pub fp : Option File
  pub blkcnt : ℕ
  pub blk_addr : ℕ
  pub addr : ℕ
  pub write_cmd : Bool
  pub read_ext_csd : Bool

abbrev pub seek : ℕ → File → File
seek offset f = record f { pos = offset }

-- One item of four bytes. At the end of the file none is read, and a part of one is indeterminate.
unfoldable pub read_item : Bytes → ℕ → File → Outcome (Bytes × File)
read_item bytes a f =
    if leb (f.pos + 4) f.size
    then ok (store_le 4 bytes a (load_le 4 f.content f.pos), record f { pos = f.pos + 4 })
    else (if leb f.size f.pos then ok (bytes, f) else undefined)

unfoldable pub write_item : Bytes → ℕ → File → File
write_item bytes a f = record f {
  content = store_le 4 f.content f.pos (load_le 4 bytes a);
  size = if ltb f.size (f.pos + 4) then f.pos + 4 else f.size;
  pos = f.pos + 4;
}

module _ (base : ℕ) where
  -- base[i], read and written.
  abbrev pub base_at : ℕ → Space Card → ℕ
  base_at i s = load_le 4 s.bytes (base + 4 * i)

  abbrev pub set_base : ℕ → ℕ → Space Card → Space Card
  set_base i v s = record s { bytes = store_le 4 s.bytes (base + 4 * i) v }

  abbrev pub set_card : Card → Space Card → Space Card
  set_card c s = record s { dev = c }

  unfoldable pub prepare_rw : Bool → Space Card → Space Card
  prepare_rw is_write s =
      let block = base_at sdarg s in
      set_card
        (record (s.dev) {
          blk_addr = block;
          addr = 0;
          fp = elim s.dev.fp [ none ↦ none | some f ↦ some (seek (block <<< 9) f) ];
          write_cmd = is_write;
        })
        s

  abbrev pub set_responses : ℕ → ℕ → ℕ → ℕ → Space Card → Space Card
  set_responses r0 r1 r2 r3 s =
      set_base sdrsp3 r3 (set_base sdrsp2 r2 (set_base sdrsp1 r1 (set_base sdrsp0 r0 s)))

  unfoldable pub sdcard_handle_cmd : ℕ → Space Card → Outcome (Space Card)
  sdcard_handle_cmd cmd s =
      if cmd == 0
      then ok s
      else if cmd == 1
      then ok (set_base sdrsp0 0x80ff_8000 s)
      else if cmd == 2
      then ok (set_responses 0x0000_0001 0x0000_0000 0x0000_0000 0x1500_0000 s)
      else if cmd == 52
      then ok s
      else if cmd == 9
      then ok (
          set_responses 0x9240_4001 (bit_or 0x124b_97e3 (u32 (bit_and c_size 0x3 <<< 30)))
            (bit_or (bit_or 0x0f50_8000 (c_size >>> 2)) (read_bl_len <<< 16)) 0x9026_012a s)
      else if cmd == 8
      then ok (set_card (record (s.dev) { read_ext_csd = true; addr = 0 }) s)
      else if cmd == 5 || cmd == 55 || cmd == 3 || cmd == 7
      then ok s
      else if cmd == 23
      then ok (set_card (record (s.dev) { blkcnt = bit_and (base_at sdarg s) 0xffff }) s)
      else if cmd == 18
      then ok (prepare_rw false s)
      else if cmd == 25
      then ok (prepare_rw true s)
      else if cmd == 13
      then ok (set_responses 0x900 0 0 0 s)
      else if cmd == 12
      then ok s
      else panic

  -- The case SDDATA.
  abbrev pub ext_csd : ℕ → ℕ
  ext_csd addr = if addr == 192 then 2 else (if addr == 212 then u32 (memory_size / 512) else 0)

  unfoldable pub transfer_data : Space Card → Outcome (Space Card)
  transfer_data s =
      if s.dev.read_ext_csd
      then (let s1 = set_base sddata (ext_csd s.dev.addr) s in
          ok (
            set_card
              (record (s.dev) { read_ext_csd = if s.dev.addr == 512 - 4 then false else true }) s1))
      else elim s.dev.fp [
        | none ↦ ok s
        | some f ↦
            if s.dev.write_cmd
            then ok (
                set_card (record (s.dev) { fp = some (write_item s.bytes (base + 4 * sddata) f) })
                  s)
            else (do
              (bytes, f1) ← read_item s.bytes (base + 4 * sddata) f
              ok (record { bytes = bytes; dev = record (s.dev) { fp = some f1 } }))
      ]

  unfoldable pub sdcard_io_handler : ℕ → ℕ → Bool → Space Card → Outcome (Space Card)
  sdcard_io_handler offset len is_write s =
      let idx = offset / 4 in
      if idx == sdcmd
      then sdcard_handle_cmd (bit_and (base_at sdcmd s) 0x3f) s
      else if idx == sdarg || leb sdrsp0 idx && leb idx sdrsp3
      then ok s
      else if idx == sddata
      then (do
        s1 ← transfer_data s
        ok (set_card (record (s1.dev) { addr = u32 (s1.dev.addr + 4) }) s1))
      else panic

-- init_sdcard: the space and the region, with the image if there is one. `ctl` is the address
-- CONFIG_SDCARD_CTL_MMIO.
unfoldable pub init_sdcard :
    ℕ → Option File → ℕ → List (IoMap Card) → Outcome (List (IoMap Card) × ℕ × Card)
init_sdcard ctl image p_space ms = do
  (base, p_space1) ← new_space p_space 0x80
  ms1 ← add_mmio_map ms "sdhci" ctl base 0x80 (some (sdcard_io_handler base))
  check (ltb c_size (2 ^ 12))
  ok (
    ms1,
    p_space1,
    record {
      fp = image;
      blkcnt = 0;
      blk_addr = 0;
      addr = 0;
      write_cmd = false;
      read_ext_csd = false;
    },
  )
