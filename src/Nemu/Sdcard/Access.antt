-- ===== src/Nemu/Sdcard/Access.antt =====
-- One access to a register of the card.
use model_lib.Base.{
  ℕ, zero, suc, ◌+◌, ◌-◌, ◌%◌, ◌^◌, ◌≤◌, ◌<◌, ◌≡◌, refl, ap, ◌∙◌, Bool, true, false, ◌&&◌, some,
  List, [], ◌∷◌, arith, leb, if◌then◌else◌,
}
use model_lib.Base.Words.{u32, ◌<<<◌}
use model_lib.Base.Memory.{Bytes}
use model_lib.Outcome.{Outcome, ok, ◌>>=◌}
use model_lib.Nemu.Config.{io_space_max}
use model_lib.Nemu.Host.{load_le, store_le, host_write}
use model_lib.Nemu.Host.Laws.{load_le-store_le, load_le_local, store_le_frame}
use model_lib.Nemu.Io.{Space, IoMap, check_bound, invoke_callback, map_read, map_write}
use model_lib.Nemu.Ports.Access.{map_read-inside, host_read-word}
use model_lib.Nemu.Sdcard.{
  File, Card, sdcard_io_handler, sdcard_handle_cmd, prepare_rw, transfer_data, read_item,
  write_item, seek,
}

-- A card with an image, that is not sending its EXT_CSD.
abbrev pub card : Bytes → File → ℕ → ℕ → ℕ → Bool → Space Card
card bytes f blkcnt blk_addr addr write_cmd = record {
  bytes = bytes;
  dev = record {
    fp = some f;
    blkcnt = blkcnt;
    blk_addr = blk_addr;
    addr = addr;
    write_cmd = write_cmd;
    read_ext_csd = false;
  };
}

-- The region of the card.
pub record IsCard (m : IoMap Card) : Type 0 where
  pub top : m.high ≡ m.low + 0x7f
  pub called : m.callback ≡ some (sdcard_io_handler m.space)
  pub room : m.space + 0x80 ≤ io_space_max

module _ (m : IoMap Card) where
  -- What a driver does: an argument and a command, words to SDDATA, words from SDDATA.
  abbrev pub send : ℕ → ℕ → Space Card → Outcome (Space Card)
  send cmd arg s = do
    s1 ← map_write (m.low + 4) 4 arg (some m) s
    map_write (m.low + 0) 4 cmd (some m) s1

  abbrev pub write_words : List ℕ → Space Card → Outcome (Space Card)
  write_words [] s = ok s
  write_words (w ∷ ws) s = do s1 ← map_write (m.low + 64) 4 w (some m) s; write_words ws s1

  abbrev pub read_words : ℕ → Space Card → Outcome (List ℕ × Space Card)
  read_words zero s = ok ([], s)
  read_words (suc n) s = do
    (w, s1) ← map_read (m.low + 64) 4 (some m) s
    (ws, s2) ← read_words n s1
    ok (w ∷ ws, s2)

  module _ (c : IsCard m) where
    map_write-inside :
        (s : Space Card) (off v : ℕ)
        → off + 4 ≤ 0x80
        → map_write (m.low + off) 4 v (some m) s
          ≡ sdcard_io_handler m.space off 4 true
              (record s { bytes = store_le 4 s.bytes (m.space + off) v })
    unfolding map_write check_bound invoke_callback host_write
    map_write-inside s off v h =
        let at : m.low + off - m.low ≡ off = omega arith in
        let bound : (leb (m.low + off) m.high && leb m.low (m.low + off)) ≡ true =
          ground (arith, c.top) in
        let fits : leb (m.space + off + 4) io_space_max ≡ true = ground (arith, c.room) in
        rw (bound, at, fits, c.called) refl

    pub put_lem :
        (bytes : Bytes) (f : File) (k b a w : ℕ)
        → w < 2 ^ 32
        → map_write (m.low + 64) 4 w (some m) (card bytes f k b a true)
          ≡ ok (
              card
                (store_le 4 bytes (m.space + 64) w)
                (write_item (store_le 4 bytes (m.space + 64) w) (m.space + 64) f)
                k
                b
                (u32 (a + 4))
                true)
    unfolding sdcard_io_handler transfer_data
    put_lem bytes f k b a w h = map_write-inside (card bytes f k b a true) 64 w (omega arith) ∙ refl

    pub get_lem :
        (bytes : Bytes) (f : File) (k b a w : ℕ)
        → f.pos + 4 ≤ f.size
        → load_le 4 f.content f.pos ≡ w
        → w < 2 ^ 32
        → map_read (m.low + 64) 4 (some m) (card bytes f k b a false)
          ≡ ok (
            w,
            card
                (store_le 4 bytes (m.space + 64) w)
                (record f { pos = f.pos + 4 })
                k
                b
                (u32 (a + 4))
                false,
          )
    unfolding sdcard_io_handler transfer_data read_item invoke_callback
    get_lem bytes f k b a w more at small =
        let more_b : leb (f.pos + 4) f.size ≡ true = ground arith in
        let back : load_le 4 (store_le 4 bytes (m.space + 64) w) (m.space + 64) ≡ w =
          omega (arith, load_le-store_le 4 bytes (m.space + 64) w) in
        map_read-inside m (card bytes f k b a false) 64 4 (omega (arith, c.top)) (omega arith)
          (omega arith)
        ∙ rw
            (
              c.called,
              more_b,
              at,
              host_read-word (store_le 4 bytes (m.space + 64) w) (m.space + 64)
                  (omega (arith, c.room)),
              back,
            )
            refl

    -- The command is stored below the argument.
    arg_kept :
        (bytes : Bytes) (arg cmd : ℕ)
        → load_le 4 bytes (m.space + 4) ≡ arg % 2 ^ 32
        → arg < 2 ^ 32
        → load_le 4 (store_le 4 bytes (m.space + 0) cmd) (m.space + 4) ≡ arg
    arg_kept bytes arg cmd e small =
        load_le_local 4 (store_le 4 bytes (m.space + 0) cmd) bytes (m.space + 4)
          (λ i p q. store_le_frame 4 bytes (m.space + 0) cmd i (ground arith))
        ∙ omega (arith, e)

    pub send_lem :
        (bytes : Bytes) (f : File) (k b a arg : ℕ) (old new : Bool)
        → arg < 2 ^ 32
        → (bytes' : Bytes) × (send (if new then 25 else 18) arg (card bytes f k b a old)
            ≡ ok (card bytes' (seek (arg <<< 9) f) k arg 0 new))
    unfolding sdcard_io_handler sdcard_handle_cmd prepare_rw
    send_lem bytes f k b a arg old true small =
        let with_arg = store_le 4 bytes (m.space + 4) arg in
        let with_cmd = store_le 4 with_arg (m.space + 0) 25 in
        let first : map_write (m.low + 4) 4 arg (some m) (card bytes f k b a old)
            ≡ ok (card with_arg f k b a old) =
          map_write-inside (card bytes f k b a old) 4 arg (omega arith) in
        let cmd_read : load_le 4 with_cmd (m.space + 0) ≡ 25 =
          load_le-store_le 4 with_arg (m.space + 0) 25 in
        let arg_read : load_le 4 with_cmd (m.space + 4) ≡ arg =
          arg_kept with_arg arg 25 (load_le-store_le 4 bytes (m.space + 4) arg) small in
        (
          with_cmd,
          rw (first, map_write-inside (card with_arg f k b a old) 0 25 (omega arith), cmd_read)
              (ap (λ (g : ℕ). ok (card with_cmd (seek (g <<< 9) f) k g 0 true)) arg_read),
        )
    send_lem bytes f k b a arg old false small =
        let with_arg = store_le 4 bytes (m.space + 4) arg in
        let with_cmd = store_le 4 with_arg (m.space + 0) 18 in
        let first : map_write (m.low + 4) 4 arg (some m) (card bytes f k b a old)
            ≡ ok (card with_arg f k b a old) =
          map_write-inside (card bytes f k b a old) 4 arg (omega arith) in
        let cmd_read : load_le 4 with_cmd (m.space + 0) ≡ 18 =
          load_le-store_le 4 with_arg (m.space + 0) 18 in
        let arg_read : load_le 4 with_cmd (m.space + 4) ≡ arg =
          arg_kept with_arg arg 18 (load_le-store_le 4 bytes (m.space + 4) arg) small in
        (
          with_cmd,
          rw (first, map_write-inside (card with_arg f k b a old) 0 18 (omega arith), cmd_read)
              (ap (λ (g : ℕ). ok (card with_cmd (seek (g <<< 9) f) k g 0 false)) arg_read),
        )
