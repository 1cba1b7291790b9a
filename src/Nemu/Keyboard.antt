-- ===== src/Nemu/Keyboard.antt =====
-- nemu/src/device/keyboard.c: the queue between the window's key events and the guest, and the
-- register that the guest reads it through. CONFIG_TARGET_AM is off.
pub mod Queue
pub mod Refine
use model_lib.Base.{
  ℕ, zero, suc, ◌+◌, ◌-◌, ◌*◌, ◌/◌, ◌%◌, ◌^◌, ◌≤◌, ◌<◌, min, bit_and, bit_or, bit_xor, ◌≡◌, refl,
  sym, ap, ap₂, ◌∙◌, ◌≢◌, ◌↔◌, ◌⊎◌, inl, inr, Bool, true, false, not, ◌&&◌, ◌||◌, Option, none,
  some, List, [], ◌∷◌, ◌++◌, map, reverse, arith, ltb, leb, ◌==◌, ◌!=◌, if◌then◌else◌, ltb→lt,
  lt→ltb, le→ltb, ==_iff, ==_refl, ==_of_ne, Bool-cases, Option-cases, length, get_elem?, get_or,
  set, take, replicate, length-append, length-set, length-replicate, get_or-set_self, get_or-set_ne,
  get_or-append_left, get_or-append_length,
}
use model_lib.Outcome.{Outcome, ok, panic, undefined, ◌>>=◌, ◌>>◌, check}
use model_lib.Nemu.State.{RunState}
use model_lib.Nemu.CpuExec.{is_running}
use model_lib.Nemu.Host.{store_le}
use model_lib.Nemu.Io.{Space}

pub record Keys : Type 0 where
  pub key_queue : List ℕ
  pub key_f : ℕ
  pub key_r : ℕ

abbrev pub key_queue_len : ℕ
key_queue_len = 1024

abbrev pub keydown_mask : ℕ
keydown_mask = 0x8000

-- NEMU_KEY_NONE is 0.
abbrev pub init_keys : Keys
init_keys = record { key_queue = replicate key_queue_len 0; key_f = 0; key_r = 0 }

unfoldable pub key_enqueue : ℕ → Keys → Outcome Keys
key_enqueue am_scancode k = do
  let key_r = (k.key_r + 1) % key_queue_len
  check (key_r != k.key_f)
  ok (record k { key_queue = set k.key_queue k.key_r am_scancode; key_r = key_r })

unfoldable pub key_dequeue : Keys → ℕ × Keys
key_dequeue k =
    if k.key_f != k.key_r
    then (get_or k.key_queue k.key_f 0, record k { key_f = (k.key_f + 1) % key_queue_len })
    else (0, k)

-- `keymap` is filled from the scancodes of SDL, which are no part of the source.
module _ (keymap : ℕ → ℕ) where
  unfoldable pub send_key : RunState → ℕ → Bool → Keys → Outcome Keys
  send_key state scancode is_keydown k =
      if is_running state && (keymap scancode != 0)
      then key_enqueue (bit_or (keymap scancode) (if is_keydown then keydown_mask else 0)) k
      else ok k

-- i8042_data_io_handler, for a register at offset `base` of `io_space`.
unfoldable pub i8042_data_io_handler : ℕ → ℕ → ℕ → Bool → Space Keys → Outcome (Space Keys)
i8042_data_io_handler base offset len is_write s = do
  check (not is_write)
  check (offset == 0)
  let (key, keys) = key_dequeue s.dev
  ok (record { bytes = store_le 4 s.bytes base key; dev = keys })
