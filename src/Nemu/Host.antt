-- ===== src/Nemu/Host.antt =====
-- nemu/include/memory/host.h: reads and writes of 1, 2 or 4 bytes of an array of the host, which
-- is little-endian. CONFIG_ISA64 is off, CONFIG_RT_CHECK is on.
pub mod Laws
use model_lib.Base.Memory.{Bytes, update}
use model_lib.Base.{
  ℕ, zero, suc, ◌+◌, ◌-◌, ◌*◌, ◌/◌, ◌%◌, ◌^◌, ◌≤◌, ◌<◌, min, bit_and, bit_or, bit_xor, ◌≡◌, refl,
  sym, ap, ap₂, ◌∙◌, ◌≢◌, ◌↔◌, ◌⊎◌, inl, inr, Bool, true, false, not, ◌&&◌, ◌||◌, Option, none,
  some, List, [], ◌∷◌, ◌++◌, map, reverse, arith, ltb, leb, ◌==◌, ◌!=◌, if◌then◌else◌, ltb→lt,
  lt→ltb, le→ltb, ==_iff, ==_refl, ==_of_ne, Bool-cases, Option-cases, length, get_elem?, get_or,
  set, take, replicate, length-append, length-set, length-replicate, get_or-set_self, get_or-set_ne,
  get_or-append_left, get_or-append_length,
}
use model_lib.Outcome.{Outcome, ok, panic, undefined, ◌>>=◌, ◌>>◌, inside}

-- The bytes of an array by their offset.
-- `*(uintN_t *)addr` for N = 8 * n.
unfoldable pub load_le : ℕ → Bytes → ℕ → ℕ
load_le zero m a = 0
load_le (suc n) m a = m a + 256 * load_le n m (a + 1)

-- `*(uintN_t *)addr = data`, which cuts `data` to N bits.
unfoldable pub store_le : ℕ → Bytes → ℕ → ℕ → Bytes
unfolding update
store_le zero m a v = m
store_le (suc n) m a v = store_le n (update m a (v % 256)) (a + 1) (v / 256)

abbrev pub legal_len : ℕ → Bool
legal_len len = len == 1 || len == 2 || len == 4

-- `addr` is the offset in an array of `size` bytes; another length meets `default: assert(0)`.
unfoldable pub host_read : ℕ → Bytes → ℕ → ℕ → Outcome ℕ
unfolding load_le
host_read size m addr len =
    if legal_len len then (do inside (leb (addr + len) size); ok (load_le len m addr)) else panic

unfoldable pub host_write : ℕ → Bytes → ℕ → ℕ → ℕ → Outcome Bytes
unfolding store_le
host_write size m addr len v =
    if legal_len len then (do inside (leb (addr + len) size); ok (store_le len m addr v)) else panic
