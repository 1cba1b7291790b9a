-- ===== src/QemuDiff.antt =====
-- nemu/tools/qemu-diff/src: gdb-host.c and diff-test.c, the reference of the difference test that
-- runs QEMU. protocol.c, which sends and receives packets, is a copy of a library.
pub mod Pieces
use model_lib.Base.{
  ℕ, zero, suc, ◌+◌, ◌-◌, ◌*◌, ◌/◌, ◌%◌, ◌^◌, ◌≤◌, ◌<◌, min, bit_and, bit_or, bit_xor, ◌≡◌, refl,
  sym, ap, ap₂, ◌∙◌, ◌≢◌, ◌↔◌, ◌⊎◌, inl, inr, Bool, true, false, not, ◌&&◌, ◌||◌, Option, none,
  some, List, [], ◌∷◌, ◌++◌, map, reverse, arith, ltb, leb, ◌==◌, ◌!=◌, if◌then◌else◌, ltb→lt,
  lt→ltb, le→ltb, ==_iff, ==_refl, ==_of_ne, Bool-cases, Option-cases, length, get_elem?, get_or,
  set, take, replicate, length-append, length-set, length-replicate, get_or-set_self, get_or-set_ne,
  get_or-append_left, get_or-append_length,
}
use model_lib.Base.Words.{u8, u16, u32, u64, sub32, ◌<<<◌, ◌>>>◌}
use model_lib.Outcome.{Outcome, ok, panic, undefined, ◌>>=◌, ◌>>◌, check}

-- What gdb-host.c takes from protocol.c and from the C library: a packet sent and its reply
-- (gdb_send, then gdb_recv) on the state C of the connection, hex_encode, gdb_decode_hex_str, and
-- the characters that "%x" prints.
pub record Protocol (C : Type 0) : Type 0 where
  pub exchange : List ℕ → C → List ℕ × C
  pub hex_encode : ℕ → ℕ
  pub decode_hex_str : List ℕ → ℕ
  pub hex : ℕ → List ℕ

abbrev pub is_ok : List ℕ → Bool
is_ok reply = length reply == 2 && get_or reply 0 0 == b'O' && get_or reply 1 0 == b'K'

abbrev pub mtu : ℕ
mtu = 1500

abbrev pub drop : ℕ → List ℕ → List ℕ
drop zero xs = xs
drop (suc n) [] = []
drop (suc n) (x ∷ xs) = drop n xs

module _ {C : Type 0} (p : Protocol C) where
  -- The two characters of each byte.
  abbrev pub encode_bytes : List ℕ → List ℕ
  encode_bytes [] = []
  encode_bytes (b ∷ bs) = p.hex_encode (b / 16) ∷ p.hex_encode (bit_and b 15) ∷ encode_bytes bs

  -- "M0x%x,%x:" with the bytes behind it.
  abbrev pub write_command : ℕ → List ℕ → List ℕ
  write_command dest src =
      b'M' ∷ b'0' ∷ b'x' ∷ p.hex dest ++ (b',' ∷ p.hex (length src) ++ (b':' ∷ encode_bytes src))

  unfoldable pub gdb_memcpy_to_qemu_small : ℕ → List ℕ → C → Bool × C
  gdb_memcpy_to_qemu_small dest src c =
      let (reply, c') = p.exchange (write_command dest src) c in (is_ok reply, c')

  -- The loop, with the bytes that are left; the first number bounds its rounds, and `none` is that
  -- it did not suffice.
  unfoldable pub memcpy_loop : ℕ → ℕ → List ℕ → Bool → C → Option (Bool × C)
  memcpy_loop zero dest src so_far c = none
  memcpy_loop (suc fuel) dest src so_far c =
      let (sent, c') =
        gdb_memcpy_to_qemu_small dest (if ltb mtu (length src) then take mtu src else src) c in
      let rest = memcpy_loop fuel (u32 (dest + mtu)) (drop mtu src) (so_far && sent) c' in
      if ltb mtu (length src) then rest else some (so_far && sent, c')

  -- `len` is an int: a length that does not fit is negative and has no block.
  unfoldable pub gdb_memcpy_to_qemu : ℕ → List ℕ → C → Outcome (Option (Bool × C))
  gdb_memcpy_to_qemu dest src c =
      if ltb (length src) (2 ^ 31)
      then ok (memcpy_loop (suc (length src)) dest src true c)
      else undefined

  -- The words of the reply to "g", of which there are `n`; p[8] is set to NUL for each call.
  abbrev pub decode_regs : ℕ → List ℕ → List ℕ
  decode_regs zero reply = []
  decode_regs (suc n) reply = p.decode_hex_str (take 8 reply) ∷ decode_regs n (drop 8 reply)

  abbrev pub gdb_getregs : ℕ → C → List ℕ × C
  gdb_getregs n c = let (reply, c') = p.exchange (b'g' ∷ []) c in (decode_regs n reply, c')

  -- The bytes of the words in memory.
  abbrev pub bytes_of_words : List ℕ → List ℕ
  bytes_of_words [] = []
  bytes_of_words (w ∷ ws) =
      w % 256 ∷ w / 256 % 256 ∷ w / 65536 % 256 ∷ w / 16777216 % 256 ∷ bytes_of_words ws

  abbrev pub gdb_setregs : List ℕ → C → Bool × C
  gdb_setregs regs c =
      let (reply, c') = p.exchange (b'G' ∷ encode_bytes (bytes_of_words regs)) c in
      (is_ok reply, c')

  -- "vCont;s:1"
  abbrev pub gdb_si : C → C
  gdb_si c = (p.exchange (b'v' ∷ b'C' ∷ b'o' ∷ b'n' ∷ b't' ∷ b';' ∷ b's' ∷ b':' ∷ b'1' ∷ []) c).1

  -- diff-test.c; `true` is DIFFTEST_TO_REF. Running out of rounds does not occur.
  abbrev pub difftest_memcpy : ℕ → List ℕ → Bool → C → Outcome C
  difftest_memcpy addr buf to_ref c = do
    check to_ref
    r ← gdb_memcpy_to_qemu addr buf c
    elim r [ none ↦ panic | some t ↦ (do check t.0; ok t.1) ]

  -- The registers of QEMU are `n` words, of which the first ones are those of the emulator.
  abbrev pub difftest_regcpy : ℕ → List ℕ → Bool → C → List ℕ × C
  difftest_regcpy n dut to_ref c =
      let (regs, c1) = gdb_getregs n c in
      if to_ref
      then (dut, (gdb_setregs (dut ++ drop (length dut) regs) c1).1)
      else (take (length dut) regs, c1)

  abbrev pub difftest_exec : ℕ → C → C
  difftest_exec zero c = c
  difftest_exec (suc n) c = difftest_exec n (gdb_si c)
