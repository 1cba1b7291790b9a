-- ===== src/Nemu/X86/Address.antt =====
-- nemu/src/isa/x86/inst.c: the operand of a ModR/M byte. A register number of -1 is `none`.
pub mod Manual
pub mod Laws
pub mod Decode
use model_lib.Base.{
  ℕ, zero, suc, ◌+◌, ◌-◌, ◌*◌, ◌/◌, ◌%◌, ◌^◌, ◌≤◌, ◌<◌, min, bit_and, bit_or, bit_xor, ◌≡◌, refl,
  sym, ap, ap₂, ◌∙◌, ◌≢◌, ◌↔◌, ◌⊎◌, inl, inr, Bool, true, false, not, ◌&&◌, ◌||◌, Option, none,
  some, List, [], ◌∷◌, ◌++◌, map, reverse, arith, ltb, leb, ◌==◌, ◌!=◌, if◌then◌else◌, ltb→lt,
  lt→ltb, le→ltb, ==_iff, ==_refl, ==_of_ne, Bool-cases, Option-cases, length, get_elem?, get_or,
  set, take, replicate, length-append, length-set, length-replicate, get_or-set_self, get_or-set_ne,
  get_or-append_left, get_or-append_length,
}
use model_lib.Base.Words.{u8, u16, u32, u64, sub32, ◌<<<◌, ◌>>>◌}
use model_lib.Outcome.{Outcome, ok, panic, ◌>>=◌, ◌>>◌, check}
use model_lib.Nemu.Paddr.{Mem}
use model_lib.Nemu.Riscv32.{inst_fetch}
use model_lib.Nemu.X86.{Cpu, reg_l, r_esp, r_ebp}

-- The bit fields of `ModR_M` and of `SIB`.
pub record ModRm : Type 0 where
  pub rm : ℕ
  pub reg : ℕ
  pub mode : ℕ

abbrev pub mod_rm : ℕ → ModRm
mod_rm v = record { rm = v % 8; reg = v / 8 % 8; mode = v / 64 % 4 }

pub record Sib : Type 0 where
  pub base : ℕ
  pub index : ℕ
  pub ss : ℕ

abbrev pub sib : ℕ → Sib
sib v = record { base = v % 8; index = v / 8 % 8; ss = v / 64 % 4 }

-- base_reg, index_reg and scale.
pub record Scaled : Type 0 where
  pub base : Option ℕ
  pub index : Option ℕ
  pub scale : ℕ

abbrev pub scaled_of : Sib → Scaled
scaled_of s = record {
  base = some s.base;
  index = if s.index != r_esp then some s.index else none;
  scale = s.ss;
}

abbrev pub is_reg : ℕ → Option ℕ → Bool
is_reg r none = false
is_reg r (some i) = i == r

-- base_reg and disp_size after the tests of `mod`.
abbrev pub disp_of : ℕ → Option ℕ → Option ℕ × ℕ
disp_of mode base =
    if mode == 0
    then (if is_reg r_ebp base then (none, 4) else (base, 0))
    else (base, if mode == 1 then 1 else 4)

-- (int8_t)disp, as a word.
abbrev pub sext8 : ℕ → ℕ
sext8 d = if ltb (d % 256) 128 then d % 256 else d % 256 + 2 ^ 32 - 256

-- A register that is added if its number is not -1.
abbrev pub reg_or : Option ℕ → Cpu → Outcome ℕ
reg_or none c = ok 0
reg_or (some i) c = reg_l i c

module _ {D : Type 0} where
  -- The part up to `scale`: the SIB byte, if there is one.
  unfoldable pub read_sib : ModRm → ℕ → Mem D → Outcome (Scaled × ℕ × Mem D)
  read_sib m snpc s =
      if m.rm == r_esp
      then (do (v, snpc', s') ← inst_fetch snpc 1 s; ok (scaled_of (sib v), snpc', s'))
      else ok (record { base = some m.rm; index = none; scale = 0 }, snpc, s)

  unfoldable pub read_disp : ℕ → ℕ → Mem D → Outcome (ℕ × ℕ × Mem D)
  read_disp size snpc s =
      if size != 0
      then (do
        (d, snpc', s') ← inst_fetch snpc size s
        ok (if size == 1 then sext8 d else d, snpc', s'))
      else ok (0, snpc, s)

  -- The address, and the place behind the operand.
  unfoldable pub load_addr : ModRm → Cpu → ℕ → Mem D → Outcome (ℕ × ℕ × Mem D)
  load_addr m c snpc s = do
    check (m.mode != 3)
    (x, snpc1, s1) ← read_sib m snpc s
    let (base, size) = disp_of m.mode x.base
    (disp, snpc2, s2) ← read_disp size snpc1 s1
    b ← reg_or base c
    i ← reg_or x.index c
    ok (u32 (disp + b + i <<< x.scale), snpc2, s2)

  abbrev pub rm_operand : ModRm → Cpu → ℕ → Mem D → Outcome ((Option ℕ × ℕ × ℕ) × ℕ × Mem D)
  rm_operand m c snpc s =
      if m.mode == 3
      then ok ((some m.rm, 0, m.reg), snpc, s)
      else (do (addr, snpc', s') ← load_addr m c snpc s; ok ((none, addr, m.reg), snpc', s'))

  -- What decode_rm stores: rm_reg, rm_addr and reg; the address is 0 where it stores none.
  unfoldable pub decode_rm : Cpu → ℕ → Mem D → Outcome ((Option ℕ × ℕ × ℕ) × ℕ × Mem D)
  decode_rm c snpc s = do (v, snpc1, s1) ← inst_fetch snpc 1 s; rm_operand (mod_rm v) c snpc1 s1
