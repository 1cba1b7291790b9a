-- ===== src/Nemu/X86.antt =====
-- nemu/src/isa/x86: the state of the processor and its registers. Each of the eight entries of
-- `gpr` has a field for each width, and eax to edi are fields of their own: nothing overlaps.
pub mod Address
pub mod Code
pub mod Inst
pub mod Select
pub mod RegTest
pub mod Prefixes
pub mod Mov
use model_lib.Base.{
  ℕ, zero, suc, ◌+◌, ◌-◌, ◌*◌, ◌/◌, ◌%◌, ◌^◌, ◌≤◌, ◌<◌, min, bit_and, bit_or, bit_xor, ◌≡◌, refl,
  sym, ap, ap₂, ◌∙◌, ◌≢◌, ◌↔◌, ◌⊎◌, inl, inr, Bool, true, false, not, ◌&&◌, ◌||◌, Option, none,
  some, List, [], ◌∷◌, ◌++◌, map, reverse, arith, ltb, leb, ◌==◌, ◌!=◌, if◌then◌else◌, ltb→lt,
  lt→ltb, le→ltb, ==_iff, ==_refl, ==_of_ne, Bool-cases, Option-cases, length, get_elem?, get_or,
  set, take, replicate, length-append, length-set, length-replicate, get_or-set_self, get_or-set_ne,
  get_or-append_left, get_or-append_length,
}
use model_lib.Base.Words.{u8, u16, u32, u64, sub32, ◌<<<◌, ◌>>>◌}
use model_lib.Outcome.{Outcome, ok, panic, ◌>>=◌, ◌>>◌, check}
use model_lib.Nemu.State.{NemuState, RunState}
use model_lib.Nemu.Paddr.{Mem}
use model_lib.Nemu.Io.{difftest_skip_ref}
use model_lib.Nemu.Riscv32.{inst_fetch}

-- `_32`, `_16` and the two bytes of `_8`.
pub record Gpr : Type 0 where
  pub long : ℕ
  pub word : ℕ
  pub byte0 : ℕ
  pub byte1 : ℕ

-- `x86_CPU_state`; `gpr` has 8 entries.
pub record Cpu : Type 0 where
  pub gpr : List Gpr
  pub eax : ℕ
  pub ecx : ℕ
  pub edx : ℕ
  pub ebx : ℕ
  pub esp : ℕ
  pub ebp : ℕ
  pub esi : ℕ
  pub edi : ℕ
  pub pc : ℕ

-- `Decode`; the bytes of the instruction are kept for traces alone.
pub record Decode : Type 0 where
  pub pc : ℕ
  pub snpc : ℕ
  pub dnpc : ℕ

-- The globals that an instruction works on: `cpu`, the memory, `nemu_state`.
pub record Machine (D : Type 0) : Type 0 where
  pub cpu : Cpu
  pub mem : Mem D
  pub nemu : NemuState

abbrev pub zero_gpr : Gpr
zero_gpr = record { long = 0; word = 0; byte0 = 0; byte1 = 0 }

abbrev pub entry : Cpu → ℕ → Gpr
entry c i = get_or c.gpr i zero_gpr

-- The values of the registers at their numbers: R_EAX, R_ESP, R_EBP.
abbrev pub r_eax : ℕ
r_eax = 0

abbrev pub r_esp : ℕ
r_esp = 4

abbrev pub r_ebp : ℕ
r_ebp = 5

-- reg_l, reg_w and reg_b read; check_reg_index asserts the index (CONFIG_RT_CHECK is on).
unfoldable pub reg_l : ℕ → Cpu → Outcome ℕ
reg_l i c = do check (ltb i 8); ok (entry c i).long

unfoldable pub reg_w : ℕ → Cpu → Outcome ℕ
reg_w i c = do check (ltb i 8); ok (entry c i).word

unfoldable pub reg_b : ℕ → Cpu → Outcome ℕ
reg_b i c = do
  check (ltb i 8)
  ok (if ltb i 4 then (entry c (i % 4)).byte0 else (entry c (i % 4)).byte1)

-- The same, written.
abbrev pub put : ℕ → Gpr → Cpu → Cpu
put i g c = record c { gpr = set c.gpr i g }

unfoldable pub set_reg_l : ℕ → ℕ → Cpu → Outcome Cpu
set_reg_l i v c = do check (ltb i 8); ok (put i (record (entry c i) { long = u32 v }) c)

unfoldable pub set_reg_w : ℕ → ℕ → Cpu → Outcome Cpu
set_reg_w i v c = do check (ltb i 8); ok (put i (record (entry c i) { word = u16 v }) c)

unfoldable pub set_reg_b : ℕ → ℕ → Cpu → Outcome Cpu
set_reg_b i v c = do
  check (ltb i 8)
  ok (
      put (i % 4)
        (if ltb i 4
          then record (entry c (i % 4)) { byte0 = u8 v }
          else record (entry c (i % 4)) { byte1 = u8 v })
        c)

unfoldable pub reg_read : ℕ → ℕ → Cpu → Outcome ℕ
unfolding reg_l reg_w reg_b
reg_read idx width c =
    if width == 4
    then reg_l idx c
    else if width == 1
    then reg_b idx c
    else if width == 2
    then reg_w idx c
    else panic

unfoldable pub reg_write : ℕ → ℕ → ℕ → Cpu → Outcome Cpu
unfolding set_reg_l set_reg_w set_reg_b
reg_write idx width v c =
    if width == 4
    then set_reg_l idx v c
    else if width == 1
    then set_reg_b idx v c
    else if width == 2
    then set_reg_w idx v c
    else panic

module _ {D : Type 0} where
  -- set_nemu_state and invalid_inst, as for the other processors.
  unfoldable pub set_nemu_state : RunState → ℕ → ℕ → Machine D → Machine D
  unfolding difftest_skip_ref
  set_nemu_state state pc halt_ret m = record m {
    mem = record (m.mem) { skip = difftest_skip_ref m.mem.skip };
    nemu = record { state = state; halt_pc = pc; halt_ret = halt_ret };
  }

  unfoldable pub invalid_inst : ℕ → Machine D → Outcome (Machine D)
  invalid_inst thispc m = do
    (first, pc1, mem1) ← inst_fetch thispc 4 m.mem
    (second, pc2, mem2) ← inst_fetch pc1 4 mem1
    ok (set_nemu_state RunState.abort thispc (2 ^ 32 - 1) (record m { mem = mem2 }))
