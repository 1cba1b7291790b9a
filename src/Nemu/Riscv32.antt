-- ===== src/Nemu/Riscv32.antt =====
-- nemu/src/isa/riscv32: the state of the processor, and one instruction of it.
pub mod Inst
pub mod Spec
pub mod Select
pub mod Operands
pub mod Fields
pub mod Exec
pub mod Manual
pub mod Keeps
pub mod Traps
use model_lib.Base.{
  ℕ, zero, suc, ◌+◌, ◌-◌, ◌*◌, ◌/◌, ◌%◌, ◌^◌, ◌≤◌, ◌<◌, min, bit_and, bit_or, bit_xor, ◌≡◌, refl,
  sym, ap, ap₂, ◌∙◌, ◌≢◌, ◌↔◌, ◌⊎◌, inl, inr, Bool, true, false, not, ◌&&◌, ◌||◌, Option, none,
  some, List, [], ◌∷◌, ◌++◌, map, reverse, arith, ltb, leb, ◌==◌, ◌!=◌, if◌then◌else◌, ltb→lt,
  lt→ltb, le→ltb, ==_iff, ==_refl, ==_of_ne, Bool-cases, Option-cases, length, get_elem?, get_or,
  set, take, replicate, length-append, length-set, length-replicate, get_or-set_self, get_or-set_ne,
  get_or-append_left, get_or-append_length,
}
use model_lib.Base.Words.{u8, u16, u32, u64, sub32, ◌<<<◌, ◌>>>◌}
use model_lib.Outcome.{Outcome, ok, panic, undefined, ◌>>=◌, ◌>>◌, check}
use model_lib.Nemu.State.{NemuState, RunState}
use model_lib.Nemu.Paddr.{Mem, vaddr_ifetch}
use model_lib.Nemu.Io.{Skip, difftest_skip_ref}

-- `riscv32_CPU_state`. The list holds 32 registers, or 16 under CONFIG_RVE.
pub record Cpu : Type 0 where
  pub gpr : List ℕ
  pub pc : ℕ

-- `Decode` with the instruction word of its `isa`.
pub record Decode : Type 0 where
  pub pc : ℕ
  pub snpc : ℕ
  pub dnpc : ℕ
  pub inst : ℕ

-- The globals that an instruction works on: `cpu`, the memory, `nemu_state`.
pub record Machine (D : Type 0) : Type 0 where
  pub cpu : Cpu
  pub mem : Mem D
  pub nemu : NemuState

-- `R(i)` read and written; check_reg_idx asserts the index (CONFIG_RT_CHECK is on).
unfoldable pub get_gpr : ℕ → Cpu → Outcome ℕ
get_gpr i c = do check (ltb i (length c.gpr)); ok (get_or c.gpr i 0)

unfoldable pub set_gpr : ℕ → ℕ → Cpu → Outcome Cpu
set_gpr i v c = do check (ltb i (length c.gpr)); ok (record c { gpr = set c.gpr i v })

module _ {D : Type 0} where
  -- inst_fetch of nemu/include/cpu/ifetch.h: the word, and the address after it.
  unfoldable pub inst_fetch : ℕ → ℕ → Mem D → Outcome (ℕ × ℕ × Mem D)
  unfolding vaddr_ifetch
  inst_fetch pc len s = do (inst, s') ← vaddr_ifetch pc len s; ok (inst, u32 (pc + len), s')

  -- set_nemu_state and invalid_inst of nemu/src/engine/interpreter/hostcall.c; the text that the
  -- latter prints is left out, the two fetches for it are not.
  unfoldable pub set_nemu_state : RunState → ℕ → ℕ → Machine D → Machine D
  unfolding difftest_skip_ref
  set_nemu_state state pc halt_ret m = record m {
    mem = record (m.mem) { skip = difftest_skip_ref m.mem.skip };
    nemu = record { state = state; halt_pc = pc; halt_ret = halt_ret };
  }

  unfoldable pub invalid_inst : ℕ → Machine D → Outcome (Machine D)
  unfolding inst_fetch set_nemu_state
  invalid_inst thispc m = do
    (first, pc1, mem1) ← inst_fetch thispc 4 m.mem
    (second, pc2, mem2) ← inst_fetch pc1 4 mem1
    ok (set_nemu_state RunState.abort thispc (2 ^ 32 - 1) (record m { mem = mem2 }))
