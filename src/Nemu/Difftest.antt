-- ===== src/Nemu/Difftest.antt =====
-- nemu/src/cpu/difftest/dut.c and nemu/src/isa/riscv32/difftest/dut.c: each instruction of the
-- emulator is compared with one of a reference, which is a shared object that is loaded at run
-- time and so a parameter here.
pub mod Agree
pub mod CatchUp
use model_lib.Base.{
  ℕ, zero, suc, ◌+◌, ◌-◌, ◌*◌, ◌/◌, ◌%◌, ◌^◌, ◌≤◌, ◌<◌, min, bit_and, bit_or, bit_xor, ◌≡◌, refl,
  sym, ap, ap₂, ◌∙◌, ◌≢◌, ◌↔◌, ◌⊎◌, inl, inr, Bool, true, false, not, ◌&&◌, ◌||◌, Option, none,
  some, List, [], ◌∷◌, ◌++◌, map, reverse, arith, ltb, leb, ◌==◌, ◌!=◌, if◌then◌else◌, ltb→lt,
  lt→ltb, le→ltb, ==_iff, ==_refl, ==_of_ne, Bool-cases, Option-cases, length, get_elem?, get_or,
  set, take, replicate, length-append, length-set, length-replicate, get_or-set_self, get_or-set_ne,
  get_or-append_left, get_or-append_length,
}
use model_lib.Outcome.{Outcome, ok, panic, undefined, ◌>>=◌, ◌>>◌, check}
use model_lib.Nemu.State.{NemuState, RunState}
use model_lib.Nemu.Io.{Skip}
use model_lib.Nemu.Paddr.{Mem}
use model_lib.Nemu.Riscv32.{Cpu, Machine}

-- What the functions behind `ref_difftest_exec(1)` and `ref_difftest_regcpy` do.
pub record Reference (R : Type 0) : Type 0 where
  pub exec : R → R
  pub to_dut : R → Cpu
  pub to_ref : Cpu → R → R

-- difftest_check_reg, without its message.
unfoldable pub difftest_check_reg : ℕ → ℕ → Bool
difftest_check_reg ref dut = ref == dut

-- The loop of isa_difftest_checkregs from register `i` on, with the rounds that are left.
unfoldable pub check_gprs : ℕ → ℕ → List ℕ → List ℕ → Bool → Bool
unfolding difftest_check_reg
check_gprs zero i ref dut matched = matched
check_gprs (suc left) i ref dut matched =
    check_gprs left (i + 1) ref dut
      (matched && difftest_check_reg (get_or ref i 0) (get_or dut i 0))

unfoldable pub isa_difftest_checkregs : Cpu → Cpu → Bool
unfolding check_gprs difftest_check_reg
isa_difftest_checkregs ref cpu =
    check_gprs (length cpu.gpr) 0 ref.gpr cpu.gpr (difftest_check_reg ref.pc cpu.pc)

-- The loop of difftest_skip_dut, `while (nr_ref -- > 0)`.
unfoldable pub exec_times : {R : Type 0} → Reference R → ℕ → R → R
exec_times host zero r = r
exec_times host (suc n) r = exec_times host n (host.exec r)

-- The emulator beside its reference.
pub record Dut (D R : Type 0) : Type 0 where
  pub machine : Machine D
  pub ref : R

module _ {D R : Type 0} where
  abbrev pub skip_of : Dut D R → Skip
  skip_of d = d.machine.mem.skip

  abbrev pub with_skip : Skip → Dut D R → Dut D R
  with_skip s d = record d {
    machine = record (d.machine) { mem = record (d.machine.mem) { skip = s } };
  }

  unfoldable pub checkregs : Cpu → ℕ → Dut D R → Dut D R
  checkregs ref pc d = if isa_difftest_checkregs ref d.machine.cpu then d else record d {
    machine = record (d.machine) {
      nemu = record { state = RunState.abort; halt_pc = pc; halt_ret = d.machine.nemu.halt_ret };
    };
  }

  module _ (host : Reference R) where
    unfoldable pub difftest_skip_dut : ℕ → ℕ → Dut D R → Dut D R
    difftest_skip_dut nr_ref nr_dut d =
        record (with_skip
          (record (skip_of d) { skip_dut_nr_inst = (skip_of d).skip_dut_nr_inst + nr_dut }) d) {
            ref = exec_times host nr_ref d.ref;
          }

    -- The part of difftest_step that waits until the emulator has caught up with the reference.
    unfoldable pub catch_up : ℕ → Dut D R → Outcome (Dut D R)
    catch_up npc d =
        let ref = host.to_dut d.ref in
        let skip = skip_of d in
        if ref.pc == npc
        then ok (checkregs ref npc (with_skip (record skip { skip_dut_nr_inst = 0 }) d))
        else (do
          let d' = with_skip (record skip { skip_dut_nr_inst = skip.skip_dut_nr_inst - 1 }) d
          check (skip.skip_dut_nr_inst - 1 != 0)
          ok d')

    -- The part that copies the registers to the reference in place of a check.
    unfoldable pub skip_check : Dut D R → Dut D R
    skip_check d = record (with_skip (record (skip_of d) { is_skip_ref = false }) d) {
      ref = host.to_ref d.machine.cpu d.ref;
    }

    unfoldable pub exec_and_check : ℕ → Dut D R → Dut D R
    exec_and_check pc d =
        let r = host.exec d.ref in checkregs (host.to_dut r) pc (record d { ref = r })

    unfoldable pub difftest_step : ℕ → ℕ → Dut D R → Outcome (Dut D R)
    difftest_step pc npc d =
        if ltb 0 (skip_of d).skip_dut_nr_inst
        then catch_up npc d
        else if (skip_of d).is_skip_ref
        then ok (skip_check d)
        else ok (exec_and_check pc d)
