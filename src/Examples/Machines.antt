-- ===== src/Examples/Machines.antt =====
-- The processor, the difference test and the loop at concrete inputs.
use model_lib.Base.{
  ℕ, ◌+◌, ◌-◌, ◌^◌, ◌≤◌, ◌≡◌, refl, ◌⊎◌, true, false, not, some, List, [], ◌∷◌, arith, ◌==◌,
  if◌then◌else◌, length, get_or, replicate,
}
use model_lib.Base.Memory.{Bytes}
use model_lib.Outcome.{ok, ◌>>=◌}
use model_lib.Nemu.Config.{in_pmem}
use model_lib.Nemu.State.{RunState, running, stop, nemu_state, is_exit_status_bad}
use model_lib.Nemu.Host.{host_read}
use model_lib.Nemu.Paddr.{paddr_read}
use model_lib.Nemu.Riscv32.{
  Cpu, Decode, Machine, inst_fetch, invalid_inst, set_nemu_state, get_gpr, set_gpr,
}
use model_lib.Nemu.Pattern.{pattern_decode, matches}
use model_lib.Nemu.Riscv32.Inst.{
  select, inst_pats, run_pat, decode_operand, execute_body, reset_zero, write_rd, decode_exec,
  isa_exec_once,
}
use model_lib.Nemu.Riscv32.Select.{op_of, select_lem}
use model_lib.Nemu.Riscv32.Spec.{Instr, step, assigned}
use model_lib.Nemu.Riscv32.Exec.{IsReady, returned}
use model_lib.Nemu.Riscv32.Manual.{fetched, decode_exec-encode}
use model_lib.Nemu.Riscv32.Keeps.{decode_exec-keeps}
use model_lib.Nemu.Riscv32.Traps.{ebreak-exit_status}
use model_lib.Nemu.Difftest.{
  exec_and_check, checkregs, skip_check, Reference, Dut, isa_difftest_checkregs, difftest_step,
}
use model_lib.Nemu.Difftest.Agree.{InStep, difftest_step_sound}
use model_lib.Nemu.CpuExec.{
  start_from, exec_round, exec_once, device_update, handle_events, after_execute, Tick, Emu, Host,
  is_running, state_of, with_state, execute, cpu_exec,
}
use model_lib.Nemu.CpuExec.Run.{cpu_exec-stops, executed, execute-count}

select_lem_example : select inst_pats 0x0031_00b3 ≡ ok (some (op_of 0x0031_00b3))
select_lem_example = select_lem 0x0031_00b3 (omega arith)

-- A machine at the start of the memory, in which the word of `ebreak` stands and then zeros.
abbrev program : Bytes
program i = if i == 0 then 0x73 else (if i == 2 then 0x10 else 0)

abbrev start : Machine ℕ
start = record {
  cpu = record { gpr = replicate 32 0; pc = 0x8000_0000 };
  mem = record {
    pmem = program;
    maps = [];
    space = record { bytes = λ i. 0; dev = 0 };
    skip = record { is_skip_ref = false; skip_dut_nr_inst = 0 };
  };
  nemu = nemu_state;
}

start-IsReady : IsReady start
start-IsReady = record { zero_reg = refl; some_reg = omega arith; few_regs = omega arith }

-- addi a0, zero, 5
abbrev addi_a0 : Instr
addi_a0 = Instr.addi 10 0 5

abbrev at_addi : Decode
at_addi = fetched addi_a0 0x8000_0000 0

decode_exec-encode_example :
    decode_exec at_addi start ≡ (step addi_a0 0x8000_0000 start >>= returned at_addi)
decode_exec-encode_example =
    decode_exec-encode addi_a0 0x8000_0000 0 start start-IsReady
      (omega arith, omega arith, omega arith)

abbrev after_addi : Machine ℕ
after_addi = assigned 10 5 start

decode_exec-addi :
    decode_exec at_addi start ≡ ok (record at_addi { dnpc = 0x8000_0004 }, after_addi)
decode_exec-addi =
    decode_exec-encode addi_a0 0x8000_0000 0 start start-IsReady
      (omega arith, omega arith, omega arith)

decode_exec-keeps_example :
    (get_or after_addi.cpu.gpr 0 0 ≡ 0)
    × (length after_addi.cpu.gpr ≡ length start.cpu.gpr)
    × (at_addi.pc ≡ at_addi.pc)
    × (at_addi.snpc ≡ at_addi.snpc)
    × (at_addi.inst ≡ at_addi.inst)
decode_exec-keeps_example =
    decode_exec-keeps at_addi (record at_addi { dnpc = 0x8000_0004 }) start after_addi
      decode_exec-addi

-- The word of a trap, fetched at the start.
abbrev at_word : ℕ → Decode
at_word i = record { pc = 0x8000_0000; snpc = 0x8000_0004; dnpc = 0; inst = i }

abbrev trapped : RunState → ℕ → Machine ℕ
trapped state ret = record start {
  mem = record (start.mem) { skip = record { is_skip_ref = true; skip_dut_nr_inst = 0 } };
  nemu = record { state = state; halt_pc = 0x8000_0000; halt_ret = ret };
}

decode_exec-ebreak :
    decode_exec (at_word 0x0010_0073) start
    ≡ ok (record (at_word 0x0010_0073) { dnpc = 0x8000_0004 }, trapped RunState.end 0)
unfolding decode_exec select pattern_decode matches run_pat decode_operand execute_body get_gpr
    reset_zero write_rd set_gpr set_nemu_state
decode_exec-ebreak = refl

ebreak-exit_status_example :
    ((trapped RunState.end 0).nemu.state ≡ RunState.end)
    × ((trapped RunState.end 0).nemu.halt_pc ≡ (at_word 0x0010_0073).pc)
    × (is_exit_status_bad (trapped RunState.end 0).nemu ≡ not (get_or start.cpu.gpr 10 0 == 0))
ebreak-exit_status_example =
    ebreak-exit_status (at_word 0x0010_0073) (record (at_word 0x0010_0073) { dnpc = 0x8000_0004 })
      start (trapped RunState.end 0) refl decode_exec-ebreak

decode_exec-inv :
    decode_exec (at_word 0) start
    ≡ ok (record (at_word 0) { dnpc = 0x8000_0004 }, trapped RunState.abort (2 ^ 32 - 1))
unfolding decode_exec select pattern_decode matches run_pat decode_operand execute_body get_gpr
    reset_zero write_rd set_gpr set_nemu_state invalid_inst paddr_read in_pmem host_read
decode_exec-inv = refl

abbrev cpu_at : ℕ → Cpu
cpu_at pc = record { gpr = replicate 32 0; pc = pc }

-- A reference of 32 registers that goes to the next word.
abbrev next_word : Reference Cpu
next_word = record {
  exec = λ r. record r { pc = r.pc + 4 };
  to_dut = λ r. if length r.gpr == 32 then r else cpu_at 0;
  to_ref = λ c r. c;
}

next_word-copies : (c r : Cpu) → length c.gpr ≡ 32 → next_word.to_dut (next_word.to_ref c r) ≡ c
next_word-copies c r h = rw h refl

next_word-length : (r : Cpu) → length (next_word.to_dut r).gpr ≡ 32
next_word-length r = ground arith

-- The emulator has executed one word; the reference, which is about to, stands at `pc`.
abbrev beside : ℕ → Dut ℕ Cpu
beside pc = record { machine = record start { cpu = cpu_at 0x8000_0004 }; ref = cpu_at pc }

-- The reference goes somewhere else, and the emulator is aborted.
abbrev caught : Dut ℕ Cpu
caught = record {
  machine = record (beside 0x8000_0010).machine {
    nemu = record { state = RunState.abort; halt_pc = 0x8000_0000; halt_ret = 0 };
  };
  ref = cpu_at 0x8000_0014;
}

difftest_step-caught :
    difftest_step next_word 0x8000_0000 0x8000_0004 (beside 0x8000_0010) ≡ ok caught
unfolding difftest_step exec_and_check checkregs isa_difftest_checkregs
difftest_step-caught = refl

difftest_step_sound_example :
    (InStep next_word caught ⊎ (caught.machine.nemu.state ≡ RunState.abort))
    × (caught.machine.cpu ≡ (beside 0x8000_0010).machine.cpu)
difftest_step_sound_example =
    difftest_step_sound next_word 0x8000_0000 0x8000_0004 (beside 0x8000_0010) caught
      next_word-copies next_word-length refl difftest_step-caught

abbrev two_calls : List (ℕ × ℕ)
two_calls = (0x8000_0000, 0x8000_0004) ∷ (0x8000_0004, 0x8000_0008) ∷ []

-- The program of one `ebreak`, run for at most five instructions.
abbrev host : Host ℕ Cpu
host = record { reference = next_word; send_key = λ s k b space. ok space }

abbrev calm : ℕ → Tick
calm k = record { now = 0; events = [] }

abbrev fresh : Emu ℕ Cpu
fresh = record {
  dut = record { machine = start; ref = cpu_at 0x8000_0000 };
  g_nr_guest_inst = 0;
  last = 0;
}

abbrev ended : Emu ℕ Cpu
ended = record {
  dut = record {
    machine = record start {
      cpu = cpu_at 0x8000_0004;
      nemu = record { state = RunState.end; halt_pc = 0x8000_0000; halt_ret = 0 };
    };
    ref = cpu_at 0x8000_0004;
  };
  g_nr_guest_inst = 1;
  last = 0;
}

cpu_exec-ebreak : cpu_exec host 5 calm fresh ≡ ok ended
unfolding cpu_exec start_from execute exec_round exec_once isa_exec_once inst_fetch paddr_read
    in_pmem host_read decode_exec select pattern_decode matches run_pat decode_operand execute_body
    get_gpr after_execute device_update handle_events difftest_step skip_check reset_zero write_rd
    set_gpr set_nemu_state
cpu_exec-ebreak = refl

cpu_exec-stops_example :
    (is_running (state_of ended) ≡ false)
    × ((ended ≡ fresh) ⊎ ((state_of fresh ≡ running) ⊎ (state_of fresh ≡ stop)))
cpu_exec-stops_example = cpu_exec-stops host 5 calm fresh ended cpu_exec-ebreak

execute-ebreak : execute host 5 0 calm (with_state running fresh) ≡ ok ended
unfolding execute exec_round exec_once isa_exec_once inst_fetch paddr_read in_pmem host_read
    decode_exec select pattern_decode matches run_pat decode_operand execute_body get_gpr
    device_update handle_events difftest_step skip_check reset_zero write_rd set_gpr set_nemu_state
execute-ebreak = refl

execute-count_example :
    (ended.g_nr_guest_inst ≡ 0 + executed host 5 0 calm (with_state running fresh))
    × (executed host 5 0 calm (with_state running fresh) ≤ 5)
    × ((executed host 5 0 calm (with_state running fresh) ≡ 5)
        ⊎ (is_running (state_of ended) ≡ false))
execute-count_example =
    execute-count host 5 0 calm (with_state running fresh) ended (omega arith) execute-ebreak
