-- ===== src/Examples/Isas.antt =====
-- The processors for MIPS and LoongArch, and the built-in programs, at concrete inputs.
use model_lib.Base.{
  ℕ, zero, suc, ◌+◌, ◌-◌, ◌*◌, ◌%◌, ◌^◌, ◌<◌, ◌≡◌, refl, false, some, List, [], ◌∷◌, arith, get_or,
  set, replicate,
}
use model_lib.Outcome.{Outcome, ok, ◌>>=◌}
use model_lib.Nemu.State.{NemuState, RunState, nemu_state}
use model_lib.Nemu.Riscv32.{
  Machine, Decode, inst_fetch, get_gpr, set_gpr, set_nemu_state, invalid_inst,
}
use model_lib.Base.Memory.{update}
use model_lib.Nemu.Config.{in_pmem, guest_to_host}
use model_lib.Nemu.Host.{load_le, store_le, host_read, host_write}
use model_lib.Nemu.Paddr.{
  pmem_read, pmem_write, paddr_read, paddr_write, vaddr_ifetch, vaddr_read, vaddr_write,
}
use model_lib.Nemu.Io.{difftest_skip_ref}
use model_lib.Nemu.Pattern.{Pattern, matches, pattern_decode}
use model_lib.Nemu.Pattern.Hex.{pattern_decode_hex}
use model_lib.Nemu.Pattern.Hex.Steps.{expand}
use model_lib.Nemu.Pattern.Hex.Rounds.{pattern_decode-expand}
use model_lib.Nemu.Pattern.Block.{select_line}
use model_lib.Nemu.Riscv32.Inst.{bits, sext, write_rd, load_rd, store, reset_zero}
use model_lib.Nemu.Riscv32.Inst as Riscv32Inst
use model_lib.Nemu.Boot.{
  reset_vector, riscv32_img, mips32_img, loongarch32r_img, init_isa, restart, store_words,
  init_isa-inst_fetch,
}
use model_lib.Nemu.Riscv32.Exec.{IsReady, returned}
use model_lib.Nemu.Mips32
use model_lib.Nemu.Mips32.Manual as MipsManual
use model_lib.Nemu.Loongarch32r
use model_lib.Nemu.Loongarch32r.Manual as LoongarchManual

-- Register 4 points to the memory, register 2 holds 7.
abbrev board : Machine ℕ
board = record {
  cpu = record { gpr = set (set (replicate 32 0) 4 0x8000_0000) 2 7; pc = 0x8000_0000 };
  mem = record {
    pmem = λ i. 0;
    maps = [];
    space = record { bytes = λ i. 0; dev = 0 };
    skip = record { is_skip_ref = false; skip_dut_nr_inst = 0 };
  };
  nemu = nemu_state;
}

board-IsReady : IsReady board
board-IsReady = record { zero_reg = refl; some_reg = omega arith; few_regs = omega arith }

-- sw v0, -4(a0) leaves the memory.
abbrev sw_v0 : MipsManual.Instr
sw_v0 = MipsManual.Instr.sw 2 4 0xfffc

mips_decode_exec-encode_example :
    Mips32.decode_exec (MipsManual.fetched sw_v0 0x8000_0000 0) board ≡ (
      MipsManual.step sw_v0 0x8000_0000 board >>= returned (MipsManual.fetched sw_v0 0x8000_0000 0))
mips_decode_exec-encode_example =
    MipsManual.mips_decode_exec-encode sw_v0 0x8000_0000 0 board board-IsReady refl
      (omega arith, omega arith, omega arith)

-- st.w $tp, $a0, 16
abbrev st_w_tp : LoongarchManual.Instr
st_w_tp = LoongarchManual.Instr.st_w 2 4 16

loongarch_decode_exec-encode_example :
    Loongarch32r.decode_exec (LoongarchManual.fetched st_w_tp 0x8000_0000 0) board ≡ (
      LoongarchManual.step st_w_tp 0x8000_0000 board
      >>= returned (LoongarchManual.fetched st_w_tp 0x8000_0000 0))
loongarch_decode_exec-encode_example =
    LoongarchManual.loongarch_decode_exec-encode st_w_tp 0x8000_0000 0 board board-IsReady refl
      (omega arith, omega arith, omega arith)

init_isa-inst_fetch_example :
    (m' : Machine ℕ) × (init_isa riscv32_img board ≡ ok m')
    × (m'.cpu.pc ≡ reset_vector)
    × IsReady m'
    × ((k : ℕ)
        → k < 5
        → inst_fetch (reset_vector + 4 * k) 4 m'.mem
          ≡ ok (get_or riscv32_img k 0 % 2 ^ 32, reset_vector + 4 * k + 4, m'.mem))
init_isa-inst_fetch_example =
    init_isa-inst_fetch riscv32_img board (omega arith) (omega arith) (omega arith)

-- A run of some instructions.
abbrev run :
    (Decode → Machine ℕ → Outcome (Decode × Machine ℕ)) → ℕ → Machine ℕ → Outcome (Machine ℕ)
run exec zero m = ok m
run exec (suc n) m = do
  (s, m') ← exec (record { pc = m.cpu.pc; snpc = m.cpu.pc; dnpc = 0; inst = 0 }) m
  run exec n (record m' { cpu = record (m'.cpu) { pc = s.dnpc } })

abbrev end_of : Outcome (Machine ℕ) → Outcome NemuState
end_of o = do m ← o; ok m.nemu

-- The built-in program of riscv32 starts with auipc, for which inst.c has no line.
riscv32_program_aborts :
    end_of (init_isa riscv32_img board >>= run Riscv32Inst.isa_exec_once 1)
    ≡ ok (record { state = RunState.abort; halt_pc = 0x8000_0000; halt_ret = 2 ^ 32 - 1 })
unfolding init_isa restart guest_to_host store_words store_le update inst_fetch vaddr_ifetch
    paddr_read in_pmem pmem_read host_read load_le matches get_gpr set_gpr bits sext set_nemu_state
    difftest_skip_ref reset_zero invalid_inst write_rd pattern_decode Riscv32Inst.isa_exec_once
    Riscv32Inst.decode_exec Riscv32Inst.select Riscv32Inst.run_pat Riscv32Inst.decode_operand
    Riscv32Inst.execute_body
riscv32_program_aborts = refl

-- The other two end at their trap, with the word that they have stored and read back.
mips32_program_ends :
    end_of (init_isa mips32_img board >>= run Mips32.isa_exec_once 4)
    ≡ ok (record { state = RunState.end; halt_pc = 0x8000_000c; halt_ret = 0 })
unfolding init_isa restart guest_to_host store_words store_le update inst_fetch vaddr_ifetch
    paddr_read in_pmem pmem_read host_read load_le matches get_gpr set_gpr bits sext set_nemu_state
    difftest_skip_ref reset_zero vaddr_read vaddr_write paddr_write pmem_write host_write
    select_line pattern_decode write_rd load_rd store Mips32.imm_i Mips32.isa_exec_once
    Mips32.decode_exec Mips32.run_pat Mips32.decode_operand Mips32.execute_body
mips32_program_ends = refl

loongarch32r_program_ends :
    end_of (init_isa loongarch32r_img board >>= run Loongarch32r.isa_exec_once 4)
    ≡ ok (record { state = RunState.end; halt_pc = 0x8000_000c; halt_ret = 0 })
unfolding init_isa restart guest_to_host store_words store_le update inst_fetch vaddr_ifetch
    paddr_read in_pmem pmem_read host_read load_le matches get_gpr set_gpr bits sext set_nemu_state
    difftest_skip_ref reset_zero vaddr_read vaddr_write paddr_write pmem_write host_write
    select_line pattern_decode write_rd load_rd store Loongarch32r.simm12 Loongarch32r.simm20
    Loongarch32r.isa_exec_once Loongarch32r.decode_exec Loongarch32r.run_pat
    Loongarch32r.decode_operand Loongarch32r.execute_body
loongarch32r_program_ends = refl

-- "0f b?"
abbrev hex_pattern : List ℕ
hex_pattern = 48 ∷ 102 ∷ 32 ∷ 98 ∷ 63 ∷ []

pattern_decode-expand_example :
    (q : Pattern) × (pattern_decode_hex hex_pattern ≡ some q)
    × (pattern_decode (expand hex_pattern) ≡ some q)
pattern_decode-expand_example = pattern_decode-expand hex_pattern refl (omega arith)
