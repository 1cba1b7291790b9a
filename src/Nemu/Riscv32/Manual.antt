-- ===== src/Nemu/Riscv32/Manual.antt =====
-- decode_exec on an encoded instruction against the step of the manual.
use model_lib.Base.{ℕ, ◌+◌, ◌-◌, ◌%◌, ◌^◌, ◌<◌, bit_and, ◌≡◌, refl, arith, length}
use model_lib.Base.Words.{u32}
use model_lib.Base.Bits.{bit_and_high}
use model_lib.Outcome.{◌>>=◌}
use model_lib.Nemu.Riscv32.{Decode, Machine}
use model_lib.Nemu.Riscv32.Inst.{execute_body, decode_exec}
use model_lib.Nemu.Riscv32.Spec.{Instr, encode, IsInstr, reg, address, step}
use model_lib.Nemu.Riscv32.Fields.{decode_i, decode_u, decode_s, decode_r}
use model_lib.Nemu.Riscv32.Exec.{IsReady, returned, exec_assign, exec_load, exec_store, exec-line}

-- What isa_exec_once has fetched when decode_exec starts; `dnpc` is still that of the last round.
abbrev pub fetched : Instr → ℕ → ℕ → Decode
fetched ins pc old = record { pc = pc; snpc = u32 (pc + 4); dnpc = old; inst = encode ins }

-- `& ~1u`
clear_bit0 : (x : ℕ) → x < 2 ^ 32 → bit_and x (2 ^ 32 - 1 - 1) ≡ x - x % 2
clear_bit0 x h = omega (arith, bit_and_high 1 31 x)

module _ {D : Type 0} where
  -- For each of the eight MiniRV instructions, with operands that its encoding holds and that
  -- name registers of the machine, decode_exec on the encoded word gives the program counter,
  -- the registers and the memory that the manual's step gives, and panics or leaves the memory
  -- where that step does, provided that register 0 holds 0 before.
  pub decode_exec-encode :
      (ins : Instr) (pc old : ℕ) (m : Machine D)
      → IsReady m
      → IsInstr (length m.cpu.gpr) ins
      → decode_exec (fetched ins pc old) m ≡ (step ins pc m >>= returned (fetched ins pc old))
  unfolding execute_body
  decode_exec-encode (Instr.lui rd imm) pc old m r h =
      rw
        (
          exec-line (fetched (Instr.lui rd imm) pc old) m (Instr.lui rd imm) r.few_regs h refl,
          decode_u m.cpu r.few_regs rd imm h.0 h.1,
        )
        (exec_assign _ (u32 (pc + 4)) rd _ m r h.0)
  decode_exec-encode (Instr.jalr rd rs1 imm) pc old m r h =
      rw
        (
          exec-line (fetched (Instr.jalr rd rs1 imm) pc old) m (Instr.jalr rd rs1 imm) r.few_regs h
              refl,
          decode_i m.cpu r.few_regs 0x67 0 rd rs1 imm (omega arith) (omega arith) h.0 h.1 h.2,
          clear_bit0 (address m rs1 imm) (omega arith),
        )
        (exec_assign _ _ rd _ m r h.0)
  decode_exec-encode (Instr.lw rd rs1 imm) pc old m r h =
      rw
        (
          exec-line (fetched (Instr.lw rd rs1 imm) pc old) m (Instr.lw rd rs1 imm) r.few_regs h
              refl,
          decode_i m.cpu r.few_regs 0x03 2 rd rs1 imm (omega arith) (omega arith) h.0 h.1 h.2,
        )
        (exec_load _ pc rd (address m rs1 imm) 4 m r h.0)
  decode_exec-encode (Instr.lbu rd rs1 imm) pc old m r h =
      rw
        (
          exec-line (fetched (Instr.lbu rd rs1 imm) pc old) m (Instr.lbu rd rs1 imm) r.few_regs h
              refl,
          decode_i m.cpu r.few_regs 0x03 4 rd rs1 imm (omega arith) (omega arith) h.0 h.1 h.2,
        )
        (exec_load _ pc rd (address m rs1 imm) 1 m r h.0)
  decode_exec-encode (Instr.sb rs2 rs1 imm) pc old m r h =
      rw
        (
          exec-line (fetched (Instr.sb rs2 rs1 imm) pc old) m (Instr.sb rs2 rs1 imm) r.few_regs h
              refl,
          decode_s m.cpu r.few_regs 0x23 0 rs2 rs1 imm (omega arith) (omega arith) h.0 h.1 h.2,
        )
        (exec_store _ pc (address m rs1 imm) 1 (reg m rs2) m r)
  decode_exec-encode (Instr.sw rs2 rs1 imm) pc old m r h =
      rw
        (
          exec-line (fetched (Instr.sw rs2 rs1 imm) pc old) m (Instr.sw rs2 rs1 imm) r.few_regs h
              refl,
          decode_s m.cpu r.few_regs 0x23 2 rs2 rs1 imm (omega arith) (omega arith) h.0 h.1 h.2,
        )
        (exec_store _ pc (address m rs1 imm) 4 (reg m rs2) m r)
  decode_exec-encode (Instr.addi rd rs1 imm) pc old m r h =
      rw
        (
          exec-line (fetched (Instr.addi rd rs1 imm) pc old) m (Instr.addi rd rs1 imm) r.few_regs h
              refl,
          decode_i m.cpu r.few_regs 0x13 0 rd rs1 imm (omega arith) (omega arith) h.0 h.1 h.2,
        )
        (exec_assign _ (u32 (pc + 4)) rd _ m r h.0)
  decode_exec-encode (Instr.add rd rs1 rs2) pc old m r h =
      rw
        (
          exec-line (fetched (Instr.add rd rs1 rs2) pc old) m (Instr.add rd rs1 rs2) r.few_regs h
              refl,
          decode_r m.cpu r.few_regs rd rs1 rs2 h.0 h.1 h.2,
        )
        (exec_assign _ (u32 (pc + 4)) rd _ m r h.0)
