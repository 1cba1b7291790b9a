-- ===== src/Nemu/Loongarch32r/Manual.antt =====
-- decode_exec on an encoded LoongArch instruction against the step that the manual gives.
use model_lib.Base.{ℕ, ◌+◌, ◌*◌, ◌/◌, ◌%◌, ◌^◌, ◌<◌, ◌≡◌, refl, arith, length, get_or}
use model_lib.Base.Words.{u32}
use model_lib.Outcome.{Outcome, ok, ◌>>=◌}
use model_lib.Nemu.Riscv32.{Cpu, Decode, Machine}
use model_lib.Nemu.Riscv32.Inst.{sext, reset_zero}
use model_lib.Nemu.Riscv32.Operands.{bits_lem, get_gpr_lem}
use model_lib.Nemu.Riscv32.Spec.{extend12, assigned, loaded, stored, reg}
use model_lib.Nemu.Riscv32.Exec.{IsReady, returned, exec_assign, exec_load, exec_store}
use model_lib.Nemu.Loongarch32r.{
  Op, InstType, simm12, simm20, decode_operand, execute_body, run_pat, decode_exec, type_of,
}
use model_lib.Nemu.Loongarch32r.Select.{op_of, loongarch_select_lem}

-- The operands in the order of the assembler: rd, rj, and the immediate.
pub data Instr : Type 0 where
  pcaddu12i : ℕ → ℕ → Instr
  ld_w : ℕ → ℕ → ℕ → Instr
  st_w : ℕ → ℕ → ℕ → Instr

abbrev pub format_2ri12 : ℕ → ℕ → ℕ → ℕ → ℕ
format_2ri12 op rd rj imm = op * 2 ^ 22 + imm * 2 ^ 10 + rj * 2 ^ 5 + rd

abbrev pub format_1ri20 : ℕ → ℕ → ℕ → ℕ
format_1ri20 op rd imm = op * 2 ^ 25 + imm * 2 ^ 5 + rd

abbrev pub encode : Instr → ℕ
encode (Instr.pcaddu12i rd imm) = format_1ri20 0x0e rd imm
encode (Instr.ld_w rd rj imm) = format_2ri12 0xa2 rd rj imm
encode (Instr.st_w rd rj imm) = format_2ri12 0xa6 rd rj imm

-- The operands fit their fields.
abbrev pub IsInstr : Instr → Type 0
IsInstr (Instr.pcaddu12i rd imm) = (rd < 32) × (imm < 2 ^ 20)
IsInstr (Instr.ld_w rd rj imm) = (rd < 32) × (rj < 32) × (imm < 2 ^ 12)
IsInstr (Instr.st_w rd rj imm) = (rd < 32) × (rj < 32) × (imm < 2 ^ 12)

abbrev pub fetched : Instr → ℕ → ℕ → Decode
fetched ins pc old = record { pc = pc; snpc = u32 (pc + 4); dnpc = old; inst = encode ins }

simm12_lem : (i : ℕ) → simm12 i ≡ extend12 (i / 2 ^ 10 % 4096)
unfolding simm12 sext
simm12_lem i = rw (bits_lem i 21 10) (ground arith)

simm20_lem : (i : ℕ) → simm20 i ≡ i / 2 ^ 5 % 2 ^ 20 * 4096
unfolding simm20 sext
simm20_lem i = rw (bits_lem i 24 5) (ground arith)

-- The operands of a word with these fields.
operand_2ri12 :
    (op rd rj imm : ℕ) (c : Cpu)
    → op < 1024
    → rd < 32
    → rj < 32
    → imm < 2 ^ 12
    → length c.gpr ≡ 32
    → decode_operand (format_2ri12 op rd rj imm) InstType.type_2ri12 c
      ≡ ok (record { rd = rd; src1 = get_or c.gpr rj 0; src2 = 0; imm = extend12 imm })
unfolding decode_operand
operand_2ri12 op rd rj imm c ho hd hj hi n =
    let i = format_2ri12 op rd rj imm in
    let rj_field : i / 2 ^ 5 % 2 ^ 5 ≡ rj = omega arith in
    let rd_field : i / 2 ^ 0 % 2 ^ 5 ≡ rd = omega arith in
    let imm_field : i / 2 ^ 10 % 4096 ≡ imm = omega arith in
    rw (
      bits_lem i 9 5,
      bits_lem i 4 0,
      rj_field,
      rd_field,
      get_gpr_lem rj c (omega (arith, n)),
      simm12_lem i,
      imm_field,
    )

operand_1ri20 :
    (op rd imm : ℕ) (c : Cpu)
    → op < 128
    → rd < 32
    → imm < 2 ^ 20
    → length c.gpr ≡ 32
    → decode_operand (format_1ri20 op rd imm) InstType.type_1ri20 c
      ≡ ok (record { rd = rd; src1 = get_or c.gpr (imm % 32) 0; src2 = 0; imm = imm * 4096 })
unfolding decode_operand
operand_1ri20 op rd imm c ho hd hi n =
    let i = format_1ri20 op rd imm in
    let rj_field : i / 2 ^ 5 % 2 ^ 5 ≡ imm % 32 = omega arith in
    let rd_field : i / 2 ^ 0 % 2 ^ 5 ≡ rd = omega arith in
    let imm_field : i / 2 ^ 5 % 2 ^ 20 ≡ imm = omega arith in
    rw (
      bits_lem i 9 5,
      bits_lem i 4 0,
      rj_field,
      rd_field,
      get_gpr_lem (imm % 32) c (omega (arith, n)),
      simm20_lem i,
      imm_field,
    )

abbrev line : Instr → Op
line (Instr.pcaddu12i rd imm) = Op.pcaddu12i
line (Instr.ld_w rd rj imm) = Op.ld_w
line (Instr.st_w rd rj imm) = Op.st_w

op_of-encode : (ins : Instr) → IsInstr ins → op_of (encode ins) ≡ line ins
op_of-encode (Instr.pcaddu12i rd imm) h = ground arith
op_of-encode (Instr.ld_w rd rj imm) h = ground arith
op_of-encode (Instr.st_w rd rj imm) h = ground arith

module _ {D : Type 0} where
  abbrev pub address : Machine D → ℕ → ℕ → ℕ
  address m rj imm = u32 (reg m rj + extend12 imm)

  -- The next program counter, and the state after the instruction at `pc`.
  abbrev pub step : Instr → ℕ → Machine D → Outcome (ℕ × Machine D)
  step (Instr.pcaddu12i rd imm) pc m = ok (u32 (pc + 4), assigned rd (u32 (pc + imm * 4096)) m)
  step (Instr.ld_w rd rj imm) pc m = loaded pc rd (address m rj imm) 4 m
  step (Instr.st_w rd rj imm) pc m = stored pc (address m rj imm) 4 (reg m rd) m

  exec-line :
      (s : Decode) (m : Machine D) (ins : Instr)
      → IsInstr ins
      → s.inst ≡ encode ins
      → decode_exec s m ≡ (
          decode_operand s.inst (type_of (line ins)) m.cpu
          >>= (λ o. execute_body (line ins) (record s { dnpc = s.snpc }) o m)
          >>= reset_zero (record s { dnpc = s.snpc }))
  unfolding decode_exec run_pat
  exec-line s m ins h e = rw (loongarch_select_lem s.inst, e, op_of-encode ins h) refl

  -- For pcaddu12i, ld.w and st.w with operands that fit their fields, decode_exec on the encoded
  -- word gives the program counter, the registers and the memory that the manual's step gives, and
  -- panics or leaves the memory where that step does, provided that there are 32 registers and
  -- that register 0 holds 0 before.
  pub loongarch_decode_exec-encode :
      (ins : Instr) (pc old : ℕ) (m : Machine D)
      → IsReady m
      → length m.cpu.gpr ≡ 32
      → IsInstr ins
      → decode_exec (fetched ins pc old) m ≡ (step ins pc m >>= returned (fetched ins pc old))
  unfolding execute_body
  loongarch_decode_exec-encode (Instr.pcaddu12i rd imm) pc old m r n h =
      rw
        (
          exec-line (fetched (Instr.pcaddu12i rd imm) pc old) m (Instr.pcaddu12i rd imm) h refl,
          operand_1ri20 0x0e rd imm m.cpu (omega arith) h.0 h.1 n,
        )
        (exec_assign _ (u32 (pc + 4)) rd (u32 (pc + imm * 4096)) m r (rw n h.0))
  loongarch_decode_exec-encode (Instr.ld_w rd rj imm) pc old m r n h =
      rw
        (
          exec-line (fetched (Instr.ld_w rd rj imm) pc old) m (Instr.ld_w rd rj imm) h refl,
          operand_2ri12 0xa2 rd rj imm m.cpu (omega arith) h.0 h.1 h.2 n,
        )
        (exec_load _ pc rd (address m rj imm) 4 m r (rw n h.0))
  loongarch_decode_exec-encode (Instr.st_w rd rj imm) pc old m r n h =
      rw
        (
          exec-line (fetched (Instr.st_w rd rj imm) pc old) m (Instr.st_w rd rj imm) h refl,
          operand_2ri12 0xa6 rd rj imm m.cpu (omega arith) h.0 h.1 h.2 n,
          get_gpr_lem rd m.cpu (rw n h.0),
        )
        (exec_store _ pc (address m rj imm) 4 (reg m rd) m r)
