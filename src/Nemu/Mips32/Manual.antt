-- ===== src/Nemu/Mips32/Manual.antt =====
-- decode_exec on an encoded MIPS instruction against the step that the MIPS manual gives.
use model_lib.Base.{
  ℕ, ◌+◌, ◌-◌, ◌*◌, ◌/◌, ◌%◌, ◌^◌, ◌<◌, ◌≡◌, refl, arith, ltb, if◌then◌else◌, length, get_or,
}
use model_lib.Base.Words.{u32, ◌<<<◌}
use model_lib.Outcome.{Outcome, ok, ◌>>=◌}
use model_lib.Nemu.Riscv32.{Cpu, Decode, Machine}
use model_lib.Nemu.Riscv32.Inst.{sext, reset_zero}
use model_lib.Nemu.Riscv32.Operands.{bits_lem, get_gpr_lem}
use model_lib.Nemu.Riscv32.Spec.{assigned, loaded, stored, reg}
use model_lib.Nemu.Riscv32.Exec.{IsReady, returned, exec_assign, exec_load, exec_store}
use model_lib.Nemu.Mips32.{
  Op, InstType, imm_i, decode_operand, execute_body, run_pat, decode_exec, type_of,
}
use model_lib.Nemu.Mips32.Select.{op_of, mips_select_lem}

-- The operands in the order of the assembler: rt, rs, and the immediate.
pub data Instr : Type 0 where
  lui : ℕ → ℕ → Instr
  lw : ℕ → ℕ → ℕ → Instr
  sw : ℕ → ℕ → ℕ → Instr

abbrev pub i_format : ℕ → ℕ → ℕ → ℕ → ℕ
i_format op rt rs imm = op * 2 ^ 26 + rs * 2 ^ 21 + rt * 2 ^ 16 + imm

abbrev pub encode : Instr → ℕ
encode (Instr.lui rt imm) = i_format 0x0f rt 0 imm
encode (Instr.lw rt rs imm) = i_format 0x23 rt rs imm
encode (Instr.sw rt rs imm) = i_format 0x2b rt rs imm

-- The operands fit their fields.
abbrev pub IsInstr : Instr → Type 0
IsInstr (Instr.lui rt imm) = (rt < 32) × (imm < 2 ^ 16)
IsInstr (Instr.lw rt rs imm) = (rt < 32) × (rs < 32) × (imm < 2 ^ 16)
IsInstr (Instr.sw rt rs imm) = (rt < 32) × (rs < 32) × (imm < 2 ^ 16)

abbrev pub extend16 : ℕ → ℕ
extend16 imm = if ltb imm 32768 then imm else imm + 2 ^ 32 - 65536

abbrev pub fetched : Instr → ℕ → ℕ → Decode
fetched ins pc old = record { pc = pc; snpc = u32 (pc + 4); dnpc = old; inst = encode ins }

imm_i_lem : (i : ℕ) → imm_i i ≡ extend16 (i % 65536)
unfolding imm_i sext
imm_i_lem i = rw (bits_lem i 15 0) (ground arith)

-- The operands of a word with these fields.
operand_i :
    (op rt rs imm : ℕ) (c : Cpu)
    → op < 64
    → rt < 32
    → rs < 32
    → imm < 2 ^ 16
    → length c.gpr ≡ 32
    → decode_operand (i_format op rt rs imm) InstType.type_i c
      ≡ ok (record { rd = rt; src1 = get_or c.gpr rs 0; src2 = 0; imm = extend16 imm })
unfolding decode_operand
operand_i op rt rs imm c ho ht hs hi n =
    let i = i_format op rt rs imm in
    let rs_field : i / 2 ^ 21 % 2 ^ 5 ≡ rs = omega arith in
    let rt_field : i / 2 ^ 16 % 2 ^ 5 ≡ rt = omega arith in
    let imm_field : i % 65536 ≡ imm = omega arith in
    rw (
      bits_lem i 25 21,
      bits_lem i 20 16,
      rs_field,
      rt_field,
      get_gpr_lem rs c (omega (arith, n)),
      imm_i_lem i,
      imm_field,
    )

operand_u :
    (op rt imm : ℕ) (c : Cpu)
    → op < 64
    → rt < 32
    → imm < 2 ^ 16
    → length c.gpr ≡ 32
    → decode_operand (i_format op rt 0 imm) InstType.type_u c
      ≡ ok (record { rd = rt; src1 = get_or c.gpr 0 0; src2 = 0; imm = imm })
unfolding decode_operand
operand_u op rt imm c ho ht hi n =
    let i = i_format op rt 0 imm in
    let rs_field : i / 2 ^ 21 % 2 ^ 5 ≡ 0 = omega arith in
    let rt_field : i / 2 ^ 16 % 2 ^ 5 ≡ rt = omega arith in
    let imm_field : i / 2 ^ 0 % 2 ^ 16 ≡ imm = omega arith in
    rw (
      bits_lem i 25 21,
      bits_lem i 20 16,
      bits_lem i 15 0,
      rs_field,
      rt_field,
      imm_field,
      get_gpr_lem 0 c (omega (arith, n)),
    )

abbrev line : Instr → Op
line (Instr.lui rt imm) = Op.lui
line (Instr.lw rt rs imm) = Op.lw
line (Instr.sw rt rs imm) = Op.sw

op_of-encode : (ins : Instr) → IsInstr ins → op_of (encode ins) ≡ line ins
op_of-encode (Instr.lui rt imm) h = ground arith
op_of-encode (Instr.lw rt rs imm) h = ground arith
op_of-encode (Instr.sw rt rs imm) h = ground arith

module _ {D : Type 0} where
  abbrev pub address : Machine D → ℕ → ℕ → ℕ
  address m rs imm = u32 (reg m rs + extend16 imm)

  -- The next program counter, and the state after the instruction at `pc`.
  abbrev pub step : Instr → ℕ → Machine D → Outcome (ℕ × Machine D)
  step (Instr.lui rt imm) pc m = ok (u32 (pc + 4), assigned rt (imm * 65536) m)
  step (Instr.lw rt rs imm) pc m = loaded pc rt (address m rs imm) 4 m
  step (Instr.sw rt rs imm) pc m = stored pc (address m rs imm) 4 (reg m rt) m

  exec-line :
      (s : Decode) (m : Machine D) (ins : Instr)
      → IsInstr ins
      → s.inst ≡ encode ins
      → decode_exec s m ≡ (
          decode_operand s.inst (type_of (line ins)) m.cpu
          >>= (λ o. execute_body (line ins) (record s { dnpc = s.snpc }) o m)
          >>= reset_zero (record s { dnpc = s.snpc }))
  unfolding decode_exec run_pat
  exec-line s m ins h e = rw (mips_select_lem s.inst, e, op_of-encode ins h) refl

  -- For lui, lw and sw with operands that fit their fields, decode_exec on the encoded word gives
  -- the program counter, the registers and the memory that the manual's step gives, and panics or
  -- leaves the memory where that step does, provided that there are 32 registers and that
  -- register 0 holds 0 before.
  pub mips_decode_exec-encode :
      (ins : Instr) (pc old : ℕ) (m : Machine D)
      → IsReady m
      → length m.cpu.gpr ≡ 32
      → IsInstr ins
      → decode_exec (fetched ins pc old) m ≡ (step ins pc m >>= returned (fetched ins pc old))
  unfolding execute_body
  mips_decode_exec-encode (Instr.lui rt imm) pc old m r n h =
      let shifted : u32 (imm <<< 16) ≡ imm * 65536 = omega arith in
      rw
        (
          exec-line (fetched (Instr.lui rt imm) pc old) m (Instr.lui rt imm) h refl,
          operand_u 0x0f rt imm m.cpu (omega arith) h.0 h.1 n,
          shifted,
        )
        (exec_assign _ (u32 (pc + 4)) rt (imm * 65536) m r (rw n h.0))
  mips_decode_exec-encode (Instr.lw rt rs imm) pc old m r n h =
      rw
        (
          exec-line (fetched (Instr.lw rt rs imm) pc old) m (Instr.lw rt rs imm) h refl,
          operand_i 0x23 rt rs imm m.cpu (omega arith) h.0 h.1 h.2 n,
        )
        (exec_load _ pc rt (address m rs imm) 4 m r (rw n h.0))
  mips_decode_exec-encode (Instr.sw rt rs imm) pc old m r n h =
      rw
        (
          exec-line (fetched (Instr.sw rt rs imm) pc old) m (Instr.sw rt rs imm) h refl,
          operand_i 0x2b rt rs imm m.cpu (omega arith) h.0 h.1 h.2 n,
          get_gpr_lem rt m.cpu (rw n h.0),
        )
        (exec_store _ pc (address m rs imm) 4 (reg m rt) m r)
