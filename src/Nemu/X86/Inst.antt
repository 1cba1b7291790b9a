-- ===== src/Nemu/X86/Inst.antt =====
-- nemu/src/isa/x86/inst.c: decoding and execution of one instruction, without CONFIG_ITRACE and
-- CONFIG_IQUEUE, with which the fetch also asserts a bound on the length of the instruction.
use model_lib.Base.{
  ℕ, zero, suc, ◌%◌, Bool, true, false, Option, none, some, List, [], ◌∷◌, ◌==◌, if◌then◌else◌,
}
use Prim.Native.String.{String}
use model_lib.Outcome.{Outcome, ok, panic, ◌>>=◌}
use model_lib.Nemu.State.{RunState}
use model_lib.Nemu.Paddr.{Mem, vaddr_read, vaddr_write}
use model_lib.Nemu.Pattern.Block.{select_line}
use model_lib.Nemu.Riscv32.{inst_fetch}
use model_lib.Nemu.X86.{
  Cpu, Decode, Machine, reg_read, reg_write, r_eax, set_nemu_state, invalid_inst,
}
use model_lib.Nemu.X86.Address.{decode_rm}

-- The types that a line has.
pub data InstType : Type 0 where
  type_i2r type_g2e type_e2g type_i2e type_o2a type_a2o type_n : InstType

-- The lines by their bodies; `b` is for the form on bytes.
pub data Op : Type 0 where
  gp1 mov_g2e_b mov_g2e mov_e2g_b mov_e2g mov_o2a_b mov_o2a mov_a2o_b mov_a2o mov_i2r_b mov_i2r
        mov_i2e_b mov_i2e nemu_trap inv :
      Op

-- Two lines read on: the one for an opcode of two bytes and the one for the operand size.
pub data Line : Type 0 where
  two_byte_esc data_size : Line
  plain : Op → Line

abbrev pub op_pattern : Op → String
op_pattern gp1 = "1000 0000"
op_pattern mov_g2e_b = "1000 1000"
op_pattern mov_g2e = "1000 1001"
op_pattern mov_e2g_b = "1000 1010"
op_pattern mov_e2g = "1000 1011"
op_pattern mov_o2a_b = "1010 0000"
op_pattern mov_o2a = "1010 0001"
op_pattern mov_a2o_b = "1010 0010"
op_pattern mov_a2o = "1010 0011"
op_pattern mov_i2r_b = "1011 0???"
op_pattern mov_i2r = "1011 1???"
op_pattern mov_i2e_b = "1100 0110"
op_pattern mov_i2e = "1100 0111"
op_pattern nemu_trap = "1100 1100"
op_pattern inv = "???? ????"

abbrev pub pattern_of : Line → String
pattern_of two_byte_esc = "0000 1111"
pattern_of data_size = "0110 0110"
pattern_of (plain p) = op_pattern p

abbrev pub type_of : Op → InstType
type_of gp1 = InstType.type_i2e
type_of mov_g2e_b = InstType.type_g2e
type_of mov_g2e = InstType.type_g2e
type_of mov_e2g_b = InstType.type_e2g
type_of mov_e2g = InstType.type_e2g
type_of mov_o2a_b = InstType.type_o2a
type_of mov_o2a = InstType.type_o2a
type_of mov_a2o_b = InstType.type_a2o
type_of mov_a2o = InstType.type_a2o
type_of mov_i2r_b = InstType.type_i2r
type_of mov_i2r = InstType.type_i2r
type_of mov_i2e_b = InstType.type_i2e
type_of mov_i2e = InstType.type_i2e
type_of nemu_trap = InstType.type_n
type_of inv = InstType.type_n

-- The width of the line: 1 for the forms on bytes, else 0.
abbrev pub width_of : Op → ℕ
width_of gp1 = 1
width_of mov_g2e_b = 1
width_of mov_e2g_b = 1
width_of mov_o2a_b = 1
width_of mov_a2o_b = 1
width_of mov_i2r_b = 1
width_of mov_i2e_b = 1
width_of p = 0

-- The lines of isa_exec_once in their order, and those of _2byte_esc.
abbrev pub inst_pats : List Line
inst_pats =
    two_byte_esc
    ∷ data_size
    ∷ plain gp1
    ∷ plain mov_g2e_b
    ∷ plain mov_g2e
    ∷ plain mov_e2g_b
    ∷ plain mov_e2g
    ∷ plain mov_o2a_b
    ∷ plain mov_o2a
    ∷ plain mov_a2o_b
    ∷ plain mov_a2o
    ∷ plain mov_i2r_b
    ∷ plain mov_i2r
    ∷ plain mov_i2e_b
    ∷ plain mov_i2e
    ∷ plain nemu_trap
    ∷ plain inv
    ∷ []

abbrev pub escape_pats : List Op
escape_pats = inv ∷ []

-- rd, src1, addr, rs, gp_idx and imm; a register number of -1 is `none`.
pub record Operands : Type 0 where
  pub rd : Option ℕ
  pub src1 : ℕ
  pub addr : ℕ
  pub rs : Option ℕ
  pub gp_idx : ℕ
  pub imm : ℕ

abbrev pub no_operands : Operands
no_operands = record { rd = some 0; src1 = 0; addr = 0; rs = some 0; gp_idx = 0; imm = 0 }

-- `w` of INSTPAT_MATCH.
abbrev pub operand_width : ℕ → Bool → ℕ
operand_width width is_16 = if width == 0 then (if is_16 then 2 else 4) else width

-- A register number that is used without a test for -1.
abbrev pub index : Option ℕ → Outcome ℕ
index none = panic
index (some i) = ok i

module _ {D : Type 0} where
  unfoldable pub decode_operand :
      ℕ → ℕ → InstType → Cpu → ℕ → Mem D → Outcome (Operands × ℕ × Mem D)
  decode_operand opcode w InstType.type_i2r c snpc s = do
    (imm, snpc', s') ← inst_fetch snpc w s
    ok (record no_operands { rd = some (opcode % 8); imm = imm }, snpc', s')
  decode_operand opcode w InstType.type_g2e c snpc s = do
    ((rm_reg, addr, reg), snpc', s') ← decode_rm c snpc s
    src1 ← reg_read reg w c
    ok (record no_operands { rd = rm_reg; addr = addr; rs = some reg; src1 = src1 }, snpc', s')
  decode_operand opcode w InstType.type_e2g c snpc s = do
    ((rm_reg, addr, reg), snpc', s') ← decode_rm c snpc s
    ok (record no_operands { rs = rm_reg; addr = addr; rd = some reg }, snpc', s')
  decode_operand opcode w InstType.type_i2e c snpc s = do
    ((rm_reg, addr, reg), snpc1, s1) ← decode_rm c snpc s
    (imm, snpc', s') ← inst_fetch snpc1 w s1
    ok (record no_operands { rd = rm_reg; addr = addr; gp_idx = reg; imm = imm }, snpc', s')
  decode_operand opcode w InstType.type_o2a c snpc s = do
    (addr, snpc', s') ← inst_fetch snpc 4 s
    ok (record no_operands { rd = some r_eax; addr = addr }, snpc', s')
  decode_operand opcode w InstType.type_a2o c snpc s = do
    (addr, snpc', s') ← inst_fetch snpc 4 s
    ok (record no_operands { rs = some r_eax; addr = addr }, snpc', s')
  decode_operand opcode w InstType.type_n c snpc s = ok (no_operands, snpc, s)

  -- Rw, RMr and RMw.
  abbrev pub write_reg : ℕ → ℕ → ℕ → Machine D → Outcome (Machine D)
  write_reg i w v m = do cpu ← reg_write i w v m.cpu; ok (record m { cpu = cpu })

  abbrev pub read_rm : Option ℕ → ℕ → ℕ → Machine D → Outcome (ℕ × Machine D)
  read_rm none addr w m = do (v, mem) ← vaddr_read addr w m.mem; ok (v, record m { mem = mem })
  read_rm (some i) addr w m = do v ← reg_read i w m.cpu; ok (v, m)

  abbrev pub write_mem : ℕ → ℕ → ℕ → Machine D → Outcome (Machine D)
  write_mem addr w v m = do mem ← vaddr_write addr w v m.mem; ok (record m { mem = mem })

  abbrev pub write_rm : Option ℕ → ℕ → ℕ → ℕ → Machine D → Outcome (Machine D)
  write_rm none addr w v m = write_mem addr w v m
  write_rm (some i) addr w v m = write_reg i w v m

  unfoldable pub execute_body : Op → Decode → Operands → ℕ → Machine D → Outcome (Machine D)
  execute_body gp1 s o w m = invalid_inst s.pc m
  execute_body mov_g2e_b s o w m = write_rm o.rd o.addr w o.src1 m
  execute_body mov_g2e s o w m = write_rm o.rd o.addr w o.src1 m
  execute_body mov_e2g_b s o w m = do
    (v, m') ← read_rm o.rs o.addr w m
    rd ← index o.rd
    write_reg rd w v m'
  execute_body mov_e2g s o w m = do
    (v, m') ← read_rm o.rs o.addr w m
    rd ← index o.rd
    write_reg rd w v m'
  execute_body mov_o2a_b s o w m = do (v, m') ← read_rm none o.addr 1 m; write_reg r_eax 1 v m'
  execute_body mov_o2a s o w m = do (v, m') ← read_rm none o.addr w m; write_reg r_eax w v m'
  execute_body mov_a2o_b s o w m = do v ← reg_read r_eax 1 m.cpu; write_mem o.addr 1 v m
  execute_body mov_a2o s o w m = do v ← reg_read r_eax w m.cpu; write_mem o.addr w v m
  execute_body mov_i2r_b s o w m = do rd ← index o.rd; write_reg rd 1 o.imm m
  execute_body mov_i2r s o w m = do rd ← index o.rd; write_reg rd w o.imm m
  execute_body mov_i2e_b s o w m = write_rm o.rd o.addr w o.imm m
  execute_body mov_i2e s o w m = write_rm o.rd o.addr w o.imm m
  execute_body nemu_trap s o w m = ok (set_nemu_state RunState.end s.pc m.cpu.eax m)
  execute_body inv s o w m = invalid_inst s.pc m

  -- INSTPAT_MATCH: the operands, then `s->dnpc = s->snpc`, then the body.
  unfoldable pub run_line : Op → ℕ → Bool → Decode → Machine D → Outcome (Decode × Machine D)
  run_line p opcode is_16 s m = do
    let w = operand_width (width_of p) is_16
    (o, snpc, mem) ← decode_operand opcode w (type_of p) m.cpu s.snpc m.mem
    let s' = record s { snpc = snpc; dnpc = snpc }
    m' ← execute_body p s' o w (record m { mem = mem })
    ok (s', m')

  -- _2byte_esc, whose Decode is that of the line that calls it.
  unfoldable pub escape : Bool → Decode → Machine D → Outcome (Decode × Machine D)
  escape is_16 s m = do
    (opcode, snpc, mem) ← inst_fetch s.snpc 1 m.mem
    let s1 = record s { snpc = snpc }
    let m1 = record m { mem = mem }
    p ← select_line op_pattern escape_pats opcode
    elim p [ none ↦ ok (s1, m1) | some q ↦ run_line q opcode is_16 s1 m1 ]

  -- The loop from `again`: the number counts the opcodes that may be read, and `none` is that they
  -- did not suffice.
  unfoldable pub exec_again : ℕ → Bool → Decode → Machine D → Outcome (Option (Decode × Machine D))
  exec_again zero is_16 s m = ok none
  exec_again (suc fuel) is_16 s m = do
    (opcode, snpc, mem) ← inst_fetch s.snpc 1 m.mem
    let s1 = record s { snpc = snpc }
    let m1 = record m { mem = mem }
    p ← select_line pattern_of inst_pats opcode
    elim p [
      | none ↦ ok (some (s1, m1))
      | some two_byte_esc ↦ (do r ← escape is_16 (record s1 { dnpc = snpc }) m1; ok (some r))
      | some data_size ↦ exec_again fuel true (record s1 { dnpc = snpc }) m1
      | some (plain q) ↦ (do r ← run_line q opcode is_16 s1 m1; ok (some r))
    ]

  unfoldable pub isa_exec_once : ℕ → Decode → Machine D → Outcome (Option (Decode × Machine D))
  isa_exec_once fuel s m = exec_again fuel false s m
