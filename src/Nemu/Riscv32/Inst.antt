-- ===== src/Nemu/Riscv32/Inst.antt =====
-- nemu/src/isa/riscv32/inst.c: decoding and execution of the eight MiniRV instructions and of
-- the `ebreak` that ends a program. BITS and SEXT are macros of nemu/include/macro.h.
use model_lib.Base.{
  ℕ, ◌+◌, ◌-◌, ◌%◌, ◌^◌, bit_and, bit_or, Option, none, some, List, [], ◌∷◌, ltb, if◌then◌else◌,
}
use model_lib.Base.Words.{u32, u64, ◌<<<◌, ◌>>>◌}
use Prim.Native.String.{String}
use model_lib.Outcome.{Outcome, ok, panic, ◌>>=◌}
use model_lib.Nemu.State.{RunState}
use model_lib.Nemu.Paddr.{vaddr_read, vaddr_write}
use model_lib.Nemu.Pattern.{codes, pattern_decode, matches}
use model_lib.Nemu.Riscv32.{
  Cpu, Decode, Machine, get_gpr, set_gpr, inst_fetch, set_nemu_state, invalid_inst,
}

-- `((x) >> (lo)) & BITMASK((hi) - (lo) + 1)`, on 64 bits.
unfoldable pub bits : ℕ → ℕ → ℕ → ℕ
bits x hi lo = bit_and (x >>> lo) (2 ^ (hi - lo + 1) - 1)

-- The low `len` bits with their sign, on 64 bits.
unfoldable pub sext : ℕ → ℕ → ℕ
sext x len =
    let low = x % 2 ^ len in if ltb low (2 ^ (len - 1)) then low else low + 2 ^ 64 - 2 ^ len

pub data InstType : Type 0 where
  type_i type_u type_s type_r type_n : InstType

pub data Op : Type 0 where
  lui jalr lw lbu sb sw addi add ebreak inv : Op

-- The pattern and the type of each INSTPAT line, named by its instruction.
abbrev pub pattern_of : Op → String
pattern_of lui = "??????? ????? ????? ??? ????? 01101 11"
pattern_of jalr = "??????? ????? ????? 000 ????? 11001 11"
pattern_of lw = "??????? ????? ????? 010 ????? 00000 11"
pattern_of lbu = "??????? ????? ????? 100 ????? 00000 11"
pattern_of sb = "??????? ????? ????? 000 ????? 01000 11"
pattern_of sw = "??????? ????? ????? 010 ????? 01000 11"
pattern_of addi = "??????? ????? ????? 000 ????? 00100 11"
pattern_of add = "0000000 ????? ????? 000 ????? 01100 11"
pattern_of ebreak = "0000000 00001 00000 000 00000 11100 11"
pattern_of inv = "??????? ????? ????? ??? ????? ????? ??"

abbrev pub type_of : Op → InstType
type_of lui = InstType.type_u
type_of jalr = InstType.type_i
type_of lw = InstType.type_i
type_of lbu = InstType.type_i
type_of sb = InstType.type_s
type_of sw = InstType.type_s
type_of addi = InstType.type_i
type_of add = InstType.type_r
type_of ebreak = InstType.type_n
type_of inv = InstType.type_n

-- The lines in their order.
abbrev pub inst_pats : List Op
inst_pats = lui ∷ jalr ∷ lw ∷ lbu ∷ sb ∷ sw ∷ addi ∷ add ∷ ebreak ∷ inv ∷ []

-- The first line whose pattern fits; the others are jumped over. `ok none` is a fall through the
-- whole block.
unfoldable pub select : List Op → ℕ → Outcome (Option Op)
select [] inst = ok none
select (p ∷ ps) inst = elim (pattern_decode (codes (pattern_of p))) [
  | none ↦ panic
  | some k ↦ if matches k inst then ok (some p) else select ps inst
]

pub record Operands : Type 0 where
  pub rd : ℕ
  pub src1 : ℕ
  pub src2 : ℕ
  pub imm : ℕ

unfoldable pub imm_i : ℕ → ℕ
unfolding bits sext
imm_i i = u32 (sext (bits i 31 20) 12)

unfoldable pub imm_u : ℕ → ℕ
unfolding bits sext
imm_u i = u32 (u64 (sext (bits i 31 12) 20 <<< 12))

unfoldable pub imm_s : ℕ → ℕ
unfolding bits sext
imm_s i = u32 (bit_or (u64 (sext (bits i 31 25) 7 <<< 5)) (bits i 11 7))

-- The operands that the type asks for; the others stay 0.
unfoldable pub decode_operand : ℕ → InstType → Cpu → Outcome Operands
decode_operand i InstType.type_i c = do
  src1 ← get_gpr (bits i 19 15) c
  ok (record { rd = bits i 11 7; src1 = src1; src2 = 0; imm = imm_i i })
decode_operand i InstType.type_u c =
    ok (record { rd = bits i 11 7; src1 = 0; src2 = 0; imm = imm_u i })
decode_operand i InstType.type_s c = do
  src1 ← get_gpr (bits i 19 15) c
  src2 ← get_gpr (bits i 24 20) c
  ok (record { rd = bits i 11 7; src1 = src1; src2 = src2; imm = imm_s i })
decode_operand i InstType.type_r c = do
  src1 ← get_gpr (bits i 19 15) c
  src2 ← get_gpr (bits i 24 20) c
  ok (record { rd = bits i 11 7; src1 = src1; src2 = src2; imm = 0 })
decode_operand i InstType.type_n c = ok (record { rd = bits i 11 7; src1 = 0; src2 = 0; imm = 0 })

module _ {D : Type 0} where
  -- `R(rd) = v`
  unfoldable pub write_rd : ℕ → ℕ → Machine D → Outcome (Machine D)
  write_rd rd v m = do cpu ← set_gpr rd v m.cpu; ok (record m { cpu = cpu })

  -- `R(rd) = Mr(addr, len)`
  unfoldable pub load_rd : ℕ → ℕ → ℕ → Machine D → Outcome (Machine D)
  load_rd rd addr len m = do
    (v, mem) ← vaddr_read addr len m.mem
    write_rd rd v (record m { mem = mem })

  -- `Mw(addr, len, v)`
  unfoldable pub store : ℕ → ℕ → ℕ → Machine D → Outcome (Machine D)
  store addr len v m = do mem ← vaddr_write addr len v m.mem; ok (record m { mem = mem })

  -- The execute body of each line; the first part of the result is `s->dnpc`.
  unfoldable pub execute_body : Op → Decode → Operands → Machine D → Outcome (ℕ × Machine D)
  execute_body lui s o m = do m' ← write_rd o.rd o.imm m; ok (s.dnpc, m')
  execute_body jalr s o m = do
    m' ← write_rd o.rd (u32 (s.pc + 4)) m
    ok (bit_and (u32 (o.src1 + o.imm)) (2 ^ 32 - 1 - 1), m')
  execute_body lw s o m = do m' ← load_rd o.rd (u32 (o.src1 + o.imm)) 4 m; ok (s.dnpc, m')
  execute_body lbu s o m = do m' ← load_rd o.rd (u32 (o.src1 + o.imm)) 1 m; ok (s.dnpc, m')
  execute_body sb s o m = do m' ← store (u32 (o.src1 + o.imm)) 1 o.src2 m; ok (s.dnpc, m')
  execute_body sw s o m = do m' ← store (u32 (o.src1 + o.imm)) 4 o.src2 m; ok (s.dnpc, m')
  execute_body addi s o m = do m' ← write_rd o.rd (u32 (o.src1 + o.imm)) m; ok (s.dnpc, m')
  execute_body add s o m = do m' ← write_rd o.rd (u32 (o.src1 + o.src2)) m; ok (s.dnpc, m')
  execute_body ebreak s o m = do
    code ← get_gpr 10 m.cpu
    ok (s.dnpc, set_nemu_state RunState.end s.pc code m)
  execute_body inv s o m = do m' ← invalid_inst s.pc m; ok (s.dnpc, m')

  -- INSTPAT_MATCH for a line that fits, nothing after a fall through.
  unfoldable pub run_pat : Option Op → Decode → Machine D → Outcome (ℕ × Machine D)
  run_pat none s m = ok (s.dnpc, m)
  run_pat (some p) s m = do o ← decode_operand s.inst (type_of p) m.cpu; execute_body p s o m

  -- The end of decode_exec: `R(0) = 0`, with `s->dnpc` as the body left it.
  unfoldable pub reset_zero : Decode → ℕ × Machine D → Outcome (Decode × Machine D)
  reset_zero s (dnpc, m) = do m' ← write_rd 0 0 m; ok (record s { dnpc = dnpc }, m')

  unfoldable pub decode_exec : Decode → Machine D → Outcome (Decode × Machine D)
  decode_exec s m = do
    let s1 = record s { dnpc = s.snpc }
    p ← select inst_pats s1.inst
    r ← run_pat p s1 m
    reset_zero s1 r

  unfoldable pub isa_exec_once : Decode → Machine D → Outcome (Decode × Machine D)
  isa_exec_once s m = do
    (inst, snpc, mem) ← inst_fetch s.snpc 4 m.mem
    decode_exec (record s { inst = inst; snpc = snpc }) (record m { mem = mem })
