-- ===== src/Nemu/Loongarch32r.antt =====
-- nemu/src/isa/loongarch32r/inst.c: decoding and execution. The registers, the fetch and the macros
-- are those of Riscv32: reg.h is the same text there.
pub mod Select
pub mod Manual
use model_lib.Base.{
  ℕ, zero, suc, ◌+◌, ◌-◌, ◌*◌, ◌/◌, ◌%◌, ◌^◌, ◌≤◌, ◌<◌, min, bit_and, bit_or, bit_xor, ◌≡◌, refl,
  sym, ap, ap₂, ◌∙◌, ◌≢◌, ◌↔◌, ◌⊎◌, inl, inr, Bool, true, false, not, ◌&&◌, ◌||◌, Option, none,
  some, List, [], ◌∷◌, ◌++◌, map, reverse, arith, ltb, leb, ◌==◌, ◌!=◌, if◌then◌else◌, ltb→lt,
  lt→ltb, le→ltb, ==_iff, ==_refl, ==_of_ne, Bool-cases, Option-cases, length, get_elem?, get_or,
  set, take, replicate, length-append, length-set, length-replicate, get_or-set_self, get_or-set_ne,
  get_or-append_left, get_or-append_length,
}
use model_lib.Base.Words.{u8, u16, u32, u64, sub32, ◌<<<◌, ◌>>>◌}
use Prim.Native.String.{String}
use model_lib.Outcome.{Outcome, ok, panic, ◌>>=◌}
use model_lib.Nemu.State.{RunState}
use model_lib.Nemu.Pattern.Block.{select_line}
use model_lib.Nemu.Riscv32.{
  Cpu, Decode, Machine, get_gpr, set_gpr, inst_fetch, set_nemu_state, invalid_inst,
}
use model_lib.Nemu.Riscv32.Inst.{bits, sext, Operands, write_rd, load_rd, store, reset_zero}

pub data InstType : Type 0 where
  type_2ri12 type_1ri20 type_n : InstType

-- `break` is `break_trap` here.
pub data Op : Type 0 where
  pcaddu12i ld_w st_w break_trap inv : Op

-- The pattern and the type of each INSTPAT line, and the lines in their order.
abbrev pub pattern_of : Op → String
pattern_of pcaddu12i = "0001110 ????? ????? ????? ????? ?????"
pattern_of ld_w = "0010100010 ???????????? ????? ?????"
pattern_of st_w = "0010100110 ???????????? ????? ?????"
pattern_of break_trap = "0000 0000 0010 10100 ????? ????? ?????"
pattern_of inv = "????????????????? ????? ????? ?????"

abbrev pub type_of : Op → InstType
type_of pcaddu12i = InstType.type_1ri20
type_of ld_w = InstType.type_2ri12
type_of st_w = InstType.type_2ri12
type_of break_trap = InstType.type_n
type_of inv = InstType.type_n

abbrev pub inst_pats : List Op
inst_pats = pcaddu12i ∷ ld_w ∷ st_w ∷ break_trap ∷ inv ∷ []

unfoldable pub simm12 : ℕ → ℕ
unfolding bits sext
simm12 i = u32 (sext (bits i 21 10) 12)

unfoldable pub simm20 : ℕ → ℕ
unfolding bits sext
simm20 i = u32 (u64 (sext (bits i 24 5) 20 <<< 12))

unfoldable pub decode_operand : ℕ → InstType → Cpu → Outcome Operands
decode_operand i InstType.type_1ri20 c = do
  src1 ← get_gpr (bits i 9 5) c
  ok (record { rd = bits i 4 0; src1 = src1; src2 = 0; imm = simm20 i })
decode_operand i InstType.type_2ri12 c = do
  src1 ← get_gpr (bits i 9 5) c
  ok (record { rd = bits i 4 0; src1 = src1; src2 = 0; imm = simm12 i })
decode_operand i InstType.type_n c = ok (record { rd = bits i 4 0; src1 = 0; src2 = 0; imm = 0 })

module _ {D : Type 0} where
  -- The execute body of each line; the first part of the result is `s->dnpc`.
  unfoldable pub execute_body : Op → Decode → Operands → Machine D → Outcome (ℕ × Machine D)
  execute_body pcaddu12i s o m = do m' ← write_rd o.rd (u32 (s.pc + o.imm)) m; ok (s.dnpc, m')
  execute_body ld_w s o m = do m' ← load_rd o.rd (u32 (o.src1 + o.imm)) 4 m; ok (s.dnpc, m')
  execute_body st_w s o m = do
    v ← get_gpr o.rd m.cpu
    m' ← store (u32 (o.src1 + o.imm)) 4 v m
    ok (s.dnpc, m')
  execute_body break_trap s o m = do
    code ← get_gpr 4 m.cpu
    ok (s.dnpc, set_nemu_state RunState.end s.pc code m)
  execute_body inv s o m = do m' ← invalid_inst s.pc m; ok (s.dnpc, m')

  unfoldable pub run_pat : Option Op → Decode → Machine D → Outcome (ℕ × Machine D)
  run_pat none s m = ok (s.dnpc, m)
  run_pat (some p) s m = do o ← decode_operand s.inst (type_of p) m.cpu; execute_body p s o m

  unfoldable pub decode_exec : Decode → Machine D → Outcome (Decode × Machine D)
  decode_exec s m = do
    let s1 = record s { dnpc = s.snpc }
    p ← select_line pattern_of inst_pats s1.inst
    r ← run_pat p s1 m
    reset_zero s1 r

  unfoldable pub isa_exec_once : Decode → Machine D → Outcome (Decode × Machine D)
  isa_exec_once s m = do
    (inst, snpc, mem) ← inst_fetch s.snpc 4 m.mem
    decode_exec (record s { inst = inst; snpc = snpc }) (record m { mem = mem })
