-- ===== src/Minirv/Macros/Equal.antt =====
-- abstract-machine/tools/minirv/inst-replace.h: the macros that test for equality.
use model_lib.Base.{ℕ, List, [], ◌∷◌, ◌++◌}
use model_lib.Minirv.{Reg, x0, gp, tp, s0, s1, slot, at, Instr, add, addi, lw, lbu, sw, sb}
use model_lib.Minirv.Macros.{Symbols, la, var_a, var_b}

unfoldable pub check_8bit_same : Reg → Reg → ℕ → List Instr
check_8bit_same table rd b =
    lbu rd (slot var_a b)
    ∷ add tp table rd
    ∷ addi rd x0 1
    ∷ sb rd (at 0 tp)
    ∷ lbu rd (slot var_b b)
    ∷ add rd table rd
    ∷ sb x0 (at 0 rd)
    ∷ lbu rd (at 0 tp)
    ∷ []

unfoldable pub check_8bit_0 : Reg → Reg → ℕ → List Instr
check_8bit_0 table rd b = lbu rd (slot var_a b) ∷ add rd table rd ∷ lbu rd (at 0 rd) ∷ []

module _ (sym : Symbols) where
  unfoldable pub seq : Reg → Reg → Reg → List Instr
  seq rd rs1 rs2 =
      sw rs1 (slot var_a 0)
        ∷ sw rs2 (slot var_b 0)
        ∷ sw s0 (slot 1 0)
        ∷ sw s1 (slot 2 0)
        ∷ la s0 sym.check_same_array
      ++ check_8bit_same s0 gp 0
      ++ check_8bit_same s0 s1 1
      ++ add gp gp s1 ∷ check_8bit_same s0 s1 2
      ++ add gp gp s1 ∷ check_8bit_same s0 s1 3
      ++ add gp gp s1 ∷ la tp sym.same_result
      ++ add tp tp gp ∷ lw s1 (slot 2 0) ∷ lw s0 (slot 1 0) ∷ lbu rd (at 0 tp) ∷ []

  unfoldable pub seqz : Reg → Reg → List Instr
  seqz rd rs1 =
      sw rs1 (slot var_a 0) ∷ sw s0 (slot 1 0) ∷ la s0 sym.check_8bit_0
      ++ check_8bit_0 s0 gp 0
      ++ check_8bit_0 s0 tp 1
      ++ add gp gp tp ∷ check_8bit_0 s0 tp 2
      ++ add gp gp tp ∷ check_8bit_0 s0 tp 3
      ++ add gp gp tp ∷ la tp sym.same_result
      ++ add tp tp gp ∷ lw s0 (slot 1 0) ∷ lbu rd (at 0 tp) ∷ []
