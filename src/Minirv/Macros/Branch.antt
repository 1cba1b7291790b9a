-- ===== src/Minirv/Macros/Branch.antt =====
-- abstract-machine/tools/minirv/inst-replace.h: the branches. `next` is the address of the label
-- that branch_resolve sets behind itself.
use model_lib.Base.{ℕ, ◌-◌, ◌*◌, ◌^◌, Bool, true, false, List, [], ◌∷◌, ◌++◌, if◌then◌else◌}
use model_lib.Minirv.{Reg, x0, sp, gp, tp, slot, at, Instr, add, addi, lw, lbu, sw, same_reg}
use model_lib.Minirv.Macros.{Symbols, la, jr, msb, slli, slt, sltu, var_a, var_b}
use model_lib.Minirv.Macros.Equal.{seq, seqz}

-- The 32-bit words of the offsets -1 and -VAR_B * 4.
abbrev pub minus_one : ℕ
minus_one = 2 ^ 32 - 1

abbrev pub minus_var_b : ℕ
minus_var_b = 2 ^ 32 - 4 * var_b

unfoldable pub branch_resolve : ℕ → Bool → ℕ → List Instr
branch_resolve target is_tp_high_sel_target next =
    slli tp tp 2
    ++ add tp sp tp
      ∷ (if is_tp_high_sel_target
          then la gp target ++ sw gp (slot var_a 0) ∷ la gp next ++ sw gp (slot var_b 0) ∷ []
          else la gp next ++ sw gp (slot var_a 0) ∷ la gp target ++ sw gp (slot var_b 0) ∷ [])
    ++ lw tp (at minus_var_b tp) ∷ jr tp ∷ []

module _ (sym : Symbols) where
  -- tp = (rs1 == rs2), as beq and bne find it; with x0 first they call themselves, swapped.
  abbrev pub equal_code : Reg → Reg → List Instr
  equal_code rs1 rs2 =
      if same_reg rs2 x0
      then seqz sym tp rs1
      else (if same_reg rs1 x0 then seqz sym tp rs2 else seq sym tp rs1 rs2)

  unfoldable pub beq : Reg → Reg → ℕ → ℕ → List Instr
  beq rs1 rs2 target next = equal_code rs1 rs2 ++ branch_resolve target true next

  unfoldable pub bne : Reg → Reg → ℕ → ℕ → List Instr
  bne rs1 rs2 target next = equal_code rs1 rs2 ++ branch_resolve target false next

  -- tp = (rs2 <= 0), which blt and bge have in common.
  abbrev pub not_positive_code : Reg → List Instr
  not_positive_code rs2 =
      msb gp rs2
      ++ addi tp rs2 minus_one ∷ msb tp tp
      ++ add gp gp tp ∷ la tp sym.or1
      ++ add tp gp tp ∷ lbu tp (at 0 tp) ∷ []

  unfoldable pub blt : Reg → Reg → ℕ → ℕ → List Instr
  blt rs1 rs2 target next =
      if same_reg rs2 x0
      then msb tp rs1 ++ branch_resolve target true next
      else (if same_reg rs1 x0
          then not_positive_code rs2 ++ branch_resolve target false next
          else slt sym tp rs1 rs2 ++ branch_resolve target true next)

  unfoldable pub bltu : Reg → Reg → ℕ → ℕ → List Instr
  bltu rs1 rs2 target next = sltu sym tp rs1 rs2 ++ branch_resolve target true next

  unfoldable pub bge : Reg → Reg → ℕ → ℕ → List Instr
  bge rs1 rs2 target next =
      if same_reg rs1 x0
      then not_positive_code rs2 ++ branch_resolve target true next
      else slt sym tp rs1 rs2 ++ branch_resolve target false next

  unfoldable pub bgeu : Reg → Reg → ℕ → ℕ → List Instr
  bgeu rs1 rs2 target next = sltu sym tp rs1 rs2 ++ branch_resolve target false next
