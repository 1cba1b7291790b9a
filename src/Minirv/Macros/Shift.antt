-- ===== src/Minirv/Macros/Shift.antt =====
-- abstract-machine/tools/minirv/inst-replace.h: the shifts, and the loads that need them.
use model_lib.Base.{ℕ, ◌+◌, ◌-◌, ◌*◌, Bool, true, false, List, [], ◌∷◌, ◌++◌, ◌==◌, if◌then◌else◌}
use model_lib.Minirv.{Reg, x0, gp, tp, s0, Place, slot, at, Instr, add, lw, lbu, sw, sb}
use model_lib.Minirv.Macros.{
  Symbols, la, getbyte, slli, sh, after, and8_table, sll8_table, srl8_table, sra8_table, var_a,
  var_b, var_c, var_d,
}

-- The operand rs2 of shift_right_template, with its is_rs2_imm.
pub data Amount : Type 0 where
  by_reg : Reg → Amount
  by_imm : ℕ → Amount

unfoldable pub get_shift_byte_in_tp : Reg → ℕ → List Instr
get_shift_byte_in_tp base b =
    lbu tp (slot var_a b) ∷ slli tp tp 2 ++ add tp base tp ∷ lw tp (at 0 tp) ∷ []

module _ (sym : Symbols) where
  unfoldable pub getshamt : Reg → Reg → List Instr
  getshamt rd rs1 =
      sb rs1 (slot var_b 0) ∷ lbu rd (slot var_b 0) ∷ la tp (and8_table sym + 0x1f * 256)
      ++ add rd rd tp ∷ lbu rd (at 0 rd) ∷ []

  -- s0 = the row of a table, for an amount in a register.
  abbrev pub shift_row : Reg → ℕ → List Instr
  shift_row rs2 table =
      getshamt s0 rs2
      ++ sw x0 (slot var_b 0) ∷ sb s0 (slot var_b 1) ∷ lw s0 (slot var_b 0) ∷ slli s0 s0 2
      ++ la tp table
      ++ add s0 s0 tp ∷ []

  unfoldable pub sll : Reg → Reg → Reg → List Instr
  sll rd rs1 rs2 =
      sw s0 (slot 1 0) ∷ sw rs1 (slot var_a 0) ∷ shift_row rs2 (sll8_table sym)
      ++ sw x0 (slot var_b 0) ∷ get_shift_byte_in_tp s0 3
      ++ sb tp (slot var_b 3) ∷ lw gp (slot var_b 0) ∷ get_shift_byte_in_tp s0 2
      ++ sh tp (slot var_b 2)
      ++ lw tp (slot var_b 0) ∷ add gp gp tp ∷ get_shift_byte_in_tp s0 1
      ++ slli tp tp 8
      ++ add gp gp tp ∷ get_shift_byte_in_tp s0 0
      ++ lw s0 (slot 1 0) ∷ add rd gp tp ∷ []

  -- The fast path, by 24.
  abbrev pub shift_right_24 : Reg → Reg → Bool → List Instr
  shift_right_24 rd rs1 is_arith =
      if is_arith
      then sw rs1 (slot var_a 0) ∷ la tp (sra8_table sym + 24 * 1024)
        ++ lbu rd (slot var_a 3) ∷ slli rd rd 2
        ++ add tp tp rd ∷ lw rd (at 0 tp) ∷ []
      else getbyte rd rs1 3

  abbrev pub shift_right_row : Amount → List Instr
  shift_right_row (by_reg rs2) = shift_row rs2 (srl8_table sym)
  shift_right_row (by_imm imm) = la s0 (srl8_table sym + imm * 1024)

  -- Bytes 0 to 2 of the result, from the three lower bytes of rs1, into gp.
  abbrev pub shift_right_low : List Instr
  shift_right_low =
      get_shift_byte_in_tp s0 2
      ++ sw tp (slot var_b 0) ∷ get_shift_byte_in_tp s0 1
      ++ sw tp (slot var_c 0) ∷ get_shift_byte_in_tp s0 0
      ++ sw tp (slot var_d 0)
        ∷ lbu gp (slot var_b 1)
        ∷ lbu tp (slot var_c 2)
        ∷ add gp gp tp
        ∷ lbu tp (slot var_d 3)
        ∷ add gp gp tp
        ∷ sw gp (slot var_d 0)
        ∷ lbu gp (slot var_b 2)
        ∷ lbu tp (slot var_c 3)
        ∷ add gp gp tp
        ∷ sb gp (slot var_d 1)
        ∷ lbu gp (slot var_b 3)
        ∷ sb gp (slot var_d 2)
        ∷ lw gp (slot var_d 0)
        ∷ []

  abbrev pub shift_right_slow : Reg → Reg → Amount → Bool → List Instr
  shift_right_slow rd rs1 amount is_arith =
      sw s0 (slot 1 0) ∷ sw rs1 (slot var_a 0) ∷ shift_right_row amount
      ++ shift_right_low
      ++ (if is_arith then la tp (sra8_table sym - srl8_table sym) ++ add s0 s0 tp ∷ [] else [])
      ++ get_shift_byte_in_tp s0 3
      ++ lw s0 (slot 1 0) ∷ add rd gp tp ∷ []

  unfoldable pub shift_right_template : Reg → Reg → Amount → Bool → List Instr
  shift_right_template rd rs1 (by_reg rs2) is_arith = shift_right_slow rd rs1 (by_reg rs2) is_arith
  shift_right_template rd rs1 (by_imm imm) is_arith =
      if imm == 24
      then shift_right_24 rd rs1 is_arith
      else shift_right_slow rd rs1 (by_imm imm) is_arith

  abbrev pub srl : Reg → Reg → Reg → List Instr
  srl rd rs1 rs2 = shift_right_template rd rs1 (by_reg rs2) false

  abbrev pub sra : Reg → Reg → Reg → List Instr
  sra rd rs1 rs2 = shift_right_template rd rs1 (by_reg rs2) true

  abbrev pub srli : Reg → Reg → ℕ → List Instr
  srli rd rs1 imm = shift_right_template rd rs1 (by_imm imm) false

  abbrev pub srai : Reg → Reg → ℕ → List Instr
  srai rd rs1 imm = shift_right_template rd rs1 (by_imm imm) true

  unfoldable pub lb : Reg → Place → List Instr
  lb rd addr =
      sw x0 (slot var_a 0)
      ∷ lbu rd addr
      ∷ sb rd (slot var_a 3)
      ∷ lw rd (slot var_a 0)
      ∷ srai rd rd 24

  unfoldable pub lh : Reg → Place → List Instr
  lh rd addr =
      sw x0 (slot var_a 0)
        ∷ lbu gp (after 1 addr)
        ∷ sb gp (slot var_a 3)
        ∷ lw gp (slot var_a 0)
        ∷ srai gp gp 16
      ++ lbu rd (after 0 addr) ∷ add rd rd gp ∷ []

unfoldable pub lhu : Reg → Place → List Instr
lhu rd addr =
    sw x0 (slot var_a 0)
    ∷ lbu tp (after 1 addr)
    ∷ sb tp (slot var_a 1)
    ∷ lw tp (slot var_a 0)
    ∷ lbu rd (after 0 addr)
    ∷ add rd rd tp
    ∷ []
