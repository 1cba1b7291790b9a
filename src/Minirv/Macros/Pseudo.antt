-- ===== src/Minirv/Macros/Pseudo.antt =====
-- abstract-machine/tools/minirv/inst-replace.h: the instructions with an immediate operand, and
-- the pseudo-instructions of the assembler.
use model_lib.Base.{ℕ, Option, none, some, List, ◌∷◌, ◌++◌}
use model_lib.Minirv.{Reg, x0, ra, tp, Instr, addi}
use model_lib.Minirv.Macros.{
  Symbols, la, jr, msb, call_template, slt, sltu, sub, and_macro, or_macro, xor_macro,
}
use model_lib.Minirv.Macros.Branch.{beq, bne, blt, bge, bltu, bgeu}

-- `li` of an immediate of 12 bits, given as its 32-bit word.
abbrev pub li : Reg → ℕ → Instr
li r imm = addi r x0 imm

-- def_itype, for a macro that is code, and for one that the assembler can refuse.
abbrev pub itype : (Reg → Reg → Reg → List Instr) → Reg → Reg → ℕ → List Instr
itype rtype rd rs1 imm = li tp imm ∷ rtype rd rs1 tp

abbrev pub itype_refusable :
    (Reg → Reg → Reg → Option (List Instr)) → Reg → Reg → ℕ → Option (List Instr)
itype_refusable rtype rd rs1 imm = elim (rtype rd rs1 tp) [
  | none ↦ none
  | some code ↦ some (li tp imm ∷ code)
]

abbrev pub call : ℕ → List Instr
call addr = call_template ra addr

abbrev pub tail : ℕ → List Instr
tail addr = la tp addr ++ jr tp ∷ call_template ra addr

module _ (sym : Symbols) where
  abbrev pub slti : Reg → Reg → ℕ → List Instr
  slti = itype (slt sym)

  abbrev pub sltiu : Reg → Reg → ℕ → List Instr
  sltiu = itype (sltu sym)

  abbrev pub andi : Reg → Reg → ℕ → Option (List Instr)
  andi = itype_refusable (and_macro sym)

  abbrev pub ori : Reg → Reg → ℕ → Option (List Instr)
  ori = itype_refusable (or_macro sym)

  abbrev pub xori : Reg → Reg → ℕ → Option (List Instr)
  xori = itype_refusable (xor_macro sym)

  abbrev pub neg : Reg → Reg → List Instr
  neg rd rs = sub sym rd x0 rs

  abbrev pub snez : Reg → Reg → List Instr
  snez rd rs = sltu sym rd x0 rs

  abbrev pub sgt : Reg → Reg → Reg → List Instr
  sgt rd rs1 rs2 = slt sym rd rs2 rs1

  abbrev pub sgtu : Reg → Reg → Reg → List Instr
  sgtu rd rs1 rs2 = sltu sym rd rs2 rs1

  abbrev pub sgtz : Reg → Reg → List Instr
  sgtz rd rs = slt sym rd x0 rs

  abbrev pub beqz : Reg → ℕ → ℕ → List Instr
  beqz rs target next = beq sym rs x0 target next

  abbrev pub bnez : Reg → ℕ → ℕ → List Instr
  bnez rs target next = bne sym rs x0 target next

  abbrev pub blez : Reg → ℕ → ℕ → List Instr
  blez rs target next = bge sym x0 rs target next

  abbrev pub bgez : Reg → ℕ → ℕ → List Instr
  bgez rs target next = bge sym rs x0 target next

  abbrev pub bltz : Reg → ℕ → ℕ → List Instr
  bltz rs target next = blt sym rs x0 target next

  abbrev pub bgtz : Reg → ℕ → ℕ → List Instr
  bgtz rs target next = blt sym x0 rs target next

  abbrev pub bgt : Reg → Reg → ℕ → ℕ → List Instr
  bgt rs rt target next = blt sym rt rs target next

  abbrev pub ble : Reg → Reg → ℕ → ℕ → List Instr
  ble rs rt target next = bge sym rt rs target next

  abbrev pub bgtu : Reg → Reg → ℕ → ℕ → List Instr
  bgtu rs rt target next = bltu sym rt rs target next

  abbrev pub bleu : Reg → Reg → ℕ → ℕ → List Instr
  bleu rs rt target next = bgeu sym rt rs target next

-- sltz is msb.
abbrev pub sltz : Reg → Reg → List Instr
sltz rd rs = msb rd rs
