-- ===== src/Minirv/Macros.antt =====
-- abstract-machine/tools/minirv/inst-replace.h: the macros, each as the code that the assembler
-- puts in its place. The addresses of the tables come from the linker.
pub mod Words
pub mod Signs
pub mod Less
pub mod Logic
pub mod Jumps
pub mod Positive
pub mod Ordered
pub mod Equal
pub mod Shift
pub mod Branch
pub mod Pseudo
use model_lib.Base.{
  ℕ, zero, suc, ◌+◌, ◌-◌, ◌*◌, ◌/◌, ◌%◌, ◌^◌, ◌≤◌, ◌<◌, min, bit_and, bit_or, bit_xor, ◌≡◌, refl,
  sym, ap, ap₂, ◌∙◌, ◌≢◌, ◌↔◌, ◌⊎◌, inl, inr, Bool, true, false, not, ◌&&◌, ◌||◌, Option, none,
  some, List, [], ◌∷◌, ◌++◌, map, reverse, arith, ltb, leb, ◌==◌, ◌!=◌, if◌then◌else◌, ltb→lt,
  lt→ltb, le→ltb, ==_iff, ==_refl, ==_of_ne, Bool-cases, Option-cases, length, get_elem?, get_or,
  set, take, replicate, length-append, length-set, length-replicate, get_or-set_self, get_or-set_ne,
  get_or-append_left, get_or-append_length,
}
use model_lib.Base.Words.{u8, u16, u32, u64, sub32, ◌<<<◌, ◌>>>◌}
use model_lib.Minirv.{
  Reg, x0, ra, sp, gp, tp, s0, s1, other, Place, slot, at, Instr, add, addi, lui, lw, lbu, sw, sb,
  jalr, same_reg,
}

-- The slots VAR_A to VAR_D, and those of PUSH and POP.
abbrev pub var_a : ℕ
var_a = 4

abbrev pub var_b : ℕ
var_b = 5

abbrev pub var_c : ℕ
var_c = 6

abbrev pub var_d : ℕ
var_d = 7

-- %hi and %lo of a symbol, the latter with its sign.
abbrev pub hi : ℕ → ℕ
hi addr = (addr + 2048) / 4096 % 2 ^ 20

abbrev pub lo : ℕ → ℕ
lo addr = if ltb (addr % 4096) 2048 then addr % 4096 else addr % 4096 + 2 ^ 32 - 4096

unfoldable pub la : Reg → ℕ → List Instr
la r addr = lui r (hi addr) ∷ addi r r (lo addr) ∷ []

abbrev pub mv : Reg → Reg → Instr
mv rd rs = addi rd rs 0

abbrev pub jr : Reg → Instr
jr r = jalr x0 r

-- The symbols of the tables.
pub record Symbols : Type 0 where
  pub same_result : ℕ
  pub check_8bit_0 : ℕ
  pub slt1 : ℕ
  pub sltu1 : ℕ
  pub or1 : ℕ
  pub logic_shift : ℕ
  pub check_same_array : ℕ

unfoldable pub call_template : Reg → ℕ → List Instr
call_template r addr = la r addr ++ (jalr r r ∷ [])

unfoldable pub j : ℕ → List Instr
j addr = la tp addr ++ (jr tp ∷ [])

unfoldable pub jal : Reg → ℕ → List Instr
jal rd addr = if same_reg rd x0 then j addr else call_template rd addr

unfoldable pub getbyte : Reg → Reg → ℕ → List Instr
getbyte rd rs1 byte = sw rs1 (slot var_c 0) ∷ lbu rd (slot var_c byte) ∷ []

-- `sh` to a slot or to an address.
abbrev pub after : ℕ → Place → Place
after k (slot n b) = slot n (b + k)
after k (at off r) = at (off + k) r

unfoldable pub sh : Reg → Place → List Instr
sh rs p = sb rs (after 0 p) ∷ (getbyte tp rs 1 ++ (sb tp (after 1 p) ∷ []))

-- slli by less than 16, and by more; the rest of a long shift is again a slli of rd by rd.
unfoldable pub slli_short : ℕ → Reg → Reg → List Instr
slli_short zero rd rs1 = if same_reg rd rs1 then [] else (mv rd rs1 ∷ [])
slli_short (suc n) rd rs1 = add rd rs1 rs1 ∷ replicate n (add rd rd rd)

unfoldable pub slli : Reg → Reg → ℕ → List Instr
slli rd rs1 imm =
    if leb 24 imm
    then sw x0 (slot var_a 0)
      ∷ sb rs1 (slot var_a 3)
      ∷ lw rd (slot var_a 0)
      ∷ slli_short (imm - 24) rd rd
    else (if leb 16 imm
        then sw x0 (slot var_a 0)
          ∷ (sh rs1 (slot var_a 2) ++ (lw rd (slot var_a 0) ∷ slli_short (imm - 16) rd rd))
        else slli_short imm rd rs1)

unfoldable pub msb : Reg → Reg → List Instr
msb rd rs1 = getbyte rd rs1 3 ++ (slli rd rd 1 ++ getbyte rd rd 1)

module _ (sym : Symbols) where
  abbrev pub and8_table : ℕ
  and8_table = sym.logic_shift

  abbrev pub or8_table : ℕ
  or8_table = and8_table + 256 * 256

  abbrev pub xor8_table : ℕ
  xor8_table = or8_table + 256 * 256

  abbrev pub sll8_table : ℕ
  sll8_table = xor8_table + 256 * 256

  abbrev pub srl8_table : ℕ
  srl8_table = sll8_table + 32 * 256 * 4

  abbrev pub sra8_table : ℕ
  sra8_table = srl8_table + 32 * 256 * 4

  -- One byte of `not`.
  abbrev pub not_byte : ℕ → List Instr
  not_byte b = lbu gp (slot var_c b) ∷ add gp gp tp ∷ lbu gp (at 0 gp) ∷ sb gp (slot var_d b) ∷ []

  -- `not` is a name of the library.
  unfoldable pub not_macro : Reg → Reg → List Instr
  not_macro rd rs1 =
      sw gp (slot 3 0)
      ∷ sw rs1 (slot var_c 0)
      ∷ (la tp (xor8_table + 0xff * 256)
          ++ (not_byte 3
              ++ (not_byte 2
                  ++ (not_byte 1
                      ++ (not_byte 0 ++ (lw gp (slot 3 0) ∷ lw rd (slot var_d 0) ∷ []))))))

  unfoldable pub sub : Reg → Reg → Reg → List Instr
  sub rd rs1 rs2 = not_macro tp rs2 ++ (add rd rs1 tp ∷ addi rd rd 1 ∷ [])

  unfoldable pub slt_template : ℕ → Reg → Reg → Reg → List Instr
  slt_template lut rd rs1 rs2 =
      sw s0 (slot 1 0)
        ∷ sw s1 (slot 2 0)
        ∷ sw rs2 (slot var_a 0)
        ∷ mv s0 rs1
        ∷ lw s1 (slot var_a 0)
        ∷ msb gp s0
      ++ slli gp gp 1
      ++ msb tp s1
      ++ add gp gp tp ∷ slli gp gp 1
      ++ sub tp s0 s1
      ++ msb tp tp
      ++ add gp gp tp ∷ la tp lut
      ++ add tp tp gp ∷ lw s1 (slot 2 0) ∷ lw s0 (slot 1 0) ∷ lbu rd (at 0 tp) ∷ []

  abbrev pub slt : Reg → Reg → Reg → List Instr
  slt rd rs1 rs2 = slt_template sym.slt1 rd rs1 rs2

  abbrev pub sltu : Reg → Reg → Reg → List Instr
  sltu rd rs1 rs2 = slt_template sym.sltu1 rd rs1 rs2

  abbrev pub logic8_byte_internal : Reg → ℕ → List Instr
  logic8_byte_internal lut_reg b =
      lbu tp (slot var_a b)
      ∷ sb tp (slot var_d 1)
      ∷ lbu tp (slot var_b b)
      ∷ sb tp (slot var_d 0)
      ∷ lw tp (slot var_d 0)
      ∷ add tp lut_reg tp
      ∷ lbu tp (at 0 tp)
      ∷ sb tp (slot var_c b)
      ∷ []

  -- The code of `logic`.
  abbrev pub logic_code : ℕ → Reg → Reg → Reg → List Instr
  logic_code lut rd rs1 rs2 =
      sw rs1 (slot var_a 0)
      ∷ sw rs2 (slot var_b 0)
      ∷ (la rd lut
          ++ (sw x0 (slot var_d 0)
              ∷ (logic8_byte_internal rd 3
                  ++ (logic8_byte_internal rd 2
                      ++ (logic8_byte_internal rd 1
                          ++ (logic8_byte_internal rd 0 ++ (lw rd (slot var_c 0) ∷ [])))))))

  -- `none` is the .abort of the assembler.
  unfoldable pub logic : ℕ → Reg → Reg → Reg → Option (List Instr)
  logic lut rd rs1 rs2 =
      let is_sp = same_reg rd sp || same_reg rs1 sp || same_reg rs2 sp in
      let is_gp = same_reg rd gp || same_reg rs1 gp || same_reg rs2 gp in
      let is_tp = same_reg rd tp || same_reg rs1 tp in
      if same_reg rd x0
      then some []
      else (if is_sp || is_gp || is_tp then none else some (logic_code lut rd rs1 rs2))

  abbrev pub and_macro : Reg → Reg → Reg → Option (List Instr)
  and_macro rd rs1 rs2 = logic and8_table rd rs1 rs2

  abbrev pub or_macro : Reg → Reg → Reg → Option (List Instr)
  or_macro rd rs1 rs2 = logic or8_table rd rs1 rs2

  abbrev pub xor_macro : Reg → Reg → Reg → Option (List Instr)
  xor_macro rd rs1 rs2 = logic xor8_table rd rs1 rs2
