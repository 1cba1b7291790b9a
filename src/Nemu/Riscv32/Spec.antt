-- ===== src/Nemu/Riscv32/Spec.antt =====
-- The MiniRV instructions as the RISC-V manual gives them: their encodings, and what each does
-- to the registers, the memory and the program counter. Nothing here is taken from the code but
-- the memory itself.
use model_lib.Base.{
  ℕ, zero, suc, ◌+◌, ◌-◌, ◌*◌, ◌/◌, ◌%◌, ◌^◌, ◌<◌, List, ltb, if◌then◌else◌, get_or, set,
}
use model_lib.Base.Words.{u32}
use model_lib.Outcome.{Outcome, ok, ◌>>=◌}
use model_lib.Nemu.Paddr.{paddr_read, paddr_write}
use model_lib.Nemu.Riscv32.{Machine}

-- The operands in the order of the assembler: rd, rs1, imm or rs2; for a store rs2, rs1, imm.
pub data Instr : Type 0 where
  lui : ℕ → ℕ → Instr
  jalr : ℕ → ℕ → ℕ → Instr
  lw : ℕ → ℕ → ℕ → Instr
  lbu : ℕ → ℕ → ℕ → Instr
  sb : ℕ → ℕ → ℕ → Instr
  sw : ℕ → ℕ → ℕ → Instr
  addi : ℕ → ℕ → ℕ → Instr
  add : ℕ → ℕ → ℕ → Instr

-- The I, S, R and U formats.
abbrev pub i_format : ℕ → ℕ → ℕ → ℕ → ℕ → ℕ
i_format op f3 rd rs1 imm = imm * 2 ^ 20 + rs1 * 2 ^ 15 + f3 * 2 ^ 12 + rd * 2 ^ 7 + op

abbrev pub s_format : ℕ → ℕ → ℕ → ℕ → ℕ → ℕ
s_format op f3 rs2 rs1 imm =
    imm / 32 * 2 ^ 25 + rs2 * 2 ^ 20 + rs1 * 2 ^ 15 + f3 * 2 ^ 12 + imm % 32 * 2 ^ 7 + op

abbrev pub encode : Instr → ℕ
encode (Instr.lui rd imm) = imm * 2 ^ 12 + rd * 2 ^ 7 + 0x37
encode (Instr.jalr rd rs1 imm) = i_format 0x67 0 rd rs1 imm
encode (Instr.lw rd rs1 imm) = i_format 0x03 2 rd rs1 imm
encode (Instr.lbu rd rs1 imm) = i_format 0x03 4 rd rs1 imm
encode (Instr.sb rs2 rs1 imm) = s_format 0x23 0 rs2 rs1 imm
encode (Instr.sw rs2 rs1 imm) = s_format 0x23 2 rs2 rs1 imm
encode (Instr.addi rd rs1 imm) = i_format 0x13 0 rd rs1 imm
encode (Instr.add rd rs1 rs2) = rs2 * 2 ^ 20 + rs1 * 2 ^ 15 + rd * 2 ^ 7 + 0x33

-- The operands fit the encoding and name registers that there are.
abbrev pub Fits12 : ℕ → ℕ → ℕ → ℕ → Type 0
Fits12 n a b imm = (a < n) × (b < n) × (imm < 2 ^ 12)

abbrev pub IsInstr : ℕ → Instr → Type 0
IsInstr n (Instr.lui rd imm) = (rd < n) × (imm < 2 ^ 20)
IsInstr n (Instr.jalr rd rs1 imm) = Fits12 n rd rs1 imm
IsInstr n (Instr.lw rd rs1 imm) = Fits12 n rd rs1 imm
IsInstr n (Instr.lbu rd rs1 imm) = Fits12 n rd rs1 imm
IsInstr n (Instr.sb rs2 rs1 imm) = Fits12 n rs2 rs1 imm
IsInstr n (Instr.sw rs2 rs1 imm) = Fits12 n rs2 rs1 imm
IsInstr n (Instr.addi rd rs1 imm) = Fits12 n rd rs1 imm
IsInstr n (Instr.add rd rs1 rs2) = (rd < n) × (rs1 < n) × (rs2 < n)

-- A 12-bit immediate with its sign, as a word.
abbrev pub extend12 : ℕ → ℕ
extend12 imm = if ltb imm 2048 then imm else imm + 2 ^ 32 - 4096

-- Register 0 cannot be written.
abbrev pub assign : ℕ → ℕ → List ℕ → List ℕ
assign zero v xs = xs
assign (suc rd) v xs = set xs (suc rd) v

module _ {D : Type 0} where
  abbrev pub reg : Machine D → ℕ → ℕ
  reg m i = get_or m.cpu.gpr i 0

  abbrev pub assigned : ℕ → ℕ → Machine D → Machine D
  assigned rd v m = record m { cpu = record (m.cpu) { gpr = assign rd v m.cpu.gpr } }

  abbrev pub address : Machine D → ℕ → ℕ → ℕ
  address m rs1 imm = u32 (reg m rs1 + extend12 imm)

  abbrev pub loaded : ℕ → ℕ → ℕ → ℕ → Machine D → Outcome (ℕ × Machine D)
  loaded pc rd addr len m = do
    (v, mem) ← paddr_read addr len m.mem
    ok (u32 (pc + 4), assigned rd v (record m { mem = mem }))

  abbrev pub stored : ℕ → ℕ → ℕ → ℕ → Machine D → Outcome (ℕ × Machine D)
  stored pc addr len v m = do
    mem ← paddr_write addr len v m.mem
    ok (u32 (pc + 4), record m { mem = mem })

  -- The next program counter, and the state after the instruction at `pc`.
  abbrev pub step : Instr → ℕ → Machine D → Outcome (ℕ × Machine D)
  step (Instr.lui rd imm) pc m = ok (u32 (pc + 4), assigned rd (imm * 2 ^ 12) m)
  step (Instr.jalr rd rs1 imm) pc m =
      ok (address m rs1 imm - address m rs1 imm % 2, assigned rd (u32 (pc + 4)) m)
  step (Instr.lw rd rs1 imm) pc m = loaded pc rd (address m rs1 imm) 4 m
  step (Instr.lbu rd rs1 imm) pc m = loaded pc rd (address m rs1 imm) 1 m
  step (Instr.sb rs2 rs1 imm) pc m = stored pc (address m rs1 imm) 1 (reg m rs2) m
  step (Instr.sw rs2 rs1 imm) pc m = stored pc (address m rs1 imm) 4 (reg m rs2) m
  step (Instr.addi rd rs1 imm) pc m =
      ok (u32 (pc + 4), assigned rd (u32 (reg m rs1 + extend12 imm)) m)
  step (Instr.add rd rs1 rs2) pc m = ok (u32 (pc + 4), assigned rd (u32 (reg m rs1 + reg m rs2)) m)
