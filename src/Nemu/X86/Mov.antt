-- ===== src/Nemu/X86/Mov.antt =====
-- The mov instructions between a register and an operand: their bytes, and what they do on the
-- registers of the code. Manual has what they do on those of the processor.
pub mod Exec
pub mod Refine
pub mod Manual
pub mod Agree
use model_lib.Base.{
  ℕ, zero, suc, ◌+◌, ◌-◌, ◌*◌, ◌/◌, ◌%◌, ◌^◌, ◌≤◌, ◌<◌, min, bit_and, bit_or, bit_xor, ◌≡◌, refl,
  sym, ap, ap₂, ◌∙◌, ◌≢◌, ◌↔◌, ◌⊎◌, inl, inr, Bool, true, false, not, ◌&&◌, ◌||◌, Option, none,
  some, List, [], ◌∷◌, ◌++◌, map, reverse, arith, ltb, leb, ◌==◌, ◌!=◌, if◌then◌else◌, ltb→lt,
  lt→ltb, le→ltb, ==_iff, ==_refl, ==_of_ne, Bool-cases, Option-cases, length, get_elem?, get_or,
  set, take, replicate, length-append, length-set, length-replicate, get_or-set_self, get_or-set_ne,
  get_or-append_left, get_or-append_length,
}
use model_lib.Outcome.{Outcome, ok, panic, ◌>>=◌}
use model_lib.Nemu.Paddr.{Mem, vaddr_read, vaddr_write}
use model_lib.Nemu.X86.{Cpu, Decode, Machine, entry}
use model_lib.Nemu.X86.Address.Manual.{Place, IsPlace, mod_rm_byte, encode, effective}

-- An operand is a register or a place in memory.
pub data Operand : Type 0 where
  in_reg : ℕ → Operand
  in_mem : Place → Operand

abbrev pub IsOperand : Operand → Type 0
IsOperand (in_reg r) = r < 8
IsOperand (in_mem p) = IsPlace p

abbrev pub operand_bytes : ℕ → Operand → List ℕ
operand_bytes reg (in_reg r) = mod_rm_byte 3 reg r ∷ []
operand_bytes reg (in_mem p) = encode reg p

pub data Size : Type 0 where
  byte word long : Size

abbrev pub bytes_of : Size → ℕ
bytes_of byte = 1
bytes_of word = 2
bytes_of long = 4

-- From the register to the operand, or back.
pub data Way : Type 0 where
  store load : Way

abbrev pub opcode : Way → Size → ℕ
opcode store byte = 0x88
opcode store word = 0x89
opcode store long = 0x89
opcode load byte = 0x8a
opcode load word = 0x8b
opcode load long = 0x8b

abbrev pub prefix : Size → List ℕ
prefix byte = []
prefix word = 0x66 ∷ []
prefix long = []

abbrev pub mov_code : Way → Size → ℕ → Operand → List ℕ
mov_code way size reg op = prefix size ++ (opcode way size ∷ operand_bytes reg op)

-- Behind the instruction.
abbrev pub behind : ℕ → Decode → Decode
behind pc s = record s { snpc = pc; dnpc = pc }

-- The part of a register of the code that has a size, a field of its own: the bytes are those of the
-- first four registers, the lower ones first.
abbrev pub get_part : Size → ℕ → Cpu → ℕ
get_part long r c = (entry c r).long
get_part word r c = (entry c r).word
get_part byte r c = if ltb r 4 then (entry c r).byte0 else (entry c (r - 4)).byte1

abbrev pub set_part : Size → ℕ → ℕ → Cpu → Cpu
set_part long r v c = record c { gpr = set c.gpr r (record (entry c r) { long = v % 2 ^ 32 }) }
set_part word r v c = record c { gpr = set c.gpr r (record (entry c r) { word = v % 2 ^ 16 }) }
set_part byte r v c =
    if ltb r 4
    then record c { gpr = set c.gpr r (record (entry c r) { byte0 = v % 2 ^ 8 }) }
    else record c { gpr = set c.gpr (r - 4) (record (entry c (r - 4)) { byte1 = v % 2 ^ 8 }) }

module _ {D : Type 0} where
  -- An operand in memory may lie outside of it; one in a register is always there.
  abbrev pub get_operand : Operand → Size → Machine D → Outcome (ℕ × Machine D)
  get_operand (in_reg r) size m = ok (get_part size r m.cpu, m)
  get_operand (in_mem p) size m = do
    (v, mem) ← vaddr_read (effective p m.cpu) (bytes_of size) m.mem
    ok (v, record m { mem = mem })

  abbrev pub set_operand : Operand → Size → ℕ → Machine D → Outcome (Machine D)
  set_operand (in_reg r) size v m = ok (record m { cpu = set_part size r v m.cpu })
  set_operand (in_mem p) size v m = do
    mem ← vaddr_write (effective p m.cpu) (bytes_of size) v m.mem
    ok (record m { mem = mem })

  -- A mov on these parts.
  abbrev pub mov_parts : Way → Size → ℕ → Operand → Machine D → Outcome (Machine D)
  mov_parts store size reg op m = set_operand op size (get_part size reg m.cpu) m
  mov_parts load size reg op m = do
    (v, m') ← get_operand op size m
    ok (record m' { cpu = set_part size reg v m'.cpu })
