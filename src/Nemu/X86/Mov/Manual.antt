-- ===== src/Nemu/X86/Mov/Manual.antt =====
-- The manual of the processor on a mov between a register and an operand. There are eight registers
-- of 32 bits; those of 16 bits are their lower halves, and those of 8 bits the two lower bytes of the
-- first four.
use model_lib.Base.{ℕ, ◌+◌, ◌-◌, ◌*◌, ◌/◌, ◌%◌, ◌^◌, ltb, if◌then◌else◌}
use model_lib.Base.Memory.{update}
use model_lib.Outcome.{Outcome, ok, ◌>>=◌}
use model_lib.Nemu.Paddr.{Mem, vaddr_read, vaddr_write}
use model_lib.Nemu.X86.Address.Manual.{address}
use model_lib.Nemu.X86.Mov.{
  Operand, in_reg, in_mem, Size, byte, word, long, bytes_of, Way, store, load,
}

abbrev pub Registers : Type 0
Registers = ℕ → ℕ

abbrev pub get_reg : Size → ℕ → Registers → ℕ
get_reg long r regs = regs r
get_reg word r regs = regs r % 2 ^ 16
get_reg byte r regs = if ltb r 4 then regs r % 2 ^ 8 else regs (r - 4) / 2 ^ 8 % 2 ^ 8

-- A write leaves the other bytes of the register as they are.
abbrev pub set_reg : Size → ℕ → ℕ → Registers → Registers
set_reg long r v regs = update regs r (v % 2 ^ 32)
set_reg word r v regs = update regs r (regs r / 2 ^ 16 * 2 ^ 16 + v % 2 ^ 16)
set_reg byte r v regs =
    if ltb r 4
    then update regs r (regs r / 2 ^ 8 * 2 ^ 8 + v % 2 ^ 8)
    else update regs (r - 4)
        (regs (r - 4) / 2 ^ 16 * 2 ^ 16 + v % 2 ^ 8 * 2 ^ 8 + regs (r - 4) % 2 ^ 8)

-- What a program sees of the processor, and its memory.
pub record State (D : Type 0) : Type 0 where
  pub regs : Registers
  pub mem : Mem D

module _ {D : Type 0} where
  abbrev pub get_operand : Operand → Size → State D → Outcome (ℕ × State D)
  get_operand (in_reg r) size t = ok (get_reg size r t.regs, t)
  get_operand (in_mem p) size t = do
    (v, mem) ← vaddr_read (address p t.regs) (bytes_of size) t.mem
    ok (v, record t { mem = mem })

  abbrev pub set_operand : Operand → Size → ℕ → State D → Outcome (State D)
  set_operand (in_reg r) size v t = ok (record t { regs = set_reg size r v t.regs })
  set_operand (in_mem p) size v t = do
    mem ← vaddr_write (address p t.regs) (bytes_of size) v t.mem
    ok (record t { mem = mem })

  abbrev pub mov : Way → Size → ℕ → Operand → State D → Outcome (State D)
  mov store size reg op t = set_operand op size (get_reg size reg t.regs) t
  mov load size reg op t = do
    (v, t') ← get_operand op size t
    ok (record t' { regs = set_reg size reg v t'.regs })
