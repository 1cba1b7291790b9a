-- ===== src/Nemu/X86/Address/Manual.antt =====
-- The operands of the manual: what an operand in memory or in a register means, and its bytes.
use model_lib.Base.{ℕ, ◌+◌, ◌-◌, ◌*◌, ◌^◌, ◌<◌, ◌≢◌, List, [], ◌∷◌, ltb, if◌then◌else◌}
use model_lib.Base.Words.{u32}
use model_lib.Nemu.X86.{Cpu, entry, r_esp, r_ebp}
use model_lib.Nemu.X86.Code.{le32}

-- The constant that is added: none, a byte with its sign, or a word.
pub data Disp : Type 0 where
  none_ : Disp
  disp8 disp32 : ℕ → Disp

-- [disp], [base + disp], the same with a SIB byte, [base + index * 2 ^ ss + disp] and
-- [index * 2 ^ ss + disp].
pub data Place : Type 0 where
  absolute : ℕ → Place
  based based_sib : ℕ → Disp → Place
  indexed : ℕ → ℕ → ℕ → Disp → Place
  scaled : ℕ → ℕ → ℕ → Place

abbrev pub IsDisp : Disp → Type 0
IsDisp none_ = Unit {0}
IsDisp (disp8 d) = d < 256
IsDisp (disp32 d) = d < 2 ^ 32

-- Register 5 has no form without a constant.
abbrev pub IsBase : ℕ → Disp → Type 0
IsBase b none_ = (b < 8) × (b ≢ r_ebp)
IsBase b (disp8 d) = b < 8
IsBase b (disp32 d) = b < 8

abbrev pub IsPlace : Place → Type 0
IsPlace (absolute d) = d < 2 ^ 32
IsPlace (based b d) = (b ≢ r_esp) × IsBase b d × IsDisp d
IsPlace (based_sib b d) = IsBase b d × IsDisp d
IsPlace (indexed b i ss d) = IsBase b d × (i < 8) × (i ≢ r_esp) × (ss < 4) × IsDisp d
IsPlace (scaled i ss d) = (i < 8) × (i ≢ r_esp) × (ss < 4) × (d < 2 ^ 32)

abbrev pub mode_of : Disp → ℕ
mode_of none_ = 0
mode_of (disp8 d) = 1
mode_of (disp32 d) = 2

abbrev pub disp_bytes : Disp → List ℕ
disp_bytes none_ = []
disp_bytes (disp8 d) = d ∷ []
disp_bytes (disp32 d) = le32 d

abbrev pub mod_rm_byte : ℕ → ℕ → ℕ → ℕ
mod_rm_byte mode reg rm = mode * 64 + reg * 8 + rm

abbrev pub encode : ℕ → Place → List ℕ
encode reg (absolute d) = mod_rm_byte 0 reg 5 ∷ le32 d
encode reg (based b d) = mod_rm_byte (mode_of d) reg b ∷ disp_bytes d
encode reg (based_sib b d) = mod_rm_byte (mode_of d) reg 4 ∷ mod_rm_byte 0 4 b ∷ disp_bytes d
encode reg (indexed b i ss d) = mod_rm_byte (mode_of d) reg 4 ∷ mod_rm_byte ss i b ∷ disp_bytes d
encode reg (scaled i ss d) = mod_rm_byte 0 reg 4 ∷ mod_rm_byte ss i 5 ∷ le32 d

-- The constant as a word of 32 bits.
abbrev pub disp_value : Disp → ℕ
disp_value none_ = 0
disp_value (disp8 d) = if ltb d 128 then d else d + (2 ^ 32 - 256)
disp_value (disp32 d) = d

-- The address of an operand in memory, by the values of the eight registers.
abbrev pub address : Place → (ℕ → ℕ) → ℕ
address (absolute d) regs = d
address (based b d) regs = u32 (regs b + disp_value d)
address (based_sib b d) regs = u32 (regs b + disp_value d)
address (indexed b i ss d) regs = u32 (regs b + regs i * 2 ^ ss + disp_value d)
address (scaled i ss d) regs = u32 (regs i * 2 ^ ss + d)

-- The registers of 32 bits of the processor.
abbrev pub registers : Cpu → ℕ → ℕ
registers c i = (entry c i).long

abbrev pub effective : Place → Cpu → ℕ
effective p c = address p (registers c)
