-- ===== src/Minirv.antt =====
-- abstract-machine/tools/minirv: programs for a processor that has no instructions but add, addi,
-- lui, lw, lbu, sw, sb and jalr. Here is what these eight do; the macros are in the children.
pub mod Macros
pub mod Tables
pub mod Linked
use model_lib.Base.{
  ℕ, zero, suc, ◌+◌, ◌-◌, ◌*◌, ◌/◌, ◌%◌, ◌^◌, ◌≤◌, ◌<◌, min, bit_and, bit_or, bit_xor, ◌≡◌, refl,
  sym, ap, ap₂, ◌∙◌, ◌≢◌, ◌↔◌, ◌⊎◌, inl, inr, Bool, true, false, not, ◌&&◌, ◌||◌, Option, none,
  some, List, [], ◌∷◌, ◌++◌, map, reverse, arith, ltb, leb, ◌==◌, ◌!=◌, if◌then◌else◌, ltb→lt,
  lt→ltb, le→ltb, ==_iff, ==_refl, ==_of_ne, Bool-cases, Option-cases, length, get_elem?, get_or,
  set, take, replicate, length-append, length-set, length-replicate, get_or-set_self, get_or-set_ne,
  get_or-append_left, get_or-append_length,
}
use model_lib.Base.Words.{u8, u16, u32, u64, sub32, ◌<<<◌, ◌>>>◌}
use model_lib.Base.Memory.{Bytes, update}

-- `other` are the registers that no macro names.
pub data Reg : Type 0 where
  x0 ra sp gp tp s0 s1 : Reg
  other : ℕ → Reg

pub record Regs : Type 0 where
  pub ra_val : ℕ
  pub sp_val : ℕ
  pub gp_val : ℕ
  pub tp_val : ℕ
  pub s0_val : ℕ
  pub s1_val : ℕ
  pub others : ℕ → ℕ

-- `scratch` are the 28 bytes below the stack pointer, from the lowest one on, which a program does
-- not use but through the macros; `mem` is the rest of the memory.
pub record State : Type 0 where
  pub regs : Regs
  pub scratch : Bytes
  pub mem : Bytes
  pub pc : ℕ

abbrev pub get : Reg → Regs → ℕ
get x0 r = 0
get ra r = r.ra_val
get sp r = r.sp_val
get gp r = r.gp_val
get tp r = r.tp_val
get s0 r = r.s0_val
get s1 r = r.s1_val
get (other n) r = r.others n

abbrev pub put : Reg → ℕ → Regs → Regs
put x0 v r = r
put ra v r = record r { ra_val = v }
put sp v r = record r { sp_val = v }
put gp v r = record r { gp_val = v }
put tp v r = record r { tp_val = v }
put s0 v r = record r { s0_val = v }
put s1 v r = record r { s1_val = v }
put (other n) v r = record r { others = update r.others n v }

abbrev pub number : Reg → ℕ
number x0 = 0
number ra = 1
number sp = 2
number gp = 3
number tp = 4
number s0 = 8
number s1 = 9
number (other n) = 10 + n

abbrev pub same_reg : Reg → Reg → Bool
same_reg a b = number a == number b

-- An operand in memory: SP_VAR_BYTE(n, b), or an offset and a register.
pub data Place : Type 0 where
  slot : ℕ → ℕ → Place
  at : ℕ → Reg → Place

pub data Instr : Type 0 where
  add : Reg → Reg → Reg → Instr
  addi : Reg → Reg → ℕ → Instr
  lui : Reg → ℕ → Instr
  lw : Reg → Place → Instr
  lbu : Reg → Place → Instr
  sw : Reg → Place → Instr
  sb : Reg → Place → Instr
  jalr : Reg → Reg → Instr

abbrev pub read_word : Bytes → ℕ → ℕ
read_word m i = m i + 256 * (m (i + 1) + 256 * (m (i + 2) + 256 * m (i + 3)))

abbrev pub write_word : Bytes → ℕ → ℕ → Bytes
write_word m i v =
    update
      (update (update (update m i (v % 256)) (i + 1) (v / 256 % 256)) (i + 2) (v / 65536 % 256))
      (i + 3) (v / 16777216 % 256)

-- The place of an address in `scratch`, if it is less than 28.
abbrev pub scratch_index : State → ℕ → ℕ
scratch_index s a = sub32 (u32 (a + 28)) s.regs.sp_val

unfoldable pub byte_at : State → ℕ → ℕ
byte_at s a = if ltb (scratch_index s a) 28 then s.scratch (scratch_index s a) else s.mem a

unfoldable pub put_byte : ℕ → ℕ → State → State
put_byte a v s =
    if ltb (scratch_index s a) 28
    then record s { scratch = update s.scratch (scratch_index s a) (v % 256) }
    else record s { mem = update s.mem a (v % 256) }

abbrev pub slot_index : ℕ → ℕ → ℕ
slot_index n b = 28 - 4 * n + b

abbrev pub address : ℕ → Reg → State → ℕ
address off r s = u32 (get r s.regs + off)

abbrev pub set_reg : Reg → ℕ → State → State
set_reg r v s = record s { regs = put r v s.regs }

abbrev pub load_word : Place → State → ℕ
load_word (slot n b) s = read_word s.scratch (slot_index n b)
load_word (at off r) s = read_word (λ i. byte_at s (u32 i)) (address off r s)

abbrev pub load_byte : Place → State → ℕ
load_byte (slot n b) s = s.scratch (slot_index n b)
load_byte (at off r) s = byte_at s (address off r s)

abbrev pub store_word : Place → ℕ → State → State
store_word (slot n b) v s = record s { scratch = write_word s.scratch (slot_index n b) v }
store_word (at off r) v s =
    let a = address off r s in
    put_byte (u32 (a + 3)) (v / 16777216)
      (put_byte (u32 (a + 2)) (v / 65536) (put_byte (u32 (a + 1)) (v / 256) (put_byte a v s)))

abbrev pub store_byte : Place → ℕ → State → State
store_byte (slot n b) v s = record s { scratch = update s.scratch (slot_index n b) (v % 256) }
store_byte (at off r) v s = put_byte (address off r s) v s

-- One instruction. `jalr` goes to a register; the link address is `link`.
abbrev pub step : ℕ → Instr → State → State
step link (add rd a b) s = set_reg rd (u32 (get a s.regs + get b s.regs)) s
step link (addi rd a imm) s = set_reg rd (u32 (get a s.regs + imm)) s
step link (lui rd imm) s = set_reg rd (u32 (imm * 4096)) s
step link (lw rd p) s = set_reg rd (load_word p s) s
step link (lbu rd p) s = set_reg rd (load_byte p s) s
step link (sw r p) s = store_word p (get r s.regs) s
step link (sb r p) s = store_byte p (get r s.regs) s
step link (jalr rd r) s = record (set_reg rd link s) { pc = get r s.regs - get r s.regs % 2 }

-- Straight-line code.
abbrev pub run : ℕ → List Instr → State → State
run link [] s = s
run link (i ∷ is) s = run link is (step link i s)
