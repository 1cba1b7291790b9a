-- ===== src/Nemu/X86/Mov/Refine.antt =====
-- A mov by the parts that the registers of the code have for each size.
use model_lib.Base.{
  ℕ, suc, ◌+◌, ◌-◌, ◌%◌, ◌<◌, ◌≡◌, refl, ap, ◌∙◌, inl, inr, true, false, some, arith, ltb, lt→ltb,
  Bool-cases, length,
}
use model_lib.Outcome.{Outcome, ok, ◌>>=◌, >>=-cong}
use model_lib.Nemu.X86.{
  Cpu, Decode, Machine, reg_l, reg_w, reg_b, set_reg_l, set_reg_w, set_reg_b, reg_read, reg_write,
}
use model_lib.Nemu.X86.Code.{IsCode}
use model_lib.Nemu.X86.Inst.{read_rm, write_rm, isa_exec_once}
use model_lib.Nemu.X86.Mov.{
  Operand, in_reg, in_mem, IsOperand, Size, byte, word, long, bytes_of, Way, store, load, mov_code,
  behind, get_part, set_part, get_operand, set_operand, mov_parts,
}
use model_lib.Nemu.X86.Mov.Exec.{rm_of, addr_of, coded, isa_exec_once-coded}

-- The number of the register that a byte is part of.
upper_byte : (r : ℕ) → r < 8 → ltb r 4 ≡ false → r % 4 ≡ r - 4
upper_byte r h up = ground arith

lower_byte : (r : ℕ) → ltb r 4 ≡ true → r % 4 ≡ r
lower_byte r low = ground arith

reg_read_lem :
    (size : Size) (r : ℕ) (c : Cpu) → r < 8 → reg_read r (bytes_of size) c ≡ ok (get_part size r c)
unfolding reg_read reg_l reg_w reg_b
reg_read_lem long r c h = rw (lt→ltb r 8 h) refl
reg_read_lem word r c h = rw (lt→ltb r 8 h) refl
reg_read_lem byte r c h = elim (Bool-cases (ltb r 4)) [
  | inl low ↦ rw (lt→ltb r 8 h, low, lower_byte r low) refl
  | inr up ↦ rw (lt→ltb r 8 h, up, upper_byte r h up) refl
]

reg_write_lem :
    (size : Size) (r v : ℕ) (c : Cpu)
    → r < 8
    → reg_write r (bytes_of size) v c ≡ ok (set_part size r v c)
unfolding reg_write set_reg_l set_reg_w set_reg_b
reg_write_lem long r v c h = rw (lt→ltb r 8 h) refl
reg_write_lem word r v c h = rw (lt→ltb r 8 h) refl
reg_write_lem byte r v c h = elim (Bool-cases (ltb r 4)) [
  | inl low ↦ rw (lt→ltb r 8 h, low, lower_byte r low) refl
  | inr up ↦ rw (lt→ltb r 8 h, up, upper_byte r h up) refl
]

module _ {D : Type 0} where
  get_operand_lem :
      (op : Operand) (size : Size) (m : Machine D)
      → IsOperand op
      → read_rm (rm_of op) (addr_of op m.cpu) (bytes_of size) m ≡ get_operand op size m
  get_operand_lem (in_reg r) size m h = rw (reg_read_lem size r m.cpu h) refl
  get_operand_lem (in_mem p) size m h = refl

  set_operand_lem :
      (op : Operand) (size : Size) (v : ℕ) (m : Machine D)
      → IsOperand op
      → write_rm (rm_of op) (addr_of op m.cpu) (bytes_of size) v m ≡ set_operand op size v m
  set_operand_lem (in_reg r) size v m h = rw (reg_write_lem size r v m.cpu h) refl
  set_operand_lem (in_mem p) size v m h = refl

  coded-parts :
      (way : Way) (size : Size) (reg : ℕ) (op : Operand) (m : Machine D)
      → reg < 8
      → IsOperand op
      → coded way (bytes_of size) reg op m ≡ mov_parts way size reg op m
  coded-parts store size reg op m hr h =
      rw (reg_read_lem size reg m.cpu hr) (set_operand_lem op size (get_part size reg m.cpu) m h)
  coded-parts load size reg op m hr h =
      rw (get_operand_lem op size m h) (
        >>=-cong (get_operand op size m) _ _ (λ t. rw (reg_write_lem size reg t.0 t.1.cpu hr) refl))

  -- For a mov between a register and an operand in a register or in memory, on one, two or four
  -- bytes, isa_exec_once on its bytes (with a prefix for two) moves between the operand and the
  -- part of the code's register that has this size, and goes on behind the bytes.
  pub x86_isa_exec_once-parts :
      (fuel : ℕ) (way : Way) (size : Size) (reg : ℕ) (op : Operand) (s : Decode) (m : Machine D)
      → reg < 8
      → IsOperand op
      → IsCode (mov_code way size reg op) s.snpc m.mem
      → isa_exec_once (suc (suc fuel)) s m ≡ (do
        m' ← mov_parts way size reg op m
        ok (some (behind (s.snpc + length (mov_code way size reg op)) s, m')))
  x86_isa_exec_once-parts fuel way size reg op s m hr h code =
      isa_exec_once-coded fuel way size reg op s m hr h code
      ∙ ap
          (λ (t : Outcome (Machine D)). do
            m' ← t
            ok (some (behind (s.snpc + length (mov_code way size reg op)) s, m')))
          (coded-parts way size reg op m hr h)
