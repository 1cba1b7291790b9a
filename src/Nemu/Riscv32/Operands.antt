-- ===== src/Nemu/Riscv32/Operands.antt =====
-- The operands that decode_operand finds in an encoded instruction.
use native.Mathlib.Decide.{dec_lt}
use model_lib.Base.{ℕ, ◌+◌, ◌-◌, ◌*◌, ◌/◌, ◌%◌, ◌^◌, ◌≤◌, ◌<◌, bit_or, ◌≡◌, arith, length, get_or}
use model_lib.Base.Words.{u32, u64, ◌<<<◌}
use model_lib.Base.Bits.{bit_and_mask, bit_or_fields}
use model_lib.Outcome.{ok}
use model_lib.Nemu.Riscv32.{Cpu, get_gpr}
use model_lib.Nemu.Riscv32.Inst.{
  bits, sext, imm_i, imm_u, imm_s, Op, lui, jalr, lw, lbu, sb, sw, addi, add, InstType,
  decode_operand,
}
use model_lib.Nemu.Riscv32.Select.{op_of}
use model_lib.Nemu.Riscv32.Spec.{Instr, encode, extend12, IsInstr}

pub bits_lem : (x hi lo : ℕ) → bits x hi lo ≡ x / 2 ^ lo % 2 ^ (hi - lo + 1)
unfolding bits
bits_lem x hi lo = bit_and_mask (hi - lo + 1) (x / 2 ^ lo)

imm_i_lem : (i : ℕ) → imm_i i ≡ extend12 (i / 2 ^ 20 % 4096)
unfolding imm_i sext
imm_i_lem i = rw (bits_lem i 31 20) (ground arith)

imm_u_lem : (i : ℕ) → i < 2 ^ 32 → imm_u i ≡ i / 4096 * 4096
unfolding imm_u sext
imm_u_lem i h = rw (bits_lem i 31 12) (ground arith)

-- The two parts of the immediate of a store, joined by the shift and the `|`.
imm_s_join :
    (q r : ℕ) → q < 128 → r < 32 → u32 (bit_or (u64 (sext q 7 <<< 5)) r) ≡ extend12 (q * 32 + r)
unfolding sext
imm_s_join q r hq hr = elim (dec_lt q 64) [
  | yes p ↦ rw (small p) (ground (arith, bit_or_fields 5 q r))
  | no p ↦ rw (large p) (ground (arith, bit_or_fields 5 (q + 2 ^ 59 - 128) r))
]
  where
    small : q < 64 → u64 (sext q 7 <<< 5) ≡ q * 2 ^ 5
    small p = ground arith

    large : ¬ (q < 64) → u64 (sext q 7 <<< 5) ≡ (q + 2 ^ 59 - 128) * 2 ^ 5
    large p = ground arith

imm_s_lem : (i : ℕ) → imm_s i ≡ extend12 (i / 2 ^ 25 % 128 * 32 + i / 128 % 32)
unfolding imm_s
imm_s_lem i =
    rw (bits_lem i 31 25, bits_lem i 11 7)
      (imm_s_join (i / 2 ^ 25 % 128) (i / 128 % 32) (omega arith) (omega arith))

-- Reading a register that there is.
pub get_gpr_lem : (i : ℕ) (c : Cpu) → i < length c.gpr → get_gpr i c ≡ ok (get_or c.gpr i 0)
unfolding get_gpr
get_gpr_lem i c h = ground arith

-- What decode_operand gives, by the fields of the word.
pub operand_i :
    (i : ℕ) (c : Cpu)
    → i / 2 ^ 15 % 32 < length c.gpr
    → decode_operand i InstType.type_i c
      ≡ ok (record {
        rd = i / 2 ^ 7 % 32;
        src1 = get_or c.gpr (i / 2 ^ 15 % 32) 0;
        src2 = 0;
        imm = extend12 (i / 2 ^ 20 % 4096);
      })
unfolding decode_operand
operand_i i c h =
    rw (bits_lem i 19 15, bits_lem i 11 7, get_gpr_lem (i / 2 ^ 15 % 32) c h, imm_i_lem i)

pub operand_u :
    (i : ℕ) (c : Cpu)
    → i < 2 ^ 32
    → decode_operand i InstType.type_u c
      ≡ ok (record { rd = i / 2 ^ 7 % 32; src1 = 0; src2 = 0; imm = i / 4096 * 4096 })
unfolding decode_operand
operand_u i c h = rw (bits_lem i 11 7, imm_u_lem i h)

pub operand_s :
    (i : ℕ) (c : Cpu)
    → i / 2 ^ 15 % 32 < length c.gpr
    → i / 2 ^ 20 % 32 < length c.gpr
    → decode_operand i InstType.type_s c
      ≡ ok (record {
        rd = i / 2 ^ 7 % 32;
        src1 = get_or c.gpr (i / 2 ^ 15 % 32) 0;
        src2 = get_or c.gpr (i / 2 ^ 20 % 32) 0;
        imm = extend12 (i / 2 ^ 25 % 128 * 32 + i / 128 % 32);
      })
unfolding decode_operand
operand_s i c h k = rw (
  bits_lem i 19 15,
  bits_lem i 24 20,
  bits_lem i 11 7,
  get_gpr_lem (i / 2 ^ 15 % 32) c h,
  get_gpr_lem (i / 2 ^ 20 % 32) c k,
  imm_s_lem i,
)

pub operand_r :
    (i : ℕ) (c : Cpu)
    → i / 2 ^ 15 % 32 < length c.gpr
    → i / 2 ^ 20 % 32 < length c.gpr
    → decode_operand i InstType.type_r c
      ≡ ok (record {
        rd = i / 2 ^ 7 % 32;
        src1 = get_or c.gpr (i / 2 ^ 15 % 32) 0;
        src2 = get_or c.gpr (i / 2 ^ 20 % 32) 0;
        imm = 0;
      })
unfolding decode_operand
operand_r i c h k = rw (
  bits_lem i 19 15,
  bits_lem i 24 20,
  bits_lem i 11 7,
  get_gpr_lem (i / 2 ^ 15 % 32) c h,
  get_gpr_lem (i / 2 ^ 20 % 32) c k,
)

pub encode-lt : (n : ℕ) (ins : Instr) → n ≤ 32 → IsInstr n ins → encode ins < 2 ^ 32
encode-lt n (Instr.lui rd imm) hn h = omega arith
encode-lt n (Instr.jalr rd rs1 imm) hn h = omega arith
encode-lt n (Instr.lw rd rs1 imm) hn h = omega arith
encode-lt n (Instr.lbu rd rs1 imm) hn h = omega arith
encode-lt n (Instr.sb rs2 rs1 imm) hn h = omega arith
encode-lt n (Instr.sw rs2 rs1 imm) hn h = omega arith
encode-lt n (Instr.addi rd rs1 imm) hn h = omega arith
encode-lt n (Instr.add rd rs1 rs2) hn h = omega arith

-- The line of the block that an instruction is for.
abbrev pub line : Instr → Op
line (Instr.lui rd imm) = lui
line (Instr.jalr rd rs1 imm) = jalr
line (Instr.lw rd rs1 imm) = lw
line (Instr.lbu rd rs1 imm) = lbu
line (Instr.sb rs2 rs1 imm) = sb
line (Instr.sw rs2 rs1 imm) = sw
line (Instr.addi rd rs1 imm) = addi
line (Instr.add rd rs1 rs2) = add

pub op_of-encode : (n : ℕ) (ins : Instr) → n ≤ 32 → IsInstr n ins → op_of (encode ins) ≡ line ins
op_of-encode n (Instr.lui rd imm) hn h = ground arith
op_of-encode n (Instr.jalr rd rs1 imm) hn h = ground arith
op_of-encode n (Instr.lw rd rs1 imm) hn h = ground arith
op_of-encode n (Instr.lbu rd rs1 imm) hn h = ground arith
op_of-encode n (Instr.sb rs2 rs1 imm) hn h = ground arith
op_of-encode n (Instr.sw rs2 rs1 imm) hn h = ground arith
op_of-encode n (Instr.addi rd rs1 imm) hn h = ground arith
op_of-encode n (Instr.add rd rs1 rs2) hn h = ground arith
