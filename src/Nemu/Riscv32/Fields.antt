-- ===== src/Nemu/Riscv32/Fields.antt =====
-- The operands of an instruction in each format.
use model_lib.Base.{ℕ, ◌+◌, ◌*◌, ◌/◌, ◌%◌, ◌^◌, ◌≤◌, ◌<◌, ◌≡◌, refl, ap, ◌∙◌, arith, length, get_or}
use model_lib.Outcome.{Outcome, ok}
use model_lib.Nemu.Riscv32.{Cpu}
use model_lib.Nemu.Riscv32.Inst.{InstType, Operands, decode_operand}
use model_lib.Nemu.Riscv32.Spec.{i_format, s_format, extend12}
use model_lib.Nemu.Riscv32.Operands.{operand_i, operand_u, operand_s, operand_r}

-- A record of operands from the equations of its parts.
operands_eq :
    (a a' b b' c c' d d' : ℕ)
    → a ≡ a'
    → b ≡ b'
    → c ≡ c'
    → d ≡ d'
    → ◌≡◌ {A = Outcome Operands}
        (ok (record { rd = a; src1 = b; src2 = c; imm = d }))
        (ok (record { rd = a'; src1 = b'; src2 = c'; imm = d' }))
operands_eq a a' b b' c c' d d' p q r s = cc

module _ (c : Cpu) (few : length c.gpr ≤ 32) where
  pub decode_i :
      (op f3 rd rs1 imm : ℕ)
      → op < 128
      → f3 < 8
      → rd < length c.gpr
      → rs1 < length c.gpr
      → imm < 2 ^ 12
      → decode_operand (i_format op f3 rd rs1 imm) InstType.type_i c
        ≡ ok (record { rd = rd; src1 = get_or c.gpr rs1 0; src2 = 0; imm = extend12 imm })
  decode_i op f3 rd rs1 imm ho hf hd hs hi =
      operand_i (i_format op f3 rd rs1 imm) c (rw source hs)
      ∙ operands_eq _ _ _ _ _ _ _ _ (omega arith) (ap (λ (t : ℕ). get_or c.gpr t 0) source) refl
          (ap (λ (t : ℕ). extend12 t) immediate)
    where
      immediate : i_format op f3 rd rs1 imm / 2 ^ 20 % 4096 ≡ imm
      immediate = omega arith

      source : i_format op f3 rd rs1 imm / 2 ^ 15 % 32 ≡ rs1
      source = omega arith

  pub decode_u :
      (rd imm : ℕ)
      → rd < length c.gpr
      → imm < 2 ^ 20
      → decode_operand (imm * 2 ^ 12 + rd * 2 ^ 7 + 0x37) InstType.type_u c
        ≡ ok (record { rd = rd; src1 = 0; src2 = 0; imm = imm * 2 ^ 12 })
  decode_u rd imm hd hi =
      operand_u (imm * 2 ^ 12 + rd * 2 ^ 7 + 0x37) c (omega arith)
      ∙ operands_eq _ _ _ _ _ _ _ _ (omega arith) refl refl (omega arith)

  pub decode_s :
      (op f3 rs2 rs1 imm : ℕ)
      → op < 128
      → f3 < 8
      → rs2 < length c.gpr
      → rs1 < length c.gpr
      → imm < 2 ^ 12
      → decode_operand (s_format op f3 rs2 rs1 imm) InstType.type_s c
        ≡ ok (record {
          rd = imm % 32;
          src1 = get_or c.gpr rs1 0;
          src2 = get_or c.gpr rs2 0;
          imm = extend12 imm;
        })
  decode_s op f3 rs2 rs1 imm ho hf h2 h1 hi =
      operand_s (s_format op f3 rs2 rs1 imm) c (rw first h1) (rw second h2)
      ∙ operands_eq _ _ _ _ _ _ _ _ (omega arith) (ap (λ (t : ℕ). get_or c.gpr t 0) first)
          (ap (λ (t : ℕ). get_or c.gpr t 0) second) (ap (λ (t : ℕ). extend12 t) immediate)
    where
      immediate :
          s_format op f3 rs2 rs1 imm / 2 ^ 25 % 128 * 32 + s_format op f3 rs2 rs1 imm / 128 % 32
          ≡ imm
      immediate = omega arith

      first : s_format op f3 rs2 rs1 imm / 2 ^ 15 % 32 ≡ rs1
      first = omega arith

      second : s_format op f3 rs2 rs1 imm / 2 ^ 20 % 32 ≡ rs2
      second = omega arith

  pub decode_r :
      (rd rs1 rs2 : ℕ)
      → rd < length c.gpr
      → rs1 < length c.gpr
      → rs2 < length c.gpr
      → decode_operand (rs2 * 2 ^ 20 + rs1 * 2 ^ 15 + rd * 2 ^ 7 + 0x33) InstType.type_r c
        ≡ ok (record { rd = rd; src1 = get_or c.gpr rs1 0; src2 = get_or c.gpr rs2 0; imm = 0 })
  decode_r rd rs1 rs2 hd h1 h2 =
      operand_r (rs2 * 2 ^ 20 + rs1 * 2 ^ 15 + rd * 2 ^ 7 + 0x33) c (rw first h1) (rw second h2)
      ∙ operands_eq _ _ _ _ _ _ _ _ (omega arith) (ap (λ (t : ℕ). get_or c.gpr t 0) first)
          (ap (λ (t : ℕ). get_or c.gpr t 0) second) refl
    where
      first : (rs2 * 2 ^ 20 + rs1 * 2 ^ 15 + rd * 2 ^ 7 + 0x33) / 2 ^ 15 % 32 ≡ rs1
      first = omega arith

      second : (rs2 * 2 ^ 20 + rs1 * 2 ^ 15 + rd * 2 ^ 7 + 0x33) / 2 ^ 20 % 32 ≡ rs2
      second = omega arith
