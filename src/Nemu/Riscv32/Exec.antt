-- ===== src/Nemu/Riscv32/Exec.antt =====
-- decode_exec on an encoded instruction does what the manual says.
use model_lib.Base.{
  ℕ, zero, suc, ◌+◌, ◌≤◌, ◌<◌, ◌≡◌, refl, sym, ap, ◌∙◌, inl, inr, List, [], ◌∷◌, arith, length,
  get_or, set, length-set,
}
use model_lib.Base.Words.{u32}
use model_lib.Outcome.{Outcome, ok, ◌>>=◌, Outcome-cases}
use model_lib.Nemu.Paddr.{paddr_read, paddr_write, vaddr_read, vaddr_write}
use model_lib.Nemu.Riscv32.{Decode, Machine, set_gpr}
use model_lib.Nemu.Riscv32.Inst.{
  decode_operand, write_rd, reset_zero, load_rd, store, execute_body, run_pat, decode_exec, type_of,
}
use model_lib.Nemu.Riscv32.Select.{select_lem}
use model_lib.Nemu.Riscv32.Spec.{Instr, encode, IsInstr, assign, assigned, loaded, stored}
use model_lib.Nemu.Riscv32.Operands.{encode-lt, op_of-encode, line}

-- Writing a register and then clearing register 0 is an assignment that register 0 ignores.
set-zero : (xs : List ℕ) (rd v : ℕ) → get_or xs 0 0 ≡ 0 → set (set xs rd v) 0 0 ≡ assign rd v xs
set-zero [] zero v h = refl
set-zero [] (suc rd) v h = refl
set-zero (x ∷ xs) zero v h = ap (λ (t : ℕ). t ∷ xs) (sym h)
set-zero (x ∷ xs) (suc rd) v h = ap (λ (t : ℕ). t ∷ set xs rd v) (sym h)

set-zero_alone : (xs : List ℕ) → get_or xs 0 0 ≡ 0 → set xs 0 0 ≡ xs
set-zero_alone [] h = refl
set-zero_alone (x ∷ xs) h = ap (λ (t : ℕ). t ∷ xs) (sym h)

module _ {D : Type 0} where
  -- The state before an instruction: register 0 holds 0.
  pub record IsReady (m : Machine D) : Type 0 where
    pub zero_reg : get_or m.cpu.gpr 0 0 ≡ 0
    pub some_reg : 0 < length m.cpu.gpr
    pub few_regs : length m.cpu.gpr ≤ 32

  write_rd_lem :
      (rd v : ℕ) (m : Machine D)
      → rd < length m.cpu.gpr
      → write_rd rd v m ≡ ok (record m { cpu = record (m.cpu) { gpr = set m.cpu.gpr rd v } })
  unfolding write_rd set_gpr
  write_rd_lem rd v m h = ground arith

  reset_zero-set :
      (s : Decode) (dnpc : ℕ) (m : Machine D)
      → 0 < length m.cpu.gpr
      → reset_zero s (dnpc, m)
        ≡ ok (
          record s { dnpc = dnpc },
          record m { cpu = record (m.cpu) { gpr = set m.cpu.gpr 0 0 } },
        )
  unfolding reset_zero write_rd set_gpr
  reset_zero-set s dnpc m h = ground arith

  reset_zero_lem :
      (s : Decode) (dnpc : ℕ) (m : Machine D)
      → IsReady m
      → reset_zero s (dnpc, m) ≡ ok (record s { dnpc = dnpc }, m)
  reset_zero_lem s dnpc m r =
      reset_zero-set s dnpc m r.some_reg
      ∙ ap
          (λ (t : List ℕ).
            ok (record s { dnpc = dnpc }, record m { cpu = record (m.cpu) { gpr = t } }))
          (set-zero_alone m.cpu.gpr r.zero_reg)

  -- What decode_exec returns where the manual's step returns `r`.
  abbrev pub returned : Decode → ℕ × Machine D → Outcome (Decode × Machine D)
  returned s r = ok (record s { dnpc = r.0 }, r.1)

  -- The rest of decode_exec behind a body that writes a register.
  pub exec_assign :
      (s : Decode) (n rd v : ℕ) (m : Machine D)
      → IsReady m
      → rd < length m.cpu.gpr
      → ((write_rd rd v m >>= λ m'. ok (n, m')) >>= reset_zero s) ≡ returned s (n, assigned rd v m)
  exec_assign s n rd v m r h = rw (write_rd_lem rd v m h) (
      reset_zero-set s n (record m { cpu = record (m.cpu) { gpr = set m.cpu.gpr rd v } })
        (rw (length-set m.cpu.gpr rd v) r.some_reg)
      ∙ ap (λ (t : List ℕ). returned s (n, record m { cpu = record (m.cpu) { gpr = t } }))
          (set-zero m.cpu.gpr rd v r.zero_reg))

  -- Behind one that loads, and behind one that stores.
  pub exec_load :
      (s : Decode) (pc rd addr len : ℕ) (m : Machine D)
      → IsReady m
      → rd < length m.cpu.gpr
      → ((load_rd rd addr len m >>= λ m'. ok (u32 (pc + 4), m')) >>= reset_zero s)
        ≡ (loaded pc rd addr len m >>= returned s)
  unfolding load_rd vaddr_read
  exec_load s pc rd addr len m r h = elim (Outcome-cases (paddr_read addr len m.mem)) [
    | inl ((v, mem), e) ↦ rw e (
        exec_assign s (u32 (pc + 4)) rd v (record m { mem = mem })
          (record { zero_reg = r.zero_reg; some_reg = r.some_reg; few_regs = r.few_regs }) h)
    | inr (inl e) ↦ rw e
    | inr (inr e) ↦ rw e
  ]

  pub exec_store :
      (s : Decode) (pc addr len v : ℕ) (m : Machine D)
      → IsReady m
      → ((store addr len v m >>= λ m'. ok (u32 (pc + 4), m')) >>= reset_zero s)
        ≡ (stored pc addr len v m >>= returned s)
  unfolding store vaddr_write
  exec_store s pc addr len v m r = elim (Outcome-cases (paddr_write addr len v m.mem)) [
    | inl (mem, e) ↦ rw e (
        reset_zero_lem s (u32 (pc + 4)) (record m { mem = mem })
          (record { zero_reg = r.zero_reg; some_reg = r.some_reg; few_regs = r.few_regs }))
    | inr (inl e) ↦ rw e
    | inr (inr e) ↦ rw e
  ]

  -- From the word to the line's operands and body.
  pub exec-line :
      (s : Decode) (m : Machine D) (ins : Instr)
      → length m.cpu.gpr ≤ 32
      → IsInstr (length m.cpu.gpr) ins
      → s.inst ≡ encode ins
      → decode_exec s m ≡ (
          decode_operand s.inst (type_of (line ins)) m.cpu
          >>= (λ o. execute_body (line ins) (record s { dnpc = s.snpc }) o m)
          >>= reset_zero (record s { dnpc = s.snpc }))
  unfolding decode_exec run_pat
  exec-line s m ins few h e =
      rw
        (
          select_lem s.inst (rw e (encode-lt (length m.cpu.gpr) ins few h)),
          e,
          op_of-encode (length m.cpu.gpr) ins few h,
        )
        refl
