-- ===== src/Nemu/Riscv32/Keeps.antt =====
-- What holds after any instruction word, and after the two that end a program.
use model_lib.Base.{
  ℕ, ◌+◌, ◌≡◌, refl, ◌∙◌, Option, none, some, List, [], ◌∷◌, arith, length, get_or, set, length-set,
}
use model_lib.Base.Words.{u32}
use model_lib.Outcome.{ok, >>=-eq-ok}
use model_lib.Nemu.Paddr.{vaddr_read}
use model_lib.Nemu.Riscv32.{Decode, Machine, set_gpr, set_nemu_state, invalid_inst}
use model_lib.Nemu.Riscv32.Inst.{
  Op, lui, jalr, lw, lbu, sb, sw, addi, add, ebreak, inv, Operands, decode_operand, type_of,
  write_rd, load_rd, store, execute_body, run_pat, reset_zero, inst_pats, select, decode_exec,
}

get_or-set_zero : (xs : List ℕ) → get_or (set xs 0 0) 0 0 ≡ 0
get_or-set_zero [] = refl
get_or-set_zero (x ∷ xs) = refl

module _ {D : Type 0} where
  length-write_rd :
      (rd v : ℕ) (m m' : Machine D) → write_rd rd v m ≡ ok m' → length m'.cpu.gpr ≡ length m.cpu.gpr
  unfolding write_rd set_gpr
  length-write_rd rd v m m' e = ground (arith, length-set m.cpu.gpr rd v)

  length-load_rd :
      (rd addr len : ℕ) (m m' : Machine D)
      → load_rd rd addr len m ≡ ok m'
      → length m'.cpu.gpr ≡ length m.cpu.gpr
  unfolding load_rd
  length-load_rd rd addr len m m' e =
      let ((v, mem), read, wrote) = >>=-eq-ok (vaddr_read addr len m.mem) _ e in
      length-write_rd rd v (record m { mem = mem }) m' wrote

  length-store :
      (addr len v : ℕ) (m m' : Machine D)
      → store addr len v m ≡ ok m'
      → length m'.cpu.gpr ≡ length m.cpu.gpr
  unfolding store
  length-store addr len v m m' e = ground arith

  length-invalid_inst :
      (pc : ℕ) (m m' : Machine D) → invalid_inst pc m ≡ ok m' → length m'.cpu.gpr ≡ length m.cpu.gpr
  unfolding invalid_inst set_nemu_state
  length-invalid_inst pc m m' e = ground arith

  -- The bodies keep the number of the registers.
  length-execute_body :
      (op : Op) (s : Decode) (o : Operands) (m : Machine D) (r : ℕ × Machine D)
      → execute_body op s o m ≡ ok r
      → length r.1.cpu.gpr ≡ length m.cpu.gpr
  unfolding execute_body set_nemu_state
  length-execute_body lui s o m r e =
      let (m', w, q) = >>=-eq-ok (write_rd o.rd o.imm m) _ e in
      ground (arith, length-write_rd o.rd o.imm m m' w)
  length-execute_body jalr s o m r e =
      let (m', w, q) = >>=-eq-ok (write_rd o.rd (u32 (s.pc + 4)) m) _ e in
      ground (arith, length-write_rd o.rd (u32 (s.pc + 4)) m m' w)
  length-execute_body lw s o m r e =
      let (m', w, q) = >>=-eq-ok (load_rd o.rd (u32 (o.src1 + o.imm)) 4 m) _ e in
      ground (arith, length-load_rd o.rd (u32 (o.src1 + o.imm)) 4 m m' w)
  length-execute_body lbu s o m r e =
      let (m', w, q) = >>=-eq-ok (load_rd o.rd (u32 (o.src1 + o.imm)) 1 m) _ e in
      ground (arith, length-load_rd o.rd (u32 (o.src1 + o.imm)) 1 m m' w)
  length-execute_body sb s o m r e =
      let (m', w, q) = >>=-eq-ok (store (u32 (o.src1 + o.imm)) 1 o.src2 m) _ e in
      ground (arith, length-store (u32 (o.src1 + o.imm)) 1 o.src2 m m' w)
  length-execute_body sw s o m r e =
      let (m', w, q) = >>=-eq-ok (store (u32 (o.src1 + o.imm)) 4 o.src2 m) _ e in
      ground (arith, length-store (u32 (o.src1 + o.imm)) 4 o.src2 m m' w)
  length-execute_body addi s o m r e =
      let (m', w, q) = >>=-eq-ok (write_rd o.rd (u32 (o.src1 + o.imm)) m) _ e in
      ground (arith, length-write_rd o.rd (u32 (o.src1 + o.imm)) m m' w)
  length-execute_body add s o m r e =
      let (m', w, q) = >>=-eq-ok (write_rd o.rd (u32 (o.src1 + o.src2)) m) _ e in
      ground (arith, length-write_rd o.rd (u32 (o.src1 + o.src2)) m m' w)
  length-execute_body ebreak s o m r e = ground arith
  length-execute_body inv s o m r e =
      let (m', w, q) = >>=-eq-ok (invalid_inst s.pc m) _ e in
      ground (arith, length-invalid_inst s.pc m m' w)

  length-run_pat :
      (p : Option Op) (s : Decode) (m : Machine D) (r : ℕ × Machine D)
      → run_pat p s m ≡ ok r
      → length r.1.cpu.gpr ≡ length m.cpu.gpr
  unfolding run_pat
  length-run_pat none s m r e = ground arith
  length-run_pat (some p) s m r e =
      let (o, d, x) = >>=-eq-ok (decode_operand s.inst (type_of p) m.cpu) _ e in
      length-execute_body p s o m r x

  pub reset_zero-eq-ok :
      (s s' : Decode) (r : ℕ × Machine D) (m' : Machine D)
      → reset_zero s r ≡ ok (s', m')
      → (m'.cpu.gpr ≡ set r.1.cpu.gpr 0 0)
        × (m'.nemu ≡ r.1.nemu)
        × (s'.pc ≡ s.pc)
        × (s'.snpc ≡ s.snpc)
        × (s'.inst ≡ s.inst)
  unfolding reset_zero write_rd set_gpr
  reset_zero-eq-ok s s' (n, m) m' e = ground arith

  -- After every instruction word that decode_exec returns from, invalid ones included, register 0
  -- holds 0 whatever it held before, there are as many registers as before, and the address and
  -- the word of the instruction are the ones that it was called with.
  pub decode_exec-keeps :
      (s s' : Decode) (m m' : Machine D)
      → decode_exec s m ≡ ok (s', m')
      → (get_or m'.cpu.gpr 0 0 ≡ 0)
        × (length m'.cpu.gpr ≡ length m.cpu.gpr)
        × (s'.pc ≡ s.pc)
        × (s'.snpc ≡ s.snpc)
        × (s'.inst ≡ s.inst)
  unfolding decode_exec
  decode_exec-keeps s s' m m' e =
      let (p, sel, rest) = >>=-eq-ok (select inst_pats s.inst) _ e in
      let (r, run, end) = >>=-eq-ok (run_pat p (record s { dnpc = s.snpc }) m) _ rest in
      let (regs, nemu, pc, snpc, inst) =
        reset_zero-eq-ok (record s { dnpc = s.snpc }) s' r m' end in
      (
        rw regs (get_or-set_zero r.1.cpu.gpr),
        rw regs
            (length-set r.1.cpu.gpr 0 0 ∙ length-run_pat p (record s { dnpc = s.snpc }) m r run),
        pc,
        snpc,
        inst,
      )
