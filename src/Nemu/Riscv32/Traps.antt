-- ===== src/Nemu/Riscv32/Traps.antt =====
-- How `ebreak` and an invalid word end a program.
use model_lib.Base.{ℕ, ◌-◌, ◌^◌, ◌<◌, ◌≡◌, ap, ◌∙◌, true, not, some, arith, ◌==◌, get_or}
use model_lib.Outcome.{ok, >>=-eq-ok}
use model_lib.Nemu.State.{NemuState, RunState, is_exit_status_bad}
use model_lib.Nemu.Riscv32.{Decode, Machine, get_gpr, set_nemu_state, invalid_inst}
use model_lib.Nemu.Riscv32.Inst.{
  ebreak, inv, Operands, decode_operand, type_of, execute_body, run_pat, decode_exec,
}
use model_lib.Nemu.Riscv32.Select.{op_of, select_lem}
use model_lib.Nemu.Riscv32.Keeps.{reset_zero-eq-ok}

module _ {D : Type 0} where
  -- From a word to its body, for a run that returns.
  body_of :
      (s s' : Decode) (m m' : Machine D)
      → s.inst < 2 ^ 32
      → decode_exec s m ≡ ok (s', m')
      → (o : Operands) × (r : ℕ × Machine D) × (execute_body
            (op_of s.inst)
            (record s { dnpc = s.snpc })
            o
            m
          ≡ ok r)
        × (m'.nemu ≡ r.1.nemu)
  unfolding decode_exec run_pat
  body_of s s' m m' h e =
      let (r, run, end) =
        >>=-eq-ok (run_pat (some (op_of s.inst)) (record s { dnpc = s.snpc }) m) _
          (rw (select_lem s.inst h, decode_exec) at e) in
      let (o, d, x) = >>=-eq-ok (decode_operand s.inst (type_of (op_of s.inst)) m.cpu) _ run in
      (o, r, x, (reset_zero-eq-ok (record s { dnpc = s.snpc }) s' r m' end).1)

  ebreak-nemu :
      (s : Decode) (o : Operands) (m : Machine D) (r : ℕ × Machine D)
      → execute_body ebreak s o m ≡ ok r
      → r.1.nemu ≡ record { state = RunState.end; halt_pc = s.pc; halt_ret = get_or m.cpu.gpr 10 0 }
  unfolding execute_body set_nemu_state get_gpr
  ebreak-nemu s o m r e = ground arith

  inv-nemu :
      (s : Decode) (o : Operands) (m : Machine D) (r : ℕ × Machine D)
      → execute_body inv s o m ≡ ok r
      → r.1.nemu ≡ record { state = RunState.abort; halt_pc = s.pc; halt_ret = 2 ^ 32 - 1 }
  unfolding execute_body set_nemu_state invalid_inst
  inv-nemu s o m r e = ground arith

  -- When decode_exec returns from the word of `ebreak`, the emulator is at NEMU_END with the
  -- address of that word, and the process exits badly exactly if register a0 does not hold 0.
  pub ebreak-exit_status :
      (s s' : Decode) (m m' : Machine D)
      → s.inst ≡ 0x0010_0073
      → decode_exec s m ≡ ok (s', m')
      → (m'.nemu.state ≡ RunState.end)
        × (m'.nemu.halt_pc ≡ s.pc)
        × (is_exit_status_bad m'.nemu ≡ not (get_or m.cpu.gpr 10 0 == 0))
  unfolding is_exit_status_bad
  ebreak-exit_status s s' m m' i e =
      let (o, r, x, n) = body_of s s' m m' (rw i (omega arith)) e in
      let stopped = n ∙ ebreak-nemu (record s { dnpc = s.snpc }) o m r (rw (ap op_of i) at x) in
      (
        ap (λ (t : NemuState). t.state) stopped,
        ap (λ (t : NemuState). t.halt_pc) stopped,
        ap is_exit_status_bad stopped,
      )

  -- When decode_exec returns from a word that is none of the nine, the emulator is at NEMU_ABORT
  -- with the address of that word, and the process exits badly.
  pub inv-exit_status :
      (s s' : Decode) (m m' : Machine D)
      → s.inst < 2 ^ 32
      → op_of s.inst ≡ inv
      → decode_exec s m ≡ ok (s', m')
      → (m'.nemu.state ≡ RunState.abort)
        × (m'.nemu.halt_pc ≡ s.pc)
        × (is_exit_status_bad m'.nemu ≡ true)
  unfolding is_exit_status_bad
  inv-exit_status s s' m m' h i e =
      let (o, r, x, n) = body_of s s' m m' h e in
      let stopped = n ∙ inv-nemu (record s { dnpc = s.snpc }) o m r (rw (i) at x) in
      (
        ap (λ (t : NemuState). t.state) stopped,
        ap (λ (t : NemuState). t.halt_pc) stopped,
        ap is_exit_status_bad stopped,
      )
