-- ===== src/Nemu/X86/Prefixes.antt =====
-- The loop of isa_exec_once over prefixes ends.
use model_lib.Base.{
  ℕ, zero, suc, ◌+◌, ◌%◌, ◌<◌, ◌≡◌, refl, sym, ap, ◌∙◌, ◌≢◌, Bool, true, none, some, List, [], ◌∷◌,
  ◌++◌, arith, replicate,
}
use model_lib.Outcome.{Outcome, ok, panic, undefined, ◌>>=◌}
use model_lib.Nemu.Pattern.Block.{select_line}
use model_lib.Nemu.X86.{Decode, Machine}
use model_lib.Nemu.X86.Code.{IsCode, IsCode-tail, fetch_byte}
use model_lib.Nemu.X86.Inst.{
  Line, two_byte_esc, data_size, plain, pattern_of, inst_pats, exec_again,
}
use model_lib.Nemu.X86.Mov.{behind}
use model_lib.Nemu.X86.Mov.Exec.{exec-prefix}
use model_lib.Nemu.X86.Select.{line_of, x86_select_lem}

line_of-data_size : (o : ℕ) → line_of o ≡ data_size → o % 256 ≡ 0x66
line_of-data_size o e = ground arith

some_result : {A : Type 0} (x : Outcome A) → (do r ← x; ok (some r)) ≢ ok none
some_result (ok a) e = cc
some_result panic e = cc
some_result undefined e = cc

module _ {D : Type 0} where
  last_opcode :
      (fuel : ℕ) (b : Bool) (o : ℕ) (p : Line) (code : List ℕ) (s : Decode) (m : Machine D)
      → IsCode (o ∷ code) s.snpc m.mem
      → select_line pattern_of inst_pats o ≡ ok (some p)
      → p ≢ data_size
      → exec_again (suc fuel) b s m ≢ ok none
  unfolding exec_again
  last_opcode fuel b o two_byte_esc code s m h e ne =
      rw (fetch_byte o code s.snpc m.mem h, e) (some_result _)
  last_opcode fuel b o data_size code s m h e ne = absurd (ne refl)
  last_opcode fuel b o (plain q) code s m h e ne =
      rw (fetch_byte o code s.snpc m.mem h, e) (some_result _)

  -- If n prefixes for the operand size and another opcode lie in the memory, then the loop of
  -- isa_exec_once needs at most n + 1 rounds, with every number of rounds from there on.
  pub exec_again-enough :
      (n extra o : ℕ) (b : Bool) (s : Decode) (m : Machine D)
      → o < 256
      → o ≢ 0x66
      → IsCode (replicate n 0x66 ++ (o ∷ [])) s.snpc m.mem
      → exec_again (suc (n + extra)) b s m ≢ ok none
  exec_again-enough zero extra o b s m small ne h =
      last_opcode (0 + extra) b o (line_of o) [] s m h (x86_select_lem o)
        (λ e. ne (omega (arith, small, line_of-data_size o e)))
  exec_again-enough (suc n) extra o b s m small ne h =
      let code = replicate n 0x66 ++ (o ∷ []) in
      let s1 : Decode = behind (s.snpc + 1) s in
      let one_less : exec_again (suc (suc n + extra)) b s m
          ≡ exec_again (suc (n + extra)) true s1 m =
        exec-prefix (suc n + extra) b code s m h
        ∙ ap (λ (t : ℕ). exec_again t true s1 m) (omega arith) in
      λ e.
        exec_again-enough n extra o true s1 m small ne (IsCode-tail 0x66 code s.snpc m.mem h)
          (sym one_less ∙ e)
