-- ===== src/Nemu/X86/Mov/Exec.antt =====
-- isa_exec_once on the bytes of a mov does what the manual says.
use model_lib.Base.{
  ℕ, suc, ◌+◌, ◌<◌, ◌≡◌, refl, sym, ap, ◌∙◌, Bool, true, false, Option, none, some, List, [], ◌∷◌,
  arith, length,
}
use model_lib.Outcome.{Outcome, ok, ◌>>=◌, >>=-assoc, >>=-cong}
use model_lib.Nemu.Paddr.{Mem}
use model_lib.Nemu.Pattern.Block.{select_line}
use model_lib.Nemu.X86.{Cpu, Decode, Machine, reg_read}
use model_lib.Nemu.X86.Code.{IsCode, IsCode-tail, fetch_byte}
use model_lib.Nemu.X86.Address.{ModRm, rm_operand, decode_rm}
use model_lib.Nemu.X86.Address.Manual.{mod_rm_byte, effective}
use model_lib.Nemu.X86.Address.Laws.{mod_rm-byte}
use model_lib.Nemu.X86.Address.Decode.{decode_rm-encode}
use model_lib.Nemu.X86.Inst.{
  InstType, Op, plain, mov_g2e_b, mov_g2e, mov_e2g_b, mov_e2g, pattern_of, type_of, inst_pats,
  Operands, operand_width, width_of, index, decode_operand, execute_body, read_rm, write_reg,
  write_rm, run_line, exec_again, isa_exec_once,
}
use model_lib.Nemu.X86.Select.{x86_select_lem}
use model_lib.Nemu.X86.Mov.{
  Operand, in_reg, in_mem, IsOperand, operand_bytes, Size, byte, word, long, bytes_of, Way, store,
  load, opcode, mov_code, behind,
}

-- The line for a mov.
abbrev line_for : Way → Size → Op
line_for store byte = mov_g2e_b
line_for store word = mov_g2e
line_for store long = mov_g2e
line_for load byte = mov_e2g_b
line_for load word = mov_e2g
line_for load long = mov_e2g

abbrev is_word : Size → Bool
is_word byte = false
is_word word = true
is_word long = false

select-opcode :
    (way : Way) (size : Size)
    → select_line pattern_of inst_pats (opcode way size) ≡ ok (some (plain (line_for way size)))
select-opcode store byte = x86_select_lem 0x88
select-opcode store word = x86_select_lem 0x89
select-opcode store long = x86_select_lem 0x89
select-opcode load byte = x86_select_lem 0x8a
select-opcode load word = x86_select_lem 0x8b
select-opcode load long = x86_select_lem 0x8b

abbrev pub rm_of : Operand → Option ℕ
rm_of (in_reg r) = some r
rm_of (in_mem p) = none

abbrev pub addr_of : Operand → Cpu → ℕ
addr_of (in_reg r) c = 0
addr_of (in_mem p) c = effective p c

module _ {D : Type 0} where
  -- A mov by the operations of the code.
  abbrev pub coded : Way → ℕ → ℕ → Operand → Machine D → Outcome (Machine D)
  coded store w reg op m = do v ← reg_read reg w m.cpu; write_rm (rm_of op) (addr_of op m.cpu) w v m
  coded load w reg op m = do
    (v, m') ← read_rm (rm_of op) (addr_of op m.cpu) w m
    write_reg reg w v m'

  decode_rm-operand :
      (op : Operand) (reg : ℕ) (c : Cpu) (pc : ℕ) (s : Mem D)
      → reg < 8
      → IsOperand op
      → IsCode (operand_bytes reg op) pc s
      → decode_rm c pc s ≡ ok ((rm_of op, addr_of op c, reg), pc + length (operand_bytes reg op), s)
  unfolding decode_rm
  decode_rm-operand (in_reg r) reg c pc s hr h code =
      rw (fetch_byte (mod_rm_byte 3 reg r) [] pc s code)
        (ap (λ (t : ModRm). rm_operand t c (pc + 1) s) (mod_rm-byte 3 reg r (omega arith) hr h))
  decode_rm-operand (in_mem p) reg c pc s hr h code = decode_rm-encode p reg c pc s hr h code

  run_line-store :
      (b : Bool) (q : Op) (o : ℕ) (op : Operand) (reg : ℕ) (s : Decode) (m : Machine D)
      → type_of q ≡ InstType.type_g2e
      → ((t : Decode) (x : Operands) (w : ℕ) (n : Machine D)
          → execute_body q t x w n ≡ write_rm x.rd x.addr w x.src1 n)
      → reg < 8
      → IsOperand op
      → IsCode (operand_bytes reg op) s.snpc m.mem
      → run_line q o b s m ≡ (do
        m' ← coded store (operand_width (width_of q) b) reg op m
        ok (behind (s.snpc + length (operand_bytes reg op)) s, m'))
  unfolding run_line decode_operand
  run_line-store b q o op reg s m e body hr h code =
      rw (e, decode_rm-operand op reg m.cpu s.snpc m.mem hr h code)
        (>>=-assoc (reg_read reg (operand_width (width_of q) b) m.cpu) _ _
          ∙ >>=-cong (reg_read reg (operand_width (width_of q) b) m.cpu) _ _
              (λ v. ap (λ (t : Outcome (Machine D)). do m' ← t; ok (next, m')) (body next _ _ m))
          ∙ sym (>>=-assoc (reg_read reg (operand_width (width_of q) b) m.cpu) _ _))
    where
      next : Decode
      next = behind (s.snpc + length (operand_bytes reg op)) s

  run_line-load :
      (b : Bool) (q : Op) (o : ℕ) (op : Operand) (reg : ℕ) (s : Decode) (m : Machine D)
      → type_of q ≡ InstType.type_e2g
      → ((t : Decode) (x : Operands) (w : ℕ) (n : Machine D)
          → execute_body q t x w n
            ≡ (do (v, m') ← read_rm x.rs x.addr w n; rd ← index x.rd; write_reg rd w v m'))
      → reg < 8
      → IsOperand op
      → IsCode (operand_bytes reg op) s.snpc m.mem
      → run_line q o b s m ≡ (do
        m' ← coded load (operand_width (width_of q) b) reg op m
        ok (behind (s.snpc + length (operand_bytes reg op)) s, m'))
  unfolding run_line decode_operand
  run_line-load b q o op reg s m e body hr h code =
      rw (e, decode_rm-operand op reg m.cpu s.snpc m.mem hr h code)
        (ap (λ (t : Outcome (Machine D)). do m' ← t; ok (next, m')) (body next _ _ m))
    where
      next : Decode
      next = behind (s.snpc + length (operand_bytes reg op)) s

  exec-plain :
      (fuel : ℕ) (b : Bool) (o : ℕ) (q : Op) (code : List ℕ) (s : Decode) (m : Machine D)
      → IsCode (o ∷ code) s.snpc m.mem
      → select_line pattern_of inst_pats o ≡ ok (some (plain q))
      → exec_again (suc fuel) b s m
        ≡ (do r ← run_line q o b (record s { snpc = s.snpc + 1 }) m; ok (some r))
  unfolding exec_again
  exec-plain fuel b o q code s m h e = rw (fetch_byte o code s.snpc m.mem h, e) refl

  pub exec-prefix :
      (fuel : ℕ) (b : Bool) (code : List ℕ) (s : Decode) (m : Machine D)
      → IsCode (0x66 ∷ code) s.snpc m.mem
      → exec_again (suc fuel) b s m ≡ exec_again fuel true (behind (s.snpc + 1) s) m
  unfolding exec_again
  exec-prefix fuel b code s m h = rw (fetch_byte 0x66 code s.snpc m.mem h, x86_select_lem 0x66) refl

  -- Behind the prefix.
  run_mov :
      (way : Way) (size : Size) (reg : ℕ) (op : Operand) (s : Decode) (m : Machine D)
      → reg < 8
      → IsOperand op
      → IsCode (operand_bytes reg op) s.snpc m.mem
      → run_line (line_for way size) (opcode way size) (is_word size) s m ≡ (do
        m' ← coded way (bytes_of size) reg op m
        ok (behind (s.snpc + length (operand_bytes reg op)) s, m'))
  unfolding execute_body
  run_mov store byte reg op s m hr h code =
      run_line-store false mov_g2e_b 0x88 op reg s m refl (λ t x w n. refl) hr h code
  run_mov store word reg op s m hr h code =
      run_line-store true mov_g2e 0x89 op reg s m refl (λ t x w n. refl) hr h code
  run_mov store long reg op s m hr h code =
      run_line-store false mov_g2e 0x89 op reg s m refl (λ t x w n. refl) hr h code
  run_mov load byte reg op s m hr h code =
      run_line-load false mov_e2g_b 0x8a op reg s m refl (λ t x w n. refl) hr h code
  run_mov load word reg op s m hr h code =
      run_line-load true mov_e2g 0x8b op reg s m refl (λ t x w n. refl) hr h code
  run_mov load long reg op s m hr h code =
      run_line-load false mov_e2g 0x8b op reg s m refl (λ t x w n. refl) hr h code

  -- A mov, and going on at `n`.
  abbrev finish :
      Way → ℕ → ℕ → Operand → Decode → Machine D → ℕ → Outcome (Option (Decode × Machine D))
  finish way w reg op s m n = do m' ← coded way w reg op m; ok (some (behind n s, m'))

  -- From the opcode on.
  exec_again-mov :
      (fuel : ℕ) (way : Way) (size : Size) (reg : ℕ) (op : Operand) (s : Decode) (m : Machine D)
      → reg < 8
      → IsOperand op
      → IsCode (opcode way size ∷ operand_bytes reg op) s.snpc m.mem
      → exec_again (suc fuel) (is_word size) s m ≡ (do
        m' ← coded way (bytes_of size) reg op m
        ok (some (behind (s.snpc + 1 + length (operand_bytes reg op)) s, m')))
  exec_again-mov fuel way size reg op s m hr h code =
      exec-plain fuel (is_word size) (opcode way size) (line_for way size) (operand_bytes reg op) s
        m code (select-opcode way size)
      ∙ rw
          (run_mov way size reg op (record s { snpc = s.snpc + 1 }) m hr h
            (IsCode-tail (opcode way size) (operand_bytes reg op) s.snpc m.mem code))
          (>>=-assoc (coded way (bytes_of size) reg op m) _ _)

  -- All three sizes.
  pub isa_exec_once-coded :
      (fuel : ℕ) (way : Way) (size : Size) (reg : ℕ) (op : Operand) (s : Decode) (m : Machine D)
      → reg < 8
      → IsOperand op
      → IsCode (mov_code way size reg op) s.snpc m.mem
      → isa_exec_once (suc (suc fuel)) s m ≡ (do
        m' ← coded way (bytes_of size) reg op m
        ok (some (behind (s.snpc + length (mov_code way size reg op)) s, m')))
  unfolding isa_exec_once
  isa_exec_once-coded fuel way byte reg op s m hr h code =
      exec_again-mov (suc fuel) way byte reg op s m hr h code
      ∙ ap (finish way (bytes_of byte) reg op s m) (omega arith)
  isa_exec_once-coded fuel way long reg op s m hr h code =
      exec_again-mov (suc fuel) way long reg op s m hr h code
      ∙ ap (finish way (bytes_of long) reg op s m) (omega arith)
  isa_exec_once-coded fuel way word reg op s m hr h code =
      exec-prefix (suc fuel) false (opcode way word ∷ operand_bytes reg op) s m code
      ∙ exec_again-mov fuel way word reg op (behind (s.snpc + 1) s) m hr h
          (IsCode-tail 0x66 (opcode way word ∷ operand_bytes reg op) s.snpc m.mem code)
      ∙ ap (finish way (bytes_of word) reg op s m) (omega arith)
