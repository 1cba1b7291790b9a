-- ===== src/Minirv/Macros/Logic.antt =====
-- and, or and xor, run: byte by byte from a table of 65536 bytes.
use model_lib.Base.{
  ℕ, ◌+◌, ◌*◌, ◌/◌, ◌%◌, ◌^◌, ◌<◌, bit_and, bit_or, bit_xor, ◌≡◌, refl, ap, ap₂, ◌∙◌, Bool, true,
  false, ◌||◌, Option, none, some, List, [], ◌∷◌, ◌++◌, arith, if◌then◌else◌,
}
use mathlib.Core.Path.{subst⁻¹}
use model_lib.Base.Words.{u32}
use model_lib.Base.Bytes.{
  Bitwise, bitwise_small, bitwise_word, bit_and-Bitwise, bit_or-Bitwise, bit_xor-Bitwise,
}
use model_lib.Base.Memory.{Bytes, update, update_off}
use model_lib.Minirv.{
  Reg, x0, ra, sp, gp, tp, s0, s1, other, Regs, State, slot, Instr, lw, get, put, same_reg, set_reg,
  run, byte_at, read_word, write_word,
}
use model_lib.Minirv.Linked.{
  TableAt, byte_at-table, Linked, linked_part, lut_bin-and, lut_bin-or, lut_bin-xor, gen_table-byte,
}
use model_lib.Minirv.Macros.{
  Symbols, hi, lo, la, logic, logic_code, logic8_byte_internal, and_macro, or_macro, xor_macro,
  var_c,
}
use model_lib.Minirv.Macros.Words.{hi-lo, get-put, get-put_tp, put-put}
use model_lib.Minirv.Tables.{gen_table}

get-put_sp :
    (r : Reg) (v : ℕ) (regs : Regs) → same_reg r sp ≡ false → (put r v regs).sp_val ≡ regs.sp_val
get-put_sp x0 v regs free = refl
get-put_sp ra v regs free = refl
get-put_sp sp v regs free = absurd (ground (arith, free))
get-put_sp gp v regs free = refl
get-put_sp tp v regs free = refl
get-put_sp s0 v regs free = refl
get-put_sp s1 v regs free = refl
get-put_sp (other n) v regs free = refl

past_x0 : (b : Bool) (code : Option (List Instr)) → b ≡ false → code ≡ (if b then some [] else code)
past_x0 b code e = rw e refl

refused :
    (b : Bool) (c code : List Instr)
    → (if b then none else some c) ≡ some code
    → (b ≡ false) × (code ≡ c)
refused b c code e = grind arith

or_false : (a b : Bool) → a || b ≡ false → (a ≡ false) × (b ≡ false)
or_false true b e = absurd (grind arith)
or_false false b e = (refl, e)

module _ {op digit : ℕ → ℕ → ℕ} (bitwise : Bitwise op digit) (link lut : ℕ) (sym : Symbols)
    (rd : Reg) where
  -- The state after one byte: its value is in tp and in VAR_C.
  abbrev one_byte : ℕ → State → State
  one_byte b u =
      let x = u.scratch (12 + b) in
      let y = u.scratch (8 + b) in
      record (set_reg tp (op x y % 256) u) {
        scratch =
            update (update (update u.scratch 1 (x % 256)) 0 (y % 256)) (4 + b) (op x y % 256 % 256);
      }

  logic8_byte_internal-run :
      (b : ℕ) (u : State)
      → TableAt u.mem u.regs.sp_val lut (256 * 256) (gen_table 256 1 op)
      → get rd u.regs ≡ lut
      → same_reg rd tp ≡ false
      → u.scratch (12 + b) < 256
      → u.scratch (8 + b) < 256
      → u.scratch 2 ≡ 0
      → u.scratch 3 ≡ 0
      → run link (logic8_byte_internal sym rd b) u ≡ one_byte b u
  unfolding update
  logic8_byte_internal-run b u t e free hx hy z2 z3 =
      let x = u.scratch (12 + b) in
      let y = u.scratch (8 + b) in
      let pair : ℕ → Bytes = λ (v : ℕ). update (update u.scratch 1 (x % 256)) 0 (v % 256) in
      let word : ℕ → ℕ = λ (v : ℕ). read_word (pair v) 0 in
      let looked : ℕ → ℕ → State =
        λ (v g : ℕ). record (set_reg tp (u32 (g + word v)) u) { scratch = pair v } in
      let stored : ℕ → ℕ → State =
        λ (v r : ℕ). record (set_reg tp r u) { scratch = update (pair v) (4 + b) (r % 256) } in
      let unchanged : update u.scratch 1 (x % 256) (8 + b) ≡ y =
        update_off u.scratch 1 (x % 256) (8 + b) (omega arith) in
      ap₂ (λ (v g : ℕ). stored v (byte_at (looked v g) (u32 (u32 (g + word v) + 0)))) unchanged
        (get-put_tp rd (word (update u.scratch 1 (x % 256) (8 + b))) u.regs free ∙ e)
      ∙ ap (stored y) (
          byte_at-table (looked y lut) lut (256 * 256) (gen_table 256 1 op) (256 * x + y) _ t
            (omega arith) (omega (arith, z2, z3, t.inside))
          ∙ gen_table-byte op x y hy)

  byte_kept : (x y : ℕ) → x < 256 → y < 256 → op x y % 256 % 256 ≡ op x y
  byte_kept x y hx hy = omega (arith, bitwise_small bitwise 8 x y hx hy)

  bytes_word :
      (x y : ℕ)
      → x < 2 ^ 32
      → y < 2 ^ 32
      → op (x % 256) (y % 256) % 256 % 256
          + 256
            * (op (x / 256 % 256) (y / 256 % 256) % 256 % 256
                + 256
                  * (op (x / 65536 % 256) (y / 65536 % 256) % 256 % 256
                      + 256 * (op (x / 16777216 % 256) (y / 16777216 % 256) % 256 % 256)))
        ≡ op x y
  bytes_word x y hx hy =
      rw
        (
          byte_kept (x % 256) (y % 256) (omega arith) (omega arith),
          byte_kept (x / 256 % 256) (y / 256 % 256) (omega arith) (omega arith),
          byte_kept (x / 65536 % 256) (y / 65536 % 256) (omega arith) (omega arith),
          byte_kept (x / 16777216 % 256) (y / 16777216 % 256) (omega arith) (omega arith),
        )
        (bitwise_word bitwise x y hx hy)

  -- The code of `logic`: its result is in rd.
  logic_code-run :
      (rs1 rs2 : Reg) (s : State)
      → TableAt s.mem s.regs.sp_val lut (256 * 256) (gen_table 256 1 op)
      → same_reg rd x0 ≡ false
      → same_reg rd sp ≡ false
      → same_reg rd tp ≡ false
      → get rs1 s.regs < 2 ^ 32
      → get rs2 s.regs < 2 ^ 32
      → get rd (run link (logic_code sym lut rd rs1 rs2) s).regs
        ≡ op (get rs1 s.regs) (get rs2 s.regs)
  unfolding la update
  logic_code-run rs1 rs2 s t live n_sp n_tp hx hy =
      let x = get rs1 s.regs in
      let y = get rs2 s.regs in
      let saved = write_word (write_word (write_word s.scratch 12 x) 8 y) 0 0 in
      let regs0 = put rd lut s.regs in
      let m4 : State = record s { regs = regs0; scratch = saved } in
      let m3 = one_byte 3 m4 in
      let m2 = one_byte 2 m3 in
      let m1 = one_byte 1 m2 in
      let m0 = one_byte 0 m1 in
      let byte : ℕ → List Instr = λ (b : ℕ). logic8_byte_internal sym rd b in
      let last = lw rd (slot var_c 0) ∷ [] in
      let loaded : put rd (u32 (get rd (put rd (u32 (hi lut * 4096)) s.regs) + lo lut))
            (put rd (u32 (hi lut * 4096)) s.regs)
          ≡ regs0 =
        rw (get-put rd (u32 (hi lut * 4096)) s.regs live, hi-lo lut (omega (arith, t.inside)))
          (put-put rd lut (u32 (hi lut * 4096)) s.regs) in
      let table : TableAt m4.mem m4.regs.sp_val lut (256 * 256) (gen_table 256 1 op) =
        subst⁻¹ (λ (a : ℕ). TableAt s.mem a lut (256 * 256) (gen_table 256 1 op))
          (get-put_sp rd lut s.regs n_sp) t in
      let at_lut : (v : ℕ) → get rd (put tp v regs0) ≡ lut =
        λ v. get-put_tp rd v regs0 n_tp ∙ get-put rd lut s.regs live in
      ap (λ (m : State). get rd m.regs)
        (ap
            (λ (r : Regs).
              run link (byte 3 ++ byte 2 ++ byte 1 ++ byte 0 ++ last)
                (record s { regs = r; scratch = saved }))
            loaded
          ∙ ap (run link (byte 2 ++ byte 1 ++ byte 0 ++ last)) (
              logic8_byte_internal-run 3 m4 table (get-put rd lut s.regs live) n_tp (omega arith)
                (omega arith) refl refl)
          ∙ ap (run link (byte 1 ++ byte 0 ++ last)) (
              logic8_byte_internal-run 2 m3 table (at_lut _) n_tp (omega arith) (omega arith) refl
                refl)
          ∙ ap (run link (byte 0 ++ last)) (
              logic8_byte_internal-run 1 m2 table (at_lut _) n_tp (omega arith) (omega arith) refl
                refl)
          ∙ ap (run link last) (
              logic8_byte_internal-run 0 m1 table (at_lut _) n_tp (omega arith) (omega arith) refl
                refl))
      ∙ get-put rd (read_word m0.scratch 4) m0.regs live
      ∙ bytes_word x y hx hy

  -- What `logic` accepts is its code.
  logic-run :
      (rs1 rs2 : Reg) (code : List Instr) (s : State)
      → TableAt s.mem s.regs.sp_val lut (256 * 256) (gen_table 256 1 op)
      → logic sym lut rd rs1 rs2 ≡ some code
      → same_reg rd x0 ≡ false
      → get rs1 s.regs < 2 ^ 32
      → get rs2 s.regs < 2 ^ 32
      → get rd (run link code s).regs ≡ op (get rs1 s.regs) (get rs2 s.regs)
  unfolding logic
  logic-run rs1 rs2 code s t e live hx hy =
      let sp_used = same_reg rd sp || same_reg rs1 sp || same_reg rs2 sp in
      let gp_used = same_reg rd gp || same_reg rs1 gp || same_reg rs2 gp in
      let tp_used = same_reg rd tp || same_reg rs1 tp in
      let kept : (if sp_used || gp_used || tp_used
            then none
            else some (logic_code sym lut rd rs1 rs2))
          ≡ some code =
        past_x0 (same_reg rd x0) _ live ∙ e in
      let r = refused (sp_used || gp_used || tp_used) (logic_code sym lut rd rs1 rs2) code kept in
      let free = or_false (sp_used || gp_used) tp_used r.0 in
      let free_sp =
        or_false (same_reg rd sp || same_reg rs1 sp) (same_reg rs2 sp)
          (or_false sp_used gp_used free.0).0 in
      let n_sp = (or_false (same_reg rd sp) (same_reg rs1 sp) free_sp.0).0 in
      let n_tp = (or_false (same_reg rd tp) (same_reg rs1 tp) free.1).0 in
      ap (λ (c : List Instr). get rd (run link c s).regs) r.1
      ∙ logic_code-run rs1 rs2 s t live n_sp n_tp hx hy

-- The three macros with their tables from lut.bin.
module _ (link : ℕ) (sym : Symbols) (rd rs1 rs2 : Reg) (code : List Instr) (s : State) where
  -- Where the assembler accepts `and` for the three registers and rd is not x0, its code leaves the
  -- bitwise and of rs1 and rs2 in rd, in a linked program.
  pub and_macro-run :
      Linked sym s
      → and_macro sym rd rs1 rs2 ≡ some code
      → same_reg rd x0 ≡ false
      → get rd (run link code s).regs ≡ bit_and (get rs1 s.regs) (get rs2 s.regs)
  and_macro-run l e live =
      logic-run bit_and-Bitwise link sym.logic_shift sym rd rs1 rs2 code s
        (linked_part l 0 sym.logic_shift (gen_table 256 1 bit_and) (256 * 256) (omega arith)
          (omega arith) lut_bin-and)
        e live (l.words rs1) (l.words rs2)

  -- The same for `or`, and for `xor`.
  pub or_macro-run :
      Linked sym s
      → or_macro sym rd rs1 rs2 ≡ some code
      → same_reg rd x0 ≡ false
      → get rd (run link code s).regs ≡ bit_or (get rs1 s.regs) (get rs2 s.regs)
  or_macro-run l e live =
      logic-run bit_or-Bitwise link (sym.logic_shift + 256 * 256) sym rd rs1 rs2 code s
        (linked_part l (256 * 256) (sym.logic_shift + 256 * 256) (gen_table 256 1 bit_or)
          (256 * 256) refl (omega arith) lut_bin-or)
        e live (l.words rs1) (l.words rs2)

  pub xor_macro-run :
      Linked sym s
      → xor_macro sym rd rs1 rs2 ≡ some code
      → same_reg rd x0 ≡ false
      → get rd (run link code s).regs ≡ bit_xor (get rs1 s.regs) (get rs2 s.regs)
  xor_macro-run l e live =
      logic-run bit_xor-Bitwise link (sym.logic_shift + 256 * 256 + 256 * 256) sym rd rs1 rs2 code s
        (linked_part l (2 * (256 * 256)) (sym.logic_shift + 256 * 256 + 256 * 256)
          (gen_table 256 1 bit_xor) (256 * 256) (omega arith) (omega arith) lut_bin-xor)
        e live (l.words rs1) (l.words rs2)
