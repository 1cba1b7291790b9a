-- ===== src/Minirv/Macros/Less.antt =====
-- slt and sltu, run: the sign bits of both operands and of their difference find the answer.
use model_lib.Base.{
  ℕ, ◌+◌, ◌*◌, ◌/◌, ◌%◌, ◌^◌, ◌≤◌, ◌<◌, bit_xor, ◌≡◌, refl, ap, ap₂, ◌∙◌, [], ◌∷◌, ◌++◌, arith, ltb,
}
use model_lib.Base.Words.{u32, sub32}
use model_lib.Base.Memory.{Bytes, update}
use model_lib.Minirv.{
  Reg, x0, ra, sp, gp, tp, s0, s1, other, Regs, State, Place, slot, at, Instr, add, addi, lui, lw,
  lbu, sw, sb, jalr, get, put, same_reg, set_reg, step, run, byte_at, scratch_index, read_word,
  write_word, address,
}
use model_lib.Minirv.Macros.{
  xor8_table, Symbols, hi, lo, la, mv, msb, slli, slli_short, getbyte, sub, slt_template, slt, sltu,
  var_a,
}
use model_lib.Minirv.Macros.Words.{run-append, hi-lo, sub-run, word_kept}
use model_lib.Minirv.Linked.{TableAt, byte_at-table, Linked, linked_not}
use model_lib.Minirv.Tables.{slt1_table, sltu1_table}
use model_lib.Minirv.Macros.Signs.{sign_index, signed_less, flag, slt1_lem, sltu1_lem}

mod_small : (x : ℕ) → u32 x < 2 ^ 32
mod_small x = omega arith

read_word-frame :
    (m m' : Bytes) (i : ℕ)
    → ((i : ℕ) → 20 ≤ i → m i ≡ m' i)
    → 20 ≤ i
    → read_word m i ≡ read_word m' i
read_word-frame m m' i frame h = omega (
  arith,
  frame i h,
  frame (i + 1) (omega arith),
  frame (i + 2) (omega arith),
  frame (i + 3) (omega arith),
)

index_lem :
    (a b x y : ℕ)
    → a < 2 ^ 32
    → b < 2 ^ 32
    → x ≡ a
    → y ≡ b
    → u32 (
        u32 (
          u32 (
            u32 (
              u32 (x / 16777216 % 256 + x / 16777216 % 256) / 256 % 256
              + u32 (x / 16777216 % 256 + x / 16777216 % 256) / 256 % 256)
            + u32 (y / 16777216 % 256 + y / 16777216 % 256) / 256 % 256)
          + u32 (
              u32 (
                u32 (x / 16777216 % 256 + x / 16777216 % 256) / 256 % 256
                + u32 (x / 16777216 % 256 + x / 16777216 % 256) / 256 % 256)
              + u32 (y / 16777216 % 256 + y / 16777216 % 256) / 256 % 256))
        + u32 (sub32 x y / 16777216 % 256 + sub32 x y / 16777216 % 256) / 256 % 256)
      ≡ sign_index a b
index_lem a b x y ha hb e f = omega (arith, e, f)

module _ (link : ℕ) (sym : Symbols) where
  slt_template-run :
      (lut : ℕ) (f : ℕ → ℕ) (rd rs1 rs2 : Reg) (s : State)
      → TableAt s.mem s.regs.sp_val (xor8_table sym + 0xff * 256) 256 (bit_xor 255)
      → TableAt s.mem s.regs.sp_val lut 8 f
      → get rs1 s.regs < 2 ^ 32
      → get rs2 s.regs < 2 ^ 32
      → s.regs.s0_val < 2 ^ 32
      → s.regs.s1_val < 2 ^ 32
      → (scratch : Bytes) × (g t : ℕ) × (run link (slt_template sym lut rd rs1 rs2) s
          ≡ set_reg rd
              (f (sign_index (get rs1 s.regs) (get rs2 s.regs)))
              (set_reg gp g (set_reg tp t (record s { scratch = scratch }))))
  unfolding slt_template msb slli slli_short getbyte la update sub model_lib.Minirv.Macros.not_macro
  slt_template-run lut f rd rs1 rs2 s xor_table table ha hb h0 h1 =
      let a = get rs1 s.regs in
      let b = get rs2 s.regs in
      let before =
        sw s0 (slot 1 0)
          ∷ sw s1 (slot 2 0)
          ∷ sw rs2 (slot var_a 0)
          ∷ mv s0 rs1
          ∷ lw s1 (slot var_a 0)
          ∷ msb gp s0
        ++ slli gp gp 1
        ++ msb tp s1
        ++ add gp gp tp ∷ slli gp gp 1 in
      let after_sub =
        msb tp tp
        ++ add gp gp tp ∷ la tp lut
        ++ add tp tp gp ∷ lw s1 (slot 2 0) ∷ lw s0 (slot 1 0) ∷ lbu rd (at 0 tp) ∷ [] in
      let mid = run link before s in
      let mid_a : mid.regs.s0_val ≡ a = omega arith in
      let mid_b : mid.regs.s1_val ≡ b = word_kept b hb in
      let d = sub-run link sym tp s0 s1 mid xor_table (rw mid_b hb) (mod_small _) refl refl in
      let δ = sub32 mid.regs.s0_val mid.regs.s1_val in
      let g = u32 (mid.regs.gp_val + u32 (δ / 16777216 % 256 + δ / 16777216 % 256) / 256 % 256) in
      let sc = (run link (msb tp tp) (set_reg tp δ (record mid { scratch = d.0 }))).scratch in
      let index : g ≡ sign_index a b =
        index_lem a b mid.regs.s0_val mid.regs.s1_val ha hb mid_a mid_b in
      let small : sign_index a b < 8 = omega arith in
      let t = u32 (lut + g) in
      let S : ℕ → ℕ → ℕ → State = λ (t v1 v0 : ℕ). record mid {
        regs = record mid.regs { gp_val = g; tp_val = t; s1_val = v1; s0_val = v0 };
        scratch = sc;
      } in
      let done : ℕ → ℕ → ℕ → State =
        λ (t v1 v0 : ℕ). set_reg rd (byte_at (S t v1 v0) (u32 (t + 0))) (S t v1 v0) in
      (
        sc,
        g,
        t,
        run-append link before (sub sym tp s0 s1 ++ after_sub) s
            ∙ run-append link (sub sym tp s0 s1) after_sub mid
            ∙ ap (run link after_sub) d.3
            ∙ ap (λ (l : ℕ). done (u32 (l + g)) (read_word sc 20) (read_word sc 24))
                (hi-lo lut (omega (arith, table.inside)))
            ∙ ap₂ (λ (v1 v0 : ℕ). done t v1 v0)
                (read_word-frame d.0 mid.scratch 20 d.2 (omega arith) ∙ word_kept s.regs.s1_val h1)
                (read_word-frame d.0 mid.scratch 24 d.2 (omega arith) ∙ word_kept s.regs.s0_val h0)
            ∙ ap (λ (v : ℕ). set_reg rd v (S t s.regs.s1_val s.regs.s0_val))
                (byte_at-table (S t s.regs.s1_val s.regs.s0_val) lut 8 f (sign_index a b)
                  (u32 (t + 0)) table small (omega (arith, index, table.inside))),
      )

module _ (link : ℕ) (sym : Symbols) where
  -- slt leaves 1 in rd if rs1 is less than rs2 as a signed number and 0 if not, for any three
  -- registers of a linked program; of all else only gp, tp and scratch bytes can change.
  pub slt-run :
      (rd rs1 rs2 : Reg) (s : State)
      → Linked sym s
      → (scratch : Bytes) × (g t : ℕ) × (run link (slt sym rd rs1 rs2) s
          ≡ set_reg rd
              (flag (signed_less (get rs1 s.regs) (get rs2 s.regs)))
              (set_reg gp g (set_reg tp t (record s { scratch = scratch }))))
  slt-run rd rs1 rs2 s l =
      let p =
        slt_template-run link sym sym.slt1 slt1_table rd rs1 rs2 s (linked_not l) l.slt1_in
          (l.words rs1) (l.words rs2) (l.words s0) (l.words s1) in
      (
        p.0,
        p.1,
        p.2,
        p.3
            ∙ ap
                (λ (v : ℕ).
                  set_reg rd v (set_reg gp p.1 (set_reg tp p.2 (record s { scratch = p.0 }))))
                (slt1_lem (get rs1 s.regs) (get rs2 s.regs) (l.words rs1) (l.words rs2)),
      )

  -- sltu: the same by the order of the unsigned numbers.
  pub sltu-run :
      (rd rs1 rs2 : Reg) (s : State)
      → Linked sym s
      → (scratch : Bytes) × (g t : ℕ) × (run link (sltu sym rd rs1 rs2) s
          ≡ set_reg rd
              (flag (ltb (get rs1 s.regs) (get rs2 s.regs)))
              (set_reg gp g (set_reg tp t (record s { scratch = scratch }))))
  sltu-run rd rs1 rs2 s l =
      let p =
        slt_template-run link sym sym.sltu1 sltu1_table rd rs1 rs2 s (linked_not l) l.sltu1_in
          (l.words rs1) (l.words rs2) (l.words s0) (l.words s1) in
      (
        p.0,
        p.1,
        p.2,
        p.3
            ∙ ap
                (λ (v : ℕ).
                  set_reg rd v (set_reg gp p.1 (set_reg tp p.2 (record s { scratch = p.0 }))))
                (sltu1_lem (get rs1 s.regs) (get rs2 s.regs) (l.words rs1) (l.words rs2)),
      )
