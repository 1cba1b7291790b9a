-- ===== src/Minirv/Macros/Positive.antt =====
-- The test of blt and bge for a positive number, from two sign bits.
use model_lib.Base.{
  ℕ, ◌+◌, ◌*◌, ◌/◌, ◌%◌, ◌^◌, ◌≤◌, ◌<◌, ◌≡◌, sym, ap, ◌∙◌, ◌⊎◌, inl, inr, Bool, false, not, [], ◌∷◌,
  ◌++◌, arith, lt→ltb, le→ltb,
}
use model_lib.Base.Words.{u32}
use model_lib.Base.Memory.{Bytes, update}
use model_lib.Minirv.{Reg, gp, tp, State, add, get, same_reg, set_reg, run, byte_at}
use model_lib.Minirv.Linked.{byte_at-table, Linked}
use model_lib.Minirv.Macros.{Symbols, hi, lo, la, msb, slli, slli_short, getbyte}
use model_lib.Minirv.Macros.Words.{hi-lo, get-put_gp}
use model_lib.Minirv.Macros.Signs.{flag, signed_less, sign_bit}
use model_lib.Minirv.Tables.{or1_table}
use model_lib.Minirv.Macros.Branch.{not_positive_code, minus_one}

-- The two bits that find whether a number is positive.
or1_index :
    (b : ℕ)
    → b < 2 ^ 32
    → u32 (
        u32 (b / 16777216 % 256 + b / 16777216 % 256) / 256 % 256
        + u32 (u32 (b + minus_one) / 16777216 % 256 + u32 (b + minus_one) / 16777216 % 256)
          / 256
          % 256)
      ≡ sign_bit b + sign_bit (u32 (b + minus_one))
or1_index b h = omega arith

two_bits : (b : ℕ) → b < 2 ^ 32 → sign_bit b + sign_bit (u32 (b + minus_one)) < 4
two_bits b h = omega arith

positive_cases :
    (b : ℕ)
    → b < 2 ^ 32
    → ((sign_bit b + sign_bit (u32 (b + minus_one)) ≡ 0) × 0 < b × b < 2 ^ 31)
      ⊎ ((sign_bit b + sign_bit (u32 (b + minus_one)) ≡ 1) × u32 (b + 2 ^ 31) ≤ 2 ^ 31)
      ⊎ ((sign_bit b + sign_bit (u32 (b + minus_one)) ≡ 2) × u32 (b + 2 ^ 31) ≤ 2 ^ 31)
positive_cases b h = ground arith

or1_lem :
    (b : ℕ)
    → b < 2 ^ 32
    → or1_table (sign_bit b + sign_bit (u32 (b + minus_one))) ≡ flag (not (signed_less 0 b))
or1_lem b h = elim (positive_cases b h) [
  | inl p ↦
      ap or1_table p.0
      ∙ sym (
          ap (λ (v : Bool). flag (not v))
            (lt→ltb (2 ^ 31) (u32 (b + 2 ^ 31)) (omega (arith, p.1, p.2))))
  | inr (inl p) ↦
      ap or1_table p.0
      ∙ sym (ap (λ (v : Bool). flag (not v)) (le→ltb (2 ^ 31) (u32 (b + 2 ^ 31)) p.1))
  | inr (inr p) ↦
      ap or1_table p.0
      ∙ sym (ap (λ (v : Bool). flag (not v)) (le→ltb (2 ^ 31) (u32 (b + 2 ^ 31)) p.1))
]

module _ (link : ℕ) (sym : Symbols) where
  -- tp = not (0 < rs2)
  pub not_positive-run :
      (rs2 : Reg) (s : State)
      → Linked sym s
      → same_reg rs2 gp ≡ false
      → (scratch : Bytes) × (g : ℕ) × (run link (not_positive_code sym rs2) s
          ≡ set_reg tp
              (flag (not (signed_less 0 (get rs2 s.regs))))
              (set_reg gp g (record s { scratch = scratch })))
  unfolding msb slli slli_short getbyte la update
  not_positive-run rs2 s l n =
      let b = get rs2 s.regs in
      let high = run link (msb gp rs2) s in
      let bits : ℕ → State = λ (c : ℕ).
        run link (msb tp tp ++ add gp gp tp ∷ []) (set_reg tp (u32 (c + minus_one)) high) in
      let looked : ℕ → ℕ → State =
        λ (c a : ℕ). set_reg tp (u32 ((bits c).regs.gp_val + a)) (bits c) in
      let done : ℕ → ℕ → State = λ (c a : ℕ).
        set_reg tp (byte_at (looked c a) (u32 (u32 ((bits c).regs.gp_val + a) + 0))) (bits c) in
      let index : (bits b).regs.gp_val ≡ sign_bit b + sign_bit (u32 (b + minus_one)) =
        or1_index b (l.words rs2) in
      (
        (bits b).scratch,
        (bits b).regs.gp_val,
        ap (λ (c : ℕ). done c (u32 (u32 (hi sym.or1 * 4096) + lo sym.or1)))
              (get-put_gp rs2 high.regs.gp_val s.regs n)
            ∙ ap (done b) (hi-lo sym.or1 (omega (arith, l.or1_in.inside)))
            ∙ ap (λ (v : ℕ). set_reg tp v (bits b))
                (byte_at-table (looked b sym.or1) sym.or1 4 or1_table
                    (sign_bit b + sign_bit (u32 (b + minus_one)))
                    (u32 (u32 ((bits b).regs.gp_val + sym.or1) + 0)) l.or1_in
                    (two_bits b (l.words rs2))
                    (omega (arith, index, l.or1_in.inside, two_bits b (l.words rs2)))
                  ∙ or1_lem b (l.words rs2)),
      )
