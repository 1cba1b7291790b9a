-- ===== src/Minirv/Macros/Ordered.antt =====
-- blt, bltu, bge and bgeu, run: pc is the target just if the order of the registers says so.
use model_lib.Base.{
  ℕ, ◌+◌, ◌/◌, ◌%◌, ◌^◌, ◌<◌, ◌≡◌, refl, sym, ap, ◌∙◌, inl, inr, Bool, true, false, not, arith, ltb,
  if◌then◌else◌, lt→ltb, le→ltb, Bool-cases,
}
use model_lib.Base.Words.{u32}
use model_lib.Base.Memory.{update}
use model_lib.Minirv.{Reg, x0, sp, gp, tp, State, get, same_reg, run}
use model_lib.Minirv.Linked.{Linked}
use model_lib.Minirv.Macros.{Symbols, msb, slli, slli_short, getbyte, slt, sltu}
use model_lib.Minirv.Macros.Words.{get_of_zero}
use model_lib.Minirv.Macros.Less.{slt-run, sltu-run}
use model_lib.Minirv.Macros.Signs.{sign_cases, flag, signed_less}
use model_lib.Minirv.Macros.Branch.{blt, bltu, bge, bgeu, not_positive_code}
use model_lib.Minirv.Macros.Jumps.{Labels, resolve-pc}
use model_lib.Minirv.Macros.Positive.{not_positive-run}

if_not-not : (b : Bool) (x y : ℕ) → (if not (not b) then x else y) ≡ (if b then x else y)
if_not-not true x y = refl
if_not-not false x y = refl

if_not : (b : Bool) (x y : ℕ) → (if not b then x else y) ≡ (if b then y else x)
if_not true x y = refl
if_not false x y = refl

-- The sign bit, as msb leaves it.
sign_flag :
    (a : ℕ)
    → a < 2 ^ 32
    → u32 (a / 16777216 % 256 + a / 16777216 % 256) / 256 % 256 ≡ flag (signed_less a 0)
sign_flag a h = elim (sign_cases a h) [
  | inl e ↦ omega (arith, e) ∙ sym (ap flag (le→ltb (u32 (a + 2 ^ 31)) (2 ^ 31) (omega (arith, e))))
  | inr e ↦ omega (arith, e) ∙ sym (ap flag (lt→ltb (u32 (a + 2 ^ 31)) (2 ^ 31) (omega (arith, e))))
]

module _ (link : ℕ) (sym : Symbols) where
  -- In a linked program, for any rs1 and any rs2 but gp, x0 among them, and two even addresses of 32
  -- bits: blt goes to the target if rs1 is less than rs2 as a signed number, and to the label behind
  -- the macro if not.
  pub blt-pc :
      (rs1 rs2 : Reg) (target next : ℕ) (s : State)
      → Linked sym s
      → Labels target next
      → same_reg rs2 gp ≡ false
      → (run link (blt sym rs1 rs2 target next) s).pc
        ≡ (if signed_less (get rs1 s.regs) (get rs2 s.regs) then target else next)
  unfolding blt msb slli slli_short getbyte update
  blt-pc rs1 rs2 target next s l h n =
      let a = get rs1 s.regs in
      let b = get rs2 s.regs in
      elim (Bool-cases (same_reg rs2 x0)) [
        | inl e ↦
            rw (e, get_of_zero rs2 s.regs e)
              (resolve-pc link (msb tp rs1) s _ target next true (signed_less a 0) refl h
                (l.words sp) (sign_flag a (l.words rs1)))
        | inr n2 ↦ elim (Bool-cases (same_reg rs1 x0)) [
          | inl e ↦
              let p = not_positive-run link sym rs2 s l n in
              rw (n2, e, get_of_zero rs1 s.regs e)
                (resolve-pc link (not_positive_code sym rs2) s _ target next false
                    (not (signed_less 0 b)) p.2 h (l.words sp) refl
                  ∙ if_not-not (signed_less 0 b) target next)
          | inr n1 ↦
              let p = slt-run link sym tp rs1 rs2 s l in
              rw (n2, n1)
                (resolve-pc link (slt sym tp rs1 rs2) s _ target next true (signed_less a b) p.3 h
                  (l.words sp) refl)
        ]
      ]

  -- In a linked program, for any rs1 and any rs2 but gp, x0 among them, and two even addresses of 32
  -- bits: bge goes to the label behind the macro if rs1 is less than rs2 as a signed number, and to
  -- the target if not.
  pub bge-pc :
      (rs1 rs2 : Reg) (target next : ℕ) (s : State)
      → Linked sym s
      → Labels target next
      → same_reg rs2 gp ≡ false
      → (run link (bge sym rs1 rs2 target next) s).pc
        ≡ (if signed_less (get rs1 s.regs) (get rs2 s.regs) then next else target)
  unfolding bge
  bge-pc rs1 rs2 target next s l h n =
      let a = get rs1 s.regs in
      let b = get rs2 s.regs in
      elim (Bool-cases (same_reg rs1 x0)) [
        | inl e ↦
            let p = not_positive-run link sym rs2 s l n in
            rw (e, get_of_zero rs1 s.regs e)
              (resolve-pc link (not_positive_code sym rs2) s _ target next true
                  (not (signed_less 0 b)) p.2 h (l.words sp) refl
                ∙ if_not (signed_less 0 b) target next)
        | inr n1 ↦
            let p = slt-run link sym tp rs1 rs2 s l in
            rw n1 (
              resolve-pc link (slt sym tp rs1 rs2) s _ target next false (signed_less a b) p.3 h
                (l.words sp) refl
              ∙ if_not (signed_less a b) target next)
      ]

  -- In a linked program, for any two registers and two even addresses of 32 bits: bltu goes to the
  -- target if rs1 is less than rs2 as an unsigned number, and to the label behind the macro if not.
  pub bltu-pc :
      (rs1 rs2 : Reg) (target next : ℕ) (s : State)
      → Linked sym s
      → Labels target next
      → (run link (bltu sym rs1 rs2 target next) s).pc
        ≡ (if ltb (get rs1 s.regs) (get rs2 s.regs) then target else next)
  unfolding bltu
  bltu-pc rs1 rs2 target next s l h =
      let p = sltu-run link sym tp rs1 rs2 s l in
      resolve-pc link (sltu sym tp rs1 rs2) s _ target next true
        (ltb (get rs1 s.regs) (get rs2 s.regs)) p.3 h (l.words sp) refl

  -- bgeu goes the other way.
  pub bgeu-pc :
      (rs1 rs2 : Reg) (target next : ℕ) (s : State)
      → Linked sym s
      → Labels target next
      → (run link (bgeu sym rs1 rs2 target next) s).pc
        ≡ (if ltb (get rs1 s.regs) (get rs2 s.regs) then next else target)
  unfolding bgeu
  bgeu-pc rs1 rs2 target next s l h =
      let p = sltu-run link sym tp rs1 rs2 s l in
      resolve-pc link (sltu sym tp rs1 rs2) s _ target next false
        (ltb (get rs1 s.regs) (get rs2 s.regs)) p.3 h (l.words sp) refl
      ∙ if_not (ltb (get rs1 s.regs) (get rs2 s.regs)) target next
