-- ===== src/Minirv/Macros/Jumps.antt =====
-- The branches, run: pc is the target or the label behind the macro.
use model_lib.Base.{
  ℕ, ◌+◌, ◌-◌, ◌*◌, ◌%◌, ◌^◌, ◌<◌, ◌≡◌, ap, ◌∙◌, Bool, true, false, not, List, [], ◌∷◌, ◌++◌, arith,
  if◌then◌else◌,
}
use model_lib.Base.Words.{u32}
use model_lib.Base.Memory.{update}
use model_lib.Minirv.{
  sp, gp, tp, State, slot, at, Instr, add, lw, sw, run, byte_at, scratch_index, read_word, address,
}
use model_lib.Minirv.Macros.{jr, hi, lo, la, slli, slli_short, var_a, var_b}
use model_lib.Minirv.Macros.Words.{run-append, hi-lo, word_kept}
use model_lib.Minirv.Macros.Signs.{flag}
use model_lib.Minirv.Macros.Branch.{branch_resolve, minus_var_b}

-- A byte below the stack pointer.
byte_at_scratch : (s : State) (a k : ℕ) → scratch_index s a ≡ k → k < 28 → byte_at s a ≡ s.scratch k
unfolding byte_at
byte_at_scratch s a k e h = ground arith

scratch_word :
    (s : State) (a k : ℕ)
    → s.regs.sp_val < 2 ^ 32
    → a ≡ u32 (s.regs.sp_val + (2 ^ 32 - 28 + k))
    → k < 25
    → read_word (λ i. byte_at s (u32 i)) a ≡ read_word s.scratch k
scratch_word s a k hs e h = omega (
  arith,
  byte_at_scratch s (u32 a) k (omega (arith, e)) (omega arith),
  byte_at_scratch s (u32 (a + 1)) (k + 1) (omega (arith, e)) (omega arith),
  byte_at_scratch s (u32 (a + 2)) (k + 2) (omega (arith, e)) (omega arith),
  byte_at_scratch s (u32 (a + 3)) (k + 3) (omega (arith, e)) (omega arith),
)

-- branch_resolve with the two labels in either order.
abbrev select_code : ℕ → ℕ → List Instr
select_code high low =
    slli tp tp 2
    ++ add tp sp tp ∷ la gp high
    ++ sw gp (slot var_a 0) ∷ la gp low
    ++ sw gp (slot var_b 0) ∷ lw tp (at minus_var_b tp) ∷ jr tp ∷ []

even_word : (v w : ℕ) → v ≡ w → w % 2 ≡ 0 → v - v % 2 ≡ w
even_word v w e h = omega arith

-- The addresses of two labels.
pub record Labels (target next : ℕ) : Type 0 where
  pub target_word : target < 2 ^ 32
  pub next_word : next < 2 ^ 32
  pub target_even : target % 2 ≡ 0
  pub next_even : next % 2 ≡ 0

module _ (link : ℕ) where
  select_code-run :
      (high low : ℕ) (taken : Bool) (s : State)
      → high < 2 ^ 32
      → low < 2 ^ 32
      → high % 2 ≡ 0
      → low % 2 ≡ 0
      → s.regs.sp_val < 2 ^ 32
      → s.regs.tp_val ≡ flag taken
      → (run link (select_code high low) s).pc ≡ (if taken then high else low)
  unfolding slli slli_short la update
  select_code-run high low true s hh hl eh el hs e =
      let before_load =
        slli tp tp 2
        ++ add tp sp tp ∷ la gp high
        ++ sw gp (slot var_a 0) ∷ la gp low
        ++ sw gp (slot var_b 0) ∷ [] in
      let m = run link before_load s in
      even_word _ high
        (scratch_word m (address minus_var_b tp m) 12 hs (omega (arith, e)) (omega arith)
          ∙ word_kept (u32 (u32 (hi high * 4096) + lo high)) (omega arith)
          ∙ hi-lo high hh)
        eh
  select_code-run high low false s hh hl eh el hs e =
      let before_load =
        slli tp tp 2
        ++ add tp sp tp ∷ la gp high
        ++ sw gp (slot var_a 0) ∷ la gp low
        ++ sw gp (slot var_b 0) ∷ [] in
      let m = run link before_load s in
      even_word _ low
        (scratch_word m (address minus_var_b tp m) 8 hs (omega (arith, e)) (omega arith)
          ∙ word_kept (u32 (u32 (hi low * 4096) + lo low)) (omega arith)
          ∙ hi-lo low hl)
        el

  -- branch_resolve: tp is the flag of `taken`, and `sel` says for which flag the target is meant.
  branch_resolve-run :
      (target next : ℕ) (sel taken : Bool) (s : State)
      → Labels target next
      → s.regs.sp_val < 2 ^ 32
      → s.regs.tp_val ≡ flag taken
      → (run link (branch_resolve target sel next) s).pc
        ≡ (if (if sel then taken else not taken) then target else next)
  unfolding branch_resolve slli la slli_short
  branch_resolve-run target next true taken s l hs e =
      select_code-run target next taken s l.target_word l.next_word l.target_even l.next_even hs e
  branch_resolve-run target next false true s l hs e =
      select_code-run next target true s l.next_word l.target_word l.next_even l.target_even hs e
  branch_resolve-run target next false false s l hs e =
      select_code-run next target false s l.next_word l.target_word l.next_even l.target_even hs e

  -- Code that leaves the flag in tp, and branch_resolve behind it.
  pub resolve-pc :
      (code : List Instr) (s m : State) (target next : ℕ) (sel taken : Bool)
      → run link code s ≡ m
      → Labels target next
      → m.regs.sp_val < 2 ^ 32
      → m.regs.tp_val ≡ flag taken
      → (run link (code ++ branch_resolve target sel next) s).pc
        ≡ (if (if sel then taken else not taken) then target else next)
  resolve-pc code s m target next sel taken e l hs f =
      ap (λ (u : State). u.pc) (run-append link code (branch_resolve target sel next) s)
      ∙ ap (λ (u : State). (run link (branch_resolve target sel next) u).pc) e
      ∙ branch_resolve-run target next sel taken m l hs f
