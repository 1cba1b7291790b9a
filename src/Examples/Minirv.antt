-- ===== src/Examples/Minirv.antt =====
-- A program's memory with the tables of the macros, and what the macros do there.
use model_lib.Base.{
  ℕ, ◌+◌, ◌^◌, ◌<◌, bit_and, ◌≡◌, refl, ap, ◌∙◌, some, List, arith, ◌==◌, if◌then◌else◌, lt→ltb,
  le→ltb,
}
use model_lib.Base.Memory.{Bytes}
use model_lib.Minirv.{Reg, x0, ra, sp, gp, tp, s0, s1, other, Regs, State, Instr, get, run, set_reg}
use model_lib.Minirv.Tables.{
  lut_bin, lut_size, slt1_table, sltu1_table, or1_table, same_result_table, check_8bit_0_table,
  followed_by,
}
use model_lib.Minirv.Linked.{Linked}
use model_lib.Minirv.Macros.Logic.{and_macro-run}
use model_lib.Minirv.Macros.{and_macro, logic_code}
use model_lib.Minirv.Macros.{Symbols, sub, slt, sltu, not_macro}
use model_lib.Minirv.Macros.Branch.{blt}
use model_lib.Minirv.Macros.Signs.{signed_less}
use model_lib.Minirv.Macros.Jumps.{Labels}
use model_lib.Minirv.Macros.Ordered.{blt-pc}

abbrev stack : ℕ
stack = 2147483648

abbrev tables : ℕ
tables = 2148532224

abbrev symbols : Symbols
symbols = record {
  logic_shift = tables;
  slt1 = tables + lut_size;
  sltu1 = tables + (lut_size + 8);
  or1 = tables + (lut_size + 16);
  same_result = tables + (lut_size + 20);
  check_8bit_0 = tables + (lut_size + 28);
  check_same_array = tables + (lut_size + 284);
}

-- The tables one behind the other.
abbrev from_check : ℕ → ℕ
from_check = followed_by 256 check_8bit_0_table (λ i. 0)

abbrev from_same : ℕ → ℕ
from_same = followed_by 8 same_result_table from_check

abbrev from_or1 : ℕ → ℕ
from_or1 = followed_by 4 or1_table from_same

abbrev from_sltu1 : ℕ → ℕ
from_sltu1 = followed_by 8 sltu1_table from_or1

abbrev from_slt1 : ℕ → ℕ
from_slt1 = followed_by 8 slt1_table from_sltu1

abbrev from_lut : ℕ → ℕ
from_lut = followed_by lut_size lut_bin from_slt1

abbrev linked_memory : Bytes
linked_memory = followed_by tables (λ i. 0) from_lut

-- a0 to a5 are -5, 7, 7 and so on.
abbrev registers : Regs
registers = record {
  ra_val = 1;
  sp_val = stack;
  gp_val = 2;
  tp_val = 3;
  s0_val = 4;
  s1_val = 5;
  others = λ n. if n == 0 then 4294967291 else 7;
}

abbrev start : State
start = record { regs = registers; scratch = λ i. 0; mem = linked_memory; pc = 0 }

registers-words : (r : Reg) → get r registers < 2 ^ 32
registers-words x0 = omega arith
registers-words ra = omega arith
registers-words sp = omega arith
registers-words gp = omega arith
registers-words tp = omega arith
registers-words s0 = omega arith
registers-words s1 = omega arith
registers-words (other n) = ground arith

-- A part of the memory behind others.
behind :
    (size : ℕ) (first rest : ℕ → ℕ) (k i : ℕ)
    → k ≡ size + i
    → followed_by size first rest k ≡ rest i
behind size first rest k i e = rw (le→ltb k size (omega (arith, e))) (ap rest (omega (arith, e)))

within :
    (size : ℕ) (first rest : ℕ → ℕ) (k : ℕ) → k < size → followed_by size first rest k ≡ first k
within size first rest k h = rw (lt→ltb k size h) refl

same_place : (a b : ℕ) → a ≡ b → linked_memory a ≡ linked_memory b
same_place a b e = ap linked_memory e

at_lut : (k : ℕ) → linked_memory (tables + k) ≡ from_lut k
at_lut k = behind tables (λ i. 0) from_lut (tables + k) k refl

at_slt1 : (k : ℕ) → linked_memory (tables + lut_size + k) ≡ from_slt1 k
at_slt1 k =
    same_place (tables + lut_size + k) (tables + (lut_size + k)) (omega arith)
    ∙ at_lut (lut_size + k)
    ∙ behind lut_size lut_bin from_slt1 (lut_size + k) k refl

at_sltu1 : (k : ℕ) → linked_memory (tables + (lut_size + 8) + k) ≡ from_sltu1 k
at_sltu1 k =
    same_place (tables + (lut_size + 8) + k) (tables + lut_size + (8 + k)) (omega arith)
    ∙ at_slt1 (8 + k)
    ∙ behind 8 slt1_table from_sltu1 (8 + k) k refl

at_or1 : (k : ℕ) → linked_memory (tables + (lut_size + 16) + k) ≡ from_or1 k
at_or1 k =
    same_place (tables + (lut_size + 16) + k) (tables + (lut_size + 8) + (8 + k)) (omega arith)
    ∙ at_sltu1 (8 + k)
    ∙ behind 8 sltu1_table from_or1 (8 + k) k refl

at_same : (k : ℕ) → linked_memory (tables + (lut_size + 20) + k) ≡ from_same k
at_same k =
    same_place (tables + (lut_size + 20) + k) (tables + (lut_size + 16) + (4 + k)) (omega arith)
    ∙ at_or1 (4 + k)
    ∙ behind 4 or1_table from_same (4 + k) k refl

at_check : (k : ℕ) → linked_memory (tables + (lut_size + 28) + k) ≡ from_check k
at_check k =
    same_place (tables + (lut_size + 28) + k) (tables + (lut_size + 20) + (8 + k)) (omega arith)
    ∙ at_same (8 + k)
    ∙ behind 8 same_result_table from_check (8 + k) k refl

start-Linked : Linked symbols start
start-Linked = record {
  lut_in = record {
    holds = λ i h. at_lut i ∙ within lut_size lut_bin from_slt1 i h;
    inside = omega arith;
    apart = λ i h. omega arith;
  };
  slt1_in = record {
    holds = λ i h. at_slt1 i ∙ within 8 slt1_table from_sltu1 i h;
    inside = omega arith;
    apart = λ i h. omega arith;
  };
  sltu1_in = record {
    holds = λ i h. at_sltu1 i ∙ within 8 sltu1_table from_or1 i h;
    inside = omega arith;
    apart = λ i h. omega arith;
  };
  or1_in = record {
    holds = λ i h. at_or1 i ∙ within 4 or1_table from_same i h;
    inside = omega arith;
    apart = λ i h. omega arith;
  };
  same_result_in = record {
    holds = λ i h. at_same i ∙ within 8 same_result_table from_check i h;
    inside = omega arith;
    apart = λ i h. omega arith;
  };
  check_8bit_0_in = record {
    holds = λ i h. at_check i ∙ within 256 check_8bit_0_table (λ i. 0) i h;
    inside = omega arith;
    apart = λ i h. omega arith;
  };
  words = registers-words;
}

labels : Labels 4096 8192
labels = record {
  target_word = omega arith;
  next_word = omega arith;
  target_even = refl;
  next_even = refl;
}

-- -5 < 7 as signed numbers; not so as unsigned ones.
blt-pc_example :
    (run 0 (blt symbols (other 0) (other 1) 4096 8192) start).pc
    ≡ (if signed_less 4294967291 7 then 4096 else 8192)
blt-pc_example = blt-pc 0 symbols (other 0) (other 1) 4096 8192 start start-Linked labels refl

-- The code of `and a2, a0, a1`.
abbrev and_code : List Instr
and_code = logic_code symbols symbols.logic_shift (other 2) (other 0) (other 1)

and_accepted : and_macro symbols (other 2) (other 0) (other 1) ≡ some and_code
unfolding model_lib.Minirv.Macros.logic
and_accepted = refl

and_macro-run_example : get (other 2) (run 0 and_code start).regs ≡ bit_and 4294967291 7
and_macro-run_example =
    and_macro-run 0 symbols (other 2) (other 0) (other 1) and_code start start-Linked and_accepted
      refl
