-- ===== src/Minirv/Linked.antt =====
-- What the linker and the loader leave for the macros of abstract-machine/tools/minirv: the tables
-- in memory, apart from the scratch bytes, and registers that hold words.
use model_lib.Base.{
  ℕ, ◌+◌, ◌-◌, ◌*◌, ◌/◌, ◌%◌, ◌^◌, ◌≤◌, ◌<◌, bit_and, bit_or, bit_xor, ◌≡◌, refl, ap, ◌∙◌, arith,
  lt→ltb, le→ltb,
}
use mathlib.Core.Path.{subst}
use model_lib.Base.Words.{u32, sub32}
use model_lib.Base.Bits.{bit_xor_ones}
use model_lib.Base.Memory.{Bytes}
use model_lib.Minirv.{Reg, State, get, byte_at}
use model_lib.Minirv.Macros.{Symbols, xor8_table}
use model_lib.Minirv.Tables.{
  lut_bin, lut_size, slt1_table, sltu1_table, or1_table, same_result_table, check_8bit_0_table,
  gen_table,
}

-- The bytes of a table, apart from the scratch bytes below this stack pointer.
pub record TableAt (mem : Bytes) (stack base size : ℕ) (f : ℕ → ℕ) : Type 0 where
  pub holds : (i : ℕ) → i < size → mem (base + i) ≡ f i
  pub inside : base + size ≤ 2 ^ 32
  pub apart : (i : ℕ) → i < size → 28 ≤ sub32 (u32 (base + i + 28)) stack

-- A look into a table, at the sum of an index and its address.
pub byte_at-table :
    (s : State) (base size : ℕ) (f : ℕ → ℕ) (i a : ℕ)
    → TableAt s.mem s.regs.sp_val base size f
    → i < size
    → a ≡ base + i
    → byte_at s a ≡ f i
unfolding byte_at
byte_at-table s base size f i a t h e = rw e (ground (arith, t.holds i h, t.apart i h))

pub record Linked (sym : Symbols) (s : State) : Type 0 where
  pub lut_in : TableAt s.mem s.regs.sp_val sym.logic_shift lut_size lut_bin
  pub slt1_in : TableAt s.mem s.regs.sp_val sym.slt1 8 slt1_table
  pub sltu1_in : TableAt s.mem s.regs.sp_val sym.sltu1 8 sltu1_table
  pub or1_in : TableAt s.mem s.regs.sp_val sym.or1 4 or1_table
  pub same_result_in : TableAt s.mem s.regs.sp_val sym.same_result 8 same_result_table
  pub check_8bit_0_in : TableAt s.mem s.regs.sp_val sym.check_8bit_0 256 check_8bit_0_table
  pub words : (r : Reg) → get r s.regs < 2 ^ 32

-- The parts of lut.bin.
pub lut_bin-and : (k : ℕ) → k < 256 * 256 → lut_bin (0 + k) ≡ gen_table 256 1 bit_and k
unfolding lut_bin
lut_bin-and k h = let rest : 0 + k ≡ k = omega arith in rw (rest, lt→ltb k (256 * 256) h) refl

pub lut_bin-or : (k : ℕ) → k < 256 * 256 → lut_bin (256 * 256 + k) ≡ gen_table 256 1 bit_or k
unfolding lut_bin
lut_bin-or k h =
    let rest : 256 * 256 + k - 256 * 256 ≡ k = omega arith in
    rw (le→ltb (256 * 256 + k) (256 * 256) (omega arith), rest, lt→ltb k (256 * 256) h) refl

pub lut_bin-xor :
    (k : ℕ) → k < 256 * 256 → lut_bin (2 * (256 * 256) + k) ≡ gen_table 256 1 bit_xor k
unfolding lut_bin
lut_bin-xor k h =
    let first : 2 * (256 * 256) + k - 256 * 256 ≡ 256 * 256 + k = omega arith in
    let second : 256 * 256 + k - 256 * 256 ≡ k = omega arith in
    rw
      (
        le→ltb (2 * (256 * 256) + k) (256 * 256) (omega arith),
        first,
        le→ltb (256 * 256 + k) (256 * 256) (omega arith),
        second,
        lt→ltb k (256 * 256) h,
      )
      refl

-- A row of bytes.
pub gen_table-byte :
    (f : ℕ → ℕ → ℕ) (j i : ℕ) → i < 256 → gen_table 256 1 f (256 * j + i) ≡ f j i % 256
gen_table-byte f j i h =
    let row : (256 * j + i) / 1 / 256 ≡ j = omega arith in
    let col : (256 * j + i) / 1 % 256 ≡ i = omega arith in
    let low : (256 * j + i) % 1 ≡ 0 = omega arith in rw (row, col, low) (omega arith)

-- A row of a table of bytes in lut.bin.
module _ {sym : Symbols} {s : State} (l : Linked sym s) where
  linked_row :
      (start : ℕ) (f : ℕ → ℕ) (size : ℕ)
      → start + size ≤ lut_size
      → ((i : ℕ) → i < size → lut_bin (start + i) ≡ f i)
      → TableAt s.mem s.regs.sp_val (sym.logic_shift + start) size f
  linked_row start f size h row = record {
    holds = λ i b. sym_assoc i ∙ l.lut_in.holds (start + i) (omega arith) ∙ row i b;
    inside = omega (arith, l.lut_in.inside);
    apart = λ i b. omega (arith, l.lut_in.apart (start + i) (omega arith));
  }
    where
      sym_assoc :
          (i : ℕ) → s.mem (sym.logic_shift + start + i) ≡ s.mem (sym.logic_shift + (start + i))
      sym_assoc i = ap s.mem (omega arith)

  -- The same at an address that is written in another way.
  pub linked_part :
      (start base : ℕ) (f : ℕ → ℕ) (size : ℕ)
      → sym.logic_shift + start ≡ base
      → start + size ≤ lut_size
      → ((i : ℕ) → i < size → lut_bin (start + i) ≡ f i)
      → TableAt s.mem s.regs.sp_val base size f
  linked_part start base f size e h row =
      subst (λ (a : ℕ). TableAt s.mem s.regs.sp_val a size f) e (linked_row start f size h row)

  pub linked_not : TableAt s.mem s.regs.sp_val (xor8_table sym + 0xff * 256) 256 (bit_xor 255)
  linked_not =
      linked_part (2 * (256 * 256) + 256 * 255) (xor8_table sym + 0xff * 256) (bit_xor 255) 256
        (omega arith) (omega arith)
        (λ i b.
          ap lut_bin (omega arith)
          ∙ lut_bin-xor (256 * 255 + i) (omega arith)
          ∙ gen_table-byte bit_xor 255 i b
          ∙ omega (arith, bit_xor_ones 8 i b))
