-- ===== src/Minirv/Macros/Signs.antt =====
-- The truth tables in the comment of inst-replace.h: three sign bits find the order of two numbers.
use model_lib.Base.{
  ℕ, ◌+◌, ◌*◌, ◌/◌, ◌^◌, ◌≤◌, ◌<◌, ◌≡◌, refl, sym, ap, ◌∙◌, ◌⊎◌, inl, inr, Bool, true, false, arith,
  ltb, lt→ltb, le→ltb,
}
use model_lib.Base.Words.{u32, sub32}
use model_lib.Minirv.Tables.{slt1_table, sltu1_table}

abbrev pub sign_bit : ℕ → ℕ
sign_bit x = x / 2 ^ 31

-- The entry of a table of eight.
abbrev pub sign_index : ℕ → ℕ → ℕ
sign_index a b = 4 * sign_bit a + 2 * sign_bit b + sign_bit (sub32 a b)

-- The order of two words, as signed numbers.
abbrev pub signed_less : ℕ → ℕ → Bool
signed_less a b = ltb (u32 (a + 2 ^ 31)) (u32 (b + 2 ^ 31))

abbrev pub flag : Bool → ℕ
flag true = 1
flag false = 0

pub sign_cases : (x : ℕ) → x < 2 ^ 32 → (sign_bit x ≡ 0) ⊎ (sign_bit x ≡ 1)
sign_cases x h = ground arith

-- An entry of a table that says 1, and one that says 0.
entry_yes : (f : ℕ → ℕ) {i : ℕ} (k : ℕ) {x y : ℕ} → i ≡ k → f k ≡ 1 → x < y → f i ≡ flag (ltb x y)
entry_yes f k e v h = ap f e ∙ v ∙ sym (ap flag (lt→ltb _ _ h))

entry_no : (f : ℕ → ℕ) {i : ℕ} (k : ℕ) {x y : ℕ} → i ≡ k → f k ≡ 0 → y ≤ x → f i ≡ flag (ltb x y)
entry_no f k e v h = ap f e ∙ v ∙ sym (ap flag (le→ltb _ _ h))

-- The truth tables in the source's comment.
slt1_by_signs :
    (a b : ℕ)
    → a < 2 ^ 32
    → b < 2 ^ 32
    → (sign_bit a ≡ 0) ⊎ (sign_bit a ≡ 1)
    → (sign_bit b ≡ 0) ⊎ (sign_bit b ≡ 1)
    → (sign_bit (sub32 a b) ≡ 0) ⊎ (sign_bit (sub32 a b) ≡ 1)
    → slt1_table (sign_index a b) ≡ flag (signed_less a b)
slt1_by_signs a b ha hb (inl p) (inl q) (inl r) =
    entry_no slt1_table 0 (omega arith) refl (omega arith)
slt1_by_signs a b ha hb (inl p) (inl q) (inr r) =
    entry_yes slt1_table 1 (omega arith) refl (omega arith)
slt1_by_signs a b ha hb (inl p) (inr q) (inl r) =
    entry_no slt1_table 2 (omega arith) refl (omega arith)
slt1_by_signs a b ha hb (inl p) (inr q) (inr r) =
    entry_no slt1_table 3 (omega arith) refl (omega arith)
slt1_by_signs a b ha hb (inr p) (inl q) (inl r) =
    entry_yes slt1_table 4 (omega arith) refl (omega arith)
slt1_by_signs a b ha hb (inr p) (inl q) (inr r) =
    entry_yes slt1_table 5 (omega arith) refl (omega arith)
slt1_by_signs a b ha hb (inr p) (inr q) (inl r) =
    entry_no slt1_table 6 (omega arith) refl (omega arith)
slt1_by_signs a b ha hb (inr p) (inr q) (inr r) =
    entry_yes slt1_table 7 (omega arith) refl (omega arith)

pub slt1_lem :
    (a b : ℕ) → a < 2 ^ 32 → b < 2 ^ 32 → slt1_table (sign_index a b) ≡ flag (signed_less a b)
slt1_lem a b ha hb =
    slt1_by_signs a b ha hb (sign_cases a ha) (sign_cases b hb)
      (sign_cases (sub32 a b) (omega arith))

sltu1_by_signs :
    (a b : ℕ)
    → a < 2 ^ 32
    → b < 2 ^ 32
    → (sign_bit a ≡ 0) ⊎ (sign_bit a ≡ 1)
    → (sign_bit b ≡ 0) ⊎ (sign_bit b ≡ 1)
    → (sign_bit (sub32 a b) ≡ 0) ⊎ (sign_bit (sub32 a b) ≡ 1)
    → sltu1_table (sign_index a b) ≡ flag (ltb a b)
sltu1_by_signs a b ha hb (inl p) (inl q) (inl r) =
    entry_no sltu1_table 0 (omega arith) refl (omega arith)
sltu1_by_signs a b ha hb (inl p) (inl q) (inr r) =
    entry_yes sltu1_table 1 (omega arith) refl (omega arith)
sltu1_by_signs a b ha hb (inl p) (inr q) (inl r) =
    entry_yes sltu1_table 2 (omega arith) refl (omega arith)
sltu1_by_signs a b ha hb (inl p) (inr q) (inr r) =
    entry_yes sltu1_table 3 (omega arith) refl (omega arith)
sltu1_by_signs a b ha hb (inr p) (inl q) (inl r) =
    entry_no sltu1_table 4 (omega arith) refl (omega arith)
sltu1_by_signs a b ha hb (inr p) (inl q) (inr r) =
    entry_no sltu1_table 5 (omega arith) refl (omega arith)
sltu1_by_signs a b ha hb (inr p) (inr q) (inl r) =
    entry_no sltu1_table 6 (omega arith) refl (omega arith)
sltu1_by_signs a b ha hb (inr p) (inr q) (inr r) =
    entry_yes sltu1_table 7 (omega arith) refl (omega arith)

pub sltu1_lem : (a b : ℕ) → a < 2 ^ 32 → b < 2 ^ 32 → sltu1_table (sign_index a b) ≡ flag (ltb a b)
sltu1_lem a b ha hb =
    sltu1_by_signs a b ha hb (sign_cases a ha) (sign_cases b hb)
      (sign_cases (sub32 a b) (omega arith))
