-- ===== src/Nemu/Riscv32/Select.antt =====
-- Which INSTPAT line an instruction word takes, read off its opcode, funct3 and funct7 fields.
use model_lib.Base.{
  ℕ, ◌/◌, ◌%◌, ◌^◌, ◌<◌, ◌≡◌, refl, ap, ap₂, ◌∙◌, inl, inr, Bool, true, false, ◌&&◌, some, List, [],
  ◌∷◌, ◌++◌, arith, ltb, ◌==◌, if◌then◌else◌, Option-cases, length,
}
use model_lib.Outcome.{ok}
use model_lib.Nemu.Pattern.{codes, pattern_decode}
use model_lib.Nemu.Pattern.Fits.{width, fits}
use model_lib.Nemu.Pattern.Fields.{is_literal, is_wild, value}
use model_lib.Nemu.Pattern.Laws.{matches-pattern_decode}
use model_lib.Nemu.Pattern.Total.{all_legal, pattern_decode-returns}
use model_lib.Nemu.Pattern.Fields.{fits-append, fits-wild, fits-literal}
use model_lib.Nemu.Riscv32.Inst.{
  Op, lui, jalr, lw, lbu, sb, sw, addi, add, ebreak, inv, pattern_of, inst_pats, select,
}

-- One line, with the meaning of its pattern in place of the test.
select-cons :
    (p : Op) (ps : List Op) (i : ℕ)
    → (all_legal (codes (pattern_of p)) && ltb (length (codes (pattern_of p))) 64) ≡ true
    → select (p ∷ ps) i ≡ (if fits (codes (pattern_of p)) i then ok (some p) else select ps i)
unfolding select
select-cons p ps i h = elim (Option-cases (pattern_decode (codes (pattern_of p)))) [
  | inl bad ↦ ground (arith, pattern_decode-returns (codes (pattern_of p)), bad)
  | inr (q, e) ↦ rw (e, select, matches-pattern_decode (codes (pattern_of p)) q i e)
]

-- A word by its fields.
abbrev pub opcode : ℕ → ℕ
opcode i = i % 128

abbrev pub funct3 : ℕ → ℕ
funct3 i = i / 4096 % 8

abbrev pub funct7 : ℕ → ℕ
funct7 i = i / 2 ^ 25 % 128

abbrev regs : List ℕ
regs = codes "??????? ????? ????? "

abbrev dest : List ℕ
dest = codes " ????? "

-- A pattern that fixes the opcode and funct3 and leaves all else open.
fits-funct3 :
    (hi f op : List ℕ) (i : ℕ)
    → is_wild hi ≡ true
    → is_literal f ≡ true
    → is_literal op ≡ true
    → width f ≡ 3
    → width op ≡ 7
    → fits (hi ++ (f ++ (dest ++ op))) i ≡ ((funct3 i == value f) && (opcode i == value op))
fits-funct3 hi f op i wild lf lop wf wop = ground (
  arith,
  fits-append hi (f ++ (dest ++ op)) i,
  fits-wild hi (i / 2 ^ width (f ++ (dest ++ op))) wild,
  fits-append f (dest ++ op) i,
  fits-append dest op i,
  fits-wild dest (i / 2 ^ width op) refl,
  fits-literal op i lop,
  fits-literal f (i / 2 ^ width (dest ++ op)) lf,
  ap (λ (t : ℕ). i % 2 ^ t) wop,
  ap (λ (t : ℕ). i / 2 ^ t) low,
  ap (λ (t : ℕ). i / 2 ^ width (dest ++ op) % 2 ^ t) wf,
)
  where
    low : width (dest ++ op) ≡ 12
    low = omega (arith, wop)

fits-lui : (i : ℕ) → fits (codes (pattern_of lui)) i ≡ (opcode i == 0x37)
fits-lui i =
    fits-append (codes "??????? ????? ????? ??? ????? ") (codes "01101 11") i
    ∙ ap₂ ◌&&◌ (fits-wild (codes "??????? ????? ????? ??? ????? ") (i / 2 ^ 7) refl)
        (fits-literal (codes "01101 11") i refl)

fits-add :
    (i : ℕ)
    → fits (codes (pattern_of add)) i ≡ ((funct7 i == 0) && ((funct3 i == 0) && (opcode i == 0x33)))
fits-add i =
    fits-append (codes "0000000") (codes " ????? ????? 000 ????? 01100 11") i
    ∙ ap₂ ◌&&◌ (fits-literal (codes "0000000") (i / 2 ^ 25) refl) low
  where
    low : fits (codes " ????? ????? 000 ????? 01100 11") i ≡ ((funct3 i == 0) && (opcode i == 0x33))
    low =
        fits-funct3 (codes " ????? ????? ") (codes "000") (codes "01100 11") i refl refl refl refl
          refl

fits-ebreak : (i : ℕ) → i < 2 ^ 32 → fits (codes (pattern_of ebreak)) i ≡ (i == 0x0010_0073)
fits-ebreak i h =
    fits-literal (codes (pattern_of ebreak)) i refl ∙ ap (λ (t : ℕ). t == 0x0010_0073) word
  where
    word : i % 2 ^ 32 ≡ i
    word = omega arith

-- The line of a word.
abbrev pub op_of : ℕ → Op
op_of i =
    if opcode i == 0x37
    then lui
    else if funct3 i == 0 && opcode i == 0x67
    then jalr
    else if funct3 i == 2 && opcode i == 0x03
    then lw
    else if funct3 i == 4 && opcode i == 0x03
    then lbu
    else if funct3 i == 0 && opcode i == 0x23
    then sb
    else if funct3 i == 2 && opcode i == 0x23
    then sw
    else if funct3 i == 0 && opcode i == 0x13
    then addi
    else if funct7 i == 0 && (funct3 i == 0 && opcode i == 0x33)
    then add
    else if i == 0x0010_0073
    then ebreak
    else inv

if_line :
    (b : Bool) (p q : Op)
    → (if b then ok (some p) else ok (some q)) ≡ ok (some (if b then p else q))
if_line true p q = refl
if_line false p q = refl

-- For every instruction word the block takes exactly one line: that of the MiniRV instruction
-- with the word's opcode, funct3 and funct7, `ebreak` for its only word, and the line of invalid
-- instructions for all others.
pub select_lem : (i : ℕ) → i < 2 ^ 32 → select inst_pats i ≡ ok (some (op_of i))
select_lem i h =
    rw
      (
        select-cons lui (jalr ∷ lw ∷ lbu ∷ sb ∷ sw ∷ addi ∷ add ∷ ebreak ∷ inv ∷ []) i refl,
        select-cons jalr (lw ∷ lbu ∷ sb ∷ sw ∷ addi ∷ add ∷ ebreak ∷ inv ∷ []) i refl,
        select-cons lw (lbu ∷ sb ∷ sw ∷ addi ∷ add ∷ ebreak ∷ inv ∷ []) i refl,
        select-cons lbu (sb ∷ sw ∷ addi ∷ add ∷ ebreak ∷ inv ∷ []) i refl,
        select-cons sb (sw ∷ addi ∷ add ∷ ebreak ∷ inv ∷ []) i refl,
        select-cons sw (addi ∷ add ∷ ebreak ∷ inv ∷ []) i refl,
        select-cons addi (add ∷ ebreak ∷ inv ∷ []) i refl,
        select-cons add (ebreak ∷ inv ∷ []) i refl,
        select-cons ebreak (inv ∷ []) i refl,
        select-cons inv [] i refl,
        fits-lui i,
        fits-funct3 regs (codes "000") (codes "11001 11") i refl refl refl refl refl,
        fits-funct3 regs (codes "010") (codes "00000 11") i refl refl refl refl refl,
        fits-funct3 regs (codes "100") (codes "00000 11") i refl refl refl refl refl,
        fits-funct3 regs (codes "000") (codes "01000 11") i refl refl refl refl refl,
        fits-funct3 regs (codes "010") (codes "01000 11") i refl refl refl refl refl,
        fits-funct3 regs (codes "000") (codes "00100 11") i refl refl refl refl refl,
        fits-add i,
        fits-ebreak i h,
        fits-wild (codes (pattern_of inv)) i refl,
      )
      (simp if_line)
