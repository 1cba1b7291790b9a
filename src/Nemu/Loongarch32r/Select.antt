-- ===== src/Nemu/Loongarch32r/Select.antt =====
-- Which line of the LoongArch block a word takes, read off its upper bits.
use model_lib.Base.{
  ℕ, ◌/◌, ◌%◌, ◌^◌, ◌≡◌, refl, Bool, true, false, some, [], ◌∷◌, ◌==◌, if◌then◌else◌,
}
use model_lib.Outcome.{ok}
use model_lib.Nemu.Pattern.{codes}
use model_lib.Nemu.Pattern.Fields.{fits-wild}
use model_lib.Nemu.Pattern.Block.{select_line, select_line-cons, fits-upper}
use model_lib.Nemu.Loongarch32r.{Op, pcaddu12i, ld_w, st_w, break_trap, inv, pattern_of, inst_pats}

-- The upper 7, 10 and 17 bits.
abbrev pub opcode7 : ℕ → ℕ
opcode7 i = i / 2 ^ 25 % 128

abbrev pub opcode10 : ℕ → ℕ
opcode10 i = i / 2 ^ 22 % 1024

abbrev pub opcode17 : ℕ → ℕ
opcode17 i = i / 2 ^ 15 % 131072

-- The line of a word.
abbrev pub op_of : ℕ → Op
op_of i =
    if opcode7 i == 0x0e
    then pcaddu12i
    else if opcode10 i == 0xa2
    then ld_w
    else if opcode10 i == 0xa6
    then st_w
    else if opcode17 i == 0x54
    then break_trap
    else inv

if_line :
    (b : Bool) (p q : Op)
    → (if b then ok (some p) else ok (some q)) ≡ ok (some (if b then p else q))
if_line true p q = refl
if_line false p q = refl

-- For every word the block takes exactly one line.
pub loongarch_select_lem : (i : ℕ) → select_line pattern_of inst_pats i ≡ ok (some (op_of i))
loongarch_select_lem i =
    rw
      (
        select_line-cons pattern_of pcaddu12i (ld_w ∷ st_w ∷ break_trap ∷ inv ∷ []) i refl,
        select_line-cons pattern_of ld_w (st_w ∷ break_trap ∷ inv ∷ []) i refl,
        select_line-cons pattern_of st_w (break_trap ∷ inv ∷ []) i refl,
        select_line-cons pattern_of break_trap (inv ∷ []) i refl,
        select_line-cons pattern_of inv [] i refl,
        fits-upper (codes "0001110") (codes " ????? ????? ????? ????? ?????") i refl refl,
        fits-upper (codes "0010100010") (codes " ???????????? ????? ?????") i refl refl,
        fits-upper (codes "0010100110") (codes " ???????????? ????? ?????") i refl refl,
        fits-upper (codes "0000 0000 0010 10100") (codes " ????? ????? ?????") i refl refl,
        fits-wild (codes (pattern_of inv)) i refl,
      )
      (simp if_line)
